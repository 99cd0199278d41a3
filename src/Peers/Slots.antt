-- ===== src/Peers/Slots.antt =====
-- The index of entries by slot: keys are equal when their identities are.
use vdma.Prelude.{
  ℕ, ◌≡◌, ◌≢◌, refl, sym, subst, List, [], ◌∷◌, none, some, Bool, true, false, arith, if◌then◌else◌,
  keep, Bool-cases, inl, inr,
}
use vdma.Peers.{PeerAddress, identity, same_bytes, get_key_value, remove_key, insert_key}

pub same_bytes→eq : (xs ys : List ℕ) → same_bytes xs ys ≡ true → xs ≡ ys
same_bytes→eq [] [] h = refl
same_bytes→eq [] (y ∷ ys) h = cc
same_bytes→eq (x ∷ xs) [] h = cc
same_bytes→eq (x ∷ xs) (y ∷ ys) h = ground (arith, same_bytes→eq xs ys)

pub same_bytes_refl : (xs : List ℕ) → same_bytes xs xs ≡ true
same_bytes_refl [] = refl
same_bytes_refl (x ∷ xs) = ground (arith, same_bytes_refl xs)

pub same_bytes→ne : (xs ys : List ℕ) → same_bytes xs ys ≡ false → xs ≢ ys
same_bytes→ne xs ys h e = cc (same_bytes_refl xs)

abbrev pub Index : Type 0
Index = List (PeerAddress × ℕ)

abbrev pub Vacant : List ℕ → Index → Type 0
Vacant i [] = Unit {0}
Vacant i ((a, e) ∷ m) = (identity a ≢ i) × Vacant i m

abbrev pub AllSlots : Index → Type 0
AllSlots [] = Unit {0}
AllSlots ((a, e) ∷ m) = Vacant (identity a) m × AllSlots m

pub get_key_value-Vacant : (i : List ℕ) (m : Index) → Vacant i m → get_key_value i m ≡ none
unfolding get_key_value
get_key_value-Vacant i [] h = refl
get_key_value-Vacant i ((a, e) ∷ m) h =
    ground (arith, same_bytes→eq (identity a) i, get_key_value-Vacant i m h.1)

pub get_key_value-identity :
    (i : List ℕ) (m : Index) (x : PeerAddress × ℕ) → get_key_value i m ≡ some x → identity x.0 ≡ i
unfolding get_key_value
get_key_value-identity i [] x h = cc
get_key_value-identity i ((a, e) ∷ m) x h =
    ground (arith, same_bytes→eq (identity a) i, get_key_value-identity i m x)

remove_key-Vacant : (i j : List ℕ) (m : Index) → Vacant j m → Vacant j (remove_key i m)
unfolding remove_key
remove_key-Vacant i j [] h = tt
remove_key-Vacant i j ((a, e) ∷ m) h = ground (arith, remove_key-Vacant i j m h.1)

pub remove_key-AllSlots : (i : List ℕ) (m : Index) → AllSlots m → AllSlots (remove_key i m)
unfolding remove_key
remove_key-AllSlots i [] h = tt
remove_key-AllSlots i ((a, e) ∷ m) h =
    ground (arith, remove_key-AllSlots i m h.1, remove_key-Vacant i (identity a) m h.0)

-- The slot that was removed is vacant, and the others are as they were.
pub remove_key-Vacant_self : (i : List ℕ) (m : Index) → AllSlots m → Vacant i (remove_key i m)
unfolding remove_key
remove_key-Vacant_self i [] h = tt
remove_key-Vacant_self i ((a, e) ∷ m) h = elim (Bool-cases (same_bytes (identity a) i)) [
  | inl p ↦ rw p (subst (λ k. Vacant k m) (same_bytes→eq (identity a) i p) h.0)
  | inr p ↦ rw p (same_bytes→ne (identity a) i p, remove_key-Vacant_self i m h.1)
]

pub get_key_value-remove_key :
    (i j : List ℕ) (m : Index) → i ≢ j → get_key_value j (remove_key i m) ≡ get_key_value j m
unfolding get_key_value remove_key
get_key_value-remove_key i j [] h = refl
get_key_value-remove_key i j ((a, e) ∷ m) h = ground (
  arith,
  same_bytes→eq (identity a) i,
  same_bytes→eq (identity a) j,
  get_key_value-remove_key i j m h,
)

insert_key-Vacant :
    (b : PeerAddress) (r : ℕ) (j : List ℕ) (m : Index)
    → identity b ≢ j
    → Vacant j m
    → Vacant j (insert_key b r m)
unfolding insert_key
insert_key-Vacant b r j [] h v = (h, tt)
insert_key-Vacant b r j ((a, e) ∷ m) h v = ground (arith, insert_key-Vacant b r j m h v.1)

pub insert_key-AllSlots :
    (b : PeerAddress) (r : ℕ) (m : Index)
    → Vacant (identity b) m
    → AllSlots m
    → AllSlots (insert_key b r m)
unfolding insert_key
insert_key-AllSlots b r [] v h = (tt, tt)
insert_key-AllSlots b r ((a, e) ∷ m) v h =
    elim (Bool-cases (same_bytes (identity a) (identity b))) [
      | inl p ↦ absurd (v.0 (same_bytes→eq (identity a) (identity b) p))
      | inr p ↦ rw p (
        insert_key-Vacant b r (identity a) m (λ q. v.0 (sym q)) h.0,
        insert_key-AllSlots b r m v.1 h.1,
      )
    ]

pub get_key_value-insert_key :
    (b : PeerAddress) (r : ℕ) (j : List ℕ) (m : Index)
    → Vacant (identity b) m
    → get_key_value j (insert_key b r m)
      ≡ (if same_bytes (identity b) j then some (b, r) else get_key_value j m)
unfolding get_key_value insert_key
get_key_value-insert_key b r j [] v = refl
get_key_value-insert_key b r j ((a, e) ∷ m) v = ground (
  arith,
  same_bytes→eq (identity a) (identity b),
  same_bytes→eq (identity a) j,
  same_bytes→eq (identity b) j,
  get_key_value-insert_key b r j m v.1,
  v.0,
)

pub keep-Vacant :
    (p : PeerAddress × ℕ → Bool) (j : List ℕ) (m : Index) → Vacant j m → Vacant j (keep p m)
keep-Vacant p j [] h = tt
keep-Vacant p j (x ∷ m) h = ground (arith, keep-Vacant p j m h.1)

pub keep-AllSlots : (p : PeerAddress × ℕ → Bool) (m : Index) → AllSlots m → AllSlots (keep p m)
keep-AllSlots p [] h = tt
keep-AllSlots p (x ∷ m) h =
    ground (arith, keep-AllSlots p m h.1, keep-Vacant p (identity x.0) m h.0)

-- A slot whose entry is kept is found as before.
pub get_key_value-keep :
    (p : PeerAddress × ℕ → Bool) (j : List ℕ) (m : Index) (x : PeerAddress × ℕ)
    → get_key_value j m ≡ some x
    → p x ≡ true
    → get_key_value j (keep p m) ≡ some x
unfolding get_key_value
get_key_value-keep p j [] x h t = cc
get_key_value-keep p j (y ∷ m) x h t = ground (arith, get_key_value-keep p j m x)

-- A key for a vacant slot leaves what the others have.
pub insert_key_kept :
    (b : PeerAddress) (r : ℕ) (j : List ℕ) (m : Index) (x : PeerAddress × ℕ)
    → Vacant (identity b) m
    → get_key_value j m ≡ some x
    → get_key_value j (insert_key b r m) ≡ some x
unfolding get_key_value insert_key
insert_key_kept b r j [] x v h = cc
insert_key_kept b r j ((a, e) ∷ m) x v h = elim (Bool-cases (same_bytes (identity a) j)) [
  | inl p ↦ elim (Bool-cases (same_bytes (identity a) (identity b))) [
    | inl q ↦ absurd (v.0 (same_bytes→eq (identity a) (identity b) q))
    | inr q ↦ ground (arith, p, q, h)
  ]
  | inr p ↦ elim (Bool-cases (same_bytes (identity a) (identity b))) [
    | inl q ↦ absurd (v.0 (same_bytes→eq (identity a) (identity b) q))
    | inr q ↦ ground (arith, p, q, h, insert_key_kept b r j m x v.1)
  ]
]
