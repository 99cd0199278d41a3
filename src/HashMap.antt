-- ===== src/HashMap.antt =====
-- `std::collections::HashMap` with numbers for keys: an association list, whose order the program
-- never reads.
use vdma.Prelude.{
  ℕ, ◌+◌, ◌<◌, ◌≡◌, ◌≢◌, refl, List, [], ◌∷◌, Option, none, some, Bool, not, arith, ◌==◌,
  if◌then◌else◌, keep, map, count,
}

module _ {ℓ} {V : Type ℓ} where
  unfoldable pub get : ℕ → List (ℕ × V) → Option V
  get k [] = none
  get k ((j, v) ∷ m) = let rest = get k m in if j == k then some v else rest

  -- The map, and the value that was replaced.
  unfoldable pub insert : ℕ → V → List (ℕ × V) → List (ℕ × V) × Option V
  insert k v [] = ((k, v) ∷ [], none)
  insert k v ((j, w) ∷ m) =
      let rest = insert k v m in if j == k then ((j, v) ∷ m, some w) else ((j, w) ∷ rest.0, rest.1)

  -- The map, and the value that was there.
  unfoldable pub remove : ℕ → List (ℕ × V) → List (ℕ × V) × Option V
  remove k [] = ([], none)
  remove k ((j, w) ∷ m) =
      let rest = remove k m in if j == k then (m, some w) else ((j, w) ∷ rest.0, rest.1)

  abbrev pub Absent : ℕ → List (ℕ × V) → Type 0
  Absent k [] = Unit {0}
  Absent k ((j, w) ∷ m) = (j ≢ k) × Absent k m

  -- One entry for each key.
  abbrev pub AllDistinct : List (ℕ × V) → Type 0
  AllDistinct [] = Unit {0}
  AllDistinct ((j, w) ∷ m) = Absent j m × AllDistinct m

  pub get-Absent : (k : ℕ) (m : List (ℕ × V)) → Absent k m → get k m ≡ none
  unfolding get
  get-Absent k [] h = refl
  get-Absent k (e ∷ m) h = ground (arith, get-Absent k m h.1)

  pub get-insert :
      (k : ℕ) (v : V) (j : ℕ) (m : List (ℕ × V))
      → get j (insert k v m).0 ≡ (if k == j then some v else get j m)
  unfolding get insert
  get-insert k v j [] = ground arith
  get-insert k v j (e ∷ m) = ground (arith, get-insert k v j m)

  pub insert-replaced : (k : ℕ) (v : V) (m : List (ℕ × V)) → (insert k v m).1 ≡ get k m
  unfolding get insert
  insert-replaced k v [] = refl
  insert-replaced k v (e ∷ m) = ground (arith, insert-replaced k v m)

  pub get-remove :
      (k j : ℕ) (m : List (ℕ × V))
      → AllDistinct m
      → get j (remove k m).0 ≡ (if k == j then none else get j m)
  unfolding get remove
  get-remove k j [] d = ground arith
  get-remove k j (e ∷ m) d = ground (arith, get-remove k j m d.1, get-Absent e.0 m d.0)

  pub remove-removed : (k : ℕ) (m : List (ℕ × V)) → (remove k m).1 ≡ get k m
  unfolding get remove
  remove-removed k [] = refl
  remove-removed k (e ∷ m) = ground (arith, remove-removed k m)

  insert-Absent :
      (k : ℕ) (v : V) (j : ℕ) (m : List (ℕ × V)) → j ≢ k → Absent j m → Absent j (insert k v m).0
  unfolding insert
  insert-Absent k v j [] h a = ground arith
  insert-Absent k v j (e ∷ m) h a = ground (arith, insert-Absent k v j m h a.1)

  pub insert-AllDistinct :
      (k : ℕ) (v : V) (m : List (ℕ × V)) → AllDistinct m → AllDistinct (insert k v m).0
  unfolding insert
  insert-AllDistinct k v [] d = (tt, tt)
  insert-AllDistinct k v (e ∷ m) d =
      ground (arith, insert-AllDistinct k v m d.1, insert-Absent k v e.0 m)

  remove-Absent : (k j : ℕ) (m : List (ℕ × V)) → Absent j m → Absent j (remove k m).0
  unfolding remove
  remove-Absent k j [] a = tt
  remove-Absent k j (e ∷ m) a = ground (arith, remove-Absent k j m a.1)

  pub remove-AllDistinct : (k : ℕ) (m : List (ℕ × V)) → AllDistinct m → AllDistinct (remove k m).0
  unfolding remove
  remove-AllDistinct k [] d = tt
  remove-AllDistinct k (e ∷ m) d =
      ground (arith, remove-AllDistinct k m d.1, remove-Absent k e.0 m d.0)

  keep-Absent : (p : ℕ × V → Bool) (j : ℕ) (m : List (ℕ × V)) → Absent j m → Absent j (keep p m)
  keep-Absent p j [] a = tt
  keep-Absent p j (e ∷ m) a = ground (arith, keep-Absent p j m a.1)

  pub keep-AllDistinct :
      (p : ℕ × V → Bool) (m : List (ℕ × V)) → AllDistinct m → AllDistinct (keep p m)
  keep-AllDistinct p [] d = tt
  keep-AllDistinct p (e ∷ m) d = ground (arith, keep-AllDistinct p m d.1, keep-Absent p e.0 m d.0)

  -- What `retain` does to one key, by a test of the value.
  pub get-keep :
      (p : V → Bool) (k : ℕ) (m : List (ℕ × V))
      → AllDistinct m
      → get k (keep (λ e. p e.1) m)
        ≡ elim (get k m) [ none ↦ none | some v ↦ if p v then some v else none ]
  unfolding get
  get-keep p k [] d = refl
  get-keep p k (e ∷ m) d = ground (arith, get-keep p k m d.1, get-Absent e.0 m d.0)

-- Where the values are handles: how often one is in the map.
abbrev pub values : List (ℕ × ℕ) → List ℕ
values = map (λ e. e.1)

abbrev pub the_value : Option ℕ → List ℕ
the_value none = []
the_value (some v) = v ∷ []

pub count-insert :
    (i k v : ℕ) (m : List (ℕ × ℕ))
    → count i (values (insert k v m).0) + count i (the_value (insert k v m).1)
      ≡ count i (v ∷ values m)
unfolding insert
count-insert i k v [] = ground arith
count-insert i k v (e ∷ m) = ground (arith, count-insert i k v m)

pub count-remove :
    (i k : ℕ) (m : List (ℕ × ℕ))
    → count i (values (remove k m).0) + count i (the_value (remove k m).1) ≡ count i (values m)
unfolding remove
count-remove i k [] = refl
count-remove i k (e ∷ m) = ground (arith, count-remove i k m)

pub count-keep :
    (i : ℕ) (p : ℕ × ℕ → Bool) (m : List (ℕ × ℕ))
    → count i (values (keep p m)) + count i (values (keep (λ e. not (p e)) m)) ≡ count i (values m)
count-keep i p [] = refl
count-keep i p (e ∷ m) = ground (arith, count-keep i p m)

pub count-get : (k v : ℕ) (m : List (ℕ × ℕ)) → get k m ≡ some v → 0 < count v (values m)
unfolding get
count-get k v [] h = cc
count-get k v (e ∷ m) h = ground (arith, count-get k v m)
