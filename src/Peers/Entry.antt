-- ===== src/Peers/Entry.antt =====
-- A new entry: the sweep of the index, and the entry's place in it.
use vdma.Prelude.{
  ℕ, ◌+◌, ◌≤◌, ◌<◌, ◌≡◌, refl, subst, List, [], ◌∷◌, ◌++◌, some, Bool, arith, ltb, ◌==◌, keep,
  length, count, count-append, get_elem?-append_lt, get_elem?-append_self, get_elem?-lt, Bool-cases,
  inl, inr, ◌∙◌,
}
use vdma.Errors.{ok}
use vdma.Arc.{Store, Balanced, Balanced-same}
use vdma.Arc
use vdma.HashMap.{values}
use vdma.Peers.{
  AddressFormat, PeerAddress, RegisteredAddress, PeerAddresses, identity, identity_len,
  get_key_value, insert_key, sweep, minimum_sweep, same_bytes,
}
use vdma.Peers.Slots.{
  Index, Vacant, AllSlots, insert_key-AllSlots, get_key_value-insert_key, insert_key_kept,
  keep-AllSlots, get_key_value-keep, keep-Vacant, same_bytes→eq, same_bytes_refl,
}
use vdma.Peers.Valid.{Keyed, AllKeyed, Indexed, holders, IsValid}

keep-AllKeyed :
    (format : AddressFormat) (entries : List RegisteredAddress) (p : PeerAddress × ℕ → Bool)
    (m : Index)
    → AllKeyed format entries m
    → AllKeyed format entries (keep p m)
keep-AllKeyed format entries p [] h = tt
keep-AllKeyed format entries p (x ∷ m) h = elim (Bool-cases (p x)) [
  | inl e ↦ rw e (h.0, keep-AllKeyed format entries p m h.1)
  | inr e ↦ rw e (keep-AllKeyed format entries p m h.1)
]

abbrev live : PeerAddresses → PeerAddress × ℕ → Bool
live s e = ltb 0 (s.arcs.strong e.1)

-- What a sweep keeps: the entries that are held, and the order of things.
pub record Swept (s t : PeerAddresses) : Type 0 where
  pub clients : t.by_client ≡ s.by_client
  pub format : t.format ≡ s.format
  pub arcs : t.arcs ≡ s.arcs
  slots : AllSlots s.by_address → AllSlots t.by_address
  vacant : (i : List ℕ) → Vacant i s.by_address → Vacant i t.by_address
  keyed :
      AllKeyed s.format s.arcs.values s.by_address → AllKeyed s.format s.arcs.values t.by_address
  found :
      (i : List ℕ) (x : PeerAddress × ℕ)
      → get_key_value i s.by_address ≡ some x
      → 0 < s.arcs.strong x.1
      → get_key_value i t.by_address ≡ some x
  room : length t.by_address < t.sweep_at
  floor : minimum_sweep ≤ s.sweep_at → minimum_sweep ≤ t.sweep_at

pub sweep-Swept : (s : PeerAddresses) → Swept s (sweep s)
unfolding sweep
sweep-Swept s = elim (Bool-cases (ltb (length s.by_address) s.sweep_at)) [
  | inl p ↦
      rw (p, sweep)
        (record {
          clients = refl;
          format = refl;
          arcs = refl;
          slots = λ h. h;
          vacant = λ i h. h;
          keyed = λ h. h;
          found = λ i x h k. h;
          room = ground arith;
          floor = λ h. h;
        })
  | inr p ↦
      rw (p, sweep)
        (record {
          clients = refl;
          format = refl;
          arcs = refl;
          slots = keep-AllSlots (live s) s.by_address;
          vacant = λ i. keep-Vacant (live s) i s.by_address;
          keyed = keep-AllKeyed s.format s.arcs.values (live s) s.by_address;
          found = λ i x h k. get_key_value-keep (live s) i s.by_address x h (ground arith);
          room = ground arith;
          floor = λ h. ground arith;
        })
]

append-AllKeyed :
    (format : AddressFormat) (entries : List RegisteredAddress) (reg : RegisteredAddress)
    (m : Index)
    → AllKeyed format entries m
    → AllKeyed format (entries ++ reg ∷ []) m
append-AllKeyed format entries reg [] h = tt
append-AllKeyed format entries reg (x ∷ m) h =
    let (own, at, same, len) = h.0 in
    (
      (
        own,
        get_elem?-append_lt entries (reg ∷ []) x.1 (get_elem?-lt entries x.1 own at) ∙ at,
        same,
        len,
      ),
      append-AllKeyed format entries reg m h.1,
    )

insert_key-AllKeyed :
    (format : AddressFormat) (entries : List RegisteredAddress) (b : PeerAddress) (r : ℕ)
    (m : Index)
    → Vacant (identity b) m
    → Keyed format entries (b, r)
    → AllKeyed format entries m
    → AllKeyed format entries (insert_key b r m)
unfolding insert_key
insert_key-AllKeyed format entries b r [] v k h = (k, tt)
insert_key-AllKeyed format entries b r ((a, e) ∷ m) v k h =
    elim (Bool-cases (same_bytes (identity a) (identity b))) [
      | inl p ↦ absurd (v.0 (same_bytes→eq (identity a) (identity b) p))
      | inr p ↦ rw p (h.0, insert_key-AllKeyed format entries b r m v.1 k h.1)
    ]

length-insert_key : (b : PeerAddress) (r : ℕ) (m : Index) → length (insert_key b r m) ≤ length m + 1
unfolding insert_key
length-insert_key b r [] = omega arith
length-insert_key b r (x ∷ m) = ground (arith, length-insert_key b r m)

-- The state with the entry allocated, and with the index swept and the entry in it.
abbrev pub allocated : ℕ → List ℕ → PeerAddresses → PeerAddresses
allocated peer address s = record s {
  arcs = Arc.new (record { peer = peer; address = address }) s.arcs;
}

abbrev pub placed : PeerAddress → ℕ → PeerAddresses → PeerAddresses
placed key r t = record t { by_address = insert_key key r t.by_address }

module _ (key : PeerAddress) (peer : ℕ) (ls : List ℕ) (s : PeerAddresses)
    (vacant : Vacant (identity key) s.by_address)
    (sized : identity_len s.format key.bytes ≡ ok key.identity_len) (v : IsValid ls s) where
  abbrev s₁ : PeerAddresses
  s₁ = allocated peer key.bytes s

  abbrev s₂ : PeerAddresses
  s₂ = sweep s₁

  abbrev r : ℕ
  r = length s.arcs.values

  index_found :
      (e : ℕ)
      → 0 < count e (values s.by_client ++ r ∷ ls)
      → Indexed e (insert_key key r s₂.by_address)
  unfolding Arc.new
  index_found e h = elim (Bool-cases (e == r)) [
    | inl p ↦ (
      key,
      ground (
        arith,
        get_key_value-insert_key key r (identity key) s₂.by_address
            ((sweep-Swept s₁).vacant (identity key) vacant),
        same_bytes_refl (identity key),
      ),
    )
    | inr p ↦
        let (a, at) = v.indexed e (
          ground (
            arith,
            count-append e (values s.by_client) (r ∷ ls),
            count-append e (values s.by_client) ls,
          )) in
        let kept : get_key_value (identity a) s₂.by_address ≡ some (a, e) =
          (sweep-Swept s₁).found (identity a) (a, e) at
            (ground (
              arith,
              v.accounted e,
              count-append e (values s.by_client) (r ∷ ls),
              count-append e (values s.by_client) ls,
            )) in
        (
          a,
          insert_key_kept key r (identity a) s₂.by_address (a, e)
              ((sweep-Swept s₁).vacant (identity key) vacant) kept,
        )
  ]

  pub placed-IsValid : IsValid (r ∷ ls) (placed key r s₂)
  unfolding Arc.new
  placed-IsValid =
      let swept : Swept s₁ s₂ = sweep-Swept s₁ in
      record {
        accounted =
            rw (swept.arcs, swept.clients)
              (Balanced-same (r ∷ holders ls s) (holders (r ∷ ls) s) s₁.arcs
                (λ i. omega (
                  arith,
                  count-append i (values s.by_client) (r ∷ ls),
                  count-append i (values s.by_client) ls,
                ))
                (Arc.new-Balanced (record { peer = peer; address = key.bytes }) (holders ls s)
                  s.arcs v.accounted));
        clients = rw swept.clients v.clients;
        slots =
            insert_key-AllSlots key r s₂.by_address (swept.vacant (identity key) vacant)
              (swept.slots v.slots);
        keyed =
            rw (swept.format, swept.arcs)
              (insert_key-AllKeyed s.format s₁.arcs.values key r s₂.by_address
                (swept.vacant (identity key) vacant)
                (
                  record { peer = peer; address = key.bytes },
                  get_elem?-append_self s.arcs.values (record { peer = peer; address = key.bytes }),
                  refl,
                  sized,
                )
                (swept.keyed (
                  append-AllKeyed s.format s.arcs.values
                    (record { peer = peer; address = key.bytes }) s.by_address v.keyed)));
        indexed =
            λ e h. index_found e (subst (λ c. 0 < count e (values c ++ r ∷ ls)) swept.clients h);
        bounded = omega (arith, swept.room, length-insert_key key r s₂.by_address);
        floor = swept.floor v.floor;
      }
