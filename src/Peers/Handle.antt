-- ===== src/Peers/Handle.antt =====
-- `handle`: the entry a client posts against.
use vdma.Prelude.{
  ℕ, ◌<◌, ◌≡◌, refl, sym, ap, subst, List, [], ◌∷◌, Option, none, some, arith, length, count,
  count-append, get_elem?, get_elem?-append_self, Bool-cases, Option-cases, inl, inr, ◌∙◌, ◌⊎◌,
}
use vdma.Prelude.Int.{ℤ}
use vdma.Errors.{Result, ok, err, Result-cases, DmaError}
use vdma.Arc.{values-release_all}
use vdma.Arc
use vdma.HashMap.{get, insert, values, the_value, get-insert}
use vdma.Peers.{
  AddressFormat, PeerAddress, RegisteredAddress, PeerAddresses, identity, identity_len, take,
  get_key_value, sweep, hold, register, share, same_bytes, held_for, make_room, evict_stale,
  release, evict, drop_entry, insert_address, insert_new, handle,
}
use vdma.Peers.Slots.{Vacant, same_bytes→eq}
use vdma.Peers.Valid.{Keyed, AllKeyed, holders, IsValid}
use vdma.Peers.Clients.{clone-IsValid, hold-IsValid}
use vdma.Peers.Room.{make_room-IsValid, held_for-none, held_for-some}
use vdma.Peers.Entry.{Swept, sweep-Swept, allocated, placed, placed-IsValid}

-- The client posts against the entry, which was registered with the address.
abbrev pub Serves : ℕ → List ℕ → ℕ → PeerAddresses → Type 0
Serves client address e s =
    (get client s.by_client ≡ some e)
    × ((reg : RegisteredAddress) × (get_elem? s.arcs.values e ≡ some reg) × (reg.address ≡ address))

hold-Serves :
    (client e : ℕ) (address : List ℕ) (s : PeerAddresses) (reg : RegisteredAddress)
    → get_elem? s.arcs.values e ≡ some reg
    → reg.address ≡ address
    → Serves client address e (hold client e s)
unfolding hold
hold-Serves client e address s reg at same = (
  ground (arith, get-insert client e client s.by_client),
  (
    reg,
    subst (λ vs. get_elem? vs e ≡ some reg)
        (sym (values-release_all (the_value (insert client e s.by_client).1) s.arcs)) at,
    same,
  ),
)

count_held : (e : ℕ) (ls : List ℕ) (s : PeerAddresses) → 0 < count e (holders (e ∷ ls) s)
count_held e ls s = ground (arith, count-append e (values s.by_client) (e ∷ ls))

register-IsValid :
    (client : ℕ) (key : PeerAddress) (peer : ℕ) (ls : List ℕ) (s : PeerAddresses)
    → Vacant (identity key) s.by_address
    → identity_len s.format key.bytes ≡ ok key.identity_len
    → IsValid ls s
    → let (r, s') = register client key peer s in IsValid (r ∷ ls) s' × Serves client key.bytes r s'
unfolding register Arc.new Arc.clone
register-IsValid client key peer ls s vacant sized v =
    let r : ℕ = length s.arcs.values in
    let s₂ : PeerAddresses = sweep (allocated peer key.bytes s) in
    let swept : Swept (allocated peer key.bytes s) s₂ = sweep-Swept (allocated peer key.bytes s) in
    let s₃ : PeerAddresses = placed key r s₂ in
    let w : IsValid (r ∷ ls) s₃ = placed-IsValid key peer ls s vacant sized v in
    (
      hold-IsValid client r (r ∷ ls) (record s₃ { arcs = Arc.clone r s₃.arcs })
          (clone-IsValid r (r ∷ ls) s₃ (count_held r ls s₃) w),
      hold-Serves client r key.bytes (record s₃ { arcs = Arc.clone r s₃.arcs })
          (record { peer = peer; address = key.bytes })
          (ap (λ a. get_elem? a.values r) swept.arcs
            ∙ get_elem?-append_self s.arcs.values (record { peer = peer; address = key.bytes }))
          refl,
    )

share-IsValid :
    (client e : ℕ) (address : List ℕ) (s : PeerAddresses) (reg : RegisteredAddress)
    → 0 < count e (holders [] s)
    → get_elem? s.arcs.values e ≡ some reg
    → reg.address ≡ address
    → IsValid [] s
    → IsValid (e ∷ []) (share client e s) × Serves client address e (share client e s)
unfolding share Arc.clone
share-IsValid client e address s reg live at same v =
    let s₁ : PeerAddresses = record s { arcs = Arc.clone e s.arcs } in
    let s₂ : PeerAddresses = record s { arcs = Arc.clone e (Arc.clone e s.arcs) } in
    (
      hold-IsValid client e (e ∷ []) s₂
          (clone-IsValid e (e ∷ []) s₁ (count_held e [] s₁) (clone-IsValid e [] s live v)),
      hold-Serves client e address s₂ reg at same,
    )

pub get_key_value-Keyed :
    (format : AddressFormat) (entries : List RegisteredAddress) (i : List ℕ)
    (m : List (PeerAddress × ℕ)) (x : PeerAddress × ℕ)
    → get_key_value i m ≡ some x
    → AllKeyed format entries m
    → Keyed format entries x
unfolding get_key_value
get_key_value-Keyed format entries i [] x h k = cc
get_key_value-Keyed format entries i ((a, e) ∷ m) x h k =
    elim (Bool-cases (same_bytes (identity a) i)) [
      | inl p ↦ subst (Keyed format entries) (ground (arith, p, h)) k.0
      | inr p ↦ get_key_value-Keyed format entries i m x (ground (arith, p, h)) k.1
    ]

make_room_format :
    (client : ℕ) (i : List ℕ) (stale : Option ℕ) (s : PeerAddresses)
    → (make_room client i stale s).format ≡ s.format
unfolding make_room evict_stale release evict drop_entry
make_room_format client i none s = refl
make_room_format client i (some e) s = refl

-- What a call gives: an entry, of which the caller has a clone, or an error.
abbrev pub Handled : ℕ → List ℕ → Result ℕ DmaError × PeerAddresses → Type 0
Handled client address (ok e, s) = IsValid (e ∷ []) s × Serves client address e s
Handled client address (err e, s) = IsValid [] s

module _ (fi_av_insert : List ℕ → ℤ × ℕ) where
  insert_new-Handled :
      (client : ℕ) (address : List ℕ) (n : ℕ) (stale : Option ℕ) (s : PeerAddresses)
      → identity_len s.format address ≡ ok n
      → ((e : ℕ) → stale ≡ some e → 0 < count e (holders [] s))
      → ((x : PeerAddress × ℕ)
          → get_key_value (take n address) s.by_address ≡ some x
          → (count x.1 (holders [] s) ≡ 0) ⊎ (stale ≡ some x.1))
      → IsValid [] s
      → Handled client address (insert_new fi_av_insert client address n stale s)
  unfolding insert_new
  insert_new-Handled client address n stale s sized live same v =
      let room : PeerAddresses = make_room client (take n address) stale s in
      let key : PeerAddress = record { bytes = address; identity_len = n } in
      let (w, vacant) = make_room-IsValid client (take n address) stale s live same v in
      elim (Result-cases (insert_address fi_av_insert address)) [
        | inl (peer, p) ↦
            rw (p, insert_new)
              (register-IsValid client key peer [] room vacant
                (subst (λ f. identity_len f address ≡ ok n)
                  (sym (make_room_format client (take n address) stale s)) sized)
                w)
        | inr (e, p) ↦ rw (p, insert_new) w
      ]

  -- In a state that nobody has clones of but the clients, a call of `handle` either gives an entry that was
  -- registered with exactly the address asked for, which the client then holds, and of which the
  -- caller has the only clone outside the clients', or an error; and the invariant holds.
  pub handle-Handled :
      (client : ℕ) (address : List ℕ) (s : PeerAddresses)
      → IsValid [] s
      → Handled client address (handle fi_av_insert client address s)
  unfolding handle
  handle-Handled client address s v = elim (Result-cases (identity_len s.format address)) [
    | inr (e, p) ↦ rw (p, handle) v
    | inl (n, p) ↦
        rw (p, handle)
          (elim (Option-cases (held_for (take n address) address s)) [
            | inl q ↦ rw q (
                insert_new-Handled client address n none s p (λ e k. cc)
                  (λ x at. inl (held_for-none (take n address) address s v q x at)) v)
            | inr ((same, e), q) ↦
                let (a, at, live, is) = held_for-some (take n address) address s same e v q in
                rw q (elim (Bool-cases same) [
                  | inl t ↦ rw t (
                      let (reg, got, reg_is, _) =
                        get_key_value-Keyed s.format s.arcs.values (take n address) s.by_address
                          (a, e) at v.keyed in
                      share-IsValid client e address s reg live got
                        (reg_is ∙ same_bytes→eq a.bytes address (sym is ∙ t)) v)
                  | inr t ↦ rw t (
                      insert_new-Handled client address n (some e) s p
                        (λ e' k. ground (arith, k, live)) (λ x at'. inr (ground (arith, at, at')))
                        v)
                ])
          ])
  ]
