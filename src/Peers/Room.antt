-- ===== src/Peers/Room.antt =====
-- What happens before a new address goes into the vector: nobody is left on its slot.
use vdma.Prelude.{
  ℕ, ◌≤◌, ◌<◌, ◌≡◌, refl, sym, subst, List, [], ◌∷◌, Option, none, some, Bool, not, arith, ◌==◌,
  keep, length, count, count-append, Bool-cases, Option-cases, inl, inr, ◌∙◌, ◌⊎◌,
}
use vdma.Arc.{Store, Balanced, Balanced-same, values-release_all}
use vdma.Arc
use vdma.HashMap.{remove, values, count-remove, count-keep}
use vdma.Peers.{
  AddressFormat, PeerAddress, RegisteredAddress, PeerAddresses, identity, get_key_value, remove_key,
  release, evict, drop_entry, evict_stale, make_room, held_for, same_bytes,
}
use vdma.Peers.Slots.{
  Index, Vacant, remove_key-AllSlots, remove_key-Vacant_self, get_key_value-remove_key,
}
use vdma.Peers.Valid.{AllKeyed, holders, IsValid}
use vdma.Peers.Clients.{clone-IsValid, drop_entry-IsValid, release-IsValid, evict-IsValid}

count-keep_gone : (e : ℕ) (m : List (ℕ × ℕ)) → count e (values (keep (λ x. not (x.1 == e)) m)) ≡ 0
count-keep_gone e [] = refl
count-keep_gone e (x ∷ m) = ground (arith, count-keep_gone e m)

remove_key-AllKeyed :
    (format : AddressFormat) (entries : List RegisteredAddress) (i : List ℕ) (m : Index)
    → AllKeyed format entries m
    → AllKeyed format entries (remove_key i m)
unfolding remove_key
remove_key-AllKeyed format entries i [] h = tt
remove_key-AllKeyed format entries i ((a, e) ∷ m) h =
    elim (Bool-cases (same_bytes (identity a) i)) [
      | inl p ↦ rw p h.1
      | inr p ↦ rw p (h.0, remove_key-AllKeyed format entries i m h.1)
    ]

length-remove_key : (i : List ℕ) (m : Index) → length (remove_key i m) ≤ length m
unfolding remove_key
length-remove_key i [] = omega arith
length-remove_key i (x ∷ m) = ground (arith, length-remove_key i m)

-- Nobody holds the entry that the slot has.
abbrev pub Unheld : List ℕ → List ℕ → PeerAddresses → Type 0
Unheld i ls s =
    (x : PeerAddress × ℕ) → get_key_value i s.by_address ≡ some x → count x.1 (holders ls s) ≡ 0

remove_key-IsValid :
    (i ls : List ℕ) (s : PeerAddresses)
    → Unheld i ls s
    → IsValid ls s
    → IsValid ls (record s { by_address = remove_key i s.by_address })
remove_key-IsValid i ls s u v = record {
  accounted = v.accounted;
  clients = v.clients;
  slots = remove_key-AllSlots i s.by_address v.slots;
  keyed = remove_key-AllKeyed s.format s.arcs.values i s.by_address v.keyed;
  indexed = λ e h.
      let (a, at) = v.indexed e h in
      (
        a,
        get_key_value-remove_key i (identity a) s.by_address (λ q. absurd (
              omega (
                arith,
                h,
                u (a, e) (subst (λ k. get_key_value k s.by_address ≡ some (a, e)) (sym q) at),
              )))
            ∙ at,
      );
  bounded = omega (arith, v.bounded, length-remove_key i s.by_address);
  floor = v.floor;
}

evict_stale-IsValid :
    (stale : Option ℕ) (s : PeerAddresses)
    → ((e : ℕ) → stale ≡ some e → 0 < count e (holders [] s))
    → IsValid [] s
    → IsValid [] (evict_stale stale s)
unfolding evict_stale
evict_stale-IsValid none s h v = v
evict_stale-IsValid (some e) s h v = drop_entry-IsValid e [] _ (
    evict-IsValid e (e ∷ []) (record s { arcs = Arc.clone e s.arcs })
      (clone-IsValid e [] s (h e refl) v))

-- What the slot has, after the eviction of its stale entry and the release of the client, nobody
-- holds.
vacated :
    (client : ℕ) (i : List ℕ) (stale : Option ℕ) (s : PeerAddresses)
    → ((x : PeerAddress × ℕ)
        → get_key_value i s.by_address ≡ some x
        → (count x.1 (holders [] s) ≡ 0) ⊎ (stale ≡ some x.1))
    → Unheld i [] (release client (evict_stale stale s))
unfolding release evict_stale evict drop_entry
vacated client i none s h x at = ground (
  arith,
  h x at,
  count-remove x.1 client s.by_client,
  count-append x.1 (values (remove client s.by_client).0) [],
  count-append x.1 (values s.by_client) [],
)
vacated client i (some e) s h x at =
    let stays : List (ℕ × ℕ) = keep (λ y. not (y.1 == e)) s.by_client in
    ground (
      arith,
      h x at,
      count-keep_gone e s.by_client,
      count-keep x.1 (λ y. not (y.1 == e)) s.by_client,
      count-remove x.1 client stays,
      count-append x.1 (values (remove client stays).0) [],
      count-append x.1 (values s.by_client) [],
    )

-- Whatever the slot had, after `make_room` it is vacant in the index, and the invariant holds.
pub make_room-IsValid :
    (client : ℕ) (i : List ℕ) (stale : Option ℕ) (s : PeerAddresses)
    → ((e : ℕ) → stale ≡ some e → 0 < count e (holders [] s))
    → ((x : PeerAddress × ℕ)
        → get_key_value i s.by_address ≡ some x
        → (count x.1 (holders [] s) ≡ 0) ⊎ (stale ≡ some x.1))
    → IsValid [] s
    → IsValid [] (make_room client i stale s) × Vacant i (make_room client i stale s).by_address
unfolding make_room
make_room-IsValid client i stale s live same v =
    let w : IsValid [] (release client (evict_stale stale s)) =
      release-IsValid client [] (evict_stale stale s) (evict_stale-IsValid stale s live v) in
    (
      remove_key-IsValid i [] (release client (evict_stale stale s)) (vacated client i stale s same)
          w,
      remove_key-Vacant_self i _ w.slots,
    )

-- What `held_for` reads: nothing, if nobody holds what the slot has, and else the entry, and
-- whether its address is the one asked for.
pub held_for-none :
    (i address : List ℕ) (s : PeerAddresses)
    → IsValid [] s
    → held_for i address s ≡ none
    → Unheld i [] s
unfolding held_for
held_for-none i address s v h x at = ground (arith, v.accounted x.1)

pub held_for-some :
    (i address : List ℕ) (s : PeerAddresses) (same : Bool) (e : ℕ)
    → IsValid [] s
    → held_for i address s ≡ some (same, e)
    → (a : PeerAddress) × (get_key_value i s.by_address ≡ some (a, e))
      × (0 < count e (holders [] s))
      × (same ≡ same_bytes a.bytes address)
unfolding held_for
held_for-some i address s same e v h = elim (Option-cases (get_key_value i s.by_address)) [
  | inl p ↦ absurd (ground arith)
  | inr ((a, e'), p) ↦ (a, ground arith, ground (arith, v.accounted e), ground arith)
]
