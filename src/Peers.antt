-- ===== src/Peers.antt =====
-- The address-vector entries of an endpoint, crates/dma-libfabric/src/peer_addresses.rs. An entry
-- is the number of its `Arc`, which `by_client` owns and `by_address` refers to weakly; when its
-- last clone goes `fi_av_remove` takes it out of the vector, so the vector holds the entries that
-- are not in `arcs.dropped`. `fi_av_insert` is a parameter: for an address, how many were inserted
-- and the handle.
pub mod Slots
pub mod Valid
pub mod Clients
pub mod Room
pub mod Entry
pub mod Handle
pub mod Calls
mod Tests
use vdma.Prelude.{
  ℕ, suc, zero, ◌+◌, ◌*◌, ◌≤◌, ◌<◌, ◌≡◌, max, List, [], ◌∷◌, ◌++◌, Option, none, some, Bool, true,
  false, not, ◌&&◌, ltb, ◌==◌, if◌then◌else◌, keep, length,
}
use vdma.Prelude.Int.{ℤ, pos, negsuc}
use vdma.Errors.{Result, ok, err, DmaError, fabric, Message, text, filled, coded}
use vdma.Arc.{Store}
use vdma.Arc
use vdma.HashMap.{get, insert, remove, values, the_value}

abbrev pub minimum_sweep : ℕ
minimum_sweep = 64

abbrev pub efa_address_len : ℕ
efa_address_len = 32

abbrev pub efa_identity_len : ℕ
efa_identity_len = 18

pub data AddressFormat : Type 0 where
  efa opaque : AddressFormat

-- `fi_addr_efa` is libfabric's constant.
unfoldable pub from_fi : ℕ → ℕ → AddressFormat
from_fi fi_addr_efa addr_format = if fi_addr_efa == addr_format then efa else opaque

unfoldable pub identity_len : AddressFormat → List ℕ → Result ℕ DmaError
identity_len efa bytes =
    if not (efa_address_len == length bytes)
    then err
        (fabric (filled "efa address is {} bytes, not {}" (length bytes ∷ efa_address_len ∷ [])))
    else ok efa_identity_len
identity_len opaque bytes = ok (length bytes)

abbrev pub take : ℕ → List ℕ → List ℕ
take zero xs = []
take (suc n) [] = []
take (suc n) (x ∷ xs) = x ∷ take n xs

abbrev pub same_bytes : List ℕ → List ℕ → Bool
same_bytes [] [] = true
same_bytes (x ∷ xs) (y ∷ ys) = (x == y) && same_bytes xs ys
same_bytes _ _ = false

pub record PeerAddress : Type 0 where
  pub bytes : List ℕ
  pub identity_len : ℕ

abbrev pub identity : PeerAddress → List ℕ
identity a = take a.identity_len a.bytes

-- The handle that libfabric gave, and the address that it was given.
pub record RegisteredAddress : Type 0 where
  pub peer : ℕ
  pub address : List ℕ

pub record PeerAddresses : Type 0 where
  pub format : AddressFormat
  pub by_address : List (PeerAddress × ℕ)
  pub by_client : List (ℕ × ℕ)
  pub sweep_at : ℕ
  pub arcs : Store RegisteredAddress

unfoldable pub new : AddressFormat → PeerAddresses
new format = record {
  format = format;
  by_address = [];
  by_client = [];
  sweep_at = minimum_sweep;
  arcs = Arc.empty;
}

-- `by_address` by a borrowed identity: keys are equal by their identities.
unfoldable pub get_key_value : List ℕ → List (PeerAddress × ℕ) → Option (PeerAddress × ℕ)
get_key_value i [] = none
get_key_value i ((a, e) ∷ m) =
    let rest = get_key_value i m in if same_bytes (identity a) i then some (a, e) else rest

unfoldable pub remove_key : List ℕ → List (PeerAddress × ℕ) → List (PeerAddress × ℕ)
remove_key i [] = []
remove_key i ((a, e) ∷ m) =
    let rest = remove_key i m in if same_bytes (identity a) i then m else (a, e) ∷ rest

-- An equal key keeps the key that was there.
unfoldable pub insert_key : PeerAddress → ℕ → List (PeerAddress × ℕ) → List (PeerAddress × ℕ)
insert_key b r [] = (b, r) ∷ []
insert_key b r ((a, e) ∷ m) =
    let rest = insert_key b r m in
    if same_bytes (identity a) (identity b) then (a, r) ∷ m else (a, e) ∷ rest

-- What is held for the slot: whether its address is the one asked for, and the entry, upgraded.
unfoldable pub held_for : List ℕ → List ℕ → PeerAddresses → Option (Bool × ℕ)
unfolding get_key_value
held_for i address s = elim (get_key_value i s.by_address) [
  | none ↦ none
  | some (known, e) ↦
      if ltb 0 (s.arcs.strong e) then some (same_bytes known.bytes address, e) else none
]

-- `by_client.insert`; the entry that it replaces is dropped.
unfoldable pub hold : ℕ → ℕ → PeerAddresses → PeerAddresses
hold client e s =
    let (m, old) = insert client e s.by_client in
    record s { by_client = m; arcs = Arc.release_all (the_value old) s.arcs }

unfoldable pub release : ℕ → PeerAddresses → PeerAddresses
release client s =
    let (m, old) = remove client s.by_client in
    record s { by_client = m; arcs = Arc.release_all (the_value old) s.arcs }

-- `by_client.retain(|_, held| !Arc::ptr_eq(held, &stale))`.
unfoldable pub evict : ℕ → PeerAddresses → PeerAddresses
evict stale s = record s {
  by_client = keep (λ e. not (e.1 == stale)) s.by_client;
  arcs = Arc.release_all (values (keep (λ e. not (not (e.1 == stale))) s.by_client)) s.arcs;
}

-- One clone fewer.
unfoldable pub drop_entry : ℕ → PeerAddresses → PeerAddresses
drop_entry e s = record s { arcs = Arc.release e s.arcs }

unfoldable pub sweep : PeerAddresses → PeerAddresses
sweep s =
    let live = keep (λ e. ltb 0 (s.arcs.strong e.1)) s.by_address in
    if ltb (length s.by_address) s.sweep_at
    then s
    else record s { by_address = live; sweep_at = max minimum_sweep (length live * 2) }

unfoldable pub clear : PeerAddresses → PeerAddresses
clear s = record s {
  by_client = [];
  by_address = [];
  arcs = Arc.release_all (values s.by_client) s.arcs;
}

-- The client holds the entry that the slot has, and the caller gets the upgraded clone.
unfoldable pub share : ℕ → ℕ → PeerAddresses → PeerAddresses
unfolding hold
share client e s = hold client e (record s { arcs = Arc.clone e (Arc.clone e s.arcs) })

-- The stale entry of a slot is released by every client, and its last clone, the upgraded one, is
-- dropped.
unfoldable pub evict_stale : Option ℕ → PeerAddresses → PeerAddresses
unfolding evict drop_entry
evict_stale none s = s
evict_stale (some e) s = drop_entry e (evict e (record s { arcs = Arc.clone e s.arcs }))

-- The vector may not hold two addresses of one slot: what goes before a new one comes in.
unfoldable pub make_room : ℕ → List ℕ → Option ℕ → PeerAddresses → PeerAddresses
unfolding evict_stale release
make_room client i stale s =
    let s' = release client (evict_stale stale s) in
    record s' { by_address = remove_key i s'.by_address }

-- What follows a successful `fi_av_insert`.
unfoldable pub register : ℕ → PeerAddress → ℕ → PeerAddresses → ℕ × PeerAddresses
unfolding sweep hold
register client key peer s =
    let r = length s.arcs.values in
    let s₁ = record s { arcs = Arc.new (record { peer = peer; address = key.bytes }) s.arcs } in
    let s₂ = sweep s₁ in
    let s₃ = record s₂ { by_address = insert_key key r s₂.by_address } in
    (r, hold client r (record s₃ { arcs = Arc.clone r s₃.arcs }))

module _ (fi_av_insert : List ℕ → ℤ × ℕ) where
  unfoldable pub insert_address : List ℕ → Result ℕ DmaError
  insert_address address =
      let (inserted, peer) = fi_av_insert address in
      elim inserted [
        | pos n ↦
            if n == 1
            then ok peer
            else err (fabric (coded "fi_av_insert inserted {inserted} of 1 addresses" (pos n)))
        | negsuc n ↦
            err (fabric (coded "fi_av_insert inserted {inserted} of 1 addresses" (negsuc n)))
      ]

  unfoldable pub insert_new :
      ℕ → List ℕ → ℕ → Option ℕ → PeerAddresses → Result ℕ DmaError × PeerAddresses
  insert_new client address n stale s =
      let room = make_room client (take n address) stale s in
      elim (insert_address address) [
        | err e ↦ (err e, room)
        | ok peer ↦
            let (r, s') =
              register client (record { bytes = address; identity_len = n }) peer room in
            (ok r, s')
      ]

  -- The caller gets a clone of the entry.
  unfoldable pub handle : ℕ → List ℕ → PeerAddresses → Result ℕ DmaError × PeerAddresses
  handle client address s = elim (identity_len s.format address) [
    | err e ↦ (err e, s)
    | ok n ↦ elim (held_for (take n address) address s) [
      | none ↦ insert_new client address n none s
      | some (same, e) ↦
          if same then (ok e, share client e s) else insert_new client address n (some e) s
    ]
  ]
