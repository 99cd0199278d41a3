-- ===== src/Peers/Valid.antt =====
-- The invariant of the entries: what the clients hold accounts for every entry, and every entry
-- that is held stands in the index under its own slot.
use vdma.Prelude.{ℕ, ◌≤◌, ◌<◌, ◌≡◌, List, [], ◌∷◌, ◌++◌, some, length, count, get_elem?}
use vdma.Errors.{ok}
use vdma.Arc.{Balanced}
use vdma.HashMap.{get, insert, remove, values, the_value, count-insert, count-remove, count-keep}
use vdma.HashMap
use vdma.Peers.{
  AddressFormat, PeerAddress, RegisteredAddress, PeerAddresses, identity, identity_len,
  get_key_value, minimum_sweep,
}
use vdma.Peers.Slots.{Index, AllSlots}

-- The index entry is for the address that its entry was registered with.
abbrev pub Keyed : AddressFormat → List RegisteredAddress → PeerAddress × ℕ → Type 0
Keyed format entries x =
    (reg : RegisteredAddress) × (get_elem? entries x.1 ≡ some reg)
    × (reg.address ≡ x.0.bytes)
    × (identity_len format x.0.bytes ≡ ok x.0.identity_len)

abbrev pub AllKeyed : AddressFormat → List RegisteredAddress → Index → Type 0
AllKeyed format entries [] = Unit {0}
AllKeyed format entries (x ∷ m) = Keyed format entries x × AllKeyed format entries m

-- The entry is found under the slot of some key of its own.
abbrev pub Indexed : ℕ → Index → Type 0
Indexed e m = (a : PeerAddress) × (get_key_value (identity a) m ≡ some (a, e))

-- Every clone: the clients', and the callers'.
abbrev pub holders : List ℕ → PeerAddresses → List ℕ
holders leases s = values s.by_client ++ leases

pub record IsValid (leases : List ℕ) (s : PeerAddresses) : Type 0 where
  pub accounted : Balanced (holders leases s) s.arcs
  pub clients : HashMap.AllDistinct s.by_client
  pub slots : AllSlots s.by_address
  pub keyed : AllKeyed s.format s.arcs.values s.by_address
  pub indexed : (e : ℕ) → 0 < count e (holders leases s) → Indexed e s.by_address
  pub bounded : length s.by_address ≤ s.sweep_at
  pub floor : minimum_sweep ≤ s.sweep_at

-- An operation on the clients' clones alone: it keeps the index and what the entries are, and
-- nobody comes to hold what nobody held.
abbrev pub Lessens : List ℕ → PeerAddresses → List ℕ → PeerAddresses → Type 0
Lessens ls s ks t =
    (t.by_address ≡ s.by_address)
    × (t.format ≡ s.format)
    × (t.sweep_at ≡ s.sweep_at)
    × (t.arcs.values ≡ s.arcs.values)
    × ((e : ℕ) → 0 < count e (holders ks t) → 0 < count e (holders ls s))

pub Lessens-IsValid :
    (ls ks : List ℕ) (s t : PeerAddresses)
    → Lessens ls s ks t
    → Balanced (holders ks t) t.arcs
    → HashMap.AllDistinct t.by_client
    → IsValid ls s
    → IsValid ks t
Lessens-IsValid ls ks s t (index, format, at, entries, less) b d v = record {
  accounted = b;
  clients = d;
  slots = rw index v.slots;
  keyed = rw (index, format, entries) v.keyed;
  indexed = λ e h. rw index (v.indexed e (less e h));
  bounded = rw (index, at) v.bounded;
  floor = rw at v.floor;
}
