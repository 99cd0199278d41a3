-- ===== src/Peers/Tests.antt =====
-- Runs of the address-vector entries on small inputs, and the theorems at such inputs.
use vdma.Prelude.{ℕ, ◌+◌, ◌≡◌, refl, List, [], ◌∷◌, ◌++◌, some, none, arith, count, length, min}
use vdma.Prelude.Int.{ℤ, pos, negsuc}
use vdma.Arc
use vdma.HashMap.{get, insert, remove, values}
use vdma.Peers.{
  efa, opaque, PeerAddresses, RegisteredAddress, identity_len, new, get_key_value, remove_key,
  insert_key, held_for, hold, release, evict, drop_entry, sweep, share, evict_stale, make_room,
  register, insert_address, insert_new, handle, clear,
}
use vdma.Peers.Handle.{Handled}
use vdma.Peers.Handle
use vdma.Peers.Calls.{Call, handles, releases, clears, call, finished, run}
use vdma.Peers.Calls

program : Unit {0}
unfolding Arc.new Arc.clone Arc.release Arc.release_all insert remove get identity_len new
    get_key_value remove_key insert_key held_for hold release evict drop_entry sweep share
    evict_stale make_room register insert_address insert_new handle clear call finished run
program = tt

abbrev accepting : List ℕ → ℤ × ℕ
accepting address = (pos 1, 40 + length address)

abbrev refusing : List ℕ → ℤ × ℕ
refusing address = (negsuc 21, 0)

abbrev first_address : List ℕ
first_address = 10 ∷ 20 ∷ []

abbrev shared_address : List ((List ℕ → ℤ × ℕ) × Call)
shared_address = (accepting, handles 1 first_address) ∷ (accepting, handles 2 first_address) ∷ []

abbrev shared : PeerAddresses
shared = run shared_address (new opaque)

-- clients_sharing_an_address_share_one_entry.
shared_entry : (get 1 shared.by_client ≡ some 0) × (get 2 shared.by_client ≡ some 0)
unfolding program
shared_entry = (refl, refl)

-- one_client_leaving_keeps_an_entry_another_still_uses, the_last_client_out_removes_the_entry, and
-- releasing_a_client_twice_is_harmless.
one_leaves : (run ((accepting, releases 1) ∷ []) shared).arcs.dropped ≡ []
unfolding program
one_leaves = refl

both_leave :
    (run
      ((accepting, releases 1) ∷ (accepting, releases 1) ∷ (accepting, releases 2) ∷ [])
      shared).arcs.dropped
    ≡ 0 ∷ []
unfolding program
both_leave = refl

-- A refused address leaves the client with no entry, and its old one is gone.
refused :
    (run
      ((accepting, handles 1 first_address) ∷ (refusing, handles 1 (30 ∷ [])) ∷ [])
      (new opaque)).arcs.dropped
    ≡ 0 ∷ []
unfolding program
refused = refl

-- An efa address of a slot, with its QKEY in the bytes after the first 18.
abbrev zeros : List ℕ
zeros = 0 ∷ 0 ∷ 0 ∷ 0 ∷ 0 ∷ 0 ∷ 0 ∷ 0 ∷ 0 ∷ []

abbrev efa_address : ℕ → List ℕ
efa_address qkey = (zeros ++ zeros) ++ (qkey ∷ 0 ∷ 0 ∷ 0 ∷ 0 ∷ zeros)

-- A recycled slot: the client of the older address is evicted, and the entry removed.
abbrev recycled : PeerAddresses
recycled =
    run ((accepting, handles 1 (efa_address 5)) ∷ (accepting, handles 2 (efa_address 6)) ∷ [])
      (new efa)

recycled_slot :
    (get 1 recycled.by_client ≡ none)
    × ((get 2 recycled.by_client ≡ some 1) × (recycled.arcs.dropped ≡ 0 ∷ []))
unfolding program
recycled_slot = (refl, (refl, refl))

handle-Handled_example : Handled 3 (efa_address 7) (handle accepting 3 (efa_address 7) recycled)
handle-Handled_example = Handle.handle-Handled accepting 3 (efa_address 7) recycled (
    Calls.run-IsValid
      ((accepting, handles 1 (efa_address 5)) ∷ (accepting, handles 2 (efa_address 6)) ∷ []) efa)

run-removed_example : count 0 shared.arcs.dropped + min 1 (count 0 (values shared.by_client)) ≡ 1
unfolding program
run-removed_example = Calls.run-removed shared_address opaque 0 (omega arith)

one_entry_per_slot_example :
    (get 1 shared.by_client ≡ get 2 shared.by_client)
    × (◌≡◌ {A = RegisteredAddress}
        (record { peer = 42; address = first_address })
        (record { peer = 42; address = first_address }))
unfolding program
one_entry_per_slot_example =
    Calls.one_entry_per_slot shared_address opaque 1 2 0 0 2 2
      (record { peer = 42; address = first_address })
      (record { peer = 42; address = first_address }) refl refl refl refl refl refl refl
