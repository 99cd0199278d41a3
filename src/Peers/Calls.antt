-- ===== src/Peers/Calls.antt =====
-- The worker's calls on an endpoint's entries, one after the other: the entry that `handle` gives
-- is dropped before the next call.
use vdma.Prelude.{
  ℕ, ◌+◌, ◌<◌, ◌≡◌, refl, sym, ap, subst, List, [], ◌∷◌, some, arith, length, count, count-append,
  min, get_elem?, ◌∙◌,
}
use vdma.Prelude.Int.{ℤ}
use vdma.Errors.{Result, ok, err, DmaError}
use vdma.Arc.{Balanced, Balanced-same, empty-Balanced, values-release_all}
use vdma.Arc
use vdma.HashMap.{get, values, count-get}
use vdma.Peers.{
  AddressFormat, PeerAddress, RegisteredAddress, PeerAddresses, identity, identity_len, take, new,
  get_key_value, release, clear, drop_entry, handle,
}
use vdma.Peers.Valid.{holders, IsValid}
use vdma.Peers.Clients.{drop_entry-IsValid, release-IsValid}
use vdma.Peers.Handle.{Handled, handle-Handled, get_key_value-Keyed}

pub data Call : Type 0 where
  handles : ℕ → List ℕ → Call
  releases : ℕ → Call
  clears : Call

-- The caller's clone goes.
unfoldable pub finished : Result ℕ DmaError × PeerAddresses → PeerAddresses
finished (ok e, s) = drop_entry e s
finished (err e, s) = s

unfoldable pub call : (List ℕ → ℤ × ℕ) → Call → PeerAddresses → PeerAddresses
call fi_av_insert (handles client address) s = finished (handle fi_av_insert client address s)
call fi_av_insert (releases client) s = release client s
call fi_av_insert clears s = clear s

-- What the provider answers may differ from call to call.
unfoldable pub run : List ((List ℕ → ℤ × ℕ) × Call) → PeerAddresses → PeerAddresses
unfolding call
run [] s = s
run (c ∷ cs) s = run cs (call c.0 c.1 s)

pub new-IsValid : (format : AddressFormat) → IsValid [] (new format)
unfolding new
new-IsValid format = record {
  accounted = empty-Balanced RegisteredAddress;
  clients = tt;
  slots = tt;
  keyed = tt;
  indexed = λ e h. absurd (omega (arith, h));
  bounded = omega arith;
  floor = omega arith;
}

clear-IsValid : (s : PeerAddresses) → IsValid [] s → IsValid [] (clear s)
unfolding clear
clear-IsValid s v = record {
  accounted = Arc.release_all-Balanced (values s.by_client) [] s.arcs v.accounted;
  clients = tt;
  slots = tt;
  keyed = tt;
  indexed = λ e h. absurd (omega (arith, h));
  bounded = omega (arith, v.floor);
  floor = v.floor;
}

finished-IsValid :
    (client : ℕ) (address : List ℕ) (r : Result ℕ DmaError × PeerAddresses)
    → Handled client address r
    → IsValid [] (finished r)
unfolding finished
finished-IsValid client address (ok e, s) h = drop_entry-IsValid e [] s h.0
finished-IsValid client address (err e, s) h = h

run_from :
    (cs : List ((List ℕ → ℤ × ℕ) × Call)) (s : PeerAddresses) → IsValid [] s → IsValid [] (run cs s)
unfolding run call
run_from [] s v = v
run_from ((fi, handles client address) ∷ cs) s v = run_from cs _ (
    finished-IsValid client address (handle fi client address s)
      (handle-Handled fi client address s v))
run_from ((fi, releases client) ∷ cs) s v = run_from cs _ (release-IsValid client [] s v)
run_from ((fi, clears) ∷ cs) s v = run_from cs _ (clear-IsValid s v)

-- Whatever calls are made on a fresh set of entries, and whatever the provider answers to each, the
-- invariant holds after them.
pub run-IsValid :
    (cs : List ((List ℕ → ℤ × ℕ) × Call)) (format : AddressFormat)
    → IsValid [] (run cs (new format))
run-IsValid cs format = run_from cs (new format) (new-IsValid format)

-- After any calls, `fi_av_remove` has taken an entry that was inserted out of the vector exactly once if no client
-- holds it, and not at all if one does.
pub run-removed :
    (cs : List ((List ℕ → ℤ × ℕ) × Call)) (format : AddressFormat) (e : ℕ)
    → e < length (run cs (new format)).arcs.values
    → count e (run cs (new format)).arcs.dropped
        + min 1 (count e (values (run cs (new format)).by_client))
      ≡ 1
run-removed cs format e h = ground (
  arith,
  (run-IsValid cs format).accounted e,
  count-append e (values (run cs (new format)).by_client) [],
)

module _ (s : PeerAddresses) (v : IsValid [] s) where
  held_count : (client e : ℕ) → get client s.by_client ≡ some e → 0 < count e (holders [] s)
  held_count client e h =
      ground (arith, count-append e (values s.by_client) [], count-get client e s.by_client h)

  slot_of :
      (client e n : ℕ) (reg : RegisteredAddress)
      → get client s.by_client ≡ some e
      → get_elem? s.arcs.values e ≡ some reg
      → identity_len s.format reg.address ≡ ok n
      → (a : PeerAddress) × (get_key_value (identity a) s.by_address ≡ some (a, e))
        × (identity a ≡ take n reg.address)
  slot_of client e n reg held at len =
      let (a, found) = v.indexed e (held_count client e held) in
      let (own, got, same, sized) =
        get_key_value-Keyed s.format s.arcs.values (identity a) s.by_address (a, e) found v.keyed in
      let one : reg ≡ own = ground (arith, at, got) in
      let is : reg.address ≡ a.bytes = ap (λ (r : RegisteredAddress). r.address) one ∙ same in
      let width : n ≡ a.identity_len =
        ground (arith, sized, subst (λ b. identity_len s.format b ≡ ok n) is len) in
      (a, found, rw (is, width) refl)

  same_slot :
      (client client' e e' n n' : ℕ) (reg reg' : RegisteredAddress)
      → get client s.by_client ≡ some e
      → get client' s.by_client ≡ some e'
      → get_elem? s.arcs.values e ≡ some reg
      → get_elem? s.arcs.values e' ≡ some reg'
      → identity_len s.format reg.address ≡ ok n
      → identity_len s.format reg'.address ≡ ok n'
      → take n reg.address ≡ take n' reg'.address
      → e ≡ e'
  same_slot client client' e e' n n' reg reg' held held' at at' len len' slot =
      let (a, found, is) = slot_of client e n reg held at len in
      let (a', found', is') = slot_of client' e' n' reg' held' at' len' in
      let same : identity a ≡ identity a' = is ∙ (slot ∙ sym is') in
      let found'' : get_key_value (identity a') s.by_address ≡ some (a, e) =
        subst (λ i. get_key_value i s.by_address ≡ some (a, e)) same found in
      ground arith

-- After any calls on a fresh set of entries, and whatever the provider answered to each, two
-- clients whose entries were registered with addresses of one slot have the same entry, so that
-- no two addresses of a slot are in use at once.
pub one_entry_per_slot :
    (cs : List ((List ℕ → ℤ × ℕ) × Call)) (format : AddressFormat) (client client' e e' n n' : ℕ)
    (reg reg' : RegisteredAddress)
    → let s = run cs (new format) in
      get client s.by_client ≡ some e
      → get client' s.by_client ≡ some e'
      → get_elem? s.arcs.values e ≡ some reg
      → get_elem? s.arcs.values e' ≡ some reg'
      → identity_len s.format reg.address ≡ ok n
      → identity_len s.format reg'.address ≡ ok n'
      → take n reg.address ≡ take n' reg'.address
      → (get client s.by_client ≡ get client' s.by_client) × (reg ≡ reg')
one_entry_per_slot cs format client client' e e' n n' reg reg' held held' at at' len len' slot =
    let s = run cs (new format) in
    let one =
      same_slot s (run-IsValid cs format) client client' e e' n n' reg reg' held held' at at' len
        len' slot in
    (ground (arith, one), ground (arith, one, at, at'))
