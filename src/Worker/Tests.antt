-- ===== src/Worker/Tests.antt =====
-- The worker's accounts at small inputs.
use vdma.Prelude.{
  ℕ, ◌+◌, ◌-◌, ◌<◌, ◌≡◌, refl, [], ◌∷◌, ◌++◌, Option, some, true, false, arith, count, ◌⊎◌,
  if◌then◌else◌, ◌==◌, ◌&&◌,
}
use vdma.Errors.{ok, err}
use vdma.HashMap.{get, insert, remove}
use vdma.Peers.{PeerAddresses, opaque, new}
use vdma.Peers
use vdma.Transfer.{
  to_peer, TransferRequest, Prepared, Completion, resolve, quiesce_read, prepared, prepare,
}
use vdma.Worker.{
  Worker, member, unwrap_or, release_outstanding, accept, release_peer, remove_or_defer, decrement,
  drained, finish_op, in_flight_cap, should_flush_crc,
}
use vdma.Worker.Accounts.{IsCounted}
use vdma.Worker.Accounts
use vdma.Worker.Intake
use vdma.Worker.Steps.{Process, start, Step, accepts, removes, finishes, Reach, here, next}
use vdma.Worker.Steps

program : Unit {0}
unfolding get insert remove new resolve quiesce_read prepared prepare release_outstanding accept
    release_peer remove_or_defer decrement drained finish_op in_flight_cap should_flush_crc
program = tt

abbrev source : ℕ × ℕ → Option (ℕ × ℕ)
source context = some context

abbrev allocate : ℕ → ℕ × ℕ → Option (ℕ × ℕ) × (ℕ × ℕ)
allocate length context = (some context, context)

abbrev checksum : ℕ → ℕ → ℕ
checksum pointer length = pointer + length

abbrev request : TransferRequest (ℕ × ℕ)
request = record {
  client_id = 3;
  peer_address = 10 ∷ [];
  remote_key = 42;
  remote_address = 9000;
  direction = to_peer;
  want_checksum = true;
  caller_context = (4096, 100);
}

abbrev idle : Worker (ℕ × ℕ)
idle = (start (new opaque) 1).worker

abbrev busy : Worker (ℕ × ℕ)
busy = accept source allocate false request idle

-- The client leaves while its transfer is queued: the removal waits for it.
abbrev leaving : Process (ℕ × ℕ)
leaving = record { live = 3 ∷ []; worker = remove_or_defer 3 busy }

deferred : leaving.worker.pending_removal ≡ 3 ∷ []
unfolding program
deferred = refl

leaving-Reach : Reach source allocate false checksum (start (new opaque) 1) leaving
unfolding program
leaving-Reach =
    next (next here (accepts (start (new opaque) 1) request))
      (removes (record { live = 3 ∷ []; worker = busy }) 3)

counted-Reach_example :
    (unwrap_or (get 3 leaving.worker.outstanding_by_client) 0 ≡ count 3 leaving.live)
    × ((member 3 leaving.worker.pending_removal ≡ false) ⊎ (0 < count 3 leaving.live))
counted-Reach_example =
    Steps.counted-Reach source allocate false checksum {t = leaving} (new opaque) 1 3 leaving-Reach

busy-IsCounted : IsCounted (3 ∷ []) busy
unfolding program
busy-IsCounted = record {
  distinct = (tt, tt);
  counted = λ c. ground arith;
  positive = λ c. ground arith;
  deferred = λ c h. cc;
}

idle-IsCounted : IsCounted [] idle
unfolding program
idle-IsCounted = record {
  distinct = tt;
  counted = λ c. refl;
  positive = λ c h. cc;
  deferred = λ c h. cc;
}

leaving-IsCounted : IsCounted (3 ∷ []) leaving.worker
leaving-IsCounted = (Accounts.remove_or_defer_lem 3 (3 ∷ []) busy busy-IsCounted).0

remove_or_defer_lem_example :
    IsCounted (3 ∷ []) (remove_or_defer 3 busy)
    × ((remove_or_defer 3 busy).peers
        ≡ (if 0 == count 3 (3 ∷ []) then Peers.release 3 busy.peers else busy.peers))
    × (member 3 (remove_or_defer 3 busy).pending_removal
        ≡ (if 0 == count 3 (3 ∷ []) then member 3 busy.pending_removal else true))
remove_or_defer_lem_example = Accounts.remove_or_defer_lem 3 (3 ∷ []) busy busy-IsCounted

finish_op_lem_example :
    IsCounted [] (finish_op 3 leaving.worker)
    × ((finish_op 3 leaving.worker).peers ≡ (
        if (0 == count 3 []) && member 3 leaving.worker.pending_removal
        then Peers.release 3 leaving.worker.peers
        else leaving.worker.peers))
finish_op_lem_example = Accounts.finish_op_lem 3 [] leaving.worker leaving-IsCounted

accept_lem_example :
    ((p : Prepared (ℕ × ℕ)) × (prepare source allocate request false ≡ ok p)
      × (busy.pending ≡ idle.pending ++ p ∷ [])
      × (busy.completions ≡ idle.completions)
      × (busy.outstanding ≡ idle.outstanding)
      × IsCounted (3 ∷ []) busy)
    ⊎ ((done : Completion (ℕ × ℕ)) × (prepare source allocate request false ≡ err done)
        × (busy.pending ≡ idle.pending)
        × (busy.completions ≡ idle.completions ++ done ∷ [])
        × (busy.outstanding ≡ idle.outstanding - 1)
        × IsCounted [] busy)
accept_lem_example = Intake.accept_lem source allocate false request [] idle idle-IsCounted

-- holds_a_partial_batch_while_work_is_moving
held_back : should_flush_crc 1 1 true false ≡ false
unfolding program
held_back = refl
