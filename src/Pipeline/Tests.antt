-- ===== src/Pipeline/Tests.antt =====
-- A write that is posted, quiesced, checksummed by the pool and delivered; and an endpoint's reap.
use vdma.Prelude.{
  ℕ, ◌+◌, ◌<◌, ◌≡◌, refl, List, [], ◌∷◌, ◌++◌, none, some, true, false, count, length, map,
}
use vdma.Prelude.Int.{pos}
use vdma.Errors.{ok}
use vdma.HashMap.{get, insert, remove}
use vdma.Arc
use vdma.Regions
use vdma.Regions.Operand
use vdma.Peers.{opaque, AddressFormat}
use vdma.Peers
use vdma.Transfer.{
  to_peer, TransferRequest, InFlight, resolve, quiesce_read, prepared, prepare, into_completion,
}
use vdma.Connection.{post_out, post_in}
use vdma.Endpoint
use vdma.Endpoint.Reap.{Reaped}
use vdma.Posting.{
  Answers, settle, handed_over, posting, post_located, post_inserted, post, drop_peer, quiesce_code,
  quiesce_located, quiesce_inserted, post_quiesce,
}
use vdma.Worker
use vdma.Pipeline.{
  Setting, WorkerMessage, transfers, Pipeline, set_endpoint, drop_operation, take_in, intake, fail,
  launch, stall, after_post, attempt, post_pass,
}
use vdma.Pipeline.Passes.{
  defer_crc, complete_inline, complete, dispatch_op, dispatch, stall_quiesce, after_quiesce,
  attempt_quiesce, quiesce_pass, idle, flush, deliver, reap_pass, posted_state, pass, stops,
  drop_operations, run_batch,
}
use vdma.Pipeline.Dispatched.{AllReported}
use vdma.Pipeline.Steps.{launched, Reach, here, next, passes, runs}
use vdma.Pipeline.Sound.{IsSound}
use vdma.Pipeline.Steps
use vdma.Pipeline.Leased
use vdma.Pipeline.Places.{gather}
use vdma.Pipeline.Answered.{named, completed, tally}
use vdma.Pipeline.Ended
use vdma.Pipeline.Stopped

program : Unit {0}
unfolding get insert remove Arc.new Arc.clone Arc.release Arc.release_all Regions.new_registration
    Regions.covering Regions.track Regions.drop_lease Regions.Operand.operand
    Regions.Operand.operand_miss Peers.new Peers.handle resolve quiesce_read prepared prepare
    into_completion post_out post_in Endpoint.insert_peer Endpoint.local_operand Endpoint.connection
    Endpoint.drop_option settle handed_over posting post_located post_inserted post drop_peer
    quiesce_code quiesce_located quiesce_inserted post_quiesce Worker.accept Worker.finish_op
    Worker.should_flush_crc set_endpoint drop_operation take_in intake fail launch stall after_post
    attempt post_pass defer_crc complete_inline complete dispatch_op dispatch stall_quiesce
    after_quiesce attempt_quiesce quiesce_pass idle flush deliver reap_pass posted_state pass
    drop_operations run_batch Peers.identity_len Peers.held_for Peers.insert_new
    Peers.insert_address Regions.Operand.register_extent Regions.Operand.filter_span
    Peers.drop_entry Peers.register Peers.make_room Peers.remove_key Peers.insert_key
program = tt

abbrev setting : Setting (ℕ × ℕ)
setting = record {
  source = λ context. some context;
  allocate = λ length context. (some context, context);
  cacheable_span = λ context. none;
  checksum = λ pointer length. pointer + length;
  quiesce_writes = true;
  provider = record { domain = 1; requires_local_mr = true; max_tx = 0 };
  cap = 4;
  progress_deadline = 10;
  fi_eagain = 11;
  quiesce_pointer = 64;
}

abbrev answers : ℕ → Answers
answers n = record {
  fi_av_insert = λ address. (pos 1, 7);
  fi_mr_reg = λ mr. pos 0;
  fi_post = λ call. pos 0;
  now = 0;
  later = 0;
}

abbrev request : TransferRequest (ℕ × ℕ)
request = record {
  client_id = 3;
  peer_address = 10 ∷ [];
  remote_key = 42;
  remote_address = 9000;
  direction = to_peer;
  want_checksum = true;
  caller_context = (4096, 100);
}

abbrev asked : List (WorkerMessage (ℕ × ℕ))
asked = transfers request ∷ []

abbrev start : Pipeline (ℕ × ℕ)
start = launched opaque 1

-- The write is in flight, then its quiesce read, and then its checksum is with the pool.
abbrev written : Pipeline (ℕ × ℕ)
written = (pass setting answers asked false [] start).0

abbrev write_done : List Reaped
write_done = (1, ok tt) ∷ []

abbrev quiesced : Pipeline (ℕ × ℕ)
quiesced = (pass setting answers [] false write_done written).0

abbrev read_done : List Reaped
read_done = (2, ok tt) ∷ []

written_flight : ◌≡◌ {A = List ℕ} (map (λ e. e.0) written.flight) (1 ∷ [])
unfolding program
written_flight = refl

quiesced_flight : ◌≡◌ {A = List ℕ} (map (λ e. e.0) quiesced.flight) (2 ∷ [])
unfolding program
quiesced_flight = refl

last_pass : (pass setting answers [] true read_done quiesced).1 ≡ stops
unfolding program
last_pass = refl

written-Reach : Reach setting answers start asked written
written-Reach = next here (passes asked false [] start tt)

write_reported : AllReported write_done (posted_state setting answers [] written).flight
unfolding program
write_reported = ((_, refl), tt)

quiesced-Reach : Reach setting answers start (asked ++ []) quiesced
quiesced-Reach = next written-Reach (passes [] false write_done written write_reported)

read_reported : AllReported read_done (posted_state setting answers [] quiesced).flight
unfolding program
read_reported = ((_, refl), tt)

abbrev stopped : Pipeline (ℕ × ℕ)
stopped = (pass setting answers [] true read_done quiesced).0

-- Its one transfer is with the pool.
stopped-Reach_example :
    count 4096 (completed (λ c. c.0) stopped.delivered)
      + count 4096 (gather (gather (λ o. named (λ c. c.0) o.0)) stopped.submitted)
    ≡ 1
unfolding program
stopped-Reach_example =
    Stopped.stopped-Reach (λ c. c.0) setting answers (λ length context. refl) 4096 1 opaque
      (asked ++ []) [] true read_done quiesced quiesced-Reach read_reported last_pass

stopped_submitted : ◌≡◌ {A = ℕ} (length stopped.submitted) 1
unfolding program
stopped_submitted = refl

tally-Reach_example : tally (λ c. c.0) 4096 quiesced ≡ 1
unfolding program
tally-Reach_example =
    Ended.tally-Reach (λ c. c.0) setting answers (λ length context. refl) 4096 opaque 1
      quiesced-Reach

-- The write's lease is that of the first registration, which is still open.
written_op :
    (op : InFlight (ℕ × ℕ)) × ((get 1 written.flight ≡ some op) × (op.local_lease ≡ some 0))
unfolding program
written_op = (_, (refl, refl))

flight_open-Reach_example :
    (r : ℕ) × ((written_op.0.local_lease ≡ some r)
      × (r < length written.cache.arcs.values)
      × (count r written.cache.arcs.dropped ≡ 0))
flight_open-Reach_example =
    Leased.flight_open-Reach setting answers opaque 1 1 written_op.0 written-Reach written_op.1.0
      refl

Reach-IsSound_example : IsSound 0 quiesced
Reach-IsSound_example = Steps.Reach-IsSound setting answers opaque 1 quiesced-Reach
