-- ===== src/Pipeline/Passes.antt =====
-- The rest of a pass of the worker's loop, crates/dma-libfabric/src/server_dma_worker.rs: reaped
-- operations, quiesce reads, checksums, and what is handed on; the whole pass, and the shutdown.
use vdma.Prelude.{
  ℕ, suc, zero, ◌+◌, ◌-◌, List, [], ◌∷◌, ◌++◌, Option, none, some, Bool, true, false, not, ◌&&◌,
  map, ltb, ◌==◌, if◌then◌else◌, length,
}
use vdma.Errors.{Result, ok, err, DmaError, transfer, fabric, text, filled}
use vdma.HashMap.{remove}
use vdma.Transfer.{Completion, InFlight, Prepared, QuiesceRead, into_completion}
use vdma.Endpoint.Reap.{Reaped}
use vdma.Posting.{Answers, Quiescing, QuiescePost, posted, again, failed, post_quiesce}
use vdma.Worker.{target_completions, finish_op, should_flush_crc}
use vdma.Pipeline.{
  Setting, WorkerMessage, Pipeline, endpoint, set_endpoint, drop_operation, stalled, intake, fail,
  launch, post_pass,
}

-- Where a pass ends: at once in another, in one that a message of the channel starts, or in the
-- shutdown.
pub data Ending : Type 0 where
  repeats : Ending
  parks : Ending
  stops : Ending

abbrev pub is_empty {ℓ} : {A : Type ℓ} → List A → Bool
is_empty [] = true
is_empty (x ∷ xs) = false

-- The quiesce read that is still to follow, if the operation succeeded.
abbrev pub read_after : Option QuiesceRead → Result (Unit {0}) DmaError → Option QuiesceRead
read_after read (ok _) = read
read_after read (err _) = none

module _ {T : Type 0} (setting : Setting T) (answers : ℕ → Answers) where
  unfoldable pub defer_crc : InFlight T → Result (Unit {0}) DmaError → Pipeline T → Pipeline T
  defer_crc op result s = record s { crc_pending = s.crc_pending ++ (op, result) ∷ [] }

  unfoldable pub complete_inline : InFlight T → Result (Unit {0}) DmaError → Pipeline T → Pipeline T
  unfolding drop_operation
  complete_inline op result s = drop_operation op (record s {
    accounts = record s.accounts {
      completions = s.accounts.completions ++ into_completion setting.checksum op result ∷ [];
    };
  })

  unfoldable pub complete : InFlight T → Result (Unit {0}) DmaError → Pipeline T → Pipeline T
  unfolding defer_crc complete_inline
  complete op result s =
      let s' = record s { accounts = finish_op op.client_id s.accounts } in
      if op.want_checksum then defer_crc op result s' else complete_inline op result s'

  unfoldable pub dispatch_op : InFlight T → Result (Unit {0}) DmaError → Pipeline T → Pipeline T
  unfolding complete
  dispatch_op op result s = elim (read_after op.quiesce result) [
    | some read ↦ record s {
      quiescing =
          s.quiescing
          ++ record { inflight = record op { quiesce = none }; read = read; stalled_since = none }
            ∷ [];
    }
    | none ↦ complete op result s
  ]

  -- An operation that libfabric hands back is reclaimed from its pointer. A pointer that it was
  -- never given does not occur: it would be read as one all the same.
  unfoldable pub dispatch : List Reaped → Pipeline T → Pipeline T
  unfolding dispatch_op
  dispatch [] s = s
  dispatch ((context, result) ∷ reaped) s =
      let (flight, reclaimed) = remove context s.flight in
      elim reclaimed [
        | none ↦ dispatch reaped s
        | some op ↦ dispatch reaped (dispatch_op op result (record s { flight = flight }))
      ]

  unfoldable pub stall_quiesce : Answers → Quiescing T → Pipeline T → Pipeline T
  stall_quiesce answer w s =
      let since = stalled w.stalled_since answer.now in
      if ltb (answer.later - since) setting.progress_deadline
      then record s { quiescing = s.quiescing ++ record w { stalled_since = some since } ∷ [] }
      else fail setting answers w.inflight
          (transfer (
            filled
              "no progress posting the quiesce read for {progress_deadline:?}: peer unreachable or transmit queue stuck"
              (setting.progress_deadline ∷ [])))
          s

  unfoldable pub after_quiesce : QuiescePost T → Answers → Pipeline T → Pipeline T
  unfolding stall_quiesce
  after_quiesce (posted op) answer s = launch setting answers op s
  after_quiesce (again w) answer s = stall_quiesce answer w s
  after_quiesce (failed op error) answer s = fail setting answers op error s

  unfoldable pub attempt_quiesce : Quiescing T → Pipeline T → Pipeline T
  unfolding after_quiesce
  attempt_quiesce w s =
      let answer = answers s.asked in
      let (result, e) =
        post_quiesce setting.provider setting.fi_eagain answer s.next setting.quiesce_pointer w
          (endpoint s) in
      after_quiesce result answer (record (set_endpoint e s) { asked = s.asked + 1 })

  unfoldable pub quiesce_pass : ℕ → Pipeline T → Pipeline T
  unfolding attempt_quiesce
  quiesce_pass zero s = s
  quiesce_pass (suc attempts) s = elim s.quiescing [
    | [] ↦ s
    | w ∷ rest ↦ quiesce_pass attempts (attempt_quiesce w (record s { quiescing = rest }))
  ]

  unfoldable pub idle : Pipeline T → Bool
  idle s = is_empty s.accounts.pending && is_empty s.quiescing && (0 == s.in_flight)

  unfoldable pub flush : Bool → Pipeline T → Pipeline T
  unfolding idle
  flush reaped_any s =
      if should_flush_crc (length s.crc_pending) s.posted_ops reaped_any (idle s)
      then record s { crc_pending = []; submitted = s.submitted ++ s.crc_pending ∷ [] }
      else s

  -- Completions wait for more of them, for a few passes; else `complete_batch` gets them.
  unfoldable pub deliver : Bool → Pipeline T → Pipeline T × Ending
  unfolding idle
  deliver disconnected s =
      let ending = if idle s then if disconnected then stops else parks else repeats in
      let handed = record s {
        accounts = record s.accounts { completions = [] };
        drain_spins = 0;
        delivered = s.delivered ++ s.accounts.completions;
      } in
      if is_empty s.accounts.completions
      then (s, ending)
      else if ltb (length s.accounts.completions) target_completions && ltb s.drain_spins 10
      then (record s { drain_spins = s.drain_spins + 1 }, repeats)
      else (handed, ending)

  -- What was reaped, taken off `in_flight` and dispatched.
  unfoldable pub reap_pass : List Reaped → Pipeline T → Pipeline T
  unfolding dispatch
  reap_pass reaped s = dispatch reaped (record s { in_flight = s.in_flight - length reaped })

  -- The first part of a pass: the messages that the channel has are taken in, and what is queued
  -- is posted.
  unfoldable pub posted_state : List (WorkerMessage T) → Pipeline T → Pipeline T
  posted_state messages s =
      let taken = record (intake setting answers messages s) { posted_ops = 0 } in
      post_pass setting answers (length taken.accounts.pending) taken

  -- A pass of the loop; whether the channel is disconnected is known once it is drained.
  unfoldable pub pass :
      List (WorkerMessage T) → Bool → List Reaped → Pipeline T → Pipeline T × Ending
  unfolding posted_state reap_pass quiesce_pass flush deliver
  pass messages disconnected reaped s =
      let s₁ = reap_pass reaped (posted_state messages s) in
      let s₂ = quiesce_pass (length s₁.quiescing) s₁ in
      deliver disconnected (flush (not (is_empty reaped)) s₂)

  abbrev pub fail_pending : Prepared T → Completion T
  fail_pending p =
      into_completion setting.checksum p.context (err (fabric (text "fabric worker is gone")))

  abbrev pub finish_crc : InFlight T × Result (Unit {0}) DmaError → Completion T
  finish_crc (op, result) = into_completion setting.checksum op result

  unfoldable pub drop_operations : List (InFlight T) → Pipeline T → Pipeline T
  unfolding drop_operation
  drop_operations [] s = s
  drop_operations (op ∷ ops) s = drop_operations ops (drop_operation op s)

  -- What is left is completed inline, and dropped.
  unfoldable pub shutdown : Pipeline T → Pipeline T
  unfolding drop_operations
  shutdown s =
      drop_operations (map (λ p. p.context) s.accounts.pending ++ map (λ o. o.0) s.crc_pending)
        (record s {
          accounts = record s.accounts { pending = [] };
          crc_pending = [];
          delivered =
              s.delivered ++ (map fail_pending s.accounts.pending ++ map finish_crc s.crc_pending);
        })

  -- The pool's run of a batch, with those before and behind it in its queues.
  unfoldable pub run_batch :
      List (List (InFlight T × Result (Unit {0}) DmaError))
      → List (InFlight T × Result (Unit {0}) DmaError)
      → List (List (InFlight T × Result (Unit {0}) DmaError))
      → Pipeline T
      → Pipeline T
  unfolding drop_operations
  run_batch before batch after s =
      drop_operations (map (λ o. o.0) batch)
        (record s { submitted = before ++ after; delivered = s.delivered ++ map finish_crc batch })
