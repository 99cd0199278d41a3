-- ===== src/Pipeline/Conserved.antt =====
-- The same for the rest of a pass, the pool and the channel: nothing is lost and nothing is answered
-- twice.
use vdma.Prelude.{
  ℕ, suc, zero, ◌+◌, ◌-◌, ◌≡◌, refl, List, [], ◌∷◌, ◌++◌, some, Bool, true, false, arith, count,
  count-append, inl, inr, subst, sym, ltb, ap, map, List-cases, if◌then◌else◌, ◌&&◌, length,
}
use vdma.Errors.{Result, DmaError}
use vdma.Transfer.{InFlight, Completion, into_completion}
use vdma.Posting.{Answers, Quiescing, QuiescePost, posted, again, failed, post_quiesce}
use vdma.Posting.Quiesced.{operation, post_quiesce-Keeps}
use vdma.Worker.{should_flush_crc, target_completions}
use vdma.Pipeline.{Setting, Pipeline, endpoint, set_endpoint, drop_operation, stalled}
use vdma.Pipeline.Passes.{
  stall_quiesce, after_quiesce, attempt_quiesce, quiesce_pass, flush, deliver, idle, is_empty,
  Ending, drop_operations, run_batch, finish_crc,
}
use vdma.Pipeline.Places.{gather, count-gather, leases, count-live, count-hashing}
use vdma.Pipeline.Sound.{IsSound, IsHolding}
use vdma.Pipeline.Quiesced.{popped-IsHolding, attempt_quiesce-IsSound}
use vdma.Pipeline.Answered.{
  named, completed, tally, tally-if, launch-tally, fail-tally, quiesce_queued-tally,
}

module _ {T : Type 0} (id : T → ℕ) (setting : Setting T) (answers : ℕ → Answers) (i : ℕ) where
  after_quiesce-tally :
      (r : QuiescePost T) (answer : Answers) (s : Pipeline T)
      → tally id i (after_quiesce setting answers r answer s)
        ≡ count i (named id (operation r)) + tally id i s
  unfolding after_quiesce stall_quiesce
  after_quiesce-tally (posted op) answer s = launch-tally id setting answers i op s
  after_quiesce-tally (again w) answer s =
      let since = stalled w.stalled_since answer.now in
      tally-if id i _ _ _ (ltb (answer.later - since) setting.progress_deadline)
        (quiesce_queued-tally id setting answers i (record w { stalled_since = some since }) s)
        (fail-tally id setting answers i w.inflight _ s)
  after_quiesce-tally (failed op error) answer s = fail-tally id setting answers i op error s

  attempt_quiesce-tally :
      (w : Quiescing T) (s : Pipeline T)
      → IsHolding 0 w.inflight s
      → tally id i (attempt_quiesce setting answers w s)
        ≡ count i (named id w.inflight) + tally id i s
  unfolding attempt_quiesce set_endpoint
  attempt_quiesce-tally w s v =
      let answer = answers s.asked in
      let (_, (same, _, _, _, _)) =
        post_quiesce-Keeps setting.provider setting.fi_eagain answer s.next setting.quiesce_pointer
          w (leases s) (endpoint s) v.held in
      let (result, e) =
        post_quiesce setting.provider setting.fi_eagain answer s.next setting.quiesce_pointer w
          (endpoint s) in
      omega (
        arith,
        after_quiesce-tally result answer (record (set_endpoint e s) { asked = s.asked + 1 }),
        ap (λ x. count i (id x ∷ [])) same,
      )

  pub quiesce_pass-tally :
      (attempts : ℕ) (s : Pipeline T)
      → IsSound 0 s
      → tally id i (quiesce_pass setting answers attempts s) ≡ tally id i s
  unfolding quiesce_pass
  quiesce_pass-tally zero s v = refl
  quiesce_pass-tally (suc attempts) s v =
      let after = λ (q : List (Quiescing T)).
        tally id i (elim q [
          | [] ↦ s
          | w ∷ rest ↦
              quiesce_pass setting answers attempts
                (attempt_quiesce setting answers w (record s { quiescing = rest }))
        ])
        ≡ tally id i s in
      elim (List-cases s.quiescing) [
        | inl p ↦ subst after (sym p) refl
        | inr (w, (rest, p)) ↦
            let s' = record s { quiescing = rest } in
            let h = popped-IsHolding setting answers w rest s p v in
            subst after (sym p) (
              omega (
                arith,
                quiesce_pass-tally attempts (attempt_quiesce setting answers w s')
                    (attempt_quiesce-IsSound setting answers w s' h),
                attempt_quiesce-tally w s' h,
                count-live i (named id) s,
                count-live i (named id) s',
                ap (λ q. count i (gather (λ q. named id q.inflight) q)) p,
                count-append i (named id w.inflight) (gather (λ q. named id q.inflight) rest),
              ))
      ]

  pub flush-tally :
      (reaped_any : Bool) (s : Pipeline T)
      → tally id i (flush setting answers reaped_any s) ≡ tally id i s
  unfolding flush
  flush-tally reaped_any s =
      let s' = record s { crc_pending = []; submitted = s.submitted ++ s.crc_pending ∷ [] } in
      tally-if id i _ _ _
        (should_flush_crc (length s.crc_pending) s.posted_ops reaped_any (idle setting answers s))
        (omega (
          arith,
          count-hashing i (named id) s,
          count-hashing i (named id) s',
          count-gather i (gather (λ o. named id o.0)) s.submitted (s.crc_pending ∷ []),
          count-append i (gather (λ o. named id o.0) s.crc_pending) [],
        ))
        refl

  tally_pass-if :
      (n : ℕ) (r q : Pipeline T × Ending) (test : Bool)
      → tally id i r.0 ≡ n
      → tally id i q.0 ≡ n
      → tally id i (if test then r else q).0 ≡ n
  tally_pass-if n r q true a b = a
  tally_pass-if n r q false a b = b

  pub deliver-tally :
      (disconnected : Bool) (s : Pipeline T)
      → tally id i (deliver setting answers disconnected s).0 ≡ tally id i s
  unfolding deliver
  deliver-tally disconnected s = tally_pass-if _ _ _ (is_empty s.accounts.completions) refl (
      tally_pass-if _ _ _
        (ltb (length s.accounts.completions) target_completions && ltb s.drain_spins 10) refl
        (omega (
          arith,
          count-gather i (λ (c : Completion T). id c.caller_context ∷ []) s.delivered
              s.accounts.completions,
        )))

  drop_operations-tally :
      (ops : List (InFlight T)) (s : Pipeline T)
      → tally id i (drop_operations setting answers ops s) ≡ tally id i s
  unfolding drop_operations drop_operation set_endpoint
  drop_operations-tally [] s = refl
  drop_operations-tally (op ∷ ops) s = drop_operations-tally ops (drop_operation op s)

  finish_crc-completed :
      (batch : List (InFlight T × Result (Unit {0}) DmaError))
      → completed id (map (finish_crc setting answers) batch) ≡ gather (λ o. named id o.0) batch
  unfolding into_completion
  finish_crc-completed [] = refl
  finish_crc-completed ((op, result) ∷ batch) =
      ap (λ l. id op.caller_context ∷ l) (finish_crc-completed batch)

  pub run_batch-tally :
      (before after : List (List (InFlight T × Result (Unit {0}) DmaError)))
      (batch : List (InFlight T × Result (Unit {0}) DmaError)) (s : Pipeline T)
      → s.submitted ≡ before ++ batch ∷ after
      → tally id i (run_batch setting answers before batch after s) ≡ tally id i s
  unfolding run_batch
  run_batch-tally before after batch s e =
      let s' = record s {
        submitted = before ++ after;
        delivered = s.delivered ++ map (finish_crc setting answers) batch;
      } in
      omega (
        arith,
        drop_operations-tally (map (λ o. o.0) batch) s',
        count-hashing i (named id) s,
        count-hashing i (named id) s',
        ap (λ b. count i (gather (gather (λ o. named id o.0)) b)) e,
        count-gather i (gather (λ o. named id o.0)) before (batch ∷ after),
        count-gather i (gather (λ o. named id o.0)) before after,
        count-append i (gather (λ o. named id o.0) batch)
            (gather (gather (λ o. named id o.0)) after),
        count-gather i (λ (c : Completion T). id c.caller_context ∷ []) s.delivered
            (map (finish_crc setting answers) batch),
        ap (λ l. count i l) (finish_crc-completed batch),
      )
