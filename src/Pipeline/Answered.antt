-- ===== src/Pipeline/Answered.antt =====
-- Where a transfer is, from its request to its completion: an operation is in one place at a time.
use vdma.Prelude.{
  ◌-◌, ℕ, suc, zero, ◌+◌, ◌≡◌, refl, List, [], ◌∷◌, ◌++◌, none, some, Bool, true, false, arith,
  count, count-append, inl, inr, subst, sym, ltb, ap, List-cases, Option-cases, if◌then◌else◌,
}
use vdma.Prelude.Int.{ℤ, is_zero, is_negative}
use vdma.Errors.{Result, ok, err, DmaError}
use vdma.HashMap.{remove, get, remove-removed}
use vdma.Transfer.{InFlight, Prepared, Completion, into_completion}
use vdma.Endpoint.Reap.{Reaped}
use vdma.Posting.{Answers, Quiescing, post}
use vdma.Posting.Posted.{post-Keeps}
use vdma.Worker.{Worker, finish_op, finish_unreaped}
use vdma.Worker.Accounts.{finish_op-pending, finish_op-completions}
use vdma.Pipeline.{
  Setting, Pipeline, endpoint, set_endpoint, drop_operation, fail, launch, stall, stalled,
  after_post, attempt, pop_pending, post_pass,
}
use vdma.Pipeline.Passes.{defer_crc, complete_inline, complete, dispatch_op, dispatch, read_after}
use vdma.Pipeline.Places.{
  gather, count-gather, live, hashing, leases, count-live, count-hashing, count-live_queued,
}
use vdma.Pipeline.Sound.{IsSound, IsHolding, attempt-IsSound}
use vdma.Pipeline.Reclaimed.{count-gather-remove}
use vdma.Pipeline.Kept.{popped-IsHolding}

module _ {T : Type 0} (id : T → ℕ) where
  abbrev pub named : InFlight T → List ℕ
  named op = id op.caller_context ∷ []

  abbrev pub completed : List (Completion T) → List ℕ
  completed = gather (λ done. id done.caller_context ∷ [])

  -- How many of the transfers that the worker has, or has answered, have the name `i`.
  abbrev pub tally : ℕ → Pipeline T → ℕ
  tally i s =
      count i (live named s)
      + count i (hashing named s)
      + count i (completed s.accounts.completions)
      + count i (completed s.delivered)

  pub tally-if :
      (i n : ℕ) (s t : Pipeline T) (test : Bool)
      → tally i s ≡ n
      → tally i t ≡ n
      → tally i (if test then s else t) ≡ n
  tally-if i n s t true a b = a
  tally-if i n s t false a b = b

  module _ (setting : Setting T) (answers : ℕ → Answers) (i : ℕ) where
    pub launch-tally :
        (op : InFlight T) (s : Pipeline T)
        → tally i (launch setting answers op s) ≡ count i (named op) + tally i s
    unfolding launch
    launch-tally op s = omega (
      arith,
      count-live i named s,
      count-live i named (launch setting answers op s),
      count-append i (named op) (gather (λ e. named e.1) s.flight),
    )

    pub fail-tally :
        (op : InFlight T) (error : DmaError) (s : Pipeline T)
        → tally i (fail setting answers op error s) ≡ count i (named op) + tally i s
    unfolding fail drop_operation set_endpoint finish_unreaped
    fail-tally op error s =
        let done : Completion T = record {
          caller_context = op.caller_context;
          outcome = err error;
        } in
        let w : Worker T = record s.accounts {
          completions = s.accounts.completions ++ done ∷ [];
        } in
        omega (
          arith,
          ap (λ q. count i (live named (pop_pending q s))) (finish_op-pending op.client_id w),
          ap (λ q. count i (completed q)) (finish_op-completions op.client_id w),
          count-gather i (λ (c : Completion T). id c.caller_context ∷ []) s.accounts.completions
              (done ∷ []),
        )

    stall-tally :
        (answer : Answers) (p : Prepared T) (s : Pipeline T)
        → tally i (stall setting answers answer p s) ≡ count i (named p.context) + tally i s
    unfolding stall
    stall-tally answer p s =
        let since = stalled p.stalled_since answer.now in
        tally-if i _ _ _ (ltb (answer.later - since) setting.progress_deadline)
          (omega (arith, count-live_queued i named (record p { stalled_since = some since }) s))
          (fail-tally p.context _ s)

    after_post-tally :
        (r : Result ℤ DmaError) (answer : Answers) (p : Prepared T) (s : Pipeline T)
        → tally i (after_post setting answers r answer p s) ≡ count i (named p.context) + tally i s
    unfolding after_post
    after_post-tally (err e) answer p s = fail-tally p.context e s
    after_post-tally (ok code) answer p s =
        tally-if i _ _ _ (is_zero code) (launch-tally p.context s) (
          tally-if i _ _ _ (is_negative setting.fi_eagain code) (stall-tally answer p s)
            (fail-tally p.context _ s))

    attempt-tally :
        (p : Prepared T) (s : Pipeline T)
        → IsHolding 0 p.context s
        → tally i (attempt setting answers p s) ≡ count i (named p.context) + tally i s
    unfolding attempt set_endpoint
    attempt-tally p s v =
        let answer = answers s.asked in
        let (_, (same, _, _, _, _), _) =
          post-Keeps setting.provider setting.cacheable_span answer s.next p (leases s) (endpoint s)
            v.held in
        let ((result, p'), e) =
          post setting.provider setting.cacheable_span answer s.next p (endpoint s) in
        omega (
          arith,
          after_post-tally result answer p' (record (set_endpoint e s) { asked = s.asked + 1 }),
          ap (λ x. count i (id x ∷ [])) same,
        )

    popped-tally :
        (p : Prepared T) (rest : List (Prepared T)) (s : Pipeline T)
        → s.accounts.pending ≡ p ∷ rest
        → tally i s ≡ count i (named p.context) + tally i (pop_pending rest s)
    popped-tally p rest s e = omega (
      arith,
      count-live i named s,
      count-live i named (pop_pending rest s),
      ap (λ q. count i (gather (λ q. named q.context) q)) e,
      count-append i (named p.context) (gather (λ q. named q.context) rest),
    )

    pub post_pass-tally :
        (attempts : ℕ) (s : Pipeline T)
        → IsSound 0 s
        → tally i (post_pass setting answers attempts s) ≡ tally i s
    unfolding post_pass
    post_pass-tally zero s v = refl
    post_pass-tally (suc attempts) s v =
        let after = λ (q : List (Prepared T)).
          tally i (elim q [
            | [] ↦ s
            | p ∷ rest ↦
                post_pass setting answers attempts (attempt setting answers p (pop_pending rest s))
          ])
          ≡ tally i s in
        tally-if i _ _ _ (ltb s.in_flight setting.cap)
          (elim (List-cases s.accounts.pending) [
            | inl p ↦ subst after (sym p) refl
            | inr (x, (rest, p)) ↦
                let h = popped-IsHolding setting answers x rest s p v in
                subst after (sym p) (
                  omega (
                    arith,
                    post_pass-tally attempts (attempt setting answers x (pop_pending rest s))
                        (attempt-IsSound setting answers 0 x (pop_pending rest s) h),
                    attempt-tally x (pop_pending rest s) h,
                    popped-tally x rest s p,
                  ))
          ])
          refl

    complete-tally :
        (op : InFlight T) (result : Result (Unit {0}) DmaError) (s : Pipeline T)
        → tally i (complete setting answers op result s) ≡ count i (named op) + tally i s
    unfolding complete defer_crc complete_inline drop_operation set_endpoint into_completion
    complete-tally op result s =
        let w = finish_op op.client_id s.accounts in
        let done = into_completion setting.checksum op result in
        tally-if i _ _ _ op.want_checksum
          (omega (
            arith,
            ap (λ q. count i (live named (pop_pending q s)))
                (finish_op-pending op.client_id s.accounts),
            ap (λ q. count i (completed q)) (finish_op-completions op.client_id s.accounts),
            count-hashing i named s,
            count-hashing i named (record s { crc_pending = s.crc_pending ++ (op, result) ∷ [] }),
            count-gather i (λ o. named o.0) s.crc_pending ((op, result) ∷ []),
          ))
          (omega (
            arith,
            ap (λ q. count i (live named (pop_pending q s)))
                (finish_op-pending op.client_id s.accounts),
            ap (λ q. count i (completed (q ++ done ∷ [])))
                (finish_op-completions op.client_id s.accounts),
            count-gather i (λ (c : Completion T). id c.caller_context ∷ []) s.accounts.completions
                (done ∷ []),
          ))

    pub quiesce_queued-tally :
        (w : Quiescing T) (s : Pipeline T)
        → tally i (record s { quiescing = s.quiescing ++ w ∷ [] })
          ≡ count i (named w.inflight) + tally i s
    quiesce_queued-tally w s = omega (
      arith,
      count-live i named s,
      count-live i named (record s { quiescing = s.quiescing ++ w ∷ [] }),
      count-gather i (λ q. named q.inflight) s.quiescing (w ∷ []),
    )

    dispatch_op-tally :
        (op : InFlight T) (result : Result (Unit {0}) DmaError) (s : Pipeline T)
        → tally i (dispatch_op setting answers op result s) ≡ count i (named op) + tally i s
    unfolding dispatch_op
    dispatch_op-tally op result s = elim (Option-cases (read_after op.quiesce result)) [
      | inl p ↦ rw (p, dispatch_op) (complete-tally op result s)
      | inr (read, p) ↦
          rw (p, dispatch_op)
            (quiesce_queued-tally
              (record {
                inflight = record op { quiesce = none };
                read = read;
                stalled_since = none;
              })
              s)
    ]

    pub dispatch-tally :
        (reaped : List Reaped) (s : Pipeline T)
        → tally i (dispatch setting answers reaped s) ≡ tally i s
    unfolding dispatch
    dispatch-tally [] s = refl
    dispatch-tally ((context, result) ∷ reaped) s =
        let s₁ = record s { flight = (remove context s.flight).0 } in
        elim (Option-cases (get context s.flight)) [
          | inl p ↦ rw (remove-removed context s.flight, p, dispatch) (dispatch-tally reaped s)
          | inr (op, p) ↦
              rw (remove-removed context s.flight, p, dispatch)
                (omega (
                  arith,
                  dispatch-tally reaped (dispatch_op setting answers op result s₁),
                  dispatch_op-tally op result s₁,
                  count-live i named s,
                  count-live i named s₁,
                  count-gather-remove i context named op s.flight p,
                ))
        ]
