-- ===== src/Pipeline/Ended.antt =====
-- What the worker has answered when it stops, and before.
use vdma.Prelude.{
  ℕ, ◌+◌, ◌-◌, ◌≡◌, refl, List, [], ◌∷◌, ◌++◌, Bool, not, arith, count, inl, inr, subst, ap, length,
}
use vdma.Transfer.{Completion}
use vdma.Transfer.Prepare.{HasName, prepare-named}
use vdma.Endpoint.Reap.{Reaped}
use vdma.Posting.{Answers}
use vdma.Peers.{AddressFormat}
use vdma.Worker.{accept}
use vdma.Worker.Accounts.{remove_or_defer-pending, remove_or_defer-completions}
use vdma.Worker.Intake.{accept_lem}
use vdma.Pipeline.{
  Setting, WorkerMessage, transfers, adds_peer, removes_peer, registers, Pipeline, set_endpoint,
  take_in, intake, pop_pending,
}
use vdma.Pipeline.Passes.{quiesce_pass, flush, is_empty, reap_pass, posted_state, pass}
use vdma.Pipeline.Places.{count-gather, live, count-live_queued, client_of}
use vdma.Pipeline.Sound.{IsSound}
use vdma.Pipeline.Dispatched.{AllReported, reap_pass-IsSound}
use vdma.Pipeline.Messages.{intake-IsSound, take_in-IsSound}
use vdma.Pipeline.Kept.{post_pass-IsSound}
use vdma.Pipeline.Answered.{named, completed, tally, post_pass-tally, dispatch-tally}
use vdma.Pipeline.Conserved.{quiesce_pass-tally, flush-tally, deliver-tally, run_batch-tally}
use vdma.Pipeline.Steps.{launched, Step, passes, runs, reclaims, Reach, here, next, Reach-IsSound}

module _ {T : Type 0} (id : T → ℕ) (setting : Setting T) (answers : ℕ → Answers)
    (kept : (length : ℕ) (context : T) → id (setting.allocate length context).1 ≡ id context) where
  -- The names of the transfers that were requested.
  abbrev pub requested : List (WorkerMessage T) → List ℕ
  requested [] = []
  requested (transfers request ∷ ms) = id request.caller_context ∷ requested ms
  requested (adds_peer client address ∷ ms) = requested ms
  requested (removes_peer client ∷ ms) = requested ms
  requested (registers base extent ∷ ms) = requested ms

  module _ (i : ℕ) where
    count-requested :
        (ms ns : List (WorkerMessage T))
        → count i (requested (ms ++ ns)) ≡ count i (requested ms) + count i (requested ns)
    count-requested [] ns = omega arith
    count-requested (transfers request ∷ ms) ns = omega (arith, count-requested ms ns)
    count-requested (adds_peer client address ∷ ms) ns = count-requested ms ns
    count-requested (removes_peer client ∷ ms) ns = count-requested ms ns
    count-requested (registers base extent ∷ ms) ns = count-requested ms ns

    take_in-tally :
        (m : WorkerMessage T) (s : Pipeline T)
        → IsSound 0 s
        → tally id i (take_in setting answers m s) ≡ count i (requested (m ∷ [])) + tally id i s
    unfolding take_in set_endpoint
    take_in-tally (transfers request) s v =
        let w = accept setting.source setting.allocate setting.quiesce_writes request s.accounts in
        let name =
          prepare-named setting.source setting.allocate id kept request setting.quiesce_writes in
        elim (accept_lem setting.source setting.allocate setting.quiesce_writes request
          (live client_of s) s.accounts v.counted) [
            | inl (p, e, queued, done, _, _) ↦ omega (
              arith,
              ap (λ q. count i (live (named id) (pop_pending q s))) queued,
              ap (λ q. count i (completed id q)) done,
              count-live_queued i (named id) p s,
              ap (λ n. count i (n ∷ []))
                  (subst
                    (HasName setting.source setting.allocate id kept (id request.caller_context)) e
                    name),
            )
            | inr (done, e, same, more, _, _) ↦ omega (
              arith,
              ap (λ q. count i (live (named id) (pop_pending q s))) same,
              ap (λ q. count i (completed id q)) more,
              count-gather i (λ (c : Completion T). id c.caller_context ∷ []) s.accounts.completions
                  (done ∷ []),
              ap (λ n. count i (n ∷ []))
                  (subst
                    (HasName setting.source setting.allocate id kept (id request.caller_context)) e
                    name),
            )
          ]
    take_in-tally (adds_peer client address) s v = omega arith
    take_in-tally (removes_peer client) s v = omega (
      arith,
      ap (λ q. count i (live (named id) (pop_pending q s)))
          (remove_or_defer-pending client s.accounts),
      ap (λ q. count i (completed id q)) (remove_or_defer-completions client s.accounts),
    )
    take_in-tally (registers base extent) s v = omega arith

    intake-tally :
        (ms : List (WorkerMessage T)) (s : Pipeline T)
        → IsSound 0 s
        → tally id i (intake setting answers ms s) ≡ count i (requested ms) + tally id i s
    unfolding intake
    intake-tally [] s v = omega arith
    intake-tally (m ∷ ms) s v = omega (
      arith,
      intake-tally ms (take_in setting answers m s) (take_in-IsSound setting answers m s v),
      take_in-tally m s v,
      count-requested (m ∷ []) ms,
    )

    pass-tally :
        (messages : List (WorkerMessage T)) (disconnected : Bool) (reaped : List Reaped)
        (s : Pipeline T)
        → AllReported reaped (posted_state setting answers messages s).flight
        → IsSound 0 s
        → tally id i (pass setting answers messages disconnected reaped s).0
          ≡ count i (requested messages) + tally id i s
    unfolding pass posted_state reap_pass
    pass-tally messages disconnected reaped s h v =
        let intake_sound = intake-IsSound setting answers messages s v in
        let taken = record (intake setting answers messages s) { posted_ops = 0 } in
        let taken_sound : IsSound 0 taken = record {
          counted = intake_sound.counted;
          held = intake_sound.held;
          depth = intake_sound.depth;
        } in
        let s₁ = posted_state setting answers messages s in
        let s₁_sound : IsSound 0 s₁ =
          post_pass-IsSound setting answers (length taken.accounts.pending) taken taken_sound in
        let s₂ = reap_pass setting answers reaped s₁ in
        let s₂_sound : IsSound 0 s₂ = reap_pass-IsSound setting answers reaped s₁ h s₁_sound in
        let s₃ = quiesce_pass setting answers (length s₂.quiescing) s₂ in
        let s₄ = flush setting answers (not (is_empty reaped)) s₃ in
        omega (
          arith,
          deliver-tally id setting answers i disconnected s₄,
          flush-tally id setting answers i (not (is_empty reaped)) s₃,
          quiesce_pass-tally id setting answers i (length s₂.quiescing) s₂ s₂_sound,
          dispatch-tally id setting answers i reaped
              (record s₁ { in_flight = s₁.in_flight - length reaped }),
          post_pass-tally id setting answers i (length taken.accounts.pending) taken taken_sound,
          intake-tally messages s v,
        )

    Step-tally :
        {s : Pipeline T} {messages : List (WorkerMessage T)} {t : Pipeline T}
        → Step setting answers s messages t
        → IsSound 0 s
        → tally id i t ≡ count i (requested messages) + tally id i s
    Step-tally (passes messages disconnected reaped s h) v =
        pass-tally messages disconnected reaped s h v
    Step-tally (runs before after batch s e) v =
        omega (arith, run_batch-tally id setting answers i before after batch s e)
    Step-tally (reclaims start end s) v = omega arith

    -- Nothing is lost and nothing is answered twice: if the caller's allocation keeps the name of a
    -- transfer, and what libfabric reports is of operations that it has, then each transfer
    -- requested so far is in one place, in a queue of the worker's, with libfabric, with the pool or
    -- among the completions, and in no other.
    pub tally-Reach :
        (format : AddressFormat) (n : ℕ) {messages : List (WorkerMessage T)} {t : Pipeline T}
        → Reach setting answers (launched format n) messages t
        → tally id i t ≡ count i (requested messages)
    tally-Reach format n here = refl
    tally-Reach format n (next {earlier} {messages} r s) = omega (
      arith,
      Step-tally s (Reach-IsSound setting answers format n r),
      tally-Reach format n r,
      count-requested earlier messages,
    )
