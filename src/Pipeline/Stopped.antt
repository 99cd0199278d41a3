-- ===== src/Pipeline/Stopped.antt =====
-- What is left when the worker stops.
use vdma.Prelude.{
  ℕ, ◌+◌, ◌≡◌, refl, List, [], ◌∷◌, ◌++◌, Bool, true, not, arith, count, inl, inr, ap, List-cases,
  length,
}
use vdma.Endpoint.Reap.{Reaped}
use vdma.Posting.{Answers}
use vdma.Peers.{AddressFormat}
use vdma.Worker.{should_flush_crc}
use vdma.Pipeline.{Setting, WorkerMessage, Pipeline}
use vdma.Pipeline.Passes.{
  quiesce_pass, flush, deliver, idle, is_empty, reap_pass, posted_state, pass, stops,
}
use vdma.Pipeline.Places.{gather, count-live, count-hashing}
use vdma.Pipeline.Dispatched.{AllReported}
use vdma.Pipeline.Answered.{named, completed}
use vdma.Pipeline.Steps.{launched, passes, Reach, next, Reach-IsSound}
use vdma.Pipeline.Ended.{requested, tally-Reach}

-- What the worker has not handed on.
module _ {T : Type 0} (setting : Setting T) (answers : ℕ → Answers) where
  -- Nothing is queued, in flight, waiting to be quiesced or for its checksum, or not delivered.
  pub record IsFinished (s : Pipeline T) : Type 0 where
    pub pending : s.accounts.pending ≡ []
    pub quiescing : s.quiescing ≡ []
    pub in_flight : s.in_flight ≡ 0
    pub crc_pending : s.crc_pending ≡ []
    pub completions : s.accounts.completions ≡ []

  is_empty-nil : {A : Type 0} (xs : List A) → is_empty xs ≡ true → xs ≡ []
  is_empty-nil [] h = refl
  is_empty-nil (x ∷ xs) h = cc

  -- A batch is never held back by a worker that is about to park.
  flush-idle :
      (reaped_any : Bool) (s : Pipeline T)
      → idle setting answers (flush setting answers reaped_any s) ≡ true
      → (flush setting answers reaped_any s).crc_pending ≡ []
  unfolding flush idle should_flush_crc
  flush-idle reaped_any s h = elim (List-cases s.crc_pending) [
    | inl p ↦ ground (arith, p)
    | inr (x, (rest, p)) ↦ ground (arith, p, h)
  ]

  stops-idle :
      (disconnected : Bool) (s : Pipeline T)
      → (deliver setting answers disconnected s).1 ≡ stops
      → idle setting answers s ≡ true
  unfolding deliver
  stops-idle disconnected s h = ground (arith, h)

  deliver-stops :
      (disconnected : Bool) (s : Pipeline T)
      → (deliver setting answers disconnected s).1 ≡ stops
      → s.crc_pending ≡ []
      → IsFinished (deliver setting answers disconnected s).0
  unfolding deliver idle
  deliver-stops disconnected s h c = record {
    pending = is_empty-nil _ (ground (arith, h));
    quiescing = is_empty-nil _ (ground (arith, h));
    in_flight = ground (arith, h);
    crc_pending = ground (arith, h, c);
    completions = is_empty-nil _ (ground (arith, h));
  }

  pub pass-stops :
      (messages : List (WorkerMessage T)) (disconnected : Bool) (reaped : List Reaped)
      (s : Pipeline T)
      → (pass setting answers messages disconnected reaped s).1 ≡ stops
      → IsFinished (pass setting answers messages disconnected reaped s).0
  unfolding pass
  pass-stops messages disconnected reaped s h =
      let s₁ = reap_pass setting answers reaped (posted_state setting answers messages s) in
      let s₂ = quiesce_pass setting answers (length s₁.quiescing) s₁ in
      let s₃ = flush setting answers (not (is_empty reaped)) s₂ in
      deliver-stops disconnected s₃ h
        (flush-idle (not (is_empty reaped)) s₂ (stops-idle disconnected s₃ h))

length-zero : {A : Type 0} (xs : List A) → length xs ≡ 0 → xs ≡ []
length-zero [] h = refl
length-zero (x ∷ xs) h = absurd (omega (arith, h))

-- What is left when the worker stops is with the pool: if the caller's allocation keeps the name of
-- a transfer, and what libfabric reports is of operations that it has, then every transfer that was
-- requested by then has been handed to `complete_batch` once or is once in a batch that the pool has
-- still to run, and no other was.
pub stopped-Reach :
    {T : Type 0} (id : T → ℕ) (setting : Setting T) (answers : ℕ → Answers)
    (kept : (length : ℕ) (context : T) → id (setting.allocate length context).1 ≡ id context)
    (i n : ℕ) (format : AddressFormat) (earlier messages : List (WorkerMessage T))
    (disconnected : Bool) (reaped : List Reaped) (s : Pipeline T)
    → Reach setting answers (launched format n) earlier s
    → AllReported reaped (posted_state setting answers messages s).flight
    → (pass setting answers messages disconnected reaped s).1 ≡ stops
    → let t = (pass setting answers messages disconnected reaped s).0 in
      count i (completed id t.delivered) + count i (gather (gather (λ o. named id o.0)) t.submitted)
      ≡ count i (requested id setting answers kept (earlier ++ messages))
stopped-Reach id setting answers kept i n format earlier messages disconnected reaped s r h e =
    let t = (pass setting answers messages disconnected reaped s).0 in
    let r' : Reach setting answers (launched format n) (earlier ++ messages) t =
      next r (passes messages disconnected reaped s h) in
    let done = pass-stops setting answers messages disconnected reaped s e in
    let no_flight : t.flight ≡ [] =
      length-zero t.flight
        (omega (arith, (Reach-IsSound setting answers format n r').depth, done.in_flight)) in
    omega (
      arith,
      tally-Reach id setting answers kept i format n r',
      count-live i (named id) t,
      count-hashing i (named id) t,
      ap (λ q. count i (gather (λ p. named id p.context) q)) done.pending,
      ap (λ q. count i (gather (λ q. named id q.inflight) q)) done.quiescing,
      ap (λ q. count i (gather (λ e. named id e.1) q)) no_flight,
      ap (λ q. count i (gather (λ o. named id o.0) q)) done.crc_pending,
      ap (λ q. count i (completed id q)) done.completions,
    )
