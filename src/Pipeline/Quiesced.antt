-- ===== src/Pipeline/Quiesced.antt =====
-- The invariant, kept by the posts of quiesce reads.
use vdma.Prelude.{
  List-cases, ℕ, suc, zero, ◌+◌, ◌-◌, ◌≡◌, refl, List, [], ◌∷◌, some, arith, count, count-append,
  inl, inr, ltb, ap,
}
use vdma.Posting.{Answers, Quiescing, QuiescePost, posted, again, failed, post_quiesce}
use vdma.Posting.Posted.{IsHeld-same}
use vdma.Posting.Quiesced.{operation, post_quiesce-Keeps}
use vdma.Worker.Accounts.{IsCounted-same}
use vdma.Pipeline.{Setting, Pipeline, endpoint, set_endpoint, stalled}
use vdma.Pipeline.Passes.{stall_quiesce, after_quiesce, attempt_quiesce, quiesce_pass}
use vdma.Pipeline.Places.{gather, client_of, lease_of, live, hashing, leases, count-live}
use vdma.Pipeline.Sound.{
  IsSound, IsHolding, launch-IsSound, fail-IsSound, asked-IsHolding, IsSound-if,
}
use vdma.Pipeline.Reclaimed.{quiesce_queued-IsSound}

module _ {T : Type 0} (setting : Setting T) (answers : ℕ → Answers) where
  stall_quiesce-IsSound :
      (answer : Answers) (w : Quiescing T) (s : Pipeline T)
      → IsHolding 0 w.inflight s
      → IsSound 0 (stall_quiesce setting answers answer w s)
  unfolding stall_quiesce
  stall_quiesce-IsSound answer w s v =
      let since = stalled w.stalled_since answer.now in
      IsSound-if (ltb (answer.later - since) setting.progress_deadline)
        (quiesce_queued-IsSound 0 (record w { stalled_since = some since }) s v)
        (fail-IsSound setting answers 0 w.inflight _ s v)

  after_quiesce-IsSound :
      (r : QuiescePost T) (answer : Answers) (s : Pipeline T)
      → IsHolding 0 (operation r) s
      → IsSound 0 (after_quiesce setting answers r answer s)
  unfolding after_quiesce
  after_quiesce-IsSound (posted op) answer s v = launch-IsSound setting answers 0 op s v
  after_quiesce-IsSound (again w) answer s v = stall_quiesce-IsSound answer w s v
  after_quiesce-IsSound (failed op error) answer s v = fail-IsSound setting answers 0 op error s v

  pub attempt_quiesce-IsSound :
      (w : Quiescing T) (s : Pipeline T)
      → IsHolding 0 w.inflight s
      → IsSound 0 (attempt_quiesce setting answers w s)
  unfolding attempt_quiesce
  attempt_quiesce-IsSound w s v =
      let answer = answers s.asked in
      let (held, (_, same, _, _, _)) =
        post_quiesce-Keeps setting.provider setting.fi_eagain answer s.next setting.quiesce_pointer
          w (leases s) (endpoint s) v.held in
      let (result, e) =
        post_quiesce setting.provider setting.fi_eagain answer s.next setting.quiesce_pointer w
          (endpoint s) in
      after_quiesce-IsSound result answer (record (set_endpoint e s) { asked = s.asked + 1 })
        (asked-IsHolding 0 w.inflight (operation result) e s v same held)

  -- The first of those that wait is in hand.
  pub popped-IsHolding :
      (w : Quiescing T) (rest : List (Quiescing T)) (s : Pipeline T)
      → s.quiescing ≡ w ∷ rest
      → IsSound 0 s
      → IsHolding 0 w.inflight (record s { quiescing = rest })
  popped-IsHolding w rest s e v =
      let s' = record s { quiescing = rest } in
      record {
        counted =
            IsCounted-same _ _ s.accounts s'.accounts refl refl
              (λ c. omega (
                arith,
                count-live c client_of s,
                count-live c client_of s',
                ap (λ q. count c (gather (λ q. client_of q.inflight) q)) e,
                count-append c (client_of w.inflight) (live client_of s'),
                count-append c (client_of w.inflight) (gather (λ q. client_of q.inflight) rest),
              ))
              v.counted;
        held =
            IsHeld-same [] _ _ (endpoint s)
              (λ i. omega (
                arith,
                count-live i lease_of s,
                count-live i lease_of s',
                ap (λ q. count i (gather (λ q. lease_of q.inflight) q)) e,
                count-append i (lease_of w.inflight) (leases s'),
                count-append i (live lease_of s) (hashing lease_of s),
                count-append i (live lease_of s') (hashing lease_of s'),
                count-append i (lease_of w.inflight) (gather (λ q. lease_of q.inflight) rest),
              ))
              v.held;
        depth = v.depth;
      }

  pub quiesce_pass-IsSound :
      (attempts : ℕ) (s : Pipeline T)
      → IsSound 0 s
      → IsSound 0 (quiesce_pass setting answers attempts s)
  unfolding quiesce_pass
  quiesce_pass-IsSound zero s v = v
  quiesce_pass-IsSound (suc attempts) s v = elim (List-cases s.quiescing) [
    | inl p ↦ rw (p, quiesce_pass) v
    | inr (w, (rest, p)) ↦
        rw (p, quiesce_pass)
          (quiesce_pass-IsSound attempts _
            (attempt_quiesce-IsSound w _ (popped-IsHolding w rest s p v)))
  ]
