-- ===== src/Pipeline/Kept.antt =====
-- The invariant, kept by a whole pass of the loop and by the pool.
use vdma.Prelude.{
  ◌&&◌, ℕ, suc, zero, ◌+◌, ◌≡◌, refl, List, [], ◌∷◌, ◌++◌, Bool, true, false, not, arith, count,
  count-append, inl, inr, length, ltb, ap, map, List-cases, if◌then◌else◌,
}
use vdma.Errors.{Result, DmaError}
use vdma.Transfer.{InFlight, Prepared}
use vdma.Endpoint.Reap.{Reaped}
use vdma.Endpoint.Held.{IsHeld}
use vdma.Posting.{Answers}
use vdma.Posting.Posted.{IsHeld-same}
use vdma.Worker.{should_flush_crc, target_completions}
use vdma.Worker.Accounts.{IsCounted, IsCounted-same}
use vdma.Pipeline.{
  Setting, WorkerMessage, Pipeline, endpoint, set_endpoint, post_pass, pop_pending, drop_operation,
}
use vdma.Pipeline.Passes.{
  Ending, is_empty, idle, flush, deliver, posted_state, pass, drop_operations, finish_crc,
  run_batch,
}
use vdma.Pipeline.Places.{
  gather, count-gather, gather-map, client_of, lease_of, live, hashing, leases, count-live,
  count-hashing,
}
use vdma.Pipeline.Messages.{intake-IsSound}
use vdma.Pipeline.Quiesced.{quiesce_pass-IsSound}
use vdma.Pipeline.Sound.{IsSound, IsHolding, IsSound-if, attempt-IsSound, drop_operation-IsHeld}
use vdma.Pipeline.Dispatched.{AllReported, reap_pass-IsSound}

IsSound-pass :
    {T : Type 0} (ahead : ℕ) (r q : Pipeline T × Ending) (test : Bool)
    → IsSound ahead r.0
    → IsSound ahead q.0
    → IsSound ahead (if test then r else q).0
IsSound-pass ahead r q true v w = v
IsSound-pass ahead r q false v w = w

module _ {T : Type 0} (setting : Setting T) (answers : ℕ → Answers) where
  pub popped-IsHolding :
      (p : Prepared T) (rest : List (Prepared T)) (s : Pipeline T)
      → s.accounts.pending ≡ p ∷ rest
      → IsSound 0 s
      → IsHolding 0 p.context (pop_pending rest s)
  popped-IsHolding p rest s e v =
      let s' = pop_pending rest s in
      record {
        counted =
            IsCounted-same _ _ s.accounts s'.accounts refl refl
              (λ c. omega (
                arith,
                count-live c client_of s,
                count-live c client_of s',
                ap (λ q. count c (gather (λ q. client_of q.context) q)) e,
                count-append c (client_of p.context) (live client_of s'),
                count-append c (client_of p.context) (gather (λ q. client_of q.context) rest),
              ))
              v.counted;
        held =
            IsHeld-same [] _ _ (endpoint s)
              (λ i. omega (
                arith,
                count-live i lease_of s,
                count-live i lease_of s',
                ap (λ q. count i (gather (λ q. lease_of q.context) q)) e,
                count-append i (lease_of p.context) (leases s'),
                count-append i (live lease_of s) (hashing lease_of s),
                count-append i (live lease_of s') (hashing lease_of s'),
                count-append i (lease_of p.context) (gather (λ q. lease_of q.context) rest),
              ))
              v.held;
        depth = v.depth;
      }

  pub post_pass-IsSound :
      (attempts : ℕ) (s : Pipeline T)
      → IsSound 0 s
      → IsSound 0 (post_pass setting answers attempts s)
  unfolding post_pass
  post_pass-IsSound zero s v = v
  post_pass-IsSound (suc attempts) s v =
      IsSound-if (ltb s.in_flight setting.cap)
        (elim (List-cases s.accounts.pending) [
          | inl p ↦ rw p v
          | inr (x, (rest, p)) ↦ rw p (
              post_pass-IsSound attempts _
                (attempt-IsSound setting answers 0 x _ (popped-IsHolding x rest s p v)))
        ])
        v

  pub flush-IsSound :
      (reaped_any : Bool) (s : Pipeline T)
      → IsSound 0 s
      → IsSound 0 (flush setting answers reaped_any s)
  unfolding flush
  flush-IsSound reaped_any s v =
      let s' = record s { crc_pending = []; submitted = s.submitted ++ s.crc_pending ∷ [] } in
      IsSound-if
        (should_flush_crc (length s.crc_pending) s.posted_ops reaped_any (idle setting answers s))
        (record {
          counted = v.counted;
          held =
              IsHeld-same [] _ _ (endpoint s)
                (λ i. omega (
                  arith,
                  count-hashing i lease_of s,
                  count-hashing i lease_of s',
                  count-append i (live lease_of s) (hashing lease_of s),
                  count-append i (live lease_of s') (hashing lease_of s'),
                  count-gather i (gather (λ o. lease_of o.0)) s.submitted (s.crc_pending ∷ []),
                  count-append i (gather (λ o. lease_of o.0) s.crc_pending) [],
                ))
                v.held;
          depth = v.depth;
        })
        v

  drop_operations-IsSound :
      (ops : List (InFlight T)) (s : Pipeline T)
      → IsCounted (live client_of s) s.accounts
      → IsHeld [] (gather lease_of ops ++ leases s) (endpoint s)
      → s.in_flight + 0 ≡ length s.flight
      → IsSound 0 (drop_operations setting answers ops s)
  unfolding drop_operations drop_operation set_endpoint
  drop_operations-IsSound [] s c h d = record { counted = c; held = h; depth = d }
  drop_operations-IsSound (op ∷ ops) s c h d =
      drop_operations-IsSound ops (drop_operation op s)
        (IsCounted-same _ _ s.accounts _ refl refl (λ i. refl) c)
        (drop_operation-IsHeld op (gather lease_of ops ++ leases s) s (
          IsHeld-same [] _ _ (endpoint s)
            (λ i. omega (
              arith,
              count-append i (lease_of op ++ gather lease_of ops) (leases s),
              count-append i (lease_of op) (gather lease_of ops),
              count-append i (lease_of op) (gather lease_of ops ++ leases s),
              count-append i (gather lease_of ops) (leases s),
            ))
            h))
        d

  pub deliver-IsSound :
      (disconnected : Bool) (s : Pipeline T)
      → IsSound 0 s
      → IsSound 0 (deliver setting answers disconnected s).0
  unfolding deliver
  deliver-IsSound disconnected s v = IsSound-pass 0 _ _ (is_empty s.accounts.completions) v (
      IsSound-pass 0 _ _
        (ltb (length s.accounts.completions) target_completions && ltb s.drain_spins 10)
        (record { counted = v.counted; held = v.held; depth = v.depth })
        (record {
          counted = IsCounted-same _ _ s.accounts _ refl refl (λ c. refl) v.counted;
          held = v.held;
          depth = v.depth;
        }))

  -- A pass keeps the invariant, whatever messages it takes in, whatever libfabric answers to its
  -- calls and whichever of its operations libfabric hands back.
  pub pass-IsSound :
      (messages : List (WorkerMessage T)) (disconnected : Bool) (reaped : List Reaped)
      (s : Pipeline T)
      → AllReported reaped (posted_state setting answers messages s).flight
      → IsSound 0 s
      → IsSound 0 (pass setting answers messages disconnected reaped s).0
  unfolding pass posted_state
  pass-IsSound messages disconnected reaped s h v =
      let taken = intake-IsSound setting answers messages s v in
      deliver-IsSound disconnected _ (
        flush-IsSound (not (is_empty reaped)) _ (
          quiesce_pass-IsSound setting answers _ _ (
            reap_pass-IsSound setting answers reaped _ h (
              post_pass-IsSound _ _
                (record { counted = taken.counted; held = taken.held; depth = taken.depth })))))

  pub run_batch-IsSound :
      (before after : List (List (InFlight T × Result (Unit {0}) DmaError)))
      (batch : List (InFlight T × Result (Unit {0}) DmaError)) (s : Pipeline T)
      → s.submitted ≡ before ++ batch ∷ after
      → IsSound 0 s
      → IsSound 0 (run_batch setting answers before batch after s)
  unfolding run_batch
  run_batch-IsSound before after batch s e v =
      let ops = map (λ o. o.0) batch in
      let s' = record s {
        submitted = before ++ after;
        delivered = s.delivered ++ map (finish_crc setting answers) batch;
      } in
      drop_operations-IsSound ops s' v.counted
        (IsHeld-same [] _ _ (endpoint s)
          (λ i. omega (
            arith,
            ap (λ l. count i l) (gather-map lease_of (λ o. o.0) batch),
            ap (λ b. count i (gather (gather (λ o. lease_of o.0)) b)) e,
            count-gather i (gather (λ o. lease_of o.0)) before (batch ∷ after),
            count-gather i (gather (λ o. lease_of o.0)) before after,
            count-append i (gather (λ o. lease_of o.0) batch)
                (gather (gather (λ o. lease_of o.0)) after),
            count-append i (gather lease_of ops) (leases s'),
            count-append i (live lease_of s) (hashing lease_of s),
            count-append i (live lease_of s') (hashing lease_of s'),
            count-hashing i lease_of s,
            count-hashing i lease_of s',
          ))
          v.held)
        v.depth
