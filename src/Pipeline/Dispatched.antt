-- ===== src/Pipeline/Dispatched.antt =====
-- The invariant, kept by what is reaped.
use vdma.Prelude.{
  ◌≤◌, ℕ, ◌+◌, ◌≡◌, refl, List, [], ◌∷◌, ◌++◌, none, some, arith, count, count-append, Option-cases,
  inl, inr, length, subst, sym, ap,
}
use vdma.Errors.{Result, DmaError}
use vdma.HashMap.{remove, get, remove-removed}
use vdma.Transfer.{InFlight}
use vdma.Endpoint.Reap.{Reaped}
use vdma.Endpoint.Held.{IsHeld}
use vdma.Posting.{Answers}
use vdma.Posting.Posted.{IsHeld-same}
use vdma.Worker.{finish_op}
use vdma.Worker.Accounts.{IsCounted, IsCounted-same, finish_op_lem, finish_op-pending}
use vdma.Pipeline.{Setting, Pipeline, endpoint, set_endpoint, drop_operation, pop_pending}
use vdma.Pipeline.Passes.{
  defer_crc, complete_inline, complete, dispatch_op, dispatch, read_after, reap_pass,
}
use vdma.Pipeline.Places.{count-gather, client_of, lease_of, live, hashing, leases, count-hashing}
use vdma.Pipeline.Sound.{IsSound, IsHolding, drop_operation-IsHeld, finish_op-IsHeld, IsSound-if}
use vdma.Pipeline.Reclaimed.{length-remove, reclaimed-IsHolding, quiesce_queued-IsSound}

module _ {T : Type 0} where
  module _ (setting : Setting T) (answers : ℕ → Answers) where
    defer_crc-IsSound :
        (ahead : ℕ) (op : InFlight T) (result : Result (Unit {0}) DmaError) (s : Pipeline T)
        → IsCounted (live client_of s) s.accounts
        → IsHeld [] (lease_of op ++ leases s) (endpoint s)
        → s.in_flight + ahead ≡ length s.flight
        → IsSound ahead (defer_crc setting answers op result s)
    unfolding defer_crc
    defer_crc-IsSound ahead op result s c h d =
        let s' = defer_crc setting answers op result s in
        record {
          counted = c;
          held =
              IsHeld-same [] _ _ (endpoint s)
                (λ i. omega (
                  arith,
                  count-hashing i lease_of s,
                  count-hashing i lease_of s',
                  count-append i (lease_of op) (leases s),
                  count-append i (live lease_of s) (hashing lease_of s),
                  count-append i (live lease_of s') (hashing lease_of s'),
                  count-gather i (λ o. lease_of o.0) s.crc_pending ((op, result) ∷ []),
                  count-append i (lease_of op) [],
                ))
                h;
          depth = d;
        }

    complete_inline-IsSound :
        (ahead : ℕ) (op : InFlight T) (result : Result (Unit {0}) DmaError) (s : Pipeline T)
        → IsCounted (live client_of s) s.accounts
        → IsHeld [] (lease_of op ++ leases s) (endpoint s)
        → s.in_flight + ahead ≡ length s.flight
        → IsSound ahead (complete_inline setting answers op result s)
    unfolding complete_inline drop_operation set_endpoint
    complete_inline-IsSound ahead op result s c h d = record {
      counted = IsCounted-same _ _ s.accounts _ refl refl (λ i. refl) c;
      held = drop_operation-IsHeld op (leases s) s h;
      depth = d;
    }

    -- The lists that the accounts of a finished operation leave are those that there were.
    complete-IsSound :
        (ahead : ℕ) (op : InFlight T) (result : Result (Unit {0}) DmaError) (s : Pipeline T)
        → IsHolding ahead op s
        → IsSound ahead (complete setting answers op result s)
    unfolding complete
    complete-IsSound ahead op result s v =
        let w = finish_op op.client_id s.accounts in
        let s₁ = record s { accounts = w } in
        let same : w.pending ≡ s.accounts.pending = finish_op-pending op.client_id s.accounts in
        let counted : IsCounted (live client_of s₁) w =
          IsCounted-same _ _ w w refl refl
            (λ c. ap (λ q. count c (live client_of (pop_pending q s))) (sym same))
            (finish_op_lem op.client_id (live client_of s) s.accounts v.counted).0 in
        let held : IsHeld [] (lease_of op ++ leases s₁) (endpoint s₁) =
          IsHeld-same [] _ _ (endpoint s₁)
            (λ i. ap (λ q. count i (lease_of op ++ leases (pop_pending q s))) (sym same))
            (finish_op-IsHeld op.client_id (lease_of op ++ leases s) (live client_of s) s v.counted
              v.held) in
        IsSound-if op.want_checksum (defer_crc-IsSound ahead op result s₁ counted held v.depth)
          (complete_inline-IsSound ahead op result s₁ counted held v.depth)

    dispatch_op-IsSound :
        (ahead : ℕ) (op : InFlight T) (result : Result (Unit {0}) DmaError) (s : Pipeline T)
        → IsHolding ahead op s
        → IsSound ahead (dispatch_op setting answers op result s)
    unfolding dispatch_op
    dispatch_op-IsSound ahead op result s v = elim (Option-cases (read_after op.quiesce result)) [
      | inl p ↦ rw (p, dispatch_op) (complete-IsSound ahead op result s v)
      | inr (read, p) ↦
          rw (p, dispatch_op)
            (quiesce_queued-IsSound ahead
              (record {
                inflight = record op { quiesce = none };
                read = read;
                stalled_since = none;
              })
              s (record { counted = v.counted; held = v.held; depth = v.depth }))
    ]

  -- What libfabric documents: each completion is of an operation that it was given and has not
  -- handed back.
  abbrev pub AllReported : List Reaped → List (ℕ × InFlight T) → Type 0
  AllReported [] flight = Unit {0}
  AllReported ((context, result) ∷ reaped) flight =
      ((op : InFlight T) × (get context flight ≡ some op))
      × AllReported reaped (remove context flight).0

  pub AllReported-length :
      (reaped : List Reaped) (flight : List (ℕ × InFlight T))
      → AllReported reaped flight
      → length reaped ≤ length flight
  AllReported-length [] flight h = omega arith
  AllReported-length ((context, result) ∷ reaped) flight ((op, found), rest) = omega (
    arith,
    AllReported-length reaped (remove context flight).0 rest,
    length-remove context op flight found,
  )

  module _ (setting : Setting T) (answers : ℕ → Answers) where
    flight-dispatch_op :
        (op : InFlight T) (result : Result (Unit {0}) DmaError) (s : Pipeline T)
        → (dispatch_op setting answers op result s).flight ≡ s.flight
    unfolding dispatch_op complete defer_crc complete_inline drop_operation set_endpoint
    flight-dispatch_op op result s = ground arith

    dispatch-IsSound :
        (reaped : List Reaped) (s : Pipeline T)
        → AllReported reaped s.flight
        → IsSound (length reaped) s
        → IsSound 0 (dispatch setting answers reaped s)
    unfolding dispatch
    dispatch-IsSound [] s h v = v
    dispatch-IsSound ((context, result) ∷ reaped) s ((op, found), rest) v =
        let s₁ = record s { flight = (remove context s.flight).0 } in
        let s₂ = dispatch_op setting answers op result s₁ in
        rw (remove-removed context s.flight, found, dispatch)
          (dispatch-IsSound reaped s₂
            (subst (AllReported reaped) (sym (flight-dispatch_op op result s₁)) rest)
            (dispatch_op-IsSound setting answers (length reaped) op result s₁
              (reclaimed-IsHolding (length reaped) context op s found v)))

    pub reap_pass-IsSound :
        (reaped : List Reaped) (s : Pipeline T)
        → AllReported reaped s.flight
        → IsSound 0 s
        → IsSound 0 (reap_pass setting answers reaped s)
    unfolding reap_pass
    reap_pass-IsSound reaped s h v = dispatch-IsSound reaped _ h (record {
      counted = v.counted;
      held = v.held;
      depth = omega (arith, v.depth, AllReported-length reaped s.flight h);
    })
