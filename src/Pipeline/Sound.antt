-- ===== src/Pipeline/Sound.antt =====
-- The worker's invariant, kept by what it does with one operation.
use vdma.Prelude.{
  ◌==◌, ◌&&◌, if◌then◌else◌, ℕ, ◌+◌, ◌-◌, ◌≡◌, refl, List, [], ◌∷◌, ◌++◌, some, Bool, true, false,
  arith, count, count-append, length, subst, sym, ltb, ap,
}
use vdma.Prelude.Int.{ℤ, is_zero, is_negative}
use vdma.Errors.{Result, ok, err, DmaError}
use vdma.HashMap.{the_value}
use vdma.Transfer.{InFlight, Prepared, into_completion}
use vdma.Endpoint.{LibfabricEndpoint}
use vdma.Endpoint.Held.{IsHeld, drop_option-IsHeld}
use vdma.Posting.{Answers, post}
use vdma.Posting.Posted.{IsHeld-same, post-Keeps}
use vdma.Peers.{PeerAddresses}
use vdma.Peers
use vdma.Peers.Clients.{release-IsValid}
use vdma.Worker.{member, Worker, finish_op, finish_unreaped}
use vdma.Worker.Accounts.{IsCounted, IsCounted-same, finish_op_lem, finish_op-pending}
use vdma.Pipeline.{
  Setting, Pipeline, endpoint, set_endpoint, drop_operation, fail, launch, stall, stalled,
  after_post, attempt, pop_pending,
}
use vdma.Pipeline.Places.{
  gather, count-gather, client_of, lease_of, live, hashing, leases, count-live,
}

pub IsValid-if :
    {a b : PeerAddresses} (test : Bool)
    → Peers.Valid.IsValid [] a
    → Peers.Valid.IsValid [] b
    → Peers.Valid.IsValid [] (if test then a else b)
IsValid-if true v w = v
IsValid-if false v w = w

module _ {T : Type 0} where
  -- The accounts count the clients of the operations that are not finished; the peers and the cache
  -- are valid, with the leases that operations hold and no other; and what `in_flight` says of the
  -- operations that libfabric has comes `ahead` of what is taken off them.
  pub record IsSound (ahead : ℕ) (s : Pipeline T) : Type 0 where
    pub counted : IsCounted (live client_of s) s.accounts
    pub held : IsHeld [] (leases s) (endpoint s)
    pub depth : s.in_flight + ahead ≡ length s.flight

  -- And the loop has one operation in hand, which is in no place.
  pub record IsHolding (ahead : ℕ) (op : InFlight T) (s : Pipeline T) : Type 0 where
    pub counted : IsCounted (op.client_id ∷ live client_of s) s.accounts
    pub held : IsHeld [] (the_value op.local_lease ++ leases s) (endpoint s)
    pub depth : s.in_flight + ahead ≡ length s.flight

  pub IsSound-if :
      {ahead : ℕ} {s t : Pipeline T} (test : Bool)
      → IsSound ahead s
      → IsSound ahead t
      → IsSound ahead (if test then s else t)
  IsSound-if true v w = v
  IsSound-if false v w = w

  pub drop_operation-IsHeld :
      (op : InFlight T) (ls : List ℕ) (s : Pipeline T)
      → IsHeld [] (the_value op.local_lease ++ ls) (endpoint s)
      → IsHeld [] ls (endpoint (drop_operation op s))
  unfolding drop_operation set_endpoint
  drop_operation-IsHeld op ls s v = drop_option-IsHeld op.local_lease [] ls (endpoint s) v

  -- `finish_op` changes the accounts and lets go of peers, so the cache and the leases stay.
  pub finish_op-IsHeld :
      (c : ℕ) (ls clients : List ℕ) (s : Pipeline T)
      → IsCounted (c ∷ clients) s.accounts
      → IsHeld [] ls (endpoint s)
      → IsHeld [] ls (endpoint (record s { accounts = finish_op c s.accounts }))
  finish_op-IsHeld c ls clients s v h = record {
    peers = subst (Peers.Valid.IsValid []) (sym (finish_op_lem c clients s.accounts v).1) (
        IsValid-if ((0 == count c clients) && member c s.accounts.pending_removal)
          (release-IsValid c [] s.accounts.peers h.peers) h.peers);
    regions = h.regions;
  }

  -- After an attempt that gave the operation another lease.
  pub asked-IsHolding :
      (ahead : ℕ) (op op' : InFlight T) (e : LibfabricEndpoint) (s : Pipeline T)
      → IsHolding ahead op s
      → op'.client_id ≡ op.client_id
      → IsHeld [] (the_value op'.local_lease ++ leases s) e
      → IsHolding ahead op' (record (set_endpoint e s) { asked = s.asked + 1 })
  unfolding set_endpoint
  asked-IsHolding ahead op op' e s v same held = record {
    counted =
        IsCounted-same (op.client_id ∷ live client_of s) (op'.client_id ∷ live client_of s)
          s.accounts (set_endpoint e s).accounts refl refl (λ c. ground (arith, same)) v.counted;
    held = held;
    depth = v.depth;
  }

  module _ (setting : Setting T) (answers : ℕ → Answers) where
    pub launch-IsSound :
        (ahead : ℕ) (op : InFlight T) (s : Pipeline T)
        → IsHolding ahead op s
        → IsSound ahead (launch setting answers op s)
    unfolding launch
    launch-IsSound ahead op s v =
        let s' = launch setting answers op s in
        record {
          counted =
              IsCounted-same _ _ s.accounts s'.accounts refl refl
                (λ c. ground (arith, count-live c client_of s, count-live c client_of s'))
                v.counted;
          held =
              IsHeld-same [] _ _ (endpoint s)
                (λ i. omega (
                  arith,
                  count-live i lease_of s,
                  count-live i lease_of s',
                  count-append i (lease_of op) (leases s),
                  count-append i (live lease_of s) (hashing lease_of s),
                  count-append i (live lease_of s') (hashing lease_of s'),
                  count-append i (lease_of op) (gather (λ e. lease_of e.1) s.flight),
                ))
                v.held;
          depth = omega (arith, v.depth);
        }

    pub fail-IsSound :
        (ahead : ℕ) (op : InFlight T) (error : DmaError) (s : Pipeline T)
        → IsHolding ahead op s
        → IsSound ahead (fail setting answers op error s)
    unfolding fail drop_operation set_endpoint finish_unreaped
    fail-IsSound ahead op error s v =
        let w = finish_unreaped setting.checksum op error s.accounts in
        let done = into_completion setting.checksum op (err error) in
        let w₀ : Worker T = record s.accounts {
          completions = s.accounts.completions ++ done ∷ [];
        } in
        let counted : IsCounted (op.client_id ∷ live client_of s) w₀ =
          IsCounted-same _ _ s.accounts w₀ refl refl (λ c. refl) v.counted in
        let same : w.pending ≡ s.accounts.pending = finish_op-pending op.client_id w₀ in
        record {
          counted =
              IsCounted-same _ _ w _ refl refl
                (λ c. ground (
                  arith,
                  same,
                  count-live c client_of s,
                  count-live c client_of (fail setting answers op error s),
                ))
                (finish_op_lem op.client_id (live client_of s) w₀ counted).0;
          held =
              drop_operation-IsHeld op _ (record s { accounts = w })
                (IsHeld-same [] _ _ _
                  (λ i.
                    ap (λ q. count i (the_value op.local_lease ++ leases (pop_pending q s)))
                      (sym same))
                  (finish_op-IsHeld op.client_id _ _ (record s { accounts = w₀ }) counted v.held));
          depth = v.depth;
        }

    -- An operation back in the queue.
    requeue-IsSound :
        (ahead : ℕ) (p : Prepared T) (s : Pipeline T)
        → IsHolding ahead p.context s
        → IsSound ahead (pop_pending (s.accounts.pending ++ p ∷ []) s)
    requeue-IsSound ahead p s v =
        let s' = pop_pending (s.accounts.pending ++ p ∷ []) s in
        record {
          counted =
              IsCounted-same _ _ s.accounts s'.accounts refl refl
                (λ c. ground (
                  arith,
                  count-live c client_of s,
                  count-live c client_of s',
                  count-gather c (λ q. client_of q.context) s.accounts.pending (p ∷ []),
                ))
                v.counted;
          held =
              IsHeld-same [] _ _ (endpoint s)
                (λ i. omega (
                  arith,
                  count-live i lease_of s,
                  count-live i lease_of s',
                  count-append i (lease_of p.context) (leases s),
                  count-append i (live lease_of s) (hashing lease_of s),
                  count-append i (live lease_of s') (hashing lease_of s'),
                  count-gather i (λ q. lease_of q.context) s.accounts.pending (p ∷ []),
                  count-append i (lease_of p.context) [],
                ))
                v.held;
          depth = v.depth;
        }

    stall-IsSound :
        (ahead : ℕ) (answer : Answers) (p : Prepared T) (s : Pipeline T)
        → IsHolding ahead p.context s
        → IsSound ahead (stall setting answers answer p s)
    unfolding stall
    stall-IsSound ahead answer p s v =
        let since = stalled p.stalled_since answer.now in
        IsSound-if (ltb (answer.later - since) setting.progress_deadline)
          (requeue-IsSound ahead (record p { stalled_since = some since }) s v)
          (fail-IsSound ahead p.context _ s v)

    after_post-IsSound :
        (ahead : ℕ) (r : Result ℤ DmaError) (answer : Answers) (p : Prepared T) (s : Pipeline T)
        → IsHolding ahead p.context s
        → IsSound ahead (after_post setting answers r answer p s)
    unfolding after_post
    after_post-IsSound ahead (err e) answer p s v = fail-IsSound ahead p.context e s v
    after_post-IsSound ahead (ok code) answer p s v =
        IsSound-if (is_zero code) (launch-IsSound ahead p.context s v) (
          IsSound-if (is_negative setting.fi_eagain code) (stall-IsSound ahead answer p s v)
            (fail-IsSound ahead p.context _ s v))

    -- Whatever libfabric answers to the attempt at an operation, the invariant holds after it.
    pub attempt-IsSound :
        (ahead : ℕ) (p : Prepared T) (s : Pipeline T)
        → IsHolding ahead p.context s
        → IsSound ahead (attempt setting answers p s)
    unfolding attempt set_endpoint
    attempt-IsSound ahead p s v =
        let answer = answers s.asked in
        let (held, (_, same, _, _, _), _) =
          post-Keeps setting.provider setting.cacheable_span answer s.next p (leases s) (endpoint s)
            v.held in
        let ((result, p'), e) =
          post setting.provider setting.cacheable_span answer s.next p (endpoint s) in
        after_post-IsSound ahead result answer p'
          (record (set_endpoint e s) { asked = s.asked + 1 })
          (asked-IsHolding ahead p.context p'.context e s v same held)
