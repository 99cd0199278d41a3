-- ===== src/Pipeline/Leased.antt =====
-- Every operation that libfabric has holds a lease, where the provider needs one.
use vdma.Prelude.{
  ℕ, zero, suc, ◌<◌, ◌≡◌, ◌==◌, ◌-◌, List-cases, List, [], ◌∷◌, ◌++◌, some, Bool, true, false,
  arith, count, Bool-cases, Option-cases, inl, inr, length, if◌then◌else◌, All, ltb, map, not, ◌&&◌,
  subst,
}
use vdma.Prelude.Int.{ℤ, is_zero, is_negative}
use vdma.Errors.{Result, ok, err, DmaError}
use vdma.HashMap.{get, remove}
use vdma.Peers.{AddressFormat}
use vdma.Transfer.{InFlight, Prepared}
use vdma.Endpoint.{Provider}
use vdma.Endpoint.Reap.{Reaped}
use vdma.Posting.{Answers, QuiescePost, posted, again, failed}
use vdma.Worker.{target_completions}
use vdma.Pipeline.{
  Setting, WorkerMessage, transfers, adds_peer, removes_peer, registers, Pipeline, endpoint,
  set_endpoint, drop_operation, fail, launch, stall, stalled, after_post, attempt, pop_pending,
  post_pass, take_in, intake,
}
use vdma.Pipeline.Passes.{
  defer_crc, complete_inline, complete, dispatch_op, dispatch, read_after, stall_quiesce,
  after_quiesce, attempt_quiesce, quiesce_pass, flush, deliver, reap_pass, posted_state, pass,
  drop_operations, run_batch, is_empty, finish_crc,
}
use vdma.Pipeline.Steps.{
  launched, Step, passes, runs, reclaims, Reach, here, next, lease_open-Reach,
}
use vdma.Posting.Leased.{IsLeased, Taken, post-Taken, QuiesceTaken, post_quiesce-Taken}

module _ {T : Type 0} where
  -- Every operation in flight has a lease.
  abbrev AllLeased : Provider → List (ℕ × InFlight T) → Type 0
  AllLeased provider flight = All (λ e. IsLeased provider e.1.local_lease) flight

  remove-AllLeased :
      (provider : Provider) (k : ℕ) (flight : List (ℕ × InFlight T))
      → AllLeased provider flight
      → AllLeased provider (remove k flight).0
  unfolding remove
  remove-AllLeased provider k [] a = a
  remove-AllLeased provider k ((j, op) ∷ flight) (a, b) = elim (Bool-cases (j == k)) [
    | inl e ↦ rw (e, remove) b
    | inr e ↦ rw (e, remove) (a, remove-AllLeased provider k flight b)
  ]

  AllLeased-get :
      (provider : Provider) (k : ℕ) (op : InFlight T) (flight : List (ℕ × InFlight T))
      → AllLeased provider flight
      → get k flight ≡ some op
      → IsLeased provider op.local_lease
  unfolding get
  AllLeased-get provider k op [] a h = cc
  AllLeased-get provider k op ((j, o) ∷ flight) (a, b) h = elim (Bool-cases (j == k)) [
    | inl e ↦
        let same : o ≡ op = ground (arith, e, h) in
        subst (λ o. IsLeased provider o.local_lease) same a
    | inr e ↦ AllLeased-get provider k op flight b (ground (arith, e, h))
  ]

  module _ (setting : Setting T) (answers : ℕ → Answers) where
    abbrev Leased : Pipeline T → Type 0
    Leased s = AllLeased setting.provider s.flight

    Leased-if :
        (s t : Pipeline T) (test : Bool) → Leased s → Leased t → Leased (if test then s else t)
    Leased-if s t true a b = a
    Leased-if s t false a b = b

    take_in-Leased :
        (m : WorkerMessage T) (s : Pipeline T) → Leased s → Leased (take_in setting answers m s)
    unfolding take_in set_endpoint
    take_in-Leased (transfers request) s a = a
    take_in-Leased (adds_peer client address) s a = a
    take_in-Leased (removes_peer client) s a = a
    take_in-Leased (registers base length) s a = a

    intake-Leased :
        (ms : List (WorkerMessage T)) (s : Pipeline T)
        → Leased s
        → Leased (intake setting answers ms s)
    unfolding intake
    intake-Leased [] s a = a
    intake-Leased (m ∷ ms) s a = intake-Leased ms _ (take_in-Leased m s a)

    fail-Leased :
        (op : InFlight T) (e : DmaError) (s : Pipeline T)
        → Leased s
        → Leased (fail setting answers op e s)
    unfolding fail drop_operation set_endpoint
    fail-Leased op e s a = a

    after_post-Leased :
        (r : Result ℤ DmaError) (answer : Answers) (p : Prepared T) (s : Pipeline T)
        → Taken setting.provider (r, p)
        → Leased s
        → Leased (after_post setting answers r answer p s)
    unfolding after_post launch stall Taken fail drop_operation set_endpoint
    after_post-Leased (err e) answer p s t a = fail-Leased p.context e s a
    after_post-Leased (ok code) answer p s t a = elim (Bool-cases (is_zero code)) [
      | inl z ↦ rw (z, after_post) (t z, a)
      | inr z ↦
          rw (z, after_post)
            (Leased-if _ _ (is_negative setting.fi_eagain code)
              (Leased-if _ _
                (ltb (answer.later - stalled p.stalled_since answer.now) setting.progress_deadline)
                a a)
              a)
    ]

    attempt-Leased :
        (p : Prepared T) (s : Pipeline T) → Leased s → Leased (attempt setting answers p s)
    unfolding attempt set_endpoint
    attempt-Leased p s a =
        let answer = answers s.asked in
        after_post-Leased _ answer _ _
          (post-Taken setting.provider setting.cacheable_span answer s.next p (endpoint s)) a

    post_pass-Leased : (n : ℕ) (s : Pipeline T) → Leased s → Leased (post_pass setting answers n s)
    unfolding post_pass
    post_pass-Leased zero s a = a
    post_pass-Leased (suc n) s a =
        Leased-if _ _ (ltb s.in_flight setting.cap)
          (elim (List-cases s.accounts.pending) [
            | inl p ↦ rw p a
            | inr (x, (rest, p)) ↦
                rw p (post_pass-Leased n _ (attempt-Leased x (pop_pending rest s) a))
          ])
          a

    dispatch_op-Leased :
        (op : InFlight T) (r : Result (Unit {0}) DmaError) (s : Pipeline T)
        → Leased s
        → Leased (dispatch_op setting answers op r s)
    unfolding dispatch_op complete defer_crc complete_inline drop_operation set_endpoint
    dispatch_op-Leased op r s a = elim (Option-cases (read_after op.quiesce r)) [
      | inr (read, p) ↦ rw (p, dispatch_op) a
      | inl p ↦ rw (p, dispatch_op) (Leased-if _ _ op.want_checksum a a)
    ]

    dispatch-Leased :
        (reaped : List Reaped) (s : Pipeline T)
        → Leased s
        → Leased (dispatch setting answers reaped s)
    unfolding dispatch
    dispatch-Leased [] s a = a
    dispatch-Leased ((context, r) ∷ reaped) s a = elim (Option-cases (remove context s.flight).1) [
      | inl p ↦ rw (p, dispatch) (dispatch-Leased reaped s a)
      | inr (op, p) ↦
          rw (p, dispatch)
            (dispatch-Leased reaped _ (
              dispatch_op-Leased op r (record s { flight = (remove context s.flight).0 })
                (remove-AllLeased setting.provider context s.flight a)))
    ]

    after_quiesce-Leased :
        (q : QuiescePost T) (answer : Answers) (s : Pipeline T)
        → QuiesceTaken setting.provider q
        → Leased s
        → Leased (after_quiesce setting answers q answer s)
    unfolding after_quiesce stall_quiesce launch QuiesceTaken fail drop_operation set_endpoint
    after_quiesce-Leased (posted op) answer s q a = (q, a)
    after_quiesce-Leased (again w) answer s q a =
        Leased-if _ _
          (ltb (answer.later - stalled w.stalled_since answer.now) setting.progress_deadline) a a
    after_quiesce-Leased (failed op e) answer s q a = fail-Leased op e s a

    quiesce_pass-Leased :
        (n : ℕ) (s : Pipeline T) → Leased s → Leased (quiesce_pass setting answers n s)
    unfolding quiesce_pass attempt_quiesce set_endpoint
    quiesce_pass-Leased zero s a = a
    quiesce_pass-Leased (suc n) s a = elim (List-cases s.quiescing) [
      | inl p ↦ rw (p, quiesce_pass) a
      | inr (w, (rest, p)) ↦
          let answer = answers s.asked in
          rw (p, quiesce_pass)
            (quiesce_pass-Leased n _ (
              after_quiesce-Leased _ answer _
                (post_quiesce-Taken setting.provider setting.fi_eagain answer s.next
                  setting.quiesce_pointer w (endpoint s))
                a))
    ]

    flush-Leased : (any : Bool) (s : Pipeline T) → Leased s → Leased (flush setting answers any s)
    unfolding flush
    flush-Leased any s a = Leased-if _ _ _ a a

    deliver-Leased :
        (disconnected : Bool) (s : Pipeline T)
        → Leased s
        → Leased (deliver setting answers disconnected s).0
    unfolding deliver
    deliver-Leased disconnected s a = elim (Bool-cases (is_empty s.accounts.completions)) [
      | inl p ↦ rw (p, deliver) a
      | inr p ↦
          elim (Bool-cases
            (ltb (length s.accounts.completions) target_completions && ltb s.drain_spins 10)) [
              | inl q ↦ rw (p, q, deliver) a
              | inr q ↦ rw (p, q, deliver) a
            ]
    ]

    drop_operations-Leased :
        (ops : List (InFlight T)) (s : Pipeline T)
        → Leased s
        → Leased (drop_operations setting answers ops s)
    unfolding drop_operations drop_operation set_endpoint
    drop_operations-Leased [] s a = a
    drop_operations-Leased (op ∷ ops) s a = drop_operations-Leased ops (drop_operation op s) a

    Step-Leased :
        {s : Pipeline T} {messages : List (WorkerMessage T)} {t : Pipeline T}
        → Step setting answers s messages t
        → Leased s
        → Leased t
    unfolding pass posted_state reap_pass run_batch
    Step-Leased (passes messages disconnected reaped s h) a =
        let taken = record (intake setting answers messages s) { posted_ops = 0 } in
        let s₀ = post_pass setting answers (length taken.accounts.pending) taken in
        let s₁ =
          dispatch setting answers reaped
            (record s₀ { in_flight = s₀.in_flight - length reaped }) in
        let s₂ = quiesce_pass setting answers (length s₁.quiescing) s₁ in
        let any = not (is_empty reaped) in
        deliver-Leased disconnected (flush setting answers any s₂) (
          flush-Leased any s₂ (
            quiesce_pass-Leased (length s₁.quiescing) s₁ (
              dispatch-Leased reaped (record s₀ { in_flight = s₀.in_flight - length reaped })
                (post_pass-Leased (length taken.accounts.pending) taken
                  (intake-Leased messages s a)))))
    Step-Leased (runs before after batch s e) a =
        drop_operations-Leased (map (λ o. o.0) batch)
          (record s {
            submitted = before ++ after;
            delivered = s.delivered ++ map (finish_crc setting answers) batch;
          })
          a
    Step-Leased (reclaims start end s) a = a

    Reach-Leased :
        (format : AddressFormat) (n : ℕ) {messages : List (WorkerMessage T)} {t : Pipeline T}
        → Reach setting answers (launched format n) messages t
        → Leased t
    Reach-Leased format n here = tt
    Reach-Leased format n (next r s) = Step-Leased s (Reach-Leased format n r)

    -- Whatever the worker takes in and posts, and whatever libfabric answers, if what it reports is
    -- of operations that it has, and if the provider needs operands to be registered, then every
    -- operation that libfabric has holds a lease, on a registration that has been made and has
    -- not been closed.
    pub flight_open-Reach :
        (format : AddressFormat) (n k : ℕ) (op : InFlight T) {messages : List (WorkerMessage T)}
        {t : Pipeline T}
        → Reach setting answers (launched format n) messages t
        → get k t.flight ≡ some op
        → setting.provider.requires_local_mr ≡ true
        → (r : ℕ) × ((op.local_lease ≡ some r)
            × (r < length t.cache.arcs.values)
            × (count r t.cache.arcs.dropped ≡ 0))
    flight_open-Reach format n k op {t = t} reach found needed =
        elim (Option-cases op.local_lease) [
          | inl p ↦ absurd (
              AllLeased-get setting.provider k op t.flight (Reach-Leased format n reach) found
                needed p)
          | inr (r, p) ↦
              let (made, still) = lease_open-Reach setting answers format n k r op reach found p in
              (r, (p, made, still))
        ]
