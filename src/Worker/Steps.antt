-- ===== src/Worker/Steps.antt =====
-- The worker's pass as steps in any order: what it takes in from its channel, and the operations that
-- it finishes, reaped or not. `live` names the client of each operation that it has, whichever
-- queue it is in or if libfabric has it; only such an operation is finished.
use vdma.Prelude.{
  ℕ, ◌<◌, ◌≡◌, refl, List, [], ◌∷◌, ◌++◌, Option, Bool, false, arith, count, count-append,
  Bool-cases, inl, inr, subst, ◌⊎◌,
}
use vdma.Errors.{ok, err, DmaError}
use vdma.Transfer.{TransferRequest, prepare}
use vdma.HashMap.{get}
use vdma.Peers.{PeerAddresses}
use vdma.Worker.{Worker, member, unwrap_or, remove_or_defer, finish_op, finish_unreaped, accept}
use vdma.Worker.Accounts.{IsCounted, IsCounted-same, finish_op_lem, remove_or_defer_lem}
use vdma.Worker.Intake.{accept_lem}
use vdma.Transfer.{InFlight}

pub record Process (T : Type 0) : Type 0 where
  pub live : List ℕ
  pub worker : Worker T

abbrev pub start : {T : Type 0} → PeerAddresses → ℕ → Process T
start peers outstanding = record {
  live = [];
  worker = record {
    outstanding_by_client = [];
    pending_removal = [];
    outstanding = outstanding;
    pending = [];
    completions = [];
    peers = peers;
  };
}

module _ {T : Type 0} (source : T → Option (ℕ × ℕ)) (allocate : ℕ → T → Option (ℕ × ℕ) × T)
    (quiesce_writes : Bool) (checksum : ℕ → ℕ → ℕ) where
  -- Whose operations there are after a request is taken in.
  abbrev pub taken : TransferRequest T → List ℕ → List ℕ
  taken request live = elim (prepare source allocate request quiesce_writes) [
    | ok p ↦ request.client_id ∷ live
    | err done ↦ live
  ]

  pub data Step : Process T → Process T → Type 0 where
    accepts :
        (s : Process T) (request : TransferRequest T)
        → Step s (record {
          live = taken request s.live;
          worker = accept source allocate quiesce_writes request s.worker;
        })
    removes : (s : Process T) (c : ℕ) → Step s (record s { worker = remove_or_defer c s.worker })
    finishes :
        (s : Process T) (c : ℕ) (before after : List ℕ)
        → s.live ≡ before ++ c ∷ after
        → Step s (record { live = before ++ after; worker = finish_op c s.worker })
    fails :
        (s : Process T) (op : InFlight T) (error : DmaError) (before after : List ℕ)
        → s.live ≡ before ++ op.client_id ∷ after
        → Step s
            (record { live = before ++ after; worker = finish_unreaped checksum op error s.worker })

  pub data Reach (s : Process T) : Process T → Type 0 where
    here : Reach s s
    next : {t u : Process T} → Reach s t → Step t u → Reach s u

  moved :
      (c : ℕ) (before after live : List ℕ) (w : Worker T)
      → live ≡ before ++ c ∷ after
      → IsCounted live w
      → IsCounted (c ∷ before ++ after) w
  moved c before after live w e v =
      IsCounted-same live (c ∷ before ++ after) w w refl refl
        (λ d. rw e (omega (arith, count-append d before (c ∷ after), count-append d before after)))
        v

  Step-IsCounted :
      {s t : Process T} → Step s t → IsCounted s.live s.worker → IsCounted t.live t.worker
  unfolding finish_unreaped
  Step-IsCounted (accepts s request) v =
      elim (accept_lem source allocate quiesce_writes request s.live s.worker v) [
        | inl (p, e, _, _, _, counted) ↦
            subst (λ l. IsCounted l (accept source allocate quiesce_writes request s.worker))
              (ground (arith, e)) counted
        | inr (done, e, _, _, _, counted) ↦
            subst (λ l. IsCounted l (accept source allocate quiesce_writes request s.worker))
              (ground (arith, e)) counted
      ]
  Step-IsCounted (removes s c) v = (remove_or_defer_lem c s.live s.worker v).0
  Step-IsCounted (finishes s c before after e) v =
      (finish_op_lem c (before ++ after) s.worker (moved c before after s.live s.worker e v)).0
  Step-IsCounted (fails s op error before after e) v =
      let w : IsCounted (op.client_id ∷ before ++ after) s.worker =
        moved op.client_id before after s.live s.worker e v in
      (finish_op_lem op.client_id (before ++ after) _ (record {
        distinct = w.distinct;
        counted = w.counted;
        positive = w.positive;
        deferred = w.deferred;
      })).0

  Reach-IsCounted :
      {s t : Process T} → Reach s t → IsCounted s.live s.worker → IsCounted t.live t.worker
  Reach-IsCounted here v = v
  Reach-IsCounted (next r s) v = Step-IsCounted s (Reach-IsCounted r v)

  pub start-IsCounted :
      (peers : PeerAddresses) (n : ℕ) → IsCounted [] (start {T = T} peers n).worker
  unfolding get
  start-IsCounted peers n = record {
    distinct = tt;
    counted = λ c. refl;
    positive = λ c h. cc;
    deferred = λ c h. cc;
  }

  -- Whatever the worker takes in and finishes, and in whatever order, its count for a client is the
  -- number of the client's operations that it has, and a removal that waits for a client waits for
  -- an operation that it has.
  pub counted-Reach :
      {t : Process T} (peers : PeerAddresses) (n c : ℕ)
      → Reach (start peers n) t
      → (unwrap_or (get c t.worker.outstanding_by_client) 0 ≡ count c t.live)
        × ((member c t.worker.pending_removal ≡ false) ⊎ (0 < count c t.live))
  counted-Reach {t} peers n c r =
      let v : IsCounted t.live t.worker = Reach-IsCounted r (start-IsCounted peers n) in
      (
        v.counted c,
        elim (Bool-cases (member c t.worker.pending_removal)) [
          | inl p ↦ inr (v.deferred c p)
          | inr p ↦ inl p
        ],
      )
