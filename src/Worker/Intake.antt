-- ===== src/Worker/Intake.antt =====
-- A request that the worker takes in.
use vdma.Prelude.{
  ℕ, ◌+◌, ◌-◌, ◌≡◌, refl, List, [], ◌∷◌, ◌++◌, Option, Bool, arith, inl, inr, subst, ◌⊎◌,
}
use vdma.Errors.{ok, err, Result-cases}
use vdma.Transfer.{TransferRequest, Prepared, Completion, prepare}
use vdma.Transfer.Prepare.{prepare-eq_ok}
use vdma.HashMap.{get, insert, remove, AllDistinct, get-insert, get-remove}
use vdma.HashMap
use vdma.Worker.{Worker, unwrap_or, release_outstanding, accept}
use vdma.Worker.Accounts.{IsCounted}

module _ {T : Type 0} where
  queued-IsCounted :
      (c : ℕ) (p : Prepared T) (live : List ℕ) (w : Worker T)
      → IsCounted live w
      → IsCounted (c ∷ live) (record w {
        outstanding_by_client =
            (insert c (unwrap_or (get c w.outstanding_by_client) 0 + 1) w.outstanding_by_client).0;
        pending = w.pending ++ p ∷ [];
      })
  queued-IsCounted c p live w v =
      let more : ℕ = unwrap_or (get c w.outstanding_by_client) 0 + 1 in
      record {
        distinct = HashMap.insert-AllDistinct c more w.outstanding_by_client v.distinct;
        counted = λ d.
            ground (arith, get-insert c more d w.outstanding_by_client, v.counted c, v.counted d);
        positive = λ d. ground (arith, get-insert c more d w.outstanding_by_client, v.positive d);
        deferred = λ d h. ground (arith, h, v.deferred d);
      }

  pub accept-peers :
      (source : T → Option (ℕ × ℕ)) (allocate : ℕ → T → Option (ℕ × ℕ) × T) (quiesce_writes : Bool)
      (request : TransferRequest T) (w : Worker T)
      → (accept source allocate quiesce_writes request w).peers ≡ w.peers
  unfolding accept release_outstanding
  accept-peers source allocate quiesce_writes request w = ground arith

  -- A request is queued, and counted for its client from then on, if it can be prepared, and else
  -- it is completed with what `prepare` made of it, and the device has one operation fewer
  -- outstanding, of those there are; and the accounts are kept.
  pub accept_lem :
      (source : T → Option (ℕ × ℕ)) (allocate : ℕ → T → Option (ℕ × ℕ) × T) (quiesce_writes : Bool)
      (request : TransferRequest T) (live : List ℕ) (w : Worker T)
      → IsCounted live w
      → let w' = accept source allocate quiesce_writes request w in
        ((p : Prepared T) × (prepare source allocate request quiesce_writes ≡ ok p)
          × (w'.pending ≡ w.pending ++ p ∷ [])
          × (w'.completions ≡ w.completions)
          × (w'.outstanding ≡ w.outstanding)
          × IsCounted (request.client_id ∷ live) w')
        ⊎ ((done : Completion T) × (prepare source allocate request quiesce_writes ≡ err done)
            × (w'.pending ≡ w.pending)
            × (w'.completions ≡ w.completions ++ done ∷ [])
            × (w'.outstanding ≡ w.outstanding - 1)
            × IsCounted live w')
  unfolding accept release_outstanding
  accept_lem source allocate quiesce_writes request live w v =
      elim (Result-cases (prepare source allocate request quiesce_writes)) [
        | inl (p, e) ↦
            let (_, _, _, _, _, own) = prepare-eq_ok source allocate request quiesce_writes p e in
            rw (e, accept)
              (inl (
                p,
                refl,
                refl,
                refl,
                refl,
                subst
                    (λ c. IsCounted (c ∷ live) (record w {
                      outstanding_by_client =
                          (insert p.client_id
                            (unwrap_or (get p.client_id w.outstanding_by_client) 0 + 1)
                            w.outstanding_by_client).0;
                      pending = w.pending ++ p ∷ [];
                    }))
                    own (queued-IsCounted p.client_id p live w v),
              ))
        | inr (done, e) ↦
            rw (e, accept)
              (inr (
                done,
                refl,
                refl,
                refl,
                refl,
                record {
                  distinct = v.distinct;
                  counted = v.counted;
                  positive = v.positive;
                  deferred = v.deferred;
                },
              ))
      ]
