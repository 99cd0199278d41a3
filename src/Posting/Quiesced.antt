-- ===== src/Posting/Quiesced.antt =====
-- What the post of a quiesce read does to the endpoint and to the operation, on each of its ways
-- out.
use vdma.Prelude.{ℕ, ◌≡◌, refl, List, [], ◌∷◌, ◌++◌, none, arith, subst, sym}
use vdma.Prelude.Int.{ℤ}
use vdma.Errors.{Result, ok, err, DmaError}
use vdma.HashMap.{the_value}
use vdma.Regions.Operand.{LocalOperand}
use vdma.Connection.{post_in}
use vdma.Endpoint.{connection, Provider, LibfabricEndpoint, insert_peer, drop_option}
use vdma.Endpoint.Held.{IsHeld, Inserted, insert_peer-Inserted, Located, local_operand-Located}
use vdma.Transfer.{InFlight}
use vdma.Posting.{
  Answers, Quiescing, QuiescePost, posted, again, failed, quiesce_code, quiesce_located,
  quiesce_inserted, post_quiesce,
}
use vdma.Posting.Posted.{SameOperation, drop_peer-IsHeld, drop_second}

module _ {T : Type 0} where
  -- The operation that the post of a quiesce read is about, wherever it is after it.
  abbrev pub operation : QuiescePost T → InFlight T
  operation (posted op) = op
  operation (again waiting) = waiting.inflight
  operation (failed op e) = op

  abbrev pub KeepsWaiting :
      List ℕ → List ℕ → Quiescing T → QuiescePost T × LibfabricEndpoint → Type 0
  KeepsWaiting entries leases w (r, endpoint) =
      IsHeld entries (the_value (operation r).local_lease ++ leases) endpoint
      × SameOperation w.inflight (operation r)

  operation-quiesce_code :
      (fi_eagain : ℕ) (code : ℤ) (w : Quiescing T)
      → operation (quiesce_code fi_eagain code w) ≡ w.inflight
  unfolding quiesce_code
  operation-quiesce_code fi_eagain code w = ground arith

  -- What `quiesce_code` makes of an operation that has another lease than the one waiting.
  quiesce_code-Keeps :
      (fi_eagain : ℕ) (code : ℤ) (w w' : Quiescing T) (entries leases : List ℕ)
      (endpoint : LibfabricEndpoint)
      → IsHeld entries (the_value w'.inflight.local_lease ++ leases) endpoint
      → SameOperation w.inflight w'.inflight
      → KeepsWaiting entries leases w (quiesce_code fi_eagain code w', endpoint)
  quiesce_code-Keeps fi_eagain code w w' entries leases endpoint v same =
      subst
        (λ op.
          IsHeld entries (the_value op.local_lease ++ leases) endpoint
          × SameOperation w.inflight op)
        (sym (operation-quiesce_code fi_eagain code w')) (v, same)

  module _ (provider : Provider) (fi_eagain : ℕ) (answers : Answers) (context landing : ℕ) where
    quiesce_located-Keeps :
        (peer : ℕ) (w : Quiescing T) (entries leases : List ℕ) (before endpoint : LibfabricEndpoint)
        (r : Result LocalOperand DmaError)
        → IsHeld entries (the_value w.inflight.local_lease ++ leases) before
        → Located provider answers.fi_mr_reg landing 1 entries
            (the_value w.inflight.local_lease ++ leases)
            before
            (r, endpoint)
        → KeepsWaiting entries leases w
            (quiesce_located provider fi_eagain answers context landing peer w r endpoint)
    unfolding quiesce_located
    quiesce_located-Keeps peer w entries leases before endpoint (err e) v same = (
      subst (IsHeld entries (the_value w.inflight.local_lease ++ leases)) (sym same) v,
      (refl, refl, refl, refl, refl),
    )
    quiesce_located-Keeps peer w entries leases before endpoint (ok o) v (held, _, _) =
        quiesce_code-Keeps fi_eagain
          (answers.fi_post (
            post_in (connection endpoint peer w.read.remote_key w.read.remote_address) landing 1
              o.descriptor context))
          w (record w { inflight = record w.inflight { local_lease = o.lease } }) entries leases
          (drop_option w.inflight.local_lease endpoint)
          (drop_second o.lease w.inflight.local_lease entries leases endpoint held)
          (refl, refl, refl, refl, refl)

    quiesce_inserted-Keeps :
        (w : Quiescing T) (leases : List ℕ) (r : Result ℕ DmaError) (endpoint : LibfabricEndpoint)
        → Inserted
            (the_value w.inflight.local_lease ++ leases)
            w.inflight.client_id
            w.read.peer_address
            (r, endpoint)
        → KeepsWaiting [] leases w
            (quiesce_inserted provider fi_eagain answers context landing w r endpoint)
    unfolding quiesce_inserted
    quiesce_inserted-Keeps w leases (err e) endpoint v = (v, (refl, refl, refl, refl, refl))
    quiesce_inserted-Keeps w leases (ok peer) endpoint (v, _) =
        let located =
          local_operand-Located provider answers.fi_mr_reg landing 1 none (peer ∷ [])
            (the_value w.inflight.local_lease ++ leases) endpoint v in
        let (held, same) = quiesce_located-Keeps peer w (peer ∷ []) leases endpoint _ _ v located in
        (drop_peer-IsHeld peer _ _ held, same)

    -- Whatever libfabric answers, posting a quiesce read leaves the operation what it was but for
    -- its lease, whether it is posted, is to be retried or has failed, and the endpoint with the
    -- invariant: no clone of the peer's entry stays behind, and the operation holds one lease at
    -- most, its write's or the landing's.
    pub post_quiesce-Keeps :
        (w : Quiescing T) (leases : List ℕ) (endpoint : LibfabricEndpoint)
        → IsHeld [] (the_value w.inflight.local_lease ++ leases) endpoint
        → KeepsWaiting [] leases w
            (post_quiesce provider fi_eagain answers context landing w endpoint)
    unfolding post_quiesce
    post_quiesce-Keeps w leases endpoint v =
        let (inserted, endpoint') =
          insert_peer answers.fi_av_insert w.inflight.client_id w.read.peer_address endpoint in
        quiesce_inserted-Keeps w leases inserted endpoint' (
          insert_peer-Inserted answers.fi_av_insert w.inflight.client_id w.read.peer_address
            (the_value w.inflight.local_lease ++ leases) endpoint v)
