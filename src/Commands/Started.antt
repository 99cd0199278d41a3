-- ===== src/Commands/Started.antt =====
-- How a command starts its transfer: each client that it blocks is answered, later or at once.
use vdma.Prelude.{
  ℕ, ◌+◌, ◌≡◌, refl, [], ◌∷◌, ◌++◌, Option, none, some, Bool, true, false, arith, ◌⊎◌, inl, inr,
  Bool-cases, ap, subst, sym, ◌∙◌, ltb, ltb→lt, ◌<◌, ◌≤◌,
}
use vdma.Errors.{Result, ok, err, DmaError}
use vdma.Transfer.{TransferRequest}
use vdma.Pipeline.{transfers}
use vdma.Protocol.Advertisement.{Advertisement}
use vdma.Service.{FabricService, send, submit, gone}
use vdma.Commands.{
  Buffer, OpToken, get, set, no_reply, failed, no_workers, get_request, set_request, str, exceeds,
  null, ValkeyResult, replace, get_reply,
}
use vdma.Commands.Served.{
  start_on, held_value, settle, Module, finish_under_gil, set_reply, least_loaded_server,
  submit_request, start_transfer, dma_set, dma_get,
}
use vdma.Commands.Replies.{client}
use vdma.Commands.Chosen.{IsChosen, least_loaded_server-IsChosen}

-- How a submission ends.
abbrev pub Submitted :
    {T : Type 0}
    → TransferRequest T
    → FabricService T
    → Result (Unit {0}) (TransferRequest T) × FabricService T
    → Type 0
Submitted request service (ok _, after) =
    (after.sent ≡ service.sent ++ transfers request ∷ [])
    × (after.outstanding ≡ service.outstanding + 1)
Submitted request service (err back, after) = (back ≡ request) × (after ≡ service)

submit-Submitted :
    {T : Type 0} (request : TransferRequest T) (sender receiver : Bool) (s : FabricService T)
    → let service = record s { sender = sender; receiver = receiver } in
      Submitted request service (submit request service)
unfolding submit send
submit-Submitted request false receiver s = (refl, refl)
submit-Submitted request true true s = (refl, refl)
submit-Submitted request true false s =
    (refl, ap (λ n. record s { sender = true; receiver = false; outstanding = n }) (omega arith))

module _ {K : Type 0} (set_move : ℕ → Buffer → K → Option K) where
  -- A transfer that failed before it was given to a worker is answered with its error, and nothing
  -- is stored.
  finish-failed :
      (token : OpToken) (e : DmaError) (keyspace : K)
      → finish_under_gil set_move token (err e) keyspace
        ≡ ((client set_move token, err (failed e)), keyspace)
  unfolding finish_under_gil get_reply set_reply
  finish-failed (get blocked held) e keyspace = refl
  finish-failed (set blocked destination key expected) e keyspace = refl

  -- Where the request is: with the worker of the service, or answered with an error.
  abbrev pub Taken :
      ℕ × FabricService OpToken
      → TransferRequest OpToken
      → Module set_move
      → Module set_move
      → Type 0
  Taken (i, service) request m m' =
      (((after : FabricService OpToken) × ((m'.services ≡ replace i after m.services)
            × (after.sent ≡ service.sent ++ transfers request ∷ [])
            × (after.outstanding ≡ service.outstanding + 1)))
        × (m'.replies ≡ m.replies))
      ⊎ ((m'.services ≡ replace i service m.services)
          × (m'.replies
              ≡ m.replies ++ (client set_move request.caller_context, err (failed gone)) ∷ []))

  settle-Taken :
      (i : ℕ) (service after : FabricService OpToken) (request : TransferRequest OpToken)
      (result : Result (Unit {0}) (TransferRequest OpToken)) (m : Module set_move)
      → Submitted request service (result, after)
      → let m' = settle set_move result (record m { services = replace i after m.services }) in
        Taken (i, service) request m m' × (m'.keyspace ≡ m.keyspace) × (m'.blocked ≡ m.blocked)
  unfolding settle
  settle-Taken i service after request (ok _) m (queued, more) =
      (inl ((after, (refl, queued, more)), refl), refl, refl)
  settle-Taken i service after request (err back) m (same, kept) =
      let failure = finish-failed back.caller_context gone m.keyspace in
      (
        inr (
          ap (λ s. replace i s m.services) kept,
          ap (λ r. m.replies ++ r.0 ∷ []) failure
              ∙ ap (λ r. m.replies ++ (client set_move r.caller_context, err (failed gone)) ∷ [])
                  same,
        ),
        ap (λ r. r.1) failure,
        refl,
      )

  -- How a command goes that is to start a transfer.
  abbrev pub Starts :
      (ℕ → TransferRequest OpToken) → Module set_move → ValkeyResult × Module set_move → Type 0
  Starts request m (r, m') =
      (m'.keyspace ≡ m.keyspace)
      × (((m.services ≡ [])
            × (r ≡ err (failed no_workers))
            × (m'.blocked ≡ m.blocked)
            × (m'.replies ≡ m.replies)
            × (m'.services ≡ m.services))
          ⊎ ((r ≡ ok no_reply)
              × (m'.blocked ≡ m.blocked + 1)
              × ((found : ℕ × FabricService OpToken) × IsChosen set_move found m
                  × Taken found (request m.blocked) m m')))

  start_on-Starts :
      (i : ℕ) (service : FabricService OpToken) (request : ℕ → TransferRequest OpToken)
      (rotation : ℕ) (m : Module set_move)
      → IsChosen set_move (i, service) m
      → Starts request m
          (start_on set_move (some (i, service)) request (record m { rotation = rotation }))
  unfolding start_on submit_request
  start_on-Starts i service request rotation m chosen =
      let (result, after) = submit (request m.blocked) service in
      let started : Module set_move = record m { rotation = rotation; blocked = m.blocked + 1 } in
      let (taken, keyspace, blocked) =
        settle-Taken i service after (request m.blocked) result started
          (submit-Submitted (request m.blocked) service.sender service.receiver service) in
      (keyspace, inr (refl, blocked, ((i, service), chosen, taken)))

  start_on-none :
      (request : ℕ → TransferRequest OpToken) (rotation : ℕ) (m : Module set_move)
      → m.services ≡ []
      → Starts request m (start_on set_move none request (record m { rotation = rotation }))
  unfolding start_on
  start_on-none request rotation m h = (refl, inl (h, refl, refl, refl, refl))

  start_transfer-Starts :
      (request : ℕ → TransferRequest OpToken) (m : Module set_move)
      → Starts request m (start_transfer set_move request m)
  unfolding start_transfer
  start_transfer-Starts request m =
      let rotation = (least_loaded_server set_move m).1.rotation in
      elim (least_loaded_server-IsChosen set_move m) [
        | inl (p, h) ↦
            subst
              (λ s.
                Starts request m (start_on set_move s request (least_loaded_server set_move m).1))
              (sym p) (unfold least_loaded_server in start_on-none request rotation m h)
        | inr ((i, service), p, chosen) ↦
            subst
              (λ s.
                Starts request m (start_on set_move s request (least_loaded_server set_move m).1))
              (sym p)
              (unfold least_loaded_server in start_on-Starts i service request rotation m chosen)
      ]

  -- If the module has no service, a DMA.SET is answered with an error and blocks nobody; else it
  -- blocks its client, once, and gives no answer of its own, and its request, with a token of that
  -- client that has no destination yet, is with the service that has the least outstanding of all,
  -- which has one more then, or the client has been answered that the worker is gone. The other
  -- services and the keyspace are as they were.
  pub dma_set_lem :
      (client_id : ℕ) (advertisement : Advertisement) (key length : ℕ) (expected : Option ℕ)
      (m : Module set_move)
      → Starts
          (set_request client_id advertisement key length expected)
          m
          (dma_set set_move client_id advertisement key length expected m)
  unfolding dma_set
  dma_set_lem client_id advertisement key length expected m =
      start_transfer-Starts (set_request client_id advertisement key length expected) m

  -- How a DMA.GET goes, by what its key holds.
  abbrev pub Gets :
      Result (Option Buffer) (Unit {0})
      → Option Buffer
      → ℕ
      → Advertisement
      → ℕ
      → Bool
      → Module set_move
      → ValkeyResult × Module set_move
      → Type 0
  Gets (err _) retained client_id advertisement capacity want_checksum m (r, m') =
      (r ≡ err (str "ERR failed to read key")) × (m' ≡ m)
  Gets (ok none) retained client_id advertisement capacity want_checksum m (r, m') =
      (r ≡ ok null) × (m' ≡ m)
  Gets (ok (some bytes)) retained client_id advertisement capacity want_checksum m (r, m') =
      ((capacity < bytes.1) × (r ≡ err (exceeds bytes.1 capacity)) × (m' ≡ m))
      ⊎ ((bytes.1 ≤ capacity)
          × Starts
              (get_request client_id advertisement want_checksum
                (held_value set_move retained bytes))
              m (r, m'))

  -- A DMA.GET is answered at once, and changes nothing, if its key cannot be read or holds no value,
  -- or one that is longer than the client's buffer; else the transfer of that value is with the
  -- service that has the least outstanding of all, and its client blocked, or there is no service, or
  -- the client is answered that the worker is gone, as for a DMA.SET.
  pub dma_get_lem :
      (value : Result (Option Buffer) (Unit {0})) (retained : Option Buffer) (client_id : ℕ)
      (advertisement : Advertisement) (capacity : ℕ) (want_checksum : Bool) (m : Module set_move)
      → Gets value retained client_id advertisement capacity want_checksum m
          (dma_get set_move value retained client_id advertisement capacity want_checksum m)
  unfolding dma_get
  dma_get_lem (err _) retained client_id advertisement capacity want_checksum m = (refl, refl)
  dma_get_lem (ok none) retained client_id advertisement capacity want_checksum m = (refl, refl)
  dma_get_lem (ok (some bytes)) retained client_id advertisement capacity want_checksum m =
      elim (Bool-cases (ltb capacity bytes.1)) [
        | inl p ↦ rw (p, dma_get) (inl (ltb→lt capacity bytes.1 p, refl, refl))
        | inr p ↦
            rw (p, dma_get)
              (inr (
                ground (arith, p),
                start_transfer-Starts
                    (get_request client_id advertisement want_checksum
                      (held_value set_move retained bytes))
                    m,
              ))
      ]
