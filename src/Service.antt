-- ===== src/Service.antt =====
-- The handle of a fabric worker that its callers have, crates/dma-libfabric/src/server.rs. The
-- channel is the list of the messages that were sent; what a reply slot is answered with is a
-- parameter.
use vdma.Prelude.{
  ℕ, ◌+◌, ◌-◌, List, [], ◌∷◌, ◌++◌, Option, none, some, Bool, true, false, ◌==◌, if◌then◌else◌,
}
use vdma.Errors.{Result, ok, err, DmaError, fabric, text}
use vdma.Regions.Operand.{checked_add}
use vdma.Transfer.{TransferRequest}
use vdma.Pipeline.{WorkerMessage, transfers, adds_peer, removes_peer, registers}

-- `sender` says whether the handle has its end of the channel, `receiver` whether the worker has
-- the other.
pub record FabricService (T : Type 0) : Type 0 where
  pub sender : Bool
  pub receiver : Bool
  pub sent : List (WorkerMessage T)
  pub address : List ℕ
  pub outstanding : ℕ

abbrev pub gone : DmaError
gone = fabric (text "fabric worker is gone")

module _ {T : Type 0} where
  -- Whether the message went.
  unfoldable pub send : WorkerMessage T → FabricService T → Bool × FabricService T
  send message service =
      if service.receiver
      then (true, record service { sent = service.sent ++ message ∷ [] })
      else (false, service)

  unfoldable pub submit :
      TransferRequest T → FabricService T → Result (Unit {0}) (TransferRequest T) × FabricService T
  unfolding send
  submit request service =
      let raised = record service { outstanding = service.outstanding + 1 } in
      let (went, after) = send (transfers request) raised in
      if service.sender
      then if went
        then (ok tt, after)
        else (err request, record after { outstanding = after.outstanding - 1 })
      else (err request, service)

  -- A message that an answer is awaited for; `vanished` is the error if none comes.
  unfoldable pub ask :
      WorkerMessage T
      → Option (Result (Unit {0}) DmaError)
      → DmaError
      → FabricService T
      → Result (Unit {0}) DmaError × FabricService T
  unfolding send
  ask message answer vanished service =
      let (went, after) = send message service in
      if service.sender
      then if went
        then (elim answer [ none ↦ err vanished | some result ↦ result ], after)
        else (err gone, after)
      else (err gone, service)

  -- The region's base and end, if it is resident.
  unfoldable pub register :
      ℕ
      → ℕ
      → Option (Result (Unit {0}) DmaError)
      → FabricService T
      → Result (ℕ × ℕ) DmaError × FabricService T
  unfolding ask
  register base length answer service =
      let (result, after) =
        ask (registers base length) answer (fabric (text "fabric worker exited before registering"))
          service in
      if 0 == length
      then (err (fabric (text "cannot register 0 bytes")), service)
      else elim (checked_add base length) [
        | none ↦ (err (fabric (text "registered region range overflows")), service)
        | some end ↦ (elim result [ ok _ ↦ ok (base, end) | err e ↦ err e ], after)
      ]

  unfoldable pub add_peer :
      ℕ
      → List ℕ
      → Option (Result (Unit {0}) DmaError)
      → FabricService T
      → Result (Unit {0}) DmaError × FabricService T
  unfolding ask
  add_peer client_id address answer service =
      ask (adds_peer client_id address) answer
        (fabric (text "fabric worker exited before adding the peer")) service

  unfoldable pub remove_peer : ℕ → FabricService T → FabricService T
  unfolding send
  remove_peer client_id service =
      if service.sender then (send (removes_peer client_id) service).1 else service
