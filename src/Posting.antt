-- ===== src/Posting.antt =====
-- How the worker posts an operation and the read that quiesces a write: `post` and `post_quiesce` of
-- crates/dma-libfabric/src/server_dma_worker.rs. What libfabric answers to the calls of one
-- attempt, and the clock, are parameters. The pointer that libfabric is given for an operation is
-- a number, `context`.
pub mod Posted
pub mod Quiesced
pub mod Sent
pub mod Leased
mod Tests
use vdma.Prelude.{ℕ, ◌-◌, List, [], Option, none, some, Bool, if◌then◌else◌}
use vdma.Prelude.Int.{ℤ, is_zero, is_negative}
use vdma.Errors.{Result, ok, err, DmaError, fabric_error}
use vdma.Regions.{MemoryRegion}
use vdma.Regions.Operand.{CacheableSpan, LocalOperand}
use vdma.Peers.{drop_entry}
use vdma.Connection.{Post, post_out, post_in}
use vdma.Endpoint.{Provider, LibfabricEndpoint, insert_peer, local_operand, connection, drop_option}
use vdma.Transfer.{Direction, to_peer, from_peer, InFlight, Prepared, QuiesceRead}

-- `now` and `later` are the times at which the attempt asks for the moment and what has elapsed.
pub record Answers : Type 0 where
  pub fi_av_insert : List ℕ → ℤ × ℕ
  pub fi_mr_reg : MemoryRegion → ℤ
  pub fi_post : Post → ℤ
  pub now : ℕ
  pub later : ℕ

pub record Quiescing (T : Type 0) : Type 0 where
  pub inflight : InFlight T
  pub read : QuiesceRead
  pub stalled_since : Option ℕ

-- `posted` names the operation that libfabric holds.
pub data QuiescePost (T : Type 0) : Type 0 where
  posted : InFlight T → QuiescePost T
  again : Quiescing T → QuiescePost T
  failed : InFlight T → DmaError → QuiescePost T

-- The clone of an entry that a post holds goes when it returns.
unfoldable pub drop_peer : ℕ → LibfabricEndpoint → LibfabricEndpoint
drop_peer entry endpoint = record endpoint {
  peer_addresses = drop_entry entry endpoint.peer_addresses;
}

-- `quiesce.peer_address = take(peer_address)`: the read, and what is left.
abbrev pub with_address : List ℕ → Option QuiesceRead → Option QuiesceRead
with_address address none = none
with_address address (some read) = some (record read { peer_address = address })

abbrev pub address_left : List ℕ → Option QuiesceRead → List ℕ
address_left address none = address
address_left address (some read) = []

module _ {T : Type 0} where
  -- What is posted for a transfer.
  unfoldable pub posting : ℕ → Prepared T → ℕ → LocalOperand → LibfabricEndpoint → Post
  posting context prepared peer operand endpoint =
      let to = connection endpoint peer prepared.remote_key prepared.remote_address in
      elim prepared.direction [
        | to_peer ↦ post_out to prepared.pointer prepared.length operand.descriptor context
        | from_peer _ ↦ post_in to prepared.pointer prepared.length operand.descriptor context
      ]

  -- The operation once libfabric has it: it holds the lease, and its quiesce read the address.
  unfoldable pub handed_over : Prepared T → Option ℕ → Prepared T
  handed_over prepared lease = record prepared {
    context = record prepared.context {
      local_lease = lease;
      quiesce = with_address prepared.peer_address prepared.context.quiesce;
    };
    peer_address = address_left prepared.peer_address prepared.context.quiesce;
  }

  -- The code of the post decides who has the lease.
  unfoldable pub settle :
      ℤ
      → Prepared T
      → Option ℕ
      → LibfabricEndpoint
      → (Result ℤ DmaError × Prepared T) × LibfabricEndpoint
  unfolding handed_over
  settle code prepared lease endpoint =
      if is_zero code
      then (
        (ok code, handed_over prepared lease),
        drop_option prepared.context.local_lease endpoint,
      )
      else ((ok code, prepared), drop_option lease endpoint)

  module _ (provider : Provider) (cacheable_span : T → Option CacheableSpan) (answers : Answers)
      (context : ℕ) where
    -- The rest of `post`, with the operand located.
    unfoldable pub post_located :
        ℕ
        → Prepared T
        → Result LocalOperand DmaError
        → LibfabricEndpoint
        → (Result ℤ DmaError × Prepared T) × LibfabricEndpoint
    unfolding posting settle
    post_located peer prepared (err e) endpoint = ((err e, prepared), endpoint)
    post_located peer prepared (ok operand) endpoint =
        settle (answers.fi_post (posting context prepared peer operand endpoint)) prepared
          operand.lease endpoint

    -- And with the peer inserted.
    unfoldable pub post_inserted :
        Prepared T
        → Result ℕ DmaError
        → LibfabricEndpoint
        → (Result ℤ DmaError × Prepared T) × LibfabricEndpoint
    unfolding post_located drop_peer
    post_inserted prepared (err e) endpoint = ((err e, prepared), endpoint)
    post_inserted prepared (ok peer) endpoint =
        let (located, endpoint') =
          local_operand provider answers.fi_mr_reg prepared.pointer prepared.length
            (cacheable_span prepared.context.caller_context) endpoint in
        let (result, endpoint'') = post_located peer prepared located endpoint' in
        (result, drop_peer peer endpoint'')

    unfoldable pub post :
        Prepared T → LibfabricEndpoint → (Result ℤ DmaError × Prepared T) × LibfabricEndpoint
    unfolding post_inserted
    post prepared endpoint =
        let (inserted, endpoint') =
          insert_peer answers.fi_av_insert prepared.client_id prepared.peer_address endpoint in
        post_inserted prepared inserted endpoint'

  unfoldable pub quiesce_code : ℕ → ℤ → Quiescing T → QuiescePost T
  quiesce_code fi_eagain code waiting =
      if is_zero code
      then posted waiting.inflight
      else if is_negative fi_eagain code
      then again waiting
      else failed waiting.inflight (fabric_error code "quiesce read")

  module _ (provider : Provider) (fi_eagain : ℕ) (answers : Answers) (context : ℕ)
      (landing : ℕ) where
    -- The rest of `post_quiesce`, with the operand located: its lease takes the place of the
    -- write's.
    unfoldable pub quiesce_located :
        ℕ
        → Quiescing T
        → Result LocalOperand DmaError
        → LibfabricEndpoint
        → QuiescePost T × LibfabricEndpoint
    unfolding quiesce_code
    quiesce_located peer waiting (err e) endpoint = (failed waiting.inflight e, endpoint)
    quiesce_located peer waiting (ok operand) endpoint =
        let to = connection endpoint peer waiting.read.remote_key waiting.read.remote_address in
        (
          quiesce_code fi_eagain (answers.fi_post (post_in to landing 1 operand.descriptor context))
              (record waiting {
                inflight = record waiting.inflight { local_lease = operand.lease };
              }),
          drop_option waiting.inflight.local_lease endpoint,
        )

    unfoldable pub quiesce_inserted :
        Quiescing T → Result ℕ DmaError → LibfabricEndpoint → QuiescePost T × LibfabricEndpoint
    unfolding quiesce_located drop_peer
    quiesce_inserted waiting (err e) endpoint = (failed waiting.inflight e, endpoint)
    quiesce_inserted waiting (ok peer) endpoint =
        let (located, endpoint') =
          local_operand provider answers.fi_mr_reg landing 1 none endpoint in
        let (result, endpoint'') = quiesce_located peer waiting located endpoint' in
        (result, drop_peer peer endpoint'')

    unfoldable pub post_quiesce :
        Quiescing T → LibfabricEndpoint → QuiescePost T × LibfabricEndpoint
    unfolding quiesce_inserted
    post_quiesce waiting endpoint =
        let (inserted, endpoint') =
          insert_peer answers.fi_av_insert waiting.inflight.client_id waiting.read.peer_address
            endpoint in
        quiesce_inserted waiting inserted endpoint'
