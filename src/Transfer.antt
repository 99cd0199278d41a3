-- ===== src/Transfer.antt =====
-- A transfer as it is submitted, prepared and completed: the types of
-- crates/dma-libfabric/src/server.rs, and `prepare` and `into_completion` of
-- crates/dma-libfabric/src/server_dma_worker.rs. Tracing spans are left out. The caller's context
-- is a type `T`; its `Operands`, of crates/dma-libfabric/src/operands.rs, are parameters, where a
-- buffer is its first address and its length.
pub mod Prepare
mod Tests
use vdma.Prelude.{
  ℕ, ◌+◌, ◌-◌, ◌^◌, List, [], ◌∷◌, Option, none, some, Bool, true, false, ◌&&◌, ltb, if◌then◌else◌,
}
use vdma.Errors.{Result, ok, err, DmaError, fabric, text, filled}
use vdma.Regions.Operand.{checked_add}

pub data Direction : Type 0 where
  to_peer : Direction
  from_peer : ℕ → Direction

pub record TransferDone : Type 0 where
  pub bytes : ℕ
  pub checksum : Option ℕ

pub record Completion (T : Type 0) : Type 0 where
  pub caller_context : T
  pub outcome : Result TransferDone DmaError

pub record TransferRequest (T : Type 0) : Type 0 where
  pub client_id : ℕ
  pub peer_address : List ℕ
  pub remote_key : ℕ
  pub remote_address : ℕ
  pub direction : Direction
  pub want_checksum : Bool
  pub caller_context : T

pub record QuiesceRead : Type 0 where
  pub peer_address : List ℕ
  pub remote_key : ℕ
  pub remote_address : ℕ

pub record InFlight (T : Type 0) : Type 0 where
  pub caller_context : T
  pub client_id : ℕ
  pub length : ℕ
  pub want_checksum : Bool
  pub buffer_pointer : ℕ
  pub local_lease : Option ℕ
  pub quiesce : Option QuiesceRead

-- `context` is the box that the pointer points to. A moment is a number.
pub record Prepared (T : Type 0) : Type 0 where
  pub context : InFlight T
  pub client_id : ℕ
  pub peer_address : List ℕ
  pub remote_key : ℕ
  pub remote_address : ℕ
  pub pointer : ℕ
  pub length : ℕ
  pub direction : Direction
  pub stalled_since : Option ℕ

abbrev pub is_to_peer : Direction → Bool
is_to_peer to_peer = true
is_to_peer (from_peer length) = false

module _ {T : Type 0} where
  -- `checksum` reads the bytes at the address.
  unfoldable pub into_completion :
      (ℕ → ℕ → ℕ) → InFlight T → Result (Unit {0}) DmaError → Completion T
  into_completion checksum op result = record {
    caller_context = op.caller_context;
    outcome = elim result [
      | err e ↦ err e
      | ok _ ↦ ok (record {
        bytes = op.length;
        checksum = if op.want_checksum then some (checksum op.buffer_pointer op.length) else none;
      })
    ];
  }

  -- The read that follows the write, if one does.
  unfoldable pub quiesce_read : TransferRequest T → Bool → ℕ → Result (Option QuiesceRead) DmaError
  quiesce_read request quiesce_writes length =
      if quiesce_writes && is_to_peer request.direction && ltb 0 length
      then elim (checked_add request.remote_address (length - 1)) [
        | none ↦ err (fabric (text "the peer's buffer range overflows"))
        | some last ↦ ok (
            some (record {
              peer_address = [];
              remote_key = request.remote_key;
              remote_address = last;
            }))
      ]
      else ok none

  -- The box with what was resolved, and the parameters of the post.
  unfoldable pub prepared : TransferRequest T → T → ℕ → ℕ → Option QuiesceRead → Prepared T
  prepared request context pointer length quiesce = record {
    context = record {
      caller_context = context;
      client_id = request.client_id;
      length = length;
      want_checksum = request.want_checksum;
      buffer_pointer = pointer;
      local_lease = none;
      quiesce = quiesce;
    };
    client_id = request.client_id;
    peer_address = request.peer_address;
    remote_key = request.remote_key;
    remote_address = request.remote_address;
    pointer = pointer;
    length = length;
    direction = request.direction;
    stalled_since = none;
  }

  module _ (source : T → Option (ℕ × ℕ)) (allocate : ℕ → T → Option (ℕ × ℕ) × T) where
    -- The operand, and the context, which `allocate` may change.
    unfoldable pub resolve : Direction → T → Result (ℕ × ℕ) DmaError × T
    resolve to_peer context = elim (source context) [
      | some bytes ↦ (ok bytes, context)
      | none ↦ (
        err (fabric (text "the caller context supplied no source bytes for a ToPeer transfer")),
        context,
      )
    ]
    resolve (from_peer length) context =
        let (buffer, context') = allocate length context in
        elim buffer [
          | some (landing, room) ↦
              if ltb room length
              then (
                err (
                    fabric (
                      filled
                        "the caller context allocated {} bytes for a {length} byte FromPeer transfer"
                        (room ∷ length ∷ []))),
                context',
              )
              else (ok (landing, length), context')
          | none ↦ (
            err (
                fabric
                  (text "the caller context allocated no landing buffer for a FromPeer transfer")),
            context',
          )
        ]

    unfoldable pub prepare : TransferRequest T → Bool → Result (Prepared T) (Completion T)
    unfolding resolve quiesce_read prepared
    prepare request quiesce_writes =
        let (operand, context) = resolve request.direction request.caller_context in
        elim operand [
          | err e ↦ err (record { caller_context = context; outcome = err e })
          | ok (pointer, length) ↦ elim (quiesce_read request quiesce_writes length) [
            | err e ↦ err (record { caller_context = context; outcome = err e })
            | ok quiesce ↦ ok (prepared request context pointer length quiesce)
          ]
        ]
