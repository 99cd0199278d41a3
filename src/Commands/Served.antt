-- ===== src/Commands/Served.antt =====
-- What the commands of crates/module/src/transfer.rs do to the module, and the completions of their
-- transfers.
use vdma.Prelude.{
  ℕ, ◌+◌, ◌^◌, ◌%◌, List, [], ◌∷◌, ◌++◌, Option, none, some, Bool, ltb, if◌then◌else◌, length, map,
  get_elem?,
}
use vdma.Errors.{Result, ok, err, DmaError}
use vdma.Transfer.{TransferDone, TransferRequest, Completion}
use vdma.Protocol.Hex.{encode_hex}
use vdma.Protocol.Advertisement.{Advertisement}
use vdma.Service.{FabricService, submit, remove_peer, gone}
use vdma.Commands.{
  Buffer, HeldValue, retained, copied, OpToken, get, set, null, no_reply, integer, failed, str,
  exceeds, no_workers, ValkeyResult, get_reply, checksum_fault, least_loaded, replace, get_request,
  set_request,
}

-- `K` is the keyspace. `set_move` moves a value into a key, if it can.
module _ {K : Type 0} (set_move : ℕ → Buffer → K → Option K) where
  unfoldable pub commit : ℕ → Option Buffer → ℕ → K → ValkeyResult × K
  commit bytes none key keyspace = (err (str "ERR landing buffer missing"), keyspace)
  commit bytes (some destination) key keyspace = elim (set_move key destination keyspace) [
    | none ↦ (err (str "ERR failed to store value"), keyspace)
    | some stored ↦ (ok (integer bytes), stored)
  ]

  unfoldable pub set_reply :
      Result TransferDone DmaError → Option Buffer → ℕ → Option ℕ → K → ValkeyResult × K
  unfolding commit checksum_fault
  set_reply (err error) destination key expected_crc keyspace = (err (failed error), keyspace)
  set_reply (ok done) destination key expected_crc keyspace =
      elim (checksum_fault expected_crc done.checksum) [
        | some fault ↦ (err fault, keyspace)
        | none ↦ commit done.bytes destination key keyspace
      ]

  -- The client that is to be replied to, and the reply.
  unfoldable pub finish_under_gil :
      OpToken → Result TransferDone DmaError → K → (ℕ × ValkeyResult) × K
  unfolding get_reply set_reply
  finish_under_gil (get blocked held) outcome keyspace = ((blocked, get_reply outcome), keyspace)
  finish_under_gil (set blocked destination key expected_crc) outcome keyspace =
      let (reply, stored) = set_reply outcome destination key expected_crc keyspace in
      ((blocked, reply), stored)

  -- The replies staged for a batch, in its order.
  unfoldable pub finish_batch : List (Completion OpToken) → K → List (ℕ × ValkeyResult) × K
  unfolding finish_under_gil
  finish_batch [] keyspace = ([], keyspace)
  finish_batch (done ∷ batch) keyspace =
      let (reply, stored) = finish_under_gil done.caller_context done.outcome keyspace in
      let (replies, last) = finish_batch batch stored in (reply ∷ replies, last)

  -- The module: its keyspace, its services, `NEXT`, the clients blocked so far, which are
  -- numbered, and the replies sent.
  pub record Module : Type 0 where
    pub keyspace : K
    pub services : List (FabricService OpToken)
    pub rotation : ℕ
    pub blocked : ℕ
    pub replies : List (ℕ × ValkeyResult)

  unfoldable pub complete_batch : List (Completion OpToken) → Module → Module
  unfolding finish_batch
  complete_batch batch m =
      let (replies, keyspace) = finish_batch batch m.keyspace in
      record m { keyspace = keyspace; replies = m.replies ++ replies }

  -- `fetch_add` gives the count before, and wraps.
  unfoldable pub least_loaded_server : Module → Option (ℕ × FabricService OpToken) × Module
  unfolding least_loaded
  least_loaded_server m =
      let chosen = least_loaded m.rotation (map (λ s. s.outstanding) m.services) in
      (
        elim chosen [
          | none ↦ none
          | some i ↦ elim (get_elem? m.services i) [ none ↦ none | some s ↦ some (i, s) ]
        ],
        record m { rotation = (m.rotation + 1) % 2 ^ 64 },
      )

  -- A request that came back is finished inline.
  unfoldable pub settle : Result (Unit {0}) (TransferRequest OpToken) → Module → Module
  unfolding finish_under_gil
  settle (ok _) m = m
  settle (err request) m =
      let (reply, keyspace) = finish_under_gil request.caller_context (err gone) m.keyspace in
      record m { keyspace = keyspace; replies = m.replies ++ reply ∷ [] }

  unfoldable pub submit_request :
      ℕ × FabricService OpToken → TransferRequest OpToken → Module → Module
  unfolding submit settle
  submit_request (i, service) request m =
      let (result, after) = submit request service in
      settle result (record m { services = replace i after m.services })

  -- What both commands do once they have chosen: the client is blocked, and the request submitted.
  unfoldable pub start_on :
      Option (ℕ × FabricService OpToken)
      → (ℕ → TransferRequest OpToken)
      → Module
      → ValkeyResult × Module
  unfolding submit_request
  start_on none request m = (err (failed no_workers), m)
  start_on (some found) request m =
      (ok no_reply, submit_request found (request m.blocked) (record m { blocked = m.blocked + 1 }))

  unfoldable pub start_transfer : (ℕ → TransferRequest OpToken) → Module → ValkeyResult × Module
  unfolding start_on least_loaded_server
  start_transfer request m = let (server, m') = least_loaded_server m in start_on server request m'

  abbrev pub held_value : Option Buffer → Buffer → HeldValue
  held_value (some value) bytes = retained value
  held_value none bytes = copied bytes

  -- `read` is what the key holds, if it can be read, and `retained_value` the reference that
  -- Valkey gives to it, if it does.
  unfoldable pub dma_get :
      Result (Option Buffer) (Unit {0})
      → Option Buffer
      → ℕ
      → Advertisement
      → ℕ
      → Bool
      → Module
      → ValkeyResult × Module
  unfolding start_transfer
  dma_get (err _) retained_value client_id advertisement capacity want_checksum m =
      (err (str "ERR failed to read key"), m)
  dma_get (ok none) retained_value client_id advertisement capacity want_checksum m = (ok null, m)
  dma_get (ok (some bytes)) retained_value client_id advertisement capacity want_checksum m =
      if ltb capacity bytes.1
      then (err (exceeds bytes.1 capacity), m)
      else start_transfer
          (get_request client_id advertisement want_checksum (held_value retained_value bytes)) m

  unfoldable pub dma_set : ℕ → Advertisement → ℕ → ℕ → Option ℕ → Module → ValkeyResult × Module
  unfolding start_transfer
  dma_set client_id advertisement key length expected_crc m =
      start_transfer (set_request client_id advertisement key length expected_crc) m

  unfoldable pub release_client : ℕ → Module → Module
  unfolding remove_peer
  release_client client_id m = record m { services = map (remove_peer client_id) m.services }

  -- The array of simple strings.
  unfoldable pub dma_hello : Module → List (List ℕ)
  dma_hello m = map (λ s. encode_hex s.address) m.services
