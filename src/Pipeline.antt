-- ===== src/Pipeline.antt =====
-- The loop of the fabric worker, crates/dma-libfabric/src/server_dma_worker.rs: what it takes in,
-- posts, reaps, quiesces and hands on in a pass. The accounts are those of Worker, the posts those
-- of Posting, the completion queue that of Endpoint. An operation that libfabric holds is in
-- `flight` under the number that stands for its pointer. Of the pool and of `complete_batch` the
-- model keeps what they were handed, and in which order.
pub mod Passes
pub mod Places
pub mod Sound
pub mod Reclaimed
pub mod Dispatched
pub mod Quiesced
pub mod Messages
pub mod Kept
pub mod Steps
pub mod Leased
pub mod Answered
pub mod Conserved
pub mod Ended
pub mod Stopped
mod Tests
use vdma.Prelude.{
  ℕ, suc, zero, ◌+◌, ◌-◌, List, [], ◌∷◌, ◌++◌, Option, none, some, Bool, true, false, not, ◌&&◌,
  ◌||◌, map, ltb, ◌==◌, if◌then◌else◌, length,
}
use vdma.Prelude.Int.{ℤ, is_zero, is_negative}
use vdma.Errors.{Result, ok, err, DmaError, transfer, fabric, text, filled, fabric_error}
use vdma.HashMap.{remove}
use vdma.Regions.{Cache}
use vdma.Regions.Operand.{CacheableSpan}
use vdma.Transfer.{TransferRequest, Completion, InFlight, Prepared, QuiesceRead, into_completion}
use vdma.Endpoint.{Provider, LibfabricEndpoint, insert_peer, pin_region, drop_option}
use vdma.Endpoint.Reap.{Reaped}
use vdma.Posting.{
  Answers, Quiescing, QuiescePost, posted, again, failed, drop_peer, post, post_quiesce,
}
use vdma.Worker.{
  Worker, unwrap_or, target_completions, accept, remove_or_defer, finish_op, finish_unreaped,
  should_flush_crc,
}

-- What does not change while the worker runs: the caller's `Operands` and the checksum, the
-- configuration, the endpoint's provider, and libfabric's constants.
pub record Setting (T : Type 0) : Type 0 where
  pub source : T → Option (ℕ × ℕ)
  pub allocate : ℕ → T → Option (ℕ × ℕ) × T
  pub cacheable_span : T → Option CacheableSpan
  pub checksum : ℕ → ℕ → ℕ
  pub quiesce_writes : Bool
  pub provider : Provider
  pub cap : ℕ
  pub progress_deadline : ℕ
  pub fi_eagain : ℕ
  pub quiesce_pointer : ℕ

pub data WorkerMessage (T : Type 0) : Type 0 where
  transfers : TransferRequest T → WorkerMessage T
  adds_peer : ℕ → List ℕ → WorkerMessage T
  removes_peer : ℕ → WorkerMessage T
  registers : ℕ → ℕ → WorkerMessage T

-- `asked` numbers the attempts whose answers libfabric gave, `next` the pointers. `submitted` are
-- the batches that the pool was handed and has not run, `delivered` the completions that
-- `complete_batch` was, and `replies` what callers that waited were answered.
pub record Pipeline (T : Type 0) : Type 0 where
  pub accounts : Worker T
  pub cache : Cache
  pub quiescing : List (Quiescing T)
  pub in_flight : ℕ
  pub flight : List (ℕ × InFlight T)
  pub next : ℕ
  pub asked : ℕ
  pub posted_ops : ℕ
  pub crc_pending : List (InFlight T × Result (Unit {0}) DmaError)
  pub submitted : List (List (InFlight T × Result (Unit {0}) DmaError))
  pub drain_spins : ℕ
  pub delivered : List (Completion T)
  pub replies : List (Result (Unit {0}) DmaError)

abbrev pub answered : Result ℕ DmaError → Result (Unit {0}) DmaError
answered (ok _) = ok tt
answered (err e) = err e

abbrev pub drop_inserted : Result ℕ DmaError → LibfabricEndpoint → LibfabricEndpoint
drop_inserted (ok peer) e = drop_peer peer e
drop_inserted (err _) e = e

-- The moment since which an operation has been stalled.
abbrev pub stalled : Option ℕ → ℕ → ℕ
stalled since now = unwrap_or since now

module _ {T : Type 0} where
  abbrev pub endpoint : Pipeline T → LibfabricEndpoint
  endpoint s = record { peer_addresses = s.accounts.peers; cache = s.cache }

  unfoldable pub set_endpoint : LibfabricEndpoint → Pipeline T → Pipeline T
  set_endpoint e s = record s {
    accounts = record s.accounts { peers = e.peer_addresses };
    cache = e.cache;
  }

  -- The lease of an operation that is dropped.
  unfoldable pub drop_operation : InFlight T → Pipeline T → Pipeline T
  unfolding set_endpoint
  drop_operation op s = set_endpoint (drop_option op.local_lease (endpoint s)) s

  abbrev pub pop_pending : List (Prepared T) → Pipeline T → Pipeline T
  pop_pending rest s = record s { accounts = record s.accounts { pending = rest } }

  module _ (setting : Setting T) (answers : ℕ → Answers) where
    unfoldable pub take_in : WorkerMessage T → Pipeline T → Pipeline T
    unfolding set_endpoint
    take_in (transfers request) s = record s {
      accounts = accept setting.source setting.allocate setting.quiesce_writes request s.accounts;
    }
    take_in (adds_peer client_id address) s =
        let (inserted, e) =
          insert_peer (answers s.asked).fi_av_insert client_id address (endpoint s) in
        record (set_endpoint (drop_inserted inserted e) s) {
          asked = s.asked + 1;
          replies = s.replies ++ answered inserted ∷ [];
        }
    take_in (removes_peer client_id) s = record s {
      accounts = remove_or_defer client_id s.accounts;
    }
    take_in (registers base length) s =
        let (result, e) =
          pin_region setting.provider (answers s.asked).fi_mr_reg base length (endpoint s) in
        record (set_endpoint e s) { asked = s.asked + 1; replies = s.replies ++ result ∷ [] }

    unfoldable pub intake : List (WorkerMessage T) → Pipeline T → Pipeline T
    unfolding take_in
    intake [] s = s
    intake (m ∷ ms) s = intake ms (take_in m s)

    -- `finish_unreaped`, with the operation dropped.
    unfoldable pub fail : InFlight T → DmaError → Pipeline T → Pipeline T
    unfolding drop_operation
    fail op error s =
        drop_operation op
          (record s { accounts = finish_unreaped setting.checksum op error s.accounts })

    -- An operation that libfabric took.
    unfoldable pub launch : InFlight T → Pipeline T → Pipeline T
    launch op s = record s {
      in_flight = s.in_flight + 1;
      posted_ops = s.posted_ops + 1;
      flight = (s.next, op) ∷ s.flight;
      next = s.next + 1;
    }

    -- A full transmit queue: the operation waits for the next pass, unless it has for too long.
    unfoldable pub stall : Answers → Prepared T → Pipeline T → Pipeline T
    unfolding fail
    stall answer p s =
        let since = stalled p.stalled_since answer.now in
        if ltb (answer.later - since) setting.progress_deadline
        then record s {
          accounts = record s.accounts {
            pending = s.accounts.pending ++ record p { stalled_since = some since } ∷ [];
          };
        }
        else fail p.context
            (transfer (
              filled
                "no progress posting for {progress_deadline:?}: peer unreachable or transmit queue stuck"
                (setting.progress_deadline ∷ [])))
            s

    unfoldable pub after_post : Result ℤ DmaError → Answers → Prepared T → Pipeline T → Pipeline T
    unfolding launch stall fail
    after_post (err error) answer p s = fail p.context error s
    after_post (ok code) answer p s =
        if is_zero code
        then launch p.context s
        else if is_negative setting.fi_eagain code
        then stall answer p s
        else fail p.context (fabric_error code "post") s

    -- The attempt at the operation that was at the front of the queue.
    unfoldable pub attempt : Prepared T → Pipeline T → Pipeline T
    unfolding after_post set_endpoint
    attempt p s =
        let answer = answers s.asked in
        let ((result, p'), e) =
          post setting.provider setting.cacheable_span answer s.next p (endpoint s) in
        after_post result answer p' (record (set_endpoint e s) { asked = s.asked + 1 })

    unfoldable pub post_pass : ℕ → Pipeline T → Pipeline T
    unfolding attempt
    post_pass zero s = s
    post_pass (suc attempts) s =
        if ltb s.in_flight setting.cap
        then elim s.accounts.pending [
          | [] ↦ s
          | p ∷ rest ↦ post_pass attempts (attempt p (pop_pending rest s))
        ]
        else s
