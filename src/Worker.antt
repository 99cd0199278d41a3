-- ===== src/Worker.antt =====
-- How the fabric worker accounts for the operations of each client, and decides when a peer may go
-- and how much it does in a pass: crates/dma-libfabric/src/server_dma_worker.rs. Pipeline has
-- the worker's loop and Posting how it posts.
pub mod Accounts
pub mod Intake
pub mod Steps
pub mod Limits
mod Tests
use vdma.Prelude.{
  ℕ, ◌+◌, ◌-◌, ◌≤◌, ◌<◌, ◌≡◌, List, [], ◌∷◌, ◌++◌, Option, none, some, Bool, true, false, not, ◌&&◌,
  ◌||◌, ltb, leb, ◌==◌, if◌then◌else◌, keep, min, max,
}
use vdma.Errors.{Result, ok, err, DmaError}
use vdma.HashMap.{get, insert, remove}
use vdma.Peers.{PeerAddresses}
use vdma.Peers
use vdma.Transfer.{TransferRequest, Completion, Prepared, InFlight, prepare, into_completion}

abbrev pub target_completions : ℕ
target_completions = 10

-- `pending_removal` is a set. `peers` are the endpoint's entries.
pub record Worker (T : Type 0) : Type 0 where
  pub outstanding_by_client : List (ℕ × ℕ)
  pub pending_removal : List ℕ
  pub outstanding : ℕ
  pub pending : List (Prepared T)
  pub completions : List (Completion T)
  pub peers : PeerAddresses

abbrev pub member : ℕ → List ℕ → Bool
member c [] = false
member c (x ∷ xs) = (x == c) || member c xs

abbrev pub unwrap_or : Option ℕ → ℕ → ℕ
unwrap_or none d = d
unwrap_or (some n) d = n

-- The client's count, decremented where it is, and what remains.
unfoldable pub decrement : ℕ → List (ℕ × ℕ) → ℕ × List (ℕ × ℕ)
decrement client_id m = elim (get client_id m) [
  | some count ↦ (count - 1, (insert client_id (count - 1) m).0)
  | none ↦ (0, m)
]

module _ {T : Type 0} where
  -- It saturates at 0, as subtraction here does.
  unfoldable pub release_outstanding : Worker T → Worker T
  release_outstanding w = record w { outstanding = w.outstanding - 1 }

  unfoldable pub accept :
      (T → Option (ℕ × ℕ))
      → (ℕ → T → Option (ℕ × ℕ) × T)
      → Bool
      → TransferRequest T
      → Worker T
      → Worker T
  unfolding release_outstanding
  accept source allocate quiesce_writes request w =
      elim (prepare source allocate request quiesce_writes) [
        | ok prepared ↦ record w {
          outstanding_by_client =
              (insert prepared.client_id
                (unwrap_or (get prepared.client_id w.outstanding_by_client) 0 + 1)
                w.outstanding_by_client).0;
          pending = w.pending ++ prepared ∷ [];
        }
        | err completion ↦ record (release_outstanding w) {
          completions = w.completions ++ completion ∷ [];
        }
      ]

  unfoldable pub release_peer : ℕ → Worker T → Worker T
  release_peer client_id w = record w { peers = Peers.release client_id w.peers }

  unfoldable pub remove_or_defer : ℕ → Worker T → Worker T
  unfolding release_peer
  remove_or_defer client_id w =
      if 0 == unwrap_or (get client_id w.outstanding_by_client) 0
      then release_peer client_id w
      else record w {
        pending_removal =
            if member client_id w.pending_removal
            then w.pending_removal
            else client_id ∷ w.pending_removal;
      }

  -- The client has nothing outstanding left: its deferred removal, if there is one, is done.
  unfoldable pub drained : ℕ → Worker T → Worker T
  unfolding release_peer
  drained client_id w =
      let w' : Worker T = record w {
        outstanding_by_client = (remove client_id w.outstanding_by_client).0;
        pending_removal = keep (λ c. not (c == client_id)) w.pending_removal;
      } in
      if member client_id w.pending_removal then release_peer client_id w' else w'

  unfoldable pub finish_op : ℕ → Worker T → Worker T
  unfolding release_outstanding decrement drained
  finish_op client_id w =
      let (remaining, m) = decrement client_id w.outstanding_by_client in
      let w' = record (release_outstanding w) { outstanding_by_client = m } in
      if 0 == remaining then drained client_id w' else w'

  unfoldable pub finish_unreaped : (ℕ → ℕ → ℕ) → InFlight T → DmaError → Worker T → Worker T
  unfolding finish_op into_completion
  finish_unreaped checksum inflight error w = finish_op inflight.client_id (record w {
    completions = w.completions ++ into_completion checksum inflight (err error) ∷ [];
  })

unfoldable pub should_flush_crc : ℕ → ℕ → Bool → Bool → Bool
should_flush_crc batched posted reaped_any about_to_park =
    ltb 0 batched
    && (leb target_completions batched || (0 == posted && not reaped_any) || about_to_park)

unfoldable pub in_flight_cap : ℕ → Option ℕ → ℕ
in_flight_cap max_tx configured =
    let requested = max (unwrap_or configured 64) 1 in
    if max_tx == 0 then requested else min requested max_tx
