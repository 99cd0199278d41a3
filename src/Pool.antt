-- ===== src/Pool.antt =====
-- The threads that finish checksummed completions, crates/dma-libfabric/src/pool.rs: which channel
-- a job is sent to and which thread runs it. A job is a number, a channel the jobs that are queued
-- on it; a job that panics is caught, and has run. The start of a thread, which the system may
-- refuse, is left out.
pub mod Jobs
mod Tests
use vdma.Prelude.{ℕ, zero, suc, ◌+◌, ◌%◌, ◌^◌, max, List, [], ◌∷◌, ◌++◌, Option, none, some, length}

-- `ran` are the jobs that the threads have taken.
pub record Pool : Type 0 where
  pub senders : List (List ℕ)
  pub next : ℕ
  pub ran : List ℕ

unfoldable pub channels : ℕ → List (List ℕ)
channels zero = []
channels (suc threads) = [] ∷ channels threads

unfoldable pub new_pool : ℕ → Pool
unfolding channels
new_pool threads = record { senders = channels (max threads 1); next = 0; ran = [] }

unfoldable pub with_channel : List ℕ → Option (List (List ℕ)) → Option (List (List ℕ))
with_channel channel none = none
with_channel channel (some senders) = some (channel ∷ senders)

-- `senders[index].send(job)`: none is the panic of an index out of range.
unfoldable pub send_job : ℕ → ℕ → List (List ℕ) → Option (List (List ℕ))
unfolding with_channel
send_job job index [] = none
send_job job zero (channel ∷ senders) = some ((channel ++ job ∷ []) ∷ senders)
send_job job (suc index) (channel ∷ senders) = with_channel channel (send_job job index senders)

unfoldable pub after_send : Pool → Option (List (List ℕ)) → Option Pool
after_send pool none = none
after_send pool (some senders) =
    some (record pool { senders = senders; next = (pool.next + 1) % 2 ^ 64 })

unfoldable pub submit_job : ℕ → Pool → Option Pool
unfolding send_job after_send
submit_job job pool = after_send pool (send_job job (pool.next % length pool.senders) pool.senders)

-- The job that a thread takes from its channel, if it does not block, and the channels after it.
unfoldable pub recv : ℕ → List (List ℕ) → List ℕ × List (List ℕ)
recv index [] = ([], [])
recv zero ([] ∷ senders) = ([], [] ∷ senders)
recv zero ((job ∷ channel) ∷ senders) = (job ∷ [], channel ∷ senders)
recv (suc index) (channel ∷ senders) = let (job, rest) = recv index senders in (job, channel ∷ rest)

unfoldable pub run_next : ℕ → Pool → Pool
unfolding recv
run_next index pool =
    let (job, rest) = recv index pool.senders in
    record pool { senders = rest; ran = pool.ran ++ job }

-- What the threads have run when the drop has joined them, each having drained its channel.
unfoldable pub drained_channels : List (List ℕ) → List ℕ
drained_channels [] = []
drained_channels (channel ∷ senders) = channel ++ drained_channels senders

unfoldable pub drop_pool : Pool → List ℕ
unfolding drained_channels
drop_pool pool = pool.ran ++ drained_channels pool.senders
