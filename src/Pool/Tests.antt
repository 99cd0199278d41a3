-- ===== src/Pool/Tests.antt =====
-- Two threads and three jobs, for crates/dma-libfabric/src/pool.rs.
use vdma.Prelude.{◌≡◌, refl, [], ◌∷◌, ◌++◌, some, count}
use vdma.Pool.{
  Pool, channels, new_pool, with_channel, send_job, after_send, submit_job, recv, run_next,
  drop_pool,
}
use vdma.Pool.Jobs.{submits, runs, Reach, here, next, jobs-Reach}

abbrev one_queued : Pool
one_queued = record { senders = (7 ∷ []) ∷ [] ∷ []; next = 1; ran = [] }

abbrev two_queued : Pool
two_queued = record { senders = (7 ∷ []) ∷ (8 ∷ []) ∷ []; next = 2; ran = [] }

abbrev second_ran : Pool
second_ran = record { senders = (7 ∷ []) ∷ [] ∷ []; next = 2; ran = 8 ∷ [] }

abbrev three_sent : Pool
three_sent = record { senders = (7 ∷ 9 ∷ []) ∷ [] ∷ []; next = 3; ran = 8 ∷ [] }

second_takes : run_next 1 two_queued ≡ second_ran
unfolding run_next recv
second_takes = refl

first_again : submit_job 9 second_ran ≡ some three_sent
unfolding submit_job send_job with_channel after_send
first_again = refl

at_least_one : new_pool 0 ≡ new_pool 1
unfolding new_pool channels
at_least_one = refl

reached : Reach (new_pool 2) (((([] ++ 7 ∷ []) ++ 8 ∷ []) ++ []) ++ 9 ∷ []) three_sent
unfolding new_pool channels submit_job send_job with_channel after_send run_next recv
reached =
    next
      (next
        (next (next here (submits 7 (new_pool 2) one_queued refl))
          (submits 8 one_queued two_queued refl))
        (runs 1 two_queued))
      (submits 9 second_ran three_sent refl)

jobs-Reach_example :
    (count 7 (drop_pool three_sent) ≡ count 7 (7 ∷ 8 ∷ 9 ∷ []))
    × ((u : Pool) × (submit_job 7 three_sent ≡ some u))
jobs-Reach_example = jobs-Reach 2 7 reached
