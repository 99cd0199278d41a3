-- ===== src/Worker/Limits.antt =====
-- How much the worker has in flight, and when it holds a batch back.
use vdma.Prelude.{ℕ, ◌≤◌, ◌<◌, ◌≡◌, Option, Bool, true, false, arith, max, ◌⊎◌}
use vdma.Worker.{unwrap_or, target_completions, in_flight_cap, should_flush_crc}

-- The cap is above 0 and at most what is configured, or 64, if that is above 0, and else 1; and it
-- is at most the provider's queue, if that has a fixed depth.
pub in_flight_cap_lem :
    (max_tx : ℕ) (configured : Option ℕ)
    → (0 < in_flight_cap max_tx configured)
      × (in_flight_cap max_tx configured ≤ max (unwrap_or configured 64) 1)
      × ((max_tx ≡ 0) ⊎ (in_flight_cap max_tx configured ≤ max_tx))
unfolding in_flight_cap
in_flight_cap_lem max_tx configured = (ground arith, ground arith, ground arith)

-- A batch of checksummed completions is held back only if it is empty, or else not full, while
-- something was posted or reaped in the pass, and the worker is not about to park.
pub should_flush_crc_lem :
    (batched posted : ℕ) (reaped_any about_to_park : Bool)
    → should_flush_crc batched posted reaped_any about_to_park ≡ false
    → (batched ≡ 0)
      ⊎ ((batched < target_completions)
          × ((0 < posted) ⊎ (reaped_any ≡ true))
          × (about_to_park ≡ false))
unfolding should_flush_crc
should_flush_crc_lem batched posted reaped_any about_to_park h = ground arith
