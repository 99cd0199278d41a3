-- ===== src/Asynchronous.antt =====
-- The future of a transfer, crates/dma-libfabric/src/asynchronous.rs: the cell that the worker's
-- completion and the `Transfer` share, and how far each of the two has come. `T` is an outcome
-- with the caller's context; a waker is the number of what it wakes. The `Drop` of a `Transfer` and
-- that of its clone of the cell are one step.
pub mod Deliveries
mod Tests
use vdma.Prelude.{ℕ, ◌-◌, ◌==◌, if◌then◌else◌, Option, some, none}

-- The task that has the `Transfer`: it is to poll it, it sleeps until the waker wakes it, it has
-- got the outcome, or it has dropped the `Transfer`, before or after it had the outcome.
pub data Task (T : Type 0) : Type 0 where
  polling : Task T
  waiting : ℕ → Task T
  ready : T → Task T
  dropped : Option T → Task T

-- `deliver`: it has the outcome, it has stored it and taken the waker, it has dropped its clone
-- of the cell, it has called the waker.
pub data Delivery (T : Type 0) : Type 0 where
  owed : T → Delivery T
  stored : Option ℕ → Delivery T
  released : Option ℕ → Delivery T
  delivered : Delivery T

-- `clones` counts those of the cell's `Arc`; `destroyed` is what was in it when it was freed.
pub record Cell (T : Type 0) : Type 0 where
  pub outcome : Option T
  pub waker : Option ℕ
  pub clones : ℕ
  pub destroyed : Option T
  pub task : Task T
  pub delivery : Delivery T

-- The waker is kept if it would wake the same task.
unfoldable pub set_waker : ℕ → Option ℕ → Option ℕ
set_waker w none = some w
set_waker w (some k) = if k == w then some k else some w

module _ {T : Type 0} where
  abbrev pub transfer : T → Cell T
  transfer v = record {
    outcome = none;
    waker = none;
    clones = 2;
    destroyed = none;
    task = polling;
    delivery = owed v;
  }

  unfoldable pub poll : ℕ → Cell T → Cell T
  unfolding set_waker
  poll w c = elim c.outcome [
    | some v ↦ record c { outcome = none; task = ready v }
    | none ↦ record c { waker = set_waker w c.waker; task = waiting w }
  ]

  -- One clone of the cell fewer: the last one frees it with what it holds.
  unfoldable pub drop_cell : Cell T → Cell T
  drop_cell c =
      if c.clones == 1
      then record c { clones = 0; outcome = none; destroyed = c.outcome }
      else record c { clones = c.clones - 1 }

  abbrev pub result : Task T → Option T
  result polling = none
  result (waiting w) = none
  result (ready v) = some v
  result (dropped o) = o

  unfoldable pub drop_transfer : Cell T → Cell T
  unfolding drop_cell
  drop_transfer c = drop_cell (record c { waker = none; task = dropped (result c.task) })

  -- The first part of `deliver`, under the lock.
  unfoldable pub store : T → Cell T → Cell T
  store v c = record c { outcome = some v; waker = none; delivery = stored c.waker }

  unfoldable pub release_cell : Option ℕ → Cell T → Cell T
  unfolding drop_cell
  release_cell waker c = drop_cell (record c { delivery = released waker })

  unfoldable pub wake : Option ℕ → Task T → Task T
  wake (some k) (waiting w) = if k == w then polling else waiting w
  wake none (waiting w) = waiting w
  wake waker polling = polling
  wake waker (ready v) = ready v
  wake waker (dropped o) = dropped o

  unfoldable pub wake_task : Option ℕ → Cell T → Cell T
  unfolding wake
  wake_task waker c = record c { task = wake waker c.task; delivery = delivered }
