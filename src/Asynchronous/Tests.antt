-- ===== src/Asynchronous/Tests.antt =====
-- A future at small inputs.
use vdma.Prelude.{ℕ, some, none, refl}
use vdma.Asynchronous.{
  polling, waiting, dropped, owed, released, delivered, Cell, transfer, set_waker, poll, drop_cell,
  drop_transfer, store, release_cell, wake, wake_task,
}
use vdma.Asynchronous.Deliveries.{
  Step, polls, stores, releases, wakes, drops_polling, Reach, here, next, Arrived, cell,
}
use vdma.Asynchronous.Deliveries

program : Unit {0}
unfolding set_waker poll drop_cell drop_transfer store release_cell wake wake_task
program = tt

-- The task sleeps when the outcome 7 comes, and is woken.
abbrev woken : Cell ℕ
woken = cell (some 7) none 1 none polling delivered

woken-Reach : Reach (transfer 7) woken
unfolding program
woken-Reach =
    next
      (next
        (next (next here (polls none none 2 none (owed 7) 5))
          (stores none (some 5) 2 none (waiting 5) 7))
        (releases (some 7) none 2 none (waiting 5) (some 5)))
      (wakes (some 7) none 1 none (waiting 5) (some 5))

delivered-Reach_example : Arrived 7 woken
delivered-Reach_example = Deliveries.delivered-Reach {c = woken} 7 woken-Reach refl

-- An abandoned transfer's outcome goes with the cell.
abandoned : Reach {T = ℕ} (transfer 7) (cell none none 0 (some 7) (dropped none) (released none))
unfolding program
abandoned =
    next
      (next (next here (drops_polling none none 2 none (owed 7)))
        (stores none none 1 none (dropped none) 7))
      (releases (some 7) none 1 none (dropped none) none)
