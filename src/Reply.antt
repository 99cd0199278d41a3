-- ===== src/Reply.antt =====
-- A one-shot answer from the fabric worker to a waiting caller, crates/dma-libfabric/src/reply.rs.
-- A slot has the mutex's state, and how far each of its two ends has come; the condition variable
-- is whether the caller is asleep.
pub mod Answers
mod Tests
use vdma.Prelude.{Option, some, none}

pub data State (T : Type 0) : Type 0 where
  pending : State T
  answered : T → State T
  abandoned : State T

-- The caller in `wait`: it is to look at the state, or it sleeps, or it has returned.
pub data Caller (T : Type 0) : Type 0 where
  running : Caller T
  asleep : Caller T
  returned : Option T → Caller T

-- The worker's end: `send` sets the state, and notifies after it has unlocked; then the end is
-- dropped. `gone` keeps what was sent, if anything was.
pub data Answer (T : Type 0) : Type 0 where
  holding : Answer T
  settled : T → Answer T
  notified : T → Answer T
  gone : Option T → Answer T

pub record Slot (T : Type 0) : Type 0 where
  pub state : State T
  pub caller : Caller T
  pub answer : Answer T

module _ {T : Type 0} where
  abbrev pub reply : Slot T
  reply = record { state = pending; caller = running; answer = holding }

  -- `notify_one`.
  unfoldable pub wake : Caller T → Caller T
  wake asleep = running
  wake running = running
  wake (returned r) = returned r

  -- The first half of `settle`, and the second.
  unfoldable pub settle : T → Slot T → Slot T
  settle v s = record s { state = answered v; answer = settled v }

  unfoldable pub notify : T → Slot T → Slot T
  unfolding wake
  notify v s = record s { caller = wake s.caller; answer = notified v }

  -- `drop` notifies under the lock.
  unfoldable pub drop_answer : Option T → Slot T → Slot T
  unfolding wake
  drop_answer sent s = elim s.state [
    | pending ↦ record s { state = abandoned; caller = wake s.caller; answer = gone sent }
    | answered v ↦ record s { answer = gone sent }
    | abandoned ↦ record s { answer = gone sent }
  ]

  -- One round of the loop of `wait`, which leaves the state pending.
  unfoldable pub look : Slot T → Slot T
  look s = elim s.state [
    | answered v ↦ record s { state = pending; caller = returned (some v) }
    | abandoned ↦ record s { state = pending; caller = returned none }
    | pending ↦ record s { caller = asleep }
  ]
