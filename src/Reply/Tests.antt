-- ===== src/Reply/Tests.antt =====
-- Orders of the two ends at small inputs.
use vdma.Prelude.{ℕ, Option, some, none, ◌≡◌, ◌≢◌, refl, ◌⊎◌}
use vdma.Reply.{
  pending, answered, abandoned, running, asleep, returned, holding, notified, gone, Slot, reply,
  wake, settle, notify, drop_answer, look,
}
use vdma.Reply.Answers.{
  Step, settles, notifies, drops_unsent, drops, looks, stirs, Reach, here, next, slot, sent,
}
use vdma.Reply.Answers

program : Unit {0}
unfolding wake settle notify drop_answer look
program = tt

-- an_answer_arrives_out_of_order: the caller sleeps before the answer is sent.
abbrev answered_late : Slot ℕ
answered_late = slot pending (returned (some 7)) (notified 7)

answered_late-Reach : Reach reply answered_late
unfolding program
answered_late-Reach =
    next
      (next (next (next here (looks pending holding)) (settles pending asleep 7))
        (notifies (answered 7) asleep 7))
      (looks (answered 7) (notified 7))

returned-Reach_example :
    (◌≡◌ {A = Option ℕ} (some 7) (sent (notified 7))) × (answered_late.answer ≢ holding)
returned-Reach_example =
    Answers.returned-Reach {t = answered_late} (some 7) answered_late-Reach refl

-- a_dropped_answer_wakes_the_caller
abbrev dropped_unsent : Slot ℕ
dropped_unsent = slot abandoned running (gone none)

dropped_unsent-Reach : Reach reply dropped_unsent
unfolding program
dropped_unsent-Reach = next (next here (looks pending holding)) (drops_unsent pending asleep)

gone-Reach_example :
    (dropped_unsent.caller ≡ returned none)
    ⊎ ((dropped_unsent.caller ≡ running) × ((look dropped_unsent).caller ≡ returned none))
gone-Reach_example = Answers.gone-Reach {t = dropped_unsent} none dropped_unsent-Reach refl
