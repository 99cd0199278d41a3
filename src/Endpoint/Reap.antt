-- ===== src/Endpoint/Reap.antt =====
-- How an endpoint reaps its completion queue, crates/dma-libfabric/src/endpoint.rs. The answers
-- of `fi_cq_read` and `fi_cq_readerr` are parameters: those of the nth turn of the loop.
pub mod Turns
pub mod Bounds
use vdma.Prelude.{
  ◌≢◌, ℕ, zero, suc, ◌+◌, ◌-◌, ◌≤◌, ◌<◌, ◌≡◌, refl, min, List, [], ◌∷◌, ◌++◌, Option, none, some,
  Bool, true, false, arith, ltb, if◌then◌else◌, length, length-append, Bool-cases, inl, inr, ap,
  ◌∙◌, ◌⊎◌, sym,
}
use vdma.Prelude.Int.{ℤ, pos, negsuc, is_negative, is_positive, magnitude}
use vdma.Errors.{Result, ok, err, DmaError, fabric, text, fabric_error, Result-cases}

-- What a turn reads: a code, the contexts read, which are null or a number, and what
-- `fi_cq_readerr` would give.
pub record CqRead : Type 0 where
  pub read : ℤ
  pub entries : List (Option ℕ)
  pub error_read : ℤ
  pub error_context : Option ℕ
  pub completion_error : DmaError

abbrev pub Reaped : Type 0
Reaped = ℕ × Result (Unit {0}) DmaError

abbrev pub batch : ℕ
batch = 16

unfoldable pub non_null_context : Option ℕ → Result ℕ DmaError
non_null_context none = err (fabric (text "completion carried a null op_context"))
non_null_context (some context) = ok context

unfoldable pub read_error : CqRead → Result (Option ℕ × Result (Unit {0}) DmaError) DmaError
read_error answer =
    if is_positive answer.error_read
    then ok (answer.error_context, err answer.completion_error)
    else err (fabric_error answer.error_read "fi_cq_readerr")

-- How a turn of the loop ends.
pub data Turn : Type 0 where
  goes : Turn
  breaks : Turn
  fails : DmaError → Turn

-- The entries read, up to one with a null context.
unfoldable pub push_entries : ℕ → List (Option ℕ) → List Reaped → List Reaped × Turn
unfolding non_null_context
push_entries zero entries out = (out, goes)
push_entries (suc n) [] out = (out, goes)
push_entries (suc n) (entry ∷ entries) out = elim (non_null_context entry) [
  | err e ↦ (out, fails e)
  | ok context ↦ push_entries n entries (out ++ (context, ok tt) ∷ [])
]

unfoldable pub push_error : CqRead → List Reaped → List Reaped × Turn
unfolding read_error non_null_context
push_error answer out = elim (read_error answer) [
  | err e ↦ (out, fails e)
  | ok (entry, result) ↦ elim (non_null_context entry) [
    | err e ↦ (out, fails e)
    | ok context ↦ (out ++ (context, result) ∷ [], goes)
  ]
]

module _ (fi_eagain fi_eavail : ℕ) where
  unfoldable pub turn : CqRead → List Reaped → List Reaped × Turn
  unfolding push_entries push_error
  turn answer out =
      if is_positive answer.read
      then push_entries (magnitude answer.read) answer.entries out
      else if is_negative fi_eagain answer.read
      then (out, breaks)
      else if is_negative fi_eavail answer.read
      then push_error answer out
      else (out, fails (fabric_error answer.read "fi_cq_read"))

  -- `fuel` bounds the turns; the nth turn reads `min batch (max - length out)` at most. None stands
  -- for a loop that goes on after as many turns.
  unfoldable pub reap_from :
      (ℕ → ℕ → CqRead) → ℕ → ℕ → ℕ → List Reaped → Option (List Reaped × Result (Unit {0}) DmaError)
  unfolding turn
  reap_from fi_cq_read zero n max out = if ltb (length out) max then none else some (out, ok tt)
  reap_from fi_cq_read (suc fuel) n max out =
      let (out', end) = turn (fi_cq_read n (min batch (max - length out))) out in
      if ltb (length out) max
      then elim end [
        | goes ↦ reap_from fi_cq_read fuel (suc n) max out'
        | breaks ↦ some (out', ok tt)
        | fails e ↦ some (out', err e)
      ]
      else some (out, ok tt)

  unfoldable pub reap :
      (ℕ → ℕ → CqRead) → List Reaped → ℕ → Option (List Reaped × Result (Unit {0}) DmaError)
  unfolding reap_from
  reap fi_cq_read out max = reap_from fi_cq_read (max - length out) 0 max out

  -- What libfabric documents: it reads no more than it was asked for, and fills the entries.
  abbrev pub Documented : (ℕ → ℕ → CqRead) → Type 0
  Documented fi_cq_read =
      (n want : ℕ)
      → (magnitude (fi_cq_read n want).read ≤ want)
        × (length (fi_cq_read n want).entries ≡ magnitude (fi_cq_read n want).read)
