-- ===== src/Endpoint/Reap/Turns.antt =====
-- What a turn of the reap's loop appends, and how it ends.
use vdma.Prelude.{
  ◌≢◌, ℕ, zero, suc, ◌+◌, ◌-◌, ◌≤◌, ◌<◌, ◌≡◌, refl, min, List, [], ◌∷◌, ◌++◌, Option, none, some,
  true, false, map, ap, ◌∙◌, sym, Option-cases, arith, length, length-append, Bool-cases, inl, inr,
  ◌⊎◌,
}
use vdma.Prelude.Int.{is_negative, is_positive, magnitude}
use mathlib.Core.List.{append_assoc, append-nil}
use vdma.Errors.{Result, ok, err, DmaError}
use vdma.Endpoint.Reap.{
  CqRead, Reaped, Turn, goes, breaks, fails, batch, non_null_context, read_error, push_entries,
  push_error, turn,
}

push_entries_length :
    (n : ℕ) (entries : List (Option ℕ)) (out : List Reaped)
    → length (push_entries n entries out).0 ≤ length out + n
unfolding push_entries non_null_context
push_entries_length zero entries out = ground arith
push_entries_length (suc n) [] out = ground arith
push_entries_length (suc n) (none ∷ entries) out = ground arith
push_entries_length (suc n) (some c ∷ entries) out = omega (
  arith,
  push_entries_length n entries (out ++ (c, ok tt) ∷ []),
  length-append out ((c, ok tt) ∷ []),
)

push_entries-goes :
    (n : ℕ) (entries : List (Option ℕ)) (out : List Reaped)
    → length entries ≡ n
    → (push_entries n entries out).1 ≡ goes
    → length (push_entries n entries out).0 ≡ length out + n
unfolding push_entries non_null_context
push_entries-goes zero entries out h g = ground arith
push_entries-goes (suc n) [] out h g = absurd (ground (arith, h))
push_entries-goes (suc n) (none ∷ entries) out h g = cc
push_entries-goes (suc n) (some c ∷ entries) out h g = omega (
  arith,
  push_entries-goes n entries (out ++ (c, ok tt) ∷ []) (omega (arith, h)) g,
  length-append out ((c, ok tt) ∷ []),
)

push_error_length :
    (answer : CqRead) (out : List Reaped) → length (push_error answer out).0 ≤ length out + 1
unfolding push_error read_error non_null_context
push_error_length answer out = ground (
  arith,
  length-append out
      ((elim answer.error_context [ none ↦ 0 | some c ↦ c ], err answer.completion_error) ∷ []),
)

push_error-goes :
    (answer : CqRead) (out : List Reaped)
    → (push_error answer out).1 ≡ goes
    → length (push_error answer out).0 ≡ length out + 1
unfolding push_error read_error non_null_context
push_error-goes answer out h = ground (
  arith,
  length-append out
      ((elim answer.error_context [ none ↦ 0 | some c ↦ c ], err answer.completion_error) ∷ []),
)

push_error-breaks : (answer : CqRead) (out : List Reaped) → (push_error answer out).1 ≢ breaks
unfolding push_error read_error non_null_context
push_error-breaks answer out h = ground arith

push_entries-breaks :
    (n : ℕ) (entries : List (Option ℕ)) (out : List Reaped)
    → (push_entries n entries out).1 ≢ breaks
unfolding push_entries non_null_context
push_entries-breaks zero entries out h = cc
push_entries-breaks (suc n) [] out h = cc
push_entries-breaks (suc n) (none ∷ entries) out h = cc
push_entries-breaks (suc n) (some c ∷ entries) out h =
    push_entries-breaks n entries (out ++ (c, ok tt) ∷ []) h

pub Turn-cases : (t : Turn) → (t ≡ goes) ⊎ (t ≡ breaks) ⊎ ((e : DmaError) × (t ≡ fails e))
Turn-cases goes = inl refl
Turn-cases breaks = inr (inl refl)
Turn-cases (fails e) = inr (inr (e, refl))

-- An operation that was completed.
abbrev pub succeeded : ℕ → Reaped
succeeded context = (context, ok tt)

module _ (fi_eagain fi_eavail : ℕ) where
  -- A turn that was asked for `want` completions appends at most that many, and one at least if
  -- the loop goes on; it breaks only if nothing was ready.
  pub record Turned (answer : CqRead) (want : ℕ) (out : List Reaped) (after : List Reaped × Turn)
      : Type 0 where
    pub bounded : length after.0 ≤ length out + want
    pub moved : (after.1 ≡ goes) → length out < length after.0
    pub empty : (after.1 ≡ breaks) → is_negative fi_eagain answer.read ≡ true

  pub turn-Turned :
      (answer : CqRead) (want : ℕ) (out : List Reaped)
      → 0 < want
      → magnitude answer.read ≤ want
      → length answer.entries ≡ magnitude answer.read
      → Turned answer want out (turn fi_eagain fi_eavail answer out)
  unfolding turn
  turn-Turned answer want out w m l = record {
    bounded = ground (
      arith,
      w,
      m,
      push_entries_length (magnitude answer.read) answer.entries out,
      push_error_length answer out,
    );
    moved = λ g. ground (
      arith,
      g,
      push_entries-goes (magnitude answer.read) answer.entries out l,
      push_error-goes answer out,
    );
    empty = λ g. ground (
      arith,
      g,
      push_entries-breaks (magnitude answer.read) answer.entries out,
      push_error-breaks answer out,
    );
  }

  -- How the nth read, of at most `want` completions, is answered when it ends the reap.
  abbrev pub EndsWith : CqRead → List Reaped → List Reaped × Result (Unit {0}) DmaError → Type 0
  EndsWith answer out (out', ok _) = (is_negative fi_eagain answer.read ≡ true) × (out' ≡ out)
  EndsWith answer out (out', err e) =
      ((before : List ℕ) × (after : List (Option ℕ)) × (answer.entries
          ≡ map some before ++ none ∷ after)
        × (is_positive answer.read ≡ true)
        × (out' ≡ out ++ map succeeded before))
      ⊎ ((is_positive answer.read ≡ false)
          × (is_negative fi_eagain answer.read ≡ false)
          × (out' ≡ out))

  -- And what it appends when it does not: the contexts read, all of them, or the one that failed.
  abbrev pub Appends : CqRead → List Reaped → List Reaped → Type 0
  Appends answer out out' =
      ((contexts : List ℕ) × (answer.entries ≡ map some contexts)
        × (is_positive answer.read ≡ true)
        × (out' ≡ out ++ map succeeded contexts))
      ⊎ ((context : ℕ) × (answer.error_context ≡ some context)
          × (is_negative fi_eavail answer.read ≡ true)
          × (out' ≡ out ++ (context, err answer.completion_error) ∷ []))

  -- A reap from the nth read on, as the sequence of its reads.
  pub data Reads (fi_cq_read : ℕ → ℕ → CqRead) (max : ℕ)
      : ℕ → List Reaped → List Reaped × Result (Unit {0}) DmaError → Type 0 where
    full : (n : ℕ) (out : List Reaped) → length out ≡ max → Reads fi_cq_read max n out (out, ok tt)
    ends :
        (n : ℕ) (out : List Reaped) (r : List Reaped × Result (Unit {0}) DmaError)
        → length out < max
        → EndsWith (fi_cq_read n (min batch (max - length out))) out r
        → Reads fi_cq_read max n out r
    goes_on :
        (n : ℕ) (out out' : List Reaped) (r : List Reaped × Result (Unit {0}) DmaError)
        → length out < max
        → Appends (fi_cq_read n (min batch (max - length out))) out out'
        → Reads fi_cq_read max (suc n) out' r
        → Reads fi_cq_read max n out r

  -- What the entries read give, up to one that is null.
  Pushed : List (Option ℕ) → List Reaped → List Reaped × Turn → Type 0
  Pushed entries out (out', goes) =
      (contexts : List ℕ) × (entries ≡ map some contexts) × (out' ≡ out ++ map succeeded contexts)
  Pushed entries out (out', breaks) = true ≡ false
  Pushed entries out (out', fails e) =
      (before : List ℕ) × (after : List (Option ℕ)) × (entries ≡ map some before ++ none ∷ after)
      × (out' ≡ out ++ map succeeded before)

  Pushed-cons :
      (c : ℕ) (entries : List (Option ℕ)) (out : List Reaped) (r : List Reaped × Turn)
      → Pushed entries (out ++ succeeded c ∷ []) r
      → Pushed (some c ∷ entries) out r
  unfolding Pushed
  Pushed-cons c entries out (out', goes) (contexts, e, o) = (
    c ∷ contexts,
    ap (λ l. some c ∷ l) e,
    o ∙ append_assoc out (succeeded c ∷ []) (map succeeded contexts),
  )
  Pushed-cons c entries out (out', breaks) h = h
  Pushed-cons c entries out (out', fails e) (before, after, k, o) = (
    c ∷ before,
    after,
    ap (λ l. some c ∷ l) k,
    o ∙ append_assoc out (succeeded c ∷ []) (map succeeded before),
  )

  push_entries-Pushed :
      (n : ℕ) (entries : List (Option ℕ)) (out : List Reaped)
      → length entries ≡ n
      → Pushed entries out (push_entries n entries out)
  unfolding Pushed push_entries non_null_context
  push_entries-Pushed zero [] out h = ([], refl, sym (append-nil out))
  push_entries-Pushed zero (e ∷ entries) out h = absurd (omega (arith, h))
  push_entries-Pushed (suc n) [] out h = absurd (omega (arith, h))
  push_entries-Pushed (suc n) (none ∷ entries) out h = ([], entries, refl, sym (append-nil out))
  push_entries-Pushed (suc n) (some c ∷ entries) out h =
      Pushed-cons c entries out _
        (push_entries-Pushed n entries (out ++ succeeded c ∷ []) (omega (arith, h)))

  unfoldable pub TurnOf : CqRead → List Reaped → List Reaped × Turn → Type 0
  TurnOf answer out (out', goes) = Appends answer out out'
  TurnOf answer out (out', breaks) = EndsWith answer out (out', ok tt)
  TurnOf answer out (out', fails e) = EndsWith answer out (out', err e)

  Pushed-TurnOf :
      (answer : CqRead) (out : List Reaped) (r : List Reaped × Turn)
      → is_positive answer.read ≡ true
      → Pushed answer.entries out r
      → TurnOf answer out r
  unfolding Pushed TurnOf
  Pushed-TurnOf answer out (out', goes) p (contexts, e, o) = inl (contexts, e, p, o)
  Pushed-TurnOf answer out (out', breaks) p h = absurd (cc)
  Pushed-TurnOf answer out (out', fails e) p (before, after, k, o) = inl (before, after, k, p, o)

  push_error-TurnOf :
      (answer : CqRead) (out : List Reaped)
      → is_positive answer.read ≡ false
      → is_negative fi_eagain answer.read ≡ false
      → is_negative fi_eavail answer.read ≡ true
      → TurnOf answer out (push_error answer out)
  unfolding TurnOf push_error read_error non_null_context
  push_error-TurnOf answer out p a v = elim (Bool-cases (is_positive answer.error_read)) [
    | inr q ↦ rw (q, push_error) (inr (p, a, refl))
    | inl q ↦ elim (Option-cases answer.error_context) [
      | inl c ↦ rw (q, c, push_error) (inr (p, a, refl))
      | inr (context, c) ↦ rw (q, c, push_error) (inr (context, refl, v, refl))
    ]
  ]

  pub turn-TurnOf :
      (answer : CqRead) (out : List Reaped)
      → length answer.entries ≡ magnitude answer.read
      → TurnOf answer out (turn fi_eagain fi_eavail answer out)
  unfolding TurnOf turn
  turn-TurnOf answer out l = elim (Bool-cases (is_positive answer.read)) [
    | inl p ↦
        rw (p, turn)
          (Pushed-TurnOf answer out _ p
            (push_entries-Pushed (magnitude answer.read) answer.entries out l))
    | inr p ↦ elim (Bool-cases (is_negative fi_eagain answer.read)) [
      | inl a ↦ rw (p, a, turn) (a, refl)
      | inr a ↦ elim (Bool-cases (is_negative fi_eavail answer.read)) [
        | inl v ↦ rw (p, a, v, turn) (push_error-TurnOf answer out p a v)
        | inr v ↦ rw (p, a, v, turn) (inr (p, a, refl))
      ]
    ]
  ]
