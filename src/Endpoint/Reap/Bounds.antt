-- ===== src/Endpoint/Reap/Bounds.antt =====
-- A reap returns, and what it has reaped then.
use vdma.Prelude.{
  ℕ, zero, suc, ◌+◌, ◌-◌, ◌≤◌, ◌<◌, ◌≡◌, refl, min, List, Option, some, false, arith, ltb, ltb→lt,
  subst, length, Bool-cases, inl, inr,
}
use vdma.Errors.{Result, ok, err, DmaError}
use vdma.Endpoint.Reap.{CqRead, Reaped, batch, turn, reap_from, reap, Documented}
use vdma.Endpoint.Reap.Turns.{
  Turn-cases, turn-Turned, turn-TurnOf, TurnOf, EndsWith, Appends, Reads, full, ends, goes_on,
}

module _ (fi_eagain fi_eavail : ℕ) where
  -- What is said of a reap: it returns, with no more than `max`, and its reads are those.
  abbrev pub Reaps :
      (ℕ → ℕ → CqRead)
      → ℕ
      → ℕ
      → List Reaped
      → Option (List Reaped × Result (Unit {0}) DmaError)
      → Type 0
  Reaps fi_cq_read max n out reaped =
      (r : List Reaped × Result (Unit {0}) DmaError) × ((reaped ≡ some r)
        × ((length r.0 ≤ max) × Reads fi_eagain fi_eavail fi_cq_read max n out r))

  reap_from_lem :
      (fi_cq_read : ℕ → ℕ → CqRead) (fuel n max : ℕ) (out : List Reaped)
      → Documented fi_eagain fi_eavail fi_cq_read
      → length out ≤ max
      → max ≤ length out + fuel
      → Reaps fi_cq_read max n out (reap_from fi_eagain fi_eavail fi_cq_read fuel n max out)
  unfolding reap_from TurnOf
  reap_from_lem fi_cq_read zero n max out d l f =
      let p : ltb (length out) max ≡ false = ground (arith, l, f) in
      rw (p, reap_from) ((out, ok tt), (refl, (l, full n out (omega (arith, l, f)))))
  reap_from_lem fi_cq_read (suc fuel) n max out d l f = elim (Bool-cases (ltb (length out) max)) [
    | inr p ↦ rw (p, reap_from) ((out, ok tt), (refl, (l, full n out (ground (arith, l, p)))))
    | inl p ↦
        let want = min batch (max - length out) in
        let answer = fi_cq_read n want in
        let (m, entries) = d n want in
        let below : length out < max = ltb→lt (length out) max p in
        let t = turn-Turned fi_eagain fi_eavail answer want out (ground (arith, p)) m entries in
        let out' = (turn fi_eagain fi_eavail answer out).0 in
        let said = turn-TurnOf fi_eagain fi_eavail answer out entries in
        elim (Turn-cases (turn fi_eagain fi_eavail answer out).1) [
          | inl g ↦
              let (r, (e, (small, reads))) =
                reap_from_lem fi_cq_read fuel (suc n) max out' d (ground (arith, t.bounded, p))
                  (omega (arith, t.moved g, f)) in
              let appended : Appends fi_eagain fi_eavail answer out out' =
                subst (λ g. TurnOf fi_eagain fi_eavail answer out (out', g)) g said in
              rw (p, g, reap_from) (r, (e, (small, goes_on n out out' r below appended reads)))
          | inr (inl g) ↦
              let ended : EndsWith fi_eagain fi_eavail answer out (out', ok tt) =
                subst (λ g. TurnOf fi_eagain fi_eavail answer out (out', g)) g said in
              rw (p, g, reap_from)
                (
                  (out', ok tt),
                  (refl, (ground (arith, t.bounded, p), ends n out (out', ok tt) below ended)),
                )
          | inr (inr (e, g)) ↦
              let ended : EndsWith fi_eagain fi_eavail answer out (out', err e) =
                subst (λ g. TurnOf fi_eagain fi_eavail answer out (out', g)) g said in
              rw (p, g, reap_from)
                (
                  (out', err e),
                  (refl, (ground (arith, t.bounded, p), ends n out (out', err e) below ended)),
                )
        ]
  ]

  -- If `fi_cq_read` reads no more than it is asked for, as it is documented to, then a reap
  -- returns, whatever it is answered, after at most as many reads as `max` leaves room for. It
  -- appends the completions of its reads in their order and no other, up to `max` and never past
  -- it; and it stops only when it has that many, when its last read found none ready, with an error
  -- at a null pointer, behind the entries before it, or with an error of the queue.
  pub reap_lem :
      (fi_cq_read : ℕ → ℕ → CqRead) (out : List Reaped) (max : ℕ)
      → Documented fi_eagain fi_eavail fi_cq_read
      → length out ≤ max
      → Reaps fi_cq_read max 0 out (reap fi_eagain fi_eavail fi_cq_read out max)
  unfolding reap
  reap_lem fi_cq_read out max d l =
      reap_from_lem fi_cq_read (max - length out) 0 max out d l (omega (arith, l))
