-- ===== src/Pool/Jobs.antt =====
-- Every job runs, whichever thread it is sent to.
use vdma.Prelude.{
  subst, ap, ℕ, zero, suc, ◌+◌, ◌<◌, ◌%◌, ◌^◌, ◌≡◌, refl, max, List, [], ◌∷◌, ◌++◌, some, arith,
  count, count-append, length,
}
use native.Mathlib.Nat.{mod-lt}
use vdma.Pool.{
  Pool, channels, new_pool, with_channel, send_job, after_send, submit_job, recv, run_next,
  drained_channels, drop_pool,
}

-- A step, and the jobs that it submits: a submit, or a thread that takes its next job.
pub data Step : Pool → List ℕ → Pool → Type 0 where
  submits : (job : ℕ) (s t : Pool) → submit_job job s ≡ some t → Step s (job ∷ []) t
  runs : (index : ℕ) (s : Pool) → Step s [] (run_next index s)

pub data Reach (s : Pool) : List ℕ → Pool → Type 0 where
  here : Reach s [] s
  next :
      {earlier jobs : List ℕ} {t u : Pool}
      → Reach s earlier t
      → Step t jobs u
      → Reach s (earlier ++ jobs) u

-- The channels with one more job.
abbrev IsSent : ℕ → List (List ℕ) → List (List ℕ) → Type 0
IsSent job senders senders' =
    (length senders' ≡ length senders)
    × ((j : ℕ)
        → count j (drained_channels senders')
          ≡ count j (job ∷ []) + count j (drained_channels senders))

send_job-IsSent :
    (job index : ℕ) (senders : List (List ℕ))
    → index < length senders
    → (senders' : List (List ℕ)) × ((send_job job index senders ≡ some senders')
        × IsSent job senders senders')
unfolding send_job with_channel drained_channels
send_job-IsSent job index [] h = elim h [ ]
send_job-IsSent job zero (c ∷ cs) h = (
  (c ++ job ∷ []) ∷ cs,
  (
    refl,
    (
      refl,
      λ j. omega (
        arith,
        count-append j (c ++ job ∷ []) (drained_channels cs),
        count-append j c (job ∷ []),
        count-append j c (drained_channels cs),
      ),
    ),
  ),
)
send_job-IsSent job (suc index) (c ∷ cs) h =
    let (cs', (e, (l, k))) = send_job-IsSent job index cs (omega (arith, h)) in
    (
      c ∷ cs',
      (
        rw (e, with_channel) refl,
        (
          omega (arith, l),
          λ j. omega (
            arith,
            k j,
            count-append j c (drained_channels cs),
            count-append j c (drained_channels cs'),
          ),
        ),
      ),
    )

recv-drained_channels :
    (index j : ℕ) (senders : List (List ℕ))
    → count j (recv index senders).0 + count j (drained_channels (recv index senders).1)
      ≡ count j (drained_channels senders)
unfolding recv drained_channels
recv-drained_channels index j [] = refl
recv-drained_channels zero j ([] ∷ cs) = omega arith
recv-drained_channels zero j ((job ∷ c) ∷ cs) = omega arith
recv-drained_channels (suc index) j (c ∷ cs) = omega (
  arith,
  recv-drained_channels index j cs,
  count-append j c (drained_channels cs),
  count-append j c (drained_channels (recv index cs).1),
)

length-recv : (index : ℕ) (senders : List (List ℕ)) → length (recv index senders).1 ≡ length senders
unfolding recv
length-recv index [] = refl
length-recv zero ([] ∷ cs) = refl
length-recv zero ((job ∷ c) ∷ cs) = refl
length-recv (suc index) (c ∷ cs) = omega (arith, length-recv index cs)

drained_channels-channels : (j threads : ℕ) → count j (drained_channels (channels threads)) ≡ 0
unfolding channels drained_channels
drained_channels-channels j zero = refl
drained_channels-channels j (suc threads) = drained_channels-channels j threads

length-channels : (threads : ℕ) → length (channels threads) ≡ threads
unfolding channels
length-channels zero = refl
length-channels (suc threads) = omega (arith, length-channels threads)

abbrev IsFull : List ℕ → Pool → Type 0
IsFull jobs pool = (0 < length pool.senders) × ((j : ℕ) → count j (drop_pool pool) ≡ count j jobs)

-- A submit finds a channel.
submit_job-IsSent :
    (job : ℕ) (s : Pool)
    → 0 < length s.senders
    → (t : Pool) × ((submit_job job s ≡ some t)
        × ((t.ran ≡ s.ran) × IsSent job s.senders t.senders))
unfolding submit_job after_send
submit_job-IsSent job s h =
    let (senders', (e, k)) =
      send_job-IsSent job (s.next % length s.senders) s.senders (mod-lt s.next h) in
    (
      record s { senders = senders'; next = (s.next + 1) % 2 ^ 64 },
      (rw (e, after_send) refl, (refl, k)),
    )

Step-IsFull :
    {s : Pool} {jobs : List ℕ} {t : Pool} (earlier : List ℕ)
    → Step s jobs t
    → IsFull earlier s
    → IsFull (earlier ++ jobs) t
unfolding drop_pool run_next
Step-IsFull earlier (submits job s t e) (h, full) =
    let (u, (e', (r, (l, k)))) = submit_job-IsSent job s h in
    let same : u ≡ t = cc in
    subst (IsFull (earlier ++ job ∷ [])) same (
      omega (arith, l, h),
      λ j. omega (
        arith,
        ap (λ ran. count j (ran ++ drained_channels u.senders)) r,
        full j,
        k j,
        count-append j s.ran (drained_channels s.senders),
        count-append j s.ran (drained_channels u.senders),
        count-append j u.ran (drained_channels u.senders),
        count-append j earlier (job ∷ []),
      ),
    )
Step-IsFull earlier (runs index s) (h, full) = (
  omega (arith, h, length-recv index s.senders),
  λ j. omega (
    arith,
    full j,
    recv-drained_channels index j s.senders,
    count-append j s.ran (drained_channels s.senders),
    count-append j (s.ran ++ (recv index s.senders).0) (drained_channels (recv index s.senders).1),
    count-append j s.ran (recv index s.senders).0,
    count-append j earlier [],
  ),
)

Reach-IsFull :
    (threads : ℕ) {jobs : List ℕ} {t : Pool} → Reach (new_pool threads) jobs t → IsFull jobs t
unfolding new_pool drop_pool
Reach-IsFull threads here = (
  omega (arith, length-channels (max threads 1)),
  λ j. drained_channels-channels j (max threads 1),
)
Reach-IsFull threads (next {earlier} r s) = Step-IsFull earlier s (Reach-IsFull threads r)

-- However many threads are asked for, and in whatever order they take their jobs, every job that
-- was submitted has run once when the pool's drop returns, and no other has; and until then a
-- submit finds a channel to send to.
pub jobs-Reach :
    (threads job : ℕ) {jobs : List ℕ} {t : Pool}
    → Reach (new_pool threads) jobs t
    → (count job (drop_pool t) ≡ count job jobs) × ((u : Pool) × (submit_job job t ≡ some u))
jobs-Reach threads job {t = t} r =
    let (h, full) = Reach-IsFull threads r in
    let (u, (e, _)) = submit_job-IsSent job t h in (full job, (u, e))
