-- ===== src/Pipeline/Places.antt =====
-- Where the worker's operations are, and what they hold there.
use vdma.Prelude.{ℕ, ◌+◌, ◌≡◌, List, [], ◌∷◌, ◌++◌, arith, count, count-append, map, refl, ap}
use vdma.HashMap.{the_value}
use vdma.Transfer.{InFlight, Prepared}
use vdma.Pipeline.{Pipeline, pop_pending}

module _ {ℓ} {A : Type ℓ} where
  abbrev pub gather : (A → List ℕ) → List A → List ℕ
  gather f [] = []
  gather f (x ∷ xs) = f x ++ gather f xs

  pub count-gather :
      (i : ℕ) (f : A → List ℕ) (xs ys : List A)
      → count i (gather f (xs ++ ys)) ≡ count i (gather f xs) + count i (gather f ys)
  count-gather i f [] ys = ground arith
  count-gather i f (x ∷ xs) ys = omega (
    arith,
    count-gather i f xs ys,
    count-append i (f x) (gather f (xs ++ ys)),
    count-append i (f x) (gather f xs),
  )

pub gather-map :
    {A B : Type 0} (f : B → List ℕ) (g : A → B) (xs : List A)
    → gather f (map g xs) ≡ gather (λ x. f (g x)) xs
gather-map f g [] = refl
gather-map f g (x ∷ xs) = ap (λ l. f (g x) ++ l) (gather-map f g xs)

module _ {T : Type 0} where
  abbrev pub client_of : InFlight T → List ℕ
  client_of op = op.client_id ∷ []

  abbrev pub lease_of : InFlight T → List ℕ
  lease_of op = the_value op.local_lease

  -- Of the operations that are not finished: those queued, those that wait to be quiesced, and those
  -- that libfabric has.
  abbrev pub live : (InFlight T → List ℕ) → Pipeline T → List ℕ
  live f s =
      gather (λ p. f p.context) s.accounts.pending
      ++ (gather (λ q. f q.inflight) s.quiescing ++ gather (λ e. f e.1) s.flight)

  -- Of those that wait for their checksum, here and with the pool.
  abbrev pub hashing : (InFlight T → List ℕ) → Pipeline T → List ℕ
  hashing f s = gather (λ o. f o.0) s.crc_pending ++ gather (gather (λ o. f o.0)) s.submitted

  abbrev pub leases : Pipeline T → List ℕ
  leases s = live lease_of s ++ hashing lease_of s

  pub count-live :
      (i : ℕ) (f : InFlight T → List ℕ) (s : Pipeline T)
      → count i (live f s)
        ≡ count i (gather (λ p. f p.context) s.accounts.pending)
          + count i (gather (λ q. f q.inflight) s.quiescing)
          + count i (gather (λ e. f e.1) s.flight)
  count-live i f s = omega (
    arith,
    count-append i (gather (λ p. f p.context) s.accounts.pending)
        (gather (λ q. f q.inflight) s.quiescing ++ gather (λ e. f e.1) s.flight),
    count-append i (gather (λ q. f q.inflight) s.quiescing) (gather (λ e. f e.1) s.flight),
  )

  pub count-hashing :
      (i : ℕ) (f : InFlight T → List ℕ) (s : Pipeline T)
      → count i (hashing f s)
        ≡ count i (gather (λ o. f o.0) s.crc_pending)
          + count i (gather (gather (λ o. f o.0)) s.submitted)
  count-hashing i f s =
      count-append i (gather (λ o. f o.0) s.crc_pending) (gather (gather (λ o. f o.0)) s.submitted)

  -- One operation more at the end of the queue.
  pub count-live_queued :
      (i : ℕ) (f : InFlight T → List ℕ) (p : Prepared T) (s : Pipeline T)
      → count i (live f (pop_pending (s.accounts.pending ++ p ∷ []) s))
        ≡ count i (f p.context) + count i (live f s)
  count-live_queued i f p s = omega (
    arith,
    count-live i f s,
    count-live i f (pop_pending (s.accounts.pending ++ p ∷ []) s),
    count-gather i (λ q. f q.context) s.accounts.pending (p ∷ []),
    count-append i (f p.context) [],
  )
