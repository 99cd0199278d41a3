-- ===== src/Pipeline/Reclaimed.antt =====
-- What reclaiming a reaped operation leaves, and queueing its quiesce read.
use vdma.Prelude.{
  ◌==◌, ℕ, suc, ◌+◌, ◌≡◌, refl, List, [], ◌∷◌, ◌++◌, some, arith, count, count-append, Bool-cases,
  inl, inr, length, ap,
}
use vdma.HashMap.{remove, get}
use vdma.Transfer.{InFlight}
use vdma.Posting.{Quiescing}
use vdma.Posting.Posted.{IsHeld-same}
use vdma.Worker.Accounts.{IsCounted-same}
use vdma.Pipeline.{Pipeline, endpoint}
use vdma.Pipeline.Places.{
  gather, count-gather, client_of, lease_of, live, hashing, leases, count-live,
}
use vdma.Pipeline.Sound.{IsSound, IsHolding}

-- What a removal takes out of a map, counted.
pub count-gather-remove :
    {A : Type 0} (i k : ℕ) (f : A → List ℕ) (a : A) (m : List (ℕ × A))
    → get k m ≡ some a
    → count i (gather (λ e. f e.1) m) ≡ count i (f a) + count i (gather (λ e. f e.1) (remove k m).0)
unfolding get remove
count-gather-remove i k f a [] h = cc
count-gather-remove i k f a ((j, w) ∷ m) h = elim (Bool-cases (j == k)) [
  | inl p ↦
      let found : w ≡ a = ground (arith, p, h) in
      rw (p, remove)
        (omega (arith, count-append i (f w) (gather (λ e. f e.1) m), ap (λ b. count i (f b)) found))
  | inr p ↦
      rw (p, remove)
        (omega (
          arith,
          count-append i (f w) (gather (λ e. f e.1) m),
          count-append i (f w) (gather (λ e. f e.1) (remove k m).0),
          count-gather-remove i k f a m (ground (arith, p, h)),
        ))
]

pub length-remove :
    {A : Type 0} (k : ℕ) (a : A) (m : List (ℕ × A))
    → get k m ≡ some a
    → length m ≡ suc (length (remove k m).0)
unfolding get remove
length-remove k a [] h = cc
length-remove k a ((j, w) ∷ m) h = ground (arith, h, length-remove k a m)

module _ {T : Type 0} where
  -- An operation that libfabric hands back is in hand.
  pub reclaimed-IsHolding :
      (ahead k : ℕ) (op : InFlight T) (s : Pipeline T)
      → get k s.flight ≡ some op
      → IsSound (suc ahead) s
      → IsHolding ahead op (record s { flight = (remove k s.flight).0 })
  reclaimed-IsHolding ahead k op s h v =
      let s' = record s { flight = (remove k s.flight).0 } in
      record {
        counted =
            IsCounted-same _ _ s.accounts s'.accounts refl refl
              (λ c. omega (
                arith,
                count-live c client_of s,
                count-live c client_of s',
                count-append c (client_of op) (live client_of s'),
                count-gather-remove c k client_of op s.flight h,
              ))
              v.counted;
        held =
            IsHeld-same [] _ _ (endpoint s)
              (λ i. omega (
                arith,
                count-live i lease_of s,
                count-live i lease_of s',
                count-append i (lease_of op) (leases s'),
                count-append i (live lease_of s) (hashing lease_of s),
                count-append i (live lease_of s') (hashing lease_of s'),
                count-gather-remove i k lease_of op s.flight h,
              ))
              v.held;
        depth = omega (arith, v.depth, length-remove k op s.flight h);
      }

  pub quiesce_queued-IsSound :
      (ahead : ℕ) (w : Quiescing T) (s : Pipeline T)
      → IsHolding ahead w.inflight s
      → IsSound ahead (record s { quiescing = s.quiescing ++ w ∷ [] })
  quiesce_queued-IsSound ahead w s v =
      let s' = record s { quiescing = s.quiescing ++ w ∷ [] } in
      record {
        counted =
            IsCounted-same _ _ s.accounts s'.accounts refl refl
              (λ c. omega (
                arith,
                count-live c client_of s,
                count-live c client_of s',
                count-append c (client_of w.inflight) (live client_of s),
                count-gather c (λ q. client_of q.inflight) s.quiescing (w ∷ []),
                count-append c (client_of w.inflight) [],
              ))
              v.counted;
        held =
            IsHeld-same [] _ _ (endpoint s)
              (λ i. omega (
                arith,
                count-live i lease_of s,
                count-live i lease_of s',
                count-append i (lease_of w.inflight) (leases s),
                count-append i (live lease_of s) (hashing lease_of s),
                count-append i (live lease_of s') (hashing lease_of s'),
                count-gather i (λ q. lease_of q.inflight) s.quiescing (w ∷ []),
                count-append i (lease_of w.inflight) [],
              ))
              v.held;
        depth = v.depth;
      }
