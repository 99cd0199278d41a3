-- ===== src/Regions/Threads.antt =====
-- Threads that use the cache of crates/dma-libfabric/src/region_cache.rs, one locked operation
-- after another in any order. `leases` holds the clones that are not the registry's: those of
-- operands in flight, and of callers between two operations. By Rust's ownership a caller tracks
-- and drops only a clone that it has; it tracks an extent only for a registration that was mapped
-- over it, as crates/dma-libfabric/src/local_regions.rs does.
use vdma.Prelude.{
  ℕ, ◌<◌, ◌≡◌, List, [], ◌∷◌, ◌++◌, some, arith, count, length, count-append, ◌==◌, if◌then◌else◌,
}
use vdma.Regions.{
  MemoryRegion, Cache, new_registration, track, covering, invalidate, clear_domain, drop_lease,
}
use vdma.Regions.Leases.{held}
use vdma.Regions.Shape.{Mapped}
use vdma.Regions.Valid.{
  IsValid, empty, empty-IsValid, new_registration-IsValid, track-IsValid, covering-IsValid,
  invalidate-IsValid, clear_domain-IsValid, drop_lease-IsValid, IsValid-same, covering-Mapped,
}

pub record Process : Type 0 where
  pub cache : Cache
  pub leases : List ℕ

abbrev pub start : Process
start = record { cache = empty; leases = [] }

pub data Step : Process → Process → Type 0 where
  registers :
      (p : Process) (mr : MemoryRegion)
      → Step p (record {
        cache = (new_registration mr p.cache).1;
        leases = (new_registration mr p.cache).0 ∷ p.leases;
      })
  tracks :
      (p : Process) (base end d r : ℕ)
      → 0 < count r p.leases
      → Mapped p.cache.arcs.values d (base, record { end = end; registration = r })
      → Step p (record p { cache = track base end d r p.cache })
  covers :
      (p : Process) (start end d r : ℕ)
      → (covering start end d p.cache).0 ≡ some r
      → Step p (record { cache = (covering start end d p.cache).1; leases = r ∷ p.leases })
  invalidates :
      (p : Process) (start end : ℕ) → Step p (record p { cache = invalidate start end p.cache })
  clears : (p : Process) (d : ℕ) → Step p (record p { cache = clear_domain d p.cache })
  drops :
      (p : Process) (r : ℕ) (before after : List ℕ)
      → p.leases ≡ before ++ r ∷ after
      → Step p (record { cache = drop_lease r p.cache; leases = before ++ after })

pub data Reach (p : Process) : Process → Type 0 where
  here : Reach p p
  next : {q r : Process} → Reach p q → Step q r → Reach p r

Step-IsValid : {p q : Process} → Step p q → IsValid p.leases p.cache → IsValid q.leases q.cache
Step-IsValid (registers p mr) v = new_registration-IsValid mr p.leases p.cache v
Step-IsValid (tracks p base end d r h m) v = track-IsValid base end d r p.leases p.cache h m v
Step-IsValid (covers p start end d r h) v = covering-IsValid start end d r p.leases p.cache h v
Step-IsValid (invalidates p start end) v = invalidate-IsValid start end p.leases p.cache v
Step-IsValid (clears p d) v = clear_domain-IsValid d p.leases p.cache v
Step-IsValid (drops p r before after e) v = drop_lease-IsValid r (before ++ after) p.cache (
    IsValid-same p.leases (r ∷ before ++ after) p.cache
      (λ i. rw e (omega (arith, count-append i before (r ∷ after), count-append i before after))) v)

Reach-IsValid : {p q : Process} → IsValid p.leases p.cache → Reach p q → IsValid q.leases q.cache
Reach-IsValid v here = v
Reach-IsValid v (next r s) = Step-IsValid s (Reach-IsValid v r)

-- Whatever the threads do and in whatever order, a registration that was made has been closed
-- exactly once if neither the registry nor anyone else holds it, and never if one of them does.
pub closed-Reach :
    {p : Process} (r : ℕ)
    → Reach start p
    → r < length p.cache.arcs.values
    → count r p.cache.arcs.dropped
      ≡ (if count r (held p.cache.registry ++ p.leases) == 0 then 1 else 0)
closed-Reach {p} r reach made = ground (arith, (Reach-IsValid empty-IsValid reach).accounted r)

-- In every state that the threads reach, a registration that `covering` finds is mapped over the
-- operand on its domain, and stays open while the lease that comes with it is held: after any
-- steps at whose end somebody has the lease, it has not been closed.
pub covering-Reach :
    {p q : Process} (start' end d r : ℕ)
    → Reach start p
    → (covering start' end d p.cache).0 ≡ some r
    → Reach (record { cache = (covering start' end d p.cache).1; leases = r ∷ p.leases }) q
    → 0 < count r q.leases
    → Mapped p.cache.arcs.values d (start', record { end = end; registration = r })
      × (count r q.cache.arcs.dropped ≡ 0)
covering-Reach {p} {q} start' end d r reach found later held_on = (
  covering-Mapped start' end d r p.leases p.cache (Reach-IsValid empty-IsValid reach) found,
  ground (
    arith,
    count-append r (held q.cache.registry) q.leases,
    (Reach-IsValid
          (covering-IsValid start' end d r p.leases p.cache found
            (Reach-IsValid empty-IsValid reach))
          later).accounted
        r,
  ),
)
