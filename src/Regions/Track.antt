-- ===== src/Regions/Track.antt =====
-- What `covering` answers after `track`.
use mathlib.Core.Option.{get_or}
use vdma.Prelude.{ℕ, ◌≤◌, ◌<◌, ◌≡◌, refl, ◌⊎◌, [], ◌∷◌, some, none, arith, ◌≢◌, ◌==◌, if◌then◌else◌}
use vdma.BTree.{insert, last_upto, Above, IsSorted}
use vdma.Regions.{
  RegionEntry, Regions, Registry, Cache, find_domain, domain_regions, track, covering,
  lookup_registry,
}
use vdma.Regions.Lookup.{covering-lookup, lookup_registry_answer}

-- The registrations of a domain, empty before its first use.
abbrev pub regions_of : ℕ → Registry → Regions
regions_of d xs = get_or (find_domain d xs) []

find_domain-domain_regions {ℓ} :
    {R : Type ℓ} (d k : ℕ) (f : Regions → Regions × R) (xs : Registry)
    → find_domain k (domain_regions d f xs).0
      ≡ (if k == d then some (f (regions_of d xs)).0 else find_domain k xs)
unfolding find_domain domain_regions
find_domain-domain_regions d k f [] = ground arith
find_domain-domain_regions d k f (x ∷ xs) = ground (arith, find_domain-domain_regions d k f xs)

-- No other entry starts behind `base` and up to `start`.
abbrev pub NoneBetween : ℕ → ℕ → Regions → Type 0
NoneBetween base start [] = Unit {0}
NoneBetween base start ((j, w) ∷ m) = ((j ≤ base) ⊎ (start < j)) × NoneBetween base start m

pub last_upto-none :
    (base start : ℕ) (m : Regions)
    → Above base m
    → NoneBetween base start m
    → last_upto start m ≡ none
unfolding last_upto
last_upto-none base start [] a h = refl
last_upto-none base start (e ∷ m) a h = ground (arith, a.0, h.0)

last_upto-insert :
    (base start : ℕ) (w : RegionEntry) (m : Regions)
    → IsSorted m
    → NoneBetween base start m
    → base ≤ start
    → last_upto start (insert base w m).0 ≡ some (base, w)
unfolding last_upto insert
last_upto-insert base start w [] s h le = ground arith
last_upto-insert base start w ((j, v) ∷ m) s h le =
    ground (arith, h.0, last_upto-insert base start w m s.1 h.1, last_upto-none base start m)

registry-track :
    (base end d r : ℕ) (c : Cache)
    → (track base end d r c).registry
      ≡ (domain_regions d (insert base (record { end = end; registration = r })) c.registry).0
unfolding track
registry-track base end d r c = refl

pub find_domain-track :
    (base end d r k : ℕ) (c : Cache)
    → find_domain k (track base end d r c).registry ≡ (
        if k == d
        then some (insert base (record { end = end; registration = r }) (regions_of d c.registry)).0
        else find_domain k c.registry)
find_domain-track base end d r k c = rw (registry-track base end d r c) (
    find_domain-domain_regions d k (insert base (record { end = end; registration = r }))
      c.registry)

-- After `track` in a domain whose entries are sorted by base, an operand inside the tracked span finds the tracked registration, if no other
-- entry of the domain starts behind the span's base and up to the operand's start.
pub covering-track :
    (base end d r start limit : ℕ) (c : Cache)
    → IsSorted (regions_of d c.registry)
    → NoneBetween base start (regions_of d c.registry)
    → base ≤ start
    → limit ≤ end
    → (covering start limit d (track base end d r c)).0 ≡ some r
covering-track base end d r start limit c s h le ge =
    rw (covering-lookup start limit d (track base end d r c)) (
      lookup_registry_answer start limit d (track base end d r c).registry
        (insert base e (regions_of d c.registry)).0 (base, e)
        (
          ground (arith, find_domain-track base end d r d c),
          last_upto-insert base start e (regions_of d c.registry) s h le,
          le,
          ge,
        ))
  where
    e : RegionEntry
    e = record { end = end; registration = r }

-- Lookups on every other domain are as they were.
pub covering-track_other :
    (base end d r start limit k : ℕ) (c : Cache)
    → k ≢ d
    → (covering start limit k (track base end d r c)).0 ≡ (covering start limit k c).0
unfolding lookup_registry
covering-track_other base end d r start limit k c h =
    rw (covering-lookup start limit k (track base end d r c), covering-lookup start limit k c)
      (ground (arith, find_domain-track base end d r k c))
