-- ===== src/Regions.antt =====
-- The process-wide cache of operand registrations, crates/dma-libfabric/src/region_cache.rs.
-- A registration's `Arc` is a number of the store `arcs`; the memory that libfabric mapped for it
-- is what `fi_mr_reg` was called with. The mutex is held for the length of each function here.
pub mod Retire
pub mod Lookup
pub mod Reclaim
pub mod Track
pub mod Shape
pub mod Valid
pub mod Threads
pub mod Operand
pub mod Serve
pub mod Pinned
mod Tests
pub mod Leases
use vdma.Prelude.{
  ℕ, ◌≤◌, List, [], ◌∷◌, ◌++◌, Option, none, some, Bool, ◌&&◌, map, ltb, leb, ◌==◌, if◌then◌else◌,
  keep, length,
}
use vdma.Arc.{Store}
use vdma.Arc
use vdma.BTree.{insert, remove, last_upto, range_below}

-- What `fi_mr_reg` was given: the domain, and the extent from `base` up to `limit`.
pub record MemoryRegion : Type 0 where
  pub domain : ℕ
  pub base : ℕ
  pub limit : ℕ

pub record Registration : Type 0 where
  pub memory_region : MemoryRegion

-- `registration` is a clone of the `Arc`.
pub record RegionEntry : Type 0 where
  pub end : ℕ
  pub registration : ℕ

abbrev pub Regions : Type 0
Regions = List (ℕ × RegionEntry)

pub record DomainRegions : Type 0 where
  pub domain : ℕ
  pub regions : Regions

abbrev pub Registry : Type 0
Registry = List DomainRegions

pub record Cache : Type 0 where
  pub registry : Registry
  pub arcs : Store Registration

-- `Registration::new`. The caller holds the one clone.
unfoldable pub new_registration : MemoryRegion → Cache → ℕ × Cache
unfolding Arc.new
new_registration mr c =
    (length c.arcs.values, record c { arcs = Arc.new (record { memory_region = mr }) c.arcs })

-- The registrations of `domain`, empty on first use, with what is done to them through the
-- borrow.
unfoldable pub domain_regions {ℓ} :
    {R : Type ℓ} → ℕ → (Regions → Regions × R) → Registry → Registry × R
domain_regions d f [] = let (m, r) = f [] in (record { domain = d; regions = m } ∷ [], r)
domain_regions d f (x ∷ xs) =
    let rest = domain_regions d f xs in
    let (m, r) = f x.regions in
    if x.domain == d then (record x { regions = m } ∷ xs, r) else (x ∷ rest.0, rest.1)

abbrev pub drop_replaced : Option RegionEntry → Store Registration → Store Registration
drop_replaced none s = s
drop_replaced (some e) s = Arc.release e.registration s

-- The caller keeps its own clone of the registration.
unfoldable pub track : ℕ → ℕ → ℕ → ℕ → Cache → Cache
unfolding domain_regions
track base end domain registration c =
    let entry : RegionEntry = record { end = end; registration = registration } in
    let (registry, replaced) = domain_regions domain (insert base entry) c.registry in
    record { registry = registry; arcs = drop_replaced replaced (Arc.clone registration c.arcs) }

-- `iter().find(|entry| entry.domain == domain)`.
unfoldable pub find_domain : ℕ → Registry → Option Regions
find_domain d [] = none
find_domain d (x ∷ xs) =
    let rest = find_domain d xs in if x.domain == d then some x.regions else rest

-- The registration whose entry starts last at or before `start`, if it reaches `end`.
unfoldable pub lookup_regions : ℕ → ℕ → Regions → Option ℕ
lookup_regions start end m = elim (last_upto start m) [
  | none ↦ none
  | some (base, entry) ↦
      if leb base start && leb end entry.end then some entry.registration else none
]

unfoldable pub lookup_registry : ℕ → ℕ → ℕ → Registry → Option ℕ
unfolding find_domain lookup_regions
lookup_registry start end domain registry = elim (find_domain domain registry) [
  | none ↦ none
  | some m ↦ lookup_regions start end m
]

-- A lease is a clone of the registration that was found.
unfoldable pub covering : ℕ → ℕ → ℕ → Cache → Option ℕ × Cache
unfolding lookup_registry
covering start end domain c = elim (lookup_registry start end domain c.registry) [
  | none ↦ (none, c)
  | some r ↦ (some r, record c { arcs = Arc.clone r c.arcs })
]

-- The bases of the entries that overlap the range.
unfoldable pub overlapping_bases : ℕ → ℕ → Regions → List ℕ
overlapping_bases start end m = map (λ e. e.0) (keep (λ e. ltb start e.1.end) (range_below end m))

unfoldable pub remove_bases : List ℕ → Regions → Regions × List ℕ
remove_bases [] m = (m, [])
remove_bases (b ∷ bs) m =
    let (m', removed) = remove b m in
    let (m'', retired) = remove_bases bs m' in
    elim removed [ none ↦ (m'', retired) | some e ↦ (m'', e.registration ∷ retired) ]

-- The loop of `invalidate` over the domains: the registry, and the registrations retired.
unfoldable pub retire : ℕ → ℕ → Registry → Registry × List ℕ
unfolding overlapping_bases remove_bases
retire start end [] = ([], [])
retire start end (x ∷ xs) =
    let (m, retired) = remove_bases (overlapping_bases start end x.regions) x.regions in
    let (registry, later) = retire start end xs in
    (record x { regions = m } ∷ registry, retired ++ later)

unfoldable pub invalidate : ℕ → ℕ → Cache → Cache
unfolding retire
invalidate start end c =
    let (registry, retired) = retire start end c.registry in
    record { registry = registry; arcs = Arc.release_all retired c.arcs }

-- The registrations of a map's entries, in key order.
abbrev pub registrations : Regions → List ℕ
registrations = map (λ e. e.1.registration)

-- `position`, `remove` and `into_values`.
unfoldable pub remove_domain : ℕ → Registry → Registry × List ℕ
remove_domain d [] = ([], [])
remove_domain d (x ∷ xs) =
    let (registry, retired) = remove_domain d xs in
    if x.domain == d then (xs, registrations x.regions) else (x ∷ registry, retired)

unfoldable pub clear_domain : ℕ → Cache → Cache
unfolding remove_domain
clear_domain domain c =
    let (registry, retired) = remove_domain domain c.registry in
    record { registry = registry; arcs = Arc.release_all retired c.arcs }

-- A holder lets go of its clone.
unfoldable pub drop_lease : ℕ → Cache → Cache
drop_lease r c = record c { arcs = Arc.release r c.arcs }
