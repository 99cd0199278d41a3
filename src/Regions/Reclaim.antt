-- ===== src/Regions/Reclaim.antt =====
-- What `invalidate` and `clear_domain` do to the answers of `covering`.
use vdma.Prelude.{ℕ, ◌≤◌, ◌<◌, ◌≡◌, refl, ◌≢◌, ◌⊎◌, [], ◌∷◌, none, arith, ◌==◌, if◌then◌else◌}
use vdma.Regions.{
  RegionEntry, Regions, Registry, Cache, find_domain, lookup_registry, covering, invalidate,
  remove_domain, clear_domain,
}
use vdma.Regions.Retire.{AllSorted, survivors, retire-survivors}
use vdma.Regions.Lookup.{
  Answers, lookup_registry_answer, lookup-survivors-none, lookup-survivors_apart, covering-lookup,
}

pub registry-invalidate :
    (a b : ℕ) (c : Cache)
    → AllSorted c.registry
    → (invalidate a b c).registry ≡ survivors a b c.registry
unfolding invalidate
registry-invalidate a b c s = rw (retire-survivors a b c.registry s)

-- If each domain's entries are sorted by base, then after `invalidate` over a range no operand with a byte in it finds a registration, on any
-- domain.
pub covering-invalidate :
    (a b start end d : ℕ) (c : Cache)
    → AllSorted c.registry
    → a < end
    → start < b
    → (covering start end d (invalidate a b c)).0 ≡ none
covering-invalidate a b start end d c s h k =
    rw (covering-lookup, registry-invalidate a b c s)
      (lookup-survivors-none a b start end d c.registry h k)

-- If each domain's entries are sorted by base, an operand that is answered from an entry which
-- shares no byte with the range is answered alike after `invalidate` over that range.
pub covering-invalidate_apart :
    (a b start end d : ℕ) (c : Cache) (m : Regions) (x : ℕ × RegionEntry)
    → AllSorted c.registry
    → Answers start end d c.registry m x
    → (x.1.end ≤ a) ⊎ (b ≤ x.0)
    → (covering start end d (invalidate a b c)).0 ≡ (covering start end d c).0
covering-invalidate_apart a b start end d c m x s ans h =
    rw
      (
        covering-lookup start end d (invalidate a b c),
        covering-lookup start end d c,
        registry-invalidate a b c s,
        lookup-survivors_apart a b start end d c.registry m x s ans (ground arith),
        lookup_registry_answer start end d c.registry m x ans,
      )
      refl

-- No two parts of the registry are for the same domain.
abbrev pub Absent : ℕ → Registry → Type 0
Absent d [] = Unit {0}
Absent d (x ∷ xs) = (x.domain ≢ d) × Absent d xs

abbrev pub AllDistinct : Registry → Type 0
AllDistinct [] = Unit {0}
AllDistinct (x ∷ xs) = Absent x.domain xs × AllDistinct xs

find_domain-Absent : (d : ℕ) (xs : Registry) → Absent d xs → find_domain d xs ≡ none
unfolding find_domain
find_domain-Absent d [] a = refl
find_domain-Absent d (x ∷ xs) a = ground (arith, find_domain-Absent d xs a.1)

find_domain-remove_domain :
    (d k : ℕ) (xs : Registry)
    → AllDistinct xs
    → find_domain k (remove_domain d xs).0 ≡ (if k == d then none else find_domain k xs)
unfolding find_domain remove_domain
find_domain-remove_domain d k [] h = ground arith
find_domain-remove_domain d k (x ∷ xs) h =
    ground (arith, find_domain-remove_domain d k xs h.1, find_domain-Absent x.domain xs h.0)

lookup-remove_domain :
    (d start end k : ℕ) (xs : Registry)
    → AllDistinct xs
    → lookup_registry start end k (remove_domain d xs).0
      ≡ (if k == d then none else lookup_registry start end k xs)
unfolding lookup_registry
lookup-remove_domain d start end k xs h = ground (arith, find_domain-remove_domain d k xs h)

-- If no two parts of the registry are for one domain, `clear_domain` leaves a domain with no registration to find, and every other domain's lookups
-- as they were.
pub covering-clear_domain :
    (d start end k : ℕ) (c : Cache)
    → AllDistinct c.registry
    → (covering start end k (clear_domain d c)).0
      ≡ (if k == d then none else (covering start end k c).0)
unfolding clear_domain
covering-clear_domain d start end k c h =
    rw (covering-lookup start end k (clear_domain d c), covering-lookup start end k c)
      (lookup-remove_domain d start end k c.registry h)
