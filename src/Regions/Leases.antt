-- ===== src/Regions/Leases.antt =====
-- The clones of a registration's `Arc`: those that the registry holds, and the leases that its
-- callers hold.
use vdma.Prelude.{
  ℕ, ◌+◌, ◌≤◌, ◌<◌, ◌≡◌, refl, List, [], ◌∷◌, ◌++◌, Bool, not, Option, some, none, arith, keep,
  count, count-append, length, sym, ◌∙◌,
}
use vdma.Arc.{Store, Balanced, Balanced-same}
use vdma.Arc
use vdma.BTree.{insert, last_upto}
use vdma.Regions.{
  MemoryRegion, Registration, RegionEntry, Regions, Registry, Cache, registrations,
  new_registration, domain_regions, track, drop_replaced, covering, lookup_registry, invalidate,
  remove_domain, clear_domain, drop_lease, find_domain,
}
use vdma.Regions.Lookup.{lookup_registry-cases, covering-lookup, covering_found}
use vdma.Regions.Retire.{
  AllSorted, overlaps, overlapped, surviving, survivors, retired, retire-survivors,
}

-- The clones in the registry.
abbrev pub held : Registry → List ℕ
held [] = []
held (x ∷ xs) = registrations x.regions ++ held xs

abbrev held_by : Option RegionEntry → List ℕ
held_by none = []
held_by (some e) = e.registration ∷ []

count-insert :
    (i base : ℕ) (e : RegionEntry) (m : Regions)
    → count i (registrations (insert base e m).0) + count i (held_by (insert base e m).1)
      ≡ count i (e.registration ∷ registrations m)
unfolding insert
count-insert i base e [] = ground arith
count-insert i base e ((j, w) ∷ m) = ground (arith, count-insert i base e m)

count-track :
    (i d base : ℕ) (e : RegionEntry) (xs : Registry)
    → count i (held (domain_regions d (insert base e) xs).0)
        + count i (held_by (domain_regions d (insert base e) xs).1)
      ≡ count i (e.registration ∷ held xs)
unfolding domain_regions
count-track i d base e [] =
    ground (arith, count-insert i base e [], count-append i (registrations (insert base e []).0) [])
count-track i d base e (x ∷ xs) = ground (
  arith,
  count-insert i base e x.regions,
  count-track i d base e xs,
  count-append i (registrations x.regions) (held xs),
  count-append i (registrations (insert base e x.regions).0) (held xs),
  count-append i (registrations x.regions) (held (domain_regions d (insert base e) xs).0),
)

count-partition :
    (i : ℕ) (p : ℕ × RegionEntry → Bool) (m : Regions)
    → count i (registrations (keep (λ e. not (p e)) m)) + count i (registrations (keep p m))
      ≡ count i (registrations m)
count-partition i p [] = refl
count-partition i p (e ∷ m) = ground (arith, count-partition i p m)

count-retired :
    (i a b : ℕ) (xs : Registry)
    → count i (held (survivors a b xs)) + count i (retired a b xs) ≡ count i (held xs)
count-retired i a b [] = refl
count-retired i a b (x ∷ xs) = omega (
  arith,
  count-append i (registrations (surviving a b x.regions)) (held (survivors a b xs)),
  count-append i (registrations (overlapped a b x.regions)) (retired a b xs),
  count-append i (registrations x.regions) (held xs),
  count-partition i (overlaps a b) x.regions,
  count-retired i a b xs,
)

count-remove_domain :
    (i d : ℕ) (xs : Registry)
    → count i (held (remove_domain d xs).0) + count i (remove_domain d xs).1 ≡ count i (held xs)
unfolding remove_domain
count-remove_domain i d [] = refl
count-remove_domain i d (x ∷ xs) = ground (
  arith,
  count-append i (registrations x.regions) (held xs),
  count-append i (registrations x.regions) (held (remove_domain d xs).0),
  count-remove_domain i d xs,
)

-- The clones of the registry and the leases account for every registration.
abbrev pub Accounted : List ℕ → Cache → Type 0
Accounted leases c = Balanced (held c.registry ++ leases) c.arcs

drop_replaced-Balanced :
    (o : Option RegionEntry) (hs : List ℕ) (s : Store Registration)
    → Balanced (held_by o ++ hs) s
    → Balanced hs (drop_replaced o s)
drop_replaced-Balanced none hs s b = b
drop_replaced-Balanced (some e) hs s b = Arc.release-Balanced e.registration hs s b

pub new_registration-Accounted :
    (mr : MemoryRegion) (ls : List ℕ) (c : Cache)
    → Accounted ls c
    → Accounted ((new_registration mr c).0 ∷ ls) (new_registration mr c).1
unfolding new_registration
new_registration-Accounted mr ls c b =
    Balanced-same (length c.arcs.values ∷ held c.registry ++ ls)
      (held c.registry ++ length c.arcs.values ∷ ls) _
      (λ i. ground (
        arith,
        count-append i (held c.registry) ls,
        count-append i (held c.registry) (length c.arcs.values ∷ ls),
      ))
      (Arc.new-Balanced _ (held c.registry ++ ls) c.arcs b)

pub track-Accounted :
    (base end d r : ℕ) (ls : List ℕ) (c : Cache)
    → 0 < count r ls
    → Accounted ls c
    → Accounted ls (track base end d r c)
unfolding track
track-Accounted base end d r ls c h b =
    drop_replaced-Balanced out.1 (held out.0 ++ ls) (Arc.clone r c.arcs) (
      Balanced-same (r ∷ held c.registry ++ ls) (held_by out.1 ++ (held out.0 ++ ls)) _
        (λ i. omega (
          arith,
          count-track i d base e c.registry,
          count-append i (held c.registry) ls,
          count-append i (held_by out.1) (held out.0 ++ ls),
          count-append i (held out.0) ls,
        ))
        (Arc.clone-Balanced r (held c.registry ++ ls) c.arcs
          (omega (arith, count-append r (held c.registry) ls)) b))
  where
    e : RegionEntry
    e = record { end = end; registration = r }

    out : Registry × Option RegionEntry
    out = domain_regions d (insert base e) c.registry

pub invalidate-Accounted :
    (a b : ℕ) (ls : List ℕ) (c : Cache)
    → AllSorted c.registry
    → Accounted ls c
    → Accounted ls (invalidate a b c)
unfolding invalidate
invalidate-Accounted a b ls c s h = rw (retire-survivors a b c.registry s) (
    Arc.release_all-Balanced (retired a b c.registry) (held (survivors a b c.registry) ++ ls) c.arcs
      (Balanced-same (held c.registry ++ ls) _ c.arcs
        (λ i. omega (
          arith,
          count-retired i a b c.registry,
          count-append i (held c.registry) ls,
          count-append i (retired a b c.registry) (held (survivors a b c.registry) ++ ls),
          count-append i (held (survivors a b c.registry)) ls,
        ))
        h))

pub clear_domain-Accounted :
    (d : ℕ) (ls : List ℕ) (c : Cache) → Accounted ls c → Accounted ls (clear_domain d c)
unfolding clear_domain
clear_domain-Accounted d ls c h = Arc.release_all-Balanced out.1 (held out.0 ++ ls) c.arcs (
    Balanced-same (held c.registry ++ ls) _ c.arcs
      (λ i. omega (
        arith,
        count-remove_domain i d c.registry,
        count-append i (held c.registry) ls,
        count-append i out.1 (held out.0 ++ ls),
        count-append i (held out.0) ls,
      ))
      h)
  where
    out : Registry × List ℕ
    out = remove_domain d c.registry

count-find_domain :
    (i d : ℕ) (xs : Registry) (m : Regions)
    → find_domain d xs ≡ some m
    → count i (registrations m) ≤ count i (held xs)
unfolding find_domain
count-find_domain i d [] m h = cc
count-find_domain i d (x ∷ xs) m h =
    ground (arith, count-append i (registrations x.regions) (held xs), count-find_domain i d xs m)

count-last_upto :
    (k : ℕ) (m : Regions) (x : ℕ × RegionEntry)
    → last_upto k m ≡ some x
    → 0 < count x.1.registration (registrations m)
unfolding last_upto
count-last_upto k [] x h = cc
count-last_upto k (e ∷ m) x h = ground (arith, count-last_upto k m x)

-- A registration that a lookup finds has a clone in the registry.
count-lookup :
    (start end d r : ℕ) (xs : Registry)
    → lookup_registry start end d xs ≡ some r
    → 0 < count r (held xs)
count-lookup start end d r xs h =
    let (m, x, ans, e) = lookup_registry-cases start end d r xs h in
    ground (arith, count-find_domain r d xs m ans.0, count-last_upto start m x ans.1)

pub covering-Accounted :
    (start end d r : ℕ) (ls : List ℕ) (c : Cache)
    → (covering start end d c).0 ≡ some r
    → Accounted ls c
    → Accounted (r ∷ ls) (covering start end d c).1
covering-Accounted start end d r ls c e b = rw (covering_found start end d r c found) (
    Balanced-same (r ∷ held c.registry ++ ls) (held c.registry ++ r ∷ ls) (Arc.clone r c.arcs)
      (λ i.
        omega
          (arith, count-append i (held c.registry) (r ∷ ls), count-append i (held c.registry) ls))
      (Arc.clone-Balanced r (held c.registry ++ ls) c.arcs
        (omega
          (arith, count-lookup start end d r c.registry found, count-append r (held c.registry) ls))
        b))
  where
    found : lookup_registry start end d c.registry ≡ some r
    found = sym (covering-lookup start end d c) ∙ e

pub drop_lease-Accounted :
    (r : ℕ) (ls : List ℕ) (c : Cache) → Accounted (r ∷ ls) c → Accounted ls (drop_lease r c)
unfolding drop_lease
drop_lease-Accounted r ls c h = Arc.release-Balanced r (held c.registry ++ ls) c.arcs (
    Balanced-same (held c.registry ++ r ∷ ls) (r ∷ held c.registry ++ ls) c.arcs
      (λ i.
        omega
          (arith, count-append i (held c.registry) (r ∷ ls), count-append i (held c.registry) ls))
      h)
