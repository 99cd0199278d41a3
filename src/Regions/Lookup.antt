-- ===== src/Regions/Lookup.antt =====
-- The entry that answers a lookup in the registry, before and after a range is reclaimed.
use mathlib.Core.Option
use vdma.Prelude.{
  ℕ, ◌≤◌, ◌<◌, ◌≡◌, refl, [], ◌∷◌, Bool, true, not, some, none, ◌==◌, keep, arith, inl, inr,
  Option-cases, Bool-cases, subst,
}
use vdma.Arc
use vdma.BTree.{get, last_upto, Above, IsSorted}
use vdma.Regions.{RegionEntry, Regions, Registry, Cache, find_domain, lookup_registry, covering}
use vdma.Regions.Retire.{AllSorted, overlaps, surviving, survivors}

last_upto-lt :
    (b k : ℕ) (m : Regions) (x : ℕ × RegionEntry) → Above b m → last_upto k m ≡ some x → b < x.0
unfolding last_upto
last_upto-lt b k [] x a h = cc
last_upto-lt b k ((j, w) ∷ m) x a h = ground (arith, last_upto-lt b k m x a.1)

pub last_upto-get :
    (k : ℕ) (m : Regions) (x : ℕ × RegionEntry)
    → IsSorted m
    → last_upto k m ≡ some x
    → (get x.0 m ≡ some x.1) × (x.0 ≤ k)
unfolding last_upto
last_upto-get k [] x s h = cc
last_upto-get k ((j, w) ∷ m) x s h =
    ground (arith, last_upto-get k m x s.1, last_upto-lt j k m x s.0)

last_upto-keep_beyond :
    (p : ℕ × RegionEntry → Bool) (b k : ℕ) (m : Regions)
    → k ≤ b
    → Above b m
    → last_upto k (keep p m) ≡ none
unfolding last_upto
last_upto-keep_beyond p b k [] h a = refl
last_upto-keep_beyond p b k (e ∷ m) h a = ground (arith, last_upto-keep_beyond p b k m h a.1)

last_upto-keep-none :
    (p : ℕ × RegionEntry → Bool) (k : ℕ) (m : Regions)
    → IsSorted m
    → last_upto k m ≡ none
    → last_upto k (keep p m) ≡ none
unfolding last_upto
last_upto-keep-none p k [] s h = refl
last_upto-keep-none p k (e ∷ m) s h = ground (arith, last_upto-keep_beyond p e.0 k m)

last_upto-keep :
    (p : ℕ × RegionEntry → Bool) (k : ℕ) (m : Regions) (x : ℕ × RegionEntry)
    → last_upto k (keep p m) ≡ some x
    → (p x ≡ true) × (x.0 ≤ k)
unfolding last_upto
last_upto-keep p k [] x h = cc
last_upto-keep p k (e ∷ m) x h = ground (arith, last_upto-keep p k m x)

last_upto-keep_kept :
    (p : ℕ × RegionEntry → Bool) (k : ℕ) (m : Regions) (x : ℕ × RegionEntry)
    → IsSorted m
    → last_upto k m ≡ some x
    → p x ≡ true
    → last_upto k (keep p m) ≡ some x
unfolding last_upto
last_upto-keep_kept p k [] x s h t = cc
last_upto-keep_kept p k (e ∷ m) x s h t = ground (
  arith,
  last_upto-keep_kept p k m x s.1,
  last_upto-keep-none p k m s.1,
  last_upto-keep_beyond p e.0 k m,
)

pub find_domain-IsSorted :
    (d : ℕ) (xs : Registry) (m : Regions) → AllSorted xs → find_domain d xs ≡ some m → IsSorted m
unfolding find_domain
find_domain-IsSorted d [] m s h = cc
find_domain-IsSorted d (x ∷ xs) m s h = elim (Bool-cases (x.domain == d)) [
  | inl e ↦ subst IsSorted (ground arith) s.0
  | inr e ↦ find_domain-IsSorted d xs m s.1 (ground arith)
]

pub find_domain-survivors :
    (start end d : ℕ) (xs : Registry)
    → find_domain d (survivors start end xs) ≡ Option.map (surviving start end) (find_domain d xs)
unfolding find_domain
find_domain-survivors start end d [] = refl
find_domain-survivors start end d (x ∷ xs) = ground (arith, find_domain-survivors start end d xs)

-- The entry that answers a lookup.
abbrev pub Answers : ℕ → ℕ → ℕ → Registry → Regions → ℕ × RegionEntry → Type 0
Answers start end d xs m x =
    (find_domain d xs ≡ some m) × (last_upto start m ≡ some x) × (x.0 ≤ start) × (end ≤ x.1.end)

pub lookup_registry-cases :
    (start end d r : ℕ) (xs : Registry)
    → lookup_registry start end d xs ≡ some r
    → (m : Regions) × (x : ℕ × RegionEntry) × Answers start end d xs m x × (x.1.registration ≡ r)
unfolding lookup_registry
lookup_registry-cases start end d r xs h = elim (Option-cases (find_domain d xs)) [
  | inl e ↦ absurd (ground arith)
  | inr (m, e) ↦ elim (Option-cases (last_upto start m)) [
    | inl f ↦ absurd (ground arith)
    | inr (x, f) ↦ (m, x, (e, f, ground arith, ground arith), ground arith)
  ]
]

pub lookup_registry_answer :
    (start end d : ℕ) (xs : Registry) (m : Regions) (x : ℕ × RegionEntry)
    → Answers start end d xs m x
    → lookup_registry start end d xs ≡ some x.1.registration
unfolding lookup_registry
lookup_registry_answer start end d xs m x (e, f, le, ge) = ground arith

abbrev pub not_overlapping : ℕ → ℕ → ℕ × RegionEntry → Bool
not_overlapping a b e = not (overlaps a b e)

Answers-survivors :
    (a b start end d : ℕ) (xs : Registry) (m : Regions) (x : ℕ × RegionEntry)
    → Answers start end d (survivors a b xs) m x
    → not_overlapping a b x ≡ true
Answers-survivors a b start end d xs m x (e, f, le, ge) = elim (Option-cases (find_domain d xs)) [
  | inl g ↦ absurd (ground (arith, find_domain-survivors a b d xs))
  | inr (m', g) ↦
      (last_upto-keep (not_overlapping a b) start m' x
        (ground (arith, find_domain-survivors a b d xs))).0
]

-- No entry that overlaps the range answers afterwards.
pub lookup-survivors-none :
    (a b start end d : ℕ) (xs : Registry)
    → a < end
    → start < b
    → lookup_registry start end d (survivors a b xs) ≡ none
lookup-survivors-none a b start end d xs h k =
    elim (Option-cases (lookup_registry start end d (survivors a b xs))) [
      | inl e ↦ e
      | inr (r, e) ↦
          let (m, x, ans, _) = lookup_registry-cases start end d r (survivors a b xs) e in
          absurd (ground (arith, Answers-survivors a b start end d xs m x ans))
    ]

-- An entry apart from the range answers as before.
pub lookup-survivors_apart :
    (a b start end d : ℕ) (xs : Registry) (m : Regions) (x : ℕ × RegionEntry)
    → AllSorted xs
    → Answers start end d xs m x
    → not_overlapping a b x ≡ true
    → lookup_registry start end d (survivors a b xs) ≡ some x.1.registration
lookup-survivors_apart a b start end d xs m x s (e, f, le, ge) h =
    lookup_registry_answer start end d (survivors a b xs) (surviving a b m) x (
      ground (arith, find_domain-survivors a b d xs),
      last_upto-keep_kept (not_overlapping a b) start m x (find_domain-IsSorted d xs m s e) f h,
      le,
      ge,
    )

pub covering-lookup :
    (start end d : ℕ) (c : Cache)
    → (covering start end d c).0 ≡ lookup_registry start end d c.registry
unfolding covering
covering-lookup start end d c = ground arith

-- A lookup that finds a registration hands out a clone of it, and changes nothing else.
pub covering_found :
    (start end d r : ℕ) (c : Cache)
    → lookup_registry start end d c.registry ≡ some r
    → covering start end d c ≡ (some r, record c { arcs = Arc.clone r c.arcs })
unfolding covering
covering_found start end d r c h = rw (h, covering) refl
