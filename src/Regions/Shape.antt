-- ===== src/Regions/Shape.antt =====
-- The shape of the registry, which every operation keeps: sorted maps, one for each domain, whose
-- entries lie inside the memory that was mapped for their registrations.
use vdma.Prelude.{
  ℕ, ◌≤◌, ◌≡◌, ◌≢◌, List, [], ◌∷◌, ◌++◌, Bool, some, arith, ◌==◌, keep, inl, inr, Bool-cases,
  Option-cases, subst, sym, ◌∙◌, get_elem?, get_elem?-append_lt, get_elem?-lt,
}
use vdma.BTree.{insert, last_upto, insert-IsSorted, keep-IsSorted}
use vdma.Regions.{
  Registration, RegionEntry, Regions, Registry, domain_regions, remove_domain, find_domain,
}
use vdma.Regions.Retire.{AllSorted, survivors}
use vdma.Regions.Reclaim.{Absent, AllDistinct}

-- The memory mapped for the entry's registration is on the domain, and holds the entry's extent.
abbrev pub Mapped : List Registration → ℕ → ℕ × RegionEntry → Type 0
Mapped values d e =
    (reg : Registration) × (get_elem? values e.1.registration ≡ some reg)
    × (reg.memory_region.domain ≡ d)
    × (reg.memory_region.base ≤ e.0)
    × (e.1.end ≤ reg.memory_region.limit)

abbrev pub RegionsMapped : List Registration → ℕ → Regions → Type 0
RegionsMapped values d [] = Unit {0}
RegionsMapped values d (e ∷ m) = Mapped values d e × RegionsMapped values d m

abbrev pub AllMapped : List Registration → Registry → Type 0
AllMapped values [] = Unit {0}
AllMapped values (x ∷ xs) = RegionsMapped values x.domain x.regions × AllMapped values xs

insert-RegionsMapped :
    (values : List Registration) (d base : ℕ) (e : RegionEntry) (m : Regions)
    → Mapped values d (base, e)
    → RegionsMapped values d m
    → RegionsMapped values d (insert base e m).0
unfolding insert
insert-RegionsMapped values d base e [] h a = (h, tt)
insert-RegionsMapped values d base e (x ∷ m) h a =
    ground (arith, insert-RegionsMapped values d base e m h a.1)

keep-RegionsMapped :
    (values : List Registration) (d : ℕ) (p : ℕ × RegionEntry → Bool) (m : Regions)
    → RegionsMapped values d m
    → RegionsMapped values d (keep p m)
keep-RegionsMapped values d p [] a = tt
keep-RegionsMapped values d p (x ∷ m) a = elim (Bool-cases (p x)) [
  | inl e ↦ rw e (a.0, keep-RegionsMapped values d p m a.1)
  | inr e ↦ rw e (keep-RegionsMapped values d p m a.1)
]

-- The three facts together.
pub record IsShaped (values : List Registration) (xs : Registry) : Type 0 where
  pub sorted : AllSorted xs
  pub distinct : AllDistinct xs
  pub mapped : AllMapped values xs

track-Absent :
    (d k base : ℕ) (e : RegionEntry) (xs : Registry)
    → k ≢ d
    → Absent k xs
    → Absent k (domain_regions d (insert base e) xs).0
unfolding domain_regions
track-Absent d k base e [] h a = (λ f. h (sym f), tt)
track-Absent d k base e (x ∷ xs) h a = ground (arith, track-Absent d k base e xs h a.1)

track-AllSorted :
    (d base : ℕ) (e : RegionEntry) (xs : Registry)
    → AllSorted xs
    → AllSorted (domain_regions d (insert base e) xs).0
unfolding domain_regions
track-AllSorted d base e [] s = (insert-IsSorted base e [] tt, tt)
track-AllSorted d base e (x ∷ xs) s = elim (Bool-cases (x.domain == d)) [
  | inl h ↦ rw h (insert-IsSorted base e x.regions s.0, s.1)
  | inr h ↦ rw h (s.0, track-AllSorted d base e xs s.1)
]

track-AllDistinct :
    (d base : ℕ) (e : RegionEntry) (xs : Registry)
    → AllDistinct xs
    → AllDistinct (domain_regions d (insert base e) xs).0
unfolding domain_regions
track-AllDistinct d base e [] s = (tt, tt)
track-AllDistinct d base e (x ∷ xs) s = elim (Bool-cases (x.domain == d)) [
  | inl h ↦ rw h s
  | inr h ↦
      rw h (track-Absent d x.domain base e xs (ground arith) s.0, track-AllDistinct d base e xs s.1)
]

track-AllMapped :
    (values : List Registration) (d base : ℕ) (e : RegionEntry) (xs : Registry)
    → Mapped values d (base, e)
    → AllMapped values xs
    → AllMapped values (domain_regions d (insert base e) xs).0
unfolding domain_regions
track-AllMapped values d base e [] h s = (insert-RegionsMapped values d base e [] h tt, tt)
track-AllMapped values d base e (x ∷ xs) h s = elim (Bool-cases (x.domain == d)) [
  | inl f ↦ rw f (
    insert-RegionsMapped values x.domain base e x.regions
        (subst (λ k. Mapped values k (base, e)) (ground arith) h) s.0,
    s.1,
  )
  | inr f ↦ rw f (s.0, track-AllMapped values d base e xs h s.1)
]

pub track-IsShaped :
    (values : List Registration) (d base : ℕ) (e : RegionEntry) (xs : Registry)
    → Mapped values d (base, e)
    → IsShaped values xs
    → IsShaped values (domain_regions d (insert base e) xs).0
track-IsShaped values d base e xs h s = record {
  sorted = track-AllSorted d base e xs s.sorted;
  distinct = track-AllDistinct d base e xs s.distinct;
  mapped = track-AllMapped values d base e xs h s.mapped;
}

survivors-Absent : (a b d : ℕ) (xs : Registry) → Absent d xs → Absent d (survivors a b xs)
survivors-Absent a b d [] h = tt
survivors-Absent a b d (x ∷ xs) h = (h.0, survivors-Absent a b d xs h.1)

pub survivors-IsShaped :
    (values : List Registration) (a b : ℕ) (xs : Registry)
    → IsShaped values xs
    → IsShaped values (survivors a b xs)
survivors-IsShaped values a b [] s = s
survivors-IsShaped values a b (x ∷ xs) s =
    let rest : IsShaped values (survivors a b xs) =
      survivors-IsShaped values a b xs
        (record { sorted = s.sorted.1; distinct = s.distinct.1; mapped = s.mapped.1 }) in
    record {
      sorted = (keep-IsSorted _ x.regions s.sorted.0, rest.sorted);
      distinct = (survivors-Absent a b x.domain xs s.distinct.0, rest.distinct);
      mapped = (keep-RegionsMapped values x.domain _ x.regions s.mapped.0, rest.mapped);
    }

remove_domain-Absent : (d k : ℕ) (xs : Registry) → Absent k xs → Absent k (remove_domain d xs).0
unfolding remove_domain
remove_domain-Absent d k [] h = tt
remove_domain-Absent d k (x ∷ xs) h = ground (arith, remove_domain-Absent d k xs h.1)

pub remove_domain-IsShaped :
    (values : List Registration) (d : ℕ) (xs : Registry)
    → IsShaped values xs
    → IsShaped values (remove_domain d xs).0
unfolding remove_domain
remove_domain-IsShaped values d [] s = s
remove_domain-IsShaped values d (x ∷ xs) s =
    let tail : IsShaped values xs = record {
      sorted = s.sorted.1;
      distinct = s.distinct.1;
      mapped = s.mapped.1;
    } in
    let rest : IsShaped values (remove_domain d xs).0 = remove_domain-IsShaped values d xs tail in
    elim (Bool-cases (x.domain == d)) [
      | inl f ↦ rw f tail
      | inr f ↦ rw f (record {
        sorted = (s.sorted.0, rest.sorted);
        distinct = (remove_domain-Absent d x.domain xs s.distinct.0, rest.distinct);
        mapped = (s.mapped.0, rest.mapped);
      })
    ]

RegionsMapped-append :
    (values : List Registration) (v : Registration) (d : ℕ) (m : Regions)
    → RegionsMapped values d m
    → RegionsMapped (values ++ v ∷ []) d m
RegionsMapped-append values v d [] h = tt
RegionsMapped-append values v d (e ∷ m) h =
    let (reg, found, domain, base, limit) = h.0 in
    (
      (
        reg,
        get_elem?-append_lt values (v ∷ []) e.1.registration (get_elem?-lt values _ reg found)
            ∙ found,
        domain,
        base,
        limit,
      ),
      RegionsMapped-append values v d m h.1,
    )

-- A further allocation leaves the others' contents as they were.
AllMapped-append :
    (values : List Registration) (v : Registration) (xs : Registry)
    → AllMapped values xs
    → AllMapped (values ++ v ∷ []) xs
AllMapped-append values v [] h = tt
AllMapped-append values v (x ∷ xs) h =
    (RegionsMapped-append values v x.domain x.regions h.0, AllMapped-append values v xs h.1)

pub append-IsShaped :
    (values : List Registration) (v : Registration) (xs : Registry)
    → IsShaped values xs
    → IsShaped (values ++ v ∷ []) xs
append-IsShaped values v xs s = record {
  sorted = s.sorted;
  distinct = s.distinct;
  mapped = AllMapped-append values v xs s.mapped;
}

pub find_domain-RegionsMapped :
    (values : List Registration) (d : ℕ) (xs : Registry) (m : Regions)
    → AllMapped values xs
    → find_domain d xs ≡ some m
    → RegionsMapped values d m
unfolding find_domain
find_domain-RegionsMapped values d [] m h e = cc
find_domain-RegionsMapped values d (x ∷ xs) m h e = elim (Bool-cases (x.domain == d)) [
  | inl f ↦
      let same : x.domain ≡ d = ground arith in
      let regions : x.regions ≡ m = ground arith in
      subst (λ k. RegionsMapped values k m) same
        (subst (λ k. RegionsMapped values x.domain k) regions h.0)
  | inr f ↦ find_domain-RegionsMapped values d xs m h.1 (ground arith)
]

pub last_upto-Mapped :
    (values : List Registration) (d k : ℕ) (m : Regions) (x : ℕ × RegionEntry)
    → RegionsMapped values d m
    → last_upto k m ≡ some x
    → Mapped values d x
unfolding last_upto
last_upto-Mapped values d k [] x h e = cc
last_upto-Mapped values d k (y ∷ m) x h e = elim (Option-cases (last_upto k m)) [
  | inl f ↦ subst (Mapped values d) (ground arith) h.0
  | inr (z, f) ↦ last_upto-Mapped values d k m x h.1 (ground arith)
]
