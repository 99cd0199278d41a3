-- ===== src/Regions/Retire.antt =====
-- What `invalidate` removes from one domain: on a sorted map, the entries that overlap the range,
-- and no other.
use vdma.Prelude.{ℕ, ◌≤◌, ◌<◌, ◌≡◌, refl, List, [], ◌∷◌, ◌++◌, Bool, not, ◌&&◌, ltb, keep, arith}
use vdma.BTree.{remove, range_below, Above, IsSorted}
use vdma.Regions.{
  RegionEntry, Regions, Registry, registrations, overlapping_bases, remove_bases, retire,
}

-- The entry has a byte in the range from `start` up to `end`.
abbrev pub overlaps : ℕ → ℕ → ℕ × RegionEntry → Bool
overlaps start end e = ltb e.0 end && ltb start e.1.end

abbrev pub surviving : ℕ → ℕ → Regions → Regions
surviving start end = keep (λ e. not (overlaps start end e))

abbrev pub overlapped : ℕ → ℕ → Regions → Regions
overlapped start end = keep (overlaps start end)

abbrev Bases : ℕ → List ℕ → Type 0
Bases k [] = Unit {0}
Bases k (b ∷ bs) = (k < b) × Bases k bs

overlapping_bases-Bases :
    (start end k : ℕ) (m : Regions) → Above k m → Bases k (overlapping_bases start end m)
unfolding overlapping_bases range_below
overlapping_bases-Bases start end k [] a = tt
overlapping_bases-Bases start end k ((j, w) ∷ m) a =
    ground (arith, overlapping_bases-Bases start end k m a.1)

remove_bases_skip :
    (k : ℕ) (w : RegionEntry) (bs : List ℕ) (m : Regions)
    → Bases k bs
    → remove_bases bs ((k, w) ∷ m) ≡ ((k, w) ∷ (remove_bases bs m).0, (remove_bases bs m).1)
unfolding remove_bases remove
remove_bases_skip k w [] m h = refl
remove_bases_skip k w (b ∷ bs) m h = ground (arith, remove_bases_skip k w bs (remove b m).0 h.1)

beyond :
    (start end k : ℕ) (m : Regions)
    → end ≤ k
    → Above k m
    → (surviving start end m ≡ m) × (overlapped start end m ≡ [])
beyond start end k [] h a = (refl, refl)
beyond start end k (e ∷ m) h a = ground (arith, beyond start end k m h a.1)

pub remove_bases-overlapping :
    (start end : ℕ) (m : Regions)
    → IsSorted m
    → remove_bases (overlapping_bases start end m) m
      ≡ (surviving start end m, registrations (overlapped start end m))
unfolding overlapping_bases remove_bases range_below remove
remove_bases-overlapping start end [] s = refl
remove_bases-overlapping start end ((j, w) ∷ m) s = ground (
  arith,
  remove_bases-overlapping start end m s.1,
  remove_bases_skip j w (overlapping_bases start end m) m
      (overlapping_bases-Bases start end j m s.0),
  beyond start end j m,
)

abbrev pub AllSorted : Registry → Type 0
AllSorted [] = Unit {0}
AllSorted (x ∷ xs) = IsSorted x.regions × AllSorted xs

-- What `invalidate` leaves of the registry, and the registrations it lets go of.
abbrev pub survivors : ℕ → ℕ → Registry → Registry
survivors start end [] = []
survivors start end (x ∷ xs) =
    record x { regions = surviving start end x.regions } ∷ survivors start end xs

abbrev pub retired : ℕ → ℕ → Registry → List ℕ
retired start end [] = []
retired start end (x ∷ xs) = registrations (overlapped start end x.regions) ++ retired start end xs

pub retire-survivors :
    (start end : ℕ) (xs : Registry)
    → AllSorted xs
    → retire start end xs ≡ (survivors start end xs, retired start end xs)
unfolding retire
retire-survivors start end [] s = refl
retire-survivors start end (x ∷ xs) s =
    rw (remove_bases-overlapping start end x.regions s.0, retire-survivors start end xs s.1)
