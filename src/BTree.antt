-- ===== src/BTree.antt =====
-- `std::collections::BTreeMap` with `usize` keys, as the region cache uses it: the entries in key
-- order.
use vdma.Prelude.{
  ℕ, ◌≤◌, ◌<◌, Bool, List, [], ◌∷◌, Option, none, some, arith, ltb, leb, ◌==◌, if◌then◌else◌, keep,
}

module _ {ℓ} {V : Type ℓ} where
  -- The value at a key.
  abbrev pub get : ℕ → List (ℕ × V) → Option V
  get k [] = none
  get k ((j, v) ∷ m) = let rest = get k m in if j == k then some v else rest

  -- `insert`: the map, and the value that was replaced.
  unfoldable pub insert : ℕ → V → List (ℕ × V) → List (ℕ × V) × Option V
  insert k v [] = ((k, v) ∷ [], none)
  insert k v ((j, w) ∷ m) =
      let rest = insert k v m in
      if ltb k j
      then ((k, v) ∷ (j, w) ∷ m, none)
      else (if k == j then ((k, v) ∷ m, some w) else ((j, w) ∷ rest.0, rest.1))

  -- `remove`: the map, and the value that was there.
  unfoldable pub remove : ℕ → List (ℕ × V) → List (ℕ × V) × Option V
  remove k [] = ([], none)
  remove k ((j, w) ∷ m) =
      let rest = remove k m in if k == j then (m, some w) else ((j, w) ∷ rest.0, rest.1)

  -- `range(..=k).next_back()`: the entry with the greatest key up to `k`, the last such one.
  unfoldable pub last_upto : ℕ → List (ℕ × V) → Option (ℕ × V)
  last_upto k [] = none
  last_upto k ((j, w) ∷ m) =
      let rest = last_upto k m in
      if leb j k then elim rest [ none ↦ some (j, w) | some e ↦ some e ] else none

  -- `range(..k)`.
  unfoldable pub range_below : ℕ → List (ℕ × V) → List (ℕ × V)
  range_below k [] = []
  range_below k ((j, w) ∷ m) = let rest = range_below k m in if ltb j k then (j, w) ∷ rest else []

  -- Every key is above `k`.
  abbrev pub Above : ℕ → List (ℕ × V) → Type 0
  Above k [] = Unit {0}
  Above k ((j, w) ∷ m) = (k < j) × Above k m

  abbrev pub IsSorted : List (ℕ × V) → Type 0
  IsSorted [] = Unit {0}
  IsSorted ((j, w) ∷ m) = Above j m × IsSorted m

  Above-mono : (k j : ℕ) (m : List (ℕ × V)) → k ≤ j → Above j m → Above k m
  Above-mono k j [] h a = tt
  Above-mono k j ((i, w) ∷ m) h a = (omega arith, Above-mono k j m h a.1)

  insert-Above : (b k : ℕ) (v : V) (m : List (ℕ × V)) → b < k → Above b m → Above b (insert k v m).0
  unfolding insert
  insert-Above b k v [] h a = (h, tt)
  insert-Above b k v ((j, w) ∷ m) h a = ground (arith, insert-Above b k v m h a.1)

  pub insert-IsSorted : (k : ℕ) (v : V) (m : List (ℕ × V)) → IsSorted m → IsSorted (insert k v m).0
  unfolding insert
  insert-IsSorted k v [] s = (tt, tt)
  insert-IsSorted k v ((j, w) ∷ m) s =
      ground (arith, insert-IsSorted k v m s.1, insert-Above j k v m, Above-mono k j m)

  keep-Above : (p : ℕ × V → Bool) (b : ℕ) (m : List (ℕ × V)) → Above b m → Above b (keep p m)
  keep-Above p b [] a = tt
  keep-Above p b (e ∷ m) a = ground (arith, keep-Above p b m a.1)

  pub keep-IsSorted : (p : ℕ × V → Bool) (m : List (ℕ × V)) → IsSorted m → IsSorted (keep p m)
  keep-IsSorted p [] s = tt
  keep-IsSorted p (e ∷ m) s = ground (arith, keep-IsSorted p m s.1, keep-Above p e.0 m s.0)
