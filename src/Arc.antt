-- ===== src/Arc.antt =====
-- `std::sync::Arc` as the registrations and the address-vector entries use it: an allocation is a
-- number, with a strong count, and its `Drop` runs when the last clone goes.
use vdma.Prelude.{
  ℕ, ◌+◌, ◌-◌, ◌<◌, ◌≡◌, min, refl, List, [], ◌∷◌, ◌++◌, arith, ltb, ◌==◌, if◌then◌else◌, length,
  length-append, count,
}

-- `values` is what each allocation holds, `strong` its count of clones, and `dropped` the
-- allocations whose `Drop` has run, the latest first.
pub record Store {ℓ} (V : Type ℓ) : Type ℓ where
  pub values : List V
  pub strong : ℕ → ℕ
  pub dropped : List ℕ

abbrev pub empty {ℓ} : {V : Type ℓ} → Store V
empty = record { values = []; strong = λ i. 0; dropped = [] }

module _ {ℓ} {V : Type ℓ} where
  -- `Arc::new`: the number of the allocation is how many there were before it.
  unfoldable pub new : V → Store V → Store V
  new v s = record s {
    values = s.values ++ v ∷ [];
    strong = λ i. if i == length s.values then 1 else s.strong i;
  }

  -- `Arc::clone`.
  unfoldable pub clone : ℕ → Store V → Store V
  clone r s = record s { strong = λ i. if i == r then s.strong i + 1 else s.strong i }

  -- Dropping one clone.
  unfoldable pub release : ℕ → Store V → Store V
  release r s = record s {
    strong = λ i. if i == r then s.strong i - 1 else s.strong i;
    dropped = if s.strong r == 1 then r ∷ s.dropped else s.dropped;
  }

  unfoldable pub release_all : List ℕ → Store V → Store V
  unfolding release
  release_all [] s = s
  release_all (r ∷ rs) s = release_all rs (release r s)

  -- The clones that exist are those in `holders`, and an allocation's `Drop` has run once if it
  -- has no clone left, and not at all if it has one or was never made.
  abbrev pub Balanced : List ℕ → Store V → Type 0
  Balanced holders s =
      (i : ℕ)
      → (s.strong i ≡ count i holders)
        × (count i s.dropped + min 1 (count i holders) ≡ (if ltb i (length s.values) then 1 else 0))

  pub new-Balanced :
      (v : V) (hs : List ℕ) (s : Store V)
      → Balanced hs s
      → Balanced (length s.values ∷ hs) (new v s)
  unfolding new
  new-Balanced v hs s b i = ground (arith, b i, length-append s.values (v ∷ []))

  pub clone-Balanced :
      (r : ℕ) (hs : List ℕ) (s : Store V)
      → 0 < count r hs
      → Balanced hs s
      → Balanced (r ∷ hs) (clone r s)
  unfolding clone
  clone-Balanced r hs s h b i = ground (arith, b i, h)

  pub release-Balanced :
      (r : ℕ) (hs : List ℕ) (s : Store V) → Balanced (r ∷ hs) s → Balanced hs (release r s)
  unfolding release
  release-Balanced r hs s b i = ground (arith, b i, b r)

  pub release_all-Balanced :
      (rs hs : List ℕ) (s : Store V) → Balanced (rs ++ hs) s → Balanced hs (release_all rs s)
  unfolding release_all
  release_all-Balanced [] hs s b = b
  release_all-Balanced (r ∷ rs) hs s b =
      release_all-Balanced rs hs (release r s) (release-Balanced r (rs ++ hs) s b)

  -- Only how often each allocation is held matters.
  pub Balanced-same :
      (hs ks : List ℕ) (s : Store V)
      → ((i : ℕ) → count i hs ≡ count i ks)
      → Balanced hs s
      → Balanced ks s
  Balanced-same hs ks s e b i = ground (arith, e i, b i)

  pub values-release_all : (rs : List ℕ) (s : Store V) → (release_all rs s).values ≡ s.values
  unfolding release_all release
  values-release_all [] s = refl
  values-release_all (r ∷ rs) s = values-release_all rs (release r s)

pub empty-Balanced {ℓ} : (V : Type ℓ) → Balanced {V = V} [] empty
empty-Balanced V i = ground arith
