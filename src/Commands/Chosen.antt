-- ===== src/Commands/Chosen.antt =====
-- The service that a command is given to, of those that the module has.
use vdma.Prelude.{
  ℕ, zero, suc, ◌≤◌, ◌≡◌, refl, List, [], ◌∷◌, Option, none, some, arith, ◌⊎◌, inl, inr,
  Option-cases, get_elem?, map,
}
use vdma.Service.{FabricService}
use vdma.Commands.{Buffer, OpToken, least_loaded}
use vdma.Commands.Served.{Module, least_loaded_server}
use vdma.Commands.Choice.{least_loaded_lem, least_loaded-none, least_loaded-some}

module _ {A : Type 0} (f : A → ℕ) where
  get_elem?-map :
      (xs : List A) (i : ℕ) (x : A) → get_elem? xs i ≡ some x → get_elem? (map f xs) i ≡ some (f x)
  get_elem?-map [] i x h = cc
  get_elem?-map (y ∷ xs) zero x h = cc
  get_elem?-map (y ∷ xs) (suc i) x h = get_elem?-map xs i x h

  map-get_elem? :
      (xs : List A) (i n : ℕ)
      → get_elem? (map f xs) i ≡ some n
      → (x : A) × (get_elem? xs i ≡ some x) × (f x ≡ n)
  map-get_elem? [] i n h = cc
  map-get_elem? (y ∷ xs) zero n h = (y, refl, cc)
  map-get_elem? (y ∷ xs) (suc i) n h = map-get_elem? xs i n h

  map-nil : (xs : List A) → map f xs ≡ [] → xs ≡ []
  map-nil [] h = refl
  map-nil (x ∷ xs) h = cc

module _ {K : Type 0} (set_move : ℕ → Buffer → K → Option K) where
  -- The service stands at its place among the module's, and no other has fewer transfers
  -- outstanding.
  abbrev pub IsChosen : ℕ × FabricService OpToken → Module set_move → Type 0
  IsChosen (i, service) m =
      (get_elem? m.services i ≡ some service)
      × ((j : ℕ) (other : FabricService OpToken)
          → get_elem? m.services j ≡ some other
          → service.outstanding ≤ other.outstanding)

  outstanding_le :
      (m : Module set_move) (i j : ℕ) (service other : FabricService OpToken)
      → least_loaded m.rotation (map (λ s. s.outstanding) m.services) ≡ some i
      → get_elem? m.services i ≡ some service
      → get_elem? m.services j ≡ some other
      → service.outstanding ≤ other.outstanding
  outstanding_le m i j service other h e k =
      let loads = map (λ (s : FabricService OpToken). s.outstanding) m.services in
      let theirs = get_elem?-map (λ s. s.outstanding) m.services j other k in
      let mine = get_elem?-map (λ s. s.outstanding) m.services i service e in
      let (load, (found, least)) =
        least_loaded_lem m.rotation i j other.outstanding loads h theirs in
      ground (arith, mine, found, least)

  pub least_loaded_server-IsChosen :
      (m : Module set_move)
      → (((least_loaded_server set_move m).0 ≡ none) × (m.services ≡ []))
        ⊎ ((found : ℕ × FabricService OpToken) × ((least_loaded_server set_move m).0 ≡ some found)
            × IsChosen found m)
  unfolding least_loaded_server
  least_loaded_server-IsChosen m =
      let loads = map (λ (s : FabricService OpToken). s.outstanding) m.services in
      elim (Option-cases (least_loaded m.rotation loads)) [
        | inl p ↦ inl (
          ground (arith, p),
          map-nil (λ s. s.outstanding) m.services (least_loaded-none m.rotation loads p),
        )
        | inr (i, p) ↦
            let (load, at) = least_loaded-some m.rotation i loads p in
            let (service, found, _) =
              map-get_elem? (λ (s : FabricService OpToken). s.outstanding) m.services i load at in
            inr (
              (i, service),
              ground (arith, p, found),
              (found, λ j other k. outstanding_le m i j service other p found k),
            )
      ]
