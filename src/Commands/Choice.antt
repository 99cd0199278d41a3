-- ===== src/Commands/Choice.antt =====
-- Which worker a transfer is given to.
use vdma.Prelude.{
  ℕ, suc, zero, ◌+◌, ◌%◌, ◌≤◌, ◌<◌, ◌≡◌, refl, List, [], ◌∷◌, none, some, true, false, arith, ◌⊎◌,
  inl, inr, get_elem?, length, Bool-cases, Option-cases, subst, sym, ap, ◌∙◌,
}
use vdma.Commands.{before, least_key, least_loaded}

-- The key is that of the server, and no server's comes before it.
record IsLeast (servers rotation index : ℕ) (loads : List ℕ) (i : ℕ) (key : ℕ × ℕ) : Type 0 where
  place : ℕ
  placed : i ≡ index + place
  loaded : get_elem? loads place ≡ some key.0
  rotated : key.1 ≡ (i + rotation) % servers
  least :
      (j load : ℕ)
      → get_elem? loads j ≡ some load
      → before (load, (index + j + rotation) % servers) key ≡ false

-- Of two keys one does not come before the other, and not to come before is transitive.
before_asymmetric : (x y : ℕ × ℕ) → before x y ≡ true → before y x ≡ false
before_asymmetric x y p = ground (arith, p)

before_transitive : (x y z : ℕ × ℕ) → before x y ≡ false → before y z ≡ false → before x z ≡ false
before_transitive x y z p q = ground (arith, p, q)

least_key-none :
    (servers rotation index : ℕ) (loads : List ℕ)
    → least_key servers rotation index loads ≡ none
    → loads ≡ []
unfolding least_key
least_key-none servers rotation index [] h = refl
least_key-none servers rotation index (load ∷ loads) h = absurd (ground (arith, h))

-- The first server's key, as the others' are written.
first_key :
    (servers rotation index : ℕ) → (index + 0 + rotation) % servers ≡ (index + rotation) % servers
first_key servers rotation index = ap (λ n. (n + rotation) % servers) (omega arith)

next_key :
    (servers rotation index j : ℕ)
    → (index + suc j + rotation) % servers ≡ (suc index + j + rotation) % servers
next_key servers rotation index j = ap (λ n. (n + rotation) % servers) (omega arith)

-- The first server is the least if none of the others comes before it.
first-IsLeast :
    (servers rotation index load : ℕ) (loads : List ℕ)
    → ((j other : ℕ)
        → get_elem? loads j ≡ some other
        → before (other, (suc index + j + rotation) % servers) (load, (index + rotation) % servers)
          ≡ false)
    → IsLeast servers rotation index (load ∷ loads) index (load, (index + rotation) % servers)
first-IsLeast servers rotation index load loads rest = record {
  place = 0;
  placed = omega arith;
  loaded = refl;
  rotated = refl;
  least = λ j other h.
      elim j
          as (λ k.
            get_elem? (load ∷ loads) k ≡ some other
            → before (other, (index + k + rotation) % servers) (load, (index + rotation) % servers)
              ≡ false) [
                | zero ↦ λ e. ground (arith, e, first_key servers rotation index)
                | suc k ↦ λ e.
                    subst (λ key. before (other, key) (load, (index + rotation) % servers) ≡ false)
                      (sym (next_key servers rotation index k)) (rest k other e)
              ]
        h;
}

-- And a later one that comes before the first is the least of all if it is of the others.
later-IsLeast :
    (servers rotation index load : ℕ) (loads : List ℕ) (i : ℕ) (key : ℕ × ℕ)
    → before key (load, (index + rotation) % servers) ≡ true
    → IsLeast servers rotation (suc index) loads i key
    → IsLeast servers rotation index (load ∷ loads) i key
later-IsLeast servers rotation index load loads i key q v = record {
  place = suc v.place;
  placed = omega (arith, v.placed);
  loaded = v.loaded;
  rotated = v.rotated;
  least = λ j other h.
      elim j
          as (λ k.
            get_elem? (load ∷ loads) k ≡ some other
            → before (other, (index + k + rotation) % servers) key ≡ false) [
              | zero ↦ λ e. ground (
                arith,
                e,
                first_key servers rotation index,
                before_asymmetric key (load, (index + rotation) % servers) q,
              )
              | suc k ↦ λ e.
                  subst (λ n. before (other, n) key ≡ false)
                    (sym (next_key servers rotation index k)) (v.least k other e)
            ]
        h;
}

least_key-IsLeast :
    (servers rotation index : ℕ) (loads : List ℕ) (i : ℕ) (key : ℕ × ℕ)
    → least_key servers rotation index loads ≡ some (i, key)
    → IsLeast servers rotation index loads i key
unfolding least_key
least_key-IsLeast servers rotation index [] i key h = cc
least_key-IsLeast servers rotation index (load ∷ loads) i key h =
    let mine : ℕ × ℕ = (load, (index + rotation) % servers) in
    elim (Option-cases (least_key servers rotation (suc index) loads)) [
      | inl p ↦
          let nil = least_key-none servers rotation (suc index) loads p in
          let same : ◌≡◌ {A = ℕ × (ℕ × ℕ)} (index, mine) (i, key) = ground (arith, p, h) in
          subst (λ r. IsLeast servers rotation index (load ∷ loads) r.0 r.1) same
            (first-IsLeast servers rotation index load loads
              (λ j other e. absurd (ground (arith, ap (λ l. get_elem? l j) nil, e))))
      | inr ((other, least), p) ↦
          let rest = least_key-IsLeast servers rotation (suc index) loads other least p in
          elim (Bool-cases (before least mine)) [
            | inl q ↦
                let same : ◌≡◌ {A = ℕ × (ℕ × ℕ)} (other, least) (i, key) =
                  ground (arith, p, q, h) in
                subst (λ r. IsLeast servers rotation index (load ∷ loads) r.0 r.1) same
                  (later-IsLeast servers rotation index load loads other least q rest)
            | inr q ↦
                let same : ◌≡◌ {A = ℕ × (ℕ × ℕ)} (index, mine) (i, key) = ground (arith, p, q, h) in
                subst (λ r. IsLeast servers rotation index (load ∷ loads) r.0 r.1) same
                  (first-IsLeast servers rotation index load loads (λ j load' e.
                    before_transitive (load', (suc index + j + rotation) % servers) least mine
                      (rest.least j load' e) q))
          ]
    ]

-- The server chosen has the least load of all, and of those with as little the least index once it is
-- rotated.
pub least_loaded_lem :
    (rotation i j other : ℕ) (loads : List ℕ)
    → least_loaded rotation loads ≡ some i
    → get_elem? loads j ≡ some other
    → (load : ℕ) × ((get_elem? loads i ≡ some load)
        × ((load < other)
            ⊎ ((load ≡ other) × ((i + rotation) % length loads ≤ (j + rotation) % length loads))))
unfolding least_loaded
least_loaded_lem rotation i j other loads h e =
    elim (Option-cases (least_key (length loads) rotation 0 loads)) [
      | inl p ↦ absurd (ground (arith, p, h))
      | inr ((k, key), p) ↦
          let v = least_key-IsLeast (length loads) rotation 0 loads k key p in
          let same : k ≡ i = ground (arith, p, h) in
          let place : v.place ≡ i = omega (arith, v.placed, same) in
          let rotated : key.1 ≡ (i + rotation) % length loads =
            v.rotated ∙ ap (λ n. (n + rotation) % length loads) same in
          let theirs : (0 + j + rotation) % length loads ≡ (j + rotation) % length loads =
            ap (λ n. (n + rotation) % length loads) (omega arith) in
          (
            key.0,
            (
              subst (λ n. get_elem? loads n ≡ some key.0) place v.loaded,
              ground (arith, v.least j other e, rotated, theirs),
            ),
          )
    ]

pub least_loaded-none :
    (rotation : ℕ) (loads : List ℕ) → least_loaded rotation loads ≡ none → loads ≡ []
unfolding least_loaded
least_loaded-none rotation loads h =
    least_key-none (length loads) rotation 0 loads
      (elim (Option-cases (least_key (length loads) rotation 0 loads)) [
        | inl p ↦ p
        | inr ((k, key), p) ↦ absurd (ground (arith, p, h))
      ])

pub least_loaded-some :
    (rotation i : ℕ) (loads : List ℕ)
    → least_loaded rotation loads ≡ some i
    → (load : ℕ) × (get_elem? loads i ≡ some load)
unfolding least_loaded
least_loaded-some rotation i loads h =
    elim (Option-cases (least_key (length loads) rotation 0 loads)) [
      | inl p ↦ absurd (ground (arith, p, h))
      | inr ((k, key), p) ↦
          let v = least_key-IsLeast (length loads) rotation 0 loads k key p in
          let place : v.place ≡ i = ground (arith, v.placed, p, h) in
          (key.0, subst (λ n. get_elem? loads n ≡ some key.0) place v.loaded)
    ]
