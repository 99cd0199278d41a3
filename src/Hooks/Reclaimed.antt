-- ===== src/Hooks/Reclaimed.antt =====
-- No memory is reclaimed while an operand in it could find a registration.
use vdma.Prelude.{
  ℕ, ◌+◌, ◌<◌, ◌≡◌, refl, List, [], ◌∷◌, Option, none, some, Bool, true, All, arith, keep, ◌∙◌, sym,
  ap, inl, inr, Option-cases,
}
use vdma.BTree.{get}
use vdma.Regions.{RegionEntry, Regions, Cache, covering, find_domain, lookup_registry, invalidate}
use vdma.Regions.Retire.{AllSorted, surviving, survivors}
use vdma.Regions.Lookup.{
  lookup_registry-cases, last_upto-get, find_domain-IsSorted, find_domain-survivors,
  covering-lookup, not_overlapping,
}
use vdma.Regions.Reclaim.{registry-invalidate}
use vdma.Regions.Valid.{IsValid, invalidate-IsValid}
use vdma.Hooks.{
  Extent, Hooks, World, Scope, whole, part, Reclaim, chain, reclaim_range, wrapped_dalloc,
  wrapped_destroy, wrapped_decommit, wrapped_purge_lazy, wrapped_purge_forced,
}

-- The bytes that jemalloc reclaims of an extent: the first, and the one behind the last.
abbrev pub bytes : Scope → Extent → ℕ × ℕ
bytes whole e = (e.addr, e.addr + e.size)
bytes part e = (e.addr + e.offset, e.addr + e.offset + e.length)

-- An operand with a byte among those finds no registration, on any domain.
abbrev pub IsUncovered : Reclaim → Type 0
IsUncovered r =
    (start end d : ℕ)
    → (bytes r.scope r.extent).0 < end
    → start < (bytes r.scope r.extent).1
    → (covering start end d r.at).0 ≡ none

-- Other threads leave a valid cache valid, and enter no registration into it that shares a byte with
-- the range: an entry that does was there before. The allocator reclaims memory that is in no one's
-- use, so that none of it is registered anew.
abbrev pub IsQuiet : (Cache → Cache) → ℕ → ℕ → Type 0
IsQuiet meanwhile a b =
    (ls : List ℕ) (c : Cache)
    → IsValid ls c
    → ((later : List ℕ) × IsValid later (meanwhile c))
      × ((d base : ℕ) (entry : RegionEntry) (m : Regions)
          → find_domain d (meanwhile c).registry ≡ some m
          → get base m ≡ some entry
          → a < entry.end
          → base < b
          → (m' : Regions) × ((find_domain d c.registry ≡ some m') × (get base m' ≡ some entry)))

pub data Hook : Type 0 where
  dalloc destroy decommit purge_lazy purge_forced : Hook

abbrev pub scope_of : Hook → Scope
scope_of dalloc = whole
scope_of destroy = whole
scope_of decommit = part
scope_of purge_lazy = part
scope_of purge_forced = part

-- A call of the wrapped table's hook.
unfoldable pub call : (Cache → Cache) → Hooks → Hook → Extent → World → World
call meanwhile hooks dalloc e w = (wrapped_dalloc meanwhile hooks e w).1
call meanwhile hooks destroy e w = (wrapped_destroy meanwhile hooks e w).1
call meanwhile hooks decommit e w = (wrapped_decommit meanwhile hooks e w).1
call meanwhile hooks purge_lazy e w = (wrapped_purge_lazy meanwhile hooks e w).1
call meanwhile hooks purge_forced e w = (wrapped_purge_forced meanwhile hooks e w).1

-- Calls of hooks, and between two of them whatever else the threads do to the cache that leaves it
-- valid.
pub data Step (hooks : Hooks) : World → World → Type 0 where
  calls :
      (hook : Hook) (e : Extent) (meanwhile : Cache → Cache) (w : World)
      → IsQuiet meanwhile (bytes (scope_of hook) e).0 (bytes (scope_of hook) e).1
      → Step hooks w (call meanwhile hooks hook e w)
  changes :
      (ls : List ℕ) (c : Cache) (w : World) → IsValid ls c → Step hooks w (record w { cache = c })

pub data Reach (hooks : Hooks) (w : World) : World → Type 0 where
  here : Reach hooks w w
  next : {v u : World} → Reach hooks w v → Step hooks v u → Reach hooks w u

-- The cache is valid, whoever holds leases.
record IsTidy (w : World) : Type 0 where
  leases : List ℕ
  valid : IsValid leases w.cache
  uncovered : All IsUncovered w.reclaimed

get-keep :
    (p : ℕ × RegionEntry → Bool) (k : ℕ) (entry : RegionEntry) (m : Regions)
    → get k (keep p m) ≡ some entry
    → p (k, entry) ≡ true
get-keep p k entry [] h = cc
get-keep p k entry ((j, w) ∷ m) h = ground (arith, get-keep p k entry m, h)

-- No entry of an invalidated cache shares a byte with the range.
get-invalidate :
    (a b d base : ℕ) (entry : RegionEntry) (m : Regions) (c : Cache)
    → AllSorted c.registry
    → find_domain d (invalidate a b c).registry ≡ some m
    → get base m ≡ some entry
    → not_overlapping a b (base, entry) ≡ true
get-invalidate a b d base entry m c s h k =
    let left : find_domain d (survivors a b c.registry) ≡ some m =
      ap (find_domain d) (sym (registry-invalidate a b c s)) ∙ h in
    elim (Option-cases (find_domain d c.registry)) [
      | inl e ↦ absurd (ground (arith, e, left, find_domain-survivors a b d c.registry))
      | inr (m', e) ↦
          let kept : surviving a b m' ≡ m =
            ground (arith, e, left, find_domain-survivors a b d c.registry) in
          get-keep (not_overlapping a b) base entry m' (ap (get base) kept ∙ k)
    ]

covering-meanwhile :
    (meanwhile : Cache → Cache) (a b start end d : ℕ) (ls : List ℕ) (c : Cache)
    → IsQuiet meanwhile a b
    → IsValid ls c
    → a < end
    → start < b
    → (covering start end d (meanwhile (invalidate a b c))).0 ≡ none
covering-meanwhile meanwhile a b start end d ls c quiet v h k =
    let before = invalidate a b c in
    let after = meanwhile before in
    let ((later, valid), old) = quiet ls before (invalidate-IsValid a b ls c v) in
    elim (Option-cases (lookup_registry start end d after.registry)) [
      | inl e ↦ covering-lookup start end d after ∙ e
      | inr (r, e) ↦
          let (m, x, (found, last, le, ge), _) =
            lookup_registry-cases start end d r after.registry e in
          let (at, _) =
            last_upto-get start m x
              (find_domain-IsSorted d after.registry m valid.shaped.sorted found) last in
          let (m', (found', at')) =
            old d x.0 x.1 m found at (omega (arith, h, ge)) (omega (arith, k, le)) in
          let apart = get-invalidate a b d x.0 x.1 m' c v.shaped.sorted found' at' in
          absurd (ground (arith, apart, h, k, le, ge))
    ]

chain-IsTidy :
    {A : Type 0} (meanwhile : Cache → Cache) (hook : Option (Extent → A)) (failed : A)
    (scope : Scope) (a b : ℕ) (e : Extent) (w : World)
    → (bytes scope e).0 ≡ a
    → (bytes scope e).1 ≡ b
    → IsQuiet meanwhile a b
    → IsTidy w
    → IsTidy (chain meanwhile hook failed scope a b e w).1
unfolding chain
chain-IsTidy meanwhile none failed scope a b e w first last quiet v = record {
  leases = v.leases;
  valid = invalidate-IsValid a b v.leases w.cache v.valid;
  uncovered = v.uncovered;
}
chain-IsTidy meanwhile (some reclaim) failed scope a b e w first last quiet v =
    let before = invalidate-IsValid a b v.leases w.cache v.valid in
    let ((later, valid), _) = quiet v.leases (invalidate a b w.cache) before in
    record {
      leases = later;
      valid = valid;
      uncovered = (
        λ start end d h k.
            covering-meanwhile meanwhile a b start end d v.leases w.cache quiet v.valid
              (omega (arith, first, h)) (omega (arith, last, k)),
        v.uncovered,
      );
    }

Step-IsTidy : {hooks : Hooks} {v u : World} → Step hooks v u → IsTidy v → IsTidy u
unfolding call wrapped_dalloc wrapped_destroy wrapped_decommit wrapped_purge_lazy
    wrapped_purge_forced reclaim_range
Step-IsTidy {hooks} (calls dalloc e meanwhile w quiet) v =
    chain-IsTidy meanwhile hooks.default.dalloc true whole _ _ e w refl refl quiet v
Step-IsTidy {hooks} (calls destroy e meanwhile w quiet) v =
    chain-IsTidy meanwhile hooks.default.destroy tt whole _ _ e w refl refl quiet v
Step-IsTidy {hooks} (calls decommit e meanwhile w quiet) v =
    chain-IsTidy meanwhile hooks.default.decommit true part _ _ e w refl refl quiet v
Step-IsTidy {hooks} (calls purge_lazy e meanwhile w quiet) v =
    chain-IsTidy meanwhile hooks.default.purge_lazy true part _ _ e w refl refl quiet v
Step-IsTidy {hooks} (calls purge_forced e meanwhile w quiet) v =
    chain-IsTidy meanwhile hooks.default.purge_forced true part _ _ e w refl refl quiet v
Step-IsTidy (changes ls c w k) v = record { leases = ls; valid = k; uncovered = v.uncovered }

Reach-IsTidy : {hooks : Hooks} {w u : World} → Reach hooks w u → IsTidy w → IsTidy u
Reach-IsTidy here v = v
Reach-IsTidy (next r s) v = Step-IsTidy s (Reach-IsTidy r v)

-- Whichever of its hooks the allocator calls and whatever the threads do to the cache between two
-- calls, if they leave it valid and, between a hook's invalidation and jemalloc's own hook, enter
-- no registration that shares a byte with what is reclaimed, then at every time that jemalloc's
-- own hook reclaims bytes of an extent, no operand with one of these bytes can find a registration,
-- on any domain.
pub IsUncovered-Reach :
    (hooks : Hooks) (ls : List ℕ) (c : Cache) (w : World)
    → IsValid ls c
    → Reach hooks (record { cache = c; reclaimed = [] }) w
    → All IsUncovered w.reclaimed
IsUncovered-Reach hooks ls c w v r =
    (Reach-IsTidy r (record { leases = ls; valid = v; uncovered = tt })).uncovered
