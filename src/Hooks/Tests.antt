-- ===== src/Hooks/Tests.antt =====
-- A hook that reclaims memory that is registered.
use vdma.Prelude.{ℕ, ◌≡◌, refl, List, [], ◌∷◌, none, some, true, false, All, map, arith}
use vdma.Arc
use vdma.BTree.{last_upto, insert}
use vdma.Regions.{MemoryRegion, Cache, invalidate, covering, track, new_registration}
use vdma.Regions
use vdma.Regions.Valid.{IsValid, empty, empty-IsValid, track-IsValid, new_registration-IsValid}
use vdma.Hooks.{
  Extent, ExtentHooks, Hooks, World, install, ensure_covered, chain, wrapped_dalloc,
  wrapped_destroy, reclaim_range, wrapped_purge_lazy,
}
use vdma.Hooks.Reclaimed.{
  bytes, IsQuiet, Reach, here, next, calls, IsUncovered, call, dalloc, purge_lazy,
}
use vdma.Hooks.Reclaimed

program : Unit {0}
unfolding install ensure_covered chain wrapped_dalloc wrapped_destroy reclaim_range
    wrapped_purge_lazy call Regions.invalidate Regions.covering Regions.track
    Regions.new_registration
program = tt

abbrev default : ExtentHooks
default = record {
  alloc = 1;
  dalloc = some (λ e. false);
  destroy = none;
  commit = 2;
  decommit = none;
  purge_lazy = some (λ e. false);
  purge_forced = none;
  split = 3;
  merge = 4;
}

abbrev unarmed : Hooks
unarmed = record {
  default = default;
  wrapped_alloc = 0;
  wrapped_commit = 0;
  wrapped_split = 0;
  wrapped_merge = 0;
  armed = false;
}

abbrev armed : Hooks
armed = (install (some default) (some 7) 0 0 unarmed).1

covered_armed : ensure_covered (λ p. some 3) (λ a. true) 4096 armed ≡ true
unfolding program
covered_armed = refl

covered_unarmed :
    ensure_covered (λ p. some 3) (λ a. true) 4096 (install none none 0 0 unarmed).1 ≡ false
unfolding program
covered_unarmed = refl

abbrev extent : Extent
extent = record {
  addr = 4096;
  size = 4096;
  offset = 1024;
  length = 512;
  committed = true;
  arena_ind = 3;
}

abbrev operand_memory : MemoryRegion
operand_memory = record { domain = 1; base = 5120; limit = 5376 }

-- No other thread does anything.
abbrev meanwhile : Cache → Cache
meanwhile c = c

quiet : (a b : ℕ) → IsQuiet meanwhile a b
quiet a b ls c v = ((ls, v), λ d base entry m found at _ _. (m, (found, at)))

-- An empty cache, and one whose one entry has been within the range.
abbrev registered : Cache
registered = track 5120 5376 1 0 (new_registration operand_memory empty).1

registered-IsValid : IsValid (0 ∷ []) registered
unfolding Regions.new_registration Arc.new
registered-IsValid =
    track-IsValid 5120 5376 1 0 (0 ∷ []) (new_registration operand_memory empty).1 (omega arith)
      (_, refl, refl, omega arith, omega arith)
      (new_registration-IsValid operand_memory [] empty empty-IsValid)

abbrev held : World
held = record { cache = registered; reclaimed = [] }

abbrev purged : World
purged = call meanwhile armed purge_lazy extent held

found_before : (covering 5200 5300 1 registered).0 ≡ some 0
unfolding program last_upto insert
found_before = refl

purged_range :
    ◌≡◌ {A = List (ℕ × ℕ)} (map (λ r. bytes r.scope r.extent) purged.reclaimed) ((5120, 5632) ∷ [])
unfolding program
purged_range = refl

-- A hook that jemalloc does not have fails, once the range is invalidated.
no_default : (wrapped_destroy meanwhile armed extent held).1.reclaimed ≡ []
unfolding program
no_default = refl

IsUncovered-Reach_example : All IsUncovered purged.reclaimed
IsUncovered-Reach_example =
    Reclaimed.IsUncovered-Reach armed (0 ∷ []) registered purged registered-IsValid
      (next here (calls purge_lazy extent meanwhile held (quiet 5120 5632)))
