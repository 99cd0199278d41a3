-- ===== src/Hooks.antt =====
-- The hooks that the allocator calls before it reclaims memory,
-- crates/module/src/memory/extent_hooks.rs. jemalloc's own hooks and its control calls are
-- parameters; a table's function pointers that are only passed on are numbers. What is recorded of
-- a call of jemalloc's own hook is the extent that it is given and the cache at that time. No lock is
-- held from the invalidation on, so what other threads do to the cache until then is a parameter.
pub mod Reclaimed
mod Tests
use vdma.Prelude.{ℕ, ◌+◌, List, [], ◌∷◌, Option, none, some, Bool, true, false, ◌&&◌, if◌then◌else◌}
use vdma.Regions.{Cache, invalidate}

-- The arguments of a call: `committed` is read by `dalloc` and `destroy`, `offset` and `length` by
-- the others.
pub record Extent : Type 0 where
  pub addr : ℕ
  pub size : ℕ
  pub offset : ℕ
  pub length : ℕ
  pub committed : Bool
  pub arena_ind : ℕ

-- The five hooks that reclaim, and the four that are passed on.
pub record ExtentHooks : Type 0 where
  pub alloc : ℕ
  pub dalloc : Option (Extent → Bool)
  pub destroy : Option (Extent → Unit {0})
  pub commit : ℕ
  pub decommit : Option (Extent → Bool)
  pub purge_lazy : Option (Extent → Bool)
  pub purge_forced : Option (Extent → Bool)
  pub split : ℕ
  pub merge : ℕ

-- What jemalloc reclaims: a whole extent, by `dalloc` and `destroy`, or the part of it from `offset`
-- on that is `length` long, by the others.
pub data Scope : Type 0 where
  whole part : Scope

pub record Reclaim : Type 0 where
  pub scope : Scope
  pub extent : Extent
  pub at : Cache

pub record World : Type 0 where
  pub cache : Cache
  pub reclaimed : List Reclaim

-- The two statics: the default table, and the four pointers of the wrapped one, whose other five
-- are the functions below.
pub record Hooks : Type 0 where
  pub default : ExtentHooks
  pub wrapped_alloc : ℕ
  pub wrapped_commit : ℕ
  pub wrapped_split : ℕ
  pub wrapped_merge : ℕ
  pub armed : Bool

pub data RegionMode : Type 0 where
  cached per_operation : RegionMode

pub record RegionHooksReport : Type 0 where
  pub mode : RegionMode
  pub huge_arena : Option ℕ
  pub huge_arena_decay_ms : ℕ
  pub huge_arena_oversize_threshold : ℕ

-- `default` is what `read_extent_hooks 0` gives, `tuned` what `huge_arena::tune` does.
unfoldable pub install : Option ExtentHooks → Option ℕ → ℕ → ℕ → Hooks → RegionHooksReport × Hooks
install none tuned decay threshold hooks = (
  record {
    mode = per_operation;
    huge_arena = none;
    huge_arena_decay_ms = decay;
    huge_arena_oversize_threshold = threshold;
  },
  hooks,
)
install (some default) tuned decay threshold hooks = (
  record {
    mode = cached;
    huge_arena = tuned;
    huge_arena_decay_ms = decay;
    huge_arena_oversize_threshold = threshold;
  },
  record {
    default = default;
    wrapped_alloc = default.alloc;
    wrapped_commit = default.commit;
    wrapped_split = default.split;
    wrapped_merge = default.merge;
    armed = true;
  },
)

-- `arena_of` finds the arena of an address, `write_extent_hooks` hooks it and says whether it could.
unfoldable pub ensure_covered : (ℕ → Option ℕ) → (ℕ → Bool) → ℕ → Hooks → Bool
ensure_covered arena_of write_extent_hooks pointer hooks =
    hooks.armed && elim (arena_of pointer) [ none ↦ false | some arena ↦ write_extent_hooks arena ]

-- The range is invalidated first, and then jemalloc's own hook reclaims the extent, if it has one.
-- `meanwhile` is what other threads do to the cache in between.
unfoldable pub chain :
    {A : Type 0}
    → (Cache → Cache)
    → Option (Extent → A)
    → A
    → Scope
    → ℕ
    → ℕ
    → Extent
    → World
    → A × World
chain meanwhile none failed scope start end extent w =
    (failed, record w { cache = invalidate start end w.cache })
chain meanwhile (some reclaim) failed scope start end extent w =
    let c = meanwhile (invalidate start end w.cache) in
    (
      reclaim extent,
      record {
        cache = c;
        reclaimed = record { scope = scope; extent = extent; at = c } ∷ w.reclaimed;
      },
    )

module _ (meanwhile : Cache → Cache) where
  unfoldable pub wrapped_dalloc : Hooks → Extent → World → Bool × World
  unfolding chain
  wrapped_dalloc hooks e w =
      chain meanwhile hooks.default.dalloc true whole e.addr (e.addr + e.size) e w

  unfoldable pub wrapped_destroy : Hooks → Extent → World → Unit {0} × World
  unfolding chain
  wrapped_destroy hooks e w =
      chain meanwhile hooks.default.destroy tt whole e.addr (e.addr + e.size) e w

  unfoldable pub reclaim_range : Option (Extent → Bool) → Extent → World → Bool × World
  unfolding chain
  reclaim_range default e w =
      let sub_start = e.addr + e.offset in
      chain meanwhile default true part sub_start (sub_start + e.length) e w

  unfoldable pub wrapped_decommit : Hooks → Extent → World → Bool × World
  unfolding reclaim_range
  wrapped_decommit hooks = reclaim_range hooks.default.decommit

  unfoldable pub wrapped_purge_lazy : Hooks → Extent → World → Bool × World
  unfolding reclaim_range
  wrapped_purge_lazy hooks = reclaim_range hooks.default.purge_lazy

  unfoldable pub wrapped_purge_forced : Hooks → Extent → World → Bool × World
  unfolding reclaim_range
  wrapped_purge_forced hooks = reclaim_range hooks.default.purge_forced
