-- ===== src/Regions/Tests.antt =====
-- Runs of the region cache on small inputs, and its theorems at such inputs.
use vdma.Prelude.{◌+◌, ◌≡◌, refl, inl, [], ◌∷◌, ◌++◌, some, none, arith, count, ◌==◌, if◌then◌else◌}
use vdma.Prelude.Int.{ℤ, pos, negsuc}
use vdma.Errors.{ok}
use vdma.Arc
use vdma.BTree.{insert, remove, last_upto, range_below}
use vdma.Regions.{
  MemoryRegion, Cache, new_registration, track, covering, invalidate, clear_domain, drop_lease,
}
use vdma.Regions.Leases.{held}
use vdma.Regions.Shape.{Mapped}
use vdma.Regions.Reclaim
use vdma.Regions.Track
use vdma.Regions.Valid.{IsValid, empty, empty-IsValid, new_registration-IsValid, track-IsValid}
use vdma.Regions.Threads.{
  Process, Step, registers, tracks, covers, invalidates, drops, Reach, here, next, start,
}
use vdma.Regions.Threads
use vdma.Regions.Operand.{
  CacheableSpan, LocalOperand, operand, operand_miss, filter_span, register, register_extent,
  contains, pin,
}
use vdma.Regions.Serve
use vdma.Regions.Pinned

program : Unit {0}
unfolding Arc.new Arc.clone Arc.release_all insert remove last_upto range_below new_registration
    track covering invalidate clear_domain drop_lease register operand operand_miss filter_span
    register_extent contains pin
program = tt

-- One extent of 4000 bytes on the domain 7, tracked, whose registration is still leased.
abbrev extent : MemoryRegion
extent = record { domain = 7; base = 1000; limit = 5000 }

abbrev registered : Cache
registered = (new_registration extent empty).1

abbrev tracked : Cache
tracked = track 1000 5000 7 0 registered

registered-IsValid : IsValid (0 ∷ []) registered
unfolding program
registered-IsValid = new_registration-IsValid extent [] empty empty-IsValid

extent-Mapped : Mapped registered.arcs.values 7 (1000, record { end = 5000; registration = 0 })
unfolding program
extent-Mapped = (record { memory_region = extent }, refl, refl, omega arith, omega arith)

tracked-IsValid : IsValid (0 ∷ []) tracked
tracked-IsValid =
    track-IsValid 1000 5000 7 0 (0 ∷ []) registered (omega arith) extent-Mapped registered-IsValid

-- freeing_one_value_deregisters_a_neighbour_that_is_still_in_flight: the entry goes, the lease
-- keeps the registration open, and the last holder closes it.
neighbour_freed :
    ((covering 1200 1300 7 tracked).0 ≡ some 0)
    × ((covering 1200 1300 7 (invalidate 4000 4100 tracked)).0 ≡ none)
    × ((invalidate 4000 4100 tracked).arcs.dropped ≡ [])
    × ((drop_lease 0 (invalidate 4000 4100 tracked)).arcs.dropped ≡ 0 ∷ [])
unfolding program
neighbour_freed = (refl, refl, refl, refl)

covering-invalidate_example : (covering 1200 1300 7 (invalidate 1250 9000 tracked)).0 ≡ none
covering-invalidate_example =
    Reclaim.covering-invalidate 1250 9000 1200 1300 7 tracked tracked-IsValid.shaped.sorted
      (omega arith) (omega arith)

covering-invalidate_apart_example :
    (covering 1200 1300 7 (invalidate 5000 6000 tracked)).0 ≡ (covering 1200 1300 7 tracked).0
unfolding program
covering-invalidate_apart_example =
    Reclaim.covering-invalidate_apart 5000 6000 1200 1300 7 tracked
      ((1000, record { end = 5000; registration = 0 }) ∷ [])
      (1000, record { end = 5000; registration = 0 }) tracked-IsValid.shaped.sorted
      (refl, refl, omega arith, omega arith) (inl (omega arith))

covering-clear_domain_example :
    (covering 1200 1300 8 (clear_domain 7 tracked)).0
    ≡ (if 8 == 7 then none else (covering 1200 1300 8 tracked).0)
covering-clear_domain_example =
    Reclaim.covering-clear_domain 7 1200 1300 8 tracked tracked-IsValid.shaped.distinct

covering-track_example : (covering 2000 2100 7 (track 1000 5000 7 0 registered)).0 ≡ some 0
unfolding program
covering-track_example =
    Track.covering-track 1000 5000 7 0 2000 2100 registered tt tt (omega arith) (omega arith)

-- A thread registers and tracks the extent, another reclaims it, and the first lets go.
abbrev leased : Process
leased = record { cache = tracked; leases = 0 ∷ [] }

abbrev let_go : Process
let_go = record { cache = drop_lease 0 (invalidate 0 2000 tracked); leases = [] }

leased-Reach : Reach start leased
unfolding program
leased-Reach = next (next here (registers start extent)) (
    tracks (record { cache = registered; leases = 0 ∷ [] }) 1000 5000 7 0 (omega arith)
      extent-Mapped)

let_go-Reach : Reach start let_go
let_go-Reach =
    next (next leased-Reach (invalidates leased 0 2000))
      (drops (record { cache = invalidate 0 2000 tracked; leases = 0 ∷ [] }) 0 [] [] refl)

closed-Reach_example :
    count 0 let_go.cache.arcs.dropped
    ≡ (if count 0 (held let_go.cache.registry ++ let_go.leases) == 0 then 1 else 0)
unfolding program
closed-Reach_example = Threads.closed-Reach {p = let_go} 0 let_go-Reach (omega arith)

abbrev covered : Process
covered = record { cache = (covering 1200 1300 7 tracked).1; leases = 0 ∷ 0 ∷ [] }

covering-Reach_example :
    Mapped tracked.arcs.values 7 (1200, record { end = 1300; registration = 0 })
    × (count 0 (invalidate 0 2000 covered.cache).arcs.dropped ≡ 0)
unfolding program
covering-Reach_example =
    Threads.covering-Reach {p = leased}
      {q = record { cache = invalidate 0 2000 covered.cache; leases = 0 ∷ 0 ∷ [] }} 1200 1300 7 0
      leased-Reach refl (next here (invalidates covered 0 2000)) (omega arith)

-- A provider that registers everything, and one that takes no more than a page.
abbrev willing : MemoryRegion → ℤ
willing mr = pos 0

abbrev page_only : MemoryRegion → ℤ
page_only mr = if mr.limit == mr.base + 4096 then pos 0 else negsuc 11

abbrev wide : CacheableSpan
wide = record { base = 65536; end = 131072 }

operand_total_example :
    (o : LocalOperand) × ((operand 7 page_only 69632 4096 (some wide) tracked).0 ≡ ok o)
operand_total_example =
    Serve.operand_total 7 page_only 69632 4096 (some wide) tracked (omega arith) refl

operand-IsServed_example :
    Serve.IsServed 7 willing 69632 73728
      (0 ∷ [])
      (record { descriptor = some 1; lease = some 1 })
      (operand 7 willing 69632 4096 (some wide) tracked).1
unfolding program
operand-IsServed_example =
    Serve.operand-IsServed 7 willing 69632 4096 (some wide) (0 ∷ []) tracked
      (operand 7 willing 69632 4096 (some wide) tracked).1
      (record { descriptor = some 1; lease = some 1 }) tracked-IsValid refl

-- a_pinned_span_serves_the_operands_inside_it
operand-pin_example :
    (operand 7 page_only 6000 100 none (pin 7 willing 5500 2000 tracked).1).0
    ≡ ok (record { descriptor = some 1; lease = some 1 })
unfolding program
operand-pin_example =
    Pinned.operand-pin 7 willing page_only 5500 2000 6000 100 none (0 ∷ []) tracked
      (pin 7 willing 5500 2000 tracked).1 tracked-IsValid refl (inl (omega arith), tt) (omega arith)
      (omega arith)

covering-pin_shadowed_example : (covering 5500 5600 7 (pin 7 willing 500 9000 tracked).1).0 ≡ none
unfolding program
covering-pin_shadowed_example =
    Pinned.covering-pin_shadowed 7 willing 500 9000 5500 100 1000
      (record { end = 5000; registration = 0 }) (0 ∷ []) tracked (pin 7 willing 500 9000 tracked).1
      tracked-IsValid refl refl (inl (omega arith), tt) (omega arith) (omega arith) (omega arith)
      (omega arith)
