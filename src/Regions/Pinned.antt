-- ===== src/Regions/Pinned.antt =====
-- What a pinned span serves.
use vdma.Prelude.{
  ℕ, ◌+◌, ◌≤◌, ◌<◌, ◌≡◌, refl, ◌⊎◌, inl, inr, List, [], ◌∷◌, Option, some, none, arith,
  length as list_length, sym, Option-cases, ◌∙◌,
}
use vdma.Prelude.Int.{ℤ}
use vdma.Errors.{ok}
use vdma.BTree.{IsSorted, get, insert, last_upto, Above}
use vdma.Regions.{
  MemoryRegion, RegionEntry, Regions, Cache, new_registration, track, covering, drop_lease,
  find_domain, lookup_registry,
}
use vdma.Regions.Lookup.{covering-lookup, find_domain-IsSorted}
use vdma.Regions.Track.{regions_of, NoneBetween, covering-track, find_domain-track, last_upto-none}
use vdma.Regions.Valid.{IsValid, new_registration-IsValid, track-IsValid, drop_lease-IsValid}
use vdma.Regions.Operand.{CacheableSpan, usize_end, register, operand, pin}
use vdma.Regions.Serve.{new_registration-Mapped}

-- The cache after a pin that succeeded.
pinned : ℕ → ℕ → ℕ → Cache → Cache
pinned d base length c =
    let mr : MemoryRegion = record { domain = d; base = base; limit = base + length } in
    let (lease, c') = new_registration mr c in
    drop_lease lease (track base (base + length) d lease c')

pin-eq_ok :
    (d : ℕ) (fi : MemoryRegion → ℤ) (base length : ℕ) (c c' : Cache)
    → pin d fi base length c ≡ (ok tt, c')
    → c' ≡ pinned d base length c
unfolding pin register pinned
pin-eq_ok d fi base length c c' h = ground arith

pin_bound :
    (d : ℕ) (fi : MemoryRegion → ℤ) (base length : ℕ) (c c' : Cache)
    → pin d fi base length c ≡ (ok tt, c')
    → base + length < usize_end
unfolding pin
pin_bound d fi base length c c' h = ground arith

pinned-IsValid :
    (d base length : ℕ) (ls : List ℕ) (c : Cache)
    → IsValid ls c
    → IsValid ls (pinned d base length c)
unfolding pinned
pinned-IsValid d base length ls c v = drop_lease-IsValid (new_registration _ c).0 ls _ (
    track-IsValid base (base + length) d _ _ _ (ground arith)
      (new_registration-Mapped d base (base + length) _ c refl (omega arith) (omega arith))
      (new_registration-IsValid _ ls c v))

pin_outcome :
    (d : ℕ) (fi : MemoryRegion → ℤ) (base length : ℕ) (c : Cache)
    → ((pin d fi base length c).1 ≡ c) ⊎ ((pin d fi base length c).1 ≡ pinned d base length c)
unfolding pin register pinned
pin_outcome d fi base length c = ground arith

-- A pin that succeeds or fails keeps the invariant, and leaves no lease with the caller.
pub pin-IsValid :
    (d : ℕ) (fi : MemoryRegion → ℤ) (base length : ℕ) (ls : List ℕ) (c : Cache)
    → IsValid ls c
    → IsValid ls (pin d fi base length c).1
pin-IsValid d fi base length ls c v = elim (pin_outcome d fi base length c) [
  | inl e ↦ rw e v
  | inr e ↦ rw e (pinned-IsValid d base length ls c v)
]

IsSorted-regions_of :
    (d : ℕ) (ls : List ℕ) (c : Cache) → IsValid ls c → IsSorted (regions_of d c.registry)
IsSorted-regions_of d ls c v = elim (Option-cases (find_domain d c.registry)) [
  | inl e ↦ rw e tt
  | inr (m, e) ↦ rw e (find_domain-IsSorted d c.registry m v.shaped.sorted e)
]

covering-pinned :
    (d base length start limit : ℕ) (ls : List ℕ) (c : Cache)
    → IsValid ls c
    → NoneBetween base start (regions_of d c.registry)
    → base ≤ start
    → limit ≤ base + length
    → (covering start limit d (pinned d base length c)).0 ≡ some (list_length c.arcs.values)
unfolding pinned drop_lease new_registration
covering-pinned d base length start limit ls c v h le ge =
    rw (covering-lookup start limit d (pinned d base length c)) (
      sym (covering-lookup start limit d _)
      ∙ covering-track base (base + length) d (list_length c.arcs.values) start limit
          (new_registration (record { domain = d; base = base; limit = base + length }) c).1
          (IsSorted-regions_of d ls c v) h le ge)

-- An operand inside a span that was pinned, in a valid cache, is served by the pinned registration, with no further
-- one taken and whatever the caller's span is, if no other entry of the domain starts behind the
-- span's base and up to the operand's start.
pub operand-pin :
    (d : ℕ) (fi fi' : MemoryRegion → ℤ) (base length start size : ℕ) (s : Option CacheableSpan)
    (ls : List ℕ) (c c' : Cache)
    → IsValid ls c
    → pin d fi base length c ≡ (ok tt, c')
    → NoneBetween base start (regions_of d c.registry)
    → base ≤ start
    → start + size ≤ base + length
    → (operand d fi' start size s c').0
      ≡ ok (record {
        descriptor = some (list_length c.arcs.values);
        lease = some (list_length c.arcs.values);
      })
unfolding operand
operand-pin d fi fi' base length start size s ls c c' v h none_between le ge = ground (
  arith,
  pin-eq_ok d fi base length c c' h,
  pin_bound d fi base length c c' h,
  covering-pinned d base length start (start + size) ls c v none_between le ge,
)

get-lt : (k j : ℕ) (w : RegionEntry) (m : Regions) → Above k m → get j m ≡ some w → k < j
get-lt k j w [] a h = cc
get-lt k j w (x ∷ m) a h = ground (arith, a.0, get-lt k j w m a.1)

last_upto_nearest :
    (start j : ℕ) (w : RegionEntry) (m : Regions)
    → IsSorted m
    → get j m ≡ some w
    → NoneBetween j start m
    → j ≤ start
    → last_upto start m ≡ some (j, w)
unfolding last_upto
last_upto_nearest start j w [] s h n le = cc
last_upto_nearest start j w ((k, x) ∷ m) s h n le = ground (
  arith,
  last_upto_nearest start j w m s.1,
  get-lt k j w m s.0,
  last_upto-none k start m s.0,
  n.1,
)

last_upto-insert_before :
    (base start j : ℕ) (e w : RegionEntry) (m : Regions)
    → IsSorted m
    → get j m ≡ some w
    → NoneBetween j start m
    → base < j
    → j ≤ start
    → last_upto start (insert base e m).0 ≡ some (j, w)
unfolding last_upto insert
last_upto-insert_before base start j e w [] s h n lt le = cc
last_upto-insert_before base start j e w ((k, x) ∷ m) s h n lt le = ground (
  arith,
  last_upto-insert_before base start j e w m s.1,
  last_upto_nearest start j w m s.1,
  last_upto_nearest start j w ((k, x) ∷ m) s h n le,
  get-lt k j w m s.0,
  n.1,
)

abbrev pinned_entry : ℕ → ℕ → Cache → RegionEntry
pinned_entry base length c = record {
  end = base + length;
  registration = list_length c.arcs.values;
}

find_domain-pinned :
    (d base length : ℕ) (c : Cache)
    → find_domain d (pinned d base length c).registry
      ≡ some (insert base (pinned_entry base length c) (regions_of d c.registry)).0
unfolding pinned drop_lease new_registration
find_domain-pinned d base length c = ground (
  arith,
  find_domain-track base (base + length) d (list_length c.arcs.values) d
      (new_registration (record { domain = d; base = base; limit = base + length }) c).1,
)

-- An operand inside a span that was pinned, in a valid cache, finds no registration, the pinned one included, if another
-- entry of the domain starts inside the span, up to the operand's start and nearest to it, and
-- ends before the operand does.
pub covering-pin_shadowed :
    (d : ℕ) (fi : MemoryRegion → ℤ) (base length start size j : ℕ) (w : RegionEntry) (ls : List ℕ)
    (c c' : Cache)
    → IsValid ls c
    → pin d fi base length c ≡ (ok tt, c')
    → get j (regions_of d c.registry) ≡ some w
    → NoneBetween j start (regions_of d c.registry)
    → base < j
    → j ≤ start
    → start + size ≤ base + length
    → w.end < start + size
    → (covering start (start + size) d c').0 ≡ none
unfolding lookup_registry
covering-pin_shadowed d fi base length start size j w ls c c' v h at n lt le ge short =
    rw (pin-eq_ok d fi base length c c' h, covering-lookup)
      (ground (
        arith,
        find_domain-pinned d base length c,
        last_upto-insert_before base start j (pinned_entry base length c) w
            (regions_of d c.registry) (IsSorted-regions_of d ls c v) at n lt le,
      ))
