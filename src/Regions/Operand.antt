-- ===== src/Regions/Operand.antt =====
-- How an endpoint registers its operands, crates/dma-libfabric/src/local_regions.rs, with the span
-- of crates/dma-libfabric/src/operands.rs. The answers of `fi_mr_reg` in one call are a function
-- of what it is asked to register; a call asks twice at most, for two extents.
use vdma.Prelude.{
  ℕ, ◌+◌, ◌-◌, ◌^◌, Option, some, none, Bool, not, ◌&&◌, ltb, leb, ◌==◌, if◌then◌else◌,
}
use vdma.Prelude.Int.{ℤ}
use vdma.Errors.{Result, ok, err, DmaError, fabric, text, check}
use vdma.Regions.{MemoryRegion, Cache, new_registration, track, covering, drop_lease}

-- `usize` has 64 bits on the targets that libfabric has.
abbrev pub usize_end : ℕ
usize_end = 2 ^ 64

abbrev pub checked_add : ℕ → ℕ → Option ℕ
checked_add a b = if ltb (a + b) usize_end then some (a + b) else none

pub record CacheableSpan : Type 0 where
  pub base : ℕ
  pub end : ℕ

unfoldable pub new_span : ℕ → ℕ → Option CacheableSpan
new_span base length = elim (checked_add base length) [
  | none ↦ none
  | some end ↦ some (record { base = base; end = end })
]

unfoldable pub contains : CacheableSpan → ℕ → ℕ → Bool
contains span start end = leb span.base start && leb end span.end

-- The descriptor is that of a registration's memory region, or null.
pub record LocalOperand : Type 0 where
  pub descriptor : Option ℕ
  pub lease : Option ℕ

-- `cacheable().filter(|span| span.contains(start, end))`.
unfoldable pub filter_span : ℕ → ℕ → Option CacheableSpan → Option CacheableSpan
unfolding contains
filter_span start end none = none
filter_span start end (some span) = if contains span start end then some span else none

module _ (domain : ℕ) (fi_mr_reg : MemoryRegion → ℤ) where
  unfoldable pub register : ℕ → ℕ → Result MemoryRegion DmaError
  unfolding check
  register pointer length =
      let mr : MemoryRegion = record {
        domain = domain;
        base = pointer;
        limit = pointer + length;
      } in
      elim (check (fi_mr_reg mr) "fi_mr_reg(operand)") [ ok _ ↦ ok mr | err e ↦ err e ]

  -- The extent to register, and its registration: the operand's own extent if a widened one
  -- fails.
  unfoldable pub register_extent :
      ℕ → ℕ → ℕ → Option CacheableSpan → Result (ℕ × ℕ × MemoryRegion) DmaError
  unfolding register
  register_extent start end length none = elim (register start (end - start)) [
    | ok region ↦ ok (start, end, region)
    | err e ↦ err e
  ]
  register_extent start end length (some span) = elim (register span.base (span.end - span.base)) [
    | ok region ↦ ok (span.base, span.end, region)
    | err e ↦
        if not (span.base == start && span.end == end)
        then elim (register start length) [ ok region ↦ ok (start, end, region) | err f ↦ err f ]
        else err e
  ]

  abbrev pub track_cacheable : Option CacheableSpan → ℕ → ℕ → ℕ → Cache → Cache
  track_cacheable none base limit r c = c
  track_cacheable (some span) base limit r c = track base limit domain r c

  -- What follows a miss.
  unfoldable pub operand_miss :
      ℕ → ℕ → ℕ → Option CacheableSpan → Cache → Result LocalOperand DmaError × Cache
  operand_miss start end length cacheable c = elim (register_extent start end length cacheable) [
    | err e ↦ (err e, c)
    | ok (base, limit, region) ↦
        let (lease, c') = new_registration region c in
        (
          ok (record { descriptor = some lease; lease = some lease }),
          track_cacheable cacheable base limit lease c',
        )
  ]

  unfoldable pub operand :
      ℕ → ℕ → Option CacheableSpan → Cache → Result LocalOperand DmaError × Cache
  operand start length cacheable c = elim (checked_add start length) [
    | none ↦ (err (fabric (text "local operand range overflows")), c)
    | some end ↦
        let found = covering start end domain c in
        elim found.0 [
          | some lease ↦ (ok (record { descriptor = some lease; lease = some lease }), found.1)
          | none ↦ operand_miss start end length (filter_span start end cacheable) c
        ]
  ]

  -- The caller's own clone goes when `pin` returns.
  unfoldable pub pin : ℕ → ℕ → Cache → Result (Unit {0}) DmaError × Cache
  pin base length c = elim (checked_add base length) [
    | none ↦ (err (fabric (text "pinned region range overflows")), c)
    | some end ↦ elim (register base length) [
      | err e ↦ (err e, c)
      | ok region ↦
          let (lease, c') = new_registration region c in
          (ok tt, drop_lease lease (track base end domain lease c'))
    ]
  ]
