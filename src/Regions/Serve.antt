-- ===== src/Regions/Serve.antt =====
-- What an endpoint's operands are registered as.
use vdma.Prelude.{
  ℕ, ◌+◌, ◌≤◌, ◌<◌, ◌≡◌, ◌≢◌, refl, inl, inr, List, ◌∷◌, Option, some, none, true, arith, count,
  length, get_elem?-append_self, ltb, sym, Option-cases, Bool-cases, subst,
}
use vdma.Prelude.Int.{ℤ, is_zero}
use vdma.Errors.{Result-cases, ok, err, DmaError}
use vdma.Regions.{MemoryRegion, Cache, new_registration, covering}
use vdma.Regions.Shape.{Mapped}
use vdma.Regions.Valid.{
  IsValid, new_registration-IsValid, track-IsValid, covering-IsValid, covering-Mapped,
  values-covering, values-track,
}
use vdma.Regions.Operand.{
  CacheableSpan, LocalOperand, usize_end, filter_span, register_extent, track_cacheable,
  operand_miss, operand,
}

module _ (d : ℕ) (fi : MemoryRegion → ℤ) where
  -- The extent registered is the memory mapped, and it holds the operand.
  register_extent_holds :
      (start end length : ℕ) (cacheable : Option CacheableSpan) (b l : ℕ) (mr : MemoryRegion)
      → end ≡ start + length
      → register_extent d fi start end length (filter_span start end cacheable) ≡ ok (b, l, mr)
      → (mr.domain ≡ d) × (mr.base ≡ b) × (mr.limit ≡ l) × (b ≤ start) × (end ≤ l)
  unfolding register_extent filter_span
  register_extent_holds start end length none b l mr e h = ground arith
  register_extent_holds start end length (some span) b l mr e h = ground arith

-- A new registration is mapped over what was registered for it.
pub new_registration-Mapped :
    (d b l : ℕ) (mr : MemoryRegion) (c : Cache)
    → mr.domain ≡ d
    → mr.base ≤ b
    → l ≤ mr.limit
    → Mapped
        (new_registration mr c).1.arcs.values
        d
        (b, record { end = l; registration = (new_registration mr c).0 })
unfolding new_registration
new_registration-Mapped d b l mr c e f g = (
  record { memory_region = mr },
  get_elem?-append_self c.arcs.values (record { memory_region = mr }),
  e,
  f,
  g,
)

module _ (d : ℕ) (fi : MemoryRegion → ℤ) where
  track_cacheable-IsValid :
      (s : Option CacheableSpan) (b l r : ℕ) (ls : List ℕ) (c : Cache)
      → 0 < count r ls
      → Mapped c.arcs.values d (b, record { end = l; registration = r })
      → IsValid ls c
      → IsValid ls (track_cacheable d fi s b l r c)
  track_cacheable-IsValid none b l r ls c h m v = v
  track_cacheable-IsValid (some span) b l r ls c h m v = track-IsValid b l d r ls c h m v

  values-track_cacheable :
      (s : Option CacheableSpan) (b l r : ℕ) (c : Cache)
      → (track_cacheable d fi s b l r c).arcs.values ≡ c.arcs.values
  values-track_cacheable none b l r c = refl
  values-track_cacheable (some span) b l r c = values-track b l d r c

  -- What is promised of the operand's registration, and of the cache that `leases` hold from.
  pub record IsServed (start end : ℕ) (leases : List ℕ) (o : LocalOperand) (c : Cache)
      : Type 0 where
    pub lease : ℕ
    pub leased : o.lease ≡ some lease
    pub described : o.descriptor ≡ some lease
    pub valid : IsValid (lease ∷ leases) c
    pub mapped : Mapped c.arcs.values d (start, record { end = end; registration = lease })

  operand_miss-IsServed :
      (start end length : ℕ) (s : Option CacheableSpan) (ls : List ℕ) (c c' : Cache)
      (o : LocalOperand)
      → IsValid ls c
      → end ≡ start + length
      → operand_miss d fi start end length (filter_span start end s) c ≡ (ok o, c')
      → IsServed start end ls o c'
  unfolding operand_miss
  operand_miss-IsServed start end length s ls c c' o v e h =
      elim (Result-cases (register_extent d fi start end length (filter_span start end s))) [
        | inr (f, q) ↦ absurd (ground arith)
        | inl ((b, l, mr), q) ↦
            let facts = register_extent_holds d fi start end length s b l mr e q in
            let r : ℕ = (new_registration mr c).0 in
            let c₁ : Cache = (new_registration mr c).1 in
            let done : track_cacheable d fi (filter_span start end s) b l r c₁ ≡ c' =
              ground arith in
            record {
              lease = r;
              leased = ground arith;
              described = ground arith;
              valid = subst (IsValid (r ∷ ls)) done (
                  track_cacheable-IsValid (filter_span start end s) b l r (r ∷ ls) c₁ (ground arith)
                    (new_registration-Mapped d b l mr c facts.0 (omega (arith, facts))
                      (omega (arith, facts)))
                    (new_registration-IsValid mr ls c v));
              mapped =
                  subst
                    (λ k. Mapped k.arcs.values d (start, record { end = end; registration = r }))
                    done
                    (subst (λ k. Mapped k d (start, record { end = end; registration = r }))
                      (sym (values-track_cacheable (filter_span start end s) b l r c₁))
                      (new_registration-Mapped d start end mr c facts.0 (omega (arith, facts))
                        (omega (arith, facts))));
            }
      ]

  -- An operand that is served from a valid cache has a lease on a registration whose memory, on
  -- the endpoint's domain, holds it, its descriptor is that registration's, and the cache that the
  -- call leaves is valid with the lease held.
  pub operand-IsServed :
      (start length : ℕ) (s : Option CacheableSpan) (ls : List ℕ) (c c' : Cache) (o : LocalOperand)
      → IsValid ls c
      → operand d fi start length s c ≡ (ok o, c')
      → IsServed start (start + length) ls o c'
  unfolding operand
  operand-IsServed start length s ls c c' o v h =
      let end = start + length in
      elim (Bool-cases (ltb end usize_end)) [
        | inr far ↦ absurd (ground arith)
        | inl near ↦ elim (Option-cases (covering start end d c).0) [
          | inl missed ↦ operand_miss-IsServed start end length s ls c c' o v refl (ground arith)
          | inr (r, found) ↦
              let done : (covering start end d c).1 ≡ c' = ground arith in
              record {
                lease = r;
                leased = ground arith;
                described = ground arith;
                valid = subst (IsValid (r ∷ ls)) done (covering-IsValid start end d r ls c found v);
                mapped =
                    subst
                      (λ k. Mapped k.arcs.values d (start, record { end = end; registration = r }))
                      done
                      (subst (λ k. Mapped k d (start, record { end = end; registration = r }))
                        (sym (values-covering start end d c))
                        (covering-Mapped start end d r ls c v found));
              }
        ]
      ]

  register_extent_total :
      (start length : ℕ) (s : Option CacheableSpan) (e : DmaError)
      → is_zero (fi (record { domain = d; base = start; limit = start + length })) ≡ true
      → register_extent d fi start (start + length) length s ≢ err e
  unfolding register_extent
  register_extent_total start length none e h = ground arith
  register_extent_total start length (some span) e h = ground arith

  -- An operand inside the address space is served whenever its own extent can be registered,
  -- whatever the caller's span and the cache are and whether or not the span can be registered.
  pub operand_total :
      (start length : ℕ) (s : Option CacheableSpan) (c : Cache)
      → start + length < usize_end
      → is_zero (fi (record { domain = d; base = start; limit = start + length })) ≡ true
      → (o : LocalOperand) × ((operand d fi start length s c).0 ≡ ok o)
  unfolding operand operand_miss
  operand_total start length s c near mapped =
      elim (Result-cases (operand d fi start length s c).0) [
        | inl done ↦ done
        | inr (e, h) ↦ absurd (
            ground (
              arith,
              register_extent_total start length (filter_span start (start + length) s) e mapped,
            ))
      ]

  -- An operand that is not served leaves the cache as it was.
  pub operand_unserved :
      (start length : ℕ) (s : Option CacheableSpan) (c c' : Cache) (e : DmaError)
      → operand d fi start length s c ≡ (err e, c')
      → c' ≡ c
  unfolding operand operand_miss
  operand_unserved start length s c c' e h = ground arith
