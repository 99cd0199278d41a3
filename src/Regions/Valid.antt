-- ===== src/Regions/Valid.antt =====
-- The invariant of the cache, which each of its operations keeps.
use vdma.Prelude.{
  ℕ, ◌<◌, ◌≡◌, refl, sym, subst, List, [], ◌∷◌, ◌++◌, Option, some, none, arith, count,
  count-append, ◌∙◌, get_elem?,
}
use vdma.Arc.{Store, Balanced, Balanced-same, values-release_all, empty-Balanced}
use vdma.Arc
use vdma.Regions.{
  MemoryRegion, Registration, RegionEntry, Cache, new_registration, track, drop_replaced, covering,
  lookup_registry, invalidate, clear_domain, remove_domain, drop_lease,
}
use vdma.Regions.Retire.{retired, retire-survivors}
use vdma.Regions.Lookup.{covering-lookup, covering_found, lookup_registry-cases}
use vdma.Regions.Leases.{
  held, Accounted, new_registration-Accounted, track-Accounted, covering-Accounted,
  invalidate-Accounted, clear_domain-Accounted, drop_lease-Accounted,
}
use vdma.Regions.Shape.{
  IsShaped, Mapped, track-IsShaped, survivors-IsShaped, remove_domain-IsShaped, append-IsShaped,
  find_domain-RegionsMapped, last_upto-Mapped,
}

pub record IsValid (leases : List ℕ) (c : Cache) : Type 0 where
  pub accounted : Accounted leases c
  pub shaped : IsShaped c.arcs.values c.registry

abbrev pub empty : Cache
empty = record { registry = []; arcs = Arc.empty }

pub empty-IsValid : IsValid [] empty
empty-IsValid = record {
  accounted = empty-Balanced Registration;
  shaped = record { sorted = tt; distinct = tt; mapped = tt };
}

pub new_registration-IsValid :
    (mr : MemoryRegion) (ls : List ℕ) (c : Cache)
    → IsValid ls c
    → IsValid ((new_registration mr c).0 ∷ ls) (new_registration mr c).1
unfolding new_registration
new_registration-IsValid mr ls c v = record {
  accounted = new_registration-Accounted mr ls c v.accounted;
  shaped = append-IsShaped c.arcs.values _ c.registry v.shaped;
}

values-drop_replaced :
    (o : Option RegionEntry) (s : Store Registration) → (drop_replaced o s).values ≡ s.values
unfolding Arc.release
values-drop_replaced none s = refl
values-drop_replaced (some e) s = refl

pub values-track :
    (base end d r : ℕ) (c : Cache) → (track base end d r c).arcs.values ≡ c.arcs.values
unfolding track Arc.clone
values-track base end d r c = values-drop_replaced _ (Arc.clone r c.arcs)

pub track-IsValid :
    (base end d r : ℕ) (ls : List ℕ) (c : Cache)
    → 0 < count r ls
    → Mapped c.arcs.values d (base, record { end = end; registration = r })
    → IsValid ls c
    → IsValid ls (track base end d r c)
unfolding track
track-IsValid base end d r ls c h m v = record {
  accounted = track-Accounted base end d r ls c h v.accounted;
  shaped =
      rw (values-track base end d r c)
        (track-IsShaped c.arcs.values d base _ c.registry m v.shaped);
}

pub covering-IsValid :
    (start end d r : ℕ) (ls : List ℕ) (c : Cache)
    → (covering start end d c).0 ≡ some r
    → IsValid ls c
    → IsValid (r ∷ ls) (covering start end d c).1
unfolding Arc.clone
covering-IsValid start end d r ls c e v = record {
  accounted = covering-Accounted start end d r ls c e v.accounted;
  shaped = rw (covering_found start end d r c (sym (covering-lookup start end d c) ∙ e)) v.shaped;
}

-- A covering that finds nothing changes nothing.
pub covering-none :
    (start end d : ℕ) (c : Cache)
    → (covering start end d c).0 ≡ none
    → covering start end d c ≡ (none, c)
unfolding covering
covering-none start end d c e = ground arith

pub values-covering :
    (start end d : ℕ) (c : Cache) → (covering start end d c).1.arcs.values ≡ c.arcs.values
unfolding covering Arc.clone
values-covering start end d c = ground arith

-- The memory mapped for a registration that `covering` finds holds the operand, on its domain.
pub covering-Mapped :
    (start end d r : ℕ) (ls : List ℕ) (c : Cache)
    → IsValid ls c
    → (covering start end d c).0 ≡ some r
    → Mapped c.arcs.values d (start, record { end = end; registration = r })
covering-Mapped start end d r ls c v e =
    let found : lookup_registry start end d c.registry ≡ some r =
      sym (covering-lookup start end d c) ∙ e in
    let (m, x, ans, same) = lookup_registry-cases start end d r c.registry found in
    let (reg, at, domain, base, limit) =
      last_upto-Mapped c.arcs.values d start m x
        (find_domain-RegionsMapped c.arcs.values d c.registry m v.shaped.mapped ans.0) ans.1 in
    (
      reg,
      subst (λ k. get_elem? c.arcs.values k ≡ some reg) same at,
      domain,
      omega arith,
      omega arith,
    )

pub invalidate-IsValid :
    (a b : ℕ) (ls : List ℕ) (c : Cache) → IsValid ls c → IsValid ls (invalidate a b c)
unfolding invalidate
invalidate-IsValid a b ls c v = record {
  accounted = invalidate-Accounted a b ls c v.shaped.sorted v.accounted;
  shaped =
      rw
        (
          retire-survivors a b c.registry v.shaped.sorted,
          values-release_all (retired a b c.registry) c.arcs,
        )
        (survivors-IsShaped c.arcs.values a b c.registry v.shaped);
}

pub clear_domain-IsValid :
    (d : ℕ) (ls : List ℕ) (c : Cache) → IsValid ls c → IsValid ls (clear_domain d c)
unfolding clear_domain
clear_domain-IsValid d ls c v = record {
  accounted = clear_domain-Accounted d ls c v.accounted;
  shaped =
      rw (values-release_all (remove_domain d c.registry).1 c.arcs)
        (remove_domain-IsShaped c.arcs.values d c.registry v.shaped);
}

pub drop_lease-IsValid :
    (r : ℕ) (ls : List ℕ) (c : Cache) → IsValid (r ∷ ls) c → IsValid ls (drop_lease r c)
unfolding drop_lease Arc.release
drop_lease-IsValid r ls c v = record {
  accounted = drop_lease-Accounted r ls c v.accounted;
  shaped = v.shaped;
}

pub IsValid-same :
    (hs ks : List ℕ) (c : Cache) → ((i : ℕ) → count i hs ≡ count i ks) → IsValid hs c → IsValid ks c
IsValid-same hs ks c e v = record {
  accounted =
      Balanced-same (held c.registry ++ hs) (held c.registry ++ ks) c.arcs
        (λ i.
          omega
            (arith, e i, count-append i (held c.registry) hs, count-append i (held c.registry) ks))
        v.accounted;
  shaped = v.shaped;
}
