-- ===== src/Endpoint/Held.antt =====
-- What the calls of an endpoint keep: its peers, with the clones of entries that a call holds, and
-- the cache, with the leases that operations hold.
use vdma.Prelude.{
  ℕ, ◌+◌, ◌≡◌, refl, List, [], ◌∷◌, ◌++◌, Option, none, some, false, arith, Bool-cases, inl, inr,
  subst, sym, ap,
}
use vdma.Prelude.Int.{ℤ}
use vdma.Errors.{Result, ok, err, DmaError}
use vdma.Arc
use vdma.HashMap.{the_value}
use vdma.Regions.{Cache, MemoryRegion, drop_lease}
use vdma.Regions.Operand.{CacheableSpan, LocalOperand, operand}
use vdma.Regions.Valid.{drop_lease-IsValid, clear_domain-IsValid}
use vdma.Regions
use vdma.Regions.Shape.{Mapped}
use vdma.Regions.Serve.{operand-IsServed, operand_unserved}
use vdma.Regions.Pinned.{pin-IsValid}
use vdma.Peers.{PeerAddresses, handle, release}
use vdma.Peers
use vdma.Peers.Handle.{handle-Handled, Handled, Serves}
use vdma.Peers.Clients.{release-IsValid}
use vdma.Endpoint.{
  Provider, LibfabricEndpoint, insert_peer, release_peer, pin_region, local_operand, drop_option,
}

-- `entries` are the clones of entries held outside the map of clients, `leases` those of
-- registrations held outside the registry.
pub record IsHeld (entries leases : List ℕ) (endpoint : LibfabricEndpoint) : Type 0 where
  pub peers : Peers.Valid.IsValid entries endpoint.peer_addresses
  pub regions : Regions.Valid.IsValid leases endpoint.cache

-- The peer inserted is registered with the address, and the call's clone of it is held.
abbrev pub Inserted : List ℕ → ℕ → List ℕ → Result ℕ DmaError × LibfabricEndpoint → Type 0
Inserted leases client address (ok e, endpoint) =
    IsHeld (e ∷ []) leases endpoint × Serves client address e endpoint.peer_addresses
Inserted leases client address (err e, endpoint) = IsHeld [] leases endpoint

inserted :
    (client : ℕ) (address leases : List ℕ) (endpoint : LibfabricEndpoint)
    (r : Result ℕ DmaError × PeerAddresses)
    → Regions.Valid.IsValid leases endpoint.cache
    → Handled client address r
    → Inserted leases client address (r.0, record endpoint { peer_addresses = r.1 })
inserted client address leases endpoint (ok e, s) v (valid, serves) =
    (record { peers = valid; regions = v }, serves)
inserted client address leases endpoint (err e, s) v valid = record { peers = valid; regions = v }

pub insert_peer-Inserted :
    (fi_av_insert : List ℕ → ℤ × ℕ) (client : ℕ) (address leases : List ℕ)
    (endpoint : LibfabricEndpoint)
    → IsHeld [] leases endpoint
    → Inserted leases client address (insert_peer fi_av_insert client address endpoint)
unfolding insert_peer
insert_peer-Inserted fi_av_insert client address leases endpoint v =
    inserted client address leases endpoint
      (handle fi_av_insert client address endpoint.peer_addresses) v.regions
      (handle-Handled fi_av_insert client address endpoint.peer_addresses v.peers)

pub release_peer-IsHeld :
    (client : ℕ) (leases : List ℕ) (endpoint : LibfabricEndpoint)
    → IsHeld [] leases endpoint
    → IsHeld [] leases (release_peer client endpoint)
unfolding release_peer
release_peer-IsHeld client leases endpoint v = record {
  peers = release-IsValid client [] endpoint.peer_addresses v.peers;
  regions = v.regions;
}

pub drop_option-IsHeld :
    (lease : Option ℕ) (entries leases : List ℕ) (endpoint : LibfabricEndpoint)
    → IsHeld entries (the_value lease ++ leases) endpoint
    → IsHeld entries leases (drop_option lease endpoint)
unfolding drop_option
drop_option-IsHeld none entries leases endpoint v = v
drop_option-IsHeld (some r) entries leases endpoint v = record {
  peers = v.peers;
  regions = drop_lease-IsValid r leases endpoint.cache v.regions;
}

-- The memory from `pointer` on is inside that of the registration leased, on the endpoint's domain;
-- or the provider needs none.
abbrev pub Covers : Provider → ℕ → ℕ → Option ℕ → LibfabricEndpoint → Type 0
Covers provider pointer length none endpoint = provider.requires_local_mr ≡ false
Covers provider pointer length (some lease) endpoint =
    Mapped endpoint.cache.arcs.values provider.domain
      (pointer, record { end = pointer + length; registration = lease })

pub drop_option-Covers :
    (provider : Provider) (pointer length : ℕ) (lease dropped : Option ℕ)
    (endpoint : LibfabricEndpoint)
    → Covers provider pointer length lease endpoint
    → Covers provider pointer length lease (drop_option dropped endpoint)
unfolding drop_option drop_lease Arc.release
drop_option-Covers provider pointer length lease none endpoint c = c
drop_option-Covers provider pointer length none (some r) endpoint c = c
drop_option-Covers provider pointer length (some lease) (some r) endpoint c = c

module _ (provider : Provider) (fi : MemoryRegion → ℤ) where
  pub pin_region-IsHeld :
      (base length : ℕ) (leases : List ℕ) (endpoint : LibfabricEndpoint)
      → IsHeld [] leases endpoint
      → IsHeld [] leases (pin_region provider fi base length endpoint).1
  unfolding pin_region
  pin_region-IsHeld base length leases endpoint v = elim (Bool-cases provider.requires_local_mr) [
    | inl p ↦
        rw (p, pin_region)
          (record {
            peers = v.peers;
            regions = pin-IsValid provider.domain fi base length leases endpoint.cache v.regions;
          })
    | inr p ↦ rw (p, pin_region) v
  ]

  -- The operand is described by the registration leased, whose memory holds it; or none is needed.
  abbrev pub Described : ℕ → ℕ → LocalOperand → LibfabricEndpoint → Type 0
  Described pointer length o endpoint =
      Covers provider pointer length o.lease endpoint × (o.descriptor ≡ o.lease)

  -- An operand served is described, and its lease held; an error leaves the endpoint as it was.
  abbrev pub Located :
      ℕ
      → ℕ
      → List ℕ
      → List ℕ
      → LibfabricEndpoint
      → Result LocalOperand DmaError × LibfabricEndpoint
      → Type 0
  Located pointer length entries leases endpoint (ok o, endpoint') =
      IsHeld entries (the_value o.lease ++ leases) endpoint'
      × Described pointer length o endpoint'
      × (endpoint'.peer_addresses ≡ endpoint.peer_addresses)
  Located pointer length entries leases endpoint (err e, endpoint') = endpoint' ≡ endpoint

  located :
      (pointer length : ℕ) (s : Option CacheableSpan) (entries leases : List ℕ)
      (endpoint : LibfabricEndpoint) (r : Result LocalOperand DmaError × Cache)
      → IsHeld entries leases endpoint
      → operand provider.domain fi pointer length s endpoint.cache ≡ r
      → Located pointer length entries leases endpoint (r.0, record endpoint { cache = r.1 })
  located pointer length s entries leases endpoint (err e, c) v h =
      ap (λ k. record endpoint { cache = k })
        (operand_unserved provider.domain fi pointer length s endpoint.cache c e h)
  located pointer length s entries leases endpoint (ok o, c) v h =
      let served =
        operand-IsServed provider.domain fi pointer length s leases endpoint.cache c o v.regions
          h in
      rw served.leased (
        record { peers = v.peers; regions = served.valid },
        (served.mapped, served.described),
        refl,
      )

  pub local_operand-Located :
      (pointer length : ℕ) (s : Option CacheableSpan) (entries leases : List ℕ)
      (endpoint : LibfabricEndpoint)
      → IsHeld entries leases endpoint
      → Located pointer length entries leases endpoint
          (local_operand provider fi pointer length s endpoint)
  unfolding local_operand
  local_operand-Located pointer length s entries leases endpoint v =
      elim (Bool-cases provider.requires_local_mr) [
        | inr p ↦
            let given : local_operand provider fi pointer length s endpoint
                ≡ (ok (record { descriptor = none; lease = none }), endpoint) =
              ground (arith, p) in
            subst (Located pointer length entries leases endpoint) (sym given) (v, (p, refl), refl)
        | inl p ↦
            let (result, cache) = operand provider.domain fi pointer length s endpoint.cache in
            let given : local_operand provider fi pointer length s endpoint
                ≡ (result, record endpoint { cache = cache }) =
              ground (arith, p) in
            subst (Located pointer length entries leases endpoint) (sym given)
              (located pointer length s entries leases endpoint (result, cache) v refl)
      ]
