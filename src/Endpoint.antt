-- ===== src/Endpoint.antt =====
-- A local libfabric endpoint, crates/dma-libfabric/src/endpoint.rs: its operands and peers, and how
-- it reaps its completion queue. The peers of the endpoint and the cache that its registrations
-- are in are those of Peers and Regions.
pub mod Reap
pub mod Held
mod Tests
use vdma.Prelude.{
  ℕ, ◌-◌, List, [], ◌∷◌, ◌++◌, Option, none, some, Bool, not, if◌then◌else◌, get_elem?,
}
use vdma.Prelude.Int.{ℤ}
use vdma.Errors.{Result, ok, err, DmaError}
use vdma.Regions.{MemoryRegion, Cache, clear_domain, drop_lease}
use vdma.Regions.Operand.{CacheableSpan, LocalOperand, operand, pin}
use vdma.Peers.{PeerAddresses, RegisteredAddress, handle, release, clear}
use vdma.Connection.{Connection}

-- What an opened endpoint says of its provider.
pub record Provider : Type 0 where
  pub domain : ℕ
  pub requires_local_mr : Bool
  pub max_tx : ℕ

pub record LibfabricEndpoint : Type 0 where
  pub peer_addresses : PeerAddresses
  pub cache : Cache

unfoldable pub insert_peer :
    (List ℕ → ℤ × ℕ) → ℕ → List ℕ → LibfabricEndpoint → Result ℕ DmaError × LibfabricEndpoint
insert_peer fi_av_insert client_id peer_address endpoint =
    let (peer, peers) = handle fi_av_insert client_id peer_address endpoint.peer_addresses in
    (peer, record endpoint { peer_addresses = peers })

unfoldable pub release_peer : ℕ → LibfabricEndpoint → LibfabricEndpoint
release_peer client_id endpoint = record endpoint {
  peer_addresses = release client_id endpoint.peer_addresses;
}

unfoldable pub pin_region :
    Provider
    → (MemoryRegion → ℤ)
    → ℕ
    → ℕ
    → LibfabricEndpoint
    → Result (Unit {0}) DmaError × LibfabricEndpoint
pin_region provider fi_mr_reg base length endpoint =
    let (result, cache) = pin provider.domain fi_mr_reg base length endpoint.cache in
    if not provider.requires_local_mr
    then (ok tt, endpoint)
    else (result, record endpoint { cache = cache })

unfoldable pub local_operand :
    Provider
    → (MemoryRegion → ℤ)
    → ℕ
    → ℕ
    → Option CacheableSpan
    → LibfabricEndpoint
    → Result LocalOperand DmaError × LibfabricEndpoint
local_operand provider fi_mr_reg pointer length cacheable endpoint =
    let (result, cache) =
      operand provider.domain fi_mr_reg pointer length cacheable endpoint.cache in
    if not provider.requires_local_mr
    then (ok (record { descriptor = none; lease = none }), endpoint)
    else (result, record endpoint { cache = cache })

-- `peer.handle()`: the handle of an entry. An entry that was never made does not occur.
abbrev pub peer_handle : ℕ → LibfabricEndpoint → ℕ
peer_handle entry endpoint = elim (get_elem? endpoint.peer_addresses.arcs.values entry) [
  | some registered ↦ registered.peer
  | none ↦ 0
]

unfoldable pub connection : LibfabricEndpoint → ℕ → ℕ → ℕ → Connection
connection endpoint entry remote_key remote_address = record {
  peer = peer_handle entry endpoint;
  remote_key = remote_key;
  remote_address = remote_address;
}

-- A lease that is dropped, if there is one.
unfoldable pub drop_option : Option ℕ → LibfabricEndpoint → LibfabricEndpoint
drop_option none endpoint = endpoint
drop_option (some lease) endpoint = record endpoint { cache = drop_lease lease endpoint.cache }

-- The `Drop` of an endpoint, up to the closing of its fabric objects.
unfoldable pub drop_endpoint : Provider → LibfabricEndpoint → LibfabricEndpoint
drop_endpoint provider endpoint = record {
  peer_addresses = clear endpoint.peer_addresses;
  cache = clear_domain provider.domain endpoint.cache;
}
