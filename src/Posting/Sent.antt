-- ===== src/Posting/Sent.antt =====
-- What libfabric is handed when an operation is posted.
use vdma.Prelude.{
  ℕ, ◌≡◌, refl, List, [], ◌∷◌, Option, none, some, arith, subst, sym, Bool-cases, inl, inr,
  get_elem?,
}
use vdma.Prelude.Int.{ℤ, is_zero}
use vdma.Arc
use vdma.HashMap.{get}
use vdma.Errors.{Result, ok, err, DmaError}
use vdma.Regions.Operand.{CacheableSpan, LocalOperand}
use vdma.Peers.{drop_entry}
use vdma.Peers.Handle.{Serves}
use vdma.Connection.{Post, post_out, post_in}
use vdma.Endpoint.{Provider, LibfabricEndpoint, insert_peer, connection, drop_option}
use vdma.Endpoint.Held.{
  IsHeld, Inserted, insert_peer-Inserted, Located, local_operand-Located, Covers,
  drop_option-Covers,
}
use vdma.Transfer.{Prepared, is_to_peer}
use vdma.Posting.{Answers, settle, post_located, post_inserted, post, posting, drop_peer}
use vdma.Posting.Posted.{drop_peer-Covers}

module _ {T : Type 0} (provider : Provider) (cacheable_span : T → Option CacheableSpan)
    (answers : Answers) (context : ℕ) where
  -- The call is a write of the operand or a read into it, as the direction has it, under the peer's
  -- key and address. The client's entry at the endpoint is registered with exactly the address that
  -- the peer advertised, and the call is to that entry's handle. The descriptor is that of a
  -- registration at the endpoint whose memory, on its domain, holds the operand, or there is none
  -- where the provider needs none.
  pub record IsFaithful (p : Prepared T) (call : Post) (endpoint : LibfabricEndpoint) : Type 0 where
    pub writes : call.writes ≡ is_to_peer p.direction
    pub pointer : call.pointer ≡ p.pointer
    pub length : call.length ≡ p.length
    pub remote_key : call.remote_key ≡ p.remote_key
    pub remote_address : call.remote_address ≡ p.remote_address
    pub same_context : call.context ≡ context
    pub entry : ℕ
    pub held : get p.client_id endpoint.peer_addresses.by_client ≡ some entry
    pub registered :
        get_elem? endpoint.peer_addresses.arcs.values entry
        ≡ some (record { peer = call.peer; address = p.peer_address })
    pub described : Covers provider p.pointer p.length call.descriptor endpoint

  posting-IsFaithful :
      (p : Prepared T) (peer : ℕ) (o : LocalOperand) (endpoint : LibfabricEndpoint)
      → Covers provider p.pointer p.length o.descriptor endpoint
      → Serves p.client_id p.peer_address peer endpoint.peer_addresses
      → IsFaithful p (posting context p peer o endpoint) endpoint
  unfolding posting post_out post_in connection
  posting-IsFaithful p peer o endpoint d (held, (registered, found, address)) = record {
    writes = ground arith;
    pointer = ground arith;
    length = ground arith;
    remote_key = ground arith;
    remote_address = ground arith;
    same_context = ground arith;
    entry = peer;
    held = held;
    registered = ground (arith, found, address);
    described = subst (λ o'. Covers provider p.pointer p.length o' endpoint) (sym (ground arith)) d;
  }

  drop_option-IsFaithful :
      (p : Prepared T) (call : Post) (dropped : Option ℕ) (endpoint : LibfabricEndpoint)
      → IsFaithful p call endpoint
      → IsFaithful p call (drop_option dropped endpoint)
  unfolding drop_option
  drop_option-IsFaithful p call none endpoint f = f
  drop_option-IsFaithful p call (some r) endpoint f = record {
    writes = f.writes;
    pointer = f.pointer;
    length = f.length;
    remote_key = f.remote_key;
    remote_address = f.remote_address;
    same_context = f.same_context;
    entry = f.entry;
    held = f.held;
    registered = f.registered;
    described =
        drop_option-Covers provider p.pointer p.length call.descriptor (some r) endpoint
          f.described;
  }

  drop_peer-IsFaithful :
      (p : Prepared T) (call : Post) (peer : ℕ) (endpoint : LibfabricEndpoint)
      → IsFaithful p call endpoint
      → IsFaithful p call (drop_peer peer endpoint)
  unfolding drop_peer drop_entry Arc.release
  drop_peer-IsFaithful p call peer endpoint f = record {
    writes = f.writes;
    pointer = f.pointer;
    length = f.length;
    remote_key = f.remote_key;
    remote_address = f.remote_address;
    same_context = f.same_context;
    entry = f.entry;
    held = f.held;
    registered = f.registered;
    described =
        drop_peer-Covers provider p.pointer p.length call.descriptor peer endpoint f.described;
  }

  -- A code that comes back is libfabric's answer to a faithful call.
  abbrev pub Sent : Prepared T → (Result ℤ DmaError × Prepared T) × LibfabricEndpoint → Type 0
  Sent p ((ok code, p'), endpoint) =
      (call : Post) × ((code ≡ answers.fi_post call) × IsFaithful p call endpoint)
  Sent p ((err e, p'), endpoint) = Unit {0}

  settle-Sent :
      (p : Prepared T) (lease : Option ℕ) (call : Post) (endpoint : LibfabricEndpoint)
      → IsFaithful p call endpoint
      → Sent p (settle (answers.fi_post call) p lease endpoint)
  unfolding settle
  settle-Sent p lease call endpoint f = elim (Bool-cases (is_zero (answers.fi_post call))) [
    | inl z ↦
        rw (z, settle)
          (call, (refl, drop_option-IsFaithful p call p.context.local_lease endpoint f))
    | inr z ↦ rw (z, settle) (call, (refl, drop_option-IsFaithful p call lease endpoint f))
  ]

  drop_peer-Sent :
      (p : Prepared T) (r : Result ℤ DmaError) (p' : Prepared T) (peer : ℕ)
      (endpoint : LibfabricEndpoint)
      → Sent p ((r, p'), endpoint)
      → Sent p ((r, p'), drop_peer peer endpoint)
  drop_peer-Sent p (err e) p' peer endpoint s = tt
  drop_peer-Sent p (ok code) p' peer endpoint (call, (answered, f)) =
      (call, (answered, drop_peer-IsFaithful p call peer endpoint f))

  post_located-Sent :
      (peer : ℕ) (p : Prepared T) (entries leases : List ℕ) (before endpoint : LibfabricEndpoint)
      (r : Result LocalOperand DmaError)
      → Serves p.client_id p.peer_address peer before.peer_addresses
      → Located provider answers.fi_mr_reg p.pointer p.length entries leases before (r, endpoint)
      → Sent p (post_located provider cacheable_span answers context peer p r endpoint)
  unfolding post_located
  post_located-Sent peer p entries leases before endpoint (err e) s h = tt
  post_located-Sent peer p entries leases before endpoint (ok o) s (_, (covers, same_lease), same) =
      settle-Sent p o.lease (posting context p peer o endpoint) endpoint (
        posting-IsFaithful p peer o endpoint
          (subst (λ l. Covers provider p.pointer p.length l endpoint) (sym same_lease) covers)
          (subst (Serves p.client_id p.peer_address peer) (sym same) s))

  post_inserted-Sent :
      (p : Prepared T) (leases : List ℕ) (r : Result ℕ DmaError) (endpoint : LibfabricEndpoint)
      → Inserted leases p.client_id p.peer_address (r, endpoint)
      → Sent p (post_inserted provider cacheable_span answers context p r endpoint)
  unfolding post_inserted
  post_inserted-Sent p leases (err e) endpoint v = tt
  post_inserted-Sent p leases (ok peer) endpoint (v, serves) = drop_peer-Sent p _ _ peer _ (
      post_located-Sent peer p (peer ∷ []) leases endpoint _ _ serves (
        local_operand-Located provider answers.fi_mr_reg p.pointer p.length
          (cacheable_span p.context.caller_context) (peer ∷ []) leases endpoint v))

  -- A code that comes back from a post is what libfabric answered to a call that is faithful to the
  -- operation: of its operand, in its direction, under the key and address that the peer gave, to
  -- the handle of the client's entry at the endpoint, which is registered for exactly the peer's
  -- address, and with the descriptor of a registration at the endpoint that holds the operand or,
  -- where the provider needs none, without.
  pub post-Sent :
      (p : Prepared T) (leases : List ℕ) (endpoint : LibfabricEndpoint)
      → IsHeld [] leases endpoint
      → Sent p (post provider cacheable_span answers context p endpoint)
  unfolding post
  post-Sent p leases endpoint v =
      let (inserted, endpoint') =
        insert_peer answers.fi_av_insert p.client_id p.peer_address endpoint in
      post_inserted-Sent p leases inserted endpoint'
        (insert_peer-Inserted answers.fi_av_insert p.client_id p.peer_address leases endpoint v)
