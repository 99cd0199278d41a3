-- ===== src/Posting/Posted.antt =====
-- What a post does to the endpoint and to the operation, on each of its ways out.
use vdma.Prelude.{
  ℕ, ◌≡◌, refl, List, [], ◌∷◌, ◌++◌, Option, none, some, true, false, ◌⊎◌, arith, Bool-cases, inl,
  inr, subst, sym, count, count-append,
}
use vdma.Prelude.Int.{ℤ, is_zero}
use vdma.Errors.{Result, ok, err, DmaError}
use vdma.HashMap.{the_value}
use vdma.Regions.Operand.{CacheableSpan, LocalOperand}
use vdma.Regions.Valid.{IsValid-same}
use vdma.Peers.Clients.{drop_entry-IsValid}
use vdma.Endpoint.{Provider, LibfabricEndpoint, insert_peer, drop_option}
use vdma.Endpoint.Held.{
  IsHeld, Inserted, insert_peer-Inserted, Located, local_operand-Located, drop_option-IsHeld,
  Covers, drop_option-Covers,
}
use vdma.Transfer.{InFlight, Prepared, QuiesceRead}
use vdma.Posting.{
  with_address, Answers, drop_peer, handed_over, settle, post_located, post_inserted, post, posting,
}

pub IsHeld-same :
    (entries hs ks : List ℕ) (endpoint : LibfabricEndpoint)
    → ((i : ℕ) → count i hs ≡ count i ks)
    → IsHeld entries hs endpoint
    → IsHeld entries ks endpoint
IsHeld-same entries hs ks endpoint e v = record {
  peers = v.peers;
  regions = IsValid-same hs ks endpoint.cache e v.regions;
}

pub drop_peer-IsHeld :
    (e : ℕ) (leases : List ℕ) (endpoint : LibfabricEndpoint)
    → IsHeld (e ∷ []) leases endpoint
    → IsHeld [] leases (drop_peer e endpoint)
unfolding drop_peer
drop_peer-IsHeld e leases endpoint v = record {
  peers = drop_entry-IsValid e [] endpoint.peer_addresses v.peers;
  regions = v.regions;
}

pub drop_peer-Covers :
    (provider : Provider) (pointer length : ℕ) (lease : Option ℕ) (peer : ℕ)
    (endpoint : LibfabricEndpoint)
    → Covers provider pointer length lease endpoint
    → Covers provider pointer length lease (drop_peer peer endpoint)
unfolding drop_peer
drop_peer-Covers provider pointer length none peer endpoint c = c
drop_peer-Covers provider pointer length (some lease) peer endpoint c = c

-- Of two leases, the first may be dropped or the second.
pub drop_second :
    (a b : Option ℕ) (entries leases : List ℕ) (endpoint : LibfabricEndpoint)
    → IsHeld entries (the_value a ++ (the_value b ++ leases)) endpoint
    → IsHeld entries (the_value a ++ leases) (drop_option b endpoint)
drop_second a b entries leases endpoint v =
    drop_option-IsHeld b entries (the_value a ++ leases) endpoint (
      IsHeld-same entries _ _ endpoint
        (λ i. omega (
          arith,
          count-append i (the_value a) (the_value b ++ leases),
          count-append i (the_value b) leases,
          count-append i (the_value b) (the_value a ++ leases),
          count-append i (the_value a) leases,
        ))
        v)

-- The quiesce read of an operation that was handed over: it has taken the peer's address.
abbrev pub ReadOf : List ℕ → Option QuiesceRead → Option QuiesceRead → Type 0
ReadOf address none after = after ≡ none
ReadOf address (some read) after =
    after
    ≡ some (record {
      peer_address = address;
      remote_key = read.remote_key;
      remote_address = read.remote_address;
    })

ReadOf-with_address :
    (address : List ℕ) (read : Option QuiesceRead) → ReadOf address read (with_address address read)
ReadOf-with_address address none = refl
ReadOf-with_address address (some read) = refl

module _ {T : Type 0} where
  -- The operation stays the caller's own, whoever has the lease.
  abbrev pub SameOperation : InFlight T → InFlight T → Type 0
  SameOperation op op' =
      (op'.caller_context ≡ op.caller_context)
      × (op'.client_id ≡ op.client_id)
      × (op'.length ≡ op.length)
      × (op'.want_checksum ≡ op.want_checksum)
      × (op'.buffer_pointer ≡ op.buffer_pointer)

  -- An operation that libfabric took, with a lease on memory that holds its operand.
  abbrev pub Handed : Provider → Prepared T → Prepared T → LibfabricEndpoint → Type 0
  Handed provider p p' endpoint =
      Covers provider p.pointer p.length p'.context.local_lease endpoint
      × ReadOf p.peer_address p.context.quiesce p'.context.quiesce

  -- And one that it did not take is what it was.
  abbrev pub After :
      Provider → Prepared T → Result ℤ DmaError → Prepared T → LibfabricEndpoint → Type 0
  After provider p (err e) p' endpoint = p' ≡ p
  After provider p (ok code) p' endpoint =
      ((is_zero code ≡ true) × Handed provider p p' endpoint) ⊎ ((is_zero code ≡ false) × (p' ≡ p))

  -- After a post, posted or not, the lease that the operation holds is accounted for, and no other
  -- was added.
  abbrev pub Keeps :
      Provider
      → List ℕ
      → List ℕ
      → Prepared T
      → (Result ℤ DmaError × Prepared T) × LibfabricEndpoint
      → Type 0
  Keeps provider entries leases p ((r, p'), endpoint) =
      IsHeld entries (the_value p'.context.local_lease ++ leases) endpoint
      × SameOperation p.context p'.context
      × After provider p r p' endpoint

  settle-Keeps :
      (provider : Provider) (code : ℤ) (p : Prepared T) (lease : Option ℕ) (entries leases : List ℕ)
      (endpoint : LibfabricEndpoint)
      → IsHeld entries (the_value lease ++ (the_value p.context.local_lease ++ leases)) endpoint
      → Covers provider p.pointer p.length lease endpoint
      → Keeps provider entries leases p (settle code p lease endpoint)
  unfolding settle handed_over
  settle-Keeps provider code p lease entries leases endpoint v c =
      elim (Bool-cases (is_zero code)) [
        | inl z ↦
            rw (z, settle)
              (
                drop_second lease p.context.local_lease entries leases endpoint v,
                (refl, refl, refl, refl, refl),
                inl (
                  z,
                  (
                    drop_option-Covers provider p.pointer p.length lease p.context.local_lease
                        endpoint c,
                    ReadOf-with_address p.peer_address p.context.quiesce,
                  ),
                ),
              )
        | inr z ↦
            rw (z, settle)
              (
                drop_option-IsHeld lease entries (the_value p.context.local_lease ++ leases)
                    endpoint v,
                (refl, refl, refl, refl, refl),
                inr (z, refl),
              )
      ]

  drop_peer-After :
      (provider : Provider) (p : Prepared T) (r : Result ℤ DmaError) (p' : Prepared T) (peer : ℕ)
      (endpoint : LibfabricEndpoint)
      → After provider p r p' endpoint
      → After provider p r p' (drop_peer peer endpoint)
  unfolding drop_peer
  drop_peer-After provider p (err e) p' peer endpoint a = a
  drop_peer-After provider p (ok code) p' peer endpoint (inr a) = inr a
  drop_peer-After provider p (ok code) p' peer endpoint (inl (z, (c, q))) =
      inl (
        z,
        (drop_peer-Covers provider p.pointer p.length p'.context.local_lease peer endpoint c, q),
      )

  module _ (provider : Provider) (cacheable_span : T → Option CacheableSpan) (answers : Answers)
      (context : ℕ) where
    post_located-Keeps :
        (peer : ℕ) (p : Prepared T) (entries leases : List ℕ) (before endpoint : LibfabricEndpoint)
        (r : Result LocalOperand DmaError)
        → IsHeld entries (the_value p.context.local_lease ++ leases) before
        → Located provider answers.fi_mr_reg p.pointer p.length entries
            (the_value p.context.local_lease ++ leases)
            before
            (r, endpoint)
        → Keeps provider entries leases p
            (post_located provider cacheable_span answers context peer p r endpoint)
    unfolding post_located
    post_located-Keeps peer p entries leases before endpoint (err e) v same = (
      subst (IsHeld entries (the_value p.context.local_lease ++ leases)) (sym same) v,
      (refl, refl, refl, refl, refl),
      refl,
    )
    post_located-Keeps peer p entries leases before endpoint (ok o) v (held, described, _) =
        settle-Keeps provider (answers.fi_post (posting context p peer o endpoint)) p o.lease
          entries leases endpoint held described.0

    post_inserted-Keeps :
        (p : Prepared T) (leases : List ℕ) (r : Result ℕ DmaError) (endpoint : LibfabricEndpoint)
        → Inserted
            (the_value p.context.local_lease ++ leases)
            p.client_id
            p.peer_address
            (r, endpoint)
        → Keeps provider [] leases p
            (post_inserted provider cacheable_span answers context p r endpoint)
    unfolding post_inserted
    post_inserted-Keeps p leases (err e) endpoint v = (v, (refl, refl, refl, refl, refl), refl)
    post_inserted-Keeps p leases (ok peer) endpoint (v, _) =
        let located =
          local_operand-Located provider answers.fi_mr_reg p.pointer p.length
            (cacheable_span p.context.caller_context) (peer ∷ [])
            (the_value p.context.local_lease ++ leases) endpoint v in
        let (held, same, after) =
          post_located-Keeps peer p (peer ∷ []) leases endpoint _ _ v located in
        (drop_peer-IsHeld peer _ _ held, same, drop_peer-After provider p _ _ peer _ after)

    -- Whatever libfabric answers, a post leaves the endpoint with the invariant: no clone of the
    -- peer's entry stays behind, and of the leases only the operation's own may differ. If
    -- libfabric took the operation, that lease is on memory of the endpoint's domain that holds the
    -- operand, or the provider needs none, and the operation is what it was but for the lease and
    -- for its quiesce read, if it has one, which has the peer's address now; else nothing of the
    -- operation has changed.
    pub post-Keeps :
        (p : Prepared T) (leases : List ℕ) (endpoint : LibfabricEndpoint)
        → IsHeld [] (the_value p.context.local_lease ++ leases) endpoint
        → Keeps provider [] leases p (post provider cacheable_span answers context p endpoint)
    unfolding post
    post-Keeps p leases endpoint v =
        let (inserted, endpoint') =
          insert_peer answers.fi_av_insert p.client_id p.peer_address endpoint in
        post_inserted-Keeps p leases inserted endpoint' (
          insert_peer-Inserted answers.fi_av_insert p.client_id p.peer_address
            (the_value p.context.local_lease ++ leases) endpoint v)
