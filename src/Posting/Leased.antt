-- ===== src/Posting/Leased.antt =====
-- The lease that a posted operation is left with, where the provider needs operands registered.
use vdma.Prelude.{ℕ, ◌≡◌, ◌≢◌, refl, Option, none, true, arith, Bool-cases, inl, inr, length}
use vdma.Prelude.Int.{ℤ, is_zero, is_negative}
use vdma.Errors.{Result, ok, err, DmaError}
use vdma.Regions.{Cache, MemoryRegion}
use vdma.Regions.Operand.{CacheableSpan, LocalOperand, operand, operand_miss}
use vdma.Transfer.{Prepared}
use vdma.Endpoint.{Provider, LibfabricEndpoint, local_operand, insert_peer, connection}
use vdma.Posting.{
  Answers, Quiescing, QuiescePost, posted, again, failed, handed_over, settle, post_located,
  post_inserted, post, quiesce_code, quiesce_located, quiesce_inserted, post_quiesce, posting,
}
use vdma.Connection.{post_in}

abbrev pub IsLeased : Provider → Option ℕ → Type 0
IsLeased provider lease = provider.requires_local_mr ≡ true → lease ≢ none

operand-IsLeased :
    (domain : ℕ) (fi : MemoryRegion → ℤ) (start length : ℕ) (span : Option CacheableSpan)
    (c : Cache) (o : LocalOperand)
    → (operand domain fi start length span c).0 ≡ ok o
    → o.lease ≢ none
unfolding operand operand_miss
operand-IsLeased domain fi start length span c o h e = ground (arith, h, e)

local_operand-IsLeased :
    (provider : Provider) (fi : MemoryRegion → ℤ) (pointer length : ℕ) (span : Option CacheableSpan)
    (endpoint : LibfabricEndpoint) (o : LocalOperand)
    → (local_operand provider fi pointer length span endpoint).0 ≡ ok o
    → IsLeased provider o.lease
unfolding local_operand
local_operand-IsLeased provider fi pointer length span endpoint o h r =
    operand-IsLeased provider.domain fi pointer length span endpoint.cache o (ground (arith, h, r))

module _ {T : Type 0} where
  -- What libfabric took has a lease.
  unfoldable pub Taken : Provider → Result ℤ DmaError × Prepared T → Type 0
  Taken provider (err e, p) = Unit {0}
  Taken provider (ok code, p) = is_zero code ≡ true → IsLeased provider p.context.local_lease

  settle-Taken :
      (provider : Provider) (code : ℤ) (p : Prepared T) (lease : Option ℕ)
      (endpoint : LibfabricEndpoint)
      → IsLeased provider lease
      → Taken provider (settle code p lease endpoint).0
  unfolding Taken settle handed_over
  settle-Taken provider code p lease endpoint h = elim (Bool-cases (is_zero code)) [
    | inl z ↦ rw (z, settle) (λ _. h)
    | inr z ↦ rw (z, settle) (λ e. cc)
  ]

  pub post-Taken :
      (provider : Provider) (span : T → Option CacheableSpan) (answers : Answers) (context : ℕ)
      (p : Prepared T) (endpoint : LibfabricEndpoint)
      → Taken provider (post provider span answers context p endpoint).0
  unfolding Taken post
  post-Taken provider span answers context p endpoint =
      let (inserted, endpoint') =
        insert_peer answers.fi_av_insert p.client_id p.peer_address endpoint in
      after inserted endpoint'
    where
      located :
          (peer : ℕ) (r : Result LocalOperand DmaError) (e : LibfabricEndpoint)
          → ((o : LocalOperand) → r ≡ ok o → IsLeased provider o.lease)
          → Taken provider (post_located provider span answers context peer p r e).0
      located peer (err x) e h = unfold post_located in tt
      located peer (ok o) e h =
          unfold post_located in
          settle-Taken provider (answers.fi_post (posting context p peer o e)) p o.lease e
            (h o refl)

      after :
          (r : Result ℕ DmaError) (e : LibfabricEndpoint)
          → Taken provider (post_inserted provider span answers context p r e).0
      after (err x) e = unfold post_inserted in tt
      after (ok peer) e =
          unfold post_inserted in
          located peer _ _ (
            local_operand-IsLeased provider answers.fi_mr_reg p.pointer p.length
              (span p.context.caller_context) e)

  unfoldable pub QuiesceTaken : Provider → QuiescePost T → Type 0
  QuiesceTaken provider (posted op) = IsLeased provider op.local_lease
  QuiesceTaken provider (again w) = Unit {0}
  QuiesceTaken provider (failed op e) = Unit {0}

  quiesce_code-Taken :
      (provider : Provider) (fi_eagain : ℕ) (code : ℤ) (w : Quiescing T)
      → IsLeased provider w.inflight.local_lease
      → QuiesceTaken provider (quiesce_code fi_eagain code w)
  unfolding quiesce_code QuiesceTaken
  quiesce_code-Taken provider fi_eagain code w h = elim (Bool-cases (is_zero code)) [
    | inl z ↦ rw (z, quiesce_code) h
    | inr z ↦ elim (Bool-cases (is_negative fi_eagain code)) [
      | inl n ↦ rw (z, n, quiesce_code) tt
      | inr n ↦ rw (z, n, quiesce_code) tt
    ]
  ]

  pub post_quiesce-Taken :
      (provider : Provider) (fi_eagain : ℕ) (answers : Answers) (context landing : ℕ)
      (w : Quiescing T) (endpoint : LibfabricEndpoint)
      → QuiesceTaken provider (post_quiesce provider fi_eagain answers context landing w endpoint).0
  unfolding QuiesceTaken post_quiesce
  post_quiesce-Taken provider fi_eagain answers context landing w endpoint =
      let (inserted, endpoint') =
        insert_peer answers.fi_av_insert w.inflight.client_id w.read.peer_address endpoint in
      after inserted endpoint'
    where
      located :
          (peer : ℕ) (r : Result LocalOperand DmaError) (e : LibfabricEndpoint)
          → ((o : LocalOperand) → r ≡ ok o → IsLeased provider o.lease)
          → QuiesceTaken provider
              (quiesce_located provider fi_eagain answers context landing peer w r e).0
      located peer (err x) e h = unfold quiesce_located in tt
      located peer (ok o) e h =
          unfold quiesce_located in
          quiesce_code-Taken provider fi_eagain
            (answers.fi_post (
              post_in (connection e peer w.read.remote_key w.read.remote_address) landing 1
                o.descriptor context))
            (record w { inflight = record w.inflight { local_lease = o.lease } }) (h o refl)

      after :
          (r : Result ℕ DmaError) (e : LibfabricEndpoint)
          → QuiesceTaken provider
              (quiesce_inserted provider fi_eagain answers context landing w r e).0
      after (err x) e = unfold quiesce_inserted in tt
      after (ok peer) e =
          unfold quiesce_inserted in
          located peer _ _ (local_operand-IsLeased provider answers.fi_mr_reg landing 1 none e)
