-- ===== src/Commands/Replies.antt =====
-- What the clients are answered, and what is stored.
use vdma.Prelude.{
  ℕ, ◌≡◌, refl, List, [], ◌∷◌, Option, none, some, Bool, arith, ◌⊎◌, inl, inr, Option-cases, subst,
  sym, ap, map,
}
use vdma.Errors.{Result, ok, err, DmaError}
use vdma.Transfer.{
  TransferDone, TransferRequest, Completion, Prepared, from_peer, prepare, resolve, quiesce_read,
  prepared,
}
use vdma.Commands.{
  Buffer, OpToken, get, set, ValkeyResult, ValkeyError, integer, failed, checksum_or_default,
  checksum_fault, source, allocate,
}
use vdma.Commands.Served.{commit, set_reply, finish_under_gil, finish_batch}

-- The checksum expected, if there is one, is that of the bytes that came.
abbrev pub Matches : Option ℕ → TransferDone → Type 0
Matches none done = Unit {0}
Matches (some expected) done = checksum_or_default done.checksum ≡ expected

checksum_fault-Matches :
    (expected : Option ℕ) (done : TransferDone)
    → checksum_fault expected done.checksum ≡ none
    → Matches expected done
unfolding checksum_fault
checksum_fault-Matches none done h = tt
checksum_fault-Matches (some expected) done h = ground (arith, h)

module _ {K : Type 0} (set_move : ℕ → Buffer → K → Option K) where
  -- How a DMA.SET ends: stored or not.
  abbrev pub SetEnds :
      Result TransferDone DmaError → Option Buffer → ℕ → Option ℕ → K → ValkeyResult × K → Type 0
  SetEnds outcome destination key expected keyspace (reply, keyspace') =
      ((done : TransferDone) × ((buffer : Buffer) × ((outcome ≡ ok done)
            × (destination ≡ some buffer)
            × Matches expected done
            × (set_move key buffer keyspace ≡ some keyspace')
            × (reply ≡ ok (integer done.bytes)))))
      ⊎ ((e : ValkeyError) × ((reply ≡ err e) × (keyspace' ≡ keyspace)))

  commit_lem :
      (done : TransferDone) (destination : Option Buffer) (key : ℕ) (expected : Option ℕ)
      (keyspace : K)
      → Matches expected done
      → SetEnds
          (ok done)
          destination
          key
          expected
          keyspace
          (commit set_move done.bytes destination key keyspace)
  unfolding commit
  commit_lem done none key expected keyspace m = inr (_, (refl, refl))
  commit_lem done (some buffer) key expected keyspace m =
      elim (Option-cases (set_move key buffer keyspace)) [
        | inl p ↦ rw (p, commit) (inr (_, (refl, refl)))
        | inr (stored, p) ↦ rw (p, commit) (inl (done, (buffer, (refl, refl, m, p, refl))))
      ]

  -- A DMA.SET that ends has stored the landing buffer and answers with its bytes, and then the transfer
  -- succeeded and the checksum that the client gave, if it did, is that of the bytes; or it
  -- answers with an error and the keyspace is as it was.
  pub set_reply_lem :
      (outcome : Result TransferDone DmaError) (destination : Option Buffer) (key : ℕ)
      (expected : Option ℕ) (keyspace : K)
      → SetEnds outcome destination key expected keyspace
          (set_reply set_move outcome destination key expected keyspace)
  unfolding set_reply commit
  set_reply_lem (err error) destination key expected keyspace = inr (failed error, (refl, refl))
  set_reply_lem (ok done) destination key expected keyspace =
      elim (Option-cases (checksum_fault expected done.checksum)) [
        | inr (fault, p) ↦ rw (p, set_reply) (inr (fault, (refl, refl)))
        | inl p ↦
            rw (p, set_reply)
              (commit_lem done destination key expected keyspace
                (checksum_fault-Matches expected done p))
      ]

  -- Every completion of a batch is answered once, in the batch's order, and to its own client.
  abbrev pub client : OpToken → ℕ
  client (get blocked held) = blocked
  client (set blocked destination key expected_crc) = blocked

  finish_under_gil-client :
      (token : OpToken) (outcome : Result TransferDone DmaError) (keyspace : K)
      → (finish_under_gil set_move token outcome keyspace).0.0 ≡ client token
  unfolding finish_under_gil
  finish_under_gil-client (get blocked held) outcome keyspace = refl
  finish_under_gil-client (set blocked destination key expected_crc) outcome keyspace = refl

  pub finish_batch-clients :
      (batch : List (Completion OpToken)) (keyspace : K)
      → map (λ r. r.0) (finish_batch set_move batch keyspace).0
        ≡ map (λ c. client c.caller_context) batch
  unfolding finish_batch finish_under_gil
  finish_batch-clients [] keyspace = refl
  finish_batch-clients (done ∷ batch) keyspace =
      let (first, stored) = finish_under_gil set_move done.caller_context done.outcome keyspace in
      subst
        (λ c.
          c ∷ map (λ r. r.0) (finish_batch set_move batch stored).0
          ≡ client done.caller_context ∷ map (λ c. client c.caller_context) batch)
        (sym (finish_under_gil-client done.caller_context done.outcome keyspace))
        (ap (λ l. client done.caller_context ∷ l) (finish_batch-clients batch stored))

-- What DMA.SET leaves of a token that was prepared: the buffer that the read lands in is the
-- destination that is committed.
pub landing-prepare :
    (create_uninitialized : ℕ → ℕ) (request : TransferRequest OpToken) (quiesce_writes : Bool)
    (p : Prepared OpToken) (wanted blocked key : ℕ) (before : Option Buffer) (expected : Option ℕ)
    → request.direction ≡ from_peer wanted
    → request.caller_context ≡ set blocked before key expected
    → prepare source (allocate create_uninitialized) request quiesce_writes ≡ ok p
    → p.context.caller_context ≡ set blocked (some (p.pointer, p.length)) key expected
unfolding prepare resolve quiesce_read prepared allocate
landing-prepare create_uninitialized request quiesce_writes p wanted blocked key before expected d t
      h =
    ground (arith, d, t, h)
