-- ===== src/Transfer/Prepare.antt =====
-- What `prepare` of crates/dma-libfabric/src/server_dma_worker.rs makes of a request.
use vdma.Prelude.{
  ℕ, ◌+◌, ◌≤◌, ◌<◌, ◌≡◌, refl, Option, none, some, Bool, true, false, ◌&&◌, arith, ltb, Bool-cases,
  Option-cases, inl, inr, subst, ap,
}
use vdma.Errors.{Result, ok, err, Result-cases}
use vdma.Regions.Operand.{usize_end}
use vdma.Transfer.{
  Direction, to_peer, from_peer, TransferRequest, QuiesceRead, Completion, Prepared, resolve,
  quiesce_read, is_to_peer, prepared, prepare,
}

module _ {T : Type 0} (source : T → Option (ℕ × ℕ)) (allocate : ℕ → T → Option (ℕ × ℕ) × T) where
  -- The operand is what the context supplies: all of its source, or as much of its landing buffer
  -- as was asked for.
  abbrev pub Resolves : Direction → T → ℕ → ℕ → Type 0
  Resolves to_peer context pointer length = source context ≡ some (pointer, length)
  Resolves (from_peer wanted) context pointer length =
      (length ≡ wanted)
      × ((room : ℕ) × ((allocate wanted context).0 ≡ some (pointer, room)) × (length ≤ room))

  -- The read is of the last byte that the write reaches, inside the address space.
  abbrev pub Quiesces : TransferRequest T → Bool → ℕ → Option QuiesceRead → Type 0
  Quiesces request quiesce_writes length none =
      (quiesce_writes && is_to_peer request.direction && ltb 0 length) ≡ false
  Quiesces request quiesce_writes length (some read) =
      ((quiesce_writes && is_to_peer request.direction && ltb 0 length) ≡ true)
      × (read.remote_key ≡ request.remote_key)
      × (read.remote_address + 1 ≡ request.remote_address + length)
      × (read.remote_address < usize_end)

  resolve-Resolves :
      (direction : Direction) (context context' : T) (pointer length : ℕ)
      → resolve source allocate direction context ≡ (ok (pointer, length), context')
      → Resolves direction context pointer length
  unfolding resolve
  resolve-Resolves to_peer context context' pointer length h = ground arith
  resolve-Resolves (from_peer wanted) context context' pointer length h =
      elim (Option-cases (allocate wanted context).0) [
        | inl p ↦ absurd (ground (arith, p, h))
        | inr ((landing, room), p) ↦ elim (Bool-cases (ltb room wanted)) [
          | inl q ↦ absurd (ground (arith, p, q, h))
          | inr q ↦
              (ground (arith, p, q, h), (room, ground (arith, p, q, h), ground (arith, p, q, h)))
        ]
      ]

  quiesce_read-Quiesces :
      (request : TransferRequest T) (quiesce_writes : Bool) (length : ℕ) (q : Option QuiesceRead)
      → quiesce_read request quiesce_writes length ≡ ok q
      → Quiesces request quiesce_writes length q
  unfolding quiesce_read
  quiesce_read-Quiesces request quiesce_writes length none h = ground arith
  quiesce_read-Quiesces request quiesce_writes length (some read) h =
      (ground arith, ground arith, ground arith, ground arith)

  -- What `prepare` makes of a request: an operand that its context supplied, of the requested
  -- length if it is to land in a buffer and then within that buffer, the same in the box as in the
  -- post; and a quiesce read exactly if writes are quiesced and this is one with bytes, of the
  -- last byte that it writes.
  pub prepare-eq_ok :
      (request : TransferRequest T) (quiesce_writes : Bool) (p : Prepared T)
      → prepare source allocate request quiesce_writes ≡ ok p
      → Resolves request.direction request.caller_context p.pointer p.length
        × Quiesces request quiesce_writes p.length p.context.quiesce
        × (p.context.buffer_pointer ≡ p.pointer)
        × (p.context.length ≡ p.length)
        × (p.context.client_id ≡ request.client_id)
        × (p.client_id ≡ request.client_id)
  unfolding prepare prepared
  prepare-eq_ok request quiesce_writes p h =
      let got = resolve source allocate request.direction request.caller_context in
      elim (Result-cases got.0) [
        | inr (e, f) ↦ absurd (ground (arith, f, h))
        | inl ((pointer, length), f) ↦
            elim (Result-cases (quiesce_read request quiesce_writes length)) [
              | inr (e, g) ↦ absurd (ground (arith, f, g, h))
              | inl (q, g) ↦
                  let made : prepared request got.1 pointer length q ≡ p =
                    ground (arith, f, g, h) in
                  subst
                    (λ (r : Prepared T).
                      Resolves request.direction request.caller_context r.pointer r.length
                      × Quiesces request quiesce_writes r.length r.context.quiesce
                      × (r.context.buffer_pointer ≡ r.pointer)
                      × (r.context.length ≡ r.length)
                      × (r.context.client_id ≡ request.client_id)
                      × (r.client_id ≡ request.client_id))
                    made
                    (
                      resolve-Resolves request.direction request.caller_context got.1 pointer length
                          (ap (λ x. (x, got.1)) f),
                      quiesce_read-Quiesces request quiesce_writes length q g,
                      refl,
                      refl,
                      refl,
                      refl,
                    )
            ]
      ]

  -- What is prepared holds no lease yet, and its context is the request's or what `allocate` made
  -- of it.
  pub prepare-local_lease :
      (request : TransferRequest T) (quiesce_writes : Bool) (p : Prepared T)
      → prepare source allocate request quiesce_writes ≡ ok p
      → p.context.local_lease ≡ none
  unfolding prepare prepared
  prepare-local_lease request quiesce_writes p h = ground arith

  -- A transfer keeps the name that its context has, if `allocate` keeps it.
  module _ (id : T → ℕ)
      (kept : (length : ℕ) (context : T) → id (allocate length context).1 ≡ id context) where
    abbrev pub HasName : ℕ → Result (Prepared T) (Completion T) → Type 0
    HasName name (ok p) = id p.context.caller_context ≡ name
    HasName name (err done) = id done.caller_context ≡ name

    resolve-named :
        (direction : Direction) (context : T)
        → id (resolve source allocate direction context).1 ≡ id context
    unfolding resolve
    resolve-named to_peer context = ground arith
    resolve-named (from_peer length) context = ground (arith, kept length context)

    pub prepare-named :
        (request : TransferRequest T) (quiesce_writes : Bool)
        → HasName (id request.caller_context) (prepare source allocate request quiesce_writes)
    unfolding prepare prepared
    prepare-named request quiesce_writes =
        let named = resolve-named request.direction request.caller_context in
        elim (Result-cases (resolve source allocate request.direction request.caller_context).0) [
          | inr (e, f) ↦ rw (f, prepare) named
          | inl ((pointer, length), f) ↦
              elim (Result-cases (quiesce_read request quiesce_writes length)) [
                | inr (e, g) ↦ rw (f, g, prepare) named
                | inl (q, g) ↦ rw (f, g, prepare, prepared) named
              ]
        ]
