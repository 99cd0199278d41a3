-- ===== src/Pipeline/Steps.antt =====
-- The worker's life as steps: a pass of its loop, the pool's run of a batch that it was handed, and
-- the reclaim of memory, which the allocator's hooks do at any time. A message that wakes a parked
-- worker is the first that the next pass takes in, since it is handled by the same code.
use vdma.Prelude.{
  ℕ, ◌<◌, ◌≡◌, refl, List, [], ◌∷◌, ◌++◌, some, Bool, arith, count, count-append, ap, length,
}
use vdma.Errors.{Result, DmaError}
use vdma.HashMap.{get, the_value}
use vdma.Regions.{invalidate}
use vdma.Regions.Valid.{empty, invalidate-IsValid, empty-IsValid}
use vdma.Regions.Leases.{held}
use vdma.Peers.{AddressFormat, PeerAddresses}
use vdma.Peers
use vdma.Peers.Calls.{new-IsValid}
use vdma.Transfer.{InFlight}
use vdma.Endpoint.Reap.{Reaped}
use vdma.Posting.{Answers}
use vdma.Worker.Steps.{start, start-IsCounted}
use vdma.Pipeline.{Setting, WorkerMessage, Pipeline}
use vdma.Pipeline.Passes.{pass, posted_state, run_batch}
use vdma.Pipeline.Places.{live, lease_of, hashing, leases, count-live}
use vdma.Pipeline.Sound.{IsSound}
use vdma.Pipeline.Reclaimed.{count-gather-remove}
use vdma.Pipeline.Dispatched.{AllReported}
use vdma.Pipeline.Kept.{pass-IsSound, run_batch-IsSound}

abbrev pub launched : {T : Type 0} → AddressFormat → ℕ → Pipeline T
launched format outstanding = record {
  accounts = (start (Peers.new format) outstanding).worker;
  cache = empty;
  quiescing = [];
  in_flight = 0;
  flight = [];
  next = 1;
  asked = 0;
  posted_ops = 0;
  crc_pending = [];
  submitted = [];
  drain_spins = 0;
  delivered = [];
  replies = [];
}

module _ {T : Type 0} (setting : Setting T) (answers : ℕ → Answers) where
  -- A step, and the messages that it takes in. What a pass reaps are operations that libfabric
  -- was given.
  pub data Step : Pipeline T → List (WorkerMessage T) → Pipeline T → Type 0 where
    passes :
        (messages : List (WorkerMessage T)) (disconnected : Bool) (reaped : List Reaped)
        (s : Pipeline T)
        → AllReported reaped (posted_state setting answers messages s).flight
        → Step s messages (pass setting answers messages disconnected reaped s).0
    runs :
        (before after : List (List (InFlight T × Result (Unit {0}) DmaError)))
        (batch : List (InFlight T × Result (Unit {0}) DmaError)) (s : Pipeline T)
        → s.submitted ≡ before ++ batch ∷ after
        → Step s [] (run_batch setting answers before batch after s)
    reclaims :
        (start end : ℕ) (s : Pipeline T)
        → Step s [] (record s { cache = invalidate start end s.cache })

  pub data Reach (s : Pipeline T) : List (WorkerMessage T) → Pipeline T → Type 0 where
    here : Reach s [] s
    next :
        {earlier messages : List (WorkerMessage T)} {t u : Pipeline T}
        → Reach s earlier t
        → Step t messages u
        → Reach s (earlier ++ messages) u

  Step-IsSound :
      {s : Pipeline T} {messages : List (WorkerMessage T)} {t : Pipeline T}
      → Step s messages t
      → IsSound 0 s
      → IsSound 0 t
  Step-IsSound (passes messages disconnected reaped s h) v =
      pass-IsSound setting answers messages disconnected reaped s h v
  Step-IsSound (runs before after batch s e) v =
      run_batch-IsSound setting answers before after batch s e v
  Step-IsSound (reclaims start end s) v = record {
    counted = v.counted;
    held = record {
      peers = v.held.peers;
      regions = invalidate-IsValid start end (leases s) s.cache v.held.regions;
    };
    depth = v.depth;
  }

  launched-IsSound : (format : AddressFormat) (n : ℕ) → IsSound {T = T} 0 (launched format n)
  launched-IsSound format n = record {
    counted =
        start-IsCounted setting.source setting.allocate setting.quiesce_writes setting.checksum
          (Peers.new format) n;
    held = record { peers = new-IsValid format; regions = empty-IsValid };
    depth = refl;
  }

  -- Whatever the worker takes in and posts, and whatever libfabric answers, if what it reports is of
  -- operations that it has, the worker's accounts count for each client the operations that are
  -- queued, wait to be quiesced or are with libfabric; its peers and the cache are valid, with the
  -- leases that its operations hold and no other; and `in_flight` is how many operations libfabric
  -- has.
  pub Reach-IsSound :
      (format : AddressFormat) (n : ℕ) {messages : List (WorkerMessage T)} {t : Pipeline T}
      → Reach (launched format n) messages t
      → IsSound 0 t
  Reach-IsSound format n here = launched-IsSound format n
  Reach-IsSound format n (next r s) = Step-IsSound s (Reach-IsSound format n r)

  -- The registration that an operation in flight leases has been made and has not been closed.
  pub lease_open-Reach :
      (format : AddressFormat) (n k r : ℕ) (op : InFlight T) {messages : List (WorkerMessage T)}
      {t : Pipeline T}
      → Reach (launched format n) messages t
      → get k t.flight ≡ some op
      → op.local_lease ≡ some r
      → (r < length t.cache.arcs.values) × (count r t.cache.arcs.dropped ≡ 0)
  lease_open-Reach format n k r op {t = t} reach found leased =
      let v = Reach-IsSound format n reach in
      let (_, dropped) = v.held.regions.accounted r in
      ground (
        arith,
        dropped,
        count-append r (held t.cache.registry) (leases t),
        count-append r (live lease_of t) (hashing lease_of t),
        count-live r lease_of t,
        count-gather-remove r k lease_of op t.flight found,
        ap (λ l. count r (the_value l)) leased,
      )

  -- The worker's count of what is in flight is exact: it never wraps, and what saturates when it
  -- reaps never has to.
  pub in_flight-Reach :
      (format : AddressFormat) (n : ℕ) {messages : List (WorkerMessage T)} {t : Pipeline T}
      → Reach (launched format n) messages t
      → t.in_flight ≡ length t.flight
  in_flight-Reach format n reach = omega (arith, (Reach-IsSound format n reach).depth)
