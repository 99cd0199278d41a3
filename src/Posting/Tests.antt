-- ===== src/Posting/Tests.antt =====
-- Posts at a small input: a write of 100 bytes to a peer that is not known yet.
use vdma.Prelude.{ℕ, [], ◌∷◌, Option, none, true, false}
use vdma.Prelude.Int.{pos}
use vdma.Regions.Valid.{empty, empty-IsValid}
use vdma.Regions.Operand.{CacheableSpan}
use vdma.Peers.{opaque}
use vdma.Peers
use vdma.Peers.Calls.{new-IsValid}
use vdma.Transfer.{InFlight, Prepared, to_peer}
use vdma.Endpoint.{Provider, LibfabricEndpoint}
use vdma.Endpoint.Held.{IsHeld}
use vdma.Posting.{Answers, Quiescing, post}
use vdma.Posting.Posted.{Keeps}
use vdma.Posting.Posted
use vdma.Posting.Sent

abbrev provider : Provider
provider = record { domain = 1; requires_local_mr = true; max_tx = 0 }

abbrev answers : Answers
answers = record {
  fi_av_insert = λ address. (pos 1, 7);
  fi_mr_reg = λ mr. pos 0;
  fi_post = λ call. pos 0;
  now = 0;
  later = 0;
}

abbrev cacheable_span : ℕ → Option CacheableSpan
cacheable_span context = none

abbrev operation : InFlight ℕ
operation = record {
  caller_context = 5;
  client_id = 3;
  length = 100;
  want_checksum = false;
  buffer_pointer = 4096;
  local_lease = none;
  quiesce = none;
}

abbrev write : Prepared ℕ
write = record {
  context = operation;
  client_id = 3;
  peer_address = 10 ∷ [];
  remote_key = 42;
  remote_address = 9000;
  pointer = 4096;
  length = 100;
  direction = to_peer;
  stalled_since = none;
}

abbrev opened : LibfabricEndpoint
opened = record { peer_addresses = Peers.new opaque; cache = empty }

opened-IsHeld : IsHeld [] [] opened
opened-IsHeld = record { peers = new-IsValid opaque; regions = empty-IsValid }

post-Keeps_example :
    Keeps provider [] [] write (post provider cacheable_span answers 1 write opened)
post-Keeps_example =
    Posted.post-Keeps provider cacheable_span answers 1 write [] opened opened-IsHeld

post-Sent_example :
    Sent.Sent provider cacheable_span answers 1 write
      (post provider cacheable_span answers 1 write opened)
post-Sent_example = Sent.post-Sent provider cacheable_span answers 1 write [] opened opened-IsHeld

abbrev waiting : Quiescing ℕ
waiting = record {
  inflight = operation;
  read = record { peer_address = 10 ∷ []; remote_key = 42; remote_address = 9099 };
  stalled_since = none;
}
