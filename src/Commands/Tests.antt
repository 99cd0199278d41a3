-- ===== src/Commands/Tests.antt =====
-- Commands at small inputs.
use vdma.Prelude.{
  ℕ, ◌≤◌, ◌<◌, ◌≡◌, refl, List, [], ◌∷◌, Option, none, some, Bool, true, false, ◌⊎◌, get_elem?,
}
use vdma.Errors.{ok, err}
use vdma.Transfer.{
  TransferDone, Completion, Prepared, from_peer, prepare, resolve, quiesce_read, prepared,
}
use vdma.Protocol.Advertisement.{Advertisement}
use vdma.Service.{FabricService, submit, send, register, add_peer, remove_peer, ask, gone}
use vdma.Commands.{
  Buffer, OpToken, get, set, retained, as_bytes, source, allocate, cacheable_span, get_reply,
  checksum_fault, least_key, least_loaded, ValkeyResult, integer, mismatch, failed, set_request,
  exceeds,
}
use vdma.Commands.Served.{
  commit, set_reply, finish_under_gil, finish_batch, Module, complete_batch, least_loaded_server,
  settle, submit_request, start_on, start_transfer, dma_get, dma_set, release_client, dma_hello,
}
use vdma.Commands.Choice
use vdma.Commands.Replies
use vdma.Commands.Started

program : Unit {0}
unfolding submit send register add_peer remove_peer ask as_bytes source allocate cacheable_span
    get_reply checksum_fault commit set_reply finish_under_gil finish_batch complete_batch least_key
    least_loaded least_loaded_server settle submit_request start_on start_transfer dma_get dma_set
    release_client dma_hello prepare resolve quiesce_read prepared
program = tt

-- The keyspace is the list of the values stored, with their keys.
abbrev Keyspace : Type 0
Keyspace = List (ℕ × Buffer)

abbrev set_move : ℕ → Buffer → Keyspace → Option Keyspace
set_move key value keyspace = some ((key, value) ∷ keyspace)

abbrev service : ℕ → Bool → FabricService OpToken
service outstanding running = record {
  sender = true;
  receiver = running;
  sent = [];
  address = 171 ∷ [];
  outstanding = outstanding;
}

abbrev idle : Module set_move
idle = record {
  keyspace = [];
  services = service 2 true ∷ service 1 true ∷ service 1 false ∷ [];
  rotation = 1;
  blocked = 0;
  replies = [];
}

-- The second and the third have as little to do, and the third comes first once it is rotated.
chosen : least_loaded 1 (2 ∷ 1 ∷ 1 ∷ []) ≡ some 2
unfolding program
chosen = refl

least_loaded_lem_example :
    (load : ℕ) × ((get_elem? (2 ∷ 1 ∷ 1 ∷ []) 2 ≡ some load)
      × ((load < 1) ⊎ ((load ≡ 1) × (0 ≤ 2))))
least_loaded_lem_example = Choice.least_loaded_lem 1 2 1 1 (2 ∷ 1 ∷ 1 ∷ []) chosen refl

abbrev advertisement : Advertisement
advertisement = record { address = 10 ∷ []; remote_key = 42; remote_address = 9000 }

-- Its worker is gone, so the client is answered at once.
abbrev refused : ValkeyResult × Module set_move
refused = dma_set set_move 3 advertisement 77 100 (some 5) idle

refused_replies : ◌≡◌ {A = List (ℕ × ValkeyResult)} refused.1.replies ((0, err (failed gone)) ∷ [])
unfolding program
refused_replies = refl

dma_set_lem_example :
    Started.Starts set_move (set_request 3 advertisement 77 100 (some 5)) idle refused
dma_set_lem_example = Started.dma_set_lem set_move 3 advertisement 77 100 (some 5) idle

dma_get_lem_example :
    Started.Gets set_move
      (ok (some (4096, 100)))
      none
      3
      advertisement
      128
      true
      idle
      (dma_get set_move (ok (some (4096, 100))) none 3 advertisement 128 true idle)
dma_get_lem_example =
    Started.dma_get_lem set_move (ok (some (4096, 100))) none 3 advertisement 128 true idle

too_long :
    (dma_get set_move (ok (some (4096, 100))) none 3 advertisement 64 true idle).0
    ≡ err (exceeds 100 64)
unfolding program
too_long = refl

abbrev done : TransferDone
done = record { bytes = 100; checksum = some 5 }

set_reply_lem_example :
    Replies.SetEnds set_move
      (ok done)
      (some (8192, 100))
      77
      (some 5)
      []
      (set_reply set_move (ok done) (some (8192, 100)) 77 (some 5) [])
set_reply_lem_example = Replies.set_reply_lem set_move (ok done) (some (8192, 100)) 77 (some 5) []

stored :
    set_reply set_move (ok done) (some (8192, 100)) 77 (some 5) []
    ≡ (ok (integer 100), (77, (8192, 100)) ∷ [])
unfolding program
stored = refl

corrupt : set_reply set_move (ok done) (some (8192, 100)) 77 (some 6) [] ≡ (err (mismatch 6 5), [])
unfolding program
corrupt = refl

abbrev batch : List (Completion OpToken)
batch =
    record { caller_context = set 4 (some (8192, 100)) 77 (some 5); outcome = ok done }
    ∷ record { caller_context = get 9 (retained (4096, 100)); outcome = ok done }
    ∷ []

abbrev landed : Prepared OpToken
landed = record {
  context = record {
    caller_context = set 0 (some (8192, 100)) 77 none;
    client_id = 3;
    length = 100;
    want_checksum = false;
    buffer_pointer = 8192;
    local_lease = none;
    quiesce = none;
  };
  client_id = 3;
  peer_address = 10 ∷ [];
  remote_key = 42;
  remote_address = 9000;
  pointer = 8192;
  length = 100;
  direction = from_peer 100;
  stalled_since = none;
}

landed_prepared :
    prepare source (allocate (λ length. 8192)) (set_request 3 advertisement 77 100 none 0) true
    ≡ ok landed
unfolding program
landed_prepared = refl

landing-prepare_example : landed.context.caller_context ≡ set 0 (some (8192, 100)) 77 none
landing-prepare_example =
    Replies.landing-prepare (λ length. 8192) (set_request 3 advertisement 77 100 none 0) true landed
      100 0 77 none none refl refl landed_prepared
