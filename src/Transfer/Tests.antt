-- ===== src/Transfer/Tests.antt =====
-- Transfers at small inputs.
use vdma.Prelude.{ℕ, ◌≡◌, refl, [], ◌∷◌, Option, some, true}
use vdma.Errors.{ok}
use vdma.Transfer.{
  Direction, to_peer, TransferRequest, Prepared, resolve, quiesce_read, prepared, prepare,
}
use vdma.Transfer.Prepare.{Resolves, Quiesces}
use vdma.Transfer.Prepare

program : Unit {0}
unfolding resolve quiesce_read prepared prepare
program = tt

-- A context is a buffer; what it allocates is that buffer, however long.
abbrev source : ℕ × ℕ → Option (ℕ × ℕ)
source context = some context

abbrev allocate : ℕ → ℕ × ℕ → Option (ℕ × ℕ) × (ℕ × ℕ)
allocate length context = (some context, context)

abbrev request : Direction → TransferRequest (ℕ × ℕ)
request direction = record {
  client_id = 3;
  peer_address = 10 ∷ [];
  remote_key = 42;
  remote_address = 9000;
  direction = direction;
  want_checksum = true;
  caller_context = (4096, 100);
}

abbrev written : Prepared (ℕ × ℕ)
written =
    prepared (request to_peer) (4096, 100) 4096 100
      (some (record { peer_address = []; remote_key = 42; remote_address = 9099 }))

write : prepare source allocate (request to_peer) true ≡ ok written
unfolding program
write = refl

prepare-eq_ok_example :
    Resolves source allocate to_peer (4096, 100) written.pointer written.length
    × Quiesces source allocate (request to_peer) true written.length written.context.quiesce
    × (written.context.buffer_pointer ≡ written.pointer)
    × (written.context.length ≡ written.length)
    × (written.context.client_id ≡ 3)
    × (written.client_id ≡ 3)
prepare-eq_ok_example = Prepare.prepare-eq_ok source allocate (request to_peer) true written write
