-- ===== src/Commands.antt =====
-- The commands that the module serves with a transfer, crates/module/src/transfer.rs. A value or a
-- buffer is its first address and its length; a blocked client and a key are numbers. The Valkey
-- API is parameters: what a key holds, whether a value can be retained, the buffers it allocates,
-- and `set_move`, which may refuse. Tracing and the log are left out.
pub mod Served
pub mod Choice
pub mod Chosen
pub mod Replies
pub mod Started
mod Tests
use Prim.Native.String.{String}
use vdma.Prelude.{
  ℕ, suc, zero, ◌+◌, ◌-◌, ◌*◌, ◌^◌, ◌%◌, ◌≡◌, List, [], ◌∷◌, ◌++◌, Option, none, some, Bool, true,
  false, not, ◌&&◌, ◌||◌, ltb, ◌==◌, if◌then◌else◌, length, map, get_elem?,
}
use vdma.Errors.{Result, ok, err, DmaError, fabric, text}
use vdma.Regions.Operand.{CacheableSpan, new_span}
use vdma.Transfer.{Direction, to_peer, from_peer, TransferDone, TransferRequest, Completion}
use vdma.Protocol.Hex.{encode_hex}
use vdma.Protocol.Advertisement.{Advertisement}
use vdma.Service.{FabricService, submit, remove_peer, gone}

abbrev pub Buffer : Type 0
Buffer = ℕ × ℕ

pub data HeldValue : Type 0 where
  retained copied : Buffer → HeldValue

unfoldable pub as_bytes : HeldValue → Buffer
as_bytes (retained value) = value
as_bytes (copied bytes) = bytes

-- A set's token has its client, its destination, its key and the checksum expected.
pub data OpToken : Type 0 where
  get : ℕ → HeldValue → OpToken
  set : ℕ → Option Buffer → ℕ → Option ℕ → OpToken

pub data ValkeyValue : Type 0 where
  null no_reply : ValkeyValue
  integer : ℕ → ValkeyValue
  array : List ℕ → ValkeyValue

pub data ValkeyError : Type 0 where
  failed : DmaError → ValkeyError
  str : String → ValkeyError
  mismatch : ℕ → ℕ → ValkeyError
  exceeds : ℕ → ℕ → ValkeyError

abbrev pub no_workers : DmaError
no_workers = fabric (text "no fabric workers")

abbrev pub ValkeyResult : Type 0
ValkeyResult = Result ValkeyValue ValkeyError

unfoldable pub source : OpToken → Option Buffer
unfolding as_bytes
source (get blocked held) = some (as_bytes held)
source (set blocked destination key expected_crc) = none

-- `create_uninitialized` gives the address of a new value of the length.
unfoldable pub allocate : (ℕ → ℕ) → ℕ → OpToken → Option Buffer × OpToken
allocate create_uninitialized length (set blocked destination key expected_crc) =
    let buffer : Buffer = (create_uninitialized length, length) in
    (some buffer, set blocked (some buffer) key expected_crc)
allocate create_uninitialized length (get blocked held) = (none, get blocked held)

abbrev pub span_of : (ℕ → Bool) → Buffer → Option CacheableSpan
span_of ensure_covered bytes = if ensure_covered bytes.0 then new_span bytes.0 bytes.1 else none

unfoldable pub cacheable_span : (ℕ → Bool) → OpToken → Option CacheableSpan
unfolding as_bytes new_span
cacheable_span ensure_covered (get blocked held) = span_of ensure_covered (as_bytes held)
cacheable_span ensure_covered (set blocked none key expected_crc) = none
cacheable_span ensure_covered (set blocked (some bytes) key expected_crc) =
    span_of ensure_covered bytes

unfoldable pub get_reply : Result TransferDone DmaError → ValkeyResult
get_reply (err error) = err (failed error)
get_reply (ok done) = elim done.checksum [
  | some checksum ↦ ok (array (done.bytes ∷ checksum ∷ []))
  | none ↦ ok (integer done.bytes)
]

abbrev pub checksum_or_default : Option ℕ → ℕ
checksum_or_default none = 0
checksum_or_default (some checksum) = checksum

-- The error of a checksum that is not the one expected.
unfoldable pub checksum_fault : Option ℕ → Option ℕ → Option ValkeyError
checksum_fault none checksum = none
checksum_fault (some expected) checksum =
    let actual = checksum_or_default checksum in
    if not (actual == expected) then some (mismatch expected actual) else none

-- The order of the keys of `min_by_key`.
abbrev pub before : ℕ × ℕ → ℕ × ℕ → Bool
before (a, b) (c, d) = ltb a c || ((a == c) && ltb b d)

-- The first server of the least key, from one on, with its key: the load, and the rotated index. The
-- sum that is rotated has no bound here; a count of commands so near 2 ^ 64 does not occur.
unfoldable pub least_key : ℕ → ℕ → ℕ → List ℕ → Option (ℕ × (ℕ × ℕ))
least_key servers rotation index [] = none
least_key servers rotation index (load ∷ loads) =
    let key : ℕ × ℕ = (load, (index + rotation) % servers) in
    elim (least_key servers rotation (suc index) loads) [
      | none ↦ some (index, key)
      | some (other, least) ↦ if before least key then some (other, least) else some (index, key)
    ]

unfoldable pub least_loaded : ℕ → List ℕ → Option ℕ
unfolding least_key
least_loaded rotation loads = elim (least_key (length loads) rotation 0 loads) [
  | none ↦ none
  | some (index, _) ↦ some index
]

-- The service at the place, replaced.
abbrev pub replace {ℓ} : {A : Type ℓ} → ℕ → A → List A → List A
replace i a [] = []
replace zero a (x ∷ xs) = a ∷ xs
replace (suc i) a (x ∷ xs) = x ∷ replace i a xs

abbrev pub get_request : ℕ → Advertisement → Bool → HeldValue → ℕ → TransferRequest OpToken
get_request client_id advertisement want_checksum held blocked = record {
  client_id = client_id;
  peer_address = advertisement.address;
  remote_key = advertisement.remote_key;
  remote_address = advertisement.remote_address;
  direction = to_peer;
  want_checksum = want_checksum;
  caller_context = get blocked held;
}

abbrev pub is_some : Option ℕ → Bool
is_some none = false
is_some (some _) = true

abbrev pub set_request : ℕ → Advertisement → ℕ → ℕ → Option ℕ → ℕ → TransferRequest OpToken
set_request client_id advertisement key length expected_crc blocked = record {
  client_id = client_id;
  peer_address = advertisement.address;
  remote_key = advertisement.remote_key;
  remote_address = advertisement.remote_address;
  direction = from_peer length;
  want_checksum = is_some expected_crc;
  caller_context = set blocked none key expected_crc;
}
