-- ===== src/Protocol/Tests.antt =====
-- The tests of crates/dma-libfabric-protocol/src/advertisement.rs, and the theorems at such inputs.
use vdma.Prelude.{
  ℕ, ◌≡◌, ◌≢◌, refl, List, [], ◌∷◌, some, none, arith, ltb, ◌&&◌, not, if◌then◌else◌, map,
  get_elem?, length, ◌⊎◌,
}
use vdma.Errors.{ok, err}
use vdma.Protocol.Hex.{
  hex, arity, integer, encode_hex, decode_hex, decode_pairs, to_digit, from_digit,
}
use vdma.Protocol.Hex.RoundTrip.{AllBytes, lower}
use vdma.Protocol.Hex.RoundTrip
use vdma.Protocol.Decimal.{parse_ascii, parse_digits, decimal, without_sign, is_empty, all_digits}
use vdma.Protocol.Decimal
use vdma.Protocol.Advertisement.{
  Advertisement, from_fields, DataArgs, parse_data_args, parse_length, parse_crc, u64_end, arg,
}
use vdma.Protocol.Advertisement.Fields.{Reads}
use vdma.Protocol.Advertisement.Fields

program : Unit {0}
unfolding encode_hex decode_hex decode_pairs to_digit from_digit parse_ascii parse_digits decimal
    from_fields parse_data_args parse_length parse_crc
program = tt

-- "01007fffab", "42" and "139638282147448".
abbrev address_text : List ℕ
address_text = b'0' ∷ b'1' ∷ b'0' ∷ b'0' ∷ b'7' ∷ b'f' ∷ b'f' ∷ b'f' ∷ b'a' ∷ b'b' ∷ []

abbrev address_bytes : List ℕ
address_bytes = 0x01 ∷ 0x00 ∷ 0x7f ∷ 0xff ∷ 0xab ∷ []

abbrev key_text : List ℕ
key_text = b'4' ∷ b'2' ∷ []

abbrev remote_text : List ℕ
remote_text =
    b'1' ∷ b'3' ∷ b'9' ∷ b'6' ∷ b'3' ∷ b'8' ∷ b'2' ∷ b'8' ∷ b'2' ∷ b'1' ∷ b'4' ∷ b'7' ∷ b'4' ∷ b'4'
    ∷ b'8' ∷ []

abbrev decoded : Advertisement
decoded = record { address = address_bytes; remote_key = 42; remote_address = 139638282147448 }

parses_the_wire_fields : from_fields (address_text ∷ key_text ∷ remote_text ∷ []) ≡ ok decoded
unfolding program
parses_the_wire_fields = refl

rejects_malformed_fields :
    (from_fields (key_text ∷ key_text ∷ []) ≡ err arity)
    × (from_fields ((b'a' ∷ b'b' ∷ b'c' ∷ []) ∷ key_text ∷ remote_text ∷ []) ≡ err hex)
    × (from_fields (address_text ∷ (b'n' ∷ []) ∷ remote_text ∷ []) ≡ err integer)
unfolding program
rejects_malformed_fields = (refl, refl, refl)

-- 4294967296 is no `u32`.
overflow :
    parse_crc (b'4' ∷ b'2' ∷ b'9' ∷ b'4' ∷ b'9' ∷ b'6' ∷ b'7' ∷ b'2' ∷ b'9' ∷ b'6' ∷ []) ≢ ok 0
unfolding program
overflow h = cc

decode_hex-encode_hex_example : decode_hex (encode_hex address_bytes) ≡ ok address_bytes
decode_hex-encode_hex_example = RoundTrip.decode_hex-encode_hex address_bytes (omega arith)

decode_hex_text_example :
    AllBytes (0xab ∷ []) × (encode_hex (0xab ∷ []) ≡ map lower (b'A' ∷ b'b' ∷ []))
unfolding program
decode_hex_text_example = RoundTrip.decode_hex_text (b'A' ∷ b'b' ∷ []) (0xab ∷ []) refl

parse_ascii_lem_example : parse_ascii u64_end (b'+' ∷ key_text) ≡ (
    if not (is_empty key_text) && all_digits key_text && ltb (decimal 0 key_text) u64_end
    then some (decimal 0 key_text)
    else none)
parse_ascii_lem_example = Decimal.parse_ascii_lem u64_end (b'+' ∷ key_text) (omega arith)

abbrev key_name : List ℕ
key_name = b'k' ∷ []

abbrev command : List (List ℕ)
command = (b'g' ∷ []) ∷ encode_hex address_bytes ∷ key_text ∷ remote_text ∷ key_text ∷ key_name ∷ []

abbrev read_command : DataArgs
read_command = record { advertisement = decoded; length = 42; key = key_name; crc = none }

parse_data_args-encode_hex_example : parse_data_args command ≡ ok read_command
unfolding decimal
parse_data_args-encode_hex_example =
    Fields.parse_data_args-encode_hex (b'g' ∷ []) address_bytes key_text remote_text key_text
      key_name none 42 139638282147448 42 (omega arith) (refl, refl, refl, omega arith)
      (refl, refl, refl, omega arith) (refl, refl, refl, omega arith)

parse_data_args-eq_ok_example :
    ((length command ≡ 6) ⊎ (length command ≡ 7))
    × Reads decoded (arg command 1) (arg command 2) (arg command 3)
    × (parse_ascii u64_end (arg command 4) ≡ some 42)
    × (get_elem? command 5 ≡ some key_name)
    × (get_elem? command 6 ≡ none)
parse_data_args-eq_ok_example =
    Fields.parse_data_args-eq_ok command read_command parse_data_args-encode_hex_example
