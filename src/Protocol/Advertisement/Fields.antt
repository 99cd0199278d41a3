-- ===== src/Protocol/Advertisement/Fields.antt =====
-- What an accepted command holds, crates/module/src/entry.rs.
use vdma.Prelude.{
  ℕ, zero, suc, ◌<◌, ◌≡◌, refl, List, [], ◌∷◌, Option, some, none, arith, length, get_elem?, ◌⊎◌,
  map, ap, ◌∙◌, true, false, ltb,
}
use vdma.Errors.{ok}
use vdma.Protocol.Hex.{decode_hex, encode_hex}
use vdma.Protocol.Hex.RoundTrip.{AllBytes, decode_hex_text, decode_hex-encode_hex, lower}
use vdma.Protocol.Decimal.{
  parse_ascii, parse_ascii_lem, is_empty, all_digits, decimal, without_sign,
}
use vdma.Protocol.Advertisement.{
  Advertisement, from_fields, u64_end, DataArgs, parse_data_args, parse_length, arg,
}

parse_ascii-lt :
    (limit : ℕ) (raw : List ℕ) (n : ℕ) → 0 < limit → parse_ascii limit raw ≡ some n → n < limit
parse_ascii-lt limit raw n h e = ground (arith, parse_ascii_lem limit raw h)

-- An advertisement is read from three fields, each by its own decoding.
pub record Reads (a : Advertisement) (address remote_key remote_address : List ℕ) : Type 0 where
  pub bytes : decode_hex address ≡ ok a.address
  pub key : parse_ascii u64_end remote_key ≡ some a.remote_key
  pub remote : parse_ascii u64_end remote_address ≡ some a.remote_address

from_fields-Reads :
    (address remote_key remote_address : List ℕ) (a : Advertisement)
    → from_fields (address ∷ remote_key ∷ remote_address ∷ []) ≡ ok a
    → Reads a address remote_key remote_address
unfolding from_fields
from_fields-Reads address remote_key remote_address a h = ground arith

-- The fields of an accepted advertisement are in range: the address is bytes, whose text is the
-- field in lower case, and the key and the remote address are 64-bit numbers.
pub from_fields_range :
    (address remote_key remote_address : List ℕ) (a : Advertisement)
    → from_fields (address ∷ remote_key ∷ remote_address ∷ []) ≡ ok a
    → AllBytes a.address
      × (encode_hex a.address ≡ map lower address)
      × (a.remote_key < u64_end)
      × (a.remote_address < u64_end)
from_fields_range address remote_key remote_address a h =
    let reads = from_fields-Reads address remote_key remote_address a h in
    let (valid, same) = decode_hex_text address a.address reads.bytes in
    (
      valid,
      same,
      parse_ascii-lt u64_end remote_key a.remote_key (omega arith) reads.key,
      parse_ascii-lt u64_end remote_address a.remote_address (omega arith) reads.remote,
    )

get_elem?-arg :
    (args : List (List ℕ)) (i : ℕ) → i < length args → get_elem? args i ≡ some (arg args i)
get_elem?-arg [] i h = elim h [ ]
get_elem?-arg (a ∷ args) zero h = refl
get_elem?-arg (a ∷ args) (suc i) h = get_elem?-arg args i (omega arith)

parse_data_args_parts :
    (args : List (List ℕ)) (d : DataArgs)
    → parse_data_args args ≡ ok d
    → ((length args ≡ 6) ⊎ (length args ≡ 7))
      × (from_fields (arg args 1 ∷ arg args 2 ∷ arg args 3 ∷ []) ≡ ok d.advertisement)
      × (parse_length (arg args 4) ≡ ok d.length)
      × (arg args 5 ≡ d.key)
      × (get_elem? args 6 ≡ d.crc)
unfolding parse_data_args
parse_data_args_parts args d h = ground arith

parse_length_lem :
    (raw : List ℕ) (n : ℕ) → parse_length raw ≡ ok n → parse_ascii u64_end raw ≡ some n
unfolding parse_length
parse_length_lem raw n h = ground arith

-- A command is accepted only with six arguments or seven, and then its advertisement is that of
-- its second to fourth, its length the number that the fifth stands for, its key the sixth, and
-- its checksum the seventh, if there is one.
pub parse_data_args-eq_ok :
    (args : List (List ℕ)) (d : DataArgs)
    → parse_data_args args ≡ ok d
    → ((length args ≡ 6) ⊎ (length args ≡ 7))
      × Reads d.advertisement (arg args 1) (arg args 2) (arg args 3)
      × (parse_ascii u64_end (arg args 4) ≡ some d.length)
      × (get_elem? args 5 ≡ some d.key)
      × (get_elem? args 6 ≡ d.crc)
parse_data_args-eq_ok args d h =
    let (size, place, len, key, crc) = parse_data_args_parts args d h in
    (
      size,
      from_fields-Reads (arg args 1) (arg args 2) (arg args 3) d.advertisement place,
      parse_length_lem (arg args 4) d.length len,
      get_elem?-arg args 5 (omega arith) ∙ ap some key,
      crc,
    )

abbrev pub trailing : Option (List ℕ) → List (List ℕ)
trailing none = []
trailing (some crc) = crc ∷ []

-- A text of decimal digits, one at least, that stands for a 64-bit number.
abbrev pub IsNumber : List ℕ → ℕ → Type 0
IsNumber text n =
    (is_empty text ≡ false) × (all_digits text ≡ true) × (decimal 0 text ≡ n) × (n < u64_end)

without_sign-digits : (text : List ℕ) → all_digits text ≡ true → without_sign text ≡ text
without_sign-digits [] h = refl
without_sign-digits (c ∷ text) h = ground (arith, h)

parse_ascii-IsNumber : (text : List ℕ) (n : ℕ) → IsNumber text n → parse_ascii u64_end text ≡ some n
parse_ascii-IsNumber text n (full, digits, stands, small) =
    let read = parse_ascii_lem u64_end text (omega arith) in
    let same = without_sign-digits text digits in
    let below : ltb (decimal 0 text) u64_end ≡ true = ground (arith, stands, small) in
    read ∙ rw (same, full, digits, below) (ap some stands)

-- A client that writes an address of bytes in hexadecimal, and its numbers in decimal digits that
-- stand for 64-bit numbers, is read as it meant, with or without a checksum at the end.
pub parse_data_args-encode_hex :
    (command address remote_key remote_address size key : List ℕ) (crc : Option (List ℕ))
    (k r n : ℕ)
    → AllBytes address
    → IsNumber remote_key k
    → IsNumber remote_address r
    → IsNumber size n
    → parse_data_args
        (command ∷ encode_hex address ∷ remote_key ∷ remote_address ∷ size ∷ key ∷ trailing crc)
      ≡ ok (record {
        advertisement = record { address = address; remote_key = k; remote_address = r };
        length = n;
        key = key;
        crc = crc;
      })
unfolding parse_data_args from_fields parse_length
parse_data_args-encode_hex command address remote_key remote_address size key none k r n h p q s =
    rw
      (
        decode_hex-encode_hex address h,
        parse_ascii-IsNumber remote_key k p,
        parse_ascii-IsNumber remote_address r q,
        parse_ascii-IsNumber size n s,
      )
      refl
parse_data_args-encode_hex command address remote_key remote_address size key (some crc) k r n h p q
      s =
    rw
      (
        decode_hex-encode_hex address h,
        parse_ascii-IsNumber remote_key k p,
        parse_ascii-IsNumber remote_address r q,
        parse_ascii-IsNumber size n s,
      )
      refl
