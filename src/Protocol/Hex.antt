-- ===== src/Protocol/Hex.antt =====
-- Hexadecimal text for opaque bytes, crates/dma-libfabric-protocol/src/advertisement.rs. A text is
-- the list of its bytes.
pub mod RoundTrip
use Prim.Native.Nat.{bit_and, bit_or}
use vdma.Prelude.{
  ℕ, zero, suc, ◌+◌, ◌-◌, ◌*◌, ◌/◌, ◌%◌, ◌≤◌, ◌<◌, ◌≡◌, refl, List, [], ◌∷◌, Option, some, none,
  Bool, true, false, ◌&&◌, arith, ltb, leb, ◌==◌, ==_iff, if◌then◌else◌, length, map, All, ap, inl,
  inr, Option-cases,
}
use vdma.Errors.{Result, ok, err}

pub data AdvertisementError : Type 0 where
  arity hex integer : AdvertisementError

-- `char::from_digit(digit, 16)`, as a byte.
unfoldable pub from_digit : ℕ → Option ℕ
from_digit d = if ltb d 10 then some (d + b'0') else if ltb d 16 then some (d - 10 + b'a') else none

abbrev pub unwrap_or : Option ℕ → ℕ → ℕ
unwrap_or none d = d
unwrap_or (some x) d = x

unfoldable pub encode_hex : List ℕ → List ℕ
unfolding from_digit
encode_hex [] = []
encode_hex (byte ∷ bytes) =
    unwrap_or (from_digit (byte / 16)) b'0'
    ∷ unwrap_or (from_digit (bit_and byte 15)) b'0'
    ∷ encode_hex bytes

-- `char::to_digit(16)` of a byte.
unfoldable pub to_digit : ℕ → Option ℕ
to_digit c =
    if leb b'0' c && leb c b'9'
    then some (c - b'0')
    else if leb b'a' c && leb c b'f'
    then some (c - b'a' + 10)
    else if leb b'A' c && leb c b'F'
    then some (c - b'A' + 10)
    else none

-- `(high << 4 | low) as u8`.
abbrev pub join : ℕ → ℕ → ℕ
join high low = bit_or (high * 16) low % 256

-- The pairs of digits; the collection stops at the first that is not hexadecimal.
unfoldable pub decode_pairs : List ℕ → Result (List ℕ) AdvertisementError
unfolding to_digit
decode_pairs [] = ok []
decode_pairs (c ∷ []) = ok []
decode_pairs (c ∷ d ∷ text) =
    let rest = decode_pairs text in
    elim (to_digit c) [
      | none ↦ err hex
      | some high ↦ elim (to_digit d) [
        | none ↦ err hex
        | some low ↦ elim rest [ err e ↦ err e | ok bytes ↦ ok (join high low ∷ bytes) ]
      ]
    ]

unfoldable pub decode_hex : List ℕ → Result (List ℕ) AdvertisementError
decode_hex text = if length text % 2 == 0 then decode_pairs text else err hex
