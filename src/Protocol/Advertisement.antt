-- ===== src/Protocol/Advertisement.antt =====
-- Where a client's buffer is, crates/dma-libfabric-protocol/src/advertisement.rs, and the arguments
-- of DMA.SET and DMA.GET that begin with it, crates/module/src/entry.rs.
pub mod Fields
use Prim.Native.String.{String}
use vdma.Prelude.{
  ℕ, zero, suc, ◌+◌, ◌-◌, ◌*◌, ◌^◌, ◌≤◌, ◌<◌, ◌≡◌, refl, List, [], ◌∷◌, Option, some, none, Bool,
  true, false, ◌&&◌, not, arith, ltb, leb, ◌==◌, if◌then◌else◌, length, get_elem?,
}
use vdma.Errors.{Result, ok, err}
use vdma.Protocol.Hex.{AdvertisementError, arity, hex, integer, decode_hex}
use vdma.Protocol.Decimal.{parse_ascii}

-- The integer types, by the number of their values.
abbrev pub u64_end : ℕ
u64_end = 2 ^ 64

abbrev pub u32_end : ℕ
u32_end = 2 ^ 32

pub record Advertisement : Type 0 where
  pub address : List ℕ
  pub remote_key : ℕ
  pub remote_address : ℕ

abbrev pub arg_count : ℕ
arg_count = 3

abbrev pub ok_or {ℓ κ} : {A : Type ℓ} {E : Type κ} → Option A → E → Result A E
ok_or none e = err e
ok_or (some a) e = ok a

infixl 5 ◌>>=◌
abbrev pub ◌>>=◌ {ℓ κ μ} :
    {A : Type ℓ} {B : Type κ} {E : Type μ} → Result A E → (A → Result B E) → Result B E
ok a >>= f = f a
err e >>= f = err e

-- `Advertisement::from_fields`.
unfoldable pub from_fields : List (List ℕ) → Result Advertisement AdvertisementError
from_fields (address ∷ remote_key ∷ remote_address ∷ []) = do
  bytes ← decode_hex address
  key ← ok_or (parse_ascii u64_end remote_key) integer
  remote ← ok_or (parse_ascii u64_end remote_address) integer
  ok (record { address = bytes; remote_key = key; remote_address = remote })
from_fields _ = err arity

-- `command_error` puts `ERR ` before the text of the error.
pub data ValkeyError : Type 0 where
  wrong_arity : ValkeyError
  str : String → ValkeyError
  advertisement : AdvertisementError → ValkeyError

abbrev pub command_error {ℓ} : {A : Type ℓ} → Result A AdvertisementError → Result A ValkeyError
command_error (ok a) = ok a
command_error (err e) = err (advertisement e)

unfoldable pub parse_length : List ℕ → Result ℕ ValkeyError
parse_length raw =
    ok_or (parse_ascii u64_end raw) (str "ERR length is not an integer or out of range")

unfoldable pub parse_crc : List ℕ → Result ℕ ValkeyError
parse_crc raw = ok_or (parse_ascii u32_end raw) (str "ERR crc is not an integer or out of range")

pub record DataArgs : Type 0 where
  pub advertisement : Advertisement
  pub length : ℕ
  pub key : List ℕ
  pub crc : Option (List ℕ)

-- An index that the arity check has put in range.
abbrev pub arg : List (List ℕ) → ℕ → List ℕ
arg args i = elim (get_elem? args i) [ none ↦ [] | some a ↦ a ]

abbrev pub base : ℕ
base = 3 + arg_count

unfoldable pub parse_data_args : List (List ℕ) → Result DataArgs ValkeyError
parse_data_args args =
    if not (length args == base) && not (length args == base + 1) then err wrong_arity else do
      place ← command_error (from_fields (arg args 1 ∷ arg args 2 ∷ arg args 3 ∷ []))
      size ← parse_length (arg args (base - 2))
      ok (record {
        advertisement = place;
        length = size;
        key = arg args (base - 1);
        crc = get_elem? args base;
      })
