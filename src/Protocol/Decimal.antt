-- ===== src/Protocol/Decimal.antt =====
-- Decimal arguments, `parse_ascii` of crates/dma-libfabric-protocol/src/advertisement.rs, at the
-- unsigned integers that its callers parse. The standard library's `parse` takes one leading `+`,
-- wants a digit, and refuses what overflows; bytes that are no UTF-8 hold no digit.
use vdma.Prelude.{
  ℕ, ◌+◌, ◌-◌, ◌*◌, ◌≤◌, ◌<◌, ◌≡◌, refl, List, [], ◌∷◌, Option, some, none, Bool, true, false, ◌&&◌,
  arith, ltb, leb, ◌==◌, if◌then◌else◌, not,
}

abbrev pub is_digit : ℕ → Bool
is_digit c = leb b'0' c && leb c b'9'

-- The digits, on an accumulator that stays below `limit`.
unfoldable pub parse_digits : ℕ → ℕ → List ℕ → Option ℕ
parse_digits limit acc [] = some acc
parse_digits limit acc (c ∷ text) =
    let next = acc * 10 + (c - b'0') in
    let rest = parse_digits limit next text in if is_digit c && ltb next limit then rest else none

abbrev pub without_sign : List ℕ → List ℕ
without_sign [] = []
without_sign (c ∷ text) = if c == b'+' then text else c ∷ text

abbrev pub parse_some : ℕ → List ℕ → Option ℕ
parse_some limit [] = none
parse_some limit (c ∷ text) = parse_digits limit 0 (c ∷ text)

-- `parse_ascii` at the integer type whose values are those below `limit`.
unfoldable pub parse_ascii : ℕ → List ℕ → Option ℕ
unfolding parse_digits
parse_ascii limit raw = parse_some limit (without_sign raw)

-- What a text of digits stands for, however long it is.
unfoldable pub decimal : ℕ → List ℕ → ℕ
decimal acc [] = acc
decimal acc (c ∷ text) = decimal (acc * 10 + (c - b'0')) text

abbrev pub all_digits : List ℕ → Bool
all_digits [] = true
all_digits (c ∷ text) = is_digit c && all_digits text

abbrev pub is_empty : List ℕ → Bool
is_empty [] = true
is_empty (c ∷ text) = false

decimal-le : (acc : ℕ) (text : List ℕ) → acc ≤ decimal acc text
unfolding decimal
decimal-le acc [] = omega arith
decimal-le acc (c ∷ text) = omega (arith, decimal-le (acc * 10 + (c - b'0')) text)

parse_digits_lem :
    (limit acc : ℕ) (text : List ℕ)
    → acc < limit
    → parse_digits limit acc text
      ≡ (if all_digits text && ltb (decimal acc text) limit then some (decimal acc text) else none)
unfolding parse_digits decimal
parse_digits_lem limit acc [] h = ground arith
parse_digits_lem limit acc (c ∷ text) h = ground (
  arith,
  parse_digits_lem limit (acc * 10 + (c - b'0')) text,
  decimal-le (acc * 10 + (c - b'0')) text,
)

-- An argument is accepted exactly when, past one `+`, it is one digit or more that stand for a
-- number below the end of the type, which is not 0, and then it is that number.
pub parse_ascii_lem :
    (limit : ℕ) (raw : List ℕ)
    → 0 < limit
    → let digits = without_sign raw in
      parse_ascii limit raw ≡ (
        if not (is_empty digits) && all_digits digits && ltb (decimal 0 digits) limit
        then some (decimal 0 digits)
        else none)
unfolding parse_ascii
parse_ascii_lem limit raw h = go (without_sign raw)
  where
    go :
        (digits : List ℕ)
        → parse_some limit digits ≡ (
            if not (is_empty digits) && all_digits digits && ltb (decimal 0 digits) limit
            then some (decimal 0 digits)
            else none)
    go [] = refl
    go (c ∷ text) = parse_digits_lem limit 0 (c ∷ text) h
