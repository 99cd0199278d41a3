-- ===== src/Protocol/Hex/RoundTrip.antt =====
-- Decoding undoes encoding, and what decodes is the text of its bytes in some letter case.
use Prim.Native.Nat.{bit_and}
use vdma.Prelude.{
  ℕ, ◌+◌, ◌*◌, ◌/◌, ◌%◌, ◌<◌, ◌≡◌, refl, ◌∙◌, subst, sym, List, [], ◌∷◌, some, none, Bool, true,
  false, ◌&&◌, arith, ltb, leb, ◌==◌, if◌then◌else◌, length, map, inl, inr, Option-cases,
}
use vdma.Prelude.Bytes.{all_below, all_below_sound}
use vdma.Errors.{Result-cases, ok}
use vdma.Protocol.Hex.{from_digit, unwrap_or, encode_hex, to_digit, join, decode_pairs, decode_hex}

abbrev pub AllBytes : List ℕ → Type 0
AllBytes [] = Unit {0}
AllBytes (b ∷ bs) = (b < 256) × AllBytes bs

abbrev pub high : ℕ → ℕ
high byte = unwrap_or (from_digit (byte / 16)) b'0'

abbrev pub low : ℕ → ℕ
low byte = unwrap_or (from_digit (bit_and byte 15)) b'0'

-- The digits of a byte give it back.
abbrev joined : ℕ → Bool
joined byte = elim (to_digit (high byte)) [
  | none ↦ false
  | some h ↦ elim (to_digit (low byte)) [ none ↦ false | some l ↦ join h l == byte ]
]

joined_table : all_below 256 joined ≡ true
unfolding all_below to_digit from_digit
joined_table = refl

decode_pairs-encode_hex :
    (bytes : List ℕ) → AllBytes bytes → decode_pairs (encode_hex bytes) ≡ ok bytes
unfolding encode_hex decode_pairs
decode_pairs-encode_hex [] h = refl
decode_pairs-encode_hex (byte ∷ bytes) h =
    ground
      (arith, all_below_sound 256 joined byte joined_table h.0, decode_pairs-encode_hex bytes h.1)

length-encode_hex : (bytes : List ℕ) → length (encode_hex bytes) ≡ 2 * length bytes
unfolding encode_hex
length-encode_hex [] = refl
length-encode_hex (byte ∷ bytes) = omega (arith, length-encode_hex bytes)

-- Every list of numbers below 256 survives the round trip through its text.
pub decode_hex-encode_hex :
    (bytes : List ℕ) → AllBytes bytes → decode_hex (encode_hex bytes) ≡ ok bytes
unfolding decode_hex
decode_hex-encode_hex bytes h =
    ground (arith, length-encode_hex bytes, decode_pairs-encode_hex bytes h)

-- A letter in lower case, anything else as it is.
abbrev pub lower : ℕ → ℕ
lower c = if leb b'A' c && leb c b'Z' then c + 32 else c

abbrev splits : ℕ → ℕ → Bool
splits h l = (join h l / 16 == h) && (bit_and (join h l) 15 == l) && ltb (join h l) 256

splits_table : all_below 16 (λ h. all_below 16 (splits h)) ≡ true
unfolding all_below
splits_table = refl

splits_all : (h l : ℕ) → h < 16 → l < 16 → splits h l ≡ true
splits_all h l p q =
    all_below_sound 16 (splits h) l
      (all_below_sound 16 (λ k. all_below 16 (splits k)) h splits_table p) q

join_fields :
    (h l : ℕ)
    → h < 16
    → l < 16
    → (join h l / 16 ≡ h) × (bit_and (join h l) 15 ≡ l) × (join h l < 256)
join_fields h l p q = ground (arith, splits_all h l p q)

to_digit-from_digit :
    (c d : ℕ) → to_digit c ≡ some d → (d < 16) × (unwrap_or (from_digit d) b'0' ≡ lower c)
unfolding to_digit from_digit
to_digit-from_digit c d h = ground arith

-- What a pair of digits decodes to.
decode_pairs-cons :
    (c d : ℕ) (text bytes : List ℕ)
    → decode_pairs (c ∷ d ∷ text) ≡ ok bytes
    → (h : ℕ) × (l : ℕ) × (rest : List ℕ) × (to_digit c ≡ some h)
      × (to_digit d ≡ some l)
      × (decode_pairs text ≡ ok rest)
      × (bytes ≡ join h l ∷ rest)
unfolding decode_pairs
decode_pairs-cons c d text bytes e = elim (Option-cases (to_digit c)) [
  | inl p ↦ absurd (ground arith)
  | inr (h, p) ↦ elim (Option-cases (to_digit d)) [
    | inl q ↦ absurd (ground arith)
    | inr (l, q) ↦ elim (Result-cases (decode_pairs text)) [
      | inr (f, r) ↦ absurd (ground arith)
      | inl (rest, r) ↦ (h, l, rest, p, q, r, ground arith)
    ]
  ]
]

encode_hex-cons :
    (byte h l : ℕ) (rest : List ℕ)
    → byte / 16 ≡ h
    → bit_and byte 15 ≡ l
    → encode_hex (byte ∷ rest)
      ≡ unwrap_or (from_digit h) b'0' ∷ unwrap_or (from_digit l) b'0' ∷ encode_hex rest
unfolding encode_hex
encode_hex-cons byte h l rest p q = rw (p, q) refl

decode_pairs_text :
    (text bytes : List ℕ)
    → length text % 2 ≡ 0
    → decode_pairs text ≡ ok bytes
    → AllBytes bytes × (encode_hex bytes ≡ map lower text)
unfolding decode_pairs encode_hex
decode_pairs_text [] bytes even e = ground arith
decode_pairs_text (c ∷ []) bytes even e = absurd (omega arith)
decode_pairs_text (c ∷ d ∷ text) bytes even e =
    let (h, l, rest, p, q, r, s) = decode_pairs-cons c d text bytes e in
    let (valid, same) = decode_pairs_text text rest (omega arith) r in
    let (h_lt, h_c) = to_digit-from_digit c h p in
    let (l_lt, l_d) = to_digit-from_digit d l q in
    let (top, bottom, byte) = join_fields h l h_lt l_lt in
    subst (λ bs. AllBytes bs × (encode_hex bs ≡ map lower (c ∷ d ∷ text))) (sym s)
      ((byte, valid), encode_hex-cons (join h l) h l rest top bottom ∙ cc (h_c, l_d, same))

-- A text that decodes is an even number of hexadecimal digits, the lower-case form of which is the
-- text of what it decodes to, and it decodes to bytes.
pub decode_hex_text :
    (text bytes : List ℕ)
    → decode_hex text ≡ ok bytes
    → AllBytes bytes × (encode_hex bytes ≡ map lower text)
unfolding decode_hex
decode_hex_text text bytes e = decode_pairs_text text bytes (ground arith) (ground arith)
