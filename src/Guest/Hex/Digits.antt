-- ===== src/Guest/Hex/Digits.antt =====
-- What `decode_hex` makes of hex digits, and of what is none.
use mjolnir.Base.{
  ℕ, ◌+◌, ◌-◌, ◌*◌, ◌/◌, ◌%◌, ◌<◌, ◌≤◌, ◌≡◌, refl, false, none, some, List, [], ◌∷◌, if◌then◌else◌,
  ltb, ◌==◌, length, All, ok, err, arith,
}
use mjolnir.Base.Bytes.{IsByte}
use mjolnir.Guest.Hex.{
  panics, digit, is_inner, starts_inner, from_str_radix, decode_pairs, decode_hex,
}

-- The digits as the sender writes them, in lower case.
abbrev hex_digit : ℕ → ℕ
hex_digit n = if ltb n 10 then b'0' + n else b'a' + (n - 10)

abbrev pub hex : List ℕ → List ℕ
hex [] = []
hex (b ∷ bs) = hex_digit (b / 16) ∷ hex_digit (b % 16) ∷ hex bs

digit-hex_digit : (n : ℕ) → n < 16 → digit (hex_digit n) ≡ some n
unfolding digit
digit-hex_digit n h = ground arith

hex_digit-lt : (n : ℕ) → n < 16 → (hex_digit n < 128) × (48 ≤ hex_digit n)
hex_digit-lt n h = ground arith

length-hex : (bs : List ℕ) → length (hex bs) ≡ 2 * length bs
length-hex [] = refl
length-hex (b ∷ bs) = omega (arith, length-hex bs)

from_str_radix-hex :
    (b : ℕ) → IsByte b → from_str_radix (hex_digit (b / 16)) (hex_digit (b % 16)) ≡ some b
unfolding from_str_radix
from_str_radix-hex b h =
    let value : b / 16 * 16 + b % 16 ≡ b = omega arith in
    let high : (hex_digit (b / 16) == b'+') ≡ false =
      ground (arith, hex_digit-lt (b / 16) (omega arith)) in
    rw (high, digit-hex_digit (b / 16) (omega arith), digit-hex_digit (b % 16) (omega arith))
      (cc value)

starts_inner-hex : (bs : List ℕ) → All IsByte bs → starts_inner (hex bs) ≡ false
starts_inner-hex [] h = refl
starts_inner-hex (b ∷ bs) h = ground (arith, hex_digit-lt (b / 16) (omega arith))

decode_pairs-hex : (i : ℕ) (bs : List ℕ) → All IsByte bs → decode_pairs i (hex bs) ≡ ok bs
unfolding decode_pairs
decode_pairs-hex i [] h = refl
decode_pairs-hex i (b ∷ bs) h =
    let inner : is_inner (hex_digit (b / 16)) ≡ false =
      ground (arith, hex_digit-lt (b / 16) (omega arith)) in
    rw (inner, starts_inner-hex bs h.1, from_str_radix-hex b h.0, decode_pairs-hex (i + 1) bs h.1)
      refl

-- The hex digits of bytes decode to those bytes.
pub decode_hex-hex : (bs : List ℕ) → All IsByte bs → decode_hex (hex bs) ≡ ok bs
unfolding decode_hex
decode_hex-hex bs h =
    let even : length (hex bs) % 2 ≡ 0 = omega (arith, length-hex bs) in
    rw even (decode_pairs-hex 0 bs h)

-- A pair of a plus sign and a hex digit decodes to the digit's value, though a plus sign is no
-- hex digit; and a text whose first two bytes end within a character panics.
pub decode_hex-odd_texts :
    (d n : ℕ)
    → digit d ≡ some n
    → (digit b'+' ≡ none)
      × (decode_hex (b'+' ∷ d ∷ []) ≡ ok (n ∷ []))
      × ((a c : ℕ) → a < 0x80 → c < 0x80 → decode_hex (a ∷ 0xc3 ∷ 0xa9 ∷ c ∷ []) ≡ err panics)
unfolding decode_hex decode_pairs from_str_radix digit
decode_hex-odd_texts d n h = (refl, ground arith, λ a c la lc. ground arith)
