-- ===== src/Guest/Hex.antt =====
-- vsock.rs: `decode_hex`. A text is its UTF-8 bytes; a slice that cuts a character panics.
pub mod Digits
use mjolnir.Base.{
  ℕ, ◌+◌, ◌-◌, ◌*◌, ◌%◌, Bool, true, false, ◌&&◌, ◌||◌, Option, none, some, List, [], ◌∷◌,
  if◌then◌else◌, leb, ◌==◌, length, Result, ok, err, ◌>>=◌,
}
use mathlib.Core.Option

pub data HexError : Type 0 where
  odd_length : ℕ → HexError
  invalid_hex : (at_byte : ℕ) → HexError
  panics : HexError

unfoldable pub digit : ℕ → Option ℕ
digit b =
    if leb b'0' b && leb b b'9'
    then some (b - b'0')
    else if leb b'a' b && leb b b'f'
    then some (b - b'a' + 10)
    else if leb b'A' b && leb b b'F'
    then some (b - b'A' + 10)
    else none

abbrev pair : Option ℕ → Option ℕ → Option ℕ
pair (some a) (some b) = some (a * 16 + b)
pair _ _ = none

-- `u8::from_str_radix` on two bytes: a `+` may lead.
unfoldable pub from_str_radix : ℕ → ℕ → Option ℕ
unfolding digit
from_str_radix a b = if a == b'+' then digit b else pair (digit a) (digit b)

-- A byte within a character, where no slice may begin or end.
abbrev is_inner : ℕ → Bool
is_inner b = leb 0x80 b && leb b 0xbf

abbrev starts_inner : List ℕ → Bool
starts_inner [] = false
starts_inner (b ∷ bs) = is_inner b

abbrev valid_pair : ℕ → Option ℕ → Result HexError ℕ
valid_pair i none = err (invalid_hex i)
valid_pair i (some n) = ok n

-- The pairs from the `i`-th on.
unfoldable pub decode_pairs : ℕ → List ℕ → Result HexError (List ℕ)
unfolding from_str_radix
decode_pairs i (a ∷ b ∷ s) =
    let later = decode_pairs (i + 1) s in
    if is_inner a || starts_inner s
    then err panics
    else do n ← valid_pair i (from_str_radix a b); rest ← later; ok (n ∷ rest)
decode_pairs i _ = ok []

unfoldable pub decode_hex : List ℕ → Result HexError (List ℕ)
unfolding decode_pairs
decode_hex s = if length s % 2 == 1 then err (odd_length (length s)) else decode_pairs 0 s
