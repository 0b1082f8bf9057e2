-- ===== src/Client/Encode/Framed.antt =====
-- sites.rs: a framed chunk is read back into its two parts.
use mjolnir.Base.{
  ℕ, ◌+◌, ◌*◌, ◌/◌, ◌%◌, ◌<◌, Option, none, some, List, [], ◌∷◌, ◌++◌, length, take, drop, arith,
  ◌≡◌, refl, if◌then◌else◌, leb, take-length-append, append_nil, true, drop-length-append,
  append_nil, true, length-append, append_nil, true,
}
use mjolnir.Client.Encode.{to_be64, frame_chunk}

abbrev pub from_be64 : ℕ → ℕ → ℕ → ℕ → ℕ → ℕ → ℕ → ℕ → ℕ
from_be64 a b c d e f g h =
    a * 72057594037927936
    + b * 281474976710656
    + c * 1099511627776
    + d * 4294967296
    + e * 16777216
    + f * 65536
    + g * 256
    + h

-- A part with its length before it, and what is behind it.
unfoldable pub take_part : List ℕ → Option (List ℕ × List ℕ)
take_part (a ∷ b ∷ c ∷ d ∷ e ∷ f ∷ g ∷ h ∷ s) =
    let n = from_be64 a b c d e f g h in
    if leb n (length s) then some (take n s, drop n s) else none
take_part s = none

-- The reader of the frame: two parts, and nothing behind them.
unfoldable pub unframe : List ℕ → Option (List ℕ × List ℕ)
unfolding take_part
unframe s = elim (take_part s) [
  | none ↦ none
  | some (ciphertext, r) ↦ elim (take_part r) [
    | none ↦ none
    | some (outboard, rest) ↦ elim rest [ [] ↦ some (ciphertext, outboard) | c ∷ t ↦ none ]
  ]
]

from_be64-to_be64 :
    (n : ℕ)
    → n < 18446744073709551616
    → from_be64
        (n / 72057594037927936 % 256)
        (n / 281474976710656 % 256)
        (n / 1099511627776 % 256)
        (n / 4294967296 % 256)
        (n / 16777216 % 256)
        (n / 65536 % 256)
        (n / 256 % 256)
        (n % 256)
      ≡ n
from_be64-to_be64 n h = omega arith

take_part-to_be64 :
    (x rest : List ℕ)
    → length x < 18446744073709551616
    → take_part (to_be64 (length x) ++ (x ++ rest)) ≡ some (x, rest)
unfolding take_part
take_part-to_be64 x rest h =
    let size = length-append x rest in
    let fits : leb (length x) (length (x ++ rest)) ≡ true = ground (arith, size) in
    rw (from_be64-to_be64 (length x) h)
      (rw fits (rw (take-length-append x rest, drop-length-append x rest) refl))

-- A frame is read back into the ciphertext and the outboard that it was made of, for parts of fewer
-- than 2 ^ 64 bytes.
pub unframe-frame_chunk :
    (ciphertext outboard : List ℕ)
    → length ciphertext < 18446744073709551616
    → length outboard < 18446744073709551616
    → unframe (frame_chunk ciphertext outboard) ≡ some (ciphertext, outboard)
unfolding unframe frame_chunk
unframe-frame_chunk ciphertext outboard h k =
    let first = take_part-to_be64 ciphertext (to_be64 (length outboard) ++ outboard) h in
    let second = rw (append_nil outboard) at (take_part-to_be64 outboard [] k) in
    rw (unframe, first) (rw second refl)
