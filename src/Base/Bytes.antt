-- ===== src/Base/Bytes.antt =====
-- Bytes: big-endian words, and UTF-8 validity as `std::str::from_utf8` decides it.
use Prim.Native.Nat.{ℕ, ◌+◌, ◌*◌, ◌/◌, ◌%◌, ◌<◌}
use mathlib.Core.Path.{◌≡◌}
use mathlib.Core.Bool.{Bool, true, false, ◌&&◌}
use mathlib.Core.List.{List, [], ◌∷◌}
use mathlib.Core.Option.{Option, none, some}
use native.Mathlib.Omega.{arith}
use mjolnir.Base.Lists.{all, All}
use mjolnir.Base.Tests.{ltb, leb, if◌then◌else◌}

abbrev pub IsByte : ℕ → Type 0
IsByte b = b < 256

abbrev pub to_be16 : ℕ → List ℕ
to_be16 n = n / 256 % 256 ∷ n % 256 ∷ []

abbrev pub to_be32 : ℕ → List ℕ
to_be32 n = n / 16777216 % 256 ∷ n / 65536 % 256 ∷ n / 256 % 256 ∷ n % 256 ∷ []

abbrev pub from_be16 : ℕ → ℕ → ℕ
from_be16 a b = a * 256 + b

abbrev pub from_be32 : ℕ → ℕ → ℕ → ℕ → ℕ
from_be32 a b c d = a * 16777216 + b * 65536 + c * 256 + d

-- What may follow a first byte: the ranges of the continuation bytes; `none` is no first byte.
unfoldable pub continuation : ℕ → Option (List (ℕ × ℕ))
continuation b =
    if ltb b 0x80
    then some []
    else if leb 0xc2 b && leb b 0xdf
    then some ((0x80, 0xbf) ∷ [])
    else if leb 0xe0 b && leb b 0xe0
    then some ((0xa0, 0xbf) ∷ (0x80, 0xbf) ∷ [])
    else if leb 0xed b && leb b 0xed
    then some ((0x80, 0x9f) ∷ (0x80, 0xbf) ∷ [])
    else if leb 0xe1 b && leb b 0xef
    then some ((0x80, 0xbf) ∷ (0x80, 0xbf) ∷ [])
    else if leb 0xf0 b && leb b 0xf0
    then some ((0x90, 0xbf) ∷ (0x80, 0xbf) ∷ (0x80, 0xbf) ∷ [])
    else if leb 0xf1 b && leb b 0xf3
    then some ((0x80, 0xbf) ∷ (0x80, 0xbf) ∷ (0x80, 0xbf) ∷ [])
    else if leb 0xf4 b && leb b 0xf4
    then some ((0x80, 0x8f) ∷ (0x80, 0xbf) ∷ (0x80, 0xbf) ∷ [])
    else none

utf8_from : List (ℕ × ℕ) → List ℕ → Bool
utf8_from [] [] = true
utf8_from (r ∷ rs) [] = false
utf8_from ((lo, hi) ∷ rs) (b ∷ bs) = leb lo b && leb b hi && utf8_from rs bs
utf8_from [] (b ∷ bs) = elim (continuation b) [ none ↦ false | some rs ↦ utf8_from rs bs ]

unfoldable pub is_utf8 : List ℕ → Bool
unfolding utf8_from continuation
is_utf8 bs = utf8_from [] bs

-- Bytes of a concrete list, by computation.
pub all-IsByte : (bs : List ℕ) → all (λ b. ltb b 256) bs ≡ true → All IsByte bs
all-IsByte [] h = tt
all-IsByte (b ∷ bs) h = (ground arith, all-IsByte bs (ground arith))
