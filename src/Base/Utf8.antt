-- ===== src/Base/Utf8.antt =====
-- `String::from_utf8_lossy`, which puts U+FFFD for each part of an ill-formed sequence, and
-- `str::as_bytes`.
use Prim.Native.Nat.{ℕ, ◌+◌, ◌-◌, ◌*◌, ◌/◌, ◌%◌}
use mathlib.Core.Path.{◌≡◌, refl}
use mathlib.Core.Bool.{Bool, true, false, ◌&&◌}
use mathlib.Core.List.{List, [], ◌∷◌, ◌++◌}
use mathlib.Core.Option.{none, some}
use native.Mathlib.Omega.{arith}
use mjolnir.Base.Bytes.{continuation}
use mjolnir.Base.Lists.{all}
use mjolnir.Base.Tests.{ltb, leb, if◌then◌else◌}
use mjolnir.Base.Text.{Str}

abbrev pub is_ascii : List ℕ → Bool
is_ascii s = all (λ c. ltb c 0x80) s

-- The bits of a first byte that belong to the character.
lead_bits : ℕ → ℕ
lead_bits b = if ltb b 0xe0 then b - 0xc0 else if ltb b 0xf0 then b - 0xe0 else b - 0xf0

-- With `rs` the ranges of the bytes that are still to come, and `acc` the bits that came.
lossy_from : ℕ → List (ℕ × ℕ) → List ℕ → Str
unfolding lead_bits
lossy_from acc [] [] = []
lossy_from acc (r ∷ rs) [] = 0xfffd ∷ []
lossy_from acc [] (b ∷ bs) = elim (continuation b) [
  | none ↦ 0xfffd ∷ lossy_from 0 [] bs
  | some [] ↦ b ∷ lossy_from 0 [] bs
  | some (r ∷ rs) ↦ lossy_from (lead_bits b) (r ∷ rs) bs
]
lossy_from acc ((lo, hi) ∷ rs) (b ∷ bs) = elim (leb lo b && leb b hi) [
  | true ↦ elim rs [
    | [] ↦ (acc * 64 + (b - 0x80)) ∷ lossy_from 0 [] bs
    | s ∷ ss ↦ lossy_from (acc * 64 + (b - 0x80)) (s ∷ ss) bs
  ]
  | false ↦ elim (continuation b) [
    | none ↦ 0xfffd ∷ 0xfffd ∷ lossy_from 0 [] bs
    | some [] ↦ 0xfffd ∷ b ∷ lossy_from 0 [] bs
    | some (s ∷ ss) ↦ 0xfffd ∷ lossy_from (lead_bits b) (s ∷ ss) bs
  ]
]

unfoldable pub from_utf8_lossy : List ℕ → Str
unfolding lossy_from continuation
from_utf8_lossy bs = lossy_from 0 [] bs

-- The bytes of one character.
encode_utf8 : ℕ → List ℕ
encode_utf8 c =
    if ltb c 0x80
    then c ∷ []
    else if ltb c 0x800
    then (0xc0 + c / 64) ∷ (0x80 + c % 64) ∷ []
    else if ltb c 0x10000
    then (0xe0 + c / 4096) ∷ (0x80 + c / 64 % 64) ∷ (0x80 + c % 64) ∷ []
    else (0xf0 + c / 262144) ∷ (0x80 + c / 4096 % 64) ∷ (0x80 + c / 64 % 64) ∷ (0x80 + c % 64) ∷ []

unfoldable pub as_bytes : Str → List ℕ
unfolding encode_utf8
as_bytes [] = []
as_bytes (c ∷ s) = encode_utf8 c ++ as_bytes s

-- An ASCII text is its own form.
lossy_from-ascii : (s : List ℕ) → is_ascii s ≡ true → lossy_from 0 [] s ≡ s
unfolding lossy_from continuation
lossy_from-ascii [] h = refl
lossy_from-ascii (c ∷ s) h = ground (arith, lossy_from-ascii s)

pub from_utf8_lossy-ascii : (s : List ℕ) → is_ascii s ≡ true → from_utf8_lossy s ≡ s
unfolding from_utf8_lossy
from_utf8_lossy-ascii s h = lossy_from-ascii s h

pub as_bytes-ascii : (s : Str) → is_ascii s ≡ true → as_bytes s ≡ s
unfolding as_bytes
as_bytes-ascii [] h = refl
as_bytes-ascii (c ∷ s) h = ground (arith, as_bytes-ascii s)

-- "é", U+20AC, U+1F600, then a first byte with nothing behind it.
lossy_test :
    from_utf8_lossy
      (0xc3 ∷ 0xa9 ∷ 0xe2 ∷ 0x82 ∷ 0xac ∷ 0xf0 ∷ 0x9f ∷ 0x98 ∷ 0x80 ∷ 0xe2 ∷ 0x82 ∷ 65 ∷ 0xff ∷ [])
    ≡ 0xe9 ∷ 0x20ac ∷ 0x1f600 ∷ 0xfffd ∷ 65 ∷ 0xfffd ∷ []
unfolding from_utf8_lossy
lossy_test = refl
