-- ===== src/Base/Text.antt =====
-- Rust's strings as lists of Unicode scalar values, and the operations of `str` that the source
-- uses. `len` counts the bytes of the UTF-8 form, as `str::len` does.
use Prim.Native.Nat.{ℕ, ◌+◌}
use Prim.Native.Char.{code}
use Prim.Native.String.{String}
use mathlib.Core.Path.{◌≡◌, refl, ap}
use mathlib.Core.Logic.{◌↔◌, ◌≢◌, inl, inr}
use mathlib.Core.Bool.{Bool, true, false, not, ◌&&◌, ◌||◌}
use mathlib.Core.List.{List, [], ◌∷◌, ◌++◌, map, reverse}
use mathlib.Core.Option.{Option, none, some}
use native.Mathlib.Omega.{arith}
use mjolnir.Base.Tests.{ltb, leb, ◌==◌, ==_iff, if◌then◌else◌, Option-cases}
use mjolnir.Base.Lists.{length, length-append, all}

abbrev pub Str : Type 0
Str = List ℕ

-- A literal of the source.
abbrev pub codes : String → Str
codes String.[] = []
codes (String.◌∷◌ c s) = code c ∷ codes s

abbrev pub eq_str : Str → Str → Bool
eq_str [] [] = true
eq_str (a ∷ s) (b ∷ t) = a == b && eq_str s t
eq_str _ _ = false

pub eq_str_refl : (s : Str) → eq_str s s ≡ true
eq_str_refl [] = refl
eq_str_refl (a ∷ s) = ground (arith, eq_str_refl s)

pub eq_str→eq : (s t : Str) → eq_str s t ≡ true → s ≡ t
eq_str→eq [] [] h = refl
eq_str→eq (a ∷ s) (b ∷ t) h = ground (arith, eq_str→eq s t)
eq_str→eq s t h = cc

pub eq_str_iff : (s t : Str) → (eq_str s t ≡ true) ↔ (s ≡ t)
eq_str_iff s t = (eq_str→eq s t, λ e. ground (arith, eq_str_refl s))

abbrev pub is_empty : Str → Bool
is_empty [] = true
is_empty (c ∷ s) = false

abbrev pub len_utf8 : ℕ → ℕ
len_utf8 c = if ltb c 0x80 then 1 else if ltb c 0x800 then 2 else if ltb c 0x10000 then 3 else 4

abbrev pub len : Str → ℕ
len [] = 0
len (c ∷ s) = len_utf8 c + len s

unfoldable pub is_ascii_alphanumeric : ℕ → Bool
is_ascii_alphanumeric c =
    (leb b'0' c && leb c b'9') || (leb b'A' c && leb c b'Z') || (leb b'a' c && leb c b'z')

unfoldable pub lower : ℕ → ℕ
lower c = if leb b'A' c && leb c b'Z' then c + 32 else c

unfoldable pub to_ascii_lowercase : Str → Str
unfolding lower
to_ascii_lowercase s = map lower s

pub lower_idem : (c : ℕ) → lower (lower c) ≡ lower c
unfolding lower
lower_idem c = ground arith

pub to_ascii_lowercase_idem :
    (s : Str) → to_ascii_lowercase (to_ascii_lowercase s) ≡ to_ascii_lowercase s
unfolding to_ascii_lowercase
to_ascii_lowercase_idem [] = refl
to_ascii_lowercase_idem (c ∷ s) = cc (lower_idem c, to_ascii_lowercase_idem s)

unfoldable pub strip_prefix : Str → Str → Option Str
strip_prefix [] s = some s
strip_prefix (p ∷ ps) [] = none
strip_prefix (p ∷ ps) (c ∷ s) = if p == c then strip_prefix ps s else none

abbrev push_front : ℕ → Option Str → Option Str
push_front c none = none
push_front c (some p) = some (c ∷ p)

-- `s.strip_suffix(t)`: the `p` with `s = p ++ t`.
unfoldable pub strip_suffix : Str → Str → Option Str
strip_suffix t [] = if eq_str [] t then some [] else none
strip_suffix t (c ∷ s) = if eq_str (c ∷ s) t then some [] else push_front c (strip_suffix t s)

pub strip_suffix_sound : (t s p : Str) → strip_suffix t s ≡ some p → s ≡ p ++ t
unfolding strip_suffix
strip_suffix_sound t [] p h = ground (arith, eq_str_iff [] t)
strip_suffix_sound t (c ∷ s) p h = elim (Option-cases (strip_suffix t s)) [
  | inl e ↦ ground (arith, eq_str_iff (c ∷ s) t)
  | inr (q, e) ↦ ground (arith, eq_str_iff (c ∷ s) t, strip_suffix_sound t s q e)
]

pub length-ne : (c : ℕ) (p t : Str) → (c ∷ p) ++ t ≢ t
length-ne c p t e =
    let n : length ((c ∷ p) ++ t) ≡ length t = ap length e in
    absurd (omega (arith, n, length-append p t))

-- No text is a longer one that ends with it.
pub dotted-ne : (p t : Str) → p ++ b'.' ∷ t ≢ t
dotted-ne p t e =
    let n : length (p ++ b'.' ∷ t) ≡ length t = ap length e in
    absurd (omega (arith, n, length-append p (b'.' ∷ t)))

pub strip_suffix-append : (p t : Str) → strip_suffix t (p ++ t) ≡ some p
unfolding strip_suffix
strip_suffix-append [] [] = refl
strip_suffix-append [] (c ∷ t) = ground (arith, eq_str_refl t)
strip_suffix-append (c ∷ p) t =
    ground (arith, eq_str_iff ((c ∷ p) ++ t) t, length-ne c p t, strip_suffix-append p t)

-- `char::is_whitespace`, that is the Unicode property White_Space.
unfoldable pub is_whitespace : ℕ → Bool
is_whitespace c =
    (leb 9 c && leb c 13)
    || c == 0x20
    || c == 0x85
    || c == 0xa0
    || c == 0x1680
    || (leb 0x2000 c && leb c 0x200a)
    || c == 0x2028
    || c == 0x2029
    || c == 0x202f
    || c == 0x205f
    || c == 0x3000

unfoldable pub trim_start : Str → Str
unfolding is_whitespace
trim_start [] = []
trim_start (c ∷ s) = if is_whitespace c then trim_start s else c ∷ s

unfoldable pub trim : Str → Str
unfolding trim_start
trim s = reverse (trim_start (reverse (trim_start s)))

abbrev prepend : ℕ → List Str → List Str
prepend c [] = (c ∷ []) ∷ []
prepend c (w ∷ ws) = (c ∷ w) ∷ ws

-- `s.split(sep)` for a character `sep`; there is always a first part.
unfoldable pub split : ℕ → Str → List Str
split sep [] = [] ∷ []
split sep (c ∷ s) = let rest = split sep s in if c == sep then [] ∷ rest else prepend c rest

-- `s.split(sep).next().unwrap_or(s)`
unfoldable pub before : ℕ → Str → Str
before sep [] = []
before sep (c ∷ s) = if c == sep then [] else c ∷ before sep s

abbrev pub starts_with : ℕ → Str → Bool
starts_with ch [] = false
starts_with ch (c ∷ s) = c == ch

unfoldable pub ends_with : ℕ → Str → Bool
ends_with ch [] = false
ends_with ch (c ∷ []) = c == ch
ends_with ch (c ∷ d ∷ s) = ends_with ch (d ∷ s)

pub before-lower_colon :
    (s : Str) → before b':' (to_ascii_lowercase s) ≡ to_ascii_lowercase (before b':' s)
unfolding before to_ascii_lowercase
before-lower_colon [] = refl
before-lower_colon (c ∷ s) = ground (arith, before-lower_colon s)

pub before-append :
    (sep : ℕ) (s t : Str)
    → all (λ c. not (c == sep)) s ≡ true
    → before sep (s ++ sep ∷ t) ≡ before sep s
unfolding before
before-append sep [] t h = ground (arith, ==_iff sep sep)
before-append sep (c ∷ s) t h = ground (arith, before-append sep s t)
