-- ===== src/Base/Words.antt =====
-- The cutting of texts that the source does with `str`: at "\r\n", at white space, by lines, and by
-- a text in front.
use Prim.Native.Nat.{ℕ}
use mathlib.Core.Path.{◌≡◌}
use mathlib.Core.Bool.{Bool, true, false, not, ◌&&◌}
use mathlib.Core.List.{List, [], ◌∷◌, ◌++◌}
use mathlib.Core.Option.{Option, none, some}
use native.Mathlib.Omega.{arith}
use mjolnir.Base.Lists.{all, filter}
use mjolnir.Base.Tests.{◌==◌, if◌then◌else◌}
use mjolnir.Base.Text.{Str, is_empty, is_whitespace, lower, eq_str, to_ascii_lowercase}

abbrev pub starts_with_str : Str → Str → Bool
starts_with_str [] s = true
starts_with_str (p ∷ ps) [] = false
starts_with_str (p ∷ ps) (c ∷ s) = p == c && starts_with_str ps s

-- Whether the text in front of `s` is `p`, where the case of ASCII letters does not count.
abbrev pub starts_with_ignore_case : Str → Str → Bool
starts_with_ignore_case [] s = true
starts_with_ignore_case (p ∷ ps) [] = false
starts_with_ignore_case (p ∷ ps) (c ∷ s) = lower p == lower c && starts_with_ignore_case ps s

unfoldable pub eq_ignore_ascii_case : Str → Str → Bool
unfolding to_ascii_lowercase
eq_ignore_ascii_case s t = eq_str (to_ascii_lowercase s) (to_ascii_lowercase t)

abbrev pub onto_first : ℕ → List Str → List Str
onto_first c [] = (c ∷ []) ∷ []
onto_first c (w ∷ ws) = (c ∷ w) ∷ ws

-- `s.split("\r\n")`
unfoldable pub split_crlf : Str → List Str
split_crlf [] = [] ∷ []
split_crlf (c ∷ []) = (c ∷ []) ∷ []
split_crlf (c ∷ d ∷ s) = elim (c == 13 && d == 10) [
  | true ↦ [] ∷ split_crlf s
  | false ↦ onto_first c (split_crlf (d ∷ s))
]

split_space : Str → List Str
split_space [] = [] ∷ []
split_space (c ∷ s) = elim (is_whitespace c) [
  | true ↦ [] ∷ split_space s
  | false ↦ onto_first c (split_space s)
]

unfoldable pub split_whitespace : Str → List Str
unfolding split_space is_whitespace
split_whitespace s = filter (λ w. not (is_empty w)) (split_space s)

-- `s.lines().next()`: up to the first "\n", without the "\r" that may stand before it.
unfoldable pub first_line : Str → Option Str
first_line [] = none
first_line (c ∷ []) = some (if c == 10 then [] else c ∷ [])
first_line (c ∷ d ∷ s) =
    let rest = first_line (d ∷ s) in
    if c == 10
    then some []
    else if c == 13 && d == 10
    then some []
    else elim rest [ none ↦ none | some l ↦ some (c ∷ l) ]

-- No white space in a text.
abbrev pub is_word : Str → Bool
is_word s = all (λ c. not (is_whitespace c)) s

split_space-word :
    (w s : Str) (c : ℕ)
    → is_word w ≡ true
    → is_whitespace c ≡ true
    → split_space (w ++ c ∷ s) ≡ w ∷ split_space s
unfolding split_space
split_space-word [] s c h k = ground arith
split_space-word (d ∷ w) s c h k = ground (arith, split_space-word w s c)

-- A word in front that white space follows.
pub split_whitespace-word :
    (w s : Str) (c : ℕ)
    → is_word w ≡ true
    → is_empty w ≡ false
    → is_whitespace c ≡ true
    → split_whitespace (w ++ c ∷ s) ≡ w ∷ split_whitespace s
unfolding split_whitespace
split_whitespace-word w s c h n k = ground (arith, split_space-word w s c)

-- `split_once(sep)`
unfoldable pub split_once : ℕ → Str → Option (Str × Str)
split_once sep [] = none
split_once sep (c ∷ s) = elim (c == sep) [
  | true ↦ some ([], s)
  | false ↦ elim (split_once sep s) [ none ↦ none | some (a, b) ↦ some (c ∷ a, b) ]
]
