-- ===== src/Base/Decimal.antt =====
-- Decimal numbers: `format!("{}", n)`, and `str::parse` at an unsigned type.
pub mod Reading
use Prim.Native.Nat.{ℕ, zero, suc, ◌+◌, ◌-◌, ◌*◌, ◌/◌, ◌%◌}
use mathlib.Core.Bool.{Bool, ◌&&◌}
use mathlib.Core.List.{[], ◌∷◌}
use mathlib.Core.Option.{Option, none, some}
use mjolnir.Base.Tests.{ltb, leb, ◌==◌, if◌then◌else◌}
use mjolnir.Base.Text.{Str}

-- The digits of `n` in front of `acc`, most significant first, on fuel.
unfoldable pub decimal_from : ℕ → ℕ → Str → Str
decimal_from zero n acc = acc
decimal_from (suc f) n acc =
    let rest = decimal_from f (n / 10) ((b'0' + n % 10) ∷ acc) in
    if ltb n 10 then (b'0' + n) ∷ acc else rest

-- A number below 10^39 has at most 39 digits, so this serves every type up to `u128`.
unfoldable pub decimal : ℕ → Str
unfolding decimal_from
decimal n = decimal_from 39 n []

unfoldable pub is_digit : ℕ → Bool
is_digit c = leb b'0' c && leb c b'9'

-- The digits behind a value that is already read; `none` at a byte that is no digit, or once the
-- value passes `limit`.
unfoldable pub parse_from : ℕ → ℕ → Str → Option ℕ
unfolding is_digit
parse_from limit n [] = some n
parse_from limit n (c ∷ s) =
    let m = n * 10 + (c - b'0') in
    let rest = parse_from limit m s in
    if is_digit c then (if leb m limit then rest else none) else none

-- `s.parse::<uN>()` with `limit` the greatest value: one `+` may lead, digits have to follow.
unfoldable pub parse_unsigned : ℕ → Str → Option ℕ
unfolding parse_from
parse_unsigned limit [] = none
parse_unsigned limit (c ∷ []) = if c == b'+' then none else parse_from limit 0 (c ∷ [])
parse_unsigned limit (c ∷ d ∷ s) =
    if c == b'+' then parse_from limit 0 (d ∷ s) else parse_from limit 0 (c ∷ d ∷ s)
