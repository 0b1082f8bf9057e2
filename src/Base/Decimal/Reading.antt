-- ===== src/Base/Decimal/Reading.antt =====
-- Reading back a decimal number.
use Prim.Native.Nat.{ℕ, zero, suc, ◌+◌, ◌-◌, ◌*◌, ◌/◌, ◌%◌, ◌≤◌, ◌<◌, ◌^◌}
use mathlib.Core.Path.{◌≡◌, refl, ◌∙◌}
use mathlib.Core.Bool.{true, false}
use mathlib.Core.List.{[], ◌∷◌}
use mathlib.Core.Option.{some}
use mathlib.Core.Logic.{inl, inr}
use native.Mathlib.Omega.{arith}
use mjolnir.Base.Lists.{all}
use mjolnir.Base.Tests.{ltb, Bool-cases}
use mjolnir.Base.Text.{Str, is_empty}
use mjolnir.Base.Decimal.{decimal_from, decimal, is_digit, parse_from, parse_unsigned}

abbrev pow10 : ℕ → ℕ
pow10 zero = 1
pow10 (suc f) = 10 * pow10 f

parse_from-digit :
    (limit m d : ℕ) (acc : Str)
    → d < 10
    → m * 10 + d ≤ limit
    → parse_from limit m ((b'0' + d) ∷ acc) ≡ parse_from limit (m * 10 + d) acc
unfolding parse_from
parse_from-digit limit m d acc h k = ground arith

parse_from-first :
    (limit n : ℕ) (acc : Str)
    → n < 10
    → n ≤ limit
    → parse_from limit 0 ((b'0' + n) ∷ acc) ≡ parse_from limit n acc
parse_from-first limit n acc h k =
    let e : 0 * 10 + n ≡ n = omega arith in cc (parse_from-digit limit 0 n acc h (omega arith), e)

parse_from-decimal_from :
    (limit f n : ℕ) (acc : Str)
    → n < pow10 f
    → 0 < f
    → n ≤ limit
    → parse_from limit 0 (decimal_from f n acc) ≡ parse_from limit n acc
unfolding decimal_from
parse_from-decimal_from limit zero n acc h p k = absurd (omega arith)
parse_from-decimal_from limit (suc zero) n acc h p k =
    let small : ltb n 10 ≡ true = ground arith in
    rw small (parse_from-first limit n acc (omega arith) k)
parse_from-decimal_from limit (suc (suc f)) n acc h p k = elim (Bool-cases (ltb n 10)) [
  | inl e ↦ rw e (parse_from-first limit n acc (ground arith) k)
  | inr e ↦
      let later =
        parse_from-decimal_from limit (suc f) (n / 10) ((b'0' + n % 10) ∷ acc) (omega arith)
          (omega arith) (omega arith) in
      let digit = parse_from-digit limit (n / 10) (n % 10) acc (omega arith) (omega arith) in
      let whole : n / 10 * 10 + n % 10 ≡ n = omega arith in rw e (cc (later, digit, whole))
]

is_empty-decimal_from : (f n c : ℕ) (acc : Str) → is_empty (decimal_from f n (c ∷ acc)) ≡ false
unfolding decimal_from
is_empty-decimal_from zero n c acc = refl
is_empty-decimal_from (suc f) n c acc =
    ground (arith, is_empty-decimal_from f (n / 10) (b'0' + n % 10) (c ∷ acc))

is_empty-decimal : (n : ℕ) → is_empty (decimal n) ≡ false
unfolding decimal decimal_from
is_empty-decimal n = elim (Bool-cases (ltb n 10)) [
  | inl e ↦ rw e refl
  | inr e ↦ rw e (is_empty-decimal_from 38 (n / 10) (b'0' + n % 10) [])
]

-- A text that reads as a number has digits only.
pub parse_from-digits :
    (limit m : ℕ) (s : Str) (n : ℕ) → parse_from limit m s ≡ some n → all is_digit s ≡ true
unfolding parse_from
parse_from-digits limit m [] n h = refl
parse_from-digits limit m (c ∷ s) n h =
    ground (arith, parse_from-digits limit (m * 10 + (c - b'0')) s n)

parse_unsigned-digits :
    (limit : ℕ) (s : Str)
    → is_empty s ≡ false
    → all is_digit s ≡ true
    → parse_unsigned limit s ≡ parse_from limit 0 s
unfolding parse_unsigned is_digit
parse_unsigned-digits limit [] h k = cc
parse_unsigned-digits limit (c ∷ []) h k = ground arith
parse_unsigned-digits limit (c ∷ d ∷ s) h k = ground arith

parse_from-decimal :
    (limit n : ℕ) → n < 10 ^ 39 → n ≤ limit → parse_from limit 0 (decimal n) ≡ some n
unfolding decimal parse_from
parse_from-decimal limit n h k = parse_from-decimal_from limit 39 n [] (omega arith) (omega arith) k

pub decimal-digits : (n : ℕ) → n < 10 ^ 39 → all is_digit (decimal n) ≡ true
decimal-digits n h = parse_from-digits n 0 (decimal n) n (parse_from-decimal n n h (omega arith))

-- A number that the type holds is read back from its decimal digits.
pub parse_unsigned-decimal :
    (limit n : ℕ) → n < 10 ^ 39 → n ≤ limit → parse_unsigned limit (decimal n) ≡ some n
parse_unsigned-decimal limit n h k =
    parse_unsigned-digits limit (decimal n) (is_empty-decimal n) (decimal-digits n h)
    ∙ parse_from-decimal limit n h k
