-- ===== src/Base/Chars.antt =====
-- The ASCII letters and digits, as ranges of codes.
use Prim.Native.Nat.{ℕ, ◌≤◌}
use mathlib.Core.Path.{◌≡◌, refl}
use mathlib.Core.Logic.{◌↔◌, ◌⊎◌}
use mathlib.Core.Bool.{Bool, true}
use mathlib.Core.List.{List, [], ◌∷◌}
use native.Mathlib.Omega.{arith}
use mjolnir.Base.Lists.{all, All}
use mjolnir.Base.Text.{is_ascii_alphanumeric}

abbrev pub IsLetter : ℕ → Type 0
IsLetter c = ((65 ≤ c) × (c ≤ 90)) ⊎ ((97 ≤ c) × (c ≤ 122))

abbrev pub IsDigit : ℕ → Type 0
IsDigit c = (48 ≤ c) × (c ≤ 57)

pub is_ascii_alphanumeric_iff :
    (c : ℕ) → (is_ascii_alphanumeric c ≡ true) ↔ (IsLetter c ⊎ IsDigit c)
unfolding is_ascii_alphanumeric
is_ascii_alphanumeric_iff c = (λ h. ground arith, λ h. ground arith)

pub all-All :
    (p : ℕ → Bool) (P : ℕ → Type 0)
    → ((c : ℕ) → p c ≡ true → P c)
    → (s : List ℕ) → all p s ≡ true
    → All P s
all-All p P f [] h = tt
all-All p P f (c ∷ s) h = (f c (ground arith), all-All p P f s (ground arith))

pub All-all :
    (p : ℕ → Bool) (P : ℕ → Type 0)
    → ((c : ℕ) → P c → p c ≡ true)
    → (s : List ℕ) → All P s
    → all p s ≡ true
All-all p P f [] h = refl
All-all p P f (c ∷ s) h =
    let first = f c h.0 in let rest = All-all p P f s h.1 in ground (arith, first, rest)
