-- ===== src/Base/Lists.antt =====
-- Lists measured by native numbers, Boolean searches, and predicates by recursion.
use Prim.Native.Nat.{ℕ, zero, suc, ◌+◌, min}
use mathlib.Core.Path.{◌≡◌, refl, ap}
use mathlib.Core.Logic.{◌⊎◌, inl, inr}
use mathlib.Core.Bool.{Bool, true, false, ◌&&◌, ◌||◌}
use mathlib.Core.List.{List, [], ◌∷◌, ◌++◌}
use mathlib.Core.Option.{Option, none, some}
use native.Mathlib.Omega.{arith}
use mjolnir.Base.Tests.{if◌then◌else◌}

module _ {ℓ} {A : Type ℓ} where
  abbrev pub length : List A → ℕ
  length [] = 0
  length (x ∷ xs) = suc (length xs)

  abbrev pub take : ℕ → List A → List A
  take zero xs = []
  take (suc n) [] = []
  take (suc n) (x ∷ xs) = x ∷ take n xs

  abbrev pub drop : ℕ → List A → List A
  drop zero xs = xs
  drop (suc n) [] = []
  drop (suc n) (x ∷ xs) = drop n xs

  pub length-append : (xs ys : List A) → length (xs ++ ys) ≡ length xs + length ys
  length-append [] ys = omega arith
  length-append (x ∷ xs) ys = omega (arith, length-append xs ys)

  pub take-length-append : (xs ys : List A) → take (length xs) (xs ++ ys) ≡ xs
  take-length-append [] ys = refl
  take-length-append (x ∷ xs) ys = ap (λ l. x ∷ l) (take-length-append xs ys)

  pub drop-length-append : (xs ys : List A) → drop (length xs) (xs ++ ys) ≡ ys
  drop-length-append [] ys = refl
  drop-length-append (x ∷ xs) ys = drop-length-append xs ys

  pub take-append-drop : (n : ℕ) (xs : List A) → take n xs ++ drop n xs ≡ xs
  take-append-drop zero xs = refl
  take-append-drop (suc n) [] = refl
  take-append-drop (suc n) (x ∷ xs) = ap (λ l. x ∷ l) (take-append-drop n xs)

  pub length-take : (n : ℕ) (xs : List A) → length (take n xs) ≡ min n (length xs)
  length-take zero xs = omega arith
  length-take (suc n) [] = omega arith
  length-take (suc n) (x ∷ xs) = omega (arith, length-take n xs)

  pub append_assoc : (a b c : List A) → (a ++ b) ++ c ≡ a ++ (b ++ c)
  append_assoc [] b c = refl
  append_assoc (x ∷ a) b c = cc (append_assoc a b c)

  pub append_nil : (a : List A) → a ++ [] ≡ a
  append_nil [] = refl
  append_nil (x ∷ a) = cc (append_nil a)

  pub append-injective :
      (xs ys r s : List A) → length xs ≡ length ys → xs ++ r ≡ ys ++ s → (xs ≡ ys) × (r ≡ s)
  append-injective [] [] r s n e = (refl, e)
  append-injective (x ∷ xs) (y ∷ ys) r s n e =
      let (same, rest) = append-injective xs ys r s (omega arith) cc in (cc same, rest)
  append-injective [] (y ∷ ys) r s n e = absurd (omega arith)
  append-injective (x ∷ xs) [] r s n e = absurd (omega arith)

  -- Rust's `iter().any`, `iter().all`, `iter().find` and `iter().filter`.
  abbrev pub any : (A → Bool) → List A → Bool
  any p [] = false
  any p (x ∷ xs) = p x || any p xs

  abbrev pub all : (A → Bool) → List A → Bool
  all p [] = true
  all p (x ∷ xs) = p x && all p xs

  abbrev pub find : (A → Bool) → List A → Option A
  find p [] = none
  find p (x ∷ xs) = if p x then some x else find p xs

  abbrev pub filter : (A → Bool) → List A → List A
  filter p [] = []
  filter p (x ∷ xs) = if p x then x ∷ filter p xs else filter p xs

-- Membership, and a property of every element.
abbrev pub In : {A : Type 0} → A → List A → Type 0
In a [] = ⊥
In a (x ∷ xs) = (a ≡ x) ⊎ In a xs

module _ {ℓ κ} {A : Type ℓ} (P : A → Type κ) where
  abbrev pub All : List A → Type κ
  All [] = Unit
  All (x ∷ xs) = P x × All xs

  pub All-append : (xs ys : List A) → All xs → All ys → All (xs ++ ys)
  All-append [] ys hx hy = hy
  All-append (x ∷ xs) ys hx hy = (hx.0, All-append xs ys hx.1 hy)

  pub All-append_left : (xs ys : List A) → All (xs ++ ys) → All xs
  All-append_left [] ys h = tt
  All-append_left (x ∷ xs) ys h = (h.0, All-append_left xs ys h.1)

  pub All-append_right : (xs ys : List A) → All (xs ++ ys) → All ys
  All-append_right [] ys h = h
  All-append_right (x ∷ xs) ys h = All-append_right xs ys h.1

-- No two elements of a list are the same by the test.
module _ {A : Type 0} (same : A → A → Bool) where
  abbrev pub Distinct : List A → Type 0
  Distinct [] = Unit
  Distinct (x ∷ xs) = All (λ y. same x y ≡ false) xs × Distinct xs

  pub Distinct-append_one :
      (xs : List A) (x : A) → Distinct xs → any (λ y. same y x) xs ≡ false → Distinct (xs ++ x ∷ [])
  Distinct-append_one [] x d h = (tt, tt)
  Distinct-append_one (y ∷ xs) x d h = (
    All-append (λ z. same y z ≡ false) xs (x ∷ []) d.0 (ground arith, tt),
    Distinct-append_one xs x d.1 (ground arith),
  )

pub any-eq-false :
    {A : Type 0} (p : A → Bool) (xs : List A) → any p xs ≡ false → All (λ x. p x ≡ false) xs
any-eq-false p [] h = tt
any-eq-false p (x ∷ xs) h = (ground arith, any-eq-false p xs (ground arith))

pub All-In : {A : Type 0} (P : A → Type 0) (x : A) (l : List A) → All P l → In x l → P x
All-In P x [] v h = elim h [ ]
All-In P x (y ∷ l) v (inl e) = rw e v.0
All-In P x (y ∷ l) v (inr h) = All-In P x l v.1 h

-- The first element that passes a test, where the test fixes the element.
pub find-Distinct :
    {A : Type 0} (same : A → A → Bool) (p : A → Bool) (x : A) (xs : List A)
    → Distinct same xs
    → In x xs
    → p x ≡ true
    → ((y : A) → p y ≡ true → same y x ≡ true)
    → find p xs ≡ some x
find-Distinct same p x [] d i h k = elim i [ ]
find-Distinct same p x (y ∷ xs) d (inl e) h k = let hy : p y ≡ true = rw (← e) h in rw (hy, e)
find-Distinct same p x (y ∷ xs) d (inr i) h k =
    let apart = All-In (λ z. same y z ≡ false) x xs d.0 i in
    ground (arith, k y, find-Distinct same p x xs d.1 i h k)

pub find-eq-none :
    {A : Type 0} (p : A → Bool) (xs : List A) → All (λ x. p x ≡ false) xs → find p xs ≡ none
find-eq-none p [] h = refl
find-eq-none p (x ∷ xs) h = rw h.0 (find-eq-none p xs h.1)
