-- ===== src/Base/Outcome.antt =====
-- Rust's `Result`, its chaining by `?`, and the reading of a chain that succeeded.
use mathlib.Core.Path.{◌≡◌, refl}
use mathlib.Core.Logic.{◌⊎◌, inl, inr}
use mathlib.Core.Bool.{Bool, true, false}
use mjolnir.Base.Tests.{if◌then◌else◌}

pub data Result (E T : Type 0) : Type 0 where
  err : E → Result E T
  ok : T → Result E T

infixl 5 ◌>>=◌
abbrev pub ◌>>=◌ : {E T U : Type 0} → Result E T → (T → Result E U) → Result E U
r >>= next = elim r [ err why ↦ err why | ok value ↦ next value ]

pub ok-injective : {E T : Type 0} {x y : T} → ◌≡◌ {A = Result E T} (ok x) (ok y) → x ≡ y
ok-injective same = cc

module _ {E T U : Type 0} {u : U} where
  -- A chain that succeeds has a first part that does, handed on to what goes on from there.
  pub >>=-elim :
      {Q : Type 0} (r : Result E T) (next : T → Result E U)
      → (r >>= next) ≡ ok u
      → ((x : T) → r ≡ ok x → next x ≡ ok u → Q)
      → Q
  >>=-elim (err why) next h use_it = cc
  >>=-elim (ok x) next h use_it = use_it x refl h

  pub >>=-eq-ok :
      (r : Result E T) (next : T → Result E U)
      → (r >>= next) ≡ ok u
      → (x : T) × (r ≡ ok x) × (next x ≡ ok u)
  >>=-eq-ok r next h = >>=-elim r next h λ x first later. (x, first, later)

module _ {E T : Type 0} {x : T} where
  -- An early return that was not taken.
  pub guarded-elim :
      {Q : Type 0} (test : Bool) (why : E) (rest : Result E T)
      → (if test then err why else rest) ≡ ok x
      → (test ≡ false → rest ≡ ok x → Q)
      → Q
  guarded-elim true why rest h use_it = cc
  guarded-elim false why rest h use_it = use_it refl h

  pub guarded-eq-ok :
      (test : Bool) (why : E) (rest : Result E T)
      → (if test then err why else rest) ≡ ok x
      → (test ≡ false) × (rest ≡ ok x)
  guarded-eq-ok test why rest h = guarded-elim test why rest h λ passed later. (passed, later)

pub Result-cases :
    {E T : Type 0} (r : Result E T) → ((e : E) × (r ≡ err e)) ⊎ ((x : T) × (r ≡ ok x))
Result-cases (err e) = inl (e, refl)
Result-cases (ok x) = inr (x, refl)
