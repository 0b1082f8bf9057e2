-- ===== src/Client/Keys/Sequence.antt =====
-- What the sequence of a key looks like: an escape and a bracket, then digits, colons and semicolons,
-- then one last byte, a u or a tilde.
pub mod Forms
use mjolnir.Base.{
  ℕ, zero, suc, ◌+◌, ◌-◌, ◌*◌, ◌≤◌, min, max, Bool, true, false, not, ◌&&◌, ◌||◌, List, [], ◌∷◌,
  ◌++◌, Option, some, none, if◌then◌else◌, leb, ltb, ◌==◌, length, take, drop, arith, ◌≡◌, refl,
  sym, ◌⊎◌, inl, inr, Bool-cases, All,
}
use mjolnir.Base.Words.{starts_with_str}
use mjolnir.Client.Keys.{
  Csi, more_csi, no_csi, ascii_csi, Num, more_digits, bad_number, ok_number, Colon, more_colon,
  bad_colon, at, is_digit, digits, number, colon_loop, skip_colons, plain_mod, printable,
  apply_shift, ends_other, other_code, semicolon_other, other_mods, prefix_27, modify_other_keys,
  key_byte, key_csi, ends_kitty, text_colons, text_number, after_mods, mods_colons, mods_number,
  after_key, key_colons, key_number, kitty_printable, csi_printable,
}

-- A digit, a colon or a semicolon.
abbrev pub IsParam : ℕ → Type 0
IsParam c = (48 ≤ c) × (c ≤ 59)

-- `rest` is left behind a run of parameters.
pub data Params : List ℕ → List ℕ → Type 0 where
  here : {s : List ℕ} → Params s s
  there : {c : ℕ} {s rest : List ℕ} → IsParam c → Params s rest → Params (c ∷ s) rest

abbrev pub IsPrintable : ℕ → Type 0
IsPrintable byte = (32 ≤ byte) × (byte ≤ 126)

-- In a text whose end is `s`, a sequence of `len` bytes that ends within `s`.
pub record Ends (whole s : List ℕ) (len byte : ℕ) : Type 0 where
  pub last : ℕ
  pub rest : List ℕ
  pub params : Params s (last ∷ rest)
  pub is_last : (last ≡ b'u') ⊎ (last ≡ b'~')
  pub counts : len ≡ length whole - length rest
  pub is_key : IsPrintable byte

Params-trans : {s t u : List ℕ} → Params s t → Params t u → Params s u
Params-trans here q = q
Params-trans (there i p) q = there i (Params-trans p q)

-- What each of the readers finds, in terms of parameters.
abbrev pub NumTold : List ℕ → Num → Type 0
NumTold s more_digits = Params s []
NumTold s bad_number = Unit
NumTold s (ok_number n r) = Params s r

abbrev pub ColonTold : List ℕ → Colon → Type 0
ColonTold s more_colon = Params s []
ColonTold s bad_colon = Unit
ColonTold s (at r) = Params s r

abbrev pub CsiTold : List ℕ → List ℕ → Csi → Type 0
CsiTold whole s more_csi = Params s []
CsiTold whole s no_csi = Unit
CsiTold whole s (ascii_csi len byte) = Ends whole s len byte

NumTold-there : (c : ℕ) (s : List ℕ) (n : Num) → IsParam c → NumTold s n → NumTold (c ∷ s) n
NumTold-there c s more_digits i t = there i t
NumTold-there c s bad_number i t = tt
NumTold-there c s (ok_number n r) i t = there i t

ColonTold-there : (c : ℕ) (s : List ℕ) (o : Colon) → IsParam c → ColonTold s o → ColonTold (c ∷ s) o
ColonTold-there c s more_colon i t = there i t
ColonTold-there c s bad_colon i t = tt
ColonTold-there c s (at r) i t = there i t

pub CsiTold-before :
    (whole s t : List ℕ) (o : Csi) → Params s t → CsiTold whole t o → CsiTold whole s o
CsiTold-before whole s t more_csi p h = Params-trans p h
CsiTold-before whole s t no_csi p h = tt
CsiTold-before whole s t (ascii_csi len byte) p h = record {
  last = h.last;
  rest = h.rest;
  params = Params-trans p h.params;
  is_last = h.is_last;
  counts = h.counts;
  is_key = h.is_key;
}

digits-told : (n k : ℕ) (s : List ℕ) → NumTold s (digits n k s)
unfolding digits
digits-told n k [] = here
digits-told n k (c ∷ s) = elim (Bool-cases (is_digit c)) [
  | inr e ↦ rw e here
  | inl e ↦
      let later = digits-told (min (min (n * 10) 4294967295 + (c - b'0')) 4294967295) (suc k) s in
      elim (Bool-cases (ltb 8 (suc k))) [
        | inl long ↦ rw (e, long) tt
        | inr short ↦ rw (e, short) (NumTold-there c s _ (ground (arith, e)) later)
      ]
]

pub number-told : (s : List ℕ) → NumTold s (number s)
unfolding number
number-told [] = here
number-told (c ∷ s) = elim (Bool-cases (is_digit c)) [
  | inr e ↦ rw e tt
  | inl e ↦
      rw e (
        NumTold-there c s _ (ground (arith, e)) (digits-told (min (0 + (c - b'0')) 4294967295) 1 s))
]

colon_loop-told : (k : Option ℕ) (s : List ℕ) → ColonTold s (colon_loop k s)
unfolding colon_loop
colon_loop-told k [] = here
colon_loop-told none (c ∷ s) = elim (Bool-cases (is_digit c)) [
  | inr e ↦ rw e tt
  | inl e ↦ rw e (ColonTold-there c s _ (ground (arith, e)) (colon_loop-told (some 1) s))
]
colon_loop-told (some k) (c ∷ s) = elim (Bool-cases (is_digit c)) [
  | inl e ↦ elim (Bool-cases (ltb 8 (suc k))) [
    | inl long ↦ rw (e, long) tt
    | inr short ↦
        rw (e, short) (ColonTold-there c s _ (ground (arith, e)) (colon_loop-told (some (suc k)) s))
  ]
  | inr e ↦ elim (Bool-cases (c == b':')) [
    | inl colon ↦
        rw (e, colon) (ColonTold-there c s _ (ground (arith, colon)) (colon_loop-told none s))
    | inr other ↦ rw (e, other) here
  ]
]

pub skip_colons-told : (s : List ℕ) → ColonTold s (skip_colons s)
unfolding skip_colons
skip_colons-told [] = here
skip_colons-told (c ∷ s) = elim (Bool-cases (c == b':')) [
  | inl colon ↦ rw colon (ColonTold-there c s _ (ground (arith, colon)) (colon_loop-told none s))
  | inr other ↦ rw other here
]
