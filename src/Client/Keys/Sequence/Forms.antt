-- ===== src/Client/Keys/Sequence/Forms.antt =====
-- connect.rs: what the two forms of a key's sequence are made of, kitty's and that of modifyOtherKeys.
use mjolnir.Base.{
  ℕ, true, ◌&&◌, ◌||◌, List, [], ◌∷◌, Option, some, none, ltb, ◌==◌, length, drop, arith, ◌≡◌, refl,
  inl, inr, Bool-cases,
}
use mjolnir.Base.Words.{starts_with_str}
use mjolnir.Client.Keys.{
  Num, more_digits, bad_number, ok_number, Colon, more_colon, bad_colon, at, number, skip_colons,
  plain_mod, printable, apply_shift, ends_other, other_code, semicolon_other, other_mods, prefix_27,
  modify_other_keys, key_byte, key_csi, ends_kitty, text_colons, text_number, after_mods,
  mods_colons, mods_number, after_key, key_colons, key_number, kitty_printable, csi_printable,
}
use mjolnir.Client.Keys.Sequence.{
  Params, here, there, IsPrintable, NumTold, ColonTold, CsiTold, CsiTold-before, number-told,
  skip_colons-told,
}

-- The ends of the two forms.
apply_shift-IsPrintable : (key : ℕ) → IsPrintable key → IsPrintable (apply_shift key)
unfolding apply_shift
apply_shift-IsPrintable key i = ground arith

key_byte-IsPrintable :
    (key mods byte : ℕ) (text : Option ℕ) → key_byte key mods text ≡ some byte → IsPrintable byte
key_byte-IsPrintable key mods byte (some t) e = ground arith
key_byte-IsPrintable key mods byte none e = elim (Bool-cases (printable key)) [
  | inr p ↦ absurd (ground (arith, p))
  | inl p ↦
      let shifted = apply_shift-IsPrintable key (ground (arith, p)) in ground (arith, p, shifted)
]

key_csi-told :
    (whole r : List ℕ) (key mods : ℕ) (text o : Option ℕ)
    → key_byte key mods text ≡ o
    → CsiTold whole (b'u' ∷ r) (key_csi whole r mods o)
key_csi-told whole r key mods text none e = tt
key_csi-told whole r key mods text (some byte) e = elim (Bool-cases (plain_mod mods)) [
  | inr p ↦ rw p tt
  | inl p ↦ rw p (record {
    last = b'u';
    rest = r;
    params = here;
    is_last = inl refl;
    counts = refl;
    is_key = key_byte-IsPrintable key mods byte text e;
  })
]

ends_kitty-told :
    (whole : List ℕ) (key mods : ℕ) (text : Option ℕ) (s : List ℕ)
    → CsiTold whole s (ends_kitty whole key mods text s)
unfolding ends_kitty
ends_kitty-told whole key mods text [] = here
ends_kitty-told whole key mods text (c ∷ r) = elim (Bool-cases (c == b'u')) [
  | inr e ↦ rw e tt
  | inl e ↦
      let u : c ≡ b'u' = ground (arith, e) in
      rw u (key_csi-told whole r key mods text (key_byte key mods text) refl)
]

ends_other-told :
    (whole : List ℕ) (mods code : ℕ) (s : List ℕ) → CsiTold whole s (ends_other whole mods code s)
unfolding ends_other
ends_other-told whole mods code [] = here
ends_other-told whole mods code (c ∷ r) = elim (Bool-cases (c == b'~')) [
  | inr e ↦ rw e tt
  | inl e ↦ elim (Bool-cases (plain_mod mods && printable code)) [
    | inr p ↦ rw (e, p) tt
    | inl p ↦
        rw (e, p)
          (record {
            last = c;
            rest = r;
            params = here;
            is_last = inr (ground (arith, e));
            counts = refl;
            is_key = ground (arith, p);
          })
  ]
]

-- What stands before them.
text_colons-told :
    (whole s : List ℕ) (key mods text : ℕ) (o : Colon)
    → ColonTold s o
    → CsiTold whole s (text_colons whole key mods text o)
text_colons-told whole s key mods text more_colon t = t
text_colons-told whole s key mods text bad_colon t = tt
text_colons-told whole s key mods text (at r) t =
    CsiTold-before whole s r _ t (ends_kitty-told whole key mods (some text) r)

text_number-told :
    (whole s : List ℕ) (key mods : ℕ) (n : Num)
    → NumTold s n
    → CsiTold whole s (text_number whole key mods n)
text_number-told whole s key mods more_digits t = t
text_number-told whole s key mods bad_number t = tt
text_number-told whole s key mods (ok_number text r) t =
    CsiTold-before whole s r _ t
      (text_colons-told whole r key mods text (skip_colons r) (skip_colons-told r))

semicolon-Params : (c : ℕ) (s : List ℕ) → (c == b';') ≡ true → Params (c ∷ s) s
semicolon-Params c s e = there (ground (arith, e)) here

after_mods-told :
    (whole : List ℕ) (key mods : ℕ) (s : List ℕ) → CsiTold whole s (after_mods whole key mods s)
unfolding after_mods
after_mods-told whole key mods [] = here
after_mods-told whole key mods (c ∷ r) = elim (Bool-cases (c == b';')) [
  | inr e ↦ rw e (ends_kitty-told whole key mods none (c ∷ r))
  | inl e ↦ rw e (
      CsiTold-before whole (c ∷ r) r _ (semicolon-Params c r e)
        (text_number-told whole r key mods (number r) (number-told r)))
]

mods_number-told :
    (whole s : List ℕ) (key : ℕ) (n : Num) → NumTold s n → CsiTold whole s (mods_number whole key n)
mods_number-told whole s key more_digits t = t
mods_number-told whole s key bad_number t = tt
mods_number-told whole s key (ok_number mods r) t =
    CsiTold-before whole s r _ t (colons (skip_colons r) (skip_colons-told r))
  where
    colons : (o : Colon) → ColonTold r o → CsiTold whole r (mods_colons whole key mods o)
    colons more_colon t = t
    colons bad_colon t = tt
    colons (at q) t = CsiTold-before whole r q _ t (after_mods-told whole key mods q)

after_key-told : (whole : List ℕ) (key : ℕ) (s : List ℕ) → CsiTold whole s (after_key whole key s)
unfolding after_key
after_key-told whole key [] = here
after_key-told whole key (c ∷ r) = elim (Bool-cases (c == b';')) [
  | inr e ↦ rw e (ends_kitty-told whole key 1 none (c ∷ r))
  | inl e ↦ rw e (
      CsiTold-before whole (c ∷ r) r _ (semicolon-Params c r e)
        (mods_number-told whole r key (number r) (number-told r)))
]

key_number-told : (whole s : List ℕ) (n : Num) → NumTold s n → CsiTold whole s (key_number whole n)
key_number-told whole s more_digits t = t
key_number-told whole s bad_number t = tt
key_number-told whole s (ok_number key r) t =
    CsiTold-before whole s r _ t (colons (skip_colons r) (skip_colons-told r))
  where
    colons : (o : Colon) → ColonTold r o → CsiTold whole r (key_colons whole key o)
    colons more_colon t = t
    colons bad_colon t = tt
    colons (at q) t = CsiTold-before whole r q _ t (after_key-told whole key q)

semicolon_other-told :
    (whole : List ℕ) (mods : ℕ) (s : List ℕ) → CsiTold whole s (semicolon_other whole mods s)
unfolding semicolon_other
semicolon_other-told whole mods [] = here
semicolon_other-told whole mods (c ∷ r) = elim (Bool-cases (c == b';')) [
  | inr e ↦ rw e tt
  | inl e ↦
      rw e (
        CsiTold-before whole (c ∷ r) r _ (semicolon-Params c r e) (code (number r) (number-told r)))
]
  where
    code : (n : Num) → NumTold r n → CsiTold whole r (other_code whole mods n)
    code more_digits t = t
    code bad_number t = tt
    code (ok_number v q) t = CsiTold-before whole r q _ t (ends_other-told whole mods v q)

other_mods-told : (whole s : List ℕ) (n : Num) → NumTold s n → CsiTold whole s (other_mods whole n)
other_mods-told whole s more_digits t = t
other_mods-told whole s bad_number t = tt
other_mods-told whole s (ok_number mods r) t =
    CsiTold-before whole s r _ t (semicolon_other-told whole mods r)

begun-Params :
    (s : List ℕ) → ltb (length s) 3 ≡ true → starts_with_str s prefix_27 ≡ true → Params s []
begun-Params [] short e = here
begun-Params (c ∷ []) short e = there (ground (arith, e)) here
begun-Params (c ∷ d ∷ []) short e = there (ground (arith, e)) (there (ground (arith, e)) here)
begun-Params (c ∷ d ∷ f ∷ s) short e = absurd (ground (arith, short))

prefix-Params : (s : List ℕ) → starts_with_str prefix_27 s ≡ true → Params s (drop 3 s)
prefix-Params [] e = absurd cc
prefix-Params (c ∷ []) e = absurd (ground (arith, e))
prefix-Params (c ∷ d ∷ []) e = absurd (ground (arith, e))
prefix-Params (c ∷ d ∷ f ∷ s) e =
    there (ground (arith, e)) (there (ground (arith, e)) (there (ground (arith, e)) here))

modify_other_keys-told : (s : List ℕ) → CsiTold s s (modify_other_keys s)
unfolding modify_other_keys
modify_other_keys-told s = elim (Bool-cases (ltb (length s) 3)) [
  | inl short ↦ elim (Bool-cases (starts_with_str s prefix_27)) [
    | inl e ↦ rw (short, e) (begun-Params s short e)
    | inr e ↦ rw (short, e) tt
  ]
  | inr long ↦ elim (Bool-cases (starts_with_str prefix_27 s)) [
    | inr e ↦ rw (long, e) tt
    | inl e ↦
        rw (long, e)
          (CsiTold-before s s (drop 3 s) _ (prefix-Params s e)
            (other_mods-told s (drop 3 s) (number (drop 3 s)) (number-told (drop 3 s))))
  ]
]

-- A sequence that is recognised is one, and one that is waited for is a run of parameters so far.
pub csi_printable-told : (s : List ℕ) → CsiTold s s (csi_printable s)
unfolding csi_printable kitty_printable
csi_printable-told s =
    elim (Bool-cases (starts_with_str prefix_27 s || starts_with_str s prefix_27)) [
      | inl e ↦ rw e (modify_other_keys-told s)
      | inr e ↦ rw e (key_number-told s s (number s) (number-told s))
    ]
