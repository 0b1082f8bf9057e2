-- ===== src/Client/Keys.antt =====
-- connect.rs: `KeyNormalizer`, which turns the escape sequences of printable keys back into the keys.
-- An index into the bytes is kept as the bytes from there on.
pub mod Sequence
pub mod Drained
pub mod Pressed
use mjolnir.Base.{
  ℕ, zero, suc, ◌+◌, ◌-◌, ◌*◌, min, max, Bool, true, false, not, ◌&&◌, ◌||◌, Option, none, some,
  List, [], ◌∷◌, ◌++◌, if◌then◌else◌, leb, ltb, ◌==◌, length, take, drop,
}
use mjolnir.Base.Words.{starts_with_str}

pub data KeyScan : Type 0 where
  forward : ℕ → KeyScan
  ascii_key : ℕ → ℕ → KeyScan
  need_more : KeyScan

pub data Csi : Type 0 where
  more_csi no_csi : Csi
  ascii_csi : ℕ → ℕ → Csi

-- A number and the bytes behind it.
pub data Num : Type 0 where
  more_digits bad_number : Num
  ok_number : ℕ → List ℕ → Num

pub data Colon : Type 0 where
  more_colon bad_colon : Colon
  at : List ℕ → Colon

abbrev pub is_digit : ℕ → Bool
is_digit c = leb b'0' c && leb c b'9'

abbrev max_u32 : ℕ
max_u32 = 4294967295

-- The loop of `number`: the value, and how many digits were read.
unfoldable pub digits : ℕ → ℕ → List ℕ → Num
digits n k [] = more_digits
digits n k (c ∷ s) =
    let rest = digits (min (min (n * 10) max_u32 + (c - b'0')) max_u32) (suc k) s in
    if not (is_digit c) then ok_number n (c ∷ s) else if ltb 8 (suc k) then bad_number else rest

unfoldable pub number : List ℕ → Num
unfolding digits
number [] = more_digits
number (c ∷ s) = if not (is_digit c) then bad_number else digits 0 0 (c ∷ s)

-- The loop of `skip_colons`: behind a colon, or behind so many digits of the number after it.
unfoldable pub colon_loop : Option ℕ → List ℕ → Colon
colon_loop k [] = more_colon
colon_loop none (c ∷ s) = let rest = colon_loop (some 1) s in if is_digit c then rest else bad_colon
colon_loop (some k) (c ∷ s) =
    let digit = colon_loop (some (suc k)) s in
    let next = colon_loop none s in
    if is_digit c
    then (if ltb 8 (suc k) then bad_colon else digit)
    else if c == b':'
    then next
    else at (c ∷ s)

unfoldable pub skip_colons : List ℕ → Colon
unfolding colon_loop
skip_colons [] = at []
skip_colons (c ∷ s) = if c == b':' then colon_loop none s else at (c ∷ s)

abbrev pub plain_mod : ℕ → Bool
plain_mod mods = mods == 1 || mods == 2

abbrev pub printable : ℕ → Bool
printable n = leb 32 n && leb n 126

unfoldable pub apply_shift : ℕ → ℕ
apply_shift key =
    if leb b'a' key && leb key b'z'
    then key - 32
    else if key == b'1'
    then b'!'
    else if key == b'2'
    then b'@'
    else if key == b'3'
    then b'#'
    else if key == b'4'
    then b'$'
    else if key == b'5'
    then b'%'
    else if key == b'6'
    then b'^'
    else if key == b'7'
    then b'&'
    else if key == b'8'
    then b'*'
    else if key == b'9'
    then b'('
    else if key == b'0'
    then b')'
    else if key == b'`'
    then b'~'
    else apply_shift_mark key
  where
    apply_shift_mark : ℕ → ℕ
    apply_shift_mark key =
        if key == b'-'
        then b'_'
        else if key == b'='
        then b'+'
        else if key == b'['
        then b'{'
        else if key == b']'
        then b'}'
        else if key == 92
        then b'|'
        else if key == b';'
        then b':'
        else if key == 39
        then b'"'
        else if key == b','
        then b'<'
        else if key == b'.'
        then b'>'
        else if key == b'/'
        then b'?'
        else key

-- `27;` in front; `s` is all that came behind the bracket.
unfoldable pub ends_other : List ℕ → ℕ → ℕ → List ℕ → Csi
ends_other s mods code [] = more_csi
ends_other s mods code (c ∷ r) =
    if not (c == b'~')
    then no_csi
    else if plain_mod mods && printable code
    then ascii_csi (length s - length r) code
    else no_csi

abbrev pub other_code : List ℕ → ℕ → Num → Csi
other_code s mods more_digits = more_csi
other_code s mods bad_number = no_csi
other_code s mods (ok_number code r) = ends_other s mods code r

unfoldable pub semicolon_other : List ℕ → ℕ → List ℕ → Csi
unfolding ends_other number
semicolon_other s mods [] = more_csi
semicolon_other s mods (c ∷ r) = if not (c == b';') then no_csi else other_code s mods (number r)

abbrev pub other_mods : List ℕ → Num → Csi
other_mods s more_digits = more_csi
other_mods s bad_number = no_csi
other_mods s (ok_number mods r) = semicolon_other s mods r

abbrev pub prefix_27 : List ℕ
prefix_27 = b'2' ∷ b'7' ∷ b';' ∷ []

unfoldable pub modify_other_keys : List ℕ → Csi
unfolding semicolon_other number
modify_other_keys s =
    if ltb (length s) 3
    then (if starts_with_str s prefix_27 then more_csi else no_csi)
    else if not (starts_with_str prefix_27 s)
    then no_csi
    else other_mods s (number (drop 3 s))

abbrev pub key_byte : ℕ → ℕ → Option ℕ → Option ℕ
key_byte key mods (some t) = if printable t then some t else none
key_byte key mods none =
    if printable key then some (if mods == 2 then apply_shift key else key) else none

abbrev pub key_csi : List ℕ → List ℕ → ℕ → Option ℕ → Csi
key_csi s r mods none = no_csi
key_csi s r mods (some byte) =
    if plain_mod mods then ascii_csi (length s - length r) byte else no_csi

-- The `u` at the end.
unfoldable pub ends_kitty : List ℕ → ℕ → ℕ → Option ℕ → List ℕ → Csi
unfolding apply_shift
ends_kitty s key mods text [] = more_csi
ends_kitty s key mods text (c ∷ r) =
    if not (c == b'u') then no_csi else key_csi s r mods (key_byte key mods text)

abbrev pub text_colons : List ℕ → ℕ → ℕ → ℕ → Colon → Csi
text_colons s key mods text more_colon = more_csi
text_colons s key mods text bad_colon = no_csi
text_colons s key mods text (at r) = ends_kitty s key mods (some text) r

abbrev pub text_number : List ℕ → ℕ → ℕ → Num → Csi
text_number s key mods more_digits = more_csi
text_number s key mods bad_number = no_csi
text_number s key mods (ok_number text r) = text_colons s key mods text (skip_colons r)

unfoldable pub after_mods : List ℕ → ℕ → ℕ → List ℕ → Csi
unfolding ends_kitty skip_colons number
after_mods s key mods [] = more_csi
after_mods s key mods (c ∷ r) =
    if c == b';' then text_number s key mods (number r) else ends_kitty s key mods none (c ∷ r)

abbrev pub mods_colons : List ℕ → ℕ → ℕ → Colon → Csi
mods_colons s key mods more_colon = more_csi
mods_colons s key mods bad_colon = no_csi
mods_colons s key mods (at r) = after_mods s key mods r

abbrev pub mods_number : List ℕ → ℕ → Num → Csi
mods_number s key more_digits = more_csi
mods_number s key bad_number = no_csi
mods_number s key (ok_number mods r) = mods_colons s key mods (skip_colons r)

unfoldable pub after_key : List ℕ → ℕ → List ℕ → Csi
unfolding ends_kitty skip_colons number after_mods
after_key s key [] = more_csi
after_key s key (c ∷ r) =
    if c == b';' then mods_number s key (number r) else ends_kitty s key 1 none (c ∷ r)

abbrev pub key_colons : List ℕ → ℕ → Colon → Csi
key_colons s key more_colon = more_csi
key_colons s key bad_colon = no_csi
key_colons s key (at r) = after_key s key r

abbrev pub key_number : List ℕ → Num → Csi
key_number s more_digits = more_csi
key_number s bad_number = no_csi
key_number s (ok_number key r) = key_colons s key (skip_colons r)

unfoldable pub kitty_printable : List ℕ → Csi
unfolding after_key skip_colons number
kitty_printable s = key_number s (number s)

unfoldable pub csi_printable : List ℕ → Csi
unfolding modify_other_keys kitty_printable
csi_printable s =
    if starts_with_str prefix_27 s || starts_with_str s prefix_27
    then modify_other_keys s
    else kitty_printable s

abbrev scanned_csi : Csi → KeyScan
scanned_csi more_csi = need_more
scanned_csi no_csi = forward 1
scanned_csi (ascii_csi len byte) = ascii_key (len + 2) byte

abbrev pub escape_at : List ℕ → ℕ
escape_at [] = 0
escape_at (c ∷ s) = if c == 27 then 0 else suc (escape_at s)

unfoldable pub scan_legacy_key : List ℕ → KeyScan
unfolding csi_printable
scan_legacy_key [] = forward 1
scan_legacy_key (c ∷ []) = if c == 27 then need_more else forward (max (escape_at (c ∷ [])) 1)
scan_legacy_key (c ∷ d ∷ s) =
    if not (c == 27)
    then forward (max (escape_at (c ∷ d ∷ s)) 1)
    else if length s == 0 && d == b'['
    then need_more
    else if not (d == b'[')
    then forward 1
    else if ltb 48 (length (c ∷ d ∷ s))
    then forward 1
    else scanned_csi (csi_printable s)

-- The loop of `drain`, with the bytes that are held and the rounds that are left: what is written,
-- and what is held after it.
unfoldable pub drain : ℕ → Bool → List ℕ → List ℕ × List ℕ
unfolding scan_legacy_key
drain zero force held = ([], held)
drain (suc fuel) force [] = ([], [])
drain (suc fuel) force (c ∷ held) = elim (scan_legacy_key (c ∷ held)) [
  | forward n ↦
      let m = min (max n 1) (length (c ∷ held)) in
      let (out, rest) = drain fuel force (drop m (c ∷ held)) in (take m (c ∷ held) ++ out, rest)
  | ascii_key consumed byte ↦
      let (out, rest) = drain fuel force (drop (min consumed (length (c ∷ held))) (c ∷ held)) in
      (byte ∷ out, rest)
  | need_more ↦ if force then (c ∷ held, []) else ([], c ∷ held)
]

pub record KeyNormalizer : Type 0 where
  pub pending : List ℕ

abbrev pub drained : List ℕ × List ℕ → List ℕ × KeyNormalizer
drained (out, rest) = (out, record { pending = rest })

-- A round takes a byte at least, so there are as many rounds as bytes at most.
unfoldable pub push : KeyNormalizer → List ℕ → List ℕ × KeyNormalizer
unfolding drain
push k input = let all_held = k.pending ++ input in drained (drain (length all_held) false all_held)

unfoldable pub flush : KeyNormalizer → List ℕ × KeyNormalizer
unfolding drain
flush k = drained (drain (length k.pending) true k.pending)
