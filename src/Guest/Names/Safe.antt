-- ===== src/Guest/Names/Safe.antt =====
-- What passes the checks on names and identifiers.
use mjolnir.Base.{
  ◌⊎◌, ◌↔◌, All, ◌∙◌, ◌++◌, ℕ, ◌≤◌, ◌≡◌, ◌≢◌, refl, Bool, true, false, List, [], ◌∷◌, Str, codes,
  all, len, len_utf8, is_ascii_alphanumeric, lower, to_ascii_lowercase, to_ascii_lowercase_idem,
  is_whitespace, trim_start, trim, Result, ok, err, arith,
}
use mjolnir.Base.Chars.{IsLetter, IsDigit, all-All, All-all}
use mathlib.Core.List.{reverse, reverse-cons, reverse-reverse}
use mjolnir.Guest.Names.{
  name_char, validate_session_name, argv_of, attach_argv, is_ascii_hexdigit, parse_generation_id,
}

-- A letter or a digit, and then letters, digits, dashes and underscores, 64 bytes in all at most: no
-- text of a flag, and no character that tmux reads as its own syntax.
abbrev pub IsSafe : Str → Type 0
IsSafe [] = ⊥
IsSafe (c ∷ s) =
    (len (c ∷ s) ≤ 64)
    × (IsLetter c ⊎ IsDigit c)
    × All (λ d. (IsLetter d ⊎ IsDigit d) ⊎ (d ≡ b'-') ⊎ (d ≡ b'_')) s

validate-IsSafe : (session : Str) → (validate_session_name session ≡ ok tt) ↔ IsSafe session
unfolding validate_session_name is_ascii_alphanumeric
validate-IsSafe [] = (λ h. cc, λ h. absurd h)
validate-IsSafe (c ∷ s) = (
  λ h. (
    ground (arith, h),
    ground (arith, h),
    all-All name_char (λ d. (IsLetter d ⊎ IsDigit d) ⊎ (d ≡ b'-') ⊎ (d ≡ b'_'))
        (λ d k. ground (arith, k)) s (ground (arith, h)),
  ),
  λ h.
      let rest =
        All-all name_char (λ d. (IsLetter d ⊎ IsDigit d) ⊎ (d ≡ b'-') ⊎ (d ≡ b'_'))
          (λ d k. ground (arith, k)) s h.2 in
      let size = h.0 in let first = h.1 in ground (arith, size, first, rest),
)

argv_of-ok :
    (session : Str) (r : Result _ Unit) (argv : List Str)
    → argv_of session r ≡ ok argv
    → (r ≡ ok tt)
      × (argv ≡ codes "tmux" ∷ codes "new-session" ∷ codes "-A" ∷ codes "-s" ∷ session ∷ [])
argv_of-ok session (ok tt) argv h = (refl, cc)
argv_of-ok session (err e) argv h = cc

abbrev pub attaching : Str → List Str
attaching session = codes "tmux" ∷ codes "new-session" ∷ codes "-A" ∷ codes "-s" ∷ session ∷ []

-- There is a command that attaches to a session exactly where the session's name is a letter or a
-- digit and then letters, digits, dashes and underscores, 64 bytes in all at most; and then the
-- command has that name as its last word, which is read as no flag.
pub attach_argv-IsSafe :
    (session : Str)
    → (IsSafe session → attach_argv session ≡ ok (attaching session))
      × ((argv : List Str)
          → attach_argv session ≡ ok argv
          → (argv ≡ attaching session) × IsSafe session × ((s : Str) → session ≢ b'-' ∷ s))
unfolding attach_argv
attach_argv-IsSafe session = (
  λ safe. rw ((validate-IsSafe session).1 safe) refl,
  λ argv h.
      let (valid, words) = argv_of-ok session (validate_session_name session) argv h in
      let safe = (validate-IsSafe session).0 valid in (words, safe, no_dash session safe),
)
  where
    no_dash : (session : Str) → IsSafe session → (s : Str) → session ≢ b'-' ∷ s
    no_dash [] safe s e = absurd safe
    no_dash (c ∷ t) safe s e = let first : c ≡ b'-' = ground arith in ground (arith, safe, first)

hexdigit-lower :
    (c : ℕ)
    → is_ascii_hexdigit c ≡ true
    → (is_ascii_hexdigit (lower c) ≡ true)
      × (len_utf8 (lower c) ≡ len_utf8 c)
      × (is_whitespace c ≡ false)
unfolding is_ascii_hexdigit lower is_whitespace
hexdigit-lower c h = (ground arith, ground arith, ground arith)

lower-hexdigits :
    (s : Str)
    → all is_ascii_hexdigit s ≡ true
    → (all is_ascii_hexdigit (to_ascii_lowercase s) ≡ true) × (len (to_ascii_lowercase s) ≡ len s)
unfolding to_ascii_lowercase
lower-hexdigits [] h = (refl, refl)
lower-hexdigits (c ∷ s) h =
    let (digit, size, _) = hexdigit-lower c (ground arith) in
    let (digits, sizes) = lower-hexdigits s (ground arith) in
    (ground (arith, digit, digits), cc (size, sizes))

trim_start-hexdigits : (s : Str) → all is_ascii_hexdigit s ≡ true → trim_start s ≡ s
unfolding trim_start
trim_start-hexdigits [] h = refl
trim_start-hexdigits (c ∷ s) h =
    let (_, _, visible) = hexdigit-lower c (ground arith) in rw visible refl

all-append_one :
    (p : ℕ → Bool) (s : Str) (c : ℕ) → all p s ≡ true → p c ≡ true → all p (s ++ c ∷ []) ≡ true
all-append_one p [] c h k = ground arith
all-append_one p (d ∷ s) c h k = ground (arith, all-append_one p s c)

all-reverse : (p : ℕ → Bool) (s : Str) → all p s ≡ true → all p (reverse s) ≡ true
all-reverse p [] h = refl
all-reverse p (c ∷ s) h =
    rw (reverse-cons c s)
      (all-append_one p (reverse s) c (all-reverse p s (ground arith)) (ground arith))

trim-hexdigits : (s : Str) → all is_ascii_hexdigit s ≡ true → trim s ≡ s
unfolding trim
trim-hexdigits s h =
    rw
      (
        trim_start-hexdigits s h,
        trim_start-hexdigits (reverse s) (all-reverse is_ascii_hexdigit s h),
      )
      (reverse-reverse s)

-- An identifier that is read is 32 hex digits in lower case, and is read again as itself.
pub parse_generation_id-canonical :
    (text id : Str)
    → parse_generation_id text ≡ ok id
    → (len id ≡ 32)
      × (all is_ascii_hexdigit id ≡ true)
      × (to_ascii_lowercase id ≡ id)
      × (parse_generation_id id ≡ ok id)
unfolding parse_generation_id
parse_generation_id-canonical text id h =
    let read : to_ascii_lowercase (trim text) ≡ id = ground arith in
    let sized : len (trim text) ≡ 32 = ground arith in
    let (digits, size) = lower-hexdigits (trim text) (ground arith) in
    let same = to_ascii_lowercase_idem (trim text) in
    rw (← read) (
      size ∙ sized,
      digits,
      same,
      rw (trim-hexdigits (to_ascii_lowercase (trim text)) digits, size, sized, digits, same) refl,
    )
