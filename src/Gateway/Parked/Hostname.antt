-- ===== src/Gateway/Parked/Hostname.antt =====
-- parked.rs: what `sanitize_hostname` lets through, and what `escape` leaves.
use mjolnir.Base.{
  ℕ, ◌≤◌, Bool, true, false, not, ◌&&◌, ◌||◌, some, [], ◌∷◌, Str, len, is_empty, leb, ◌==◌, all,
  All, arith, ◌≡◌, ◌≢◌, refl, starts_with, ends_with, is_ascii_alphanumeric, to_ascii_lowercase,
  lower, All-append,
}
use mjolnir.Gateway.Parked.{
  accept_hostname, host_part, escape_char, sanitize_hostname, host_char, has_double_dot, escape,
}

-- Lower-case letters, digits, dots and hyphens.
abbrev pub hostname_char : ℕ → Bool
hostname_char c = (leb b'a' c && leb c b'z') || (leb b'0' c && leb c b'9') || c == b'.' || c == b'-'

-- A text of 1 to 253 such characters, with no hyphen at its ends and no empty label inside.
pub record IsHostname (h : Str) : Type 0 where
  pub not_empty : h ≢ []
  pub short : len h ≤ 253
  pub chars : All (λ c. hostname_char c ≡ true) h
  pub first : starts_with b'-' h ≡ false
  pub last : ends_with b'-' h ≡ false
  pub labels : has_double_dot h ≡ false

lower-chars :
    (s : Str)
    → all host_char s ≡ true
    → All (λ c. hostname_char c ≡ true) (to_ascii_lowercase s)
      × (len (to_ascii_lowercase s) ≡ len s)
unfolding to_ascii_lowercase lower is_ascii_alphanumeric
lower-chars [] h = (tt, refl)
lower-chars (c ∷ s) h =
    let (chars, same) = lower-chars s (ground arith) in
    ((ground arith, chars), ground (arith, same))

lower-start :
    (c : ℕ) (s : Str)
    → starts_with c s ≡ false
    → leb b'-' c ≡ true
    → leb c b'.' ≡ true
    → starts_with c (to_ascii_lowercase s) ≡ false
unfolding to_ascii_lowercase lower
lower-start c [] h k l = refl
lower-start c (d ∷ s) h k l = ground arith

lower-end : (s : Str) → ends_with b'-' (to_ascii_lowercase s) ≡ ends_with b'-' s
unfolding to_ascii_lowercase lower ends_with
lower-end [] = refl
lower-end (c ∷ []) = ground arith
lower-end (c ∷ d ∷ s) = ground (arith, lower-end (d ∷ s))

lower-labels : (s : Str) → has_double_dot (to_ascii_lowercase s) ≡ has_double_dot s
unfolding to_ascii_lowercase lower
lower-labels [] = refl
lower-labels (c ∷ []) = refl
lower-labels (c ∷ d ∷ s) = ground (arith, lower-labels (d ∷ s))

lower-empty : (s : Str) → is_empty s ≡ false → to_ascii_lowercase s ≢ []
unfolding to_ascii_lowercase
lower-empty [] h = cc
lower-empty (c ∷ s) h = λ e. cc

IsHostname-accept : (s h : Str) → accept_hostname s ≡ some h → IsHostname h
unfolding accept_hostname
IsHostname-accept s h e =
    let same : h ≡ to_ascii_lowercase s = ground arith in
    rw same (record {
      not_empty = lower-empty s (ground arith);
      short = ground (arith, lower-chars s);
      chars = (lower-chars s (ground arith)).0;
      first = lower-start b'-' s (ground arith) refl refl;
      last = ground (arith, lower-end s);
      labels = ground (arith, lower-labels s);
    })

-- Whatever a request or a header says, a hostname that is let through is one.
pub IsHostname-sanitize_hostname : (raw h : Str) → sanitize_hostname raw ≡ some h → IsHostname h
unfolding sanitize_hostname
IsHostname-sanitize_hostname raw h e = IsHostname-accept (host_part raw) h e

abbrev pub IsInert : ℕ → Type 0
IsInert c = (c ≢ b'<') × (c ≢ b'>') × (c ≢ b'"') × (c ≢ 39)

inert :
    (c : ℕ)
    → (c == b'<') ≡ false
    → (c == b'>') ≡ false
    → (c == b'"') ≡ false
    → (c == 39) ≡ false
    → IsInert c
inert c l g q a = (ground arith, ground arith, ground arith, ground arith)

concrete :
    (s : Str)
    → all (λ c. not (c == b'<' || c == b'>' || c == b'"' || c == 39)) s ≡ true
    → All IsInert s
concrete [] h = tt
concrete (c ∷ s) h =
    (inert c (ground arith) (ground arith) (ground arith) (ground arith), concrete s (ground arith))

escape_char-IsInert : (c : ℕ) → All IsInert (escape_char c)
escape_char-IsInert c = concrete (escape_char c) (ground arith)

-- An escaped text has no angle bracket and no quote: it opens no tag and ends no attribute.
pub escape-IsInert : (s : Str) → All IsInert (escape s)
unfolding escape
escape-IsInert [] = tt
escape-IsInert (c ∷ s) =
    All-append IsInert (escape_char c) (escape s) (escape_char-IsInert c) (escape-IsInert s)
