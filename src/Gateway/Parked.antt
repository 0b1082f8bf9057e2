-- ===== src/Gateway/Parked.antt =====
-- parked.rs: the page of a name that nothing is bound to, the redirect to it, and the hostname that
-- a visitor came from. The page's fixed text is left out.
pub mod Hostname
pub mod Origin
pub mod Redirect
use mjolnir.Base.{
  ℕ, zero, suc, ◌+◌, ◌-◌, ◌*◌, ◌<◌, Bool, true, false, not, ◌&&◌, ◌||◌, Option, none, some, List,
  [], ◌∷◌, ◌++◌, map, Str, codes, len, is_empty, eq_str, if◌then◌else◌, leb, ltb, ◌==◌, all, trim,
  drop, strip_prefix, starts_with, ends_with, is_ascii_alphanumeric, to_ascii_lowercase,
}
use mathlib.Core.List.{reverse}
use mjolnir.Base.Utf8.{from_utf8_lossy, as_bytes}
use mjolnir.Base.Words.{starts_with_ignore_case, eq_ignore_ascii_case, split_crlf, split_whitespace}
use mjolnir.Gateway.Headers.{crlf, head_of}
use mjolnir.Gateway.Subdomain.{rfind}

abbrev pub canonical_host : Str
canonical_host = codes "park.worldtree.network"

unfoldable pub is_canonical_host : Str → Bool
unfolding eq_ignore_ascii_case
is_canonical_host host = eq_ignore_ascii_case host canonical_host

abbrev pub escape_char : ℕ → Str
escape_char c =
    if c == b'&'
    then codes "&amp;"
    else if c == b'<'
    then codes "&lt;"
    else if c == b'>'
    then codes "&gt;"
    else if c == b'"'
    then codes "&quot;"
    else if c == 39
    then codes "&#39;"
    else c ∷ []

unfoldable pub escape : Str → Str
escape [] = []
escape (c ∷ s) = escape_char c ++ escape s

abbrev pub display_name : Str → Str → Str
display_name host subdomain = if is_empty subdomain then host else subdomain

-- `s.split(['/', '?', '#']).next()`
unfoldable pub authority : Str → Str
authority [] = []
authority (c ∷ s) = if c == b'/' || c == b'?' || c == b'#' then [] else c ∷ authority s

abbrev or_else : Option Str → Str → Str
or_else none s = s
or_else (some t) s = t

-- `strip_prefix("https://")`, else `strip_prefix("http://")`, else the text.
abbrev without_scheme : Str → Str
without_scheme s =
    or_else (strip_prefix (codes "https://") s) (or_else (strip_prefix (codes "http://") s) s)

-- `s.rsplit('@').next()`
abbrev behind_at : Str → Str
behind_at s = elim (rfind b'@' s) [ none ↦ s | some (user, host) ↦ host ]

abbrev is_digit : ℕ → Bool
is_digit c = leb b'0' c && leb c b'9'

abbrev without_port : Str → Str
without_port s = elim (rfind b':' s) [
  | none ↦ s
  | some (host, port) ↦ if all is_digit port then host else s
]

trim_dots_start : Str → Str
trim_dots_start [] = []
trim_dots_start (c ∷ s) = if c == b'.' then trim_dots_start s else c ∷ s

unfoldable pub trim_dots : Str → Str
unfolding trim_dots_start
trim_dots s = reverse (trim_dots_start (reverse (trim_dots_start s)))

abbrev pub has_double_dot : Str → Bool
has_double_dot [] = false
has_double_dot (c ∷ []) = false
has_double_dot (c ∷ d ∷ s) = (c == b'.' && d == b'.') || has_double_dot (d ∷ s)

abbrev pub host_char : ℕ → Bool
host_char b = is_ascii_alphanumeric b || b == b'.' || b == b'-'

-- The checks on what is left of the text.
unfoldable pub accept_hostname : Str → Option Str
accept_hostname s =
    if is_empty s || ltb 253 (len s)
    then none
    else if not (all host_char s) || starts_with b'-' s || ends_with b'-' s || has_double_dot s
    then none
    else some (to_ascii_lowercase s)

unfoldable pub host_part : Str → Str
unfolding trim_dots authority
host_part raw = trim_dots (without_port (behind_at (authority (without_scheme (trim raw)))))

unfoldable pub sanitize_hostname : Str → Option Str
unfolding accept_hostname host_part
sanitize_hostname raw = accept_hostname (host_part raw)

-- `filter(|h| !is_canonical_host(h))`
abbrev pub not_canonical : Option Str → Option Str
not_canonical none = none
not_canonical (some h) = if is_canonical_host h then none else some h

abbrev pub location_at : Option Str → Str
location_at (some h) = codes "https://" ++ (canonical_host ++ (codes "/?from=" ++ h))
location_at none = codes "https://" ++ (canonical_host ++ codes "/")

unfoldable pub location : Str → Str
unfolding sanitize_hostname is_canonical_host
location from_host = location_at (not_canonical (sanitize_hostname from_host))

unfoldable pub redirect_text : Str → Str
unfolding location
redirect_text from_host =
    codes "HTTP/1.1 307 Temporary Redirect"
    ++ (crlf
        ++ (codes "Location: "
            ++ (location from_host
                ++ (crlf
                    ++ (codes "Cache-Control: no-store"
                        ++ (crlf
                            ++ (codes "Content-Length: 0"
                                ++ (crlf ++ (codes "Connection: close" ++ (crlf ++ crlf))))))))))

unfoldable pub redirect_to_canonical : Str → List ℕ
unfolding redirect_text
redirect_to_canonical from_host = as_bytes (redirect_text from_host)

-- A digit of base 16, as `from_str_radix` reads it.
abbrev hex_value : ℕ → Option ℕ
hex_value c =
    if leb b'0' c && leb c b'9'
    then some (c - 48)
    else if leb b'a' c && leb c b'f'
    then some (c - 87)
    else if leb b'A' c && leb c b'F'
    then some (c - 55)
    else none

abbrev hex_pair_of : Option ℕ → Option ℕ → Option ℕ
hex_pair_of (some a) (some b) = some (a * 16 + b)
hex_pair_of a b = none

-- `u8::from_str_radix(hex, 16)` of two bytes: a sign "+" may stand before one digit.
unfoldable pub hex_pair : ℕ → ℕ → Option ℕ
hex_pair a b = if a == b'+' then hex_value b else hex_pair_of (hex_value a) (hex_value b)

-- The bytes of the text are read as characters, also those of a longer form.
unfoldable pub decode_bytes : List ℕ → Str
unfolding hex_pair
decode_bytes [] = []
decode_bytes (c ∷ []) = c ∷ []
decode_bytes (c ∷ a ∷ []) = c ∷ a ∷ []
decode_bytes (c ∷ a ∷ b ∷ s) = elim (c == b'%') [
  | true ↦ elim (hex_pair a b) [ some v ↦ v ∷ decode_bytes s | none ↦ c ∷ decode_bytes (a ∷ b ∷ s) ]
  | false ↦ c ∷ decode_bytes (a ∷ b ∷ s)
]

unfoldable pub percent_decode : Str → Str
unfolding decode_bytes
percent_decode s = decode_bytes (as_bytes s)
