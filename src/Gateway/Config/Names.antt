-- ===== src/Gateway/Config/Names.antt =====
-- config.rs: the tests on host names and the reading of a fallthrough value.
use mjolnir.Base.{
  ℕ, Str, Bool, false, not, ◌||◌, Option, none, some, Result, ok, err, codes, eq_str, ltb, ◌==◌,
  if◌then◌else◌, all, is_empty, len, is_ascii_alphanumeric, split, starts_with, ends_with,
}
use mjolnir.Gateway.Config.{Fallthrough, iroh, parked, ConfigError, invalid, bad_fallthrough}

label_char : ℕ → Bool
label_char c = is_ascii_alphanumeric c || c == b'-'

-- One round of the loop over `s.split('.')`; `false` is the early return.
label_ok : Str → Bool
unfolding label_char
label_ok label =
    if is_empty label || ltb 63 (len label)
    then false
    else if starts_with b'-' label || ends_with b'-' label
    then false
    else all label_char label

unfoldable pub is_ascii_fqdn : Str → Bool
unfolding label_ok split ends_with is_ascii_alphanumeric
is_ascii_fqdn s =
    if is_empty s || ltb 253 (len s)
    then false
    else if starts_with b'.' s || ends_with b'.' s
    then false
    else if not (all (λ c. ltb c 0x80) s)
    then false
    else all label_ok (split b'.' s)

-- The body of `is_ascii_label` is that of `is_ascii_fqdn`, test for test.
unfoldable pub is_ascii_label : Str → Bool
unfolding label_ok split ends_with is_ascii_alphanumeric
is_ascii_label s =
    if is_empty s || ltb 253 (len s)
    then false
    else if starts_with b'.' s || ends_with b'.' s
    then false
    else if not (all (λ c. ltb c 0x80) s)
    then false
    else all label_ok (split b'.' s)

unfoldable pub parse_fallthrough : Option Str → Result ConfigError Fallthrough
parse_fallthrough none = ok iroh
parse_fallthrough (some s) =
    if eq_str s (codes "iroh")
    then ok iroh
    else if eq_str s (codes "none")
    then ok Fallthrough.none
    else if eq_str s (codes "parked")
    then ok parked
    else err (invalid bad_fallthrough)
