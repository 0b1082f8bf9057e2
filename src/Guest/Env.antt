-- ===== src/Guest/Env.antt =====
-- secrets.rs: `parse_env_into`, which reads KEY=VALUE lines into the variables that are exported to a
-- shell. A map is a list of pairs, each name once; no result is a panic.
pub mod Safe
use mjolnir.Base.{
  ℕ, ◌-◌, Bool, true, false, not, ◌&&◌, ◌||◌, ◌≡◌, Option, none, some, List, [], ◌∷◌, Str, codes,
  eq_str, is_empty, if◌then◌else◌, leb, ◌==◌, length, take, drop, all, trim, split, starts_with,
  ends_with, is_ascii_alphanumeric, Bool-cases, Option-cases, inl, inr, eq_str→eq, arith,
}
use mjolnir.Base.Words.{split_once}

abbrev starts_name : Str → Bool
starts_name [] = false
starts_name (c ∷ s) = (is_ascii_alphanumeric c && not (leb b'0' c && leb c b'9')) || c == b'_'

unfoldable pub is_valid_env_key : Str → Bool
unfolding is_ascii_alphanumeric
is_valid_env_key key =
    not (is_empty key) && starts_name key && all (λ c. is_ascii_alphanumeric c || c == b'_') key

abbrev quoted_by : ℕ → Str → Bool
quoted_by q value = starts_with q value && ends_with q value

-- `value[1..value.len() - 1]` panics where the value is one quote.
unfoldable pub strip_quotes : Str → Option Str
strip_quotes value =
    if quoted_by b'"' value || quoted_by 39 value
    then (if length value == 1 then none else some (take (length value - 2) (drop 1 value)))
    else some value

unfoldable pub put_var : Str → Str → List (Str × Str) → List (Str × Str)
put_var key value [] = (key, value) ∷ []
put_var key value ((k, v) ∷ rest) =
    let kept = put_var key value rest in if eq_str k key then (key, value) ∷ rest else (k, v) ∷ kept

abbrev stored : Str → Option Str → List (Str × Str) → Option (List (Str × Str))
stored key none vars = none
stored key (some value) vars = some (put_var key value vars)

abbrev parse_pair : Option (Str × Str) → List (Str × Str) → Option (List (Str × Str))
parse_pair none vars = some vars
parse_pair (some (k, v)) vars =
    if not (is_valid_env_key (trim k))
    then some vars
    else stored (trim k) (strip_quotes (trim v)) vars

unfoldable pub parse_env_line : Str → List (Str × Str) → Option (List (Str × Str))
unfolding is_valid_env_key strip_quotes put_var trim split_once
parse_env_line line vars =
    let trimmed = trim line in
    if is_empty trimmed || starts_with b'#' trimmed
    then some vars
    else parse_pair (split_once b'=' trimmed) vars

unfoldable pub parse_env_lines : List Str → List (Str × Str) → Option (List (Str × Str))
unfolding parse_env_line
parse_env_lines [] vars = some vars
parse_env_lines (line ∷ lines) vars = elim (parse_env_line line vars) [
  | none ↦ none
  | some after ↦ parse_env_lines lines after
]

-- `lines()` differs from the parts between "\n" in an empty last line, which is skipped, and in a
-- "\r" at a line's end, which the trim drops.
unfoldable pub parse_env_into : Str → List (Str × Str) → Option (List (Str × Str))
unfolding parse_env_lines split
parse_env_into content vars = parse_env_lines (split b'\n' content) vars
