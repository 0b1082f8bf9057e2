-- ===== src/Guest/Env/Safe.antt =====
-- secrets.rs: the names of the variables that are read from an env file.
use mjolnir.Base.{
  ◌⊎◌, ◌↔◌, ◌==◌, is_ascii_alphanumeric, ◌≡◌, true, Bool-cases, Option-cases, inl, inr, Option,
  none, some, List, [], ◌∷◌, Str, eq_str, split, trim, is_empty, starts_with, ◌||◌, arith, All,
}
use mathlib.Core.Path.{subst}
use mjolnir.Base.Chars.{IsLetter, IsDigit, all-All, All-all}
use mjolnir.Base.Words.{split_once}
use mjolnir.Guest.Env.{
  is_valid_env_key, strip_quotes, put_var, stored, parse_pair, parse_env_line, parse_env_lines,
  parse_env_into,
}

-- A name of a POSIX shell: a letter or an underscore, and then letters, digits and underscores.
abbrev pub IsShellName : Str → Type 0
IsShellName [] = ⊥
IsShellName (c ∷ s) = (IsLetter c ⊎ (c ≡ 95)) × All (λ d. (IsLetter d ⊎ IsDigit d) ⊎ (d ≡ 95)) s

-- Every variable has a name that a shell takes.
abbrev pub HasShellNames : List (Str × Str) → Type 0
HasShellNames vars = All (λ kv. IsShellName kv.0) vars

-- The check of a key takes the names of a shell, and no others.
pub is_valid_env_key_iff : (key : Str) → (is_valid_env_key key ≡ true) ↔ IsShellName key
unfolding is_valid_env_key is_ascii_alphanumeric
is_valid_env_key_iff [] = (λ h. absurd (ground arith), λ h. absurd h)
is_valid_env_key_iff (c ∷ s) = (
  λ h. (
    ground (arith, h),
    all-All (λ d. is_ascii_alphanumeric d || d == b'_') (λ d. (IsLetter d ⊎ IsDigit d) ⊎ (d ≡ 95))
        (λ d k. ground (arith, k)) s (ground (arith, h)),
  ),
  λ h.
      let rest =
        All-all (λ d. is_ascii_alphanumeric d || d == b'_')
          (λ d. (IsLetter d ⊎ IsDigit d) ⊎ (d ≡ 95)) (λ d k. ground (arith, k)) s h.1 in
      let first = h.0 in ground (arith, first, rest),
)

put_var-HasShellNames :
    (key value : Str) (vars : List (Str × Str))
    → IsShellName key
    → HasShellNames vars
    → HasShellNames (put_var key value vars)
unfolding put_var
put_var-HasShellNames key value [] ok_key h = (ok_key, tt)
put_var-HasShellNames key value ((k, v) ∷ rest) ok_key h = elim (Bool-cases (eq_str k key)) [
  | inl t ↦ rw t (ok_key, h.1)
  | inr f ↦ rw f (h.0, put_var-HasShellNames key value rest ok_key h.1)
]

stored-HasShellNames :
    (key : Str) (value : Option Str) (vars out : List (Str × Str))
    → IsShellName key
    → HasShellNames vars
    → stored key value vars ≡ some out
    → HasShellNames out
stored-HasShellNames key none vars out ok_key h e = absurd (ground arith)
stored-HasShellNames key (some value) vars out ok_key h e =
    let q : put_var key value vars ≡ out = ground arith in
    subst HasShellNames q (put_var-HasShellNames key value vars ok_key h)

same-HasShellNames :
    (vars out : List (Str × Str))
    → HasShellNames vars
    → ◌≡◌ {A = Option (List (Str × Str))} (some vars) (some out)
    → HasShellNames out
same-HasShellNames vars out h e = let q : vars ≡ out = ground arith in subst HasShellNames q h

parse_pair-HasShellNames :
    (pair : Option (Str × Str)) (vars out : List (Str × Str))
    → HasShellNames vars
    → parse_pair pair vars ≡ some out
    → HasShellNames out
parse_pair-HasShellNames none vars out h e = same-HasShellNames vars out h e
parse_pair-HasShellNames (some (k, v)) vars out h e =
    elim (Bool-cases (is_valid_env_key (trim k))) [
      | inl t ↦
          stored-HasShellNames (trim k) (strip_quotes (trim v)) vars out
            ((is_valid_env_key_iff (trim k)).0 t) h (ground (arith, e, t))
      | inr f ↦ same-HasShellNames vars out h (ground (arith, e, f))
    ]

parse_env_line-HasShellNames :
    (line : Str) (vars out : List (Str × Str))
    → HasShellNames vars
    → parse_env_line line vars ≡ some out
    → HasShellNames out
unfolding parse_env_line
parse_env_line-HasShellNames line vars out h e =
    elim (Bool-cases (is_empty (trim line) || starts_with b'#' (trim line))) [
      | inl t ↦ same-HasShellNames vars out h (ground (arith, e, t))
      | inr f ↦
          parse_pair-HasShellNames (split_once b'=' (trim line)) vars out h (ground (arith, e, f))
    ]

parse_env_lines-HasShellNames :
    (lines : List Str) (vars out : List (Str × Str))
    → HasShellNames vars
    → parse_env_lines lines vars ≡ some out
    → HasShellNames out
unfolding parse_env_lines
parse_env_lines-HasShellNames [] vars out h e = same-HasShellNames vars out h e
parse_env_lines-HasShellNames (line ∷ lines) vars out h e =
    elim (Option-cases (parse_env_line line vars)) [
      | inl n ↦ absurd (ground (arith, e, n))
      | inr (after, q) ↦
          parse_env_lines-HasShellNames lines after out
            (parse_env_line-HasShellNames line vars after h q) (ground (arith, e, q))
    ]

-- Whatever an env file holds, every variable that is read from it, or was there before, has a name
-- that a shell takes: an ASCII letter or "_", and then letters, digits and "_".
pub parse_env_into-HasShellNames :
    (content : Str) (vars out : List (Str × Str))
    → HasShellNames vars
    → parse_env_into content vars ≡ some out
    → HasShellNames out
unfolding parse_env_into
parse_env_into-HasShellNames content vars out h e =
    parse_env_lines-HasShellNames (split b'\n' content) vars out h e
