-- ===== src/Client/Encode/Quoted.antt =====
-- connect.rs: a shell reads a quoted text as that text, and the dummy host is one word.
use mjolnir.Base.{
  ℕ, ◌||◌, is_ascii_alphanumeric, Bool, true, false, Option, none, some, [], ◌∷◌, ◌++◌, Str, ◌==◌,
  ◌≡◌, refl, Bool-cases, inl, inr, append_assoc, ==_iff,
}
use mjolnir.Client.Encode.{replace_quotes, shell_quote}

-- Where a shell stands in a word: before its first character, in it, in single quotes, or behind a
-- backslash.
pub data Mode : Type 0 where
  start inside quoted escaped : Mode

abbrev pub is_blank : ℕ → Bool
is_blank c = c == 32 || c == 9 || c == 10

-- What stands for itself outside quotes. The other characters have a meaning of their own there.
abbrev pub is_literal : ℕ → Bool
is_literal c =
    is_ascii_alphanumeric c || c == b'_' || c == b'-' || c == b'.' || c == b'/' || c == b','

abbrev pub with_first : ℕ → Option (Str × Str) → Option (Str × Str)
with_first c none = none
with_first c (some (w, r)) = some (c ∷ w, r)

-- A word of a POSIX shell that begins here, made of literal characters, of such behind a backslash, and
-- of texts in single quotes, in which all stands for itself; with what is behind it. A blank ends the
-- word. There is none where no word begins, where a quote is left open, or where another character
-- would be an operator, an expansion or a comment.
unfoldable pub read_word : Mode → Str → Option (Str × Str)
unfolding is_ascii_alphanumeric
read_word start [] = none
read_word inside [] = some ([], [])
read_word quoted [] = none
read_word escaped [] = none
read_word start (c ∷ s) = elim (c == 39) [
  | true ↦ read_word quoted s
  | false ↦ elim (c == 92) [
    | true ↦ read_word escaped s
    | false ↦ elim (is_literal c) [ true ↦ with_first c (read_word inside s) | false ↦ none ]
  ]
]
read_word inside (c ∷ s) = elim (c == 39) [
  | true ↦ read_word quoted s
  | false ↦ elim (c == 92) [
    | true ↦ read_word escaped s
    | false ↦ elim (is_blank c) [
      | true ↦ some ([], c ∷ s)
      | false ↦ elim (is_literal c) [ true ↦ with_first c (read_word inside s) | false ↦ none ]
    ]
  ]
]
read_word quoted (c ∷ s) = elim (c == 39) [
  | true ↦ read_word inside s
  | false ↦ with_first c (read_word quoted s)
]
read_word escaped (c ∷ s) = elim (c == 10) [
  | true ↦ none
  | false ↦ with_first c (read_word inside s)
]

-- What stands behind a word: the end, or a space and more.
abbrev pub Ends : Str → Type 0
Ends [] = Unit {0}
Ends (c ∷ s) = c ≡ 32

read_word-end : (rest : Str) → Ends rest → read_word inside rest ≡ some ([], rest)
unfolding read_word
read_word-end [] h = refl
read_word-end (c ∷ s) h = rw h refl

read_word-replace_quotes :
    (s rest : Str) → Ends rest → read_word quoted (replace_quotes s ++ 39 ∷ rest) ≡ some (s, rest)
unfolding read_word replace_quotes
read_word-replace_quotes [] rest h = read_word-end rest h
read_word-replace_quotes (c ∷ s) rest h =
    let ih = read_word-replace_quotes s rest h in
    elim (Bool-cases (c == 39)) [
      | inl e ↦ let same : c ≡ 39 = (==_iff c 39).0 e in rw same (rw ih refl)
      | inr e ↦ rw (replace_quotes, e) (rw (read_word, e) (rw ih refl))
    ]

-- A POSIX shell reads a text that was quoted for it, whatever it holds and also where it is empty, as one
-- word that is that text, and goes on behind it.
pub read_word-shell_quote :
    (s rest : Str) → Ends rest → read_word start (shell_quote s ++ rest) ≡ some (s, rest)
unfolding shell_quote read_word
read_word-shell_quote s rest h =
    rw (append_assoc (replace_quotes s) (39 ∷ []) rest) (read_word-replace_quotes s rest h)
