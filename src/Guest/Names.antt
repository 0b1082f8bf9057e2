-- ===== src/Guest/Names.antt =====
-- tmux.rs: the names of sessions and the command that attaches to one; vmgenid.rs: the reading of a
-- generation identifier.
pub mod Safe
use mjolnir.Base.{
  ℕ, Bool, true, false, not, ◌&&◌, ◌||◌, List, [], ◌∷◌, Str, codes, is_empty, if◌then◌else◌, ltb,
  leb, ◌==◌, all, len, is_ascii_alphanumeric, to_ascii_lowercase, trim, Result, ok, err,
}

pub data NameError : Type 0 where
  empty_name too_long bad_start bad_character : NameError

abbrev starts_alphanumeric : Str → Bool
starts_alphanumeric [] = false
starts_alphanumeric (c ∷ s) = is_ascii_alphanumeric c

abbrev pub name_char : ℕ → Bool
name_char c = is_ascii_alphanumeric c || c == b'-' || c == b'_'

unfoldable pub validate_session_name : Str → Result NameError Unit
unfolding is_ascii_alphanumeric
validate_session_name name =
    if is_empty name
    then err empty_name
    else if ltb 64 (len name)
    then err too_long
    else if not (starts_alphanumeric name)
    then err bad_start
    else if not (all name_char name)
    then err bad_character
    else ok tt

abbrev argv_of : Str → Result NameError Unit → Result NameError (List Str)
argv_of session (err e) = err e
argv_of session (ok _) =
    ok (codes "tmux" ∷ codes "new-session" ∷ codes "-A" ∷ codes "-s" ∷ session ∷ [])

unfoldable pub attach_argv : Str → Result NameError (List Str)
unfolding validate_session_name
attach_argv session = argv_of session (validate_session_name session)

unfoldable pub is_ascii_hexdigit : ℕ → Bool
is_ascii_hexdigit c =
    (leb b'0' c && leb c b'9') || (leb b'a' c && leb c b'f') || (leb b'A' c && leb c b'F')

-- The error tells the length of what was read.
unfoldable pub parse_generation_id : Str → Result ℕ Str
unfolding is_ascii_hexdigit
parse_generation_id text =
    let id = trim text in
    if len id == 32 && all is_ascii_hexdigit id then ok (to_ascii_lowercase id) else err (len id)
