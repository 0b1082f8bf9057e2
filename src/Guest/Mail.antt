-- ===== src/Guest/Mail.antt =====
-- consume.rs: the record of the mails that were seen, on disk and in memory, and their dispatch.
-- The JSON of a mail is a parameter; the hook that runs afterwards is not modelled.
pub mod Seen
pub mod Once
use mjolnir.Base.{
  ℕ, Bool, true, false, not, ◌&&◌, ◌||◌, Option, none, some, List, [], ◌∷◌, ◌++◌, Str, codes,
  eq_str, if◌then◌else◌, ◌==◌, Result, ok, err, is_empty, any, filter, map, is_ascii_alphanumeric,
}

abbrev prepend : ℕ → List Str → List Str
prepend c [] = (c ∷ []) ∷ []
prepend c (l ∷ ls) = (c ∷ l) ∷ ls

abbrev starts_line_feed : Str → Bool
starts_line_feed [] = false
starts_line_feed (c ∷ s) = c == 10

-- `str::lines`: a line ends with a line feed, which a carriage return may precede.
unfoldable pub lines : Str → List Str
lines [] = []
lines (c ∷ s) =
    let rest = lines s in
    if c == 10 then [] ∷ rest else if c == 13 && starts_line_feed s then rest else prepend c rest

-- `path` names a file with this content, the empty one if there is none.
pub record SeenStore : Type 0 where
  pub file : Str
  pub ids : List Str

abbrev pub same_id : Str → Str → Bool
same_id id i = eq_str i id

abbrev ids_of : Str → List Str
ids_of file = filter (λ l. not (is_empty l)) (lines file)

unfoldable pub open_store : Str → SeenStore
unfolding lines
open_store file = record { file = file; ids = ids_of file }

unfoldable pub contains : SeenStore → Str → Bool
contains s id = any (same_id id) s.ids

-- How far an append comes: it fails at once, after the identifier, or after the line feed, where
-- the file or its directory cannot be synced; or it succeeds.
pub data Append : Type 0 where
  open_fails line_feed_fails sync_fails succeeds : Append

pub data MailError : Type 0 where
  record_failed dispatch_failed : MailError

unfoldable pub record_id : Append → SeenStore → Str → Result MailError Unit × SeenStore
unfolding contains
record_id io s id = if contains s id then (ok tt, s) else elim io [
  | open_fails ↦ (err record_failed, s)
  | line_feed_fails ↦ (err record_failed, record s { file = s.file ++ id })
  | sync_fails ↦ (err record_failed, record s { file = s.file ++ (id ++ 10 ∷ []) })
  | succeeds ↦ (ok tt, record { file = s.file ++ (id ++ 10 ∷ []); ids = s.ids ++ id ∷ [] })
]

abbrev sanitized : ℕ → ℕ
sanitized c = if is_ascii_alphanumeric c || c == b'.' || c == b'_' || c == b'-' then c else b'_'

unfoldable pub sanitize_id : Str → Str
unfolding is_ascii_alphanumeric
sanitize_id id = map sanitized id

-- The files that were dropped, the last one first.
pub record Mailbox : Type 0 where
  pub seen : SeenStore
  pub dropped : List (Str × List ℕ)

-- Whether the append and the writing of the mail succeed.
pub record DispatchIo : Type 0 where
  pub append : Append
  pub drops : Bool

abbrev pub dispatch :
    Bool
    → Str
    → List ℕ
    → Bool
    → List (Str × List ℕ)
    → Result MailError Unit × SeenStore
    → Result MailError Bool × Mailbox
dispatch fresh id json drops dropped (err e, s) = (err e, record { seen = s; dropped = dropped })
dispatch false id json drops dropped (ok _, s) = (ok false, record { seen = s; dropped = dropped })
dispatch true id json true dropped (ok _, s) =
    (ok true, record { seen = s; dropped = (sanitize_id id ++ codes ".json", json) ∷ dropped })
dispatch true id json false dropped (ok _, s) =
    (err dispatch_failed, record { seen = s; dropped = dropped })

unfoldable pub record_and_dispatch :
    DispatchIo → Mailbox → Str → List ℕ → Result MailError Bool × Mailbox
unfolding record_id sanitize_id
record_and_dispatch io m id json =
    dispatch (not (contains m.seen id)) id json io.drops m.dropped (record_id io.append m.seen id)
