-- ===== src/BlobDoor/Cache.antt =====
-- cache.rs, the cache on disk. The directory `objects` is the list of its files, each with its
-- bytes and its time of access; a promotion runs under the admission lock, so it is one step.
pub mod Tidy
pub mod Files
pub mod Evict
use mjolnir.Base.{
  ℕ, ◌+◌, ◌-◌, ◌*◌, ◌^◌, ◌%◌, min, Bool, true, false, not, Option, none, some, List, [], ◌∷◌, ◌++◌,
  Str, codes, eq_str, if◌then◌else◌, ltb, leb, Result, ok, err, length, filter, any, find,
}

pub record Entry : Type 0 where
  pub name : Str
  pub bytes : List ℕ
  pub accessed : ℕ

pub record DiskCache : Type 0 where
  pub objects : List Entry
  pub budget : ℕ
  pub used : ℕ

-- What the file system does in one operation: which files it removes when asked, and whether the
-- other calls succeed; and the time.
pub record Io : Type 0 where
  pub removes : Str → Bool
  pub closes : Bool
  pub reads_dir : Bool
  pub renames : Bool
  pub now : ℕ

pub data IoError : Type 0 where
  close_failed read_dir_failed rename_failed : IoError

-- `u64::saturating_add`
abbrev pub saturating_add : ℕ → ℕ → ℕ
saturating_add a b = min (a + b) (2 ^ 64 - 1)

unfoldable pub object_path : Str → Bool → Str
object_path hash_b58 obao = if obao then hash_b58 ++ codes ".obao" else hash_b58

abbrev pub has_name : Str → Entry → Bool
has_name name e = eq_str e.name name

abbrev pub remove_file : Str → List Entry → List Entry
remove_file name objects = filter (λ e. not (has_name name e)) objects

-- `entries.sort_by_key(|(t, _, _)| *t)`, which is stable.
unfoldable pub insert_entry : Entry → List Entry → List Entry
insert_entry e [] = e ∷ []
insert_entry e (f ∷ fs) =
    let rest = insert_entry e fs in if leb e.accessed f.accessed then e ∷ f ∷ fs else f ∷ rest

unfoldable pub sort_entries : List Entry → List Entry
unfolding insert_entry
sort_entries [] = []
sort_entries (e ∷ es) = insert_entry e (sort_entries es)

-- One file taken away, if the file system does so.
abbrev pub evict_one : Io → DiskCache → Entry → DiskCache
evict_one io c e =
    if io.removes e.name
    then record c { objects = remove_file e.name c.objects; used = c.used - length e.bytes }
    else c

-- The loop over the entries, oldest first.
unfoldable pub evict_entries : Io → ℕ → DiskCache → List Entry → DiskCache
evict_entries io need c [] = c
evict_entries io need c (e ∷ es) =
    let rest = evict_entries io need (evict_one io c e) es in
    if leb (saturating_add c.used need) c.budget then c else rest

unfoldable pub evict_to_fit : Io → ℕ → DiskCache → Result IoError DiskCache
unfolding evict_entries sort_entries
evict_to_fit io need c =
    if leb (saturating_add c.used need) c.budget
    then ok c
    else if io.reads_dir
    then ok (evict_entries io need c (sort_entries c.objects))
    else err read_dir_failed

-- The rename of the incoming file, and the count of its length.
abbrev pub admit : Io → Str → List ℕ → ℕ → DiskCache → Result IoError (Option Str) × DiskCache
admit io dest bytes len c =
    if io.renames
    then (
      ok (some dest),
      record c {
        objects = c.objects ++ record { name = dest; bytes = bytes; accessed = io.now } ∷ [];
        used = (c.used + len) % 2 ^ 64;
      },
    )
    else (err rename_failed, c)

abbrev pub admit_after :
    Io
    → Str
    → List ℕ
    → ℕ
    → DiskCache
    → Result IoError DiskCache
    → Result IoError (Option Str) × DiskCache
admit_after io dest bytes len c (err e) = (err e, c)
admit_after io dest bytes len c (ok evicted) = admit io dest bytes len evicted

-- `commit_fill`, for a file with the bytes `bytes` whose length is announced as `len`.
unfoldable pub commit_fill :
    Io → DiskCache → List ℕ → Str → Bool → ℕ → Result IoError (Option Str) × DiskCache
unfolding evict_to_fit object_path
commit_fill io c bytes hash_b58 obao len =
    let dest = object_path hash_b58 obao in
    if any (has_name dest) c.objects
    then (ok (some dest), c)
    else if ltb c.budget len
    then (ok none, c)
    else admit_after io dest bytes len c (evict_to_fit io len c)

-- `promote`: the same, behind the closing of the file that was received.
unfoldable pub promote :
    Io → DiskCache → List ℕ → Str → Bool → ℕ → Result IoError (Option Str) × DiskCache
unfolding evict_to_fit object_path
promote io c bytes hash_b58 obao len =
    if not io.closes
    then (err close_failed, c)
    else let dest = object_path hash_b58 obao in
      if any (has_name dest) c.objects
      then (ok (some dest), c)
      else if ltb c.budget len
      then (ok none, c)
      else admit_after io dest bytes len c (evict_to_fit io len c)

-- `touch_accessed`
unfoldable pub touch : Str → ℕ → List Entry → List Entry
touch name now [] = []
touch name now (e ∷ es) =
    (if has_name name e then record e { accessed = now } else e) ∷ touch name now es

abbrev scan_from : ℕ → List Entry → ℕ
scan_from total [] = total
scan_from total (e ∷ es) = scan_from (saturating_add total (length e.bytes)) es

-- `scan_size`, and `open` on a directory that has these files.
unfoldable pub scan_size : List Entry → ℕ
scan_size objects = scan_from 0 objects

unfoldable pub open_cache : List Entry → ℕ → DiskCache
unfolding scan_size
open_cache objects budget = record { objects = objects; budget = budget; used = scan_size objects }

-- `open_cached`, without the hook that its tests use; `opens` is whether the file opens. The time
-- of access is then set.
unfoldable pub open_cached : Bool → ℕ → DiskCache → Str → Bool → Option (List ℕ) × DiskCache
unfolding object_path
open_cached opens now c hash_b58 obao =
    elim (find (has_name (object_path hash_b58 obao)) c.objects) [
      | none ↦ (none, c)
      | some e ↦
          if opens
          then (
            some e.bytes,
            record c { objects = touch (object_path hash_b58 obao) now c.objects },
          )
          else (none, c)
    ]
