-- ===== src/BlobDoor/Put.antt =====
-- put.rs: look, write unless it is there, look again.
pub mod Stored
use mjolnir.Base.{ℕ, Bool, Str, List, if◌then◌else◌, Result, ok, err, ◌==◌}
use mjolnir.BlobDoor.Store.{
  StoreError, not_found, backend, CanonicalStore, object_key, outboard_key,
}

pub data PutError : Type 0 where
  hash_mismatch not_confirmed : PutError
  put_backend : Str → PutError

pub data PutOutcome : Type 0 where
  created already_present : PutOutcome

-- `From<StoreError>`
abbrev pub from_store_error : StoreError → PutError
from_store_error not_found = not_confirmed
from_store_error (backend s) = put_backend s

abbrev pub key_of : Str → Bool → Str
key_of hash_b58 obao = if obao then outboard_key hash_b58 else object_key hash_b58

module _ {S : Type 0} (store : CanonicalStore S) where
  unfoldable pub confirm : S → Str → ℕ → Result PutError Unit
  confirm s key len = elim (store.head s key) [
    | ok n ↦ if n == len then ok tt else err not_confirmed
    | err not_found ↦ err not_confirmed
    | err e ↦ err (from_store_error e)
  ]

  abbrev confirmed : Result PutError Unit → Result PutError PutOutcome
  confirmed (ok _) = ok created
  confirmed (err e) = err e

  abbrev after_put : Str → ℕ → Result StoreError Unit × S → Result PutError PutOutcome × S
  after_put key len (ok _, s) = (confirmed (confirm s key len), s)
  after_put key len (err e, s) = (err (from_store_error e), s)

  -- `put_path` of the file at `path`, whose bytes are `bytes`.
  unfoldable pub put_file : S → Str → List ℕ → ℕ → Bool → Result PutError PutOutcome × S
  unfolding confirm
  put_file s hash_b58 bytes len obao = elim (store.head s (key_of hash_b58 obao)) [
    | ok existing ↦ if existing == len then (ok already_present, s) else (err hash_mismatch, s)
    | err _ ↦ after_put (key_of hash_b58 obao) len (store.put s (key_of hash_b58 obao) bytes)
  ]
