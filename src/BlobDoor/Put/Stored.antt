-- ===== src/BlobDoor/Put/Stored.antt =====
-- What an answer of `put_file` says of the store.
use mjolnir.Base.{
  ℕ, ◌≡◌, refl, Bool, Str, List, [], ◌∷◌, none, some, ok, length, eq_str_refl, arith,
}
use mjolnir.BlobDoor.Store.{
  CanonicalStore, lookup, insert, MemoryStore, memory_store, memory_get, memory_head, memory_put,
  version_count,
}
use mjolnir.BlobDoor.Put.{PutOutcome, created, already_present, key_of, confirm, put_file}

-- An object that `put_file` accepts is in the store that it leaves, with the length announced.
pub put_file-held :
    {S : Type 0} (store : CanonicalStore S) (s s' : S) (hash : Str) (bytes : List ℕ) (len : ℕ)
    (obao : Bool) (outcome : PutOutcome)
    → put_file store s hash bytes len obao ≡ (ok outcome, s')
    → store.head s' (key_of hash obao) ≡ ok len
unfolding put_file confirm
put_file-held store s s' hash bytes len obao outcome h = ground arith

lookup-insert :
    {A : Type 0} (key : Str) (v : A) (kvs : List (Str × A)) → lookup key (insert key v kvs) ≡ some v
lookup-insert key v [] = rw (eq_str_refl key) refl
lookup-insert key v ((k, w) ∷ kvs) = ground (arith, lookup-insert key v kvs)

-- Where the store in memory has neither the object nor a version of it, it takes it once: the first upload creates it, as one version, the same
-- upload again finds it there, and it then has the bytes of the file.
pub put_file-memory :
    (s : MemoryStore) (hash : Str) (bytes : List ℕ) (obao : Bool)
    → lookup (key_of hash obao) s.objects ≡ none
    → lookup (key_of hash obao) s.versions ≡ none
    → let first = put_file memory_store s hash bytes (length bytes) obao in
      (first.0 ≡ ok created)
      × (memory_get first.1 (key_of hash obao) ≡ ok bytes)
      × (version_count first.1 (key_of hash obao) ≡ 1)
      × (put_file memory_store first.1 hash bytes (length bytes) obao
          ≡ (ok already_present, first.1))
unfolding put_file confirm memory_get memory_head memory_put version_count
put_file-memory s hash bytes obao h k = ground (
  arith,
  lookup-insert (key_of hash obao) bytes s.objects,
  lookup-insert (key_of hash obao) 1 s.versions,
)
