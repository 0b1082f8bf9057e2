-- ===== src/BlobDoor/Store.antt =====
-- store.rs, the interface of a canonical store and its keys; memory.rs, the store in memory.
use mjolnir.Base.{
  ℕ, ◌+◌, Option, none, some, List, [], ◌∷◌, ◌++◌, Str, codes, eq_str, if◌then◌else◌, Result, ok,
  err, length,
}

pub data StoreError : Type 0 where
  not_found : StoreError
  backend : Str → StoreError

-- The operations that the door calls; a stream is its items, an error among them. A read leaves the store as it is; a write may fail and still
-- change it.
pub record CanonicalStore (S : Type 0) : Type 0 where
  pub get : S → Str → Result StoreError (List ℕ)
  pub get_stream : S → Str → Result StoreError (ℕ × List (Result Unit (List ℕ)))
  pub head : S → Str → Result StoreError ℕ
  pub put : S → Str → List ℕ → Result StoreError Unit × S

abbrev key_prefix : Str
key_prefix = codes "blob/b3/"

unfoldable pub object_key : Str → Str
object_key hash_b58 = key_prefix ++ hash_b58

unfoldable pub outboard_key : Str → Str
outboard_key hash_b58 = key_prefix ++ hash_b58 ++ codes ".obao"

-- A map from keys to values, as the pairs that it holds.
abbrev pub lookup {ℓ} : {A : Type ℓ} → Str → List (Str × A) → Option A
lookup key [] = none
lookup key ((k, v) ∷ kvs) = if eq_str k key then some v else lookup key kvs

abbrev pub insert {ℓ} : {A : Type ℓ} → Str → A → List (Str × A) → List (Str × A)
insert key v [] = (key, v) ∷ []
insert key v ((k, w) ∷ kvs) = if eq_str k key then (k, v) ∷ kvs else (k, w) ∷ insert key v kvs

pub record MemoryStore : Type 0 where
  pub objects : List (Str × List ℕ)
  pub versions : List (Str × ℕ)

abbrev or_zero : Option ℕ → ℕ
or_zero none = 0
or_zero (some n) = n

unfoldable pub version_count : MemoryStore → Str → ℕ
version_count s key = or_zero (lookup key s.versions)

abbrev or_not_found : {A : Type 0} → Option A → Result StoreError A
or_not_found none = err not_found
or_not_found (some a) = ok a

unfoldable pub memory_get : MemoryStore → Str → Result StoreError (List ℕ)
memory_get s key = or_not_found (lookup key s.objects)

abbrev size_of : Option (List ℕ) → Result StoreError ℕ
size_of none = err not_found
size_of (some b) = ok (length b)

unfoldable pub memory_head : MemoryStore → Str → Result StoreError ℕ
memory_head s key = size_of (lookup key s.objects)

unfoldable pub memory_put : MemoryStore → Str → List ℕ → Result StoreError Unit × MemoryStore
memory_put s key bytes = (
  ok tt,
  record {
    objects = insert key bytes s.objects;
    versions = insert key (or_zero (lookup key s.versions) + 1) s.versions;
  },
)

abbrev one_item : Result StoreError (List ℕ) → Result StoreError (ℕ × List (Result Unit (List ℕ)))
one_item (ok bytes) = ok (length bytes, ok bytes ∷ [])
one_item (err e) = err e

unfoldable pub memory_get_stream :
    MemoryStore → Str → Result StoreError (ℕ × List (Result Unit (List ℕ)))
unfolding memory_get
memory_get_stream s key = one_item (memory_get s key)

abbrev pub memory_store : CanonicalStore MemoryStore
memory_store = record {
  get = memory_get;
  get_stream = memory_get_stream;
  head = memory_head;
  put = memory_put;
}
