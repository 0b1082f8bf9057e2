-- ===== src/BlobDoor/Router.antt =====
-- http.rs: HEAD requests, the choice of a handler, and runs of requests one after the other.
pub mod Runs
use mjolnir.Base.{
  ℕ, Bool, true, false, not, ◌&&◌, ◌||◌, Option, none, some, List, [], ◌∷◌, Str, codes, eq_str,
  if◌then◌else◌, Result, ok, err, length,
}
use mjolnir.BlobDoor.Store.{StoreError, not_found, backend, CanonicalStore, object_key}
use mjolnir.BlobDoor.Cache.{DiskCache, open_cached}
use mjolnir.BlobDoor.Http.{
  RequestIo, AppState, Response, plain, Hashes, hash_from_base58, split_obao, put_one, get_one,
}

-- What a client sends: the method, the last segment of the path, the length that its header
-- announces and the body.
pub record Request : Type 0 where
  pub method : Str
  pub path : Str
  pub length_header : Option Str
  pub chunks : List (Result Unit (List ℕ))

-- A response with its `Content-Length`, where one is set.
pub data Answer : Type 0 where
  answer : Response → Answer
  head_answer : (status content_length : ℕ) → Answer

module _ (lib : Hashes) {S : Type 0} (store : CanonicalStore S) where
  abbrev head_upstream : Result StoreError ℕ → Answer
  head_upstream (ok len) = head_answer 200 len
  head_upstream (err not_found) = answer (plain 404)
  head_upstream (err (backend e)) = answer (record { status = 502; body = e })

  abbrev head_after : S → Str → Option (List ℕ) → Answer
  head_after s hash (some file) = head_answer 200 (length file)
  head_after s hash none = head_upstream (store.head s (object_key hash))

  unfoldable pub head_one : RequestIo → AppState S → Str → Answer × AppState S
  head_one io app hash =
      let (file, cache) = open_cached io.opens io.cache_io.now app.cache hash false in
      (head_after app.state hash file, record app { cache = cache })

  abbrev is_some : Option (List ℕ) → Bool
  is_some none = false
  is_some (some h) = true

  abbrev answered : Response × AppState S → Answer × AppState S
  answered (response, app) = (answer response, app)

  -- `object`: the handler of `/storage/blob/b3/{hash}`.
  unfoldable pub object : RequestIo → AppState S → Request → Answer × AppState S
  unfolding split_obao head_one
  object io app req =
      let (hash, obao) = split_obao req.path in
      let valid_hash = is_some (hash_from_base58 lib hash) in
      let is_get = eq_str req.method (codes "GET") in
      let is_head = eq_str req.method (codes "HEAD") in
      if eq_str req.method (codes "PUT")
      then answered (put_one lib store io app hash obao req.length_header req.chunks)
      else if is_get && valid_hash
      then answered (get_one lib store io app hash obao)
      else if is_head && valid_hash && not obao
      then head_one io app hash
      else if (is_get || is_head) && not valid_hash
      then (answer (plain 400), app)
      else (answer (plain 405), app)

  -- Requests one after the other, each with what the system does meanwhile.
  unfoldable pub run : AppState S → List (RequestIo × Request) → AppState S
  unfolding object
  run app [] = app
  run app ((io, req) ∷ reqs) = run (object io app req).1 reqs
