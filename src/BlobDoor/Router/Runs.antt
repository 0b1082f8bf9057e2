-- ===== src/BlobDoor/Router/Runs.antt =====
-- What holds after any run of requests.
use mjolnir.Base.{
  ℕ, ◌≡◌, ◌<◌, ◌^◌, ◌-◌, refl, Bool, false, Option, List, [], ◌∷◌, Str, Result, ok, err, All, arith,
}
use mjolnir.BlobDoor.Store.{CanonicalStore}
use mjolnir.BlobDoor.Put.{PutOutcome, PutError, put_file}
use mjolnir.BlobDoor.Http.{
  RequestIo, AppState, Hashes, split_obao, put_one, get_one, receive, store_received, answer_put,
}
use mjolnir.BlobDoor.Http.Invariant.{
  InOrder, Removes, put_one-InOrder, get_one-InOrder, open_cached-InOrder,
}
use mjolnir.BlobDoor.Router.{Request, head_one, object, run}

-- The state of a door that serves: its cache in order, and a limit that a counter can hold.
pub record Serves {S : Type 0} (max_bytes : ℕ) (app : AppState S) : Type 0 where
  pub cache_ok : InOrder app.cache
  pub same_limit : app.max_bytes ≡ max_bytes

module _ (lib : Hashes) {S : Type 0} (store : CanonicalStore S) where
  answer_put-max_bytes :
      (io : RequestIo) (app : AppState S) (hash : Str) (obao : Bool) (len : ℕ) (bytes : List ℕ)
      (put : Result PutError PutOutcome × S)
      → (answer_put lib store io app hash obao len bytes put).1.max_bytes ≡ app.max_bytes
  answer_put-max_bytes io app hash obao len bytes (ok o, s) = refl
  answer_put-max_bytes io app hash obao len bytes (err e, s) = refl

  store_received-max_bytes :
      (io : RequestIo) (app : AppState S) (hash : Str) (obao : Bool) (r : Result ℕ (ℕ × List ℕ))
      → (store_received lib store io app hash obao r).1.max_bytes ≡ app.max_bytes
  store_received-max_bytes io app hash obao (err status) = refl
  store_received-max_bytes io app hash obao (ok (len, bytes)) =
      answer_put-max_bytes io app hash obao len bytes (put_file store app.state hash bytes len obao)

  put_one-max_bytes :
      (io : RequestIo) (app : AppState S) (hash : Str) (obao : Bool) (header : Option Str)
      (body : List (Result Unit (List ℕ)))
      → (put_one lib store io app hash obao header body).1.max_bytes ≡ app.max_bytes
  unfolding put_one
  put_one-max_bytes io app hash obao header body =
      store_received-max_bytes io app hash obao (receive lib io app.max_bytes hash obao header body)

  object-Serves :
      (io : RequestIo) (req : Request) (app : AppState S) (max_bytes : ℕ)
      → Removes io
      → max_bytes < 2 ^ 64 - 1
      → Serves max_bytes app
      → Serves max_bytes (object lib store io app req).1
  unfolding object head_one get_one
  object-Serves io req app max_bytes r m v =
      let (hash, obao) = split_obao req.path in
      let put : Serves max_bytes
          (put_one lib store io app hash obao req.length_header req.chunks).1 =
        record {
          cache_ok =
              put_one-InOrder lib store io r app hash obao req.length_header req.chunks
                (omega (arith, m, v.same_limit)) v.cache_ok;
          same_limit = omega (
            arith,
            put_one-max_bytes io app hash obao req.length_header req.chunks,
            v.same_limit,
          );
        } in
      let got : Serves max_bytes (get_one lib store io app hash obao).1 = record {
        cache_ok = get_one-InOrder lib store io r app hash obao v.cache_ok;
        same_limit = v.same_limit;
      } in
      let headed : Serves max_bytes (head_one lib store io app hash).1 = record {
        cache_ok = open_cached-InOrder io.opens io.cache_io.now app.cache hash false v.cache_ok;
        same_limit = v.same_limit;
      } in
      ground (arith, put, got, headed, v)

  -- After any run of requests, whatever fails in them, the cache is tidy and within its budget, if
  -- it was so at the start, with the budget and the limit below 2^64 - 1, and the file system
  -- removes what it is asked to.
  pub run-Serves :
      (reqs : List (RequestIo × Request)) (app : AppState S) (max_bytes : ℕ)
      → All (λ r. Removes r.0) reqs
      → max_bytes < 2 ^ 64 - 1
      → Serves max_bytes app
      → Serves max_bytes (run lib store app reqs)
  unfolding run
  run-Serves [] app max_bytes r m v = v
  run-Serves ((io, req) ∷ reqs) app max_bytes r m v =
      run-Serves reqs (object lib store io app req).1 max_bytes r.1 m
        (object-Serves io req app max_bytes r.0 m v)
