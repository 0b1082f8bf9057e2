-- ===== src/BlobDoor/Http/Invariant.antt =====
-- Every run of requests keeps the cache tidy and within its budget.
use mjolnir.Base.{
  ℕ, ◌^◌, ◌-◌, ◌≤◌, ◌<◌, ◌≡◌, refl, Bool, true, false, Str, List, [], ◌∷◌, Option, none, some,
  Result, ok, err, length, inl, inr, All, Distinct, Bool-cases, arith, eq_str,
}
use mjolnir.BlobDoor.Store.{CanonicalStore, StoreError, not_found, backend}
use mjolnir.BlobDoor.Put.{PutOutcome, PutError, key_of, put_file}
use mjolnir.BlobDoor.Cache.{
  Entry, DiskCache, Io, has_name, touch, object_path, promote, commit_fill, open_cached,
}
use mjolnir.BlobDoor.Cache.Files.{same_name, total, IsTidy}
use mjolnir.BlobDoor.Cache.Tidy.{Kept, commit_fill-Kept, promote-Kept}
use mjolnir.BlobDoor.Http.{
  RequestIo, AppState, Hashes, receive, answer_put, store_received, put_one, tee, fill_cache,
  tee_and_cache, get_upstream, get_after, get_one,
}
use mjolnir.BlobDoor.Http.Accepted.{receive-eq-ok}

-- A cache in order, with a budget that its counter can hold.
pub record InOrder (c : DiskCache) : Type 0 where
  pub tidy : IsTidy c
  pub bounded : c.budget < 2 ^ 64 - 1
  pub within : c.used ≤ c.budget

-- The file system removes what it is asked to.
abbrev pub Removes : RequestIo → Type 0
Removes io = (name : Str) → io.cache_io.removes name ≡ true

Kept-InOrder : (c : DiskCache) (dest : Str) (r : _) → InOrder c → Kept c.budget dest r → InOrder r.1
Kept-InOrder c dest r o k = record {
  tidy = k.tidy;
  bounded = omega (arith, o.bounded, k.same_budget);
  within = omega (arith, k.within, k.same_budget);
}

touch-total : (name : Str) (now : ℕ) (es : List Entry) → total (touch name now es) ≡ total es
unfolding touch
touch-total name now [] = refl
touch-total name now (e ∷ es) = elim (Bool-cases (has_name name e)) [
  | inl h ↦ rw h (omega (arith, touch-total name now es))
  | inr h ↦ rw h (omega (arith, touch-total name now es))
]

touch-All :
    (P : Str → Type 0) (name : Str) (now : ℕ) (es : List Entry)
    → All (λ e. P e.name) es
    → All (λ e. P e.name) (touch name now es)
unfolding touch
touch-All P name now [] h = tt
touch-All P name now (e ∷ es) h = elim (Bool-cases (has_name name e)) [
  | inl q ↦ rw q (h.0, touch-All P name now es h.1)
  | inr q ↦ rw q (h.0, touch-All P name now es h.1)
]

touch-Distinct :
    (name : Str) (now : ℕ) (es : List Entry)
    → Distinct same_name es
    → Distinct same_name (touch name now es)
unfolding touch
touch-Distinct name now [] d = tt
touch-Distinct name now (e ∷ es) d = elim (Bool-cases (has_name name e)) [
  | inl q ↦
      rw q
        (touch-All (λ n. eq_str e.name n ≡ false) name now es d.0, touch-Distinct name now es d.1)
  | inr q ↦
      rw q
        (touch-All (λ n. eq_str e.name n ≡ false) name now es d.0, touch-Distinct name now es d.1)
]

pub open_cached-InOrder :
    (opens : Bool) (now : ℕ) (c : DiskCache) (hash : Str) (obao : Bool)
    → InOrder c
    → InOrder (open_cached opens now c hash obao).1
unfolding open_cached
open_cached-InOrder opens now c hash obao o =
    let name = object_path hash obao in
    let touched : InOrder (record c { objects = touch name now c.objects }) = record {
      tidy = record {
        distinct = touch-Distinct name now c.objects o.tidy.distinct;
        counted = omega (arith, o.tidy.counted, touch-total name now c.objects);
      };
      bounded = o.bounded;
      within = o.within;
    } in
    ground (arith, o, touched)

module _ {S : Type 0} (lib : Hashes) (store : CanonicalStore S) (io : RequestIo)
    (removes : Removes io) where
  answer_put-InOrder :
      (app : AppState S) (hash : Str) (obao : Bool) (len : ℕ) (bytes : List ℕ)
      (put : Result PutError PutOutcome × S)
      → len ≡ length bytes
      → InOrder app.cache
      → InOrder (answer_put lib store io app hash obao len bytes put).1.cache
  answer_put-InOrder app hash obao len bytes (err e, s) n o = o
  answer_put-InOrder app hash obao len bytes (ok outcome, s) n o =
      let io' : Io = record io.cache_io { closes = true } in
      let kept = promote-Kept io' app.cache bytes hash obao removes o.tidy o.bounded o.within in
      rw n (
        Kept-InOrder app.cache (object_path hash obao)
          (promote io' app.cache bytes hash obao (length bytes)) o kept)

  store_received-InOrder :
      (app : AppState S) (hash : Str) (obao : Bool) (header : Option Str)
      (body : List (Result Unit (List ℕ))) (received : Result ℕ (ℕ × List ℕ))
      → receive lib io app.max_bytes hash obao header body ≡ received
      → app.max_bytes < 2 ^ 64 - 1
      → InOrder app.cache
      → InOrder (store_received lib store io app hash obao received).1.cache
  store_received-InOrder app hash obao header body (err status) e m o = o
  store_received-InOrder app hash obao header body (ok (len, bytes)) e m o =
      let got = receive-eq-ok lib io app.max_bytes hash obao header body len bytes m e in
      answer_put-InOrder app hash obao len bytes (put_file store app.state hash bytes len obao)
        got.size o

  pub put_one-InOrder :
      (app : AppState S) (hash : Str) (obao : Bool) (header : Option Str)
      (body : List (Result Unit (List ℕ)))
      → app.max_bytes < 2 ^ 64 - 1
      → InOrder app.cache
      → InOrder (put_one lib store io app hash obao header body).1.cache
  unfolding put_one
  put_one-InOrder app hash obao header body m o =
      store_received-InOrder app hash obao header body
        (receive lib io app.max_bytes hash obao header body) refl m o

  fill_cache-InOrder :
      (c : DiskCache) (hash : Str) (obao : Bool) (len : ℕ) (written : Option (List ℕ))
      → InOrder c
      → InOrder (fill_cache lib store io c hash obao len written)
  fill_cache-InOrder c hash obao len none o = o
  fill_cache-InOrder c hash obao len (some bytes) o =
      let kept = commit_fill-Kept io.cache_io c bytes hash obao removes o.tidy o.bounded o.within in
      let filled =
        Kept-InOrder c (object_path hash obao)
          (commit_fill io.cache_io c bytes hash obao (length bytes)) o kept in
      ground (arith, o, filled)

  tee_and_cache-InOrder :
      (c : DiskCache) (hash : Str) (obao : Bool) (len : ℕ) (items : List (Result Unit (List ℕ)))
      → InOrder c
      → InOrder (tee_and_cache lib store io c hash obao len items).1
  unfolding tee_and_cache
  tee_and_cache-InOrder c hash obao len items o =
      let filled = fill_cache-InOrder c hash obao len (tee lib store io true [] items).1 o in
      ground (arith, o, filled)

  get_upstream-InOrder :
      (c : DiskCache) (hash : Str) (obao : Bool)
      (r : Result StoreError (ℕ × List (Result Unit (List ℕ))))
      → InOrder c
      → InOrder (get_upstream lib store io c hash obao r).1
  get_upstream-InOrder c hash obao (err not_found) o = o
  get_upstream-InOrder c hash obao (err (backend e)) o = o
  get_upstream-InOrder c hash obao (ok (len, items)) o =
      let filled = tee_and_cache-InOrder c hash obao len items o in ground (arith, o, filled)

  get_after-InOrder :
      (s : S) (hash : Str) (obao : Bool) (found : Option (List ℕ) × DiskCache)
      → InOrder found.1
      → InOrder (get_after lib store io s hash obao found).1
  get_after-InOrder s hash obao (some file, c) o = o
  get_after-InOrder s hash obao (none, c) o =
      get_upstream-InOrder c hash obao (store.get_stream s (key_of hash obao)) o

  pub get_one-InOrder :
      (app : AppState S) (hash : Str) (obao : Bool)
      → InOrder app.cache
      → InOrder (get_one lib store io app hash obao).1.cache
  unfolding get_one
  get_one-InOrder app hash obao o =
      get_after-InOrder app.state hash obao
        (open_cached io.opens io.cache_io.now app.cache hash obao)
        (open_cached-InOrder io.opens io.cache_io.now app.cache hash obao o)
