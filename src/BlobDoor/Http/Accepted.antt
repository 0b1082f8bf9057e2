-- ===== src/BlobDoor/Http/Accepted.antt =====
-- What the status of an upload says: of an accepted one, that the object is stored; of a refused
-- one, that nothing was changed.
use mjolnir.Base.{
  ℕ, ◌+◌, ◌^◌, ◌-◌, ◌%◌, ◌≤◌, ◌<◌, ◌≡◌, ◌≢◌, ◌⊎◌, refl, Bool, true, false, Str, List, [], ◌∷◌, ◌++◌,
  Option, none, some, Result, ok, err, length, length-append, append_assoc, append_nil, eq_str_iff,
  arith,
}
use mjolnir.BlobDoor.Store.{CanonicalStore}
use mjolnir.BlobDoor.Put.{
  PutOutcome, PutError, hash_mismatch, not_confirmed, put_backend, key_of, put_file,
}
use mjolnir.BlobDoor.Put.Stored.{put_file-held}
use mjolnir.BlobDoor.Http.{
  PumpError, too_large, io_error, claim, pumped, RequestIo, pump_chunks, pump_body, AppState,
  Response, Hashes, hash_from_base58, receive, answer_put, store_received, put_one,
}

-- The body arrives whole: every chunk of it arrives, and these are their bytes.
pub data IsWhole : List (Result Unit (List ℕ)) → List ℕ → Type 0 where
  no_more : IsWhole [] []
  one_more :
      {chunks : List (Result Unit (List ℕ))} {bytes : List ℕ} (chunk : List ℕ)
      → IsWhole chunks bytes
      → IsWhole (ok chunk ∷ chunks) (chunk ++ bytes)

-- What is behind the bytes that are there is the rest of the body.
record Rest (file bytes : List ℕ) (body : List (Result Unit (List ℕ))) : Type 0 where
  behind : List ℕ
  whole : IsWhole body behind
  joined : bytes ≡ file ++ behind

pump_chunks-eq-ok :
    (io : RequestIo) (max_bytes written : ℕ) (file : List ℕ) (body : List (Result Unit (List ℕ)))
    (len : ℕ) (bytes : List ℕ)
    → max_bytes < 2 ^ 64 - 1
    → written ≡ length file
    → written ≤ max_bytes
    → pump_chunks io max_bytes written file body ≡ ok (len, bytes)
    → (len ≡ length bytes) × Rest file bytes body × (length bytes ≤ max_bytes)
unfolding pump_chunks
pump_chunks-eq-ok io max_bytes written file [] len bytes m w n h =
    let count : written ≡ len = ground arith in
    let kept : file ≡ bytes = ground arith in
    (
      cc (count, kept, w),
      record { behind = []; whole = no_more; joined = cc (kept, append_nil file) },
      rw (← kept) (omega arith),
    )
pump_chunks-eq-ok io max_bytes written file (err _ ∷ body) len bytes m w n h =
    unfold pump_chunks in cc
pump_chunks-eq-ok io max_bytes written file (ok chunk ∷ body) len bytes m w n h =
    let later : pump_chunks io max_bytes ((written + length chunk) % 2 ^ 64) (file ++ chunk) body
        ≡ ok (len, bytes) =
      ground arith in
    let small : written + length chunk ≤ max_bytes = ground arith in
    let (size, same, within) =
      pump_chunks-eq-ok io max_bytes ((written + length chunk) % 2 ^ 64) (file ++ chunk) body len
        bytes m (omega (arith, length-append file chunk)) (omega arith) later in
    (
      size,
      record {
        behind = chunk ++ same.behind;
        whole = one_more chunk same.whole;
        joined = cc (same.joined, append_assoc file chunk same.behind);
      },
      within,
    )

-- What an upload that is received consists of.
pub record Received (lib : Hashes) (max_bytes : ℕ) (hash : Str) (obao : Bool)
    (body : List (Result Unit (List ℕ))) (len : ℕ) (bytes : List ℕ) : Type 0 where
  pub claimed : List ℕ
  pub decoded : hash_from_base58 lib hash ≡ some claimed
  pub whole : IsWhole body bytes
  pub size : len ≡ length bytes
  pub within : length bytes ≤ max_bytes
  pub hashed : obao ≡ false → lib.blake3 bytes ≡ claimed

claim-eq-ok : (lib : Hashes) (o : Option (List ℕ)) (h : List ℕ) → claim lib o ≡ ok h → o ≡ some h
claim-eq-ok lib none h e = cc
claim-eq-ok lib (some c) h e = cc

pumped-eq-ok : (r : Result PumpError (ℕ × List ℕ)) (p : ℕ × List ℕ) → pumped r ≡ ok p → r ≡ ok p
pumped-eq-ok (ok r) p e = cc
pumped-eq-ok (err too_large) p e = cc
pumped-eq-ok (err (io_error true)) p e = cc
pumped-eq-ok (err (io_error false)) p e = cc

pub receive-eq-ok :
    (lib : Hashes) (io : RequestIo) (max_bytes : ℕ) (hash : Str) (obao : Bool) (header : Option Str)
    (body : List (Result Unit (List ℕ))) (len : ℕ) (bytes : List ℕ)
    → max_bytes < 2 ^ 64 - 1
    → receive lib io max_bytes hash obao header body ≡ ok (len, bytes)
    → Received lib max_bytes hash obao body len bytes
unfolding receive pump_body
receive-eq-ok lib io max_bytes hash obao header body len bytes m h =
    let (claimed, e) : (c : List ℕ) × (hash_from_base58 lib hash ≡ some c) = ground arith in
    let p : pump_body io max_bytes body ≡ ok (len, bytes) = ground arith in
    let (size, whole, within) =
      pump_chunks-eq-ok io max_bytes 0 [] body len bytes m refl (omega arith)
        (unfold pump_body in p) in
    record {
      claimed = claimed;
      decoded = e;
      whole = rw whole.joined whole.whole;
      size = size;
      within = within;
      hashed = λ o. (eq_str_iff (lib.blake3 bytes) claimed).0 (ground arith);
    }

-- No refusal has the status of an accepted upload.
receive-refused :
    (lib : Hashes) (io : RequestIo) (max_bytes : ℕ) (hash : Str) (obao : Bool) (header : Option Str)
    (body : List (Result Unit (List ℕ))) (status : ℕ)
    → receive lib io max_bytes hash obao header body ≡ err status
    → 400 ≤ status
unfolding receive
receive-refused lib io max_bytes hash obao header body status h = ground arith

abbrev pub IsAccepted : Response → Type 0
IsAccepted r = (r.status ≡ 201) ⊎ (r.status ≡ 200)

module _ {S : Type 0} (lib : Hashes) (store : CanonicalStore S) (io : RequestIo) (app : AppState S)
    (hash : Str) (obao : Bool) where
  answer_put-accepted :
      (len : ℕ) (bytes : List ℕ) (put : Result PutError PutOutcome × S)
      → put_file store app.state hash bytes len obao ≡ put
      → IsAccepted (answer_put lib store io app hash obao len bytes put).0
      → store.head (answer_put lib store io app hash obao len bytes put).1.state (key_of hash obao)
        ≡ ok len
  answer_put-accepted len bytes (ok outcome, s) e k =
      put_file-held store app.state s hash bytes len obao outcome e
  answer_put-accepted len bytes (err hash_mismatch, s) e k = ground arith
  answer_put-accepted len bytes (err not_confirmed, s) e k = ground arith
  answer_put-accepted len bytes (err (put_backend b), s) e k = ground arith

  module _ (header : Option Str) (body : List (Result Unit (List ℕ))) where
    store_received-accepted :
        (received : Result ℕ (ℕ × List ℕ))
        → receive lib io app.max_bytes hash obao header body ≡ received
        → app.max_bytes < 2 ^ 64 - 1
        → let r = store_received lib store io app hash obao received in
          IsAccepted r.0
          → (bytes : List ℕ) × Received lib app.max_bytes hash obao body (length bytes) bytes
            × (store.head r.1.state (key_of hash obao) ≡ ok (length bytes))
    store_received-accepted (err status) e m k =
        let high = receive-refused lib io app.max_bytes hash obao header body status e in
        absurd (ground arith)
    store_received-accepted (ok (len, bytes)) e m k =
        let got = receive-eq-ok lib io app.max_bytes hash obao header body len bytes m e in
        let held =
          answer_put-accepted len bytes (put_file store app.state hash bytes len obao) refl k in
        (bytes, rw (← got.size) got, rw (← got.size) held)

    -- Where the limit is below 2^64 - 1, an upload is accepted only if every chunk of its body came, its
    -- bytes are within the limit and have (unless it is an outboard) the hash of its name, and the
    -- store, asked for that name afterwards, answers with their number.
    pub put_one-accepted :
        app.max_bytes < 2 ^ 64 - 1
        → let answer = put_one lib store io app hash obao header body in
          IsAccepted answer.0
          → (bytes : List ℕ) × Received lib app.max_bytes hash obao body (length bytes) bytes
            × (store.head answer.1.state (key_of hash obao) ≡ ok (length bytes))
    unfolding put_one
    put_one-accepted m k =
        store_received-accepted (receive lib io app.max_bytes hash obao header body) refl m k

    store_received-refused :
        (received : Result ℕ (ℕ × List ℕ))
        → let r = store_received lib store io app hash obao received in
          (¬ IsAccepted r.0)
          → (r.1.cache ≡ app.cache) × (r.0.status ≢ 502 → r.0.status ≢ 503 → r.1 ≡ app)
    store_received-refused (err status) n = (refl, λ a b. refl)
    store_received-refused (ok (len, bytes)) n = unfold put_file in ground arith

    -- An upload that is not accepted leaves the cache as it was; and the store too, unless the
    -- status is 502 or 503, by which the store itself may have failed.
    pub put_one-refused :
        let answer = put_one lib store io app hash obao header body in
        (¬ IsAccepted answer.0)
        → (answer.1.cache ≡ app.cache)
          × (answer.0.status ≢ 502 → answer.0.status ≢ 503 → answer.1 ≡ app)
    unfolding put_one
    put_one-refused = store_received-refused (receive lib io app.max_bytes hash obao header body)
