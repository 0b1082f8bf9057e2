-- ===== src/BlobDoor/Http.antt =====
-- pump.rs and http.rs, the requests of the door. A body is its chunks, and an error among them
-- where the connection breaks; a response is its status and the bytes that it carries.
pub mod Accepted
pub mod Invariant
use mjolnir.Base.{
  ℕ, ◌+◌, ◌-◌, ◌%◌, ◌^◌, Bool, true, false, not, ◌&&◌, ◌||◌, Option, none, some, List, [], ◌∷◌,
  ◌++◌, Str, codes, if◌then◌else◌, ltb, ◌==◌, eq_str, Result, ok, err, ◌>>=◌, length, strip_suffix,
}
use mathlib.Core.Option
use mjolnir.Base.Decimal.{parse_unsigned}
use mjolnir.BlobDoor.Store.{StoreError, not_found, backend, CanonicalStore, object_key}
use mjolnir.BlobDoor.Put.{
  PutError, hash_mismatch, not_confirmed, put_backend, PutOutcome, created, already_present, key_of,
  put_file,
}
use mjolnir.BlobDoor.Cache.{DiskCache, Io, saturating_add, commit_fill, promote, open_cached}

pub data PumpError : Type 0 where
  too_large : PumpError
  io_error : (storage_full : Bool) → PumpError

-- What the system does during one request: whether the incoming file is created, its writes, by
-- the offset, and its last sync succeed, with `some full` for a failure; and the cache's calls.
pub record RequestIo : Type 0 where
  pub create : Option Bool
  pub write : ℕ → Option Bool
  pub sync : Option Bool
  pub closes : Bool
  pub opens : Bool
  pub cache_io : Io

abbrev checked : Option Bool → Result PumpError Unit
checked none = ok tt
checked (some full) = err (io_error full)

-- The loop of `pump_body`; the file so far is `file`, and what is hashed is what is written.
unfoldable pub pump_chunks :
    RequestIo → ℕ → ℕ → List ℕ → List (Result Unit (List ℕ)) → Result PumpError (ℕ × List ℕ)
pump_chunks io max_bytes written file [] = do _ ← checked io.sync; ok (written, file)
pump_chunks io max_bytes written file (err _ ∷ chunks) = err (io_error false)
pump_chunks io max_bytes written file (ok chunk ∷ chunks) =
    let rest =
      pump_chunks io max_bytes ((written + length chunk) % 2 ^ 64) (file ++ chunk) chunks in
    if ltb max_bytes (saturating_add written (length chunk))
    then err too_large
    else do _ ← checked (io.write written); rest

unfoldable pub pump_body :
    RequestIo → ℕ → List (Result Unit (List ℕ)) → Result PumpError (ℕ × List ℕ)
unfolding pump_chunks
pump_body io max_bytes body = pump_chunks io max_bytes 0 [] body

-- `split_obao`
unfoldable pub split_obao : Str → Str × Bool
split_obao hash = elim (strip_suffix (codes ".obao") hash) [
  | some h ↦ (h, true)
  | none ↦ (hash, false)
]

-- `content_length`, of the header's text.
unfoldable pub content_length : Option Str → Option ℕ
content_length header = Option.bind header (λ s. parse_unsigned (2 ^ 64 - 1) s)

pub record AppState (S : Type 0) : Type 0 where
  pub state : S
  pub cache : DiskCache
  pub max_bytes : ℕ

pub record Response : Type 0 where
  pub status : ℕ
  pub body : List ℕ

abbrev pub plain : ℕ → Response
plain status = record { status = status; body = [] }

abbrev too_long : Option ℕ → ℕ → Bool
too_long none max_bytes = false
too_long (some n) max_bytes = ltb max_bytes n

abbrev created_file : Option Bool → Result ℕ Unit
created_file none = ok tt
created_file (some true) = err 507
created_file (some false) = err 500

abbrev pumped : Result PumpError (ℕ × List ℕ) → Result ℕ (ℕ × List ℕ)
pumped (ok r) = ok r
pumped (err too_large) = err 413
pumped (err (io_error true)) = err 507
pumped (err (io_error false)) = err 502

-- The libraries' hash and decoder of base 58.
pub record Hashes : Type 0 where
  pub blake3 : List ℕ → List ℕ
  pub decode_base58 : Str → Option (List ℕ)

module _ (lib : Hashes) where
  open lib use {blake3, decode_base58}

  abbrev of_32_bytes : Option (List ℕ) → Option (List ℕ)
  of_32_bytes none = none
  of_32_bytes (some bytes) = if length bytes == 32 then some bytes else none

  unfoldable pub hash_from_base58 : Str → Option (List ℕ)
  hash_from_base58 s = of_32_bytes (decode_base58 s)

  abbrev claim : Option (List ℕ) → Result ℕ (List ℕ)
  claim none = err 400
  claim (some h) = ok h

  -- `put_one` until the file is closed: the status of a refusal, or the length and the bytes.
  unfoldable pub receive :
      RequestIo → ℕ → Str → Bool → Option Str → List (Result Unit (List ℕ)) → Result ℕ (ℕ × List ℕ)
  unfolding hash_from_base58
  receive io max_bytes hash obao length_header body =
      if too_long (content_length length_header) max_bytes then err 413 else do
        claimed ← claim (hash_from_base58 hash)
        _ ← created_file io.create
        (len, bytes) ← pumped (pump_body io max_bytes body)
        if not obao && not (eq_str (blake3 bytes) claimed)
            then err 400
            else if io.closes
            then ok (len, bytes)
            else err 500

  module _ {S : Type 0} (store : CanonicalStore S) where
    abbrev outcome_status : PutOutcome → ℕ
    outcome_status created = 201
    outcome_status already_present = 200

    abbrev error_status : PutError → ℕ
    error_status hash_mismatch = 400
    error_status not_confirmed = 503
    error_status (put_backend e) = 502

    -- The `match` on the result of `put_file`. The incoming file is closed by then, so that
    -- `promote` has nothing left to close; its failure is logged, and the answer stays.
    abbrev pub answer_put :
        RequestIo
        → AppState S
        → Str
        → Bool
        → ℕ
        → List ℕ
        → Result PutError PutOutcome × S
        → Response × AppState S
    answer_put io app hash obao len bytes (ok outcome, s) = (
      plain (outcome_status outcome),
      record app {
        state = s;
        cache = (promote (record io.cache_io { closes = true }) app.cache bytes hash obao len).1;
      },
    )
    answer_put io app hash obao len bytes (err e, s) =
        (plain (error_status e), record app { state = s })

    abbrev pub store_received :
        RequestIo → AppState S → Str → Bool → Result ℕ (ℕ × List ℕ) → Response × AppState S
    store_received io app hash obao (err status) = (plain status, app)
    store_received io app hash obao (ok (len, bytes)) =
        answer_put io app hash obao len bytes (put_file store app.state hash bytes len obao)

    unfoldable pub put_one :
        RequestIo
        → AppState S
        → Str
        → Bool
        → Option Str
        → List (Result Unit (List ℕ))
        → Response × AppState S
    unfolding receive
    put_one io app hash obao length_header body =
        store_received io app hash obao (receive io app.max_bytes hash obao length_header body)

    -- The stream of `tee_and_cache`: what the client is sent, and, where the stream ends without
    -- an error and every write succeeded, what was written.
    unfoldable pub tee :
        RequestIo → Bool → List ℕ → List (Result Unit (List ℕ)) → List ℕ × Option (List ℕ)
    tee io fine sent [] = (sent, if fine then some sent else none)
    tee io fine sent (err _ ∷ items) = (sent, none)
    tee io fine sent (ok bytes ∷ items) =
        let written : Bool = elim (io.write (length sent)) [ none ↦ fine | some full ↦ false ] in
        tee io written (sent ++ bytes) items

    abbrev synced : Option Bool → Bool
    synced none = true
    synced (some full) = false

    abbrev pub fill_cache : RequestIo → DiskCache → Str → Bool → ℕ → Option (List ℕ) → DiskCache
    fill_cache io c hash obao len none = c
    fill_cache io c hash obao len (some written) =
        if synced io.sync && (len == 0 || length written == len)
        then (commit_fill io.cache_io c written hash obao (length written)).1
        else c

    unfoldable pub tee_and_cache :
        RequestIo → DiskCache → Str → Bool → ℕ → List (Result Unit (List ℕ)) → Response × DiskCache
    unfolding tee
    tee_and_cache io c hash obao len items =
        let (sent, written) = tee io true [] items in
        let response : Response = record { status = 200; body = sent } in
        elim io.create [
          | none ↦ (response, fill_cache io c hash obao len written)
          | some full ↦ (response, c)
        ]

    abbrev pub get_upstream :
        RequestIo
        → DiskCache
        → Str
        → Bool
        → Result StoreError (ℕ × List (Result Unit (List ℕ)))
        → Response × DiskCache
    get_upstream io c hash obao (ok (len, items)) =
        if ltb c.budget len && ltb 0 len
        then (record { status = 200; body = (tee io true [] items).0 }, c)
        else tee_and_cache io c hash obao len items
    get_upstream io c hash obao (err not_found) = (plain 404, c)
    get_upstream io c hash obao (err (backend e)) = (record { status = 502; body = e }, c)

    abbrev pub get_after :
        RequestIo → S → Str → Bool → Option (List ℕ) × DiskCache → Response × DiskCache
    get_after io s hash obao (some file, c) = (record { status = 200; body = file }, c)
    get_after io s hash obao (none, c) =
        get_upstream io c hash obao (store.get_stream s (key_of hash obao))

    unfoldable pub get_one : RequestIo → AppState S → Str → Bool → Response × AppState S
    unfolding tee_and_cache
    get_one io app hash obao =
        let (response, cache) =
          get_after io app.state hash obao
            (open_cached io.opens io.cache_io.now app.cache hash obao) in
        (response, record app { cache = cache })
