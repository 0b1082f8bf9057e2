-- ===== src/Tests/BlobDoor.antt =====
-- The blob door over the store in memory, with a hash that is its argument.
use mjolnir.Base.{
  ℕ, ◌≡◌, inl, refl, true, false, none, some, List, [], ◌∷◌, ok, codes, length, arith,
}
use mathlib.Core.Option
use mjolnir.BlobDoor.Store.{MemoryStore, memory_store, memory_head, memory_put, object_key}
use mjolnir.BlobDoor.Put.{key_of, put_file}
use mjolnir.BlobDoor.Cache.{DiskCache, Io, object_path, promote}
use mjolnir.BlobDoor.Cache.Files.{IsTidy}
use mjolnir.BlobDoor.Cache.Tidy.{Kept, promote-Kept}
use mjolnir.BlobDoor.Http.{RequestIo, AppState, Hashes, content_length, pump_body, put_one}
use mjolnir.BlobDoor.Http.Accepted.{Received, put_one-accepted}
use mjolnir.BlobDoor.Router.{Request, run}
use mjolnir.BlobDoor.Router.Runs.{Serves, run-Serves}

abbrev no_objects : MemoryStore
no_objects = record { objects = []; versions = [] }

abbrev file : List ℕ
file = 1 ∷ 2 ∷ 3 ∷ []

-- Two files that fill the cache.
abbrev cache : DiskCache
cache = record {
  objects =
      record { name = codes "a"; bytes = 1 ∷ 2 ∷ []; accessed = 5 }
      ∷ record { name = codes "b"; bytes = 3 ∷ 4 ∷ []; accessed = 4 }
      ∷ [];
  budget = 4;
  used = 4;
}

cache-IsTidy : IsTidy cache
cache-IsTidy = record { distinct = ((refl, tt), (tt, tt)); counted = refl }

abbrev working : Io
working = record {
  removes = λ name. true;
  closes = true;
  reads_dir = true;
  renames = true;
  now = 9;
}

promote-Kept_example :
    Kept 4 (object_path (codes "c") false) (promote working cache file (codes "c") false 3)
promote-Kept_example =
    promote-Kept working cache file (codes "c") false (λ name. refl) cache-IsTidy (omega arith)
      (omega arith)

abbrev request_io : RequestIo
request_io = record {
  create = none;
  write = λ at. none;
  sync = none;
  closes = true;
  opens = true;
  cache_io = working;
}

abbrev ones : List ℕ
ones =
    1 ∷ 1 ∷ 1 ∷ 1 ∷ 1 ∷ 1 ∷ 1 ∷ 1 ∷ 1 ∷ 1 ∷ 1 ∷ 1 ∷ 1 ∷ 1 ∷ 1 ∷ 1 ∷ 1 ∷ 1 ∷ 1 ∷ 1 ∷ 1 ∷ 1 ∷ 1 ∷ 1
    ∷ 1 ∷ 1 ∷ 1 ∷ 1 ∷ 1 ∷ 1 ∷ 1 ∷ 1 ∷ []

abbrev hashes : Hashes
hashes = record { blake3 = λ bytes. bytes; decode_base58 = λ s. some s }

abbrev door : AppState MemoryStore
door = record { state = no_objects; cache = cache; max_bytes = 100 }

put_one-accepted_example :
    let answer = put_one hashes memory_store request_io door ones false none (ok ones ∷ []) in
    (bytes : List ℕ) × Received hashes 100 ones false (ok ones ∷ []) (length bytes) bytes
    × (memory_head answer.1.state (key_of ones false) ≡ ok (length bytes))
unfolding content_length Option.bind pump_body
put_one-accepted_example =
    put_one-accepted hashes memory_store request_io door ones false none (ok ones ∷ [])
      (omega arith) (inl (unfold put_one put_file memory_head memory_put object_key in refl))

mismatch :
    (put_one hashes memory_store request_io door ones false none (ok (2 ∷ []) ∷ [])).0.status ≡ 400
unfolding put_one content_length Option.bind pump_body
mismatch = refl

abbrev upload : Request
upload = record {
  method = codes "PUT";
  path = ones;
  length_header = some (codes "32");
  chunks = ok ones ∷ [];
}

abbrev download : Request
download = record { method = codes "GET"; path = ones; length_header = none; chunks = [] }

run-Serves_example :
    Serves 100 (run hashes memory_store door ((request_io, upload) ∷ (request_io, download) ∷ []))
run-Serves_example =
    run-Serves hashes memory_store ((request_io, upload) ∷ (request_io, download) ∷ []) door 100
      ((λ name. refl), ((λ name. refl), tt)) (omega arith)
      (record {
        cache_ok = record { tidy = cache-IsTidy; bounded = omega arith; within = omega arith };
        same_limit = refl;
      })
