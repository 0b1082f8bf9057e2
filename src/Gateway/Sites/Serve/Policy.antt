-- ===== src/Gateway/Sites/Serve/Policy.antt =====
-- sites_serve.rs: what a missing page is answered with, and the stream that gives its prefix again.
use mjolnir.Base.{
  ℕ, ◌+◌, ◌-◌, ◌≤◌, ◌<◌, Bool, true, false, Option, none, some, List, [], ◌∷◌, ◌++◌, codes, arith,
  ◌≡◌, ◌≢◌, refl, ◌⊎◌, inl, inr, take, drop, length, min, ltb, zero, suc, ends_with, append_assoc,
  take-append-drop, Bool-cases, ap, sym, ◌∙◌,
}
use mjolnir.Gateway.Sites.{FilePath, join}
use mjolnir.Gateway.Sites.Serve.{
  Request, Response, FileServer, FallbackPolicy, unset, index, not_found, empty, invalid, finish,
  empty_not_found, validated, serve_fallback_file, unset_response, park_response, fallback_response,
  cc_revalidate, cache_control_for, PrefixedStream, poll_read, not_modified,
}

-- The headers of a page that stands for a missing one, and its status.
pub record IsFallback (may_be_found : Bool) (r : Response) : Type 0 where
  pub status_is : (r.status ≡ 404) ⊎ (r.status ≡ 304) ⊎ ((r.status ≡ 200) × (may_be_found ≡ true))
  pub cached : r.cache_control ≡ some cc_revalidate
  pub varies : r.vary ≡ some (codes "accept-encoding")

serve_fallback_file-IsFallback :
    (lib : FileServer) (dir : FilePath) (req : Request)
    → IsFallback true (serve_fallback_file lib dir (codes "index.html") req 200)
      × IsFallback false (serve_fallback_file lib dir (codes "404.html") req 404)
unfolding serve_fallback_file validated not_modified finish empty_not_found cache_control_for
serve_fallback_file-IsFallback lib dir req = (
  record { status_is = ground arith; cached = ground arith; varies = ground arith },
  record { status_is = ground arith; cached = ground arith; varies = ground arith },
)

abbrev pub may_be_found : FallbackPolicy → Bool
may_be_found index = true
may_be_found policy = false

empty-IsFallback : {b : Bool} → IsFallback b empty_not_found
unfolding empty_not_found finish cache_control_for ends_with
empty-IsFallback = record { status_is = inl refl; cached = refl; varies = refl }

park-IsFallback :
    (lib : FileServer) (park_dir : Option FilePath) (req : Request)
    → IsFallback false (park_response lib park_dir req)
unfolding park_response
park-IsFallback lib none req = empty-IsFallback
park-IsFallback lib (some park) req = (serve_fallback_file-IsFallback lib park req).1

-- A page that is missing is answered 404, or 304 where the file server says so; 200 only where the
-- site's policy is to serve its index. Each such answer is revalidated and varies by encoding.
pub fallback_response-IsFallback :
    (lib : FileServer) (dir : FilePath) (policy : FallbackPolicy) (park_dir : Option FilePath)
    (req : Request)
    → IsFallback (may_be_found policy) (fallback_response lib dir policy park_dir req)
unfolding fallback_response unset_response
fallback_response-IsFallback lib dir index park_dir req =
    (serve_fallback_file-IsFallback lib dir req).0
fallback_response-IsFallback lib dir not_found park_dir req =
    (serve_fallback_file-IsFallback lib dir req).1
fallback_response-IsFallback lib dir empty park_dir req = empty-IsFallback
fallback_response-IsFallback lib dir invalid park_dir req = empty-IsFallback
fallback_response-IsFallback lib dir unset park_dir req =
    elim (Bool-cases (lib.is_file (join dir (codes "404.html")))) [
      | inl e ↦ rw (unset_response, e) (serve_fallback_file-IsFallback lib dir req).1
      | inr e ↦ rw (unset_response, e) (park-IsFallback lib park_dir req)
    ]

-- What a stream is still to give.
abbrev pub remaining : PrefixedStream → List ℕ
remaining s = drop s.pos s.prefix ++ s.inner

abbrev pub PosIsValid : PrefixedStream → Type 0
PosIsValid s = s.pos ≤ length s.prefix

take-min : (room : ℕ) (l : List ℕ) → take room l ++ drop (min (length l) room) l ≡ l
take-min zero l = let e : min (length l) 0 ≡ 0 = omega arith in rw e refl
take-min (suc room) [] = let e : min 0 (suc room) ≡ 0 = omega arith in rw e refl
take-min (suc room) (x ∷ l) =
    let e : min (suc (length l)) (suc room) ≡ suc (min (length l) room) = omega arith in
    rw e (ap (λ t. x ∷ t) (take-min room l))

take-min-drop :
    (n room : ℕ) (l : List ℕ)
    → n < length l
    → take room (drop n l) ++ drop (n + min (length l - n) room) l ≡ drop n l
take-min-drop zero room l h =
    let e : 0 + min (length l - 0) room ≡ min (length l) room = omega arith in
    rw e (take-min room l)
take-min-drop (suc n) room [] h = absurd (omega arith)
take-min-drop (suc n) room (x ∷ l) h =
    let e : suc n + min (suc (length l) - suc n) room ≡ suc (n + min (length l - n) room) =
      omega arith in
    rw e (take-min-drop n room l (omega arith))

drop-all : (n : ℕ) (l : List ℕ) → length l ≤ n → drop n l ≡ []
drop-all zero [] h = refl
drop-all (suc n) [] h = refl
drop-all zero (x ∷ l) h = absurd (omega arith)
drop-all (suc n) (x ∷ l) h = drop-all n l (omega arith)

take-nothing : (room : ℕ) (l : List ℕ) → 0 < room → take room l ≡ [] → l ≡ []
take-nothing zero l h e = absurd (omega arith)
take-nothing (suc room) [] h e = refl
take-nothing (suc room) (x ∷ l) h e = cc

drop-some : (n : ℕ) (l : List ℕ) → n < length l → drop n l ≢ []
drop-some zero [] h e = absurd (omega arith)
drop-some zero (x ∷ l) h e = cc
drop-some (suc n) [] h e = absurd (omega arith)
drop-some (suc n) (x ∷ l) h e = drop-some n l (omega arith) e

-- A read of the stream gives the next bytes of the prefix and what is behind it, in their order: none
-- is lost, repeated or overtaken, and where there is room and something to give, something is given.
pub poll_read-remaining :
    (room : ℕ) (s : PrefixedStream)
    → PosIsValid s
    → ((poll_read room s).0 ++ remaining (poll_read room s).1 ≡ remaining s)
      × PosIsValid (poll_read room s).1
      × (0 < room → (poll_read room s).0 ≡ [] → remaining s ≡ [])
unfolding poll_read
poll_read-remaining room s h = elim (Bool-cases (ltb s.pos (length s.prefix))) [
  | inl e ↦
      let inside : s.pos < length s.prefix = ground arith in
      let rest = drop (s.pos + min (length s.prefix - s.pos) room) s.prefix in
      rw (poll_read, e)
        (
          sym (append_assoc (take room (drop s.pos s.prefix)) rest s.inner)
              ∙ ap (λ t. t ++ s.inner) (take-min-drop s.pos room s.prefix inside),
          omega arith,
          λ some_room nothing. absurd (
              drop-some s.pos s.prefix inside
                (take-nothing room (drop s.pos s.prefix) some_room nothing)),
        )
  | inr e ↦
      let outside : length s.prefix ≤ s.pos = ground arith in
      rw (poll_read, e)
        (
          rw (drop-all s.pos s.prefix outside) (take-append-drop room s.inner),
          h,
          λ some_room nothing.
              rw (drop-all s.pos s.prefix outside) (take-nothing room s.inner some_room nothing),
        )
]
