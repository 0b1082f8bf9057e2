-- ===== src/Gateway/Sites/Serve.antt =====
-- sites_serve.rs: the answers of a site's directory. `ServeDir` and `ServeFile` of the library
-- tower-http, the digest and the test for a file are parameters; a response has the headers that the
-- code reads or writes.
pub mod Revalidate
pub mod Policy
use mjolnir.Base.{
  ℕ, Bool, true, false, not, ◌&&◌, ◌||◌, Option, none, some, List, [], ◌∷◌, ◌++◌, Str, codes,
  is_empty, eq_str, if◌then◌else◌, ◌==◌, any, before, split, trim, strip_prefix, ends_with,
  starts_with, take, drop, length, min, ◌+◌, ◌-◌, ltb,
}
use mjolnir.Base.Words.{starts_with_str, eq_ignore_ascii_case}
use mjolnir.Gateway.Sites.{FilePath, join}

abbrev pub cc_immutable : Str
cc_immutable = codes "public, max-age=31536000, immutable"

abbrev pub cc_revalidate : Str
cc_revalidate = codes "public, max-age=0, must-revalidate"

abbrev pub cc_default : Str
cc_default = codes "public, max-age=3600"

-- `path.rsplit('/').next()`
abbrev last_part : List Str → Str
last_part [] = []
last_part (p ∷ []) = p
last_part (p ∷ q ∷ ps) = last_part (q ∷ ps)

abbrev pub ends_with_str : Str → Str → Bool
ends_with_str suffix [] = eq_str suffix []
ends_with_str suffix (c ∷ s) = eq_str suffix (c ∷ s) || ends_with_str suffix s

unfoldable pub cache_control_for : Str → Str
cache_control_for path =
    if starts_with_str (codes "/_app/immutable/") path
    then cc_immutable
    else if ends_with b'/' path || ends_with_str (codes ".html") path
    then cc_revalidate
    else if any (λ c. c == b'.') (last_part (split b'/' path))
    then cc_default
    else cc_revalidate

pub record Request : Type 0 where
  pub host : Option Str
  pub path : Str
  pub head_only : Bool
  pub accept_encoding : Option Str
  pub if_modified_since : Option Str
  pub if_none_match : Option Str

pub record Response : Type 0 where
  pub status : ℕ
  pub content_length : Option Str
  pub last_modified : Option Str
  pub content_type : Option Str
  pub etag : Option Str
  pub cache_control : Option Str
  pub vary : Option Str
  pub content : List ℕ

-- `serve_file` gets the file, whether the request is for the head only, and its two headers.
pub record FileServer : Type 0 where
  pub serve_dir : FilePath → Request → Option Response
  pub serve_file : FilePath → Bool → Option Str → Option Str → Option Response
  pub digest : Str → Str → Str
  pub is_file : FilePath → Bool

pub data FallbackPolicy : Type 0 where
  unset index not_found empty invalid : FallbackPolicy

-- A read of the file `fallback`: absent, an error, or its bytes.
pub data PolicyFile : Type 0 where
  absent unreadable : PolicyFile
  holds : List ℕ → PolicyFile

unfoldable pub read_fallback_policy : PolicyFile → FallbackPolicy
read_fallback_policy absent = unset
read_fallback_policy unreadable = invalid
read_fallback_policy (holds bytes) =
    if eq_str bytes (codes "index.html")
    then index
    else if eq_str bytes (codes "404.html")
    then not_found
    else if eq_str bytes (codes "false")
    then empty
    else invalid

abbrev pub blank : ℕ → Response
blank status = record {
  status = status;
  content_length = none;
  last_modified = none;
  content_type = none;
  etag = none;
  cache_control = none;
  vary = none;
  content = [];
}

unfoldable pub text_response : ℕ → Str → Response
text_response status content = record (blank status) {
  content_type = some (codes "text/plain; charset=utf-8");
  content = content;
}

unfoldable pub finish : Str → Response → Response
unfolding cache_control_for
finish path resp = record resp {
  cache_control = some (cache_control_for path);
  vary = some (codes "accept-encoding");
}

unfoldable pub empty_not_found : Response
unfolding finish
empty_not_found =
    finish (codes "/404.html") (record (blank 404) { content_length = some (codes "0") })

abbrev etag_of : (Str → Str → Str) → Option Str → Option Str → Option Str
etag_of digest (some length) (some modified) = some (b'"' ∷ (digest length modified ++ b'"' ∷ []))
etag_of digest length modified = none

unfoldable pub derive_etag : FileServer → Response → Option Str
derive_etag lib r = etag_of lib.digest r.content_length r.last_modified

abbrev without_weakness : Str → Str
without_weakness c = elim (strip_prefix (codes "W/") c) [ none ↦ c | some strong ↦ strong ]

abbrev candidate_matches : Str → Str → Bool
candidate_matches want candidate =
    let c = trim candidate in eq_str c (codes "*") || eq_str (without_weakness c) want

unfoldable pub if_none_match_matches : Option Str → Str → Bool
unfolding trim strip_prefix split
if_none_match_matches none want = false
if_none_match_matches (some raw) want = any (candidate_matches want) (split b',' raw)

-- The 304 that stands for a response, with `copy_validators`.
unfoldable pub not_modified : Str → Str → Response → Response
unfolding finish
not_modified path etag resp = finish path (record (blank 304) {
  last_modified = resp.last_modified;
  content_type = resp.content_type;
  etag = some etag;
})

-- A response of a file that was found, where `tagged` says whether a match makes it a 304.
unfoldable pub validated : FileServer → Str → Option Str → Bool → ℕ → Response → Response
unfolding derive_etag if_none_match_matches not_modified finish
validated lib path wanted may_match status resp = elim (derive_etag lib resp) [
  | none ↦ finish path (record resp { status = status })
  | some etag ↦
      if may_match && if_none_match_matches wanted etag
      then not_modified path etag resp
      else finish path (record resp { status = status; etag = some etag })
]

unfoldable pub serve_fallback_file : FileServer → FilePath → Str → Request → ℕ → Response
unfolding validated empty_not_found finish join
serve_fallback_file lib dir file req success_status =
    let since = if success_status == 200 then req.if_modified_since else none in
    elim (lib.serve_file (join dir file) req.head_only req.accept_encoding since) [
      | none ↦ empty_not_found
      | some resp ↦
          if resp.status == 200
          then validated lib (b'/' ∷ file) req.if_none_match (success_status == 200) success_status
              resp
          else if resp.status == 304
          then finish (b'/' ∷ file) resp
          else empty_not_found
    ]

unfoldable pub park_response : FileServer → Option FilePath → Request → Response
unfolding serve_fallback_file empty_not_found
park_response lib (some park) req = serve_fallback_file lib park (codes "404.html") req 404
park_response lib none req = empty_not_found

unfoldable pub unset_response : FileServer → FilePath → Option FilePath → Request → Response
unfolding serve_fallback_file park_response
unset_response lib dir park_dir req =
    if lib.is_file (join dir (codes "404.html"))
    then serve_fallback_file lib dir (codes "404.html") req 404
    else park_response lib park_dir req

unfoldable pub fallback_response :
    FileServer → FilePath → FallbackPolicy → Option FilePath → Request → Response
unfolding serve_fallback_file empty_not_found unset_response
fallback_response lib dir index park_dir req =
    serve_fallback_file lib dir (codes "index.html") req 200
fallback_response lib dir not_found park_dir req =
    serve_fallback_file lib dir (codes "404.html") req 404
fallback_response lib dir empty park_dir req = empty_not_found
fallback_response lib dir invalid park_dir req = empty_not_found
fallback_response lib dir unset park_dir req = unset_response lib dir park_dir req

unfoldable pub host_ok : Str → Option Str → Bool
unfolding before eq_ignore_ascii_case
host_ok expected none = false
host_ok expected (some h) = eq_ignore_ascii_case (before b':' h) expected

-- The answer where the directory was asked.
unfoldable pub answer_found :
    FileServer → FilePath → FallbackPolicy → Option FilePath → Request → Option Response → Response
unfolding fallback_response validated finish text_response
answer_found lib dir policy park_dir req none = text_response 500 (codes "Internal Server Error")
answer_found lib dir policy park_dir req (some resp) =
    if resp.status == 404
    then fallback_response lib dir policy park_dir req
    else if resp.status == 200
    then validated lib req.path req.if_none_match true 200 resp
    else finish req.path resp

unfoldable pub serve_request :
    FileServer → FilePath → FallbackPolicy → Option FilePath → Str → Request → Response
unfolding host_ok answer_found text_response
serve_request lib dir policy park_dir expected_host req =
    if not (host_ok expected_host req.host)
    then text_response 421 (codes "Misdirected Request")
    else answer_found lib dir policy park_dir req (lib.serve_dir dir req)

-- `PrefixedStream`: bytes to give again before the stream's own.
pub record PrefixedStream : Type 0 where
  pub prefix : List ℕ
  pub pos : ℕ
  pub inner : List ℕ

-- `poll_read` into a buffer with room for `room` bytes, where the stream within has its bytes ready.
unfoldable pub poll_read : ℕ → PrefixedStream → List ℕ × PrefixedStream
poll_read room s =
    if ltb s.pos (length s.prefix)
    then (
      take room (drop s.pos s.prefix),
      record s { pos = s.pos + min (length s.prefix - s.pos) room },
    )
    else (take room s.inner, record s { inner = drop room s.inner })
