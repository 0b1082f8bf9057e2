-- ===== src/Gateway/Sites/Serve/Revalidate.antt =====
-- sites_serve.rs: a request that names the tag of the page it has is told that it has it.
use mathlib.Core.List.{reverse, reverse-append, reverse-reverse}
use mjolnir.Base.{
  ℕ, Bool, true, ◌&&◌, ◌||◌, Option, none, some, [], ◌∷◌, ◌++◌, Str, eq_str_refl, leb, all, arith,
  ◌≡◌, refl, split, trim, trim_start, strip_prefix, is_whitespace, ap, ◌∙◌,
}
use mjolnir.Gateway.Sites.{FilePath}
use mjolnir.Gateway.Sites.Serve.{
  Request, Response, FileServer, FallbackPolicy, host_ok, if_none_match_matches, derive_etag,
  not_modified, validated, answer_found, serve_request, finish,
}

abbrev pub hex_char : ℕ → Bool
hex_char c = (leb b'0' c && leb c b'9') || (leb b'a' c && leb c b'f')

abbrev pub quoted : Str → Str
quoted d = b'"' ∷ (d ++ b'"' ∷ [])

no_comma : (d : Str) → all hex_char d ≡ true → split b',' (d ++ b'"' ∷ []) ≡ (d ++ b'"' ∷ []) ∷ []
unfolding split
no_comma [] h = refl
no_comma (c ∷ d) h = ground (arith, no_comma d)

trim_start-quote : (s : Str) → trim_start (b'"' ∷ s) ≡ b'"' ∷ s
unfolding trim_start is_whitespace
trim_start-quote s = refl

trim-quoted : (d : Str) → trim (quoted d) ≡ quoted d
unfolding trim
trim-quoted d =
    let e : reverse (quoted d) ≡ b'"' ∷ reverse (b'"' ∷ d) =
      reverse-append (b'"' ∷ d) (b'"' ∷ []) in
    let f : trim_start (reverse (quoted d)) ≡ reverse (quoted d) =
      rw e (trim_start-quote (reverse (b'"' ∷ d))) in
    ap (λ t. reverse (trim_start (reverse t))) (trim_start-quote (d ++ b'"' ∷ []))
    ∙ ap reverse f
    ∙ reverse-reverse (quoted d)

-- A tag matches itself.
if_none_match_matches_self :
    (d : Str) → all hex_char d ≡ true → if_none_match_matches (some (quoted d)) (quoted d) ≡ true
unfolding if_none_match_matches split strip_prefix
if_none_match_matches_self d h =
    rw (no_comma d h) (rw (trim-quoted d) (ground (arith, eq_str_refl (quoted d))))

-- What is asked again with the tag of the page: the library does not read the tag.
abbrev pub asks_again : Request → Str → Request
asks_again req tag = record req { if_none_match = some tag }

-- The two answers to a request, before and after the client knows the page's tag.
pub record IsRevalidated (tag : Str) (first again : Response) : Type 0 where
  pub tagged : first.etag ≡ some tag
  pub unmodified : again.status ≡ 304
  pub same_tag : again.etag ≡ some tag
  pub no_content : again.content ≡ []
  pub same_policy : again.cache_control ≡ first.cache_control
  pub same_date : again.last_modified ≡ first.last_modified

-- A page that the directory has, with its length and date, is sent with a tag; the same request
-- with that tag is answered 304, with the tag, the date and the caching rules of the page and no
-- content. The digest is of hexadecimal digits, and the library does not read the tag.
pub serve_request-IsRevalidated :
    (lib : FileServer) (dir : FilePath) (policy : FallbackPolicy) (park_dir : Option FilePath)
    (host : Str) (req : Request) (page : Response) (length modified : Str)
    → host_ok host req.host ≡ true
    → req.if_none_match ≡ none
    → lib.serve_dir dir req ≡ some page
    → lib.serve_dir dir (asks_again req (quoted (lib.digest length modified))) ≡ some page
    → page.status ≡ 200
    → page.content_length ≡ some length
    → page.last_modified ≡ some modified
    → all hex_char (lib.digest length modified) ≡ true
    → let tag = quoted (lib.digest length modified) in
      IsRevalidated tag
        (serve_request lib dir policy park_dir host req)
        (serve_request lib dir policy park_dir host (asks_again req tag))
unfolding serve_request answer_found validated derive_etag not_modified finish if_none_match_matches
serve_request-IsRevalidated lib dir policy park_dir host req page length modified h n first again s
      l m x =
    let matches = if_none_match_matches_self (lib.digest length modified) x in
    record {
      tagged = ground (arith, matches);
      unmodified = ground (arith, matches);
      same_tag = ground (arith, matches);
      no_content = ground (arith, matches);
      same_policy = ground (arith, matches);
      same_date = ground (arith, matches);
    }
