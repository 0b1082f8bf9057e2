-- ===== src/Gateway/Sites.antt =====
-- sites.rs and sites_serve.rs: the lookup of a site, its directory, and the cache of the parked
-- page's. A path is a list of components. The HTTP client and the file system are parameters.
pub mod Encoding
pub mod Contained
pub mod Serve
use mjolnir.Base.{
  ℕ, ◌+◌, ◌*◌, ◌/◌, ◌%◌, Bool, true, false, not, ◌&&◌, ◌||◌, Option, none, some, List, [], ◌∷◌,
  ◌++◌, Str, codes, len, is_empty, eq_str, if◌then◌else◌, leb, ltb, ◌==◌, all, filter, split,
  starts_with, is_ascii_alphanumeric,
}
use mathlib.Core.List.{reverse}
use mjolnir.Base.Utf8.{as_bytes}
use mjolnir.Gateway.Config.{SocketAddr, SitesResolver}

abbrev pub FilePath : Type 0
FilePath = List Str

-- The components of a path's text: the parts between slashes, but for the empty ones and ".".
unfoldable pub components : Str → FilePath
components s = filter (λ c. not (is_empty c) && not (eq_str c (codes "."))) (split b'/' s)

-- `Path::join`: an absolute path replaces what is before it.
unfoldable pub join : FilePath → Str → FilePath
unfolding components
join base s = if starts_with b'/' s then components s else base ++ components s

abbrev pub starts_with_path : FilePath → FilePath → Bool
starts_with_path [] p = true
starts_with_path (r ∷ root) [] = false
starts_with_path (r ∷ root) (c ∷ p) = eq_str r c && starts_with_path root p

pub record SiteRef : Type 0 where
  pub identikey_fp : Str
  pub site_name : Str

pub data LookupResult : Type 0 where
  hit : SocketAddr → SiteRef → LookupResult
  miss error : LookupResult

unfoldable pub current_dir : SiteRef → FilePath → FilePath
unfolding join
current_dir site sites_root =
    join (join (join sites_root site.identikey_fp) site.site_name) (codes "current")

abbrev pub component_char : ℕ → Bool
component_char b = is_ascii_alphanumeric b || b == b'-' || b == b'_' || b == b'.'

unfoldable pub validate_component : Str → Bool
unfolding is_ascii_alphanumeric
validate_component s =
    if is_empty s || ltb 128 (len s)
    then false
    else if starts_with b'.' s
    then false
    else all component_char s

unfoldable pub unreserved : ℕ → Bool
unreserved b =
    (leb b'A' b && leb b b'Z')
    || (leb b'a' b && leb b b'z')
    || (leb b'0' b && leb b b'9')
    || b == b'-'
    || b == b'.'
    || b == b'_'
    || b == b'~'

abbrev pub upper_hex : ℕ → ℕ
upper_hex n = if ltb n 10 then n + 48 else n + 55

abbrev pub encode_bytes : List ℕ → Str
encode_bytes [] = []
encode_bytes (b ∷ bs) =
    let rest = encode_bytes bs in
    if unreserved b then b ∷ rest else b'%' ∷ upper_hex (b / 16) ∷ upper_hex (b % 16) ∷ rest

unfoldable pub percent_encode : Str → Str
percent_encode s = encode_bytes (as_bytes s)

trim_slashes : Str → Str
trim_slashes [] = []
trim_slashes (c ∷ s) = if c == b'/' then trim_slashes s else c ∷ s

unfoldable pub lookup_url : SitesResolver → Str → Str
unfolding trim_slashes percent_encode
lookup_url resolver host =
    reverse (trim_slashes (reverse resolver.api_url))
    ++ (codes "/api/sites/aliases/lookup?host=" ++ percent_encode host)

-- What the HTTP client gives: a status, and the body where it is one that can be read.
pub data Fetched : Type 0 where
  transport_error : Fetched
  response : ℕ → Option SiteRef → Fetched

abbrev checked_site : SitesResolver → SiteRef → LookupResult
checked_site resolver body =
    if not (validate_component body.identikey_fp) || not (validate_component body.site_name)
    then error
    else hit resolver.backend body

unfoldable pub lookup_answer : SitesResolver → Fetched → LookupResult
unfolding validate_component
lookup_answer resolver transport_error = error
lookup_answer resolver (response status body) =
    if status == 200
    then elim body [ none ↦ error | some site ↦ checked_site resolver site ]
    else if status == 404
    then miss
    else error

unfoldable pub lookup : (Str → Fetched) → SitesResolver → Str → LookupResult
unfolding lookup_answer lookup_url
lookup fetch resolver host = lookup_answer resolver (fetch (lookup_url resolver host))

-- The file system: canonical paths, and whether a path is a directory.
pub record Fs : Type 0 where
  pub canonicalize : FilePath → Option FilePath
  pub is_dir : FilePath → Option Bool

abbrev inside : FilePath → FilePath → Option Bool → Option FilePath
inside root dir none = none
inside root dir (some d) =
    if not d then none else if not (starts_with_path root dir) then none else some dir

unfoldable pub resolve_snapshot_dir : Fs → FilePath → FilePath → Option FilePath
resolve_snapshot_dir fs sites_root current = elim (fs.canonicalize sites_root) [
  | none ↦ none
  | some root ↦ elim (fs.canonicalize current) [
    | none ↦ none
    | some dir ↦ inside root dir (fs.is_dir dir)
  ]
]

pub record CachedPark : Type 0 where
  pub dir : Option FilePath
  pub expires_at : ℕ

unfoldable pub park_dir : Fs → SitesResolver → LookupResult → Option FilePath
unfolding resolve_snapshot_dir current_dir
park_dir fs resolver (hit backend site) =
    let root = components resolver.sites_root in
    resolve_snapshot_dir fs root (current_dir site root)
park_dir fs resolver miss = none
park_dir fs resolver error = none

-- The cache is its entry; the time is in seconds.
unfoldable pub park_lookup : Fs → (Str → Fetched) → SitesResolver → Option FilePath
unfolding lookup park_dir
park_lookup fs fetch resolver =
    park_dir fs resolver (lookup fetch resolver (codes "park.worldtree.network"))

abbrev pub park_ttl : Option FilePath → ℕ
park_ttl none = 5
park_ttl (some dir) = 60

abbrev pub refreshed : ℕ → Option FilePath → Option FilePath × Option CachedPark
refreshed now dir = (dir, some (record { dir = dir; expires_at = now + park_ttl dir }))

unfoldable pub resolve_park :
    Fs
    → (Str → Fetched)
    → SitesResolver
    → ℕ
    → Option CachedPark
    → Option FilePath × Option CachedPark
unfolding park_lookup
resolve_park fs fetch resolver now none = refreshed now (park_lookup fs fetch resolver)
resolve_park fs fetch resolver now (some cached) =
    if ltb now cached.expires_at
    then (cached.dir, some cached)
    else refreshed now (park_lookup fs fetch resolver)
