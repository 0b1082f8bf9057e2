-- ===== src/Gateway/Sites/Contained.antt =====
-- sites.rs: the directory of a site that a lookup gives lies below the root of the sites.
use mjolnir.Base.{
  ℕ, true, false, Option, none, some, [], ◌∷◌, ◌++◌, Str, codes, eq_str→eq, ltb, ◌==◌, all, split,
  arith, ◌≡◌, ◌≢◌, refl, append_assoc, is_ascii_alphanumeric, Option-cases, Bool-cases, inl, inr,
}
use mjolnir.Gateway.Config.{SocketAddr, SitesResolver}
use mjolnir.Gateway.Sites.{
  FilePath, components, join, starts_with_path, SiteRef, LookupResult, hit, current_dir,
  component_char, validate_component, Fetched, lookup, lookup_answer, Fs, resolve_snapshot_dir,
  CachedPark, lookup_url, park_dir, park_lookup, resolve_park,
}

split-plain : (s : Str) → all component_char s ≡ true → split b'/' s ≡ s ∷ []
unfolding split is_ascii_alphanumeric
split-plain [] h = refl
split-plain (c ∷ s) h = ground (arith, split-plain s)

-- A name that is let through is one component, and is neither "." nor "..".
join-component :
    (base : FilePath) (s : Str) → validate_component s ≡ true → join base s ≡ base ++ s ∷ []
unfolding join validate_component components
join-component base [] h = cc
join-component base (c ∷ s) h =
    let only = split-plain (c ∷ s) (ground arith) in
    let slash : (c == b'/') ≡ false = unfold is_ascii_alphanumeric in ground arith in
    let dot : (c == b'.') ≡ false = ground arith in ground (arith, only)

not-parent : (s : Str) → validate_component s ≡ true → s ≢ codes ".."
unfolding validate_component
not-parent s h e = ground arith

hit-valid :
    (resolver : SitesResolver) (f : Fetched) (backend : SocketAddr) (site : SiteRef)
    → lookup_answer resolver f ≡ hit backend site
    → (validate_component site.identikey_fp ≡ true)
      × (validate_component site.site_name ≡ true)
      × (backend ≡ resolver.backend)
unfolding lookup_answer
hit-valid resolver f backend site h = ground arith

-- The directory of a site that a lookup gives is exactly three components below the root.
pub lookup-current_dir :
    (fetch : Str → Fetched) (resolver : SitesResolver) (host : Str) (backend : SocketAddr)
    (site : SiteRef) (root : FilePath)
    → lookup fetch resolver host ≡ hit backend site
    → (current_dir site root ≡ root ++ site.identikey_fp ∷ site.site_name ∷ codes "current" ∷ [])
      × (site.identikey_fp ≢ codes "..")
      × (site.site_name ≢ codes "..")
      × (backend ≡ resolver.backend)
unfolding lookup lookup_answer current_dir
lookup-current_dir fetch resolver host backend site root h =
    let (fp, name, at) = hit-valid resolver (fetch (lookup_url resolver host)) backend site h in
    let first = join-component root site.identikey_fp fp in
    let second = join-component (root ++ site.identikey_fp ∷ []) site.site_name name in
    let third =
      join-component ((root ++ site.identikey_fp ∷ []) ++ site.site_name ∷ []) (codes "current")
        (unfold validate_component is_ascii_alphanumeric in refl) in
    (rw (first, second, third) (simp append_assoc), not-parent _ fp, not-parent _ name, at)

starts_with_path-append :
    (root p : FilePath) → starts_with_path root p ≡ true → (rest : FilePath) × (p ≡ root ++ rest)
starts_with_path-append [] p h = (p, refl)
starts_with_path-append (r ∷ root) [] h = cc
starts_with_path-append (r ∷ root) (c ∷ p) h =
    let (rest, e) = starts_with_path-append root p (ground arith) in
    (rest, ground (arith, e, eq_str→eq r c))

-- A directory that lies below the root, as the file system has both.
pub record IsContained (fs : Fs) (sites_root dir : FilePath) : Type 0 where
  pub root : FilePath
  pub below : FilePath
  pub root_is : fs.canonicalize sites_root ≡ some root
  pub dir_is : dir ≡ root ++ below
  pub exists : fs.is_dir dir ≡ some true

resolve_snapshot_dir-IsContained :
    (fs : Fs) (sites_root current dir : FilePath)
    → resolve_snapshot_dir fs sites_root current ≡ some dir
    → IsContained fs sites_root dir
unfolding resolve_snapshot_dir
resolve_snapshot_dir-IsContained fs sites_root current dir h =
    elim (Option-cases (fs.canonicalize sites_root)) [
      | inl e ↦ absurd (ground arith)
      | inr (root, e) ↦ elim (Option-cases (fs.canonicalize current)) [
        | inl d ↦ absurd (ground arith)
        | inr (found, d) ↦
            let (below, b) = starts_with_path-append root dir (ground arith) in
            record { root = root; below = below; root_is = e; dir_is = b; exists = ground arith }
      ]
    ]

-- The cache holds no directory, or one below the root.
abbrev pub CacheIsContained : Fs → SitesResolver → Option CachedPark → Type 0
CacheIsContained fs resolver none = Unit {0}
CacheIsContained fs resolver (some cached) =
    (dir : FilePath) → cached.dir ≡ some dir → IsContained fs (components resolver.sites_root) dir

park_dir-IsContained :
    (fs : Fs) (resolver : SitesResolver) (r : LookupResult) (dir : FilePath)
    → park_dir fs resolver r ≡ some dir
    → IsContained fs (components resolver.sites_root) dir
unfolding park_dir
park_dir-IsContained fs resolver (hit backend site) dir h =
    let root = components resolver.sites_root in
    resolve_snapshot_dir-IsContained fs root (current_dir site root) dir h
park_dir-IsContained fs resolver LookupResult.miss dir h = cc
park_dir-IsContained fs resolver LookupResult.error dir h = cc

park_lookup-IsContained :
    (fs : Fs) (fetch : Str → Fetched) (resolver : SitesResolver) (dir : FilePath)
    → park_lookup fs fetch resolver ≡ some dir
    → IsContained fs (components resolver.sites_root) dir
unfolding park_lookup
park_lookup-IsContained fs fetch resolver dir h =
    park_dir-IsContained fs resolver (lookup fetch resolver (codes "park.worldtree.network")) dir h

-- Each resolution of the parked page's directory keeps the cache to directories below the root, and
-- gives such a one or none, whatever the lookup and the links of the file system say.
pub resolve_park-IsContained :
    (fs : Fs) (fetch : Str → Fetched) (resolver : SitesResolver) (now : ℕ)
    (entry : Option CachedPark)
    → CacheIsContained fs resolver entry
    → CacheIsContained fs resolver (resolve_park fs fetch resolver now entry).1
      × ((dir : FilePath)
          → (resolve_park fs fetch resolver now entry).0 ≡ some dir
          → IsContained fs (components resolver.sites_root) dir)
unfolding resolve_park
resolve_park-IsContained fs fetch resolver now none h =
    (park_lookup-IsContained fs fetch resolver, park_lookup-IsContained fs fetch resolver)
resolve_park-IsContained fs fetch resolver now (some cached) h =
    elim (Bool-cases (ltb now cached.expires_at)) [
      | inl e ↦ rw e (h, h)
      | inr e ↦
          rw e
            (park_lookup-IsContained fs fetch resolver, park_lookup-IsContained fs fetch resolver)
    ]
