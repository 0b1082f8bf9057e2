-- ===== src/Gateway/Handler/Forwards.antt =====
-- main.rs: what `handle_connection` hands on, and for whom.
use mjolnir.Base.{
  ℕ, false, Option, none, some, List, Str, codes, eq_str→eq, ok, to_ascii_lowercase, arith, ◌≡◌,
  refl, sym, err, ◌⊎◌, Option-cases, Result-cases, Bool-cases, inl, inr,
}
use mathlib.Core.Path.{subst}
use mjolnir.Gateway.Classify.{ProxyError, Disposition, local, iroh, parked, reject, classify}
use mjolnir.Gateway.Config.{SocketAddr, Apex, SitesResolver}
use mjolnir.Gateway.Headers.{
  Read, read_until_headers, request_path, extract_host, set_or_replace_header,
}
use mjolnir.Gateway.Sites.{
  FilePath, components, current_dir, resolve_snapshot_dir, SiteRef, LookupResult, hit, miss, error,
  lookup,
}
use mjolnir.Gateway.Tunnel.{Net, Timed, late, broke, came}
use mjolnir.Gateway.Handler.{
  World, AppCtx, Shared, Outcome, error_answer, wrote, parked_page, to_backend, to_sites,
  control_plane_refused, to_node, from_directory, refuse_path, forward_site_or_refuse, serve_site,
  berth, unserved, looked_up, handle_parked, handle_unserved, handle_local, handle_reject,
  tunnelled, dispatch, proto, bare, misdirected, try_serve_http01, handle_request,
  handle_connection, dialled, dial_local,
}

-- The place that the sites' API gives for a host.
pub record IsSite (w : World) (ctx : AppCtx) (host : Str) (backend : SocketAddr) : Type 0 where
  pub resolver : SitesResolver
  pub site : SiteRef
  pub has_sites : ctx.sites_resolver ≡ some resolver
  pub looked_up : lookup w.fetch resolver (bare host) ≡ hit backend site

-- A directory is that of the site that the sites' API gives for the host, below the sites' root.
pub record IsDirectory (w : World) (ctx : AppCtx) (host : Str) (dir : FilePath) : Type 0 where
  pub backend : SocketAddr
  pub found : IsSite w ctx host backend
  pub resolved :
      let root = components found.resolver.sites_root in
      resolve_snapshot_dir w.fs root (current_dir found.site root) ≡ some dir

-- The target of a tunnel: the name of a node that is asked for, or the node that a local route kept.
abbrev pub IsTarget : Disposition → Str → Type 0
IsTarget (iroh apex subdomain) target = target ≡ subdomain
IsTarget (local apex subdomain backend fallback) target = fallback ≡ some target
IsTarget d target = ⊥

-- The backend of a local route.
abbrev pub IsBackend : Disposition → SocketAddr → Type 0
IsBackend (local apex subdomain backend fallback) addr = addr ≡ backend
IsBackend d addr = ⊥

-- No name has a route or an alias of its own here, so a site may answer for it.
abbrev pub IsOpen : Disposition → Type 0
IsOpen (parked apex subdomain) = Unit {0}
IsOpen (reject e) = Unit {0}
IsOpen d = ⊥

-- The bytes that an outcome carries are these, and they go where the host's disposition sends them; on
-- the way to the sites' backend they name a path that is no control plane's.
abbrev Carries :
    {Stream : Type 0} → World → AppCtx → Disposition → Str → List ℕ → Outcome Stream → Type 0
Carries w ctx d host header_buf (to_backend addr bytes) = (bytes ≡ header_buf) × IsBackend d addr
Carries w ctx d host header_buf (to_sites addr bytes) =
    (bytes ≡ header_buf)
    × (refuse_path (request_path bytes) ≡ false)
    × IsOpen d
    × IsSite w ctx host addr
Carries w ctx d host header_buf (to_node target bytes ending) =
    (bytes ≡ header_buf) × IsTarget d target
Carries w ctx d host header_buf (from_directory dir site_dir park bytes h) =
    (bytes ≡ header_buf) × IsOpen d × (h ≡ bare host) × IsDirectory w ctx host dir
Carries w ctx d host header_buf outcome = Unit {0}

-- The request is for the name that the TLS handshake asked for, if there was one.
abbrev pub NamedBy : Option Str → Str → Type 0
NamedBy none host = Unit {0}
NamedBy (some sni) host = bare host ≡ to_ascii_lowercase sni

-- Bytes that are handed on: the head that was read, with the protocol set in it, for a host that
-- the head names and the handshake asked for.
pub record Handed (reads : List Read) (sni : Option Str) (host : Str) (bytes : List ℕ)
    : Type 0 where
  pub buf : List ℕ
  pub was_read : read_until_headers reads ≡ ok buf
  pub names : extract_host buf ≡ some host
  pub named : NamedBy sni host
  pub bytes_are : bytes ≡ set_or_replace_header buf (codes "X-Forwarded-Proto") (proto sni)

-- What is handed on, and where to, by the classification of the host that the head names.
abbrev pub HandsOn :
    {Stream : Type 0} → World → AppCtx → List Read → Option Str → Outcome Stream → Type 0
HandsOn w ctx reads sni (to_backend addr bytes) =
    (host : Str) × Handed reads sni host bytes × IsBackend (classify ctx.routes host) addr
HandsOn w ctx reads sni (to_sites addr bytes) =
    (host : Str) × Handed reads sni host bytes
    × (refuse_path (request_path bytes) ≡ false)
    × IsOpen (classify ctx.routes host)
    × IsSite w ctx host addr
HandsOn w ctx reads sni (to_node target bytes ending) =
    (host : Str) × Handed reads sni host bytes × IsTarget (classify ctx.routes host) target
HandsOn w ctx reads sni (from_directory dir site_dir park bytes h) =
    (host : Str) × Handed reads sni host bytes
    × IsOpen (classify ctx.routes host)
    × (h ≡ bare host)
    × IsDirectory w ctx host dir
HandsOn w ctx reads sni outcome = Unit {0}

-- A dial comes to the backend that was asked for, or to an error.
dial_local-cases :
    (w : World) (backend : SocketAddr)
    → (dial_local w backend ≡ ok backend) ⊎ ((e : ProxyError) × (dial_local w backend ≡ err e))
unfolding dial_local
dial_local-cases w backend = came_to (w.dial backend)
  where
    came_to :
        (t : Timed Unit)
        → (dialled w backend t ≡ ok backend) ⊎ ((e : ProxyError) × (dialled w backend t ≡ err e))
    came_to late = inr (_, refl)
    came_to (broke e) = inr (_, refl)
    came_to (came tt) = inl refl

module _ {Conn Stream : Type 0} (net : Net Conn Stream) (w : World) (ctx : AppCtx) where
  forward-Carries :
      (d : Disposition) (host : Str) (header_buf : List ℕ) (backend : SocketAddr)
      → IsOpen d
      → IsSite w ctx host backend
      → Carries {Stream = Stream} w ctx d host header_buf
          (forward_site_or_refuse w header_buf backend)
  unfolding forward_site_or_refuse
  forward-Carries d host header_buf backend o site =
      elim (Bool-cases (refuse_path (request_path header_buf))) [
        | inl e ↦ rw (forward_site_or_refuse, e) tt
        | inr e ↦ elim (dial_local-cases w backend) [
          | inl q ↦ rw (forward_site_or_refuse, e, q) (refl, e, o, site)
          | inr (x, q) ↦ rw (forward_site_or_refuse, e, q) tt
        ]
      ]

  serve_site-Carries :
      (d : Disposition) (host : Str) (resolver : SitesResolver) (header_buf : List ℕ)
      (backend : SocketAddr) (site : SiteRef) (s : Shared Conn Stream)
      → IsOpen d
      → ctx.sites_resolver ≡ some resolver
      → lookup w.fetch resolver (bare host) ≡ hit backend site
      → Carries w ctx d host header_buf
          (serve_site net w ctx resolver header_buf (bare host) backend site s).0
  unfolding serve_site
  serve_site-Carries d host resolver header_buf backend site s o r l =
      let found : IsSite w ctx host backend = record {
        resolver = resolver;
        site = site;
        has_sites = r;
        looked_up = l;
      } in
      let root = components resolver.sites_root in
      elim (Option-cases (resolve_snapshot_dir w.fs root (current_dir site root))) [
        | inl q ↦ rw (serve_site, q) (forward-Carries d host header_buf backend o found)
        | inr (dir, q) ↦
            rw (serve_site, q)
              (refl, o, refl, record { backend = backend; found = found; resolved = q })
      ]

  looked_up-Carries :
      (d : Disposition) (host : Str) (resolver : SitesResolver) (header_buf : List ℕ)
      (r : LookupResult) (otherwise : LookupResult → Outcome Stream) (s : Shared Conn Stream)
      → IsOpen d
      → ctx.sites_resolver ≡ some resolver
      → lookup w.fetch resolver (bare host) ≡ r
      → ((x : LookupResult) → Carries w ctx d host header_buf (otherwise x))
      → Carries w ctx d host header_buf
          (looked_up net w ctx resolver header_buf (bare host) r otherwise s).0
  unfolding looked_up
  looked_up-Carries d host resolver header_buf (hit backend site) otherwise s o q l h =
      serve_site-Carries d host resolver header_buf backend site s o q l
  looked_up-Carries d host resolver header_buf LookupResult.miss otherwise s o q l h = h miss
  looked_up-Carries d host resolver header_buf LookupResult.error otherwise s o q l h = h error

  berth-Carries :
      (d : Disposition) (name : Str) (header_buf : List ℕ) (host subdomain : Str)
      → Carries {Stream = Stream} w ctx d name header_buf (berth header_buf host subdomain)
  unfolding berth
  berth-Carries d name header_buf host subdomain = ground arith

  unserved-Carries :
      (d : Disposition) (name : Str) (e : ProxyError) (header_buf : List ℕ) (host : Str)
      (r : LookupResult)
      → Carries {Stream = Stream} w ctx d name header_buf (unserved e host r)
  unfolding unserved
  unserved-Carries d name e header_buf host r = ground arith

  parked-Carries :
      (d : Disposition) (host : Str) (header_buf : List ℕ) (subdomain : Str)
      (s : Shared Conn Stream)
      → IsOpen d
      → Carries w ctx d host header_buf
          (handle_parked net w ctx header_buf (bare host) subdomain s).0
  unfolding handle_parked
  parked-Carries d host header_buf subdomain s o = elim (Option-cases ctx.sites_resolver) [
    | inl e ↦
        let q : (handle_parked net w ctx header_buf (bare host) subdomain s).0
            ≡ berth header_buf (bare host) subdomain =
          rw (handle_parked, e) refl in
        subst (Carries w ctx d host header_buf) (sym q)
          (berth-Carries d host header_buf (bare host) subdomain)
    | inr (resolver, e) ↦
        let site = lookup w.fetch resolver (bare host) in
        let otherwise = λ (r : LookupResult). berth header_buf (bare host) subdomain in
        let q : (handle_parked net w ctx header_buf (bare host) subdomain s).0
            ≡ (looked_up net w ctx resolver header_buf (bare host) site otherwise s).0 =
          rw (handle_parked, e) refl in
        subst (Carries w ctx d host header_buf) (sym q) (
          looked_up-Carries d host resolver header_buf site otherwise s o e refl
            (λ r. berth-Carries d host header_buf (bare host) subdomain))
  ]

  unserved_host-Carries :
      (d : Disposition) (host : Str) (why : ProxyError) (header_buf : List ℕ)
      (s : Shared Conn Stream)
      → IsOpen d
      → Carries w ctx d host header_buf (handle_unserved net w ctx why header_buf (bare host) s).0
  unfolding handle_unserved
  unserved_host-Carries d host why header_buf s o = elim (Option-cases ctx.sites_resolver) [
    | inl e ↦
        let q : (handle_unserved net w ctx why header_buf (bare host) s).0 ≡ error_answer why =
          rw (handle_unserved, e) refl in
        subst (Carries w ctx d host header_buf) (sym q) tt
    | inr (resolver, e) ↦
        let site = lookup w.fetch resolver (bare host) in
        let q : (handle_unserved net w ctx why header_buf (bare host) s).0
            ≡ (looked_up net w ctx resolver header_buf (bare host) site (unserved why (bare host))
                s).0 =
          rw (handle_unserved, e) refl in
        subst (Carries w ctx d host header_buf) (sym q) (
          looked_up-Carries d host resolver header_buf site (unserved why (bare host)) s o e refl
            (unserved-Carries d host why header_buf (bare host)))
  ]

  local-Carries :
      (apex : Apex) (subdomain : Str) (backend : SocketAddr) (fallback : Option Str) (host : Str)
      (header_buf : List ℕ) (s : Shared Conn Stream)
      → Carries w ctx
          (local apex subdomain backend fallback)
          host
          header_buf
          (handle_local net w ctx header_buf backend fallback s).0
  unfolding handle_local tunnelled
  local-Carries apex subdomain backend none host header_buf s = elim (dial_local-cases w backend) [
    | inl q ↦ rw (handle_local, q) (refl, refl)
    | inr (e, q) ↦ rw (handle_local, q) tt
  ]
  local-Carries apex subdomain backend (some target) host header_buf s =
      elim (dial_local-cases w backend) [
        | inl q ↦ rw (handle_local, q) (refl, refl)
        | inr (e, q) ↦ rw (handle_local, q) (refl, refl)
      ]

  dispatch-Carries :
      (d : Disposition) (header_buf : List ℕ) (host : Str) (s : Shared Conn Stream)
      → Carries w ctx d host header_buf (dispatch net w ctx d header_buf host s).0
  unfolding dispatch tunnelled handle_reject
  dispatch-Carries (local apex subdomain backend fallback) header_buf host s =
      local-Carries apex subdomain backend fallback host header_buf s
  dispatch-Carries (iroh apex subdomain) header_buf host s = (refl, refl)
  dispatch-Carries (parked apex subdomain) header_buf host s =
      parked-Carries (parked apex subdomain) host header_buf subdomain s tt
  dispatch-Carries (reject e) header_buf host s =
      ground (arith, unserved_host-Carries (reject e) host e header_buf s tt)

  HandsOn-Carries :
      (reads : List Read) (sni : Option Str) (host : Str) (bytes : List ℕ)
      (outcome : Outcome Stream)
      → Handed reads sni host bytes
      → Carries w ctx (classify ctx.routes host) host bytes outcome
      → HandsOn w ctx reads sni outcome
  HandsOn-Carries reads sni host bytes (to_backend addr b) h c = (host, rw c.0 h, c.1)
  HandsOn-Carries reads sni host bytes (to_sites addr b) h c = (host, rw c.0 h, c.1, c.2, c.3)
  HandsOn-Carries reads sni host bytes (to_node target b ending) h c = (host, rw c.0 h, c.1)
  HandsOn-Carries reads sni host bytes (from_directory dir site_dir park b x) h c =
      (host, rw c.0 h, c.1, c.2, c.3)
  HandsOn-Carries reads sni host bytes (error_answer e) h c = tt
  HandsOn-Carries reads sni host bytes (wrote b) h c = tt
  HandsOn-Carries reads sni host bytes (parked_page x subdomain from) h c = tt
  HandsOn-Carries reads sni host bytes control_plane_refused h c = tt

  named-misdirected :
      (sni : Option Str) (host : Str) → misdirected sni host ≡ false → NamedBy sni host
  named-misdirected none host h = tt
  named-misdirected (some name) host h =
      eq_str→eq (bare host) (to_ascii_lowercase name) (ground arith)

  request-HandsOn :
      (reads : List Read) (buf : List ℕ) (sni : Option Str) (s : Shared Conn Stream)
      → read_until_headers reads ≡ ok buf
      → HandsOn w ctx reads sni (handle_request net w ctx sni buf s).0
  unfolding handle_request
  request-HandsOn reads buf sni s r = elim (Option-cases (try_serve_http01 w buf)) [
    | inr (resp, e) ↦ rw (handle_request, e) tt
    | inl e ↦ elim (Option-cases (extract_host buf)) [
      | inl n ↦ rw (handle_request, e, n) tt
      | inr (host, n) ↦ elim (Bool-cases (misdirected sni host)) [
        | inl m ↦ rw (handle_request, e, n, m) tt
        | inr m ↦
            let bytes = set_or_replace_header buf (codes "X-Forwarded-Proto") (proto sni) in
            let h : Handed reads sni host bytes = record {
              buf = buf;
              was_read = r;
              names = n;
              named = named-misdirected sni host m;
              bytes_are = refl;
            } in
            let d = classify ctx.routes host in
            rw (handle_request, e, n, m)
              (HandsOn-Carries reads sni host bytes (dispatch net w ctx d bytes host s).0 h
                (dispatch-Carries d bytes host s))
      ]
    ]
  ]

  -- What is handed on is the head that was read, with the protocol set in it, of a request for a host
  -- that the head names, and that the TLS handshake named too, where there was one. It goes where the
  -- classification of that host sends it: to the backend of its local route, to the node of its alias
  -- or subdomain or the one that its route kept, or, where it has none of these, to the backend of the
  -- site that the sites' API gives for it, with a path outside the control plane, or to that site's
  -- directory.
  pub handle_connection-HandsOn :
      (reads : List Read) (sni : Option Str) (s : Shared Conn Stream)
      → HandsOn w ctx reads sni (handle_connection net w ctx reads sni s).0
  unfolding handle_connection
  handle_connection-HandsOn reads sni s = elim (Result-cases (read_until_headers reads)) [
    | inl (e, r) ↦ rw (handle_connection, r) tt
    | inr (buf, r) ↦ rw (handle_connection, r) (request-HandsOn reads buf sni s r)
  ]
