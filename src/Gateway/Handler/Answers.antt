-- ===== src/Gateway/Handler/Answers.antt =====
-- main.rs: `handle_connection` leaves no client without an answer.
use mjolnir.Base.{
  ℕ, Option, List, Str, codes, arith, ◌≡◌, refl, Option-cases, Result-cases, Bool-cases, inl, inr,
}
use mjolnir.Gateway.Classify.{ProxyError, Disposition, local, iroh, parked, reject, classify}
use mjolnir.Gateway.Config.{SocketAddr, SitesResolver}
use mjolnir.Gateway.Headers.{Read, read_until_headers, extract_host, set_or_replace_header}
use mjolnir.Gateway.Sites.{SiteRef, LookupResult, hit, miss, error, lookup}
use mjolnir.Gateway.Tunnel.{Net, Links}
use mjolnir.Gateway.Tunnel.Dials.{IsAnswered, handle_iroh_connection-IsAnswered}
use mjolnir.Gateway.Handler.{
  World, AppCtx, Shared, Outcome, error_answer, wrote, parked_page, to_backend, to_sites,
  control_plane_refused, to_node, from_directory, forward_site_or_refuse, serve_site, looked_up,
  berth, unserved, handle_parked, handle_unserved, handle_local, handle_reject, tunnelled, dispatch,
  proto, bare, misdirected, try_serve_http01, handle_request, handle_connection, dial_local,
}

module _ {Conn Stream : Type 0} (net : Net Conn Stream) (w : World) (ctx : AppCtx) where
  -- How a connection leaves the links to the nodes: as they were, or, where it went to a node, after
  -- an answer and three dials at most.
  abbrev pub LeavesLinks : Links Conn Stream → Outcome Stream × Shared Conn Stream → Type 0
  LeavesLinks links (to_node target bytes ending, t) = IsAnswered net links t.links ending
  LeavesLinks links (outcome, t) = t.links ≡ links

  tunnelled-LeavesLinks :
      (target : Str) (header_buf : List ℕ) (s : Shared Conn Stream)
      → LeavesLinks s.links (tunnelled net w ctx target header_buf s)
  unfolding tunnelled
  tunnelled-LeavesLinks target header_buf s =
      handle_iroh_connection-IsAnswered net ctx.iroh_cfg target header_buf s.links

  -- An answer with no node in it.
  abbrev IsNearby : Outcome Stream → Type 0
  IsNearby (to_node target bytes ending) = ⊥
  IsNearby outcome = Unit {0}

  LeavesLinks-nearby :
      (links : Links Conn Stream) (o : Outcome Stream) (t : Shared Conn Stream)
      → IsNearby o
      → t.links ≡ links
      → LeavesLinks links (o, t)
  LeavesLinks-nearby links (error_answer e) t n h = h
  LeavesLinks-nearby links (wrote b) t n h = h
  LeavesLinks-nearby links (parked_page host subdomain from) t n h = h
  LeavesLinks-nearby links (to_backend addr b) t n h = h
  LeavesLinks-nearby links (to_sites addr b) t n h = h
  LeavesLinks-nearby links control_plane_refused t n h = h
  LeavesLinks-nearby links (to_node target b ending) t n h = elim n [ ]
  LeavesLinks-nearby links (from_directory dir site_dir park b host) t n h = h

  forward-IsNearby :
      (header_buf : List ℕ) (backend : SocketAddr)
      → IsNearby (forward_site_or_refuse w header_buf backend)
  unfolding forward_site_or_refuse dial_local
  forward-IsNearby header_buf backend = ground arith

  serve_site-LeavesLinks :
      (resolver : SitesResolver) (header_buf : List ℕ) (host : Str) (backend : SocketAddr)
      (site : SiteRef) (s : Shared Conn Stream)
      → LeavesLinks s.links (serve_site net w ctx resolver header_buf host backend site s)
  unfolding serve_site
  serve_site-LeavesLinks resolver header_buf host backend site s = ground (
    arith,
    forward-IsNearby header_buf backend,
    LeavesLinks-nearby s.links (forward_site_or_refuse w header_buf backend) s,
  )

  looked_up-LeavesLinks :
      (resolver : SitesResolver) (header_buf : List ℕ) (host : Str) (r : LookupResult)
      (otherwise : LookupResult → Outcome Stream) (s : Shared Conn Stream)
      → ((x : LookupResult) → IsNearby (otherwise x))
      → LeavesLinks s.links (looked_up net w ctx resolver header_buf host r otherwise s)
  unfolding looked_up
  looked_up-LeavesLinks resolver header_buf host (hit backend site) otherwise s h =
      serve_site-LeavesLinks resolver header_buf host backend site s
  looked_up-LeavesLinks resolver header_buf host LookupResult.miss otherwise s h =
      LeavesLinks-nearby s.links (otherwise miss) s (h miss) refl
  looked_up-LeavesLinks resolver header_buf host LookupResult.error otherwise s h =
      LeavesLinks-nearby s.links (otherwise error) s (h error) refl

  berth-IsNearby :
      (header_buf : List ℕ) (host subdomain : Str) → IsNearby (berth header_buf host subdomain)
  unfolding berth
  berth-IsNearby header_buf host subdomain = ground arith

  unserved-IsNearby :
      (e : ProxyError) (host : Str) (r : LookupResult) → IsNearby (unserved e host r)
  unfolding unserved
  unserved-IsNearby e host r = ground arith

  parked-LeavesLinks :
      (header_buf : List ℕ) (host subdomain : Str) (s : Shared Conn Stream)
      → LeavesLinks s.links (handle_parked net w ctx header_buf host subdomain s)
  unfolding handle_parked berth
  parked-LeavesLinks header_buf host subdomain s = elim (Option-cases ctx.sites_resolver) [
    | inl e ↦
        rw (handle_parked, e)
          (LeavesLinks-nearby s.links (berth header_buf host subdomain) s
            (berth-IsNearby header_buf host subdomain) refl)
    | inr (resolver, e) ↦
        rw (handle_parked, e)
          (looked_up-LeavesLinks resolver header_buf host (lookup w.fetch resolver host)
            (λ r. berth header_buf host subdomain) s
            (λ r. berth-IsNearby header_buf host subdomain))
  ]

  unserved-LeavesLinks :
      (why : ProxyError) (header_buf : List ℕ) (host : Str) (s : Shared Conn Stream)
      → LeavesLinks s.links (handle_unserved net w ctx why header_buf host s)
  unfolding handle_unserved
  unserved-LeavesLinks why header_buf host s = elim (Option-cases ctx.sites_resolver) [
    | inl e ↦ rw (handle_unserved, e) refl
    | inr (resolver, e) ↦
        rw (handle_unserved, e)
          (looked_up-LeavesLinks resolver header_buf host (lookup w.fetch resolver host)
            (unserved why host) s (unserved-IsNearby why host))
  ]

  local-LeavesLinks :
      (header_buf : List ℕ) (backend : SocketAddr) (fallback : Option Str) (s : Shared Conn Stream)
      → LeavesLinks s.links (handle_local net w ctx header_buf backend fallback s)
  unfolding handle_local
  local-LeavesLinks header_buf backend fallback s = elim (Result-cases (dial_local w backend)) [
    | inr (addr, e) ↦ rw (handle_local, e) refl
    | inl (why, e) ↦ elim (Option-cases fallback) [
      | inl f ↦ rw (handle_local, e, f) refl
      | inr (target, f) ↦ rw (handle_local, e, f) (tunnelled-LeavesLinks target header_buf s)
    ]
  ]

  dispatch-LeavesLinks :
      (d : Disposition) (header_buf : List ℕ) (host : Str) (s : Shared Conn Stream)
      → LeavesLinks s.links (dispatch net w ctx d header_buf host s)
  unfolding dispatch handle_reject
  dispatch-LeavesLinks (local apex subdomain backend fallback) header_buf host s =
      local-LeavesLinks header_buf backend fallback s
  dispatch-LeavesLinks (iroh apex subdomain) header_buf host s =
      tunnelled-LeavesLinks subdomain header_buf s
  dispatch-LeavesLinks (parked apex subdomain) header_buf host s =
      parked-LeavesLinks header_buf (bare host) subdomain s
  dispatch-LeavesLinks (reject e) header_buf host s =
      ground (arith, unserved-LeavesLinks e header_buf (bare host) s)

  request-LeavesLinks :
      (sni : Option Str) (buf : List ℕ) (s : Shared Conn Stream)
      → LeavesLinks s.links (handle_request net w ctx sni buf s)
  unfolding handle_request
  request-LeavesLinks sni buf s = elim (Option-cases (try_serve_http01 w buf)) [
    | inr (resp, e) ↦ rw (handle_request, e) refl
    | inl e ↦ elim (Option-cases (extract_host buf)) [
      | inl n ↦ rw (handle_request, e, n) refl
      | inr (host, n) ↦ elim (Bool-cases (misdirected sni host)) [
        | inl m ↦ rw (handle_request, e, n, m) refl
        | inr m ↦
            let bytes = set_or_replace_header buf (codes "X-Forwarded-Proto") (proto sni) in
            rw (handle_request, e, n, m)
              (dispatch-LeavesLinks (classify ctx.routes host) bytes host s)
      ]
    ]
  ]

  -- Whatever a client sends and the network does, its connection ends with an answer or is handed on:
  -- one that went to a node was joined with it or told of an error after three dials at most, and
  -- any other leaves the links to the nodes as they were.
  pub handle_connection-LeavesLinks :
      (reads : List Read) (sni : Option Str) (s : Shared Conn Stream)
      → LeavesLinks s.links (handle_connection net w ctx reads sni s)
  unfolding handle_connection
  handle_connection-LeavesLinks reads sni s = elim (Result-cases (read_until_headers reads)) [
    | inl (e, r) ↦ rw (handle_connection, r) refl
    | inr (buf, r) ↦ rw (handle_connection, r) (request-LeavesLinks sni buf s)
  ]
