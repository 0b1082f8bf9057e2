-- ===== src/Gateway/Handler.antt =====
-- main.rs: `handle_connection`, one connection from its first byte to the place where it is handed
-- on: the challenge, the Host, the route, a site's directory, the tunnel to a node. The socket's
-- reads, the local dials, the file system and the network are parameters.
pub mod Forwards
pub mod Answers
use mjolnir.Base.{
  ℕ, Bool, true, false, not, Option, none, some, List, [], ◌∷◌, ◌++◌, Str, codes, eq_str,
  if◌then◌else◌, Result, ok, err, to_ascii_lowercase, length,
}
use mjolnir.Base.Decimal.{decimal}
use mjolnir.Base.Utf8.{from_utf8_lossy, as_bytes}
use mjolnir.Base.Words.{split_whitespace, eq_ignore_ascii_case}
use mjolnir.Gateway.Classify.{
  ProxyError, missing_host, misdirected_request, local_backend_unreachable, domain_mismatch,
  empty_subdomain, not_found, Disposition, local, iroh, parked, reject, classify, host_without_port,
}
use mjolnir.Gateway.Config.{SocketAddr, Apex, SitesResolver}
use mjolnir.Gateway.Headers.{
  Read, crlf, read_until_headers, request_path, is_control_plane, extract_host,
  set_or_replace_header, extract_acme_http01_token,
}
use mjolnir.Gateway.Parked.{is_canonical_host, redirect_to_canonical}
use mjolnir.Gateway.Parked.Origin.{origin_from_request}
use mjolnir.Gateway.Route.{RouteTable}
use mjolnir.Gateway.Sites.{
  FilePath, components, join, SiteRef, LookupResult, hit, miss, error, current_dir, Fetched, lookup,
  Fs, resolve_snapshot_dir, CachedPark, resolve_park,
}
use mjolnir.Gateway.Tunnel.{
  Timed, late, broke, came, Net, IrohConfig, Links, Ending, handle_iroh_connection,
}

-- What answers from outside: local backends, challenge files, the sites API, the disk, the clock.
pub record World : Type 0 where
  pub dial : SocketAddr → Timed Unit
  pub show_addr : SocketAddr → Str
  pub challenge_file : Str → Option (List ℕ)
  pub fetch : Str → Fetched
  pub fs : Fs
  pub seconds : ℕ

pub record AppCtx : Type 0 where
  pub routes : RouteTable
  pub iroh_cfg : IrohConfig
  pub sites_resolver : Option SitesResolver

-- What connections share and change.
pub record Shared (Conn Stream : Type 0) : Type 0 where
  pub links : Links Conn Stream
  pub park_cache : Option CachedPark

-- What becomes of a connection: an error is answered; bytes are written; the parked page for a host
-- and subdomain, with the visitor's origin; the request goes to a local backend, to the sites'
-- backend, or to a node; or the rest of the connection is served from a directory.
pub data Outcome (Stream : Type 0) : Type 0 where
  error_answer : ProxyError → Outcome Stream
  wrote : List ℕ → Outcome Stream
  parked_page : Str → Str → Option Str → Outcome Stream
  to_backend : SocketAddr → List ℕ → Outcome Stream
  to_sites : SocketAddr → List ℕ → Outcome Stream
  control_plane_refused : Outcome Stream
  to_node : Str → List ℕ → Ending Stream → Outcome Stream
  from_directory : FilePath → FilePath → Option FilePath → List ℕ → Str → Outcome Stream

abbrev status_line : Option (List ℕ) → Str
status_line none = codes "404 Not Found"
status_line (some body) = codes "200 OK"

abbrev or_empty : Option (List ℕ) → List ℕ
or_empty none = []
or_empty (some body) = body

abbrev method_of : List Str → Str
method_of [] = codes "GET"
method_of (m ∷ ws) = m

-- The answer to a challenge.
unfoldable pub http01_response : List ℕ → Option (List ℕ) → List ℕ
http01_response request file =
    let body = or_empty file in
    let omit =
      eq_ignore_ascii_case (method_of (split_whitespace (from_utf8_lossy request)))
        (codes "HEAD") in
    as_bytes (
      codes "HTTP/1.1 "
      ++ (status_line file
          ++ (crlf
              ++ (codes "Content-Type: text/plain"
                  ++ (crlf
                      ++ (codes "Content-Length: "
                          ++ (decimal (length body)
                              ++ (crlf ++ (codes "Connection: close" ++ (crlf ++ crlf))))))))))
    ++ (if omit then [] else body)

unfoldable pub try_serve_http01 : World → List ℕ → Option (List ℕ)
unfolding http01_response
try_serve_http01 w request = elim (extract_acme_http01_token request) [
  | none ↦ none
  | some token ↦ some (http01_response request (w.challenge_file token))
]

abbrev pub dialled : World → SocketAddr → Timed Unit → Result ProxyError SocketAddr
dialled w backend late =
    err (local_backend_unreachable (codes "connect timeout to " ++ w.show_addr backend))
dialled w backend (broke e) =
    err (local_backend_unreachable (w.show_addr backend ++ (codes " → " ++ e)))
dialled w backend (came tt) = ok backend

unfoldable pub dial_local : World → SocketAddr → Result ProxyError SocketAddr
dial_local w backend = dialled w backend (w.dial backend)

abbrev pub refuse_path : Option Str → Bool
refuse_path none = true
refuse_path (some path) = is_control_plane path

unfoldable pub forward_site_or_refuse :
    {Stream : Type 0} → World → List ℕ → SocketAddr → Outcome Stream
unfolding dial_local is_control_plane
forward_site_or_refuse w header_buf backend =
    if refuse_path (request_path header_buf)
    then control_plane_refused
    else elim (dial_local w backend) [ ok addr ↦ to_sites addr header_buf | err e ↦ error_answer e ]

-- The page of a name that nothing is bound to, or the way to it.
unfoldable pub berth : {Stream : Type 0} → List ℕ → Str → Str → Outcome Stream
berth header_buf host subdomain =
    if is_canonical_host host
    then parked_page host subdomain (origin_from_request header_buf)
    else wrote (redirect_to_canonical host)

-- The answer to a host that is served nowhere, after a lookup that gave no site.
unfoldable pub unserved : {Stream : Type 0} → ProxyError → Str → LookupResult → Outcome Stream
unserved e host miss = wrote (redirect_to_canonical host)
unserved e host r = error_answer e

abbrev pub bare : Str → Str
bare host = to_ascii_lowercase (host_without_port host)

abbrev pub proto : Option Str → Str
proto none = codes "http"
proto (some sni) = codes "https"

-- The Host is not the name that the TLS handshake asked for.
abbrev pub misdirected : Option Str → Str → Bool
misdirected none host = false
misdirected (some sni) host = not (eq_str (bare host) (to_ascii_lowercase sni))

module _ {Conn Stream : Type 0} (net : Net Conn Stream) (w : World) (ctx : AppCtx) where
  abbrev pub Answer : Type 0
  Answer = Outcome Stream × Shared Conn Stream

  unfoldable pub tunnelled : Str → List ℕ → Shared Conn Stream → Answer
  tunnelled target header_buf s =
      let (ending, links) = handle_iroh_connection net ctx.iroh_cfg target header_buf s.links in
      (to_node target header_buf ending, record s { links = links })

  -- A site that a lookup gave: its directory, or the backend that has it.
  unfoldable pub serve_site :
      SitesResolver → List ℕ → Str → SocketAddr → SiteRef → Shared Conn Stream → Answer
  unfolding forward_site_or_refuse
  serve_site resolver header_buf host backend site s =
      let root = components resolver.sites_root in
      let site_dir = join (join root site.identikey_fp) site.site_name in
      let (park, cache) = resolve_park w.fs w.fetch resolver w.seconds s.park_cache in
      elim (resolve_snapshot_dir w.fs root (current_dir site root)) [
        | some dir ↦
            (from_directory dir site_dir park header_buf host, record s { park_cache = cache })
        | none ↦ (forward_site_or_refuse w header_buf backend, s)
      ]

  -- A site where the lookup gave one, and another answer where not.
  unfoldable pub looked_up :
      SitesResolver
      → List ℕ
      → Str
      → LookupResult
      → (LookupResult → Outcome Stream)
      → Shared Conn Stream
      → Answer
  unfolding serve_site
  looked_up resolver header_buf host (hit backend site) otherwise s =
      serve_site resolver header_buf host backend site s
  looked_up resolver header_buf host r otherwise s = (otherwise r, s)

  -- The arm for a parked name.
  unfoldable pub handle_parked : List ℕ → Str → Str → Shared Conn Stream → Answer
  unfolding looked_up berth
  handle_parked header_buf host subdomain s = elim ctx.sites_resolver [
    | none ↦ (berth header_buf host subdomain, s)
    | some resolver ↦
        looked_up resolver header_buf host (lookup w.fetch resolver host)
          (λ r. berth header_buf host subdomain) s
  ]

  -- The arm for a host that no configuration serves.
  unfoldable pub handle_unserved : ProxyError → List ℕ → Str → Shared Conn Stream → Answer
  unfolding looked_up unserved
  handle_unserved e header_buf host s = elim ctx.sites_resolver [
    | none ↦ (error_answer e, s)
    | some resolver ↦
        looked_up resolver header_buf host (lookup w.fetch resolver host) (unserved e host) s
  ]

  -- A local backend, and the node that a shadowed alias left where it is not reached.
  unfoldable pub handle_local : List ℕ → SocketAddr → Option Str → Shared Conn Stream → Answer
  unfolding dial_local tunnelled
  handle_local header_buf backend fallback s = elim (dial_local w backend) [
    | ok addr ↦ (to_backend addr header_buf, s)
    | err e ↦ elim fallback [
      | some target ↦ tunnelled target header_buf s
      | none ↦ (error_answer e, s)
    ]
  ]

  unfoldable pub handle_reject : ProxyError → List ℕ → Str → Shared Conn Stream → Answer
  unfolding handle_unserved
  handle_reject domain_mismatch header_buf host s =
      handle_unserved domain_mismatch header_buf host s
  handle_reject empty_subdomain header_buf host s =
      handle_unserved empty_subdomain header_buf host s
  handle_reject not_found header_buf host s = handle_unserved not_found header_buf host s
  handle_reject e header_buf host s = (error_answer e, s)

  unfoldable pub dispatch : Disposition → List ℕ → Str → Shared Conn Stream → Answer
  unfolding handle_local handle_parked handle_reject tunnelled
  dispatch (local apex subdomain backend fallback) header_buf host s =
      handle_local header_buf backend fallback s
  dispatch (iroh apex subdomain) header_buf host s = tunnelled subdomain header_buf s
  dispatch (parked apex subdomain) header_buf host s =
      handle_parked header_buf (bare host) subdomain s
  dispatch (reject e) header_buf host s = handle_reject e header_buf (bare host) s

  -- From the whole head on.
  unfoldable pub handle_request : Option Str → List ℕ → Shared Conn Stream → Answer
  unfolding dispatch try_serve_http01
  handle_request sni buf s = elim (try_serve_http01 w buf) [
    | some resp ↦ (wrote resp, s)
    | none ↦ elim (extract_host buf) [
      | none ↦ (error_answer missing_host, s)
      | some host ↦
          if misdirected sni host
          then (error_answer misdirected_request, s)
          else dispatch (classify ctx.routes host)
              (set_or_replace_header buf (codes "X-Forwarded-Proto") (proto sni)) host s
    ]
  ]

  unfoldable pub handle_connection : List Read → Option Str → Shared Conn Stream → Answer
  unfolding handle_request
  handle_connection reads sni s = elim (read_until_headers reads) [
    | err e ↦ (error_answer e, s)
    | ok buf ↦ handle_request sni buf s
  ]
