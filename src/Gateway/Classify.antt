-- ===== src/Gateway/Classify.antt =====
-- main.rs: the errors of the proxy, and `classify`, which takes a Host to what is to be done.
pub mod Choice
use mjolnir.Base.{ℕ, Str, Bool, Option, none, some, List, [], ◌∷◌, is_empty, if◌then◌else◌, before}
use mjolnir.Gateway.Config.{SocketAddr, Fallthrough, Apex}
use mjolnir.Gateway.Route.{
  RouteTable, match_host, lookup_local, lookup_local_fallback, lookup_alias,
}

pub data ProxyError : Type 0 where
  header_timeout missing_host not_found domain_mismatch empty_subdomain misdirected_request :
      ProxyError
  invalid_ticket : Str → ProxyError
  connect_timeout : ProxyError
  connect_error stream_error : Str → ProxyError
  response_timeout pool_stale : ProxyError
  local_backend_unreachable : Str → ProxyError

unfoldable pub status_code : ProxyError → ℕ
status_code header_timeout = 408
status_code missing_host = 400
status_code not_found = 404
status_code domain_mismatch = 400
status_code empty_subdomain = 400
status_code misdirected_request = 421
status_code (invalid_ticket e) = 400
status_code connect_timeout = 504
status_code (connect_error e) = 502
status_code (stream_error e) = 502
status_code response_timeout = 504
status_code pool_stale = 504
status_code (local_backend_unreachable e) = 502

pub data Disposition : Type 0 where
  local : Apex → Str → SocketAddr → Option Str → Disposition
  iroh : Apex → Str → Disposition
  parked : Apex → Str → Disposition
  reject : ProxyError → Disposition

unfoldable pub host_without_port : Str → Str
host_without_port host = before b':' host

-- The two endings of `classify`, for a name that no route has.
abbrev pub bare_apex : Apex → Disposition
bare_apex apex = elim apex.fallthrough [
  | Fallthrough.parked ↦ parked apex []
  | _ ↦ reject empty_subdomain
]

abbrev pub fall_through : Apex → Str → Disposition
fall_through apex subdomain = elim apex.fallthrough [
  | Fallthrough.iroh ↦ iroh apex subdomain
  | Fallthrough.none ↦ reject not_found
  | Fallthrough.parked ↦ parked apex subdomain
]

-- The body of `classify` for a host that matched.
unfoldable pub classify_at : RouteTable → Apex → Str → Disposition
classify_at t apex subdomain = elim (lookup_local t apex subdomain) [
  | some backend ↦ local apex subdomain backend (lookup_local_fallback t apex subdomain)
  | none ↦ if is_empty subdomain then bare_apex apex else elim (lookup_alias t apex subdomain) [
    | some target ↦ iroh apex target
    | none ↦ fall_through apex subdomain
  ]
]

unfoldable pub classify : RouteTable → Str → Disposition
unfolding host_without_port
classify t host = elim (match_host t (host_without_port host)) [
  | none ↦ reject domain_mismatch
  | some (apex, subdomain) ↦ classify_at t apex subdomain
]
