-- ===== src/Gateway/Config/Load.antt =====
-- config.rs: `validate_and_normalize`, one function for each of its loops. A `continue` leaves the
-- list as it is; the warnings that it logs are not modelled. Two functions of libraries are
-- parameters: the parser of socket addresses, and the decoder of z32 texts.
pub mod Apexes
pub mod Routes
pub mod Aliases
pub mod Valid
use mjolnir.Base.{
  ℕ, Str, Bool, true, false, not, ◌&&◌, ◌||◌, Option, none, some, List, [], ◌∷◌, ◌++◌, Result, ok,
  err, ◌>>=◌, codes, eq_str, ◌==◌, if◌then◌else◌, all, any, is_empty, length, to_ascii_lowercase,
  trim, strip_prefix,
}
use mathlib.Core.Option
use mjolnir.Gateway.Config.{
  SocketAddr, Apex, Route, Alias, CertEntry, AcmeSettings, SitesResolver, ConfigSource,
  LoadedConfig, AcmeSection, TlsSection, SitesSection, DomainDecl, RouteDecl, AliasDecl, CertDecl,
  FileConfig, ConfigError, invalid, invalid_addr, empty_domains, wildcard_suffix, bad_suffix,
  no_apexes, acme_email, acme_domain, no_cert_source,
}
use mjolnir.Gateway.Config.Names.{is_ascii_fqdn, is_ascii_label, parse_fallthrough}
use mjolnir.Gateway.Config.Settings.{
  has_host, add_cert, add_certs, load_acme, lacks_cert_source, tls_cert, tls_key, is_some,
  default_sites_root, required,
}

pub record Parsers : Type 0 where
  pub parse_addr : Str → Option SocketAddr
  pub z32_decode : Str → Option (List ℕ)

-- Apexes.
abbrev pub has_suffix : Str → Apex → Bool
has_suffix suffix a = eq_str a.suffix suffix

unfoldable pub add_apex : List Apex → DomainDecl → Result ConfigError (List Apex)
add_apex apexes d =
    if any (λ c. c == b'*') d.suffix
    then err (invalid wildcard_suffix)
    else let lower = to_ascii_lowercase d.suffix in
      if not (is_ascii_fqdn lower) then err (invalid bad_suffix) else do
        fallthrough ← parse_fallthrough d.fallthrough
        if any (has_suffix lower) apexes
            then ok apexes
            else ok (apexes ++ record { suffix = lower; fallthrough = fallthrough } ∷ [])

unfoldable pub add_apexes : List Apex → List DomainDecl → Result ConfigError (List Apex)
add_apexes apexes [] = ok apexes
add_apexes apexes (d ∷ ds) = do apexes' ← add_apex apexes d; add_apexes apexes' ds

unfoldable pub load_apexes : List DomainDecl → Result ConfigError (List Apex)
load_apexes [] = err (invalid empty_domains)
load_apexes (d ∷ ds) = do
  apexes ← add_apexes [] (d ∷ ds)
  elim apexes [ [] ↦ err (invalid no_apexes) | a ∷ rest ↦ ok (a ∷ rest) ]

-- Routes and aliases are identified by their apex and subdomain.
abbrev pub route_at : Str → Str → Route → Bool
route_at apex subdomain r = eq_str r.apex apex && eq_str r.subdomain subdomain

abbrev pub alias_at : Str → Str → Alias → Bool
alias_at apex subdomain a = eq_str a.apex apex && eq_str a.subdomain subdomain

-- `routes.iter_mut().find(…)`, and the writes to the route that was found.
unfoldable pub retain_fallback : Str → Str → AliasDecl → List Route → Option (List Route)
retain_fallback apex subdomain a [] = none
retain_fallback apex subdomain a (r ∷ rs) =
    if route_at apex subdomain r
    then some (record r { fallback_node = some a.node; fallback_port = a.port } ∷ rs)
    else Option.map (λ rs'. r ∷ rs') (retain_fallback apex subdomain a rs)

-- The `match` on the found route, and what follows it in the loop over the aliases.
abbrev pub add_unshadowed :
    Str → Str → AliasDecl → List Route → List Alias → Option (List Route) → List Route × List Alias
add_unshadowed apex subdomain a routes aliases (some routes') = (routes', aliases)
add_unshadowed apex subdomain a routes aliases none =
    if any (alias_at apex subdomain) aliases then (routes, aliases) else (
      routes,
      aliases
          ++ record { apex = apex; subdomain = subdomain; node_z32 = a.node; port = a.port } ∷ [],
    )

-- The value that `validate_and_normalize` ends with.
unfoldable pub assemble :
    FileConfig
    → ConfigSource
    → List Apex
    → List Route × List Alias
    → Option SocketAddr
    → Option SocketAddr
    → AcmeSettings
    → Option SitesResolver
    → LoadedConfig
assemble file source apexes both listen listen_tls acme sites_resolver = record {
  source = source;
  listen = listen;
  listen_tls = listen_tls;
  vm_default_port = Option.get_or file.vm_default_port 80;
  connect_timeout_secs = Option.get_or file.connect_timeout_secs 15;
  response_timeout_secs = Option.get_or file.response_timeout_secs 0;
  pool_ttl_secs = Option.get_or file.pool_ttl_secs 300;
  pool_max = Option.get_or file.pool_max 256;
  pool_probe_timeout_secs = Option.get_or file.pool_probe_timeout_secs 10;
  tls_expiry_fail_secs = Option.get_or file.tls_expiry_fail_secs 86400;
  tls_session_cache = Option.get_or file.tls_session_cache 4096;
  tls_cert_path = tls_cert file.tls;
  tls_key_path = tls_key file.tls;
  acme = acme;
  apexes = apexes;
  routes = both.0;
  aliases = both.1;
  extra_certs = add_certs [] file.certs;
  sites_resolver = sites_resolver;
}

module _ (lib : Parsers) where
  open lib use {parse_addr, z32_decode}

  -- `is_valid_node_z32`
  unfoldable pub is_valid_node_z32 : Str → Bool
  is_valid_node_z32 s = elim (z32_decode s) [ none ↦ false | some bytes ↦ length bytes == 32 ]

  unfoldable pub parse_optional_socketaddr : Option Str → Result ConfigError (Option SocketAddr)
  parse_optional_socketaddr none = ok none
  parse_optional_socketaddr (some v) =
      if is_empty v
      then ok none
      else do addr ← required (invalid_addr v) (parse_addr v); ok (some addr)

  unfoldable pub add_route : List Apex → List Route → RouteDecl → List Route
  add_route apexes routes r =
      let apex = to_ascii_lowercase r.apex in
      let subdomain = to_ascii_lowercase r.subdomain in
      if not (any (has_suffix apex) apexes)
      then routes
      else if not (is_empty subdomain) && not (is_ascii_label subdomain)
      then routes
      else elim (parse_addr r.backend) [
        | none ↦ routes
        | some backend ↦
            if any (route_at apex subdomain) routes
            then routes
            else routes
              ++ record {
                apex = apex;
                subdomain = subdomain;
                backend = backend;
                fallback_node = none;
                fallback_port = none;
              }
                ∷ []
      ]

  unfoldable pub add_routes : List Apex → List Route → List RouteDecl → List Route
  add_routes apexes routes [] = routes
  add_routes apexes routes (r ∷ rs) = add_routes apexes (add_route apexes routes r) rs

  unfoldable pub add_alias :
      List Apex → List Route × List Alias → AliasDecl → List Route × List Alias
  unfolding is_valid_node_z32
  add_alias apexes (routes, aliases) a =
      let apex = to_ascii_lowercase a.apex in
      let subdomain = to_ascii_lowercase a.subdomain in
      if not (any (has_suffix apex) apexes)
      then (routes, aliases)
      else if not (is_ascii_label subdomain)
      then (routes, aliases)
      else if not (is_valid_node_z32 a.node)
      then (routes, aliases)
      else add_unshadowed apex subdomain a routes aliases (retain_fallback apex subdomain a routes)

  unfoldable pub add_aliases :
      List Apex → List Route × List Alias → List AliasDecl → List Route × List Alias
  add_aliases apexes both [] = both
  add_aliases apexes both (a ∷ as') = add_aliases apexes (add_alias apexes both a) as'

  -- The pair of `mjolnir_api` and `mjolnir_backend`.
  abbrev load_resolver :
      Option Str → Option Str → Option Str → Result ConfigError (Option SitesResolver)
  load_resolver (some api_url) (some backend_str) sites_root = do
    backend ← required (invalid_addr backend_str) (parse_addr backend_str)
    ok (
        some (record {
          api_url = api_url;
          backend = backend;
          sites_root = Option.get_or sites_root default_sites_root;
        }))
  load_resolver _ _ sites_root = ok none

  unfoldable pub load_sites : Option SitesSection → Result ConfigError (Option SitesResolver)
  load_sites none = ok none
  load_sites (some s) = load_resolver s.mjolnir_api s.mjolnir_backend s.sites_root

  unfoldable pub validate_and_normalize :
      FileConfig → ConfigSource → Result ConfigError LoadedConfig
  unfolding assemble
  validate_and_normalize file source = do
    apexes ← load_apexes file.domains
    let both = add_aliases apexes (add_routes apexes [] file.routes, []) file.aliases
    listen ← parse_optional_socketaddr file.listen
    listen_tls ← parse_optional_socketaddr file.listen_tls
    acme ← load_acme file.acme
    if lacks_cert_source listen_tls acme (tls_cert file.tls) (tls_key file.tls)
        then err (invalid no_cert_source)
        else do
          sites_resolver ← load_sites file.sites
          ok (assemble file source apexes both listen listen_tls acme sites_resolver)
