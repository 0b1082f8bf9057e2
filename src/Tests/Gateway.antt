-- ===== src/Tests/Gateway.antt =====
-- The gateway, on a small configuration.
use mjolnir.Base.{
  All, ℕ, ◌≡◌, inl, ◌≤◌, refl, false, Option, none, some, List, [], ◌∷◌, Str, ok, codes, len, In,
  to_ascii_lowercase, before, strip_suffix, arith,
}
use mjolnir.Base.Decimal.{decimal}
use mjolnir.Gateway.Config.{
  SocketAddr, Fallthrough, Apex, Route, Alias, LoadedConfig, toml, FileConfig,
}
use mjolnir.Gateway.Config.Names.{is_ascii_fqdn, is_ascii_label, parse_fallthrough}
use mjolnir.Gateway.Config.Settings.{load_acme, add_certs}
use mjolnir.Gateway.Config.Load.{
  Parsers, validate_and_normalize, load_apexes, add_apexes, add_apex, parse_optional_socketaddr,
  load_sites, add_aliases, add_alias, retain_fallback, add_routes, add_route,
}
use mjolnir.Gateway.Config.Load.Valid.{IsValid, validate_and_normalize-IsValid}
use mjolnir.Gateway.Config.Dropins.{DirEntry, merge_dropins}
use mjolnir.Gateway.Config.Dropins.Boundary.{core, merge_dropins-keeps_routes}
use mjolnir.Gateway.Route.{
  from_config, match_host, match_in, sort_apexes, insert_apex, subdomain_of, target_subdomain,
  fallback_target_subdomain,
}
use mjolnir.Gateway.Route.Match.{IsUnder, match_host-longest}
use mjolnir.Gateway.Classify.{local, iroh, host_without_port, classify}
use mjolnir.Gateway.Classify.Choice.{FallsTo, classify-route, classify-alias, classify-unbound}
use mjolnir.Gateway.Pool.{ConnectionPool, insert, get, evict}
use mjolnir.Gateway.Pool.Bounded.{IsBounded, pool-IsBounded}

abbrev address : SocketAddr
address = record { ip = 127 ∷ 0 ∷ 0 ∷ 1 ∷ []; port = 80 }

abbrev zeros : List ℕ
zeros =
    0 ∷ 0 ∷ 0 ∷ 0 ∷ 0 ∷ 0 ∷ 0 ∷ 0 ∷ 0 ∷ 0 ∷ 0 ∷ 0 ∷ 0 ∷ 0 ∷ 0 ∷ 0 ∷ 0 ∷ 0 ∷ 0 ∷ 0 ∷ 0 ∷ 0 ∷ 0 ∷ 0
    ∷ 0 ∷ 0 ∷ 0 ∷ 0 ∷ 0 ∷ 0 ∷ 0 ∷ 0 ∷ []

-- Every text is an address, and a node.
abbrev lib : Parsers
lib = record { parse_addr = λ s. some address; z32_decode = λ s. some zeros }

abbrev file : FileConfig
file = record {
  listen = none;
  listen_tls = none;
  vm_default_port = none;
  connect_timeout_secs = none;
  response_timeout_secs = none;
  pool_ttl_secs = none;
  pool_max = none;
  pool_probe_timeout_secs = none;
  tls_expiry_fail_secs = none;
  tls_session_cache = none;
  acme = none;
  tls = none;
  sites = none;
  domains =
      record { suffix = codes "a.b"; fallthrough = some (codes "none") }
      ∷ record { suffix = codes "x.A.b"; fallthrough = none }
      ∷ [];
  routes = record { apex = codes "a.b"; subdomain = codes "Git"; backend = codes "h" } ∷ [];
  aliases =
      record { apex = codes "a.b"; subdomain = codes "vm"; node = codes "n"; port = some 90 } ∷ [];
  certs = [];
}

abbrev apex : Apex
apex = record { suffix = codes "a.b"; fallthrough = Fallthrough.none }

abbrev longer : Apex
longer = record { suffix = codes "x.a.b"; fallthrough = Fallthrough.iroh }

abbrev git : Route
git = record {
  apex = codes "a.b";
  subdomain = codes "git";
  backend = address;
  fallback_node = none;
  fallback_port = none;
}

abbrev vm : Alias
vm = record { apex = codes "a.b"; subdomain = codes "vm"; node_z32 = codes "n"; port = some 90 }

abbrev loaded : LoadedConfig
loaded = record {
  source = toml;
  listen = none;
  listen_tls = none;
  vm_default_port = 80;
  connect_timeout_secs = 15;
  response_timeout_secs = 0;
  pool_ttl_secs = 300;
  pool_max = 256;
  pool_probe_timeout_secs = 10;
  tls_expiry_fail_secs = 86400;
  tls_session_cache = 4096;
  tls_cert_path = none;
  tls_key_path = none;
  acme = record {
    enabled = false;
    email = [];
    directory = codes "https://acme-v02.api.letsencrypt.org/directory";
    renew_before_secs = 2592000;
    cloudflare_api_token_file = none;
    explicit_domains = none;
  };
  apexes = apex ∷ longer ∷ [];
  routes = git ∷ [];
  aliases = vm ∷ [];
  extra_certs = [];
  sites_resolver = none;
}

file-loads : validate_and_normalize lib file toml ≡ ok loaded
unfolding validate_and_normalize load_apexes add_apexes add_apex is_ascii_fqdn to_ascii_lowercase
    parse_fallthrough parse_optional_socketaddr load_acme load_sites add_aliases add_certs add_alias
    is_ascii_label retain_fallback add_routes add_route
file-loads = refl

validate_and_normalize-IsValid_example : IsValid lib loaded
validate_and_normalize-IsValid_example =
    validate_and_normalize-IsValid lib file toml loaded file-loads

match_host-longest_example :
    In longer (apex ∷ longer ∷ [])
    × IsUnder (to_ascii_lowercase (codes "V.x.a.b")) longer (codes "v")
    × ((b : Apex) (s : Str)
        → In b (apex ∷ longer ∷ [])
        → IsUnder (to_ascii_lowercase (codes "V.x.a.b")) b s
        → len b.suffix ≤ 5)
unfolding match_host from_config host_without_port match_in sort_apexes insert_apex subdomain_of
    to_ascii_lowercase before strip_suffix
match_host-longest_example = match_host-longest loaded (codes "V.x.a.b") longer (codes "v") refl

classify-route_example :
    classify (from_config loaded) (codes "GIT.a.b:443") ≡ local apex (codes "git") address none
unfolding match_host from_config host_without_port match_in sort_apexes insert_apex subdomain_of
    to_ascii_lowercase before strip_suffix fallback_target_subdomain
classify-route_example =
    classify-route lib loaded (codes "GIT.a.b:443") apex (codes "git") git
      (validate_and_normalize-IsValid lib file toml loaded file-loads) refl (inl refl) refl

classify-alias_example : classify (from_config loaded) (codes "vm.a.b") ≡ iroh apex (codes "n-90")
unfolding match_host from_config host_without_port match_in sort_apexes insert_apex subdomain_of
    to_ascii_lowercase before strip_suffix target_subdomain decimal
classify-alias_example =
    classify-alias lib loaded (codes "vm.a.b") apex (codes "vm") vm
      (validate_and_normalize-IsValid lib file toml loaded file-loads) refl (inl refl) refl

classify-unbound_example :
    FallsTo apex (codes "no") (classify (from_config loaded) (codes "no.a.b"))
unfolding match_host from_config host_without_port match_in sort_apexes insert_apex subdomain_of
    to_ascii_lowercase before strip_suffix
classify-unbound_example =
    classify-unbound lib loaded (codes "no.a.b") apex (codes "no") refl (refl, tt) (refl, tt)

-- Every text of the directory is the same configuration.
abbrev dropins : Option (List DirEntry)
dropins = some (
    record { name = codes "x.toml"; text = some [] }
    ∷ record { name = codes "notes"; text = none }
    ∷ [])

merge_dropins-keeps_routes_example :
    (cfg' : LoadedConfig) × (validate_and_normalize lib
        (merge_dropins (λ s. some file) file dropins)
        toml
      ≡ ok cfg')
    × All (λ (r : Route). (s : Route) × In s cfg'.routes × (core s ≡ core r)) loaded.routes
merge_dropins-keeps_routes_example =
    merge_dropins-keeps_routes (λ s. some file) lib file dropins loaded file-loads

abbrev pool : ConnectionPool ℕ
pool = record {
  cache = record { key = codes "k"; conn = 4; last_used = 7 } ∷ [];
  ttl = 10;
  max_size = 1;
}

pool-IsBounded_example :
    IsBounded (insert 9 (codes "n") 5 pool)
    × IsBounded (get (λ c. false) 9 (codes "n") pool).1
    × IsBounded (evict (codes "n") pool)
pool-IsBounded_example =
    pool-IsBounded (λ c. false) 9 (codes "n") 5 pool (omega arith) (omega arith)
