-- ===== src/Gateway/Route.antt =====
-- route.rs, the table from hosts to backends; and from config.rs the synthetic subdomains.
pub mod Match
use mjolnir.Base.{
  ℕ, Str, Bool, ◌&&◌, Option, none, some, List, [], ◌∷◌, ◌++◌, codes, eq_str, leb, if◌then◌else◌,
  find, len, to_ascii_lowercase, strip_suffix,
}
use mathlib.Core.Option
use mjolnir.Base.Decimal.{decimal}
use mjolnir.Gateway.Config.{SocketAddr, Apex, Route, Alias, LoadedConfig}
use mjolnir.Gateway.Config.Load.{route_at, alias_at}

-- `format!("{}-{}", node, port)`, or the node alone.
abbrev pub with_port : Str → Option ℕ → Str
with_port node none = node
with_port node (some p) = node ++ b'-' ∷ decimal p

unfoldable pub target_subdomain : Alias → Str
target_subdomain a = with_port a.node_z32 a.port

unfoldable pub fallback_target_subdomain : Route → Option Str
fallback_target_subdomain r = Option.map (λ node. with_port node r.fallback_port) r.fallback_node

pub record RouteTable : Type 0 where
  pub apexes : List Apex
  pub routes : List Route
  pub aliases : List Alias

-- `apexes.sort_by(|a, b| b.suffix.len().cmp(&a.suffix.len()))`, which is stable.
unfoldable pub insert_apex : Apex → List Apex → List Apex
insert_apex a [] = a ∷ []
insert_apex a (b ∷ bs) =
    if leb (len b.suffix) (len a.suffix) then a ∷ b ∷ bs else b ∷ insert_apex a bs

unfoldable pub sort_apexes : List Apex → List Apex
sort_apexes [] = []
sort_apexes (a ∷ as') = insert_apex a (sort_apexes as')

unfoldable pub from_config : LoadedConfig → RouteTable
from_config cfg = record {
  apexes = sort_apexes cfg.apexes;
  routes = cfg.routes;
  aliases = cfg.aliases;
}

-- One round of the loop of `match_host`: the subdomain, if the host is the apex or below it.
unfoldable pub subdomain_of : Str → Apex → Option Str
subdomain_of host_lower apex =
    if eq_str host_lower apex.suffix then some [] else strip_suffix (b'.' ∷ apex.suffix) host_lower

abbrev pub found : Apex → Option Str → Option (Apex × Str) → Option (Apex × Str)
found apex (some prefix) later = some (apex, prefix)
found apex none later = later

unfoldable pub match_in : Str → List Apex → Option (Apex × Str)
match_in host_lower [] = none
match_in host_lower (apex ∷ as') =
    found apex (subdomain_of host_lower apex) (match_in host_lower as')

unfoldable pub match_host : RouteTable → Str → Option (Apex × Str)
match_host t host = match_in (to_ascii_lowercase host) t.apexes

unfoldable pub lookup_local : RouteTable → Apex → Str → Option SocketAddr
lookup_local t apex subdomain =
    Option.map (λ r. r.backend)
      (find (route_at apex.suffix (to_ascii_lowercase subdomain)) t.routes)

unfoldable pub lookup_local_fallback : RouteTable → Apex → Str → Option Str
lookup_local_fallback t apex subdomain =
    Option.bind (find (route_at apex.suffix (to_ascii_lowercase subdomain)) t.routes)
      fallback_target_subdomain

unfoldable pub lookup_alias : RouteTable → Apex → Str → Option Str
lookup_alias t apex subdomain =
    Option.map target_subdomain
      (find (alias_at apex.suffix (to_ascii_lowercase subdomain)) t.aliases)
