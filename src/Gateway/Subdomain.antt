-- ===== src/Gateway/Subdomain.antt =====
-- main.rs: `parse_z32_subdomain`, the node and port that a subdomain names.
pub mod Targets
use mjolnir.Base.{
  ℕ, Bool, Option, none, some, List, [], ◌∷◌, Str, codes, is_empty, if◌then◌else◌, ◌==◌, Result, ok,
  err,
}
use mjolnir.Base.Decimal.{parse_unsigned}
use mjolnir.Gateway.Classify.{ProxyError, empty_subdomain, invalid_ticket}

pub record SubdomainInfo : Type 0 where
  pub node_id_z32 : Str
  pub port : Option ℕ

-- `rfind`, with the parts before and behind the last occurrence.
unfoldable pub rfind : ℕ → Str → Option (Str × Str)
rfind sep [] = none
rfind sep (c ∷ s) = elim (rfind sep s) [
  | some (a, b) ↦ some (c ∷ a, b)
  | none ↦ if c == sep then some ([], s) else none
]

abbrev whole : Str → SubdomainInfo
whole subdomain = record { node_id_z32 = subdomain; port = none }

abbrev pub with_parsed : Str → Str → Option ℕ → Result ProxyError SubdomainInfo
with_parsed subdomain node_id none = ok (whole subdomain)
with_parsed subdomain node_id (some port) =
    if is_empty node_id
    then err (invalid_ticket (codes "empty node ID"))
    else ok (record { node_id_z32 = node_id; port = some port })

abbrev pub at_dash : Str → Option (Str × Str) → Result ProxyError SubdomainInfo
at_dash subdomain none = ok (whole subdomain)
at_dash subdomain (some (node_id, maybe_port)) =
    with_parsed subdomain node_id (parse_unsigned 65535 maybe_port)

unfoldable pub parse_z32_subdomain : Str → Result ProxyError SubdomainInfo
unfolding rfind
parse_z32_subdomain subdomain =
    if is_empty subdomain then err empty_subdomain else at_dash subdomain (rfind b'-' subdomain)
