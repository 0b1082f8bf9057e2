-- ===== src/Gateway/Config/Load/Apexes.antt =====
-- The apexes that load: names in lower case, fully qualified, each once.
use mjolnir.Base.{
  ◌≡◌, ◌≢◌, Str, Bool, true, false, List, [], ◌∷◌, ◌++◌, Result, ok, err, any, to_ascii_lowercase,
  to_ascii_lowercase_idem, All, All-append, Distinct, Distinct-append_one, >>=-eq-ok, ok-injective,
  arith,
}
use mjolnir.Gateway.Config.{
  Apex, Route, Alias, CertEntry, DomainDecl, ConfigError, invalid, no_apexes, Fallthrough,
}
use mjolnir.Gateway.Config.Names.{is_ascii_fqdn}
use mjolnir.Gateway.Config.Settings.{has_host}
use mjolnir.Gateway.Config.Load.{has_suffix, add_apex, add_apexes, load_apexes, route_at, alias_at}

abbrev pub same_apex : Apex → Apex → Bool
same_apex a b = has_suffix b.suffix a

abbrev pub same_route : Route → Route → Bool
same_route a b = route_at b.apex b.subdomain a

abbrev pub same_alias : Alias → Alias → Bool
same_alias a b = alias_at b.apex b.subdomain a

abbrev pub same_host : CertEntry → CertEntry → Bool
same_host a b = has_host b.host a

pub record ApexOk (a : Apex) : Type 0 where
  pub fqdn : is_ascii_fqdn a.suffix ≡ true
  pub lowercase : to_ascii_lowercase a.suffix ≡ a.suffix

pub record ApexesOk (apexes : List Apex) : Type 0 where
  pub each : All ApexOk apexes
  pub distinct : Distinct same_apex apexes

ApexesOk-append_one :
    (apexes : List Apex) (suffix : Str) (f : Fallthrough)
    → ApexesOk apexes
    → is_ascii_fqdn suffix ≡ true
    → to_ascii_lowercase suffix ≡ suffix
    → any (has_suffix suffix) apexes ≡ false
    → ApexesOk (apexes ++ record { suffix = suffix; fallthrough = f } ∷ [])
ApexesOk-append_one apexes suffix f v q l h =
    let new : Apex = record { suffix = suffix; fallthrough = f } in
    record {
      each = All-append ApexOk apexes (new ∷ []) v.each (record { fqdn = q; lowercase = l }, tt);
      distinct = Distinct-append_one same_apex apexes new v.distinct h;
    }

add_apex-ApexesOk :
    (apexes : List Apex) (d : DomainDecl) (apexes' : List Apex)
    → ApexesOk apexes
    → add_apex apexes d ≡ ok apexes'
    → ApexesOk apexes'
unfolding add_apex
add_apex-ApexesOk apexes d apexes' v h = grind (arith, ApexesOk-append_one, to_ascii_lowercase_idem)

add_apexes-ApexesOk :
    (apexes : List Apex) (ds : List DomainDecl) (apexes' : List Apex)
    → ApexesOk apexes
    → add_apexes apexes ds ≡ ok apexes'
    → ApexesOk apexes'
unfolding add_apexes
add_apexes-ApexesOk apexes [] apexes' v h = rw (← ok-injective h) v
add_apexes-ApexesOk apexes (d ∷ ds) apexes' v h =
    let (mid, first, later) = >>=-eq-ok (add_apex apexes d) _ h in
    add_apexes-ApexesOk mid ds apexes' (add_apex-ApexesOk apexes d mid v first) later

non_empty :
    (apexes : List Apex) (r : List Apex)
    → ◌≡◌ {A = Result ConfigError (List Apex)}
        (elim apexes [ [] ↦ err (invalid no_apexes) | a ∷ rest ↦ ok (a ∷ rest) ])
        (ok r)
    → (apexes ≡ r) × (r ≢ [])
non_empty [] r h = cc
non_empty (a ∷ rest) r h = (ok-injective h, λ e. cc)

pub load_apexes-ApexesOk :
    (ds : List DomainDecl) (apexes : List Apex)
    → load_apexes ds ≡ ok apexes
    → ApexesOk apexes × (apexes ≢ [])
unfolding load_apexes
load_apexes-ApexesOk [] apexes h = cc
load_apexes-ApexesOk (d ∷ ds) apexes h =
    let (mid, first, later) = >>=-eq-ok (add_apexes [] (d ∷ ds)) _ h in
    let (same, full) = non_empty mid apexes later in
    (
      rw (← same) (add_apexes-ApexesOk [] (d ∷ ds) mid (record { each = tt; distinct = tt }) first),
      full,
    )
