-- ===== src/Gateway/Config/Load/Valid.antt =====
-- What a configuration that loads is sure to satisfy.
use mjolnir.Base.{
  ◌≡◌, ◌≢◌, Str, Bool, true, false, Option, List, [], ◌∷◌, ◌++◌, ok, any, All, All-append, Distinct,
  Distinct-append_one, >>=-elim, ok-injective, guarded-eq-ok, arith,
}
use mathlib.Core.Path.{subst}
use mjolnir.Gateway.Config.{
  SocketAddr, AcmeSettings, SitesResolver, Apex, CertEntry, LoadedConfig, CertDecl, FileConfig,
  ConfigSource,
}
use mjolnir.Gateway.Config.Names.{is_ascii_fqdn}
use mjolnir.Gateway.Config.Settings.{
  has_host, add_cert, add_certs, load_acme, lacks_cert_source, tls_cert, tls_key,
}
use mjolnir.Gateway.Config.Load.{
  Parsers, load_apexes, load_sites, parse_optional_socketaddr, add_routes, add_aliases, assemble,
  validate_and_normalize,
}
use mjolnir.Gateway.Config.Load.Apexes.{ApexesOk, load_apexes-ApexesOk}
use mjolnir.Gateway.Config.Load.Routes.{add_routes-RoutesOk}
use mjolnir.Gateway.Config.Load.Aliases.{NamesOk, add_aliases-NamesOk}

abbrev pub same_host : CertEntry → CertEntry → Bool
same_host a b = has_host b.host a

pub record CertsOk (certs : List CertEntry) : Type 0 where
  pub each : All (λ c. is_ascii_fqdn c.host ≡ true) certs
  pub distinct : Distinct same_host certs

CertsOk-append_one :
    (certs : List CertEntry) (host cert key : Str)
    → CertsOk certs
    → is_ascii_fqdn host ≡ true
    → any (has_host host) certs ≡ false
    → CertsOk (certs ++ record { host = host; cert_path = cert; key_path = key } ∷ [])
CertsOk-append_one certs host cert key v q h =
    let new : CertEntry = record { host = host; cert_path = cert; key_path = key } in
    record {
      each = All-append (λ c. is_ascii_fqdn c.host ≡ true) certs (new ∷ []) v.each (q, tt);
      distinct = Distinct-append_one same_host certs new v.distinct h;
    }

add_cert-CertsOk :
    (certs : List CertEntry) (c : CertDecl) → CertsOk certs → CertsOk (add_cert certs c)
unfolding add_cert
add_cert-CertsOk certs c v = grind (arith, CertsOk-append_one)

add_certs-CertsOk :
    (certs : List CertEntry) (cs : List CertDecl) → CertsOk certs → CertsOk (add_certs certs cs)
unfolding add_certs
add_certs-CertsOk certs [] v = v
add_certs-CertsOk certs (c ∷ cs) v =
    add_certs-CertsOk (add_cert certs c) cs (add_cert-CertsOk certs c v)

pub record IsValid (lib : Parsers) (cfg : LoadedConfig) : Type 0 where
  pub some_apex : cfg.apexes ≢ []
  pub apexes_ok : ApexesOk cfg.apexes
  pub names_ok : NamesOk lib cfg.apexes cfg.routes cfg.aliases
  pub certs_ok : CertsOk cfg.extra_certs
  pub cert_source :
      lacks_cert_source cfg.listen_tls cfg.acme cfg.tls_cert_path cfg.tls_key_path ≡ false

assemble-IsValid :
    (lib : Parsers) (file : FileConfig) (source : ConfigSource) (apexes : List Apex)
    (listen listen_tls : Option SocketAddr) (acme : AcmeSettings) (sites : Option SitesResolver)
    → load_apexes file.domains ≡ ok apexes
    → lacks_cert_source listen_tls acme (tls_cert file.tls) (tls_key file.tls) ≡ false
    → let both = add_aliases lib apexes (add_routes lib apexes [] file.routes, []) file.aliases in
      IsValid lib (assemble file source apexes both listen listen_tls acme sites)
unfolding assemble
assemble-IsValid lib file source apexes listen listen_tls acme sites e c =
    let (good, full) = load_apexes-ApexesOk file.domains apexes e in
    let routes = add_routes lib apexes [] file.routes in
    let start : NamesOk lib apexes routes [] = record {
      routes_ok =
          add_routes-RoutesOk lib apexes [] file.routes (record { each = tt; distinct = tt });
      each = tt;
      distinct = tt;
    } in
    record {
      some_apex = full;
      apexes_ok = good;
      names_ok = add_aliases-NamesOk lib apexes routes [] file.aliases start;
      certs_ok = add_certs-CertsOk [] file.certs (record { each = tt; distinct = tt });
      cert_source = c;
    }

-- A configuration that loads has an apex, and its apexes are distinct fully qualified names in
-- lower case; its routes and aliases stand under declared apexes, have distinct names in lower
-- case, and no alias has the name of a route; its certificates have distinct hosts that are
-- qualified names; a TLS listener has a source of certificates.
pub validate_and_normalize-IsValid :
    (lib : Parsers) (file : FileConfig) (source : ConfigSource) (cfg : LoadedConfig)
    → validate_and_normalize lib file source ≡ ok cfg
    → IsValid lib cfg
unfolding validate_and_normalize
validate_and_normalize-IsValid lib file source cfg h =
    >>=-elim (load_apexes file.domains) _ h λ apexes e₁ h₁.
      >>=-elim (parse_optional_socketaddr lib file.listen) _ h₁ λ listen e₂ h₂.
        >>=-elim (parse_optional_socketaddr lib file.listen_tls) _ h₂ λ listen_tls e₃ h₃.
          >>=-elim (load_acme file.acme) _ h₃ λ acme e₄ h₄.
            let (sourced, h₅) = guarded-eq-ok _ _ _ h₄ in
            >>=-elim (load_sites lib file.sites) _ h₅ λ sites e₆ same.
              subst (IsValid lib) (ok-injective same)
                (assemble-IsValid lib file source apexes listen listen_tls acme sites e₁ sourced)
