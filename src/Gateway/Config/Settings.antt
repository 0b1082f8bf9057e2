-- ===== src/Gateway/Config/Settings.antt =====
-- config.rs: the certificates, the ACME section and the TLS section of `validate_and_normalize`.
use mjolnir.Base.{
  Str, Bool, true, false, not, ◌&&◌, ◌||◌, Option, none, some, List, [], ◌∷◌, ◌++◌, Result, ok, err,
  codes, eq_str, if◌then◌else◌, all, any, is_empty, to_ascii_lowercase, trim, strip_prefix,
}
use mathlib.Core.Option
use mjolnir.Gateway.Config.{
  SocketAddr, CertEntry, AcmeSettings, AcmeSection, TlsSection, CertDecl, ConfigError, invalid,
  acme_email, acme_domain,
}
use mjolnir.Gateway.Config.Names.{is_ascii_fqdn}

-- Certificates.
abbrev pub has_host : Str → CertEntry → Bool
has_host host e = eq_str e.host host

unfoldable pub add_cert : List CertEntry → CertDecl → List CertEntry
add_cert certs c =
    let host = to_ascii_lowercase c.host in
    if not (is_ascii_fqdn host)
    then certs
    else if is_empty (trim c.cert) || is_empty (trim c.key)
    then certs
    else if any (has_host host) certs
    then certs
    else certs ++ record { host = host; cert_path = c.cert; key_path = c.key } ∷ []

unfoldable pub add_certs : List CertEntry → List CertDecl → List CertEntry
add_certs certs [] = certs
add_certs certs (c ∷ cs) = add_certs (add_cert certs c) cs

-- ACME.
abbrev default_acme : AcmeSection
default_acme = record {
  enabled = false;
  email = none;
  directory = none;
  renew_before_secs = none;
  cloudflare_api_token_file = none;
  domains = none;
}

acme_domain_ok : Str → Bool
acme_domain_ok d =
    is_ascii_fqdn (to_ascii_lowercase (Option.get_or (strip_prefix (codes "*.") d) d))

abbrev acme_domains_ok : Option (List Str) → Bool
acme_domains_ok none = true
acme_domains_ok (some ds) = all acme_domain_ok ds

unfoldable pub load_acme : Option AcmeSection → Result ConfigError AcmeSettings
unfolding acme_domain_ok
load_acme section =
    let acme = Option.get_or section default_acme in
    if acme.enabled && is_empty (trim (Option.get_or acme.email []))
    then err (invalid acme_email)
    else if not (acme_domains_ok acme.domains)
    then err (invalid acme_domain)
    else ok (record {
      enabled = acme.enabled;
      email = Option.get_or acme.email [];
      directory =
          Option.get_or acme.directory (codes "https://acme-v02.api.letsencrypt.org/directory");
      renew_before_secs = Option.get_or acme.renew_before_secs 2592000;
      cloudflare_api_token_file = acme.cloudflare_api_token_file;
      explicit_domains = acme.domains;
    })

abbrev pub is_some {ℓ} : {A : Type ℓ} → Option A → Bool
is_some none = false
is_some (some a) = true

-- `listen_tls.is_some() && !enabled && (cert.is_none() || key.is_none())`
abbrev pub lacks_cert_source : Option SocketAddr → AcmeSettings → Option Str → Option Str → Bool
lacks_cert_source listen_tls acme cert key =
    is_some listen_tls && (not acme.enabled && (not (is_some cert) || not (is_some key)))

abbrev pub default_sites_root : Str
default_sites_root = codes "/var/lib/mjolnir/btrfs/@sites/materialized"

abbrev pub tls_cert : Option TlsSection → Option Str
tls_cert none = none
tls_cert (some t) = t.cert

abbrev pub tls_key : Option TlsSection → Option Str
tls_key none = none
tls_key (some t) = t.key

abbrev pub required : {A : Type 0} → ConfigError → Option A → Result ConfigError A
required e none = err e
required e (some a) = ok a
