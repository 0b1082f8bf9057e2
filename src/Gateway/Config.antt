-- ===== src/Gateway/Config.antt =====
-- config.rs: the configuration as it is written, and as the gateway uses it once it is validated.
-- A socket address is its octets (or IPv6 segments) and its port; a path is its text.
pub mod Dropins
pub mod Names
pub mod Settings
pub mod Load
use mjolnir.Base.{
  ℕ, Str, Bool, not, ◌&&◌, ◌||◌, Option, List, Result, ok, err, codes, eq_str, if◌then◌else◌,
  length, ◌++◌, [],
}
use mjolnir.Base
use mathlib.Core.Option

pub record SocketAddr : Type 0 where
  pub ip : List ℕ
  pub port : ℕ

pub data Fallthrough : Type 0 where
  iroh none parked : Fallthrough

pub record Apex : Type 0 where
  pub suffix : Str
  pub fallthrough : Fallthrough

pub record Route : Type 0 where
  pub apex : Str
  pub subdomain : Str
  pub backend : SocketAddr
  pub fallback_node : Option Str
  pub fallback_port : Option ℕ

pub record Alias : Type 0 where
  pub apex : Str
  pub subdomain : Str
  pub node_z32 : Str
  pub port : Option ℕ

pub record CertEntry : Type 0 where
  pub host : Str
  pub cert_path : Str
  pub key_path : Str

pub record AcmeSettings : Type 0 where
  pub enabled : Bool
  pub email : Str
  pub directory : Str
  pub renew_before_secs : ℕ
  pub cloudflare_api_token_file : Option Str
  pub explicit_domains : Option (List Str)

pub record SitesResolver : Type 0 where
  pub api_url : Str
  pub backend : SocketAddr
  pub sites_root : Str

pub data ConfigSource : Type 0 where
  toml env : ConfigSource

pub record LoadedConfig : Type 0 where
  pub source : ConfigSource
  pub listen : Option SocketAddr
  pub listen_tls : Option SocketAddr
  pub vm_default_port : ℕ
  pub connect_timeout_secs : ℕ
  pub response_timeout_secs : ℕ
  pub pool_ttl_secs : ℕ
  pub pool_max : ℕ
  pub pool_probe_timeout_secs : ℕ
  pub tls_expiry_fail_secs : ℕ
  pub tls_session_cache : ℕ
  pub tls_cert_path : Option Str
  pub tls_key_path : Option Str
  pub acme : AcmeSettings
  pub apexes : List Apex
  pub routes : List Route
  pub aliases : List Alias
  pub extra_certs : List CertEntry
  pub sites_resolver : Option SitesResolver

-- The TOML shape, before validation.
pub record AcmeSection : Type 0 where
  pub enabled : Bool
  pub email : Option Str
  pub directory : Option Str
  pub renew_before_secs : Option ℕ
  pub cloudflare_api_token_file : Option Str
  pub domains : Option (List Str)

pub record TlsSection : Type 0 where
  pub cert : Option Str
  pub key : Option Str

pub record SitesSection : Type 0 where
  pub mjolnir_api : Option Str
  pub mjolnir_backend : Option Str
  pub sites_root : Option Str

pub record DomainDecl : Type 0 where
  pub suffix : Str
  pub fallthrough : Option Str

pub record RouteDecl : Type 0 where
  pub apex : Str
  pub subdomain : Str
  pub backend : Str

pub record AliasDecl : Type 0 where
  pub apex : Str
  pub subdomain : Str
  pub node : Str
  pub port : Option ℕ

pub record CertDecl : Type 0 where
  pub host : Str
  pub cert : Str
  pub key : Str

pub record FileConfig : Type 0 where
  pub listen : Option Str
  pub listen_tls : Option Str
  pub vm_default_port : Option ℕ
  pub connect_timeout_secs : Option ℕ
  pub response_timeout_secs : Option ℕ
  pub pool_ttl_secs : Option ℕ
  pub pool_max : Option ℕ
  pub pool_probe_timeout_secs : Option ℕ
  pub tls_expiry_fail_secs : Option ℕ
  pub tls_session_cache : Option ℕ
  pub acme : Option AcmeSection
  pub tls : Option TlsSection
  pub sites : Option SitesSection
  pub domains : List DomainDecl
  pub routes : List RouteDecl
  pub aliases : List AliasDecl
  pub certs : List CertDecl

-- What each message of `ConfigError::Invalid` reports.
pub data Reason : Type 0 where
  empty_domains wildcard_suffix bad_suffix bad_fallthrough no_apexes acme_email acme_domain
        no_cert_source :
      Reason

pub data ConfigError : Type 0 where
  invalid : Reason → ConfigError
  invalid_addr : Str → ConfigError
