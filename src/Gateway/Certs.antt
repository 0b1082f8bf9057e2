-- ===== src/Gateway/Certs.antt =====
-- tls.rs, acme.rs and the TLS state of main.rs: which certificate a handshake gets, when a cached
-- certificate is used again, and the swaps of certificates while the gateway runs. The parsers of
-- certificates, the files and the ACME service are parameters; a time is in seconds.
pub mod Fresh
pub mod Reuse
pub mod Renewal
use mjolnir.Base.{
  ℕ, ◌-◌, Bool, true, false, not, ◌||◌, Option, none, some, List, [], ◌∷◌, ◌++◌, map, Str, codes,
  eq_str, if◌then◌else◌, ltb, leb, all, any, Result, ok, err, strip_prefix, to_ascii_lowercase,
}
use mjolnir.Base.Words.{starts_with_str}
use mjolnir.Gateway.Config.{CertEntry}

-- `later.duration_since(earlier)`
unfoldable pub duration_since : ℕ → ℕ → Option ℕ
duration_since later earlier = if leb earlier later then some (later - earlier) else none

unfoldable pub should_refuse_handshake : ℕ → ℕ → ℕ → Bool
unfolding duration_since
should_refuse_handshake not_after fail_within now = elim (duration_since not_after now) [
  | some remaining ↦ ltb remaining fail_within
  | none ↦ true
]

pub record CertEntryRuntime (Key : Type 0) : Type 0 where
  pub key : Key
  pub not_after : ℕ

pub record ExpiryAwareResolver (Key : Type 0) : Type 0 where
  pub certified_key : Key
  pub fail_within : ℕ
  pub not_after : ℕ

-- The map of the certificates by host is a list of pairs, each host once.
pub record SniCertResolver (Key : Type 0) : Type 0 where
  pub primary : ExpiryAwareResolver Key
  pub extra : List (Str × CertEntryRuntime Key)
  pub fail_within : ℕ

-- The paths and the server's configuration are left out: the resolver is all that changes.
pub record TlsState (Key : Type 0) : Type 0 where
  pub sni : SniCertResolver Key
  pub not_after : ℕ

pub data AcmeError : Type 0 where
  io no_domains : AcmeError
  cf acme rcgen parse timeout task_join : Str → AcmeError

-- The directory of the cache is a parameter of the operations.
pub record AcmeConfig : Type 0 where
  pub directory_url : Str
  pub email : Str
  pub domains : List Str
  pub renew_before : ℕ

pub record IssuedCert : Type 0 where
  pub chain_pem : Str
  pub key_pem : Str
  pub not_after : ℕ
  pub not_before : ℕ
  pub fingerprint_sha256 : Str

pub record CertMetadataFile : Type 0 where
  pub not_after_unix : ℕ
  pub not_before_unix : ℕ
  pub fingerprint_sha256 : Str

-- A file of the state's directory, and what its text is read as.
pub data File (A : Type 0) : Type 0 where
  absent unreadable : File A
  text : A → File A

-- The files of the cache; the metadata is parsed, or fails to be.
pub record StateDir : Type 0 where
  pub chain : File Str
  pub key : File Str
  pub metadata : File (Option CertMetadataFile)

module _ {Key : Type 0} where
  unfoldable pub swap : Key → ℕ → ExpiryAwareResolver Key → ExpiryAwareResolver Key
  swap new new_not_after r = record r { certified_key = new; not_after = new_not_after }

  unfoldable pub resolve_primary : ℕ → ExpiryAwareResolver Key → Option Key
  unfolding should_refuse_handshake
  resolve_primary now r =
      if should_refuse_handshake r.not_after r.fail_within now then none else some r.certified_key

  unfoldable pub get_cert : Str → List (Str × CertEntryRuntime Key) → Option (CertEntryRuntime Key)
  get_cert host [] = none
  get_cert host ((h, entry) ∷ rest) = if eq_str h host then some entry else get_cert host rest

  -- `HashMap::insert`: a host that is there has its certificate replaced.
  unfoldable pub put_cert :
      Str
      → CertEntryRuntime Key
      → List (Str × CertEntryRuntime Key)
      → List (Str × CertEntryRuntime Key)
  put_cert host entry [] = (host, entry) ∷ []
  put_cert host entry ((h, e) ∷ rest) =
      let kept = put_cert host entry rest in
      if eq_str h host then (host, entry) ∷ rest else (h, e) ∷ kept

  abbrev pub entry_key : ℕ → ℕ → Option (CertEntryRuntime Key) → Option Key
  entry_key fail_within now none = none
  entry_key fail_within now (some entry) =
      if should_refuse_handshake entry.not_after fail_within now then none else some entry.key

  unfoldable pub select_extra : List (Str × CertEntryRuntime Key) → Option Str → ℕ → ℕ → Option Key
  unfolding get_cert should_refuse_handshake
  select_extra extra none fail_within now = none
  select_extra extra (some sni) fail_within now =
      entry_key fail_within now (get_cert (to_ascii_lowercase sni) extra)

  -- The certificate of a handshake, by the name it asks for.
  unfoldable pub resolve : Option Str → ℕ → SniCertResolver Key → Option Key
  unfolding select_extra resolve_primary
  resolve server_name now r = elim (select_extra r.extra server_name r.fail_within now) [
    | some key ↦ some key
    | none ↦ resolve_primary now r.primary
  ]

  unfoldable pub swap_primary : Key → ℕ → SniCertResolver Key → SniCertResolver Key
  unfolding swap
  swap_primary key not_after r = record r { primary = swap key not_after r.primary }

  unfoldable pub swap_extra :
      List (Str × CertEntryRuntime Key) → SniCertResolver Key → SniCertResolver Key
  swap_extra extra r = record r { extra = extra }

  unfoldable pub should_renew : TlsState Key → ℕ → ℕ → Bool
  unfolding duration_since
  should_renew state renew_before now = elim (duration_since state.not_after now) [
    | some remaining ↦ ltb remaining renew_before
    | none ↦ true
  ]

  -- The state that a primary certificate starts, without others.
  abbrev pub started : ℕ → ℕ → CertEntryRuntime Key → TlsState Key
  started fail_within not_after entry = record {
    sni = record {
      primary = record {
        certified_key = entry.key;
        fail_within = fail_within;
        not_after = entry.not_after;
      };
      extra = [];
      fail_within = fail_within;
    };
    not_after = not_after;
  }

  abbrev pub with_primary : TlsState Key → ℕ → Result Str (CertEntryRuntime Key) → TlsState Key
  with_primary s not_after (err e) = s
  with_primary s not_after (ok entry) = record s {
    sni = swap_primary entry.key not_after s.sni;
    not_after = not_after;
  }

  abbrev pub reloaded : TlsState Key → Option (CertEntryRuntime Key) → TlsState Key
  reloaded s none = s
  reloaded s (some entry) = record s {
    sni = swap_primary entry.key entry.not_after s.sni;
    not_after = entry.not_after;
  }

-- The disk, and the parsers behind `build_certified_key`, which also gives the certificate's end.
pub record CertFiles (Key : Type 0) : Type 0 where
  pub read : Str → Option Str
  pub build_certified_key : Str → Str → Result Str (CertEntryRuntime Key)

module _ {Key : Type 0} (files : CertFiles Key) where
  -- A certificate and its key from their files.
  unfoldable pub read_pair : Str → Str → Option (CertEntryRuntime Key)
  read_pair cert_path key_path = elim (files.read cert_path) [
    | none ↦ none
    | some chain_pem ↦ elim (files.read key_path) [
      | none ↦ none
      | some key_pem ↦ elim (files.build_certified_key chain_pem key_pem) [
        | err e ↦ none
        | ok entry ↦ some entry
      ]
    ]
  ]

  abbrev pub add_cert :
      Str
      → Option (CertEntryRuntime Key)
      → List (Str × CertEntryRuntime Key)
      → List (Str × CertEntryRuntime Key)
  add_cert host none certs = certs
  add_cert host (some entry) certs = put_cert host entry certs

  -- The loop of `build_extra_cert_map`, with the map that it has made so far.
  unfoldable pub extra_certs_from :
      List CertEntry → List (Str × CertEntryRuntime Key) → List (Str × CertEntryRuntime Key)
  unfolding read_pair put_cert
  extra_certs_from [] certs = certs
  extra_certs_from (e ∷ es) certs =
      extra_certs_from es (add_cert e.host (read_pair e.cert_path e.key_path) certs)

  unfoldable pub build_extra_cert_map : List CertEntry → List (Str × CertEntryRuntime Key)
  unfolding extra_certs_from
  build_extra_cert_map extra_certs = extra_certs_from extra_certs []

  unfoldable pub load : Str → Str → ℕ → Option (TlsState Key)
  unfolding read_pair
  load cert_path key_path fail_within = elim (read_pair cert_path key_path) [
    | none ↦ none
    | some entry ↦ some (started fail_within entry.not_after entry)
  ]

  unfoldable pub from_pem_bytes : Str → Str → ℕ → ℕ → Option (TlsState Key)
  from_pem_bytes chain_pem key_pem fail_within not_after =
      elim (files.build_certified_key chain_pem key_pem) [
        | err e ↦ none
        | ok entry ↦ some (started fail_within not_after entry)
      ]

  -- The static certificate is read again; a failure keeps the one before.
  unfoldable pub reload : Str → Str → TlsState Key → TlsState Key
  unfolding read_pair swap_primary
  reload cert_path key_path s = reloaded s (read_pair cert_path key_path)

  unfoldable pub swap_from_pem : Str → Str → ℕ → TlsState Key → TlsState Key
  unfolding swap_primary
  swap_from_pem chain_pem key_pem new_not_after s =
      with_primary s new_not_after (files.build_certified_key chain_pem key_pem)

  unfoldable pub swap_extra_certs : List CertEntry → TlsState Key → TlsState Key
  unfolding build_extra_cert_map swap_extra
  swap_extra_certs extra_certs s = record s {
    sni = swap_extra (build_extra_cert_map extra_certs) s.sni;
  }

-- `*.foo.bar` is for `foo.bar`.
unfoldable pub strip_wildcard : Str → Str
strip_wildcard domain = elim (strip_prefix (codes "*.") domain) [ none ↦ domain | some rest ↦ rest ]

unfoldable pub challenge_fqdn : Str → Str
unfolding strip_wildcard
challenge_fqdn domain = codes "_acme-challenge." ++ strip_wildcard domain

unfoldable pub reject_http01_wildcards : List Str → Bool
reject_http01_wildcards domains = any (starts_with_str (codes "*.")) domains

abbrev is_absent : {A : Type 0} → File A → Bool
is_absent absent = true
is_absent unreadable = false
is_absent (text a) = false

abbrev read_file : {A : Type 0} → File A → Result AcmeError A
read_file absent = err io
read_file unreadable = err io
read_file (text a) = ok a

abbrev cached_with : Str → Str → Option CertMetadataFile → Result AcmeError (Option IssuedCert)
cached_with chain key none = err (parse (codes "metadata.json"))
cached_with chain key (some meta) = ok (
    some (record {
      chain_pem = chain;
      key_pem = key;
      not_after = meta.not_after_unix;
      not_before = meta.not_before_unix;
      fingerprint_sha256 = meta.fingerprint_sha256;
    }))

unfoldable pub load_cached : StateDir → Result AcmeError (Option IssuedCert)
load_cached dir =
    if is_absent dir.chain || is_absent dir.key || is_absent dir.metadata
    then ok none
    else elim (read_file dir.chain) [
      | err e ↦ err e
      | ok chain ↦ elim (read_file dir.key) [
        | err e ↦ err e
        | ok key ↦ elim (read_file dir.metadata) [
          | err e ↦ err e
          | ok metadata ↦ cached_with chain key metadata
        ]
      ]
    ]

-- `sans` parses the names of the first certificate of a chain.
module _ (sans : Str → Option (List Str)) where
  unfoldable pub cert_covers_domains : Str → List Str → Bool
  cert_covers_domains chain_pem domains = elim (sans chain_pem) [
    | none ↦ false
    | some names ↦
        all (λ d. any (λ s. eq_str (to_ascii_lowercase s) (to_ascii_lowercase d)) names) domains
  ]

  abbrev remaining_at : IssuedCert → ℕ → ℕ
  remaining_at cached now = cached.not_after - now

  unfoldable pub should_issue : Option IssuedCert → AcmeConfig → ℕ → Bool
  unfolding cert_covers_domains
  should_issue none cfg now = true
  should_issue (some cached) cfg now =
      leb (remaining_at cached now) cfg.renew_before
      || not (cert_covers_domains cached.chain_pem cfg.domains)

  abbrev pub reuse_or_issue :
      AcmeConfig
      → ℕ
      → Result AcmeError IssuedCert
      → Result AcmeError (Option IssuedCert)
      → Result AcmeError IssuedCert
  reuse_or_issue cfg now issued (err e) = err e
  reuse_or_issue cfg now issued (ok none) = issued
  reuse_or_issue cfg now issued (ok (some cached)) =
      if not (should_issue (some cached) cfg now) then ok cached else issued

  -- `issued` is what the ACME service comes to where it is asked.
  unfoldable pub load_or_issue :
      StateDir → AcmeConfig → ℕ → Result AcmeError IssuedCert → Result AcmeError IssuedCert
  unfolding load_cached should_issue
  load_or_issue dir cfg now issued = reuse_or_issue cfg now issued (load_cached dir)

  module _ {Key : Type 0} (files : CertFiles Key) where
    abbrev pub with_issued : TlsState Key → Result AcmeError IssuedCert → TlsState Key
    with_issued s (err e) = s
    with_issued s (ok cert) = swap_from_pem files cert.chain_pem cert.key_pem cert.not_after s

    -- One tick of `renewal_loop`.
    unfoldable pub renewal_tick :
        StateDir → AcmeConfig → ℕ → Result AcmeError IssuedCert → TlsState Key → TlsState Key
    unfolding should_renew load_or_issue swap_from_pem
    renewal_tick dir cfg now issued s =
        if should_renew s cfg.renew_before now
        then with_issued s (load_or_issue dir cfg now issued)
        else s
