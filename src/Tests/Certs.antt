-- ===== src/Tests/Certs.antt =====
-- The theorems on certificates at concrete inputs.
use mjolnir.Base.{
  ℕ, ◌≡◌, refl, some, Option, List, [], ◌∷◌, Str, codes, ◌⊎◌, Result, ok, err, to_ascii_lowercase,
}
use mjolnir.Gateway.Config.{CertEntry}
use mjolnir.Gateway.Certs.{
  CertEntryRuntime, AcmeError, no_domains, AcmeConfig, IssuedCert, text, StateDir, select_extra,
  resolve, started, CertFiles, swap_extra_certs, load_cached, should_issue, load_or_issue,
}
use mjolnir.Gateway.Certs.Fresh.{IsServed, IsPrimary, resolve-swap_extra_certs}
use mjolnir.Gateway.Certs.Reuse.{IsReusable, load_or_issue-IsReusable}
use mjolnir.Gateway.Certs.Renewal.{Event, hosts, ticks}

abbrev files : CertFiles ℕ
files = record {
  read = λ path. some path;
  build_certified_key = λ chain_pem key_pem. ok (record { key = 7; not_after = 100 });
}

abbrev hosted : List CertEntry
hosted = record { host = codes "a.b"; cert_path = codes "c"; key_path = codes "k" } ∷ []

abbrev primary : CertEntryRuntime ℕ
primary = record { key = 3; not_after = 50 }

resolve-swap_extra_certs_example :
    IsServed files hosted (started 5 50 primary) (codes "A.b") 10 7
    ⊎ IsPrimary files (started 5 50 primary) 10 7
unfolding resolve select_extra swap_extra_certs to_ascii_lowercase
resolve-swap_extra_certs_example =
    resolve-swap_extra_certs files hosted (started 5 50 primary) (codes "A.b") 10 7 refl

abbrev cfg : AcmeConfig
cfg = record {
  directory_url = codes "d";
  email = codes "e";
  domains = codes "A.b" ∷ [];
  renew_before = 10;
}

abbrev issued : IssuedCert
issued = record {
  chain_pem = codes "c";
  key_pem = codes "k";
  not_after = 100;
  not_before = 1;
  fingerprint_sha256 = codes "f";
}

abbrev dir : StateDir
dir = record {
  chain = text (codes "c");
  key = text (codes "k");
  metadata =
      text (
        some
          (record { not_after_unix = 100; not_before_unix = 1; fingerprint_sha256 = codes "f" }));
}

abbrev names_of : Str → Option (List Str)
names_of chain = some (codes "a.B" ∷ [])

load_or_issue-IsReusable_example :
    (((other : Result AcmeError IssuedCert) → load_or_issue names_of dir cfg 5 other ≡ ok issued)
      × ((load_cached dir ≡ ok (some issued)) × IsReusable names_of cfg 5 issued))
    ⊎ (err no_domains ≡ ok issued)
unfolding load_or_issue load_cached should_issue to_ascii_lowercase
load_or_issue-IsReusable_example =
    load_or_issue-IsReusable names_of dir cfg 5 (err no_domains) issued refl

abbrev events : List (Event ℕ)
events = ticks files dir cfg 95 (err no_domains) ∷ hosts files [] ∷ []
