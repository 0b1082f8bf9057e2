-- ===== src/Gateway/Certs/Renewal.antt =====
-- main.rs: the TLS state while the gateway runs, and what makes it look for a new certificate.
use mjolnir.Base.{ℕ, ◌≡◌, Option, List, [], ◌∷◌, Str, Result}
use mjolnir.Gateway.Config.{CertEntry}
use mjolnir.Gateway.Certs.{
  TlsState, AcmeError, AcmeConfig, IssuedCert, StateDir, CertFiles, swap_extra_certs, with_issued,
  load_or_issue, renewal_tick,
}

-- What happens to a gateway that has its certificate from the ACME service, with what the disk and the
-- service answer then: the certificates by host are loaded again, or a certificate is loaded or
-- issued again, both by a signal; or the renewal ticks.
pub data Event (Key : Type 0) : Type 0 where
  hosts : CertFiles Key → List CertEntry → Event Key
  reissues : CertFiles Key → StateDir → AcmeConfig → ℕ → Result AcmeError IssuedCert → Event Key
  ticks : CertFiles Key → StateDir → AcmeConfig → ℕ → Result AcmeError IssuedCert → Event Key

module _ (sans : Str → Option (List Str)) {Key : Type 0} where
  unfoldable pub step : Event Key → TlsState Key → TlsState Key
  unfolding swap_extra_certs renewal_tick load_or_issue
  step (hosts files certs) s = swap_extra_certs files certs s
  step (reissues files dir cfg now issued) s =
      with_issued sans files s (load_or_issue sans dir cfg now issued)
  step (ticks files dir cfg now issued) s = renewal_tick sans files dir cfg now issued s

  unfoldable pub run : List (Event Key) → TlsState Key → TlsState Key
  unfolding step
  run [] s = s
  run (e ∷ es) s = run es (step e s)

  -- The renewal watches the certificate that handshakes get, and the time of refusal stays.
  record IsWatched (fail_within : ℕ) (s : TlsState Key) : Type 0 where
    same_end : s.not_after ≡ s.sni.primary.not_after
    same_limit : s.sni.primary.fail_within ≡ fail_within
