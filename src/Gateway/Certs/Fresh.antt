-- ===== src/Gateway/Certs/Fresh.antt =====
-- tls.rs: the certificate that a handshake gets is a configured one and has time left.
use mjolnir.Base.{
  ℕ, ◌+◌, ◌≤◌, false, ◌≡◌, refl, ap, ◌∙◌, Option, none, some, List, [], ◌∷◌, Str, eq_str, eq_str→eq,
  Bool-cases, In, ◌⊎◌, inl, inr, to_ascii_lowercase, Option-cases, arith,
}
use mjolnir.Gateway.Config.{CertEntry}
use mjolnir.Gateway.Certs.{
  duration_since, should_refuse_handshake, CertEntryRuntime, TlsState, resolve_primary, get_cert,
  put_cert, entry_key, select_extra, resolve, swap_extra, CertFiles, read_pair, add_cert,
  extra_certs_from, build_extra_cert_map, swap_extra_certs,
}

should_refuse_handshake-fresh :
    (not_after fail_within now : ℕ)
    → should_refuse_handshake not_after fail_within now ≡ false
    → now + fail_within ≤ not_after
unfolding should_refuse_handshake duration_since
should_refuse_handshake-fresh not_after fail_within now h = ground arith

-- A certificate of the host that was asked for, with time left.
record IsOfHost {Key : Type 0} (extra : List (Str × CertEntryRuntime Key)) (sni : Str)
    (fail_within now : ℕ) (k : Key) : Type 0 where
  entry : CertEntryRuntime Key
  got : get_cert (to_ascii_lowercase sni) extra ≡ some entry
  its_key : k ≡ entry.key
  in_time : now + fail_within ≤ entry.not_after

module _ {Key : Type 0} where
  entry_key-IsOfHost :
      (extra : List (Str × CertEntryRuntime Key)) (sni : Str) (fail_within now : ℕ) (k : Key)
      (e : Option (CertEntryRuntime Key))
      → get_cert (to_ascii_lowercase sni) extra ≡ e
      → entry_key fail_within now e ≡ some k
      → IsOfHost extra sni fail_within now k
  entry_key-IsOfHost extra sni fail_within now k none g h = absurd (ground arith)
  entry_key-IsOfHost extra sni fail_within now k (some entry) g h =
      elim (Bool-cases (should_refuse_handshake entry.not_after fail_within now)) [
        | inl t ↦ absurd (ground (arith, t, h))
        | inr f ↦ record {
          entry = entry;
          got = g;
          its_key = ground (arith, f, h);
          in_time = should_refuse_handshake-fresh entry.not_after fail_within now f;
        }
      ]

  -- What a map got by a run of insertions holds.
  get_cert-put_cert :
      (host h : Str) (entry e : CertEntryRuntime Key) (certs : List (Str × CertEntryRuntime Key))
      → get_cert host (put_cert h e certs) ≡ some entry
      → ((h ≡ host) × (e ≡ entry)) ⊎ (get_cert host certs ≡ some entry)
  unfolding get_cert put_cert
  get_cert-put_cert host h entry e [] g = elim (Bool-cases (eq_str h host)) [
    | inl same ↦ inl (eq_str→eq h host same, ground (arith, g, same))
    | inr other ↦ absurd (ground (arith, g, other))
  ]
  get_cert-put_cert host h entry e ((c, d) ∷ rest) g = elim (Bool-cases (eq_str c h)) [
    | inl t ↦
        let q : eq_str c host ≡ eq_str h host = ap (λ x. eq_str x host) (eq_str→eq c h t) in
        elim (Bool-cases (eq_str h host)) [
          | inl same ↦ inl (eq_str→eq h host same, ground (arith, g, t, same))
          | inr other ↦ inr (ground (arith, g, t, other, q))
        ]
    | inr f ↦ elim (Bool-cases (eq_str c host)) [
      | inl u ↦ inr (ground (arith, g, f, u))
      | inr u ↦ elim (get_cert-put_cert host h entry e rest (ground (arith, g, f, u))) [
        | inl x ↦ inl x
        | inr x ↦ inr (ground (arith, x, u))
      ]
    ]
  ]

-- A certificate that one of the entries names, and that its files hold.
pub record IsConfigured {Key : Type 0} (files : CertFiles Key) (certs : List CertEntry) (host : Str)
    (entry : CertEntryRuntime Key) : Type 0 where
  declared : CertEntry
  listed : In declared certs
  for_host : declared.host ≡ host
  its_files : read_pair files declared.cert_path declared.key_path ≡ some entry

module _ {Key : Type 0} (files : CertFiles Key) where
  later_entry :
      (c : CertEntry) (certs : List CertEntry) (host : Str) (entry : CertEntryRuntime Key)
      → IsConfigured files certs host entry
      → IsConfigured files (c ∷ certs) host entry
  later_entry c certs host entry i = record {
    declared = i.declared;
    listed = inr i.listed;
    for_host = i.for_host;
    its_files = i.its_files;
  }

  added :
      (c : CertEntry) (host : Str) (entry : CertEntryRuntime Key)
      (certs : List (Str × CertEntryRuntime Key)) (r : Option (CertEntryRuntime Key))
      → read_pair files c.cert_path c.key_path ≡ r
      → get_cert host (add_cert files c.host r certs) ≡ some entry
      → ((c.host ≡ host) × (read_pair files c.cert_path c.key_path ≡ some entry))
        ⊎ (get_cert host certs ≡ some entry)
  added c host entry certs none p g = inr g
  added c host entry certs (some e) p g = elim (get_cert-put_cert host c.host entry e certs g) [
    | inl (same, q) ↦ inl (same, p ∙ ap some q)
    | inr x ↦ inr x
  ]

  extra_certs_from-IsConfigured :
      (es : List CertEntry) (certs : List (Str × CertEntryRuntime Key)) (host : Str)
      (entry : CertEntryRuntime Key)
      → get_cert host (extra_certs_from files es certs) ≡ some entry
      → IsConfigured files es host entry ⊎ (get_cert host certs ≡ some entry)
  unfolding extra_certs_from
  extra_certs_from-IsConfigured [] certs host entry g = inr g
  extra_certs_from-IsConfigured (c ∷ es) certs host entry g =
      let r = read_pair files c.cert_path c.key_path in
      elim (extra_certs_from-IsConfigured es (add_cert files c.host r certs) host entry g) [
        | inl i ↦ inl (later_entry c es host entry i)
        | inr h ↦ elim (added c host entry certs r refl h) [
          | inl (same, its) ↦
              inl (record { declared = c; listed = inl refl; for_host = same; its_files = its })
          | inr x ↦ inr x
        ]
      ]

  -- What a handshake gets after the certificates by host were loaded: one of those, of the very host
  -- it asks for, or the primary one; in either case with time left.
  pub record IsServed (certs : List CertEntry) (s : TlsState Key) (sni : Str) (now : ℕ) (k : Key)
      : Type 0 where
    entry : CertEntryRuntime Key
    configured : IsConfigured files certs (to_ascii_lowercase sni) entry
    its_key : k ≡ entry.key
    in_time : now + s.sni.fail_within ≤ entry.not_after

  abbrev pub IsPrimary : TlsState Key → ℕ → Key → Type 0
  IsPrimary s now k =
      (k ≡ s.sni.primary.certified_key)
      × (now + s.sni.primary.fail_within ≤ s.sni.primary.not_after)

  named :
      (certs : List CertEntry) (s : TlsState Key) (sni : Str) (now : ℕ) (k : Key)
      → IsOfHost (build_extra_cert_map files certs) sni s.sni.fail_within now k
      → IsServed certs s sni now k
  unfolding build_extra_cert_map
  named certs s sni now k i =
      elim (extra_certs_from-IsConfigured certs [] (to_ascii_lowercase sni) i.entry i.got) [
        | inl c ↦ record {
          entry = i.entry;
          configured = c;
          its_key = i.its_key;
          in_time = i.in_time;
        }
        | inr x ↦ absurd (unfold get_cert in ground (arith, x))
      ]

  primary :
      (s : TlsState Key) (now : ℕ) (k : Key)
      → resolve_primary now s.sni.primary ≡ some k
      → IsPrimary s now k
  unfolding resolve_primary
  primary s now k h =
      elim (Bool-cases
        (should_refuse_handshake s.sni.primary.not_after s.sni.primary.fail_within now)) [
          | inl t ↦ absurd (ground (arith, t, h))
          | inr f ↦ (
            ground (arith, f, h),
            should_refuse_handshake-fresh s.sni.primary.not_after s.sni.primary.fail_within now f,
          )
        ]

  -- After the certificates by host are loaded, a handshake that gets a certificate gets one that an
  -- entry declares for the very host it asks for, read from that entry's files, or the primary one;
  -- and the one it gets does not end within the time that refuses handshakes.
  pub resolve-swap_extra_certs :
      (certs : List CertEntry) (s : TlsState Key) (sni : Str) (now : ℕ) (k : Key)
      → resolve (some sni) now (swap_extra_certs files certs s).sni ≡ some k
      → IsServed certs s sni now k ⊎ IsPrimary s now k
  unfolding resolve select_extra swap_extra_certs swap_extra
  resolve-swap_extra_certs certs s sni now k h =
      let extra = build_extra_cert_map files certs in
      let e = get_cert (to_ascii_lowercase sni) extra in
      elim (Option-cases (entry_key s.sni.fail_within now e)) [
        | inl n ↦ inr (primary s now k (ground (arith, n, h)))
        | inr (key, q) ↦ inl (
            named certs s sni now k
              (entry_key-IsOfHost extra sni s.sni.fail_within now k e refl (ground (arith, q, h))))
      ]
