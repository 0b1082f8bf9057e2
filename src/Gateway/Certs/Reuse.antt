-- ===== src/Gateway/Certs/Reuse.antt =====
-- acme.rs: when the cached certificate is used again, and when the service is asked.
use mjolnir.Base.{
  ℕ, ◌+◌, ◌<◌, true, false, ◌≡◌, refl, sym, ap, Option, none, some, List, [], ◌∷◌, Str, eq_str,
  eq_str→eq, any, all, Bool-cases, In, ◌⊎◌, inl, inr, to_ascii_lowercase, Result, ok, err, arith,
}
use mathlib.Core.Path.{subst}
use mjolnir.Gateway.Certs.{
  AcmeError, AcmeConfig, IssuedCert, StateDir, load_cached, cert_covers_domains, should_issue,
  reuse_or_issue, load_or_issue,
}

-- One of the names is the domain's, but for the case.
abbrev pub IsNamed : List Str → Str → Type 0
IsNamed names d = (n : Str) × (In n names × (to_ascii_lowercase n ≡ to_ascii_lowercase d))

any-IsNamed :
    (names : List Str) (d : Str)
    → any (λ s. eq_str (to_ascii_lowercase s) (to_ascii_lowercase d)) names ≡ true
    → IsNamed names d
any-IsNamed [] d h = absurd (ground arith)
any-IsNamed (n ∷ names) d h =
    elim (Bool-cases (eq_str (to_ascii_lowercase n) (to_ascii_lowercase d))) [
      | inl t ↦ (n, (inl refl, eq_str→eq (to_ascii_lowercase n) (to_ascii_lowercase d) t))
      | inr f ↦ let (m, (i, q)) = any-IsNamed names d (ground (arith, h, f)) in (m, (inr i, q))
    ]

all-IsNamed :
    (names domains : List Str) (d : Str)
    → all (λ e. any (λ s. eq_str (to_ascii_lowercase s) (to_ascii_lowercase e)) names) domains
      ≡ true
    → In d domains
    → IsNamed names d
all-IsNamed names [] d h i = absurd i
all-IsNamed names (e ∷ domains) d h (inl q) =
    subst (IsNamed names) (sym q) (any-IsNamed names e (ground (arith, h)))
all-IsNamed names (e ∷ domains) d h (inr i) = all-IsNamed names domains d (ground (arith, h)) i

-- A cached certificate that lasts beyond the time of renewal and names every domain.
pub record IsReusable (sans : Str → Option (List Str)) (cfg : AcmeConfig) (now : ℕ)
    (cert : IssuedCert) : Type 0 where
  lasts : now + cfg.renew_before < cert.not_after
  names : List Str
  its_names : sans cert.chain_pem ≡ some names
  covers : (d : Str) → In d cfg.domains → IsNamed names d

module _ (sans : Str → Option (List Str)) where
  should_issue-IsReusable :
      (cfg : AcmeConfig) (now : ℕ) (cert : IssuedCert) (names : Option (List Str))
      → sans cert.chain_pem ≡ names
      → should_issue sans (some cert) cfg now ≡ false
      → IsReusable sans cfg now cert
  unfolding should_issue cert_covers_domains
  should_issue-IsReusable cfg now cert none p h = absurd (ground (arith, p, h))
  should_issue-IsReusable cfg now cert (some names) p h = record {
    lasts = ground (arith, h);
    names = names;
    its_names = p;
    covers = λ d i. all-IsNamed names cfg.domains d (ground (arith, p, h)) i;
  }

  reuse_or_issue-IsReusable :
      (cfg : AcmeConfig) (now : ℕ) (issued : Result AcmeError IssuedCert) (cert : IssuedCert)
      (cached : Result AcmeError (Option IssuedCert))
      → reuse_or_issue sans cfg now issued cached ≡ ok cert
      → (((other : Result AcmeError IssuedCert)
            → reuse_or_issue sans cfg now other cached ≡ ok cert)
          × ((cached ≡ ok (some cert)) × IsReusable sans cfg now cert))
        ⊎ (issued ≡ ok cert)
  reuse_or_issue-IsReusable cfg now issued cert (err e) h = absurd (ground arith)
  reuse_or_issue-IsReusable cfg now issued cert (ok none) h = inr h
  reuse_or_issue-IsReusable cfg now issued cert (ok (some c)) h =
      elim (Bool-cases (should_issue sans (some c) cfg now)) [
        | inl t ↦ inr (ground (arith, h, t))
        | inr f ↦
            let q : c ≡ cert = ground (arith, h, f) in
            inl (
              λ other. rw f (ap ok q),
              (
                ap (λ x. ok (some x)) q,
                subst (IsReusable sans cfg now) q
                    (should_issue-IsReusable cfg now c (sans c.chain_pem) refl f),
              ),
            )
      ]

  -- A certificate that is loaded is the cached one, which lasts beyond the time of renewal and names
  -- every domain, and then the service is not asked; or it is the one that the service issued.
  pub load_or_issue-IsReusable :
      (dir : StateDir) (cfg : AcmeConfig) (now : ℕ) (issued : Result AcmeError IssuedCert)
      (cert : IssuedCert)
      → load_or_issue sans dir cfg now issued ≡ ok cert
      → (((other : Result AcmeError IssuedCert) → load_or_issue sans dir cfg now other ≡ ok cert)
          × ((load_cached dir ≡ ok (some cert)) × IsReusable sans cfg now cert))
        ⊎ (issued ≡ ok cert)
  unfolding load_or_issue
  load_or_issue-IsReusable dir cfg now issued cert h =
      reuse_or_issue-IsReusable cfg now issued cert (load_cached dir) h
