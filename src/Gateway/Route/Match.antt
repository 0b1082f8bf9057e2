-- ===== src/Gateway/Route/Match.antt =====
-- The longest apex wins, whatever the order in which the apexes are declared.
use mjolnir.Base.{
  ℕ, ◌≤◌, ◌≡◌, ◌↔◌, sym, ◌∙◌, Str, none, some, List, [], ◌∷◌, ◌++◌, ◌⊎◌, inl, inr, eq_str,
  eq_str_iff, leb, len, to_ascii_lowercase, strip_suffix_sound, strip_suffix-append, In, All,
  All-In, Bool-cases, Option-cases, dotted-ne, arith,
}
use native.Mathlib.Nat.{le_trans, le_refl}
use mjolnir.Gateway.Config.{Apex, LoadedConfig}
use mjolnir.Gateway.Route.{
  insert_apex, sort_apexes, from_config, subdomain_of, match_in, match_host,
}

-- The host is the apex itself, or the subdomain, a dot and the apex.
abbrev pub IsUnder : Str → Apex → Str → Type 0
IsUnder host a sub = ((host ≡ a.suffix) × (sub ≡ [])) ⊎ (host ≡ sub ++ b'.' ∷ a.suffix)

pub subdomain_of_sound :
    (host : Str) (a : Apex) (sub : Str) → subdomain_of host a ≡ some sub → IsUnder host a sub
unfolding subdomain_of
subdomain_of_sound host a sub h = elim (Bool-cases (eq_str host a.suffix)) [
  | inl e ↦ inl ((eq_str_iff host a.suffix).0 e, ground arith)
  | inr e ↦ inr (strip_suffix_sound (b'.' ∷ a.suffix) host sub (ground arith))
]

pub subdomain_of_complete :
    (host : Str) (a : Apex) (sub : Str) → IsUnder host a sub → subdomain_of host a ≡ some sub
unfolding subdomain_of
subdomain_of_complete host a sub (inl (e, n)) = ground (arith, eq_str_iff host a.suffix)
subdomain_of_complete host a sub (inr e) = elim (Bool-cases (eq_str host a.suffix)) [
  | inl same ↦ absurd (dotted-ne sub a.suffix (sym e ∙ (eq_str_iff host a.suffix).0 same))
  | inr other ↦ rw (other, e) (strip_suffix-append sub (b'.' ∷ a.suffix))
]

abbrev pub Descending : List Apex → Type 0
Descending [] = Unit
Descending (a ∷ as') = All (λ b. len b.suffix ≤ len a.suffix) as' × Descending as'

All-insert_apex :
    (P : Apex → Type 0) (a : Apex) (l : List Apex) → P a → All P l → All P (insert_apex a l)
unfolding insert_apex
All-insert_apex P a [] p h = (p, tt)
All-insert_apex P a (b ∷ bs) p h = elim (Bool-cases (leb (len b.suffix) (len a.suffix))) [
  | inl e ↦ rw e (p, h)
  | inr e ↦ rw e (h.0, All-insert_apex P a bs p h.1)
]

All-shorter :
    (n m : ℕ) (l : List Apex)
    → n ≤ m
    → All (λ b. len b.suffix ≤ n) l
    → All (λ b. len b.suffix ≤ m) l
All-shorter n m [] h v = tt
All-shorter n m (b ∷ bs) h v = (le_trans v.0 h, All-shorter n m bs h v.1)

insert_apex-Descending : (a : Apex) (l : List Apex) → Descending l → Descending (insert_apex a l)
unfolding insert_apex
insert_apex-Descending a [] d = (tt, tt)
insert_apex-Descending a (b ∷ bs) d = elim (Bool-cases (leb (len b.suffix) (len a.suffix))) [
  | inl e ↦
      let h : len b.suffix ≤ len a.suffix = ground arith in
      rw e ((h, All-shorter (len b.suffix) (len a.suffix) bs h d.0), d)
  | inr e ↦
      let h : len a.suffix ≤ len b.suffix = ground arith in
      rw e (
        All-insert_apex (λ c. len c.suffix ≤ len b.suffix) a bs h d.0,
        insert_apex-Descending a bs d.1,
      )
]

sort_apexes-Descending : (l : List Apex) → Descending (sort_apexes l)
unfolding sort_apexes
sort_apexes-Descending [] = tt
sort_apexes-Descending (a ∷ as') =
    insert_apex-Descending a (sort_apexes as') (sort_apexes-Descending as')

In-insert_apex : (x a : Apex) (l : List Apex) → In x (insert_apex a l) ↔ In x (a ∷ l)
unfolding insert_apex
In-insert_apex x a [] = (λ h. h, λ h. h)
In-insert_apex x a (b ∷ bs) = ground (arith, In-insert_apex x a bs)

pub In-sort_apexes : (x : Apex) (l : List Apex) → In x (sort_apexes l) ↔ In x l
unfolding sort_apexes
In-sort_apexes x [] = (λ h. h, λ h. h)
In-sort_apexes x (a ∷ as') =
    ground (arith, In-insert_apex x a (sort_apexes as'), In-sort_apexes x as')

-- What `match_in` finds in a list whose longest apexes come first.
match_in_longest :
    (host : Str) (l : List Apex) (a : Apex) (sub : Str)
    → Descending l
    → match_in host l ≡ some (a, sub)
    → In a l
      × IsUnder host a sub
      × ((b : Apex) (s : Str) → In b l → IsUnder host b s → len b.suffix ≤ len a.suffix)
unfolding match_in
match_in_longest host [] a sub d h = cc
match_in_longest host (c ∷ cs) a sub d h = elim (Option-cases (subdomain_of host c)) [
  | inr (s', e) ↦
      let here : c ≡ a = ground arith in
      let there : s' ≡ sub = ground arith in
      (
        inl (sym here),
        rw (← here, ← there) (subdomain_of_sound host c s' e),
        λ b s i u.
            rw (← here) (
              All-In (λ x. len x.suffix ≤ len c.suffix) b (c ∷ cs) (le_refl (len c.suffix), d.0) i),
      )
  | inl e ↦
      let (i, u, longest) = match_in_longest host cs a sub d.1 (ground arith) in
      (
        inr i,
        u,
        λ b s j v. elim j [
          | inl same ↦ cc (e, same, subdomain_of_complete host b s v)
          | inr k ↦ longest b s k v
        ],
      )
]

match_in_none :
    (host : Str) (l : List Apex)
    → match_in host l ≡ none
    → (b : Apex) (s : Str) → In b l
    → ¬ IsUnder host b s
unfolding match_in
match_in_none host [] h b s i u = i
match_in_none host (c ∷ cs) h b s (inl same) u =
    let hit : subdomain_of host c ≡ some s = rw (← same) (subdomain_of_complete host b s u) in
    ground arith
match_in_none host (c ∷ cs) h b s (inr i) u = elim (Option-cases (subdomain_of host c)) [
  | inl e ↦ match_in_none host cs (ground arith) b s i u
  | inr (s', e) ↦ ground arith
]

-- A host is matched with an apex that it is under, in any case of letters, and of all declared
-- apexes that it is under, with one of the longest.
pub match_host-longest :
    (cfg : LoadedConfig) (host : Str) (a : Apex) (sub : Str)
    → match_host (from_config cfg) host ≡ some (a, sub)
    → In a cfg.apexes
      × IsUnder (to_ascii_lowercase host) a sub
      × ((b : Apex) (s : Str)
          → In b cfg.apexes
          → IsUnder (to_ascii_lowercase host) b s
          → len b.suffix ≤ len a.suffix)
unfolding match_host from_config
match_host-longest cfg host a sub h =
    let (i, u, longest) =
      match_in_longest (to_ascii_lowercase host) (sort_apexes cfg.apexes) a sub
        (sort_apexes-Descending cfg.apexes) h in
    (
      (In-sort_apexes a cfg.apexes).0 i,
      u,
      λ b s j v. longest b s ((In-sort_apexes b cfg.apexes).1 j) v,
    )

-- A host is matched with no apex exactly when it is under none that is declared.
pub match_host-eq-none_iff :
    (cfg : LoadedConfig) (host : Str)
    → (match_host (from_config cfg) host ≡ none)
      ↔ ((b : Apex) (s : Str) → In b cfg.apexes → ¬ IsUnder (to_ascii_lowercase host) b s)
unfolding match_host from_config
match_host-eq-none_iff cfg host = (
  λ h b s i.
      match_in_none (to_ascii_lowercase host) (sort_apexes cfg.apexes) h b s
        ((In-sort_apexes b cfg.apexes).1 i),
  λ none_fits. elim (Option-cases (match_in (to_ascii_lowercase host) (sort_apexes cfg.apexes))) [
    | inl e ↦ e
    | inr ((a, sub), e) ↦
        let (i, u, _) =
          match_in_longest (to_ascii_lowercase host) (sort_apexes cfg.apexes) a sub
            (sort_apexes-Descending cfg.apexes) e in
        absurd (none_fits a sub ((In-sort_apexes a cfg.apexes).0 i) u)
  ],
)
