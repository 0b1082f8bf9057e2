-- ===== src/Gateway/Config/Load/Aliases.antt =====
-- The aliases that load: none has the name of a route, or of another alias.
use mjolnir.Base.{
  ℕ, ◌≡◌, Str, Bool, true, false, Option, some, List, [], ◌∷◌, ◌++◌, inl, inr, any,
  to_ascii_lowercase, to_ascii_lowercase_idem, All, All-append, Distinct, Distinct-append_one,
  Bool-cases, Option-cases, arith,
}
use mjolnir.Gateway.Config.{Apex, Route, Alias, AliasDecl}
use mjolnir.Gateway.Config.Names.{is_ascii_label}
use mjolnir.Gateway.Config.Load.{
  Parsers, has_suffix, route_at, alias_at, retain_fallback, is_valid_node_z32, add_unshadowed,
  add_alias, add_aliases,
}
use mjolnir.Gateway.Config.Load.Routes.{
  RoutesOk, retain_fallback-All, retain_fallback-RoutesOk, retain_fallback-eq-none,
}

abbrev pub same_alias : Alias → Alias → Bool
same_alias a b = alias_at b.apex b.subdomain a

-- No route has the alias's name.
abbrev pub Unshadowed : List Route → Alias → Type 0
Unshadowed routes a = All (λ r. route_at a.apex a.subdomain r ≡ false) routes

module _ (lib : Parsers) (apexes : List Apex) where
  pub record AliasOk (routes : List Route) (a : Alias) : Type 0 where
    pub declared : any (has_suffix a.apex) apexes ≡ true
    pub named : is_ascii_label a.subdomain ≡ true
    pub lowercase : to_ascii_lowercase a.subdomain ≡ a.subdomain
    pub node : is_valid_node_z32 lib a.node_z32 ≡ true
    pub unshadowed : Unshadowed routes a

  pub record NamesOk (routes : List Route) (aliases : List Alias) : Type 0 where
    pub routes_ok : RoutesOk apexes routes
    pub each : All (AliasOk routes) aliases
    pub distinct : Distinct same_alias aliases

  shadow-All :
      (apex subdomain : Str) (a : AliasDecl) (routes routes' : List Route) (aliases : List Alias)
      → retain_fallback apex subdomain a routes ≡ some routes'
      → All (AliasOk routes) aliases
      → All (AliasOk routes') aliases
  shadow-All apex subdomain a routes routes' [] h v = tt
  shadow-All apex subdomain a routes routes' (x ∷ xs) h v = (
    record {
      declared = v.0.declared;
      named = v.0.named;
      lowercase = v.0.lowercase;
      node = v.0.node;
      unshadowed =
          retain_fallback-All (λ r. route_at x.apex x.subdomain r ≡ false) (λ r n p d. d) apex
            subdomain a routes routes' v.0.unshadowed h;
    },
    shadow-All apex subdomain a routes routes' xs h v.1,
  )

  shadow-NamesOk :
      (apex subdomain : Str) (a : AliasDecl) (routes : List Route) (aliases : List Alias)
      (routes' : List Route)
      → NamesOk routes aliases
      → retain_fallback apex subdomain a routes ≡ some routes'
      → NamesOk routes' aliases
  shadow-NamesOk apex subdomain a routes aliases routes' v h = record {
    routes_ok = retain_fallback-RoutesOk apexes apex subdomain a routes routes' v.routes_ok h;
    each = shadow-All apex subdomain a routes routes' aliases h v.each;
    distinct = v.distinct;
  }

  NamesOk-append_one :
      (routes : List Route) (aliases : List Alias) (apex subdomain node : Str) (port : Option ℕ)
      → NamesOk routes aliases
      → any (has_suffix apex) apexes ≡ true
      → is_ascii_label subdomain ≡ true
      → to_ascii_lowercase subdomain ≡ subdomain
      → is_valid_node_z32 lib node ≡ true
      → All (λ r. route_at apex subdomain r ≡ false) routes
      → any (alias_at apex subdomain) aliases ≡ false
      → NamesOk routes (
          aliases
          ++ record { apex = apex; subdomain = subdomain; node_z32 = node; port = port } ∷ [])
  NamesOk-append_one routes aliases apex subdomain node port v d n l k u h =
      let new : Alias = record {
        apex = apex;
        subdomain = subdomain;
        node_z32 = node;
        port = port;
      } in
      let fine : AliasOk routes new = record {
        declared = d;
        named = n;
        lowercase = l;
        node = k;
        unshadowed = u;
      } in
      record {
        routes_ok = v.routes_ok;
        each = All-append (AliasOk routes) aliases (new ∷ []) v.each (fine, tt);
        distinct = Distinct-append_one same_alias aliases new v.distinct h;
      }

  -- The two outcomes for an alias that passes the tests, by whether a route has its name.
  add_unshadowed-NamesOk :
      (routes : List Route) (aliases : List Alias) (apex subdomain : Str) (a : AliasDecl)
      → NamesOk routes aliases
      → any (has_suffix apex) apexes ≡ true
      → is_ascii_label subdomain ≡ true
      → to_ascii_lowercase subdomain ≡ subdomain
      → is_valid_node_z32 lib a.node ≡ true
      → let both =
          add_unshadowed apex subdomain a routes aliases
            (retain_fallback apex subdomain a routes) in
        NamesOk both.0 both.1
  add_unshadowed-NamesOk routes aliases apex subdomain a v d n l k =
      elim (Option-cases (retain_fallback apex subdomain a routes)) [
        | inl e ↦ rw e (
            ground (
              arith,
              NamesOk-append_one routes aliases apex subdomain a.node a.port v d n l k
                  (retain_fallback-eq-none apex subdomain a routes e),
            ))
        | inr (routes', e) ↦ rw e (shadow-NamesOk apex subdomain a routes aliases routes' v e)
      ]

  add_alias-NamesOk :
      (routes : List Route) (aliases : List Alias) (a : AliasDecl)
      → NamesOk routes aliases
      → NamesOk
          (add_alias lib apexes (routes, aliases) a).0
          (add_alias lib apexes (routes, aliases) a).1
  unfolding add_alias
  add_alias-NamesOk routes aliases a v =
      let apex = to_ascii_lowercase a.apex in
      let subdomain = to_ascii_lowercase a.subdomain in
      elim (Bool-cases (any (has_suffix apex) apexes)) [
        | inr d ↦ rw d v
        | inl d ↦ elim (Bool-cases (is_ascii_label subdomain)) [
          | inr n ↦ rw (d, n) v
          | inl n ↦ elim (Bool-cases (is_valid_node_z32 lib a.node)) [
            | inr k ↦ rw (d, n, k) v
            | inl k ↦
                rw (d, n, k)
                  (add_unshadowed-NamesOk routes aliases apex subdomain a v d n
                    (to_ascii_lowercase_idem a.subdomain) k)
          ]
        ]
      ]

  pub add_aliases-NamesOk :
      (routes : List Route) (aliases : List Alias) (as' : List AliasDecl)
      → NamesOk routes aliases
      → NamesOk
          (add_aliases lib apexes (routes, aliases) as').0
          (add_aliases lib apexes (routes, aliases) as').1
  unfolding add_aliases
  add_aliases-NamesOk routes aliases [] v = v
  add_aliases-NamesOk routes aliases (a ∷ as') v =
      let both = add_alias lib apexes (routes, aliases) a in
      add_aliases-NamesOk both.0 both.1 as' (add_alias-NamesOk routes aliases a v)
