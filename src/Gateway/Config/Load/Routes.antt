-- ===== src/Gateway/Config/Load/Routes.antt =====
-- The routes that load, and what a shadowed alias leaves on them.
use mjolnir.Base.{
  ℕ, ◌≡◌, refl, Str, Bool, true, false, not, ◌&&◌, Option, none, some, List, [], ◌∷◌, ◌++◌, ◌⊎◌,
  inl, inr, any, is_empty, to_ascii_lowercase, to_ascii_lowercase_idem, All, All-append, Distinct,
  Distinct-append_one, Bool-cases, Option-cases, arith,
}
use mjolnir.Gateway.Config.{Apex, Route, RouteDecl, AliasDecl, SocketAddr}
use mjolnir.Gateway.Config.Names.{is_ascii_label}
use mjolnir.Gateway.Config.Load.{
  Parsers, has_suffix, route_at, retain_fallback, add_route, add_routes,
}

abbrev pub same_route : Route → Route → Bool
same_route a b = route_at b.apex b.subdomain a

pub record RouteOk (apexes : List Apex) (r : Route) : Type 0 where
  pub declared : any (has_suffix r.apex) apexes ≡ true
  pub named : (r.subdomain ≡ []) ⊎ (is_ascii_label r.subdomain ≡ true)
  pub lowercase : to_ascii_lowercase r.subdomain ≡ r.subdomain

pub record RoutesOk (apexes : List Apex) (routes : List Route) : Type 0 where
  pub each : All (RouteOk apexes) routes
  pub distinct : Distinct same_route routes

is_empty→eq : (s : Str) → is_empty s ≡ true → s ≡ []
is_empty→eq [] h = refl
is_empty→eq (c ∷ s) h = cc

module _ (lib : Parsers) (apexes : List Apex) where
  RoutesOk-append_one :
      (routes : List Route) (apex subdomain : Str) (backend : SocketAddr)
      → RoutesOk apexes routes
      → any (has_suffix apex) apexes ≡ true
      → (not (is_empty subdomain) && not (is_ascii_label subdomain)) ≡ false
      → to_ascii_lowercase subdomain ≡ subdomain
      → any (route_at apex subdomain) routes ≡ false
      → RoutesOk apexes (
          routes
          ++ record {
            apex = apex;
            subdomain = subdomain;
            backend = backend;
            fallback_node = none;
            fallback_port = none;
          }
            ∷ [])
  RoutesOk-append_one routes apex subdomain backend v a n l h =
      let new : Route = record {
        apex = apex;
        subdomain = subdomain;
        backend = backend;
        fallback_node = none;
        fallback_port = none;
      } in
      let fine : RouteOk apexes new = record {
        declared = a;
        named = ground (arith, is_empty→eq subdomain);
        lowercase = l;
      } in
      record {
        each = All-append (RouteOk apexes) routes (new ∷ []) v.each (fine, tt);
        distinct = Distinct-append_one same_route routes new v.distinct h;
      }

  add_route-RoutesOk :
      (routes : List Route) (r : RouteDecl)
      → RoutesOk apexes routes
      → RoutesOk apexes (add_route lib apexes routes r)
  unfolding add_route
  add_route-RoutesOk routes r v = grind (arith, RoutesOk-append_one, to_ascii_lowercase_idem)

  pub add_routes-RoutesOk :
      (routes : List Route) (rs : List RouteDecl)
      → RoutesOk apexes routes
      → RoutesOk apexes (add_routes lib apexes routes rs)
  unfolding add_routes
  add_routes-RoutesOk routes [] v = v
  add_routes-RoutesOk routes (r ∷ rs) v =
      add_routes-RoutesOk (add_route lib apexes routes r) rs (add_route-RoutesOk routes r v)

retain_fallback-cons :
    (apex subdomain : Str) (a : AliasDecl) (r : Route) (rs rs' : List Route)
    → retain_fallback apex subdomain a (r ∷ rs) ≡ some rs'
    → ((route_at apex subdomain r ≡ true)
        × (record r { fallback_node = some a.node; fallback_port = a.port } ∷ rs ≡ rs'))
      ⊎ ((ts : List Route) × (route_at apex subdomain r ≡ false)
          × (retain_fallback apex subdomain a rs ≡ some ts)
          × (r ∷ ts ≡ rs'))
unfolding retain_fallback
retain_fallback-cons apex subdomain a r rs rs' h =
    elim (Option-cases (retain_fallback apex subdomain a rs)) [
      | inl e ↦ ground arith
      | inr (ts, e) ↦ elim (Bool-cases (route_at apex subdomain r)) [
        | inl here ↦ inl (here, ground arith)
        | inr past ↦ inr (ts, past, e, ground arith)
      ]
    ]

-- What does not look at the fallback of a route is kept by `retain_fallback`.
module _ (P : Route → Type 0)
    (keep : (r : Route) (n : Option Str) (p : Option ℕ)
      → P r
      → P (record r { fallback_node = n; fallback_port = p }))
    (apex subdomain : Str) (a : AliasDecl) where
  pub retain_fallback-All :
      (rs rs' : List Route) → All P rs → retain_fallback apex subdomain a rs ≡ some rs' → All P rs'
  retain_fallback-All [] rs' v h = unfold retain_fallback in cc
  retain_fallback-All (r ∷ rs) rs' v h = elim (retain_fallback-cons apex subdomain a r rs rs' h) [
    | inl (here, e) ↦ rw (← e) (keep r (some a.node) a.port v.0, v.1)
    | inr (ts, past, e, same) ↦ rw (← same) (v.0, retain_fallback-All rs ts v.1 e)
  ]

retain_fallback-Distinct :
    (apex subdomain : Str) (a : AliasDecl) (rs rs' : List Route)
    → Distinct same_route rs
    → retain_fallback apex subdomain a rs ≡ some rs'
    → Distinct same_route rs'
retain_fallback-Distinct apex subdomain a [] rs' v h = unfold retain_fallback in cc
retain_fallback-Distinct apex subdomain a (r ∷ rs) rs' v h =
    elim (retain_fallback-cons apex subdomain a r rs rs' h) [
      | inl (here, e) ↦ rw (← e) v
      | inr (ts, past, e, same) ↦ rw (← same) (
        retain_fallback-All (λ t. same_route r t ≡ false) (λ t n p d. d) apex subdomain a rs ts v.0
            e,
        retain_fallback-Distinct apex subdomain a rs ts v.1 e,
      )
    ]

pub retain_fallback-RoutesOk :
    (apexes : List Apex) (apex subdomain : Str) (a : AliasDecl) (rs rs' : List Route)
    → RoutesOk apexes rs
    → retain_fallback apex subdomain a rs ≡ some rs'
    → RoutesOk apexes rs'
retain_fallback-RoutesOk apexes apex subdomain a rs rs' v h = record {
  each =
      retain_fallback-All (RouteOk apexes)
        (λ r n p k. record { declared = k.declared; named = k.named; lowercase = k.lowercase }) apex
        subdomain a rs rs' v.each h;
  distinct = retain_fallback-Distinct apex subdomain a rs rs' v.distinct h;
}

-- The alias is left out exactly when no route has its name.
pub retain_fallback-eq-none :
    (apex subdomain : Str) (a : AliasDecl) (rs : List Route)
    → retain_fallback apex subdomain a rs ≡ none
    → All (λ r. route_at apex subdomain r ≡ false) rs
unfolding retain_fallback
retain_fallback-eq-none apex subdomain a [] h = tt
retain_fallback-eq-none apex subdomain a (r ∷ rs) h =
    elim (Option-cases (retain_fallback apex subdomain a rs)) [
      | inl e ↦ (ground arith, retain_fallback-eq-none apex subdomain a rs e)
      | inr (ts, e) ↦ ground arith
    ]
