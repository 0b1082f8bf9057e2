-- ===== src/Gateway/Classify/Choice.antt =====
-- What `classify` answers for every Host, by the routes and aliases of a configuration that loaded.
use mjolnir.Base.{
  ◌≡◌, ◌≢◌, refl, ap, Str, Bool, true, false, Option, none, some, [], ◌∷◌, ◌++◌, eq_str_iff,
  eq_str_refl, all, not, ◌==◌, before-append, is_empty, if◌then◌else◌, to_ascii_lowercase,
  to_ascii_lowercase_idem, before, before-lower_colon, find, In, All, All-In, find-Distinct,
  find-eq-none, arith,
}
use mathlib.Core.Option
use mjolnir.Gateway.Config.{Fallthrough, Apex, Route, Alias, LoadedConfig}
use mjolnir.Gateway.Config.Names.{is_ascii_label}
use mjolnir.Gateway.Config.Load.{Parsers, route_at, alias_at}
use mjolnir.Gateway.Config.Load.Routes.{same_route}
use mjolnir.Gateway.Config.Load.Aliases.{same_alias, AliasOk}
use mjolnir.Gateway.Config.Load.Valid.{IsValid}
use mjolnir.Gateway.Route.{
  RouteTable, from_config, match_host, lookup_local, lookup_local_fallback, lookup_alias,
  target_subdomain, fallback_target_subdomain,
}
use mjolnir.Gateway.Classify.{
  Disposition, local, iroh, parked, reject, empty_subdomain, not_found, host_without_port,
  bare_apex, fall_through, classify_at, classify,
}

is_empty-eq-false : (s : Str) → s ≢ [] → is_empty s ≡ false
is_empty-eq-false [] h = absurd (h refl)
is_empty-eq-false (c ∷ s) h = refl

route_at_same :
    (apex sub : Str) (r y : Route)
    → route_at apex sub r ≡ true
    → route_at apex sub y ≡ true
    → same_route y r ≡ true
route_at_same apex sub r y h k = ground (
  arith,
  eq_str_iff r.apex apex,
  eq_str_iff r.subdomain sub,
  eq_str_iff y.apex apex,
  eq_str_iff y.subdomain sub,
  eq_str_refl apex,
  eq_str_refl sub,
)

alias_at_same :
    (apex sub : Str) (r y : Alias)
    → alias_at apex sub r ≡ true
    → alias_at apex sub y ≡ true
    → same_alias y r ≡ true
alias_at_same apex sub r y h k = ground (
  arith,
  eq_str_iff r.apex apex,
  eq_str_iff r.subdomain sub,
  eq_str_iff y.apex apex,
  eq_str_iff y.subdomain sub,
  eq_str_refl apex,
  eq_str_refl sub,
)

alias_at-eq :
    (apex sub : Str) (al : Alias)
    → alias_at apex sub al ≡ true
    → (al.apex ≡ apex) × (al.subdomain ≡ sub)
alias_at-eq apex sub al h = ground (arith, eq_str_iff al.apex apex, eq_str_iff al.subdomain sub)

label-ne-nil :
    (name sub : Str) → is_ascii_label name ≡ true → name ≡ to_ascii_lowercase sub → sub ≢ []
unfolding is_ascii_label to_ascii_lowercase
label-ne-nil name [] h e n = ground arith
label-ne-nil name (c ∷ sub) h e n = cc

classify-eq-classify_at :
    (t : RouteTable) (host : Str) (a : Apex) (sub : Str)
    → match_host t (host_without_port host) ≡ some (a, sub)
    → classify t host ≡ classify_at t a sub
unfolding classify
classify-eq-classify_at t host a sub h = rw (h, classify)

module _ (t : RouteTable) (a : Apex) (sub : Str) where
  abbrev route_test : Route → Bool
  route_test = route_at a.suffix (to_ascii_lowercase sub)

  abbrev alias_test : Alias → Bool
  alias_test = alias_at a.suffix (to_ascii_lowercase sub)

  classify_at-route :
      (r : Route)
      → find route_test t.routes ≡ some r
      → classify_at t a sub ≡ local a sub r.backend (fallback_target_subdomain r)
  classify_at-route r h =
      let hit : lookup_local t a sub ≡ some r.backend =
        unfold lookup_local in ap (λ (o : Option Route). Option.map (λ q. q.backend) o) h in
      let kept : lookup_local_fallback t a sub ≡ fallback_target_subdomain r =
        unfold lookup_local_fallback Option.bind in
        ap (λ (o : Option Route). Option.bind o fallback_target_subdomain) h in
      unfold classify_at in rw (hit, classify_at, kept)

  classify_at-alias :
      (al : Alias)
      → find route_test t.routes ≡ none
      → find alias_test t.aliases ≡ some al
      → sub ≢ []
      → classify_at t a sub ≡ iroh a (target_subdomain al)
  unfolding classify_at lookup_local lookup_alias
  classify_at-alias al h k n = ground (arith, h, k, is_empty-eq-false sub n)

  classify_at-unbound :
      find route_test t.routes ≡ none
      → find alias_test t.aliases ≡ none
      → classify_at t a sub ≡ (if is_empty sub then bare_apex a else fall_through a sub)
  unfolding classify_at lookup_local lookup_alias
  classify_at-unbound h k = ground (arith, h, k)

-- What is done with a name that nothing is declared for.
pub data FallsTo (a : Apex) (sub : Str) : Disposition → Type 0 where
  parks : a.fallthrough ≡ Fallthrough.parked → FallsTo a sub (parked a sub)
  refuses_bare :
      a.fallthrough ≢ Fallthrough.parked → sub ≡ [] → FallsTo a sub (reject empty_subdomain)
  tunnels : a.fallthrough ≡ Fallthrough.iroh → sub ≢ [] → FallsTo a sub (iroh a sub)
  finds_nothing : a.fallthrough ≡ Fallthrough.none → sub ≢ [] → FallsTo a sub (reject not_found)

falls :
    (a : Apex) (sub : Str) (f : Fallthrough)
    → a.fallthrough ≡ f
    → FallsTo a sub (if is_empty sub then bare_apex a else fall_through a sub)
falls a [] Fallthrough.iroh e = rw e (refuses_bare (λ k. cc) refl)
falls a [] Fallthrough.none e = rw e (refuses_bare (λ k. cc) refl)
falls a [] Fallthrough.parked e = rw e (parks refl)
falls a (c ∷ s) Fallthrough.iroh e = rw e (tunnels refl (λ k. cc))
falls a (c ∷ s) Fallthrough.none e = rw e (finds_nothing refl (λ k. cc))
falls a (c ∷ s) Fallthrough.parked e = rw e (parks refl)

module _ (lib : Parsers) (cfg : LoadedConfig) (host : Str) (a : Apex) (sub : Str) where
  -- In a configuration that loaded, a declared route that a Host names is served by its backend, with its own fallback.
  pub classify-route :
      (r : Route)
      → IsValid lib cfg
      → match_host (from_config cfg) (host_without_port host) ≡ some (a, sub)
      → In r cfg.routes
      → route_at a.suffix (to_ascii_lowercase sub) r ≡ true
      → classify (from_config cfg) host ≡ local a sub r.backend (fallback_target_subdomain r)
  classify-route r v m i h =
      let first =
        find-Distinct same_route (route_test (from_config cfg) a sub) r cfg.routes
          v.names_ok.routes_ok.distinct i h
          (λ y k. route_at_same a.suffix (to_ascii_lowercase sub) r y h k) in
      rw (classify-eq-classify_at (from_config cfg) host a sub m)
        (classify_at-route (from_config cfg) a sub r (unfold from_config in first))

  -- In a configuration that loaded, a declared alias that a Host names is tunnelled to its node; no route takes it.
  pub classify-alias :
      (al : Alias)
      → IsValid lib cfg
      → match_host (from_config cfg) (host_without_port host) ≡ some (a, sub)
      → In al cfg.aliases
      → alias_at a.suffix (to_ascii_lowercase sub) al ≡ true
      → classify (from_config cfg) host ≡ iroh a (target_subdomain al)
  classify-alias al v m i h =
      let first =
        find-Distinct same_alias (alias_test (from_config cfg) a sub) al cfg.aliases
          v.names_ok.distinct i h
          (λ y k. alias_at_same a.suffix (to_ascii_lowercase sub) al y h k) in
      let fine = All-In (AliasOk lib cfg.apexes cfg.routes) al cfg.aliases v.names_ok.each i in
      let (same_apex, same_sub) = alias_at-eq a.suffix (to_ascii_lowercase sub) al h in
      let unshadowed : All (λ r. route_at a.suffix (to_ascii_lowercase sub) r ≡ false) cfg.routes =
        rw (← same_apex, ← same_sub) fine.unshadowed in
      rw (classify-eq-classify_at (from_config cfg) host a sub m) (
        classify_at-alias (from_config cfg) a sub al
          (unfold from_config in
            find-eq-none (route_test (from_config cfg) a sub) cfg.routes unshadowed)
          (unfold from_config in first) (label-ne-nil al.subdomain sub fine.named same_sub))

  -- A Host whose name neither a route nor an alias has is answered as its apex is declared: a parked
  -- apex parks it; another apex refuses its own bare name; and a name under it is tunnelled if the
  -- apex is for nodes, and is not found if the apex has no such names.
  pub classify-unbound :
      match_host (from_config cfg) (host_without_port host) ≡ some (a, sub)
      → All (λ r. route_at a.suffix (to_ascii_lowercase sub) r ≡ false) cfg.routes
      → All (λ al. alias_at a.suffix (to_ascii_lowercase sub) al ≡ false) cfg.aliases
      → FallsTo a sub (classify (from_config cfg) host)
  classify-unbound m r al = rw (classify-eq-classify_at (from_config cfg) host a sub m) (
      rw
        (classify_at-unbound (from_config cfg) a sub
          (unfold from_config in find-eq-none (route_test (from_config cfg) a sub) cfg.routes r)
          (unfold from_config in find-eq-none (alias_test (from_config cfg) a sub) cfg.aliases al))
        (falls a sub a.fallthrough refl))

classify-cong :
    (t : RouteTable) (h k : Str)
    → match_host t (host_without_port h) ≡ match_host t (host_without_port k)
    → classify t h ≡ classify t k
unfolding classify
classify-cong t h k e = rw (e, classify)

-- The port of a Host and the case of its letters play no part.
pub classify-spelling :
    (t : RouteTable) (host port : Str)
    → all (λ c. not (c == b':')) host ≡ true
    → (classify t (host ++ b':' ∷ port) ≡ classify t host)
      × (classify t (to_ascii_lowercase host) ≡ classify t host)
classify-spelling t host port h = (
  classify-cong t _ _
      (unfold host_without_port in ap (match_host t) (before-append b':' host port h)),
  classify-cong t _ _ (
      unfold host_without_port match_host in
      rw (before-lower_colon host, to_ascii_lowercase_idem (before b':' host)) refl),
)
