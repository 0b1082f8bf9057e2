-- ===== src/Gateway/Config/Dropins/Boundary.antt =====
-- The boundary that drop-ins do not cross.
use mjolnir.Base.{
  All, ◌≡◌, refl, inl, inr, Option, none, some, List, [], ◌∷◌, ◌++◌, Str, In, filter, append_assoc,
  append_nil, arith, ap, sym, ◌∙◌, map, Bool-cases, Option-cases, to_ascii_lowercase, ok, >>=-elim,
  guarded-eq-ok, ok-injective,
}
use mathlib.Core.Option
use mathlib.Core.Path.{subst}
use mjolnir.Gateway.Config.{
  FileConfig, RouteDecl, AliasDecl, Apex, Route, Alias, SocketAddr, LoadedConfig, toml,
}
use mjolnir.Gateway.Config.Load.{
  Parsers, add_route, add_routes, retain_fallback, route_at, add_unshadowed, add_alias, add_aliases,
  parse_optional_socketaddr, load_sites, assemble, validate_and_normalize, load_apexes,
}
use mjolnir.Gateway.Config.Settings.{load_acme, lacks_cert_source, tls_cert, tls_key}
use mjolnir.Gateway.Config.Dropins.{
  DirEntry, sort_files, is_toml, extend, merge_files, merge_dropins,
}

-- A configuration with routes and aliases at its end, and otherwise the same.
abbrev pub extended : FileConfig → List RouteDecl → List AliasDecl → FileConfig
extended base routes aliases = record base {
  routes = base.routes ++ routes;
  aliases = base.aliases ++ aliases;
}

In-All : {A : Type 0} {P : A → Type 0} (xs : List A) → ((x : A) → In x xs → P x) → All P xs
In-All [] f = tt
In-All (x ∷ xs) f = (f x (inl refl), In-All xs λ y i. f y (inr i))

In-append_one : {A : Type 0} (x : A) (xs ys : List A) → In x xs → In x (xs ++ ys)
In-append_one x [] ys i = absurd i
In-append_one x (y ∷ xs) ys (inl e) = inl e
In-append_one x (y ∷ xs) ys (inr i) = inr (In-append_one x xs ys i)

module _ (lib : Parsers) (apexes : List Apex) where
  In-add_route :
      (r : Route) (routes : List Route) (d : RouteDecl)
      → In r routes
      → In r (add_route lib apexes routes d)
  unfolding add_route
  In-add_route r routes d i = grind (arith, In-append_one)

  In-add_routes :
      (r : Route) (routes : List Route) (ds : List RouteDecl)
      → In r routes
      → In r (add_routes lib apexes routes ds)
  unfolding add_routes
  In-add_routes r routes [] i = i
  In-add_routes r routes (d ∷ ds) i =
      In-add_routes r (add_route lib apexes routes d) ds (In-add_route r routes d i)

  add_routes-append :
      (routes : List Route) (ds es : List RouteDecl)
      → add_routes lib apexes routes (ds ++ es)
        ≡ add_routes lib apexes (add_routes lib apexes routes ds) es
  unfolding add_routes
  add_routes-append routes [] es = refl
  add_routes-append routes (d ∷ ds) es = add_routes-append (add_route lib apexes routes d) ds es

module _ (from_toml : Str → Option FileConfig) where
  extend-extended :
      (base : FileConfig) (o : Option FileConfig)
      → (routes : List RouteDecl) × (aliases : List AliasDecl) × (extend from_toml base o
          ≡ extended base routes aliases)
  extend-extended base none = ([], [], cc (append_nil base.routes, append_nil base.aliases))
  extend-extended base (some dropin) = (dropin.routes, dropin.aliases, refl)

  merge_files-extended :
      (base : FileConfig) (es : List DirEntry)
      → (routes : List RouteDecl) × (aliases : List AliasDecl) × (merge_files from_toml base es
          ≡ extended base routes aliases)
  unfolding merge_files
  merge_files-extended base [] = ([], [], cc (append_nil base.routes, append_nil base.aliases))
  merge_files-extended base (e ∷ es) =
      let (r, a, first) = extend-extended base (Option.bind e.text from_toml) in
      let (rs, as', later) = merge_files-extended (extended base r a) es in
      (
        r ++ rs,
        a ++ as',
        rw first (cc (later, append_assoc base.routes r rs, append_assoc base.aliases a as')),
      )

  -- Drop-ins only append routes and aliases: every other setting, the apexes and certificates
  -- among them, is that of the main file, and its own routes and aliases come first.
  pub merge_dropins-extended :
      (base : FileConfig) (dir : Option (List DirEntry))
      → (routes : List RouteDecl) × (aliases : List AliasDecl) × (merge_dropins from_toml base dir
          ≡ extended base routes aliases)
  unfolding merge_dropins
  merge_dropins-extended base none = ([], [], cc (append_nil base.routes, append_nil base.aliases))
  merge_dropins-extended base (some entries) =
      merge_files-extended base (sort_files (filter (λ e. is_toml e.name) entries))

-- What a route is, but for the node that a shadowed alias may leave it.
abbrev pub core : Route → Str × Str × SocketAddr
core r = (r.apex, r.subdomain, r.backend)

map-core_retained :
    (apex sub : Str) (a : AliasDecl) (routes routes' : List Route)
    → retain_fallback apex sub a routes ≡ some routes'
    → map core routes' ≡ map core routes
unfolding retain_fallback Option.map
map-core_retained apex sub a [] routes' h = cc
map-core_retained apex sub a (r ∷ rs) routes' h = elim (Bool-cases (route_at apex sub r)) [
  | inl e ↦
      let q : record r { fallback_node = some a.node; fallback_port = a.port } ∷ rs ≡ routes' =
        ground (arith, h, e) in
      subst (λ x. map core x ≡ map core (r ∷ rs)) q refl
  | inr e ↦ elim (Option-cases (retain_fallback apex sub a rs)) [
    | inl n ↦ absurd (ground (arith, h, e, n))
    | inr (kept, k) ↦
        let q : r ∷ kept ≡ routes' = ground (arith, h, e, k) in
        subst (λ x. map core x ≡ map core (r ∷ rs)) q
          (ap (λ x. core r ∷ x) (map-core_retained apex sub a rs kept k))
  ]
]

map-core_unshadowed :
    (apex sub : Str) (a : AliasDecl) (routes : List Route) (aliases : List Alias)
    (kept : Option (List Route))
    → retain_fallback apex sub a routes ≡ kept
    → map core (add_unshadowed apex sub a routes aliases kept).0 ≡ map core routes
map-core_unshadowed apex sub a routes aliases none e = ground arith
map-core_unshadowed apex sub a routes aliases (some rs) e = map-core_retained apex sub a routes rs e

module _ (lib : Parsers) where
  one_alias :
      (apexes : List Apex) (routes : List Route) (aliases : List Alias) (d : AliasDecl)
      → map core (add_alias lib apexes (routes, aliases) d).0 ≡ map core routes
  unfolding add_alias
  one_alias apexes routes aliases d =
      let apex = to_ascii_lowercase d.apex in
      let sub = to_ascii_lowercase d.subdomain in
      let found =
        map-core_unshadowed apex sub d routes aliases (retain_fallback apex sub d routes) refl in
      ground (arith, found)

  map-core_aliases :
      (apexes : List Apex) (routes : List Route) (aliases : List Alias) (ds : List AliasDecl)
      → map core (add_aliases lib apexes (routes, aliases) ds).0 ≡ map core routes
  unfolding add_aliases
  map-core_aliases apexes routes aliases [] = refl
  map-core_aliases apexes routes aliases (d ∷ ds) =
      let (routes', aliases') = add_alias lib apexes (routes, aliases) d in
      map-core_aliases apexes routes' aliases' ds ∙ one_alias apexes routes aliases d

  -- The routes that a file and its drop-ins load to.
  abbrev loaded_routes : List Apex → FileConfig → List Route
  loaded_routes apexes file =
      (add_aliases lib apexes (add_routes lib apexes [] file.routes, []) file.aliases).0

  -- What is loaded from a file is loaded too with routes and aliases at its end, and the routes are those
  -- of the file, and of the longer one.
  record Loads (base longer : FileConfig) (cfg : LoadedConfig) : Type 0 where
    merged : LoadedConfig
    loads : validate_and_normalize lib longer toml ≡ ok merged
    apexes : List Apex
    routes_are : cfg.routes ≡ loaded_routes apexes base
    merged_are : merged.routes ≡ loaded_routes apexes longer

  extended-Loads :
      (base : FileConfig) (rs : List RouteDecl) (as' : List AliasDecl) (cfg : LoadedConfig)
      → validate_and_normalize lib base toml ≡ ok cfg
      → Loads base (extended base rs as') cfg
  unfolding validate_and_normalize assemble
  extended-Loads base rs as' cfg h = >>=-elim (load_apexes base.domains) _ h λ apexes e₁ h₁.
      >>=-elim (parse_optional_socketaddr lib base.listen) _ h₁ λ listen e₂ h₂.
        >>=-elim (parse_optional_socketaddr lib base.listen_tls) _ h₂ λ listen_tls e₃ h₃.
          >>=-elim (load_acme base.acme) _ h₃ λ acme e₄ h₄.
            let (sourced, h₅) =
              guarded-eq-ok
                (lacks_cert_source listen_tls acme (tls_cert base.tls) (tls_key base.tls)) _ _ h₄ in
            >>=-elim (load_sites lib base.sites) _ h₅ λ sites e₆ settled.
              let longer = extended base rs as' in
              let both =
                add_aliases lib apexes (add_routes lib apexes [] longer.routes, [])
                  longer.aliases in
              let eq : assemble base toml apexes
                    (add_aliases lib apexes (add_routes lib apexes [] base.routes, []) base.aliases)
                    listen listen_tls acme sites
                  ≡ cfg =
                ok-injective settled in
              record {
                merged = assemble longer toml apexes both listen listen_tls acme sites;
                loads = rw (e₁, e₂, e₃, e₄, sourced, e₆) refl;
                apexes = apexes;
                routes_are = sym (ap (λ (c : LoadedConfig). c.routes) eq);
                merged_are = refl;
              }

  In-core :
      (r : Route) (rs ss : List Route)
      → map core rs ≡ map core ss
      → In r rs
      → (s : Route) × In s ss × (core s ≡ core r)
  In-core r [] ss e i = absurd i
  In-core r (x ∷ rs) [] e i = cc
  In-core r (x ∷ rs) (y ∷ ss) e (inl q) = (y, inl refl, cc)
  In-core r (x ∷ rs) (y ∷ ss) e (inr i) =
      let tails : map core rs ≡ map core ss = cc in
      let (s, k, c) = In-core r rs ss tails i in (s, inr k, c)

  -- The routes of the longer file have each route of the file, but for its fallback.
  In-loaded_routes :
      (apexes : List Apex) (base : FileConfig) (rs : List RouteDecl) (as' : List AliasDecl)
      (r : Route)
      → In r (loaded_routes apexes base)
      → (s : Route) × In s (loaded_routes apexes (extended base rs as')) × (core s ≡ core r)
  In-loaded_routes apexes base rs as' r i =
      let own = add_routes lib apexes [] base.routes in
      let longer = add_routes lib apexes own rs in
      let (first, j, e) =
        In-core r (loaded_routes apexes base) own (map-core_aliases apexes own [] base.aliases) i in
      let kept : In first (add_routes lib apexes [] (base.routes ++ rs)) =
        rw (add_routes-append lib apexes [] base.routes rs)
          (In-add_routes lib apexes first own rs j) in
      let (s, k, e') =
        In-core first (add_routes lib apexes [] (base.routes ++ rs))
          (loaded_routes apexes (extended base rs as'))
          (sym (
            map-core_aliases apexes (add_routes lib apexes [] (base.routes ++ rs)) []
              (base.aliases ++ as')))
          kept in
      (s, k, e' ∙ e)

module _ (from_toml : Str → Option FileConfig) where
  -- Whatever the drop-ins are: if the main file loads, it loads with them too, and each route that it loads
  -- to is loaded then as well, at the same apex and subdomain and to the same backend. The node
  -- and port that a route falls back to are left out: a drop-in's alias may set them.
  pub merge_dropins-keeps_routes :
      (lib : Parsers) (base : FileConfig) (dir : Option (List DirEntry)) (cfg : LoadedConfig)
      → validate_and_normalize lib base toml ≡ ok cfg
      → (cfg' : LoadedConfig) × (validate_and_normalize lib (merge_dropins from_toml base dir) toml
          ≡ ok cfg')
        × All (λ (r : Route). (s : Route) × In s cfg'.routes × (core s ≡ core r)) cfg.routes
  merge_dropins-keeps_routes lib base dir cfg h =
      let (rs, as', e) = merge_dropins-extended from_toml base dir in
      let l = extended-Loads lib base rs as' cfg h in
      (
        l.merged,
        rw e l.loads,
        In-All cfg.routes λ r i.
            let j : In r (loaded_routes lib l.apexes base) = subst (λ x. In r x) l.routes_are i in
            let (s, k, c) = In-loaded_routes lib l.apexes base rs as' r j in
            (s, subst (λ x. In s x) (sym l.merged_are) k, c),
      )
