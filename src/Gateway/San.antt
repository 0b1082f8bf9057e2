-- ===== src/Gateway/San.antt =====
-- config.rs: `derive_san_list`, the names that the certificate of the gateway has to carry.
pub mod Members
pub mod Exact
use mjolnir.Base.{
  ℕ, ◌≡◌, ◌≢◌, refl, Str, Bool, true, false, Option, none, some, List, [], ◌∷◌, ◌++◌, ◌⊎◌, inl, inr,
  codes, eq_str, eq_str_iff, eq_str_refl, if◌then◌else◌, any, filter, In, All, Distinct,
  Distinct-append_one, Bool-cases, arith,
}
use mjolnir.Gateway.Config.{Fallthrough, Apex, Route, Alias, LoadedConfig}

unfoldable pub push_unique : List Str → Str → List Str
push_unique out v = if any (λ e. eq_str e v) out then out else out ++ v ∷ []

-- A `for` loop that pushes what `f` makes of each element.
unfoldable pub push_each : {A : Type 0} → (A → Str) → List Str → List A → List Str
push_each f out [] = out
push_each f out (x ∷ xs) = push_each f (push_unique out (f x)) xs

abbrev pub dotted : Str → Str → Str
dotted sub suffix = sub ++ b'.' ∷ suffix

abbrev pub apex_names : List Route → List Str → Apex → Fallthrough → List Str
apex_names routes out apex Fallthrough.none =
    push_each (λ r. dotted r.subdomain apex.suffix) (push_unique out apex.suffix)
      (filter (λ r. eq_str r.apex apex.suffix) routes)
apex_names routes out apex _ = push_unique (push_unique out (codes "*." ++ apex.suffix)) apex.suffix

unfoldable pub add_names : List Route → List Alias → List Str → Apex → List Str
unfolding push_unique push_each
add_names routes aliases out apex =
    push_each (λ al. dotted al.subdomain apex.suffix) (apex_names routes out apex apex.fallthrough)
      (filter (λ al. eq_str al.apex apex.suffix) aliases)

unfoldable pub derive_from : List Route → List Alias → List Str → List Apex → List Str
unfolding add_names
derive_from routes aliases out [] = out
derive_from routes aliases out (apex ∷ as') =
    derive_from routes aliases (add_names routes aliases out apex) as'

unfoldable pub derive_san_list : List Apex → List Route → List Alias → List Str
unfolding derive_from
derive_san_list apexes routes aliases = derive_from routes aliases [] apexes

-- `effective_acme_domains`
unfoldable pub effective_acme_domains : LoadedConfig → List Str
unfolding derive_san_list
effective_acme_domains cfg = elim cfg.acme.explicit_domains [
  | some explicit ↦ explicit
  | none ↦ derive_san_list cfg.apexes cfg.routes cfg.aliases
]
