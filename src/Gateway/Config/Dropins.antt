-- ===== src/Gateway/Config/Dropins.antt =====
-- config.rs: `merge_dropins`. The directory is what it lists: the name of each entry and its text,
-- if that can be read; the TOML parser is a parameter. What is ignored is logged, no more.
pub mod Boundary
use mjolnir.Base.{
  ℕ, Bool, true, false, not, ◌&&◌, ◌||◌, Option, none, some, List, [], ◌∷◌, ◌++◌, Str, codes,
  if◌then◌else◌, ◌==◌, ltb, is_empty, strip_suffix, filter,
}
use mathlib.Core.Option
use mjolnir.Gateway.Config.{FileConfig, RouteDecl, AliasDecl}

pub record DirEntry : Type 0 where
  pub name : Str
  pub text : Option Str

-- The order of names by their code points, which is that of their UTF-8 bytes.
unfoldable pub name_le : Str → Str → Bool
name_le [] t = true
name_le (c ∷ s) [] = false
name_le (c ∷ s) (d ∷ t) =
    let rest = name_le s t in if ltb c d then true else if c == d then rest else false

-- `extension() == Some("toml")`: there has to be a name before it.
unfoldable pub is_toml : Str → Bool
is_toml name = elim (strip_suffix (codes ".toml") name) [
  | none ↦ false
  | some stem ↦ not (is_empty stem)
]

unfoldable pub insert_file : DirEntry → List DirEntry → List DirEntry
unfolding name_le
insert_file e [] = e ∷ []
insert_file e (f ∷ fs) =
    let rest = insert_file e fs in if name_le e.name f.name then e ∷ f ∷ fs else f ∷ rest

unfoldable pub sort_files : List DirEntry → List DirEntry
unfolding insert_file
sort_files [] = []
sort_files (e ∷ es) = insert_file e (sort_files es)

abbrev has_some {ℓ} : {A : Type ℓ} → Option A → Bool
has_some none = false
has_some (some a) = true

abbrev has_any {ℓ} : {A : Type ℓ} → List A → Bool
has_any [] = false
has_any (x ∷ xs) = true

-- What decides on the warning only.
unfoldable pub declares_non_route_alias_content : FileConfig → Bool
declares_non_route_alias_content c =
    has_any c.domains
    || has_any c.certs
    || has_some c.acme
    || has_some c.tls
    || has_some c.sites
    || has_some c.listen
    || has_some c.listen_tls
    || has_some c.vm_default_port
    || has_some c.connect_timeout_secs
    || has_some c.response_timeout_secs
    || has_some c.pool_ttl_secs
    || has_some c.pool_max
    || has_some c.pool_probe_timeout_secs
    || has_some c.tls_expiry_fail_secs
    || has_some c.tls_session_cache

module _ (from_toml : Str → Option FileConfig) where
  abbrev pub extend : FileConfig → Option FileConfig → FileConfig
  extend base none = base
  extend base (some dropin) = record base {
    routes = base.routes ++ dropin.routes;
    aliases = base.aliases ++ dropin.aliases;
  }

  unfoldable pub merge_files : FileConfig → List DirEntry → FileConfig
  merge_files base [] = base
  merge_files base (e ∷ es) = merge_files (extend base (Option.bind e.text from_toml)) es

  abbrev pub merge_listed : FileConfig → Option (List DirEntry) → FileConfig
  merge_listed base none = base
  merge_listed base (some entries) =
      merge_files base (sort_files (filter (λ e. is_toml e.name) entries))

  -- `none` is a directory that cannot be listed.
  unfoldable pub merge_dropins : FileConfig → Option (List DirEntry) → FileConfig
  unfolding merge_files sort_files is_toml
  merge_dropins base dir = merge_listed base dir
