-- ===== src/Guest/Secrets.antt =====
-- secrets.rs: the one-shot claim, and the volume's life from injection to freeze and thaw. The
-- machine that the commands of cryptsetup, mount and systemd act on is a type `Dev`, and the
-- commands are operations on it.
pub mod Lifecycle
use mjolnir.Base.{
  ℕ, Bool, true, false, not, Option, none, some, List, [], ◌∷◌, Str, codes, is_empty, if◌then◌else◌,
  ltb, ◌==◌, Result, ok, err,
}
use mathlib.Core.Option

pub data LuksStatus : Type 0 where
  inactive active suspended : LuksStatus

-- `output.contains(…)`
unfoldable pub begins : Str → Str → Bool
begins [] s = true
begins (p ∷ ps) [] = false
begins (p ∷ ps) (c ∷ s) = let rest = begins ps s in if p == c then rest else false

unfoldable pub contains_text : Str → Str → Bool
unfolding begins
contains_text [] t = begins t []
contains_text (c ∷ s) t = let rest = contains_text s t in if begins t (c ∷ s) then true else rest

unfoldable pub parse_cryptsetup_status : Str → LuksStatus
unfolding contains_text
parse_cryptsetup_status output =
    if contains_text output (codes "(suspended)")
    then suspended
    else if contains_text output (codes " is active")
    then active
    else inactive

pub data SecretsError : Type 0 where
  already_injected passphrase_required size_too_small not_open : SecretsError
  command : Str → SecretsError

-- What the code asks of the machine, and does to it.
pub record Commands (Dev : Type 0) : Type 0 where
  pub mapper_present : Dev → Bool
  -- `cryptsetup status`: its output, or the error's text, which are read alike.
  pub status_output : Dev → Str
  pub is_mounted : Dev → Bool
  pub volume_exists : Dev → Bool
  pub check_cryptsetup : Dev → Result SecretsError Unit
  pub freeze_and_drop_caches : Dev → Dev
  pub unfreeze : Dev → Dev
  pub luks_suspend : Dev → Result SecretsError Unit × Dev
  pub luks_resume : Str → Dev → Result SecretsError Unit × Dev
  pub init_secrets_volume : ℕ → Str → Dev → Result SecretsError (Bool × Bool) × Dev
  pub open_secrets_volume : Str → Dev → Result SecretsError Unit × Dev
  pub load_env_vars : Dev → Result SecretsError Unit × Dev
  pub activate_secrets_target : Dev → Dev

-- `SECRETS_INJECTED` and the machine.
pub record Agent (Dev : Type 0) : Type 0 where
  pub injected : Bool
  pub dev : Dev

module _ {Dev : Type 0} (cmd : Commands Dev) where
  unfoldable pub luks_status : Dev → LuksStatus
  unfolding parse_cryptsetup_status
  luks_status d =
      if not (cmd.mapper_present d) then inactive else parse_cryptsetup_status (cmd.status_output d)

  abbrev suspend_done : Result SecretsError Unit × Dev → Result SecretsError Bool × Dev
  suspend_done (ok _, d) = (ok true, d)
  suspend_done (err e, d) = (err e, d)

  abbrev suspend_active : Dev → Result SecretsError Unit → Result SecretsError Bool × Dev
  suspend_active d (err e) = (err e, d)
  suspend_active d (ok _) = suspend_done (cmd.luks_suspend (cmd.freeze_and_drop_caches d))

  abbrev pub suspend_from : Dev → LuksStatus → Result SecretsError Bool × Dev
  suspend_from d inactive = (ok false, d)
  suspend_from d suspended = (ok true, d)
  suspend_from d active = suspend_active d (cmd.check_cryptsetup d)

  unfoldable pub suspend : Dev → Result SecretsError Bool × Dev
  unfolding luks_status
  suspend d = suspend_from d (luks_status d)

  abbrev resume_done : Result SecretsError Unit × Dev → Result SecretsError Unit × Dev
  resume_done (ok _, d) = (ok tt, cmd.unfreeze d)
  resume_done (err e, d) = (err e, d)

  abbrev resume_suspended : Str → Dev → Result SecretsError Unit → Result SecretsError Unit × Dev
  resume_suspended passphrase d (err e) = (err e, d)
  resume_suspended passphrase d (ok _) = resume_done (cmd.luks_resume passphrase d)

  abbrev pub resume_from : Str → Dev → LuksStatus → Result SecretsError Unit × Dev
  resume_from passphrase d inactive = (err not_open, d)
  resume_from passphrase d active = (ok tt, cmd.unfreeze d)
  resume_from passphrase d suspended = resume_suspended passphrase d (cmd.check_cryptsetup d)

  unfoldable pub resume : Str → Dev → Result SecretsError Unit × Dev
  unfolding luks_status
  resume passphrase d =
      if is_empty passphrase
      then (err passphrase_required, d)
      else resume_from passphrase d (luks_status d)

  abbrev default_size : ℕ
  default_size = 32

  abbrev opened : Result SecretsError Unit × Dev → Result SecretsError (Bool × Bool) × Dev
  opened (ok _, d) = (ok (false, true), d)
  opened (err e, d) = (err e, d)

  abbrev loaded : Result SecretsError Unit × Dev → Dev
  loaded (ok _, d) = cmd.activate_secrets_target d
  loaded (err e, d) = d

  -- The last `match`: the environment is loaded, or the claim is released.
  abbrev pub settle :
      Result SecretsError (Bool × Bool) × Dev → Result SecretsError (Bool × Bool) × Agent Dev
  settle (ok r, d) = (ok r, record { injected = true; dev = loaded (cmd.load_env_vars d) })
  settle (err e, d) = (err e, record { injected = false; dev = d })

  abbrev pub inject_claimed : Str → Option ℕ → Dev → Result SecretsError (Bool × Bool) × Agent Dev
  inject_claimed passphrase init_size_mb d =
      if is_empty passphrase
      then (err passphrase_required, record { injected = false; dev = d })
      else if cmd.volume_exists d
      then settle (opened (cmd.open_secrets_volume passphrase d))
      else if ltb (Option.get_or init_size_mb default_size) 32
      then (err size_too_small, record { injected = false; dev = d })
      else settle (cmd.init_secrets_volume (Option.get_or init_size_mb default_size) passphrase d)

  abbrev thawed :
      Bool → Result SecretsError Unit × Dev → Result SecretsError (Bool × Bool) × Agent Dev
  thawed injected (ok _, d) =
      (ok (false, cmd.is_mounted d), record { injected = injected; dev = d })
  thawed injected (err e, d) = (err e, record { injected = injected; dev = d })

  abbrev pub inject_at :
      Str → Option ℕ → Agent Dev → LuksStatus → Result SecretsError (Bool × Bool) × Agent Dev
  inject_at passphrase init_size_mb a suspended = thawed a.injected (resume passphrase a.dev)
  inject_at passphrase init_size_mb a _ =
      if a.injected then (err already_injected, a) else inject_claimed passphrase init_size_mb a.dev

  unfoldable pub inject : Str → Option ℕ → Agent Dev → Result SecretsError (Bool × Bool) × Agent Dev
  unfolding resume
  inject passphrase init_size_mb a = inject_at passphrase init_size_mb a (luks_status a.dev)
