-- ===== src/Tests/Machine.antt =====
-- The names and the secrets of the guest, the latter on a machine that is the state of its volume.
use mjolnir.Base.{◌≡◌, ◌≢◌, ◌⊎◌, refl, Bool, true, false, none, List, ◌∷◌, Str, codes, ok, err}
use mathlib.Core.Path.{subst}
use mjolnir.Guest.Names.{attach_argv}
use mjolnir.Guest.Names.Safe.{IsSafe, attaching, attach_argv-IsSafe}
use mjolnir.Guest.Secrets.{
  LuksStatus, inactive, active, suspended, SecretsError, already_injected, Commands, Agent,
  contains_text, luks_status, suspend, inject,
}
use mjolnir.Guest.Secrets.Lifecycle.{SuspendWorks, StatusTells, suspend-wipes, inject-claims}

attach_argv-IsSafe_example :
    (IsSafe (codes "dev-1") → attach_argv (codes "dev-1") ≡ ok (attaching (codes "dev-1")))
    × ((argv : List Str)
        → attach_argv (codes "dev-1") ≡ ok argv
        → (argv ≡ attaching (codes "dev-1"))
          × IsSafe (codes "dev-1")
          × ((s : Str) → codes "dev-1" ≢ b'-' ∷ s))
attach_argv-IsSafe_example = attach_argv-IsSafe (codes "dev-1")

abbrev text_of : LuksStatus → Str
text_of inactive = codes "is inactive."
text_of active = codes "x is active."
text_of suspended = codes "x is active and is in use. (suspended)"

abbrev present : LuksStatus → Bool
present inactive = false
present _ = true

abbrev machine : Commands LuksStatus
machine = record {
  mapper_present = present;
  status_output = text_of;
  is_mounted = present;
  volume_exists = λ d. false;
  check_cryptsetup = λ d. ok tt;
  freeze_and_drop_caches = λ d. d;
  unfreeze = λ d. d;
  luks_suspend = λ d. (ok tt, suspended);
  luks_resume = λ passphrase d. (ok tt, active);
  init_secrets_volume = λ size passphrase d. (ok (true, true), active);
  open_secrets_volume = λ passphrase d. (ok tt, active);
  load_env_vars = λ d. (ok tt, d);
  activate_secrets_target = λ d. d;
}

machine-suspended : luks_status machine suspended ≡ suspended
unfolding luks_status
machine-suspended = refl

machine-SuspendWorks : SuspendWorks machine
machine-SuspendWorks d d' h =
    let same : suspended ≡ d' = cc in
    subst (λ x. luks_status machine x ≡ suspended) same machine-suspended

-- The key is in memory while the volume is active.
abbrev has_key : LuksStatus → Bool
has_key inactive = false
has_key active = true
has_key suspended = false

machine-StatusTells : StatusTells machine has_key
unfolding contains_text
machine-StatusTells inactive h = cc
machine-StatusTells active h = (refl, refl, refl)
machine-StatusTells suspended h = cc

suspend-wipes_example :
    (has_key suspended ≡ false)
    × ((again : Bool) × (suspend machine suspended ≡ (ok again, suspended)))
suspend-wipes_example =
    suspend-wipes machine has_key machine-SuspendWorks machine-StatusTells active suspended true
      (unfold suspend in refl)

abbrev fresh : Agent LuksStatus
fresh = record { injected = false; dev = inactive }

machine-inactive : luks_status machine inactive ≢ suspended
unfolding luks_status
machine-inactive e = cc

inject-claims_example :
    (false ≡ true → inject machine (codes "p") none fresh ≡ (err already_injected, fresh))
    × (false ≡ false
        → let r = inject machine (codes "p") none fresh in
          (((o : Bool × Bool) × (r.0 ≡ ok o)) × (r.1.injected ≡ true))
          ⊎ (((e : SecretsError) × (r.0 ≡ err e)) × (r.1.injected ≡ false)))
inject-claims_example = inject-claims machine (codes "p") none fresh machine-inactive
