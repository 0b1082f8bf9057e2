-- ===== src/Guest/Secrets/Lifecycle.antt =====
-- Injection is claimed once, and a machine that was suspended has no key.
use mjolnir.Base.{
  ℕ, ◌≡◌, ◌≢◌, ◌⊎◌, inl, inr, refl, Bool, true, false, Option, Str, is_empty, if◌then◌else◌, ltb,
  Result, ok, err, Bool-cases, codes, sym, ◌∙◌, arith,
}
use mathlib.Core.Option
use mjolnir.Guest.Secrets.{
  LuksStatus, inactive, active, suspended, SecretsError, already_injected, Commands, Agent,
  contains_text, parse_cryptsetup_status, luks_status, suspend, suspend_from, suspend_active,
  suspend_done, opened, settle, inject_claimed, inject_at, inject,
}

module _ {Dev : Type 0} (cmd : Commands Dev) where
  -- What `cryptsetup luksSuspend` documents: where it succeeds, the mapper is suspended.
  abbrev pub SuspendWorks : Type 0
  SuspendWorks = (d d' : Dev) → cmd.luks_suspend d ≡ (ok tt, d') → luks_status cmd d' ≡ suspended

  suspend_done-wipes :
      SuspendWorks
      → (d d' : Dev) (held : Bool) → suspend_done cmd (cmd.luks_suspend d) ≡ (ok held, d')
      → luks_status cmd d' ≡ suspended
  suspend_done-wipes w d d' held h = w d d' (outcome (cmd.luks_suspend d) h)
    where
      outcome :
          (r : Result SecretsError Unit × Dev)
          → suspend_done cmd r ≡ (ok held, d')
          → r ≡ (ok tt, d')
      outcome (ok tt, e) k = cc
      outcome (err x, e) k = cc

  suspend_active-wipes :
      SuspendWorks
      → (d d' : Dev) (held : Bool) (r : Result SecretsError Unit)
      → suspend_active cmd d r ≡ (ok held, d')
      → luks_status cmd d' ≡ suspended
  suspend_active-wipes w d d' held (err e) h = cc
  suspend_active-wipes w d d' held (ok tt) h =
      suspend_done-wipes w (cmd.freeze_and_drop_caches d) d' held h

  suspend_from-wipes :
      SuspendWorks
      → (d d' : Dev) (held : Bool) (s : LuksStatus) → luks_status cmd d ≡ s
      → suspend_from cmd d s ≡ (ok held, d')
      → (luks_status cmd d' ≡ suspended) ⊎ (luks_status cmd d' ≡ inactive)
  suspend_from-wipes w d d' held inactive e h = inr cc
  suspend_from-wipes w d d' held suspended e h = inl cc
  suspend_from-wipes w d d' held active e h =
      inl (suspend_active-wipes w d d' held (cmd.check_cryptsetup d) h)

  -- What `cryptsetup status` documents: while the volume's key is in memory, the mapper is there, and
  -- its status says that it is active and not that it is suspended.
  abbrev pub StatusTells : (Dev → Bool) → Type 0
  StatusTells key_in_memory =
      (d : Dev)
      → key_in_memory d ≡ true
      → (cmd.mapper_present d ≡ true)
        × (contains_text (cmd.status_output d) (codes " is active") ≡ true)
        × (contains_text (cmd.status_output d) (codes "(suspended)") ≡ false)

  told_active :
      (key_in_memory : Dev → Bool)
      → StatusTells key_in_memory
      → (d : Dev) → key_in_memory d ≡ true
      → luks_status cmd d ≡ active
  unfolding luks_status parse_cryptsetup_status
  told_active key_in_memory tells d h =
      let (there, says, says_not) = tells d h in ground (arith, there, says, says_not)

  -- Where luksSuspend leaves a suspended mapper when it succeeds, and the status tells of a key that is in
  -- memory, the volume's key is not in memory after a suspension that succeeds, whatever the machine
  -- was before; and a second suspension succeeds too and changes nothing.
  pub suspend-wipes :
      (key_in_memory : Dev → Bool)
      → SuspendWorks
      → StatusTells key_in_memory
      → (d d' : Dev) (held : Bool) → suspend cmd d ≡ (ok held, d')
      → (key_in_memory d' ≡ false) × ((again : Bool) × (suspend cmd d' ≡ (ok again, d')))
  unfolding suspend
  suspend-wipes key_in_memory w tells d d' held h =
      let gone = suspend_from-wipes w d d' held (luks_status cmd d) refl h in
      (
        elim (Bool-cases (key_in_memory d')) [
          | inr wiped ↦ wiped
          | inl held_still ↦
              let still = told_active key_in_memory tells d' held_still in
              elim gone [
                | inl e ↦ absurd (differ (sym still ∙ e))
                | inr e ↦ absurd (unlike (sym still ∙ e))
              ]
        ],
        elim gone [ inl e ↦ (true, rw e refl) | inr e ↦ (false, rw e refl) ],
      )
    where
      differ : active ≢ suspended
      differ e = cc

      unlike : active ≢ inactive
      unlike e = cc

  not_suspended :
      (passphrase : Str) (size : Option ℕ) (a : Agent Dev) (s : LuksStatus)
      → s ≢ suspended
      → inject_at cmd passphrase size a s ≡ (
          if a.injected
          then (err already_injected, a)
          else inject_claimed cmd passphrase size a.dev)
  not_suspended passphrase size a inactive n = refl
  not_suspended passphrase size a active n = refl
  not_suspended passphrase size a suspended n = absurd (n refl)

  settle-injected :
      (r : Result SecretsError (Bool × Bool) × Dev)
      → (((o : Bool × Bool) × ((settle cmd r).0 ≡ ok o)) × ((settle cmd r).1.injected ≡ true))
        ⊎ (((e : SecretsError) × ((settle cmd r).0 ≡ err e)) × ((settle cmd r).1.injected ≡ false))
  settle-injected (ok o, d) = inl ((o, refl), refl)
  settle-injected (err e, d) = inr ((e, refl), refl)

  inject_claimed-injected :
      (passphrase : Str) (size : Option ℕ) (d : Dev)
      → let r = inject_claimed cmd passphrase size d in
        (((o : Bool × Bool) × (r.0 ≡ ok o)) × (r.1.injected ≡ true))
        ⊎ (((e : SecretsError) × (r.0 ≡ err e)) × (r.1.injected ≡ false))
  inject_claimed-injected passphrase size d = elim (Bool-cases (is_empty passphrase)) [
    | inl e ↦ rw e (inr ((_, refl), refl))
    | inr e ↦ elim (Bool-cases (cmd.volume_exists d)) [
      | inl v ↦ rw (e, v) (settle-injected (opened cmd (cmd.open_secrets_volume passphrase d)))
      | inr v ↦ elim (Bool-cases (ltb (Option.get_or size 32) 32)) [
        | inl q ↦ rw (e, v, q) (inr ((_, refl), refl))
        | inr q ↦
            rw (e, v, q)
              (settle-injected (cmd.init_secrets_volume (Option.get_or size 32) passphrase d))
      ]
    ]
  ]

  -- On a volume that is not suspended, injection takes the claim exactly if it succeeds: a failure
  -- leaves it free for another try, and once it is taken every further injection is refused and
  -- changes nothing.
  pub inject-claims :
      (passphrase : Str) (size : Option ℕ) (a : Agent Dev)
      → luks_status cmd a.dev ≢ suspended
      → (a.injected ≡ true → inject cmd passphrase size a ≡ (err already_injected, a))
        × (a.injected ≡ false
            → let r = inject cmd passphrase size a in
              (((o : Bool × Bool) × (r.0 ≡ ok o)) × (r.1.injected ≡ true))
              ⊎ (((e : SecretsError) × (r.0 ≡ err e)) × (r.1.injected ≡ false)))
  unfolding inject
  inject-claims passphrase size a n = (
    λ t. rw (not_suspended passphrase size a (luks_status cmd a.dev) n, t) refl,
    λ f.
        rw (not_suspended passphrase size a (luks_status cmd a.dev) n, f)
          (inject_claimed-injected passphrase size a.dev),
  )
