-- ===== src/Tests/Guest.antt =====
-- The agent in the guest.
use mjolnir.Base.{
  ℕ, Distinct, eq_str, inr, ◌==◌, ◌≡◌, refl, true, false, none, List, [], ◌∷◌, Str, codes,
  ends_with, arith,
}
use mjolnir.Guest.Env.{parse_env_into}
use mjolnir.Guest.Env.Safe.{HasShellNames, parse_env_into-HasShellNames}
use mjolnir.Guest.Channels.{PtyManager, contains_key, allocate_channel}
use mjolnir.Guest.Channels.Allocation.{IsChannel, allocate_channel-free}
use mjolnir.Guest.Mail.{open_store, succeeds, sync_fails, Mailbox, DispatchIo, record_and_dispatch}
use mjolnir.Guest.Mail.Seen.{IsPlain}
use mjolnir.Guest.Mail.Once.{Event, attempt, restart, dispatched, dispatched-Distinct}

-- Terminals on the channels 254, 255 and 1, with 254 to be tried next.
abbrev manager : PtyManager ℕ
manager = record { writers = (254, 0) ∷ (255, 1) ∷ (1, 2) ∷ []; next_channel = 254 }

abbrev manager_after : PtyManager ℕ
manager_after = record { writers = (254, 0) ∷ (255, 1) ∷ (1, 2) ∷ []; next_channel = 3 }

allocate_channel-free_example :
    IsChannel 2
    × (contains_key 2 manager.writers ≡ false)
    × (manager_after.writers ≡ manager.writers)
    × IsChannel 3
allocate_channel-free_example =
    allocate_channel-free manager 2 manager_after (omega arith, omega arith)
      (unfold allocate_channel in refl)

abbrev working : DispatchIo
working = record { append = succeeds; drops = true }

abbrev unsynced : DispatchIo
unsynced = record { append = sync_fails; drops = true }

-- The mail b cannot be synced, is found in the file after a restart, and comes again; c comes twice.
abbrev mails : List Event
mails =
    attempt unsynced (codes "b") []
    ∷ attempt working (codes "b") []
    ∷ restart
    ∷ attempt working (codes "b") []
    ∷ attempt working (codes "c") []
    ∷ attempt working (codes "c") []
    ∷ []

abbrev mailbox : Mailbox
mailbox = record { seen = open_store (codes "a\n"); dropped = [] }

mailbox-dispatched : dispatched mailbox mails ≡ codes "b" ∷ codes "c" ∷ []
unfolding dispatched record_and_dispatch open_store
mailbox-dispatched = refl

plain : (c : ℕ) → (c == 10) ≡ false → (13 == c) ≡ false → IsPlain (c ∷ [])
unfolding ends_with
plain c n r = record { full = refl; one_line = ground (arith, n); no_return = ground (arith, r) }

dispatched-Distinct_example : Distinct eq_str (dispatched mailbox mails)
dispatched-Distinct_example =
    let b = plain b'b' refl refl in
    let c = plain b'c' refl refl in
    dispatched-Distinct (codes "a\n") [] mails (inr (unfold ends_with in refl))
      ((b, λ e. cc), ((b, λ e. cc), (tt, ((b, λ e. cc), ((c, λ e. cc), ((c, λ e. cc), tt))))))

abbrev env_text : Str
env_text = b'A' ∷ b'=' ∷ b'1' ∷ []

abbrev env_vars : List (Str × Str)
env_vars = (b'A' ∷ [], b'1' ∷ []) ∷ []

parse_env_into-HasShellNames_example : HasShellNames env_vars
unfolding parse_env_into
parse_env_into-HasShellNames_example = parse_env_into-HasShellNames env_text [] env_vars tt refl

-- A value of one quote is a panic.
lone_quote : parse_env_into (b'A' ∷ b'=' ∷ b'"' ∷ []) [] ≡ none
unfolding parse_env_into ends_with
lone_quote = refl
