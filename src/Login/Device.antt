-- ===== src/Login/Device.antt =====
-- auth.rs: which login a machine uses, and the loop of `device_login`, which asks for the token until
-- the code expires. A round of the loop is given by what its clock and the service do.
use mjolnir.Base.{
  ℕ, suc, ◌+◌, ◌*◌, ◌≤◌, Bool, true, false, not, ◌||◌, List, [], ◌∷◌, Str, codes, eq_str,
  if◌then◌else◌, leb, length, arith, ◌≡◌, ◌≢◌, refl, Bool-cases, inl, inr, ◌⊎◌, sym, ◌∙◌,
}
use mjolnir.Login.Token.{TokenResponse}

pub record LoginSurface : Type 0 where
  pub ssh : Bool
  pub display : Bool
  pub macos : Bool

unfoldable pub use_device_grant : Bool → LoginSurface → Bool
use_device_grant explicit surface =
    if explicit || surface.ssh then true else if surface.macos then false else not surface.display

-- The service's answer to one poll: tokens, an error's name, or no answer that can be read.
pub data Poll : Type 0 where
  tokens : TokenResponse → Poll
  refused : Str → Poll
  failed : Poll

-- The seconds that the sleep took beyond the interval, and that the request took after it.
pub record Round : Type 0 where
  pub late : ℕ
  pub took : ℕ
  pub answer : Poll

pub data DeviceResult : Type 0 where
  logged_in : TokenResponse → DeviceResult
  code_expired denied request_failed waiting : DeviceResult
  auth_error : Str → DeviceResult

-- What a poll means for the loop: it ends, or goes on after so many more seconds.
pub data Next : Type 0 where
  ends : DeviceResult → Next
  goes_on : ℕ → Next

unfoldable pub after_poll : Poll → Next
after_poll (tokens r) = ends (logged_in r)
after_poll failed = ends request_failed
after_poll (refused error) =
    if eq_str error (codes "authorization_pending")
    then goes_on 0
    else if eq_str error (codes "slow_down")
    then goes_on 5
    else if eq_str error (codes "access_denied")
    then ends denied
    else if eq_str error (codes "expired_token")
    then ends code_expired
    else ends (auth_error error)

-- The loop over the rounds that the service and the clock give; `waiting` where these run out.
unfoldable pub device_loop : ℕ → ℕ → ℕ → List Round → DeviceResult
unfolding after_poll
device_loop interval deadline now [] = waiting
device_loop interval deadline now (r ∷ rounds) =
    let woken = now + interval + r.late in
    elim (leb deadline woken) [
      | true ↦ code_expired
      | false ↦ elim (after_poll r.answer) [
        | ends result ↦ result
        | goes_on more ↦ device_loop interval deadline (woken + r.took + more) rounds
      ]
    ]

-- From the answer of the device endpoint: its interval, else five seconds, and its lifetime.
unfoldable pub device_login : ℕ → ℕ → ℕ → List Round → DeviceResult
unfolding device_loop
device_login interval expires_in now rounds = device_loop interval (now + expires_in) now rounds

Next-cases : (n : Next) → ((r : DeviceResult) × (n ≡ ends r)) ⊎ ((m : ℕ) × (n ≡ goes_on m))
Next-cases (ends r) = inl (r, refl)
Next-cases (goes_on m) = inr (m, refl)

after_poll-ends : (p : Poll) (r : DeviceResult) → after_poll p ≡ ends r → r ≢ waiting
unfolding after_poll
after_poll-ends p r h = ground arith

-- One round: where it is the last one, the code has expired in it.
step-ends :
    (interval deadline now : ℕ) (r : Round) (rounds : List Round)
    → (deadline ≤ now + interval
        ⊎ ((more : ℕ)
            → device_loop interval deadline (now + interval + r.late + r.took + more) rounds
              ≢ waiting))
    → device_loop interval deadline now (r ∷ rounds) ≢ waiting
unfolding device_loop
step-ends interval deadline now r rounds h e =
    elim (Bool-cases (leb deadline (now + interval + r.late))) [
      | inl t ↦
          let over : device_loop interval deadline now (r ∷ rounds) ≡ code_expired =
            rw (device_loop, t) refl in
          cc
      | inr t ↦ elim h [
        | inl soon ↦ absurd (ground arith)
        | inr k ↦ elim (Next-cases (after_poll r.answer)) [
          | inl (result, p) ↦
              let x : device_loop interval deadline now (r ∷ rounds) ≡ result =
                rw (device_loop, t, p) refl in
              after_poll-ends r.answer result p (sym x ∙ e)
          | inr (more, p) ↦
              let x : device_loop interval deadline now (r ∷ rounds)
                  ≡ device_loop interval deadline (now + interval + r.late + r.took + more) rounds =
                rw (device_loop, t, p) refl in
              k more (sym x ∙ e)
        ]
      ]
    ]

mul_suc : (a b : ℕ) → a * suc b ≡ a + a * b
mul_suc a b = grind arith

device_loop-ends :
    (interval deadline now : ℕ) (rounds : List Round)
    → 1 ≤ length rounds
    → deadline ≤ now + interval * length rounds
    → device_loop interval deadline now rounds ≢ waiting
device_loop-ends interval deadline now [] some_round fuel = absurd (omega arith)
device_loop-ends interval deadline now (r ∷ []) some_round fuel =
    step-ends interval deadline now r [] (inl (omega arith))
device_loop-ends interval deadline now (r ∷ q ∷ rounds) some_round fuel =
    let unit = mul_suc interval (length (q ∷ rounds)) in
    step-ends interval deadline now r (q ∷ rounds) (
      inr λ more.
        device_loop-ends interval deadline (now + interval + r.late + r.took + more) (q ∷ rounds)
          (omega arith) (omega arith))

mul_one_le : (a b : ℕ) → 1 ≤ a → b ≤ a * b
mul_one_le a b h = grind arith

-- The wait for a login ends: with an interval of a second or more, whatever the service answers, it is
-- over after as many rounds as the code lives seconds, and one at least.
pub device_login-ends :
    (interval expires_in now : ℕ) (rounds : List Round)
    → 1 ≤ interval
    → expires_in ≤ length rounds
    → 1 ≤ length rounds
    → device_login interval expires_in now rounds ≢ waiting
unfolding device_login
device_login-ends interval expires_in now rounds pace fuel some_round =
    let enough = mul_one_le interval (length rounds) pace in
    device_loop-ends interval (now + expires_in) now rounds some_round (omega arith)
