-- ===== src/Login/Token.antt =====
-- auth.rs: the stored token, its expiry, and `load_token_at`, which renews it. The token file is read
-- and written under a lock, so the calls of all processes stand in one order. The login service and
-- the claims of a JWT are parameters; a time is in seconds.
pub mod Sessions
use mjolnir.Base.{
  ℕ, ◌+◌, Bool, true, false, not, ◌&&◌, Option, none, some, List, [], ◌∷◌, Str, codes, is_empty,
  eq_str, if◌then◌else◌, leb, ltb, min, split, Result, ok, err,
}

pub record TokenResponse : Type 0 where
  pub access_token : Str
  pub id_token : Option Str
  pub refresh_token : Option Str
  pub expires_in : Option ℕ

pub record StoredToken : Type 0 where
  pub access_token : Str
  pub refresh_token : Option Str
  pub expires_at : Option ℕ
  pub issuer : Str

abbrev pub max_u64 : ℕ
max_u64 = 18446744073709551615

-- `saturating_add` on `u64`
abbrev pub saturating_add : ℕ → ℕ → ℕ
saturating_add a b = min (a + b) max_u64

-- `filter(|t| !t.is_empty())`
abbrev pub non_empty : Option Str → Option Str
non_empty none = none
non_empty (some t) = if is_empty t then none else some t

abbrev pub or_other : {A : Type 0} → Option A → Option A → Option A
or_other none b = b
or_other (some a) b = some a

abbrev value_or : Option Str → Str → Str
value_or none s = s
value_or (some t) s = t

unfoldable pub bearer : TokenResponse → Str
bearer r = value_or (non_empty r.id_token) r.access_token

unfoldable pub earliest_expiry : Option ℕ → Option ℕ → Option ℕ
earliest_expiry (some a) (some b) = some (min a b)
earliest_expiry none b = b
earliest_expiry (some a) none = some a

abbrev second_part : List Str → Option Str
second_part (a ∷ b ∷ parts) = some b
second_part parts = none

-- `claims` decodes a payload and gives its "exp", a number of seconds, where it has one.
unfoldable pub jwt_expiry : (Str → Option ℕ) → Str → Option ℕ
jwt_expiry claims token = elim (second_part (split b'.' token)) [
  | none ↦ none
  | some payload ↦ claims payload
]

abbrev until : ℕ → Option ℕ → Option ℕ
until now none = none
until now (some e) = some (saturating_add now e)

unfoldable pub into_stored : (Str → Option ℕ) → ℕ → TokenResponse → Str → Option Str → StoredToken
unfolding bearer earliest_expiry jwt_expiry
into_stored claims now r issuer previous_refresh = record {
  access_token = bearer r;
  refresh_token = or_other (non_empty r.refresh_token) previous_refresh;
  expires_at = earliest_expiry (until now r.expires_in) (jwt_expiry claims (bearer r));
  issuer = issuer;
}

abbrev pub expiry_skew_secs : ℕ
expiry_skew_secs = 60

abbrev expired_at : ℕ → Option ℕ → Bool
expired_at now none = false
expired_at now (some exp) = leb exp (saturating_add now expiry_skew_secs)

unfoldable pub is_expired : (Str → Option ℕ) → ℕ → StoredToken → Bool
unfolding earliest_expiry jwt_expiry
is_expired claims now t =
    expired_at now (earliest_expiry t.expires_at (jwt_expiry claims t.access_token))

-- Why there is no token.
pub data LoadError : Type 0 where
  unreadable bad_json no_refresh_credential not_recognized kept_retry save_failed : LoadError

-- The token file: not there, an error, text that is no token, or a token.
pub data TokenFile : Type 0 where
  absent broken garbage : TokenFile
  holds : StoredToken → TokenFile

-- What the login service answers to a refresh: tokens; "invalid_grant"; or any other failure.
pub data Refreshed : Type 0 where
  granted : TokenResponse → Refreshed
  invalid_grant unavailable : Refreshed

unfoldable pub refresh_result : Refreshed → Result LoadError TokenResponse
refresh_result (granted r) = ok r
refresh_result invalid_grant = err not_recognized
refresh_result unavailable = err kept_retry

-- What a renewal comes to, and the file after it; `saved` says whether the file could be replaced.
unfoldable pub renewed :
    (Str → Option ℕ)
    → ℕ
    → Bool
    → StoredToken
    → Result LoadError TokenResponse
    → Result LoadError (Option Str) × TokenFile
unfolding into_stored
renewed claims now saved stored (err e) = (err e, holds stored)
renewed claims now saved stored (ok response) =
    let refreshed = into_stored claims now response stored.issuer stored.refresh_token in
    if saved
    then (ok (some refreshed.access_token), holds refreshed)
    else (err save_failed, holds stored)

-- The credential that a call presents to the service, where it comes to that.
unfoldable pub presents : (Str → Option ℕ) → ℕ → Bool → StoredToken → Option Str
unfolding is_expired
presents claims now force stored =
    if not force && not (is_expired claims now stored) then none else non_empty stored.refresh_token

abbrev with_credential :
    (Str → Option ℕ)
    → ℕ
    → Bool
    → (Str → Str → Refreshed)
    → StoredToken
    → Option Str
    → Result LoadError (Option Str) × TokenFile
with_credential claims now saved service stored none = (err no_refresh_credential, holds stored)
with_credential claims now saved service stored (some refresh) =
    renewed claims now saved stored (refresh_result (service stored.issuer refresh))

unfoldable pub load_token_at :
    (Str → Option ℕ)
    → ℕ
    → Bool
    → Bool
    → (Str → Str → Refreshed)
    → TokenFile
    → Result LoadError (Option Str) × TokenFile
unfolding is_expired renewed refresh_result
load_token_at claims now force saved service absent = (ok none, absent)
load_token_at claims now force saved service broken = (err unreadable, broken)
load_token_at claims now force saved service garbage = (err bad_json, garbage)
load_token_at claims now force saved service (holds stored) =
    if not force && not (is_expired claims now stored)
    then (ok (some stored.access_token), holds stored)
    else with_credential claims now saved service stored (non_empty stored.refresh_token)

unfoldable pub logout : TokenFile → TokenFile
logout file = absent
