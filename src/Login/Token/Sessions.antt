-- ===== src/Login/Token/Sessions.antt =====
-- auth.rs: any number of processes that load and renew the token in turn, against a service that takes
-- only the refresh credential that it gave last.
use mjolnir.Base.{
  ℕ, suc, Bool, true, not, ◌&&◌, Option, none, some, List, [], ◌∷◌, Str, eq_str, eq_str_refl,
  if◌then◌else◌, Result, ok, err, ◌⊎◌, false, arith, ◌≡◌, refl, Bool-cases, inl, inr, All,
}
use mjolnir.Login.Token.{
  TokenResponse, StoredToken, LoadError, TokenFile, holds, kept_retry, Refreshed, granted,
  invalid_grant, unavailable, non_empty, or_other, is_expired, into_stored, renewed, refresh_result,
  presents, load_token_at,
}

-- A call of `load_token_at`: its time, whether it is `refresh_stored_token`'s, and whether the service
-- can be reached.
pub record Call : Type 0 where
  pub now : ℕ
  pub force : Bool
  pub reached : Bool

-- The file, and the service: the credential it takes, and how many answers it gave.
pub record System : Type 0 where
  pub file : TokenFile
  pub current : Str
  pub issued : ℕ

-- The file and the service agree on the credential.
pub record InStep (s : System) : Type 0 where
  pub stored : StoredToken
  pub file_is : s.file ≡ holds stored
  pub credential : non_empty stored.refresh_token ≡ some s.current

module _ (claims : Str → Option ℕ) (issue : ℕ → TokenResponse) where
  -- The service, where it is reached, grants its `n`th answer for the credential it gave last, and for
  -- no other.
  abbrev service : Bool → Str → ℕ → Str → Str → Refreshed
  service reached current n issuer presented =
      if not reached
      then unavailable
      else if eq_str presented current
      then granted (issue n)
      else invalid_grant

  -- The credential that it takes next: a new one where the answer has one.
  abbrev rotated : Str → Option Str → Str
  rotated current none = current
  rotated current (some r) = r

  -- The service after a credential was presented, or none.
  served : System → TokenFile → Option Str → System
  served s file none = record s { file = file }
  served s file (some presented) =
      if eq_str presented s.current
      then record {
        file = file;
        current = rotated s.current (non_empty (issue s.issued).refresh_token);
        issued = suc s.issued;
      }
      else record s { file = file }

  -- What reaches the service.
  presented_of : Call → TokenFile → Option Str
  presented_of c (holds stored) = if c.reached then presents claims c.now c.force stored else none
  presented_of c file = none

  pub step : Call → System → Result LoadError (Option Str) × System
  unfolding served presented_of
  step c s =
      let (result, file) =
        load_token_at claims c.now c.force true (service c.reached s.current s.issued) s.file in
      (result, served s file (presented_of c s.file))

  pub run : List Call → System → List (Call × Result LoadError (Option Str)) × System
  run [] s = ([], s)
  run (c ∷ cs) s =
      let (result, t) = step c s in let (results, u) = run cs t in ((c, result) ∷ results, u)

  non_empty_idem : (o : Option Str) → non_empty (non_empty o) ≡ non_empty o
  non_empty_idem none = refl
  non_empty_idem (some t) = ground arith

  kept_credential :
      (a b : Option Str) (current : Str)
      → non_empty b ≡ some current
      → non_empty (or_other (non_empty a) b) ≡ some (rotated current (non_empty a))
  kept_credential a b current h = ground (arith, non_empty_idem a)

  -- There is a token, or the service was not reached and the call may be tried again.
  abbrev pub IsServed : Call × Result LoadError (Option Str) → Type 0
  IsServed (c, r) =
      ((token : Str) × (r ≡ ok (some token))) ⊎ ((c.reached ≡ false) × (r ≡ err kept_retry))

  step-InStep :
      (c : Call) (s : System) → InStep s → IsServed (c, (step c s).0) × InStep (step c s).1
  unfolding step load_token_at presents served presented_of renewed refresh_result into_stored
  step-InStep c s h = elim (Bool-cases (not c.force && not (is_expired claims c.now h.stored))) [
    | inl e ↦ (
      inl (h.stored.access_token, ground (arith, h.file_is, e)),
      record {
        stored = h.stored;
        file_is = ground (arith, h.file_is, e);
        credential = ground (arith, h.file_is, h.credential, e);
      },
    )
    | inr e ↦ elim (Bool-cases c.reached) [
      | inr down ↦ (
        inr (down, ground (arith, h.file_is, h.credential, e, down)),
        record {
          stored = h.stored;
          file_is = ground (arith, h.file_is, h.credential, e, down);
          credential = ground (arith, h.file_is, h.credential, e, down);
        },
      )
      | inl up ↦
          let new =
            into_stored claims c.now (issue s.issued) h.stored.issuer h.stored.refresh_token in
          let same = eq_str_refl s.current in
          (
            inl (new.access_token, ground (arith, h.file_is, h.credential, e, up, same)),
            record {
              stored = new;
              file_is = ground (arith, h.file_is, h.credential, e, up, same);
              credential = ground (
                arith,
                h.file_is,
                h.credential,
                e,
                up,
                same,
                kept_credential (issue s.issued).refresh_token h.stored.refresh_token s.current,
              );
            },
          )
    ]
  ]

  -- Where the file can be replaced, and a service that is reached grants the credential that it gave last
  -- with an answer that arrives, a session that is in step with it stays so through any calls of any
  -- processes, forced or not, at any times. Each call has a token, or the service was not reached and
  -- it may be tried again; so none is told to log in, though each renewal may make the credential
  -- before it worthless.
  pub run-InStep :
      (cs : List Call) (s : System) → InStep s → All IsServed (run cs s).0 × InStep (run cs s).1
  unfolding run
  run-InStep [] s h = (tt, h)
  run-InStep (c ∷ cs) s h =
      let (served_once, next) = step-InStep c s h in
      let (results, last) = run-InStep cs (step c s).1 next in ((served_once, results), last)
