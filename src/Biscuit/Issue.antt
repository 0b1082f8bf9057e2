-- ===== src/Biscuit/Issue.antt =====
-- The check of a connection and the issuing of a credential. The types and functions of the
-- identity library are parameters; the endpoint's storage is an implementation of `IssuanceStore`.
pub mod Checked
use mjolnir.Base.{
  ℕ, Bool, true, false, not, ◌&&◌, ◌||◌, Option, none, some, List, [], ◌∷◌, ◌++◌, Str, eq_str,
  if◌then◌else◌, ◌==◌, length, is_empty, Result, ok, err, ◌>>=◌,
}
use mjolnir.Biscuit.Bind.{bind_signing_bytes}

pub data ClassicalAlg : Type 0 where
  ed25519 p256 : ClassicalAlg

pub data AuthenticatedChannel : Type 0 where
  https : (proven_edge_xid : Str) → (origin_spki server_conn_id : List ℕ) → AuthenticatedChannel
  iroh : (proven_edge_xid : Str) → (peer_node_id conn_id : List ℕ) → AuthenticatedChannel

abbrev pub proven_xid : AuthenticatedChannel → Str
proven_xid (https xid _ _) = xid
proven_xid (iroh xid _ _) = xid

abbrev pub peer : AuthenticatedChannel → List ℕ
peer (https _ spki _) = spki
peer (iroh _ node _) = node

abbrev pub conn : AuthenticatedChannel → List ℕ
conn (https _ _ id) = id
conn (iroh _ _ id) = id

-- `Error`, over the errors of the identity library.
pub data Error (AuthError : Type 0) : Type 0 where
  identity_error : AuthError → Error AuthError
  wrong_edge channel_error bind_error policy_error : Error AuthError
  commit_error : Str → Error AuthError

-- What is used of the identity library.
pub record Identity (AuthError Response Verified Policy PublicKey Signature : Type 0) : Type 0 where
  pub challenge_bytes : Response → List ℕ
  pub challenge_nonce : List ℕ → Result AuthError (List ℕ)
  pub public_key : Verified → PublicKey
  pub key_value : PublicKey → List ℕ
  pub key_bytes : PublicKey → List ℕ
  pub key_alg : PublicKey → ClassicalAlg
  pub nonce_replay : AuthError
  pub backend_error : Error AuthError → AuthError
  -- The nonce store is its state, whether a nonce is staged, and its `consume`.
  pub verify_response :
      (Bool → List ℕ → ℕ → Result AuthError Unit × Bool)
      → Response
      → Str
      → ℕ
      → ℕ
      → Policy
      → Bool
      → Result AuthError Verified × Bool
  pub verify_classical : PublicKey → List ℕ → Signature → Bool
  pub blake3_hash : List ℕ → List ℕ

pub record SessionBind (PublicKey Signature : Type 0) : Type 0 where
  pub session_public_key : PublicKey
  pub operation : List (List ℕ)
  pub resource : List (List ℕ)
  pub channel : List ℕ
  pub signature : Signature

pub record AuthorizedSession (Verified PublicKey Signature : Type 0) : Type 0 where
  pub identity : Verified
  pub edge_xid : Str
  pub bind : SessionBind PublicKey Signature

pub record VerificationContext (Policy : Type 0) : Type 0 where
  pub pinned_edge_xid : Str
  pub channel : Option AuthenticatedChannel
  pub now : ℕ
  pub identity_policy : Policy

-- A store of issued challenges; `commit` is its transaction.
pub record IssuanceStore (AuthError Verified PublicKey Signature S Credential : Type 0)
    : Type 0 where
  pub check_issued : S → List ℕ → ℕ → Result (Error AuthError) Unit
  pub commit :
      S
      → List ℕ
      → ℕ
      → AuthorizedSession Verified PublicKey Signature
      → Result (Error AuthError) Credential × S

module _ {AuthError Response Verified Policy PublicKey Signature : Type 0}
    (lib : Identity AuthError Response Verified Policy PublicKey Signature) where
  -- `AuthenticatedChannel::binding`
  unfoldable pub binding : AuthenticatedChannel → Str → Result (Error AuthError) (List ℕ)
  binding c pinned =
      if is_empty pinned || not (eq_str (proven_xid c) pinned)
      then err wrong_edge
      else if is_empty (peer c) || is_empty (conn c)
      then err channel_error
      else ok (lib.blake3_hash (peer c ++ conn c))

  unfoldable pub key_length_ok : PublicKey → Bool
  key_length_ok key = elim (lib.key_alg key) [
    | ed25519 ↦ length (lib.key_bytes key) == 32
    | p256 ↦ length (lib.key_bytes key) == 33
  ]

  abbrev channel_bound : Option AuthenticatedChannel → Str → Result (Error AuthError) (List ℕ)
  channel_bound none pinned = err channel_error
  channel_bound (some c) pinned = binding c pinned

  abbrev identified : {A : Type 0} → Result AuthError A → Result (Error AuthError) A
  identified (ok a) = ok a
  identified (err e) = err (identity_error e)

  module _ {S Credential : Type 0}
      (store : IssuanceStore AuthError Verified PublicKey Signature S Credential) where
    abbrev staged_by : Bool → Result (Error AuthError) Unit → Result AuthError Unit × Bool
    staged_by staged (ok _) = (ok tt, true)
    staged_by staged (err (identity_error e)) = (err e, staged)
    staged_by staged (err e) = (err (lib.backend_error e), staged)

    -- `StagedNonce::consume`
    unfoldable pub consume : S → List ℕ → List ℕ → Bool → List ℕ → ℕ → Result AuthError Unit × Bool
    consume s bytes own staged nonce now =
        if staged || not (eq_str nonce own)
        then (err lib.nonce_replay, staged)
        else staged_by staged (store.check_issued s bytes now)

    -- `verify_and_issue` until the commit: what it would commit.
    unfoldable pub verify :
        Response
        → SessionBind PublicKey Signature
        → VerificationContext Policy
        → S
        → (AuthorizedSession Verified PublicKey Signature → Bool)
        → Result (Error AuthError) (AuthorizedSession Verified PublicKey Signature)
    unfolding binding key_length_ok consume
    verify response bind context s allow = do
      nonce ← identified (lib.challenge_nonce (lib.challenge_bytes response))
      identity ←
          identified
            (lib.verify_response (consume s (lib.challenge_bytes response) nonce) response
              context.pinned_edge_xid context.now 0 context.identity_policy false).0
      let payload =
          bind_signing_bytes (lib.challenge_bytes response) (lib.key_value bind.session_public_key)
            bind.operation bind.resource bind.channel
      if not (lib.verify_classical (lib.public_key identity) payload bind.signature)
          then err bind_error
          else if not (key_length_ok bind.session_public_key)
          then err bind_error
          else do
            bound ← channel_bound context.channel context.pinned_edge_xid
            let grant : AuthorizedSession Verified PublicKey Signature = record {
              identity = identity;
              edge_xid = context.pinned_edge_xid;
              bind = bind;
            }
            if not (eq_str bound bind.channel)
                then err channel_error
                else if not (allow grant)
                then err policy_error
                else ok grant

    abbrev pub commit_verified :
        Response
        → VerificationContext Policy
        → S
        → Result (Error AuthError) (AuthorizedSession Verified PublicKey Signature)
        → Result (Error AuthError) Credential × S
    commit_verified response context s (err e) = (err e, s)
    commit_verified response context s (ok grant) =
        store.commit s (lib.challenge_bytes response) context.now grant

    unfoldable pub verify_and_issue :
        Response
        → SessionBind PublicKey Signature
        → VerificationContext Policy
        → S
        → (AuthorizedSession Verified PublicKey Signature → Bool)
        → Result (Error AuthError) Credential × S
    unfolding verify
    verify_and_issue response bind context s allow =
        commit_verified response context s (verify response bind context s allow)
