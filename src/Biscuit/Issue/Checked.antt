-- ===== src/Biscuit/Issue/Checked.antt =====
-- What a credential that is issued has passed.
use mjolnir.Base.{
  ℕ, ◌≡◌, ◌≢◌, refl, Bool, true, false, not, Option, none, some, List, [], ◌∷◌, ◌++◌, Str, eq_str,
  eq_str_iff, is_empty, Result, ok, err, >>=-elim, guarded-elim, ok-injective, arith,
}
use mjolnir.Biscuit.Bind.{bind_signing_bytes}
use mjolnir.Biscuit.Issue.{
  AuthenticatedChannel, proven_xid, peer, conn, Error, bind_error, channel_error, policy_error,
  Identity, SessionBind, AuthorizedSession, VerificationContext, IssuanceStore, binding, identified,
  channel_bound, key_length_ok, consume, verify, commit_verified, verify_and_issue,
}

module _ {AuthError Response Verified Policy PublicKey Signature S Credential : Type 0}
    (lib : Identity AuthError Response Verified Policy PublicKey Signature)
    (store : IssuanceStore AuthError Verified PublicKey Signature S Credential)
    (response : Response) (bind : SessionBind PublicKey Signature)
    (context : VerificationContext Policy) (s : S)
    (allow : AuthorizedSession Verified PublicKey Signature → Bool) where
  -- Every check that a grant stands for.
  pub record Checked (grant : AuthorizedSession Verified PublicKey Signature) : Type 0 where
    pub nonce : List ℕ
    pub challenged : lib.challenge_nonce (lib.challenge_bytes response) ≡ ok nonce
    pub identified :
        (lib.verify_response
          (consume lib store s (lib.challenge_bytes response) nonce)
          response
          context.pinned_edge_xid
          context.now
          0
          context.identity_policy
          false).0
        ≡ ok grant.identity
    pub same_holder :
        lib.verify_classical
          (lib.public_key grant.identity)
          (bind_signing_bytes
            (lib.challenge_bytes response)
            (lib.key_value bind.session_public_key)
            bind.operation
            bind.resource
            bind.channel)
          bind.signature
        ≡ true
    pub key_ok : key_length_ok lib bind.session_public_key ≡ true
    pub channel : AuthenticatedChannel
    pub connected : context.channel ≡ some channel
    pub edge : (proven_xid channel ≡ context.pinned_edge_xid) × (context.pinned_edge_xid ≢ [])
    pub both_ends : (peer channel ≢ []) × (conn channel ≢ [])
    pub bound : bind.channel ≡ lib.blake3_hash (peer channel ++ conn channel)
    pub allowed : allow grant ≡ true
    pub same_bind : grant.bind ≡ bind
    pub same_edge : grant.edge_xid ≡ context.pinned_edge_xid

  identified-eq-ok :
      {A : Type 0} (r : Result AuthError A) (a : A) → identified lib r ≡ ok a → r ≡ ok a
  identified-eq-ok (ok b) a h = cc
  identified-eq-ok (err e) a h = cc

  -- The connection that a binding was made of.
  record Joined (bytes : List ℕ) : Type 0 where
    joined : AuthenticatedChannel
    is_there : context.channel ≡ some joined
    right_edge : (proven_xid joined ≡ context.pinned_edge_xid) × (context.pinned_edge_xid ≢ [])
    both : (peer joined ≢ []) × (conn joined ≢ [])
    hashed : bytes ≡ lib.blake3_hash (peer joined ++ conn joined)

  non_empty : (x : Str) → is_empty x ≡ false → x ≢ []
  non_empty [] h e = cc
  non_empty (c ∷ x) h e = cc

  channel_bound-Joined :
      (o : Option AuthenticatedChannel) (bytes : List ℕ)
      → context.channel ≡ o
      → channel_bound lib o context.pinned_edge_xid ≡ ok bytes
      → Joined bytes
  unfolding binding
  channel_bound-Joined none bytes e h = cc
  channel_bound-Joined (some c) bytes e h = record {
    joined = c;
    is_there = e;
    right_edge = (
      (eq_str_iff (proven_xid c) context.pinned_edge_xid).0 (ground arith),
      non_empty context.pinned_edge_xid (ground arith),
    );
    both = (non_empty (peer c) (ground arith), non_empty (conn c) (ground arith));
    hashed = ground arith;
  }

  verify-Checked :
      (grant : AuthorizedSession Verified PublicKey Signature)
      → verify lib store response bind context s allow ≡ ok grant
      → Checked grant
  unfolding verify
  verify-Checked grant h =
      >>=-elim (identified lib (lib.challenge_nonce (lib.challenge_bytes response))) _ h
        λ nonce e₁ h₁.
          >>=-elim
            (identified lib
              (lib.verify_response (consume lib store s (lib.challenge_bytes response) nonce)
                response context.pinned_edge_xid context.now 0 context.identity_policy false).0)
            _ h₁
            λ identity e₂ h₂.
              let payload =
                bind_signing_bytes (lib.challenge_bytes response)
                  (lib.key_value bind.session_public_key) bind.operation bind.resource
                  bind.channel in
              let granted : AuthorizedSession Verified PublicKey Signature = record {
                identity = identity;
                edge_xid = context.pinned_edge_xid;
                bind = bind;
              } in
              guarded-elim
                (not (lib.verify_classical (lib.public_key identity) payload bind.signature))
                bind_error _ h₂
                λ holder h₃.
                  guarded-elim (not (key_length_ok lib bind.session_public_key)) bind_error _ h₃
                    λ key h₄.
                      >>=-elim (channel_bound lib context.channel context.pinned_edge_xid) _ h₄
                        λ bound e₃ h₅.
                          guarded-elim (not (eq_str bound bind.channel)) channel_error _ h₅
                            λ same h₆.
                              guarded-elim (not (allow granted)) policy_error _ h₆ λ allowed h₇.
                                let j = channel_bound-Joined context.channel bound refl e₃ in
                                let here : bound ≡ bind.channel =
                                  (eq_str_iff bound bind.channel).0 (ground arith) in
                                rw (← ok-injective h₇) (record {
                                  nonce = nonce;
                                  challenged =
                                      identified-eq-ok
                                        (lib.challenge_nonce (lib.challenge_bytes response)) nonce
                                        e₁;
                                  identified = identified-eq-ok _ identity e₂;
                                  same_holder = ground arith;
                                  key_ok = ground arith;
                                  channel = j.joined;
                                  connected = j.is_there;
                                  edge = j.right_edge;
                                  both_ends = j.both;
                                  bound = cc (here, j.hashed);
                                  allowed = ground arith;
                                  same_bind = refl;
                                  same_edge = refl;
                                })

  commit_verified-ok :
      (r : Result (Error AuthError) (AuthorizedSession Verified PublicKey Signature))
      (credential : Credential) (s' : S)
      → commit_verified lib store response context s r ≡ (ok credential, s')
      → (grant : AuthorizedSession Verified PublicKey Signature) × (r ≡ ok grant)
        × (store.commit s (lib.challenge_bytes response) context.now grant ≡ (ok credential, s'))
  commit_verified-ok (err e) credential s' h = cc
  commit_verified-ok (ok grant) credential s' h = (grant, refl, h)

  -- A credential that is issued comes from the store's transaction, on the store as it was, for a
  -- grant that passed every check: the identity, the signature of its key on this bind, the length
  -- of the session's key, the edge and channel of the connection, with neither of its ends empty, and
  -- the local policy.
  pub verify_and_issue-Checked :
      (credential : Credential) (s' : S)
      → verify_and_issue lib store response bind context s allow ≡ (ok credential, s')
      → (grant : AuthorizedSession Verified PublicKey Signature) × Checked grant
        × (store.commit s (lib.challenge_bytes response) context.now grant ≡ (ok credential, s'))
  unfolding verify_and_issue
  verify_and_issue-Checked credential s' h =
      let (grant, e, c) =
        commit_verified-ok (verify lib store response bind context s allow) credential s' h in
      (grant, verify-Checked grant e, c)

  -- A request that a check refuses leaves the store as it was.
  pub verify_and_issue-refused :
      (e : Error AuthError)
      → verify lib store response bind context s allow ≡ err e
      → verify_and_issue lib store response bind context s allow ≡ (err e, s)
  unfolding verify_and_issue
  verify_and_issue-refused e h = rw h refl
