-- ===== src/Tests/Biscuit.antt =====
-- The issuing of sessions, over a small identity library.
use mjolnir.Base.{
  ℕ, suc, ◌≡◌, ◌++◌, refl, Bool, true, some, List, [], ◌∷◌, ok, codes, length, eq_str, arith,
  append-injective,
}
use mjolnir.Biscuit.Bind.{bind_signing_bytes}
use mjolnir.Biscuit.Bind.Injective.{
  Bound, BoundFits, IsSelfDelimiting, bind_signing_bytes-injective,
}
use mjolnir.Biscuit.Issue.{
  ed25519, iroh, Identity, SessionBind, AuthorizedSession, VerificationContext, IssuanceStore,
  verify_and_issue,
}
use mjolnir.Biscuit.Issue.Checked.{Checked, verify_and_issue-Checked}

-- Keys of four bytes.
abbrev IsShortKey : List ℕ → Type 0
IsShortKey k = length k ≡ 4

short_keys : IsSelfDelimiting IsShortKey
short_keys k l r s hk hl e = append-injective k l r s (omega arith) e

abbrev bound : Bound
bound = record {
  challenge = 7 ∷ 8 ∷ [];
  key_value = 1 ∷ 2 ∷ 3 ∷ 4 ∷ [];
  operation = codes "vms" ∷ codes "stop" ∷ [];
  resource = codes "vm" ∷ codes "id" ∷ [];
  channel = 9 ∷ [];
}

bound_fits : BoundFits bound
bound_fits = record {
  challenge_fits = omega arith;
  operation_fits = (omega arith, (omega arith, (omega arith, tt)));
  resource_fits = (omega arith, (omega arith, (omega arith, tt)));
  channel_fits = omega arith;
}

bind_signing_bytes-injective_example : bound ≡ bound
bind_signing_bytes-injective_example =
    bind_signing_bytes-injective IsShortKey short_keys bound bound refl refl bound_fits bound_fits
      refl

-- A response is its challenge, an identity is a key, and a key is its bytes; a signature is the key
-- in front of what it signs.
abbrev library : Identity ℕ (List ℕ) (List ℕ) Unit (List ℕ) (List ℕ)
library = record {
  challenge_bytes = λ r. r;
  challenge_nonce = λ c. ok c;
  public_key = λ v. v;
  key_value = λ k. k;
  key_bytes = λ k. k;
  key_alg = λ k. ed25519;
  nonce_replay = 1;
  backend_error = λ e. 2;
  verify_response =
      λ consume r edge now skew policy staged. (ok (5 ∷ []), (consume staged r now).1);
  verify_classical = λ k payload signature. eq_str (k ++ payload) signature;
  blake3_hash = λ bytes. bytes;
}

-- The store counts the credentials that it has issued.
abbrev counter : IssuanceStore ℕ (List ℕ) (List ℕ) (List ℕ) ℕ ℕ
counter = record { check_issued = λ s c now. ok tt; commit = λ s c now grant. (ok s, suc s) }

abbrev zeros : List ℕ
zeros =
    0 ∷ 0 ∷ 0 ∷ 0 ∷ 0 ∷ 0 ∷ 0 ∷ 0 ∷ 0 ∷ 0 ∷ 0 ∷ 0 ∷ 0 ∷ 0 ∷ 0 ∷ 0 ∷ 0 ∷ 0 ∷ 0 ∷ 0 ∷ 0 ∷ 0 ∷ 0 ∷ 0
    ∷ 0 ∷ 0 ∷ 0 ∷ 0 ∷ 0 ∷ 0 ∷ 0 ∷ 0 ∷ []

abbrev session : SessionBind (List ℕ) (List ℕ)
session = record {
  session_public_key = zeros;
  operation = codes "vms" ∷ [];
  resource = codes "id" ∷ [];
  channel = 3 ∷ 4 ∷ [];
  signature =
      5 ∷ bind_signing_bytes (6 ∷ []) zeros (codes "vms" ∷ []) (codes "id" ∷ []) (3 ∷ 4 ∷ []);
}

abbrev context : VerificationContext Unit
context = record {
  pinned_edge_xid = codes "edge";
  channel = some (iroh (codes "edge") (3 ∷ []) (4 ∷ []));
  now = 10;
  identity_policy = tt;
}

abbrev always : AuthorizedSession (List ℕ) (List ℕ) (List ℕ) → Bool
always grant = true

verify_and_issue-Checked_example :
    (grant : AuthorizedSession (List ℕ) (List ℕ) (List ℕ)) × Checked library counter
      (6 ∷ [])
      session
      context
      0
      always
      grant
    × (counter.commit 0 (6 ∷ []) 10 grant ≡ (ok 0, 1))
verify_and_issue-Checked_example =
    verify_and_issue-Checked library counter (6 ∷ []) session context 0 always 0 1
      (unfold verify_and_issue bind_signing_bytes in refl)
