-- ===== src/Login/Loopback/Callback.antt =====
-- auth.rs: `accept_loopback` takes a code only with the state of this login, and takes the code and
-- the state that the service sent.
use mjolnir.Base.{
  ℕ, none, some, List, [], ◌∷◌, Str, codes, eq_str, eq_str→eq, split, ok, arith, ◌≡◌, refl, In, inl,
  inr, Option-cases, Result-cases, Bool-cases,
}
use mjolnir.Base.Words.{split_once}
use mjolnir.Login.Loopback.{
  percent_decode, Params, take_pair, read_pairs, callback_query, checked, after_pairs,
  accept_loopback,
}

-- A pair of the query has this name and, decoded, this value.
pub record HasPair (pairs : List Str) (name value : Str) : Type 0 where
  pub pair : Str
  pub raw : Str
  pub there : In pair pairs
  pub splits : split_once b'=' pair ≡ some (name, raw)
  pub decodes : percent_decode raw ≡ value

-- What was found so far is in the query.
record Held (query : List Str) (p : Params) : Type 0 where
  state_held : (v : Str) → p.state ≡ some v → HasPair query (codes "state") v
  code_held : (v : Str) → p.code ≡ some v → HasPair query (codes "code") v

module _ (query : List Str) where
  take_pair-Held :
      (pair k raw : Str) (p q : Params)
      → In pair query
      → split_once b'=' pair ≡ some (k, raw)
      → take_pair k (percent_decode raw) p ≡ ok q
      → Held query p
      → Held query q
  unfolding take_pair
  take_pair-Held pair k raw p q i s h held = elim (Bool-cases (eq_str k (codes "code"))) [
    | inl e ↦ record {
      state_held = λ v n. held.state_held v (ground arith);
      code_held = λ v n. record {
        pair = pair;
        raw = raw;
        there = i;
        splits = rw (← eq_str→eq k (codes "code") e) s;
        decodes = ground arith;
      };
    }
    | inr e ↦ elim (Bool-cases (eq_str k (codes "state"))) [
      | inl f ↦ record {
        state_held = λ v n. record {
          pair = pair;
          raw = raw;
          there = i;
          splits = rw (← eq_str→eq k (codes "state") f) s;
          decodes = ground arith;
        };
        code_held = λ v n. held.code_held v (ground arith);
      }
      | inr f ↦ record {
        state_held = λ v n. held.state_held v (ground arith);
        code_held = λ v n. held.code_held v (ground arith);
      }
    ]
  ]

  read_pairs-Held :
      (pairs : List Str) (p q : Params)
      → ((x : Str) → In x pairs → In x query)
      → read_pairs pairs p ≡ ok q
      → Held query p
      → Held query q
  unfolding read_pairs
  read_pairs-Held [] p q i h held = let same : p ≡ q = cc in rw (← same) held
  read_pairs-Held (pair ∷ pairs) p q i h held = elim (Option-cases (split_once b'=' pair)) [
    | inl n ↦ read_pairs-Held pairs p q (λ x j. i x (inr j)) (ground arith) held
    | inr ((k, raw), n) ↦ elim (Result-cases (take_pair k (percent_decode raw) p)) [
      | inl (e, t) ↦ absurd (ground arith)
      | inr (r, t) ↦
          read_pairs-Held pairs r q (λ x j. i x (inr j)) (ground arith)
            (take_pair-Held pair k raw p r (i pair (inl refl)) n t held)
    ]
  ]

-- A code that is accepted came in the query of the request, and with it the state of this login: a
-- request that does not know the state has no code taken.
pub accept_loopback-HasPair :
    (bytes : List ℕ) (expect_state code : Str)
    → accept_loopback bytes expect_state ≡ ok code
    → let query = split b'&' (callback_query bytes) in
      HasPair query (codes "state") expect_state × HasPair query (codes "code") code
unfolding accept_loopback after_pairs checked
accept_loopback-HasPair bytes expect_state code h =
    let query = split b'&' (callback_query bytes) in
    let start : Params = record { code = none; state = none } in
    elim (Result-cases (read_pairs query start)) [
      | inl (e, r) ↦ absurd (ground arith)
      | inr (q, r) ↦
          let held =
            read_pairs-Held query query start q (λ x j. j) r
              (record { state_held = λ v n. cc; code_held = λ v n. cc }) in
          elim (Option-cases q.state) [
            | inl n ↦ absurd (ground arith)
            | inr (state, n) ↦ elim (Option-cases q.code) [
              | inl m ↦ absurd (ground arith)
              | inr (c, m) ↦ (
                held.state_held expect_state (ground (arith, eq_str→eq state expect_state)),
                held.code_held code (ground arith),
              )
            ]
          ]
    ]
