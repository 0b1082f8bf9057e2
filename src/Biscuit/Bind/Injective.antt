-- ===== src/Biscuit/Bind/Injective.antt =====
-- A signed bind can be read in one way only.
use mjolnir.Base.{
  ℕ, ◌^◌, ◌<◌, ◌≡◌, refl, sym, ap, ◌∙◌, List, [], ◌∷◌, ◌++◌, length, append_assoc, append-injective,
  All, arith,
}
use mjolnir.Biscuit.Bind.{
  cbor_head, cbor_string, cbor_strings, cbor_tuple, domain, purpose, bind_signing_bytes,
}

cbor_head-injective :
    (major n m : ℕ) (r s : List ℕ)
    → n < 2 ^ 64
    → m < 2 ^ 64
    → cbor_head major n ++ r ≡ cbor_head major m ++ s
    → (n ≡ m) × (r ≡ s)
unfolding cbor_head
cbor_head-injective major n m r s hn hm e = ground arith

cbor_string-injective :
    (major : ℕ) (xs ys r s : List ℕ)
    → length xs < 2 ^ 64
    → length ys < 2 ^ 64
    → cbor_string major xs ++ r ≡ cbor_string major ys ++ s
    → (xs ≡ ys) × (r ≡ s)
unfolding cbor_string
cbor_string-injective major xs ys r s hx hy e =
    let e' =
      sym (append_assoc (cbor_head major (length xs)) xs r)
      ∙ e
      ∙ append_assoc (cbor_head major (length ys)) ys s in
    let (n, rest) =
      cbor_head-injective major (length xs) (length ys) (xs ++ r) (ys ++ s) hx hy e' in
    append-injective xs ys r s n rest

-- The lengths that a 64-bit machine can hold.
abbrev pub Fits : List (List ℕ) → Type 0
Fits parts = (length parts < 2 ^ 64) × All (λ (p : List ℕ). length p < 2 ^ 64) parts

cbor_strings-injective :
    (ps qs : List (List ℕ)) (r s : List ℕ)
    → length ps ≡ length qs
    → All (λ (p : List ℕ). length p < 2 ^ 64) ps
    → All (λ (p : List ℕ). length p < 2 ^ 64) qs
    → cbor_strings ps ++ r ≡ cbor_strings qs ++ s
    → (ps ≡ qs) × (r ≡ s)
unfolding cbor_strings
cbor_strings-injective [] [] r s n hp hq e = (refl, e)
cbor_strings-injective [] (q ∷ qs) r s n hp hq e = absurd (omega arith)
cbor_strings-injective (p ∷ ps) [] r s n hp hq e = absurd (omega arith)
cbor_strings-injective (p ∷ ps) (q ∷ qs) r s n hp hq e =
    let e' =
      sym (append_assoc (cbor_string 3 p) (cbor_strings ps) r)
      ∙ e
      ∙ append_assoc (cbor_string 3 q) (cbor_strings qs) s in
    let (first, rest) =
      cbor_string-injective 3 p q (cbor_strings ps ++ r) (cbor_strings qs ++ s) hp.0 hq.0 e' in
    let (others, after) = cbor_strings-injective ps qs r s (omega arith) hp.1 hq.1 rest in
    (cc (first, others), after)

cbor_tuple-injective :
    (ps qs : List (List ℕ)) (r s : List ℕ)
    → Fits ps
    → Fits qs
    → cbor_tuple ps ++ r ≡ cbor_tuple qs ++ s
    → (ps ≡ qs) × (r ≡ s)
unfolding cbor_tuple
cbor_tuple-injective ps qs r s hp hq e =
    let e' =
      sym (append_assoc (cbor_head 4 (length ps)) (cbor_strings ps) r)
      ∙ e
      ∙ append_assoc (cbor_head 4 (length qs)) (cbor_strings qs) s in
    let (n, rest) =
      cbor_head-injective 4 (length ps) (length qs) (cbor_strings ps ++ r) (cbor_strings qs ++ s)
        hp.0 hq.0 e' in
    cbor_strings-injective ps qs r s n hp.1 hq.1 rest

-- What a bind signs.
pub record Bound : Type 0 where
  pub challenge : List ℕ
  pub key_value : List ℕ
  pub operation : List (List ℕ)
  pub resource : List (List ℕ)
  pub channel : List ℕ

abbrev pub signing_bytes : Bound → List ℕ
signing_bytes b = bind_signing_bytes b.challenge b.key_value b.operation b.resource b.channel

pub record BoundFits (b : Bound) : Type 0 where
  pub challenge_fits : length b.challenge < 2 ^ 64
  pub operation_fits : Fits b.operation
  pub resource_fits : Fits b.resource
  pub channel_fits : length b.channel < 2 ^ 64

-- Encodings of keys of which none begins another, whatever follows.
abbrev pub IsSelfDelimiting : (List ℕ → Type 0) → Type 0
IsSelfDelimiting IsKey =
    (k l : List ℕ) (r s : List ℕ) → IsKey k → IsKey l → k ++ r ≡ l ++ s → (k ≡ l) × (r ≡ s)

-- Where the encodings of session keys delimit themselves and every length fits in 64 bits, binds
-- that sign the same bytes have the same challenge, session key, operation, resource and channel,
-- component by component.
pub bind_signing_bytes-injective :
    (IsKey : List ℕ → Type 0)
    → IsSelfDelimiting IsKey
    → (a b : Bound) → IsKey a.key_value
    → IsKey b.key_value
    → BoundFits a
    → BoundFits b
    → signing_bytes a ≡ signing_bytes b
    → a ≡ b
unfolding bind_signing_bytes
bind_signing_bytes-injective IsKey delimits a b ka kb ha hb e =
    let (_, e₁) =
      append-injective (0x87 ∷ cbor_string 3 domain) (0x87 ∷ cbor_string 3 domain) _ _ refl e in
    let (_, e₂) = append-injective (cbor_string 3 purpose) (cbor_string 3 purpose) _ _ refl e₁ in
    let (challenge, e₃) =
      cbor_string-injective 2 a.challenge b.challenge _ _ ha.challenge_fits hb.challenge_fits e₂ in
    let (key, e₄) = delimits a.key_value b.key_value _ _ ka kb e₃ in
    let (operation, e₅) =
      cbor_tuple-injective a.operation b.operation _ _ ha.operation_fits hb.operation_fits e₄ in
    let (resource, e₆) =
      cbor_tuple-injective a.resource b.resource _ _ ha.resource_fits hb.resource_fits e₅ in
    let (channel, _) =
      cbor_string-injective 2 a.channel b.channel [] [] ha.channel_fits hb.channel_fits
        (ap (λ (l : List ℕ). l ++ []) e₆) in
    cc (challenge, key, operation, resource, channel)
