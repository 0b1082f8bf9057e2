-- ===== src/Login/Base64/Decoding.antt =====
-- auth.rs: the bytes can be read back from their base64url text.
use mjolnir.Base.{
  ℕ, ◌+◌, ◌-◌, ◌*◌, ◌/◌, ◌%◌, ◌<◌, List, [], ◌∷◌, leb, if◌then◌else◌, ◌==◌, Str, All, ap, arith,
  ◌≡◌, refl,
}
use mjolnir.Base.Bytes.{IsByte}
use mjolnir.Login.Base64.{alphabet, base64url_encode_raw}

-- The value of a character of the alphabet.
abbrev pub sextet : ℕ → ℕ
sextet c =
    if leb b'a' c
    then c - 71
    else if c == b'_'
    then 63
    else if leb b'A' c
    then c - 65
    else if c == b'-'
    then 62
    else c + 4

sextet-alphabet : (n : ℕ) → n < 64 → sextet (alphabet n) ≡ n
sextet-alphabet n h = ground arith

-- RFC 4648 without padding: four characters are three bytes, and a shorter last group two or one.
unfoldable pub decode : Str → List ℕ
decode [] = []
decode (a ∷ []) = []
decode (a ∷ b ∷ []) = (sextet a * 4 + sextet b / 16) ∷ []
decode (a ∷ b ∷ c ∷ []) = (sextet a * 4 + sextet b / 16) ∷ (sextet b % 16 * 16 + sextet c / 4) ∷ []
decode (a ∷ b ∷ c ∷ d ∷ s) =
    (sextet a * 4 + sextet b / 16)
    ∷ (sextet b % 16 * 16 + sextet c / 4)
    ∷ (sextet c % 4 * 64 + sextet d)
    ∷ decode s

-- The bytes that the four parts of a word of three bytes make.
joined :
    (a b c : ℕ)
    → a < 256
    → b < 256
    → c < 256
    → let n = a * 65536 + b * 256 + c in
      (n / 262144 % 64 * 4 + n / 4096 % 64 / 16 ≡ a)
      × (n / 4096 % 64 % 16 * 16 + n / 64 % 64 / 4 ≡ b)
      × (n / 64 % 64 % 4 * 64 + n % 64 ≡ c)
joined a b c ha hb hc = (omega arith, omega arith, omega arith)

pub decode-base64url_encode_raw :
    (bs : List ℕ) → All IsByte bs → decode (base64url_encode_raw bs) ≡ bs
unfolding decode base64url_encode_raw
decode-base64url_encode_raw [] h = refl
decode-base64url_encode_raw (a ∷ []) h =
    let n = a * 65536 in
    let p = sextet-alphabet (n / 262144 % 64) (omega arith) in
    let q = sextet-alphabet (n / 4096 % 64) (omega arith) in
    rw (p, q) (ap (λ x. x ∷ []) (omega (arith, h.0)))
decode-base64url_encode_raw (a ∷ b ∷ []) h =
    let n = a * 65536 + b * 256 in
    let p = sextet-alphabet (n / 262144 % 64) (omega arith) in
    let q = sextet-alphabet (n / 4096 % 64) (omega arith) in
    let r = sextet-alphabet (n / 64 % 64) (omega arith) in
    let x : n / 262144 % 64 * 4 + n / 4096 % 64 / 16 ≡ a = omega (arith, h.0, h.1.0) in
    let y : n / 4096 % 64 % 16 * 16 + n / 64 % 64 / 4 ≡ b = omega (arith, h.0, h.1.0) in
    rw (p, q, r) (rw (x, y) refl)
decode-base64url_encode_raw (a ∷ b ∷ c ∷ bs) h =
    let n = a * 65536 + b * 256 + c in
    let ih = decode-base64url_encode_raw bs h.1.1.1 in
    let p = sextet-alphabet (n / 262144 % 64) (omega arith) in
    let q = sextet-alphabet (n / 4096 % 64) (omega arith) in
    let r = sextet-alphabet (n / 64 % 64) (omega arith) in
    let s = sextet-alphabet (n % 64) (omega arith) in
    let (x, y, z) = joined a b c h.0 h.1.0 h.1.1.0 in rw (p, q, r, s) (rw (x, y, z, ih) refl)
