-- ===== src/Login/Base64.antt =====
-- auth.rs: `base64url_encode_raw`, which writes the verifier and the challenge of a login.
pub mod Decoding
use mjolnir.Base.{ℕ, ◌+◌, ◌-◌, ◌*◌, ◌/◌, ◌%◌, List, [], ◌∷◌, ltb, if◌then◌else◌, ◌==◌, Str}

-- `ALPHABET[n]`
abbrev pub alphabet : ℕ → ℕ
alphabet n =
    if ltb n 26
    then n + 65
    else if ltb n 52
    then n + 71
    else if ltb n 62
    then n - 4
    else if n == 62
    then b'-'
    else b'_'

-- Chunks of three bytes; `>> 18 & 0x3f` and its kin are divisions.
unfoldable pub base64url_encode_raw : List ℕ → Str
base64url_encode_raw [] = []
base64url_encode_raw (b0 ∷ []) =
    let n = b0 * 65536 in alphabet (n / 262144 % 64) ∷ alphabet (n / 4096 % 64) ∷ []
base64url_encode_raw (b0 ∷ b1 ∷ []) =
    let n = b0 * 65536 + b1 * 256 in
    alphabet (n / 262144 % 64) ∷ alphabet (n / 4096 % 64) ∷ alphabet (n / 64 % 64) ∷ []
base64url_encode_raw (b0 ∷ b1 ∷ b2 ∷ bs) =
    let n = b0 * 65536 + b1 * 256 + b2 in
    alphabet (n / 262144 % 64)
    ∷ alphabet (n / 4096 % 64)
    ∷ alphabet (n / 64 % 64)
    ∷ alphabet (n % 64)
    ∷ base64url_encode_raw bs
