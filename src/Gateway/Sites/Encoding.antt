-- ===== src/Gateway/Sites/Encoding.antt =====
-- sites.rs and parked.rs: `percent_decode` reads what `percent_encode` wrote.
use Prim.Native.Nat.{◌<◌}
use mjolnir.Base.{
  ℕ, ◌/◌, ◌%◌, Bool, true, false, ◌||◌, some, List, [], ◌∷◌, Str, ltb, ◌==◌, all, All, arith, ◌≡◌,
  refl, Bool-cases, inl, inr, ap,
}
use mjolnir.Base.Bytes.{IsByte}
use mjolnir.Base.Utf8.{as_bytes-ascii, is_ascii}
use mjolnir.Gateway.Parked.{hex_pair, decode_bytes, percent_decode}
use mjolnir.Gateway.Sites.{unreserved, upper_hex, encode_bytes, percent_encode}

hex_pair-upper : (b : ℕ) → b < 256 → hex_pair (upper_hex (b / 16)) (upper_hex (b % 16)) ≡ some b
unfolding hex_pair
hex_pair-upper b h = ground arith

decode_bytes-plain :
    (c : ℕ) (s : List ℕ) → (c == b'%') ≡ false → decode_bytes (c ∷ s) ≡ c ∷ decode_bytes s
unfolding decode_bytes
decode_bytes-plain c [] h = refl
decode_bytes-plain c (a ∷ []) h = refl
decode_bytes-plain c (a ∷ b ∷ s) h = rw (decode_bytes, h) refl

decode_bytes-hex :
    (b : ℕ) (s : List ℕ)
    → b < 256
    → decode_bytes (b'%' ∷ upper_hex (b / 16) ∷ upper_hex (b % 16) ∷ s) ≡ b ∷ decode_bytes s
unfolding decode_bytes
decode_bytes-hex b s h = rw (decode_bytes, hex_pair-upper b h) refl

no_percent : (c : ℕ) → unreserved c ≡ true → (c == b'%') ≡ false
unfolding unreserved
no_percent c h = ground arith

decode-encode : (bs : List ℕ) → All IsByte bs → decode_bytes (encode_bytes bs) ≡ bs
unfolding decode_bytes
decode-encode [] h = refl
decode-encode (b ∷ bs) h = elim (Bool-cases (unreserved b)) [
  | inl e ↦ rw e (
      rw (decode_bytes-plain b (encode_bytes bs) (no_percent b e))
        (ap (λ t. b ∷ t) (decode-encode bs h.1)))
  | inr e ↦
      rw e (rw (decode_bytes-hex b (encode_bytes bs) h.0) (ap (λ t. b ∷ t) (decode-encode bs h.1)))
]

IsByte-ascii : (s : Str) → is_ascii s ≡ true → All IsByte s
IsByte-ascii [] h = tt
IsByte-ascii (c ∷ s) h = (ground arith, IsByte-ascii s (ground arith))

-- The characters of an encoded text.
abbrev pub url_char : ℕ → Bool
url_char c = unreserved c || c == b'%'

upper_hex-unreserved : (n : ℕ) → n < 16 → unreserved (upper_hex n) ≡ true
unfolding unreserved
upper_hex-unreserved n h = ground arith

encode_bytes-chars : (bs : List ℕ) → All IsByte bs → all url_char (encode_bytes bs) ≡ true
unfolding unreserved
encode_bytes-chars [] h = refl
encode_bytes-chars (b ∷ bs) h = elim (Bool-cases (unreserved b)) [
  | inl e ↦ rw (e, e) (encode_bytes-chars bs h.1)
  | inr e ↦
      let byte : b < 256 = h.0 in
      let high = upper_hex-unreserved (b / 16) (omega arith) in
      let low = upper_hex-unreserved (b % 16) (omega arith) in
      rw e (rw (high, low) (encode_bytes-chars bs h.1))
]

ascii_char : (c : ℕ) → url_char c ≡ true → ltb c 0x80 ≡ true
unfolding unreserved
ascii_char c h = ground arith

ascii-url : (s : Str) → all url_char s ≡ true → is_ascii s ≡ true
ascii-url [] h = refl
ascii-url (c ∷ s) h =
    let one : ltb c 0x80 ≡ true = ascii_char c (ground arith) in rw one (ascii-url s (ground arith))

-- What is written for an ASCII text is of unreserved characters and "%" only, and the decoder of the
-- parked page reads the text back from it.
pub percent_decode-percent_encode :
    (s : Str)
    → is_ascii s ≡ true
    → (percent_decode (percent_encode s) ≡ s) × (all url_char (percent_encode s) ≡ true)
unfolding percent_decode percent_encode
percent_decode-percent_encode s h =
    let bytes = IsByte-ascii s h in
    let chars = encode_bytes-chars s bytes in
    let same = as_bytes-ascii s h in
    let written = as_bytes-ascii (encode_bytes s) (ascii-url (encode_bytes s) chars) in
    rw same (rw written (decode-encode s bytes), chars)
