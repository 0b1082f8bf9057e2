-- ===== src/Biscuit/Bind.antt =====
-- The bytes that a session bind signs: canonical CBOR of a tuple of operation and resource, the
-- challenge, the session's key and the channel.
pub mod Injective
use mjolnir.Base.{
  ℕ, ◌+◌, ◌*◌, ◌/◌, ◌%◌, Bool, true, false, not, ◌&&◌, ◌||◌, Option, none, some, List, [], ◌∷◌,
  ◌++◌, Str, codes, if◌then◌else◌, leb, length, all, any, is_empty, Result, ok, err,
}
use mjolnir.Base.Bytes.{to_be16, to_be32}

-- `CanonicalTuple::new`; a text is its bytes.
token_ok : Str → Bool
token_ok s = not (is_empty s) && all (λ b. leb 0x21 b && leb b 0x7e) s

unfoldable pub new_tuple : List Str → Option (List Str)
unfolding token_ok
new_tuple [] = none
new_tuple (p ∷ ps) = if all token_ok (p ∷ ps) then some (p ∷ ps) else none

abbrev pub to_be64 : ℕ → List ℕ
to_be64 n = to_be32 (n / 4294967296) ++ to_be32 n

-- `major << 5`, and `tag | n` for an `n` below 32, which shares no bit with the tag.
unfoldable pub cbor_head : ℕ → ℕ → List ℕ
cbor_head major n =
    let tag = major * 32 in
    if leb n 23
    then (tag + n) ∷ []
    else if leb n 255
    then (tag + 24) ∷ n % 256 ∷ []
    else if leb n 65535
    then (tag + 25) ∷ to_be16 n
    else if leb n 0xffffffff
    then (tag + 26) ∷ to_be32 n
    else (tag + 27) ∷ to_be64 n

unfoldable pub cbor_string : ℕ → List ℕ → List ℕ
unfolding cbor_head
cbor_string major bytes = cbor_head major (length bytes) ++ bytes

unfoldable pub cbor_strings : List (List ℕ) → List ℕ
unfolding cbor_string
cbor_strings [] = []
cbor_strings (part ∷ parts) = cbor_string 3 part ++ cbor_strings parts

unfoldable pub cbor_tuple : List (List ℕ) → List ℕ
unfolding cbor_strings
cbor_tuple parts = cbor_head 4 (length parts) ++ cbor_strings parts

abbrev pub domain : List ℕ
domain = codes "identikey-mjolnir/v1"

abbrev pub purpose : List ℕ
purpose = codes "bind"

-- `bind_signing_bytes`, with the library's encoding of the session's key.
unfoldable pub bind_signing_bytes :
    List ℕ
    → (session_key_value : List ℕ) → (operation resource : List (List ℕ)) → (channel : List ℕ)
    → List ℕ
unfolding cbor_string cbor_tuple
bind_signing_bytes challenge key_value operation resource channel =
    0x87 ∷ cbor_string 3 domain
    ++ (cbor_string 3 purpose
        ++ (cbor_string 2 challenge
            ++ (key_value
                ++ (cbor_tuple operation ++ (cbor_tuple resource ++ cbor_string 2 channel)))))
