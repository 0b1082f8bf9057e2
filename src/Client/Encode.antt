-- ===== src/Client/Encode.antt =====
-- connect.rs: quoting for a shell, the encoding of a query, and the names of targets. sites.rs: the
-- framing of a chunk.
pub mod Quoted
pub mod Framed
use mjolnir.Base.{
  ℕ, ◌+◌, ◌*◌, ◌/◌, ◌%◌, Bool, true, false, ◌&&◌, List, [], ◌∷◌, ◌++◌, Str, codes, len, any,
  if◌then◌else◌, ◌==◌, length,
}
use mjolnir.Base.Utf8.{as_bytes}
use mjolnir.Gateway.Sites.{encode_bytes}

-- `shell_quote` is the one of a Unix build; that of a Windows build is not modelled.
-- `s.replace('\'', "'\\''")`
unfoldable pub replace_quotes : Str → Str
replace_quotes [] = []
replace_quotes (c ∷ s) =
    let rest = replace_quotes s in if c == 39 then 39 ∷ 92 ∷ 39 ∷ 39 ∷ rest else c ∷ rest

unfoldable pub shell_quote : Str → Str
unfolding replace_quotes
shell_quote s = 39 ∷ (replace_quotes s ++ 39 ∷ [])

unfoldable pub percent_encode_query : Str → Str
percent_encode_query value = encode_bytes (as_bytes value)

unfoldable pub is_vm_id : Str → Bool
is_vm_id target = len target == 36 && any (λ c. c == b'-') target

unfoldable pub ssh_dummy_host : Str → Str
unfolding is_vm_id
ssh_dummy_host target = if is_vm_id target then codes "mj-" ++ target else codes "mj-iroh"

-- `u64::to_be_bytes`
abbrev pub to_be64 : ℕ → List ℕ
to_be64 n =
    n / 72057594037927936 % 256
    ∷ n / 281474976710656 % 256
    ∷ n / 1099511627776 % 256
    ∷ n / 4294967296 % 256
    ∷ n / 16777216 % 256
    ∷ n / 65536 % 256
    ∷ n / 256 % 256
    ∷ n % 256
    ∷ []

unfoldable pub frame_chunk : List ℕ → List ℕ → List ℕ
frame_chunk ciphertext outboard =
    to_be64 (length ciphertext) ++ (ciphertext ++ (to_be64 (length outboard) ++ outboard))
