-- ===== src/Gateway/Headers/Challenge.antt =====
-- main.rs: `extract_acme_http01_token` names a file of its directory, and `read_until_headers`
-- keeps to its bounds.
use mjolnir.Base.{
  ℕ, ◌≤◌, true, false, some, List, [], ◌∷◌, ◌++◌, Str, is_empty, ltb, length, all, All, arith, ◌≡◌,
  ◌≢◌, refl, ok, is_ascii_alphanumeric, len, Option-cases, strip_prefix, inl, inr, append_assoc,
  append_nil, length-append, map, Bool-cases, sym,
}
use mjolnir.Gateway.Headers.{
  Read, failed, late, chunk, read_loop, read_until_headers, max_header_size, has_terminator,
  token_char, token_of, challenge_line, http01_path, extract_acme_http01_token,
}

-- A name with no separator and no dot, of 1 to 128 bytes.
pub record IsFileName (t : Str) : Type 0 where
  pub not_empty : t ≢ []
  pub short : len t ≤ 128
  pub chars : All (λ c. (c ≢ b'/') × (c ≢ b'.') × (c ≢ 0)) t

token_char-all :
    (t : Str) → all token_char t ≡ true → All (λ c. (c ≢ b'/') × (c ≢ b'.') × (c ≢ 0)) t
unfolding is_ascii_alphanumeric
token_char-all [] h = tt
token_char-all (c ∷ t) h =
    ((ground arith, ground arith, ground arith), token_char-all t (ground arith))

IsFileName-token : (rest t : Str) → token_of rest ≡ some t → IsFileName t
unfolding token_of
IsFileName-token rest t h = record {
  not_empty = ground arith;
  short = ground arith;
  chars = token_char-all t (ground arith);
}

IsFileName-challenge : (ws : List Str) (t : Str) → challenge_line ws ≡ some t → IsFileName t
unfolding challenge_line
IsFileName-challenge (m ∷ p ∷ ws) t h = elim (Option-cases (strip_prefix http01_path p)) [
  | inl e ↦ ground arith
  | inr (rest, e) ↦ ground (arith, IsFileName-token rest t)
]
IsFileName-challenge (m ∷ []) t h = cc
IsFileName-challenge [] t h = cc

-- Whatever a request is, the file that a challenge is answered from lies in the challenge
-- directory itself: its name has 1 to 128 bytes, no separator, no dot and no zero.
pub IsFileName-extract_acme_http01_token :
    (bytes : List ℕ) (t : Str) → extract_acme_http01_token bytes ≡ some t → IsFileName t
unfolding extract_acme_http01_token
IsFileName-extract_acme_http01_token bytes t h = IsFileName-challenge _ t h

abbrev pub received : List Read → List ℕ
received [] = []
received (chunk bytes ∷ reads) = bytes ++ received reads
received (late ∷ reads) = []
received (failed ∷ reads) = []

-- A head that was read: it is bounded, it is whole, and it is what the socket gave first.
pub record IsHead (given out : List ℕ) : Type 0 where
  pub bounded : length out ≤ max_header_size
  pub whole : has_terminator out ≡ true
  pub unread : List ℕ
  pub splits : given ≡ out ++ unread

read_loop-IsHead :
    (buf : List ℕ) (reads : List Read) (out : List ℕ)
    → read_loop buf reads ≡ ok out
    → IsHead (buf ++ received reads) out
unfolding read_loop
read_loop-IsHead buf [] out h = cc
read_loop-IsHead buf (late ∷ reads) out h = cc
read_loop-IsHead buf (failed ∷ reads) out h = cc
read_loop-IsHead buf (chunk bytes ∷ reads) out h =
    let grown = buf ++ bytes in
    let later = read_loop-IsHead grown reads out in
    let joined = append_assoc buf bytes (received reads) in
    elim (Bool-cases (has_terminator grown)) [
      | inl e ↦ record {
        bounded = ground arith;
        whole = ground arith;
        unread = received reads;
        splits = ground (arith, joined);
      }
      | inr e ↦ rw joined at (later (ground arith))
    ]

-- A head that is read has at most 8192 bytes and holds its terminator, and it is the first part of
-- what the socket gave: no byte is lost or made up.
pub read_until_headers-IsHead :
    (reads : List Read) (out : List ℕ)
    → read_until_headers reads ≡ ok out
    → IsHead (received reads) out
unfolding read_until_headers
read_until_headers-IsHead reads out h = read_loop-IsHead [] reads out h

abbrev pub NonEmpty : List ℕ → Type 0
NonEmpty bytes = is_empty bytes ≡ false

read_loop-arrives :
    (buf : List ℕ) (chunks : List (List ℕ))
    → All NonEmpty chunks
    → has_terminator buf ≡ false
    → length (buf ++ received (map chunk chunks)) ≤ max_header_size
    → has_terminator (buf ++ received (map chunk chunks)) ≡ true
    → (out : List ℕ) × (read_loop buf (map chunk chunks) ≡ ok out)
unfolding read_loop
read_loop-arrives buf [] n none_yet short whole = absurd (ground (arith, append_nil buf))
read_loop-arrives buf (bytes ∷ chunks) n none_yet short whole =
    let grown = buf ++ bytes in
    let tail = received (map chunk chunks) in
    let joined : buf ++ received (map chunk (bytes ∷ chunks)) ≡ grown ++ tail =
      sym (append_assoc buf bytes tail) in
    let fits : length (grown ++ tail) ≤ max_header_size = rw joined at short in
    let held : has_terminator (grown ++ tail) ≡ true = rw joined at whole in
    let small : ltb max_header_size (length grown) ≡ false =
      ground (arith, length-append grown tail) in
    elim (Bool-cases (has_terminator grown)) [
      | inl e ↦ (grown, rw (n.0, small, e) refl)
      | inr e ↦
          let (out, later) = read_loop-arrives grown chunks n.1 e fits held in
          (out, rw (n.0, small, e) later)
    ]

-- A head of at most 8192 bytes is read, however the socket cuts it into chunks.
pub read_until_headers-arrives :
    (chunks : List (List ℕ))
    → All NonEmpty chunks
    → length (received (map chunk chunks)) ≤ max_header_size
    → has_terminator (received (map chunk chunks)) ≡ true
    → (out : List ℕ) × (read_until_headers (map chunk chunks) ≡ ok out)
unfolding read_until_headers
read_until_headers-arrives chunks n short whole =
    read_loop-arrives [] chunks n (unfold has_terminator in refl) short whole
