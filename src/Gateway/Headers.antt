-- ===== src/Gateway/Headers.antt =====
-- main.rs: what the proxy reads in the head of a request, and the header that it sets there. A
-- request is a list of bytes; `String::from_utf8_lossy` makes the head a text.
pub mod Block
pub mod Rewrite
pub mod Challenge
pub mod Target
use mjolnir.Base.{
  ℕ, zero, suc, ◌+◌, Bool, true, false, not, ◌&&◌, ◌||◌, Option, none, some, List, [], ◌∷◌, ◌++◌,
  Str, codes, len, is_empty, eq_str, if◌then◌else◌, leb, ltb, ◌==◌, length, take, drop, all, before,
  trim, is_ascii_alphanumeric, strip_prefix, starts_with, Result, ok, err,
}
use mjolnir.Base.Utf8.{from_utf8_lossy, as_bytes}
use mjolnir.Base.Words.{
  starts_with_str, starts_with_ignore_case, eq_ignore_ascii_case, split_crlf, split_whitespace,
  first_line,
}
use mjolnir.Gateway.Classify.{ProxyError, missing_host, header_timeout}

abbrev pub crlf : Str
crlf = 13 ∷ 10 ∷ []

-- `windows(4).position(|w| w == b"\r\n\r\n")`
unfoldable pub terminator_at : List ℕ → Option ℕ
terminator_at [] = none
terminator_at (c ∷ s) =
    if starts_with_str (crlf ++ crlf) (c ∷ s)
    then some 0
    else elim (terminator_at s) [ none ↦ none | some i ↦ some (suc i) ]

-- The end of the head, its terminator included.
unfoldable pub header_end : List ℕ → ℕ
unfolding terminator_at
header_end bytes = elim (terminator_at bytes) [ none ↦ length bytes | some i ↦ i + 4 ]

unfoldable pub head_of : List ℕ → List ℕ
unfolding header_end
head_of bytes = take (header_end bytes) bytes

-- What one read of the socket gives: an error, the end, or a chunk; `late` when the time is over.
pub data Read : Type 0 where
  failed late : Read
  chunk : List ℕ → Read

abbrev pub max_header_size : ℕ
max_header_size = 8192

unfoldable pub has_terminator : List ℕ → Bool
unfolding terminator_at
has_terminator bytes = elim (terminator_at bytes) [ none ↦ false | some i ↦ true ]

-- The loop of `read_until_headers`, over the reads that the socket answers; where these stop the
-- timeout ends the wait.
read_loop : List ℕ → List Read → Result ProxyError (List ℕ)
read_loop buf [] = err header_timeout
read_loop buf (late ∷ reads) = err header_timeout
read_loop buf (failed ∷ reads) = err missing_host
read_loop buf (chunk bytes ∷ reads) =
    let grown = buf ++ bytes in
    let rest = read_loop grown reads in
    if is_empty bytes
    then err missing_host
    else if ltb max_header_size (length grown)
    then err missing_host
    else if has_terminator grown
    then ok grown
    else rest

unfoldable pub read_until_headers : List Read → Result ProxyError (List ℕ)
unfolding read_loop has_terminator
read_until_headers reads = read_loop [] reads

-- `split_whitespace().nth(1)`
abbrev second : List Str → Option Str
second (a ∷ b ∷ ws) = some b
second ws = none

unfoldable pub request_path : List ℕ → Option Str
unfolding terminator_at
request_path bytes =
    let end : ℕ = elim (terminator_at bytes) [ none ↦ length bytes | some i ↦ i ] in
    elim (first_line (from_utf8_lossy (take end bytes))) [
      | none ↦ none
      | some line ↦ elim (second (split_whitespace line)) [
        | none ↦ none
        | some target ↦ some (before b'?' target)
      ]
    ]

unfoldable pub is_control_plane : Str → Bool
is_control_plane path =
    eq_str path (codes "/api")
    || starts_with_str (codes "/api/") path
    || eq_str path (codes "/auth")
    || starts_with_str (codes "/auth/") path

-- A line of more than five bytes that "host:" begins.
abbrev pub is_host_line : Str → Bool
is_host_line line = ltb 5 (len line) && starts_with_ignore_case (codes "host:") line

unfoldable pub host_in : List Str → Option Str
host_in [] = none
host_in (line ∷ lines) = if is_host_line line then some (trim (drop 5 line)) else host_in lines

unfoldable pub extract_host : List ℕ → Option Str
unfolding head_of host_in
extract_host bytes = host_in (split_crlf (from_utf8_lossy (head_of bytes)))

-- The header that a line holds is the one that is set.
abbrev pub is_named : Str → Str → Bool
is_named name line = starts_with_ignore_case (name ++ codes ":") line

-- The loop over the lines of the head.
unfoldable pub write_lines : Str → Str → List Str → List ℕ
write_lines name value [] = []
write_lines name value (line ∷ lines) =
    let rest = write_lines name value lines in
    if is_empty line
    then as_bytes name ++ (codes ": " ++ (as_bytes value ++ (crlf ++ crlf)))
    else if is_named name line
    then rest
    else as_bytes line ++ (crlf ++ rest)

unfoldable pub set_or_replace_header : List ℕ → Str → Str → List ℕ
unfolding head_of header_end write_lines
set_or_replace_header bytes name value =
    write_lines name value (split_crlf (from_utf8_lossy (head_of bytes)))
    ++ drop (header_end bytes) bytes

abbrev pub token_char : ℕ → Bool
token_char b = is_ascii_alphanumeric b || b == b'_' || b == b'-'

abbrev pub http01_path : Str
http01_path = codes "/.well-known/acme-challenge/"

-- The token behind the directory, where it is well-formed.
unfoldable pub token_of : Str → Option Str
unfolding is_ascii_alphanumeric
token_of rest =
    let token = before b'?' rest in
    if is_empty token || ltb 128 (len token)
    then none
    else if not (all token_char token)
    then none
    else some token

unfoldable pub challenge_line : List Str → Option Str
unfolding token_of
challenge_line (method ∷ path ∷ ws) =
    if not (eq_ignore_ascii_case method (codes "GET"))
      && not (eq_ignore_ascii_case method (codes "HEAD"))
    then none
    else elim (strip_prefix http01_path path) [ none ↦ none | some rest ↦ token_of rest ]
challenge_line ws = none

abbrev first_of : List Str → Str
first_of [] = []
first_of (l ∷ ls) = l

unfoldable pub extract_acme_http01_token : List ℕ → Option Str
unfolding head_of challenge_line
extract_acme_http01_token bytes =
    challenge_line (split_whitespace (first_of (split_crlf (from_utf8_lossy (head_of bytes)))))
