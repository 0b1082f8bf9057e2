-- ===== src/Protocol.antt =====
-- The shell wire protocol, native/mjolnir_protocol/src/lib.rs: frames, their encoding and the
-- reader. A `String` of the protocol is its UTF-8 bytes; an `i32` is the integer that it holds.
pub mod Reading
pub mod RoundTrip
use mjolnir.Base.{
  ℕ, ◌+◌, ◌-◌, ◌*◌, ◌%◌, ◌≤◌, ◌<◌, ◌^◌, Bool, true, false, Option, none, some, List, [], ◌∷◌, ◌++◌,
  ltb, leb, ◌==◌, if◌then◌else◌, length, take, drop, Result, ok, err, ◌>>=◌,
}
use mjolnir.Base.Bytes.{to_be16, to_be32, from_be16, from_be32, is_utf8}

pub data ℤ : Type 0 where
  pos : ℕ → ℤ
  negsuc : ℕ → ℤ

-- The bit pattern of an `i32`, and the `i32` of a pattern.
abbrev pub i32_bits : ℤ → ℕ
i32_bits (pos n) = n
i32_bits (negsuc n) = 4294967295 - n

abbrev pub i32_of_bits : ℕ → ℤ
i32_of_bits b = if ltb b 2147483648 then pos b else negsuc (4294967295 - b)

abbrev pub header_size : ℕ
header_size = 5

abbrev pub max_payload : ℕ
max_payload = 16 * 1024 * 1024

abbrev pub max_session_len : ℕ
max_session_len = 256

abbrev pub type_data : ℕ
type_data = 1

abbrev pub type_resize : ℕ
type_resize = 2

abbrev pub type_exit : ℕ
type_exit = 3

abbrev pub type_hello : ℕ
type_hello = 4

pub record HelloFields : Type 0 where
  pub rows : ℕ
  pub cols : ℕ
  pub version : ℕ
  pub session : Option (List ℕ)

pub data Frame : Type 0 where
  data_frame : List ℕ → Frame
  resize : (rows cols : ℕ) → Frame
  exit : (exit_code : ℤ) → Frame
  hello : HelloFields → Frame

-- `session.as_deref().map(str::as_bytes).unwrap_or(&[])`
abbrev pub session_bytes : Option (List ℕ) → List ℕ
session_bytes none = []
session_bytes (some s) = s

-- `as u32` keeps the low 32 bits.
unfoldable pub encode : Frame → List ℕ
encode (data_frame payload) = type_data ∷ to_be32 (length payload % 2 ^ 32) ++ payload
encode (resize rows cols) = type_resize ∷ to_be32 4 ++ (to_be16 rows ++ to_be16 cols)
encode (exit exit_code) = type_exit ∷ to_be32 4 ++ to_be32 (i32_bits exit_code)
encode (hello h) =
    type_hello ∷ to_be32 ((6 + length (session_bytes h.session)) % 2 ^ 32)
    ++ (to_be16 h.rows ++ (to_be16 h.cols ++ (to_be16 h.version ++ session_bytes h.session)))

pub data InvalidData : Type 0 where
  payload_too_large resize_length exit_length hello_length session_length session_utf8 : InvalidData
  unknown_type : ℕ → InvalidData

pub data ReadError : Type 0 where
  unexpected_eof other : ReadError
  invalid_data : InvalidData → ReadError

-- What a reader yields: its bytes, then the end of the stream or an I/O error.
pub data End : Type 0 where
  eof io_error : End

pub record Reader : Type 0 where
  pub bytes : List ℕ
  pub end : End

abbrev short_read : {A : Type 0} → End → Result ReadError A
short_read eof = err unexpected_eof
short_read io_error = err other

-- `read_exact` on a buffer of `n` bytes.
unfoldable pub read_exact : ℕ → Reader → Result ReadError (List ℕ × Reader)
read_exact n r =
    if ltb (length r.bytes) n
    then short_read r.end
    else ok (take n r.bytes, record r { bytes = drop n r.bytes })

abbrev invalid : {A : Type 0} → InvalidData → Result ReadError A
invalid e = err (invalid_data e)

-- The session name behind the six fixed bytes of a Hello.
unfoldable pub decode_session : List ℕ → Result ReadError (Option (List ℕ))
decode_session [] = ok none
decode_session (b ∷ raw) =
    if ltb max_session_len (length (b ∷ raw))
    then invalid session_length
    else if is_utf8 (b ∷ raw)
    then ok (some (b ∷ raw))
    else invalid session_utf8

unfoldable pub decode_resize : List ℕ → Result ReadError Frame
decode_resize (a ∷ b ∷ c ∷ d ∷ []) = ok (resize (from_be16 a b) (from_be16 c d))
decode_resize _ = invalid resize_length

unfoldable pub decode_exit : List ℕ → Result ReadError Frame
decode_exit (a ∷ b ∷ c ∷ d ∷ []) = ok (exit (i32_of_bits (from_be32 a b c d)))
decode_exit _ = invalid exit_length

unfoldable pub decode_hello : List ℕ → Result ReadError Frame
unfolding decode_session
decode_hello (a ∷ b ∷ c ∷ d ∷ e ∷ f ∷ raw) = do
  session ← decode_session raw
  let rows = from_be16 a b
  let cols = from_be16 c d
  ok (hello (record { rows = rows; cols = cols; version = from_be16 e f; session = session }))
decode_hello _ = invalid hello_length

-- The last `match` of `read_frame`.
unfoldable pub decode_payload : ℕ → List ℕ → Result ReadError Frame
decode_payload msg_type payload =
    if msg_type == type_data
    then ok (data_frame payload)
    else if msg_type == type_resize
    then decode_resize payload
    else if msg_type == type_exit
    then decode_exit payload
    else if msg_type == type_hello
    then decode_hello payload
    else invalid (unknown_type msg_type)

unfoldable pub read_payload : List ℕ → Reader → Result ReadError (Option Frame × Reader)
read_payload (msg_type ∷ a ∷ b ∷ c ∷ d ∷ _) r =
    if ltb max_payload (from_be32 a b c d) then invalid payload_too_large else do
      (payload, r') ← read_exact (from_be32 a b c d) r
      frame ← decode_payload msg_type payload
      ok (some frame, r')
read_payload _ r = ok (none, r)

-- An end of the stream within the header reads as no frame; any other error is passed on.
abbrev header_read :
    Reader → Result ReadError (List ℕ × Reader) → Result ReadError (Option Frame × Reader)
header_read r (ok (header, r')) = read_payload header r'
header_read r (err unexpected_eof) = ok (none, record r { bytes = [] })
header_read r (err e) = err e

unfoldable pub read_frame : Reader → Result ReadError (Option Frame × Reader)
unfolding read_payload read_exact decode_payload decode_resize decode_exit decode_hello
read_frame r = header_read r (read_exact header_size r)
