-- ===== src/Protocol/Reading.antt =====
-- What a frame that was read says of the bytes that were there.
use mjolnir.Base.{
  ℕ, suc, ◌+◌, ◌%◌, ◌≤◌, ◌<◌, ◌≡◌, Option, none, some, List, [], ◌∷◌, ◌++◌, length, ok, arith, All,
  All-append_left, ap, ◌∙◌, take, length-take, take-append-drop, >>=-eq-ok, ok-injective,
}
use mjolnir.Base.Bytes.{IsByte, to_be16, to_be32, from_be16, from_be32}
use mjolnir.Protocol.RoundTrip.{framed}
use mjolnir.Protocol.{
  i32_bits, i32_of_bits, session_bytes, max_payload, Frame, data_frame, resize, exit, encode,
  Reader, End, eof, header_size, read_exact, read_frame, read_payload, decode_payload,
  decode_resize, decode_exit, decode_hello, decode_session,
}

-- A stream that ends within the header reads as no frame, as a closed stream does.
pub read_frame-truncated_header :
    (bytes : List ℕ)
    → length bytes < header_size
    → read_frame (record { bytes = bytes; end = eof }) ≡ ok (none, record { bytes = []; end = eof })
unfolding read_frame
read_frame-truncated_header bytes h = ground arith

be16_bytes : (a b : ℕ) → IsByte a → IsByte b → to_be16 (from_be16 a b) ≡ a ∷ b ∷ []
be16_bytes a b ha hb = ground arith

be32_bytes :
    (a b c d : ℕ)
    → IsByte a
    → IsByte b
    → IsByte c
    → IsByte d
    → to_be32 (from_be32 a b c d) ≡ a ∷ b ∷ c ∷ d ∷ []
be32_bytes a b c d ha hb hc hd = ground arith

i32_bits-i32_of_bits : (n : ℕ) → n < 4294967296 → i32_bits (i32_of_bits n) ≡ n
i32_bits-i32_of_bits n h = ground arith

encode-data : (p : List ℕ) → length p ≤ max_payload → encode (data_frame p) ≡ framed 1 p
unfolding encode
encode-data p n = let e : length p % 4294967296 ≡ length p = omega arith in rw e

encode-decode_resize :
    (p : List ℕ) (f : Frame) → All IsByte p → decode_resize p ≡ ok f → encode f ≡ framed 2 p
unfolding decode_resize encode
encode-decode_resize (a ∷ b ∷ c ∷ d ∷ []) f h e =
    let same : resize (from_be16 a b) (from_be16 c d) ≡ f = cc in rw (← same) (ground arith)
encode-decode_resize p f h e = cc

encode-decode_exit :
    (p : List ℕ) (f : Frame) → All IsByte p → decode_exit p ≡ ok f → encode f ≡ framed 3 p
unfolding decode_exit encode
encode-decode_exit (a ∷ b ∷ c ∷ d ∷ []) f h e =
    let same : exit (i32_of_bits (from_be32 a b c d)) ≡ f = cc in
    rw (← same, i32_bits-i32_of_bits (from_be32 a b c d) (omega arith)) (ground arith)
encode-decode_exit p f h e = cc

decode_session-eq-ok :
    (raw : List ℕ) (s : Option (List ℕ)) → decode_session raw ≡ ok s → session_bytes s ≡ raw
unfolding decode_session
decode_session-eq-ok [] s h = ground arith
decode_session-eq-ok (b ∷ raw) s h = ground arith

encode-decode_hello :
    (p : List ℕ) (f : Frame)
    → length p ≤ max_payload
    → All IsByte p
    → decode_hello p ≡ ok f
    → encode f ≡ framed 4 p
unfolding decode_hello encode
encode-decode_hello (a ∷ b ∷ c ∷ d ∷ e ∷ g ∷ raw) f n h k =
    let (s, es, same) = >>=-eq-ok (decode_session raw) _ k in
    let named = decode_session-eq-ok raw s es in
    let size : (6 + length raw) % 4294967296 ≡ suc (suc (suc (suc (suc (suc (length raw)))))) =
      omega arith in
    rw (← ok-injective same) (rw (named, size) (ground arith))
encode-decode_hello p f n h e = cc

encode-decode_payload :
    (t : ℕ) (p : List ℕ) (f : Frame)
    → length p ≤ max_payload
    → All IsByte p
    → decode_payload t p ≡ ok f
    → encode f ≡ framed t p
unfolding decode_payload
encode-decode_payload t p f n h e = ground (
  arith,
  encode-decode_resize p f h,
  encode-decode_exit p f h,
  encode-decode_hello p f n h,
  encode-data p n,
)

read_payload-eq-ok :
    (t a b c d : ℕ) (r : Reader) (f : Frame) (r' : Reader)
    → read_payload (t ∷ a ∷ b ∷ c ∷ d ∷ []) r ≡ ok (some f, r')
    → (p : List ℕ) × (p ++ r'.bytes ≡ r.bytes)
      × (length p ≡ from_be32 a b c d)
      × (length p ≤ max_payload)
      × (decode_payload t p ≡ ok f)
unfolding read_payload read_exact
read_payload-eq-ok t a b c d r f r' h =
    let n = from_be32 a b c d in
    (
      take n r.bytes,
      ground (arith, take-append-drop n r.bytes),
      ground (arith, length-take n r.bytes),
      ground (arith, length-take n r.bytes),
      ground arith,
    )

-- Whatever was read is what `encode` writes for the frame: the encoding is canonical.
pub encode-read_frame :
    (bytes : List ℕ) (e : End) (f : Frame) (r : Reader)
    → All IsByte bytes
    → read_frame (record { bytes = bytes; end = e }) ≡ ok (some f, r)
    → encode f ++ r.bytes ≡ bytes
encode-read_frame (t ∷ a ∷ b ∷ c ∷ d ∷ tail) e f r h k =
    let (p, parts, size, small, decoded) =
      read_payload-eq-ok t a b c d (record { bytes = tail; end = e }) f r
        (unfold read_frame read_exact in ground arith) in
    let fine = All-append_left IsByte p r.bytes (rw parts (h.1.1.1.1.1)) in
    let same = encode-decode_payload t p f small fine decoded in
    let word = be32_bytes a b c d h.1.0 h.1.1.0 h.1.1.1.0 h.1.1.1.1.0 in
    rw (same, size)
      (ap (λ (l : List ℕ). t ∷ l ++ (p ++ r.bytes)) word
        ∙ ap (λ (l : List ℕ). t ∷ a ∷ b ∷ c ∷ d ∷ l) parts)
encode-read_frame bytes e f r h k = unfold read_frame read_exact in ground arith
