-- ===== src/Protocol/RoundTrip.antt =====
-- Reading what `encode` wrote.
use mjolnir.Base.{
  ℕ, suc, ◌+◌, ◌≤◌, ◌<◌, ◌^◌, ◌/◌, ◌%◌, ◌≡◌, ◌≢◌, refl, ap, true, Option, none, some, List, [], ◌∷◌,
  ◌++◌, length, ok, arith, length-append, take-length-append, drop-length-append,
}
use mjolnir.Base.Bytes.{is_utf8, to_be16, to_be32, from_be16, from_be32}
use mjolnir.Protocol.{
  ℤ, pos, negsuc, i32_bits, i32_of_bits, session_bytes, max_payload, max_session_len, Frame,
  data_frame, resize, exit, hello, encode, End, eof, read_exact, read_frame, read_payload,
  decode_payload, decode_resize, decode_exit, decode_hello, decode_session,
}

abbrev pub IsI32 : ℤ → Type 0
IsI32 (pos n) = n < 2147483648
IsI32 (negsuc n) = n < 2147483648

abbrev pub IsSession : Option (List ℕ) → Type 0
IsSession none = Unit
IsSession (some s) = (s ≢ []) × (length s ≤ max_session_len) × (is_utf8 s ≡ true)

-- A frame that a sender can have in hand and that the reader's limits admit.
abbrev pub IsSendable : Frame → Type 0
IsSendable (data_frame payload) = length payload ≤ max_payload
IsSendable (resize rows cols) = (rows < 65536) × (cols < 65536)
IsSendable (exit exit_code) = IsI32 exit_code
IsSendable (hello h) =
    (h.rows < 65536) × (h.cols < 65536) × (h.version < 65536) × IsSession h.session

read_exact-append :
    (xs ys : List ℕ) (e : End)
    → read_exact (length xs) (record { bytes = xs ++ ys; end = e })
      ≡ ok (xs, record { bytes = ys; end = e })
unfolding read_exact
read_exact-append xs ys e =
    ground (arith, length-append xs ys, take-length-append xs ys, drop-length-append xs ys)

-- A frame with the type byte `t` and the payload `p`.
abbrev pub framed : ℕ → List ℕ → List ℕ
framed t p = t ∷ to_be32 (length p) ++ p

from_be32-to_be32 :
    (n : ℕ)
    → n < 2 ^ 32
    → from_be32 (n / 16777216 % 256) (n / 65536 % 256) (n / 256 % 256) (n % 256) ≡ n
from_be32-to_be32 n h = omega arith

read_payload-framed :
    (t : ℕ) (p rest : List ℕ) (e : End) {f : Frame}
    → length p ≤ max_payload
    → decode_payload t p ≡ ok f
    → read_payload (t ∷ to_be32 (length p)) (record { bytes = p ++ rest; end = e })
      ≡ ok (some f, record { bytes = rest; end = e })
unfolding read_payload
read_payload-framed t p rest e h d =
    rw (from_be32-to_be32 (length p) (omega arith), read_exact-append p rest e) (ground arith)

read_frame-framed :
    (t : ℕ) (p rest : List ℕ) (e : End) {f : Frame}
    → length p ≤ max_payload
    → decode_payload t p ≡ ok f
    → read_frame (record { bytes = framed t p ++ rest; end = e })
      ≡ ok (some f, record { bytes = rest; end = e })
read_frame-framed t p rest e h d =
    unfold read_frame in
    rw (read_exact-append (t ∷ to_be32 (length p)) (p ++ rest) e)
      (read_payload-framed t p rest e h d)

abbrev tag : Frame → ℕ
tag (data_frame p) = 1
tag (resize rows cols) = 2
tag (exit c) = 3
tag (hello h) = 4

abbrev body : Frame → List ℕ
body (data_frame p) = p
body (resize rows cols) = to_be16 rows ++ to_be16 cols
body (exit c) = to_be32 (i32_bits c)
body (hello h) =
    to_be16 h.rows ++ (to_be16 h.cols ++ (to_be16 h.version ++ session_bytes h.session))

mod_of_small : (n : ℕ) → n ≤ max_payload → n % 2 ^ 32 ≡ n
mod_of_small n h = omega arith

six_more : (n : ℕ) → n ≤ max_session_len → (6 + n) % 2 ^ 32 ≡ suc (suc (suc (suc (suc (suc n)))))
six_more n h = omega arith

length-session_bytes :
    (s : Option (List ℕ)) → IsSession s → length (session_bytes s) ≤ max_session_len
length-session_bytes none h = omega arith
length-session_bytes (some s) h = h.1

length-body : (f : Frame) → IsSendable f → length (body f) ≤ max_payload
length-body (data_frame p) h = h
length-body (resize rows cols) h = omega arith
length-body (exit c) h = omega arith
length-body (hello s) h = omega (arith, length-session_bytes s.session h.3)

encode-eq-framed : (f : Frame) → IsSendable f → encode f ≡ framed (tag f) (body f)
unfolding encode
encode-eq-framed (data_frame p) h = rw (mod_of_small (length p) h)
encode-eq-framed (resize rows cols) h = refl
encode-eq-framed (exit c) h = refl
encode-eq-framed (hello s) h =
    rw (six_more (length (session_bytes s.session)) (length-session_bytes s.session h.3))

i32_of_bits-i32_bits : (c : ℤ) → IsI32 c → i32_of_bits (i32_bits c) ≡ c
i32_of_bits-i32_bits (pos n) h = ground arith
i32_of_bits-i32_bits (negsuc n) h = ground arith

i32_bits-lt : (c : ℤ) → IsI32 c → i32_bits c < 2 ^ 32
i32_bits-lt (pos n) h = omega arith
i32_bits-lt (negsuc n) h = omega arith

decode_session-session_bytes :
    (s : Option (List ℕ)) → IsSession s → decode_session (session_bytes s) ≡ ok s
unfolding decode_session
decode_session-session_bytes none h = refl
decode_session-session_bytes (some []) h = absurd (h.0 refl)
decode_session-session_bytes (some (b ∷ s)) h = ground arith

from_be16-to_be16 : (n : ℕ) → n < 65536 → from_be16 (n / 256 % 256) (n % 256) ≡ n
from_be16-to_be16 n h = omega arith

decode_payload-body : (f : Frame) → IsSendable f → decode_payload (tag f) (body f) ≡ ok f
unfolding decode_payload
decode_payload-body (data_frame p) h = refl
decode_payload-body (resize rows cols) h =
    unfold decode_resize in rw (from_be16-to_be16 rows h.0, from_be16-to_be16 cols h.1)
decode_payload-body (exit c) h =
    unfold decode_exit in
    rw (from_be32-to_be32 (i32_bits c) (i32_bits-lt c h), i32_of_bits-i32_bits c h)
decode_payload-body (hello s) h =
    unfold decode_hello in
    rw (
      decode_session-session_bytes s.session h.3,
      from_be16-to_be16 s.rows h.0,
      from_be16-to_be16 s.cols h.1,
      from_be16-to_be16 s.version h.2,
    )

-- A frame within the protocol's limits, followed by anything, is read back as it was, and the
-- reader then stands at what follows.
pub read_frame-encode :
    (f : Frame) (rest : List ℕ) (e : End)
    → IsSendable f
    → read_frame (record { bytes = encode f ++ rest; end = e })
      ≡ ok (some f, record { bytes = rest; end = e })
read_frame-encode f rest e h =
    rw (encode-eq-framed f h)
      (read_frame-framed (tag f) (body f) rest e (length-body f h) (decode_payload-body f h))

-- Two encoded frames that begin one stream are the same frame, with the same bytes behind them.
pub encode-injective :
    (f g : Frame) (r s : List ℕ)
    → IsSendable f
    → IsSendable g
    → encode f ++ r ≡ encode g ++ s
    → (f ≡ g) × (r ≡ s)
encode-injective f g r s hf hg e =
    let left = read_frame-encode f r eof hf in
    let right = read_frame-encode g s eof hg in
    let same = ap (λ (l : List ℕ). read_frame (record { bytes = l; end = eof })) e in
    (cc (left, right, same), cc (left, right, same))
