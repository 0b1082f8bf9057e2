-- ===== src/Guest/Channels/Frames.antt =====
-- Frames on the socket come apart in one way only.
use mjolnir.Base.{ℕ, ◌%◌, ◌^◌, ◌<◌, ◌≡◌, List, ◌++◌, length, append-injective, arith}
use mjolnir.Base.Bytes.{to_be32}
use mjolnir.Guest.Channels.{frame_binary}

same_word :
    (n m : ℕ) → n < 2 ^ 32 → m < 2 ^ 32 → to_be32 (n % 2 ^ 32) ≡ to_be32 (m % 2 ^ 32) → n ≡ m
same_word n m hn hm e = ground arith

-- Two frames of fewer than 2^32 bytes that begin one stream are on the same channel and carry the
-- same bytes, and what follows them is the same.
pub frame_binary-injective :
    (c d : ℕ) (xs ys r s : List ℕ)
    → length xs < 2 ^ 32
    → length ys < 2 ^ 32
    → frame_binary c xs ++ r ≡ frame_binary d ys ++ s
    → (c ≡ d) × (xs ≡ ys) × (r ≡ s)
unfolding frame_binary
frame_binary-injective c d xs ys r s hx hy e =
    let n = same_word (length xs) (length ys) hx hy cc in
    let (same, rest) = append-injective xs ys r s n cc in (cc, same, rest)
