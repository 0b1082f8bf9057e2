-- ===== src/Client/Cipher.antt =====
-- sites.rs: the stream cipher of a site's files, XChaCha20. A word has 32 bits; a state is the list
-- of its words, where an index beyond its end reads 0 and writes nothing.
pub mod Involution
use mjolnir.Base.{ℕ, zero, suc, ◌+◌, ◌*◌, ◌/◌, ◌%◌, List, [], ◌∷◌, ◌++◌, take, drop, length}

-- `^` on so many bits.
unfoldable pub xor : ℕ → ℕ → ℕ → ℕ
xor zero a b = 0
xor (suc bits) a b = (a % 2 + b % 2) % 2 + 2 * xor bits (a / 2) (b / 2)

abbrev pub word : ℕ
word = 4294967296

unfoldable pub wrapping_add : ℕ → ℕ → ℕ
wrapping_add a b = (a + b) % word

-- `x.rotate_left(n)`, with `up` = 2 ^ n and `down` = 2 ^ (32 - n)
rotate_left : ℕ → ℕ → ℕ → ℕ
rotate_left up down x = x * up % word + x / down

unfoldable pub get : List ℕ → ℕ → ℕ
get [] i = 0
get (x ∷ xs) zero = x
get (x ∷ xs) (suc i) = get xs i

unfoldable pub set : List ℕ → ℕ → ℕ → List ℕ
set [] i v = []
set (x ∷ xs) zero v = v ∷ xs
set (x ∷ xs) (suc i) v = x ∷ set xs i v

-- `state[a] += state[b]` and `state[d] = (state[d] ^ state[a]).rotate_left(n)`
abbrev add_into : ℕ → ℕ → List ℕ → List ℕ
add_into a b s = set s a (wrapping_add (get s a) (get s b))

abbrev mix_into : ℕ → ℕ → ℕ → ℕ → List ℕ → List ℕ
mix_into up down d a s = set s d (rotate_left up down (xor 32 (get s d) (get s a)))

unfoldable pub quarter_round : ℕ → ℕ → ℕ → ℕ → List ℕ → List ℕ
unfolding xor wrapping_add rotate_left get set
quarter_round a b c d s0 =
    let s1 = mix_into 65536 65536 d a (add_into a b s0) in
    let s2 = mix_into 4096 1048576 b c (add_into c d s1) in
    let s3 = mix_into 256 16777216 d a (add_into a b s2) in
    mix_into 128 33554432 b c (add_into c d s3)

unfoldable pub double_round : List ℕ → List ℕ
unfolding quarter_round
double_round s =
    let columns =
      quarter_round 3 7 11 15
        (quarter_round 2 6 10 14 (quarter_round 1 5 9 13 (quarter_round 0 4 8 12 s))) in
    quarter_round 3 4 9 14
      (quarter_round 2 7 8 13 (quarter_round 1 6 11 12 (quarter_round 0 5 10 15 columns)))

rounds : ℕ → List ℕ → List ℕ
unfolding double_round
rounds zero s = s
rounds (suc n) s = rounds n (double_round s)

unfoldable pub twenty_rounds : List ℕ → List ℕ
unfolding rounds
twenty_rounds s = rounds 10 s

unfoldable pub load_le : List ℕ → ℕ
load_le bytes = get bytes 0 + get bytes 1 * 256 + get bytes 2 * 65536 + get bytes 3 * 16777216

abbrev pub le_bytes : ℕ → List ℕ
le_bytes w = w % 256 ∷ w / 256 % 256 ∷ w / 65536 % 256 ∷ w / 16777216 % 256 ∷ []

-- So many words of a list of bytes.
abbrev words : ℕ → List ℕ → List ℕ
words zero bytes = []
words (suc n) bytes = load_le bytes ∷ words n (drop 4 bytes)

abbrev pub chacha_constants : List ℕ
chacha_constants = 0x61707865 ∷ 0x3320646e ∷ 0x79622d32 ∷ 0x6b206574 ∷ []

-- The bytes of the words from an index on.
abbrev bytes_from : ℕ → ℕ → List ℕ → List ℕ
bytes_from zero i s = []
bytes_from (suc n) i s = le_bytes (get s i) ++ bytes_from n (suc i) s

unfoldable pub hchacha20 : List ℕ → List ℕ → List ℕ
unfolding twenty_rounds load_le get
hchacha20 key nonce16 =
    let s = twenty_rounds (chacha_constants ++ (words 8 key ++ words 4 nonce16)) in
    bytes_from 4 0 s ++ bytes_from 4 12 s

-- The state of a block, whose word 12 is the block's index.
unfoldable pub block_state : List ℕ → List ℕ → ℕ → List ℕ
unfolding load_le
block_state subkey nonce index =
    chacha_constants ++ (words 8 subkey ++ (index % word) ∷ words 3 (0 ∷ 0 ∷ 0 ∷ 0 ∷ drop 16 nonce))

-- For `n` words from `i` on, the sum of the worked state and the first one.
abbrev pub sums : ℕ → ℕ → List ℕ → List ℕ → List ℕ
sums zero i working state = []
sums (suc n) i working state =
    le_bytes (wrapping_add (get working i) (get state i)) ++ sums n (suc i) working state

unfoldable pub keystream : List ℕ → List ℕ → ℕ → List ℕ
unfolding block_state twenty_rounds wrapping_add get
keystream subkey nonce index =
    let state = block_state subkey nonce index in sums 16 0 (twenty_rounds state) state

abbrev pub zip_xor : List ℕ → List ℕ → List ℕ
zip_xor [] ks = []
zip_xor (b ∷ bs) [] = []
zip_xor (b ∷ bs) (k ∷ ks) = xor 8 b k ∷ zip_xor bs ks

-- The blocks of 64 bytes from an index on; there are no more of them than bytes.
unfoldable pub blocks : ℕ → List ℕ → List ℕ → ℕ → List ℕ → List ℕ
unfolding keystream xor
blocks zero subkey nonce index bytes = []
blocks (suc fuel) subkey nonce index [] = []
blocks (suc fuel) subkey nonce index (b ∷ bytes) =
    zip_xor (take 64 (b ∷ bytes)) (keystream subkey nonce index)
    ++ blocks fuel subkey nonce (suc index) (drop 64 (b ∷ bytes))

unfoldable pub xchacha20_xor : List ℕ → List ℕ → List ℕ → List ℕ
unfolding hchacha20 blocks
xchacha20_xor key nonce bytes = blocks (length bytes) (hchacha20 key (take 16 nonce)) nonce 0 bytes
