-- ===== src/Client/Cipher/Involution.antt =====
-- sites.rs: deciphering is enciphering again.
use mjolnir.Base.{
  ℕ, zero, suc, ◌+◌, ◌*◌, ◌/◌, ◌%◌, ◌≤◌, ◌<◌, List, [], ◌∷◌, ◌++◌, take, drop, length, arith, ◌≡◌,
  refl, All, append_nil, length-append, take-length-append, drop-length-append, take-append-drop,
  ◌-◌, ap, ◌⊎◌, inl, inr,
}
use mjolnir.Base.Bytes.{IsByte}
use mjolnir.Client.Cipher.{xor, keystream, zip_xor, blocks, xchacha20_xor, hchacha20}

-- A bound of so many bits.
abbrev bound : ℕ → ℕ
bound zero = 1
bound (suc bits) = 2 * bound bits

xor-xor : (bits a b : ℕ) → a < bound bits → xor bits (xor bits a b) b ≡ a
unfolding xor
xor-xor zero a b h = omega arith
xor-xor (suc bits) a b h =
    let low : ((a % 2 + b % 2) % 2 + 2 * xor bits (a / 2) (b / 2)) / 2 ≡ xor bits (a / 2) (b / 2) =
      omega arith in
    let ih = xor-xor bits (a / 2) (b / 2) (omega arith) in rw (low, ih) (omega arith)

zip_xor_twice :
    (bs ks : List ℕ) → All IsByte bs → length bs ≤ length ks → zip_xor (zip_xor bs ks) ks ≡ bs
zip_xor_twice [] ks h n = refl
zip_xor_twice (b ∷ bs) [] h n = absurd (omega arith)
zip_xor_twice (b ∷ bs) (k ∷ ks) h n = cc (xor-xor 8 b k h.0, zip_xor_twice bs ks h.1 (omega arith))

length-zip_xor : (bs ks : List ℕ) → length bs ≤ length ks → length (zip_xor bs ks) ≡ length bs
length-zip_xor [] ks n = refl
length-zip_xor (b ∷ bs) [] n = absurd (omega arith)
length-zip_xor (b ∷ bs) (k ∷ ks) n = omega (arith, length-zip_xor bs ks (omega arith))

length-keystream : (subkey nonce : List ℕ) (index : ℕ) → length (keystream subkey nonce index) ≡ 64
unfolding keystream
length-keystream subkey nonce index = refl

blocks-step :
    (fuel : ℕ) (subkey nonce : List ℕ) (index : ℕ) (l : List ℕ)
    → blocks (suc fuel) subkey nonce index l
      ≡ zip_xor (take 64 l) (keystream subkey nonce index)
        ++ blocks fuel subkey nonce (suc index) (drop 64 l)
unfolding blocks
blocks-step zero subkey nonce index [] = refl
blocks-step (suc fuel) subkey nonce index [] = refl
blocks-step fuel subkey nonce index (b ∷ l) = refl

take-short : (n : ℕ) (l : List ℕ) → length l ≤ n → (take n l ≡ l) × (drop n l ≡ [])
take-short zero [] h = (refl, refl)
take-short zero (x ∷ l) h = absurd (omega arith)
take-short (suc n) [] h = (refl, refl)
take-short (suc n) (x ∷ l) h =
    let (same, none_left) = take-short n l (omega arith) in (ap (λ t. x ∷ t) same, none_left)

take-cut :
    (n : ℕ) (x r : List ℕ)
    → (length x ≡ n) ⊎ ((length x ≤ n) × (r ≡ []))
    → (take n (x ++ r) ≡ x) × (drop n (x ++ r) ≡ r)
take-cut n x r (inl e) = (rw (← e) (take-length-append x r), rw (← e) (drop-length-append x r))
take-cut n x r (inr (short, e)) =
    let (same, none_left) = take-short n x short in rw (e, append_nil x) (same, none_left)

length-take-drop :
    (n : ℕ) (l : List ℕ) → (length (take n l) ≡ n) ⊎ ((length (take n l) ≤ n) × (drop n l ≡ []))
length-take-drop zero l = inl refl
length-take-drop (suc n) [] = inr (omega arith, refl)
length-take-drop (suc n) (x ∷ l) = elim (length-take-drop n l) [
  | inl e ↦ inl (omega arith)
  | inr (short, e) ↦ inr (omega arith, e)
]

All-take : (n : ℕ) (l : List ℕ) → All IsByte l → All IsByte (take n l) × All IsByte (drop n l)
All-take zero l h = (tt, h)
All-take (suc n) [] h = (tt, tt)
All-take (suc n) (x ∷ l) h = let (a, b) = All-take n l h.1 in ((h.0, a), b)

length-take_le : (n : ℕ) (l : List ℕ) → length (take n l) ≤ n
length-take_le zero l = omega arith
length-take_le (suc n) [] = omega arith
length-take_le (suc n) (x ∷ l) = omega (arith, length-take_le n l)

length-drop_le : (n : ℕ) (l : List ℕ) → length (drop (suc n) l) ≤ length l - 1
length-drop_le n [] = omega arith
length-drop_le zero (x ∷ l) = omega arith
length-drop_le (suc n) (x ∷ l) = omega (arith, length-drop_le n l)

blocks-nothing :
    (fuel : ℕ) (subkey nonce : List ℕ) (index : ℕ) → blocks fuel subkey nonce index [] ≡ []
unfolding blocks
blocks-nothing zero subkey nonce index = refl
blocks-nothing (suc fuel) subkey nonce index = refl

blocks_twice :
    (fuel : ℕ) (subkey nonce : List ℕ) (index : ℕ) (l : List ℕ)
    → length l ≤ fuel
    → All IsByte l
    → (blocks fuel subkey nonce index (blocks fuel subkey nonce index l) ≡ l)
      × (length (blocks fuel subkey nonce index l) ≡ length l)
blocks_twice zero subkey nonce index [] n h =
    rw (blocks-nothing 0 subkey nonce index) (blocks-nothing 0 subkey nonce index, refl)
blocks_twice zero subkey nonce index (b ∷ l) n h = absurd (omega arith)
blocks_twice (suc fuel) subkey nonce index l n h =
    let ks = keystream subkey nonce index in
    let size = length-keystream subkey nonce index in
    let (bytes, more) = All-take 64 l h in
    let fits : length (take 64 l) ≤ length ks = omega (arith, size, length-take_le 64 l) in
    let x = zip_xor (take 64 l) ks in
    let r = blocks fuel subkey nonce (suc index) (drop 64 l) in
    let same_size = length-zip_xor (take 64 l) ks fits in
    let (again, rest_size) =
      blocks_twice fuel subkey nonce (suc index) (drop 64 l) (omega (arith, length-drop_le 63 l))
        more in
    let apart : (length x ≡ 64) ⊎ ((length x ≤ 64) × (r ≡ [])) = elim (length-take-drop 64 l) [
      | inl e ↦ inl (omega (arith, e, same_size))
      | inr (short, e) ↦
          inr (omega (arith, short, same_size), rw e (blocks-nothing fuel subkey nonce (suc index)))
    ] in
    let (front, back) = take-cut 64 x r apart in
    let whole = take-append-drop 64 l in
    let once = blocks-step fuel subkey nonce index l in
    rw once (
      rw (blocks-step fuel subkey nonce index (x ++ r))
          (rw (front, back) (rw (zip_xor_twice (take 64 l) ks bytes fits, again) whole)),
      omega (
        arith,
        length-append x r,
        same_size,
        rest_size,
        ap length whole,
        length-append (take 64 l) (drop 64 l),
      ),
    )

-- Applying the cipher twice with the same key and nonce gives the bytes back, and each application
-- keeps their number.
pub xchacha20_xor_twice :
    (key nonce bytes : List ℕ)
    → All IsByte bytes
    → (xchacha20_xor key nonce (xchacha20_xor key nonce bytes) ≡ bytes)
      × (length (xchacha20_xor key nonce bytes) ≡ length bytes)
unfolding xchacha20_xor
xchacha20_xor_twice key nonce bytes h =
    let subkey = hchacha20 key (take 16 nonce) in
    let (same, size) = blocks_twice (length bytes) subkey nonce 0 bytes (omega arith) h in
    rw size (same, refl)
