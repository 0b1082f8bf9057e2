-- ===== src/Gateway/Headers/Block.antt =====
-- main.rs: a request as its lines, and where the head of such a request ends.
use mjolnir.Base.{
  ℕ, ◌+◌, Bool, true, false, not, ◌&&◌, some, List, [], ◌∷◌, ◌++◌, Str, is_empty, ltb, ◌==◌, length,
  drop, all, All, arith, ◌≡◌, refl, append_assoc, length-append, take-length-append,
  drop-length-append,
}
use mjolnir.Base.Utf8.{from_utf8_lossy, from_utf8_lossy-ascii, is_ascii}
use mjolnir.Base.Words.{split_crlf}
use mjolnir.Gateway.Headers.{crlf, terminator_at, header_end, head_of}

-- ASCII with no carriage return.
abbrev pub is_plain : Str → Bool
is_plain s = all (λ c. ltb c 0x80 && not (c == 13)) s

abbrev pub IsHeaderLine : Str → Type 0
IsHeaderLine l = (is_empty l ≡ false) × (is_plain l ≡ true)

-- Lines, each with its end.
abbrev pub block : List Str → List ℕ
block [] = []
block (l ∷ ls) = l ++ (crlf ++ block ls)

-- A request with these lines as its head, and the bytes that came behind it.
abbrev pub request : List Str → List ℕ → List ℕ
request lines body = block lines ++ (crlf ++ body)

-- Where the terminator of the head stands.
abbrev pub stop_of : Str → List Str → ℕ
stop_of l [] = length l
stop_of l (m ∷ ls) = length l + (2 + stop_of m ls)

terminator_at-plain :
    (l rest : List ℕ) (i : ℕ)
    → is_plain l ≡ true
    → terminator_at (crlf ++ rest) ≡ some i
    → terminator_at (l ++ (crlf ++ rest)) ≡ some (length l + i)
unfolding terminator_at
terminator_at-plain [] rest i h e = ground arith
terminator_at-plain (c ∷ l) rest i h e = ground (arith, terminator_at-plain l rest i)

terminator_at-line :
    (c : ℕ) (rest : List ℕ) (i : ℕ)
    → (c == 13) ≡ false
    → terminator_at (c ∷ rest) ≡ some i
    → terminator_at (crlf ++ c ∷ rest) ≡ some (2 + i)
unfolding terminator_at
terminator_at-line c rest i h e = ground arith

pub request-cons :
    (l : Str) (ls : List Str) (body : List ℕ)
    → request (l ∷ ls) body ≡ l ++ (crlf ++ request ls body)
request-cons l ls body = cc (append_assoc l (crlf ++ block ls) (crlf ++ body))

pub terminator_at-request :
    (l : Str) (ls : List Str) (body : List ℕ)
    → All IsHeaderLine (l ∷ ls)
    → terminator_at (request (l ∷ ls) body) ≡ some (stop_of l ls)
terminator_at-request l [] body h =
    let here : terminator_at (crlf ++ (crlf ++ body)) ≡ some 0 = unfold terminator_at in refl in
    rw (request-cons l [] body) (ground (arith, terminator_at-plain l (crlf ++ body) 0 h.0.1 here))
terminator_at-request l ((c ∷ m) ∷ ls) body h =
    let later = terminator_at-request (c ∷ m) ls body h.1 in
    let line : (c == 13) ≡ false = ground arith in
    let here : terminator_at (crlf ++ request ((c ∷ m) ∷ ls) body) ≡ some (2 + stop_of (c ∷ m) ls) =
      terminator_at-line c (m ++ (crlf ++ block ls) ++ (crlf ++ body)) (stop_of (c ∷ m) ls) line
        later in
    rw (request-cons l ((c ∷ m) ∷ ls) body)
      (terminator_at-plain l (request ((c ∷ m) ∷ ls) body) (2 + stop_of (c ∷ m) ls) h.0.1 here)
terminator_at-request l ([] ∷ ls) body h = ground arith

length-stop_of : (l : Str) (ls : List Str) → stop_of l ls + 4 ≡ length (block (l ∷ ls) ++ crlf)
length-stop_of l [] = omega (arith, length-append (l ++ crlf) crlf, length-append l crlf)
length-stop_of l (m ∷ ls) =
    let tail = block (m ∷ ls) in
    omega (
      arith,
      length-append (block (l ∷ m ∷ ls)) crlf,
      length-append l (crlf ++ tail),
      length-append tail crlf,
      length-stop_of m ls,
    )

module _ (l : Str) (ls : List Str) (body : List ℕ) (h : All IsHeaderLine (l ∷ ls)) where
  header_end-request : header_end (request (l ∷ ls) body) ≡ length (block (l ∷ ls) ++ crlf)
  unfolding header_end
  header_end-request = rw (terminator_at-request l ls body h, header_end) (length-stop_of l ls)

  request-eq : request (l ∷ ls) body ≡ (block (l ∷ ls) ++ crlf) ++ body
  request-eq = cc (append_assoc (block (l ∷ ls)) crlf body)

  pub head_of-request : head_of (request (l ∷ ls) body) ≡ block (l ∷ ls) ++ crlf
  unfolding head_of
  head_of-request =
      rw (header_end-request, request-eq) (take-length-append (block (l ∷ ls) ++ crlf) body)

  pub body_of-request : drop (header_end (request (l ∷ ls) body)) (request (l ∷ ls) body) ≡ body
  body_of-request =
      rw (header_end-request, request-eq) (drop-length-append (block (l ∷ ls) ++ crlf) body)

-- The lines of a head are the lines that it is made of, with two empty ones at its end.
split_crlf-plain :
    (l rest : Str) → is_plain l ≡ true → split_crlf (l ++ (crlf ++ rest)) ≡ l ∷ split_crlf rest
unfolding split_crlf
split_crlf-plain [] rest h = refl
split_crlf-plain (c ∷ []) rest h = ground arith
split_crlf-plain (c ∷ d ∷ l) rest h = ground (arith, split_crlf-plain (d ∷ l) rest)

pub split_crlf-block :
    (ls : List Str) → All IsHeaderLine ls → split_crlf (block ls ++ crlf) ≡ ls ++ [] ∷ [] ∷ []
unfolding split_crlf
split_crlf-block [] h = refl
split_crlf-block (l ∷ ls) h =
    rw (append_assoc l (crlf ++ block ls) crlf)
      (cc (split_crlf-plain l (block ls ++ crlf) h.0.1, split_crlf-block ls h.1))

pub ascii-append : (a b : List ℕ) → is_ascii a ≡ true → is_ascii b ≡ true → is_ascii (a ++ b) ≡ true
ascii-append [] b h k = k
ascii-append (c ∷ a) b h k = ground (arith, ascii-append a b)

pub ascii-plain : (l : Str) → is_plain l ≡ true → is_ascii l ≡ true
ascii-plain [] h = refl
ascii-plain (c ∷ l) h = ground (arith, ascii-plain l)

pub ascii-block : (ls : List Str) → All IsHeaderLine ls → is_ascii (block ls ++ crlf) ≡ true
ascii-block [] h = refl
ascii-block (l ∷ ls) h = rw (append_assoc l (crlf ++ block ls) crlf) (
    ascii-append l (crlf ++ (block ls ++ crlf)) (ascii-plain l h.0.1)
      (ground (arith, ascii-block ls h.1)))

pub lines-request :
    (l : Str) (ls : List Str) (body : List ℕ)
    → All IsHeaderLine (l ∷ ls)
    → split_crlf (from_utf8_lossy (head_of (request (l ∷ ls) body))) ≡ (l ∷ ls) ++ [] ∷ [] ∷ []
lines-request l ls body h = rw (head_of-request l ls body h) (
    rw (from_utf8_lossy-ascii (block (l ∷ ls) ++ crlf) (ascii-block (l ∷ ls) h))
      (split_crlf-block (l ∷ ls) h))
