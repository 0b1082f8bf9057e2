-- ===== src/Gateway/Headers/Target.antt =====
-- main.rs: the path that `request_path` finds in a request line.
use mjolnir.Base.{
  ℕ, ◌+◌, Bool, true, false, not, ◌&&◌, some, List, [], ◌∷◌, ◌++◌, Str, is_empty, ◌==◌, length,
  take, all, All, arith, ◌≡◌, refl, is_whitespace, before, take-length-append, suc, sym, ap,
  append_nil, ==_iff,
}
use mjolnir.Base.Utf8.{from_utf8_lossy-ascii, is_ascii}
use mjolnir.Base.Words.{first_line, split_whitespace-word, is_word}
use mjolnir.Gateway.Headers.{crlf, request_path}
use mjolnir.Gateway.Headers.Block.{
  IsHeaderLine, request, request-cons, stop_of, terminator_at-request, ascii-plain, ascii-append,
}

-- The lines of a head up to its terminator.
abbrev cut : List Str → Str
cut [] = []
cut (m ∷ ls) = crlf ++ (m ++ cut ls)

take-length_plus : (l s : List ℕ) (n : ℕ) → take (length l + n) (l ++ s) ≡ l ++ take n s
take-length_plus [] s n = ground arith
take-length_plus (c ∷ l) s n =
    let e : suc (length l) + n ≡ suc (length l + n) = omega arith in
    rw e (ap (λ t. c ∷ t) (take-length_plus l s n))

take-request :
    (l : Str) (ls : List Str) (body : List ℕ)
    → take (stop_of l ls) (request (l ∷ ls) body) ≡ l ++ cut ls
take-request l [] body =
    rw (request-cons l [] body)
      (rw (take-length-append l (crlf ++ request [] body)) (sym (append_nil l)))
take-request l (m ∷ ls) body =
    let k = stop_of m ls in
    let e : 2 + k ≡ suc (suc k) = omega arith in
    rw (request-cons l (m ∷ ls) body) (
      rw (take-length_plus l (crlf ++ request (m ∷ ls) body) (2 + k))
        (rw (e, take-request m ls body) refl))

ascii-cut : (ls : List Str) → All IsHeaderLine ls → is_ascii (cut ls) ≡ true
ascii-cut [] h = refl
ascii-cut (m ∷ ls) h =
    ground (arith, ascii-append m (cut ls) (ascii-plain m h.0.1) (ascii-cut ls h.1))

abbrev one_line : Str → Bool
one_line l = all (λ c. not (c == 10) && not (c == 13)) l

first_line-cut :
    (l : Str) (ls : List Str)
    → is_empty l ≡ false
    → one_line l ≡ true
    → first_line (l ++ cut ls) ≡ some l
unfolding first_line
first_line-cut [] ls n h = cc
first_line-cut (c ∷ []) [] n h = ground arith
first_line-cut (c ∷ []) (m ∷ ls) n h = ground arith
first_line-cut (c ∷ d ∷ l) ls n h = ground (arith, first_line-cut (d ∷ l) ls)

no_newline : (c b : ℕ) → is_whitespace b ≡ true → not (is_whitespace c) ≡ true → (c == b) ≡ false
no_newline c b h k = ground (arith, ==_iff c b)

one_line-word : (w s : Str) → is_word w ≡ true → one_line s ≡ true → one_line (w ++ s) ≡ true
one_line-word [] s h k = k
one_line-word (c ∷ w) s h k =
    let lf : is_whitespace 10 ≡ true = unfold is_whitespace in refl in
    let cr : is_whitespace 13 ≡ true = unfold is_whitespace in refl in
    let e = no_newline c 10 lf (ground arith) in
    let f = no_newline c 13 cr (ground arith) in rw (e, f) (one_line-word w s (ground arith) k)

abbrev pub request_line : Str → Str → Str → Str
request_line method target version = method ++ 32 ∷ (target ++ 32 ∷ version)

-- The path of a request is its target up to the first "?", for a head of ASCII lines.
pub request_path-request :
    (method target version : Str) (ls : List Str) (body : List ℕ)
    → is_word method ≡ true
    → is_empty method ≡ false
    → is_word target ≡ true
    → is_empty target ≡ false
    → is_word version ≡ true
    → All IsHeaderLine (request_line method target version ∷ ls)
    → request_path (request (request_line method target version ∷ ls) body)
      ≡ some (before b'?' target)
unfolding request_path
request_path-request method target version ls body m m' t t' v h =
    let line = request_line method target version in
    let ascii = ascii-append line (cut ls) (ascii-plain line h.0.1) (ascii-cut ls h.1) in
    let blank : is_whitespace 32 ≡ true = unfold is_whitespace in refl in
    let behind : one_line (32 ∷ version) ≡ true =
      rw (append_nil version) at (one_line-word version [] v refl) in
    let middle : one_line (32 ∷ (target ++ 32 ∷ version)) ≡ true =
      one_line-word target (32 ∷ version) t behind in
    let single : one_line line ≡ true =
      one_line-word method (32 ∷ (target ++ 32 ∷ version)) m middle in
    let words = split_whitespace-word method (target ++ 32 ∷ version) 32 m m' blank in
    let more = split_whitespace-word target version 32 t t' blank in
    let stop = terminator_at-request line ls body h in
    let text = take-request line ls body in
    let same = from_utf8_lossy-ascii (line ++ cut ls) ascii in
    rw (request_path, stop)
      (rw (text, same) (rw (first_line-cut line ls h.0.0 single) (rw (words, more) refl)))
