-- ===== src/Gateway/Headers/Rewrite.antt =====
-- main.rs: what `set_or_replace_header` makes of a request, and what `extract_host` reads in it.
use mjolnir.Base.{
  ℕ, true, false, not, Option, none, some, List, [], ◌∷◌, ◌++◌, Str, codes, ◌==◌, drop, find,
  filter, All, arith, ◌≡◌, refl, append_assoc, Bool-cases, trim, lower, inl, inr, All-append,
}
use mjolnir.Base.Utf8.{as_bytes, as_bytes-ascii}
use mjolnir.Gateway.Headers.{
  crlf, is_named, is_host_line, write_lines, set_or_replace_header, host_in, extract_host,
}
use mjolnir.Gateway.Headers.Block.{
  is_plain, IsHeaderLine, block, request, lines-request, body_of-request, ascii-plain,
}

-- A header's line, as it is set.
abbrev pub header_line : Str → Str → Str
header_line name value = name ++ (codes ": " ++ value)

abbrev pub others : Str → List Str → List Str
others name ls = filter (λ l. not (is_named name l)) ls

block-last : (ls : List Str) (m : Str) → block (ls ++ m ∷ []) ≡ block ls ++ (m ++ crlf)
block-last [] m = refl
block-last (l ∷ ls) m = simp (block-last ls m, append_assoc)

request-last :
    (ls : List Str) (m : Str) (body : List ℕ)
    → (block ls ++ (m ++ (crlf ++ crlf))) ++ body ≡ request (ls ++ m ∷ []) body
request-last ls m body = rw (block-last ls m) (simp append_assoc)

module _ (name value : Str) (name_plain : is_plain name ≡ true)
    (value_plain : is_plain value ≡ true) where
  set_line :
      (s : Str)
      → as_bytes name ++ (codes ": " ++ (as_bytes value ++ s)) ≡ header_line name value ++ s
  set_line s = rw (as_bytes-ascii name (ascii-plain name name_plain)) (
      rw (as_bytes-ascii value (ascii-plain value value_plain))
        (cc (append_assoc name (codes ": " ++ value) s)))

  write_lines-lines :
      (ls : List Str) (more : List Str)
      → All IsHeaderLine ls
      → write_lines name value (ls ++ [] ∷ more)
        ≡ block (others name ls) ++ (header_line name value ++ (crlf ++ crlf))
  unfolding write_lines
  write_lines-lines [] more h = set_line (crlf ++ crlf)
  write_lines-lines (l ∷ ls) more h =
      let ih = write_lines-lines ls more h.1 in
      let plain = as_bytes-ascii l (ascii-plain l h.0.1) in
      elim (Bool-cases (is_named name l)) [
        | inl e ↦ rw (h.0.0, e) ih
        | inr e ↦
            rw (h.0.0, e)
              (rw (plain, ih)
                (cc (
                  append_assoc l (crlf ++ block (others name ls))
                    (header_line name value ++ (crlf ++ crlf)))))
      ]

  -- In a request whose lines are ASCII without a carriage return, and not empty, setting a header whose
  -- name and value are such texts puts its line behind the other lines of the head, drops each line that
  -- named it in any spelling, and leaves the other lines and the body alone.
  pub set_or_replace_header-request :
      (l : Str) (ls : List Str) (body : List ℕ)
      → All IsHeaderLine (l ∷ ls)
      → set_or_replace_header (request (l ∷ ls) body) name value
        ≡ request (others name (l ∷ ls) ++ header_line name value ∷ []) body
  unfolding set_or_replace_header
  set_or_replace_header-request l ls body h = rw (lines-request l ls body h) (
      rw (body_of-request l ls body h) (
        rw (write_lines-lines (l ∷ ls) ([] ∷ []) h)
          (request-last (others name (l ∷ ls)) (header_line name value) body)))

-- The host that the first `host:` line names.
abbrev pub host_of : Option Str → Option Str
host_of none = none
host_of (some line) = some (trim (drop 5 line))

host_in-find : (ls more : List Str) → host_in (ls ++ [] ∷ [] ∷ []) ≡ host_of (find is_host_line ls)
unfolding host_in
host_in-find [] more = refl
host_in-find (l ∷ ls) more = ground (arith, host_in-find ls more)

-- The host of a request is that of its first `host:` line, in any spelling, whatever its body is.
pub extract_host-request :
    (l : Str) (ls : List Str) (body : List ℕ)
    → All IsHeaderLine (l ∷ ls)
    → extract_host (request (l ∷ ls) body) ≡ host_of (find is_host_line (l ∷ ls))
unfolding extract_host
extract_host-request l ls body h = rw (lines-request l ls body h) (host_in-find (l ∷ ls) [])

extract_host-last :
    (ls : List Str) (m : Str) (body : List ℕ)
    → All IsHeaderLine ls
    → IsHeaderLine m
    → extract_host (request (ls ++ m ∷ []) body) ≡ host_of (find is_host_line (ls ++ m ∷ []))
extract_host-last [] m body h k = extract_host-request m [] body (k, tt)
extract_host-last (l ∷ ls) m body h k =
    extract_host-request l (ls ++ m ∷ []) body
      (h.0, All-append IsHeaderLine ls (m ∷ []) h.1 (k, tt))

abbrev pub forwarded_proto : Str
forwarded_proto = codes "X-Forwarded-Proto"

others-IsHeaderLine :
    (name : Str) (ls : List Str) → All IsHeaderLine ls → All IsHeaderLine (others name ls)
others-IsHeaderLine name [] h = tt
others-IsHeaderLine name (l ∷ ls) h = elim (Bool-cases (is_named name l)) [
  | inl e ↦ rw e (others-IsHeaderLine name ls h.1)
  | inr e ↦ rw e (h.0, others-IsHeaderLine name ls h.1)
]

first_apart : (c : ℕ) → (lower b'X' == lower c) ≡ true → (lower b'h' == lower c) ≡ false
unfolding lower
first_apart c h = ground arith

-- A line that names the protocol names no host.
host_line-proto : (l : Str) → is_named forwarded_proto l ≡ true → is_host_line l ≡ false
unfolding lower
host_line-proto [] h = refl
host_line-proto (c ∷ l) h =
    let first : (lower b'X' == lower c) ≡ true = elim (Bool-cases (lower b'X' == lower c)) [
      | inl e ↦ e
      | inr e ↦ let wrong : false ≡ true = rw e at h in cc
    ] in
    ground (arith, first_apart c first)

find-others :
    (ls : List Str) (m : Str)
    → is_named forwarded_proto m ≡ true
    → find is_host_line (others forwarded_proto ls ++ m ∷ []) ≡ find is_host_line ls
find-others [] m h = rw (host_line-proto m h) refl
find-others (l ∷ ls) m h = elim (Bool-cases (is_named forwarded_proto l)) [
  | inl e ↦ rw (e, host_line-proto l e) (find-others ls m h)
  | inr e ↦ rw e (ground (arith, find-others ls m h))
]

-- The host that the backend reads in the request that is handed on is the host that the proxy read.
pub extract_host-set_or_replace_header :
    (l : Str) (ls : List Str) (body : List ℕ) (value : Str)
    → All IsHeaderLine (l ∷ ls)
    → is_plain value ≡ true
    → extract_host (set_or_replace_header (request (l ∷ ls) body) forwarded_proto value)
      ≡ extract_host (request (l ∷ ls) body)
unfolding lower
extract_host-set_or_replace_header l ls body value h v =
    let line = header_line forwarded_proto value in
    let kept = others forwarded_proto (l ∷ ls) in
    let seen : extract_host (request (kept ++ line ∷ []) body)
        ≡ host_of (find is_host_line (kept ++ line ∷ [])) =
      extract_host-last kept line body (others-IsHeaderLine forwarded_proto (l ∷ ls) h) (refl, v) in
    rw (set_or_replace_header-request forwarded_proto value refl v l ls body h)
      (rw (seen, find-others (l ∷ ls) line refl) (rw (extract_host-request l ls body h) refl))
