-- ===== src/Gateway/Parked/Origin.antt =====
-- parked.rs: `origin_from_request`, the host that a visitor came from.
use mjolnir.Base.{
  ℕ, Bool, false, Option, none, some, List, [], ◌∷◌, Str, codes, len, eq_str, if◌then◌else◌, ltb,
  arith, ◌≡◌, trim, drop, split, Option-cases, Bool-cases, inl, inr, ◌&&◌,
}
use mjolnir.Base.Utf8.{from_utf8_lossy}
use mjolnir.Base.Words.{starts_with_ignore_case, split_crlf, split_once, split_whitespace}
use mjolnir.Gateway.Headers.{head_of}
use mjolnir.Gateway.Parked.{sanitize_hostname, not_canonical, is_canonical_host, percent_decode}
use mjolnir.Gateway.Parked.Hostname.{IsHostname, IsHostname-sanitize_hostname}

-- The loop over the pairs of the query, which ends at the first "from".
unfoldable pub from_pairs : List Str → Option Str
from_pairs [] = none
from_pairs (pair ∷ pairs) =
    let rest = from_pairs pairs in
    elim (split_once b'=' pair) [
      | none ↦ rest
      | some (k, v) ↦
          if eq_str k (codes "from")
          then not_canonical (sanitize_hostname (percent_decode v))
          else rest
    ]

abbrev target_of : List Str → Option Str
target_of (method ∷ target ∷ ws) = some target
target_of ws = none

unfoldable pub from_query : Str → Option Str
unfolding from_pairs
from_query line = elim (target_of (split_whitespace line)) [
  | none ↦ none
  | some target ↦ elim (split_once b'?' target) [
    | none ↦ none
    | some (path, query) ↦ from_pairs (split b'&' query)
  ]
]

abbrev is_referer_line : Str → Bool
is_referer_line line = ltb 8 (len line) && starts_with_ignore_case (codes "referer:") line

-- The last `referer:` line counts.
unfoldable pub referer_in : Option Str → List Str → Option Str
referer_in referer [] = referer
referer_in referer (line ∷ lines) =
    referer_in (if is_referer_line line then sanitize_hostname (trim (drop 8 line)) else referer)
      lines

abbrev origin_in : List Str → Option Str
origin_in [] = none
origin_in (line ∷ lines) = elim (from_query line) [
  | some from ↦ some from
  | none ↦ not_canonical (referer_in none (line ∷ lines))
]

unfoldable pub origin_from_request : List ℕ → Option Str
unfolding from_query referer_in
origin_from_request bytes = origin_in (split_crlf (from_utf8_lossy (head_of bytes)))

-- A host that the page may name: a hostname that is not the page's own.
pub record IsOrigin (h : Str) : Type 0 where
  pub hostname : IsHostname h
  pub elsewhere : is_canonical_host h ≡ false

IsOrigin-not_canonical : (raw h : Str) → not_canonical (sanitize_hostname raw) ≡ some h → IsOrigin h
IsOrigin-not_canonical raw h e = elim (Option-cases (sanitize_hostname raw)) [
  | inl n ↦ absurd (ground arith)
  | inr (g, n) ↦ record {
    hostname = IsHostname-sanitize_hostname raw h (ground arith);
    elsewhere = ground arith;
  }
]

from_pairs-IsOrigin : (pairs : List Str) (h : Str) → from_pairs pairs ≡ some h → IsOrigin h
unfolding from_pairs
from_pairs-IsOrigin [] h e = cc
from_pairs-IsOrigin (pair ∷ pairs) h e = elim (Option-cases (split_once b'=' pair)) [
  | inl n ↦ from_pairs-IsOrigin pairs h (ground arith)
  | inr ((k, v), n) ↦ elim (Bool-cases (eq_str k (codes "from"))) [
    | inl t ↦ IsOrigin-not_canonical (percent_decode v) h (ground arith)
    | inr f ↦ from_pairs-IsOrigin pairs h (ground arith)
  ]
]

from_query-IsOrigin : (line h : Str) → from_query line ≡ some h → IsOrigin h
unfolding from_query
from_query-IsOrigin line h e = elim (Option-cases (target_of (split_whitespace line))) [
  | inl n ↦ absurd (ground arith)
  | inr (target, n) ↦ elim (Option-cases (split_once b'?' target)) [
    | inl m ↦ absurd (ground arith)
    | inr ((path, query), m) ↦ from_pairs-IsOrigin (split b'&' query) h (ground arith)
  ]
]

-- Where a referer was taken from a header it was let through as a hostname.
abbrev Sanitized : Option Str → Type 0
Sanitized o = (h : Str) → o ≡ some h → IsHostname h

referer_in-Sanitized :
    (o : Option Str) (lines : List Str) → Sanitized o → Sanitized (referer_in o lines)
unfolding referer_in
referer_in-Sanitized o [] h = h
referer_in-Sanitized o (line ∷ lines) h = elim (Bool-cases (is_referer_line line)) [
  | inl e ↦ rw e (
      referer_in-Sanitized (sanitize_hostname (trim (drop 8 line))) lines
        (IsHostname-sanitize_hostname (trim (drop 8 line))))
  | inr e ↦ rw e (referer_in-Sanitized o lines h)
]

origin_in-IsOrigin : (lines : List Str) (h : Str) → origin_in lines ≡ some h → IsOrigin h
origin_in-IsOrigin [] h e = cc
origin_in-IsOrigin (line ∷ lines) h e = elim (Option-cases (from_query line)) [
  | inr (g, n) ↦ from_query-IsOrigin line h (ground arith)
  | inl n ↦ elim (Option-cases (referer_in none (line ∷ lines))) [
    | inl m ↦ absurd (ground arith)
    | inr (r, m) ↦ record {
      hostname = referer_in-Sanitized none (line ∷ lines) (λ g k. cc) h (ground arith);
      elsewhere = ground arith;
    }
  ]
]

-- The host that the page says a visitor came from, by the query or by a header, is a hostname other
-- than the page's own, whatever the bytes of the request are.
pub origin_from_request-IsOrigin :
    (bytes : List ℕ) (h : Str) → origin_from_request bytes ≡ some h → IsOrigin h
unfolding origin_from_request
origin_from_request-IsOrigin bytes h e =
    origin_in-IsOrigin (split_crlf (from_utf8_lossy (head_of bytes))) h e
