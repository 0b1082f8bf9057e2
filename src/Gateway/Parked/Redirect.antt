-- ===== src/Gateway/Parked/Redirect.antt =====
-- parked.rs: `redirect_to_canonical` writes one response and no more headers than it means to.
use mjolnir.Base.{
  true, not, ◌&&◌, List, [], ◌∷◌, ◌++◌, Str, codes, ltb, ◌==◌, All, arith, ◌≡◌, refl, append_assoc,
  Option-cases, inl, inr,
}
use mjolnir.Base.Utf8.{as_bytes-ascii}
use mjolnir.Base.Words.{split_crlf}
use mjolnir.Gateway.Headers.{crlf}
use mjolnir.Gateway.Headers.Block.{is_plain, IsHeaderLine, block, split_crlf-block, ascii-block}
use mjolnir.Gateway.Parked.{
  sanitize_hostname, not_canonical, location, redirect_text, redirect_to_canonical,
}
use mjolnir.Gateway.Parked.Hostname.{IsHostname-sanitize_hostname, hostname_char}

plain-hostname : (h : Str) → All (λ c. hostname_char c ≡ true) h → is_plain h ≡ true
plain-hostname [] k = refl
plain-hostname (c ∷ h) k =
    let one : (ltb c 0x80 && not (c == 13)) ≡ true = ground arith in rw one (plain-hostname h k.1)

plain-append : (a b : Str) → is_plain a ≡ true → is_plain b ≡ true → is_plain (a ++ b) ≡ true
plain-append [] b h k = k
plain-append (c ∷ a) b h k = ground (arith, plain-append a b)

plain-location : (host : Str) → is_plain (location host) ≡ true
unfolding location
plain-location host = elim (Option-cases (not_canonical (sanitize_hostname host))) [
  | inl e ↦ rw e refl
  | inr (h, e) ↦ elim (Option-cases (sanitize_hostname host)) [
    | inl n ↦ absurd (ground arith)
    | inr (g, n) ↦
        rw e (plain-hostname h (IsHostname-sanitize_hostname host h (ground arith)).chars)
  ]
]

-- The lines of the redirect.
abbrev pub redirect_lines : Str → List Str
redirect_lines host =
    codes "HTTP/1.1 307 Temporary Redirect"
    ∷ (codes "Location: " ++ location host)
    ∷ codes "Cache-Control: no-store"
    ∷ codes "Content-Length: 0"
    ∷ codes "Connection: close"
    ∷ []

lines-IsHeaderLine : (host : Str) → All IsHeaderLine (redirect_lines host)
lines-IsHeaderLine host = (
  (refl, refl),
  ((refl, plain-location host), ((refl, refl), ((refl, refl), ((refl, refl), tt)))),
)

redirect_text-block : (host : Str) → redirect_text host ≡ block (redirect_lines host) ++ crlf
unfolding redirect_text
redirect_text-block host = simp append_assoc

-- Whatever host is asked for, the redirect has its five lines and an empty body: the host sets no
-- header of its own and ends no line.
pub redirect_to_canonical-lines :
    (host : Str) → split_crlf (redirect_to_canonical host) ≡ redirect_lines host ++ [] ∷ [] ∷ []
unfolding redirect_to_canonical
redirect_to_canonical-lines host =
    let lines = redirect_lines host in
    let plain =
      as_bytes-ascii (block lines ++ crlf) (ascii-block lines (lines-IsHeaderLine host)) in
    rw (redirect_text-block host, plain) (split_crlf-block lines (lines-IsHeaderLine host))
