-- ===== src/Gateway/Subdomain/Targets.antt =====
-- The synthetic subdomain of an alias or of a fallback names its node and port.
use mjolnir.Base.{
  ℕ, ◌≡◌, ◌<◌, refl, Bool, true, false, not, Option, none, some, [], ◌∷◌, ◌++◌, Str, is_empty, ◌==◌,
  all, ok, arith,
}
use mjolnir.Base.Decimal.{decimal, is_digit}
use mjolnir.Base.Decimal.Reading.{decimal-digits, parse_unsigned-decimal}
use mjolnir.Gateway.Config.{Alias}
use mjolnir.Gateway.Route.{with_port, target_subdomain}
use mjolnir.Gateway.Subdomain.{rfind, parse_z32_subdomain}

abbrev no_dash : Str → Bool
no_dash s = all (λ c. not (c == b'-')) s

rfind-eq-none : (s : Str) → no_dash s ≡ true → rfind b'-' s ≡ none
unfolding rfind
rfind-eq-none [] h = refl
rfind-eq-none (c ∷ s) h = ground (arith, rfind-eq-none s)

rfind-append : (s t : Str) → no_dash t ≡ true → rfind b'-' (s ++ b'-' ∷ t) ≡ some (s, t)
unfolding rfind
rfind-append [] t h = ground (arith, rfind-eq-none t h)
rfind-append (c ∷ s) t h = ground (arith, rfind-append s t h)

digits-no_dash : (s : Str) → all is_digit s ≡ true → no_dash s ≡ true
unfolding is_digit
digits-no_dash [] h = refl
digits-no_dash (c ∷ s) h = ground (arith, digits-no_dash s)

-- A port of 16 bits, where there is one.
abbrev pub IsPort : Option ℕ → Type 0
IsPort none = Unit
IsPort (some p) = p < 65536

is_empty-append : (s t : Str) (c : ℕ) → is_empty (s ++ c ∷ t) ≡ false
is_empty-append [] t c = refl
is_empty-append (d ∷ s) t c = refl

pub parse-with_port :
    (node : Str) (port : Option ℕ)
    → is_empty node ≡ false
    → no_dash node ≡ true
    → IsPort port
    → parse_z32_subdomain (with_port node port) ≡ ok (record { node_id_z32 = node; port = port })
unfolding parse_z32_subdomain
parse-with_port node none f d p = rw (f, rfind-eq-none node d) refl
parse-with_port node (some n) f d p =
    let digits = decimal-digits n (omega arith) in
    rw
      (
        is_empty-append node (decimal n) b'-',
        rfind-append node (decimal n) (digits-no_dash (decimal n) digits),
        parse_unsigned-decimal 65535 n (omega arith) (omega arith),
        f,
      )
      refl

-- The text to which an alias is tunnelled is read as the alias's node and port, where the node is
-- a text without a dash, as every z32 text is, and not empty, and the port has 16 bits.
pub parse_z32_subdomain-target_subdomain :
    (al : Alias)
    → is_empty al.node_z32 ≡ false
    → no_dash al.node_z32 ≡ true
    → IsPort al.port
    → parse_z32_subdomain (target_subdomain al)
      ≡ ok (record { node_id_z32 = al.node_z32; port = al.port })
unfolding target_subdomain
parse_z32_subdomain-target_subdomain al f d p = parse-with_port al.node_z32 al.port f d p
