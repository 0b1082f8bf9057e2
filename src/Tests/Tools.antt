-- ===== src/Tests/Tools.antt =====
-- The login and the command line, at small inputs.
use mjolnir.Base.{
  ℕ, true, false, Option, none, some, List, [], ◌∷◌, ◌++◌, Str, codes, ok, arith, ◌≡◌, ◌≢◌, refl,
  All, split,
}
use mjolnir.Base.Utf8.{as_bytes, from_utf8_lossy}
use mjolnir.Base.Words.{first_line, split_whitespace, split_once}
use mjolnir.Login.Token.{TokenResponse, StoredToken, holds}
use mjolnir.Login.Token.Sessions.{Call, System, InStep, IsServed, run, run-InStep}
use mjolnir.Login.Device.{Round, refused, device_login, waiting, device_login-ends}
use mjolnir.Login.Loopback.{accept_loopback, callback_query, percent_decode}
use mjolnir.Login.Loopback.Callback.{HasPair, accept_loopback-HasPair}
use mjolnir.Client.Keys.{KeyNormalizer, push}
use mjolnir.Client.Keys.Drained.{Normalized, Settled, push-Normalized}
use mjolnir.Client.Keys.Pressed.{nothing_held}
use mjolnir.Client.Encode.{shell_quote}
use mjolnir.Client.Encode.Quoted.{start, read_word, read_word-shell_quote}

-- A session whose token is old at 1000, and a service that rotates its credential each time.
abbrev session : StoredToken
session = record {
  access_token = codes "a";
  refresh_token = some (codes "r");
  expires_at = some 1000;
  issuer = codes "i";
}

abbrev claims : Str → Option ℕ
claims payload = none

abbrev issue : ℕ → TokenResponse
issue n = record {
  access_token = codes "b";
  id_token = none;
  refresh_token = some (n ∷ []);
  expires_in = some 300;
}

abbrev system : System
system = record { file = holds session; current = codes "r"; issued = 0 }

abbrev calls : List Call
calls =
    record { now = 990; force = false; reached = true }
    ∷ record { now = 991; force = true; reached = true }
    ∷ record { now = 100; force = false; reached = false }
    ∷ []

run-InStep_example :
    All (IsServed claims issue) (run claims issue calls system).0
    × InStep (run claims issue calls system).1
run-InStep_example =
    run-InStep claims issue calls system
      (record { stored = session; file_is = refl; credential = refl })

abbrev pending_round : Round
pending_round = record { late = 0; took = 1; answer = refused (codes "slow_down") }

device_login-ends_example : device_login 5 2 100 (pending_round ∷ pending_round ∷ []) ≢ waiting
device_login-ends_example =
    device_login-ends 5 2 100 (pending_round ∷ pending_round ∷ []) (omega arith) (omega arith)
      (omega arith)

abbrev callback : List ℕ
callback = codes "GET /callback?state=s%20t&code=c HTTP/1.1"

accepted : accept_loopback callback (codes "s t") ≡ ok (codes "c")
unfolding accept_loopback split split_once split_whitespace first_line from_utf8_lossy
    percent_decode as_bytes
accepted = refl

accept_loopback-HasPair_example :
    HasPair (split b'&' (callback_query callback)) (codes "state") (codes "s t")
    × HasPair (split b'&' (callback_query callback)) (codes "code") (codes "c")
accept_loopback-HasPair_example =
    accept_loopback-HasPair callback (codes "s t") (codes "c") accepted

-- An "@" that is held after its first half came.
abbrev half : KeyNormalizer
half = record { pending = 27 ∷ b'[' ∷ b'6' ∷ [] }

push-Normalized_example :
    let (out, after) = push half (codes "4ux") in
    Normalized (half.pending ++ codes "4ux") (out ++ after.pending) × Settled false after.pending
push-Normalized_example = push-Normalized half (codes "4ux")

completed : push half (codes "4ux") ≡ (codes "@x", nothing_held)
unfolding push
completed = refl

read_word-shell_quote_example :
    read_word start (shell_quote (codes "it's; rm") ++ codes " -x")
    ≡ some (codes "it's; rm", codes " -x")
read_word-shell_quote_example = read_word-shell_quote (codes "it's; rm") (codes " -x") refl
