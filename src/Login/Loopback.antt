-- ===== src/Login/Loopback.antt =====
-- auth.rs: `accept_loopback`, which reads the code that the browser brings back, and the encoding of
-- a query.
pub mod Callback
use mjolnir.Base.{
  ℕ, Bool, true, false, Option, none, some, List, [], ◌∷◌, ◌++◌, Str, codes, eq_str, if◌then◌else◌,
  ◌==◌, split, Result, ok, err,
}
use mjolnir.Base.Utf8.{from_utf8_lossy, as_bytes}
use mjolnir.Base.Words.{first_line, split_whitespace, split_once}
use mjolnir.Gateway.Parked.{hex_pair}
use mjolnir.Gateway.Sites.{encode_bytes}

unfoldable pub encode_query : Str → Str
encode_query s = encode_bytes (as_bytes s)

abbrev pub unplus : ℕ → ℕ
unplus c = if c == b'+' then b' ' else c

unfoldable pub decode_query : List ℕ → List ℕ
unfolding hex_pair
decode_query [] = []
decode_query (c ∷ []) = unplus c ∷ []
decode_query (c ∷ a ∷ []) = unplus c ∷ unplus a ∷ []
decode_query (c ∷ a ∷ b ∷ s) = elim (c == b'%') [
  | true ↦ elim (hex_pair a b) [
    | some v ↦ v ∷ decode_query s
    | none ↦ unplus c ∷ decode_query (a ∷ b ∷ s)
  ]
  | false ↦ unplus c ∷ decode_query (a ∷ b ∷ s)
]

-- `percent_decode` of this module.
unfoldable pub percent_decode : Str → Str
unfolding decode_query
percent_decode s = from_utf8_lossy (decode_query (as_bytes s))

pub data CallbackError : Type 0 where
  authorization_failed : Str → CallbackError
  state_mismatch no_code : CallbackError

pub record Params : Type 0 where
  pub code : Option Str
  pub state : Option Str

-- One pair of the query; an error ends the reading.
unfoldable pub take_pair : Str → Str → Params → Result CallbackError Params
take_pair k v p =
    if eq_str k (codes "code")
    then ok (record p { code = some v })
    else if eq_str k (codes "state")
    then ok (record p { state = some v })
    else if eq_str k (codes "error")
    then err (authorization_failed v)
    else ok p

unfoldable pub read_pairs : List Str → Params → Result CallbackError Params
unfolding take_pair
read_pairs [] p = ok p
read_pairs (pair ∷ pairs) p = elim (split_once b'=' pair) [
  | none ↦ read_pairs pairs p
  | some (k, v) ↦ elim (take_pair k (percent_decode v) p) [
    | err e ↦ err e
    | ok q ↦ read_pairs pairs q
  ]
]

abbrev pub target_or_empty : List Str → Str
target_or_empty (m ∷ target ∷ ws) = target
target_or_empty ws = []

abbrev line_or_empty : Option Str → Str
line_or_empty none = []
line_or_empty (some l) = l

abbrev query_part : Option (Str × Str) → Str
query_part none = []
query_part (some (path, query)) = query

-- The query of the request line, or the empty text.
unfoldable pub callback_query : List ℕ → Str
callback_query bytes =
    let first = line_or_empty (first_line (from_utf8_lossy bytes)) in
    query_part (split_once b'?' (target_or_empty (split_whitespace first)))

unfoldable pub checked : Str → Params → Result CallbackError Str
checked expect_state p = elim p.state [
  | none ↦ err state_mismatch
  | some state ↦
      if eq_str state expect_state
      then elim p.code [ none ↦ err no_code | some code ↦ ok code ]
      else err state_mismatch
]

unfoldable pub after_pairs : Str → Result CallbackError Params → Result CallbackError Str
unfolding checked
after_pairs expect_state (err e) = err e
after_pairs expect_state (ok p) = checked expect_state p

-- `accept_loopback`, with the bytes of the one read.
unfoldable pub accept_loopback : List ℕ → Str → Result CallbackError Str
unfolding callback_query read_pairs after_pairs
accept_loopback bytes expect_state =
    after_pairs expect_state
      (read_pairs (split b'&' (callback_query bytes)) (record { code = none; state = none }))
