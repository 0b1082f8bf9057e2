-- ===== src/Guest/Mail/Seen.antt =====
-- What is recorded is still seen after a restart.
use mjolnir.Base.{
  ℕ, ◌≡◌, ◌≢◌, refl, ap, Bool, true, false, not, ◌&&◌, List, [], ◌∷◌, ◌++◌, Str, eq_str_refl,
  if◌then◌else◌, ◌==◌, Result, ok, err, is_empty, any, filter, all, append_assoc, ends_with, ◌⊎◌,
  inl, inr, Bool-cases, arith,
}
use mjolnir.Guest.Mail.{
  lines, SeenStore, same_id, open_store, prepend, contains, Append, MailError, record_failed,
  dispatch_failed, record_id, Mailbox, DispatchIo, dispatch, record_and_dispatch,
}

-- An identifier that one line of the file holds.
pub record IsPlain (id : Str) : Type 0 where
  pub full : is_empty id ≡ false
  pub one_line : all (λ c. not (c == 10)) id ≡ true
  pub no_return : ends_with 13 id ≡ false

-- The file is made of whole lines.
abbrev pub IsWhole : Str → Type 0
IsWhole file = (file ≡ []) ⊎ (ends_with 10 file ≡ true)

lines-one :
    (id : Str)
    → is_empty id ≡ false
    → all (λ c. not (c == 10)) id ≡ true
    → ends_with 13 id ≡ false
    → lines (id ++ 10 ∷ []) ≡ id ∷ []
unfolding lines ends_with
lines-one [] f o r = cc
lines-one (c ∷ []) f o r = ground arith
lines-one (c ∷ d ∷ id) f o r = ground (arith, lines-one (d ∷ id))

abbrev is_nil : List Str → Bool
is_nil [] = true
is_nil (l ∷ ls) = false

is_nil-prepend : (c : ℕ) (ls : List Str) → is_nil (prepend c ls) ≡ false
is_nil-prepend c [] = refl
is_nil-prepend c (l ∷ ls) = refl

is_nil-lines : (c : ℕ) (s : Str) → is_nil (lines (c ∷ s)) ≡ false
unfolding lines
is_nil-lines c [] = ground arith
is_nil-lines c (d ∷ s) = ground (arith, is_nil-lines d s, is_nil-prepend c (lines (d ∷ s)))

full : (ls : List Str) → is_nil ls ≡ false → (l : Str) × (ms : List Str) × (ls ≡ l ∷ ms)
full [] h = cc
full (l ∷ ls) h = (l, ls, refl)

-- One character in front of a text that is not empty.
step : ℕ → ℕ → List Str → List Str
step c d rest = if c == 10 then [] ∷ rest else if c == 13 && d == 10 then rest else prepend c rest

lines-cons : (c d : ℕ) (s : Str) → lines (c ∷ d ∷ s) ≡ step c d (lines (d ∷ s))
unfolding lines step
lines-cons c d s = refl

step-append :
    (c d : ℕ) (l : Str) (ls ms : List Str) → step c d ((l ∷ ls) ++ ms) ≡ step c d (l ∷ ls) ++ ms
unfolding step
step-append c d l ls ms = ground arith

lines-append :
    (file more : Str) → ends_with 10 file ≡ true → lines (file ++ more) ≡ lines file ++ lines more
lines-append [] more w = unfold ends_with in cc
lines-append (c ∷ []) more w = unfold lines ends_with in ground arith
lines-append (c ∷ d ∷ file) more w =
    let (l, ls, e) = full (lines (d ∷ file)) (is_nil-lines d file) in
    let later : lines (d ∷ file ++ more) ≡ lines (d ∷ file) ++ lines more =
      lines-append (d ∷ file) more (unfold ends_with in w) in
    rw (lines-cons c d (file ++ more), later, lines-cons c d file, e)
      (step-append c d l ls (lines more))

ends_with-append : (s : Str) (c : ℕ) → ends_with c (s ++ c ∷ []) ≡ true
unfolding ends_with
ends_with-append [] c = ground arith
ends_with-append (d ∷ []) c = ground arith
ends_with-append (d ∷ e ∷ s) c = ends_with-append (e ∷ s) c

pub lines-append_one :
    (file id : Str)
    → IsWhole file
    → IsPlain id
    → lines (file ++ (id ++ 10 ∷ [])) ≡ lines file ++ id ∷ []
lines-append_one file id (inl e) p =
    rw e (unfold lines in lines-one id p.full p.one_line p.no_return)
lines-append_one file id (inr w) p =
    rw (lines-append file (id ++ 10 ∷ []) w, lines-one id p.full p.one_line p.no_return) refl

pub filter-append_one :
    (p : Str → Bool) (ls : List Str) (id : Str)
    → p id ≡ true
    → filter p (ls ++ id ∷ []) ≡ filter p ls ++ id ∷ []
filter-append_one p [] id h = rw h refl
filter-append_one p (l ∷ ls) id h = ground (arith, filter-append_one p ls id h)

pub any-append_one :
    (p : Str → Bool) (ls : List Str) (id : Str) → p id ≡ true → any p (ls ++ id ∷ []) ≡ true
any-append_one p [] id h = rw h refl
any-append_one p (l ∷ ls) id h = ground (arith, any-append_one p ls id h)

-- Memory and disk agree.
pub record IsSynced (s : SeenStore) : Type 0 where
  pub whole : IsWhole s.file
  pub reopens : open_store s.file ≡ s

pub IsWhole-append : (file id : Str) → IsWhole (file ++ (id ++ 10 ∷ []))
IsWhole-append file id =
    inr (rw (← append_assoc file id (10 ∷ [])) (ends_with-append (file ++ id) 10))

reopened :
    (s : SeenStore) (id : Str)
    → IsSynced s
    → IsPlain id
    → open_store (s.file ++ (id ++ 10 ∷ []))
      ≡ record { file = s.file ++ (id ++ 10 ∷ []); ids = s.ids ++ id ∷ [] }
unfolding open_store
reopened s id v p =
    let kept : filter (λ l. not (is_empty l)) (lines s.file) ≡ s.ids =
      ap (λ (t : SeenStore). t.ids) v.reopens in
    rw
      (
        lines-append_one s.file id v.whole p,
        filter-append_one (λ l. not (is_empty l)) (lines s.file) id (ground (arith, p.full)),
        kept,
      )
      refl

-- Where memory and disk agree, a plain identifier that is recorded is seen, in memory and by a store that is opened again on
-- the file; and memory and disk agree as they did.
pub record_id-survives :
    (io : Append) (s s' : SeenStore) (id : Str)
    → IsSynced s
    → IsPlain id
    → record_id io s id ≡ (ok tt, s')
    → IsSynced s' × (contains s' id ≡ true) × (contains (open_store s'.file) id ≡ true)
unfolding record_id
record_id-survives io s s' id v p h = elim (Bool-cases (contains s id)) [
  | inl old ↦ let same : s ≡ s' = ground (arith, old) in rw (← same) (v, old, rw v.reopens old)
  | inr new ↦
      let grown : record { file = s.file ++ (id ++ 10 ∷ []); ids = s.ids ++ id ∷ [] } ≡ s' =
        ground (arith, new) in
      let open' = reopened s id v p in
      rw (← grown) (
        record { whole = IsWhole-append s.file id; reopens = open' },
        unfold contains in any-append_one (same_id id) s.ids id (eq_str_refl id),
        rw open' (unfold contains in any-append_one (same_id id) s.ids id (eq_str_refl id)),
      )
]

record_id-seen :
    (io : Append) (s s' : SeenStore) (id : Str)
    → record_id io s id ≡ (ok tt, s')
    → contains s' id ≡ true
unfolding record_id contains
record_id-seen io s s' id h = ground (arith, any-append_one (same_id id) s.ids id (eq_str_refl id))

dispatch-recorded :
    (fresh drops : Bool) (id : Str) (json : List ℕ) (dropped : List (Str × List ℕ))
    (r : Result MailError Unit × SeenStore) (answer : Result MailError Bool) (m' : Mailbox)
    → answer ≢ err record_failed
    → dispatch fresh id json drops dropped r ≡ (answer, m')
    → (r ≡ (ok tt, m'.seen)) ⊎ (r.0 ≡ err dispatch_failed)
dispatch-recorded true true id json dropped (ok tt, s) answer m' n h = inl cc
dispatch-recorded true false id json dropped (ok tt, s) answer m' n h = inl cc
dispatch-recorded false drops id json dropped (ok tt, s) answer m' n h = inl cc
dispatch-recorded fresh drops id json dropped (err dispatch_failed, s) answer m' n h = inr refl
dispatch-recorded fresh drops id json dropped (err record_failed, s) answer m' n h = absurd (n cc)

record_id-fails :
    (io : Append) (s : SeenStore) (id : Str) → (record_id io s id).0 ≢ err dispatch_failed
unfolding record_id
record_id-fails io s id h = ground arith

dispatch-again :
    (io : DispatchIo) (m : Mailbox) (id : Str) (json : List ℕ)
    → contains m.seen id ≡ true
    → record_and_dispatch io m id json ≡ (ok false, m)
unfolding record_and_dispatch
dispatch-again io m id json h = ground (arith, h)

-- A mail whose dispatch fails once it is recorded is never dispatched: the next attempt answers
-- that it is not new and drops nothing.
pub record_and_dispatch-lost :
    (io io' : DispatchIo) (m m' : Mailbox) (id : Str) (json json' : List ℕ)
    → record_and_dispatch io m id json ≡ (err dispatch_failed, m')
    → record_and_dispatch io' m' id json' ≡ (ok false, m')
unfolding record_and_dispatch
record_and_dispatch-lost io io' m m' id json json' h =
    elim (dispatch-recorded (not (contains m.seen id)) io.drops id json m.dropped
      (record_id io.append m.seen id) (err dispatch_failed) m' (λ e. cc) h) [
        | inl r ↦ dispatch-again io' m' id json' (record_id-seen io.append m.seen m'.seen id r)
        | inr e ↦ absurd (record_id-fails io.append m.seen id e)
      ]
