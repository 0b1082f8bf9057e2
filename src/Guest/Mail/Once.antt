-- ===== src/Guest/Mail/Once.antt =====
-- A mail is dispatched once at most, whatever fails and however often the agent is restarted.
use mjolnir.Base.{
  ℕ, ◌≡◌, ◌≢◌, refl, Bool, true, false, not, List, [], ◌∷◌, ◌++◌, Str, eq_str, eq_str_refl,
  eq_str_iff, Result, ok, err, is_empty, any, ◌⊎◌, inl, inr, Bool-cases, arith, All, Distinct,
}
use mjolnir.Guest.Mail.{
  lines, SeenStore, same_id, open_store, contains, Append, open_fails, line_feed_fails, sync_fails,
  succeeds, MailError, record_failed, record_id, Mailbox, DispatchIo, dispatch, record_and_dispatch,
}
use mjolnir.Guest.Mail.Seen.{
  IsPlain, IsWhole, IsWhole-append, lines-append_one, filter-append_one, any-append_one,
}

-- A mail comes, or the agent starts again and reads the record from its file.
pub data Event : Type 0 where
  attempt : DispatchIo → Str → List ℕ → Event
  restart : Event

-- The identifiers are plain, and no append stops between an identifier and its line feed.
abbrev pub IsOrderly : Event → Type 0
IsOrderly (attempt io id json) = IsPlain id × (io.append ≢ line_feed_fails)
IsOrderly restart = Unit

-- The identifier of a mail that was dispatched, in front of those dispatched later.
abbrev noted : Str → Result MailError Bool → List Str → List Str
noted id (ok true) later = id ∷ later
noted id (ok false) later = later
noted id (err e) later = later

-- The identifiers of the mails that are dispatched, in their order.
unfoldable pub dispatched : Mailbox → List Event → List Str
dispatched m [] = []
dispatched m (attempt io id json ∷ es) =
    let (answer, m') = record_and_dispatch io m id json in noted id answer (dispatched m' es)
dispatched m (restart ∷ es) = dispatched (record m { seen = open_store m.seen.file }) es

-- The file is made of whole lines and has every identifier that the memory has.
record Keeps (s : SeenStore) : Type 0 where
  whole : IsWhole s.file
  reopens : (x : Str) → contains s x ≡ true → contains (open_store s.file) x ≡ true

any-append_left :
    (p : Str → Bool) (ls : List Str) (id : Str) → any p ls ≡ true → any p (ls ++ id ∷ []) ≡ true
any-append_left p [] id h = absurd (ground (arith, h))
any-append_left p (l ∷ ls) id h = ground (arith, h, any-append_left p ls id)

any-append_either :
    (p : Str → Bool) (ls : List Str) (id : Str)
    → any p (ls ++ id ∷ []) ≡ true
    → (any p ls ≡ true) ⊎ (p id ≡ true)
any-append_either p [] id h = ground (arith, h)
any-append_either p (l ∷ ls) id h = ground (arith, h, any-append_either p ls id)

reopened_ids :
    (file id : Str)
    → IsWhole file
    → IsPlain id
    → (open_store (file ++ (id ++ 10 ∷ []))).ids ≡ (open_store file).ids ++ id ∷ []
unfolding open_store
reopened_ids file id w p =
    rw (lines-append_one file id w p)
      (filter-append_one (λ l. not (is_empty l)) (lines file) id (ground (arith, p.full)))

reopened-stays :
    (file id x : Str)
    → IsWhole file
    → IsPlain id
    → contains (open_store file) x ≡ true
    → contains (open_store (file ++ (id ++ 10 ∷ []))) x ≡ true
unfolding contains
reopened-stays file id x w p h =
    rw (reopened_ids file id w p) (any-append_left (same_id x) (open_store file).ids id h)

reopened-has :
    (file id x : Str)
    → IsWhole file
    → IsPlain id
    → same_id x id ≡ true
    → contains (open_store (file ++ (id ++ 10 ∷ []))) x ≡ true
unfolding contains
reopened-has file id x w p h =
    rw (reopened_ids file id w p) (any-append_one (same_id x) (open_store file).ids id h)

-- What recording does: the store is as it was, or has a line more in its file, or in both.
data Recorded (s : SeenStore) (id : Str) : Result MailError Unit × SeenStore → Type 0 where
  known : (r : Result MailError Unit) → contains s id ≡ true → Recorded s id (r, s)
  unopened : Recorded s id (err record_failed, s)
  unsynced : Recorded s id (err record_failed, record s { file = s.file ++ (id ++ 10 ∷ []) })
  recorded :
      Recorded s id (ok tt, record { file = s.file ++ (id ++ 10 ∷ []); ids = s.ids ++ id ∷ [] })

record_id-Recorded :
    (io : Append) (s : SeenStore) (id : Str)
    → io ≢ line_feed_fails
    → Recorded s id (record_id io s id)
unfolding record_id
record_id-Recorded open_fails s id w = elim (Bool-cases (contains s id)) [
  | inl old ↦ rw old (known (ok tt) old)
  | inr new ↦ rw new unopened
]
record_id-Recorded line_feed_fails s id w = elim (Bool-cases (contains s id)) [
  | inl old ↦ rw old (known (ok tt) old)
  | inr new ↦ absurd (w refl)
]
record_id-Recorded sync_fails s id w = elim (Bool-cases (contains s id)) [
  | inl old ↦ rw old (known (ok tt) old)
  | inr new ↦ rw new unsynced
]
record_id-Recorded succeeds s id w = elim (Bool-cases (contains s id)) [
  | inl old ↦ rw old (known (ok tt) old)
  | inr new ↦ rw new recorded
]

Recorded-Keeps :
    (s : SeenStore) (id : Str) (r : Result MailError Unit × SeenStore)
    → Keeps s
    → IsPlain id
    → Recorded s id r
    → Keeps r.1
Recorded-Keeps s id _ k p (known r old) = k
Recorded-Keeps s id _ k p unopened = k
Recorded-Keeps s id _ k p unsynced = record {
  whole = IsWhole-append s.file id;
  reopens = λ x h. reopened-stays s.file id x k.whole p (k.reopens x (unfold contains in h));
}
Recorded-Keeps s id _ k p recorded = record {
  whole = IsWhole-append s.file id;
  reopens = λ x h. elim (any-append_either (same_id x) s.ids id (unfold contains in h)) [
    | inl old ↦ reopened-stays s.file id x k.whole p (k.reopens x (unfold contains in old))
    | inr new ↦ reopened-has s.file id x k.whole p new
  ];
}

Recorded-stays :
    (s : SeenStore) (id x : Str) (r : Result MailError Unit × SeenStore)
    → Recorded s id r
    → contains s x ≡ true
    → contains r.1 x ≡ true
unfolding contains
Recorded-stays s id x _ (known r old) h = h
Recorded-stays s id x _ unopened h = h
Recorded-stays s id x _ unsynced h = h
Recorded-stays s id x _ recorded h = any-append_left (same_id x) s.ids id h

-- A mail that is new and recorded is in memory from then on.
Recorded-seen :
    (s : SeenStore) (id : Str) (r : Result MailError Unit × SeenStore)
    → Recorded s id r
    → r.0 ≡ ok tt
    → contains r.1 id ≡ true
Recorded-seen s id _ (known r old) e = old
Recorded-seen s id _ unopened e = absurd cc
Recorded-seen s id _ unsynced e = absurd cc
Recorded-seen s id _ recorded e =
    unfold contains in any-append_one (same_id id) s.ids id (eq_str_refl id)

dispatch-seen :
    (fresh drops : Bool) (id : Str) (json : List ℕ) (dropped : List (Str × List ℕ))
    (r : Result MailError Unit × SeenStore)
    → (dispatch fresh id json drops dropped r).1.seen ≡ r.1
dispatch-seen fresh drops id json dropped (err e, s) = refl
dispatch-seen false drops id json dropped (ok _, s) = refl
dispatch-seen true true id json dropped (ok _, s) = refl
dispatch-seen true false id json dropped (ok _, s) = refl

dispatch-fresh :
    (fresh drops : Bool) (id : Str) (json : List ℕ) (dropped : List (Str × List ℕ))
    (r : Result MailError Unit × SeenStore)
    → (dispatch fresh id json drops dropped r).0 ≡ ok true
    → (fresh ≡ true) × (r.0 ≡ ok tt)
dispatch-fresh fresh drops id json dropped (err e, s) h = absurd cc
dispatch-fresh false drops id json dropped (ok _, s) h = absurd cc
dispatch-fresh true true id json dropped (ok tt, s) h = (refl, refl)
dispatch-fresh true false id json dropped (ok _, s) h = absurd cc

-- What an attempt leaves in memory and in the file.
record Attempted (m : Mailbox) (id : Str) (answer : Result MailError Bool) (m' : Mailbox)
    : Type 0 where
  keeps : Keeps m'.seen
  stays : (x : Str) → contains m.seen x ≡ true → contains m'.seen x ≡ true
  was_new : answer ≡ ok true → contains m.seen id ≡ false
  is_seen : answer ≡ ok true → contains m'.seen id ≡ true

attempt-Attempted :
    (io : DispatchIo) (m : Mailbox) (id : Str) (json : List ℕ)
    → Keeps m.seen
    → IsOrderly (attempt io id json)
    → Attempted m id (record_and_dispatch io m id json).0 (record_and_dispatch io m id json).1
unfolding record_and_dispatch
attempt-Attempted io m id json k (p, w) =
    let r = record_id io.append m.seen id in
    let fresh = not (contains m.seen id) in
    let done = record_id-Recorded io.append m.seen id w in
    let same = dispatch-seen fresh io.drops id json m.dropped r in
    record {
      keeps = rw same (Recorded-Keeps m.seen id r k p done);
      stays = λ x h. rw same (Recorded-stays m.seen id x r done h);
      was_new = λ e. ground (arith, (dispatch-fresh fresh io.drops id json m.dropped r e).0);
      is_seen = λ e.
          rw same (
            Recorded-seen m.seen id r done (dispatch-fresh fresh io.drops id json m.dropped r e).1);
    }

noted-cases :
    (id : Str) (answer : Result MailError Bool) (later : List Str)
    → ((answer ≡ ok true) × (noted id answer later ≡ id ∷ later)) ⊎ (noted id answer later ≡ later)
noted-cases id (ok true) later = inl (refl, refl)
noted-cases id (ok false) later = inr refl
noted-cases id (err e) later = inr refl

restart-Keeps : (s : SeenStore) → Keeps s → Keeps (open_store s.file)
unfolding open_store
restart-Keeps s k = record { whole = k.whole; reopens = λ x h. h }

differs :
    (s : SeenStore) (x id : Str) → contains s x ≡ true → contains s id ≡ false → eq_str x id ≡ false
differs s x id h n = elim (Bool-cases (eq_str x id)) [
  | inr e ↦ e
  | inl e ↦ absurd (cc (h, n, (eq_str_iff x id).0 e))
]

-- What is seen is not dispatched.
dispatched-lacks :
    (m : Mailbox) (es : List Event) (x : Str)
    → Keeps m.seen
    → All IsOrderly es
    → contains m.seen x ≡ true
    → All (λ y. eq_str x y ≡ false) (dispatched m es)
unfolding dispatched
dispatched-lacks m [] x k o h = tt
dispatched-lacks m (restart ∷ es) x k o h =
    dispatched-lacks (record m { seen = open_store m.seen.file }) es x (restart-Keeps m.seen k) o.1
      (k.reopens x h)
dispatched-lacks m (attempt io id json ∷ es) x k o h =
    let (answer, m') = record_and_dispatch io m id json in
    let a = attempt-Attempted io m id json k o.0 in
    let later = dispatched-lacks m' es x a.keeps o.1 (a.stays x h) in
    elim (noted-cases id answer (dispatched m' es)) [
      | inl (e, new) ↦ rw new (differs m.seen x id h (a.was_new e), later)
      | inr same ↦ rw same later
    ]

dispatched-Distinct_from :
    (m : Mailbox) (es : List Event)
    → Keeps m.seen
    → All IsOrderly es
    → Distinct eq_str (dispatched m es)
unfolding dispatched
dispatched-Distinct_from m [] k o = tt
dispatched-Distinct_from m (restart ∷ es) k o =
    dispatched-Distinct_from (record m { seen = open_store m.seen.file }) es
      (restart-Keeps m.seen k) o.1
dispatched-Distinct_from m (attempt io id json ∷ es) k o =
    let (answer, m') = record_and_dispatch io m id json in
    let a = attempt-Attempted io m id json k o.0 in
    let later = dispatched-Distinct_from m' es a.keeps o.1 in
    elim (noted-cases id answer (dispatched m' es)) [
      | inl (e, new) ↦ rw new (dispatched-lacks m' es id a.keeps o.1 (a.is_seen e), later)
      | inr same ↦ rw same later
    ]

-- Start from a file of whole lines, and let mails come and the agent be restarted in any order,
-- the same mail any number of times; let each append and each writing of a mail succeed or fail
-- as it will. Then no identifier is dispatched twice, if each is one line of its own, not empty and
-- without a carriage return at its end, and no append stops between an identifier and its line
-- feed.
pub dispatched-Distinct :
    (file : Str) (dropped : List (Str × List ℕ)) (es : List Event)
    → IsWhole file
    → All IsOrderly es
    → Distinct eq_str (dispatched (record { seen = open_store file; dropped = dropped }) es)
dispatched-Distinct file dropped es w o =
    dispatched-Distinct_from (record { seen = open_store file; dropped = dropped }) es
      (unfold open_store in record { whole = w; reopens = λ x h. h }) o
