-- ===== src/BlobDoor/Cache/Tidy.antt =====
-- The invariant of the cache and its budget, over every outcome of a promotion or of a fill.
use mjolnir.Base.{
  ℕ, ◌+◌, ◌-◌, ◌^◌, ◌≤◌, ◌<◌, ◌≡◌, refl, Bool, true, false, Option, some, List, [], ◌∷◌, ◌++◌, Str,
  eq_str_refl, inl, inr, ltb, Result, ok, err, length, any, Distinct-append_one, Bool-cases, arith,
}
use mathlib.Core.Path.{subst}
use mjolnir.BlobDoor.Cache.{
  Entry, DiskCache, Io, IoError, saturating_add, object_path, has_name, evict_to_fit, admit,
  admit_after, commit_fill, promote,
}
use mjolnir.BlobDoor.Cache.Files.{same_name, total, IsTidy}
use mjolnir.BlobDoor.Cache.Evict.{evict_to_fit-IsTidy, evict_to_fit-fits, evict_to_fit-absent}

total-append_one : (xs : List Entry) (e : Entry) → total (xs ++ e ∷ []) ≡ total xs + length e.bytes
total-append_one [] e = omega arith
total-append_one (x ∷ xs) e = omega (arith, total-append_one xs e)

any-append_one :
    (p : Entry → Bool) (xs : List Entry) (e : Entry) → p e ≡ true → any p (xs ++ e ∷ []) ≡ true
any-append_one p [] e h = rw h refl
any-append_one p (x ∷ xs) e h = ground (arith, any-append_one p xs e h)

-- The cache is tidy, within its budget, and holds what it answers that it holds.
pub record Kept (budget : ℕ) (dest : Str) (r : Result IoError (Option Str) × DiskCache)
    : Type 0 where
  pub tidy : IsTidy r.1
  pub same_budget : r.1.budget ≡ budget
  pub within : r.1.used ≤ budget
  pub held :
      (path : Str) → r.0 ≡ ok (some path) → (path ≡ dest) × (any (has_name dest) r.1.objects ≡ true)

admit-Kept :
    (io : Io) (dest : Str) (bytes : List ℕ) (c : DiskCache)
    → IsTidy c
    → c.budget < 2 ^ 64 - 1
    → any (has_name dest) c.objects ≡ false
    → saturating_add c.used (length bytes) ≤ c.budget
    → Kept c.budget dest (admit io dest bytes (length bytes) c)
admit-Kept io dest bytes c t b a f = elim (Bool-cases io.renames) [
  | inr e ↦
      rw e (record { tidy = t; same_budget = refl; within = omega arith; held = λ path h. cc })
  | inl e ↦
      let new : Entry = record { name = dest; bytes = bytes; accessed = io.now } in
      rw e (record {
        tidy = record {
          distinct = Distinct-append_one same_name c.objects new t.distinct a;
          counted = omega (arith, t.counted, total-append_one c.objects new);
        };
        same_budget = refl;
        within = omega arith;
        held = λ path h. (cc, any-append_one (has_name dest) c.objects new (eq_str_refl dest));
      })
]

admit_after-Kept :
    (io : Io) (dest : Str) (bytes : List ℕ) (c : DiskCache)
    → ((name : Str) → io.removes name ≡ true)
    → IsTidy c
    → c.budget < 2 ^ 64 - 1
    → c.used ≤ c.budget
    → any (has_name dest) c.objects ≡ false
    → length bytes ≤ c.budget
    → (evicted : Result IoError DiskCache) → evict_to_fit io (length bytes) c ≡ evicted
    → Kept c.budget dest (admit_after io dest bytes (length bytes) c evicted)
admit_after-Kept io dest bytes c r t b u a n (err e) h = record {
  tidy = t;
  same_budget = refl;
  within = u;
  held = λ path k. cc;
}
admit_after-Kept io dest bytes c r t b u a n (ok c') h =
    let (t', same) = evict_to_fit-IsTidy io (length bytes) c c' t h in
    let fits = evict_to_fit-fits io (length bytes) c c' r n t h in
    let a' = evict_to_fit-absent io (length bytes) c c' (has_name dest) a h in
    subst (λ n. Kept n dest (admit io dest bytes (length bytes) c')) same
      (admit-Kept io dest bytes c' t' (rw same b) a' (rw same fits))

-- The same for a fill, which closes nothing.
pub commit_fill-Kept :
    (io : Io) (c : DiskCache) (bytes : List ℕ) (hash : Str) (obao : Bool)
    → ((name : Str) → io.removes name ≡ true)
    → IsTidy c
    → c.budget < 2 ^ 64 - 1
    → c.used ≤ c.budget
    → Kept c.budget (object_path hash obao) (commit_fill io c bytes hash obao (length bytes))
unfolding commit_fill
commit_fill-Kept io c bytes hash obao r t b u =
    let dest = object_path hash obao in
    elim (Bool-cases (any (has_name dest) c.objects)) [
      | inl e ↦ rw e (record { tidy = t; same_budget = refl; within = u; held = λ path h. (cc, e) })
      | inr e ↦ elim (Bool-cases (ltb c.budget (length bytes))) [
        | inl big ↦
            rw (e, big) (record { tidy = t; same_budget = refl; within = u; held = λ path h. cc })
        | inr small ↦
            rw (e, small)
              (admit_after-Kept io dest bytes c r t b u e (ground arith)
                (evict_to_fit io (length bytes) c) refl)
      ]
    ]

-- Where the file system removes what it is asked to and the budget is below 2^64 - 1, a promotion
-- of a file with its announced length, into a cache that is tidy and within its budget, keeps the cache tidy and within
-- its budget, also when a call fails; and an object that it answers with a path is in the cache.
pub promote-Kept :
    (io : Io) (c : DiskCache) (bytes : List ℕ) (hash : Str) (obao : Bool)
    → ((name : Str) → io.removes name ≡ true)
    → IsTidy c
    → c.budget < 2 ^ 64 - 1
    → c.used ≤ c.budget
    → Kept c.budget (object_path hash obao) (promote io c bytes hash obao (length bytes))
unfolding promote
promote-Kept io c bytes hash obao r t b u = elim (Bool-cases io.closes) [
  | inr e ↦ rw e (record { tidy = t; same_budget = refl; within = u; held = λ path h. cc })
  | inl e ↦
      let fill = commit_fill-Kept io c bytes hash obao r t b u in rw e (unfold commit_fill in fill)
]
