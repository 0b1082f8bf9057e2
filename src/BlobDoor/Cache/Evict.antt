-- ===== src/BlobDoor/Cache/Evict.antt =====
-- Eviction: the count stays that of the files, and what is needed fits afterwards.
use mjolnir.Base.{
  ℕ, ◌+◌, ◌≤◌, ◌≡◌, refl, sym, Bool, true, false, not, List, [], ◌∷◌, Str, ◌⊎◌, inl, inr, leb, ok,
  length, any, In, All, Distinct, Bool-cases, arith,
}
use mjolnir.BlobDoor.Cache.{
  Entry, DiskCache, Io, saturating_add, has_name, sort_entries, evict_one, evict_entries,
  evict_to_fit,
}
use mjolnir.BlobDoor.Cache.Files.{
  same_name, total, IsTidy, Distinct-filter, total-remove_file, total-sort_entries,
  All-sort_entries, same_name-sym, Distinct-sort_entries, In-remove_file, All-of-In, any-filter,
}

evict_one-IsTidy :
    (io : Io) (c : DiskCache) (e : Entry) → IsTidy c → In e c.objects → IsTidy (evict_one io c e)
evict_one-IsTidy io c e t i = elim (Bool-cases (io.removes e.name)) [
  | inl r ↦ rw r (record {
    distinct = Distinct-filter (λ f. not (has_name e.name f)) c.objects t.distinct;
    counted = omega (arith, t.counted, total-remove_file e c.objects t.distinct i);
  })
  | inr r ↦ rw r t
]

-- Every entry that is still to be looked at is there.
abbrev AllIn : List Entry → List Entry → Type 0
AllIn xs es = All (λ e. In e xs) es

AllIn-evict_one :
    (io : Io) (c : DiskCache) (e : Entry) (es : List Entry)
    → All (λ y. same_name e y ≡ false) es
    → AllIn c.objects es
    → AllIn (evict_one io c e).objects es
AllIn-evict_one io c e [] d h = tt
AllIn-evict_one io c e (f ∷ fs) d h = (
  elim (Bool-cases (io.removes e.name)) [
    | inl r ↦ rw r (In-remove_file f e.name c.objects (same_name-sym e f d.0) h.0)
    | inr r ↦ rw r h.0
  ],
  AllIn-evict_one io c e fs d.1 h.1,
)

evict_entries-IsTidy :
    (io : Io) (need : ℕ) (c : DiskCache) (es : List Entry)
    → IsTidy c
    → Distinct same_name es
    → AllIn c.objects es
    → IsTidy (evict_entries io need c es)
unfolding evict_entries
evict_entries-IsTidy io need c [] t d h = t
evict_entries-IsTidy io need c (e ∷ es) t d h =
    elim (Bool-cases (leb (saturating_add c.used need) c.budget)) [
      | inl f ↦ rw f t
      | inr f ↦ rw f (
          evict_entries-IsTidy io need (evict_one io c e) es (evict_one-IsTidy io c e t h.0) d.1
            (AllIn-evict_one io c e es d.0 h.1))
    ]

evict_one-total :
    (io : Io) (c : DiskCache) (e : Entry) (n : ℕ)
    → io.removes e.name ≡ true
    → Distinct same_name c.objects
    → In e c.objects
    → total c.objects ≡ length e.bytes + n
    → total (evict_one io c e).objects ≡ n
evict_one-total io c e n r d i h = rw r (omega (arith, total-remove_file e c.objects d i))

-- Nothing that eviction does changes the budget.
evict_one-budget : (io : Io) (c : DiskCache) (e : Entry) → (evict_one io c e).budget ≡ c.budget
evict_one-budget io c e = ground arith

evict_entries-budget :
    (io : Io) (need : ℕ) (c : DiskCache) (es : List Entry)
    → (evict_entries io need c es).budget ≡ c.budget
unfolding evict_entries
evict_entries-budget io need c [] = refl
evict_entries-budget io need c (e ∷ es) =
    ground (arith, evict_entries-budget io need (evict_one io c e) es, evict_one-budget io c e)

evict_entries-fits :
    (io : Io) (need : ℕ) (c : DiskCache) (es : List Entry)
    → ((name : Str) → io.removes name ≡ true)
    → need ≤ c.budget
    → IsTidy c
    → Distinct same_name es
    → AllIn c.objects es
    → total c.objects ≡ total es
    → saturating_add (evict_entries io need c es).used need ≤ c.budget
unfolding evict_entries
evict_entries-fits io need c [] r n t d h m = omega (arith, t.counted)
evict_entries-fits io need c (e ∷ es) r n t d h m =
    elim (Bool-cases (leb (saturating_add c.used need) c.budget)) [
      | inl f ↦ rw f (ground arith)
      | inr f ↦
          let later =
            evict_entries-fits io need (evict_one io c e) es r (rw (evict_one-budget io c e) n)
              (evict_one-IsTidy io c e t h.0) d.1 (AllIn-evict_one io c e es d.0 h.1)
              (evict_one-total io c e (total es) (r e.name) t.distinct h.0 m) in
          rw f (omega (arith, later, evict_one-budget io c e))
    ]

-- The sorted entries are the files of the directory.
sorted_in : (c : DiskCache) → AllIn c.objects (sort_entries c.objects)
sorted_in c =
    All-sort_entries (λ e. In e c.objects) c.objects
      (All-of-In (λ e. In e c.objects) c.objects (λ e i. i))

evict_to_fit-cases :
    (io : Io) (need : ℕ) (c c' : DiskCache)
    → evict_to_fit io need c ≡ ok c'
    → ((leb (saturating_add c.used need) c.budget ≡ true) × (c ≡ c'))
      ⊎ (evict_entries io need c (sort_entries c.objects) ≡ c')
unfolding evict_to_fit
evict_to_fit-cases io need c c' h = ground arith

pub evict_to_fit-IsTidy :
    (io : Io) (need : ℕ) (c c' : DiskCache)
    → IsTidy c
    → evict_to_fit io need c ≡ ok c'
    → IsTidy c' × (c'.budget ≡ c.budget)
unfolding evict_to_fit
evict_to_fit-IsTidy io need c c' t h =
    let evicted =
      evict_entries-IsTidy io need c (sort_entries c.objects) t
        (Distinct-sort_entries c.objects t.distinct) (sorted_in c) in
    let kept = evict_entries-budget io need c (sort_entries c.objects) in
    elim (evict_to_fit-cases io need c c' h) [
      | inl (_, e) ↦ rw (← e) (t, refl)
      | inr e ↦ rw (← e) (evicted, kept)
    ]

pub evict_to_fit-fits :
    (io : Io) (need : ℕ) (c c' : DiskCache)
    → ((name : Str) → io.removes name ≡ true)
    → need ≤ c.budget
    → IsTidy c
    → evict_to_fit io need c ≡ ok c'
    → saturating_add c'.used need ≤ c.budget
evict_to_fit-fits io need c c' r n t h =
    let fits =
      evict_entries-fits io need c (sort_entries c.objects) r n t
        (Distinct-sort_entries c.objects t.distinct) (sorted_in c)
        (sym (total-sort_entries c.objects)) in
    elim (evict_to_fit-cases io need c c' h) [
      | inl (f, e) ↦ rw (← e) (ground arith)
      | inr e ↦ rw (← e) fits
    ]

evict_one-absent :
    (io : Io) (c : DiskCache) (p : Entry → Bool) (e : Entry)
    → any p c.objects ≡ false
    → any p (evict_one io c e).objects ≡ false
evict_one-absent io c p e h = elim (Bool-cases (io.removes e.name)) [
  | inl r ↦ rw r (any-filter p (λ f. not (has_name e.name f)) c.objects h)
  | inr r ↦ rw r h
]

evict_entries-absent :
    (io : Io) (need : ℕ) (c : DiskCache) (p : Entry → Bool) (es : List Entry)
    → any p c.objects ≡ false
    → any p (evict_entries io need c es).objects ≡ false
unfolding evict_entries
evict_entries-absent io need c p [] h = h
evict_entries-absent io need c p (e ∷ es) h =
    ground
      (arith, evict_entries-absent io need (evict_one io c e) p es (evict_one-absent io c p e h))

-- Eviction brings no file.
pub evict_to_fit-absent :
    (io : Io) (need : ℕ) (c c' : DiskCache) (p : Entry → Bool)
    → any p c.objects ≡ false
    → evict_to_fit io need c ≡ ok c'
    → any p c'.objects ≡ false
evict_to_fit-absent io need c c' p a h = elim (evict_to_fit-cases io need c c' h) [
  | inl (_, e) ↦ rw (← e) a
  | inr e ↦ rw (← e) (evict_entries-absent io need c p (sort_entries c.objects) a)
]
