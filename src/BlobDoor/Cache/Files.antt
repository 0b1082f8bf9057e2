-- ===== src/BlobDoor/Cache/Files.antt =====
-- The files of the cache: their bytes, what is left when one is removed, and their order by time.
use mjolnir.Base.{
  ℕ, ◌+◌, ◌≡◌, refl, sym, Bool, true, false, List, [], ◌∷◌, Str, eq_str_iff, eq_str_refl, inl, inr,
  leb, length, filter, any, In, All, All-In, Distinct, Bool-cases, arith,
}
use mjolnir.BlobDoor.Cache.{Entry, DiskCache, has_name, remove_file, insert_entry, sort_entries}

abbrev pub same_name : Entry → Entry → Bool
same_name e f = has_name f.name e

-- The bytes of all the files.
abbrev pub total : List Entry → ℕ
total [] = 0
total (e ∷ es) = length e.bytes + total es

-- The files have distinct names, and `used` counts their bytes.
pub record IsTidy (c : DiskCache) : Type 0 where
  pub distinct : Distinct same_name c.objects
  pub counted : c.used ≡ total c.objects

pub All-filter :
    {A : Type 0} (P : A → Type 0) (p : A → Bool) (xs : List A) → All P xs → All P (filter p xs)
All-filter P p [] h = tt
All-filter P p (x ∷ xs) h = elim (Bool-cases (p x)) [
  | inl e ↦ rw e (h.0, All-filter P p xs h.1)
  | inr e ↦ rw e (All-filter P p xs h.1)
]

pub Distinct-filter :
    (p : Entry → Bool) (xs : List Entry) → Distinct same_name xs → Distinct same_name (filter p xs)
Distinct-filter p [] h = tt
Distinct-filter p (x ∷ xs) h = elim (Bool-cases (p x)) [
  | inl e ↦ rw e (All-filter (λ y. same_name x y ≡ false) p xs h.0, Distinct-filter p xs h.1)
  | inr e ↦ rw e (Distinct-filter p xs h.1)
]

-- Nothing goes where no file has the name.
pub remove_file-absent :
    (name : Str) (xs : List Entry)
    → All (λ e. has_name name e ≡ false) xs
    → remove_file name xs ≡ xs
remove_file-absent name [] h = refl
remove_file-absent name (x ∷ xs) h = ground (arith, remove_file-absent name xs h.1)

pub apart :
    (e : Entry) (xs : List Entry)
    → All (λ y. same_name e y ≡ false) xs
    → All (λ y. has_name e.name y ≡ false) xs
apart e [] h = tt
apart e (x ∷ xs) h = (
  ground (
    arith,
    eq_str_iff x.name e.name,
    eq_str_iff e.name x.name,
    eq_str_refl e.name,
    eq_str_refl x.name,
  ),
  apart e xs h.1,
)

pub total-remove_file :
    (e : Entry) (xs : List Entry)
    → Distinct same_name xs
    → In e xs
    → total (remove_file e.name xs) + length e.bytes ≡ total xs
total-remove_file e [] d i = absurd i
total-remove_file e (x ∷ xs) d (inl same) =
    let gone = remove_file-absent e.name xs (apart e xs (rw same d.0)) in
    let hit : has_name e.name x ≡ true = rw (sym same) (eq_str_refl e.name) in
    rw (hit, gone, same) (omega arith)
total-remove_file e (x ∷ xs) d (inr i) =
    let other : same_name x e ≡ false = All-In (λ y. same_name x y ≡ false) e xs d.0 i in
    rw other (omega (arith, total-remove_file e xs d.1 i))

pub total-insert_entry :
    (e : Entry) (es : List Entry) → total (insert_entry e es) ≡ length e.bytes + total es
unfolding insert_entry
total-insert_entry e [] = refl
total-insert_entry e (f ∷ fs) = ground (arith, total-insert_entry e fs)

pub total-sort_entries : (es : List Entry) → total (sort_entries es) ≡ total es
unfolding sort_entries
total-sort_entries [] = refl
total-sort_entries (e ∷ es) =
    ground (arith, total-insert_entry e (sort_entries es), total-sort_entries es)

pub All-insert_entry :
    (P : Entry → Type 0) (e : Entry) (es : List Entry) → P e → All P es → All P (insert_entry e es)
unfolding insert_entry
All-insert_entry P e [] p h = (p, tt)
All-insert_entry P e (f ∷ fs) p h = elim (Bool-cases (leb e.accessed f.accessed)) [
  | inl q ↦ rw q (p, h)
  | inr q ↦ rw q (h.0, All-insert_entry P e fs p h.1)
]

pub All-sort_entries : (P : Entry → Type 0) (es : List Entry) → All P es → All P (sort_entries es)
unfolding sort_entries
All-sort_entries P [] h = tt
All-sort_entries P (e ∷ es) h =
    All-insert_entry P e (sort_entries es) h.0 (All-sort_entries P es h.1)

pub same_name-sym : (e f : Entry) → same_name e f ≡ false → same_name f e ≡ false
same_name-sym e f h = ground (
  arith,
  eq_str_iff f.name e.name,
  eq_str_iff e.name f.name,
  eq_str_refl e.name,
  eq_str_refl f.name,
)

pub Distinct-insert_entry :
    (e : Entry) (es : List Entry)
    → All (λ y. same_name e y ≡ false) es
    → Distinct same_name es
    → Distinct same_name (insert_entry e es)
unfolding insert_entry
Distinct-insert_entry e [] h d = (tt, tt)
Distinct-insert_entry e (f ∷ fs) h d = elim (Bool-cases (leb e.accessed f.accessed)) [
  | inl q ↦ rw q (h, d)
  | inr q ↦ rw q (
    All-insert_entry (λ y. same_name f y ≡ false) e fs (same_name-sym e f h.0) d.0,
    Distinct-insert_entry e fs h.1 d.1,
  )
]

pub Distinct-sort_entries :
    (es : List Entry) → Distinct same_name es → Distinct same_name (sort_entries es)
unfolding sort_entries
Distinct-sort_entries [] d = tt
Distinct-sort_entries (e ∷ es) d =
    Distinct-insert_entry e (sort_entries es) (All-sort_entries (λ y. same_name e y ≡ false) es d.0)
      (Distinct-sort_entries es d.1)

pub In-remove_file :
    (f : Entry) (name : Str) (xs : List Entry)
    → has_name name f ≡ false
    → In f xs
    → In f (remove_file name xs)
In-remove_file f name [] h i = i
In-remove_file f name (x ∷ xs) h (inl same) =
    let stays : has_name name x ≡ false = rw (sym same) h in rw stays (inl same)
In-remove_file f name (x ∷ xs) h (inr i) = elim (Bool-cases (has_name name x)) [
  | inl e ↦ rw e (In-remove_file f name xs h i)
  | inr e ↦ rw e (inr (In-remove_file f name xs h i))
]

pub All-of-In : (P : Entry → Type 0) (es : List Entry) → ((e : Entry) → In e es → P e) → All P es
All-of-In P [] h = tt
All-of-In P (e ∷ es) h = (h e (inl refl), All-of-In P es (λ f i. h f (inr i)))

pub any-filter :
    {A : Type 0} (p q : A → Bool) (xs : List A) → any p xs ≡ false → any p (filter q xs) ≡ false
any-filter p q [] h = refl
any-filter p q (x ∷ xs) h = elim (Bool-cases (q x)) [
  | inl e ↦ rw e (ground (arith, any-filter p q xs))
  | inr e ↦ rw e (any-filter p q xs (ground arith))
]
