-- ===== src/Gateway/Pool/Bounded.antt =====
-- The size of the pool, and what it gives back.
use mjolnir.Base.{
  ℕ, suc, ◌-◌, ◌≤◌, ◌≡◌, refl, sym, Bool, true, not, none, some, List, [], ◌∷◌, Str, eq_str_refl,
  if◌then◌else◌, ltb, leb, length, find, filter, In, inl, inr, ◌⊎◌, Bool-cases, arith,
}
use mathlib.Core.Path.{subst}
use mjolnir.Gateway.Pool.{
  CachedConnection, ConnectionPool, has_key, without, evict, use_at, get, oldest, make_room, insert,
}

length-filter : {A : Type 0} (p : A → Bool) (es : List A) → length (filter p es) ≤ length es
length-filter p [] = omega arith
length-filter p (e ∷ es) = ground (arith, length-filter p es)

module _ {Conn : Type 0} where
  length-without :
      (e : CachedConnection Conn) (es : List (CachedConnection Conn))
      → In e es
      → suc (length (without e.key es)) ≤ length es
  length-without e [] i = absurd i
  length-without e (f ∷ fs) (inl same) =
      let hit : has_key e.key f ≡ true = rw same (eq_str_refl f.key) in
      rw hit (omega (arith, length-filter (λ g. not (has_key e.key g)) fs))
  length-without e (f ∷ fs) (inr i) = elim (Bool-cases (has_key e.key f)) [
    | inl hit ↦ rw hit (omega (arith, length-filter (λ g. not (has_key e.key g)) fs))
    | inr miss ↦ rw miss (omega (arith, length-without e fs i))
  ]

  oldest-cases :
      (e f : CachedConnection Conn) (fs : List (CachedConnection Conn))
      → (oldest e (f ∷ fs) ≡ oldest f fs) ⊎ (oldest e (f ∷ fs) ≡ oldest e fs)
  unfolding oldest
  oldest-cases e f fs = ground arith

  In-oldest :
      (e : CachedConnection Conn) (es : List (CachedConnection Conn)) → In (oldest e es) (e ∷ es)
  In-oldest e [] = unfold oldest in inl refl
  In-oldest e (f ∷ fs) = elim (oldest-cases e f fs) [
    | inl q ↦ subst (λ x. In x (e ∷ f ∷ fs)) (sym q) (inr (In-oldest f fs))
    | inr q ↦
        subst (λ x. In x (e ∷ f ∷ fs)) (sym q)
          (elim (In-oldest e fs) [ inl i ↦ inl i | inr i ↦ inr (inr i) ])
  ]

  length-use_at :
      (now : ℕ) (key : Str) (es : List (CachedConnection Conn))
      → length (use_at now key es) ≡ length es
  unfolding use_at
  length-use_at now key [] = refl
  length-use_at now key (e ∷ es) = omega (arith, length-use_at now key es)

  length-make_room : (es : List (CachedConnection Conn)) → length (make_room es) ≤ length es - 1
  length-make_room [] = omega arith
  length-make_room (e ∷ es) = omega (arith, length-without (oldest e es) (e ∷ es) (In-oldest e es))

  -- The pool has at most as many connections as it is set to keep.
  abbrev pub IsBounded : ConnectionPool Conn → Type 0
  IsBounded p = length p.cache ≤ p.max_size

  -- Inserting, looking up and evicting keep a pool that may keep a connection within its size.
  pub pool-IsBounded :
      (closed : Conn → Bool) (now : ℕ) (key : Str) (conn : Conn) (p : ConnectionPool Conn)
      → 1 ≤ p.max_size
      → IsBounded p
      → IsBounded (insert now key conn p)
        × IsBounded (get closed now key p).1
        × IsBounded (evict key p)
  unfolding insert get evict
  pool-IsBounded closed now key conn p some_room h = (
    elim (Bool-cases (leb p.max_size (length p.cache))) [
      | inl e ↦ rw e (
          ground (
            arith,
            length-filter (λ e. not (has_key key e)) (make_room p.cache),
            length-make_room p.cache,
          ))
      | inr e ↦ rw e (ground (arith, length-filter (λ e. not (has_key key e)) p.cache))
    ],
    ground
        (arith, length-filter (λ e. not (has_key key e)) p.cache, length-use_at now key p.cache, h),
    omega (arith, length-filter (λ e. not (has_key key e)) p.cache),
  )

  find-without :
      (key : Str) (es : List (CachedConnection Conn)) → find (has_key key) (without key es) ≡ none
  find-without key [] = refl
  find-without key (e ∷ es) = ground (arith, find-without key es)

  -- What `get` gives is the connection inserted last under the key, neither closed nor unused for
  -- longer than the time to live; and it gives it, at once. An evicted key gives none.
  pub get-insert :
      (closed : Conn → Bool) (now later : ℕ) (key : Str) (conn : Conn) (p : ConnectionPool Conn)
      → ((get closed later key (insert now key conn p)).0
          ≡ (if ltb p.ttl (later - now) then none else if closed conn then none else some conn))
        × ((get closed later key (evict key p)).0 ≡ none)
  unfolding insert get evict
  get-insert closed now later key conn p =
      (ground (arith, eq_str_refl key), ground (arith, find-without key p.cache))
