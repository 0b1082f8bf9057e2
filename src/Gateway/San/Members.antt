-- ===== src/Gateway/San/Members.antt =====
-- What the loops of `derive_san_list` put into a list of names.
use mjolnir.Base.{
  ◌≡◌, ◌↔◌, refl, Str, Bool, true, List, [], ◌∷◌, ◌++◌, ◌⊎◌, inl, inr, eq_str, eq_str_iff, any,
  filter, In, Distinct, Distinct-append_one, Bool-cases, arith,
}
use mjolnir.Gateway.San.{push_unique, push_each}

pub any-In : (out : List Str) (v : Str) → any (λ e. eq_str e v) out ≡ true → In v out
any-In [] v h = cc
any-In (e ∷ out) v h = ground (arith, eq_str_iff e v, any-In out v)

pub In-append_one :
    {A : Type 0} (v w : A) (out : List A) → In v (out ++ w ∷ []) ↔ (In v out ⊎ (v ≡ w))
In-append_one v w [] = ground arith
In-append_one v w (e ∷ out) = ground (arith, In-append_one v w out)

pub In-push_unique : (v w : Str) (out : List Str) → In v (push_unique out w) ↔ (In v out ⊎ (v ≡ w))
unfolding push_unique
In-push_unique v w out = elim (Bool-cases (any (λ e. eq_str e w) out)) [
  | inl h ↦ let i = any-In out w h in rw h (λ k. inl k, λ k. elim k [ inl j ↦ j | inr e ↦ rw e i ])
  | inr h ↦ rw h (In-append_one v w out)
]

pub push_unique-Distinct :
    (out : List Str) (v : Str) → Distinct eq_str out → Distinct eq_str (push_unique out v)
unfolding push_unique
push_unique-Distinct out v d = elim (Bool-cases (any (λ e. eq_str e v) out)) [
  | inl h ↦ rw h d
  | inr h ↦ rw h (Distinct-append_one eq_str out v d h)
]

module _ {A : Type 0} (f : A → Str) where
  pub push_each-Distinct :
      (out : List Str) (xs : List A) → Distinct eq_str out → Distinct eq_str (push_each f out xs)
  unfolding push_each
  push_each-Distinct out [] d = d
  push_each-Distinct out (x ∷ xs) d =
      push_each-Distinct (push_unique out (f x)) xs (push_unique-Distinct out (f x) d)

  pub In-push_each :
      (v : Str) (out : List Str) (xs : List A)
      → In v (push_each f out xs) ↔ (In v out ⊎ ((x : A) × In x xs × (v ≡ f x)))
  unfolding push_each
  In-push_each v out [] = (λ i. inl i, λ k. elim k [ inl i ↦ i | inr (x, i, e) ↦ absurd i ])
  In-push_each v out (y ∷ ys) =
      let (to, from) = In-push_each v (push_unique out (f y)) ys in
      let (to', from') = In-push_unique v (f y) out in
      (
        λ i. elim (to i) [
          | inl j ↦ elim (to' j) [ inl k ↦ inl k | inr e ↦ inr (y, inl refl, e) ]
          | inr (x, j, e) ↦ inr (x, inr j, e)
        ],
        λ k. elim k [
          | inl i ↦ from (inl (from' (inl i)))
          | inr (x, inl same, e) ↦ from (inl (from' (inr (rw (← same) e))))
          | inr (x, inr i, e) ↦ from (inr (x, i, e))
        ],
      )

pub In-filter :
    {A : Type 0} (p : A → Bool) (x : A) (xs : List A)
    → In x (filter p xs) ↔ (In x xs × (p x ≡ true))
In-filter p x [] = (λ i. absurd i, λ i. absurd i.0)
In-filter p x (y ∷ ys) =
    let (to, from) = In-filter p x ys in
    elim (Bool-cases (p y)) [
      | inl h ↦ rw h (
        λ i. elim i [ inl e ↦ (inl e, rw e h) | inr j ↦ (inr (to j).0, (to j).1) ],
        λ k. elim k.0 [ inl e ↦ inl e | inr j ↦ inr (from (j, k.1)) ],
      )
      | inr h ↦ rw h (
        λ i. (inr (to i).0, (to i).1),
        λ k. elim k.0 [ inl e ↦ cc (h, e, k.1) | inr j ↦ from (j, k.1) ],
      )
    ]
