-- ===== src/Gateway/San/Exact.antt =====
-- The names of the certificate are exactly those that the configuration needs, each once.
use mjolnir.Base.{
  ◌≡◌, ◌≢◌, ◌↔◌, refl, Str, false, List, [], ◌∷◌, ◌++◌, ◌⊎◌, inl, inr, codes, eq_str, eq_str_iff,
  filter, In, Distinct, arith,
}
use mjolnir.Gateway.Config.{Fallthrough, Apex, Route, Alias}
use mjolnir.Gateway.Config.Names.{is_ascii_fqdn}
use mjolnir.Gateway.San.Members.{
  In-push_unique, push_unique-Distinct, push_each-Distinct, In-push_each, In-filter,
}
use mjolnir.Gateway.San.{push_unique, dotted, apex_names, add_names, derive_from, derive_san_list}

-- What one apex needs: its own name; a wildcard unless it is `none`; each of its routes if it is;
-- and each of its aliases.
pub data Needs (routes : List Route) (aliases : List Alias) (apex : Apex) (v : Str) : Type 0 where
  itself : v ≡ apex.suffix → Needs routes aliases apex v
  wildcard :
      apex.fallthrough ≢ Fallthrough.none
      → v ≡ codes "*." ++ apex.suffix
      → Needs routes aliases apex v
  route :
      apex.fallthrough ≡ Fallthrough.none
      → (r : Route) → In r routes
      → r.apex ≡ apex.suffix
      → v ≡ dotted r.subdomain apex.suffix
      → Needs routes aliases apex v
  alias :
      (al : Alias)
      → In al aliases
      → al.apex ≡ apex.suffix
      → v ≡ dotted al.subdomain apex.suffix
      → Needs routes aliases apex v

module _ (routes : List Route) (aliases : List Alias) where
  In-wildcard :
      (out : List Str) (apex : Apex) (v : Str)
      → In v (push_unique (push_unique out (codes "*." ++ apex.suffix)) apex.suffix)
        ↔ ((In v out ⊎ (v ≡ codes "*." ++ apex.suffix)) ⊎ (v ≡ apex.suffix))
  In-wildcard out apex v =
      let (to, from) = In-push_unique v apex.suffix (push_unique out (codes "*." ++ apex.suffix)) in
      let (to', from') = In-push_unique v (codes "*." ++ apex.suffix) out in
      (
        λ i. elim (to i) [ inl j ↦ inl (to' j) | inr e ↦ inr e ],
        λ k. elim k [ inl j ↦ from (inl (from' j)) | inr e ↦ from (inr e) ],
      )

  apex_names_sound :
      (out : List Str) (apex : Apex) (f : Fallthrough) (v : Str)
      → apex.fallthrough ≡ f
      → In v (apex_names routes out apex f)
      → In v out ⊎ Needs routes aliases apex v
  apex_names_sound out apex Fallthrough.none v e i =
      elim ((In-push_each (λ (r : Route). dotted r.subdomain apex.suffix) v
          (push_unique out apex.suffix) (filter (λ r. eq_str r.apex apex.suffix) routes)).0
        i) [
          | inl j ↦ elim ((In-push_unique v apex.suffix out).0 j) [
            | inl k ↦ inl k
            | inr same ↦ inr (itself same)
          ]
          | inr (r, j, same) ↦
              let (k, q) = (In-filter (λ (r : Route). eq_str r.apex apex.suffix) r routes).0 j in
              inr (route e r k ((eq_str_iff r.apex apex.suffix).0 q) same)
        ]
  apex_names_sound out apex Fallthrough.iroh v e i = elim ((In-wildcard out apex v).0 i) [
    | inl (inl k) ↦ inl k
    | inl (inr same) ↦ inr (wildcard (λ n. cc) same)
    | inr same ↦ inr (itself same)
  ]
  apex_names_sound out apex Fallthrough.parked v e i = elim ((In-wildcard out apex v).0 i) [
    | inl (inl k) ↦ inl k
    | inl (inr same) ↦ inr (wildcard (λ n. cc) same)
    | inr same ↦ inr (itself same)
  ]

  add_names_sound :
      (out : List Str) (apex : Apex) (v : Str)
      → In v (add_names routes aliases out apex)
      → In v out ⊎ Needs routes aliases apex v
  unfolding add_names
  add_names_sound out apex v i =
      elim ((In-push_each (λ (al : Alias). dotted al.subdomain apex.suffix) v
          (apex_names routes out apex apex.fallthrough)
          (filter (λ al. eq_str al.apex apex.suffix) aliases)).0
        i) [
          | inl j ↦ apex_names_sound out apex apex.fallthrough v refl j
          | inr (al, j, same) ↦
              let (k, q) =
                (In-filter (λ (al : Alias). eq_str al.apex apex.suffix) al aliases).0 j in
              inr (alias al k ((eq_str_iff al.apex apex.suffix).0 q) same)
        ]

  apex_names_complete :
      (out : List Str) (apex : Apex) (f : Fallthrough) (v : Str)
      → apex.fallthrough ≡ f
      → (In v out ⊎ (v ≡ apex.suffix))
        ⊎ ((f ≢ Fallthrough.none) × (v ≡ codes "*." ++ apex.suffix))
        ⊎ ((f ≡ Fallthrough.none)
            × ((r : Route) × In r routes
                × (r.apex ≡ apex.suffix)
                × (v ≡ dotted r.subdomain apex.suffix)))
      → In v (apex_names routes out apex f)
  apex_names_complete out apex Fallthrough.none v e k =
      let (_, from) =
        In-push_each (λ (r : Route). dotted r.subdomain apex.suffix) v (push_unique out apex.suffix)
          (filter (λ r. eq_str r.apex apex.suffix) routes) in
      elim k [
        | inl j ↦ from (inl ((In-push_unique v apex.suffix out).1 j))
        | inr (inl (n, same)) ↦ absurd (n refl)
        | inr (inr (_, (r, i, q, same))) ↦ from (
            inr (
              r,
              (In-filter (λ (r' : Route). eq_str r'.apex apex.suffix) r routes).1
                  (i, (eq_str_iff r.apex apex.suffix).1 q),
              same,
            ))
      ]
  apex_names_complete out apex Fallthrough.iroh v e k = elim k [
    | inl (inl j) ↦ (In-wildcard out apex v).1 (inl (inl j))
    | inl (inr same) ↦ (In-wildcard out apex v).1 (inr same)
    | inr (inl (n, same)) ↦ (In-wildcard out apex v).1 (inl (inr same))
    | inr (inr (n, _)) ↦ cc
  ]
  apex_names_complete out apex Fallthrough.parked v e k = elim k [
    | inl (inl j) ↦ (In-wildcard out apex v).1 (inl (inl j))
    | inl (inr same) ↦ (In-wildcard out apex v).1 (inr same)
    | inr (inl (n, same)) ↦ (In-wildcard out apex v).1 (inl (inr same))
    | inr (inr (n, _)) ↦ cc
  ]

  add_names_complete :
      (out : List Str) (apex : Apex) (v : Str)
      → In v out ⊎ Needs routes aliases apex v
      → In v (add_names routes aliases out apex)
  unfolding add_names
  add_names_complete out apex v k =
      let (_, from) =
        In-push_each (λ (al : Alias). dotted al.subdomain apex.suffix) v
          (apex_names routes out apex apex.fallthrough)
          (filter (λ al. eq_str al.apex apex.suffix) aliases) in
      let early = apex_names_complete out apex apex.fallthrough v refl in
      elim k [
        | inl i ↦ from (inl (early (inl (inl i))))
        | inr (itself same) ↦ from (inl (early (inl (inr same))))
        | inr (wildcard n same) ↦ from (inl (early (inr (inl (n, same)))))
        | inr (route n r i q same) ↦ from (inl (early (inr (inr (n, (r, i, q, same))))))
        | inr (alias al i q same) ↦ from (
            inr (
              al,
              (In-filter (λ (a : Alias). eq_str a.apex apex.suffix) al aliases).1
                  (i, (eq_str_iff al.apex apex.suffix).1 q),
              same,
            ))
      ]

  In-derive_from :
      (out : List Str) (apexes : List Apex) (v : Str)
      → In v (derive_from routes aliases out apexes)
        ↔ (In v out ⊎ ((apex : Apex) × In apex apexes × Needs routes aliases apex v))
  unfolding derive_from
  In-derive_from out [] v = (λ i. inl i, λ k. elim k [ inl i ↦ i | inr (a, i, n) ↦ absurd i ])
  In-derive_from out (b ∷ bs) v =
      let (to, from) = In-derive_from (add_names routes aliases out b) bs v in
      (
        λ i. elim (to i) [
          | inl j ↦ elim (add_names_sound out b v j) [
            | inl k ↦ inl k
            | inr n ↦ inr (b, inl refl, n)
          ]
          | inr (a, j, n) ↦ inr (a, inr j, n)
        ],
        λ k. elim k [
          | inl i ↦ from (inl (add_names_complete out b v (inl i)))
          | inr (a, inl same, n) ↦ from (inl (add_names_complete out b v (inr (rw (← same) n))))
          | inr (a, inr j, n) ↦ from (inr (a, j, n))
        ],
      )

  apex_names-Distinct :
      (out : List Str) (apex : Apex) (f : Fallthrough)
      → Distinct eq_str out
      → Distinct eq_str (apex_names routes out apex f)
  apex_names-Distinct out apex Fallthrough.none d =
      push_each-Distinct (λ (r : Route). dotted r.subdomain apex.suffix)
        (push_unique out apex.suffix) (filter (λ r. eq_str r.apex apex.suffix) routes)
        (push_unique-Distinct out apex.suffix d)
  apex_names-Distinct out apex Fallthrough.iroh d =
      push_unique-Distinct _ apex.suffix (push_unique-Distinct out (codes "*." ++ apex.suffix) d)
  apex_names-Distinct out apex Fallthrough.parked d =
      push_unique-Distinct _ apex.suffix (push_unique-Distinct out (codes "*." ++ apex.suffix) d)

  derive_from-Distinct :
      (out : List Str) (apexes : List Apex)
      → Distinct eq_str out
      → Distinct eq_str (derive_from routes aliases out apexes)
  unfolding derive_from add_names
  derive_from-Distinct out [] d = d
  derive_from-Distinct out (a ∷ as') d = derive_from-Distinct (add_names routes aliases out a) as' (
      push_each-Distinct (λ (al : Alias). dotted al.subdomain a.suffix)
        (apex_names routes out a a.fallthrough) (filter (λ al. eq_str al.apex a.suffix) aliases)
        (apex_names-Distinct out a a.fallthrough d))

-- The list has each name once, and has exactly the names that some declared apex needs.
pub derive_san_list-exact :
    (apexes : List Apex) (routes : List Route) (aliases : List Alias)
    → Distinct eq_str (derive_san_list apexes routes aliases)
      × ((v : Str)
          → In v (derive_san_list apexes routes aliases)
            ↔ ((apex : Apex) × In apex apexes × Needs routes aliases apex v))
unfolding derive_san_list
derive_san_list-exact apexes routes aliases = (
  derive_from-Distinct routes aliases [] apexes tt,
  λ v.
      let (to, from) = In-derive_from routes aliases [] apexes v in
      (λ i. elim (to i) [ inl j ↦ absurd j | inr k ↦ k ], λ k. from (inr k)),
)

-- A route at the bare name of a `none` apex puts into the list the apex with a dot before it,
-- which is no domain name.
pub derive_san_list-bare_route :
    (apexes : List Apex) (routes : List Route) (aliases : List Alias) (apex : Apex) (r : Route)
    → In apex apexes
    → apex.fallthrough ≡ Fallthrough.none
    → In r routes
    → r.apex ≡ apex.suffix
    → r.subdomain ≡ []
    → In (b'.' ∷ apex.suffix) (derive_san_list apexes routes aliases)
      × (is_ascii_fqdn (b'.' ∷ apex.suffix) ≡ false)
derive_san_list-bare_route apexes routes aliases apex r i n j q bare = (
  ((derive_san_list-exact apexes routes aliases).1 (b'.' ∷ apex.suffix)).1
      (apex, i, route n r j q (rw bare refl)),
  unfold is_ascii_fqdn in ground arith,
)
