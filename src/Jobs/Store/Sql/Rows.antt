-- ===== src/Jobs/Store/Sql/Rows.antt =====
-- The rows that the statements of SQL select and change (for src/worker/jobs/repository.ts).
use mathlib.Core.List.{Memᴰ}
use mathlib.Core.List.Memᴰ
use larafeed.Prelude.{
  length, length-take, ◌≤◌, subst, none, sym, ℕ, zero, suc, Bool, true, false, some, List, [], ◌∷◌,
  map, take, ◌==◌, ◌≡◌, refl, ◌∙◌, ap, ◌⊎◌, inl, inr, if◌then◌else◌, some-injective, Bool-cases,
  arith,
}
use larafeed.Jobs.Store.Sql.{
  update_where, select_where, exists_where, find_where, first_by, order_by, insert_by, is_in,
}

module _ {R : Type 0} where
  -- `r` becomes `r'` under an update.
  abbrev pub Changed : (R → Bool) → (R → R) → R → R → Type 0
  Changed test change r r' = ((test r ≡ true) × (r' ≡ change r)) ⊎ ((test r ≡ false) × (r' ≡ r))

  Changed-by :
      (test : R → Bool) (change : R → R) (r r' : R) (b : Bool)
      → test r ≡ b
      → r' ≡ (if b then change r else r)
      → Changed test change r r'
  Changed-by test change r r' true t e = inl (t, e)
  Changed-by test change r r' false t e = inr (t, e)

  pub update_where-Changed :
      (test : R → Bool) (change : R → R) (rows : List R) (r' : R)
      → Memᴰ r' (update_where test change rows)
      → (r : R) × Memᴰ r rows × Changed test change r r'
  update_where-Changed test change [] r' m = absurd (Memᴰ.not-nil m)
  update_where-Changed test change (row ∷ rows) r' (Memᴰ.head e) =
      (row, Memᴰ.head refl, Changed-by test change row r' (test row) refl e)
  update_where-Changed test change (row ∷ rows) r' (Memᴰ.tail m) =
      let (r, m', c) = update_where-Changed test change rows r' m in (r, Memᴰ.tail m', c)

  in_rest :
      (test : R → Bool) (row : R) (rest : List R) (b : Bool) (r : R)
      → test row ≡ b
      → Memᴰ r (if b then row ∷ rest else rest)
      → ((r ≡ row) × (test r ≡ true)) ⊎ Memᴰ r rest
  in_rest test row rest true r t (Memᴰ.head e) = inl (e, ap test e ∙ t)
  in_rest test row rest true r t (Memᴰ.tail m) = inr m
  in_rest test row rest false r t m = inr m

  pub select_where-Mem :
      (test : R → Bool) (rows : List R) (r : R)
      → Memᴰ r (select_where test rows)
      → Memᴰ r rows × (test r ≡ true)
  select_where-Mem test [] r m = absurd (Memᴰ.not-nil m)
  select_where-Mem test (row ∷ rows) r m =
      elim (in_rest test row (select_where test rows) (test row) r refl m) [
        | inl (e, t) ↦ (Memᴰ.head e, t)
        | inr m' ↦ let (m'', t) = select_where-Mem test rows r m' in (Memᴰ.tail m'', t)
      ]

  chosen :
      (row : R) (rest : List R) (b : Bool) (r : R)
      → Memᴰ r rest
      → Memᴰ r (if b then row ∷ rest else rest)
  chosen row rest true r m = Memᴰ.tail m
  chosen row rest false r m = m

  chosen_head :
      (row : R) (rest : List R) (b : Bool) → b ≡ true → Memᴰ row (if b then row ∷ rest else rest)
  chosen_head row rest true e = Memᴰ.head refl
  chosen_head row rest false e = cc

  pub Mem-select_where :
      (test : R → Bool) (rows : List R) (r : R)
      → Memᴰ r rows
      → test r ≡ true
      → Memᴰ r (select_where test rows)
  Mem-select_where test [] r m t = m
  Mem-select_where test (row ∷ rows) r (Memᴰ.head e) t =
      Memᴰ.cast e (chosen_head row _ (test row) (ap test (sym e) ∙ t))
  Mem-select_where test (row ∷ rows) r (Memᴰ.tail m) t =
      chosen row _ (test row) r (Mem-select_where test rows r m t)

  pub exists_where-false :
      (test : R → Bool) (rows : List R) (r : R)
      → exists_where test rows ≡ false
      → Memᴰ r rows
      → test r ≡ false
  exists_where-false test [] r h m = absurd (Memᴰ.not-nil m)
  exists_where-false test (row ∷ rows) r h (Memᴰ.head e) = ap test e ∙ ground arith
  exists_where-false test (row ∷ rows) r h (Memᴰ.tail m) =
      exists_where-false test rows r (ground arith) m

  pub exists_where-Mem :
      (test : R → Bool) (rows : List R) (r : R)
      → Memᴰ r rows
      → test r ≡ true
      → exists_where test rows ≡ true
  exists_where-Mem test [] r m t = absurd (Memᴰ.not-nil m)
  exists_where-Mem test (row ∷ rows) r (Memᴰ.head e) t = let u = ap test (sym e) ∙ t in ground arith
  exists_where-Mem test (row ∷ rows) r (Memᴰ.tail m) t =
      let u = exists_where-Mem test rows r m t in ground arith

  pub exists_where-true :
      (test : R → Bool) (rows : List R)
      → exists_where test rows ≡ true
      → (r : R) × Memᴰ r rows × (test r ≡ true)
  exists_where-true test [] h = cc
  exists_where-true test (row ∷ rows) h = elim (Bool-cases (test row)) [
    | inl t ↦ (row, Memᴰ.head refl, t)
    | inr f ↦ let (r, m, t) = exists_where-true test rows (ground arith) in (r, Memᴰ.tail m, t)
  ]

  pub none_selected :
      (test : R → Bool) (rows : List R) (r : R)
      → select_where test rows ≡ []
      → Memᴰ r rows
      → test r ≡ false
  none_selected test rows r h m = elim (Bool-cases (test r)) [
    | inl t ↦ absurd (Memᴰ.not-nil (subst (Memᴰ r) h (Mem-select_where test rows r m t)))
    | inr f ↦ f
  ]

  pub Mem-update_where :
      (test : R → Bool) (change : R → R) (rows : List R) (r : R)
      → Memᴰ r rows
      → test r ≡ true
      → Memᴰ (change r) (update_where test change rows)
  Mem-update_where test change [] r m t = absurd (Memᴰ.not-nil m)
  Mem-update_where test change (row ∷ rows) r (Memᴰ.head e) t =
      let u = ap test (sym e) ∙ t in let f = ap change e in Memᴰ.head (cc)
  Mem-update_where test change (row ∷ rows) r (Memᴰ.tail m) t =
      Memᴰ.tail (Mem-update_where test change rows r m t)

  -- An update of no rows changes nothing.
  pub update_where_none :
      (test : R → Bool) (change : R → R) (rows : List R)
      → ((r : R) → Memᴰ r rows → test r ≡ false)
      → update_where test change rows ≡ rows
  update_where_none test change [] h = refl
  update_where_none test change (row ∷ rows) h =
      let rest = update_where_none test change rows (λ r m. h r (Memᴰ.tail m)) in
      let f = h row (Memᴰ.head refl) in cc

  pub no_rows :
      (test : R → Bool) (rows : List R)
      → ((r : R) → Memᴰ r rows → test r ≡ false)
      → (exists_where test rows ≡ false)
        × (find_where test rows ≡ none)
        × (select_where test rows ≡ [])
  no_rows test [] h = (refl, refl, refl)
  no_rows test (row ∷ rows) h =
      let (a, b, c) = no_rows test rows (λ r m. h r (Memᴰ.tail m)) in
      let f = h row (Memᴰ.head refl) in (cc, cc, cc)

  pub find_where-none :
      (test : R → Bool) (rows : List R) (r : R)
      → find_where test rows ≡ none
      → Memᴰ r rows
      → test r ≡ false
  find_where-none test [] r h m = absurd (Memᴰ.not-nil m)
  find_where-none test (row ∷ rows) r h (Memᴰ.head e) = ap test e ∙ ground arith
  find_where-none test (row ∷ rows) r h (Memᴰ.tail m) = find_where-none test rows r (ground arith) m

  pub find_where-some :
      (test : R → Bool) (rows : List R) (r : R)
      → find_where test rows ≡ some r
      → Memᴰ r rows × (test r ≡ true)
  find_where-some test [] r h = cc
  find_where-some test (row ∷ rows) r h = elim (Bool-cases (test row)) [
    | inl t ↦ let e : r ≡ row = some-injective (ground arith) in (Memᴰ.head e, ap test e ∙ t)
    | inr f ↦ let (m, t) = find_where-some test rows r (ground arith) in (Memᴰ.tail m, t)
  ]

  take-Mem : (n : ℕ) (rows : List R) (r : R) → Memᴰ r (take n rows) → Memᴰ r rows
  take-Mem zero rows r m = absurd (Memᴰ.not-nil m)
  take-Mem (suc n) [] r m = absurd (Memᴰ.not-nil m)
  take-Mem (suc n) (row ∷ rows) r (Memᴰ.head e) = Memᴰ.head e
  take-Mem (suc n) (row ∷ rows) r (Memᴰ.tail m) = Memᴰ.tail (take-Mem n rows r m)

  placed :
      (row other : R) (rows rest : List R) (b : Bool) (r : R)
      → Memᴰ r (if b then row ∷ other ∷ rows else other ∷ rest)
      → (r ≡ row) ⊎ (Memᴰ r (other ∷ rows) ⊎ Memᴰ r rest)
  placed row other rows rest true r (Memᴰ.head e) = inl e
  placed row other rows rest true r (Memᴰ.tail m) = inr (inl m)
  placed row other rows rest false r (Memᴰ.head e) = inr (inl (Memᴰ.head e))
  placed row other rows rest false r (Memᴰ.tail m) = inr (inr m)

  insert_by-Mem :
      (first second : R → ℕ) (row : R) (rows : List R) (r : R)
      → Memᴰ r (insert_by first second row rows)
      → (r ≡ row) ⊎ Memᴰ r rows
  unfolding insert_by
  insert_by-Mem first second row [] r m = Memᴰ.cases_cons m
  insert_by-Mem first second row (other ∷ rows) r m =
      elim (placed row other rows (insert_by first second row rows) _ r m) [
        | inl e ↦ inl e
        | inr (inl m') ↦ inr m'
        | inr (inr m') ↦ elim (insert_by-Mem first second row rows r m') [
          | inl e ↦ inl e
          | inr m'' ↦ inr (Memᴰ.tail m'')
        ]
      ]

  order_by-Mem :
      (first second : R → ℕ) (rows : List R) (r : R)
      → Memᴰ r (order_by first second rows)
      → Memᴰ r rows
  unfolding order_by
  order_by-Mem first second [] r m = m
  order_by-Mem first second (row ∷ rows) r m =
      elim (insert_by-Mem first second row (order_by first second rows) r m) [
        | inl e ↦ Memᴰ.head e
        | inr m' ↦ Memᴰ.tail (order_by-Mem first second rows r m')
      ]

  pub first_by-Mem :
      (first second : R → ℕ) (limit : ℕ) (rows : List R) (r : R)
      → Memᴰ r (first_by first second limit rows)
      → Memᴰ r rows
  unfolding first_by
  first_by-Mem first second limit rows r m = order_by-Mem first second rows r (take-Mem limit _ r m)

pub first_by-length :
    {R : Type 0} (first second : R → ℕ) (limit : ℕ) (rows : List R)
    → length (first_by first second limit rows) ≤ limit
unfolding first_by
first_by-length first second limit rows =
    omega (arith, length-take limit (order_by first second rows))

pub map-Mem :
    {A B : Type 0} (f : A → B) (xs : List A) (b : B)
    → Memᴰ b (map f xs)
    → (a : A) × Memᴰ a xs × (b ≡ f a)
map-Mem f [] b m = absurd (Memᴰ.not-nil m)
map-Mem f (x ∷ xs) b (Memᴰ.head e) = (x, Memᴰ.head refl, e)
map-Mem f (x ∷ xs) b (Memᴰ.tail m) = let (a, m', e) = map-Mem f xs b m in (a, Memᴰ.tail m', e)

pub Mem-map : {A B : Type 0} (f : A → B) (xs : List A) (a : A) → Memᴰ a xs → Memᴰ (f a) (map f xs)
Mem-map f [] a m = absurd (Memᴰ.not-nil m)
Mem-map f (x ∷ xs) a (Memᴰ.head e) = Memᴰ.head (ap f e)
Mem-map f (x ∷ xs) a (Memᴰ.tail m) = Memᴰ.tail (Mem-map f xs a m)

pub is_in-Mem : (ids : List ℕ) (id : ℕ) → is_in ids id ≡ true → Memᴰ id ids
is_in-Mem [] id h = cc
is_in-Mem (other ∷ ids) id h = elim (Bool-cases (id == other)) [
  | inl t ↦ Memᴰ.head (ground arith)
  | inr f ↦ Memᴰ.tail (is_in-Mem ids id (ground arith))
]
