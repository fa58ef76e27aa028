-- ===== src/Jobs/Store/Sql/Keys.antt =====
-- The columns that no two rows share (for src/worker/jobs/repository.ts).
use mathlib.Core.List.{Memᴰ}
use mathlib.Core.List.Memᴰ
use larafeed.Prelude.{
  ◌==◌, ◌+◌, ◌+◌, length, ◌||◌, ℕ, ◌≤◌, Bool, true, false, List, [], ◌∷◌, map, ◌≡◌, refl, sym, ◌∙◌,
  ap, inl, inr, if◌then◌else◌, Bool-cases, arith,
}
use larafeed.Jobs.Store.Sql.{is_in, first_by, update_where, select_where, count_where, exists_where}
use larafeed.Jobs.Store.Sql.Rows.{
  select_where-Mem, first_by-Mem, is_in-Mem, exists_where-false, map-Mem, Mem-map,
}

abbrev pub Distinct : {K : Type 0} → List K → Type 0
Distinct [] = Unit {0}
Distinct (k ∷ keys) = (Memᴰ k keys → ⊥) × Distinct keys

module _ {R K : Type 0} (key : R → K) where
  pub map-update_where :
      (test : R → Bool) (change : R → R) (rows : List R)
      → ((r : R) → key (change r) ≡ key r)
      → map key (update_where test change rows) ≡ map key rows
  map-update_where test change [] h = refl
  map-update_where test change (row ∷ rows) h =
      let rest = map-update_where test change rows h in
      let e = h row in elim (Bool-cases (test row)) [ inl t ↦ cc | inr f ↦ cc ]

  Mem-select :
      (test : R → Bool) (rows : List R) (k : K)
      → Memᴰ k (map key (select_where test rows))
      → Memᴰ k (map key rows)
  Mem-select test rows k m =
      let (r, m', e) = map-Mem key (select_where test rows) k m in
      Memᴰ.cast e (Mem-map key rows r (select_where-Mem test rows r m').0)

  Distinct-rest :
      (row : R) (rest : List R) (b : Bool)
      → (Memᴰ (key row) (map key rest) → ⊥)
      → Distinct (map key rest)
      → Distinct (map key (if b then row ∷ rest else rest))
  Distinct-rest row rest true n d = (n, d)
  Distinct-rest row rest false n d = d

  pub Distinct-select_where :
      (test : R → Bool) (rows : List R)
      → Distinct (map key rows)
      → Distinct (map key (select_where test rows))
  Distinct-select_where test [] d = d
  Distinct-select_where test (row ∷ rows) d =
      Distinct-rest row (select_where test rows) (test row)
        (λ m. d.0 (Mem-select test rows (key row) m)) (Distinct-select_where test rows d.1)

  -- Rows of the same key are the same row.
  pub Distinct-same :
      (rows : List R) (r s : R)
      → Distinct (map key rows)
      → Memᴰ r rows
      → Memᴰ s rows
      → key r ≡ key s
      → r ≡ s
  Distinct-same (row ∷ rows) r s d (Memᴰ.head e) (Memᴰ.head e') k = e ∙ sym e'
  Distinct-same (row ∷ rows) r s d (Memᴰ.head e) (Memᴰ.tail m) k =
      absurd (d.0 (Memᴰ.cast (sym (ap key e) ∙ k) (Mem-map key rows s m)))
  Distinct-same (row ∷ rows) r s d (Memᴰ.tail m) (Memᴰ.head e) k =
      absurd (d.0 (Memᴰ.cast (sym (ap key e) ∙ sym k) (Mem-map key rows r m)))
  Distinct-same (row ∷ rows) r s d (Memᴰ.tail m) (Memᴰ.tail m') k =
      Distinct-same rows r s d.1 m m' k
  Distinct-same [] r s d m m' k = absurd (Memᴰ.not-nil m)

  pub fresh_key :
      (test : R → Bool) (rows : List R) (k : K)
      → ((r : R) → key r ≡ k → test r ≡ true)
      → exists_where test rows ≡ false
      → Memᴰ k (map key rows)
      → ⊥
  fresh_key test rows k h e m =
      let (r, m', k') = map-Mem key rows k m in
      let t = h r (sym k') in let f = exists_where-false test rows r e m' in cc

  none_selected :
      (test : R → Bool) (rows : List R)
      → ((r : R) → Memᴰ r rows → test r ≡ false)
      → select_where test rows ≡ []
  none_selected test [] h = refl
  none_selected test (row ∷ rows) h =
      let f = h row (Memᴰ.head refl) in
      let rest = none_selected test rows (λ r m. h r (Memᴰ.tail m)) in cc

  -- A statement that selects by the key changes one row at most.
  pub count_where-key :
      (test : R → Bool) (rows : List R) (k : K)
      → Distinct (map key rows)
      → ((r : R) → test r ≡ true → key r ≡ k)
      → count_where test rows ≤ 1
  count_where-key test [] k d h = omega arith
  count_where-key test (row ∷ rows) k d h = elim (Bool-cases (test row)) [
    | inl t ↦
        let e = none_selected test rows (λ r m. elim (Bool-cases (test r)) [
          | inl t' ↦ absurd (d.0 (Memᴰ.cast (h row t ∙ sym (h r t')) (Mem-map key rows r m)))
          | inr f ↦ f
        ]) in
        ground arith
    | inr f ↦ let rest = count_where-key test rows k d.1 h in ground arith
  ]

count_where-or :
    {R : Type 0} (p q : R → Bool) (rows : List R)
    → count_where (λ r. p r || q r) rows ≤ count_where p rows + count_where q rows
count_where-or p q [] = omega arith
count_where-or p q (row ∷ rows) =
    let rest = count_where-or p q rows in
    elim (Bool-cases (p row)) [
      | inl t ↦ elim (Bool-cases (q row)) [ inl t' ↦ ground arith | inr f' ↦ ground arith ]
      | inr f ↦ elim (Bool-cases (q row)) [ inl t' ↦ ground arith | inr f' ↦ ground arith ]
    ]

count_where-never : {R : Type 0} (rows : List R) → count_where (λ r. false) rows ≡ 0
count_where-never [] = refl
count_where-never (row ∷ rows) = count_where-never rows

-- A statement that selects by a list of keys changes at most as many rows.
pub count_where-is_in :
    {R : Type 0} (key : R → ℕ) (ids : List ℕ) (rows : List R)
    → Distinct (map key rows)
    → count_where (λ r. is_in ids (key r)) rows ≤ length ids
count_where-is_in key [] rows d = omega (arith, count_where-never rows)
count_where-is_in key (i ∷ ids) rows d =
    let one = count_where-key key (λ r. key r == i) rows i d (λ r t. ground arith) in
    let rest = count_where-is_in key ids rows d in
    let both = count_where-or (λ r. key r == i) (λ r. is_in ids (key r)) rows in omega arith

-- A row whose number is among those of the first selected rows is selected.
pub first_by-selected :
    {R : Type 0} (key : R → ℕ) (first second : R → ℕ) (limit : ℕ) (test : R → Bool) (rows : List R)
    (r : R)
    → Distinct (map key rows)
    → Memᴰ r rows
    → is_in (map key (first_by first second limit (select_where test rows))) (key r) ≡ true
    → test r ≡ true
first_by-selected key first second limit test rows r d m h =
    let found = first_by first second limit (select_where test rows) in
    let (s, m', k) = map-Mem key found (key r) (is_in-Mem (map key found) (key r) h) in
    let (m'', t) =
      select_where-Mem test rows s
        (first_by-Mem first second limit (select_where test rows) s m') in
    ap test (Distinct-same key rows r s d m m'' k) ∙ t
