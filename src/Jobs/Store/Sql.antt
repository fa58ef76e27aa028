-- ===== src/Jobs/Store/Sql.antt =====
-- The statements of SQL that the repository uses, on a table as the list of its rows. The selected rows
-- of an `UPDATE` are found before any of them is changed.
pub mod Rows
pub mod Keys
use larafeed.Prelude.{
  ℕ, Bool, false, ◌&&◌, ◌||◌, not, Option, none, some, List, [], ◌∷◌, ltb, leb, ◌==◌, if◌then◌else◌,
  length, take,
}

module _ {R : Type 0} where
  -- `UPDATE ... SET ... WHERE test`
  abbrev pub update_where : (R → Bool) → (R → R) → List R → List R
  update_where test change [] = []
  update_where test change (row ∷ rows) =
      (if test row then change row else row) ∷ update_where test change rows

  -- `SELECT ... WHERE test`
  abbrev pub select_where : (R → Bool) → List R → List R
  select_where test [] = []
  select_where test (row ∷ rows) =
      let rest = select_where test rows in if test row then row ∷ rest else rest

  -- `DELETE ... WHERE test`
  abbrev pub delete_where : (R → Bool) → List R → List R
  delete_where test rows = select_where (λ row. not (test row)) rows

  -- the number of rows that a statement changes
  abbrev pub count_where : (R → Bool) → List R → ℕ
  count_where test rows = length (select_where test rows)

  -- `EXISTS (SELECT 1 ... WHERE test)`
  abbrev pub exists_where : (R → Bool) → List R → Bool
  exists_where test [] = false
  exists_where test (row ∷ rows) = test row || exists_where test rows

  -- the row of a key, or of another column that no two rows share
  abbrev pub find_where : (R → Bool) → List R → Option R
  find_where test [] = none
  find_where test (row ∷ rows) =
      let rest = find_where test rows in if test row then some row else rest

  -- `ORDER BY first, second`
  unfoldable pub insert_by : (R → ℕ) → (R → ℕ) → R → List R → List R
  insert_by first second row [] = row ∷ []
  insert_by first second row (other ∷ rows) =
      let rest = insert_by first second row rows in
      if ltb (first row) (first other)
        || (first row == first other && leb (second row) (second other))
      then row ∷ other ∷ rows
      else other ∷ rest

  unfoldable pub order_by : (R → ℕ) → (R → ℕ) → List R → List R
  unfolding insert_by
  order_by first second [] = []
  order_by first second (row ∷ rows) = insert_by first second row (order_by first second rows)

  -- `ORDER BY first, second LIMIT limit`
  unfoldable pub first_by : (R → ℕ) → (R → ℕ) → ℕ → List R → List R
  unfolding order_by
  first_by first second limit rows = take limit (order_by first second rows)

abbrev pub is_in : List ℕ → ℕ → Bool
is_in [] id = false
is_in (other ∷ ids) id = id == other || is_in ids id

-- `column <= now` and `column >= now`, which are not true of NULL
abbrev pub at_most : Option ℕ → ℕ → Bool
at_most none now = false
at_most (some t) now = leb t now

abbrev pub at_least : Option ℕ → ℕ → Bool
at_least none now = false
at_least (some t) now = leb now t

-- `COALESCE(column, 0)`, and the place of NULL in an order
abbrev pub or_zero : Option ℕ → ℕ
or_zero none = 0
or_zero (some t) = t
