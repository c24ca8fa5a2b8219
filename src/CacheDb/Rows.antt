-- ===== src/CacheDb/Rows.antt =====
-- Tables as lists of rows: what the SQL statements of src/filecachedb.c do with them.
use aws_s3fs.Common.{
  ℕ, ◌+◌, ◌≡◌, Bool, false, ◌||◌, Option, none, some, List, [], ◌∷◌, ◌++◌, leb, if◌then◌else◌, All,
}

module _ {ℓ} {A : Type ℓ} where
  unfoldable pub exists_row : (A → Bool) → List A → Bool
  exists_row p [] = false
  exists_row p (row ∷ rows) = p row || exists_row p rows

  unfoldable pub rows_where : (A → Bool) → List A → List A
  rows_where p [] = []
  rows_where p (row ∷ rows) = if p row then row ∷ rows_where p rows else rows_where p rows

  unfoldable pub count_where : (A → Bool) → List A → ℕ
  count_where p [] = 0
  count_where p (row ∷ rows) = if p row then 1 + count_where p rows else count_where p rows

  -- `UPDATE … SET … WHERE`
  unfoldable pub update_where : (A → Bool) → (A → A) → List A → List A
  update_where p f [] = []
  update_where p f (row ∷ rows) = (if p row then f row else row) ∷ update_where p f rows

  -- `DELETE … WHERE`
  unfoldable pub remove_where : (A → Bool) → List A → List A
  remove_where p [] = []
  remove_where p (row ∷ rows) = if p row then remove_where p rows else row ∷ remove_where p rows

  unfoldable pub or_else : Option A → Option A → Option A
  or_else none other = other
  or_else (some row) other = some row

  -- The row that a loop over the result of a `SELECT … WHERE` keeps, its last one.
  unfoldable pub last_where : (A → Bool) → List A → Option A
  last_where p [] = none
  last_where p (row ∷ rows) = or_else (last_where p rows) (if p row then some row else none)

  -- The rowid of a new row: one more than the largest one in the table.
  unfoldable pub next_rowid : (A → ℕ) → List A → ℕ
  next_rowid id [] = 1
  next_rowid id (row ∷ rows) =
      let next = next_rowid id rows in if leb next (id row) then id row + 1 else next

  -- No two rows clash.
  abbrev pub Distinct : (A → A → Bool) → List A → Type 0
  Distinct clash [] = Unit {0}
  Distinct clash (row ∷ rows) = All (λ other. clash row other ≡ false) rows × Distinct clash rows

module _ {ℓ κ} {A : Type ℓ} {B : Type κ} where
  -- The rows of a second table that go with a row of the first.
  unfoldable pub pairs_with : (A → B → Bool) → A → List B → List (A × B)
  pairs_with on a [] = []
  pairs_with on a (b ∷ rows) =
      if on a b then (a, b) ∷ pairs_with on a rows else pairs_with on a rows

  -- `INNER JOIN … ON`
  unfoldable pub join_on : (A → B → Bool) → List A → List B → List (A × B)
  join_on on [] bs = []
  join_on on (a ∷ rows) bs = pairs_with on a bs ++ join_on on rows bs
