-- ===== src/Store/Rows.antt =====
-- What the statements of src/db/store/ mean on a table: its rows in the order of their insertion,
-- selected, changed and deleted by the text in one column.
use ait.Base.{
  ℕ, suc, ◌≡◌, Bool, true, false, Option, none, some, List, [], ◌∷◌, if◌then◌else◌, is_some, ◌==◌,
  leb, Text, text_eq,
}

module _ {ℓ} {R : Type ℓ} (column : R → Text) where
  -- `SELECT … WHERE column = k`, one row.
  unfoldable pub select : List R → Text → Option R
  select [] k = none
  select (r ∷ rows) k = if text_eq (column r) k then some r else select rows k

  -- `EXISTS(SELECT 1 … WHERE column = k)`.
  unfoldable pub exists : List R → Text → Bool
  unfolding select
  exists rows k = is_some (select rows k)

  -- `UPDATE … WHERE column = k`.
  unfoldable pub update_where : List R → Text → (R → R) → List R
  update_where [] k f = []
  update_where (r ∷ rows) k f =
      let rest = update_where rows k f in if text_eq (column r) k then f r ∷ rest else r ∷ rest

  -- `DELETE … WHERE column = k`.
  unfoldable pub delete_where : List R → Text → List R
  delete_where [] k = []
  delete_where (r ∷ rows) k =
      let rest = delete_where rows k in if text_eq (column r) k then rest else r ∷ rest

  -- The number of rows that a statement touches.
  unfoldable pub matching : List R → Text → ℕ
  matching [] k = 0
  matching (r ∷ rows) k =
      let rest = matching rows k in if text_eq (column r) k then suc rest else rest

  -- The column is UNIQUE.
  abbrev pub IsUnique : List R → Type 0
  IsUnique [] = Unit
  IsUnique (r ∷ rows) = (exists rows (column r) ≡ false) × IsUnique rows

-- `ORDER BY`, by a test for "not behind"; rows that tie stay in the order of their insertion.
module _ {ℓ} {R : Type ℓ} (before : R → R → Bool) where
  unfoldable pub insert_ordered : R → List R → List R
  insert_ordered r [] = r ∷ []
  insert_ordered r (x ∷ rows) =
      let rest = insert_ordered r rows in if before r x then r ∷ x ∷ rows else x ∷ rest

  unfoldable pub order_by : List R → List R
  unfolding insert_ordered
  order_by [] = []
  order_by (r ∷ rows) = insert_ordered r (order_by rows)

-- The order of two texts, code point by code point.
unfoldable pub text_leb : Text → Text → Bool
text_leb [] t = true
text_leb (a ∷ s) [] = false
text_leb (a ∷ s) (b ∷ t) = let rest = text_leb s t in if a == b then rest else leb a b
