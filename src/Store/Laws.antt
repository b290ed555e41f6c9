-- ===== src/Store/Laws.antt =====
-- Selections behind the statements that change a table, and what keeps a column unique.
use ait.Base.{
  ◌<◌, ◌≡◌, refl, ◌↔◌, inl, inr, true, false, ◌||◌, none, some, List, [], ◌∷◌, ◌++◌, arith,
  if◌then◌else◌, Bool-cases, All, Text, text_eq, text_eq_iff,
}
use ait.Store.Rows.{select, exists, update_where, delete_where, matching, IsUnique}

module _ {ℓ} {R : Type ℓ} (column : R → Text) where
  pub select-append :
      (rows : List R) (r : R) (k : Text)
      → exists column rows (column r) ≡ false
      → select column (rows ++ r ∷ []) k
        ≡ (if text_eq (column r) k then some r else select column rows k)
  unfolding select exists
  select-append [] r k new = ground arith
  select-append (x ∷ rows) r k new = ground (
    arith,
    select-append rows r k,
    text_eq_iff (column x) k,
    text_eq_iff (column r) k,
    text_eq_iff (column x) (column r),
  )

  pub exists-append :
      (rows : List R) (r : R) (k : Text)
      → exists column (rows ++ r ∷ []) k ≡ (exists column rows k || text_eq (column r) k)
  unfolding select exists
  exists-append [] r k = ground arith
  exists-append (x ∷ rows) r k = ground (arith, exists-append rows r k)

  pub append-IsUnique :
      (rows : List R) (r : R)
      → IsUnique column rows
      → exists column rows (column r) ≡ false
      → IsUnique column (rows ++ r ∷ [])
  unfolding select exists
  append-IsUnique [] r h new = ground arith
  append-IsUnique (x ∷ rows) r (fresh, h) new = ground (
    arith,
    append-IsUnique rows r h,
    exists-append rows r (column x),
    text_eq_iff (column x) (column r),
    text_eq_iff (column r) (column x),
  )

  pub select-column :
      (rows : List R) (k : Text) (r : R) → select column rows k ≡ some r → column r ≡ k
  unfolding select
  select-column (x ∷ rows) k r h = ground (arith, select-column rows k r, text_eq_iff (column x) k)
  select-column [] k r h = ground arith

  pub select-delete_where :
      (rows : List R) (k j : Text)
      → select column (delete_where column rows k) j
        ≡ (if text_eq k j then none else select column rows j)
  unfolding select delete_where
  select-delete_where [] k j = ground arith
  select-delete_where (x ∷ rows) k j = ground (
    arith,
    select-delete_where rows k j,
    text_eq_iff (column x) k,
    text_eq_iff (column x) j,
    text_eq_iff k j,
  )

  pub matching_iff :
      (rows : List R) (k : Text) → (0 < matching column rows k) ↔ (exists column rows k ≡ true)
  unfolding matching exists select
  matching_iff [] k = ground arith
  matching_iff (x ∷ rows) k = ground (arith, matching_iff rows k)

-- What one statement does to another column of the same table.
module _ {ℓ} {R : Type ℓ} (column other : R → Text) where
  pub exists-delete_where :
      (rows : List R) (k j : Text)
      → exists other rows j ≡ false
      → exists other (delete_where column rows k) j ≡ false
  unfolding exists select delete_where
  exists-delete_where [] k j h = h
  exists-delete_where (x ∷ rows) k j h = ground (arith, exists-delete_where rows k j)

  pub delete_where-IsUnique :
      (rows : List R) (k : Text) → IsUnique other rows → IsUnique other (delete_where column rows k)
  unfolding delete_where
  delete_where-IsUnique [] k h = tt
  delete_where-IsUnique (x ∷ rows) k (fresh, h) =
      ground (arith, delete_where-IsUnique rows k h, exists-delete_where rows k (other x) fresh)

  pub select-exists :
      (rows : List R) (k : Text) (r : R)
      → select column rows k ≡ some r
      → exists other rows (other r) ≡ true
  unfolding select exists
  select-exists [] k r h = ground arith
  select-exists (x ∷ rows) k r h =
      ground (arith, select-exists rows k r, text_eq_iff (other x) (other r))

  -- A row found by one column is found by a unique one.
  pub select_unique :
      (rows : List R) (k : Text) (r : R)
      → IsUnique other rows
      → select column rows k ≡ some r
      → select other rows (other r) ≡ some r
  unfolding select
  select_unique [] k r h e = ground arith
  select_unique (x ∷ rows) k r (fresh, h) e = elim (Bool-cases (text_eq (column x) k)) [
    | inl same ↦ ground (arith, text_eq_iff (other x) (other r))
    | inr apart ↦
        let found : select column rows k ≡ some r = ground arith in
        ground (
          arith,
          select_unique rows k r h found,
          select-exists rows k r found,
          text_eq_iff (other x) (other r),
        )
  ]

  -- A deletion by one column, seen through a unique one.
  pub select-delete_other :
      (rows : List R) (k j : Text)
      → IsUnique other rows
      → select other (delete_where column rows k) j ≡ (elim (select other rows j) [
        | none ↦ none
        | some r ↦ if text_eq (column r) k then none else some r
      ])
  unfolding select exists delete_where
  select-delete_other [] k j h = refl
  select-delete_other (x ∷ rows) k j (fresh, h) = ground (
    arith,
    select-delete_other rows k j h,
    exists-delete_where rows k (other x) fresh,
    text_eq_iff (other x) j,
  )

  module _ (f : R → R) (kept : (r : R) → other (f r) ≡ other r) where
    pub exists-update_where :
        (rows : List R) (k j : Text)
        → exists other (update_where column rows k f) j ≡ exists other rows j
    unfolding exists select update_where
    exists-update_where [] k j = refl
    exists-update_where (x ∷ rows) k j = ground (arith, exists-update_where rows k j, kept x)

    pub update_where-IsUnique :
        (rows : List R) (k : Text)
        → IsUnique other rows
        → IsUnique other (update_where column rows k f)
    unfolding update_where
    update_where-IsUnique [] k h = tt
    update_where-IsUnique (x ∷ rows) k (fresh, h) =
        ground (arith, update_where-IsUnique rows k h, exists-update_where rows k (other x), kept x)

module _ {ℓ} {R : Type ℓ} (column : R → Text) (f : R → R) where
  pub select-update_where :
      ((r : R) → column (f r) ≡ column r)
      → (rows : List R) (k j : Text)
      → select column (update_where column rows k f) j ≡ (
          if text_eq k j
          then (elim (select column rows j) [ none ↦ none | some r ↦ some (f r) ])
          else select column rows j)
  unfolding select update_where
  select-update_where kept [] k j = ground arith
  select-update_where kept (x ∷ rows) k j = ground (
    arith,
    select-update_where kept rows k j,
    kept x,
    text_eq_iff (column x) k,
    text_eq_iff (column x) j,
    text_eq_iff k j,
  )

-- A predicate on the rows.
module _ {ℓ κ} {R : Type ℓ} (P : R → Type κ) where
  pub All-append : (rows : List R) (r : R) → All P rows → P r → All P (rows ++ r ∷ [])
  All-append [] r h p = (p, tt)
  All-append (x ∷ rows) r (q, h) p = (q, All-append rows r h p)

module _ {ℓ κ} {R : Type ℓ} (P : R → Type κ) (column : R → Text) where
  pub All-delete_where :
      (rows : List R) (k : Text) → All P rows → All P (delete_where column rows k)
  unfolding delete_where
  All-delete_where [] k h = h
  All-delete_where (x ∷ rows) k (p, h) = ground (arith, All-delete_where rows k h)

  pub All-update_where :
      (f : R → R) (rows : List R) (k : Text)
      → ((r : R) → P r → P (f r))
      → All P rows
      → All P (update_where column rows k f)
  unfolding update_where
  All-update_where f [] k kept h = h
  All-update_where f (x ∷ rows) k kept (p, h) =
      ground (arith, All-update_where f rows k kept h, kept x p)

  pub select-All :
      (rows : List R) (k : Text) (r : R) → All P rows → select column rows k ≡ some r → P r
  unfolding select
  select-All (x ∷ rows) k r (p, h) e = elim (Bool-cases (text_eq (column x) k)) [
    | inl same ↦ ground arith
    | inr apart ↦ select-All rows k r h (ground arith)
  ]
  select-All [] k r h e = ground arith
