-- ===== src/Store/View/Reports.antt =====
-- An operation of src/db/store/ against the maps before it: what its tables show after it.
use ait.Base.{◌≡◌, refl, Bool, true, false, Option, none, some, if◌then◌else◌, Text, Result}
use ait.Error.{DbError}
use ait.Store.Schema.{Tables, attempt}
use ait.Store.View.{View, Shows, reported}

-- The tables and the result of an operation, against the maps before it.
abbrev pub Reports : {A : Type 0} → View → (A → View) → Tables × Result A DbError → Type 0
Reports v effect r = Shows r.0 (reported r.1 effect v)

module _ {A : Type 0} (v : View) (effect : A → View) where
  pub attempt-Reports :
      (answer : Option Text) (db : Tables) (rest : Tables × Result A DbError)
      → Shows db v
      → Reports v effect rest
      → Reports v effect (attempt answer db rest)
  unfolding attempt
  attempt-Reports none db rest h k = k
  attempt-Reports (some e) db rest h k = h

  pub if-Reports :
      (b : Bool) (left right : Tables × Result A DbError)
      → (b ≡ true → Reports v effect left)
      → (b ≡ false → Reports v effect right)
      → Reports v effect (if b then left else right)
  if-Reports true left right h k = h refl
  if-Reports false left right h k = k refl
