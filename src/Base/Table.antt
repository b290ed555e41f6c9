-- ===== src/Base/Table.antt =====
-- A concurrent map of the source (`DashMap`), seen between two operations: an association list
-- with text keys. Each operation below is one atomic call; the iteration order is the list's.
use Prim.Native.Nat.{◌+◌, ◌≤◌, ◌<◌}
use mathlib.Core.Path.{◌≡◌, refl}
use mathlib.Core.Bool.{Bool, true, false}
use mathlib.Core.Option.{Option, none, some}
use mathlib.Core.List.{List, [], ◌∷◌}
use native.Mathlib.Omega.{arith}
use ait.Base.Tests.{if◌then◌else◌}
use ait.Base.Lists.{length}
use ait.Base.Chars.{Text, text_eq, text_eq_iff, text_eq_refl}

abbrev pub Table {ℓ} : Type ℓ → Type ℓ
Table V = List (Text × V)

module _ {ℓ} {V : Type ℓ} where
  unfoldable pub get : Table V → Text → Option V
  get [] k = none
  get ((j, v) ∷ m) k = if text_eq j k then some v else get m k

  unfoldable pub remove : Table V → Text → Table V
  remove [] k = []
  remove ((j, v) ∷ m) k = let rest = remove m k in if text_eq j k then rest else (j, v) ∷ rest

  unfoldable pub insert : Table V → Text → V → Table V
  insert m k v = (k, v) ∷ remove m k

  -- `retain`: keep the entries that pass.
  unfoldable pub retain : (Text → V → Bool) → Table V → Table V
  retain p [] = []
  retain p ((j, v) ∷ m) = let rest = retain p m in if p j v then (j, v) ∷ rest else rest

  unfoldable pub contains_key : Table V → Text → Bool
  contains_key m k = elim (get m k) [ none ↦ false | some _ ↦ true ]

  pub get-remove :
      (m : Table V) (k j : Text) → get (remove m k) j ≡ (if text_eq k j then none else get m j)
  unfolding get remove
  get-remove [] k j = ground arith
  get-remove ((i, v) ∷ m) k j =
      ground (arith, get-remove m k j, text_eq_iff i k, text_eq_iff i j, text_eq_iff k j)

  pub get-insert :
      (m : Table V) (k j : Text) (v : V)
      → get (insert m k v) j ≡ (if text_eq k j then some v else get m j)
  unfolding get insert
  get-insert m k j v = ground (arith, get-remove m k j)

  pub length-remove : (m : Table V) (k : Text) → length (remove m k) ≤ length m
  unfolding remove
  length-remove [] k = omega arith
  length-remove ((j, v) ∷ m) k = ground (arith, length-remove m k)

  -- Removing a key that is there makes the table smaller.
  pub length-remove_lt :
      (m : Table V) (k : Text) → contains_key m k ≡ true → length (remove m k) < length m
  unfolding remove contains_key get
  length-remove_lt [] k h = cc
  length-remove_lt ((j, v) ∷ m) k h = ground (arith, length-remove m k, length-remove_lt m k)

  pub length-insert : (m : Table V) (k : Text) (v : V) → length (insert m k v) ≤ length m + 1
  unfolding insert
  length-insert m k v = omega (arith, length-remove m k)

  pub length-insert_old :
      (m : Table V) (k : Text) (v : V) → contains_key m k ≡ true → length (insert m k v) ≤ length m
  unfolding insert
  length-insert_old m k v h = omega (arith, length-remove_lt m k h)

  pub length-retain : (p : Text → V → Bool) (m : Table V) → length (retain p m) ≤ length m
  unfolding retain
  length-retain p [] = omega arith
  length-retain p ((j, v) ∷ m) = ground (arith, length-retain p m)

module _ {ℓ} {V : Type ℓ} where
  -- No key occurs twice.
  abbrev pub IsTable : Table V → Type 0
  IsTable [] = Unit
  IsTable ((k, v) ∷ m) = (contains_key m k ≡ false) × IsTable m

  pub contains-head : (k : Text) (v : V) (m : Table V) → contains_key ((k, v) ∷ m) k ≡ true
  unfolding contains_key get
  contains-head k v m = ground (arith, text_eq_refl k)

  pub contains-cons :
      (j : Text) (v : V) (m : Table V) (k : Text)
      → contains_key m k ≡ true
      → contains_key ((j, v) ∷ m) k ≡ true
  unfolding contains_key get
  contains-cons j v m k h = ground arith

  pub contains-of-get :
      (m : Table V) (k : Text) (v : V) → get m k ≡ some v → contains_key m k ≡ true
  unfolding contains_key
  contains-of-get m k v h = ground arith

  contains-remove :
      (m : Table V) (k j : Text)
      → contains_key (remove m k) j ≡ (if text_eq k j then false else contains_key m j)
  unfolding contains_key
  contains-remove m k j = ground (arith, get-remove m k j)

  pub remove-IsTable : (m : Table V) (k : Text) → IsTable m → IsTable (remove m k)
  unfolding remove
  remove-IsTable [] k h = tt
  remove-IsTable ((j, v) ∷ m) k (new, h) =
      ground (arith, remove-IsTable m k h, contains-remove m k j)

  pub insert-IsTable : (m : Table V) (k : Text) (v : V) → IsTable m → IsTable (insert m k v)
  unfolding insert
  insert-IsTable m k v h =
      (ground (arith, contains-remove m k k, text_eq_refl k), remove-IsTable m k h)

  contains-retain-false :
      (p : Text → V → Bool) (m : Table V) (k : Text)
      → contains_key m k ≡ false
      → contains_key (retain p m) k ≡ false
  unfolding contains_key get retain
  contains-retain-false p [] k h = h
  contains-retain-false p ((j, v) ∷ m) k h = ground (arith, contains-retain-false p m k)

  pub retain-IsTable : (p : Text → V → Bool) (m : Table V) → IsTable m → IsTable (retain p m)
  unfolding retain
  retain-IsTable p [] h = tt
  retain-IsTable p ((j, v) ∷ m) (new, h) =
      ground (arith, retain-IsTable p m h, contains-retain-false p m j)

  get_of_absent : (m : Table V) (k : Text) → contains_key m k ≡ false → get m k ≡ none
  unfolding contains_key
  get_of_absent m k h = ground arith

  -- `retain` keeps an entry exactly when it passes.
  pub get-retain :
      (p : Text → V → Bool) (m : Table V) (k : Text)
      → IsTable m
      → get (retain p m) k
        ≡ (elim (get m k) [ none ↦ none | some v ↦ if p k v then some v else none ])
  unfolding get retain
  get-retain p [] k h = refl
  get-retain p ((j, v) ∷ m) k (new, h) = ground (
    arith,
    get-retain p m k h,
    text_eq_iff j k,
    get_of_absent m j new,
    get_of_absent (retain p m) j (contains-retain-false p m j new),
  )
