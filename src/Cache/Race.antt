-- ===== src/Cache/Race.antt =====
-- src/handlers/proxy/resolve.rs, insert_capped: two calls on one `DashMap`, cut at each access to the
-- map. `contains_key`, `len`, the search for the oldest entry, `remove` and `insert` are atomic, and
-- nothing holds the map between them.
pub mod Growth
use ait.Base.{
  ℕ, zero, suc, ◌+◌, ◌≤◌, ◌<◌, ◌≡◌, ◌≢◌, refl, ap, none, some, List, [], ◌∷◌, ◌++◌, Text, All,
  length, leb, ◌==◌, arith, text_eq, text_eq_iff, if◌then◌else◌,
}
use ait.Base.Table.{
  Table, get, remove, insert, contains_key, IsTable, remove-IsTable, insert-IsTable, get-remove,
}
use ait.Cache.{Instant, oldest, oldest_from}

-- How far a call has come: what it inserts, and the key that it is about to remove.
pub data Stage {ℓ} (V : Type ℓ) : Type ℓ where
  idle : Stage V
  called : Text → V → Stage V
  absent : Text → V → Stage V
  full : Text → V → Stage V
  chosen : Text → V → Text → Stage V
  ready : Text → V → Stage V

pub record World {ℓ} (V : Type ℓ) : Type ℓ where
  pub table : Table V
  pub first : Stage V
  pub second : Stage V

pub data Move {ℓ} (V : Type ℓ) : Type ℓ where
  call_first call_second : Text → V → Move V
  step_first step_second : Move V

abbrev pub quiet {ℓ} : {V : Type ℓ} → Table V → World V
quiet m = record { table = m; first = idle; second = idle }

module _ {ℓ} {V : Type ℓ} (inserted_at : V → Instant) (max_entries : ℕ) where
  -- A caller that is busy does not call, and with a cap of 0 the call returns at once.
  unfoldable pub begin : Text → V → Stage V → Stage V
  begin k v idle = if max_entries == 0 then idle else called k v
  begin k v stage = stage

  -- One access of a call to the map.
  unfoldable pub access : Table V → Stage V → Table V × Stage V
  access m idle = (m, idle)
  access m (called k v) = (m, if contains_key m k then ready k v else absent k v)
  access m (absent k v) = (m, if leb max_entries (length m) then full k v else ready k v)
  access m (full k v) =
      (m, elim (oldest inserted_at m) [ none ↦ ready k v | some e ↦ chosen k v e.0 ])
  access m (chosen k v old) = (remove m old, ready k v)
  access m (ready k v) = (insert m k v, idle)

  unfoldable pub move : Move V → World V → World V
  unfolding begin access
  move (call_first k v) w = record w { first = begin k v w.first }
  move (call_second k v) w = record w { second = begin k v w.second }
  move step_first w =
      let (m, stage) = access w.table w.first in record w { table = m; first = stage }
  move step_second w =
      let (m, stage) = access w.table w.second in record w { table = m; second = stage }

  unfoldable pub run : List (Move V) → World V → World V
  unfolding move
  run [] w = w
  run (x ∷ moves) w = run moves (move x w)

  pub run-append : (xs ys : List (Move V)) (w : World V) → run (xs ++ ys) w ≡ run ys (run xs w)
  unfolding run
  run-append [] ys w = refl
  run-append (x ∷ xs) ys w = run-append xs ys (move x w)

module _ {ℓ} {V : Type ℓ} (inserted_at : V → Instant) (max_entries : ℕ) (v : V) (m : Table V) where
  pub access-full :
      (k : Text) (e : Text × V)
      → oldest inserted_at m ≡ some e
      → access inserted_at max_entries m (full k v) ≡ (m, chosen k v e.0)
  unfolding access
  access-full k e old = rw (old, access) refl

  abbrev pub undisturbed : Text → List (Move V)
  undisturbed k =
      call_first k v ∷ step_first ∷ step_first ∷ step_first ∷ step_first ∷ step_first ∷ []
