-- ===== src/Cache/Tests.antt =====
-- src/handlers/proxy/resolve.rs, src/app.rs: runs of the capped insertion and of the cleanup.
use ait.Base.{
  ℕ, ◌≡◌, ◌≢◌, ◌≤◌, ◌<◌, ◌*◌, ◌/◌, ◌^◌, ◌⊎◌, inl, inr, refl, Bool, true, false, Option, none, some,
  List, [], ◌∷◌, Text, codes, length, arith, text_eq,
}
use ait.Base.Table.{Table, IsTable, get, contains_key}
use ait.Cache.{Instant, insert_capped}
use ait.Cache.Race.{Move, quiet, run}
use ait.Cache.Race.Growth.{insert_capped-unbounded}
use ait.Cache.Bounds.{insert_capped-evicts}

abbrev inserted_at : ℕ → Instant
inserted_at t = t

abbrev full : Table ℕ
full = (codes "a", 1) ∷ (codes "b", 2) ∷ []

full-IsTable : IsTable full
unfolding contains_key get text_eq
full-IsTable = (refl, (refl, tt))

a_before : get full (codes "a") ≡ some 1
unfolding get text_eq
a_before = refl

a_lost : get (insert_capped inserted_at full (codes "c") 9 2) (codes "a") ≡ none
unfolding get text_eq insert_capped ait.Base.Table.contains_key ait.Base.Table.insert
    ait.Base.Table.remove
a_lost = refl

b_before : get full (codes "b") ≡ some 2
unfolding get text_eq
b_before = refl

insert_capped-evicts_example : (1 ≤ 2) × (2 ≤ length full) × (contains_key full (codes "c") ≡ false)
insert_capped-evicts_example =
    insert_capped-evicts inserted_at full (codes "c") 9 2 (codes "a") (codes "b") 1 2 full-IsTable
      a_before a_lost b_before

differ : codes "c" ≢ codes "b"
differ e = ground arith

abbrev stamped : Table (ℕ × Instant)
stamped = (codes "a", (1, 0)) ∷ []

stamped-IsTable : IsTable stamped
unfolding contains_key get
stamped-IsTable = (refl, tt)

stamped_a : get stamped (codes "a") ≡ some (1, 0)
unfolding get text_eq
stamped_a = refl

abbrev two : ℕ
two = 2

some_cap : two ≢ 0
some_cap = λ e. ground arith

insert_capped-unbounded_example :
    (moves : List (Move ℕ)) × (after : Table ℕ) × (run inserted_at 2 moves (quiet []) ≡ quiet after)
    × (7 ≤ length after)
insert_capped-unbounded_example = insert_capped-unbounded inserted_at two 0 7 some_cap
