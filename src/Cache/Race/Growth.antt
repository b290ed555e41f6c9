-- ===== src/Cache/Race/Growth.antt =====
-- src/handlers/proxy/resolve.rs, insert_capped: how far two callers take a cache past its cap.
use ait.Base.{
  ℕ, zero, suc, ◌+◌, ◌≤◌, ◌<◌, ◌≡◌, ◌≢◌, refl, ap, ◌∙◌, true, false, some, List, [], ◌∷◌, ◌++◌,
  Text, All, length, leb, ◌==◌, arith, text_eq, text_eq_iff, Bool-cases, inl, inr,
}
use ait.Base.Table.{
  Table, get, remove, insert, contains_key, IsTable, remove-IsTable, insert-IsTable, get-remove,
}
use ait.Cache.{Instant, oldest, oldest_from}
use ait.Cache.Race.{
  Move, call_first, call_second, step_first, step_second, quiet, begin, access, move, run,
  run-append, access-full,
}

-- A name of a given length.
abbrev named : ℕ → Text
named zero = []
named (suc n) = b'x' ∷ named n

length-named : (n : ℕ) → length (named n) ≡ n
length-named zero = refl
length-named (suc n) = ap suc (length-named n)

module _ {ℓ} {V : Type ℓ} where
  -- All keys are shorter.
  abbrev Below : ℕ → Table V → Type 0
  Below n m = All (λ e. length e.0 < n) m

  Below-more : (n k : ℕ) (m : Table V) → n ≤ k → Below n m → Below k m
  Below-more n k [] h b = tt
  Below-more n k (e ∷ m) h (b, bs) = (omega arith, Below-more n k m h bs)

  remove-Below : (n : ℕ) (m : Table V) (k : Text) → Below n m → Below n (remove m k)
  unfolding remove
  remove-Below n [] k b = tt
  remove-Below n ((j, v) ∷ m) k (b, bs) = elim (Bool-cases (text_eq j k)) [
    | inl same ↦ rw same (remove-Below n m k bs)
    | inr other ↦ rw other (b, remove-Below n m k bs)
  ]

  -- A longer name is new.
  contains-Below :
      (n : ℕ) (m : Table V) (k : Text) → Below n m → n ≤ length k → contains_key m k ≡ false
  unfolding contains_key get
  contains-Below n [] k b h = refl
  contains-Below n ((j, v) ∷ m) k (b, bs) h =
      let rest = contains-Below n m k bs h in
      elim (Bool-cases (text_eq j k)) [
        | inl same ↦ absurd (omega (arith, ap length ((text_eq_iff j k).0 same)))
        | inr other ↦ ground (arith, rest)
      ]

  length-remove_new :
      (m : Table V) (k : Text) → contains_key m k ≡ false → length (remove m k) ≡ length m
  unfolding remove contains_key get
  length-remove_new [] k h = refl
  length-remove_new ((j, v) ∷ m) k h = ground (arith, length-remove_new m k)

  -- Of a table without repeated keys at most one entry goes.
  length-remove_one : (m : Table V) (k : Text) → IsTable m → length m ≤ length (remove m k) + 1
  unfolding remove
  length-remove_one [] k h = omega arith
  length-remove_one ((j, v) ∷ m) k (new, h) =
      ground (arith, length-remove_one m k h, length-remove_new m j new, text_eq_iff j k)

  removed_twice : (m : Table V) (k : Text) → contains_key (remove m k) k ≡ false
  unfolding contains_key
  removed_twice m k = ground (arith, get-remove m k k, text_eq_iff k k)

  insert-Below :
      (n : ℕ) (m : Table V) (k : Text) (v : V)
      → Below n m
      → length k ≤ n
      → Below (suc n) (insert m k v)
  unfolding insert
  insert-Below n m k v b h =
      (omega arith, Below-more n (suc n) (remove m k) (omega arith) (remove-Below n m k b))

  length-insert_new :
      (m : Table V) (k : Text) (v : V)
      → contains_key m k ≡ false
      → length (insert m k v) ≡ length m + 1
  unfolding insert
  length-insert_new m k v h = omega (arith, length-remove_new m k h)

module _ {ℓ} {V : Type ℓ} (inserted_at : V → Instant) (max_entries : ℕ) (v : V) (m : Table V) where
  abbrev alone : Text → List (Move V)
  alone k = call_first k v ∷ step_first ∷ step_first ∷ step_first ∷ []

  -- Below the cap one call inserts.
  run-alone :
      (k : Text)
      → (max_entries == 0) ≡ false
      → contains_key m k ≡ false
      → leb max_entries (length m) ≡ false
      → run inserted_at max_entries (alone k) (quiet m) ≡ quiet (insert m k v)
  unfolding run move begin access
  run-alone k nonzero new small = rw (nonzero, new, small) refl

  -- Two calls at the cap choose the same entry, and both insert.
  abbrev together : Text → Text → List (Move V)
  together k j =
      call_first k v
      ∷ call_second j v
      ∷ step_first
      ∷ step_second
      ∷ step_first
      ∷ step_second
      ∷ step_first
      ∷ step_second
      ∷ step_first
      ∷ step_second
      ∷ step_first
      ∷ step_second
      ∷ []

  run-together :
      (k j : Text) (e : Text × V)
      → (max_entries == 0) ≡ false
      → contains_key m k ≡ false
      → contains_key m j ≡ false
      → leb max_entries (length m) ≡ true
      → oldest inserted_at m ≡ some e
      → run inserted_at max_entries (together k j) (quiet m)
        ≡ quiet (insert (insert (remove (remove m e.0) e.0) k v) j v)
  unfolding run move begin access
  run-together k j e nonzero new new' at_cap old =
      rw
        (
          nonzero,
          new,
          new',
          at_cap,
          access-full inserted_at max_entries v m k e old,
          access-full inserted_at max_entries v m j e old,
        )
        refl

-- What is left after a round of calls on a table.
abbrev Grows {ℓ} : {V : Type ℓ} → (V → Instant) → ℕ → Table V → ℕ → Type ℓ
Grows {V = V} inserted_at max_entries m n =
    (moves : List (Move V)) × (after : Table V) × (run inserted_at max_entries moves (quiet m)
      ≡ quiet after)
    × IsTable after
    × ((bound : ℕ) × Below bound after)
    × (length m + n ≤ length after)

module _ {ℓ} {V : Type ℓ} (inserted_at : V → Instant) (max_entries : ℕ) (v : V)
    (nonzero : (max_entries == 0) ≡ false) where
  alone-Grows :
      (m : Table V) (n : ℕ)
      → IsTable m
      → Below n m
      → leb max_entries (length m) ≡ false
      → Grows inserted_at max_entries m 1
  alone-Grows m n unique below small =
      let k = named n in
      let new = contains-Below n m k below (omega (arith, length-named n)) in
      (
        alone inserted_at max_entries v m k,
        insert m k v,
        run-alone inserted_at max_entries v m k nonzero new small,
        insert-IsTable m k v unique,
        (suc n, insert-Below n m k v below (omega (arith, length-named n))),
        omega (arith, length-insert_new m k v new),
      )

  together-Grows :
      (m : Table V) (n : ℕ) (e : Text × V)
      → IsTable m
      → Below n m
      → leb max_entries (length m) ≡ true
      → oldest inserted_at m ≡ some e
      → Grows inserted_at max_entries m 1
  together-Grows m n e unique below at_cap old =
      let k = named n in
      let j = named (suc n) in
      let new = contains-Below n m k below (omega (arith, length-named n)) in
      let new' = contains-Below n m j below (omega (arith, length-named (suc n))) in
      let left = remove (remove m e.0) e.0 in
      let left_unique = remove-IsTable (remove m e.0) e.0 (remove-IsTable m e.0 unique) in
      let left_below = remove-Below n (remove m e.0) e.0 (remove-Below n m e.0 below) in
      let one = insert left k v in
      let one_below : Below (suc n) one =
        insert-Below n left k v left_below (omega (arith, length-named n)) in
      let first = contains-Below n left k left_below (omega (arith, length-named n)) in
      let second = contains-Below (suc n) one j one_below (omega (arith, length-named (suc n))) in
      (
        together inserted_at max_entries v m k j,
        insert one j v,
        run-together inserted_at max_entries v m k j e nonzero new new' at_cap old,
        insert-IsTable one j v (insert-IsTable left k v left_unique),
        (suc (suc n), insert-Below (suc n) one j v one_below (omega (arith, length-named (suc n)))),
        omega (
          arith,
          length-insert_new one j v second,
          length-insert_new left k v first,
          length-remove_new (remove m e.0) e.0 (removed_twice m e.0),
          length-remove_one m e.0 unique,
        ),
      )

  once-Grows : (m : Table V) (n : ℕ) → IsTable m → Below n m → Grows inserted_at max_entries m 1
  unfolding oldest
  once-Grows [] n unique below = alone-Grows [] n unique below (ground arith)
  once-Grows (e ∷ m) n unique below = elim (Bool-cases (leb max_entries (length (e ∷ m)))) [
    | inl at_cap ↦ together-Grows (e ∷ m) n (oldest_from inserted_at e m) unique below at_cap refl
    | inr small ↦ alone-Grows (e ∷ m) n unique below small
  ]

  rounds-Grows :
      (m : Table V) (n rounds : ℕ) → IsTable m → Below n m → Grows inserted_at max_entries m rounds
  unfolding run
  rounds-Grows m n zero unique below = ([], m, refl, unique, (n, below), omega arith)
  rounds-Grows m n (suc rounds) unique below =
      let (xs, mid, to_mid, mid_unique, (bound, mid_below), more) = once-Grows m n unique below in
      let (ys, after, to_after, still_unique, still_below, much_more) =
        rounds-Grows mid bound rounds mid_unique mid_below in
      (
        xs ++ ys,
        after,
        run-append inserted_at max_entries xs ys (quiet m)
            ∙ ap (run inserted_at max_entries ys) to_mid
            ∙ to_after,
        still_unique,
        still_below,
        omega (arith, more, much_more),
      )

module _ {ℓ} {V : Type ℓ} (inserted_at : V → Instant) (max_entries : ℕ) (v : V) where
  -- Two callers, by some order of the accesses that their calls make to the map, fill an empty cache
  -- whose cap is not 0 with at least any given number of entries, and no call is then under way.
  pub insert_capped-unbounded :
      (size : ℕ)
      → max_entries ≢ 0
      → (moves : List (Move V)) × (after : Table V) × (run inserted_at max_entries moves (quiet [])
          ≡ quiet after)
        × (size ≤ length after)
  insert_capped-unbounded size h =
      let (moves, after, e, _, _, big) =
        rounds-Grows inserted_at max_entries v (ground (arith, h)) [] 0 size tt tt in
      (moves, after, e, omega arith)
