-- ===== src/Store/Readers.antt =====
-- src/db/store.rs, lock_reader: the reader that a query takes from the pool. What `try_lock` answers
-- for each reader is an argument, and so is the value of the counter, a 64-bit word.
use ait.Base.{
  ℕ, zero, suc, ◌+◌, ◌-◌, ◌*◌, ◌/◌, ◌%◌, ◌^◌, ◌≤◌, ◌<◌, ◌≡◌, ◌≢◌, refl, sym, ◌∙◌, ◌⊎◌, inl, inr,
  Option, none, some, arith, leb, Bool-cases, Option-cases, leb→le, ap, if◌then◌else◌,
}
use native.Mathlib.Nat.{mul-add-mod_self_right, mod-eq_of_lt, mod-lt, div-add-mod'}

pub data TryLock : Type 0 where
  acquired poisoned would_block : TryLock

-- A guard at once, or a wait for one reader.
pub data Acquired : Type 0 where
  guard waiting : ℕ → Acquired

module _ (readers : ℕ) (try_lock : ℕ → TryLock) where
  unfoldable pub index_of : ℕ → ℕ → ℕ
  index_of start offset = (start + offset) % 2 ^ 64 % readers

  -- The offsets from `offset` on, `left` of them.
  unfoldable pub scan_readers : ℕ → ℕ → ℕ → Option ℕ
  unfolding index_of
  scan_readers start zero offset = none
  scan_readers start (suc left) offset = elim (try_lock (index_of start offset)) [
    | acquired ↦ some (index_of start offset)
    | poisoned ↦ some (index_of start offset)
    | would_block ↦ scan_readers start left (offset + 1)
  ]

  unfoldable pub lock_reader : ℕ → Acquired
  unfolding scan_readers
  lock_reader start = elim (scan_readers start readers 0) [
    | none ↦ waiting (start % readers)
    | some index ↦ guard index
  ]

  TryLock-cases : (t : TryLock) → (t ≢ would_block) ⊎ (t ≡ would_block)
  TryLock-cases acquired = inl (λ e. ground arith)
  TryLock-cases poisoned = inl (λ e. ground arith)
  TryLock-cases would_block = inr refl

  pub index_of-lt : (start k : ℕ) → 0 < readers → index_of start k < readers
  unfolding index_of
  index_of-lt start k h = mod-lt ((start + k) % 2 ^ 64) h

  scan_readers-some :
      (start left offset index : ℕ)
      → scan_readers start left offset ≡ some index
      → (try_lock index ≢ would_block) × ((k : ℕ) × (index ≡ index_of start k))
  unfolding scan_readers index_of
  scan_readers-some start zero offset index h = ground arith
  scan_readers-some start (suc left) offset index h =
      elim (TryLock-cases (try_lock (index_of start offset))) [
        | inl usable ↦
            let e : index ≡ index_of start offset = ground arith in (rw e usable, (offset, e))
        | inr held ↦ scan_readers-some start left (offset + 1) index (ground arith)
      ]

  scan_readers-none :
      (start left offset k : ℕ)
      → scan_readers start left offset ≡ none
      → offset ≤ k
      → k < offset + left
      → try_lock (index_of start k) ≡ would_block
  unfolding scan_readers index_of
  scan_readers-none start zero offset k h low high = absurd (omega arith)
  scan_readers-none start (suc left) offset k h low high =
      elim (TryLock-cases (try_lock (index_of start offset))) [
        | inl usable ↦ ground arith
        | inr held ↦
            let rest : scan_readers start left (offset + 1) ≡ none = ground arith in
            elim (Bool-cases (leb (offset + 1) k)) [
              | inl later ↦
                  scan_readers-none start left (offset + 1) k rest (leb→le _ _ later) (omega arith)
              | inr here ↦ let e : k ≡ offset = ground arith in rw e held
            ]
      ]

-- Some offset below the number of readers leads to any given reader.
offset_of : ℕ → ℕ → ℕ → ℕ
offset_of readers start index =
    if leb (start % readers) index
    then index - start % readers
    else index + readers - start % readers

offset_of-lt : (readers start index : ℕ) → index < readers → offset_of readers start index < readers
unfolding offset_of
offset_of-lt readers start index h = ground (arith, mod-lt start {m = readers} (omega arith))

sum_offset :
    (readers start index : ℕ)
    → index < readers
    → (q : ℕ) × (start + offset_of readers start index ≡ q * readers + index)
unfolding offset_of
sum_offset readers start index h =
    let split = div-add-mod' start readers in
    let small = mod-lt start {m = readers} (omega arith) in
    elim (Bool-cases (leb (start % readers) index)) [
      | inl low ↦ (start / readers, ground (arith, split, small))
      | inr high ↦ (start / readers + 1, ground (arith, split, small))
    ]

module _ (readers : ℕ) (try_lock : ℕ → TryLock) (start : ℕ) (room : start + readers ≤ 2 ^ 64) where
  index_of-offset_of :
      (index : ℕ)
      → index < readers
      → index_of readers try_lock start (offset_of readers start index) ≡ index
  unfolding index_of
  index_of-offset_of index h =
      let small = offset_of-lt readers start index h in
      let (q, e) = sum_offset readers start index h in
      rw (mod-eq_of_lt {n = start + offset_of readers start index} {m = 2 ^ 64} (omega arith), e)
        (mul-add-mod_self_right q readers index ∙ mod-eq_of_lt h)

  -- While the counter has not come within the number of readers of the end of its word, a query
  -- that finds some reader free takes at once a reader of the pool that is free, held by nobody or
  -- poisoned; it waits only when every reader is held.
  pub lock_reader-guard :
      (free : ℕ)
      → free < readers
      → try_lock free ≢ would_block
      → (index : ℕ) × (lock_reader readers try_lock start ≡ guard index)
        × (index < readers)
        × (try_lock index ≢ would_block)
  unfolding lock_reader
  lock_reader-guard free below usable =
      elim (Option-cases (scan_readers readers try_lock start readers 0)) [
        | inl nothing ↦ absurd (
            usable (
              ap try_lock (sym (index_of-offset_of free below))
              ∙ scan_readers-none readers try_lock start readers 0 (offset_of readers start free)
                  nothing (omega arith) (omega (arith, offset_of-lt readers start free below))))
        | inr (index, found) ↦
            let (taken, (k, e)) = scan_readers-some readers try_lock start readers 0 index found in
            (
              index,
              rw (found, lock_reader) refl,
              rw e (index_of-lt readers try_lock start k (omega arith)),
              taken,
            )
      ]
