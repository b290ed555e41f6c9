-- ===== src/Middleware/Race/Invariant.antt =====
-- src/middleware.rs: when the key cache agrees with the database, and the timing that keeps it so.
use ait.Base.{ℕ, ◌≤◌, ◌≡◌, ◌≢◌, Bool, true, Option, some, Text, ◌⊎◌}
use ait.Base.Table.{get}
use ait.Cache.{Instant}
use ait.Db.{ApiKeyInfo}
use ait.Middleware.Race.{
  reading, read, checked, ChangeStage, committed, evicted, World, Step, check, commit,
}

-- A change of this key is between its commit and the revision bump.
pub data InFlight (changes : ℕ → ChangeStage) (hash : Text) : Type 0 where
  at_committed :
      (j : ℕ) (is_update : Bool) → changes j ≡ committed hash is_update → InFlight changes hash
  at_evicted : (j : ℕ) → changes j ≡ evicted hash → InFlight changes hash

-- A change of this key has yet to reach the cache.
pub data Unevicted (changes : ℕ → ChangeStage) (hash : Text) : Type 0 where
  unevicted :
      (j : ℕ) (is_update : Bool) → changes j ≡ committed hash is_update → Unevicted changes hash

pub record IsCoherent (w : World) : Type 0 where
  pub started :
      (i : ℕ) (hash : Text) (r : ℕ) → w.lookups i ≡ reading hash r → r ≤ w.auth.key_revision
  pub bounded :
      (i : ℕ) (hash : Text) (r : ℕ) (row : Option ApiKeyInfo)
      → w.lookups i ≡ read hash r row
      → r ≤ w.auth.key_revision
  pub fresh :
      (i : ℕ) (hash : Text) (r : ℕ) (row : Option ApiKeyInfo)
      → w.lookups i ≡ read hash r row
      → r ≡ w.auth.key_revision
      → (row ≡ w.rows hash) ⊎ InFlight w.changes hash
  pub confirmed :
      (i : ℕ) (hash : Text) (row : Option ApiKeyInfo)
      → w.lookups i ≡ checked hash row true
      → row ≡ w.rows hash
  pub cached :
      (hash : Text) (info : ApiKeyInfo) (t : Instant)
      → get w.auth.api_key_cache hash ≡ some (info, t)
      → (w.rows hash ≡ some info) ⊎ Unevicted w.changes hash

-- The timing under which the revision protects the cache: no lookup compares the revision while a
-- change of its key is between commit and bump, and no change of a key commits between a lookup's
-- successful comparison and its cache write.
abbrev pub IsQuiet : {w w' : World} → Step w w' → Type 0
IsQuiet {w} (check i hash r row e) = ¬ (InFlight w.changes hash)
IsQuiet {w} (commit j hash row u e) =
    (i : ℕ) (row' : Option ApiKeyInfo) → w.lookups i ≢ checked hash row' true
IsQuiet _ = Unit
