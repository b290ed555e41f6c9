-- ===== src/Middleware/Race.antt =====
-- src/middleware.rs and src/handlers/apikeys.rs: lookups and key changes as interleaved steps.
-- A step is one access to shared state: any number of lookups and of deletions or updates are in
-- flight, each known by a number. `rows` is the table of keys in the database, by hash.
pub mod Invariant
pub mod Lookups
pub mod Changes
pub mod Coherence
pub mod Revoked
use ait.Base.{ℕ, ◌≡◌, Bool, true, false, Option, none, some, Text, ◌==◌, text_eq, if◌then◌else◌}
use ait.Base.Table.{Table, get, retain}
use ait.Cache.{Instant}
use ait.Db.{DateTime, ApiKeyInfo}
use ait.Middleware.Auth.{
  AuthState, look_up, try_cache, still_current, store, evict_deleted, evict_updated, bump_revision,
}

-- How far a lookup of `auth_middleware` has come.
pub data LookupStage : Type 0 where
  idle : LookupStage
  reading : Text → ℕ → LookupStage
  read : Text → ℕ → Option ApiKeyInfo → LookupStage
  checked : Text → Option ApiKeyInfo → Bool → LookupStage

-- How far `delete_api_key` or `update_api_key` has come.
pub data ChangeStage : Type 0 where
  resting : ChangeStage
  committed : Text → Bool → ChangeStage
  evicted : Text → ChangeStage

pub record World : Type 0 where
  pub auth : AuthState
  pub rows : Text → Option ApiKeyInfo
  pub lookups : ℕ → LookupStage
  pub changes : ℕ → ChangeStage

abbrev pub update {ℓ} : {A : Type ℓ} → (ℕ → A) → ℕ → A → ℕ → A
update f i a j = if i == j then a else f j

abbrev pub set_row :
    (Text → Option ApiKeyInfo) → Text → Option ApiKeyInfo → Text → Option ApiKeyInfo
set_row rows hash row k = if text_eq hash k then row else rows k

-- `is_update` tells the two handlers apart.
unfoldable pub evict : Bool → AuthState → Text → AuthState
evict true s hash = evict_updated s hash
evict false s hash = evict_deleted s hash

pub data Step (w : World) : World → Type 0 where
  start :
      (i : ℕ) (hash : Text)
      → w.lookups i ≡ idle
      → Step w (record w { lookups = update w.lookups i (reading hash w.auth.key_revision) })
  query :
      (i : ℕ) (hash : Text) (r : ℕ)
      → w.lookups i ≡ reading hash r
      → Step w (record w { lookups = update w.lookups i (read hash r (w.rows hash)) })
  check :
      (i : ℕ) (hash : Text) (r : ℕ) (row : Option ApiKeyInfo)
      → w.lookups i ≡ read hash r row
      → Step w
          (record w { lookups = update w.lookups i (checked hash row (still_current w.auth r)) })
  write :
      (i : ℕ) (hash : Text) (row : Option ApiKeyInfo) (current : Bool) (max_entries : ℕ)
      (now : Instant)
      → w.lookups i ≡ checked hash row current
      → Step w (record w {
        auth = store max_entries w.auth now hash current row;
        lookups = update w.lookups i idle;
      })
  hit :
      (request_id : Option Text) (utc_now : DateTime) (now : Instant) (hash : Text)
      → Step w (record w { auth = (try_cache request_id utc_now w.auth now hash).1 })
  commit :
      (j : ℕ) (hash : Text) (row : Option ApiKeyInfo) (is_update : Bool)
      → w.changes j ≡ resting
      → Step w (record w {
        rows = set_row w.rows hash row;
        changes = update w.changes j (committed hash is_update);
      })
  evict_cached :
      (j : ℕ) (hash : Text) (is_update : Bool)
      → w.changes j ≡ committed hash is_update
      → Step w (record w {
        auth = evict is_update w.auth hash;
        changes = update w.changes j (evicted hash);
      })
  bump :
      (j : ℕ) (hash : Text)
      → w.changes j ≡ evicted hash
      → Step w (record w { auth = bump_revision w.auth; changes = update w.changes j resting })

pub data Reach (w : World) : World → Type 0 where
  here : Reach w w
  next : {u v : World} → Reach w u → Step u v → Reach w v
