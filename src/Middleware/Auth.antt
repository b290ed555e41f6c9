-- ===== src/Middleware/Auth.antt =====
-- src/middleware.rs and src/handlers/apikeys.rs: authentication by API key, cut at the points where
-- other tasks may run: before the database call, and between the database's answer and the cache
-- write. SHA-256 (`hash_key`) is a parameter. The semaphore that queues lookups is not modelled.
use ait.Base.{
  ℕ, ◌+◌, Bool, not, ◌&&◌, Option, none, some, Text, codes, Result, ok, err, ltb, length,
  strip_prefix, ◌==◌, is_some_and, and_then, if◌then◌else◌,
}
use ait.Base.Int.{leb_ℤ}
use ait.Base.Table.{Table, get, insert, remove}
use ait.Cache.{Instant, elapsed, cache_ttl, negative_cache_ttl}
use ait.Db.{DateTime, ApiKeyInfo}
use ait.Error
use ait.Error.{unauthorized}

pub record AuthState : Type 0 where
  pub api_key_cache : Table (ApiKeyInfo × Instant)
  pub negative_key_cache : Table Instant
  pub key_revision : ℕ

-- The identity that handlers record; no name when authentication is off.
abbrev pub ApiKeyContext : Type 0
ApiKeyContext = Option Text

abbrev pub invalid : Option Text → Error.Response
invalid request_id = unauthorized request_id (codes "Unauthorized: invalid or missing API key")

unfoldable pub extract_bearer_token : Option Text → Option Text
extract_bearer_token authorization = and_then authorization (strip_prefix (codes "Bearer "))

unfoldable pub verify_key :
    Option Text → DateTime → ApiKeyInfo → Result ApiKeyContext Error.Response
verify_key request_id utc_now key_info =
    if not key_info.enabled
    then err (invalid request_id)
    else if is_some_and key_info.expires_at (λ exp. leb_ℤ exp utc_now)
    then err (invalid request_id)
    else ok (some key_info.name)

-- Where the first part of the middleware ends: with an answer, or with a lookup of a hash, started
-- at a revision.
pub data Begun : Type 0 where
  answered : Result ApiKeyContext Error.Response → Begun
  look_up : Text → ℕ → Begun

unfoldable pub known_invalid : AuthState → Instant → Text → Bool
known_invalid s now hash =
    is_some_and (get s.negative_key_cache hash) (λ seen. ltb (elapsed now seen) negative_cache_ttl)

-- The cache part: a fresh entry slides and is verified; else a lookup starts.
unfoldable pub try_cache : Option Text → DateTime → AuthState → Instant → Text → Begun × AuthState
try_cache request_id utc_now s now hash = elim (get s.api_key_cache hash) [
  | none ↦ (look_up hash s.key_revision, s)
  | some (info, t) ↦
      if ltb (elapsed now t) cache_ttl
      then (
        answered (verify_key request_id utc_now info),
        record s { api_key_cache = insert s.api_key_cache hash (info, now) },
      )
      else (look_up hash s.key_revision, s)
]

module _ (hash_key : Text → Text) where
  unfoldable pub begin :
      Bool → Option Text → DateTime → AuthState → Instant → Option Text → Begun × AuthState
  begin auth_enabled request_id utc_now s now authorization =
      if not auth_enabled
      then (answered (ok none), s)
      else elim (extract_bearer_token authorization) [
        | none ↦ (answered (err (invalid request_id)), s)
        | some token ↦
            if known_invalid s now (hash_key token)
            then (answered (err (invalid request_id)), s)
            else try_cache request_id utc_now s now (hash_key token)
      ]

-- `still_current`: the revision has not moved since before the query.
unfoldable pub still_current : AuthState → ℕ → Bool
still_current s revision = s.key_revision == revision

-- The cache write after the query.
unfoldable pub store : ℕ → AuthState → Instant → Text → Bool → Option ApiKeyInfo → AuthState
store max_entries s now hash current (some info) =
    if current then record s { api_key_cache = insert s.api_key_cache hash (info, now) } else s
store max_entries s now hash current none =
    if current && ltb (length s.negative_key_cache) max_entries
    then record s { negative_key_cache = insert s.negative_key_cache hash now }
    else s

unfoldable pub reply :
    Option Text → DateTime → Option ApiKeyInfo → Result ApiKeyContext Error.Response
reply request_id utc_now (some info) = verify_key request_id utc_now info
reply request_id utc_now none = err (invalid request_id)

-- The writes to the shared state that follow a deletion and an update in the database, in order.
unfoldable pub evict_deleted : AuthState → Text → AuthState
evict_deleted s hash = record s { api_key_cache = remove s.api_key_cache hash }

unfoldable pub evict_updated : AuthState → Text → AuthState
evict_updated s hash = record s {
  api_key_cache = remove s.api_key_cache hash;
  negative_key_cache = remove s.negative_key_cache hash;
}

-- `fetch_add` on an AtomicU64, which comes back to 0 after 2^64 changes of keys; the revision here
-- does not wrap, so what is proved is about runs of fewer changes than that.
unfoldable pub bump_revision : AuthState → AuthState
bump_revision s = record s { key_revision = s.key_revision + 1 }
