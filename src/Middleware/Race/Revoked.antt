-- ===== src/Middleware/Race/Revoked.antt =====
-- src/handlers/apikeys.rs: the handlers evict a key from the cache before they move the revision, so
-- a lookup that compares the revision between the two caches the row that was just changed.
use ait.Base.{ℕ, ◌<◌, ◌≡◌, refl, ap, ◌∙◌, false, Option, none, some, Text, text_eq_refl, arith, ok}
use ait.Base.Table.{get, get-insert}
use ait.Cache.{Instant, elapsed, cache_ttl}
use ait.Db.{DateTime, ApiKeyInfo}
use ait.Middleware.Auth.{
  AuthState, ApiKeyContext, answered, verify_key, try_cache, still_current, store, evict_deleted,
  bump_revision,
}
use ait.Middleware.Race.{
  idle, reading, read, checked, resting, committed, evicted, World, update, set_row, evict, start,
  query, check, write, commit, evict_cached, bump, Reach, here, next,
}

try_cache-hit :
    (request_id : Option Text) (utc_now : DateTime) (s : AuthState) (now : Instant) (hash : Text)
    (info : ApiKeyInfo) (t : Instant)
    → get s.api_key_cache hash ≡ some (info, t)
    → elapsed now t < cache_ttl
    → (try_cache request_id utc_now s now hash).0 ≡ answered (verify_key request_id utc_now info)
unfolding try_cache
try_cache-hit request_id utc_now s now hash info t h fresh = ground arith

module _ (w : World) (hash : Text) (info : ApiKeyInfo) (max_entries : ℕ) (now : Instant) where
  -- The worlds of the run: a lookup starts and reads the row, the key is deleted and evicted, the
  -- lookup compares the revision and writes the cache, and the revision moves.
  abbrev w1 : World
  w1 = record w { lookups = update w.lookups 0 (reading hash w.auth.key_revision) }

  abbrev w2 : World
  w2 = record w1 { lookups = update w1.lookups 0 (read hash w.auth.key_revision (w.rows hash)) }

  abbrev w3 : World
  w3 = record w2 {
    rows = set_row w.rows hash none;
    changes = update w.changes 0 (committed hash false);
  }

  abbrev w4 : World
  w4 = record w3 { auth = evict false w.auth hash; changes = update w3.changes 0 (evicted hash) }

  abbrev w5 : World
  w5 = record w4 {
    lookups =
        update w4.lookups 0
          (checked hash (w.rows hash) (still_current w4.auth w.auth.key_revision));
  }

  abbrev w6 : World
  w6 = record w5 {
    auth =
        store max_entries w4.auth now hash (still_current w4.auth w.auth.key_revision)
          (w.rows hash);
    lookups = update w5.lookups 0 idle;
  }

  abbrev w7 : World
  w7 = record w6 { auth = bump_revision w6.auth; changes = update w6.changes 0 resting }

  run : w.lookups 0 ≡ idle → w.changes 0 ≡ resting → Reach w w7
  run hl hc =
      next
        (next
          (next
            (next
              (next (next (next here (start 0 hash hl)) (query 0 hash w.auth.key_revision refl))
                (commit 0 hash none false hc))
              (evict_cached 0 hash false refl))
            (check 0 hash w.auth.key_revision (w.rows hash) refl))
          (write 0 hash (w.rows hash) (still_current w4.auth w.auth.key_revision) max_entries now
            refl))
        (bump 0 hash refl)

  cached_after : w.rows hash ≡ some info → get w7.auth.api_key_cache hash ≡ some (info, now)
  unfolding still_current store evict evict_deleted bump_revision
  cached_after h = ground (
    arith,
    get-insert (evict_deleted w.auth hash).api_key_cache hash hash (info, now),
    text_eq_refl hash,
  )

-- A key that a deletion has removed from the database, with that deletion complete and the lookup
-- done, can be in the cache all the same, and is accepted from there for `CACHE_TTL`: this is
-- reachable from every world in which the key is stored and good, and the two are yet to start.
pub revoked_key_accepted :
    (w : World) (hash : Text) (info : ApiKeyInfo) (max_entries : ℕ) (now now' : Instant)
    (request_id : Option Text) (utc_now : DateTime) (ctx : ApiKeyContext)
    → w.lookups 0 ≡ idle
    → w.changes 0 ≡ resting
    → w.rows hash ≡ some info
    → verify_key request_id utc_now info ≡ ok ctx
    → elapsed now' now < cache_ttl
    → (w' : World) × Reach w w'
      × (w'.rows hash ≡ none)
      × (w'.lookups 0 ≡ idle)
      × (w'.changes 0 ≡ resting)
      × ((try_cache request_id utc_now w'.auth now' hash).0 ≡ answered (ok ctx))
revoked_key_accepted w hash info max_entries now now' request_id utc_now ctx hl hc row good fresh =
    (
      w7 w hash info max_entries now,
      run w hash info max_entries now hl hc,
      ground (arith, text_eq_refl hash),
      refl,
      refl,
      try_cache-hit request_id utc_now (w7 w hash info max_entries now).auth now' hash info now
            (cached_after w hash info max_entries now row) fresh
          ∙ ap answered good,
    )
