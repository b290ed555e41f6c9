-- ===== src/Middleware/Race/Coherence.antt =====
-- src/middleware.rs, src/handlers/apikeys.rs: what the key revision guarantees, and what it does not.
use ait.Base.{◌≡◌, some, Text, inl, inr}
use ait.Base.Table.{get}
use ait.Cache.{Instant}
use ait.Db.{ApiKeyInfo}
use ait.Middleware.Race.{World, Step, start, query, check, write, hit, commit, evict_cached, bump}
use ait.Middleware.Race.Invariant.{Unevicted, IsCoherent, IsQuiet}
use ait.Middleware.Race.Lookups.{
  start-IsCoherent, query-IsCoherent, check-IsCoherent, write-IsCoherent, hit-IsCoherent,
}
use ait.Middleware.Race.Changes.{commit-IsCoherent, evict-IsCoherent, bump-IsCoherent}

-- A quiet step, of a lookup or of a key change, keeps the world coherent.
pub Step-IsCoherent : {w w' : World} (s : Step w w') → IsQuiet s → IsCoherent w → IsCoherent w'
Step-IsCoherent {w} (start i hash e) q c = start-IsCoherent w i hash c
Step-IsCoherent {w} (query i hash r e) q c = query-IsCoherent w i hash r e c
Step-IsCoherent {w} (check i hash r row e) q c = check-IsCoherent w i hash r row e q c
Step-IsCoherent {w} (write i hash row current max_entries now e) q c =
    write-IsCoherent w i hash row current max_entries now e c
Step-IsCoherent {w} (hit request_id utc_now now hash) q c =
    hit-IsCoherent w request_id utc_now now hash c
Step-IsCoherent {w} (commit j hash row is_update e) q c =
    commit-IsCoherent w j hash row is_update e q c
Step-IsCoherent {w} (evict_cached j hash is_update e) q c = evict-IsCoherent w j hash is_update e c
Step-IsCoherent {w} (bump j hash e) q c = bump-IsCoherent w j hash e c

-- A run in which every step is quiet.
pub data QuietRun (w : World) : World → Type 0 where
  stay : QuietRun w w
  then_step : {u v : World} → QuietRun w u → (s : Step u v) → IsQuiet s → QuietRun w v

QuietRun-IsCoherent : {w w' : World} → IsCoherent w → QuietRun w w' → IsCoherent w'
QuietRun-IsCoherent c stay = c
QuietRun-IsCoherent c (then_step run s q) = Step-IsCoherent s q (QuietRun-IsCoherent c run)

-- At the end of a quiet run from a coherent world, a key whose changes have all reached the cache is
-- cached, if at all, with the row that the database holds: a deleted key is not in the cache, and a
-- disabled one is not there as enabled.
pub QuietRun-cached :
    {w w' : World} (hash : Text) (info : ApiKeyInfo) (t : Instant)
    → IsCoherent w
    → QuietRun w w'
    → ¬ (Unevicted w'.changes hash)
    → get w'.auth.api_key_cache hash ≡ some (info, t)
    → w'.rows hash ≡ some info
QuietRun-cached hash info t c run none_pending e =
    elim ((QuietRun-IsCoherent c run).cached hash info t e) [
      | inl agrees ↦ agrees
      | inr pending ↦ absurd (none_pending pending)
    ]
