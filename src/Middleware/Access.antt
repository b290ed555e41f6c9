-- ===== src/Middleware/Access.antt =====
-- src/middleware.rs: who is let in.
use ait.Base.{
  ◌<◌, ◌≡◌, ap, true, false, Option, none, some, Text, codes, ok, arith, ◌++◌, strip_prefix,
  strip_prefix_iff, is_some_and, Option-cases, inl, inr, ◌↔◌,
}
use ait.Base.Int.{leb_ℤ}
use ait.Base.Table.{get}
use ait.Cache.{Instant, elapsed, cache_ttl}
use ait.Db.{DateTime, ApiKeyInfo}
use ait.Middleware.Auth.{
  AuthState, ApiKeyContext, extract_bearer_token, verify_key, answered, try_cache, begin,
}

-- A key is good at an instant: it is enabled, and it does not expire by then.
pub record IsGood (utc_now : DateTime) (info : ApiKeyInfo) : Type 0 where
  pub enabled : info.enabled ≡ true
  pub unexpired : is_some_and info.expires_at (λ exp. leb_ℤ exp utc_now) ≡ false

-- The check of a key lets exactly the good keys through, with their name.
pub verify_key_iff :
    (request_id : Option Text) (utc_now : DateTime) (info : ApiKeyInfo) (ctx : ApiKeyContext)
    → (verify_key request_id utc_now info ≡ ok ctx) ↔ (IsGood utc_now info × (ctx ≡ some info.name))
unfolding verify_key
verify_key_iff request_id utc_now info ctx = ground arith

try_cache-IsGood :
    (request_id : Option Text) (utc_now : DateTime) (s : AuthState) (now : Instant) (hash : Text)
    (ctx : ApiKeyContext)
    → (try_cache request_id utc_now s now hash).0 ≡ answered (ok ctx)
    → (info : ApiKeyInfo) × (t : Instant) × (get s.api_key_cache hash ≡ some (info, t))
      × (elapsed now t < cache_ttl)
      × IsGood utc_now info
      × (ctx ≡ some info.name)
unfolding try_cache
try_cache-IsGood request_id utc_now s now hash ctx h =
    elim (Option-cases (get s.api_key_cache hash)) [
      | inl missing ↦ absurd (ground arith)
      | inr ((info, t), hit) ↦
          let verified : verify_key request_id utc_now info ≡ ok ctx = ground arith in
          let (good, name) = (verify_key_iff request_id utc_now info ctx).0 verified in
          (info, t, hit, ground arith, good, name)
    ]

module _ (hash_key : Text → Text) where
  -- With authentication on, a request is answered without the database and let in only for a bearer
  -- token whose hash has a fresh entry in the cache, for a key that is good now.
  pub begin-IsGood :
      (request_id : Option Text) (utc_now : DateTime) (s : AuthState) (now : Instant)
      (authorization : Option Text) (ctx : ApiKeyContext)
      → (begin hash_key true request_id utc_now s now authorization).0 ≡ answered (ok ctx)
      → (token : Text) × (info : ApiKeyInfo) × (t : Instant) × (authorization
          ≡ some (codes "Bearer " ++ token))
        × (get s.api_key_cache (hash_key token) ≡ some (info, t))
        × (elapsed now t < cache_ttl)
        × IsGood utc_now info
        × (ctx ≡ some info.name)
  unfolding begin extract_bearer_token
  begin-IsGood request_id utc_now s now none ctx h = cc
  begin-IsGood request_id utc_now s now (some value) ctx h =
      elim (Option-cases (strip_prefix (codes "Bearer ") value)) [
        | inl other ↦ absurd (ground arith)
        | inr (token, bearer) ↦
            let tried : (try_cache request_id utc_now s now (hash_key token)).0
                ≡ answered (ok ctx) =
              ground arith in
            let (info, t, hit, fresh, good, name) =
              try_cache-IsGood request_id utc_now s now (hash_key token) ctx tried in
            let header : value ≡ codes "Bearer " ++ token =
              (strip_prefix_iff _ value token).0 bearer in
            (token, info, t, ap some header, hit, fresh, good, name)
      ]
