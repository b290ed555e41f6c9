-- ===== src/Config/Accepted.antt =====
-- src/config.rs: which settings the startup checks accept.
use ait.Base.{
  ◌≤◌, ◌≢◌, ◌≡◌, ◌↔◌, refl, sym, ap, Bool, true, false, ◌&&◌, Option, none, some, List, [], ◌∷◌,
  Text, is_some, ok, All, arith,
}
use ait.Config.Startup.{ConfigApp, outcome, checks, first_failure, validate, is_wildcard, differ}

-- The bounds that the startup checks name: no zero where zero would crash or spin, sizes within their
-- bounds, credentials whole, and no credentials for arbitrary origins. `flush_batch` is not among the
-- settings that they look at.
pub record IsStartable (app : ConfigApp) : Type 0 where
  pub retention_every : app.retention_every ≢ 0
  pub divisor : (1 ≤ app.prompt_token_divisor) × (app.prompt_token_divisor ≤ 5)
  pub cleanup : app.cache_cleanup_interval_secs ≢ 0
  pub flush : app.flush_interval_secs ≢ 0
  pub timeout : app.timeout_secs ≢ 0
  pub idle : app.sse_idle_timeout_secs ≢ 0
  pub connect : app.connect_timeout_secs ≢ 0
  pub channel : app.channel_cap ≢ 0
  pub pool : (1 ≤ app.reader_pool_size) × (app.reader_pool_size ≤ 32)
  pub workers : (1 ≤ app.analytics_workers) × (app.analytics_workers ≤ 8)
  pub credentials : is_some app.basic_auth_user ≡ is_some app.basic_auth_password
  pub memory : app.duckdb_memory_limit_mb ≢ 0
  pub threads : app.duckdb_threads ≢ 0
  pub retention : app.retention_days ≤ 36_500
  pub analytics : app.analytics_timeout_secs ≢ 0
  pub origins : (app.cors_allow_credentials && is_wildcard app) ≡ false

abbrev Passes : Bool × Text → Type 0
Passes check = check.0 ≡ false

none_fails : (l : List (Bool × Text)) → first_failure l ≡ none → All Passes l
none_fails [] h = tt
none_fails ((true, msg) ∷ l) h = absurd (ground arith)
none_fails ((false, msg) ∷ l) h = (refl, none_fails l h)

no_failure : (l : List (Bool × Text)) → All Passes l → first_failure l ≡ none
no_failure [] h = refl
no_failure ((fails, msg) ∷ l) (h, hs) = rw h (no_failure l hs)

differ-same : (a b : Bool) → differ a b ≡ false → a ≡ b
differ-same true true h = refl
differ-same true false h = absurd (ground arith)
differ-same false b h = sym h

differ_refl : (a b : Bool) → a ≡ b → differ a b ≡ false
differ_refl true b h = rw⁻¹ h refl
differ_refl false b h = sym h

passed-IsStartable : (app : ConfigApp) → All Passes (checks app) → IsStartable app
passed-IsStartable app
      (a, (b, (c, (d, (e, (f, (g, (h, (i, (j, (k, (l, (m, (n, (o, (p, _)))))))))))))))) =
    record {
      retention_every = ground arith;
      divisor = ground arith;
      cleanup = ground arith;
      flush = ground arith;
      timeout = ground arith;
      idle = ground arith;
      connect = ground arith;
      channel = ground arith;
      pool = ground arith;
      workers = ground arith;
      credentials = differ-same (is_some app.basic_auth_user) (is_some app.basic_auth_password) k;
      memory = ground arith;
      threads = ground arith;
      retention = ground arith;
      analytics = ground arith;
      origins = p;
    }

checks-All : (app : ConfigApp) → IsStartable app → All Passes (checks app)
checks-All app s = (
  ground (arith, s.retention_every),
  (
    ground (arith, s.divisor),
    (
      ground (arith, s.cleanup),
      (
        ground (arith, s.flush),
        (
          ground (arith, s.timeout),
          (
            ground (arith, s.idle),
            (
              ground (arith, s.connect),
              (
                ground (arith, s.channel),
                (
                  ground (arith, s.pool),
                  (
                    ground (arith, s.workers),
                    (
                      differ_refl (is_some app.basic_auth_user) (is_some app.basic_auth_password)
                          s.credentials,
                      (
                        ground (arith, s.memory),
                        (
                          ground (arith, s.threads),
                          (
                            ground (arith, s.retention),
                            (ground (arith, s.analytics), (s.origins, tt)),
                          ),
                        ),
                      ),
                    ),
                  ),
                ),
              ),
            ),
          ),
        ),
      ),
    ),
  ),
)

outcome_iff :
    (app accepted : ConfigApp) (failure : Option Text)
    → (outcome app failure ≡ ok accepted) ↔ ((failure ≡ none) × (accepted ≡ app))
outcome_iff app accepted none = (λ h. (refl, ground arith), λ (_, same). ap ok (sym same))
outcome_iff app accepted (some msg) = (λ h. absurd (ground arith), λ (h, _). absurd (ground arith))

-- The checks accept exactly the settings within these bounds, and leave them as they are.
validate_iff :
    (app accepted : ConfigApp) → (validate app ≡ ok accepted) ↔ (IsStartable app × (accepted ≡ app))
unfolding validate
validate_iff app accepted =
    let (to, from) = outcome_iff app accepted (first_failure (checks app)) in
    (
      λ h.
          let (passed, same) = to h in
          (passed-IsStartable app (none_fails (checks app) passed), same),
      λ (s, same). from (no_failure (checks app) (checks-All app s), same),
    )
