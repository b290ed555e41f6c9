-- ===== src/Config/Startup.antt =====
-- src/config.rs: the checks of `ConfigApp::new` after the file and the environment are read.
use ait.Base.{
  ℕ, Bool, true, false, not, ◌&&◌, Option, none, some, List, [], ◌∷◌, ◌++◌, Text, codes, any,
  text_eq, is_some, Result, ok, err, leb, ltb, ◌==◌, if◌then◌else◌,
}

-- The settings that the checks read.
pub record ConfigApp : Type 0 where
  pub retention_every : ℕ
  pub prompt_token_divisor : ℕ
  pub cache_cleanup_interval_secs : ℕ
  pub flush_interval_secs : ℕ
  pub timeout_secs : ℕ
  pub sse_idle_timeout_secs : ℕ
  pub connect_timeout_secs : ℕ
  pub channel_cap : ℕ
  pub reader_pool_size : ℕ
  pub analytics_workers : ℕ
  pub basic_auth_user : Option Text
  pub basic_auth_password : Option Text
  pub duckdb_memory_limit_mb : ℕ
  pub duckdb_threads : ℕ
  pub retention_days : ℕ
  pub analytics_timeout_secs : ℕ
  pub cors_allow_credentials : Bool
  pub cors_allowed_origins : List Text

abbrev pub max_retention_days : ℕ
max_retention_days = 36_500

abbrev pub outside : ℕ → ℕ → ℕ → Bool
outside low high n = not (leb low n && leb n high)

-- `require_positive_secs` as a test with its message.
abbrev pub require_positive_secs : ℕ → Text → Bool × Text
require_positive_secs secs key = (secs == 0, key ++ codes " must be >= 1")

abbrev pub differ : Bool → Bool → Bool
differ true b = not b
differ false b = b

abbrev pub is_wildcard : ConfigApp → Bool
is_wildcard app = any (λ o. text_eq o (codes "*")) app.cors_allowed_origins

-- The checks in order: whether each fails, and what it then says.
abbrev pub checks : ConfigApp → List (Bool × Text)
checks app =
    (app.retention_every == 0, codes "log.retention_every must be >= 1 (0 crashes the log worker)")
    ∷ (
      outside 1 5 app.prompt_token_divisor,
      codes "proxy.prompt_token_divisor must be between 1 and 5",
    )
    ∷ require_positive_secs app.cache_cleanup_interval_secs
        (codes "server.cache_cleanup_interval_secs")
    ∷ require_positive_secs app.flush_interval_secs (codes "log.flush_interval_secs")
    ∷ require_positive_secs app.timeout_secs (codes "proxy.timeout_secs")
    ∷ require_positive_secs app.sse_idle_timeout_secs (codes "proxy.sse_idle_timeout_secs")
    ∷ require_positive_secs app.connect_timeout_secs (codes "proxy.connect_timeout_secs")
    ∷ (app.channel_cap == 0, codes "log.channel_cap must be >= 1")
    ∷ (
      outside 1 32 app.reader_pool_size,
      codes "database.reader_pool_size must be between 1 and 32",
    )
    ∷ (outside 1 8 app.analytics_workers, codes "log.analytics_workers must be between 1 and 8")
    ∷ (
      differ (is_some app.basic_auth_user) (is_some app.basic_auth_password),
      codes
          "log.loki.basic_auth_user and log.loki.basic_auth_password must be set together (or neither)",
    )
    ∷ (app.duckdb_memory_limit_mb == 0, codes "log.duckdb_memory_limit_mb must be >= 1")
    ∷ require_positive_secs app.duckdb_threads (codes "log.duckdb_threads")
    ∷ (ltb max_retention_days app.retention_days, codes "log.retention_days must be <= 36500")
    ∷ (app.analytics_timeout_secs == 0, codes "log.analytics_timeout_secs must be >= 1")
    ∷ (
      app.cors_allow_credentials && is_wildcard app,
      codes
          "security.cors_allowed_origins = [\"*\"] cannot be combined with security.cors_allow_credentials = true: it reflects any Origin while allowing credentials. List explicit origins instead.",
    )
    ∷ []

abbrev pub first_failure : List (Bool × Text) → Option Text
first_failure [] = none
first_failure ((fails, msg) ∷ rest) = if fails then some msg else first_failure rest

abbrev pub outcome : ConfigApp → Option Text → Result ConfigApp Text
outcome app none = ok app
outcome app (some msg) = err msg

unfoldable pub validate : ConfigApp → Result ConfigApp Text
validate app = outcome app (first_failure (checks app))
