-- ===== src/Proxy/Usage.antt =====
-- src/handlers/proxy/guard.rs: the token usage that a response reports.
-- `serde_json::from_slice` is the parameter `from_slice`.
use ait.Base.{Bool, ◌||◌, Option, none, some, Text, codes, and_then, or_else, is_some_and}
use ait.Base.Int.{ℤ, ◌+ℤ◌, wrap_i64, is_positive}
use ait.Json.{Value, get, as_i64}

pub record UsageTokens : Type 0 where
  pub prompt_tokens : Option ℤ
  pub completion_tokens : Option ℤ
  pub total_tokens : Option ℤ
  pub cached_tokens : Option ℤ

abbrev pub no_usage : UsageTokens
no_usage = record {
  prompt_tokens = none;
  completion_tokens = none;
  total_tokens = none;
  cached_tokens = none;
}

-- `usage.and_then(|u| u.get(key).and_then(|v| v.as_i64()))`
abbrev pub count_at : Option Value → Text → Option ℤ
count_at usage key = and_then usage (λ u. and_then (get u key) as_i64)

unfoldable pub usage_of : Value → Option Value
usage_of val =
    or_else (get val (codes "usage"))
      (and_then (get val (codes "response")) (λ r. get r (codes "usage")))

unfoldable pub prompt_of : Option Value → Option ℤ
prompt_of usage =
    or_else (count_at usage (codes "prompt_tokens")) (count_at usage (codes "input_tokens"))

unfoldable pub completion_of : Option Value → Option ℤ
completion_of usage =
    or_else (count_at usage (codes "completion_tokens")) (count_at usage (codes "output_tokens"))

-- An `i64` sum, as it wraps in a release build.
unfoldable pub sum_of : Option ℤ → Option ℤ → Option ℤ
sum_of (some prompt) (some completion) = some (wrap_i64 (prompt +ℤ completion))
sum_of (some prompt) none = none
sum_of none completion = none

unfoldable pub total_of : Option Value → Option ℤ
unfolding prompt_of completion_of sum_of
total_of usage =
    or_else (count_at usage (codes "total_tokens")) (sum_of (prompt_of usage) (completion_of usage))

unfoldable pub cached_of : Option Value → Option ℤ
cached_of usage =
    or_else
      (count_at
        (and_then usage (λ u.
          or_else (get u (codes "prompt_tokens_details"))
            (get u (codes "completion_tokens_details"))))
        (codes "cached_tokens"))
      (or_else
        (count_at (and_then usage (λ u. get u (codes "input_tokens_details")))
          (codes "cached_tokens"))
        (count_at usage (codes "cached_tokens")))

module _ (from_slice : Text → Option Value) where
  unfoldable pub parse_usage : Text → UsageTokens
  unfolding usage_of total_of cached_of
  parse_usage body = elim (from_slice body) [
    | none ↦ no_usage
    | some val ↦ record {
      prompt_tokens = prompt_of (usage_of val);
      completion_tokens = completion_of (usage_of val);
      total_tokens = total_of (usage_of val);
      cached_tokens = cached_of (usage_of val);
    }
  ]

-- The test of `try_extract_usage_from`.
unfoldable pub has_usage : UsageTokens → Bool
has_usage tokens =
    is_some_and tokens.prompt_tokens is_positive
    || is_some_and tokens.completion_tokens is_positive
    || is_some_and tokens.total_tokens is_positive
