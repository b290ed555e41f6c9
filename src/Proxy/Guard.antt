-- ===== src/Proxy/Guard.antt =====
-- src/handlers/proxy/guard.rs: `ProxyLogGuard`, which logs a request whatever becomes of it.
-- The log manager is the list of the events sent to it.
pub mod Once
use ait.Base.{
  Bool, true, false, Option, none, List, [], ◌∷◌, ◌++◌, Text, codes, or_else, if◌then◌else◌,
}
use ait.Cache.{Instant, elapsed}
use ait.Db.{ProxyEvent}
use ait.Proxy.Usage.{UsageTokens}
use ait.Proxy.Sse.Stream.{as_millis}

pub record ProxyLogGuard : Type 0 where
  pub event : ProxyEvent
  pub start : Instant
  pub finalized : Bool
  pub log : List ProxyEvent

unfoldable pub new : List ProxyEvent → ProxyEvent → Instant → ProxyLogGuard
new log event start = record { event = event; start = start; finalized = false; log = log }

-- The event of a finished request: the reported usage, and the seeded prompt count where none is
-- reported.
abbrev pub finished_event : Instant → UsageTokens → Text → ProxyLogGuard → ProxyEvent
finished_event now usage status g = record g.event {
  prompt_tokens = or_else usage.prompt_tokens g.event.prompt_tokens;
  completion_tokens = usage.completion_tokens;
  total_tokens = usage.total_tokens;
  cached_tokens = usage.cached_tokens;
  latency_ms = as_millis (elapsed now g.start);
  status = status;
}

unfoldable pub finalize : Instant → UsageTokens → Text → ProxyLogGuard → ProxyLogGuard
finalize now usage status g = record g {
  event = finished_event now usage status g;
  log = g.log ++ (finished_event now usage status g ∷ []);
  finalized = true;
}

unfoldable pub suppress_drop_log : ProxyLogGuard → ProxyLogGuard
suppress_drop_log g = record g { finalized = true }

abbrev pub cancelled_event : Instant → ProxyLogGuard → ProxyEvent
cancelled_event now g = record g.event {
  latency_ms = as_millis (elapsed now g.start);
  status = codes "499";
}

-- `drop`.
unfoldable pub drop_guard : Instant → ProxyLogGuard → ProxyLogGuard
drop_guard now g =
    if g.finalized
    then g
    else record g { event = cancelled_event now g; log = g.log ++ (cancelled_event now g ∷ []) }

abbrev pub with_message : Text → ProxyLogGuard → ProxyLogGuard
with_message msg g = record g { event = record g.event { error_message = Option.some msg } }
