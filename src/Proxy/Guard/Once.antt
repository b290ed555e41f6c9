-- ===== src/Proxy/Guard/Once.antt =====
-- src/handlers/proxy/guard.rs: what is in the log when a guard is gone.
use ait.Base.{◌≡◌, refl, sym, List, [], ◌∷◌, ◌++◌, Text}
use mathlib.Core.List.{append-nil}
use ait.Cache.{Instant}
use ait.Db.{ProxyEvent}
use ait.Proxy.Usage.{UsageTokens}
use ait.Proxy.Guard.{
  ProxyLogGuard, new, finalize, suppress_drop_log, drop_guard, finished_event, cancelled_event,
}

-- How a handler leaves its guard: finished, handed over to the stream, or abandoned at an early
-- return or a cancellation.
pub data Leaving : Type 0 where
  finished : Instant → UsageTokens → Text → Leaving
  handed_over abandoned : Leaving

unfoldable pub leave : Leaving → ProxyLogGuard → ProxyLogGuard
leave (finished now usage status) g = finalize now usage status g
leave handed_over g = suppress_drop_log g
leave abandoned g = g

-- The events that each way has to write.
abbrev pub due : Leaving → Instant → ProxyLogGuard → List ProxyEvent
due (finished now usage status) at g = finished_event now usage status g ∷ []
due handed_over at g = []
due abandoned at g = cancelled_event at g ∷ []

-- A guard that is made, left in one of the three ways and dropped has added to the log just the
-- event that is due: the finished one, none after a hand-over, and one with status 499 when it is
-- abandoned.
pub drop_guard-due :
    (how : Leaving) (log : List ProxyEvent) (event : ProxyEvent) (start at : Instant)
    → (drop_guard at (leave how (new log event start))).log
      ≡ log ++ due how at (new log event start)
unfolding drop_guard leave new finalize suppress_drop_log
drop_guard-due (finished now usage status) log event start at = refl
drop_guard-due handed_over log event start at = sym (append-nil log)
drop_guard-due abandoned log event start at = refl
