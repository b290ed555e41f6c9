-- ===== src/Logger/Channel.antt =====
-- src/db/logger.rs: what the program sends to the worker's bounded channel, and the shutdown signal.
-- Time is in milliseconds.
use ait.Base.{
  ℕ, zero, suc, ◌+◌, Bool, true, false, not, Option, none, some, List, [], ◌∷◌, ◌++◌, length, ltb,
  if◌then◌else◌,
}
use ait.Db.{AccessEvent, ProxyEvent, AuditEvent, LogEvent, access, proxy, audit}

-- `sync_channel(capacity)`, and whether its receiver still exists.
pub record Channel : Type 0 where
  pub queue : List LogEvent
  pub capacity : ℕ
  pub connected : Bool

pub data TrySend : Type 0 where
  sent full gone : TrySend

unfoldable pub try_send : LogEvent → Channel → TrySend × Channel
try_send e ch =
    if not ch.connected
    then (gone, ch)
    else if ltb (length ch.queue) ch.capacity
    then (sent, record ch { queue = ch.queue ++ e ∷ [] })
    else (full, ch)

-- The part of `LogManager` that takes events: the worker's channel, and that of the Loki sink where
-- there is one.
pub record LogManager : Type 0 where
  pub sender : Channel
  pub loki : Option Channel

-- An event that does not fit is dropped.
unfoldable pub log_event : LogEvent → LogManager → LogManager
unfolding try_send
log_event e m = record {
  sender = (try_send e m.sender).1;
  loki = elim m.loki [ none ↦ none | some ch ↦ some (try_send e ch).1 ];
}

unfoldable pub log_access : AccessEvent → LogManager → LogManager
unfolding log_event
log_access e m = log_event (access e) m

unfoldable pub log_proxy : ProxyEvent → LogManager → LogManager
unfolding log_event
log_proxy e m = log_event (proxy e) m

unfoldable pub log_audit : AuditEvent → LogManager → LogManager
unfolding log_event
log_audit e m = log_event (audit e) m

-- `signal_shutdown`: what each `try_send` answers and the clock that is read behind it, by the number
-- of the attempt. `none`: the fuel was too little.
module _ (answer : ℕ → TrySend) (now : ℕ → ℕ) (deadline : ℕ) where
  unfoldable pub signal_from : ℕ → ℕ → Option Bool
  signal_from zero attempt = none
  signal_from (suc fuel) attempt = elim (answer attempt) [
    | sent ↦ some true
    | gone ↦ some false
    | full ↦ elim (ltb (now attempt) deadline) [
      | true ↦ signal_from fuel (attempt + 1)
      | false ↦ some false
    ]
  ]

unfoldable pub signal_shutdown : (ℕ → TrySend) → (ℕ → ℕ) → ℕ → ℕ → Option Bool
unfolding signal_from
signal_shutdown answer now start fuel = signal_from answer now (start + 5000) fuel 0
