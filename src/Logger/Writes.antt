-- ===== src/Logger/Writes.antt =====
-- src/db/logger/writes.rs: batches of events into the three log tables, and the retention. What
-- DuckDB answers to each statement is an argument; a transaction that is not committed leaves the
-- tables as they were.
use ait.Base.{
  ℕ, suc, ◌%◌, ltb, Bool, true, false, not, ◌&&◌, ◌||◌, List, [], ◌∷◌, ◌++◌, filter, ◌==◌,
  if◌then◌else◌,
}
use ait.Base.Int.{leb_ℤ}
use ait.Db.{DateTime, AccessEvent, ProxyEvent, AuditEvent, LogEvent, access, proxy, audit, shutdown}

-- The rows of `access_log`, `proxy_log` and `audit_log`: the fields of the events.
pub record Logs : Type 0 where
  pub access_log : List AccessEvent
  pub proxy_log : List ProxyEvent
  pub audit_log : List AuditEvent

-- What DuckDB answers during one flush: `true` where a statement succeeds; and the cut-off of the
-- retention, `Utc::now()` less the retention days.
pub record Answers : Type 0 where
  pub begin : Bool
  pub append_access : Bool
  pub append_proxy : Bool
  pub append_audit : Bool
  pub commit : Bool
  pub clean_access : Bool
  pub clean_proxy : Bool
  pub clean_audit : Bool
  pub cutoff : DateTime

unfoldable pub accesses : List LogEvent → List AccessEvent
accesses [] = []
accesses (access e ∷ events) = e ∷ accesses events
accesses (proxy e ∷ events) = accesses events
accesses (audit e ∷ events) = accesses events
accesses (shutdown ∷ events) = accesses events

unfoldable pub proxies : List LogEvent → List ProxyEvent
proxies [] = []
proxies (access e ∷ events) = proxies events
proxies (proxy e ∷ events) = e ∷ proxies events
proxies (audit e ∷ events) = proxies events
proxies (shutdown ∷ events) = proxies events

unfoldable pub audits : List LogEvent → List AuditEvent
audits [] = []
audits (access e ∷ events) = audits events
audits (proxy e ∷ events) = audits events
audits (audit e ∷ events) = e ∷ audits events
audits (shutdown ∷ events) = audits events

abbrev pub is_empty {ℓ} : {A : Type ℓ} → List A → Bool
is_empty [] = true
is_empty (x ∷ xs) = false

-- `append_accesses(…).and_then(append_proxies).and_then(append_audits)`: an empty batch asks nothing.
unfoldable pub appended : Answers → List LogEvent → Bool
appended answers events =
    (is_empty (accesses events) || answers.append_access)
    && ((is_empty (proxies events) || answers.append_proxy)
        && (is_empty (audits events) || answers.append_audit))

unfoldable pub append_events : List LogEvent → Logs → Logs
append_events events logs = record {
  access_log = logs.access_log ++ accesses events;
  proxy_log = logs.proxy_log ++ proxies events;
  audit_log = logs.audit_log ++ audits events;
}

unfoldable pub flush_events : Answers → List LogEvent → Logs → Bool × Logs
flush_events answers events logs =
    if answers.begin && (appended answers events && answers.commit)
    then (true, append_events events logs)
    else (false, logs)

-- `timestamp < cutoff`.
abbrev pub is_expired : DateTime → DateTime → Bool
is_expired cutoff timestamp = not (leb_ℤ cutoff timestamp)

module _ {R : Type 0} where
  -- `DELETE … WHERE timestamp < ?1` on one table.
  unfoldable pub clean_table : Bool → DateTime → (R → DateTime) → List R → List R
  clean_table answer cutoff timestamp rows =
      if answer then filter (λ r. not (is_expired cutoff (timestamp r))) rows else rows

unfoldable pub cleanup_expired : Answers → Logs → Logs
unfolding clean_table
cleanup_expired answers logs = record {
  access_log = clean_table answers.clean_access answers.cutoff (λ e. e.timestamp) logs.access_log;
  proxy_log = clean_table answers.clean_proxy answers.cutoff (λ e. e.timestamp) logs.proxy_log;
  audit_log = clean_table answers.clean_audit answers.cutoff (λ e. e.timestamp) logs.audit_log;
}

pub record Worker : Type 0 where
  pub buffer : List LogEvent
  pub flush_count : ℕ
  pub logs : Logs

-- `retention_every > 0 && flush_count.is_multiple_of(retention_every)`.
abbrev pub is_retention_due : ℕ → ℕ → Bool
is_retention_due retention_every flush_count =
    ltb 0 retention_every && flush_count % retention_every == 0

-- A failed flush drops the batch.
unfoldable pub flush_buffer : ℕ → Answers → Worker → Worker
unfolding flush_events cleanup_expired
flush_buffer retention_every answers w =
    let (written, logs) = flush_events answers w.buffer w.logs in
    let flush_count = if written then suc w.flush_count else w.flush_count in
    let due = written && is_retention_due retention_every flush_count in
    record {
      buffer = [];
      flush_count = flush_count;
      logs = if due then cleanup_expired answers logs else logs;
    }
