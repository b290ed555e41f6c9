-- ===== src/Handlers/Console.antt =====
-- What the console's handlers share: the state that they change, what one call is given from outside,
-- and the reply. `run_blocking` of src/blocking.rs may lose a task, to its deadline or to a panic,
-- which the database may or may not have carried out.
use ait.Base.{ℕ, Bool, true, false, Option, none, List, [], ◌∷◌, ◌++◌, Text, Result, ok, err}
use ait.Cache.{Instant}
use ait.Error
use ait.Error.{AitError, DbError, into_response, from_db_error, internal_error}
use ait.Db.{DateTime, AuditEvent}
use ait.Middleware.Auth.{AuthState}
use ait.Proxy.Resolve.{Caches}
use ait.Ssrf.Addr.{IpAddr}
use ait.Ssrf.Check.{DnsCache}
use ait.Store.Schema.{Chrono, Engine, Tables}

pub record Console (Upstream : Type 0) : Type 0 where
  pub tables : Tables
  pub caches : Caches Upstream
  pub ssrf_dns_cache : DnsCache
  -- The keys of the pinned clients.
  pub pinned_clients : List Text
  -- The two caches of keys and the revision.
  pub auth : AuthState
  pub audits : List AuditEvent

-- How `run_blocking` ends: with a result, or without one, the operation carried out or not.
pub data Task : Type 0 where
  completed : Task
  lost : Bool → Task

-- `reqwest::Url`: its text, scheme and host.
pub record Url : Type 0 where
  pub text : Text
  pub scheme : Text
  pub host_str : Option Text

-- What is not in the repository: the length of a text in UTF-8, a number as text, the parser of URLs
-- and of addresses, `char::is_alphanumeric`, and the configured list of networks.
pub record Platform : Type 0 where
  pub byte_length : Text → ℕ
  pub decimal : ℕ → Text
  pub parse_url : Text → Option Url
  pub parse_ip : Text → Option IpAddr
  pub is_alphanumeric : ℕ → Bool
  pub chrono : Chrono
  pub allowed_cidrs : List Text

-- What one call is given: its request id and the task-local one, the clocks, the resolver's answer,
-- a new id, and what the blocking task and SQLite do.
pub record Call : Type 0 where
  pub request_id : Text
  pub current : Option Text
  pub now : Instant
  pub later : Instant
  pub stamp : DateTime
  pub logged_at : DateTime
  pub lookup : Text → Result (List IpAddr) Text
  pub uuid : Text
  pub task : Task
  pub engine : Engine

abbrev pub Reply : Type 0 → Type 0 → Type 0
Reply Upstream A = Result A Error.Response × Console Upstream

module _ {Upstream A : Type 0} where
  -- `?` on an error of the request.
  unfoldable pub valid :
      {B : Type 0}
      → Call
      → Console Upstream
      → Result B AitError
      → (B → Reply Upstream A)
      → Reply Upstream A
  valid call s (ok b) rest = rest b
  valid call s (err e) rest = (err (into_response call.current e), s)

  -- `.map_err(internal_error)?.map_err(from_db_error)?` behind the task.
  unfoldable pub settled :
      {B : Type 0}
      → Task
      → Option Text
      → Console Upstream
      → Tables × Result B DbError
      → (B → Console Upstream → Reply Upstream A)
      → Reply Upstream A
  settled completed current s (db, ok b) rest = rest b (record s { tables = db })
  settled completed current s (db, err e) rest =
      (err (into_response current (from_db_error e)), record s { tables = db })
  settled (lost true) current s (db, r) rest =
      (err (internal_error current), record s { tables = db })
  settled (lost false) current s (db, r) rest = (err (internal_error current), s)

  -- `run_blocking` on a writing operation.
  unfoldable pub on_database :
      {B : Type 0}
      → Call
      → Console Upstream
      → Tables × Result B DbError
      → (B → Console Upstream → Reply Upstream A)
      → Reply Upstream A
  unfolding settled
  on_database call s r rest = settled call.task call.current s r rest

-- `run_blocking` on a query, which changes nothing.
unfoldable pub on_query :
    {A B : Type 0}
    → Call
    → Result B DbError
    → (B → Result A Error.Response)
    → Result A Error.Response
on_query call r rest = elim call.task [
  | completed ↦ elim r [
    | ok b ↦ rest b
    | err e ↦ err (into_response call.current (from_db_error e))
  ]
  | lost _ ↦ err (internal_error call.current)
]

-- `log_audit` of one action.
unfoldable pub log_audit :
    {Upstream : Type 0} → Call → Text → Text → Text → Console Upstream → Console Upstream
log_audit call action resource resource_id s = record s {
  audits =
      s.audits
      ++ (record {
        timestamp = call.logged_at;
        request_id = call.request_id;
        action = action;
        resource = resource;
        resource_id = resource_id;
        detail = none;
      }
          ∷ []);
}
