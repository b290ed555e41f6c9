-- ===== src/Lib.antt =====
-- A model of Ait, a proxy in front of LLM providers, and the theorems about its core.
--
-- A request passes authentication (src/middleware.rs), the size limit and the scan for sensitive
-- values (src/dlp.rs), the resolution of its model (src/handlers/proxy/resolve.rs), the check of the
-- provider's host against internal addresses (src/ssrf.rs), and is then run and relayed, as a whole
-- body (src/handlers/proxy/exec.rs) or as an event stream (src/handlers/proxy/sse.rs). Every request
-- is logged by a guard (src/handlers/proxy/guard.rs) or by its stream.
--
-- Base: lists, text as code points or bytes, Boolean tests, bit masks, and Table, the map that stands
--   for a `DashMap` between two operations.
-- Error, Db, Json: src/error.rs, src/db/models.rs, and the JSON values that the source reads.
-- Cache: `insert_capped` of resolve.rs, `cleanup_caches` of src/app.rs, the sliding hit. Race cuts
--   two calls of `insert_capped` at their accesses to the map.
-- Ssrf: src/ssrf.rs. Addr has the addresses and the block list, Cidr the allow list, Check the cache
--   of resolved hosts and the two forms of the check, Pinned the clients with pinned addresses.
-- Config: src/config.rs. Proxies has `TrustedProxy`, Startup the checks of `ConfigApp::new`.
-- Handlers: src/handlers/mod.rs (Input), logs.rs (Paging), models.rs, providers.rs and apikeys.rs
--   (Models, Providers, BaseUrl, ApiKeys), over the state and the blocking tasks of Console. Revoked
--   follows a deleted key through the store and the middleware. Coherent relates the caches
--   of the proxy path to the tables, over runs of whole handlers and whole resolutions; a resolution
--   that overlaps a handler is not among these runs.
-- Middleware: src/middleware.rs. ClientIp has `get_client_ip`, Auth the parts of `auth_middleware`
--   between its awaits, Race the interleavings of lookups with the key handlers of
--   src/handlers/apikeys.rs as a step relation.
-- Dlp: src/dlp.rs.
-- Proxy: src/handlers/proxy. Resolve, Request and Finish (mod.rs, before and after the upstream's
--   answer), Exec, Guard and Usage (guard.rs), Sse.
-- Providers: src/providers, what is sent to an upstream and what of its answer is rewritten.
-- Store: src/db/store.rs and src/db/store. Schema has the tables and the row mappers, Rows what a
--   statement means on a list of rows, Providers, Models and ApiKeys the operations, Readers the
--   choice of a reader, Commands the operations as values, View the maps that the tables stand for,
--   Trips and Updated what is read back of what was written.
-- Logger: src/db/logger.rs and src/db/logger/writes.rs. Writes has the batches and the retention,
--   Worker the loop, Channel the sending side with its shutdown signal.
--
-- State is passed explicitly: a cache is a Table, the log manager is the list of the events sent to
-- it, an error is a value of Result. An `Instant` is a count of nanoseconds and is an argument
-- wherever the source reads the clock; within one turn of the stream's loop it is read once. `i64`
-- values are integers, and their sum wraps; `usize` sums that the source saturates are cut at
-- 2^64 - 1; counts of bytes held or sent are taken to stay below that.
-- The loops recurse on their lists, or on the number of readers; `signal_shutdown` takes fuel, one
-- unit for an attempt, of which 501 are enough, since each attempt sleeps 10 ms and the wait is 5 s.
-- The revision of the keys is an AtomicU64 in src/app.rs and does not wrap here: runs with fewer than
-- 2^64 changes of keys.
-- A query whose order leaves a tie keeps the order of insertion.
--
-- Parameters stand for what is not in the repository: `IpAddr::from_str`, the resolver, SHA-256,
-- `serde_json`, UTF-8 decoding, the Aho-Corasick automaton, the HTTP client (its answers are data),
-- what SQLite and DuckDB answer to a statement, and the clock of chrono. The request
-- pipeline takes the database's answers and the upstream's functions as arguments.
--
-- Not modelled: the SQL of the analytics, the Loki sink and the watchdog, the console's handlers for
-- statistics and log queries and its frontend.
pub mod Base
pub mod Cache
pub mod Config
pub mod Db
pub mod Dlp
pub mod Error
pub mod Handlers
pub mod Json
pub mod Logger
pub mod Middleware
pub mod Providers
pub mod Proxy
pub mod Ssrf
pub mod Store
