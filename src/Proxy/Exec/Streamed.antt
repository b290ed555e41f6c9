-- ===== src/Proxy/Exec/Streamed.antt =====
-- src/handlers/proxy/exec.rs: `proxy_streamed`, up to the stream that answers the client.
-- `now` is the clock at the end of the call; the log holds what this request has sent.
use ait.Base.{
  ℕ, ◌+◌, ◌-◌, ◌^◌, false, not, Option, none, some, List, [], ◌∷◌, ◌++◌, Text, codes, Result, ok,
  err, ◌==◌, if◌then◌else◌,
}
use ait.Cache.{Instant, from_secs}
use ait.Db.{ProxyEvent}
use ait.Error
use ait.Proxy.Usage.{no_usage}
use ait.Proxy.Guard.{ProxyLogGuard, new, finalize, suppress_drop_log, drop_guard, with_message}
use ait.Proxy.Sse.Stream.{Sse}
use ait.Proxy.Exec.{
  Turn, bytes, broken, stalled, Answer, Executed, answered, unreachable, timed_out, is_success,
  is_redirection, redirect_error, upstream_failure, failed_text, size_limit, status_text,
}
use ait.Proxy.Exec.Headers.{collect_x_headers}
use ait.Proxy.Exec.Body.{truncated}

-- The configuration that the stream needs, in seconds and bytes.
pub record StreamConfig : Type 0 where
  pub sse_idle_timeout_secs : ℕ
  pub sse_max_duration_secs : ℕ
  pub max_response_body_bytes : ℕ

-- `Duration::MAX`, for 0.
unfoldable pub max_duration_of : ℕ → ℕ
max_duration_of secs = if secs == 0 then from_secs (2 ^ 64 - 1) + 999_999_999 else from_secs secs

-- `response.text()` under a timeout: none where it stalls, and an empty text on a read error.
unfoldable pub read_text : Text → List Turn → Option Text
read_text text [] = some text
read_text text (stalled ∷ turns) = none
read_text text (broken ∷ turns) = some []
read_text text (bytes chunk ∷ turns) = read_text (text ++ chunk) turns

unfoldable pub new_stream : StreamConfig → Instant → Instant → ProxyEvent → Sse
unfolding max_duration_of
new_stream config start now event = record {
  buf = [];
  scanned = 0;
  user_tokens = none;
  event = event;
  start = start;
  done = false;
  idle_timeout = from_secs config.sse_idle_timeout_secs;
  idle_timer = now + from_secs config.sse_idle_timeout_secs;
  max_duration = max_duration_of config.sse_max_duration_secs;
  total_bytes = 0;
  max_bytes = size_limit config.max_response_body_bytes;
  log = [];
}

abbrev pub Streaming : Type 0
Streaming = List (Text × Text) × Sse

abbrev pub stream_headers : Answer → List (Text × Text)
stream_headers answer =
    (codes "content-type", codes "text/event-stream")
    ∷ (codes "cache-control", codes "no-cache")
    ∷ collect_x_headers answer.headers

module _ (from_utf8_lossy : Text → Text) (display_status : ℕ → Text)
    (request_id : Option Text) where
  -- A failure that the guard records, under a message and a status.
  abbrev pub recorded :
      Instant
      → Text
      → Text
      → Error.Response
      → ProxyLogGuard
      → Result Streaming Error.Response × ProxyLogGuard
  recorded now msg status e guard = (err e, finalize now no_usage status (with_message msg guard))

  unfoldable pub on_status :
      StreamConfig
      → Instant
      → Instant
      → ProxyEvent
      → Answer
      → ProxyLogGuard
      → Result Streaming Error.Response × ProxyLogGuard
  unfolding finalize
  on_status config start now event answer guard =
      if is_redirection answer.status
      then recorded now (codes "upstream returned redirect " ++ display_status answer.status)
          (codes "502") (redirect_error request_id) guard
      else if not (is_success answer.status)
      then elim (read_text [] answer.content) [
        | none ↦ (err (upstream_failure request_id 408 (codes "upstream read timeout")), guard)
        | some body ↦
            recorded now (truncated (from_utf8_lossy body)) (status_text answer.status)
              (upstream_failure request_id answer.status failed_text) guard
      ]
      else (ok (stream_headers answer, new_stream config start now event), suppress_drop_log guard)

  unfoldable pub on_executed :
      StreamConfig
      → Instant
      → Instant
      → ProxyEvent
      → Executed
      → ProxyLogGuard
      → Result Streaming Error.Response × ProxyLogGuard
  unfolding on_status
  on_executed config start now event (unreachable e) guard =
      recorded now e (codes "502") (upstream_failure request_id 502 failed_text) guard
  on_executed config start now event timed_out guard =
      recorded now (codes "upstream request timed out") (codes "408")
        (upstream_failure request_id 408 (codes "upstream request timed out")) guard
  on_executed config start now event (answered answer) guard =
      on_status config start now event answer guard

  -- The guard is made at the start, and dropped at the end.
  unfoldable pub proxy_streamed :
      StreamConfig
      → Instant
      → Instant
      → ProxyEvent
      → Executed
      → Result Streaming Error.Response × List ProxyEvent
  unfolding on_executed
  proxy_streamed config start now event executed =
      let (result, guard) = on_executed config start now event executed (new [] event start) in
      (result, (drop_guard now guard).log)
