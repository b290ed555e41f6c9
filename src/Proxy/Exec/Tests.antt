-- ===== src/Proxy/Exec/Tests.antt =====
-- src/handlers/proxy/exec.rs and guard.rs: runs of requests to an upstream.
use ait.Base.{
  ℕ, ◌+◌, ◌≡◌, ◌≤◌, refl, Bool, true, false, Option, none, List, [], ◌∷◌, Text, codes, length, ok,
  err, arith,
}
use ait.Cache.{Instant}
use ait.Error
use ait.Json.{Value}
use ait.Proxy.Sse.Stream.{Item, chunk, finish, drop_stream}
use ait.Proxy.Sse.Log.{run}
use ait.Proxy.Sse.Tests.{sample_event}
use ait.Proxy.Exec.{Turn, bytes, Answer, answered, timed_out, upstream_failure}
use ait.Proxy.Exec.Body.{read_body}
use ait.Proxy.Exec.Limits.{bytes_of_turns, read_body-ok}
use ait.Proxy.Exec.Streamed.{StreamConfig, Streaming, stream_headers, new_stream, proxy_streamed}
use ait.Proxy.Exec.Logged.{proxy_streamed-once}

abbrev relayed : List (Text × Text)
relayed = (codes "X-Request-Id", codes "7") ∷ (codes "X-API-Key", codes "k") ∷ []

abbrev request_id : Text × Text
request_id = (codes "X-Request-Id", codes "7")

abbrev turns : List Turn
turns = bytes (codes "ab") ∷ bytes (codes "c") ∷ []

body_run : read_body 3 [] turns ≡ ok (codes "abc")
unfolding read_body
body_run = refl

read_body-ok_example : (codes "abc" ≡ bytes_of_turns turns) × (length (codes "abc") ≤ 3)
read_body-ok_example = read_body-ok 3 turns (codes "abc") (omega arith) body_run

abbrev config : StreamConfig
config = record {
  sse_idle_timeout_secs = 60;
  sse_max_duration_secs = 1800;
  max_response_body_bytes = 1000;
}

abbrev keep : Text → Text
keep body = body

abbrev show_status : ℕ → Text
show_status status = codes "status"

abbrev timeout_response : Error.Response
timeout_response = upstream_failure none 408 (codes "upstream request timed out")

timeout_run :
    (proxy_streamed keep show_status none config 0 5 sample_event timed_out).0
    ≡ err timeout_response
unfolding proxy_streamed
timeout_run = refl

abbrev answer : Answer
answer = record { status = 200; headers = relayed; content = [] }

abbrev started : Streaming
started = (stream_headers answer, new_stream config 0 5 sample_event)

answer_run :
    (proxy_streamed keep show_status none config 0 5 sample_event (answered answer)).0 ≡ ok started
unfolding proxy_streamed
answer_run = refl

abbrev from_slice : Text → Option Value
from_slice body = none

abbrev is_utf8 : Text → Bool
is_utf8 body = true

abbrev polls : List (Instant × Bool × List Item)
polls = (6, false, chunk 6 (codes "data: 1\n\n") ∷ []) ∷ (7, false, finish 7 ∷ []) ∷ []

proxy_streamed-once_example :
    length (proxy_streamed keep show_status none config 0 5 sample_event (answered answer)).1
      + length
          (drop_stream 9
            (run from_slice is_utf8 keep polls (new_stream config 0 5 sample_event))).log
    ≡ 1
proxy_streamed-once_example =
    proxy_streamed-once keep show_status none from_slice is_utf8 keep config 0 5 9 sample_event
      (answered answer) (stream_headers answer) (new_stream config 0 5 sample_event) polls
      answer_run
