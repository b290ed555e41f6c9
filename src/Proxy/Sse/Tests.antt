-- ===== src/Proxy/Sse/Tests.antt =====
-- src/handlers/proxy/sse.rs: runs of the stream on two chunks.
use ait.Base.{
  ◌+◌, ◌≡◌, ◌++◌, refl, Bool, true, false, Option, none, some, List, [], ◌∷◌, Text, codes, length,
  ok, arith, strip_prefix,
}
use ait.Base.Int.{pos}
use ait.Db.{ProxyEvent}
use ait.Json.{Value}
use ait.Proxy.Usage.{has_usage, parse_usage}
use ait.Proxy.Sse.Event.{transform_event, lines, payload_of, ends_blank, try_extract_usage_from}
use ait.Proxy.Sse.Boundary.{position, force_split_oversized, find_event_boundary, boundary_from}
use ait.Proxy.Sse.Cursor.{IsScanned, find_event_boundary-eq}
use ait.Proxy.Sse.Stream.{
  next_cut, poll_inner, receive, record_ttfb, split_event, Sse, Item, chunk, finish, pending, ready,
  drop_stream, poll_next,
}
use ait.Proxy.Sse.Log.{run, drop_stream-once}
use ait.Proxy.Sse.Held.{IsOpen, Waits, bytes_of}
use ait.Proxy.Sse.Flow.{IsEvent, poll_next-pending, poll_next-IsEvent}

abbrev pub sample_event : ProxyEvent
sample_event = record {
  timestamp = pos 0;
  request_id = codes "r";
  api_key_name = none;
  model_name = codes "m";
  provider_name = codes "p";
  prompt_tokens = some (pos 4);
  completion_tokens = none;
  total_tokens = none;
  cached_tokens = none;
  latency_ms = 0;
  status = codes "200";
  endpoint = codes "/chat/completions";
  is_streaming = true;
  time_to_first_token_ms = none;
  upstream_model = codes "u";
  provider_type = codes "ollama";
  response_body_size = none;
  error_message = none;
  client_ip = none;
}

abbrev stream : Sse
stream = record {
  buf = [];
  scanned = 0;
  user_tokens = none;
  event = sample_event;
  start = 0;
  done = false;
  idle_timeout = 100;
  idle_timer = 100;
  max_duration = 1000;
  total_bytes = 0;
  max_bytes = 50;
  log = [];
}

abbrev from_slice : Text → Option Value
from_slice body = none

abbrev is_utf8 : Text → Bool
is_utf8 body = true

abbrev keep : Text → Text
keep body = body

start-IsScanned : (buf : Text) → IsScanned 0 buf
start-IsScanned buf = record { clear = tt; tail = omega arith }

find_event_boundary-eq_example :
    (find_event_boundary 0 (codes "data: 1\n\nd")).0 ≡ boundary_from 0 (codes "data: 1\n\nd")
find_event_boundary-eq_example =
    find_event_boundary-eq 0 (codes "data: 1\n\nd") (start-IsScanned (codes "data: 1\n\nd"))

stream-IsOpen : IsOpen stream
stream-IsOpen = record { cursor = start-IsScanned []; within = omega arith }

drop_stream-once_example :
    length
      (drop_stream 9 (
        run from_slice is_utf8 keep
          ((5, false, chunk 5 (codes "data: 1\n\n") ∷ finish 6 ∷ []) ∷ [])
          stream)).log
    ≡ 0 + 1
drop_stream-once_example =
    drop_stream-once from_slice is_utf8 keep
      ((5, false, chunk 5 (codes "data: 1\n\n") ∷ finish 6 ∷ []) ∷ []) 9 stream refl

abbrev closed : Sse
closed = record stream { done = true }

abbrev first_items : List Item
first_items = chunk 5 (codes "da") ∷ []

abbrev no_items : List Item
no_items = []

abbrev after_pending : Sse
after_pending = record stream {
  buf = codes "da";
  idle_timer = 105;
  total_bytes = 2;
  event = record sample_event { time_to_first_token_ms = some 0 };
}

pending_run :
    poll_next from_slice is_utf8 keep 5 false first_items stream ≡ ((pending, after_pending), [])
unfolding poll_next next_cut find_event_boundary boundary_from position force_split_oversized
    poll_inner receive record_ttfb
pending_run = refl

poll_next-pending_example :
    (no_items ≡ [])
    × Waits after_pending
    × (after_pending.buf ≡ stream.buf ++ bytes_of first_items)
    × (after_pending.done ≡ false)
poll_next-pending_example =
    poll_next-pending from_slice is_utf8 keep 5 false first_items [] stream after_pending
      stream-IsOpen refl pending_run

abbrev event_items : List Item
event_items = chunk 5 (codes "data:1\n\nda") ∷ finish 6 ∷ []

abbrev after_event : Sse
after_event = record stream {
  buf = codes "da";
  idle_timer = 105;
  total_bytes = 10;
  event = record sample_event { time_to_first_token_ms = some 0; response_body_size = some 9 };
}

event_run :
    poll_next from_slice is_utf8 keep 5 false event_items stream
    ≡ ((ready (some (ok (codes "data: 1\n\n"))), after_event), finish 6 ∷ [])
unfolding poll_next next_cut find_event_boundary boundary_from position force_split_oversized
    poll_inner receive record_ttfb split_event transform_event lines payload_of strip_prefix
    ends_blank try_extract_usage_from has_usage parse_usage
event_run = refl

poll_next-IsEvent_example :
    IsEvent from_slice is_utf8 keep stream
      (bytes_of event_items)
      (codes "data: 1\n\n")
      after_event
      (bytes_of (finish 6 ∷ []))
    × IsOpen after_event
poll_next-IsEvent_example =
    poll_next-IsEvent from_slice is_utf8 keep 5 false event_items (finish 6 ∷ [])
      (codes "data: 1\n\n") stream after_event stream-IsOpen refl refl event_run
