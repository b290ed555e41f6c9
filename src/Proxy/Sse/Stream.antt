-- ===== src/Proxy/Sse/Stream.antt =====
-- src/handlers/proxy/sse.rs: `SseTransformStream`, its polls and its drop.
-- The upstream stream is the list of the items that it has ready, each with the instant at which it is
-- taken; where the list ends, the upstream is pending. The log manager is the list of the events sent
-- to it. `idle_timer` is its deadline.
use ait.Base.{
  ℕ, ◌+◌, ◌/◌, Bool, true, Option, none, some, List, [], ◌∷◌, ◌++◌, Text, length, take, drop, codes,
  Result, ok, err, leb, ltb, or_else, if◌then◌else◌,
}
use ait.Cache.{Instant, elapsed}
use ait.Db.{ProxyEvent}
use ait.Json.{Value}
use ait.Proxy.Usage.{UsageTokens}
use ait.Proxy.Sse.Boundary.{find_event_boundary, force_split_oversized}
use ait.Proxy.Sse.Event.{transform_event}

pub record Sse : Type 0 where
  pub buf : Text
  pub scanned : ℕ
  pub user_tokens : Option UsageTokens
  pub event : ProxyEvent
  pub start : Instant
  pub done : Bool
  pub idle_timeout : ℕ
  pub idle_timer : Instant
  pub max_duration : ℕ
  pub total_bytes : ℕ
  pub max_bytes : ℕ
  pub log : List ProxyEvent

pub data Item : Type 0 where
  chunk : Instant → Text → Item
  failure : Instant → Text → Item
  finish : Instant → Item

pub data Poll : Type 0 where
  pending : Poll
  ready : Option (Result Text Text) → Poll

abbrev pub as_millis : ℕ → ℕ
as_millis ns = ns / 1_000_000

unfoldable pub record_ttfb : Instant → Sse → Sse
record_ttfb now s = elim s.event.time_to_first_token_ms [
  | none ↦ record s {
    event = record s.event { time_to_first_token_ms = some (as_millis (elapsed now s.start)) };
  }
  | some _ ↦ s
]

-- The event with the reported usage; a missing prompt count keeps the seeded estimate.
unfoldable pub with_usage : Option UsageTokens → ProxyEvent → ProxyEvent
with_usage none event = event
with_usage (some usage) event = record event {
  prompt_tokens = or_else usage.prompt_tokens event.prompt_tokens;
  completion_tokens = usage.completion_tokens;
  total_tokens = usage.total_tokens;
  cached_tokens = usage.cached_tokens;
}

abbrev pub final_event : Instant → Sse → ProxyEvent
final_event now s = record (with_usage s.user_tokens s.event) {
  latency_ms = as_millis (elapsed now s.start);
}

unfoldable pub finalize_log : Instant → Sse → Sse
finalize_log now s = record s {
  user_tokens = none;
  event = final_event now s;
  log = s.log ++ (final_event now s ∷ []);
}

abbrev pub with_error : Text → Text → Sse → Sse
with_error status msg s = record s {
  event = record s.event { status = status; error_message = some msg };
}

unfoldable pub fail_stream : Instant → Text → Text → Sse → Poll × Sse
fail_stream now status msg s =
    (ready none, finalize_log now (record (with_error status msg s) { done = true }))

module _ (transform_response : Text → Text) where
  abbrev pub rest_of : Text → Option (Result Text Text)
  rest_of [] = none
  rest_of (c ∷ s) = some (ok (transform_response (c ∷ s)))

  unfoldable pub finalize_stream : Instant → Sse → Poll × Sse
  finalize_stream now s =
      let closed = finalize_log now (record_ttfb now (record s { done = true })) in
      (ready (rest_of closed.buf), record closed { buf = [] })

  unfoldable pub timeout_stream : Instant → Text → Sse → Poll × Sse
  timeout_stream now msg s = finalize_stream now (with_error (codes "504") msg s)

-- `drop`: a stream that was not finished is logged with status 499.
unfoldable pub drop_stream : Instant → Sse → Sse
drop_stream now s =
    if s.done
    then s
    else finalize_log now (record s { event = record s.event { status = codes "499" } })

-- What the buffer offers: an event's end, nothing yet, or too much without a line.
pub data Cut : Type 0 where
  cut : ℕ → Cut
  wait : Cut
  oversized : Text → Cut

abbrev pub forced : Result (Option ℕ) Text → Cut
forced (ok (some event_end)) = cut event_end
forced (ok none) = wait
forced (err msg) = oversized msg

abbrev pub offer_of : Option ℕ → Text → Cut
offer_of (some event_end) buf = cut event_end
offer_of none buf = forced (force_split_oversized buf)

unfoldable pub next_cut : Sse → Cut × Sse
next_cut s =
    let (found, scanned) = find_event_boundary s.scanned s.buf in
    (offer_of found s.buf, record s { scanned = scanned })

abbrev pub size_or_zero : Option ℕ → ℕ
size_or_zero none = 0
size_or_zero (some n) = n

-- The state with one chunk taken, its total checked before this.
unfoldable pub receive : Instant → Text → Sse → Sse
receive now bytes s = record_ttfb now (record s { buf = s.buf ++ bytes })

abbrev pub count_bytes : Instant → Text → Sse → Sse
count_bytes now bytes s = record s {
  idle_timer = now + s.idle_timeout;
  total_bytes = s.total_bytes + length bytes;
}

module _ (from_slice : Text → Option Value) (is_utf8 : Text → Bool)
    (transform_response : Text → Text) where
  unfoldable pub split_event : ℕ → Sse → Text × Sse
  split_event event_end s =
      let (user_tokens, transformed) =
        transform_event from_slice is_utf8 transform_response s.user_tokens
          (take event_end s.buf) in
      (
        transformed,
        record s {
          buf = drop event_end s.buf;
          scanned = 0;
          user_tokens = user_tokens;
          event = record s.event {
            response_body_size =
                some (size_or_zero s.event.response_body_size + length transformed);
          };
        },
      )

  abbrev pub emit : Text × Sse → Poll × Sse
  emit (bytes, s) = (ready (some (ok bytes)), s)

  -- The loop on the upstream's items, with those left.
  unfoldable pub poll_inner : List Item → Sse → (Poll × Sse) × List Item
  poll_inner [] s = ((pending, s), [])
  poll_inner (chunk now bytes ∷ items) s =
      let counted = count_bytes now bytes s in
      let (offer, s') = next_cut (receive now bytes counted) in
      let more = poll_inner items s' in
      if ltb counted.max_bytes counted.total_bytes
      then (
        fail_stream now (codes "502") (codes "SSE stream exceeded max response size") counted,
        items,
      )
      else elim offer [
        | cut event_end ↦ (emit (split_event event_end s'), items)
        | wait ↦ more
        | oversized msg ↦ (fail_stream now (codes "502") msg s', items)
      ]
  poll_inner (failure now e ∷ items) s = (
    (
      ready (some (err e)),
      record (finalize_log now (record s { event = record s.event { error_message = some e } })) {
        done = true;
      },
    ),
    items,
  )
  poll_inner (finish now ∷ items) s = (finalize_stream transform_response now s, items)

  -- The poll of a stream that is not done.
  unfoldable pub poll_open : Instant → Bool → List Item → Sse → (Poll × Sse) × List Item
  poll_open now shutdown items s =
      if leb s.max_duration (elapsed now s.start)
      then (
        timeout_stream transform_response now (codes "SSE stream exceeded max duration") s,
        items,
      )
      else if leb s.idle_timer now
      then (timeout_stream transform_response now (codes "SSE stream idle timeout") s, items)
      else (let (offer, s') = next_cut s in
          elim offer [
            | cut event_end ↦ (emit (split_event event_end s'), items)
            | oversized msg ↦ (fail_stream now (codes "502") msg s', items)
            | wait ↦
                if shutdown
                then (finalize_stream transform_response now s', items)
                else poll_inner items s'
          ])

  -- One poll at an instant, with the shutdown signal and the upstream's ready items.
  unfoldable pub poll_next : Instant → Bool → List Item → Sse → (Poll × Sse) × List Item
  unfolding poll_open
  poll_next now shutdown items s =
      if s.done then ((ready none, s), items) else poll_open now shutdown items s
