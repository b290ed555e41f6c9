-- ===== src/Proxy/Exec/Logged.antt =====
-- src/handlers/proxy/exec.rs: a streamed request is logged once, by the guard or by the stream.
use ait.Base.{
  ℕ, ◌+◌, ◌≡◌, refl, subst, Bool, false, Option, List, [], Text, length, Result, ok, err, arith,
  Bool-cases, Option-cases, inl, inr,
}
use ait.Cache.{Instant}
use ait.Db.{ProxyEvent}
use ait.Error
use ait.Json.{Value}
use ait.Proxy.Guard.{ProxyLogGuard, new, finalize, suppress_drop_log, drop_guard}
use ait.Proxy.Sse.Stream.{Sse, Item, drop_stream}
use ait.Proxy.Sse.Log.{run, drop_stream-once}
use ait.Proxy.Exec.{Answer, Executed, answered, unreachable, timed_out, is_success, is_redirection}
use ait.Proxy.Exec.Streamed.{
  StreamConfig, Streaming, read_text, new_stream, on_status, on_executed, proxy_streamed,
}

-- The events that the call itself sends: one with a failure, none with a stream.
abbrev Settled : Result Streaming Error.Response × List ProxyEvent → Type 0
Settled (ok (headers, s), log) = (log ≡ []) × (s.log ≡ []) × (s.done ≡ false)
Settled (err e, log) = length log ≡ 1

module _ (from_utf8_lossy : Text → Text) (display_status : ℕ → Text)
    (request_id : Option Text) where
  abbrev settle :
      Instant
      → Result Streaming Error.Response × ProxyLogGuard
      → Result Streaming Error.Response × List ProxyEvent
  settle now (result, guard) = (result, (drop_guard now guard).log)

  on_status-Settled :
      (config : StreamConfig) (start now : Instant) (event : ProxyEvent) (answer : Answer)
      → Settled (
          settle now (
            on_status from_utf8_lossy display_status request_id config start now event answer
              (new [] event start)))
  unfolding on_status finalize drop_guard new suppress_drop_log new_stream
  on_status-Settled config start now event answer =
      elim (Bool-cases (is_redirection answer.status)) [
        | inl h ↦ rw h refl
        | inr h ↦ elim (Bool-cases (is_success answer.status)) [
          | inl k ↦ rw (h, k) (refl, refl, refl)
          | inr k ↦ elim (Option-cases (read_text [] answer.content)) [
            | inl stalled_body ↦ rw (h, k, stalled_body) refl
            | inr (body, read) ↦ rw (h, k, read) refl
          ]
        ]
      ]

  proxy_streamed-Settled :
      (config : StreamConfig) (start now : Instant) (event : ProxyEvent) (executed : Executed)
      → Settled
          (proxy_streamed from_utf8_lossy display_status request_id config start now event executed)
  unfolding proxy_streamed on_executed finalize drop_guard new
  proxy_streamed-Settled config start now event (unreachable e) = refl
  proxy_streamed-Settled config start now event timed_out = refl
  proxy_streamed-Settled config start now event (answered answer) =
      on_status-Settled config start now event answer

  -- A streamed request that fails before its stream exists has sent exactly one event to the log.
  pub proxy_streamed-err :
      (config : StreamConfig) (start now : Instant) (event : ProxyEvent) (executed : Executed)
      (e : Error.Response)
      → (proxy_streamed from_utf8_lossy display_status request_id config start now event executed).0
        ≡ err e
      → length
          (proxy_streamed from_utf8_lossy display_status request_id config start now event
            executed).1
        ≡ 1
  proxy_streamed-err config start now event executed e h =
      let log =
        (proxy_streamed from_utf8_lossy display_status request_id config start now event
          executed).1 in
      subst (λ r. Settled (r, log)) h (proxy_streamed-Settled config start now event executed)

  -- A streamed request that is answered has, when its stream is gone, sent exactly one event to the
  -- log, whatever polls the stream got and whenever it was dropped.
  pub proxy_streamed-once :
      (from_slice : Text → Option Value) (is_utf8 : Text → Bool) (transform_response : Text → Text)
      (config : StreamConfig) (start now at : Instant) (event : ProxyEvent) (executed : Executed)
      (headers : List (Text × Text)) (s : Sse) (polls : List (Instant × Bool × List Item))
      → (proxy_streamed from_utf8_lossy display_status request_id config start now event executed).0
        ≡ ok (headers, s)
      → length
            (proxy_streamed from_utf8_lossy display_status request_id config start now event
              executed).1
          + length (drop_stream at (run from_slice is_utf8 transform_response polls s)).log
        ≡ 1
  proxy_streamed-once from_slice is_utf8 transform_response config start now at event executed
        headers s polls h =
      let log =
        (proxy_streamed from_utf8_lossy display_status request_id config start now event
          executed).1 in
      let (none_yet, fresh, alive) =
        subst (λ r. Settled (r, log)) h (proxy_streamed-Settled config start now event executed) in
      let one = drop_stream-once from_slice is_utf8 transform_response polls at s alive in
      ground (arith, none_yet, fresh, one)
