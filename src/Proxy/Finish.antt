-- ===== src/Proxy/Finish.antt =====
-- src/handlers/proxy/mod.rs: the end of `proxy_request` for a request that is not streamed.
use ait.Base.{
  ℕ, ◌≡◌, refl, Option, none, some, List, [], ◌∷◌, Text, codes, Result, ok, err, or_else,
}
use ait.Base.Int.{ℤ}
use ait.Cache.{Instant}
use ait.Db.{ProxyEvent}
use ait.Error
use ait.Proxy.Usage.{no_usage}
use ait.Proxy.Guard.{ProxyLogGuard, new, finalize, drop_guard, with_message}
use ait.Proxy.Exec.{status_text}
use ait.Proxy.Exec.Body.{Relayed}

-- The detail that is kept from the client, or else the message.
abbrev pub reason_of : Error.Response → Text
reason_of (status, e) = elim e.detail [ some detail ↦ detail | none ↦ e.message ]

unfoldable pub record_result :
    Instant → Result Relayed Error.Response → ProxyLogGuard → ProxyLogGuard
record_result now (ok r) guard = finalize now r.usage (codes "200") (record guard {
  event = record guard.event {
    time_to_first_token_ms = some r.ttfb;
    response_body_size = some r.body_size;
  };
})
record_result now (err e) guard =
    finalize now no_usage (status_text e.0) (with_message (reason_of e) guard)

-- The guard is made for the pending event, and dropped when the handler returns.
unfoldable pub finish_request :
    Instant → Instant → Instant → ProxyEvent → Result Relayed Error.Response → List ProxyEvent
finish_request start now at pending result =
    (drop_guard at (record_result now result (new [] pending start))).log

abbrev pub status_of : Result Relayed Error.Response → ℕ
status_of (ok r) = 200
status_of (err e) = e.0

abbrev pub reported_prompt : Result Relayed Error.Response → Option ℤ
reported_prompt (ok r) = r.usage.prompt_tokens
reported_prompt (err e) = none

abbrev pub reason_logged : ProxyEvent → Result Relayed Error.Response → Option Text
reason_logged pending (ok r) = pending.error_message
reason_logged pending (err e) = some (reason_of e)

-- When the upstream has been asked without streaming, the guard sends one event, with the status of
-- the answer, the upstream's prompt count or else the estimate, and for an error `reason_of`.
finish_request_once :
    (start now at : Instant) (pending : ProxyEvent) (result : Result Relayed Error.Response)
    → (event : ProxyEvent) × (finish_request start now at pending result ≡ event ∷ [])
      × (event.status ≡ status_text (status_of result))
      × (event.prompt_tokens ≡ or_else (reported_prompt result) pending.prompt_tokens)
      × (event.error_message ≡ reason_logged pending result)
unfolding finish_request record_result finalize drop_guard new
finish_request_once start now at pending (ok r) = (_, refl, refl, refl, refl)
finish_request_once start now at pending (err e) = (_, refl, refl, refl, refl)
