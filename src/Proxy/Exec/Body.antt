-- ===== src/Proxy/Exec/Body.antt =====
-- src/handlers/proxy/exec.rs: `proxy_non_streamed`, reading and relaying a whole body.
use ait.Base.{
  ℕ, zero, suc, ◌+◌, ◌-◌, ◌^◌, min, Bool, ◌&&◌, not, Option, List, [], ◌∷◌, ◌++◌, Text, codes,
  length, take, get_elem?, Result, ok, err, leb, ltb, is_some_and, if◌then◌else◌,
}
use ait.Base.Table.{Table, insert}
use ait.Cache.{Instant, elapsed}
use ait.Error
use ait.Error.{upstream_error, with_detail, into_response}
use ait.Json.{Value}
use ait.Proxy.Usage.{UsageTokens, parse_usage}
use ait.Proxy.Sse.Stream.{as_millis}
use ait.Proxy.Exec.{
  Turn, bytes, broken, stalled, Answer, Executed, answered, unreachable, timed_out, is_success,
  is_redirection, redirect_error, upstream_failure, failed_text, size_limit,
}
use ait.Proxy.Exec.Headers.{collect_x_headers}

-- `usize::saturating_add` on 64 bits.
abbrev pub saturating_add : ℕ → ℕ → ℕ
saturating_add a b = min (a + b) (2 ^ 64 - 1)

-- The loop on the chunks: the body, or the status and message of the failure.
unfoldable pub read_body : ℕ → Text → List Turn → Result Text (ℕ × Text)
read_body max_body body [] = ok body
read_body max_body body (stalled ∷ turns) = err (408, codes "upstream read timeout")
read_body max_body body (broken ∷ turns) = err (502, codes "upstream response too large")
read_body max_body body (bytes chunk ∷ turns) =
    let rest = read_body max_body (body ++ chunk) turns in
    if ltb max_body (saturating_add (length body) (length chunk))
    then err (502, codes "upstream response too large")
    else rest

-- A byte that continues a UTF-8 character.
abbrev pub is_continuation : ℕ → Bool
is_continuation b = leb 128 b && ltb b 192

-- `str::floor_char_boundary`, for an index within the text.
unfoldable pub floor_char_boundary : Text → ℕ → ℕ
floor_char_boundary s zero = zero
floor_char_boundary s (suc i) =
    let lower = floor_char_boundary s i in
    if is_some_and (get_elem? s (suc i)) is_continuation then lower else suc i

unfoldable pub truncated : Text → Text
unfolding floor_char_boundary
truncated body =
    if ltb 512 (length body) then take (floor_char_boundary body 512) body ++ codes "..." else body

abbrev pub insert_all : Table Text → List (Text × Text) → Table Text
insert_all m [] = m
insert_all m ((name, value) ∷ headers) = insert_all (insert m name value) headers

unfoldable pub response_headers : Answer → Table Text
unfolding collect_x_headers
response_headers answer =
    insert_all (insert [] (codes "content-type") (codes "application/json"))
      (collect_x_headers answer.headers)

-- The answer that the client gets, with what the log needs.
pub record Relayed : Type 0 where
  pub status : ℕ
  pub headers : Table Text
  pub body : Text
  pub usage : UsageTokens
  pub ttfb : ℕ
  pub body_size : ℕ

module _ (from_slice : Text → Option Value) (from_utf8_lossy : Text → Text)
    (transform_response : Text → Text) (max_response_body_bytes : ℕ)
    (request_id : Option Text) where
  unfoldable pub relay : ℕ → Answer → Text → Result Relayed Error.Response
  relay ttfb answer body =
      if not (is_success answer.status)
      then err (
          into_response request_id (
            with_detail (upstream_error answer.status failed_text)
              (truncated (from_utf8_lossy body))))
      else ok (record {
        status = 200;
        headers = response_headers answer;
        body = transform_response body;
        usage = parse_usage from_slice (transform_response body);
        ttfb = ttfb;
        body_size = length body;
      })

  unfoldable pub on_answer : ℕ → Answer → Result Relayed Error.Response
  unfolding relay
  on_answer ttfb answer =
      if is_redirection answer.status
      then err (redirect_error request_id)
      else elim (read_body (size_limit max_response_body_bytes) [] answer.content) [
        | err (status, msg) ↦ err (upstream_failure request_id status msg)
        | ok body ↦ relay ttfb answer body
      ]

  -- `now` is the instant at which the headers arrive.
  unfoldable pub proxy_non_streamed : Instant → Instant → Executed → Result Relayed Error.Response
  unfolding on_answer
  proxy_non_streamed start now (unreachable e) = err (upstream_failure request_id 502 failed_text)
  proxy_non_streamed start now timed_out =
      err (upstream_failure request_id 408 (codes "upstream request timed out"))
  proxy_non_streamed start now (answered answer) = on_answer (as_millis (elapsed now start)) answer
