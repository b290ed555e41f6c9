-- ===== src/Proxy/Exec.antt =====
-- src/handlers/proxy/exec.rs: running the upstream request and relaying the answer.
-- What the HTTP client does is data: whether the request is answered, and what its body yields. A
-- header's value and a body are bytes. `String::from_utf8_lossy`, `StatusCode`'s display and
-- `reqwest`'s error texts are parameters.
pub mod Headers
pub mod Body
pub mod Streamed
pub mod Limits
pub mod Logged
mod Tests
use ait.Base.{
  ℕ, ◌+◌, ◌-◌, ◌*◌, ◌/◌, ◌%◌, ◌^◌, ◌≤◌, min, Bool, true, false, ◌&&◌, ◌||◌, not, Option, none, some,
  List, [], ◌∷◌, ◌++◌, Text, codes, length, take, ◌==◌, Result, ok, err, leb, ltb, if◌then◌else◌,
}
use ait.Error
use ait.Error.{AitError, upstream_error, into_response}

-- One turn of reading a body: bytes, a read error, or the timeout that covers the whole read.
pub data Turn : Type 0 where
  bytes : Text → Turn
  broken : Turn
  stalled : Turn

pub record Answer : Type 0 where
  pub status : ℕ
  pub headers : List (Text × Text)
  pub content : List Turn

-- What `timeout(client.execute(request))` gives.
pub data Executed : Type 0 where
  answered : Answer → Executed
  unreachable : Text → Executed
  timed_out : Executed

abbrev pub is_success : ℕ → Bool
is_success status = leb 200 status && ltb status 300

abbrev pub is_redirection : ℕ → Bool
is_redirection status = leb 300 status && ltb status 400

abbrev pub redirect_text : Text
redirect_text =
    codes
      "Ait does not support redirect policy. If the provider's base_url has changed, please update the provider configuration."

unfoldable pub redirect_error : Option Text → Error.Response
redirect_error request_id = into_response request_id (upstream_error 502 redirect_text)

abbrev pub failed_text : Text
failed_text = codes "upstream request failed"

abbrev pub upstream_failure : Option Text → ℕ → Text → Error.Response
upstream_failure request_id status msg = into_response request_id (upstream_error status msg)

-- The decimal digits of a status, which has three.
abbrev pub status_text : ℕ → Text
status_text n = (b'0' + n / 100) ∷ (b'0' + n / 10 % 10) ∷ (b'0' + n % 10) ∷ []

-- `max_response_body_bytes`: 0 lifts the limit.
unfoldable pub size_limit : ℕ → ℕ
size_limit configured = if configured == 0 then 2 ^ 64 - 1 else configured
