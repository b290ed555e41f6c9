-- ===== src/Error.antt =====
-- src/error.rs: the error bodies, their status codes, and the request id stamped into them.
-- The task-local `REQUEST_ID` is an argument: `none` outside a request.
pub mod Laws
use ait.Base.{ℕ, ◌&&◌, Option, none, some, Text, codes, leb, if◌then◌else◌}

pub record AitError : Type 0 where
  pub message : Text
  pub code : ℕ
  pub type : Text
  pub detail : Option Text
  pub request_id : Option Text

-- A response that carries an error: the HTTP status and the body.
abbrev pub Response : Type 0
Response = ℕ × AitError

pub data DbError : Type 0 where
  not_found_error limit_exceeded duplicate storage : Text → DbError

abbrev pub plain_error : Text → ℕ → Text → AitError
plain_error msg code type = record {
  message = msg;
  code = code;
  type = type;
  detail = none;
  request_id = none;
}

unfoldable pub bad_request : Text → AitError
bad_request msg = plain_error msg 400 (codes "invalid_request_error")

unfoldable pub upstream_error : ℕ → Text → AitError
upstream_error status msg = plain_error msg status (codes "upstream_error")

unfoldable pub with_detail : AitError → Text → AitError
with_detail e detail = record e { detail = some detail }

-- `StatusCode::from_u16` accepts 100 to 999.
unfoldable pub status_code : AitError → ℕ
status_code e = if leb 100 e.code && leb e.code 999 then e.code else 500

unfoldable pub from_db_error : DbError → AitError
from_db_error (not_found_error msg) = plain_error msg 404 (codes "not_found_error")
from_db_error (limit_exceeded msg) = plain_error msg 409 (codes "invalid_request_error")
from_db_error (duplicate msg) = plain_error msg 409 (codes "invalid_request_error")
from_db_error (storage msg) = plain_error msg 500 (codes "internal_error")

unfoldable pub into_response : Option Text → AitError → Response
unfolding status_code
into_response current e =
    let stamped = record e {
      request_id = elim e.request_id [ none ↦ current | some id ↦ some id ];
    } in
    (status_code stamped, stamped)

unfoldable pub internal_error : Option Text → Response
internal_error current =
    into_response current (plain_error (codes "Internal server error") 500 (codes "internal_error"))

unfoldable pub not_found : Option Text → Text → Response
not_found current msg = into_response current (plain_error msg 404 (codes "not_found_error"))

unfoldable pub unauthorized : Option Text → Text → Response
unauthorized current msg = into_response current (plain_error msg 401 (codes "auth_error"))

unfoldable pub db_error : Option Text → Response
db_error current = internal_error current
