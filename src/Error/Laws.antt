-- ===== src/Error/Laws.antt =====
-- src/error.rs: what the funnel `into_response` guarantees of every error body.
use ait.Base.{◌≤◌, ◌≡◌, refl, Option, some, Text, arith}
use ait.Error.{AitError, into_response}

-- The status line of a response is valid whatever the code of the error, and the message and the
-- detail are the error's.
pub into_response-valid :
    (current : Option Text) (e : AitError)
    → (100 ≤ (into_response current e).0)
      × ((into_response current e).0 ≤ 999)
      × ((into_response current e).1.message ≡ e.message)
      × ((into_response current e).1.detail ≡ e.detail)
unfolding into_response
into_response-valid current e = (ground arith, ground arith, refl, refl)

-- Stamping a second time changes nothing: the first id that was known stays.
pub into_response-stamped :
    (current later : Option Text) (e : AitError) (id : Text)
    → current ≡ some id
    → into_response later (into_response current e).1 ≡ into_response current e
unfolding into_response
into_response-stamped current later e id h = ground arith
