-- ===== src/Json.antt =====
-- `serde_json::Value`, as the source reads it. A number carries its text and, where it has one, its
-- `i64` value; an object is its fields, each key once.
use ait.Base.{Bool, Option, none, some, Text, text_eq, if◌then◌else◌}
use ait.Base.Int.{ℤ}

mutual
  pub data Value : Type 0 where
    null : Value
    bool : Bool → Value
    number : Text → Option ℤ → Value
    string : Text → Value
    array : Items → Value
    object : Fields → Value

  pub data Items : Type 0 where
    nil : Items
    cons : Value → Items → Items

  pub data Fields : Type 0 where
    end : Fields
    field : Text → Value → Fields → Fields

unfoldable pub get_field : Fields → Text → Option Value
get_field end k = none
get_field (field j v fs) k = if text_eq j k then some v else get_field fs k

-- `Value::get` with a text key.
unfoldable pub get : Value → Text → Option Value
unfolding get_field
get (object fs) k = get_field fs k
get _ k = none

unfoldable pub as_i64 : Value → Option ℤ
as_i64 (number _ i) = i
as_i64 _ = none

unfoldable pub as_str : Value → Option Text
as_str (string s) = some s
as_str _ = none

unfoldable pub as_bool : Value → Option Bool
as_bool (bool b) = some b
as_bool _ = none
