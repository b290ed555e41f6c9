-- ===== src/Handlers/Input.antt =====
-- src/handlers/mod.rs: `validate_string` and the character classes.
use ait.Base.{
  ℕ, ◌≤◌, ◌≡◌, ◌↔◌, Bool, true, false, not, ◌&&◌, ◌||◌, [], ◌∷◌, ◌++◌, Text, codes, all, Result, ok,
  err, leb, ltb, ◌==◌, arith, if◌then◌else◌,
}
use ait.Base.Split.{trim}
use ait.Error.{AitError, bad_request}

abbrev pub is_blank : Text → Bool
is_blank [] = true
is_blank (c ∷ s) = false

abbrev pub is_ascii_alphanumeric : ℕ → Bool
is_ascii_alphanumeric c =
    (leb b'0' c && leb c b'9') || (leb b'A' c && leb c b'Z') || (leb b'a' c && leb c b'z')

abbrev pub is_ascii_hexdigit : ℕ → Bool
is_ascii_hexdigit c =
    (leb b'0' c && leb c b'9') || (leb b'A' c && leb c b'F') || (leb b'a' c && leb c b'f')

unfoldable pub ident_chars : ℕ → Bool
ident_chars c = is_ascii_alphanumeric c || (c == b' ' || c == b'_' || c == b'-' || c == b'.')

unfoldable pub model_name_chars : ℕ → Bool
model_name_chars c =
    is_ascii_alphanumeric c || (c == b' ' || c == b'_' || c == b'-' || c == b'.' || c == b':')

unfoldable pub upstream_model_chars : ℕ → Bool
upstream_model_chars c =
    is_ascii_alphanumeric c
    || (c == b' '
        || c == b'_'
        || c == b'-'
        || c == b'.'
        || c == b':'
        || c == b'/'
        || c == b'('
        || c == b')'
        || c == b'@')

unfoldable pub uuid_chars : ℕ → Bool
uuid_chars c = is_ascii_hexdigit c || c == b'-'

-- The length that the source compares is that of the UTF-8 encoding, `byte_length`; `decimal` writes
-- the bound into the message.
module _ (byte_length : Text → ℕ) (decimal : ℕ → Text) where
  unfoldable pub validate_string : Text → Text → ℕ → (ℕ → Bool) → Result Text AitError
  validate_string value field_name max allowed_chars =
      let trimmed = trim value in
      if is_blank trimmed
      then err (bad_request (field_name ++ codes " must not be empty"))
      else if ltb max (byte_length trimmed)
      then err (
          bad_request
            (field_name ++ (codes " must not exceed " ++ (decimal max ++ codes " characters"))))
      else if not (all allowed_chars trimmed)
      then err (bad_request (field_name ++ codes " contains invalid characters"))
      else ok trimmed

  -- A value is accepted exactly when its trimmed form is not empty, within the bound and of allowed
  -- characters only, and what is stored is that form.
  pub validate_string_iff :
      (value field_name stored : Text) (max : ℕ) (allowed_chars : ℕ → Bool)
      → (validate_string value field_name max allowed_chars ≡ ok stored) ↔ (
          (is_blank stored ≡ false)
          × (byte_length stored ≤ max)
          × (all allowed_chars stored ≡ true)
          × (stored ≡ trim value))
  unfolding validate_string
  validate_string_iff value field_name stored max allowed_chars = ground arith
