-- ===== src/Handlers/BaseUrl.antt =====
-- src/handlers/providers.rs, validate_base_url: the base URL of a provider.
use ait.Base.{
  ℕ, leb, Bool, not, ◌&&◌, ◌||◌, Option, none, some, is_some, [], ◌∷◌, Text, codes, Result, ok, err,
  all, ◌==◌, strip_prefix, text_eq, if◌then◌else◌,
}
use ait.Error.{AitError, bad_request}
use ait.Handlers.Console.{Url}

-- The text before the first character that stops.
unfoldable pub take_until : (ℕ → Bool) → Text → Text
take_until stops [] = []
take_until stops (c ∷ s) = let rest = take_until stops s in if stops c then [] else c ∷ rest

-- The text behind the first "://", if there is one.
unfoldable pub find_authority : Text → Option Text
unfolding strip_prefix
find_authority [] = none
find_authority (c ∷ s) = elim (strip_prefix (codes "://") (c ∷ s)) [
  | some rest ↦ some rest
  | none ↦ find_authority s
]

-- The host as it was written, between brackets or before the port.
unfoldable pub raw_host : Text → Text
unfolding take_until find_authority
raw_host url =
    let rest : Text = elim (find_authority url) [ none ↦ url | some after ↦ after ] in
    let authority = take_until (λ c. c == b'/' || (c == b'?' || c == b'#')) rest in
    elim (strip_prefix (codes "[") authority) [
      | some after ↦ take_until (λ c. c == b']') after
      | none ↦ take_until (λ c. c == b':') authority
    ]

abbrev pub is_ascii_digit : ℕ → Bool
is_ascii_digit c = leb b'0' c && leb c b'9'

module _ (is_alphanumeric : ℕ → Bool) (parse_url : Text → Option Url) where
  unfoldable pub base_url_chars : ℕ → Bool
  base_url_chars c =
      is_alphanumeric c
      || (c == b'.'
          || (c == b'-'
              || (c == b'_'
                  || (c == b'~'
                      || (c == b':' || (c == b'/' || (c == b'[' || (c == b']' || c == b'%'))))))))

  unfoldable pub check_url : Text → Url → Result Url AitError
  unfolding raw_host
  check_url url parsed =
      if not (text_eq parsed.scheme (codes "http")) && not (text_eq parsed.scheme (codes "https"))
      then err (bad_request (codes "base_url must use http:// or https:// scheme"))
      else if not (is_some parsed.host_str)
      then err (bad_request (codes "base_url must include a host"))
      else if all is_ascii_digit (raw_host url)
      then err (bad_request (codes "base_url host cannot be purely numeric"))
      else ok parsed

  unfoldable pub validate_base_url : Text → Result Url AitError
  unfolding base_url_chars check_url
  validate_base_url url =
      if not (all base_url_chars url)
      then err (bad_request (codes "base_url contains invalid characters"))
      else (elim (parse_url url) [
        | none ↦ err (bad_request (codes "base_url is not a valid URL"))
        | some parsed ↦ check_url url parsed
      ])
