-- ===== src/Providers/Requests.antt =====
-- src/providers/mod.rs, finalize_request: the body that an upstream receives.
use ait.Base.{
  ◌≡◌, refl, sym, inl, inr, Bool, true, false, not, ◌&&◌, Option, some, is_some, and_then, Text,
  codes, text_eq, Bool-cases, if◌then◌else◌,
}
use ait.Json.{Value, Fields, object, string, bool, get, get_field, as_str}
use ait.Providers.{insert_field, set_key, set_model, set_stream, usage_options, request_body}
use ait.Providers.Lookups.{get_field-insert_field}

-- What a key of the body holds in the request, from what it held.
unfoldable pub requested : Fields → Bool → Text → Text → Text → Option Value
requested fs stream upstream_model upstream_path k =
    if stream
      && (not (text_eq upstream_path (codes "/responses")) && text_eq (codes "stream_options") k)
    then some usage_options
    else if stream && text_eq (codes "stream") k
    then some (bool true)
    else if is_some (and_then (get_field fs (codes "model")) as_str) && text_eq (codes "model") k
    then some (string upstream_model)
    else get_field fs k

-- The body with the upstream's model, and with the flags of a stream.
abbrev named : Fields → Text → Fields
named fs upstream_model =
    if is_some (and_then (get_field fs (codes "model")) as_str)
    then insert_field (codes "model") (string upstream_model) fs
    else fs

abbrev streamed : Fields → Text → Fields
streamed fs upstream_path =
    let flagged = insert_field (codes "stream") (bool true) fs in
    if text_eq upstream_path (codes "/responses")
    then flagged
    else insert_field (codes "stream_options") usage_options flagged

set_model-object :
    (fs : Fields) (upstream_model : Text)
    → set_model upstream_model (object fs) ≡ some (object (named fs upstream_model))
unfolding set_model set_key get
set_model-object fs upstream_model =
    elim (Bool-cases (is_some (and_then (get_field fs (codes "model")) as_str))) [
      | inl there ↦ rw there refl
      | inr absent ↦ rw absent refl
    ]

set_stream-object :
    (fs : Fields) (upstream_path : Text)
    → set_stream upstream_path (object fs) ≡ some (object (streamed fs upstream_path))
unfolding set_stream set_key
set_stream-object fs upstream_path =
    elim (Bool-cases (text_eq upstream_path (codes "/responses"))) [
      | inl there ↦ rw there refl
      | inr absent ↦ rw absent refl
    ]

get_field-named :
    (fs : Fields) (upstream_model k : Text)
    → get_field (named fs upstream_model) k ≡ (
        if is_some (and_then (get_field fs (codes "model")) as_str) && text_eq (codes "model") k
        then some (string upstream_model)
        else get_field fs k)
get_field-named fs upstream_model k =
    elim (Bool-cases (is_some (and_then (get_field fs (codes "model")) as_str))) [
      | inl there ↦ rw there (get_field-insert_field fs (codes "model") k (string upstream_model))
      | inr absent ↦ rw absent refl
    ]

get_field-streamed :
    (fs : Fields) (upstream_path k : Text)
    → get_field (streamed fs upstream_path) k ≡ (
        if not (text_eq upstream_path (codes "/responses")) && text_eq (codes "stream_options") k
        then some usage_options
        else if text_eq (codes "stream") k
        then some (bool true)
        else get_field fs k)
get_field-streamed fs upstream_path k =
    let flagged = insert_field (codes "stream") (bool true) fs in
    let flag = get_field-insert_field fs (codes "stream") k (bool true) in
    elim (Bool-cases (text_eq upstream_path (codes "/responses"))) [
      | inl there ↦ rw there flag
      | inr absent ↦
          rw (absent, sym flag)
            (get_field-insert_field flagged (codes "stream_options") k usage_options)
    ]

-- The body of a request that is an object is built without a panic, as an object, and each of its
-- keys is told: for a stream `stream` is true and, on every path but `/responses`, `stream_options`
-- asks for the usage; `model` is the upstream's model where it held a string; every other key is
-- what the client sent.
pub request_body-get :
    (fs : Fields) (stream : Bool) (upstream_model upstream_path : Text)
    → (sent : Fields) × (request_body (object fs) stream upstream_model upstream_path
        ≡ some (object sent))
      × ((k : Text) → get_field sent k ≡ requested fs stream upstream_model upstream_path k)
unfolding request_body requested
request_body-get fs true upstream_model upstream_path = (
  streamed (named fs upstream_model) upstream_path,
  rw (set_model-object fs upstream_model)
      (set_stream-object (named fs upstream_model) upstream_path),
  λ k.
      rw (sym (get_field-named fs upstream_model k))
        (get_field-streamed (named fs upstream_model) upstream_path k),
)
request_body-get fs false upstream_model upstream_path = (
  named fs upstream_model,
  rw (set_model-object fs upstream_model) refl,
  λ k. get_field-named fs upstream_model k,
)
