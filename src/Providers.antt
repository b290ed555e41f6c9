-- ===== src/Providers.antt =====
-- src/providers: what is sent to the three kinds of upstream, and what of their answers is rewritten.
-- `serde_json` and the builder of `reqwest` are arguments. An object's fields have no order that
-- matters; an inserted field replaces the old one, or stands last.
pub mod Lookups
pub mod Rename
pub mod Responses
pub mod Requests
mod Tests
use ait.Base.{
  ℕ, ◌==◌, not, Bool, true, false, Option, none, some, is_some, ◌++◌, Text, codes, Result, ok, err,
  text_eq, if◌then◌else◌, and_then,
}
use ait.Base.Split
use ait.Db.{Provider, ProviderType, ollama, llamacpp, openai_compat, deepseek, zhipu}
use ait.Json.{
  Value, Items, Fields, null, bool, number, string, array, object, nil, cons, end, field, get,
  get_field, as_str,
}
use ait.Ssrf.Check.{trim_end_matches}

unfoldable pub insert_field : Text → Value → Fields → Fields
insert_field k v end = field k v end
insert_field k v (field j w fs) =
    let rest = insert_field k v fs in if text_eq j k then field j v fs else field j w rest

unfoldable pub remove_field : Text → Fields → Fields
remove_field k end = end
remove_field k (field j w fs) =
    let rest = remove_field k fs in if text_eq j k then rest else field j w rest

-- Only an object has a place for them.
unfoldable pub inject_default_shadow : Value → Text → Value
unfolding insert_field
inject_default_shadow (object fs) model_name = object (
    insert_field (codes "system_fingerprint") (string (codes "ait-proxy"))
      (insert_field (codes "model") (string model_name) fs))
inject_default_shadow v model_name = v

unfoldable pub remove_timings : Value → Value
unfolding remove_field
remove_timings (object fs) = object (remove_field (codes "timings") fs)
remove_timings v = v

unfoldable pub moved : Option Value → Fields → Fields
moved none fs = fs
moved (some v) fs = insert_field (codes "reasoning_content") v (remove_field (codes "reasoning") fs)

unfoldable pub move_reasoning : Fields → Fields
move_reasoning fs = moved (get_field fs (codes "reasoning")) fs

-- The values are renamed before the key is moved, which is the same: the moved value is among them.
unfoldable mutual
  pub rename_reasoning_key : Value → Value
  rename_reasoning_key (object fs) = object (move_reasoning (rename_fields fs))
  rename_reasoning_key (array items) = array (rename_items items)
  rename_reasoning_key null = null
  rename_reasoning_key (bool b) = bool b
  rename_reasoning_key (number n i) = number n i
  rename_reasoning_key (string s) = string s

  pub rename_items : Items → Items
  rename_items nil = nil
  rename_items (cons v items) = cons (rename_reasoning_key v) (rename_items items)

  pub rename_fields : Fields → Fields
  rename_fields end = end
  rename_fields (field k v fs) = field k (rename_reasoning_key v) (rename_fields fs)

pub record ProviderCore : Type 0 where
  pub provider : Provider
  pub auth_header_value : Option Text

unfoldable pub new_core : Provider → ProviderCore
new_core provider = record {
  provider = provider;
  auth_header_value = elim provider.api_key [ none ↦ none | some k ↦ some (codes "Bearer " ++ k) ];
}

pub data Upstream : Type 0 where
  ollama_provider llamacpp_provider openai_compat_provider : ProviderCore → Upstream

unfoldable pub create_provider : Provider → Upstream
unfolding new_core
create_provider provider = elim provider.provider_type [
  | ollama ↦ ollama_provider (new_core provider)
  | llamacpp ↦ llamacpp_provider (new_core provider)
  | openai_compat ↦ openai_compat_provider (new_core provider)
  | deepseek ↦ openai_compat_provider (new_core provider)
  | zhipu ↦ openai_compat_provider (new_core provider)
]

unfoldable pub core : Upstream → ProviderCore
core (ollama_provider c) = c
core (llamacpp_provider c) = c
core (openai_compat_provider c) = c

-- What an upstream makes of a parsed answer.
unfoldable pub rewritten : Upstream → Value → Text → Value
unfolding inject_default_shadow remove_timings rename_reasoning_key
rewritten (ollama_provider c) v model_name =
    rename_reasoning_key (inject_default_shadow v model_name)
rewritten (llamacpp_provider c) v model_name = remove_timings (inject_default_shadow v model_name)
rewritten (openai_compat_provider c) v model_name = inject_default_shadow v model_name

module _ (from_slice : Text → Option Value) (to_vec : Value → Option Text) where
  -- An answer that is not JSON is relayed as it is.
  unfoldable pub transform_response : Upstream → Text → Text → Text
  transform_response upstream body model_name = elim (from_slice body) [
    | none ↦ body
    | some v ↦ elim (to_vec (rewritten upstream v model_name)) [ none ↦ body | some bytes ↦ bytes ]
  ]

unfoldable pub upstream_url : ProviderCore → Text → Text
unfolding trim_end_matches
upstream_url c path = trim_end_matches b'/' c.provider.base_url ++ path

-- `body[key] = v`: `none` where the source panics.
unfoldable pub set_key : Text → Value → Value → Option Value
unfolding insert_field
set_key k v (object fs) = some (object (insert_field k v fs))
set_key k v null = some (object (field k v end))
set_key k v _ = none

abbrev pub usage_options : Value
usage_options = object (field (codes "include_usage") (bool true) end)

unfoldable pub set_model : Text → Value → Option Value
unfolding set_key
set_model upstream_model body =
    if is_some (and_then (get body (codes "model")) as_str)
    then set_key (codes "model") (string upstream_model) body
    else some body

-- `stream_options` belongs to the chat completions only.
unfoldable pub set_stream : Text → Value → Option Value
unfolding set_key
set_stream upstream_path body = and_then (set_key (codes "stream") (bool true) body) (λ streamed.
    if text_eq upstream_path (codes "/responses")
    then some streamed
    else set_key (codes "stream_options") usage_options streamed)

-- The body of a request.
unfoldable pub request_body : Value → Bool → Text → Text → Option Value
request_body body stream upstream_model upstream_path =
    and_then (set_model upstream_model body)
      (λ named. if stream then set_stream upstream_path named else some named)

-- `POST` with a JSON body.
pub record Post : Type 0 where
  pub url : Text
  pub authorization : Option Text
  pub body : Text

module _ {Req : Type 0} (to_vec : Value → Result Text Text) (build : Post → Result Req Text) where
  unfoldable pub send_body : ProviderCore → Text → Value → Result Req Text
  unfolding upstream_url
  send_body c upstream_path body = elim (to_vec body) [
    | err e ↦ err e
    | ok bytes ↦ build record {
      url = upstream_url c upstream_path;
      authorization = c.auth_header_value;
      body = bytes;
    }
  ]

  -- `none` where the source panics.
  unfoldable pub finalize_request :
      ProviderCore → Value → Bool → Text → Text → Option (Result Req Text)
  unfolding request_body send_body
  finalize_request c body stream upstream_model upstream_path =
      and_then (request_body body stream upstream_model upstream_path)
        (λ v. some (send_body c upstream_path v))

  -- Every kind of upstream hands the request to its core.
  unfoldable pub build_request : Upstream → Value → Bool → Text → Text → Option (Result Req Text)
  unfolding finalize_request core
  build_request upstream body stream upstream_model upstream_path =
      finalize_request (core upstream) body stream upstream_model upstream_path
