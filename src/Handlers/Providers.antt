-- ===== src/Handlers/Providers.antt =====
-- src/handlers/providers.rs: the console's handlers for providers.
use ait.Base.{
  Bool, true, false, not, Option, none, some, [], ◌++◌, List, map, Text, codes, Result, ok, err,
  ltb, text_eq, if◌then◌else◌,
}
use ait.Base.Split.{trim}
use ait.Base.Table.{remove, retain}
use ait.Error
use ait.Error.{AitError, DbError, bad_request, not_found}
use ait.Db.{DateTime, ProviderType, Provider, ProviderUpdate}
use ait.Proxy.Request.{mask_api_key}
use ait.Ssrf.Check.{check_ssrf_config}
use ait.Handlers.Input.{ident_chars, is_blank}
use ait.Handlers.BaseUrl.{validate_base_url}
use ait.Handlers.Console.{
  Console, Platform, Url, Call, Reply, valid, on_database, on_query, log_audit,
}
use ait.Handlers.Models.{validated, transposed}
use ait.Store.Providers

pub record CreateProviderRequest : Type 0 where
  pub name : Text
  pub provider_type : ProviderType
  pub base_url : Text
  pub api_key : Option Text
  pub enabled : Bool

pub record UpdateProviderRequest : Type 0 where
  pub name : Option Text
  pub provider_type : Option ProviderType
  pub base_url : Option Text
  pub api_key : Option Text
  pub enabled : Option Bool

pub record ProviderResponse : Type 0 where
  pub id : Text
  pub name : Text
  pub provider_type : ProviderType
  pub base_url : Text
  pub api_key : Option Text
  pub enabled : Bool
  pub created_at : DateTime
  pub updated_at : DateTime

-- The key is masked.
unfoldable pub provider_response : Provider → ProviderResponse
unfolding mask_api_key
provider_response p = record {
  id = p.id;
  name = p.name;
  provider_type = p.provider_type;
  base_url = p.base_url;
  api_key = elim p.api_key [ none ↦ none | some k ↦ some (mask_api_key k) ];
  enabled = p.enabled;
  created_at = p.created_at;
  updated_at = p.updated_at;
}

module _ {Upstream : Type 0} where
  -- What a changed provider makes stale.
  unfoldable pub evict_provider : Text → Console Upstream → Console Upstream
  evict_provider id s = record s {
    caches = record s.caches {
      provider_cache = remove s.caches.provider_cache id;
      model_cache = retain (λ name v. not (text_eq v.0.1.id id)) s.caches.model_cache;
      negative_model_cache = [];
    };
    pinned_clients = [];
  }

  unfoldable pub on_created : Call → Provider → Console Upstream → Reply Upstream ProviderResponse
  unfolding log_audit provider_response
  on_created call inserted s = (
    ok (provider_response inserted),
    log_audit call (codes "create") (codes "provider") inserted.id s,
  )

  unfoldable pub on_updated :
      Call → Text → Provider → Console Upstream → Reply Upstream ProviderResponse
  unfolding log_audit provider_response evict_provider
  on_updated call id p s = (
    ok (provider_response p),
    log_audit call (codes "update") (codes "provider") id (evict_provider id s),
  )

  unfoldable pub on_deleted : Call → Text → Bool → Console Upstream → Reply Upstream Unit
  unfolding log_audit evict_provider
  on_deleted call id false s =
      (err (not_found call.current (codes "Provider '" ++ (id ++ codes "' not found"))), s)
  on_deleted call id true s =
      (ok tt, log_audit call (codes "delete") (codes "provider") id (evict_provider id s))

abbrev pub key_too_long : AitError
key_too_long = bad_request (codes "api_key must not exceed 512 characters")

-- The key of a new provider: a blank one is none.
unfoldable pub new_api_key : Platform → Option Text → Result (Option Text) AitError
new_api_key platform none = ok none
new_api_key platform (some k) =
    let t = trim k in
    if is_blank t
    then ok none
    else if ltb 512 (platform.byte_length t)
    then err key_too_long
    else ok (some t)

-- The key of an update: a blank one clears the stored key.
unfoldable pub changed_api_key : Platform → Option Text → Result (Option Text) AitError
changed_api_key platform none = ok none
changed_api_key platform (some k) =
    let t = trim k in
    if is_blank t
    then ok (some [])
    else if ltb 512 (platform.byte_length t)
    then err key_too_long
    else ok (some t)

-- `input.base_url.map(…).transpose()?`.
abbrev pub transposed_url :
    Option Text → (Text → Result Url AitError) → Result (Option Url) AitError
transposed_url none check = ok none
transposed_url (some v) check = elim (check v) [ ok u ↦ ok (some u) | err e ↦ err e ]

abbrev pub url_text : Option Url → Option Text
url_text none = none
url_text (some u) = some u.text

-- `validate_base_url(&validate_string(…)?)`.
unfoldable pub validated_url : Platform → Text → Result Url AitError
unfolding validate_base_url validated
validated_url platform url = elim (validated platform url (codes "base_url") 1024 (λ c. true)) [
  | err e ↦ err e
  | ok v ↦ validate_base_url platform.is_alphanumeric platform.parse_url v
]

module _ {Upstream : Type 0} (platform : Platform) where
  -- The check of the host leaves its addresses in the cache.
  unfoldable pub checked_host :
      {A : Type 0}
      → Call
      → Console Upstream
      → Url
      → (Console Upstream → Reply Upstream A)
      → Reply Upstream A
  checked_host call s url rest =
      let (r, cache) =
        check_ssrf_config platform.parse_ip platform.allowed_cidrs s.ssrf_dns_cache call.now
          call.later call.lookup url.host_str in
      let s' = record s { ssrf_dns_cache = cache } in valid call s' r (λ _. rest s')

  unfoldable pub insert_checked :
      Call
      → Console Upstream
      → CreateProviderRequest
      → Text
      → Url
      → Option Text
      → Reply Upstream ProviderResponse
  insert_checked call s input name url api_key =
      on_database call s
        (Providers.insert_provider platform.chrono call.engine call.uuid call.stamp s.tables
          record {
            id = [];
            name = name;
            provider_type = input.provider_type;
            base_url = url.text;
            api_key = api_key;
            enabled = input.enabled;
            created_at = platform.chrono.unix_epoch;
            updated_at = platform.chrono.unix_epoch;
          })
        (on_created call)

  unfoldable pub create_provider :
      Call → Console Upstream → CreateProviderRequest → Reply Upstream ProviderResponse
  create_provider call s input =
      valid call s (validated platform input.name (codes "name") 128 ident_chars) (λ name.
        valid call s (validated_url platform input.base_url) (λ url. checked_host call s url (λ s'.
          valid call s' (new_api_key platform input.api_key)
            (λ api_key. insert_checked call s' input name url api_key))))

  unfoldable pub update_checked :
      Call → Console Upstream → ProviderUpdate → Reply Upstream ProviderResponse
  update_checked call s updates =
      on_database call s
        (Providers.update_provider platform.chrono call.engine call.stamp s.tables updates)
        (on_updated call updates.id)

  -- The host is checked where the update changes it.
  unfoldable pub checked_change :
      {A : Type 0}
      → Call
      → Console Upstream
      → Option Url
      → (Console Upstream → Reply Upstream A)
      → Reply Upstream A
  checked_change call s none rest = rest s
  checked_change call s (some url) rest = checked_host call s url rest

  unfoldable pub update_provider :
      Call → Console Upstream → Text → UpdateProviderRequest → Reply Upstream ProviderResponse
  update_provider call s id input =
      valid call s
        (transposed input.name (λ n. validated platform n (codes "name") 128 ident_chars))
        (λ name. valid call s (transposed_url input.base_url (validated_url platform)) (λ url.
          valid call s (changed_api_key platform input.api_key) (λ api_key.
            checked_change call s url (λ s'. update_checked call s' record {
              id = id;
              name = name;
              provider_type = input.provider_type;
              base_url = url_text url;
              api_key = api_key;
              enabled = input.enabled;
            }))))

  unfoldable pub delete_provider : Call → Console Upstream → Text → Reply Upstream Unit
  delete_provider call s id =
      on_database call s (Providers.delete_provider platform.chrono call.engine s.tables id)
        (on_deleted call id)

  unfoldable pub list_providers :
      Call → Console Upstream → Result (List ProviderResponse) Error.Response
  unfolding on_query provider_response
  list_providers call s =
      on_query call (Providers.list_providers platform.chrono call.engine s.tables)
        (λ providers. ok (map provider_response providers))

  unfoldable pub get_provider :
      Call → Console Upstream → Text → Result ProviderResponse Error.Response
  unfolding on_query provider_response
  get_provider call s id =
      on_query call (Providers.get_provider platform.chrono call.engine s.tables id) (λ p. elim p [
        | none ↦ err (not_found call.current (codes "Provider '" ++ (id ++ codes "' not found")))
        | some p ↦ ok (provider_response p)
      ])
