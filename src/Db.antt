-- ===== src/Db.antt =====
-- src/db/models.rs: the rows and events that the components exchange.
-- A `DateTime` is a signed count of nanoseconds since the epoch.
use ait.Base.{ℕ, Bool, ◌||◌, Option, Text, codes, text_eq, if◌then◌else◌}
use ait.Base.Int.{ℤ}

abbrev pub DateTime : Type 0
DateTime = ℤ

pub data ProviderType : Type 0 where
  openai_compat deepseek zhipu ollama llamacpp : ProviderType

-- The names that strum derives.
unfoldable pub to_db : ProviderType → Text
to_db openai_compat = codes "openai_compat"
to_db deepseek = codes "deepseek"
to_db zhipu = codes "zhipu"
to_db ollama = codes "ollama"
to_db llamacpp = codes "llamacpp"

-- `parse().unwrap_or_default()`: an unknown name is the default.
unfoldable pub from_db : Text → ProviderType
unfolding text_eq
from_db s =
    if text_eq s (codes "openai_compat")
    then openai_compat
    else if text_eq s (codes "deepseek")
    then deepseek
    else if text_eq s (codes "zhipu")
    then zhipu
    else if text_eq s (codes "ollama")
    then ollama
    else if text_eq s (codes "llamacpp")
    then llamacpp
    else openai_compat

unfoldable pub supports_endpoint : ProviderType → Text → Bool
supports_endpoint deepseek path =
    text_eq path (codes "/chat/completions") || text_eq path (codes "/responses")
supports_endpoint zhipu path =
    text_eq path (codes "/chat/completions") || text_eq path (codes "/embeddings")
supports_endpoint _ path =
    text_eq path (codes "/chat/completions")
    || text_eq path (codes "/completions")
    || text_eq path (codes "/embeddings")
    || text_eq path (codes "/responses")

pub record Provider : Type 0 where
  pub id : Text
  pub name : Text
  pub provider_type : ProviderType
  pub base_url : Text
  pub api_key : Option Text
  pub enabled : Bool
  pub created_at : DateTime
  pub updated_at : DateTime

pub record Model : Type 0 where
  pub id : Text
  pub name : Text
  pub provider_id : Text
  pub upstream_model : Text
  pub enabled : Bool
  pub created_at : DateTime
  pub updated_at : DateTime

pub record ApiKey : Type 0 where
  pub id : Text
  pub key : Text
  pub display : Text
  pub name : Text
  pub created_at : DateTime
  pub updated_at : DateTime
  pub enabled : Bool
  pub expires_at : Option DateTime

unfoldable pub masked : ApiKey → Text
masked k = k.display

-- Partial updates: a field that is `none` is left as it is.
pub record ProviderUpdate : Type 0 where
  pub id : Text
  pub name : Option Text
  pub provider_type : Option ProviderType
  pub base_url : Option Text
  pub api_key : Option Text
  pub enabled : Option Bool

pub record ModelUpdate : Type 0 where
  pub name : Text
  pub provider_id : Option Text
  pub upstream_model : Option Text
  pub enabled : Option Bool

pub record ApiKeyUpdate : Type 0 where
  pub id : Text
  pub name : Option Text
  pub enabled : Option Bool
  pub expires_at : Option DateTime

pub record ApiKeyInfo : Type 0 where
  pub id : Text
  pub name : Text
  pub enabled : Bool
  pub expires_at : Option DateTime
  pub created_at : DateTime

pub record ProxyEvent : Type 0 where
  pub timestamp : DateTime
  pub request_id : Text
  pub api_key_name : Option Text
  pub model_name : Text
  pub provider_name : Text
  pub prompt_tokens : Option ℤ
  pub completion_tokens : Option ℤ
  pub total_tokens : Option ℤ
  pub cached_tokens : Option ℤ
  pub latency_ms : ℕ
  pub status : Text
  pub endpoint : Text
  pub is_streaming : Bool
  pub time_to_first_token_ms : Option ℕ
  pub upstream_model : Text
  pub provider_type : Text
  pub response_body_size : Option ℕ
  pub error_message : Option Text
  pub client_ip : Option Text

pub record AccessEvent : Type 0 where
  pub timestamp : DateTime
  pub request_id : Text
  pub method : Text
  pub path : Text
  pub status : ℤ
  pub latency_ms : ℤ
  pub client_ip : Option Text

pub record AuditEvent : Type 0 where
  pub timestamp : DateTime
  pub request_id : Text
  pub action : Text
  pub resource : Text
  pub resource_id : Text
  pub detail : Option Text

pub data LogEvent : Type 0 where
  access : AccessEvent → LogEvent
  proxy : ProxyEvent → LogEvent
  audit : AuditEvent → LogEvent
  shutdown : LogEvent
