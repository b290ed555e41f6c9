-- ===== src/Store/Schema.antt =====
-- src/db/store.rs: the three tables, the rows as SQLite stores them, and the mappers between rows and
-- the structs of the program. SQLite and chrono are outside the source: what they answer is in the
-- records `Engine` and `Chrono`.
use ait.Base.{ℕ, Bool, true, false, not, Option, none, some, List, Text, Result, err, ◌==◌}
use ait.Base.Int.{ℤ}
use ait.Error.{DbError, storage}
use ait.Db.{DateTime, Provider, Model, ApiKey, ApiKeyInfo, to_db, from_db}

-- `DateTime::timestamp`, `DateTime::from_timestamp(t, 0)` and `DateTime::UNIX_EPOCH`.
pub record Chrono : Type 0 where
  pub timestamp : DateTime → ℤ
  pub from_timestamp : ℤ → Option DateTime
  pub unix_epoch : DateTime

pub record ProviderRow : Type 0 where
  pub id : Text
  pub name : Text
  pub type : Text
  pub base_url : Text
  pub api_key : Option Text
  pub enabled : ℕ
  pub created_at : ℤ
  pub updated_at : ℤ

pub record ModelRow : Type 0 where
  pub id : Text
  pub name : Text
  pub provider_id : Text
  pub upstream_model : Text
  pub enabled : ℕ
  pub created_at : ℤ
  pub updated_at : ℤ

pub record ApiKeyRow : Type 0 where
  pub id : Text
  pub key_hash : Text
  pub display : Text
  pub name : Text
  pub enabled : ℕ
  pub created_at : ℤ
  pub updated_at : ℤ
  pub expires_at : Option ℤ

pub record Tables : Type 0 where
  pub providers : List ProviderRow
  pub models : List ModelRow
  pub api_keys : List ApiKeyRow

-- What SQLite answers during one operation: `some message` where it fails to begin the transaction,
-- to read, to write or to commit, and the message of a broken constraint. A transaction that is not
-- committed leaves the tables as they were.
pub record Engine : Type 0 where
  pub begin : Option Text
  pub query : Option Text
  pub execute : Option Text
  pub commit : Option Text
  pub constraint : Text

-- `….map_err(to_storage)?` in a query, and in an operation that writes.
unfoldable pub to_storage : {A : Type 0} → Option Text → Result A DbError → Result A DbError
to_storage none rest = rest
to_storage (some e) rest = err (storage e)

unfoldable pub attempt :
    {A : Type 0} → Option Text → Tables → Tables × Result A DbError → Tables × Result A DbError
attempt none db rest = rest
attempt (some e) db rest = (db, err (storage e))

-- `if let Some(value) = update { field = value }`.
abbrev pub patched : {A : Type 0} → Option A → A → A
patched none field = field
patched (some value) field = value

-- `enabled as i32` and `row.get::<_, i32>(…)? != 0`.
abbrev pub as_i32 : Bool → ℕ
as_i32 true = 1
as_i32 false = 0

abbrev pub is_nonzero : ℕ → Bool
is_nonzero n = not (n == 0)

module _ (c : Chrono) where
  unfoldable pub ts : ℤ → DateTime
  ts t = elim (c.from_timestamp t) [ none ↦ c.unix_epoch | some at ↦ at ]

  unfoldable pub opt_ts : Option ℤ → Option DateTime
  unfolding ts
  opt_ts none = none
  opt_ts (some t) = some (ts t)

  unfoldable pub row_to_provider : ProviderRow → Provider
  row_to_provider row = record {
    id = row.id;
    name = row.name;
    provider_type = from_db row.type;
    base_url = row.base_url;
    api_key = row.api_key;
    enabled = is_nonzero row.enabled;
    created_at = ts row.created_at;
    updated_at = ts row.updated_at;
  }

  unfoldable pub row_to_model : ModelRow → Model
  row_to_model row = record {
    id = row.id;
    name = row.name;
    provider_id = row.provider_id;
    upstream_model = row.upstream_model;
    enabled = is_nonzero row.enabled;
    created_at = ts row.created_at;
    updated_at = ts row.updated_at;
  }

  unfoldable pub row_to_api_key : ApiKeyRow → ApiKey
  row_to_api_key row = record {
    id = row.id;
    key = row.key_hash;
    display = row.display;
    name = row.name;
    created_at = ts row.created_at;
    updated_at = ts row.updated_at;
    enabled = is_nonzero row.enabled;
    expires_at = opt_ts row.expires_at;
  }

  unfoldable pub row_to_api_key_info : ApiKeyRow → ApiKeyInfo
  row_to_api_key_info row = record {
    id = row.id;
    name = row.name;
    enabled = is_nonzero row.enabled;
    expires_at = opt_ts row.expires_at;
    created_at = ts row.created_at;
  }

  -- The values that an INSERT binds.
  unfoldable pub provider_row : Provider → ProviderRow
  provider_row p = record {
    id = p.id;
    name = p.name;
    type = to_db p.provider_type;
    base_url = p.base_url;
    api_key = p.api_key;
    enabled = as_i32 p.enabled;
    created_at = c.timestamp p.created_at;
    updated_at = c.timestamp p.updated_at;
  }

  unfoldable pub model_row : Model → ModelRow
  model_row m = record {
    id = m.id;
    name = m.name;
    provider_id = m.provider_id;
    upstream_model = m.upstream_model;
    enabled = as_i32 m.enabled;
    created_at = c.timestamp m.created_at;
    updated_at = c.timestamp m.updated_at;
  }
