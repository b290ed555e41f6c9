-- ===== src/Handlers/ApiKeys.antt =====
-- src/handlers/apikeys.rs: the console's handlers for API keys. `hash_key` (SHA-256) and the random
-- numbers of a new key are arguments. Here a handler runs as a whole; Middleware/Race cuts it at its
-- awaits.
use ait.Base.{
  ℕ, Bool, true, false, Option, none, some, List, map, Text, codes, Result, ok, err, ◌==◌,
  if◌then◌else◌,
}
use ait.Base.Int.{ℤ, pos, negsuc}
use ait.Base.Split.{trim}
use ait.Error
use ait.Error.{AitError, DbError, bad_request, internal_error}
use ait.Db.{DateTime, ApiKey, masked}
use ait.Handlers.Input.{is_blank, ident_chars}
use ait.Handlers.Console.{
  Console, Platform, Call, Reply, Task, completed, lost, valid, on_database, log_audit,
}
use ait.Handlers.Models.{validated, transposed}
use ait.Middleware.Auth.{evict_deleted, evict_updated, bump_revision}
use ait.Store.ApiKeys
use ait.Store.ApiKeys.{opt_timestamp}
use ait.Store.Schema.{Chrono, Tables}

pub record CreateApiKeyRequest : Type 0 where
  pub name : Text
  pub expires_at : Option ℤ

pub record UpdateApiKeyRequest : Type 0 where
  pub name : Option Text
  pub expires_at : Option ℤ
  pub enabled : Option Bool

pub record ApiKeyResponse : Type 0 where
  pub id : Text
  pub key : Text
  pub name : Text
  pub created_at : ℤ
  pub updated_at : ℤ
  pub enabled : Bool
  pub expires_at : Option ℤ

-- The answer about a stored key, with the text shown as its key.
unfoldable pub key_response : Chrono → Text → ApiKey → ApiKeyResponse
key_response c shown k = record {
  id = k.id;
  key = shown;
  name = k.name;
  created_at = c.timestamp k.created_at;
  updated_at = c.timestamp k.updated_at;
  enabled = k.enabled;
  expires_at = opt_timestamp c k.expires_at;
}

abbrev is_zero : ℤ → Bool
is_zero (pos n) = n == 0
is_zero (negsuc n) = false

abbrev checked_instant : Chrono → ℤ → Result (Option DateTime) AitError
checked_instant c t = elim (c.from_timestamp t) [
  | none ↦ err (bad_request (codes "Invalid expires_at"))
  | some at ↦ ok (some at)
]

-- A new key with expiry 0 never expires.
unfoldable pub created_expiry : Chrono → Option ℤ → Result (Option DateTime) AitError
created_expiry c none = ok none
created_expiry c (some t) = if is_zero t then ok none else checked_instant c t

-- An expiry of 0 becomes the epoch, which the store reads as no expiry.
unfoldable pub updated_expiry : Chrono → Option ℤ → Result (Option DateTime) AitError
updated_expiry c none = ok none
updated_expiry c (some t) = if is_zero t then ok (some c.unix_epoch) else checked_instant c t

-- A blank name leaves the name as it is.
unfoldable pub updated_name : Platform → Option Text → Result (Option Text) AitError
updated_name platform none = ok none
updated_name platform (some n) =
    if is_blank (trim n)
    then ok none
    else transposed (some (trim n)) (λ t. validated platform t (codes "name") 128 ident_chars)

module _ {Upstream : Type 0} where
  -- `.map_err(internal_error)?.map_err(internal_error)?` behind the task.
  unfoldable pub or_internal :
      {A B : Type 0}
      → Task
      → Option Text
      → Console Upstream
      → Tables × Result B DbError
      → (B → Console Upstream → Reply Upstream A)
      → Reply Upstream A
  or_internal completed current s (db, ok b) rest = rest b (record s { tables = db })
  or_internal completed current s (db, err e) rest =
      (err (internal_error current), record s { tables = db })
  or_internal (lost true) current s (db, r) rest =
      (err (internal_error current), record s { tables = db })
  or_internal (lost false) current s (db, r) rest = (err (internal_error current), s)

  -- The raw key is shown this once.
  unfoldable pub on_created :
      Chrono → Call → ApiKey × Text → Console Upstream → Reply Upstream ApiKeyResponse
  unfolding log_audit key_response
  on_created c call (stored, raw_key) s = (
    ok (key_response c raw_key stored),
    log_audit call (codes "create") (codes "api_key") stored.id s,
  )

  unfoldable pub on_deleted : Call → Text → Text → Console Upstream → Reply Upstream Unit
  unfolding log_audit evict_deleted bump_revision
  on_deleted call key hash s = (
    ok tt,
    log_audit call (codes "delete") (codes "api_key") key
        (record s { auth = bump_revision (evict_deleted s.auth hash) }),
  )

  unfoldable pub on_updated :
      Chrono → Call → Text → ApiKey × Text → Console Upstream → Reply Upstream ApiKeyResponse
  unfolding log_audit evict_updated bump_revision key_response masked
  on_updated c call key_id (updated, hash) s = (
    ok (key_response c (masked updated) updated),
    log_audit call (codes "update") (codes "api_key") key_id
        (record s { auth = bump_revision (evict_updated s.auth hash) }),
  )

module _ {Upstream : Type 0} (platform : Platform) (hash_key : Text → Text) (draws : List ℕ) where
  unfoldable pub create_api_key :
      Call → Console Upstream → CreateApiKeyRequest → Reply Upstream ApiKeyResponse
  unfolding or_internal
  create_api_key call s input =
      valid call s (created_expiry platform.chrono input.expires_at) (λ expires_at.
        valid call s (validated platform input.name (codes "name") 128 ident_chars) (λ name.
          or_internal call.task call.current s
            (ApiKeys.insert_api_key hash_key platform.chrono call.engine draws call.uuid call.stamp
              s.tables name expires_at)
            (on_created platform.chrono call)))

module _ {Upstream : Type 0} (platform : Platform) where
  unfoldable pub delete_api_key : Call → Console Upstream → Text → Reply Upstream Unit
  unfolding on_database on_deleted
  delete_api_key call s key =
      on_database call s (ApiKeys.delete_api_key platform.chrono call.engine s.tables key)
        (on_deleted call key)

  unfoldable pub update_api_key :
      Call → Console Upstream → Text → UpdateApiKeyRequest → Reply Upstream ApiKeyResponse
  update_api_key call s key_id input = valid call s (updated_name platform input.name) (λ name.
      valid call s (updated_expiry platform.chrono input.expires_at) (λ expires_at.
        on_database call s
          (ApiKeys.update_api_key platform.chrono call.engine call.stamp s.tables
            record { id = key_id; name = name; enabled = input.enabled; expires_at = expires_at })
          (on_updated platform.chrono call key_id)))

  unfoldable pub list_api_keys :
      Call → Console Upstream → Result (List ApiKeyResponse) Error.Response
  list_api_keys call s = elim call.task [
    | completed ↦ elim (ApiKeys.list_api_keys platform.chrono call.engine s.tables) [
      | ok keys ↦ ok (map (λ k. key_response platform.chrono (masked k) k) keys)
      | err e ↦ err (internal_error call.current)
    ]
    | lost _ ↦ err (internal_error call.current)
  ]
