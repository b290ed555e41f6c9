-- ===== src/Handlers/Models.antt =====
-- src/handlers/models.rs: the console's handlers for models.
use ait.Base.{
  ℕ, Bool, true, false, Option, none, some, [], ◌++◌, List, map, Text, codes, Result, ok, err,
}
use ait.Base.Table.{remove}
use ait.Error
use ait.Error.{AitError, DbError, into_response, from_db_error, not_found}
use ait.Db.{DateTime, Model, ModelUpdate}
use ait.Handlers.Input.{validate_string, model_name_chars, uuid_chars, upstream_model_chars}
use ait.Handlers.Console.{Console, Platform, Call, Reply, valid, on_database, on_query, log_audit}
use ait.Store.Models

pub record CreateModelRequest : Type 0 where
  pub name : Text
  pub provider_id : Text
  pub upstream_model : Text
  pub enabled : Bool

pub record UpdateModelRequest : Type 0 where
  pub provider_id : Option Text
  pub upstream_model : Option Text
  pub enabled : Option Bool

pub record ModelResponse : Type 0 where
  pub id : Text
  pub name : Text
  pub provider_id : Text
  pub upstream_model : Text
  pub enabled : Bool
  pub created_at : DateTime
  pub updated_at : DateTime

unfoldable pub model_response : Model → ModelResponse
model_response m = record {
  id = m.id;
  name = m.name;
  provider_id = m.provider_id;
  upstream_model = m.upstream_model;
  enabled = m.enabled;
  created_at = m.created_at;
  updated_at = m.updated_at;
}

-- `input.map(validate).transpose()?`.
abbrev pub transposed : Option Text → (Text → Result Text AitError) → Result (Option Text) AitError
transposed none check = ok none
transposed (some v) check = elim (check v) [ ok t ↦ ok (some t) | err e ↦ err e ]

-- `validate_string` with the platform's measures.
unfoldable pub validated : Platform → Text → Text → ℕ → (ℕ → Bool) → Result Text AitError
unfolding validate_string
validated platform value field_name max allowed_chars =
    validate_string platform.byte_length platform.decimal value field_name max allowed_chars

module _ {Upstream : Type 0} where
  -- The name may have been cached as unknown.
  unfoldable pub on_created : Call → Model → Console Upstream → Reply Upstream ModelResponse
  unfolding log_audit model_response
  on_created call inserted s =
      let s' = record s {
        caches = record s.caches {
          negative_model_cache = remove s.caches.negative_model_cache inserted.name;
        };
      } in
      (
        ok (model_response inserted),
        log_audit call (codes "create") (codes "model") inserted.name s',
      )

  unfoldable pub on_updated : Call → Text → Model → Console Upstream → Reply Upstream ModelResponse
  unfolding log_audit model_response
  on_updated call model_name m s =
      let s' = record s {
        caches = record s.caches {
          model_cache = remove s.caches.model_cache model_name;
          negative_model_cache = remove s.caches.negative_model_cache model_name;
        };
      } in
      (ok (model_response m), log_audit call (codes "update") (codes "model") model_name s')

  unfoldable pub on_deleted : Call → Text → Bool → Console Upstream → Reply Upstream Unit
  unfolding log_audit
  on_deleted call name false s =
      (err (not_found call.current (codes "Model '" ++ (name ++ codes "' not found"))), s)
  on_deleted call name true s =
      let s' = record s {
        caches = record s.caches { model_cache = remove s.caches.model_cache name };
      } in
      (ok tt, log_audit call (codes "delete") (codes "model") name s')

module _ {Upstream : Type 0} (platform : Platform) where
  unfoldable pub insert_validated :
      Call → Console Upstream → Text → Text → Text → Bool → Reply Upstream ModelResponse
  insert_validated call s name provider_id upstream_model enabled =
      on_database call s
        (Models.insert_model platform.chrono call.engine call.uuid call.stamp s.tables record {
          id = [];
          name = name;
          provider_id = provider_id;
          upstream_model = upstream_model;
          enabled = enabled;
          created_at = platform.chrono.unix_epoch;
          updated_at = platform.chrono.unix_epoch;
        })
        (on_created call)

  unfoldable pub create_model :
      Call → Console Upstream → CreateModelRequest → Reply Upstream ModelResponse
  create_model call s input =
      valid call s (validated platform input.name (codes "name") 128 model_name_chars) (λ name.
        valid call s (validated platform input.provider_id (codes "provider_id") 40 uuid_chars)
          (λ provider_id.
            valid call s
              (validated platform input.upstream_model (codes "upstream_model") 128
                upstream_model_chars)
              (λ upstream_model.
                insert_validated call s name provider_id upstream_model input.enabled)))

  unfoldable pub delete_model : Call → Console Upstream → Text → Reply Upstream Unit
  delete_model call s name =
      on_database call s (Models.delete_model platform.chrono call.engine s.tables name)
        (on_deleted call name)

  unfoldable pub update_validated :
      Call → Console Upstream → ModelUpdate → Reply Upstream ModelResponse
  update_validated call s updates =
      on_database call s
        (Models.update_model platform.chrono call.engine call.stamp s.tables updates)
        (on_updated call updates.name)

  unfoldable pub update_model :
      Call → Console Upstream → Text → UpdateModelRequest → Reply Upstream ModelResponse
  update_model call s name input =
      valid call s (validated platform name (codes "name") 128 model_name_chars) (λ model_name.
        valid call s
          (transposed input.provider_id
            (λ v. validated platform v (codes "provider_id") 40 uuid_chars))
          (λ provider_id.
            valid call s
              (transposed input.upstream_model
                (λ v. validated platform v (codes "upstream_model") 128 upstream_model_chars))
              (λ upstream_model. update_validated call s record {
                name = model_name;
                provider_id = provider_id;
                upstream_model = upstream_model;
                enabled = input.enabled;
              })))

  unfoldable pub list_models : Call → Console Upstream → Result (List ModelResponse) Error.Response
  unfolding on_query model_response
  list_models call s =
      on_query call (Models.list_models platform.chrono call.engine s.tables)
        (λ models. ok (map model_response models))

  unfoldable pub get_model : Call → Console Upstream → Text → Result ModelResponse Error.Response
  unfolding on_query model_response
  get_model call s name =
      on_query call (Models.get_model platform.chrono call.engine s.tables name) (λ m. elim m [
        | none ↦ err (not_found call.current (codes "Model '" ++ (name ++ codes "' not found")))
        | some m ↦ ok (model_response m)
      ])
