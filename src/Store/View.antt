-- ===== src/Store/View.antt =====
-- What the tables of src/db/store/ promise: three maps, of providers by id, of models by name and of
-- API keys by id, and the effect of an operation that reported its result.
pub mod Reports
pub mod Changes
pub mod KeyChanges
pub mod Refines
use ait.Base.{
  ℕ, Bool, Option, none, some, List, [], ◌∷◌, ◌≡◌, if◌then◌else◌, Text, text_eq, Result, ok, err,
}
use ait.Error.{DbError}
use ait.Db.{Provider, Model, ApiKey}
use ait.Store.Rows.{select}
use ait.Store.Schema.{
  Chrono, Engine, Tables, ProviderRow, ModelRow, ApiKeyRow, provider_row, model_row,
}
use ait.Store.Providers
use ait.Store.Models
use ait.Store.ApiKeys
use ait.Store.Commands.{Command, step}

pub record View : Type 0 where
  pub provider : Text → Option ProviderRow
  pub model : Text → Option ModelRow
  pub api_key : Text → Option ApiKeyRow

-- The tables hold what the maps say.
abbrev pub Shows : Tables → View → Type 0
Shows db v =
    ((id : Text) → select Providers.provider_id db.providers id ≡ v.provider id)
    × ((name : Text) → select Models.model_name db.models name ≡ v.model name)
    × ((id : Text) → select ApiKeys.key_id db.api_keys id ≡ v.api_key id)

module _ {R : Type 0} where
  abbrev pub put : (Text → Option R) → Text → Option R → Text → Option R
  put f k value j = if text_eq k j then value else f j

  abbrev pub adjust : (Text → Option R) → Text → (R → R) → Text → Option R
  adjust f k g j = if text_eq k j then (elim (f j) [ none ↦ none | some r ↦ some (g r) ]) else f j

-- The models without those of one provider.
abbrev pub without_provider : Text → (Text → Option ModelRow) → Text → Option ModelRow
without_provider id f name = elim (f name) [
  | none ↦ none
  | some m ↦ if text_eq m.provider_id id then none else some m
]

-- The effect of a reported result: none at all for an error.
abbrev pub reported : {A : Type 0} → Result A DbError → (A → View) → View → View
reported (ok a) effect v = effect a
reported (err e) effect v = v

module _ (hash_key : Text → Text) (c : Chrono) where
  unfoldable pub effect : Engine × Command → Tables → View → View
  effect (e, Command.insert_provider uuid now given) db v =
      reported (Providers.insert_provider c e uuid now db given).1
        (λ p. record v { provider = put v.provider p.id (some (provider_row c p)) }) v
  effect (e, Command.update_provider now u) db v =
      reported (Providers.update_provider c e now db u).1
        (λ p. record v { provider = adjust v.provider u.id (Providers.set_provider c p) }) v
  effect (e, Command.delete_provider id) db v =
      reported (Providers.delete_provider c e db id).1
        (λ _. record v { provider = put v.provider id none; model = without_provider id v.model }) v
  effect (e, Command.insert_model uuid now given) db v =
      reported (Models.insert_model c e uuid now db given).1
        (λ m. record v { model = put v.model m.name (some (model_row c m)) }) v
  effect (e, Command.update_model now u) db v =
      reported (Models.update_model c e now db u).1
        (λ m. record v { model = adjust v.model u.name (Models.set_model c m) }) v
  effect (e, Command.delete_model name) db v =
      reported (Models.delete_model c e db name).1 (λ _. record v { model = put v.model name none })
        v
  effect (e, Command.insert_api_key draws uuid now name expires_at) db v =
      reported (ApiKeys.insert_api_key hash_key c e draws uuid now db name expires_at).1
        (λ r. record v { api_key = put v.api_key r.0.id (some (ApiKeys.key_row c r.0)) }) v
  effect (e, Command.update_api_key now u) db v =
      reported (ApiKeys.update_api_key c e now db u).1
        (λ r. record v { api_key = adjust v.api_key u.id (ApiKeys.set_key c r.0) }) v
  effect (e, Command.delete_api_key id) db v =
      reported (ApiKeys.delete_api_key c e db id).1
        (λ _. record v { api_key = put v.api_key id none }) v

  -- The same operations on the maps.
  unfoldable pub replay : List (Engine × Command) → Tables → View → View
  unfolding effect
  replay [] db v = v
  replay (command ∷ commands) db v =
      replay commands (step hash_key c command db) (effect command db v)
