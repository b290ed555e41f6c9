-- ===== src/Store/Models.antt =====
-- src/db/store/models.rs: the rows of models, and the join that the proxy path resolves through.
use ait.Base.{
  ℕ, Bool, Option, none, some, List, [], ◌∷◌, ◌++◌, map, length, Text, codes, Result, ok, err, ltb,
  ◌==◌, ◌&&◌, if◌then◌else◌, text_eq,
}
use ait.Error.{DbError, not_found_error, duplicate, storage}
use ait.Db.{DateTime, Provider, Model, ModelUpdate}
use ait.Store.Rows.{select, exists, matching, update_where, delete_where, order_by, text_leb}
use ait.Store.Schema.{
  Chrono, Engine, Tables, ProviderRow, ModelRow, to_storage, attempt, patched, as_i32,
  row_to_provider, row_to_model, model_row,
}
use ait.Store.Providers.{provider_id, id_or, no_provider}

abbrev pub model_name : ModelRow → Text
model_name row = row.name

abbrev pub model_id : ModelRow → Text
model_id row = row.id

abbrev pub no_model : Text → DbError
no_model name = not_found_error (codes "Model '" ++ (name ++ codes "' not found"))

abbrev pub model_exists : Text → DbError
model_exists name = duplicate (codes "Model '" ++ (name ++ codes "' already exists"))

unfoldable pub new_model : Text → DateTime → Model → Model
new_model uuid now m = record m { id = id_or m.id uuid; created_at = now; updated_at = now }

-- The columns that the UPDATE sets.
unfoldable pub set_model : Chrono → Model → ModelRow → ModelRow
set_model c m row = record row {
  provider_id = m.provider_id;
  upstream_model = m.upstream_model;
  enabled = as_i32 m.enabled;
  updated_at = c.timestamp m.updated_at;
}

unfoldable pub patch_model : ModelUpdate → DateTime → Model → Model
patch_model updates now m = record m {
  provider_id = patched updates.provider_id m.provider_id;
  upstream_model = patched updates.upstream_model m.upstream_model;
  enabled = patched updates.enabled m.enabled;
  updated_at = now;
}

-- `JOIN providers p ON p.id = m.provider_id WHERE m.name = ?1 AND m.enabled = 1 AND p.enabled = 1`:
-- the pairs of rows in the order of the two tables.
unfoldable pub join_provider : Text → ModelRow → List ProviderRow → Option (ModelRow × ProviderRow)
join_provider name m [] = none
join_provider name m (p ∷ providers) =
    let rest = join_provider name m providers in
    if text_eq p.id m.provider_id && (text_eq m.name name && (m.enabled == 1 && p.enabled == 1))
    then some (m, p)
    else rest

unfoldable pub join_models :
    Text → List ModelRow → List ProviderRow → Option (ModelRow × ProviderRow)
unfolding join_provider
join_models name [] providers = none
join_models name (m ∷ models) providers = elim (join_provider name m providers) [
  | none ↦ join_models name models providers
  | some found ↦ some found
]

module _ (c : Chrono) (engine : Engine) where
  -- The INSERT: `models.id` is the primary key, and the other constraints were looked up before.
  unfoldable pub write_new_model : Tables → Model → Tables × Result Model DbError
  unfolding attempt
  write_new_model db m = attempt engine.execute db (
      if exists model_id db.models m.id
      then (db, err (storage engine.constraint))
      else attempt engine.commit db (record db { models = db.models ++ model_row c m ∷ [] }, ok m))

  unfoldable pub insert_model : Text → DateTime → Tables → Model → Tables × Result Model DbError
  unfolding attempt
  insert_model uuid now db given =
      let m = new_model uuid now given in
      attempt engine.begin db (
        attempt engine.query db (
          if exists provider_id db.providers m.provider_id
          then (if exists model_name db.models m.name
              then (db, err (model_exists m.name))
              else write_new_model db m)
          else (db, err (no_provider m.provider_id))))

  -- The UPDATE: its foreign key must name a provider.
  unfoldable pub write_model : Tables → Text → Model → Tables × Result Model DbError
  unfolding attempt
  write_model db name m = attempt engine.execute db (
      if exists provider_id db.providers m.provider_id
      then attempt engine.commit db
          (record db { models = update_where model_name db.models name (set_model c m) }, ok m)
      else (db, err (storage engine.constraint)))

  unfoldable pub update_model : DateTime → Tables → ModelUpdate → Tables × Result Model DbError
  unfolding attempt
  update_model now db updates = attempt engine.begin db (
      attempt engine.query db (elim (select model_name db.models updates.name) [
        | none ↦ (db, err (no_model updates.name))
        | some row ↦ write_model db updates.name (patch_model updates now (row_to_model c row))
      ]))

  unfoldable pub delete_model : Tables → Text → Tables × Result Bool DbError
  unfolding attempt
  delete_model db name = attempt engine.execute db (
    record db { models = delete_where model_name db.models name },
    ok (ltb 0 (matching model_name db.models name)),
  )

  unfoldable pub get_model : Tables → Text → Result (Option Model) DbError
  unfolding to_storage
  get_model db name = to_storage engine.query (
      ok (elim (select model_name db.models name) [
        | none ↦ none
        | some row ↦ some (row_to_model c row)
      ]))

  unfoldable pub count_models : Tables → Result ℕ DbError
  unfolding to_storage
  count_models db = to_storage engine.query (ok (length db.models))

  unfoldable pub list_models : Tables → Result (List Model) DbError
  unfolding to_storage order_by
  list_models db =
      to_storage engine.query
        (ok (map (row_to_model c) (order_by (λ a b. text_leb a.name b.name) db.models)))

  unfoldable pub resolve_model : Tables → Text → Result (Option (Model × Provider)) DbError
  unfolding to_storage
  resolve_model db name = to_storage engine.query (
      ok (elim (join_models name db.models db.providers) [
        | none ↦ none
        | some (m, p) ↦ some (row_to_model c m, row_to_provider c p)
      ]))
