-- ===== src/Store/Providers.antt =====
-- src/db/store/providers.rs: the rows of providers. The new id and the clock are arguments.
use ait.Base.{
  ℕ, Bool, Option, none, some, List, [], ◌∷◌, ◌++◌, map, length, Text, codes, Result, ok, err, ltb,
  if◌then◌else◌,
}
use ait.Error.{DbError, not_found_error, storage}
use ait.Db.{DateTime, Provider, ProviderUpdate, to_db}
use ait.Store.Rows.{select, exists, matching, update_where, delete_where, order_by, text_leb}
use ait.Store.Schema.{
  Chrono, Engine, Tables, ProviderRow, ModelRow, to_storage, attempt, patched, as_i32,
  row_to_provider, provider_row,
}

abbrev pub provider_id : ProviderRow → Text
provider_id row = row.id

-- `models.provider_id`.
abbrev pub provider_of : ModelRow → Text
provider_of row = row.provider_id

-- `if provider.id.is_empty() { Uuid::new_v4() }`.
abbrev pub id_or : Text → Text → Text
id_or [] uuid = uuid
id_or (a ∷ id) uuid = a ∷ id

abbrev pub no_provider : Text → DbError
no_provider id = not_found_error (codes "Provider '" ++ (id ++ codes "' not found"))

-- `None` keeps the stored key, `Some("")` clears it.
unfoldable pub patch_api_key : Option Text → Option Text → Option Text
patch_api_key none stored = stored
patch_api_key (some []) stored = none
patch_api_key (some (a ∷ s)) stored = some (a ∷ s)

-- The columns that the UPDATE sets.
unfoldable pub set_provider : Chrono → Provider → ProviderRow → ProviderRow
set_provider c p row = record row {
  name = p.name;
  type = to_db p.provider_type;
  base_url = p.base_url;
  api_key = p.api_key;
  enabled = as_i32 p.enabled;
  updated_at = c.timestamp p.updated_at;
}

unfoldable pub patch_provider : ProviderUpdate → DateTime → Provider → Provider
unfolding patch_api_key
patch_provider updates now p = record p {
  name = patched updates.name p.name;
  provider_type = patched updates.provider_type p.provider_type;
  base_url = patched updates.base_url p.base_url;
  api_key = patch_api_key updates.api_key p.api_key;
  enabled = patched updates.enabled p.enabled;
  updated_at = now;
}

-- `ON DELETE CASCADE`: the models of a provider go with its row.
unfoldable pub cascade : List ProviderRow → Text → List ModelRow → List ModelRow
cascade providers id models =
    if exists provider_id providers id then delete_where provider_of models id else models

-- The provider as `insert_provider` binds and returns it.
unfoldable pub new_provider : Text → DateTime → Provider → Provider
new_provider uuid now p = record p { id = id_or p.id uuid; created_at = now; updated_at = now }

module _ (c : Chrono) (engine : Engine) where
  unfoldable pub insert_provider :
      Text → DateTime → Tables → Provider → Tables × Result Provider DbError
  unfolding attempt
  insert_provider uuid now db given =
      let p = new_provider uuid now given in
      attempt engine.execute db (
        if exists provider_id db.providers p.id
        then (db, err (storage engine.constraint))
        else (record db { providers = db.providers ++ provider_row c p ∷ [] }, ok p))

  unfoldable pub write_provider : Tables → Text → Provider → Tables × Result Provider DbError
  unfolding attempt
  write_provider db id p = attempt engine.execute db (
      attempt engine.commit db (
        record db { providers = update_where provider_id db.providers id (set_provider c p) },
        ok p,
      ))

  unfoldable pub update_provider :
      DateTime → Tables → ProviderUpdate → Tables × Result Provider DbError
  unfolding attempt
  update_provider now db updates = attempt engine.begin db (
      attempt engine.query db (elim (select provider_id db.providers updates.id) [
        | none ↦ (db, err (no_provider updates.id))
        | some row ↦
            write_provider db updates.id (patch_provider updates now (row_to_provider c row))
      ]))

  unfoldable pub delete_provider : Tables → Text → Tables × Result Bool DbError
  unfolding attempt cascade
  delete_provider db id = attempt engine.execute db (
    record db {
      providers = delete_where provider_id db.providers id;
      models = cascade db.providers id db.models;
    },
    ok (ltb 0 (matching provider_id db.providers id)),
  )

  unfoldable pub get_provider : Tables → Text → Result (Option Provider) DbError
  unfolding to_storage
  get_provider db id = to_storage engine.query (
      ok (elim (select provider_id db.providers id) [
        | none ↦ none
        | some row ↦ some (row_to_provider c row)
      ]))

  unfoldable pub count_providers : Tables → Result ℕ DbError
  unfolding to_storage
  count_providers db = to_storage engine.query (ok (length db.providers))

  unfoldable pub list_providers : Tables → Result (List Provider) DbError
  unfolding to_storage order_by
  list_providers db =
      to_storage engine.query
        (ok (map (row_to_provider c) (order_by (λ a b. text_leb a.name b.name) db.providers)))
