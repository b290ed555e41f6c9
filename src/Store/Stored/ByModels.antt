-- ===== src/Store/Stored/ByModels.antt =====
-- src/db/store/models.rs keeps the tables stored.
use ait.Base.{◌≡◌, refl, inl, inr, true, false, List, Option-cases, All, Text}
use ait.Db.{DateTime, Model, ModelUpdate}
use ait.Store.Rows.{select, exists, update_where}
use ait.Store.Laws.{
  append-IsUnique, delete_where-IsUnique, update_where-IsUnique, All-append, All-delete_where,
  All-update_where,
}
use ait.Store.Schema.{Chrono, Engine, Tables, ProviderRow, ModelRow, model_row}
use ait.Store.Providers.{provider_id}
use ait.Store.Models.{
  model_name, model_id, new_model, set_model, write_new_model, insert_model, write_model,
  update_model, delete_model,
}
use ait.Store.Stored.{IsStored, IsFlag, HasProvider, as_i32-IsFlag, attempt-keeps, if-keeps}

module _ (c : Chrono) (engine : Engine) where
  write_new_model-IsStored :
      (db : Tables) (m : Model)
      → exists provider_id db.providers m.provider_id ≡ true
      → exists model_name db.models m.name ≡ false
      → IsStored db
      → IsStored (write_new_model c engine db m).0
  unfolding write_new_model model_row
  write_new_model-IsStored db m has new h =
      let (providers, (names, ids, flags, owned), keys) = h in
      let row = model_row c m in
      attempt-keeps IsStored engine.execute db _ h (
        if-keeps IsStored (exists model_id db.models m.id) _ _ (λ _. h)
          (λ new_id. attempt-keeps IsStored engine.commit db _ h (
            providers,
            (
              append-IsUnique model_name db.models row names new,
              append-IsUnique model_id db.models row ids new_id,
              All-append (λ (r : ModelRow). IsFlag r.enabled) db.models row flags
                  (as_i32-IsFlag m.enabled),
              All-append (HasProvider db.providers) db.models row owned has,
            ),
            keys,
          )))

  pub insert_model-IsStored :
      (uuid : Text) (now : DateTime) (db : Tables) (given : Model)
      → IsStored db
      → IsStored (insert_model c engine uuid now db given).0
  unfolding insert_model
  insert_model-IsStored uuid now db given h =
      let m = new_model uuid now given in
      attempt-keeps IsStored engine.begin db _ h (
        attempt-keeps IsStored engine.query db _ h (
          if-keeps IsStored (exists provider_id db.providers m.provider_id) _ _
            (λ has.
              if-keeps IsStored (exists model_name db.models m.name) _ _ (λ _. h)
                (λ new. write_new_model-IsStored db m has new h))
            (λ _. h)))

  -- The new provider of a changed row exists.
  owned-update :
      (providers : List ProviderRow) (m : Model)
      → HasProvider providers (model_row c m)
      → (rows : List ModelRow) (name : Text) → All (HasProvider providers) rows
      → All (HasProvider providers) (update_where model_name rows name (set_model c m))
  unfolding set_model model_row
  owned-update providers m has rows name h =
      All-update_where (HasProvider providers) model_name (set_model c m) rows name (λ r _. has) h

  write_model-IsStored :
      (db : Tables) (name : Text) (m : Model)
      → IsStored db
      → IsStored (write_model c engine db name m).0
  unfolding write_model set_model model_row
  write_model-IsStored db name m h =
      let (providers, (names, ids, flags, owned), keys) = h in
      let f = set_model c m in
      attempt-keeps IsStored engine.execute db _ h (
        if-keeps IsStored (exists provider_id db.providers m.provider_id) _ _
          (λ has. attempt-keeps IsStored engine.commit db _ h (
            providers,
            (
              update_where-IsUnique model_name model_name f (λ r. refl) db.models name names,
              update_where-IsUnique model_name model_id f (λ r. refl) db.models name ids,
              All-update_where (λ (r : ModelRow). IsFlag r.enabled) model_name f db.models name
                  (λ r _. as_i32-IsFlag m.enabled) flags,
              owned-update db.providers m has db.models name owned,
            ),
            keys,
          ))
          (λ _. h))

  pub update_model-IsStored :
      (now : DateTime) (db : Tables) (updates : ModelUpdate)
      → IsStored db
      → IsStored (update_model c engine now db updates).0
  unfolding update_model
  update_model-IsStored now db updates h = attempt-keeps IsStored engine.begin db _ h (
      attempt-keeps IsStored engine.query db _ h
        (elim (Option-cases (select model_name db.models updates.name)) [
          | inl absent ↦ rw absent h
          | inr (row, found) ↦ rw found (write_model-IsStored db updates.name _ h)
        ]))

  pub delete_model-IsStored :
      (db : Tables) (name : Text) → IsStored db → IsStored (delete_model c engine db name).0
  unfolding delete_model
  delete_model-IsStored db name h =
      let (providers, (names, ids, flags, owned), keys) = h in
      attempt-keeps IsStored engine.execute db _ h (
        providers,
        (
          delete_where-IsUnique model_name model_name db.models name names,
          delete_where-IsUnique model_name model_id db.models name ids,
          All-delete_where (λ (r : ModelRow). IsFlag r.enabled) model_name db.models name flags,
          All-delete_where (HasProvider db.providers) model_name db.models name owned,
        ),
        keys,
      )
