-- ===== src/Store/Stored/ByKeys.antt =====
-- src/db/store/apikeys.rs keeps the tables stored.
use ait.Base.{refl, inl, inr, Option, List, Option-cases, Text, ◌||◌}
use ait.Base.{ℕ}
use ait.Db.{DateTime, ApiKey, ApiKeyUpdate}
use ait.Store.Rows.{select, exists}
use ait.Store.Laws.{append-IsUnique, delete_where-IsUnique, update_where-IsUnique}
use ait.Store.Schema.{Chrono, Engine, Tables}
use ait.Store.ApiKeys
use ait.Store.ApiKeys.{
  key_id, generate_api_key, new_key, key_row, set_key, patch_key, insert_api_key, write_key,
  update_api_key, delete_api_key,
}
use ait.Store.Stored.{IsStored, or-false, attempt-keeps, if-keeps}

module _ (c : Chrono) (engine : Engine) where
  pub insert_api_key-IsStored :
      (hash_key : Text → Text) (draws : List ℕ) (uuid : Text) (now : DateTime) (db : Tables)
      (name : Text) (expires_at : Option DateTime)
      → IsStored db
      → IsStored (insert_api_key hash_key c engine draws uuid now db name expires_at).0
  unfolding insert_api_key key_row
  insert_api_key-IsStored hash_key draws uuid now db name expires_at h =
      let (providers, models, (ids, hashes)) = h in
      let k = new_key hash_key (generate_api_key draws) uuid now name expires_at in
      let taken = exists key_id db.api_keys k.id || exists ApiKeys.key_hash db.api_keys k.key in
      attempt-keeps IsStored engine.begin db _ h (
        attempt-keeps IsStored engine.execute db _ h (
          if-keeps IsStored taken _ _ (λ _. h)
            (λ new.
              let (new_id, new_hash) = or-false _ _ new in
              attempt-keeps IsStored engine.commit db _ h (
                providers,
                models,
                (
                  append-IsUnique key_id db.api_keys (key_row c k) ids new_id,
                  append-IsUnique ApiKeys.key_hash db.api_keys (key_row c k) hashes new_hash,
                ),
              ))))

  write_key-IsStored :
      (db : Tables) (k : ApiKey) → IsStored db → IsStored (write_key c engine db k).0
  unfolding write_key set_key
  write_key-IsStored db k h =
      let (providers, models, (ids, hashes)) = h in
      let f = set_key c k in
      attempt-keeps IsStored engine.execute db _ h (
        attempt-keeps IsStored engine.commit db _ h (
          providers,
          models,
          (
            update_where-IsUnique key_id key_id f (λ r. refl) db.api_keys k.id ids,
            update_where-IsUnique key_id ApiKeys.key_hash f (λ r. refl) db.api_keys k.id hashes,
          ),
        ))

  pub update_api_key-IsStored :
      (now : DateTime) (db : Tables) (updates : ApiKeyUpdate)
      → IsStored db
      → IsStored (update_api_key c engine now db updates).0
  unfolding update_api_key
  update_api_key-IsStored now db updates h = attempt-keeps IsStored engine.begin db _ h (
      attempt-keeps IsStored engine.query db _ h
        (elim (Option-cases (select key_id db.api_keys updates.id)) [
          | inl absent ↦ rw absent h
          | inr (row, found) ↦ rw found (write_key-IsStored db _ h)
        ]))

  pub delete_api_key-IsStored :
      (db : Tables) (id : Text) → IsStored db → IsStored (delete_api_key c engine db id).0
  unfolding delete_api_key
  delete_api_key-IsStored db id h =
      let (providers, models, (ids, hashes)) = h in
      attempt-keeps IsStored engine.query db _ h
        (elim (Option-cases (select key_id db.api_keys id)) [
          | inl absent ↦ rw absent h
          | inr (row, found) ↦ rw found (
              attempt-keeps IsStored engine.execute db _ h (
                providers,
                models,
                (
                  delete_where-IsUnique key_id key_id db.api_keys id ids,
                  delete_where-IsUnique key_id ApiKeys.key_hash db.api_keys id hashes,
                ),
              ))
        ])
