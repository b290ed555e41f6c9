-- ===== src/Store/View/KeyChanges.antt =====
-- The operations on API keys change the map of keys as they report.
use ait.Base.{ℕ, refl, inl, inr, Option, none, some, List, ◌||◌, Option-cases, Text, sym}
use ait.Db.{DateTime, ApiKeyUpdate}
use ait.Store.Rows.{select, exists}
use ait.Store.Laws.{select-append, select-delete_where, select-update_where, select-column}
use ait.Store.Schema.{Chrono, Engine, Tables, row_to_api_key}
use ait.Store.ApiKeys
use ait.Store.ApiKeys.{
  key_id, generate_api_key, new_key, key_row, set_key, patch_key, insert_api_key, write_key,
  update_api_key, delete_api_key,
}
use ait.Store.Stored.{or-false}
use ait.Store.View.{View, Shows, put, adjust}
use ait.Store.View.Reports.{Reports, attempt-Reports, if-Reports}

module _ (c : Chrono) (e : Engine) (db : Tables) (v : View) (shows : Shows db v) where
  pub insert_api_key-Reports :
      (hash_key : Text → Text) (draws : List ℕ) (uuid : Text) (now : DateTime) (name : Text)
      (expires_at : Option DateTime)
      → Reports v
          (λ r. record v { api_key = put v.api_key r.0.id (some (key_row c r.0)) })
          (insert_api_key hash_key c e draws uuid now db name expires_at)
  unfolding insert_api_key key_row
  insert_api_key-Reports hash_key draws uuid now name expires_at =
      let (providers, models, keys) = shows in
      let k = new_key hash_key (generate_api_key draws) uuid now name expires_at in
      attempt-Reports v _ e.begin db _ shows (
        attempt-Reports v _ e.execute db _ shows (
          if-Reports v _
            (exists key_id db.api_keys k.id || exists ApiKeys.key_hash db.api_keys k.key) _ _
            (λ _. shows)
            (λ new.
              let (new_id, _) = or-false _ _ new in
              attempt-Reports v _ e.commit db _ shows (
                providers,
                models,
                (λ id.
                    rw (sym (keys id)) (select-append key_id db.api_keys (key_row c k) id new_id)),
              ))))

  pub update_api_key-Reports :
      (now : DateTime) (u : ApiKeyUpdate)
      → Reports v
          (λ r. record v { api_key = adjust v.api_key u.id (set_key c r.0) })
          (update_api_key c e now db u)
  unfolding update_api_key write_key set_key patch_key row_to_api_key
  update_api_key-Reports now u =
      let (providers, models, keys) = shows in
      attempt-Reports v _ e.begin db _ shows (
        attempt-Reports v _ e.query db _ shows
          (elim (Option-cases (select key_id db.api_keys u.id)) [
            | inl absent ↦ rw absent shows
            | inr (row, found) ↦ rw found (
                attempt-Reports v _ e.execute db _ shows (
                  attempt-Reports v _ e.commit db _ shows (
                    providers,
                    models,
                    (λ id.
                        rw (sym (keys id), sym (select-column key_id db.api_keys u.id row found))
                          (select-update_where key_id _ (λ r. refl) db.api_keys row.id id)),
                  )))
          ]))

  pub delete_api_key-Reports :
      (id : Text)
      → Reports v (λ _. record v { api_key = put v.api_key id none }) (delete_api_key c e db id)
  unfolding delete_api_key
  delete_api_key-Reports id =
      let (providers, models, keys) = shows in
      attempt-Reports v _ e.query db _ shows (elim (Option-cases (select key_id db.api_keys id)) [
        | inl absent ↦ rw absent shows
        | inr (row, found) ↦ rw found (
            attempt-Reports v _ e.execute db _ shows (
              providers,
              models,
              (λ j. rw (sym (keys j)) (select-delete_where key_id db.api_keys id j)),
            ))
      ])
