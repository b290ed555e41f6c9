-- ===== src/Store/View/Changes.antt =====
-- The operations on providers and models change the maps that their tables show as they report.
use ait.Base.{
  ◌≡◌, refl, inl, inr, false, none, some, arith, Bool-cases, Option-cases, Text, text_eq_iff,
  Result, ok, sym,
}
use ait.Error.{DbError}
use ait.Db.{DateTime, Provider, ProviderUpdate, Model, ModelUpdate}
use ait.Store.Rows.{select, exists, update_where}
use ait.Store.Laws.{
  select-append, select-delete_where, select-delete_other, select-update_where, select-All,
}
use ait.Store.Schema.{Chrono, Engine, Tables, attempt, provider_row, model_row}
use ait.Store.Providers.{
  provider_id, provider_of, insert_provider, new_provider, write_provider, update_provider,
  delete_provider, set_provider, cascade,
}
use ait.Store.Models.{
  model_name, model_id, new_model, insert_model, write_new_model, write_model, update_model,
  delete_model, set_model,
}
use ait.Store.Stored.{IsStored, HasProvider}
use ait.Store.View.{View, Shows, put, adjust, without_provider}
use ait.Store.View.Reports.{Reports, attempt-Reports, if-Reports}

module _ (c : Chrono) (e : Engine) (db : Tables) (v : View) (shows : Shows db v) where
  pub insert_provider-Reports :
      (uuid : Text) (now : DateTime) (given : Provider)
      → Reports v
          (λ p. record v { provider = put v.provider p.id (some (provider_row c p)) })
          (insert_provider c e uuid now db given)
  unfolding insert_provider provider_row
  insert_provider-Reports uuid now given =
      let (providers, models, keys) = shows in
      let p = new_provider uuid now given in
      attempt-Reports v _ e.execute db _ shows (
        if-Reports v _ (exists provider_id db.providers p.id) _ _ (λ _. shows)
          (λ new. (
            (λ id. ground (
              arith,
              select-append provider_id db.providers (provider_row c p) id new,
              providers id,
            )),
            models,
            keys,
          )))

  pub update_provider-Reports :
      (now : DateTime) (u : ProviderUpdate)
      → Reports v
          (λ p. record v { provider = adjust v.provider u.id (set_provider c p) })
          (update_provider c e now db u)
  unfolding update_provider write_provider set_provider
  update_provider-Reports now u =
      let (providers, models, keys) = shows in
      attempt-Reports v _ e.begin db _ shows (
        attempt-Reports v _ e.query db _ shows
          (elim (Option-cases (select provider_id db.providers u.id)) [
            | inl absent ↦ rw absent shows
            | inr (row, found) ↦ rw found (
                attempt-Reports v _ e.execute db _ shows (
                  attempt-Reports v _ e.commit db _ shows (
                    (λ id.
                        rw (sym (providers id))
                          (select-update_where provider_id _ (λ r. refl) db.providers u.id id)),
                    models,
                    keys,
                  )))
          ]))

  insert_model-written :
      (m : Model)
      → exists model_name db.models m.name ≡ false
      → Reports v
          (λ k. record v { model = put v.model k.name (some (model_row c k)) })
          (write_new_model c e db m)
  unfolding write_new_model model_row
  insert_model-written m new =
      let (providers, models, keys) = shows in
      attempt-Reports v _ e.execute db _ shows (
        if-Reports v _ (exists model_id db.models m.id) _ _ (λ _. shows)
          (λ _. attempt-Reports v _ e.commit db _ shows (
            providers,
            (λ name.
                ground (
                  arith,
                  select-append model_name db.models (model_row c m) name new,
                  models name,
                )),
            keys,
          )))

  pub insert_model-Reports :
      (uuid : Text) (now : DateTime) (given : Model)
      → Reports v
          (λ m. record v { model = put v.model m.name (some (model_row c m)) })
          (insert_model c e uuid now db given)
  unfolding insert_model
  insert_model-Reports uuid now given =
      let m = new_model uuid now given in
      attempt-Reports v _ e.begin db _ shows (
        attempt-Reports v _ e.query db _ shows (
          if-Reports v _ (exists provider_id db.providers m.provider_id) _ _
            (λ _.
              if-Reports v _ (exists model_name db.models m.name) _ _ (λ _. shows)
                (λ new. insert_model-written m new))
            (λ _. shows)))

  update_model-written :
      (name : Text) (m : Model)
      → Reports v
          (λ k. record v { model = adjust v.model name (set_model c k) })
          (write_model c e db name m)
  unfolding write_model set_model
  update_model-written name m =
      let (providers, models, keys) = shows in
      let written : Tables × Result Model DbError =
        (record db { models = update_where model_name db.models name (set_model c m) }, ok m) in
      attempt-Reports v _ e.execute db _ shows (
        if-Reports v _ (exists provider_id db.providers m.provider_id) (attempt e.commit db written)
          _
          (λ _. attempt-Reports v _ e.commit db written shows (
            providers,
            (λ n.
                rw (sym (models n))
                  (select-update_where model_name (set_model c m) (λ r. refl) db.models name n)),
            keys,
          ))
          (λ _. shows))

  pub update_model-Reports :
      (now : DateTime) (u : ModelUpdate)
      → Reports v
          (λ m. record v { model = adjust v.model u.name (set_model c m) })
          (update_model c e now db u)
  unfolding update_model
  update_model-Reports now u = attempt-Reports v _ e.begin db _ shows (
      attempt-Reports v _ e.query db _ shows
        (elim (Option-cases (select model_name db.models u.name)) [
          | inl absent ↦ rw absent shows
          | inr (row, found) ↦ rw found (update_model-written u.name _)
        ]))

  pub delete_model-Reports :
      (name : Text)
      → Reports v (λ _. record v { model = put v.model name none }) (delete_model c e db name)
  unfolding delete_model
  delete_model-Reports name =
      let (providers, models, keys) = shows in
      attempt-Reports v _ e.execute db _ shows (
        providers,
        (λ n. rw (sym (models n)) (select-delete_where model_name db.models name n)),
        keys,
      )

  -- A provider that is not there has no models.
  pub absent-without :
      IsStored db
      → (id name : Text) → exists provider_id db.providers id ≡ false
      → select model_name db.models name ≡ without_provider id v.model name
  absent-without ((ids, flags), (names, mids, mflags, owned), keys) id name absent =
      let (_, models, _) = shows in
      rw (sym (models name), without_provider)
        (elim (Option-cases (select model_name db.models name)) [
          | inl nothing ↦ ground arith
          | inr (m, found) ↦
              let has =
                select-All (HasProvider db.providers) model_name db.models name m owned found in
              ground (arith, has, text_eq_iff m.provider_id id)
        ])

  pub delete_provider-Reports :
      IsStored db
      → (id : Text)
      → Reports v
          (λ _. record v { provider = put v.provider id none; model = without_provider id v.model })
          (delete_provider c e db id)
  unfolding delete_provider cascade
  delete_provider-Reports h id =
      let (providers, models, keys) = shows in
      let (_, (names, mids, mflags, owned), _) = h in
      let left = λ (j : Text). select-delete_where provider_id db.providers id j in
      attempt-Reports v _ e.execute db _ shows
        (elim (Bool-cases (exists provider_id db.providers id)) [
          | inl there ↦ rw there (
            (λ j. rw (sym (providers j)) (left j)),
            (λ name.
                rw (sym (models name), without_provider)
                  (select-delete_other provider_of model_name db.models id name names)),
            keys,
          )
          | inr absent ↦ rw absent (
            (λ j. rw (sym (providers j)) (left j)),
            (λ name. absent-without h id name absent),
            keys,
          )
        ])
