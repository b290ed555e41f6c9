-- ===== src/Store/Stored/ByProviders.antt =====
-- src/db/store/providers.rs keeps the tables stored.
use ait.Base.{
  ◌≡◌, refl, inl, inr, false, List, [], ◌∷◌, ◌++◌, arith, Bool-cases, Option-cases, All, Text,
  text_eq, text_eq_iff, ◌∙◌,
}
use ait.Db.{DateTime, Provider, ProviderUpdate}
use ait.Store.Rows.{select, exists, delete_where}
use ait.Store.Laws.{
  append-IsUnique, exists-append, delete_where-IsUnique, update_where-IsUnique, exists-update_where,
  select-delete_where, All-append, All-delete_where, All-update_where,
}
use ait.Store.Schema.{Chrono, Engine, Tables, ProviderRow, ModelRow, provider_row}
use ait.Store.Providers.{
  provider_id, provider_of, set_provider, new_provider, cascade, insert_provider, write_provider,
  update_provider, delete_provider,
}
use ait.Store.Stored.{
  IsStored, IsProviders, IsFlag, HasProvider, All-map, as_i32-IsFlag, attempt-keeps, if-keeps,
}

-- An appended provider keeps the providers of the models; a deleted one keeps those of the others.
HasProvider-append :
    (rows : List ProviderRow) (row : ProviderRow) (m : ModelRow)
    → HasProvider rows m
    → HasProvider (rows ++ row ∷ []) m
HasProvider-append rows row m h = ground (arith, exists-append provider_id rows row m.provider_id)

HasProvider-delete :
    (rows : List ProviderRow) (id : Text) (m : ModelRow)
    → HasProvider rows m
    → text_eq id m.provider_id ≡ false
    → HasProvider (delete_where provider_id rows id) m
unfolding exists
HasProvider-delete rows id m h apart =
    ground (arith, select-delete_where provider_id rows id m.provider_id)

-- The models that a cascade leaves have another provider.
owned-delete :
    (rows : List ProviderRow) (id : Text) (models : List ModelRow)
    → All (HasProvider rows) models
    → All (HasProvider (delete_where provider_id rows id)) (delete_where provider_of models id)
unfolding delete_where
owned-delete rows id [] h = tt
owned-delete rows id (m ∷ models) (p, h) = ground (
  arith,
  owned-delete rows id models h,
  HasProvider-delete rows id m p,
  text_eq_iff id m.provider_id,
  text_eq_iff m.provider_id id,
)

-- Without the row there is nothing to cascade to.
owned-absent :
    (rows : List ProviderRow) (id : Text)
    → exists provider_id rows id ≡ false
    → (m : ModelRow) → HasProvider rows m
    → HasProvider (delete_where provider_id rows id) m
owned-absent rows id absent m h =
    ground (arith, HasProvider-delete rows id m h, text_eq_iff id m.provider_id)

module _ (c : Chrono) (engine : Engine) where
  pub insert_provider-IsStored :
      (uuid : Text) (now : DateTime) (db : Tables) (given : Provider)
      → IsStored db
      → IsStored (insert_provider c engine uuid now db given).0
  unfolding insert_provider provider_row new_provider
  insert_provider-IsStored uuid now db given h =
      let ((ids, flags), (names, mids, mflags, owned), keys) = h in
      let p = new_provider uuid now given in
      let row = provider_row c p in
      attempt-keeps IsStored engine.execute db _ h (
        if-keeps IsStored (exists provider_id db.providers p.id) _ _ (λ _. h)
          (λ new. (
            (
              append-IsUnique provider_id db.providers row ids new,
              All-append (λ (r : ProviderRow). IsFlag r.enabled) db.providers row flags
                  (as_i32-IsFlag given.enabled),
            ),
            (names, mids, mflags, All-map db.models (HasProvider-append db.providers row) owned),
            keys,
          )))

  write_provider-IsStored :
      (db : Tables) (id : Text) (p : Provider)
      → IsStored db
      → IsStored (write_provider c engine db id p).0
  unfolding write_provider set_provider
  write_provider-IsStored db id p h =
      let ((ids, flags), (names, mids, mflags, owned), keys) = h in
      let f = set_provider c p in
      attempt-keeps IsStored engine.execute db _ h (
        attempt-keeps IsStored engine.commit db _ h (
          (
            update_where-IsUnique provider_id provider_id f (λ r. refl) db.providers id ids,
            All-update_where (λ (r : ProviderRow). IsFlag r.enabled) provider_id f db.providers id
                (λ r _. as_i32-IsFlag p.enabled) flags,
          ),
          (
            names,
            mids,
            mflags,
            All-map db.models
                (λ m k.
                  exists-update_where provider_id provider_id f (λ r. refl) db.providers id
                    m.provider_id
                  ∙ k)
                owned,
          ),
          keys,
        ))

  pub update_provider-IsStored :
      (now : DateTime) (db : Tables) (updates : ProviderUpdate)
      → IsStored db
      → IsStored (update_provider c engine now db updates).0
  unfolding update_provider
  update_provider-IsStored now db updates h = attempt-keeps IsStored engine.begin db _ h (
      attempt-keeps IsStored engine.query db _ h
        (elim (Option-cases (select provider_id db.providers updates.id)) [
          | inl absent ↦ rw absent h
          | inr (row, found) ↦ rw found (write_provider-IsStored db updates.id _ h)
        ]))

  pub delete_provider-IsStored :
      (db : Tables) (id : Text) → IsStored db → IsStored (delete_provider c engine db id).0
  unfolding delete_provider cascade
  delete_provider-IsStored db id h =
      let ((ids, flags), (names, mids, mflags, owned), keys) = h in
      let providers : IsProviders (delete_where provider_id db.providers id) = (
        delete_where-IsUnique provider_id provider_id db.providers id ids,
        All-delete_where (λ (r : ProviderRow). IsFlag r.enabled) provider_id db.providers id flags,
      ) in
      attempt-keeps IsStored engine.execute db _ h
        (elim (Bool-cases (exists provider_id db.providers id)) [
          | inl there ↦ rw there (
            providers,
            (
              delete_where-IsUnique provider_of (λ r. r.name) db.models id names,
              delete_where-IsUnique provider_of (λ r. r.id) db.models id mids,
              All-delete_where (λ (r : ModelRow). IsFlag r.enabled) provider_of db.models id mflags,
              owned-delete db.providers id db.models owned,
            ),
            keys,
          )
          | inr absent ↦ rw absent (
            providers,
            (names, mids, mflags, All-map db.models (owned-absent db.providers id absent) owned),
            keys,
          )
        ])
