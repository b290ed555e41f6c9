-- ===== src/Handlers/Coherent/OneProvider.antt =====
-- Coherence where one provider was added, or was changed and evicted.
use ait.Base.{
  ◌≡◌, refl, sym, ap, subst, ◌∙◌, inl, inr, true, false, not, Option, none, some, Text, arith,
  text_eq, text_eq_iff, Bool-cases, Option-cases, ok,
}
use ait.Db.{DateTime, Model, Provider}
use ait.Store.Rows.{select, exists}
use ait.Store.Laws.{matching_iff}
use ait.Store.Schema.{Chrono, Engine, Tables, ProviderRow, ModelRow, attempt}
use ait.Store.Laws.{select-All}
use ait.Store.Providers.{provider_id, new_provider, insert_provider, delete_provider}
use ait.Store.Models.{model_name}
use ait.Store.Stored.{IsStored, HasProvider, All-map}
use ait.Store.View.{View, Shows, put, without_provider}
use ait.Handlers.Console.{Console}
use ait.Handlers.Providers.{evict_provider}
use ait.Handlers.Coherent.{found, view, found_in, found_pair, upstream_in, IsCoherent}
use ait.Handlers.Coherent.Maps.{put-other}
use ait.Handlers.Coherent.Entries.{All-remove, All-retain, found-Shows, found-some}
use ait.Handlers.Coherent.Keeps.{found-view}

pub insert_provider-new :
    (c : Chrono) (engine : Engine) (uuid : Text) (now : DateTime) (db : Tables) (given p : Provider)
    → (insert_provider c engine uuid now db given).1 ≡ ok p
    → select provider_id db.providers p.id ≡ none
unfolding insert_provider attempt exists
insert_provider-new c engine uuid now db given p h =
    elim (Option-cases (select provider_id db.providers (new_provider uuid now given).id)) [
      | inl free ↦ ground arith
      | inr (row, taken) ↦ ground arith
    ]

pub delete_provider-missed :
    (c : Chrono) (engine : Engine) (db : Tables) (id : Text)
    → (delete_provider c engine db id).1 ≡ ok false
    → exists provider_id db.providers id ≡ false
unfolding delete_provider attempt
delete_provider-missed c engine db id h = ground (arith, matching_iff provider_id db.providers id)

pub absent-row :
    (db : Tables) (id : Text)
    → exists provider_id db.providers id ≡ false
    → select provider_id db.providers id ≡ none
unfolding exists
absent-row db id h = ground arith

pub without-other :
    (f : Text → Option ModelRow) (id name : Text) (row : ModelRow)
    → f name ≡ some row
    → text_eq row.provider_id id ≡ false
    → without_provider id f name ≡ some row
without-other f id name row there other = ground arith

-- A key with an entry differs from one without.
keys_apart :
    {R : Type 0} (f : Text → Option R) (j k : Text) (r : R)
    → f j ≡ some r
    → f k ≡ none
    → text_eq j k ≡ false
keys_apart f j k r there absent = elim (Bool-cases (text_eq j k)) [
  | inl same ↦
      let here : f k ≡ some r = subst (λ x. f x ≡ some r) ((text_eq_iff j k).0 same) there in
      ground (arith, here, absent)
  | inr other ↦ other
]

module _ {Upstream : Type 0} (c : Chrono) (create_provider : Provider → Upstream) where
  upstream-there :
      (row : Option ProviderRow) (u : Upstream)
      → upstream_in c create_provider row ≡ some u
      → (r : ProviderRow) × (row ≡ some r)
  unfolding upstream_in
  upstream-there none u h = ground arith
  upstream-there (some r) u h = (r, refl)

  -- A new provider has no models yet.
  found-created :
      (s : Console Upstream) (after : Tables) (id name : Text) (row : ProviderRow)
      → IsStored s.tables
      → IsStored after
      → Shows after
          (record (view s.tables) { provider = put (view s.tables).provider id (some row) })
      → select provider_id s.tables.providers id ≡ none
      → found c after name ≡ found c s.tables name
  unfolding found_in exists
  found-created s after id name row h stored shows new =
      let v = view s.tables in
      let (_, (_, _, _, owned), _) = h in
      found-Shows c after _ name stored shows
      ∙ (elim (Option-cases (v.model name)) [
        | inl nothing ↦ rw nothing refl
        | inr (m, there) ↦
            let has : exists provider_id s.tables.providers m.provider_id ≡ true =
              select-All (HasProvider s.tables.providers) model_name s.tables.models name m owned
                there in
            let apart : text_eq m.provider_id id ≡ false =
              (elim (Option-cases (select provider_id s.tables.providers m.provider_id)) [
                | inl none_there ↦ ground arith
                | inr (p, is_there) ↦
                    keys_apart (select provider_id s.tables.providers) m.provider_id id p is_there
                      new
              ]) in
            rw there (ap (found_pair c m) (put-other v.provider id (some row) m.provider_id apart))
      ])
      ∙ sym (found-view c s.tables name h)

  pub created-IsCoherent :
      (s : Console Upstream) (after : Tables) (id : Text) (row : ProviderRow)
      → IsCoherent c create_provider s
      → IsStored after
      → Shows after
          (record (view s.tables) { provider = put (view s.tables).provider id (some row) })
      → select provider_id s.tables.providers id ≡ none
      → IsCoherent c create_provider (record s { tables = after })
  created-IsCoherent s after id row h stored shows new = record {
    stored = stored;
    models =
        All-map s.caches.model_cache
          (λ e p. found-created s after id e.0 row h.stored stored shows new ∙ p) h.models;
    unknown =
        All-map s.caches.negative_model_cache
          (λ e p. found-created s after id e.0 row h.stored stored shows new ∙ p) h.unknown;
    upstreams =
        All-map s.caches.provider_cache
          (λ e p.
            let (r, there) = upstream-there (select provider_id s.tables.providers e.0) e.1.0 p in
            let apart = keys_apart (select provider_id s.tables.providers) e.0 id r there new in
            ap (upstream_in c create_provider)
              (shows.0 e.0 ∙ put-other (view s.tables).provider id (some row) e.0 apart)
            ∙ p)
          h.upstreams;
  }

  -- Tables that differ in one provider and in its models only.
  module _ (s : Console Upstream) (after : Tables) (id : Text) (v : View)
      (h : IsCoherent c create_provider s) (stored : IsStored after) (shows : Shows after v)
      (providers_apart : (j : Text)
        → text_eq j id ≡ false
        → v.provider j ≡ (view s.tables).provider j)
      (models_apart : (n : Text) (row : ModelRow)
        → (view s.tables).model n ≡ some row
        → text_eq row.provider_id id ≡ false
        → v.model n ≡ some row) where
    found_other :
        (name : Text) (m : Model) (p : Provider)
        → not (text_eq p.id id) ≡ true
        → found c s.tables name ≡ some (m, p)
        → found c after name ≡ some (m, p)
    unfolding found_in
    found_other name m p other before =
        let (row, is_model, owner, _) = found-some c s.tables name m p h.stored before in
        let apart : text_eq row.provider_id id ≡ false = rw owner (ground arith) in
        found-Shows c after v name stored shows
        ∙ ap (found_in c v.provider) (models_apart name row is_model apart)
        ∙ ap (found_pair c row) (providers_apart row.provider_id apart)
        ∙ ap (found_in c (view s.tables).provider) (sym is_model)
        ∙ sym (found-view c s.tables name h.stored)
        ∙ before

    pub evict_provider-IsCoherent :
        IsCoherent c create_provider (evict_provider id (record s { tables = after }))
    unfolding evict_provider
    evict_provider-IsCoherent = record {
      stored = stored;
      models =
          All-retain s.caches.model_cache (λ name e. not (text_eq e.0.1.id id))
            (λ e other p. found_other e.0 e.1.0.0 e.1.0.1 other p) h.models;
      unknown = tt;
      upstreams =
          All-remove s.caches.provider_cache id
            (λ e other p.
              ap (upstream_in c create_provider) (shows.0 e.0 ∙ providers_apart e.0 other) ∙ p)
            h.upstreams;
    }
