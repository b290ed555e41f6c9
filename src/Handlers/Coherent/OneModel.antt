-- ===== src/Handlers/Coherent/OneModel.antt =====
-- Coherence where one model was added, changed or deleted.
use ait.Base.{
  ◌≡◌, sym, ap, subst, ◌∙◌, inl, inr, false, Option, none, some, Text, arith, text_eq, text_eq_iff,
  Bool-cases, Option-cases, ok,
}
use ait.Base.Table.{remove}
use ait.Db.{DateTime, Model, Provider}
use ait.Store.Rows.{select, exists}
use ait.Store.Laws.{matching_iff}
use ait.Store.Schema.{Chrono, Engine, Tables, ModelRow, attempt}
use ait.Store.Models.{model_name, new_model, insert_model, write_new_model, delete_model}
use ait.Store.Stored.{IsStored, All-map}
use ait.Store.View.{Shows}
use ait.Handlers.Console.{Console}
use ait.Handlers.Coherent.{found, view, found_in, upstream_in, IsCoherent}
use ait.Handlers.Coherent.Entries.{All-remove, found-Shows}
use ait.Handlers.Coherent.Keeps.{found-view}

-- A model that was inserted was not there.
pub insert_model-new :
    (c : Chrono) (engine : Engine) (uuid : Text) (now : DateTime) (db : Tables) (given m : Model)
    → (insert_model c engine uuid now db given).1 ≡ ok m
    → select model_name db.models m.name ≡ none
unfolding insert_model write_new_model attempt exists
insert_model-new c engine uuid now db given m h =
    elim (Option-cases (select model_name db.models (new_model uuid now given).name)) [
      | inl free ↦ ground arith
      | inr (row, taken) ↦ ground arith
    ]

pub delete_model-missed :
    (c : Chrono) (engine : Engine) (db : Tables) (name : Text)
    → (delete_model c engine db name).1 ≡ ok false
    → select model_name db.models name ≡ none
unfolding delete_model attempt exists
delete_model-missed c engine db name h = ground (arith, matching_iff model_name db.models name)

pub found-none :
    (c : Chrono) (db : Tables) (name : Text)
    → IsStored db
    → select model_name db.models name ≡ none
    → found c db name ≡ none
unfolding found_in
found-none c db name h absent = found-view c db name h ∙ ap (found_in c (view db).provider) absent

module _ {Upstream : Type 0} (c : Chrono) (create_provider : Provider → Upstream) where
  -- Tables that differ in the model of one name only: the caches without that name are coherent.
  module _ (s : Console Upstream) (after : Tables) (name : Text) (f : Text → Option ModelRow)
      (h : IsCoherent c create_provider s) (stored : IsStored after)
      (shows : Shows after (record (view s.tables) { model = f }))
      (apart : (n : Text) → text_eq n name ≡ false → f n ≡ (view s.tables).model n) where
    found_apart : (n : Text) → text_eq n name ≡ false → found c after n ≡ found c s.tables n
    found_apart n other =
        found-Shows c after _ n stored shows
        ∙ ap (found_in c (view s.tables).provider) (apart n other)
        ∙ sym (found-view c s.tables n h.stored)

    pub evicted-IsCoherent : IsCoherent c create_provider (record s {
      tables = after;
      caches = record s.caches {
        model_cache = remove s.caches.model_cache name;
        negative_model_cache = remove s.caches.negative_model_cache name;
      };
    })
    evicted-IsCoherent = record {
      stored = stored;
      models =
          All-remove s.caches.model_cache name (λ e other k. found_apart e.0 other ∙ k) h.models;
      unknown =
          All-remove s.caches.negative_model_cache name (λ e other k. found_apart e.0 other ∙ k)
            h.unknown;
      upstreams =
          All-map s.caches.provider_cache
            (λ e k. ap (upstream_in c create_provider) (shows.0 e.0) ∙ k) h.upstreams;
    }

    -- Where the name found nothing before, no cached pair has it.
    pub created-IsCoherent :
        found c s.tables name ≡ none
        → IsCoherent c create_provider (record s {
          tables = after;
          caches = record s.caches {
            negative_model_cache = remove s.caches.negative_model_cache name;
          };
        })
    created-IsCoherent missing = record {
      stored = stored;
      models =
          All-map s.caches.model_cache
            (λ e k. elim (Bool-cases (text_eq e.0 name)) [
              | inl same ↦
                  let there : found c s.tables name ≡ some e.1.0 =
                    subst (λ n. found c s.tables n ≡ some e.1.0) ((text_eq_iff e.0 name).0 same)
                      k in
                  ground (arith, there, missing)
              | inr other ↦ found_apart e.0 other ∙ k
            ])
            h.models;
      unknown =
          All-remove s.caches.negative_model_cache name (λ e other k. found_apart e.0 other ∙ k)
            h.unknown;
      upstreams =
          All-map s.caches.provider_cache
            (λ e k. ap (upstream_in c create_provider) (shows.0 e.0) ∙ k) h.upstreams;
    }

    -- Where the name finds nothing now, it may stay cached as unknown.
    pub deleted-IsCoherent :
        found c after name ≡ none
        → IsCoherent c create_provider (record s {
          tables = after;
          caches = record s.caches { model_cache = remove s.caches.model_cache name };
        })
    deleted-IsCoherent missing = record {
      stored = stored;
      models =
          All-remove s.caches.model_cache name (λ e other k. found_apart e.0 other ∙ k) h.models;
      unknown =
          All-map s.caches.negative_model_cache
            (λ e k. elim (Bool-cases (text_eq e.0 name)) [
              | inl same ↦
                  subst (λ n. found c after n ≡ none) (sym ((text_eq_iff e.0 name).0 same)) missing
              | inr other ↦ found_apart e.0 other ∙ k
            ])
            h.unknown;
      upstreams =
          All-map s.caches.provider_cache
            (λ e k. ap (upstream_in c create_provider) (shows.0 e.0) ∙ k) h.upstreams;
    }
