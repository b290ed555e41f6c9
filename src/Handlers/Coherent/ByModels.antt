-- ===== src/Handlers/Coherent/ByModels.antt =====
-- src/handlers/models.rs keeps the caches coherent.
use ait.Base.{◌≡◌, ◌≢◌, refl, ap, ◌∙◌, Bool, true, false, none, some, [], Text, ok}
use ait.Db.{Model, Provider, ModelUpdate}
use ait.Store.Rows.{select}
use ait.Store.Schema.{Tables, model_row}
use ait.Store.Providers.{provider_id}
use ait.Store.Models.{model_name, set_model, insert_model, update_model, delete_model}
use ait.Store.Stored.{IsStored}
use ait.Store.Stored.ByModels.{insert_model-IsStored, update_model-IsStored, delete_model-IsStored}
use ait.Store.View.{Shows, put}
use ait.Store.View.Changes.{insert_model-Reports, update_model-Reports, delete_model-Reports}
use ait.Handlers.Console.{Console, lost, Platform, Call}
use ait.Handlers.Models as ModelHandlers
use ait.Handlers.Models.{
  CreateModelRequest, UpdateModelRequest, validated, transposed, on_created, on_updated, on_deleted,
  insert_validated, update_validated,
}
use ait.Handlers.Coherent.{view, found_in, IsCoherent}
use ait.Handlers.Coherent.Maps.{put-other, put-same, put-absent, adjust-other}
use ait.Handlers.Coherent.Entries.{found-Shows}
use ait.Handlers.Coherent.Keeps.{
  valid-keeps, on_database-keeps, Shows-ok, Shows-err, view-Shows, same-IsCoherent,
  log_audit-IsCoherent,
}
use ait.Handlers.Coherent.OneModel.{
  insert_model-new, delete_model-missed, found-none, evicted-IsCoherent, created-IsCoherent,
  deleted-IsCoherent,
}

module _ {Upstream : Type 0} (platform : Platform) (create_provider : Provider → Upstream)
    (call : Call) (there : call.task ≢ lost true) where
  abbrev IsGood : Console Upstream → Type 0
  IsGood = IsCoherent platform.chrono create_provider

  insert_validated-IsCoherent :
      (s : Console Upstream) (name provider_id upstream_model : Text) (enabled : Bool)
      → IsGood s
      → IsGood (insert_validated platform call s name provider_id upstream_model enabled).1
  unfolding insert_validated on_created
  insert_validated-IsCoherent s name provider_id upstream_model enabled h =
      let c = platform.chrono in
      let given : Model = record {
        id = [];
        name = name;
        provider_id = provider_id;
        upstream_model = upstream_model;
        enabled = enabled;
        created_at = c.unix_epoch;
        updated_at = c.unix_epoch;
      } in
      let r = insert_model c call.engine call.uuid call.stamp s.tables given in
      let stored =
        insert_model-IsStored c call.engine call.uuid call.stamp s.tables given h.stored in
      let reports =
        insert_model-Reports c call.engine s.tables (view s.tables) (view-Shows s.tables) call.uuid
          call.stamp given in
      on_database-keeps IsGood call s r (on_created call) h there
        (λ e failed.
          same-IsCoherent c create_provider s r.0 h stored
            (Shows-err (view s.tables) _ r e reports failed))
        (λ m done.
          let new = insert_model-new c call.engine call.uuid call.stamp s.tables given m done in
          let shows = Shows-ok (view s.tables) _ r m reports done in
          log_audit-IsCoherent c create_provider call _ _ _ _ (
            created-IsCoherent c create_provider s r.0 m.name _ h stored shows
              (λ n other. put-other (view s.tables).model m.name (some (model_row c m)) n other)
              (found-none c s.tables m.name h.stored new)))

  pub create_model-IsCoherent :
      (s : Console Upstream) (input : CreateModelRequest)
      → IsGood s
      → IsGood (ModelHandlers.create_model platform call s input).1
  unfolding ModelHandlers.create_model
  create_model-IsCoherent s input h = valid-keeps IsGood call s _ _ h (λ name.
      valid-keeps IsGood call s _ _ h (λ provider_id.
        valid-keeps IsGood call s _ _ h (λ upstream_model.
          insert_validated-IsCoherent s name provider_id upstream_model input.enabled h)))

  update_validated-IsCoherent :
      (s : Console Upstream) (updates : ModelUpdate)
      → IsGood s
      → IsGood (update_validated platform call s updates).1
  unfolding update_validated on_updated
  update_validated-IsCoherent s updates h =
      let c = platform.chrono in
      let r = update_model c call.engine call.stamp s.tables updates in
      let stored = update_model-IsStored c call.engine call.stamp s.tables updates h.stored in
      let reports =
        update_model-Reports c call.engine s.tables (view s.tables) (view-Shows s.tables) call.stamp
          updates in
      on_database-keeps IsGood call s r (on_updated call updates.name) h there
        (λ e failed.
          same-IsCoherent c create_provider s r.0 h stored
            (Shows-err (view s.tables) _ r e reports failed))
        (λ m done. log_audit-IsCoherent c create_provider call _ _ _ _ (
          evicted-IsCoherent c create_provider s r.0 updates.name _ h stored
            (Shows-ok (view s.tables) _ r m reports done)
            (λ n other. adjust-other (view s.tables).model updates.name (set_model c m) n other)))

  pub update_model-IsCoherent :
      (s : Console Upstream) (name : Text) (input : UpdateModelRequest)
      → IsGood s
      → IsGood (ModelHandlers.update_model platform call s name input).1
  unfolding ModelHandlers.update_model
  update_model-IsCoherent s name input h = valid-keeps IsGood call s _ _ h (λ model_name.
      valid-keeps IsGood call s _ _ h (λ provider_id.
        valid-keeps IsGood call s _ _ h (λ upstream_model. update_validated-IsCoherent s _ h)))

  -- A deletion that found nothing changed nothing.
  delete_model-done :
      (s : Console Upstream) (name : Text) (after : Tables) (deleted : Bool)
      → IsGood s
      → IsStored after
      → Shows after (record (view s.tables) { model = put (view s.tables).model name none })
      → (deleted ≡ false → select model_name s.tables.models name ≡ none)
      → IsGood (on_deleted call name deleted (record s { tables = after })).1
  unfolding on_deleted found_in
  delete_model-done s name after true h stored shows missed =
      let c = platform.chrono in
      log_audit-IsCoherent c create_provider call _ _ _ _ (
        deleted-IsCoherent c create_provider s after name _ h stored shows
          (λ n other. put-other (view s.tables).model name none n other)
          (found-Shows c after _ name stored shows
            ∙ ap (found_in c (view s.tables).provider) (put-same (view s.tables).model name none)))
  delete_model-done s name after false h stored (providers, models, keys) missed =
      same-IsCoherent platform.chrono create_provider s after h stored
        (providers, (λ n. models n ∙ put-absent (view s.tables).model name n (missed refl)), keys)

  pub delete_model-IsCoherent :
      (s : Console Upstream) (name : Text)
      → IsGood s
      → IsGood (ModelHandlers.delete_model platform call s name).1
  unfolding ModelHandlers.delete_model
  delete_model-IsCoherent s name h =
      let c = platform.chrono in
      let r = delete_model c call.engine s.tables name in
      let stored = delete_model-IsStored c call.engine s.tables name h.stored in
      let reports =
        delete_model-Reports c call.engine s.tables (view s.tables) (view-Shows s.tables) name in
      on_database-keeps IsGood call s r (on_deleted call name) h there
        (λ e failed.
          same-IsCoherent c create_provider s r.0 h stored
            (Shows-err (view s.tables) _ r e reports failed))
        (λ deleted done.
          delete_model-done s name r.0 deleted h stored
            (Shows-ok (view s.tables) _ r deleted reports done)
            (λ missed. delete_model-missed c call.engine s.tables name (done ∙ ap ok missed)))
