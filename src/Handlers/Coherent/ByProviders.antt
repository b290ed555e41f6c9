-- ===== src/Handlers/Coherent/ByProviders.antt =====
-- src/handlers/providers.rs keeps the caches coherent.
use ait.Base.{◌≡◌, ◌≢◌, refl, sym, ap, ◌∙◌, Bool, true, false, Option, none, some, [], Text, ok}
use ait.Db.{Provider, ProviderUpdate}
use ait.Store.Rows.{exists}
use ait.Store.Schema.{Tables, provider_row}
use ait.Store.Providers.{
  provider_id, set_provider, insert_provider, update_provider, delete_provider,
}
use ait.Store.Stored.{IsStored}
use ait.Store.Stored.ByProviders.{
  insert_provider-IsStored, update_provider-IsStored, delete_provider-IsStored,
}
use ait.Store.View.{Shows, put, without_provider}
use ait.Store.View.Changes.{
  insert_provider-Reports, update_provider-Reports, delete_provider-Reports, absent-without,
}
use ait.Handlers.Console.{Console, lost, Platform, Url, Call, Reply}
use ait.Handlers.Providers as ProviderHandlers
use ait.Handlers.Providers.{
  CreateProviderRequest, UpdateProviderRequest, on_created, on_updated, on_deleted, evict_provider,
  insert_checked, update_checked, checked_host, checked_change,
}
use ait.Ssrf.Check.{check_ssrf_config}
use ait.Handlers.Coherent.{view, IsCoherent}
use ait.Handlers.Coherent.Maps.{put-other, put-absent, adjust-other}
use ait.Handlers.Coherent.Keeps.{
  valid-keeps, on_database-keeps, Shows-ok, Shows-err, view-Shows, same-IsCoherent,
  log_audit-IsCoherent,
}
use ait.Handlers.Coherent.OneProvider.{
  insert_provider-new, delete_provider-missed, absent-row, without-other, created-IsCoherent,
  evict_provider-IsCoherent,
}

module _ {Upstream : Type 0} (platform : Platform) (create_provider : Provider → Upstream)
    (call : Call) (there : call.task ≢ lost true) where
  abbrev IsGood : Console Upstream → Type 0
  IsGood = IsCoherent platform.chrono create_provider

  checked_host-keeps :
      {A : Type 0} (s : Console Upstream) (url : Url) (rest : Console Upstream → Reply Upstream A)
      → IsGood s
      → ((s' : Console Upstream) → IsGood s' → IsGood (rest s').1)
      → IsGood (checked_host platform call s url rest).1
  unfolding checked_host
  checked_host-keeps s url rest h k =
      let cache =
        (check_ssrf_config platform.parse_ip platform.allowed_cidrs s.ssrf_dns_cache call.now
          call.later call.lookup url.host_str).1 in
      let good : IsGood (record s { ssrf_dns_cache = cache }) = record {
        stored = h.stored;
        models = h.models;
        unknown = h.unknown;
        upstreams = h.upstreams;
      } in
      valid-keeps IsGood call _ _ _ good (λ _. k _ good)

  insert_checked-IsCoherent :
      (s : Console Upstream) (input : CreateProviderRequest) (name : Text) (url : Url)
      (api_key : Option Text)
      → IsGood s
      → IsGood (insert_checked platform call s input name url api_key).1
  unfolding insert_checked on_created
  insert_checked-IsCoherent s input name url api_key h =
      let c = platform.chrono in
      let given : Provider = record {
        id = [];
        name = name;
        provider_type = input.provider_type;
        base_url = url.text;
        api_key = api_key;
        enabled = input.enabled;
        created_at = c.unix_epoch;
        updated_at = c.unix_epoch;
      } in
      let r = insert_provider c call.engine call.uuid call.stamp s.tables given in
      let stored =
        insert_provider-IsStored c call.engine call.uuid call.stamp s.tables given h.stored in
      let reports =
        insert_provider-Reports c call.engine s.tables (view s.tables) (view-Shows s.tables)
          call.uuid call.stamp given in
      on_database-keeps IsGood call s r (on_created call) h there
        (λ e failed.
          same-IsCoherent c create_provider s r.0 h stored
            (Shows-err (view s.tables) _ r e reports failed))
        (λ p done. log_audit-IsCoherent c create_provider call _ _ _ _ (
          created-IsCoherent c create_provider s r.0 p.id (provider_row c p) h stored
            (Shows-ok (view s.tables) _ r p reports done)
            (insert_provider-new c call.engine call.uuid call.stamp s.tables given p done)))

  pub create_provider-IsCoherent :
      (s : Console Upstream) (input : CreateProviderRequest)
      → IsGood s
      → IsGood (ProviderHandlers.create_provider platform call s input).1
  unfolding ProviderHandlers.create_provider
  create_provider-IsCoherent s input h = valid-keeps IsGood call s _ _ h (λ name.
      valid-keeps IsGood call s _ _ h (λ url. checked_host-keeps s url _ h (λ s' h'.
        valid-keeps IsGood call s' _ _ h'
          (λ api_key. insert_checked-IsCoherent s' input name url api_key h'))))

  update_checked-IsCoherent :
      (s : Console Upstream) (updates : ProviderUpdate)
      → IsGood s
      → IsGood (update_checked platform call s updates).1
  unfolding update_checked on_updated
  update_checked-IsCoherent s updates h =
      let c = platform.chrono in
      let r = update_provider c call.engine call.stamp s.tables updates in
      let stored = update_provider-IsStored c call.engine call.stamp s.tables updates h.stored in
      let reports =
        update_provider-Reports c call.engine s.tables (view s.tables) (view-Shows s.tables)
          call.stamp updates in
      on_database-keeps IsGood call s r (on_updated call updates.id) h there
        (λ e failed.
          same-IsCoherent c create_provider s r.0 h stored
            (Shows-err (view s.tables) _ r e reports failed))
        (λ p done. log_audit-IsCoherent c create_provider call _ _ _ _ (
          evict_provider-IsCoherent c create_provider s r.0 updates.id _ h stored
            (Shows-ok (view s.tables) _ r p reports done)
            (λ j other. adjust-other (view s.tables).provider updates.id (set_provider c p) j other)
            (λ n row is_model _. is_model)))

  checked_change-keeps :
      {A : Type 0} (s : Console Upstream) (url : Option Url)
      (rest : Console Upstream → Reply Upstream A)
      → IsGood s
      → ((s' : Console Upstream) → IsGood s' → IsGood (rest s').1)
      → IsGood (checked_change platform call s url rest).1
  unfolding checked_change
  checked_change-keeps s none rest h k = k s h
  checked_change-keeps s (some url) rest h k = checked_host-keeps s url rest h k

  pub update_provider-IsCoherent :
      (s : Console Upstream) (id : Text) (input : UpdateProviderRequest)
      → IsGood s
      → IsGood (ProviderHandlers.update_provider platform call s id input).1
  unfolding ProviderHandlers.update_provider
  update_provider-IsCoherent s id input h = valid-keeps IsGood call s _ _ h (λ name.
      valid-keeps IsGood call s _ _ h (λ url.
        valid-keeps IsGood call s _ _ h
          (λ api_key. checked_change-keeps s url _ h (λ s' h'. update_checked-IsCoherent s' _ h'))))

  -- A deletion that found nothing changed nothing.
  delete_provider-done :
      (s : Console Upstream) (id : Text) (after : Tables) (deleted : Bool)
      → IsGood s
      → IsStored after
      → Shows after (record (view s.tables) {
        provider = put (view s.tables).provider id none;
        model = without_provider id (view s.tables).model;
      })
      → (deleted ≡ false → exists provider_id s.tables.providers id ≡ false)
      → IsGood (on_deleted call id deleted (record s { tables = after })).1
  unfolding on_deleted
  delete_provider-done s id after true h stored shows missed =
      let c = platform.chrono in
      log_audit-IsCoherent c create_provider call _ _ _ _ (
        evict_provider-IsCoherent c create_provider s after id _ h stored shows
          (λ j other. put-other (view s.tables).provider id none j other)
          (λ n row is_model other. without-other (view s.tables).model id n row is_model other))
  delete_provider-done s id after false h stored (providers, models, keys) missed =
      let v = view s.tables in
      same-IsCoherent platform.chrono create_provider s after h stored (
        (λ j. providers j ∙ put-absent v.provider id j (absent-row s.tables id (missed refl))),
        (λ n.
            models n
            ∙ sym (
                absent-without platform.chrono call.engine s.tables v (view-Shows s.tables) h.stored
                  id n (missed refl))),
        keys,
      )

  pub delete_provider-IsCoherent :
      (s : Console Upstream) (id : Text)
      → IsGood s
      → IsGood (ProviderHandlers.delete_provider platform call s id).1
  unfolding ProviderHandlers.delete_provider
  delete_provider-IsCoherent s id h =
      let c = platform.chrono in
      let r = delete_provider c call.engine s.tables id in
      let stored = delete_provider-IsStored c call.engine s.tables id h.stored in
      let reports =
        delete_provider-Reports c call.engine s.tables (view s.tables) (view-Shows s.tables)
          h.stored id in
      on_database-keeps IsGood call s r (on_deleted call id) h there
        (λ e failed.
          same-IsCoherent c create_provider s r.0 h stored
            (Shows-err (view s.tables) _ r e reports failed))
        (λ deleted done.
          delete_provider-done s id r.0 deleted h stored
            (Shows-ok (view s.tables) _ r deleted reports done)
            (λ missed. delete_provider-missed c call.engine s.tables id (done ∙ ap ok missed)))
