-- ===== src/Store/Resolved.antt =====
-- src/db/store/models.rs, resolve_model: the join against two lookups by key.
use ait.Base.{
  ℕ, ◌≡◌, refl, ◌↔◌, inl, inr, Bool, true, false, Option, none, some, List, [], ◌∷◌, arith, ◌==◌,
  ◌&&◌, if◌then◌else◌, Bool-cases, Option-cases, Text, text_eq, text_eq_iff, ok,
}
use ait.Db.{Provider, Model}
use ait.Store.Rows.{select, exists, IsUnique}
use ait.Store.Laws.{select-All}
use ait.Store.Schema.{
  Chrono, Engine, Tables, ProviderRow, ModelRow, to_storage, row_to_provider, row_to_model,
  is_nonzero,
}
use ait.Store.Providers.{provider_id, get_provider}
use ait.Store.Models.{model_name, join_provider, join_models, resolve_model, get_model}
use ait.Store.Stored.{IsStored, IsFlag}

-- The test of the WHERE clause on a pair of rows.
unfoldable pub both_enabled : ModelRow → ProviderRow → Bool
both_enabled m p = m.enabled == 1 && p.enabled == 1

unfoldable pub enabled_pair : ModelRow → Option ProviderRow → Option (ModelRow × ProviderRow)
unfolding both_enabled
enabled_pair m none = none
enabled_pair m (some p) = if both_enabled m p then some (m, p) else none

unfoldable pub provided : List ProviderRow → Option ModelRow → Option (ModelRow × ProviderRow)
unfolding enabled_pair
provided providers none = none
provided providers (some m) = enabled_pair m (select provider_id providers m.provider_id)

join_provider-other :
    (name : Text) (m : ModelRow) (providers : List ProviderRow)
    → text_eq m.name name ≡ false
    → join_provider name m providers ≡ none
unfolding join_provider
join_provider-other name m [] other = refl
join_provider-other name m (p ∷ providers) other =
    ground (arith, join_provider-other name m providers other)

join_provider-absent :
    (name : Text) (m : ModelRow) (providers : List ProviderRow)
    → select provider_id providers m.provider_id ≡ none
    → join_provider name m providers ≡ none
unfolding join_provider select
join_provider-absent name m [] absent = refl
join_provider-absent name m (p ∷ providers) absent =
    ground (arith, join_provider-absent name m providers)

join_provider-eq :
    (name : Text) (m : ModelRow) (providers : List ProviderRow)
    → IsUnique provider_id providers
    → text_eq m.name name ≡ true
    → join_provider name m providers ≡ enabled_pair m (select provider_id providers m.provider_id)
unfolding join_provider select enabled_pair exists both_enabled
join_provider-eq name m [] unique same = refl
join_provider-eq name m (p ∷ providers) (new, unique) same = ground (
  arith,
  join_provider-eq name m providers unique same,
  join_provider-absent name m providers,
  text_eq_iff p.id m.provider_id,
)

join_models-other :
    (name : Text) (models : List ModelRow) (providers : List ProviderRow)
    → select model_name models name ≡ none
    → join_models name models providers ≡ none
unfolding join_models select
join_models-other name [] providers other = refl
join_models-other name (m ∷ models) providers other =
    ground (arith, join_models-other name models providers, join_provider-other name m providers)

pub join_models-eq :
    (name : Text) (models : List ModelRow) (providers : List ProviderRow)
    → IsUnique model_name models
    → IsUnique provider_id providers
    → join_models name models providers ≡ provided providers (select model_name models name)
unfolding join_models select provided exists
join_models-eq name [] providers _ _ = refl
join_models-eq name (m ∷ models) providers (new, unique) ids =
    elim (Bool-cases (text_eq m.name name)) [
      | inl same ↦
          elim (Option-cases (enabled_pair m (select provider_id providers m.provider_id))) [
            | inl hidden ↦ ground (
              arith,
              join_provider-eq name m providers ids same,
              join_models-other name models providers,
              text_eq_iff m.name name,
            )
            | inr (found, here) ↦ ground (arith, join_provider-eq name m providers ids same)
          ]
      | inr apart ↦ ground (
        arith,
        join_models-eq name models providers unique ids,
        join_provider-other name m providers apart,
      )
    ]

flag_test : (n : ℕ) → IsFlag n → (n == 1) ≡ is_nonzero n
flag_test n h = ground arith

-- What the proxy path should get: the model of that name and its provider, where both are enabled.
abbrev pub Resolves : Chrono → Engine → Tables → Text → Model → Provider → Type 0
Resolves c engine db name m p =
    (get_model c engine db name ≡ ok (some m))
    × (get_provider c engine db m.provider_id ≡ ok (some p))
    × (m.enabled ≡ true)
    × (p.enabled ≡ true)

module _ (c : Chrono) (engine : Engine) where
  -- In stored tables the join of `resolve_model` finds a model and a provider exactly when
  -- `get_model` finds that model by its name, `get_provider` finds that provider by the model's
  -- provider id, and both are enabled.
  pub resolve_model_iff :
      (db : Tables) (name : Text) (m : Model) (p : Provider)
      → IsStored db
      → (resolve_model c engine db name ≡ ok (some (m, p))) ↔ Resolves c engine db name m p
  unfolding resolve_model get_model get_provider to_storage provided enabled_pair both_enabled
      row_to_model row_to_provider
  resolve_model_iff db name m p ((ids, flags), (names, mids, mflags, owned), keys) =
      rw (join_models-eq name db.models db.providers names ids)
        (elim (Option-cases (select model_name db.models name)) [
          | inl absent ↦ ground arith
          | inr (row, found) ↦
              elim (Option-cases (select provider_id db.providers row.provider_id)) [
                | inl none_there ↦ ground arith
                | inr (prow, pfound) ↦
                    let f = flag_test row.enabled (
                      select-All (λ (r : ModelRow). IsFlag r.enabled) model_name db.models name row
                        mflags found) in
                    let g = flag_test prow.enabled (
                      select-All (λ (r : ProviderRow). IsFlag r.enabled) provider_id db.providers
                        row.provider_id prow flags pfound) in
                    ground (arith, f, g)
              ]
        ])
