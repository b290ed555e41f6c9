-- ===== src/Handlers/Coherent.antt =====
-- The caches of the proxy path against the tables of the console: src/handlers/proxy/resolve.rs,
-- src/handlers/models.rs and src/handlers/providers.rs together.
pub mod Entries
pub mod Maps
pub mod Keeps
pub mod OneModel
pub mod OneProvider
pub mod ByModels
pub mod ByProviders
pub mod Resolving
pub mod Runs
mod Tests
use ait.Base.{ℕ, ◌≡◌, Bool, true, false, Option, none, some, List, Text, All, if◌then◌else◌}
use ait.Cache.{Instant}
use ait.Db.{Model, Provider}
use ait.Store.Rows.{select}
use ait.Store.Schema.{Chrono, Tables, ProviderRow, ModelRow, row_to_model, row_to_provider}
use ait.Store.Providers.{provider_id}
use ait.Store.Models.{model_name, join_models}
use ait.Store.Resolved.{both_enabled}
use ait.Store.Stored.{IsStored}
use ait.Store.View.{View}
use ait.Handlers.Console.{Console}

-- What `resolve_model` answers where SQLite does not fail.
unfoldable pub found : Chrono → Tables → Text → Option (Model × Provider)
found c db name = elim (join_models name db.models db.providers) [
  | none ↦ none
  | some (m, p) ↦ some (row_to_model c m, row_to_provider c p)
]

-- The maps that the tables stand for.
abbrev pub view : Tables → View
view db = record {
  provider = select provider_id db.providers;
  model = select model_name db.models;
  api_key = select (λ r. r.id) db.api_keys;
}

unfoldable pub found_pair : Chrono → ModelRow → Option ProviderRow → Option (Model × Provider)
unfolding both_enabled
found_pair c m none = none
found_pair c m (some p) =
    if both_enabled m p then some (row_to_model c m, row_to_provider c p) else none

unfoldable pub found_in :
    Chrono → (Text → Option ProviderRow) → Option ModelRow → Option (Model × Provider)
unfolding found_pair
found_in c provider none = none
found_in c provider (some m) = found_pair c m (provider m.provider_id)

module _ {Upstream : Type 0} (c : Chrono) (create_provider : Provider → Upstream) where
  unfoldable pub upstream_in : Option ProviderRow → Option Upstream
  upstream_in none = none
  upstream_in (some row) = some (create_provider (row_to_provider c row))

  -- The tables are stored; a cached pair is what the join finds for its name, a name cached as
  -- unknown finds nothing, and a cached upstream is that of the stored provider.
  pub record IsCoherent (s : Console Upstream) : Type 0 where
    pub stored : IsStored s.tables
    pub models :
        All
          (λ (e : Text × ((Model × Provider) × Instant)). found c s.tables e.0 ≡ some e.1.0)
          s.caches.model_cache
    pub unknown :
        All (λ (e : Text × Instant). found c s.tables e.0 ≡ none) s.caches.negative_model_cache
    pub upstreams :
        All
          (λ (e : Text × (Upstream × Instant)).
            upstream_in (select provider_id s.tables.providers e.0) ≡ some e.1.0)
          s.caches.provider_cache
