-- ===== src/Store/Commands.antt =====
-- The writing operations of src/db/store/ as values, and runs of them. Each carries what SQLite
-- answers during it, the clock, and the random values that it draws.
use ait.Base.{ℕ, Option, List, [], ◌∷◌, Text}
use ait.Db.{DateTime, Provider, ProviderUpdate, Model, ModelUpdate, ApiKeyUpdate}
use ait.Store.Schema.{Chrono, Engine, Tables}
use ait.Store.Providers
use ait.Store.Models
use ait.Store.ApiKeys

pub data Command : Type 0 where
  insert_provider : Text → DateTime → Provider → Command
  update_provider : DateTime → ProviderUpdate → Command
  delete_provider : Text → Command
  insert_model : Text → DateTime → Model → Command
  update_model : DateTime → ModelUpdate → Command
  delete_model : Text → Command
  insert_api_key : List ℕ → Text → DateTime → Text → Option DateTime → Command
  update_api_key : DateTime → ApiKeyUpdate → Command
  delete_api_key : Text → Command

module _ (hash_key : Text → Text) (c : Chrono) where
  unfoldable pub step : Engine × Command → Tables → Tables
  step (engine, Command.insert_provider uuid now p) db =
      (Providers.insert_provider c engine uuid now db p).0
  step (engine, Command.update_provider now u) db = (Providers.update_provider c engine now db u).0
  step (engine, Command.delete_provider id) db = (Providers.delete_provider c engine db id).0
  step (engine, Command.insert_model uuid now m) db = (Models.insert_model c engine uuid now db m).0
  step (engine, Command.update_model now u) db = (Models.update_model c engine now db u).0
  step (engine, Command.delete_model name) db = (Models.delete_model c engine db name).0
  step (engine, Command.insert_api_key draws uuid now name expires_at) db =
      (ApiKeys.insert_api_key hash_key c engine draws uuid now db name expires_at).0
  step (engine, Command.update_api_key now u) db = (ApiKeys.update_api_key c engine now db u).0
  step (engine, Command.delete_api_key id) db = (ApiKeys.delete_api_key c engine db id).0

  unfoldable pub run : List (Engine × Command) → Tables → Tables
  unfolding step
  run [] db = db
  run (command ∷ commands) db = run commands (step command db)

-- What `create_tables` makes.
abbrev pub empty : Tables
empty = record { providers = []; models = []; api_keys = [] }
