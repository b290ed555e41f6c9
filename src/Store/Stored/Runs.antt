-- ===== src/Store/Stored/Runs.antt =====
-- Every run of the operations of src/db/store/ keeps the tables stored.
use ait.Base.{List, [], ◌∷◌, Text}
use ait.Store.Schema.{Chrono, Engine, Tables}
use ait.Store.Commands.{Command, step, run}
use ait.Store.Stored.{IsStored}
use ait.Store.Stored.ByProviders.{
  insert_provider-IsStored, update_provider-IsStored, delete_provider-IsStored,
}
use ait.Store.Stored.ByModels.{insert_model-IsStored, update_model-IsStored, delete_model-IsStored}
use ait.Store.Stored.ByKeys.{
  insert_api_key-IsStored, update_api_key-IsStored, delete_api_key-IsStored,
}

module _ (hash_key : Text → Text) (c : Chrono) where
  pub step-IsStored :
      (command : Engine × Command) (db : Tables)
      → IsStored db
      → IsStored (step hash_key c command db)
  unfolding step
  step-IsStored (engine, Command.insert_provider uuid now p) db h =
      insert_provider-IsStored c engine uuid now db p h
  step-IsStored (engine, Command.update_provider now u) db h =
      update_provider-IsStored c engine now db u h
  step-IsStored (engine, Command.delete_provider id) db h =
      delete_provider-IsStored c engine db id h
  step-IsStored (engine, Command.insert_model uuid now m) db h =
      insert_model-IsStored c engine uuid now db m h
  step-IsStored (engine, Command.update_model now u) db h =
      update_model-IsStored c engine now db u h
  step-IsStored (engine, Command.delete_model name) db h = delete_model-IsStored c engine db name h
  step-IsStored (engine, Command.insert_api_key draws uuid now name expires_at) db h =
      insert_api_key-IsStored c engine hash_key draws uuid now db name expires_at h
  step-IsStored (engine, Command.update_api_key now u) db h =
      update_api_key-IsStored c engine now db u h
  step-IsStored (engine, Command.delete_api_key id) db h = delete_api_key-IsStored c engine db id h

  -- In tables whose ids, model names and key hashes are unique, whose models all have a provider and
  -- whose flags are 0 or 1, any run of writing operations, each with any answers of SQLite, leaves
  -- tables of which the same holds.
  pub run-IsStored :
      (commands : List (Engine × Command)) (db : Tables)
      → IsStored db
      → IsStored (run hash_key c commands db)
  unfolding run
  run-IsStored [] db h = h
  run-IsStored (command ∷ commands) db h =
      run-IsStored commands (step hash_key c command db) (step-IsStored command db h)
