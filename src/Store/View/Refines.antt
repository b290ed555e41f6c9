-- ===== src/Store/View/Refines.antt =====
-- Runs of the operations of src/db/store/ against runs on the maps.
use ait.Base.{List, [], ◌∷◌, Text}
use ait.Store.Schema.{Chrono, Engine, Tables}
use ait.Store.Commands.{Command, step, run}
use ait.Store.Stored.{IsStored}
use ait.Store.Stored.Runs.{step-IsStored}
use ait.Store.View.{View, Shows, effect, replay}
use ait.Store.View.Changes.{
  insert_provider-Reports, update_provider-Reports, delete_provider-Reports, insert_model-Reports,
  update_model-Reports, delete_model-Reports,
}
use ait.Store.View.KeyChanges.{
  insert_api_key-Reports, update_api_key-Reports, delete_api_key-Reports,
}

module _ (hash_key : Text → Text) (c : Chrono) where
  step_refines :
      (command : Engine × Command) (db : Tables) (v : View)
      → IsStored db
      → Shows db v
      → Shows (step hash_key c command db) (effect hash_key c command db v)
  unfolding step effect
  step_refines (e, Command.insert_provider uuid now p) db v h s =
      insert_provider-Reports c e db v s uuid now p
  step_refines (e, Command.update_provider now u) db v h s =
      update_provider-Reports c e db v s now u
  step_refines (e, Command.delete_provider id) db v h s = delete_provider-Reports c e db v s h id
  step_refines (e, Command.insert_model uuid now m) db v h s =
      insert_model-Reports c e db v s uuid now m
  step_refines (e, Command.update_model now u) db v h s = update_model-Reports c e db v s now u
  step_refines (e, Command.delete_model name) db v h s = delete_model-Reports c e db v s name
  step_refines (e, Command.insert_api_key draws uuid now name expires_at) db v h s =
      insert_api_key-Reports c e db v s hash_key draws uuid now name expires_at
  step_refines (e, Command.update_api_key now u) db v h s = update_api_key-Reports c e db v s now u
  step_refines (e, Command.delete_api_key id) db v h s = delete_api_key-Reports c e db v s id

  -- Stored tables refine three maps, of providers by id, of models by name and of API keys by id:
  -- when the tables show the maps, then after any run of writing operations, each with any answers
  -- of SQLite, they show the maps after the reported effects. An operation that reports an error has
  -- no effect; one that reports success sets, changes or removes the entry under its key, and the
  -- deletion of a provider also removes the models of that provider.
  pub run_refines :
      (commands : List (Engine × Command)) (db : Tables) (v : View)
      → IsStored db
      → Shows db v
      → Shows (run hash_key c commands db) (replay hash_key c commands db v)
  unfolding run replay
  run_refines [] db v h s = s
  run_refines (command ∷ commands) db v h s =
      run_refines commands (step hash_key c command db) (effect hash_key c command db v)
        (step-IsStored hash_key c command db h) (step_refines command db v h s)
