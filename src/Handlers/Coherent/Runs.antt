-- ===== src/Handlers/Coherent/Runs.antt =====
-- The console's handlers and the proxy's resolutions one after another, over one state.
use ait.Base.{ℕ, ◌≡◌, ◌≢◌, true, none, Option, List, [], ◌∷◌, Text, All}
use ait.Db.{Provider}
use ait.Store.Schema.{Engine}
use ait.Store.Models.{resolve_model}
use ait.Proxy.Resolve.{Clock, done, resolve_model_and_provider}
use ait.Handlers.Console.{Console, lost, Platform, Call}
use ait.Handlers.Models.{CreateModelRequest, UpdateModelRequest}
use ait.Handlers.Models as ModelHandlers
use ait.Handlers.Providers.{CreateProviderRequest, UpdateProviderRequest}
use ait.Handlers.Providers as ProviderHandlers
use ait.Handlers.Coherent.{found, IsCoherent}
use ait.Handlers.Coherent.ByModels.{
  create_model-IsCoherent, update_model-IsCoherent, delete_model-IsCoherent,
}
use ait.Handlers.Coherent.ByProviders.{
  create_provider-IsCoherent, update_provider-IsCoherent, delete_provider-IsCoherent,
}
use ait.Handlers.Coherent.Resolving.{
  answer, resolve_model_and_provider-keeps, resolve_model_and_provider-eq,
}

pub data Action : Type 0 where
  create_model : CreateModelRequest → Action
  update_model : Text → UpdateModelRequest → Action
  delete_model : Text → Action
  create_provider : CreateProviderRequest → Action
  update_provider : Text → UpdateProviderRequest → Action
  delete_provider : Text → Action
  resolve : Clock → Text → Action

-- No task is carried out behind the back of its handler.
abbrev pub IsSettled : Call × Action → Type 0
IsSettled (call, action) = call.task ≢ lost true

module _ {Upstream : Type 0} (platform : Platform) (new_upstream : Provider → Upstream)
    (max_entries : ℕ) where
  -- A whole handler, or a whole resolution; SQLite may fail in any.
  unfoldable pub act : Call × Action → Console Upstream → Console Upstream
  act (call, create_model input) s = (ModelHandlers.create_model platform call s input).1
  act (call, update_model name input) s = (ModelHandlers.update_model platform call s name input).1
  act (call, delete_model name) s = (ModelHandlers.delete_model platform call s name).1
  act (call, create_provider input) s = (ProviderHandlers.create_provider platform call s input).1
  act (call, update_provider id input) s =
      (ProviderHandlers.update_provider platform call s id input).1
  act (call, delete_provider id) s = (ProviderHandlers.delete_provider platform call s id).1
  act (call, resolve t name) s = record s {
    caches =
        (resolve_model_and_provider new_upstream max_entries s.caches t call.current name
          (done (resolve_model platform.chrono call.engine s.tables name))).1;
  }

  unfoldable pub run : List (Call × Action) → Console Upstream → Console Upstream
  unfolding act
  run [] s = s
  run (action ∷ actions) s = run actions (act action s)

  act-IsCoherent :
      (action : Call × Action) (s : Console Upstream)
      → IsSettled action
      → IsCoherent platform.chrono new_upstream s
      → IsCoherent platform.chrono new_upstream (act action s)
  unfolding act
  act-IsCoherent (call, create_model input) s there h =
      create_model-IsCoherent platform new_upstream call there s input h
  act-IsCoherent (call, update_model name input) s there h =
      update_model-IsCoherent platform new_upstream call there s name input h
  act-IsCoherent (call, delete_model name) s there h =
      delete_model-IsCoherent platform new_upstream call there s name h
  act-IsCoherent (call, create_provider input) s there h =
      create_provider-IsCoherent platform new_upstream call there s input h
  act-IsCoherent (call, update_provider id input) s there h =
      update_provider-IsCoherent platform new_upstream call there s id input h
  act-IsCoherent (call, delete_provider id) s there h =
      delete_provider-IsCoherent platform new_upstream call there s id h
  act-IsCoherent (call, resolve t name) s there h =
      resolve_model_and_provider-keeps platform.chrono new_upstream max_entries s h t call.current
        name call.engine

  -- From a coherent state, one in which the caches hold what the tables say, any sequence of whole
  -- console handlers and whole resolutions leads to a coherent state, whatever their inputs are and
  -- whatever SQLite answers, when no lost blocking task is carried out behind its handler.
  pub run-IsCoherent :
      (actions : List (Call × Action)) (s : Console Upstream)
      → All IsSettled actions
      → IsCoherent platform.chrono new_upstream s
      → IsCoherent platform.chrono new_upstream (run actions s)
  unfolding run
  run-IsCoherent [] s settled h = h
  run-IsCoherent (action ∷ actions) s (first, rest) h =
      run-IsCoherent actions (act action s) rest (act-IsCoherent action s first h)

  -- After any sequence of whole console handlers and whole resolutions from a coherent state, in
  -- which no lost blocking task is carried out behind its handler, a request is answered as the
  -- tables say then: where SQLite does not fail, its model resolves to the pair that the join finds
  -- for the name, and is unknown exactly when the join finds nothing.
  pub run-resolve :
      (actions : List (Call × Action)) (s : Console Upstream) (t : Clock) (request_id : Option Text)
      (name : Text) (engine : Engine)
      → All IsSettled actions
      → IsCoherent platform.chrono new_upstream s
      → engine.query ≡ none
      → (resolve_model_and_provider new_upstream max_entries
          (run actions s).caches
          t
          request_id
          name
          (done (resolve_model platform.chrono engine (run actions s).tables name))).0
        ≡ answer request_id name (found platform.chrono (run actions s).tables name)
  run-resolve actions s t request_id name engine settled h fine =
      resolve_model_and_provider-eq platform.chrono new_upstream max_entries (run actions s)
        (run-IsCoherent actions s settled h) t request_id name engine fine
