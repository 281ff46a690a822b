-- ===== src/Task/Run.antt =====
-- worker.py: the steps of `_process_task` from the parameters to the handler's result, and
-- `_prepare_dependencies`.
pub mod Calls
use avtomatika_worker.Base.{String, Bool, true, false, List, [], ◌∷◌, contains, Eq, string_eq}
use avtomatika_worker.Base.Dict
use avtomatika_worker.Base.Dict.{Dict}
use avtomatika_worker.Json.{Json}
use avtomatika_worker.Task.Call.{
  Try, ◌>>=◌, Annotation, Params, prepare_task_params, Parameter, handler_kwargs, merge,
  call_kwargs, handler_chain,
}
use avtomatika_worker.Task.Outcome.{Returned}

-- A type in a hint of the handler: one that the worker injects a value for, or another.
pub data Hint : Type 0 where
  task_files : Hint
  observability : Hint
  orchestrator_client : Hint
  other_type : Hint

Hint-discrete : Discrete Hint
Hint-discrete = hlevel

instance unfoldable pub hint_eq : Eq Hint
unfolding Hint-discrete
hint_eq = record { dec = Hint-discrete }

-- The three values that a handler can ask for by type.
pub record Injected (X : Type 0) : Type 0 where
  pub task_files : X
  pub observability : X
  pub orchestrator_client : X

-- The entries of `handler_kwargs` other than `params`.
pub record TaskValues (X : Type 0) : Type 0 where
  pub task_id : X
  pub job_id : X
  pub tracing_context : X
  pub priority : X
  pub deadline : X
  pub security : X
  pub metadata : X
  pub send_progress : X
  pub send_event : X
  pub add_to_hot_skills : X
  pub remove_from_hot_skills : X

module _ {X : Type 0} where
  abbrev inject_if : Bool → String → X → Dict String X → Dict String X
  inject_if true name x deps = Dict.insert name x deps
  inject_if false name x deps = deps

  -- The loop over the hints; the types of a hint are its arguments, or the hint itself.
  unfoldable pub prepare_dependencies :
      Injected X → List (String × List Hint) → Dict String X → Dict String X
  prepare_dependencies v [] deps = deps
  prepare_dependencies v ((name, types) ∷ hints) deps = prepare_dependencies v hints (
      inject_if (contains types orchestrator_client) name v.orchestrator_client (
        inject_if (contains types observability) name v.observability
          (inject_if (contains types task_files) name v.task_files deps)))

  -- `handler_kwargs`, which is also `available_context`.
  unfoldable pub available_context : TaskValues X → X → Dict String X → Dict String X
  available_context v params deps =
      merge X
        (("params", params)
          ∷ ("task_id", v.task_id)
          ∷ ("job_id", v.job_id)
          ∷ ("tracing_context", v.tracing_context)
          ∷ ("priority", v.priority)
          ∷ ("deadline", v.deadline)
          ∷ ("security", v.security)
          ∷ ("metadata", v.metadata)
          ∷ ("send_progress", v.send_progress)
          ∷ ("send_event", v.send_event)
          ∷ ("add_to_hot_skills", v.add_to_hot_skills)
          ∷ ("remove_from_hot_skills", v.remove_from_hot_skills)
          ∷ [])
        deps

-- A handler: its signature, its hints, and the call of it with keyword arguments. `V` are the
-- objects that its annotation makes of the parameters, and `X` are the values of its arguments.
pub record Callee (V X : Type 0) : Type 0 where
  pub annotation : Annotation Json V
  pub parameters : List Parameter
  pub hints : List (String × List Hint)
  pub call : Dict String X → Try Returned

-- A call of the chain reads the keyword arguments from the middlewares' context, where a middleware
-- may have changed them.
abbrev pub Chain : Type 0 → Type 0
Chain X = Dict String X → Try Returned

-- What one run of a task uses: the download of its parameters (`S3Manager.process_params`), the
-- message for missing fields, the values to pass, and the worker's middlewares.
pub record Setup (V X : Type 0) : Type 0 where
  pub fetch : Dict String Json → Try (Dict String Json)
  pub message : List String → String
  pub as_value : Params Json V → X
  pub injected : Injected X
  pub values : TaskValues X
  pub middlewares : List (Chain X → Chain X)

module _ {V X : Type 0} where
  -- `_execution_logic`
  unfoldable pub execution_logic : Callee V X → Dict String X → Chain X
  execution_logic c context kwargs = c.call (call_kwargs X context c.parameters kwargs)

  -- The arguments and the call, once the parameters are validated.
  unfoldable pub call_handler : Setup V X → Callee V X → X → Try Returned
  call_handler s c params =
      let context =
        available_context s.values params (prepare_dependencies s.injected c.hints []) in
      handler_kwargs X context c.parameters params
      >>= handler_chain s.middlewares (execution_logic c context)

  -- From `process_params` to `await handler_chain()`.
  unfoldable pub run_handler : Setup V X → Callee V X → Dict String Json → Try Returned
  run_handler s c params = s.fetch params >>= (λ fetched.
      prepare_task_params Json V s.message c.annotation fetched
      >>= (λ validated. call_handler s c (s.as_value validated)))
