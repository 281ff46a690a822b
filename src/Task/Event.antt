-- ===== src/Task/Event.antt =====
-- worker.py: `send_event_wrapper` in `_process_task`, through which a handler emits events.
pub mod Declared
use avtomatika_worker.Base.{
  String, Bool, true, false, not, ◌==◌, string_eq, Option, none, some, List, [], ◌∷◌, if◌then◌else◌,
}
use avtomatika_worker.Base.Dict
use avtomatika_worker.Base.Dict.{Dict}
use avtomatika_worker.Json.{Json}
use avtomatika_worker.Worker.{SkillInfo, Handler}
use avtomatika_worker.Task.Outcome.{SecurityContext}

-- A trace context, a dict of texts.
abbrev pub Trace : Type 0
Trace = Dict String String

-- What the handler passes, less the priority, which goes through unchanged.
pub record EventCall : Type 0 where
  pub event_type : String
  pub payload : Json
  pub security : Option SecurityContext
  pub metadata : Option Json
  pub origin_worker_id : Option String

-- rxon's `WorkerEventPayload`, less its random id, its time and its priority. The bubbling chain is
-- empty, and the task is both its origin and its target.
pub record WorkerEvent : Type 0 where
  pub worker_id : String
  pub origin_worker_id : String
  pub event_type : String
  pub payload : Json
  pub task_id : String
  pub job_id : String
  pub trace_context : Trace
  pub security : Option SecurityContext
  pub metadata : Option Json

-- What the wrapper takes from the worker, the task and its span: the handler that runs, rxon's
-- `validate_data` (the message of a violation), the constant EVENT_TYPE_PROGRESS,
-- STRICT_EVENT_VALIDATION, the task's trace context, the `traceparent` of a valid span,
-- OpenTelemetry's `inject`, if it is installed, and the signature of an event.
pub record Emitter : Type 0 where
  pub handler : Option Handler
  pub validate_data : Json → Json → Option String
  pub event_type_progress : String
  pub strict_event_validation : Bool
  pub worker_id : String
  pub task_id : String
  pub job_id : String
  pub tracing_context : Option Trace
  pub traceparent : Option String
  pub inject : Option (Trace → Trace)
  pub sign : WorkerEvent → Option SecurityContext

-- `handler_data and (events_schema := handler_data["info"].events_schema)`: a schema that is there
-- and not empty.
unfoldable pub events_schema : Emitter → Option (Dict String Json)
events_schema e = elim e.handler [
  | none ↦ none
  | some h ↦ elim h.info.events_schema [
    | none ↦ none
    | some [] ↦ none
    | some (s ∷ ss) ↦ some (s ∷ ss)
  ]
]

abbrev is_none : Option String → Bool
is_none none = true
is_none (some m) = false

-- The three ways out of the checks: the event breaks its schema, it is not declared and the
-- configuration is strict, or it may go.
unfoldable pub passes_schema : Emitter → EventCall → Bool
passes_schema e c = elim (events_schema e) [
  | none ↦ true
  | some schemas ↦ elim (Dict.lookup c.event_type schemas) [
    | some schema ↦ is_none (e.validate_data c.payload schema)
    | none ↦ if c.event_type == e.event_type_progress then true else not e.strict_event_validation
  ]
]

-- `(task_payload.tracing_context or {}).copy()`
abbrev pub copy_or_empty : Option Trace → Trace
copy_or_empty none = []
copy_or_empty (some t) = t

-- `tracing_context.get("traceparent")` is true.
abbrev pub has_parent : Trace → Bool
has_parent t = elim (Dict.lookup "traceparent" t) [ none ↦ false | some v ↦ not (v == "") ]

abbrev pub injected : Option (Trace → Trace) → Trace → Trace
injected none t = t
injected (some f) t = f t

-- The span's own `traceparent`, or what the library injects.
abbrev pub spanned : Emitter → Trace → Trace
spanned e t = elim e.traceparent [
  | some parent ↦ Dict.insert "traceparent" parent t
  | none ↦ injected e.inject t
]

-- "Tracing context propagation"
unfoldable pub propagated : Emitter → Trace
propagated e =
    let t = spanned e (copy_or_empty e.tracing_context) in
    if has_parent t then t else Dict.update t (copy_or_empty e.tracing_context)

-- `x or WORKER_ID`
abbrev pub event_origin : Emitter → Option String → String
event_origin e none = e.worker_id
event_origin e (some o) = if o == "" then e.worker_id else o

abbrev pub first_of : Option SecurityContext → Option SecurityContext → Option SecurityContext
first_of none own = own
first_of (some s) own = some s

abbrev pub unsigned_event : Emitter → EventCall → WorkerEvent
unsigned_event e c = record {
  worker_id = e.worker_id;
  origin_worker_id = event_origin e c.origin_worker_id;
  event_type = c.event_type;
  payload = c.payload;
  task_id = e.task_id;
  job_id = e.job_id;
  trace_context = propagated e;
  security = none;
  metadata = c.metadata;
}

-- The wrapper: the event that the client gets, if any. The handler's own security context goes
-- before the worker's signature.
unfoldable pub send_event_wrapper : Emitter → EventCall → Option WorkerEvent
send_event_wrapper e c =
    let event = unsigned_event e c in
    if passes_schema e c
    then some (record event { security = first_of c.security (e.sign event) })
    else none
