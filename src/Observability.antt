-- ===== src/Observability.antt =====
-- observability.py: `ObservabilityManager`: what it has counted, its spans, and how it is shut down.
pub mod Counts
use avtomatika_worker.Base.{
  ℕ, String, ◌<>◌, Bool, true, false, not, ◌&&◌, ◌||◌, ◌==◌, string_eq, Option, none, some, List,
  [], ◌∷◌, ◌++◌, if◌then◌else◌,
}
use avtomatika_worker.Base.Dict
use avtomatika_worker.Base.Dict.{Dict}
use avtomatika_worker.Base.Int.{ℤ}
use avtomatika_worker.Json.{Json, str, num}
use avtomatika_worker.Worker.{is_truthy}
use avtomatika_worker.Task.Call.{ok, raise, cancelled}
use avtomatika_worker.Offload.{Called}

-- What OpenTelemetry offers: the library, its trace SDK, and its metrics SDK.
pub record Otel : Type 0 where
  pub has_otel : Bool
  pub has_tracer_provider : Bool
  pub has_metric_reader : Bool

-- The manager over the type of durations. The counters hold the labels of each addition, the last
-- first.
pub record Observability (F : Type 0) : Type 0 where
  pub enabled : Bool
  pub has_tracer : Bool
  pub has_meter : Bool
  pub tasks_total : List (String × String)
  pub tasks_duration : List (String × F)
  pub s3_ops_total : List (String × String)

-- A span with its name, the context it stands in, and its attributes.
pub record Span (C : Type 0) : Type 0 where
  pub name : String
  pub context : Option C
  pub attributes : Dict String Json

-- What a task's span is made of.
pub record SpanArgs (C : Type 0) : Type 0 where
  pub task_type : String
  pub task_id : String
  pub job_id : String
  pub parent_context : Option C
  pub step : ℤ
  pub depth : ℤ
  pub parent_hash : Option String

-- `if parent_hash: attributes["task.parent_hash"] = parent_hash`
abbrev pub with_parent_hash : Option String → Dict String Json → Dict String Json
with_parent_hash none d = d
with_parent_hash (some t) d = if t == "" then d else Dict.insert "task.parent_hash" (str t) d

module _ {F : Type 0} where
  -- `__init__`
  unfoldable pub new_observability : Bool → Otel → Observability F
  new_observability enabled o =
      let on = enabled && o.has_otel in
      record {
        enabled = on;
        has_tracer = on && o.has_tracer_provider;
        has_meter = on && o.has_metric_reader;
        tasks_total = [];
        tasks_duration = [];
        s3_ops_total = [];
      }

  unfoldable pub record_task_finished : String → String → F → Observability F → Observability F
  record_task_finished task_type status duration m =
      if not m.enabled || not m.has_meter then m else record m {
        tasks_total = (task_type, status) ∷ m.tasks_total;
        tasks_duration = (task_type, duration) ∷ m.tasks_duration;
      }

  unfoldable pub record_s3_op : String → String → Observability F → Observability F
  record_s3_op op status m =
      if not m.enabled || not m.has_meter
      then m
      else record m { s3_ops_total = (op, status) ∷ m.s3_ops_total }

  -- `start_task_span`, over `propagate.extract`, which is not asked of an empty context.
  unfoldable pub start_task_span :
      {C : Type 0} → (C → Bool) → (C → C) → SpanArgs C → Observability F → Option (Span C)
  start_task_span is_empty extract a m =
      if not m.enabled || not m.has_tracer
      then none
      else some (record {
        name = "task." <> a.task_type;
        context = elim a.parent_context [
          | none ↦ none
          | some c ↦ if is_empty c then none else some (extract c)
        ];
        attributes = with_parent_hash a.parent_hash (
            ("task.id", str a.task_id)
            ∷ ("job.id", str a.job_id)
            ∷ ("task.type", str a.task_type)
            ∷ ("task.step", num a.step)
            ∷ ("task.depth", num a.depth)
            ∷ []);
      })

  unfoldable pub start_s3_span : {C : Type 0} → String → String → Observability F → Option (Span C)
  start_s3_span op uri m =
      if not m.enabled || not m.has_tracer
      then none
      else some (record {
        name = "s3." <> op;
        context = none;
        attributes = ("s3.uri", str uri) ∷ ("s3.operation", str op) ∷ [];
      })

  -- `set_span_status_error`: the message that is set, if any.
  unfoldable pub set_span_status_error :
      {C : Type 0} → Option (Span C) → String → Observability F → Option String
  set_span_status_error none message m = none
  set_span_status_error (some span) message m = if m.enabled then some message else none

pub data Provider : Type 0 where
  tracer_provider meter_provider : Provider

-- One provider's shutdown, if it is there, and what follows; `except Exception` logs, and lets a
-- cancellation through.
abbrev pub shut : Bool → Provider → Called → List Provider × Called → List Provider × Called
shut false p r rest = rest
shut true p (ok _) (ps, end) = (p ∷ ps, end)
shut true p (raise cancelled) rest = (p ∷ [], raise cancelled)
shut true p (raise x) (ps, end) = (p ∷ ps, end)

-- `shutdown`, over how each provider's own one ends: which are asked, and how it ends.
unfoldable pub shutdown :
    {F : Type 0} → (Provider → Called) → Observability F → List Provider × Called
shutdown provider m =
    if not m.enabled
    then ([], ok tt)
    else shut m.has_tracer tracer_provider (provider tracer_provider)
        (shut m.has_meter meter_provider (provider meter_provider) ([], ok tt))
