-- ===== src/Tests/Events.antt =====
-- Events of a skill that declares one type of them.
use avtomatika_worker.Base.{String, true, none, some, [], ◌∷◌, string_eq}
use avtomatika_worker.Base.Dict.{Dict}
use avtomatika_worker.Json.{Json, str, num, obj, field, end}
use avtomatika_worker.Task.Event.{EventCall, Emitter}
use avtomatika_worker.Tests.Skills.{echo}

abbrev schemas : Dict String Json
schemas = ("found", obj (field "type" (str "number") end)) ∷ []

abbrev emitter : Emitter
emitter = record {
  handler =
      some
        (record { func = 7; info = record echo { events_schema = some schemas }; type = "text" });
  validate_data = λ v schema. elim v [ num n ↦ none | _ ↦ some "not a number" ];
  event_type_progress = "progress";
  strict_event_validation = true;
  worker_id = "w1";
  task_id = "t1";
  job_id = "j1";
  tracing_context = none;
  traceparent = none;
  inject = none;
  sign = λ event. none;
}

abbrev bad_payload : EventCall
bad_payload = record {
  event_type = "found";
  payload = str "text";
  security = none;
  metadata = none;
  origin_worker_id = none;
}

abbrev undeclared : EventCall
undeclared = record bad_payload { event_type = "other" }
