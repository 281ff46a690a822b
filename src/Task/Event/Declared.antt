-- ===== src/Task/Event/Declared.antt =====
-- Which events reach the orchestrator, and as what.
use avtomatika_worker.Base.{String, ◌≡◌, ◌≢◌, ◌↔◌, true, false, string_eq, none, some, arith}
use avtomatika_worker.Base.Dict
use avtomatika_worker.Base.Dict.{Dict}
use avtomatika_worker.Json.{Json}
use avtomatika_worker.Task.Event.{
  EventCall, Emitter, events_schema, passes_schema, send_event_wrapper,
}

module _ (e : Emitter) (c : EventCall) (schemas : Dict String Json) where
  decides : passes_schema e c ≡ false → send_event_wrapper e c ≡ none
  unfolding send_event_wrapper
  decides h = rw (h)

  lets_through : passes_schema e c ≡ true → send_event_wrapper e c ≢ none
  unfolding send_event_wrapper
  lets_through h = ground (arith, h)

  -- Where the skill declares its events, one of a declared type is held back exactly if its
  -- payload breaks the schema of the type.
  pub declared_event :
      (schema : Json)
      → events_schema e ≡ some schemas
      → Dict.lookup c.event_type schemas ≡ some schema
      → (send_event_wrapper e c ≡ none) ↔ (e.validate_data c.payload schema ≢ none)
  unfolding send_event_wrapper passes_schema
  declared_event schema h found = ground (arith, h, found)

  -- Where the skill declares its events, one of another type is held back exactly if it is no
  -- progress event and the configuration is strict.
  pub undeclared_event :
      events_schema e ≡ some schemas
      → Dict.lookup c.event_type schemas ≡ none
      → (send_event_wrapper e c ≡ none)
        ↔ ((c.event_type ≢ e.event_type_progress) × (e.strict_event_validation ≡ true))
  unfolding send_event_wrapper passes_schema
  undeclared_event h missing = ground (arith, h, missing)
