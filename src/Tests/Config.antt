-- ===== src/Tests/Config.antt =====
-- Three orchestrators, of which one has its own priority.
use avtomatika_worker.Base.{
  String, ◌≡◌, refl, Bool, Option, none, some, List, [], ◌∷◌, map, count_if, string_eq,
}
use avtomatika_worker.Base.Int.{ℤ, pos}
use avtomatika_worker.Task.Call.{ok}
use avtomatika_worker.Config.{
  Orchestrator, Environment, with_defaults, has_clash, sorted, orchestrators_of, validate,
}
use avtomatika_worker.Config.Orchestrators.{Ascending, configured_orchestrators}

abbrev at_priority : Option String → Option ℤ → Orchestrator
at_priority url priority = record { url = url; priority = priority; weight = none; token = none }

abbrev three : List Orchestrator
three =
    at_priority (some "http://b") none
    ∷ at_priority (some "http://a") none
    ∷ at_priority (some "http://c") (some (pos 1))
    ∷ []

abbrev environment : Environment
environment = record {
  getenv = λ k. none;
  load_orchestrators = λ text. some three;
  loads = λ text. none;
}

-- The smaller priority comes first, then the smaller address.
sorts :
    map (λ (o : Orchestrator). o.url) (sorted (map with_defaults three))
    ≡ some "http://c" ∷ some "http://a" ∷ some "http://b" ∷ []
unfolding sorted avtomatika_worker.Config.insert avtomatika_worker.Config.is_less with_defaults
sorts = refl

configured_orchestrators_example :
    (orchestrators_of environment (some "[...]") ≡ ok (sorted (map with_defaults three)))
    × Ascending (sorted (map with_defaults three))
    × ((p : Orchestrator → Bool)
        → count_if p (sorted (map with_defaults three)) ≡ count_if p (map with_defaults three))
unfolding string_eq with_defaults
configured_orchestrators_example = configured_orchestrators environment "[...]" three refl refl refl
