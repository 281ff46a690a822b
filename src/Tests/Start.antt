-- ===== src/Tests/Start.antt =====
-- From a new worker over the registration of a skill to a task that runs.
use avtomatika_worker.Base.{
  ◌≡◌, refl, sym, subst, String, ◌==◌, string_eq, not, Bool, true, none, [], ◌∷◌,
}
use avtomatika_worker.Base.Dict
use avtomatika_worker.Worker.{
  Worker, new_worker, zero_loads, register_all, register_skill_handler, with_skill,
  add_to_hot_skills,
}
use avtomatika_worker.Load.{Step, heat, Reach, here, next}
use avtomatika_worker.Load.Start.{start, started_worker_keeps_limits}
use avtomatika_worker.Load.Limits.{WithinMax}
use avtomatika_worker.Load.TypeLimits.{WithinTypeLimits}
use avtomatika_worker.Tests.Skills.{echo, one_skill}
use avtomatika_worker.Tests.Load.{running, polls, receives}

abbrev not_empty : String → Bool
not_empty s = not (s == "")

abbrev cold : Worker
cold = record one_skill { hot_skills_state = [] }

abbrev registered_worker : Worker
registered_worker =
    register_all not_empty ((echo, 7) ∷ []) (new_worker 1 (("text", 1) ∷ []) [] none)

registers : registered_worker ≡ cold
unfolding register_all register_skill_handler with_skill new_worker zero_loads Dict.insert
    Dict.lookup string_eq
registers = refl

heats : Step true (start cold) (start one_skill)
unfolding add_to_hot_skills string_eq
heats = heat "echo" refl

runs : Reach true (start registered_worker) running
runs =
    subst (λ w. Reach true (start w) running) (sym registers)
      (next (next (next here heats) polls) receives)

started_worker_keeps_limits_example : WithinMax running × WithinTypeLimits running
started_worker_keeps_limits_example =
    started_worker_keeps_limits not_empty ((echo, 7) ∷ []) 1 (("text", 1) ∷ []) [] none running runs
