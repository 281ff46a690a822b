-- ===== src/Load/Start.antt =====
-- A worker that has registered its skills and starts to poll.
use avtomatika_worker.Base.{
  ℕ, String, ◌⊎◌, ◌≡◌, refl, ◌∙◌, Bool, true, none, Option, List, [], ◌∷◌, string_eq, arith, inl,
  inr,
}
use avtomatika_worker.Base.Dict
use avtomatika_worker.Base.Dict.{Dict}
use avtomatika_worker.Base.Int.{ℤ, pos}
use avtomatika_worker.Worker.{
  Worker, SkillInfo, Registered, registered, invalid_identifier, zero_loads, new_worker,
  register_skill_handler, register_all, load_of,
}
use avtomatika_worker.Worker.Registry.{
  IsRegistry, register_skill_handler-IsRegistry, register_skill_handler-load_of,
}
use avtomatika_worker.Load.{System, Reach}
use avtomatika_worker.Load.Accounting.{Accounts}
use avtomatika_worker.Load.Limits.{WithinMax, Reach-WithinMax}
use avtomatika_worker.Load.TypeLimits.{WithinTypeLimits, Reach-WithinTypeLimits}

-- A worker with a well-formed registry and no load.
pub record IsUnloaded (w : Worker) : Type 0 where
  pub registry : IsRegistry w
  pub total : w.current_load ≡ pos 0
  pub by_type : (j : String) → load_of j w.current_load_by_type ≡ pos 0

load_of-zero_loads : (limits : Dict String ℕ) (j : String) → load_of j (zero_loads limits) ≡ pos 0
unfolding zero_loads
load_of-zero_loads [] j = ground (arith, Dict.lookup-nil {V = ℤ} j)
load_of-zero_loads ((t, n) ∷ limits) j =
    ground (arith, Dict.lookup-insert j t (pos 0) (zero_loads limits), load_of-zero_loads limits j)

new_worker-IsUnloaded :
    (n : ℕ) (limits : Dict String ℕ) (dependencies : Dict String (List String))
    (checker : Option (String → Bool))
    → IsUnloaded (new_worker n limits dependencies checker)
unfolding new_worker Dict.lookup
new_worker-IsUnloaded n limits dependencies checker = record {
  registry = record { named = tt; nodup = tt; entries = λ name h found filled. absurd (cc) };
  total = refl;
  by_type = load_of-zero_loads limits;
}

register_skill_handler-IsUnloaded :
    (valid : String → Bool) (info : SkillInfo) (func : ℕ) (w u : Worker)
    → IsUnloaded w
    → register_skill_handler valid info func w ≡ registered u
    → IsUnloaded u
register_skill_handler-IsUnloaded valid info func w u i e =
    let (total, by_type) = register_skill_handler-load_of valid info func w u e in
    record {
      registry = (register_skill_handler-IsRegistry valid info func w u i.registry e).0;
      total = total ∙ i.total;
      by_type = λ j. by_type j ∙ i.by_type j;
    }

Registered-cases :
    (r : Registered)
    → ((u : Worker) × (r ≡ registered u)) ⊎ ((name : String) × (r ≡ invalid_identifier name))
Registered-cases (registered u) = inl (u, refl)
Registered-cases (invalid_identifier name) = inr (name, refl)

register_all-IsUnloaded :
    (valid : String → Bool) (skills : List (SkillInfo × ℕ)) (w : Worker)
    → IsUnloaded w
    → IsUnloaded (register_all valid skills w)
unfolding register_all
register_all-IsUnloaded valid [] w i = i
register_all-IsUnloaded valid ((info, func) ∷ skills) w i =
    elim (Registered-cases (register_skill_handler valid info func w)) [
      | inl (u, e) ↦
          rw (e, register_all)
            (register_all-IsUnloaded valid skills u
              (register_skill_handler-IsUnloaded valid info func w u i e))
      | inr (name, e) ↦ rw (e, register_all) i
    ]

-- Nothing is polled and nothing runs.
abbrev pub start : Worker → System
start w = record { worker = w; polling = none; running = []; lost = [] }

start-Accounts : (w : Worker) → IsUnloaded w → Accounts (start w)
start-Accounts w i = record { total = i.total; by_type = i.by_type }

start-WithinMax : (w : Worker) → IsUnloaded w → WithinMax (start w)
start-WithinMax w i = record {
  accounts = start-Accounts w i;
  within = omega arith;
  room = λ names e. absurd (ground arith);
}

start-WithinTypeLimits : (w : Worker) → IsUnloaded w → WithinTypeLimits (start w)
start-WithinTypeLimits w i = record {
  accounts = start-Accounts w i;
  named = i.registry.named;
  nodup = i.registry.nodup;
  within = λ t limit e. omega arith;
  room = λ names t limit name e. absurd (ground arith);
}

-- From a new worker that registered any skills, with an orchestrator that sends only skills that
-- were offered, every interleaving keeps the load equal to the running and lost coroutines, these
-- within MAX_CONCURRENT_TASKS, and those of each skill type within its limit.
pub started_worker_keeps_limits :
    (valid : String → Bool) (skills : List (SkillInfo × ℕ)) (n : ℕ) (limits : Dict String ℕ)
    (dependencies : Dict String (List String)) (checker : Option (String → Bool)) (u : System)
    → Reach true (start (register_all valid skills (new_worker n limits dependencies checker))) u
    → WithinMax u × WithinTypeLimits u
started_worker_keeps_limits valid skills n limits dependencies checker u r =
    let i =
      register_all-IsUnloaded valid skills _
        (new_worker-IsUnloaded n limits dependencies checker) in
    (Reach-WithinMax (start-WithinMax _ i) r, Reach-WithinTypeLimits (start-WithinTypeLimits _ i) r)
