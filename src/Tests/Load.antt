-- ===== src/Tests/Load.antt =====
-- Interleavings of polls and tasks: a worker for one task at a time receives one, ends it or rejects
-- it.
use avtomatika_worker.Base.{◌≡◌, refl, true, none, some, [], ◌∷◌, arith, string_eq}
use avtomatika_worker.Base.Dict
use avtomatika_worker.Base.Int.{pos, ◌+ℤ◌, ◌-ℤ◌}
use avtomatika_worker.Worker.{Worker, get_current_state, full, is_available}
use avtomatika_worker.Load.{
  Task, Running, System, Step, begin_poll, receive, finish, reject, Reach, here, next, accept_task,
  release_task, done, count_slot,
}
use avtomatika_worker.Load.Accounting.{Accounts, Reach-Accounts}
use avtomatika_worker.Load.Limits.{WithinMax}
use avtomatika_worker.Load.TypeLimits.{WithinTypeLimits}
use avtomatika_worker.Load.Leak.{rejected_tasks_block}
use avtomatika_worker.Tests.Skills.{one_skill, one_skill-IsRegistry, one_skill_idle}

abbrev pub say : Task
say = record { task_id = "t1"; type = "echo" }

abbrev pub say_running : Running
say_running = record { task = say; slot = some "text" }

abbrev pub start : System
start = record { worker = one_skill; polling = none; running = []; lost = [] }

abbrev pub polling : System
polling = record start { polling = some ("echo" ∷ []) }

abbrev pub loaded : Worker
loaded = record one_skill {
  current_load = pos 1;
  current_load_by_type = ("text", pos 1) ∷ [];
  active_tasks = ("t1", 5) ∷ [];
}

abbrev pub running : System
running = record { worker = loaded; polling = none; running = say_running ∷ []; lost = [] }

abbrev rejected : System
rejected = record { worker = loaded; polling = none; running = []; lost = say_running ∷ [] }

accepts_say : accept_task say 5 one_skill ≡ done loaded
unfolding accept_task count_slot Dict.lookup Dict.insert string_eq ◌+ℤ◌
accepts_say = refl

releases_say : release_task say (some "text") loaded ≡ done one_skill
unfolding release_task count_slot Dict.lookup Dict.insert Dict.erase string_eq ◌-ℤ◌
releases_say = refl

pub polls : Step true start polling
unfolding get_current_state is_available Dict.lookup string_eq
polls = begin_poll refl one_skill_idle refl

pub receives : Step true polling running
unfolding Dict.lookup string_eq
receives = receive ("echo" ∷ []) say 5 loaded refl (λ _. refl) accepts_say refl

rejects : Step true running rejected
rejects = reject [] [] say_running refl refl

ends : Step true running start
ends = finish [] [] say_running one_skill refl releases_say refl

abbrev to_running : Reach true start running
to_running = next (next here polls) receives

abbrev to_end : Reach true start start
to_end = next to_running ends

start-Accounts : Accounts start
unfolding Dict.lookup
start-Accounts = record { total = refl; by_type = λ j. ground arith }

start-WithinMax : WithinMax start
start-WithinMax = record {
  accounts = start-Accounts;
  within = omega arith;
  room = λ names p. absurd (cc);
}

start-WithinTypeLimits : WithinTypeLimits start
unfolding Dict.lookup
start-WithinTypeLimits = record {
  accounts = start-Accounts;
  named = one_skill-IsRegistry.named;
  nodup = one_skill-IsRegistry.nodup;
  within = λ t limit l. omega arith;
  room = λ names t limit name p o f l. absurd (cc);
}

Reach-Accounts_example : Accounts running
Reach-Accounts_example = Reach-Accounts start-Accounts to_running

rejected-Accounts : Accounts rejected
rejected-Accounts = Reach-Accounts start-Accounts (next to_running rejects)

-- One rejected task blocks a worker for one task for good.
rejected_tasks_block_example : (get_current_state rejected.worker).status ≡ full
rejected_tasks_block_example =
    rejected_tasks_block {honest = true} {s = rejected} {u = rejected} rejected-Accounts
      (omega arith) here
