-- ===== src/Load.antt =====
-- worker.py: how a polled task takes its place in the load (`_poll_for_tasks_with_status`) and
-- gives it back (the `finally` block of `_process_task`), and the interleavings of one polling
-- loop with any number of running tasks.
pub mod Entries
pub mod Accounting
pub mod Limits
pub mod TypeLimits
pub mod Leak
pub mod Start
use avtomatika_worker.Base.{
  ℕ, String, ◌≡◌, ◌≢◌, Bool, true, false, Option, none, some, List, [], ◌∷◌, ◌++◌, map, ◌==◌,
  string_eq, contains, if◌then◌else◌,
}
use avtomatika_worker.Base.Dict
use avtomatika_worker.Base.Dict.{Dict}
use avtomatika_worker.Base.Int.{ℤ, pos, ◌+ℤ◌, ◌-ℤ◌}
use avtomatika_worker.Worker.{
  Worker, Handler, SkillInfo, State, Status, idle, busy, full, get_current_state, add_to_hot_skills,
  remove_from_hot_skills,
}

-- What the accounting reads of rxon's `TaskPayload`.
pub record Task : Type 0 where
  pub task_id : String
  pub type : String

pub data Outcome : Type 0 where
  done : Worker → Outcome
  key_error : Worker → Outcome

-- The skill type that a task counts under: that of its handler, if it has one and it is not empty.
abbrev pub slot_in : Dict String Handler → String → Option String
slot_in handlers name = elim (Dict.lookup name handlers) [
  | none ↦ none
  | some h ↦ if h.type == "" then none else some h.type
]

abbrev pub slot_of : Worker → String → Option String
slot_of w name = slot_in w.skill_handlers name

-- `loads[t] = f(loads[t])`; a missing key raises KeyError.
pub bump : (ℤ → ℤ) → String → Dict String ℤ → Option (Dict String ℤ)
bump f t loads = elim (Dict.lookup t loads) [
  | none ↦ none
  | some n ↦ some (Dict.insert t (f n) loads)
]

abbrev with_loads : Worker → Option (Dict String ℤ) → (Worker → Worker) → Outcome
with_loads w none next = key_error w
with_loads w (some loads) next = done (next (record w { current_load_by_type = loads }))

-- `if t: loads[t] = f(loads[t])`, and then `next`.
unfoldable pub count_slot : (ℤ → ℤ) → Option String → Worker → (Worker → Worker) → Outcome
unfolding bump
count_slot f none w next = done (next w)
count_slot f (some t) w next = with_loads w (bump f t w.current_load_by_type) next

abbrev pub one_more : ℤ → ℤ
one_more n = n +ℤ pos 1

abbrev pub one_less : ℤ → ℤ
one_less n = n -ℤ pos 1

-- `self._active_tasks[task_id] = task`
abbrev pub store_task : String → ℕ → Worker → Worker
store_task task_id handle w = record w { active_tasks = Dict.insert task_id handle w.active_tasks }

-- A task that `poll_task` returned: the load goes up, in all and for its type, and the asyncio
-- task, here its handle, is stored.
unfoldable pub accept_task : Task → ℕ → Worker → Outcome
unfolding count_slot
accept_task t handle w =
    count_slot one_more (slot_of w t.type) (record w { current_load = one_more w.current_load })
      (store_task t.task_id handle)

-- The end of the `finally` block.
unfoldable pub release_task : Task → Option String → Worker → Outcome
unfolding count_slot
release_task t slot w =
    count_slot one_less slot
      (record w {
        active_tasks = Dict.erase t.task_id w.active_tasks;
        current_load = one_less w.current_load;
      })
      (λ u. u)

-- A coroutine of `_process_task`, with the skill type that it counts under.
pub record Running : Type 0 where
  pub task : Task
  pub slot : Option String

-- The worker, the skills offered in the poll that is under way, the coroutines that run, and those
-- that ended by a PermissionError, which is raised before the `try` and so skips the `finally`.
pub record System : Type 0 where
  pub worker : Worker
  pub polling : Option (List String)
  pub running : List Running
  pub lost : List Running

abbrev pub offer : State → List String
offer s = map (λ (i : SkillInfo). i.name) s.available_skills

-- `s` becomes `u` by one event. With `honest` the orchestrator sends only skills that were offered.
pub data Step (honest : Bool) (s u : System) : Type 0 where
  begin_poll :
      s.polling ≡ none
      → (get_current_state s.worker).status ≡ idle
      → u ≡ record s { polling = some (offer (get_current_state s.worker)) }
      → Step honest s u
  end_poll :
      (names : List String)
      → s.polling ≡ some names
      → u ≡ record s { polling = none }
      → Step honest s u
  receive :
      (names : List String) (t : Task) (handle : ℕ) (w : Worker)
      → s.polling ≡ some names
      → (honest ≡ true → contains names t.type ≡ true)
      → accept_task t handle s.worker ≡ done w
      → u ≡ record {
        worker = w;
        polling = none;
        running = record { task = t; slot = slot_of s.worker t.type } ∷ s.running;
        lost = s.lost;
      }
      → Step honest s u
  finish :
      (before after : List Running) (r : Running) (w : Worker)
      → s.running ≡ before ++ (r ∷ after)
      → release_task r.task r.slot s.worker ≡ done w
      → u ≡ record s { worker = w; running = before ++ after }
      → Step honest s u
  reject :
      (before after : List Running) (r : Running)
      → s.running ≡ before ++ (r ∷ after)
      → u ≡ record s { running = before ++ after; lost = r ∷ s.lost }
      → Step honest s u
  heat :
      (item : String) → u ≡ record s { worker = add_to_hot_skills item s.worker } → Step honest s u
  cool :
      (item : String)
      → u ≡ record s { worker = remove_from_hot_skills item s.worker }
      → Step honest s u

pub data Reach (honest : Bool) (s : System) : System → Type 0 where
  here : Reach honest s s
  next : {t u : System} → Reach honest s t → Step honest t u → Reach honest s u
