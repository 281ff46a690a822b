-- ===== src/Load/Leak.antt =====
-- The load after tasks that `_process_task` rejects, for a wrong signature or a skill outside their
-- policy.
use avtomatika_worker.Base.{ℕ, ◌+◌, ◌≤◌, ◌≡◌, arith, length, Bool}
use avtomatika_worker.Base.Int.{pos}
use avtomatika_worker.Worker.{
  Worker, full, get_current_state, add_to_hot_skills, remove_from_hot_skills,
}
use avtomatika_worker.Load.{
  System, Step, begin_poll, end_poll, receive, finish, reject, heat, cool, Reach, here, next,
}
use avtomatika_worker.Load.Entries.{accept_task-Counted, release_task-Counted}
use avtomatika_worker.Load.Accounting.{Accounts, Reach-Accounts}

Step-lost :
    {honest : Bool} {s u : System}
    → Step honest s u
    → (length s.lost ≤ length u.lost)
      × (u.worker.max_concurrent_tasks ≡ s.worker.max_concurrent_tasks)
unfolding add_to_hot_skills remove_from_hot_skills
Step-lost (begin_poll no_poll is_idle e) = rw e (omega arith)
Step-lost (end_poll names p e) = rw e (omega arith)
Step-lost {s = s} (receive names t handle w p fair accepted e) =
    rw e (omega (arith, (accept_task-Counted t handle s.worker w accepted).same_max))
Step-lost {s = s} (finish before after r w is_running released e) =
    rw e (omega (arith, (release_task-Counted r.task r.slot s.worker w released).same_max))
Step-lost (reject before after r is_running e) = rw e (omega arith)
Step-lost (heat item e) = rw e (omega arith)
Step-lost (cool item e) = rw e (omega arith)

Reach-lost :
    {honest : Bool} {s u : System}
    → Reach honest s u
    → (length s.lost ≤ length u.lost)
      × (u.worker.max_concurrent_tasks ≡ s.worker.max_concurrent_tasks)
Reach-lost here = omega arith
Reach-lost (next r st) = omega (arith, Reach-lost r, Step-lost st)

full_of_load :
    (w : Worker) (n : ℕ)
    → w.current_load ≡ pos n
    → w.max_concurrent_tasks ≤ n
    → (get_current_state w).status ≡ full
unfolding get_current_state
full_of_load w n e h = ground arith

-- From a state whose load is accounted for, once as many tasks were rejected as the worker may run
-- at once, it reports itself full in every later state, so it polls no more.
pub rejected_tasks_block :
    {honest : Bool} {s u : System}
    → Accounts s
    → s.worker.max_concurrent_tasks ≤ length s.lost
    → Reach honest s u
    → (get_current_state u.worker).status ≡ full
rejected_tasks_block {u = u} a h r =
    full_of_load u.worker (length u.running + length u.lost) (Reach-Accounts a r).total
      (omega (arith, Reach-lost r))
