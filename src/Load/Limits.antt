-- ===== src/Load/Limits.antt =====
-- The worker's own concurrency limit, `MAX_CONCURRENT_TASKS`.
use avtomatika_worker.Base.{
  ℕ, suc, ◌+◌, ◌≤◌, ◌<◌, String, ◌≡◌, ap, ◌∙◌, Bool, false, some, List, ◌++◌, arith, length,
  length-middle, string_eq,
}
use avtomatika_worker.Worker.{
  Worker, get_current_state, idle, add_to_hot_skills, remove_from_hot_skills, is_at_capacity,
}
use avtomatika_worker.Load.{
  System, Step, begin_poll, end_poll, receive, finish, reject, heat, cool, Reach, here, next,
}
use avtomatika_worker.Load.Entries.{accept_task-Counted, release_task-Counted}
use avtomatika_worker.Load.Accounting.{Accounts, slots, Step-Accounts}

-- Coroutines that the load counts.
abbrev pub counted : System → ℕ
counted s = length s.running + length s.lost

abbrev pub counted_as : String → System → ℕ
counted_as t s = slots t s.running + slots t s.lost

pub record WithinMax (s : System) : Type 0 where
  pub accounts : Accounts s
  pub within : counted s ≤ s.worker.max_concurrent_tasks
  pub room :
      (names : List String) → s.polling ≡ some names → counted s < s.worker.max_concurrent_tasks

idle-below : (w : Worker) → (get_current_state w).status ≡ idle → is_at_capacity w ≡ false
unfolding get_current_state
idle-below w h = ground arith

begin_poll-room :
    (s : System)
    → Accounts s
    → (get_current_state s.worker).status ≡ idle
    → counted s < s.worker.max_concurrent_tasks
begin_poll-room s a is_idle = ground (arith, idle-below s.worker is_idle, a.total)

Step-within :
    {honest : Bool} {s u : System}
    → Step honest s u
    → WithinMax s
    → (counted u ≤ u.worker.max_concurrent_tasks)
      × ((names : List String) → u.polling ≡ some names → counted u < u.worker.max_concurrent_tasks)
unfolding add_to_hot_skills remove_from_hot_skills
Step-within {s = s} (begin_poll no_poll is_idle e) i =
    rw e (i.within, λ names p. begin_poll-room s i.accounts is_idle)
Step-within (end_poll names p e) i = rw e (i.within, λ _ q. absurd (cc))
Step-within {s = s} (receive names t handle w p fair accepted e) i =
    let c = accept_task-Counted t handle s.worker w accepted in
    rw e (omega (arith, i.room names p, c.same_max), λ _ q. absurd (cc))
Step-within {s = s} (finish before after r w is_running released e) i =
    let c = release_task-Counted r.task r.slot s.worker w released in
    let fewer : length s.running ≡ suc (length (before ++ after)) =
      ap (λ rs. length rs) is_running ∙ length-middle before after r in
    rw e (omega (arith, i.within, c.same_max), λ names q. omega (arith, i.within, c.same_max))
Step-within {s = s} (reject before after r is_running e) i =
    let fewer : length s.running ≡ suc (length (before ++ after)) =
      ap (λ rs. length rs) is_running ∙ length-middle before after r in
    rw e (omega (arith, i.within), λ names q. omega (arith, i.room names q))
Step-within (heat item e) i = rw e (i.within, i.room)
Step-within (cool item e) i = rw e (i.within, i.room)

Step-WithinMax : {honest : Bool} {s u : System} → Step honest s u → WithinMax s → WithinMax u
Step-WithinMax st i =
    let (within, room) = Step-within st i in
    record { accounts = Step-Accounts st i.accounts; within = within; room = room }

-- From a state where the load is accounted for and the following holds, over every interleaving
-- the running and lost coroutines together do not exceed MAX_CONCURRENT_TASKS, and stay below it
-- while a poll is under way.
pub Reach-WithinMax : {honest : Bool} {s u : System} → WithinMax s → Reach honest s u → WithinMax u
Reach-WithinMax i here = i
Reach-WithinMax i (next r st) = Step-WithinMax st (Reach-WithinMax i r)
