-- ===== src/Load/Accounting.antt =====
-- What the load counts: the coroutines that run and those that were lost.
use avtomatika_worker.Base.{
  ℕ, suc, ◌+◌, String, ◌≡◌, ap, ◌∙◌, Bool, none, List, ◌∷◌, ◌++◌, arith, length, count_if,
  length-middle, count_if-middle,
}
use avtomatika_worker.Base.Int.{pos, ◌+ℤ◌, ◌-ℤ◌}
use avtomatika_worker.Worker.{Worker, load_of, add_to_hot_skills, remove_from_hot_skills}
use avtomatika_worker.Load.{
  Running, System, Step, begin_poll, end_poll, receive, finish, reject, heat, cool, Reach, here,
  next, one_more, one_less,
}
use avtomatika_worker.Load.Entries.{is_slot, Counted, accept_task-Counted, release_task-Counted}

-- How many of the coroutines count under a skill type.
abbrev pub slots : String → List Running → ℕ
slots j = count_if (λ r. is_slot r.slot j)

pub record Accounts (s : System) : Type 0 where
  pub total : s.worker.current_load ≡ pos (length s.running + length s.lost)
  pub by_type :
      (j : String)
      → load_of j s.worker.current_load_by_type ≡ pos (slots j s.running + slots j s.lost)

one_more-pos : (n : ℕ) → one_more (pos n) ≡ pos (suc n)
unfolding ◌+ℤ◌
one_more-pos n = ground arith

one_less-pos : (n : ℕ) → one_less (pos (suc n)) ≡ pos n
unfolding ◌-ℤ◌
one_less-pos n = ground arith

receive-Accounts :
    (s : System) (w : Worker) (r : Running)
    → Counted one_more r.slot s.worker w
    → Accounts s
    → Accounts (record { worker = w; polling = none; running = r ∷ s.running; lost = s.lost })
receive-Accounts s w r c a = record {
  total = ground (arith, c.total, a.total, one_more-pos (length s.running + length s.lost));
  by_type = λ j.
      ground (arith, c.by_type j, a.by_type j, one_more-pos (slots j s.running + slots j s.lost));
}

finish-Accounts :
    (s : System) (w : Worker) (before after : List Running) (r : Running)
    → s.running ≡ before ++ (r ∷ after)
    → Counted one_less r.slot s.worker w
    → Accounts s
    → Accounts (record s { worker = w; running = before ++ after })
finish-Accounts s w before after r is_running c a = record {
  total =
      c.total
      ∙ ap one_less (
          a.total
          ∙ ap (λ (n : ℕ). pos n)
              (omega (arith, ap (λ rs. length rs) is_running, length-middle before after r)))
      ∙ one_less-pos (length (before ++ after) + length s.lost);
  by_type = λ j. ground (
    arith,
    c.by_type j,
    a.by_type j,
    ap (λ rs. slots j rs) is_running,
    count_if-middle (λ (q : Running). is_slot q.slot j) before after r,
    one_less-pos (slots j (before ++ after) + slots j s.lost),
  );
}

reject-Accounts :
    (s : System) (before after : List Running) (r : Running)
    → s.running ≡ before ++ (r ∷ after)
    → Accounts s
    → Accounts (record s { running = before ++ after; lost = r ∷ s.lost })
reject-Accounts s before after r is_running a = record {
  total = ground (arith, a.total, ap (λ rs. length rs) is_running, length-middle before after r);
  by_type = λ j. ground (
    arith,
    a.by_type j,
    ap (λ rs. slots j rs) is_running,
    count_if-middle (λ (q : Running). is_slot q.slot j) before after r,
  );
}

-- Every event keeps the accounts.
pub Step-Accounts : {honest : Bool} {s u : System} → Step honest s u → Accounts s → Accounts u
unfolding add_to_hot_skills remove_from_hot_skills
Step-Accounts {s = s} (begin_poll no_poll is_idle e) a =
    rw e (record { total = a.total; by_type = a.by_type })
Step-Accounts (end_poll names p e) a = rw e (record { total = a.total; by_type = a.by_type })
Step-Accounts {s = s} (receive names t handle w p fair accepted e) a =
    rw e (receive-Accounts s w _ (accept_task-Counted t handle s.worker w accepted) a)
Step-Accounts {s = s} (finish before after r w is_running released e) a = rw e (
    finish-Accounts s w before after r is_running
      (release_task-Counted r.task r.slot s.worker w released) a)
Step-Accounts {s = s} (reject before after r is_running e) a =
    rw e (reject-Accounts s before after r is_running a)
Step-Accounts (heat item e) a = rw e (record { total = a.total; by_type = a.by_type })
Step-Accounts (cool item e) a = rw e (record { total = a.total; by_type = a.by_type })

-- From a state where it is so, over every interleaving of polls, received tasks, task ends,
-- rejections and hot-set changes, the worker's load is the number of coroutines that run or were
-- lost, and the load of each skill type is the number of those of the type.
pub Reach-Accounts : {honest : Bool} {s u : System} → Accounts s → Reach honest s u → Accounts u
Reach-Accounts a here = a
Reach-Accounts a (next r st) = Step-Accounts st (Reach-Accounts a r)
