-- ===== src/Poll.antt =====
-- worker.py: `_poll_for_tasks_with_status`, one poll of one orchestrator with its backoff.
pub mod Backing
use avtomatika_worker.Base.{
  ℕ, ◌+◌, String, Bool, true, false, Option, none, some, List, [], ◌∷◌, ltb, nat_eq, string_eq,
  if◌then◌else◌,
}
use avtomatika_worker.Base.Dict
use avtomatika_worker.Base.Dict.{Dict}
use avtomatika_worker.Worker.{Worker, State, Status, idle, busy, full, get_current_state}
use avtomatika_worker.Load.{Task, Outcome, done, key_error, accept_task, offer}
use avtomatika_worker.Backoff.{Delays, Parsers, Failure, next_delay}

-- The worker with its two dicts of backoffs, by transport. A transport is named by its identity.
pub record Poller : Type 0 where
  pub worker : Worker
  pub poll_backoffs : Dict ℕ ℕ
  pub next_poll_time : Dict ℕ ℕ

-- What `client.poll_task` does: it gives a task or None, or raises an error of the rate or the
-- network, or another RxonError.
pub data Reply : Type 0 where
  task : Task → Reply
  no_task : Reply
  backs_off : Failure → Reply
  rxon_error : Reply

pub data Polled : Type 0 where
  skipped : Polled
  received : Polled
  nothing : Polled
  crashed : Polled

-- The value that the method returns, where it returns.
abbrev pub found_task : Polled → Bool
found_task received = true
found_task _ = false

-- `d.get(k, 0)`
abbrev pub get_or_zero : ℕ → Dict ℕ ℕ → ℕ
get_or_zero k d = elim (Dict.lookup k d) [ none ↦ 0 | some n ↦ n ]

abbrev pub is_idle : Status → Bool
is_idle idle = true
is_idle busy = false
is_idle full = false

-- The two pops after an answer.
abbrev pub clear_backoff : ℕ → Poller → Poller
clear_backoff client p = record p {
  poll_backoffs = Dict.erase client p.poll_backoffs;
  next_poll_time = Dict.erase client p.next_poll_time;
}

abbrev pub take_task : Outcome → Poller → Poller × Polled
take_task (done w) p = (record p { worker = w }, received)
take_task (key_error w) p = (record p { worker = w }, crashed)

-- The handler of rate limits and network errors, at the time `later`.
unfoldable pub back_off : Delays → Parsers → ℕ → ℕ → Failure → Poller → Poller
back_off d ps client later e p =
    let new_backoff =
      next_delay ps d.rate_limit_backoff_floor d.poll_backoff_initial d.poll_backoff_max
        (get_or_zero client p.poll_backoffs) e in
    record p {
      poll_backoffs = Dict.insert client new_backoff p.poll_backoffs;
      next_poll_time = Dict.insert client (later + new_backoff) p.next_poll_time;
    }

-- What follows the call of `poll_task`. `handle` is the asyncio task that is created.
unfoldable pub on_reply : Delays → Parsers → ℕ → ℕ → ℕ → Reply → Poller → Poller × Polled
unfolding back_off
on_reply d ps client later handle (task t) p =
    let q = clear_backoff client p in take_task (accept_task t handle q.worker) q
on_reply d ps client later handle no_task p = (clear_backoff client p, nothing)
on_reply d ps client later handle (backs_off e) p = (back_off d ps client later e p, nothing)
on_reply d ps client later handle rxon_error p = (p, nothing)

-- The guards before the call: the client's time has come, and some skill is available.
unfoldable pub may_poll : ℕ → ℕ → Poller → Bool
may_poll client now p =
    if ltb now (get_or_zero client p.next_poll_time)
    then false
    else is_idle (get_current_state p.worker).status

-- The whole method: `answer` gives the reply to the skills that are offered, and is asked only if
-- the guards let the poll through.
unfoldable pub poll_for_tasks_with_status :
    Delays → Parsers → ℕ → ℕ → ℕ → ℕ → (List String → Reply) → Poller → Poller × Polled
unfolding may_poll
poll_for_tasks_with_status d ps client now later handle answer p =
    let names = offer (get_current_state p.worker) in
    if may_poll client now p
    then elim names [
      | [] ↦ (p, skipped)
      | n ∷ ns ↦ on_reply d ps client later handle (answer (n ∷ ns)) p
    ]
    else (p, skipped)
