-- ===== src/Shutdown.antt =====
-- worker.py: what happens to results while the worker stops: the `finally` block of `_process_task`
-- that hands one over, `_result_queue_worker` that sends them, and `_perform_shutdown_cleanup`.
-- s3.py: `wait_all_done`.
pub mod Answered
pub mod Lost
pub mod Waits
use avtomatika_worker.Base.{
  ℕ, zero, suc, ◌+◌, Bool, true, false, not, ◌&&◌, Option, none, some, List, [], ◌∷◌, ◌++◌, ltb,
  if◌then◌else◌,
}
use avtomatika_worker.Results
use avtomatika_worker.Results.{End, ignored, gave_up, ran_out}
use avtomatika_worker.Task.Process.{Direct, answers, rxon_failure, other_failure}
use avtomatika_worker.Base.Int.{ℤ, pos, ltb_ℤ}

-- The task `_queue_worker_task`: not made yet, running, cancelled but not at its end, or done.
pub data QueueWorker : Type 0 where
  not_started : QueueWorker
  running : QueueWorker
  cancelled : QueueWorker
  done : QueueWorker

-- Results are named by numbers. `in_hand` is the one that the queue's worker sends, `handed_over` those
-- that the orchestrator answered on, whether it took or ignored them, `dropped` those whose attempts
-- ended without an answer, also where there was no attempt, and `broken_off` one whose sending was cut.
pub record Mail : Type 0 where
  pub worker : QueueWorker
  pub queue : List ℕ
  pub in_hand : Option ℕ
  pub handed_over : List ℕ
  pub dropped : List ℕ
  pub broken_off : List ℕ

abbrev pub new_mail : Mail
new_mail = record {
  worker = not_started;
  queue = [];
  in_hand = none;
  handed_over = [];
  dropped = [];
  broken_off = [];
}

-- `self._queue_worker_task and not self._queue_worker_task.done()`
abbrev pub takes_results : QueueWorker → Bool
takes_results not_started = false
takes_results running = true
takes_results cancelled = true
takes_results done = false

-- The end of the attempts to send a result.
abbrev pub let_go : Bool → ℕ → Mail → Mail
let_go true r m = record m { handed_over = r ∷ m.handed_over }
let_go false r m = record m { dropped = r ∷ m.dropped }

abbrev pub is_answered : End → Bool
is_answered Results.taken = true
is_answered ignored = true
is_answered gave_up = false
is_answered ran_out = false

-- Whether a direct call answers.
abbrev pub answers_directly : Direct → Bool
answers_directly answers = true
answers_directly rxon_failure = false
answers_directly other_failure = false

-- A task that ends with a result: it is queued, or sent at once.
unfoldable pub put_result : ℕ → Direct → Mail → Mail
put_result r direct m =
    if takes_results m.worker
    then record m { queue = m.queue ++ (r ∷ []) }
    else let_go (answers_directly direct) r m

abbrev pub taken : QueueWorker → Option ℕ → List ℕ → Mail → Mail
taken running none (r ∷ rs) m = record m { queue = rs; in_hand = some r }
taken _ _ _ m = m

-- `client, result_obj = await self._result_queue.get()`
unfoldable pub get_result : Mail → Mail
get_result m = taken m.worker m.in_hand m.queue m

abbrev pub given : QueueWorker → Option ℕ → Bool → Mail → Mail
given running (some r) is_sent m = let_go is_sent r (record m { in_hand = none })
given _ _ is_sent m = m

-- The attempts to send it come to an end, as `deliver` of Results.antt says how.
unfoldable pub task_done : End → Mail → Mail
task_done end m = given m.worker m.in_hand (is_answered end) m

abbrev pub broken : QueueWorker → Option ℕ → Mail → Mail
broken cancelled none m = record m { worker = done }
broken cancelled (some r) m = record m {
  worker = done;
  in_hand = none;
  broken_off = r ∷ m.broken_off;
}
broken _ _ m = m

-- The cancelled worker runs to its end, out of `get` or out of a request.
unfoldable pub worker_ends : Mail → Mail
worker_ends m = broken m.worker m.in_hand m

-- `self._queue_worker_task.cancel()`, of a task that is not done.
unfoldable pub cancel_worker : Mail → Mail
cancel_worker m = if takes_results m.worker then record m { worker = cancelled } else m

-- What may happen, in any order that the event loop takes: the start of the queue's worker in `main`,
-- a task that ends, a round of the queue's worker, and its end in the cleanup.
pub data Event : Type 0 where
  start : Event
  task_ends : ℕ → Direct → Event
  takes : Event
  sends : End → Event
  cancel : Event
  ends : Event

abbrev pub started : QueueWorker → Mail → Mail
started not_started m = record m { worker = running }
started _ m = m

unfoldable pub on_event : Event → Mail → Mail
on_event start m = started m.worker m
on_event (task_ends r direct) m = put_result r direct m
on_event takes m = get_result m
on_event (sends end) m = task_done end m
on_event cancel m = cancel_worker m
on_event ends m = worker_ends m

unfoldable pub run_events : List Event → Mail → Mail
run_events [] m = m
run_events (e ∷ es) m = run_events es (on_event e m)

-- `_perform_shutdown_cleanup`, as the sequence of what it does, by what is there to stop. Each of the
-- waits may last as long as its timeout.
pub data Cleanup : Type 0 where
  cancel_comm_tasks : Cleanup
  cancel_polling : Cleanup
  wait_for_s3 : Cleanup
  send_offline_heartbeat : Cleanup
  join_queue : ℕ → Cleanup
  cancel_queue_worker : Cleanup
  await_queue_worker : Cleanup
  cancel_comm_task : Cleanup
  cancel_token_rotation : Cleanup
  wait_for_tasks : ℕ → Cleanup
  close_clients : Cleanup
  shutdown_observability : Cleanup
  close_session : Cleanup

-- `sends_when_cancelled` is whether the queue's worker has a result in hand when it is cancelled.
pub record Stopping : Type 0 where
  pub has_queue_worker : Bool
  pub sends_when_cancelled : Bool
  pub has_token_rotation : Bool
  pub has_active_tasks : Bool
  pub shutdown_timeout : ℕ
  pub has_open_session : Bool
  pub session_is_managed_externally : Bool

-- What was done, and whether a CancelledError ended it there.
pub record Cleaned : Type 0 where
  pub steps : List Cleanup
  pub is_cut : Bool

abbrev pub when : Bool → List Cleanup → List Cleanup
when true cs = cs
when false cs = []

-- Up to the wait for the queue's worker.
abbrev pub first_steps : Stopping → List Cleanup
first_steps s =
    (cancel_comm_tasks
      ∷ cancel_polling
      ∷ wait_for_s3
      ∷ send_offline_heartbeat
      ∷ join_queue 10000
      ∷ [])
    ++ when s.has_queue_worker (cancel_queue_worker ∷ await_queue_worker ∷ [])

-- What follows this wait.
abbrev pub last_steps : Stopping → List Cleanup
last_steps s =
    (cancel_comm_task ∷ [])
    ++ when s.has_token_rotation (cancel_token_rotation ∷ [])
    ++ when s.has_active_tasks (wait_for_tasks s.shutdown_timeout ∷ [])
    ++ (close_clients ∷ shutdown_observability ∷ [])
    ++ when (s.has_open_session && not s.session_is_managed_externally) (close_session ∷ [])

-- A queue's worker that waits in `get` catches the CancelledError and ends. One with a result in hand
-- ends with it, so that the await of this worker raises it, and `suppress(Exception)` lets it out.
unfoldable pub perform_shutdown_cleanup : Stopping → Cleaned
perform_shutdown_cleanup s =
    if s.has_queue_worker && s.sends_when_cancelled
    then record { steps = first_steps s; is_cut = true }
    else record { steps = first_steps s ++ last_steps s; is_cut = false }

-- The loop of `wait_all_done`, with fuel, over `_active_ops` at each test: how many sleeps there are. The
-- time slept is Python's float, of which the model has the test `<` and the sum with `sleep_delay`.
unfoldable pub wait_loop : {F : Type 0} → (F → F → Bool) → (F → F) → (ℕ → ℤ) → F → ℕ → ℕ → F → ℕ
wait_loop is_below plus_delay active_ops timeout zero i total_slept = 0
wait_loop is_below plus_delay active_ops timeout (suc fuel) i total_slept =
    let rest =
      wait_loop is_below plus_delay active_ops timeout fuel (suc i) (plus_delay total_slept) in
    if ltb_ℤ (pos 0) (active_ops i) && is_below total_slept timeout then suc rest else 0
