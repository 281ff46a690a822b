-- ===== src/Tests/Lifecycle.antt =====
-- A worker that stops while a task ends, two tasks that log, and two tokens.
use avtomatika_worker.Base.{
  count_if, ℕ, ◌≤◌, ◌≡◌, refl, some, List, [], ◌∷◌, ◌==◌, nat_eq, if◌then◌else◌, string_eq, Bool,
  suc, ltb, arith,
}
use avtomatika_worker.Base.Dict
use avtomatika_worker.Base.Dict.{Dict}
use avtomatika_worker.Base.Int.{pos, ℤ}
use avtomatika_worker.Json.{str}
use avtomatika_worker.Results.{ran_out}
use avtomatika_worker.Task.Process.{answers, rxon_failure}
use avtomatika_worker.Shutdown.{
  Event, start, task_ends, takes, sends, cancel, ends, Mail, new_mail, run_events, on_event,
  put_result, get_result, task_done, cancel_worker, wait_loop,
}
use avtomatika_worker.Shutdown.Lost.{total, IsStuck, results_accounted, never_sent}
use avtomatika_worker.Shutdown.Waits.{iterate, Ends, wait_loop_bounded}
use avtomatika_worker.Logging.{begins, filter, run_tasks}
use avtomatika_worker.Logging.Context.{record_names_last_begun}
use avtomatika_worker.Commands.{Refresh, failed, token, rotate_tokens}
use avtomatika_worker.Commands.Tokens.{AllGood, rotation_in_time}

-- The first result is dropped without a call, as RESULT_MAX_RETRIES is 0; the second task ends after the cancellation of the queue's worker and before its end.
abbrev stopping : List Event
stopping =
    start ∷ task_ends 1 answers ∷ takes ∷ sends ran_out ∷ cancel ∷ task_ends 2 rxon_failure ∷ []

results_accounted_example :
    let m = run_events stopping new_mail in
    (total (λ n. n == 2) m ≡ 1)
    × (count_if (λ n. n == 2) m.handed_over ≤ 1)
    × (count_if (λ n. n == 2) m.dropped ≤ 2)
unfolding nat_eq
results_accounted_example = results_accounted (λ n. n == 2) stopping

abbrev stopped_mail : Mail
stopped_mail = run_events stopping new_mail

second-IsStuck : IsStuck 2 stopped_mail
unfolding run_events on_event put_result get_result task_done cancel_worker nat_eq
second-IsStuck = record { stopped = refl; waits = refl; unsent = refl }

never_sent_example : IsStuck 2 (run_events (ends ∷ task_ends 3 rxon_failure ∷ []) stopped_mail)
unfolding nat_eq
never_sent_example =
    never_sent 2 (ends ∷ task_ends 3 rxon_failure ∷ []) stopped_mail refl second-IsStuck

-- Two operations, one of which ends at each test.
abbrev two_left : ℕ → ℤ
two_left n = if n == 0 then pos 2 else if n == 1 then pos 1 else pos 0

-- A clock that counts sleeps, of which three reach the timeout.
abbrev below : ℕ → ℕ → Bool
below a b = ltb a b

wait_loop_bounded_example :
    let n = wait_loop below suc two_left 3 4 0 0 in Ends below suc two_left 3 0 0 n × (n ≤ 3)
unfolding iterate
wait_loop_bounded_example = wait_loop_bounded below suc two_left 3 4 3 0 (omega arith) refl

-- The record of the first task names the second one.
record_names_last_begun_example :
    Dict.lookup "task_id" (filter (run_tasks (begins "t1" "j1" ∷ begins "t2" "j2" ∷ []) []) [])
    ≡ some (str "t2")
unfolding Dict.lookup
record_names_last_begun_example =
    record_names_last_begun (begins "t1" "j1" ∷ begins "t2" "j2" ∷ []) [] [] tt

abbrev refreshed : List Refresh
refreshed = token "a" 600 ∷ failed ∷ token "b" 3000 ∷ []

rotation_in_time_example :
    let (new_token, delay) = rotate_tokens refreshed "old" in
    (new_token ≡ "b") × (60000 ≤ delay) × (delay ≤ 2880000) × AllGood refreshed delay
rotation_in_time_example = rotation_in_time refreshed "old"
