-- ===== src/Tests/Requests.antt =====
-- Polls, retries and results at small delays.
use avtomatika_worker.Base.{
  ℕ, ◌+◌, ◌<◌, ◌≡◌, refl, String, true, false, none, some, List, [], ◌∷◌, arith, ltb, if◌then◌else◌,
  nat_eq, string_eq, ◌==◌,
}
use avtomatika_worker.Base.Dict
use avtomatika_worker.Base.Int.{pos, ◌≤ℤ◌}
use avtomatika_worker.Worker.{get_current_state, is_available}
use avtomatika_worker.Backoff.{
  Delays, Parsers, absent, text, rate_limited, next_delay, parse_retry_after,
}
use avtomatika_worker.Poll.{
  Poller, Reply, backs_off, get_or_zero, may_poll, is_idle, poll_for_tasks_with_status,
}
use avtomatika_worker.Poll.Backing.{poll_backs_off}
use avtomatika_worker.Polling.{Loop}
use avtomatika_worker.Results
use avtomatika_worker.Results.{deliver, taken, gave_up, ran_out}
use avtomatika_worker.Results.Attempts.{
  total_sleep, calls-le, deliver_first_answer, deliver_all_failed, deliver_all_limited,
}
use avtomatika_worker.Tests.Skills.{one_skill}

abbrev pub parsers : Parsers
parsers = record { float = λ s. if s == "5" then some (pos 5000) else none; date = λ s. none }

abbrev pub delays : Delays
delays = record {
  poll_backoff_initial = 1000;
  poll_backoff_max = 60000;
  rate_limit_backoff_floor = 30000;
  heartbeat_interval = 15000;
  heartbeat_cooldown = 2000;
  registration_retry_initial_delay = 1000;
  registration_retry_max_delay = 60000;
  result_retry_initial_delay = 1000;
}

honours_header : next_delay parsers 30000 1000 60000 0 (rate_limited (text "5")) ≡ 5000
unfolding next_delay parse_retry_after string_eq nat_eq
honours_header = refl

abbrev poller : Poller
poller = record { worker = one_skill; poll_backoffs = (9, 7) ∷ []; next_poll_time = (9, 3) ∷ [] }

abbrev limited : List String → Reply
limited _ = backs_off (rate_limited absent)

may : may_poll 1 100 poller ≡ true
unfolding may_poll get_current_state is_available Dict.lookup string_eq nat_eq
may = refl

poll_backs_off_example :
    let q = (poll_for_tasks_with_status delays parsers 1 100 150 5 limited poller).0 in
    let delay =
      next_delay parsers 30000 1000 60000
        (get_or_zero 1 poller.poll_backoffs)
        (rate_limited absent) in
    (q.worker ≡ one_skill)
    × (may_poll 1 200 q
        ≡ (if ltb 200 (150 + delay) then false else is_idle (get_current_state one_skill).status))
poll_backs_off_example =
    poll_backs_off delays parsers 1 100 150 5 limited poller (rate_limited absent) 200 may refl

no_header : parse_retry_after parsers absent ≤ℤ pos 0
unfolding parse_retry_after
no_header = omega arith

-- Every poll gives a task; the state counts them.
abbrev eager : Loop ℕ
eager = record {
  is_draining = λ s. false;
  is_busy = λ s. false;
  poll = λ c s. (s + 1, true);
  get_next_client = λ s. (s, some 4);
}

-- The first attempt fails, and every later one is accepted.
abbrev second_time : ℕ → Results.Reply
second_time i = if i == 0 then Results.failed else Results.accepted

IsRefused-first : (i : ℕ) → i < 1 → Results.Attempts.IsRefused (second_time i)
unfolding nat_eq
IsRefused-first i h = ground arith

deliver_first_answer_example :
    let d = deliver parsers 5 1000 second_time in (d.calls ≡ 2) × (d.end ≡ taken)
unfolding nat_eq
deliver_first_answer_example =
    deliver_first_answer parsers 1 5 1000 second_time true (omega arith) IsRefused-first refl
