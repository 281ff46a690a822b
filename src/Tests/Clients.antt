-- ===== src/Tests/Clients.antt =====
-- Two configured orchestrators and their transports.
use avtomatika_worker.Base.{
  ℕ, ◌+◌, ◌*◌, ◌≤◌, ◌<◌, String, ◌≡◌, ◌≢◌, refl, false, none, some, List, [], ◌∷◌, ◌++◌, map,
  string_eq, nat_eq, arith, ◌==◌, if◌then◌else◌,
}
use avtomatika_worker.Base.Int.{pos}
use avtomatika_worker.Config.{Orchestrator, with_defaults, sorted, insert, is_less}
use avtomatika_worker.Polling.{waterfall, Loop, poll_by_mode}
use avtomatika_worker.Polling.Once.{clients_of}
use avtomatika_worker.Scheduler.Select.{Distinct}
use avtomatika_worker.Scheduler.Balance.{weight_of}
use avtomatika_worker.Scheduler.Fairness.{rounds, picks}
use avtomatika_worker.Clients.{init_clients, entry_of, total_orchestrator_weight}
use avtomatika_worker.Clients.Waterfall.{transports, orchestrators, Before, asked_by_priority}
use avtomatika_worker.Clients.Weights.{configured_rounds_fair}

abbrev main_one : Orchestrator
main_one = record { url = some "http://a"; priority = none; weight = some (pos 2); token = none }

abbrev first_one : Orchestrator
first_one = record {
  url = some "http://b";
  priority = some (pos 1);
  weight = none;
  token = some "t";
}

abbrev transport : String → String → ℕ
transport url token = if url == "http://a" then 1 else 2

abbrev clients : List (Orchestrator × ℕ)
clients = (with_defaults first_one, 2) ∷ (with_defaults main_one, 1) ∷ []

-- No orchestrator has a task, and the worker is never busy.
abbrev quiet : Loop ℕ
quiet = record {
  is_draining = λ s. false;
  is_busy = λ s. false;
  poll = λ c s. (s, false);
  get_next_client = λ s. (s, none);
}

waterfall_is_no_round_robin : waterfall ≢ avtomatika_worker.Polling.round_robin
waterfall_is_no_round_robin e = cc

asked_by_priority_example :
    (asked left : List (Orchestrator × ℕ)) × (asked ++ left ≡ clients)
    × (clients_of (poll_by_mode quiet waterfall (transports clients) 0).polls ≡ transports asked)
    × Before (orchestrators asked) (orchestrators left)
unfolding init_clients sorted insert is_less with_defaults string_eq
asked_by_priority_example =
    asked_by_priority quiet waterfall transport "w" (main_one ∷ first_one ∷ []) clients 0
      waterfall_is_no_round_robin refl

both-Distinct : Distinct (map entry_of clients)
unfolding nat_eq
both-Distinct = (refl, (refl, tt))

configured_rounds_fair_example :
    let p = picks 1 (rounds 3 6 (map entry_of clients)).1 in
    (3 * p < 6 * weight_of 1 (map entry_of clients) + 3)
    × (6 * weight_of 1 (map entry_of clients) + 3 ≤ 3 * p + 2 * 3)
unfolding nat_eq init_clients total_orchestrator_weight string_eq with_defaults
configured_rounds_fair_example =
    configured_rounds_fair transport "w" (with_defaults first_one ∷ with_defaults main_one ∷ [])
      clients 6 1 refl both-Distinct (omega arith) refl
