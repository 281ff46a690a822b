-- ===== src/Clients/Weights.antt =====
-- The weights that the scheduler starts with, from the configuration.
use avtomatika_worker.Base.{
  ℕ, ◌+◌, ◌*◌, ◌≤◌, ◌<◌, String, ◌≡◌, refl, sym, ap, ◌∙◌, subst, suc, List, [], ◌∷◌, map, contains,
  nat_eq, true, length,
}
use avtomatika_worker.Task.Call.{ok}
use avtomatika_worker.Config.{Orchestrator}
use avtomatika_worker.Scheduler.Select.{ids, Distinct}
use avtomatika_worker.Scheduler.Balance.{total_weight, weight_of}
use avtomatika_worker.Scheduler.Fairness.{AllZero, rounds, picks, rounds_fair}
use avtomatika_worker.Clients.{init_clients, entry_of, total_orchestrator_weight, start_weight}
use avtomatika_worker.Clients.Waterfall.{orchestrators, clients-orchestrators}

total_weight-clients :
    (cs : List (Orchestrator × ℕ))
    → total_orchestrator_weight (orchestrators cs) ≡ total_weight (map entry_of cs)
unfolding total_orchestrator_weight
total_weight-clients [] = refl
total_weight-clients ((o, c) ∷ cs) = ap (λ n. start_weight o + n) (total_weight-clients cs)

entries-AllZero : (cs : List (Orchestrator × ℕ)) → AllZero (map entry_of cs)
entries-AllZero [] = tt
entries-AllZero (c ∷ cs) = (refl, entries-AllZero cs)

length-entries :
    (cs : List (Orchestrator × ℕ)) → length (map entry_of cs) ≡ length (orchestrators cs)
length-entries [] = refl
length-entries (c ∷ cs) = ap (λ (n : ℕ). suc n) (length-entries cs)

-- For the transports that are made for k configured orchestrators, with distinct identities and a
-- positive total weight W, an orchestrator of weight w is, over n rounds from the start of the
-- worker, selected less than n * w / W + 1 times and at least n * w / W - (k - 1) times.
pub configured_rounds_fair :
    (create_transport : String → String → ℕ) (worker_token : String) (os : List Orchestrator)
    (cs : List (Orchestrator × ℕ)) (n j : ℕ)
    → init_clients create_transport worker_token os ≡ ok cs
    → Distinct (map entry_of cs)
    → 0 < total_orchestrator_weight os
    → contains (ids (map entry_of cs)) j ≡ true
    → let total = total_orchestrator_weight os in
      let p = picks j (rounds total n (map entry_of cs)).1 in
      let w = weight_of j (map entry_of cs) in
      (total * p < n * w + total) × (n * w + total ≤ total * p + length os * total)
configured_rounds_fair create_transport worker_token os cs n j e distinct positive known =
    let made = clients-orchestrators create_transport worker_token os cs e in
    let total = total_orchestrator_weight os in
    let (low, high) =
      rounds_fair n total (map entry_of cs) j distinct
        (ap total_orchestrator_weight (sym made) ∙ total_weight-clients cs) positive
        (entries-AllZero cs) known in
    let as_many : length (map entry_of cs) ≡ length os =
      length-entries cs ∙ ap (λ (l : List Orchestrator). length l) made in
    let p = picks j (rounds total n (map entry_of cs)).1 in
    let w = weight_of j (map entry_of cs) in
    (low, subst (λ k. n * w + total ≤ total * p + k * total) as_many high)
