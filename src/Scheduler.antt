-- ===== src/Scheduler.antt =====
-- worker.py: `_get_next_client`, the smooth weighted round robin over the orchestrators.
pub mod Select
pub mod Balance
pub mod Round
pub mod Fairness
use avtomatika_worker.Base.{ℕ, Bool, Option, none, some, List, [], ◌∷◌, ◌==◌, nat_eq, if◌then◌else◌}
use avtomatika_worker.Base.Int.{ℤ, pos, negsuc, ◌+ℤ◌, ◌-ℤ◌, ltb_ℤ}

-- An entry of `_clients`: the orchestrator's dict, whose `weight` and `current_weight` are read
-- here, and the transport, named by its identity.
pub record Entry : Type 0 where
  pub client : ℕ
  pub weight : ℕ
  pub current_weight : ℤ

-- `o["current_weight"] += o["weight"]`
abbrev pub credit : Entry → Entry
credit e = record e { current_weight = e.current_weight +ℤ pos e.weight }

-- The first loop: every entry is credited, and the client of the greatest weight is kept, the
-- first one among equals, if any is above the least value so far.
unfoldable pub credit_and_select : ℤ → Option ℕ → List Entry → List Entry × Option ℕ
credit_and_select highest selected [] = ([], selected)
credit_and_select highest selected (e ∷ es) =
    let o = credit e in
    let better = ltb_ℤ highest o.current_weight in
    let (rest, found) =
      credit_and_select (if better then o.current_weight else highest)
        (if better then some o.client else selected) es in
    (o ∷ rest, found)

-- The second loop: the first entry of the client pays the total.
unfoldable pub charge : ℕ → ℕ → List Entry → List Entry
charge total client [] = []
charge total client (e ∷ es) =
    if e.client == client
    then record e { current_weight = e.current_weight -ℤ pos total } ∷ es
    else e ∷ charge total client es

abbrev pub charge_selected : ℕ → Option ℕ → List Entry → List Entry
charge_selected total none es = es
charge_selected total (some c) es = charge total c es

-- `_get_next_client`, with `total` for `_total_orchestrator_weight`.
unfoldable pub get_next_client : ℕ → List Entry → List Entry × Option ℕ
get_next_client total [] = ([], none)
get_next_client total (e ∷ es) =
    let (credited, selected) = credit_and_select (negsuc 0) none (e ∷ es) in
    (charge_selected total selected credited, selected)
