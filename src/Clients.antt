-- ===== src/Clients.antt =====
-- worker.py: `_init_clients`, the transports for the configured orchestrators, and the weights that
-- `Worker.__init__` starts with.
pub mod Waterfall
pub mod Weights
use avtomatika_worker.Base.{ℕ, ◌+◌, String, Option, none, some, List, [], ◌∷◌, map}
use avtomatika_worker.Base.Int.{ℤ, pos, pos_part}
use avtomatika_worker.Task.Call.{Try, ok, raise, other, ◌>>=◌}
use avtomatika_worker.Config.{Orchestrator, or_else, or_number}
use avtomatika_worker.Scheduler.{Entry}

-- `o["url"]`, which raises a KeyError.
abbrev pub url_of : Option String → Try String
url_of none = raise (other "url")
url_of (some url) = ok url

-- `_clients`, over `create_transport` by the address and the token, and WORKER_TOKEN.
unfoldable pub init_clients :
    (String → String → ℕ) → String → List Orchestrator → Try (List (Orchestrator × ℕ))
init_clients create_transport worker_token [] = ok []
init_clients create_transport worker_token (o ∷ os) = url_of o.url >>= (λ url.
    init_clients create_transport worker_token os
    >>= (λ clients. ok ((o, create_transport url (or_else worker_token o.token)) ∷ clients)))

-- `o.get("weight", 1)`, of which a negative one is not modelled.
abbrev pub start_weight : Orchestrator → ℕ
start_weight o = pos_part (or_number (pos 1) o.weight)

-- `o["current_weight"] = 0`, with the transport that the scheduler reads.
abbrev pub entry_of : Orchestrator × ℕ → Entry
entry_of (o, client) = record { client = client; weight = start_weight o; current_weight = pos 0 }

-- `_total_orchestrator_weight`
unfoldable pub total_orchestrator_weight : List Orchestrator → ℕ
total_orchestrator_weight [] = 0
total_orchestrator_weight (o ∷ os) = start_weight o + total_orchestrator_weight os
