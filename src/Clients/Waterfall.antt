-- ===== src/Clients/Waterfall.antt =====
-- The order in which the configured orchestrators are asked.
use mathlib.Core.List.{nil≢cons, head-eq_of_cons-eq, tail-eq_of_cons-eq}
use avtomatika_worker.Base.{
  ℕ, String, ◌≡◌, ◌≢◌, refl, sym, ap, ◌∙◌, subst, List, [], ◌∷◌, ◌++◌, map, All, string_eq,
}
use avtomatika_worker.Task.Call.{Try, ok, raise, ◌>>=◌}
use avtomatika_worker.Config.{Orchestrator, or_else, with_defaults, sorted}
use avtomatika_worker.Config.Orchestrators.{NotAfter, Ascending, sorted-Ascending}
use avtomatika_worker.Polling.{Mode, round_robin, Loop, poll_by_mode}
use avtomatika_worker.Polling.Once.{clients_of, poll_by_mode_prefix}
use avtomatika_worker.Clients.{url_of, init_clients}

abbrev pub transports : List (Orchestrator × ℕ) → List ℕ
transports = map (λ (_, c). c)

abbrev pub orchestrators : List (Orchestrator × ℕ) → List Orchestrator
orchestrators = map (λ (o, _). o)

-- What a list of clients owes to the orchestrators that it was made for.
abbrev Made : List Orchestrator → Try (List (Orchestrator × ℕ)) → Type 0
Made os (ok cs) = orchestrators cs ≡ os
Made os (raise x) = Unit

module _ (create_transport : String → String → ℕ) (worker_token : String) where
  one_more_client :
      (o : Orchestrator) (os : List Orchestrator) (url : Try String)
      (rest : Try (List (Orchestrator × ℕ)))
      → Made os rest
      → Made (o ∷ os) (
          url >>= (λ u.
            rest >>= (λ cs. ok ((o, create_transport u (or_else worker_token o.token)) ∷ cs))))
  one_more_client o os (raise x) rest h = tt
  one_more_client o os (ok u) (raise x) h = tt
  one_more_client o os (ok u) (ok cs) h = ap (λ (xs : List Orchestrator). o ∷ xs) h

  each_client : (os : List Orchestrator) → Made os (init_clients create_transport worker_token os)
  unfolding init_clients
  each_client [] = refl
  each_client (o ∷ os) =
      one_more_client o os (url_of o.url) (init_clients create_transport worker_token os)
        (each_client os)

  pub clients-orchestrators :
      (os : List Orchestrator) (cs : List (Orchestrator × ℕ))
      → init_clients create_transport worker_token os ≡ ok cs
      → orchestrators cs ≡ os
  clients-orchestrators os cs e = subst (Made os) e (each_client os)

-- A prefix of the transports is that of a prefix of the clients.
split :
    (xs rest : List ℕ) (cs : List (Orchestrator × ℕ))
    → xs ++ rest ≡ transports cs
    → (asked left : List (Orchestrator × ℕ)) × (asked ++ left ≡ cs) × (xs ≡ transports asked)
split [] rest cs e = ([], cs, refl, refl)
split (x ∷ xs) rest [] e = absurd (nil≢cons (sym e))
split (x ∷ xs) rest (c ∷ cs) e =
    let (asked, left, whole, same) = split xs rest cs (tail-eq_of_cons-eq e) in
    (
      c ∷ asked,
      left,
      ap (λ (l : List (Orchestrator × ℕ)). c ∷ l) whole,
      ap (λ (n : ℕ). n ∷ xs) (head-eq_of_cons-eq e) ∙ ap (λ (l : List ℕ). c.1 ∷ l) same,
    )

-- All of the first ones come before all of the others.
abbrev pub Before : List Orchestrator → List Orchestrator → Type 0
Before asked left = All (λ o. All (NotAfter o) left) asked

All-right :
    (P : Orchestrator → Type 0) (asked left : List (Orchestrator × ℕ))
    → All P (orchestrators (asked ++ left))
    → All P (orchestrators left)
All-right P [] left h = h
All-right P (c ∷ asked) left h = All-right P asked left h.1

before :
    (asked left : List (Orchestrator × ℕ))
    → Ascending (orchestrators (asked ++ left))
    → Before (orchestrators asked) (orchestrators left)
before [] left h = tt
before (c ∷ asked) left h = (All-right (NotAfter c.0) asked left h.0, before asked left h.1)

-- In every mode but ROUND_ROBIN an iteration of the polling loop asks the transports of a first
-- part of the configured orchestrators, in their order, and no orchestrator of the rest has a
-- smaller priority than one that was asked.
pub asked_by_priority :
    {S : Type 0} (l : Loop S) (m : Mode) (create_transport : String → String → ℕ)
    (worker_token : String) (os : List Orchestrator) (cs : List (Orchestrator × ℕ)) (s : S)
    → m ≢ round_robin
    → init_clients create_transport worker_token (sorted (map with_defaults os)) ≡ ok cs
    → (asked left : List (Orchestrator × ℕ)) × (asked ++ left ≡ cs)
      × (clients_of (poll_by_mode l m (transports cs) s).polls ≡ transports asked)
      × Before (orchestrators asked) (orchestrators left)
asked_by_priority l m create_transport worker_token os cs s h e =
    let (rest, prefix) = poll_by_mode_prefix l m (transports cs) s h in
    let (asked, left, whole, same) = split _ rest cs prefix in
    let r = sorted (map with_defaults os) in
    let ascending : Ascending (orchestrators (asked ++ left)) =
      subst Ascending
        (sym (ap orchestrators whole ∙ clients-orchestrators create_transport worker_token r cs e))
        (sorted-Ascending (map with_defaults os)) in
    (asked, left, whole, same, before asked left ascending)
