-- ===== src/Polling/Once.antt =====
-- What the modes poll: which clients, in which order, and how many tasks they take.
use avtomatika_worker.Base.{
  ℕ, ◌≤◌, ◌<◌, ◌≡◌, ◌≢◌, ◌↔◌, refl, ap, Bool, true, List, [], ◌∷◌, ◌++◌, map, arith, count_if,
  if◌then◌else◌, Bool-cases, inl, inr,
}
use avtomatika_worker.Polling.{
  Mode, waterfall, round_robin, all_clients, Loop, poll_waterfall, poll_all, poll_round_robin,
  poll_by_mode,
}

-- How many of the polls gave a task.
abbrev pub tasks_of : List (ℕ × Bool) → ℕ
tasks_of = count_if (λ (_, b). b)

abbrev pub clients_of : List (ℕ × Bool) → List ℕ
clients_of = map (λ (c, _). c)

module _ {ℓ} {S : Type ℓ} (l : Loop S) where
  poll_waterfall_one :
      (cs : List ℕ) (s : S)
      → let r = poll_waterfall l cs s in tasks_of r.polls ≡ (if r.found then 1 else 0)
  unfolding poll_waterfall
  poll_waterfall_one [] s = refl
  poll_waterfall_one (c ∷ cs) s = ground (arith, poll_waterfall_one cs (l.poll c s).0)

  poll_round_robin_one :
      (s : S) → let r = poll_round_robin l s in tasks_of r.polls ≡ (if r.found then 1 else 0)
  unfolding poll_round_robin
  poll_round_robin_one s = ground arith

  poll_all_found :
      (cs : List ℕ) (s : S) → let r = poll_all l cs s in (r.found ≡ true) ↔ (0 < tasks_of r.polls)
  unfolding poll_all
  poll_all_found [] s = ground arith
  poll_all_found (c ∷ cs) s = ground (arith, poll_all_found cs (l.poll c s).0)

  -- The clients polled are the first ones of the list, in its order, each once.
  poll_waterfall_prefix :
      (cs : List ℕ) (s : S)
      → (rest : List ℕ) × (clients_of (poll_waterfall l cs s).polls ++ rest ≡ cs)
  unfolding poll_waterfall
  poll_waterfall_prefix [] s = ([], refl)
  poll_waterfall_prefix (c ∷ cs) s =
      let (rest, e) = poll_waterfall_prefix cs (l.poll c s).0 in
      elim (Bool-cases (l.is_busy s)) [
        | inl is_busy ↦ (c ∷ cs, rw is_busy)
        | inr free ↦ elim (Bool-cases (l.poll c s).1) [
          | inl task_found ↦ (cs, rw (free, task_found))
          | inr nothing ↦ (rest, rw (free, nothing) (ap (λ (xs : List ℕ). c ∷ xs) e))
        ]
      ]

  poll_all_prefix :
      (cs : List ℕ) (s : S) → (rest : List ℕ) × (clients_of (poll_all l cs s).polls ++ rest ≡ cs)
  unfolding poll_all
  poll_all_prefix [] s = ([], refl)
  poll_all_prefix (c ∷ cs) s =
      let (rest, e) = poll_all_prefix cs (l.poll c s).0 in
      elim (Bool-cases (l.is_busy s)) [
        | inl is_busy ↦ (c ∷ cs, rw is_busy)
        | inr free ↦ (rest, rw free (ap (λ (xs : List ℕ). c ∷ xs) e))
      ]

  -- In every mode an iteration reports a task exactly if some poll gave one.
  pub poll_by_mode_found :
      (m : Mode) (cs : List ℕ) (s : S)
      → let r = poll_by_mode l m cs s in (r.found ≡ true) ↔ (0 < tasks_of r.polls)
  unfolding poll_by_mode
  poll_by_mode_found waterfall cs s = ground (arith, poll_waterfall_one cs s)
  poll_by_mode_found round_robin cs s = ground (arith, poll_round_robin_one s)
  poll_by_mode_found all_clients cs s = poll_all_found cs s

  -- In the modes WATERFALL and ROUND_ROBIN an iteration of the polling loop takes at most one
  -- task.
  pub poll_by_mode_one :
      (m : Mode) (cs : List ℕ) (s : S)
      → m ≢ all_clients
      → tasks_of (poll_by_mode l m cs s).polls ≤ 1
  unfolding poll_by_mode
  poll_by_mode_one waterfall cs s h = ground (arith, poll_waterfall_one cs s)
  poll_by_mode_one round_robin cs s h = ground (arith, poll_round_robin_one s)
  poll_by_mode_one all_clients cs s h = absurd (h refl)

  -- The clients that WATERFALL and the third mode poll are the first ones of the list, in its
  -- order, each once.
  pub poll_by_mode_prefix :
      (m : Mode) (cs : List ℕ) (s : S)
      → m ≢ round_robin
      → (rest : List ℕ) × (clients_of (poll_by_mode l m cs s).polls ++ rest ≡ cs)
  unfolding poll_by_mode
  poll_by_mode_prefix waterfall cs s h = poll_waterfall_prefix cs s
  poll_by_mode_prefix round_robin cs s h = absurd (h refl)
  poll_by_mode_prefix all_clients cs s h = poll_all_prefix cs s
