-- ===== src/Polling.antt =====
-- worker.py: one iteration of the loop of `_start_polling`, in its three modes, over any state and
-- any way to poll a client.
pub mod Once
use avtomatika_worker.Base.{
  ℕ, Bool, true, false, ◌||◌, Option, none, some, List, [], ◌∷◌, if◌then◌else◌,
}

-- `MULTI_ORCHESTRATOR_MODE`; any text but the two names is the third mode.
pub data Mode : Type 0 where
  waterfall : Mode
  round_robin : Mode
  all_clients : Mode

-- What the loop uses of the worker: its status, a poll of one client, and the scheduler.
pub record Loop {ℓ} (S : Type ℓ) : Type ℓ where
  pub is_draining : S → Bool
  pub is_busy : S → Bool
  pub poll : ℕ → S → S × Bool
  pub get_next_client : S → S × Option ℕ

-- The state after the polls of an iteration, `any_task_found`, and the polls that were made, in
-- order, with their results.
pub record Round {ℓ} (S : Type ℓ) : Type ℓ where
  pub state : S
  pub found : Bool
  pub polls : List (ℕ × Bool)

module _ {ℓ} {S : Type ℓ} (l : Loop S) where
  -- `for _, client in clients` of the mode WATERFALL.
  unfoldable pub poll_waterfall : List ℕ → S → Round S
  poll_waterfall [] s = record { state = s; found = false; polls = [] }
  poll_waterfall (c ∷ cs) s =
      let (t, task_found) = l.poll c s in
      let rest = poll_waterfall cs t in
      if l.is_busy s
      then record { state = s; found = false; polls = [] }
      else if task_found
      then record { state = t; found = true; polls = (c, true) ∷ [] }
      else record rest { polls = (c, false) ∷ rest.polls }

  -- The same loop of the third mode, which goes on after a task.
  unfoldable pub poll_all : List ℕ → S → Round S
  poll_all [] s = record { state = s; found = false; polls = [] }
  poll_all (c ∷ cs) s =
      let (t, task_found) = l.poll c s in
      let rest = poll_all cs t in
      if l.is_busy s then record { state = s; found = false; polls = [] } else record {
        state = rest.state;
        found = task_found || rest.found;
        polls = (c, task_found) ∷ rest.polls;
      }

  poll_selected : S → Option ℕ → Round S
  poll_selected s none = record { state = s; found = false; polls = [] }
  poll_selected s (some c) =
      let (t, task_found) = l.poll c s in
      record { state = t; found = task_found; polls = (c, task_found) ∷ [] }

  unfoldable pub poll_round_robin : S → Round S
  unfolding poll_selected
  poll_round_robin s = let (t, c) = l.get_next_client s in poll_selected t c

  unfoldable pub poll_by_mode : Mode → List ℕ → S → Round S
  poll_by_mode waterfall cs s = poll_waterfall cs s
  poll_by_mode round_robin cs s = poll_round_robin s
  poll_by_mode all_clients cs s = poll_all cs s

-- What follows an iteration: the loop is left, or goes on, at once or after `IDLE_POLL_DELAY`.
pub data Next {ℓ} (S : Type ℓ) : Type ℓ where
  leave : S → Next S
  again : Round S → Next S
  sleep : Round S → Next S

module _ {ℓ} {S : Type ℓ} (l : Loop S) where
  -- The body of the `while`.
  unfoldable pub polling_step : Mode → List ℕ → S → Next S
  polling_step m cs s =
      let r = poll_by_mode l m cs s in
      if l.is_draining s
      then leave s
      else if l.is_busy s
      then sleep (record { state = s; found = false; polls = [] })
      else if r.found
      then again r
      else sleep r
