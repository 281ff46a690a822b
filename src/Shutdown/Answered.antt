-- ===== src/Shutdown/Answered.antt =====
-- Which events bring a result to its end, with the orchestrator's answer or without one.
use avtomatika_worker.Base.{
  ℕ, suc, ◌+◌, ◌≤◌, ◌≡◌, refl, Bool, true, false, Option, none, some, List, [], ◌∷◌, ◌++◌, count_if,
  if◌then◌else◌, arith,
}
use avtomatika_worker.Results
use avtomatika_worker.Results.{End, ignored, gave_up, ran_out}
use avtomatika_worker.Task.Process.{Direct, answers, rxon_failure, other_failure}
use avtomatika_worker.Shutdown.{
  let_go, answers_directly, QueueWorker, not_started, running, cancelled, done, Mail, takes_results,
  put_result, taken, get_result, given, task_done, broken, worker_ends, cancel_worker, Event, start,
  task_ends, takes, sends, cancel, ends, started, on_event, run_events,
}

-- The attempts end in an answer, or without one; and so does a direct call, if there is one.
abbrev pub answers_in : List Event → ℕ
answers_in [] = 0
answers_in (sends Results.taken ∷ es) = suc (answers_in es)
answers_in (sends ignored ∷ es) = suc (answers_in es)
answers_in (task_ends r answers ∷ es) = suc (answers_in es)
answers_in (_ ∷ es) = answers_in es

abbrev pub failures_in : List Event → ℕ
failures_in [] = 0
failures_in (sends gave_up ∷ es) = suc (failures_in es)
failures_in (sends ran_out ∷ es) = suc (failures_in es)
failures_in (task_ends r rxon_failure ∷ es) = suc (failures_in es)
failures_in (task_ends r other_failure ∷ es) = suc (failures_in es)
failures_in (_ ∷ es) = failures_in es

module _ (p : ℕ → Bool) where
  -- No more results are answered than `a` more, and no more dropped than `d` more.
  pub record Within (a d : ℕ) (m n : Mail) : Type 0 where
    pub answered : count_if p n.handed_over ≤ a + count_if p m.handed_over
    pub unanswered : count_if p n.dropped ≤ d + count_if p m.dropped

  same :
      (a d : ℕ) (m n : Mail)
      → n.handed_over ≡ m.handed_over
      → n.dropped ≡ m.dropped
      → Within a d m n
  same a d m n h k = record { answered = rw (h) (omega arith); unanswered = rw (k) (omega arith) }

  let_go-Within :
      (b : Bool) (r : ℕ) (m : Mail)
      → Within (if b then 1 else 0) (if b then 0 else 1) m (let_go b r m)
  let_go-Within true r m = record { answered = grind arith; unanswered = grind arith }
  let_go-Within false r m = record { answered = grind arith; unanswered = grind arith }

  put-Within :
      (r : ℕ) (d : Direct) (m : Mail)
      → let b = answers_directly d in
        Within (if b then 1 else 0) (if b then 0 else 1) m (put_result r d m)
  unfolding put_result
  put-Within r d m = put_if (takes_results m.worker)
    where
      put_if :
          (t : Bool)
          → let b = answers_directly d in
            Within
              (if b then 1 else 0)
              (if b then 0 else 1)
              m
              (if t then record m { queue = m.queue ++ (r ∷ []) } else let_go b r m)
      put_if true = same _ _ m (record m { queue = m.queue ++ (r ∷ []) }) refl refl
      put_if false = let_go-Within (answers_directly d) r m

  given-Within :
      (w : QueueWorker) (i : Option ℕ) (b : Bool) (m : Mail)
      → Within (if b then 1 else 0) (if b then 0 else 1) m (given w i b m)
  given-Within running (some r) b m =
      let l = let_go-Within b r (record m { in_hand = none }) in
      record { answered = l.answered; unanswered = l.unanswered }
  given-Within running none b m = same _ _ m m refl refl
  given-Within not_started i b m = same _ _ m m refl refl
  given-Within cancelled i b m = same _ _ m m refl refl
  given-Within done i b m = same _ _ m m refl refl

  taken-Within :
      (w : QueueWorker) (i : Option ℕ) (q : List ℕ) (m : Mail) → Within 0 0 m (taken w i q m)
  taken-Within running none (r ∷ rs) m =
      same 0 0 m (record m { queue = rs; in_hand = some r }) refl refl
  taken-Within running none [] m = same 0 0 m m refl refl
  taken-Within running (some r) q m = same 0 0 m m refl refl
  taken-Within not_started i q m = same 0 0 m m refl refl
  taken-Within cancelled i q m = same 0 0 m m refl refl
  taken-Within done i q m = same 0 0 m m refl refl

  broken-Within : (w : QueueWorker) (i : Option ℕ) (m : Mail) → Within 0 0 m (broken w i m)
  broken-Within cancelled none m = same 0 0 m (record m { worker = done }) refl refl
  broken-Within cancelled (some r) m = same 0 0 m (broken cancelled (some r) m) refl refl
  broken-Within not_started i m = same 0 0 m m refl refl
  broken-Within running i m = same 0 0 m m refl refl
  broken-Within done i m = same 0 0 m m refl refl

  cancel-Within : (m : Mail) → Within 0 0 m (cancel_worker m)
  unfolding cancel_worker
  cancel-Within m = cancel_if (takes_results m.worker)
    where
      cancel_if : (b : Bool) → Within 0 0 m (if b then record m { worker = cancelled } else m)
      cancel_if true = same 0 0 m (record m { worker = cancelled }) refl refl
      cancel_if false = same 0 0 m m refl refl

  started-Within : (w : QueueWorker) (m : Mail) → Within 0 0 m (started w m)
  started-Within not_started m = same 0 0 m (record m { worker = running }) refl refl
  started-Within running m = same 0 0 m m refl refl
  started-Within cancelled m = same 0 0 m m refl refl
  started-Within done m = same 0 0 m m refl refl

  event-Within :
      (e : Event) (m : Mail) → Within (answers_in (e ∷ [])) (failures_in (e ∷ [])) m (on_event e m)
  unfolding on_event get_result task_done worker_ends
  event-Within start m = started-Within m.worker m
  event-Within (task_ends r answers) m = put-Within r answers m
  event-Within (task_ends r rxon_failure) m = put-Within r rxon_failure m
  event-Within (task_ends r other_failure) m = put-Within r other_failure m
  event-Within takes m = taken-Within m.worker m.in_hand m.queue m
  event-Within (sends Results.taken) m = given-Within m.worker m.in_hand true m
  event-Within (sends ignored) m = given-Within m.worker m.in_hand true m
  event-Within (sends gave_up) m = given-Within m.worker m.in_hand false m
  event-Within (sends ran_out) m = given-Within m.worker m.in_hand false m
  event-Within cancel m = cancel-Within m
  event-Within ends m = broken-Within m.worker m.in_hand m

  first :
      (e : Event) (es : List Event)
      → (answers_in (e ∷ es) ≡ answers_in (e ∷ []) + answers_in es)
        × (failures_in (e ∷ es) ≡ failures_in (e ∷ []) + failures_in es)
  first start es = (omega arith, omega arith)
  first (task_ends r answers) es = (omega arith, omega arith)
  first (task_ends r rxon_failure) es = (omega arith, omega arith)
  first (task_ends r other_failure) es = (omega arith, omega arith)
  first takes es = (omega arith, omega arith)
  first (sends Results.taken) es = (omega arith, omega arith)
  first (sends ignored) es = (omega arith, omega arith)
  first (sends gave_up) es = (omega arith, omega arith)
  first (sends ran_out) es = (omega arith, omega arith)
  first cancel es = (omega arith, omega arith)
  first ends es = (omega arith, omega arith)

  -- Results are answered and dropped by the events that say so, one by each at most.
  pub run-Within :
      (es : List Event) (m : Mail) → Within (answers_in es) (failures_in es) m (run_events es m)
  unfolding run_events
  run-Within [] m = same 0 0 m m refl refl
  run-Within (e ∷ es) m =
      let one = event-Within e m in
      let rest = run-Within es (on_event e m) in
      let (more_answers, more_failures) = first e es in
      record {
        answered = omega (arith, one.answered, rest.answered, more_answers);
        unanswered = omega (arith, one.unanswered, rest.unanswered, more_failures);
      }
