-- ===== src/Shutdown/Lost.antt =====
-- Where the results of the tasks are when the worker stops.
use avtomatika_worker.Base.{
  ℕ, ◌+◌, ◌≤◌, ◌≡◌, refl, Bool, true, false, Option, none, some, List, [], ◌∷◌, ◌++◌, ◌==◌, nat_eq,
  contains, count_if, if◌then◌else◌, arith,
}
use mathlib.Core.Bool.{cond, false≢true}
use avtomatika_worker.Task.Process.{Direct}
use avtomatika_worker.Shutdown.Answered.{answers_in, failures_in, run-Within}
use avtomatika_worker.Shutdown.{
  let_go, is_answered, answers_directly, QueueWorker, not_started, running, cancelled, done, Mail,
  new_mail, takes_results, put_result, taken, get_result, given, task_done, broken, worker_ends,
  cancel_worker, Event, start, task_ends, takes, sends, cancel, ends, started, on_event, run_events,
}

-- The results of the tasks that end.
abbrev pub results_of : List Event → List ℕ
results_of [] = []
results_of (task_ends r direct ∷ es) = r ∷ results_of es
results_of (_ ∷ es) = results_of es

module _ (p : ℕ → Bool) where
  abbrev pub held : Option ℕ → ℕ
  held none = 0
  held (some r) = cond (p r) 1 0

  -- How many results with the property are somewhere.
  abbrev pub total : Mail → ℕ
  total m =
      count_if p m.queue
      + held m.in_hand
      + count_if p m.handed_over
      + count_if p m.dropped
      + count_if p m.broken_off

  count_if-snoc :
      (xs : List ℕ) (x : ℕ) → count_if p (xs ++ (x ∷ [])) ≡ cond (p x) 1 0 + count_if p xs
  count_if-snoc [] x = refl
  count_if-snoc (y ∷ xs) x = omega (arith, count_if-snoc xs x)

  let_go-total : (b : Bool) (r : ℕ) (m : Mail) → total (let_go b r m) ≡ cond (p r) 1 0 + total m
  let_go-total true r m = omega arith
  let_go-total false r m = omega arith

  put-total : (r : ℕ) (d : Direct) (m : Mail) → total (put_result r d m) ≡ cond (p r) 1 0 + total m
  unfolding put_result
  put-total r d m = put_if (takes_results m.worker)
    where
      put_if :
          (b : Bool)
          → total (
              if b
              then record m { queue = m.queue ++ (r ∷ []) }
              else let_go (answers_directly d) r m)
            ≡ cond (p r) 1 0 + total m
      put_if true = omega (arith, count_if-snoc m.queue r)
      put_if false = let_go-total (answers_directly d) r m

  taken-total :
      (w : QueueWorker) (h : Option ℕ) (q : List ℕ) (m : Mail)
      → total (taken w h q (record m { in_hand = h; queue = q }))
        ≡ total (record m { in_hand = h; queue = q })
  taken-total running none (r ∷ rs) m = omega arith
  taken-total running none [] m = refl
  taken-total running (some r) q m = refl
  taken-total not_started h q m = refl
  taken-total cancelled h q m = refl
  taken-total done h q m = refl

  given-total :
      (w : QueueWorker) (h : Option ℕ) (b : Bool) (m : Mail)
      → total (given w h b (record m { in_hand = h })) ≡ total (record m { in_hand = h })
  given-total running (some r) b m = omega (arith, let_go-total b r (record m { in_hand = none }))
  given-total running none b m = refl
  given-total not_started h b m = refl
  given-total cancelled h b m = refl
  given-total done h b m = refl

  broken-total :
      (w : QueueWorker) (h : Option ℕ) (m : Mail)
      → total (broken w h (record m { in_hand = h })) ≡ total (record m { in_hand = h })
  broken-total cancelled (some r) m = omega arith
  broken-total cancelled none m = refl
  broken-total not_started h m = refl
  broken-total running h m = refl
  broken-total done h m = refl

  cancel-total : (m : Mail) → total (cancel_worker m) ≡ total m
  unfolding cancel_worker
  cancel-total m = cancel_if (takes_results m.worker)
    where
      cancel_if : (b : Bool) → total (if b then record m { worker = cancelled } else m) ≡ total m
      cancel_if true = refl
      cancel_if false = refl

  started-total : (w : QueueWorker) (m : Mail) → total (started w m) ≡ total m
  started-total not_started m = refl
  started-total running m = refl
  started-total cancelled m = refl
  started-total done m = refl

  event-total :
      (e : Event) (m : Mail) → total (on_event e m) ≡ count_if p (results_of (e ∷ [])) + total m
  unfolding on_event get_result task_done worker_ends
  event-total start m = omega (arith, started-total m.worker m)
  event-total (task_ends r d) m = omega (arith, put-total r d m)
  event-total takes m = omega (arith, taken-total m.worker m.in_hand m.queue m)
  event-total (sends end) m = omega (arith, given-total m.worker m.in_hand (is_answered end) m)
  event-total cancel m = omega (arith, cancel-total m)
  event-total ends m = omega (arith, broken-total m.worker m.in_hand m)

  count-results :
      (e : Event) (es : List Event)
      → count_if p (results_of (e ∷ es))
        ≡ count_if p (results_of (e ∷ [])) + count_if p (results_of es)
  count-results start es = omega arith
  count-results (task_ends r d) es = omega arith
  count-results takes es = omega arith
  count-results (sends end) es = omega arith
  count-results cancel es = omega arith
  count-results ends es = omega arith

  run-total :
      (es : List Event) (m : Mail) → total (run_events es m) ≡ count_if p (results_of es) + total m
  unfolding run_events
  run-total [] m = omega arith
  run-total (e ∷ es) m =
      omega (arith, run-total es (on_event e m), event-total e m, count-results e es)

  -- Over every order of starts, ends of tasks, rounds of the queue's worker and steps of its end,
  -- each result is exactly once in the queue, in hand, answered by the orchestrator, dropped
  -- without an answer when its attempts or the direct call ended, or broken off: for every
  -- property, as many results with it are there as tasks ended with one. No more of them count as
  -- answered than events carry an answer, of the attempts or of the direct call that the end of a
  -- task may make, and no more as dropped than carry none.
  pub results_accounted :
      (es : List Event)
      → let m = run_events es new_mail in
        (total m ≡ count_if p (results_of es))
        × (count_if p m.handed_over ≤ answers_in es)
        × (count_if p m.dropped ≤ failures_in es)
  results_accounted es =
      let within = run-Within p es new_mail in
      (
        omega (arith, run-total es new_mail),
        omega (arith, within.answered),
        omega (arith, within.unanswered),
      )

-- The queue's worker was cancelled.
abbrev pub is_stopped : QueueWorker → Bool
is_stopped not_started = false
is_stopped running = false
is_stopped cancelled = true
is_stopped done = true

-- The result waits in the queue of a worker that was cancelled, and was not sent.
pub record IsStuck (r : ℕ) (m : Mail) : Type 0 where
  pub stopped : is_stopped m.worker ≡ true
  pub waits : contains m.queue r ≡ true
  pub unsent : contains m.handed_over r ≡ false

module _ (r : ℕ) where
  contains-snoc : (xs : List ℕ) (s : ℕ) → contains xs r ≡ true → contains (xs ++ (s ∷ [])) r ≡ true
  contains-snoc [] s h = absurd (false≢true h)
  contains-snoc (x ∷ xs) s h = ground (arith, h, contains-snoc xs s)

  -- A task ends with another result.
  let_go-IsStuck :
      (b : Bool) (s : ℕ) (m : Mail) → (r == s) ≡ false → IsStuck r m → IsStuck r (let_go b s m)
  let_go-IsStuck true s m other h = record {
    stopped = h.stopped;
    waits = h.waits;
    unsent = rw (other) h.unsent;
  }
  let_go-IsStuck false s m other h = record {
    stopped = h.stopped;
    waits = h.waits;
    unsent = h.unsent;
  }

  put-IsStuck :
      (s : ℕ) (d : Direct) (m : Mail)
      → (r == s) ≡ false
      → IsStuck r m
      → IsStuck r (put_result s d m)
  unfolding put_result
  put-IsStuck s d m other h = put_if (takes_results m.worker)
    where
      put_if :
          (b : Bool)
          → IsStuck r (
              if b
              then record m { queue = m.queue ++ (s ∷ []) }
              else let_go (answers_directly d) s m)
      put_if true = record {
        stopped = h.stopped;
        waits = contains-snoc m.queue s h.waits;
        unsent = h.unsent;
      }
      put_if false = let_go-IsStuck (answers_directly d) s m other h

  started-IsStuck :
      (w : QueueWorker) (m : Mail) → is_stopped w ≡ true → IsStuck r m → IsStuck r (started w m)
  started-IsStuck not_started m s h = absurd (false≢true s)
  started-IsStuck running m s h = h
  started-IsStuck cancelled m s h = h
  started-IsStuck done m s h = h

  taken-IsStuck :
      (w : QueueWorker) (m : Mail)
      → is_stopped w ≡ true
      → IsStuck r m
      → IsStuck r (taken w m.in_hand m.queue m)
  taken-IsStuck not_started m s h = absurd (false≢true s)
  taken-IsStuck running m s h = absurd (false≢true s)
  taken-IsStuck cancelled m s h = h
  taken-IsStuck done m s h = h

  given-IsStuck :
      (w : QueueWorker) (b : Bool) (m : Mail)
      → is_stopped w ≡ true
      → IsStuck r m
      → IsStuck r (given w m.in_hand b m)
  given-IsStuck not_started b m s h = absurd (false≢true s)
  given-IsStuck running b m s h = absurd (false≢true s)
  given-IsStuck cancelled b m s h = h
  given-IsStuck done b m s h = h

  broken-IsStuck :
      (w : QueueWorker) (i : Option ℕ) (m : Mail)
      → is_stopped w ≡ true
      → IsStuck r m
      → IsStuck r (broken w i m)
  broken-IsStuck not_started i m s h = absurd (false≢true s)
  broken-IsStuck running i m s h = absurd (false≢true s)
  broken-IsStuck cancelled none m s h = record {
    stopped = refl;
    waits = h.waits;
    unsent = h.unsent;
  }
  broken-IsStuck cancelled (some t) m s h = record {
    stopped = refl;
    waits = h.waits;
    unsent = h.unsent;
  }
  broken-IsStuck done i m s h = h

  cancel-IsStuck : (m : Mail) → IsStuck r m → IsStuck r (cancel_worker m)
  unfolding cancel_worker
  cancel-IsStuck m h = cancel_if (takes_results m.worker)
    where
      cancel_if : (b : Bool) → IsStuck r (if b then record m { worker = cancelled } else m)
      cancel_if true = record { stopped = refl; waits = h.waits; unsent = h.unsent }
      cancel_if false = h

  event-IsStuck :
      (e : Event) (m : Mail)
      → contains (results_of (e ∷ [])) r ≡ false
      → IsStuck r m
      → IsStuck r (on_event e m)
  unfolding on_event get_result task_done worker_ends
  event-IsStuck start m o h = started-IsStuck m.worker m h.stopped h
  event-IsStuck (task_ends s d) m o h = put-IsStuck s d m (ground (arith, o)) h
  event-IsStuck takes m o h = taken-IsStuck m.worker m h.stopped h
  event-IsStuck (sends end) m o h = given-IsStuck m.worker (is_answered end) m h.stopped h
  event-IsStuck cancel m o h = cancel-IsStuck m h
  event-IsStuck ends m o h = broken-IsStuck m.worker m.in_hand m h.stopped h

  first_other :
      (e : Event) (es : List Event)
      → contains (results_of (e ∷ es)) r ≡ false
      → (contains (results_of (e ∷ [])) r ≡ false) × (contains (results_of es) r ≡ false)
  first_other start es h = (refl, h)
  first_other (task_ends s d) es h = (ground (arith, h), ground (arith, h))
  first_other takes es h = (refl, h)
  first_other (sends end) es h = (refl, h)
  first_other cancel es h = (refl, h)
  first_other ends es h = (refl, h)

  -- A result that waits in the queue when the queue's worker has been cancelled, and was not sent,
  -- stays there unsent whatever follows, as long as no task ends with the same result.
  pub never_sent :
      (es : List Event) (m : Mail)
      → contains (results_of es) r ≡ false
      → IsStuck r m
      → IsStuck r (run_events es m)
  unfolding run_events
  never_sent [] m o h = h
  never_sent (e ∷ es) m o h =
      let (first, rest) = first_other e es o in
      never_sent es (on_event e m) rest (event-IsStuck e m first h)
