-- ===== src/Observability/Counts.antt =====
-- observability.py: the counters against the tasks that finished.
use avtomatika_worker.Base.{
  ◌+◌, String, ◌≡◌, Bool, not, ◌&&◌, ◌||◌, List, [], ◌∷◌, arith, count_if, if◌then◌else◌,
}
use avtomatika_worker.Observability.{Otel, Observability, new_observability, record_task_finished}

-- A task that finished: its type, its status and its duration.
abbrev pub Finished : Type 0 → Type 0
Finished F = String × String × F

module _ {F : Type 0} where
  abbrev pub record_all : List (Finished F) → Observability F → Observability F
  record_all [] m = m
  record_all ((t, s, d) ∷ ts) m = record_all ts (record_task_finished t s d m)

  -- The manager counts.
  abbrev is_on : Observability F → Bool
  is_on m = not (not m.enabled || not m.has_meter)

  module _ (p : String × String → Bool) where
    abbrev pub matches : Finished F → Bool
    matches (t, s, d) = p (t, s)

    recorded :
        (ts : List (Finished F)) (m : Observability F)
        → count_if p (record_all ts m).tasks_total
          ≡ count_if p m.tasks_total + (if is_on m then count_if matches ts else 0)
    unfolding record_task_finished
    recorded [] m = ground arith
    recorded ((t, s, d) ∷ ts) m = ground (arith, recorded ts (record_task_finished t s d m))

    -- From a new manager, the tasks counter has as many additions with a property of type and status as
    -- tasks with it finished, if the metrics are enabled and installed, and none otherwise.
    pub counts_finished :
        (enabled : Bool) (o : Otel) (ts : List (Finished F))
        → count_if p (record_all ts (new_observability enabled o)).tasks_total
          ≡ (if enabled && o.has_otel && o.has_metric_reader then count_if matches ts else 0)
    unfolding new_observability
    counts_finished enabled o ts = ground (arith, recorded ts (new_observability enabled o))
