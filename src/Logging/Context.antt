-- ===== src/Logging/Context.antt =====
-- Which task a log record names.
use avtomatika_worker.Base.{
  String, ◌≡◌, refl, ap, ◌∙◌, Option, none, some, List, [], ◌∷◌, string_eq, arith,
}
use avtomatika_worker.Base.Dict
use avtomatika_worker.Base.Dict.{Dict, NodupKeys}
use avtomatika_worker.Json.{Json, str}
use avtomatika_worker.Logging.{
  filter, set_context, pop_all, clear_context, TaskLog, begins, ends, on_task, run_tasks,
}

-- The task of the last beginning, if nothing ended since.
abbrev pub last_begun : List TaskLog → Option Json → Option Json
last_begun [] o = o
last_begun (begins task_id job_id ∷ es) o = last_begun es (some (str task_id))
last_begun (ends ∷ es) o = last_begun es none

erase-NodupKeys : (k : String) (d : Dict String Json) → NodupKeys d → NodupKeys (Dict.erase k d)
unfolding Dict.erase
erase-NodupKeys k [] h = tt
erase-NodupKeys k ((j, v) ∷ d) h =
    ground (arith, h.0, erase-NodupKeys k d h.1, Dict.lookup-erase j k d)

on_task-NodupKeys : (e : TaskLog) (c : Dict String Json) → NodupKeys c → NodupKeys (on_task e c)
unfolding on_task set_context clear_context pop_all Dict.update
on_task-NodupKeys (begins task_id job_id) c h =
    Dict.insert-NodupKeys "job_id" (str job_id) (Dict.insert "task_id" (str task_id) c)
      (Dict.insert-NodupKeys "task_id" (str task_id) c h)
on_task-NodupKeys ends c h =
    erase-NodupKeys "job_id" (Dict.erase "task_id" c) (erase-NodupKeys "task_id" c h)

begun-lookup :
    (task_id job_id : String) (c : Dict String Json)
    → Dict.lookup "task_id" (on_task (begins task_id job_id) c) ≡ some (str task_id)
unfolding on_task set_context Dict.update string_eq
begun-lookup task_id job_id c =
    Dict.lookup-insert "task_id" "job_id" (str job_id) (Dict.insert "task_id" (str task_id) c)
    ∙ Dict.lookup-insert "task_id" "task_id" (str task_id) c

ended-lookup : (c : Dict String Json) → Dict.lookup "task_id" (on_task ends c) ≡ none
unfolding on_task clear_context pop_all string_eq
ended-lookup c =
    Dict.lookup-erase "task_id" "job_id" (Dict.erase "task_id" c)
    ∙ Dict.lookup-erase "task_id" "task_id" c

run-NodupKeys :
    (es : List TaskLog) (c : Dict String Json) → NodupKeys c → NodupKeys (run_tasks es c)
unfolding run_tasks
run-NodupKeys [] c h = h
run-NodupKeys (e ∷ es) c h = run-NodupKeys es (on_task e c) (on_task-NodupKeys e c h)

context-last_begun :
    (es : List TaskLog) (c : Dict String Json)
    → Dict.lookup "task_id" (run_tasks es c) ≡ last_begun es (Dict.lookup "task_id" c)
unfolding run_tasks
context-last_begun [] c = refl
context-last_begun (begins task_id job_id ∷ es) c =
    context-last_begun es (on_task (begins task_id job_id) c)
    ∙ ap (last_begun es) (begun-lookup task_id job_id c)
context-last_begun (ends ∷ es) c =
    context-last_begun es (on_task ends c) ∙ ap (last_begun es) (ended-lookup c)

-- From a context without double keys, a log record names as its task the one that began last,
-- whichever task logs, if none ended since, and has its own entry, if any, where a task ended
-- last.
pub record_names_last_begun :
    (es : List TaskLog) (context attributes : Dict String Json)
    → NodupKeys context
    → Dict.lookup "task_id" (filter (run_tasks es context) attributes)
      ≡ Dict.or_else
          (last_begun es (Dict.lookup "task_id" context))
          (Dict.lookup "task_id" attributes)
unfolding filter
record_names_last_begun es context attributes h =
    Dict.lookup-update "task_id" attributes (run_tasks es context) (run-NodupKeys es context h)
    ∙ ap (λ o. Dict.or_else o (Dict.lookup "task_id" attributes)) (context-last_begun es context)
