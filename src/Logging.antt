-- ===== src/Logging.antt =====
-- logging.py: the context that every log record gets, one for the whole process, with the calls of it
-- in worker.py's `_process_task`.
pub mod Context
use avtomatika_worker.Base.{String, Bool, Option, none, some, List, [], ◌∷◌, string_eq}
use avtomatika_worker.Base.Dict
use avtomatika_worker.Base.Dict.{Dict}
use avtomatika_worker.Json.{Json, str}

-- `ContextFilter.filter`, on the attributes of a record; it always keeps the record.
unfoldable pub filter : Dict String Json → Dict String Json → Dict String Json
filter context attributes = Dict.update attributes context

-- `set_context`
unfoldable pub set_context : Dict String Json → Dict String Json → Dict String Json
set_context kwargs context = Dict.update context kwargs

unfoldable pub pop_all : List String → Dict String Json → Dict String Json
pop_all [] context = context
pop_all (k ∷ ks) context = pop_all ks (Dict.erase k context)

-- `clear_context`
unfoldable pub clear_context : List String → Dict String Json → Dict String Json
clear_context [] context = []
clear_context (k ∷ ks) context = pop_all (k ∷ ks) context

-- The two calls in `_process_task`: where a task with its job begins, and in its `finally` block.
pub data TaskLog : Type 0 where
  begins : String → String → TaskLog
  ends : TaskLog

unfoldable pub on_task : TaskLog → Dict String Json → Dict String Json
on_task (begins task_id job_id) context =
    set_context (("task_id", str task_id) ∷ ("job_id", str job_id) ∷ []) context
on_task ends context = clear_context ("task_id" ∷ "job_id" ∷ []) context

-- Tasks that begin and end on the event loop, in any order.
unfoldable pub run_tasks : List TaskLog → Dict String Json → Dict String Json
run_tasks [] context = context
run_tasks (e ∷ es) context = run_tasks es (on_task e context)
