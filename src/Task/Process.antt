-- ===== src/Task/Process.antt =====
-- worker.py: `_process_task` as a whole: the checks, the result, its delivery and the release.
pub mod Conclusion
pub mod Ending
use avtomatika_worker.Base.{
  String, Bool, true, false, ◌==◌, string_eq, Option, none, some, List, [], ◌∷◌, if◌then◌else◌,
}
use avtomatika_worker.Base.Dict
use avtomatika_worker.Base.Dict.{Dict}
use avtomatika_worker.Json.{Json}
use avtomatika_worker.Worker.{SkillInfo, Handler, Worker, is_truthy}
use avtomatika_worker.Load
use avtomatika_worker.Load.{Outcome, slot_of, release_task}
use avtomatika_worker.Task.Gate.{Signed, Gate, admitted, bad_signature, not_permitted, check_task}
use avtomatika_worker.Task.Call.{Exception, cancelled, Try, ok, raise, ◌>>=◌}
use avtomatika_worker.Task.Outcome.{
  Env, Job, TaskResult, Returned, assemble, failure_of, result_of_exception, unsupported,
}

-- rxon's `validate_params`: whether the task's parameters fit the skill, and a message.
pub record Checked : Type 0 where
  pub is_valid : Bool
  pub error_msg : Option String

-- `error_msg or "Validation failed"`
abbrev pub message_of : Option String → String
message_of none = "Validation failed"
message_of (some m) = if m == "" then "Validation failed" else m

-- How the run of the handler ends, download and middlewares included: with what it returns, with one of
-- the exceptions that the `except` clauses catch, or with one that none does, as SystemExit is.
pub data Ran : Type 0 where
  ended : Try Returned → Ran
  exits : Ran

-- How the `try` block ends: with a result if there is one, and whether an exception goes on to the
-- caller once the `finally` block has run.
pub record Settled : Type 0 where
  pub result : Option TaskResult
  pub reraises : Bool

abbrev pub is_cancelled : Exception → Bool
is_cancelled cancelled = true
is_cancelled _ = false

-- A result, or the `except` clause of an exception.
abbrev pub settle : Env → Job → Try TaskResult → Settled
settle e j (ok r) = record { result = some r; reraises = false }
settle e j (raise x) = record {
  result = some (result_of_exception e j x);
  reraises = is_cancelled x;
}

abbrev pub settle_run : Env → Job → SkillInfo → Ran → Settled
settle_run e j info (ended t) = settle e j (t >>= assemble e j info)
settle_run e j info exits = record { result = none; reraises = true }

-- The result for parameters that do not fit the skill.
abbrev pub misfit : Env → Job → Checked → Settled
misfit e j c = record {
  result = some (failure_of e j e.codes.invalid_input (message_of c.error_msg));
  reraises = false;
}

-- The branches of the `try` block: the parameters do not fit the skill, the skill is not there, or
-- the handler runs.
unfoldable pub run_skill :
    Env → Job → (SkillInfo → Checked) → (Handler → Ran) → Option Handler → Settled
run_skill e j validate run none = record { result = some (unsupported e j); reraises = false }
run_skill e j validate run (some h) =
    if (validate h.info).is_valid
    then settle_run e j h.info (run h)
    else misfit e j (validate h.info)

-- What a direct call of `send_result` does: it answers, it raises an RxonError, which is logged, or it
-- raises another exception, a cancellation among them.
pub data Direct : Type 0 where
  answers : Direct
  rxon_failure : Direct
  other_failure : Direct

-- What the awaits of the `finally` block do: whether `s3_manager.cleanup` raises, a cancellation among
-- that, and the direct call. The queue has no bound, so that `put` neither waits nor raises.
pub record Finally : Type 0 where
  pub cleanup_raises : Bool
  pub direct : Direct

-- Where the `finally` block puts the result: nowhere, in the queue, or at once to the orchestrator when
-- the queue's worker does not run.
pub data Sent : Type 0 where
  unsent : Sent
  queued : TaskResult → Sent
  directly : TaskResult → Sent

abbrev pub send : Bool → Option TaskResult → Sent
send queue_runs none = unsent
send queue_runs (some r) = if queue_runs then queued r else directly r

-- Whether an exception leaves the block with the sending.
abbrev pub sending_raises : Sent → Direct → Bool
sending_raises (directly r) other_failure = true
sending_raises _ _ = false

-- The task's id and skill, for the load; what the checks read; and what the results repeat.
pub record Polled : Type 0 where
  pub task_id : String
  pub job_id : String
  pub type : String
  pub origin_worker_id : Option String
  pub metadata : Option Json
  pub signed : Signed

abbrev pub as_job : Polled → Job
as_job t = record {
  job_id = t.job_id;
  task_id = t.task_id;
  skill_name = t.type;
  origin_worker_id = t.origin_worker_id;
  metadata = t.metadata;
}

abbrev pub as_task : Polled → Load.Task
as_task t = record { task_id = t.task_id; type = t.type }

-- A PermissionError before the `try`; the end of the `finally` block, with the worker after it; or an
-- exception that left this block before the place in the load was given back.
pub data Processed : Type 0 where
  rejected : Gate → Processed
  finished : Sent → Bool → Outcome → Processed
  broken_off : Sent → Processed

-- The `finally` block, once the checks let the task in.
abbrev pub finish : Worker → Worker → Bool → Finally → Polled → Settled → Gate → Processed
finish before after queue_runs f t s admitted =
    let sent = send queue_runs s.result in
    if f.cleanup_raises
    then broken_off unsent
    else if sending_raises sent f.direct
    then broken_off sent
    else finished sent s.reraises (release_task (as_task t) (slot_of before t.type) after)
finish before after queue_runs f t s bad_signature = rejected bad_signature
finish before after queue_runs f t s not_permitted = rejected not_permitted

-- The worker is `before` when the task starts and `after` when its run ends: other tasks, and the
-- handler itself, change it in between.
unfoldable pub process_task :
    Env
    → String
    → (Signed → String → String → Bool)
    → (SkillInfo → Checked)
    → (Handler → Ran)
    → Worker
    → Worker
    → Bool
    → Finally
    → Polled
    → Processed
process_task e secret verify validate run before after queue_runs f t =
    finish before after queue_runs f t
      (run_skill e (as_job t) validate run (Dict.lookup t.type before.skill_handlers))
      (check_task secret verify t.signed)
