-- ===== src/Tests/Task.antt =====
-- Task processing at a worker with one skill.
use avtomatika_worker.Base.{
  String, ◌≡◌, refl, Bool, true, false, none, some, List, [], ◌∷◌, ◌==◌, string_eq, inl, subst,
  arith, ℕ,
}
use avtomatika_worker.Base.Dict
use avtomatika_worker.Base.Dict.{Dict}
use avtomatika_worker.Base.Int.{pos, ◌+ℤ◌}
use avtomatika_worker.Json.{Json, str, num, obj, field, end}
use avtomatika_worker.Worker.{Worker, SkillInfo, Handler, load_of}
use avtomatika_worker.Worker.Registry.{IsRegistry}
use avtomatika_worker.Load.{count_slot, done, accept_task}
use avtomatika_worker.Load.Entries.{accept_task_total}
use avtomatika_worker.Task.Gate.{Policy, Signed, admitted, permits, check_task}
use avtomatika_worker.Task.Call.{
  other, bind_parameters, start_kwargs, with_argument, is_unmet, merge, handler_kwargs,
  handler_chain, wrap_all, call_kwargs, Try, ok, raise, DataclassField, missing, plain,
  prepare_task_params, keyword,
}
use avtomatika_worker.Task.Outcome.{
  Env, TaskError, TaskResult, or_default, Returned, a_dict, a_value, assemble,
}
use avtomatika_worker.Task.Outcome.Contract.{Gives, data_of, violation_fields, assemble_violation}
use avtomatika_worker.Task.Run.{
  Setup, Callee, run_handler, call_handler, available_context, prepare_dependencies,
  execution_logic,
}
use avtomatika_worker.Task.Process.{
  Checked, Polled, as_job, as_task, Sent, finished, Ran, ended, Finally,
}
use avtomatika_worker.Task.Process
use avtomatika_worker.Task.Process.Conclusion.{Concludes}
use avtomatika_worker.Task.Process.Ending.{
  processed, process_task_once, raised_is_reported, received_and_processed,
}
use avtomatika_worker.Tests.Skills.{echo, one_skill, one_skill-IsRegistry}

abbrev allowed : List String
allowed = "echo" ∷ []

abbrev echo_only : Policy
echo_only = record { allowed_skills = some allowed }

abbrev forged : Signed
forged = record {
  skill_name = "echo";
  sig = some "abc";
  orchestrator_signature = none;
  policy = some echo_only;
}

abbrev unsigned_task : Signed
unsigned_task = record forged { sig = none }

-- Only the signature "good" is right.
abbrev verify : Signed → String → String → Bool
verify t s secret = s == "good"

passes : check_task "secret" verify unsigned_task ≡ admitted
unfolding check_task permits string_eq
passes = refl

-- A dataclass with one field that has no default, made of a dict.
abbrev text_field : DataclassField
text_field = record { name = "text"; default = missing; default_factory = missing }

abbrev construct : Dict String Json → Try ℕ
construct [] = raise (other "no text")
construct (p ∷ ps) = ok 1

abbrev no_hints : Callee ℕ ℕ
no_hints = record {
  annotation = plain;
  parameters =
      record { name = "params"; has_default = false; kind = keyword }
      ∷ record { name = "job_id"; has_default = false; kind = keyword }
      ∷ [];
  hints = [];
  call = λ kwargs. elim (Dict.lookup "job_id" kwargs) [
    | none ↦ raise (other "no job")
    | some n ↦ ok (a_value (num (pos n)))
  ];
}

-- Parameters that need no download, and one middleware that passes everything on.
abbrev setup : Setup ℕ ℕ
setup = record {
  fetch = λ ps. ok ps;
  message = λ names. "missing";
  as_value = λ ps. 1;
  injected = record { task_files = 2; observability = 3; orchestrator_client = 4 };
  values = record {
    task_id = 10;
    job_id = 11;
    tracing_context = 12;
    priority = 13;
    deadline = 14;
    security = 15;
    metadata = 16;
    send_progress = 17;
    send_event = 18;
    add_to_hot_skills = 19;
    remove_from_hot_skills = 20;
  };
  middlewares = (λ next kwargs. next kwargs) ∷ [];
}

-- What the handler would return, through the middleware and from its bound arguments.
returns_job : run_handler setup no_hints [] ≡ ok (a_value (num (pos 11)))
unfolding run_handler call_handler available_context prepare_dependencies prepare_task_params
    handler_kwargs bind_parameters start_kwargs with_argument is_unmet merge handler_chain wrap_all
    execution_logic call_kwargs Dict.insert Dict.lookup string_eq
returns_job = refl

-- A handler that reports success with data that the schema refuses.
abbrev env : Env
env = record {
  codes = record {
    invalid_input = "INVALID_INPUT_ERROR";
    permanent = "PERMANENT_ERROR";
    transient = "TRANSIENT_ERROR";
    integrity_mismatch = "INTEGRITY_MISMATCH";
    contract_violation = "CONTRACT_VIOLATION";
    success = "success";
    failure = "failure";
    cancelled = "cancelled";
  };
  worker_id = "w1";
  worker_token = "token";
  error_fields = "code" ∷ "message" ∷ [];
  make_error = λ d. elim (Dict.lookup "code" d) [
    | some (str c) ↦ elim (Dict.lookup "message" d) [
      | some (str m) ↦ ok (record { code = c; message = m })
      | _ ↦ raise (other "no message")
    ]
    | _ ↦ raise (other "no code")
  ];
  validate_data = λ v schema. elim v [ some (num n) ↦ none | _ ↦ some "not a number" ];
  text_of = λ v. "?";
  upload = λ prefix v. ok (v, []);
  sign_payload = λ r token. token;
  security_of = λ v. ok none;
}

abbrev strict : SkillInfo
strict = record echo { output_schema = some (obj (field "type" (str "number") end)) }

abbrev claims_success : Returned
claims_success = a_dict (("status", str "success") ∷ ("data", str "text") ∷ [])

abbrev violation : TaskError
violation = record {
  code = "CONTRACT_VIOLATION";
  message = "Local contract violation: output does not match schema. not a number";
}

abbrev polled : Polled
polled = record {
  task_id = "t1";
  job_id = "j1";
  type = "echo";
  origin_worker_id = none;
  metadata = none;
  signed = unsigned_task;
}

makes_error : env.make_error (violation_fields env "not a number") ≡ ok violation
unfolding Dict.lookup string_eq
makes_error = refl

breaks :
    env.validate_data (data_of claims_success) (obj (field "type" (str "number") end))
    ≡ some "not a number"
unfolding Dict.lookup string_eq
breaks = refl

assemble_violation_example :
    Gives env
      (as_job polled)
      "failure"
      violation
      (assemble env (as_job polled) strict claims_success)
unfolding string_eq
assemble_violation_example =
    assemble_violation env (as_job polled) strict claims_success
      (obj (field "type" (str "number") end)) "not a number" violation
      (or_default (obj end) (data_of claims_success), []) none refl refl makes_error refl breaks
      refl refl

-- Parameters fit a skill that has one; this skill has none.
abbrev fits : SkillInfo → Checked
fits info = record { is_valid = true; error_msg = none }

abbrev crashes : Handler → Try Returned
crashes h = raise (other "boom")

abbrev answers : Handler → Try Returned
answers h = ok (a_value (num (pos 1)))

-- The cleanup does not raise, and the queue takes the result.
abbrev calm : Finally
calm = record { cleanup_raises = false; direct = Process.answers }

abbrev one_running : Worker
one_running = record one_skill {
  current_load = pos 1;
  current_load_by_type = ("text", pos 1) ∷ [];
  active_tasks = ("t1", 5) ∷ [];
}

accepts_polled : accept_task (as_task polled) 5 one_skill ≡ done one_running
unfolding accept_task count_slot Dict.insert Dict.lookup string_eq ◌+ℤ◌
accepts_polled = refl

-- The worker with the task, as it is when the task ends.
one_running-IsRegistry : IsRegistry one_running
one_running-IsRegistry =
    let (u, is_u, reg) = accept_task_total (as_task polled) 5 one_skill one_skill-IsRegistry in
    let same : u ≡ one_running = ground (arith, is_u, accepts_polled) in subst IsRegistry same reg

process_task_once_example :
    (r : TaskResult) × (reraises : Bool) × Concludes env polled true one_running reraises r (
      processed env "secret" verify fits one_skill one_running true calm polled
        (λ h. ended (crashes h)))
process_task_once_example =
    process_task_once env "secret" verify fits one_skill one_running true calm polled crashes passes
      (refl, inl refl) one_running-IsRegistry refl

raised_is_reported_example :
    (r : TaskResult) × (r.status ≡ str "failure")
    × Concludes env polled true one_running false r (
        processed env "secret" verify fits one_skill one_running true calm polled
          (λ h. ended (crashes h)))
unfolding Dict.lookup string_eq
raised_is_reported_example =
    raised_is_reported env "secret" verify fits one_skill one_running true calm polled
      (λ h. ended (crashes h)) (record { func = 7; info = echo; type = "text" }) (other "boom")
      passes refl refl refl (refl, inl refl) one_running-IsRegistry refl

received_and_processed_example :
    (sent : Sent) × (reraises : Bool) × (v : Worker) × (Process.process_task env "secret" verify
        fits
        (λ h. ended (answers h))
        one_running
        one_running
        true
        calm
        polled
      ≡ finished sent reraises (done v))
    × (v.current_load ≡ one_skill.current_load)
    × ((j : String) → load_of j v.current_load_by_type ≡ load_of j one_skill.current_load_by_type)
received_and_processed_example =
    received_and_processed env "secret" verify fits answers 5 one_skill one_running true calm polled
      one_skill-IsRegistry accepts_polled passes (refl, inl refl)
