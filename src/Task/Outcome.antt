-- ===== src/Task/Outcome.antt =====
-- worker.py: what `_process_task` makes of a handler's result or of an exception: a `TaskResult`.
pub mod Contract
use avtomatika_worker.Base.{
  String, ◌<>◌, Bool, true, false, not, ◌&&◌, Option, none, some, List, [], ◌∷◌, filter, contains,
  ◌==◌, string_eq, if◌then◌else◌,
}
use avtomatika_worker.Base.Dict
use avtomatika_worker.Base.Dict.{Dict}
use avtomatika_worker.Json.{Json, Fields, str, obj, end, field}
use avtomatika_worker.Worker.{SkillInfo}
use avtomatika_worker.Task.Call.{
  Exception, param_validation, value_error, type_error, cancelled, other, Try, ok, raise, ◌>>=◌,
}

-- The constants of `rxon.constants`.
pub record Codes : Type 0 where
  pub invalid_input : String
  pub permanent : String
  pub transient : String
  pub integrity_mismatch : String
  pub contract_violation : String
  pub success : String
  pub failure : String
  pub cancelled : String

pub record TaskError : Type 0 where
  pub code : String
  pub message : String

-- rxon's `FileMetadata`
pub record FileMetadata : Type 0 where
  pub uri : String
  pub size : Option Json
  pub etag : Option String

-- rxon's `SecurityContext`; the worker sets no identity chain on a result.
pub record SecurityContext : Type 0 where
  pub signature : String
  pub signer_id : String

-- rxon's `TaskResult`, less the timestamp and the costs, which are read off clocks.
pub record TaskResult : Type 0 where
  pub job_id : String
  pub task_id : String
  pub worker_id : String
  pub origin_worker_id : Option String
  pub status : Json
  pub «data» : Option Json
  pub error : Option TaskError
  pub data_metadata : Option (Dict String FileMetadata)
  pub metadata : Option Json
  pub security : Option SecurityContext

-- What the code takes from rxon and from its own configuration: `error_fields` and `make_error` are the
-- fields and the constructor of rxon's `TaskError`; `validate_data` gives the message of a violation;
-- `text_of` is `str`; `upload` is `S3Manager.process_result`, with the job as prefix; `sign_payload`
-- is rxon's signature of a payload by a token; and `security_of` is `from_dict` of rxon for a security context.
pub record Env : Type 0 where
  pub codes : Codes
  pub worker_id : String
  pub worker_token : String
  pub error_fields : List String
  pub make_error : Dict String Json → Try TaskError
  pub validate_data : Option Json → Json → Option String
  pub text_of : Json → String
  pub upload : String → Json → Try (Json × Dict String FileMetadata)
  pub sign_payload : TaskResult → String → String
  pub security_of : Option Json → Try (Option SecurityContext)

-- The task's identity and what its results repeat of it.
pub record Job : Type 0 where
  pub job_id : String
  pub task_id : String
  pub skill_name : String
  pub origin_worker_id : Option String
  pub metadata : Option Json

-- A handler returns a dict or another value.
pub data Returned : Type 0 where
  a_dict : Dict String Json → Returned
  a_value : Json → Returned

-- `x or WORKER_ID`
abbrev pub origin : Env → Job → String
origin e j = elim j.origin_worker_id [
  | none ↦ e.worker_id
  | some o ↦ if o == "" then e.worker_id else o
]

-- `_sign_payload_if_needed`
unfoldable pub sign_payload_if_needed : Env → TaskResult → Option SecurityContext
sign_payload_if_needed e payload =
    if not (e.worker_token == "") && not (e.worker_token == "your-secret-worker-token")
    then some
        (record { signature = e.sign_payload payload e.worker_token; signer_id = e.worker_id })
    else none

abbrev pub signed : Env → TaskResult → TaskResult
signed e r = record r { security = sign_payload_if_needed e r }

-- The results that are built by hand, which all carry the task's metadata.
pub plain_result : Env → Job → Option String → String → Option TaskError → TaskResult
plain_result e j from status error = signed e (record {
  job_id = j.job_id;
  task_id = j.task_id;
  worker_id = e.worker_id;
  origin_worker_id = from;
  status = str status;
  «data» = none;
  error = error;
  data_metadata = none;
  metadata = j.metadata;
  security = none;
})

abbrev pub failure_of : Env → Job → String → String → TaskResult
failure_of e j code message =
    plain_result e j (some (origin e j)) e.codes.failure
      (some (record { code = code; message = message }))

-- The `except` clauses, in order.
unfoldable pub result_of_exception : Env → Job → Exception → TaskResult
unfolding plain_result
result_of_exception e j (param_validation m) = failure_of e j e.codes.invalid_input m
result_of_exception e j cancelled = plain_result e j (some (origin e j)) e.codes.cancelled none
result_of_exception e j (value_error m) = failure_of e j e.codes.integrity_mismatch m
result_of_exception e j (type_error m) = failure_of e j e.codes.transient m
result_of_exception e j (other m) = failure_of e j e.codes.transient m

-- The branch of a skill that the worker does not have; it sets no `origin_worker_id`.
unfoldable pub unsupported : Env → Job → TaskResult
unfolding plain_result
unsupported e j =
    plain_result e j none e.codes.failure
      (some (record { code = e.codes.permanent; message = "Unsupported skill: " <> j.skill_name }))

-- `if not isinstance(handler_result, dict): handler_result = {"data": handler_result}`
abbrev pub as_dict : Returned → Dict String Json
as_dict (a_dict d) = d
as_dict (a_value v) = ("data", v) ∷ []

-- A schema that is true: neither None nor empty.
abbrev pub true_schema : Option Json → Option Json
true_schema none = none
true_schema (some (obj end)) = none
true_schema (some s) = some s

-- The dict that an object of JSON is.
abbrev pub entries : Fields → Dict String Json
entries end = []
entries (field k v fs) = (k, v) ∷ entries fs

abbrev pub violation_text : String → String
violation_text m = "Local contract violation: output does not match schema. " <> m

-- The two assignments to `handler_result` on a violation.
unfoldable pub with_violation : Env → String → Dict String Json → Dict String Json
with_violation e m d =
    Dict.insert "error"
      (obj (
        field "code" (str e.codes.contract_violation)
          (field "message" (str (violation_text m)) end)))
      (Dict.insert "status" (str e.codes.failure) d)

abbrev pub unless_violation : Env → Dict String Json → Option String → Dict String Json
unless_violation e d none = d
unless_violation e d (some m) = with_violation e m d

abbrev pub check_data : Env → Dict String Json → Option Json → Dict String Json
check_data e d none = d
check_data e d (some schema) = unless_violation e d (e.validate_data (Dict.lookup "data" d) schema)

-- `if skill_info.output_schema`: the check of the handler's data.
unfoldable pub checked_output : Env → SkillInfo → Dict String Json → Dict String Json
checked_output e info d = check_data e d (true_schema info.output_schema)

abbrev pub some_error : Try TaskError → Try (Option TaskError)
some_error (ok x) = ok (some x)
some_error (raise x) = raise x

-- `if "error" in handler_result`: a dict's known fields make the error, and any other value its text.
unfoldable pub reported_error : Env → Option Json → Try (Option TaskError)
reported_error e none = ok none
reported_error e (some (obj fs)) =
    some_error (e.make_error (filter (λ (k, v). contains e.error_fields k) (entries fs)))
reported_error e (some v) = ok (some (record { code = e.codes.transient; message = e.text_of v }))

-- `metadata_map if metadata_map else None`
abbrev pub if_any : Dict String FileMetadata → Option (Dict String FileMetadata)
if_any [] = none
if_any (f ∷ fs) = some (f ∷ fs)

abbrev pub or_default : Json → Option Json → Json
or_default v none = v
or_default v (some w) = w

-- The result of a handler before it is signed.
abbrev pub unsigned :
    Env → Job → Dict String Json → Json × Dict String FileMetadata → Option TaskError → TaskResult
unsigned e j d (uploaded, files) error = record {
  job_id = j.job_id;
  task_id = j.task_id;
  worker_id = e.worker_id;
  origin_worker_id = some (origin e j);
  status = or_default (str e.codes.success) (Dict.lookup "status" d);
  «data» = some uploaded;
  error = error;
  data_metadata = if_any files;
  metadata = Dict.lookup "metadata" d;
  security = none;
}

-- `if not security: security = from_dict(SecurityContext, …)`, and the result with it.
abbrev pub with_security :
    TaskResult → Try (Option SecurityContext) → Option SecurityContext → Try TaskResult
with_security r given (some s) = ok (record r { security = some s })
with_security r given none = given >>= (λ s. ok (record r { security = s }))

-- The result object, signed, or else with the security context that the handler gave.
unfoldable pub handler_result :
    Env
    → Job
    → Dict String Json
    → Json × Dict String FileMetadata
    → Option TaskError
    → Try TaskResult
handler_result e j d uploaded error =
    let r = unsigned e j d uploaded error in
    with_security r (e.security_of (Dict.lookup "security" d)) (sign_payload_if_needed e r)

-- The upload, the error and the result.
unfoldable pub upload_and_report : Env → Job → Dict String Json → Try TaskResult
upload_and_report e j d =
    e.upload j.job_id (or_default (obj end) (Dict.lookup "data" d)) >>= (λ uploaded.
      reported_error e (Dict.lookup "error" d) >>= (λ error. handler_result e j d uploaded error))

-- What follows the call of the handler.
unfoldable pub assemble : Env → Job → SkillInfo → Returned → Try TaskResult
assemble e j info returned = upload_and_report e j (checked_output e info (as_dict returned))
