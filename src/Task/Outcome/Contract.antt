-- ===== src/Task/Outcome/Contract.antt =====
-- A handler's data that breaks the skill's schema, and the identity that every result carries.
use avtomatika_worker.Base.{
  String, ◌≡◌, refl, ap, sym, ◌∙◌, subst, true, false, Option, none, some, [], ◌∷◌, contains, ◌==◌,
  string_eq, if◌then◌else◌, arith,
}
use avtomatika_worker.Base.Dict
use avtomatika_worker.Base.Dict.{Dict}
use avtomatika_worker.Json.{Json, str, obj, end, field}
use avtomatika_worker.Worker.{SkillInfo}
use avtomatika_worker.Task.Call.{
  Exception, param_validation, value_error, type_error, cancelled, other, Try, ok, raise, ◌>>=◌,
}
use avtomatika_worker.Task.Outcome.{
  Env, Job, TaskResult, TaskError, FileMetadata, Returned, as_dict, true_schema, some_error,
  with_violation, checked_output, check_data, unless_violation, reported_error, handler_result,
  assemble, upload_and_report, violation_text, or_default, result_of_exception, unsupported,
  failure_of, plain_result, SecurityContext, sign_payload_if_needed, with_security, unsigned,
}

-- The result is about the job's task, in the worker's name.
abbrev pub IsFor : Env → Job → TaskResult → Type 0
IsFor e j r = (r.job_id ≡ j.job_id) × (r.task_id ≡ j.task_id) × (r.worker_id ≡ e.worker_id)

pub failure_of-IsFor :
    (e : Env) (j : Job) (code message : String) → IsFor e j (failure_of e j code message)
unfolding plain_result
failure_of-IsFor e j code message = (refl, refl, refl)

pub result_of_exception-IsFor :
    (e : Env) (j : Job) (x : Exception) → IsFor e j (result_of_exception e j x)
unfolding result_of_exception
result_of_exception-IsFor e j (param_validation m) = (refl, refl, refl)
result_of_exception-IsFor e j (value_error m) = (refl, refl, refl)
result_of_exception-IsFor e j (type_error m) = (refl, refl, refl)
result_of_exception-IsFor e j cancelled = (refl, refl, refl)
result_of_exception-IsFor e j (other m) = (refl, refl, refl)

-- The status of an exception's result.
abbrev pub raised_status : Env → Exception → String
raised_status e cancelled = e.codes.cancelled
raised_status e _ = e.codes.failure

pub result_of_exception-status :
    (e : Env) (j : Job) (x : Exception)
    → (result_of_exception e j x).status ≡ str (raised_status e x)
unfolding result_of_exception
result_of_exception-status e j (param_validation m) = refl
result_of_exception-status e j (value_error m) = refl
result_of_exception-status e j (type_error m) = refl
result_of_exception-status e j cancelled = refl
result_of_exception-status e j (other m) = refl

pub unsupported-IsFor : (e : Env) (j : Job) → IsFor e j (unsupported e j)
unfolding unsupported
unsupported-IsFor e j = (refl, refl, refl)

-- What holds of the value, if there is one.
abbrev pub Ok {ℓ κ} : {A : Type ℓ} → (A → Type κ) → Try A → Type κ
Ok P (ok a) = P a
Ok P (raise x) = Unit

Ok-bind {ℓ κ μ} :
    {A : Type ℓ} {B : Type κ} (P : B → Type μ) (t : Try A) (f : A → Try B)
    → ((a : A) → Ok P (f a))
    → Ok P (t >>= f)
Ok-bind P (ok a) f h = h a
Ok-bind P (raise x) f h = tt

with_security-Ok {κ} :
    (P : TaskResult → Type κ) (r : TaskResult) (given : Try (Option SecurityContext))
    (own : Option SecurityContext)
    → ((s : Option SecurityContext) → P (record r { security = s }))
    → Ok P (with_security r given own)
with_security-Ok P r given (some s) h = h (some s)
with_security-Ok P r given none h = Ok-bind P given _ h

with_security_ok :
    (r : TaskResult) (sec own : Option SecurityContext)
    → (s : Option SecurityContext) × (with_security r (ok sec) own ≡ ok (record r { security = s }))
with_security_ok r sec (some s) = (some s, refl)
with_security_ok r sec none = (sec, refl)

handler_result-IsFor :
    (e : Env) (j : Job) (d : Dict String Json) (u : Json × Dict String FileMetadata)
    (x : Option TaskError)
    → Ok (IsFor e j) (handler_result e j d u x)
unfolding handler_result
handler_result-IsFor e j d u x =
    with_security-Ok (IsFor e j) (unsigned e j d u x) _ _ (λ s. (refl, refl, refl))

pub assemble-IsFor :
    (e : Env) (j : Job) (info : SkillInfo) (r : Returned) → Ok (IsFor e j) (assemble e j info r)
unfolding assemble upload_and_report
assemble-IsFor e j info r =
    let d = checked_output e info (as_dict r) in
    Ok-bind (IsFor e j) _ _ (λ u.
      Ok-bind (IsFor e j) (reported_error e (Dict.lookup "error" d)) _
        (handler_result-IsFor e j d u))

abbrev violation_entry : Env → String → Json
violation_entry e m =
    obj
      (field "code" (str e.codes.contract_violation) (field "message" (str (violation_text m)) end))

-- The dict that rxon's `TaskError` is made of on a violation.
abbrev pub violation_fields : Env → String → Dict String Json
violation_fields e m =
    ("code", str e.codes.contract_violation) ∷ ("message", str (violation_text m)) ∷ []

with_violation-lookup :
    (e : Env) (m : String) (d : Dict String Json) (k : String)
    → (k == "error" ≡ false)
    → Dict.lookup k (with_violation e m d)
      ≡ (if k == "status" then some (str e.codes.failure) else Dict.lookup k d)
unfolding with_violation
with_violation-lookup e m d k not_error = ground (
  arith,
  not_error,
  Dict.lookup-insert k "error" (violation_entry e m) (Dict.insert "status" (str e.codes.failure) d),
  Dict.lookup-insert k "status" (str e.codes.failure) d,
)

with_violation-error :
    (e : Env) (m : String) (d : Dict String Json)
    → contains e.error_fields "code" ≡ true
    → contains e.error_fields "message" ≡ true
    → reported_error e (Dict.lookup "error" (with_violation e m d))
      ≡ some_error (e.make_error (violation_fields e m))
unfolding with_violation reported_error string_eq
with_violation-error e m d has_code has_message =
    ap (reported_error e) (
      Dict.lookup-insert "error" "error" (violation_entry e m)
        (Dict.insert "status" (str e.codes.failure) d))
    ∙ rw (has_code, has_message)

-- The data of a handler's result, given in a dict or alone.
abbrev pub data_of : Returned → Option Json
data_of r = Dict.lookup "data" (as_dict r)

-- A result with the status and the error.
abbrev pub Gives : Env → Job → String → TaskError → Try TaskResult → Type 0
Gives e j status x t =
    (r : TaskResult) × (t ≡ ok r) × (r.status ≡ str status) × (r.error ≡ some x) × IsFor e j r

handler_result-Gives :
    (e : Env) (j : Job) (d : Dict String Json) (u : Json × Dict String FileMetadata) (x : TaskError)
    (sec : Option SecurityContext)
    → Dict.lookup "status" d ≡ some (str e.codes.failure)
    → e.security_of (Dict.lookup "security" d) ≡ ok sec
    → Gives e j e.codes.failure x (handler_result e j d u (some x))
unfolding handler_result
handler_result-Gives e j d u x sec failed fine =
    let r = unsigned e j d u (some x) in
    let (s, made) = with_security_ok r sec (sign_payload_if_needed e r) in
    (
      record r { security = s },
      ap (λ g. with_security r g (sign_payload_if_needed e r)) fine ∙ made,
      rw (failed),
      refl,
      (refl, refl, refl),
    )

upload_and_report-Gives :
    (e : Env) (j : Job) (d : Dict String Json) (u : Json × Dict String FileMetadata) (x : TaskError)
    (sec : Option SecurityContext)
    → e.upload j.job_id (or_default (obj end) (Dict.lookup "data" d)) ≡ ok u
    → reported_error e (Dict.lookup "error" d) ≡ ok (some x)
    → Dict.lookup "status" d ≡ some (str e.codes.failure)
    → e.security_of (Dict.lookup "security" d) ≡ ok sec
    → Gives e j e.codes.failure x (upload_and_report e j d)
unfolding upload_and_report
upload_and_report-Gives e j d u x sec up error failed fine =
    let (r, made, status, error_is, about) = handler_result-Gives e j d u x sec failed fine in
    (
      r,
      ap
            (λ t. t >>= (λ v.
              reported_error e (Dict.lookup "error" d) >>= (λ error. handler_result e j d v error)))
            up
          ∙ (ap (λ t. t >>= (λ error. handler_result e j d u error)) error ∙ made),
      status,
      error_is,
      about,
    )

checked_output_violation :
    (e : Env) (info : SkillInfo) (d : Dict String Json) (schema : Json) (m : String)
    → true_schema info.output_schema ≡ some schema
    → e.validate_data (Dict.lookup "data" d) schema ≡ some m
    → checked_output e info d ≡ with_violation e m d
unfolding checked_output
checked_output_violation e info d schema m has_schema broken =
    ap (check_data e d) has_schema ∙ ap (unless_violation e d) broken

-- Where a skill has an output schema and the handler's data breaks it, the result is a failure for
-- a contract violation about this task, whatever status and error the handler set, provided that
-- the upload and the reading of the security context succeed and rxon's TaskError can be made of a
-- code and a message.
pub assemble_violation :
    (e : Env) (j : Job) (info : SkillInfo) (r : Returned) (schema : Json) (m : String)
    (x : TaskError) (u : Json × Dict String FileMetadata) (sec : Option SecurityContext)
    → contains e.error_fields "code" ≡ true
    → contains e.error_fields "message" ≡ true
    → e.make_error (violation_fields e m) ≡ ok x
    → true_schema info.output_schema ≡ some schema
    → e.validate_data (data_of r) schema ≡ some m
    → e.upload j.job_id (or_default (obj end) (data_of r)) ≡ ok u
    → e.security_of (Dict.lookup "security" (as_dict r)) ≡ ok sec
    → Gives e j e.codes.failure x (assemble e j info r)
unfolding assemble string_eq
assemble_violation e j info r schema m x u sec has_code has_message made has_schema broken up fine =
    let d = as_dict r in
    subst (λ d. Gives e j e.codes.failure x (upload_and_report e j d))
      (sym (checked_output_violation e info d schema m has_schema broken))
      (upload_and_report-Gives e j (with_violation e m d) u x sec
        (ap (λ l. e.upload j.job_id (or_default (obj end) l))
            (with_violation-lookup e m d "data" refl)
          ∙ up)
        (with_violation-error e m d has_code has_message ∙ ap some_error made)
        (with_violation-lookup e m d "status" refl)
        (ap e.security_of (with_violation-lookup e m d "security" refl) ∙ fine))
