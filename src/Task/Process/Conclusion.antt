-- ===== src/Task/Process/Conclusion.antt =====
-- worker.py: what it is for a task to end as it should, and that the `finally` block ends it so.
use mathlib.Core.Bool.{false≢true}
use avtomatika_worker.Base.{
  Bool-cases, not, ◌&&◌, ◌==◌, String, ◌≡◌, ◌≢◌, ◌⊎◌, inl, inr, refl, ap, ◌∙◌, Bool, true, false,
  string_eq, Option, none, some, if◌then◌else◌,
}
use avtomatika_worker.Base.Int.{pos, ◌-ℤ◌}
use avtomatika_worker.Base.Dict
use avtomatika_worker.Base.Dict.{Dict}
use avtomatika_worker.Worker.{SkillInfo, Handler, Worker, load_of}
use avtomatika_worker.Worker.Registry.{IsRegistry}
use avtomatika_worker.Load.{done, slot_in, slot_of, release_task}
use avtomatika_worker.Load.Entries.{
  is_slot, release_task_total, release_task-Counted, release_task-gone,
}
use avtomatika_worker.Task.Gate.{admitted}
use avtomatika_worker.Task.Call.{
  Exception, param_validation, value_error, type_error, cancelled, other, Try, ok, raise, ◌>>=◌,
}
use avtomatika_worker.Task.Outcome.{Env, Job, TaskResult, Returned, assemble}
use avtomatika_worker.Task.Outcome.Contract.{
  IsFor, failure_of-IsFor, Ok, assemble-IsFor, result_of_exception-IsFor, unsupported-IsFor,
}
use avtomatika_worker.Task.Process.{
  Checked, misfit, message_of, is_cancelled, settle, ended, Settled, run_skill, Direct, answers,
  rxon_failure, other_failure, Finally, unsent, queued, directly, sending_raises, Polled, as_job,
  as_task, Processed, finished, broken_off, finish,
}

-- There is a result, and it has the property.
abbrev pub Reports : (TaskResult → Type 0) → Option TaskResult → Type 0
Reports P none = ⊥
Reports P (some r) = P r

-- Only a cancellation goes on to the caller.
abbrev pub goes_on : Exception → Bool
goes_on cancelled = true
goes_on (param_validation m) = false
goes_on (value_error m) = false
goes_on (type_error m) = false
goes_on (other m) = false

pub goes_on_is : (x : Exception) → is_cancelled x ≡ goes_on x
goes_on_is cancelled = refl
goes_on_is (param_validation m) = refl
goes_on_is (value_error m) = refl
goes_on_is (type_error m) = refl
goes_on_is (other m) = refl

settle-IsFor :
    (e : Env) (j : Job) (t : Try TaskResult)
    → Ok (IsFor e j) t
    → Reports (IsFor e j) (settle e j t).result
settle-IsFor e j (ok r) h = h
settle-IsFor e j (raise x) h = result_of_exception-IsFor e j x

bind-Ok :
    (e : Env) (j : Job) (info : SkillInfo) (t : Try Returned)
    → Ok (IsFor e j) (t >>= assemble e j info)
bind-Ok e j info (ok r) = assemble-IsFor e j info r
bind-Ok e j info (raise x) = tt

pub run_skill-IsFor :
    (e : Env) (j : Job) (validate : SkillInfo → Checked) (run : Handler → Try Returned)
    (h : Option Handler)
    → Reports (IsFor e j) (run_skill e j validate (λ g. ended (run g)) h).result
unfolding run_skill
run_skill-IsFor e j validate run none = unsupported-IsFor e j
run_skill-IsFor e j validate run (some h) =
    elim (validate h.info).is_valid
      as (λ b.
        Reports (IsFor e j)
          (if b
            then settle e j (run h >>= assemble e j h.info)
            else misfit e j (validate h.info)).result) [
              | true ↦ settle-IsFor e j _ (bind-Ok e j h.info (run h))
              | false ↦
                  failure_of-IsFor e j e.codes.invalid_input
                    (message_of (validate h.info).error_msg)
            ]

-- No await of the `finally` block raises: not the cleanup, and not a direct call, if there is one,
-- unless with an RxonError.
abbrev pub IsSmooth : Bool → Finally → Type 0
IsSmooth queue_runs f =
    (f.cleanup_raises ≡ false) × ((queue_runs ≡ true) ⊎ (f.direct ≢ other_failure))

-- Whether a task of the handler counts for the type `j`: not without a handler or for the type "".
abbrev pub counts_for : Option Handler → String → Bool
counts_for none j = false
counts_for (some h) j = not (h.type == "") && (j == h.type)

pub counts_for-is_slot :
    (o : Option Handler) (j : String)
    → is_slot (elim o [ none ↦ none | some h ↦ if h.type == "" then none else some h.type ]) j
      ≡ counts_for o j
counts_for-is_slot none j = refl
counts_for-is_slot (some h) j = elim (Bool-cases (h.type == "")) [
  | inl empty ↦ rw (empty) refl
  | inr named ↦ rw (named) refl
]

-- The place of a task of the skill `name` is given back: one less in all and for the type of this skill,
-- the other types as they were, and the task is no longer active.
pub record GivenBack (task_id name : String) (w v : Worker) : Type 0 where
  pub total : v.current_load ≡ w.current_load -ℤ pos 1
  pub by_type :
      (j : String)
      → load_of j v.current_load_by_type ≡ (
          if counts_for (Dict.lookup name w.skill_handlers) j
          then load_of j w.current_load_by_type -ℤ pos 1
          else load_of j w.current_load_by_type)
  pub gone : Dict.lookup task_id v.active_tasks ≡ none

-- The task ended with this one result, which is about it: queued if the queue's worker runs, else sent
-- at once; and from the worker `after` its place was given back.
pub record Concludes (e : Env) (t : Polled) (queue_runs : Bool) (after : Worker) (reraises : Bool)
    (r : TaskResult) (p : Processed) : Type 0 where
  pub worker : Worker
  pub about : IsFor e (as_job t) r
  pub ends : p ≡ finished (if queue_runs then queued r else directly r) reraises (done worker)
  pub place : GivenBack t.task_id t.type after worker

module _ (e : Env) (before after : Worker) (queue_runs : Bool) (f : Finally) (t : Polled)
    (smooth : IsSmooth queue_runs f) (reg : IsRegistry after)
    (same : before.skill_handlers ≡ after.skill_handlers) where
  sends_on :
      (b : Bool) (d : Direct) (r : TaskResult)
      → (b ≡ true) ⊎ (d ≢ other_failure)
      → sending_raises (if b then queued r else directly r) d ≡ false
  sends_on true d r h = refl
  sends_on false answers r h = refl
  sends_on false rxon_failure r h = refl
  sends_on false other_failure r (inl h) = absurd (false≢true h)
  sends_on false other_failure r (inr h) = absurd (h refl)

  release-GivenBack :
      (v : Worker)
      → release_task (as_task t) (slot_of after t.type) after ≡ done v
      → GivenBack t.task_id t.type after v
  release-GivenBack v out =
      let c = release_task-Counted (as_task t) (slot_of after t.type) after v out in
      record {
        total = c.total;
        by_type = λ j.
            c.by_type j
            ∙ ap
                (λ b.
                  if b
                  then load_of j after.current_load_by_type -ℤ pos 1
                  else load_of j after.current_load_by_type)
                (counts_for-is_slot (Dict.lookup t.type after.skill_handlers) j);
        gone = release_task-gone (as_task t) (slot_of after t.type) after v out;
      }

  -- The `finally` block, after a `try` block with a result.
  pub finish-Concludes :
      (r : TaskResult) (reraises : Bool)
      → IsFor e (as_job t) r
      → Concludes e t queue_runs after reraises r (
          finish before after queue_runs f t
            (record { result = some r; reraises = reraises })
            admitted)
  finish-Concludes r reraises about =
      let (v, out) = release_task_total (as_task t) after reg in
      let sent = if queue_runs then queued r else directly r in
      record {
        worker = v;
        about = about;
        ends =
            ap
              (λ b.
                if b
                then broken_off unsent
                else if sending_raises sent f.direct
                then broken_off sent
                else finished sent reraises
                    (release_task (as_task t) (slot_of before t.type) after))
              smooth.0
            ∙ ap
                (λ b.
                  if b
                  then broken_off sent
                  else finished sent reraises
                      (release_task (as_task t) (slot_of before t.type) after))
                (sends_on queue_runs f.direct r smooth.1)
            ∙ ap (λ hs. finished sent reraises (release_task (as_task t) (slot_in hs t.type) after))
                same
            ∙ ap (finished sent reraises) out;
        place = release-GivenBack v out;
      }

  pub settled-Concludes :
      (s : Settled)
      → Reports (IsFor e (as_job t)) s.result
      → (r : TaskResult) × (s.result ≡ some r)
        × Concludes e t queue_runs after s.reraises r
            (finish before after queue_runs f t s admitted)
  settled-Concludes s about = reported s.result s.reraises about
    where
      reported :
          (o : Option TaskResult) (reraises : Bool)
          → Reports (IsFor e (as_job t)) o
          → (r : TaskResult) × (o ≡ some r)
            × Concludes e t queue_runs after reraises r (
                finish before after queue_runs f t
                  (record { result = o; reraises = reraises })
                  admitted)
      reported none reraises h = absurd h
      reported (some r) reraises h = (r, refl, finish-Concludes r reraises h)
