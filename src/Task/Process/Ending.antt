-- ===== src/Task/Process/Ending.antt =====
-- How a task ends: its result, and its place in the load.
use avtomatika_worker.Base.{
  ℕ, String, ◌≡◌, refl, sym, subst, ap, ◌∙◌, Bool, true, false, string_eq, Option, none, some,
  if◌then◌else◌, arith,
}
use avtomatika_worker.Base.Int.{ℤ, pos, ◌-ℤ◌}
use avtomatika_worker.Base.Dict
use avtomatika_worker.Base.Dict.{Dict}
use avtomatika_worker.Json.{str}
use avtomatika_worker.Worker.{SkillInfo, Handler, Worker, load_of}
use avtomatika_worker.Worker.Registry.{IsRegistry}
use avtomatika_worker.Load.{done, slot_of, accept_task, one_more}
use avtomatika_worker.Load.Entries.{
  is_slot, accept_task_total, accept_task-Counted, one_less-one_more,
}
use avtomatika_worker.Task.Gate.{Signed, admitted, check_task}
use avtomatika_worker.Task.Call.{Exception, Try, raise}
use avtomatika_worker.Task.Outcome.{Env, TaskResult, Returned, result_of_exception}
use avtomatika_worker.Task.Outcome.Contract.{
  raised_status, result_of_exception-status, result_of_exception-IsFor,
}
use avtomatika_worker.Task.Process.{
  Checked, misfit, settle_run, Ran, ended, run_skill, Finally, Sent, queued, directly, Polled,
  as_job, as_task, Processed, finished, process_task, finish,
}
use avtomatika_worker.Task.Process.Conclusion.{
  goes_on, goes_on_is, run_skill-IsFor, finish-Concludes, settled-Concludes, counts_for,
  counts_for-is_slot, IsSmooth, Concludes,
}

module _ (e : Env) (secret : String) (verify : Signed → String → String → Bool)
    (validate : SkillInfo → Checked) (before after : Worker) (queue_runs : Bool) (f : Finally)
    (t : Polled) where
  abbrev pub processed : (Handler → Ran) → Processed
  processed run = process_task e secret verify validate run before after queue_runs f t

  -- A task that passes the checks ends with exactly one result, which is about this task, put in
  -- the queue if the queue's worker runs and else sent at once, and its place is given back: the
  -- load is one less in all and for the type of the task's skill, no other type changes, and the
  -- task is no longer active. This is so however the handler ends and the worker changes during
  -- the run, where no exit such as SystemExit ends the run of the handler, the awaits of the
  -- finally block raise nothing but an RxonError of a direct call, and the registry is well-formed
  -- and has the same handlers before and after the run.
  pub process_task_once :
      (run : Handler → Try Returned)
      → check_task secret verify t.signed ≡ admitted
      → IsSmooth queue_runs f
      → IsRegistry after
      → before.skill_handlers ≡ after.skill_handlers
      → (r : TaskResult) × (reraises : Bool) × Concludes e t queue_runs after reraises r
          (processed (λ h. ended (run h)))
  unfolding process_task
  process_task_once run passes smooth reg same =
      let h = Dict.lookup t.type before.skill_handlers in
      let s = run_skill e (as_job t) validate (λ h. ended (run h)) h in
      let (r, is_r, once) =
        settled-Concludes e before after queue_runs f t smooth reg same s
          (run_skill-IsFor e (as_job t) validate run h) in
      (
        r,
        s.reraises,
        subst
            (λ g.
              Concludes e t queue_runs after s.reraises r (finish before after queue_runs f t s g))
            (sym passes) once,
      )

  -- The handler of the task's skill, where the task's parameters fit it.
  abbrev pub IsUnfit : Option Handler → Type 0
  IsUnfit none = Unit
  IsUnfit (some h) = (validate h.info).is_valid ≡ false

  run_skill_unfit :
      (run run' : Handler → Ran) (h : Option Handler)
      → IsUnfit h
      → run_skill e (as_job t) validate run h ≡ run_skill e (as_job t) validate run' h
  unfolding run_skill
  run_skill_unfit run run' none unfit = refl
  run_skill_unfit run run' (some h) unfit = rw (unfit)

  -- Where the worker does not have the task's skill, or the parameters do not fit it, the task
  -- ends the same whatever the run of the handler would give.
  pub unfit_is_not_run :
      (run run' : Handler → Ran)
      → IsUnfit (Dict.lookup t.type before.skill_handlers)
      → processed run ≡ processed run'
  unfolding process_task
  unfit_is_not_run run run' unfit =
      ap (λ s. finish before after queue_runs f t s (check_task secret verify t.signed))
        (run_skill_unfit run run' _ unfit)

  -- What the run of a skill that the worker has, and whose parameters fit, makes of an exception.
  run_skill_raised :
      (run : Handler → Ran) (h : Handler) (x : Exception)
      → (validate h.info).is_valid ≡ true
      → run h ≡ ended (raise x)
      → run_skill e (as_job t) validate run (some h)
        ≡ record { result = some (result_of_exception e (as_job t) x); reraises = goes_on x }
  unfolding run_skill
  run_skill_raised run h x fits raised =
      ap
        (λ b.
          if b
          then settle_run e (as_job t) h.info (run h)
          else misfit e (as_job t) (validate h.info))
        fits
      ∙ ap (λ r. settle_run e (as_job t) h.info r) raised
      ∙ ap (λ b. record { result = some (result_of_exception e (as_job t) x); reraises = b })
          (goes_on_is x)

  -- Where a task passes the checks, the worker has its skill, the parameters fit it and the run of
  -- the handler raises, the task ends with one result about it whose status is cancelled for a
  -- cancellation and failure for any other exception, queued or sent at once, only a cancellation
  -- goes on to the caller, and the place is given back, in all, for the type of the skill and
  -- among the active tasks. The awaits of the finally block raise nothing but an RxonError of a
  -- direct call, and the registry is well-formed and has the same handlers before and after the
  -- run.
  pub raised_is_reported :
      (run : Handler → Ran) (h : Handler) (x : Exception)
      → check_task secret verify t.signed ≡ admitted
      → Dict.lookup t.type before.skill_handlers ≡ some h
      → (validate h.info).is_valid ≡ true
      → run h ≡ ended (raise x)
      → IsSmooth queue_runs f
      → IsRegistry after
      → before.skill_handlers ≡ after.skill_handlers
      → (r : TaskResult) × (r.status ≡ str (raised_status e x))
        × Concludes e t queue_runs after (goes_on x) r (processed run)
  unfolding process_task
  raised_is_reported run h x passes found fits raised smooth reg same =
      let r = result_of_exception e (as_job t) x in
      let ends =
        ap (λ s. finish before after queue_runs f t s (check_task secret verify t.signed))
          (ap (run_skill e (as_job t) validate run) found ∙ run_skill_raised run h x fits raised)
        ∙ ap (finish before after queue_runs f t (record { result = some r; reraises = goes_on x }))
            passes in
      (
        r,
        result_of_exception-status e (as_job t) x,
        subst (Concludes e t queue_runs after (goes_on x) r) (sym ends) (
            finish-Concludes e before after queue_runs f t smooth reg same r (goes_on x)
              (result_of_exception-IsFor e (as_job t) x)),
      )

back_again : (n m k : ℤ) → k ≡ m -ℤ pos 1 → m ≡ one_more n → k ≡ n
back_again n m k less more = less ∙ ap (λ (i : ℤ). i -ℤ pos 1) more ∙ one_less-one_more n

-- A task that is received by a worker with a well-formed registry, passes the checks and is
-- processed with nothing in between raises no KeyError and leaves the load, in all and for each
-- skill type, as it was, where no exit such as SystemExit ends the run of the handler and the
-- awaits of the finally block raise nothing but an RxonError of a direct call.
pub received_and_processed :
    (e : Env) (secret : String) (verify : Signed → String → String → Bool)
    (validate : SkillInfo → Checked) (run : Handler → Try Returned) (handle : ℕ) (w u : Worker)
    (queue_runs : Bool) (f : Finally) (t : Polled)
    → IsRegistry w
    → accept_task (as_task t) handle w ≡ done u
    → check_task secret verify t.signed ≡ admitted
    → IsSmooth queue_runs f
    → (sent : Sent) × (reraises : Bool) × (v : Worker) × (process_task e secret verify validate
          (λ h. ended (run h))
          u
          u
          queue_runs
          f
          t
        ≡ finished sent reraises (done v))
      × (v.current_load ≡ w.current_load)
      × ((j : String) → load_of j v.current_load_by_type ≡ load_of j w.current_load_by_type)
received_and_processed e secret verify validate run handle w u queue_runs f t reg accept passes
      smooth =
    let (u', is_u, reg') = accept_task_total (as_task t) handle w reg in
    let same : u' ≡ u = ground (arith, is_u, accept) in
    let up = accept_task-Counted (as_task t) handle w u accept in
    let (r, reraises, once) =
      process_task_once e secret verify validate u u queue_runs f t run passes smooth
        (subst IsRegistry same reg') refl in
    let counts : (j : String)
        → is_slot (slot_of w t.type) j ≡ counts_for (Dict.lookup t.type u.skill_handlers) j =
      λ j.
        counts_for-is_slot (Dict.lookup t.type w.skill_handlers) j
        ∙ ap (λ hs. counts_for (Dict.lookup t.type hs) j) (sym up.same_handlers) in
    (
      if queue_runs then queued r else directly r,
      reraises,
      once.worker,
      once.ends,
      back_again w.current_load u.current_load once.worker.current_load once.place.total up.total,
      λ j. ground (
        arith,
        once.place.by_type j,
        up.by_type j,
        counts j,
        one_less-one_more (load_of j w.current_load_by_type),
      ),
    )
