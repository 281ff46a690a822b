-- ===== src/CommandLine/Reload.antt =====
-- __main__.py: how many workers the reloading command keeps, and how a run begins.
use avtomatika_worker.Base.{
  ℕ, String, ◌≡◌, refl, ap, Bool, true, false, not, ◌||◌, nat_eq, Option, none, some, List, [], ◌∷◌,
  arith, Bool-cases, inl, inr, if◌then◌else◌,
}
use avtomatika_worker.Startup.{ends_with}
use avtomatika_worker.CommandLine.{
  Reloader, FileEvent, end_process, start_worker, new_reloader, on_any_event, on_events,
  stop_watching, Python, Imported, gives, import_error, fails, Exit, runs, runs_with_health_check,
  import_string, run_worker, run_imported, main, watches,
}

-- The handler's process is the one that is alive.
abbrev pub IsSingle : Reloader → Type 0
IsSingle r = (n : ℕ) × (r.process ≡ some n) × (r.alive ≡ n ∷ [])

ended : (n : ℕ) → end_process (some n) (n ∷ []) ≡ []
ended n = ground arith

start_worker-IsSingle : (r : Reloader) → IsSingle r → IsSingle (start_worker r)
unfolding start_worker
start_worker-IsSingle r (n, is_n, alive) =
    (r.next, refl, rw (is_n, alive) (ap (λ ms. r.next ∷ ms) (ended n)))

on_any_event-IsSingle : (e : FileEvent) (r : Reloader) → IsSingle r → IsSingle (on_any_event e r)
unfolding on_any_event
on_any_event-IsSingle e r h =
    elim (Bool-cases (e.is_directory || not (ends_with e.src_path ".py"))) [
      | inl other ↦ rw (other) h
      | inr code ↦ rw (code) (start_worker-IsSingle r h)
    ]

on_events-IsSingle : (es : List FileEvent) (r : Reloader) → IsSingle r → IsSingle (on_events es r)
unfolding on_events
on_events-IsSingle [] r h = h
on_events-IsSingle (e ∷ es) r h = on_events-IsSingle es _ (on_any_event-IsSingle e r h)

new_reloader-IsSingle : IsSingle new_reloader
unfolding new_reloader start_worker
new_reloader-IsSingle = (0, refl, refl)

stopped : (r : Reloader) → IsSingle r → (stop_watching r).alive ≡ []
unfolding stop_watching
stopped r (n, is_n, alive) = rw (is_n, alive) (ended n)

-- After any file events the process of the handler is the only one that is alive, and none is left when
-- the watching ends.
pub reload_keeps_one :
    (es : List FileEvent)
    → IsSingle (on_events es new_reloader)
      × ((stop_watching (on_events es new_reloader)).alive ≡ [])
reload_keeps_one es =
    let one = on_events-IsSingle es new_reloader new_reloader-IsSingle in
    (one, stopped (on_events es new_reloader) one)

-- A worker runs without the health check.
abbrev pub IsPlainRun : {A : Type 0} → Exit A → Type 0
IsPlainRun (runs a) = Unit
IsPlainRun _ = ⊥

if_not_plain :
    {A : Type 0} (b : Bool) (x y : Exit A)
    → ¬ IsPlainRun x
    → ¬ IsPlainRun y
    → ¬ IsPlainRun (if b then x else y)
if_not_plain true x y h k = h
if_not_plain false x y h k = k

module _ {M A : Type 0} (p : Python M A) where
  imported_not_plain : (r : Imported A) → ¬ IsPlainRun (run_imported p true r)
  imported_not_plain (import_error t) = λ h. h
  imported_not_plain (fails t) = λ h. h
  imported_not_plain (gives a) =
      if_not_plain (not (p.is_worker a)) _ (runs_with_health_check a) (λ h. h) (λ h. h)

  -- Whatever the arguments, the command never runs a worker without the health check.
  pub checked_runs :
      (has_watchdog : Bool) (arguments : Option (String × Bool))
      → ¬ IsPlainRun (main p has_watchdog arguments)
  unfolding main run_worker
  checked_runs has_watchdog none = λ h. h
  checked_runs has_watchdog (some (app, reload)) =
      if_not_plain reload _ _ (if_not_plain has_watchdog watches _ (λ h. h) (λ h. h))
        (imported_not_plain (import_string p app))
