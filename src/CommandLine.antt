-- ===== src/CommandLine.antt =====
-- __main__.py: the command line: `import_string`, `run_worker`, and `main` with the handler that
-- restarts the worker when a file changes.
pub mod Reload
use avtomatika_worker.Base.{
  ℕ, ◌+◌, String, ◌<>◌, Bool, true, false, not, ◌||◌, ◌==◌, nat_eq, Option, none, some, List, [],
  ◌∷◌, ◌++◌, filter, if◌then◌else◌,
}
use avtomatika_worker.Startup.{ends_with}

-- A call that gives a value, or raises an ImportError or another exception.
pub data Imported (A : Type 0) : Type 0 where
  gives : A → Imported A
  import_error : String → Imported A
  fails : String → Imported A

-- Python's `import_module` and `getattr` over modules M and objects A; nothing where an AttributeError
-- is raised. `split` is the text's split at each colon.
pub record Python (M A : Type 0) : Type 0 where
  pub split : String → List String
  pub import_module : String → Imported M
  pub getattr : M → String → Option A
  pub is_worker : A → Bool

-- How the program goes on.
pub data Exit (A : Type 0) : Type 0 where
  exits : ℕ → Exit A
  crashes : String → Exit A
  runs : A → Exit A
  runs_with_health_check : A → Exit A
  prints_help : Exit A
  watches : Exit A

module _ {M A : Type 0} (p : Python M A) where
  abbrev pub attribute_of : String → String → Imported M → Imported A
  attribute_of module_path obj_name (gives m) = elim (p.getattr m obj_name) [
    | none ↦ import_error ("Module '" <> module_path <> "' has no attribute '" <> obj_name <> "'.")
    | some a ↦ gives a
  ]
  attribute_of module_path obj_name (import_error t) = import_error t
  attribute_of module_path obj_name (fails t) = fails t

  abbrev pub import_parts : String → List String → Imported A
  import_parts name (module_path ∷ obj_name ∷ []) =
      attribute_of module_path obj_name (p.import_module module_path)
  import_parts name _ = import_error ("Invalid format '" <> name <> "'. Use 'module:attribute'.")

  unfoldable pub import_string : String → Imported A
  import_string name = import_parts name (p.split name)

  -- `run_worker`; an exception that is no ImportError ends the program.
  abbrev pub run_imported : Bool → Imported A → Exit A
  run_imported health_check (import_error t) = exits 1
  run_imported health_check (fails t) = crashes t
  run_imported health_check (gives a) =
      if not (p.is_worker a)
      then exits 1
      else if health_check
      then runs_with_health_check a
      else runs a

  unfoldable pub run_worker : String → Bool → Exit A
  run_worker app health_check = run_imported health_check (import_string app)

  -- `main`, by the arguments of the `run` command, if it is given. `--health-check` is stored as true
  -- whether it is there or not.
  unfoldable pub main : Bool → Option (String × Bool) → Exit A
  main has_watchdog none = prints_help
  main has_watchdog (some (app, reload)) =
      if reload then if has_watchdog then watches else exits 1 else run_worker app true

-- `ReloadHandler`: its process, and which processes are alive. `next` numbers the next one.
pub record Reloader : Type 0 where
  pub process : Option ℕ
  pub alive : List ℕ
  pub next : ℕ

-- `terminate` and `wait`
abbrev pub end_process : Option ℕ → List ℕ → List ℕ
end_process none alive = alive
end_process (some n) alive = filter (λ m. not (m == n)) alive

unfoldable pub start_worker : Reloader → Reloader
start_worker r = record {
  process = some r.next;
  alive = r.next ∷ end_process r.process r.alive;
  next = r.next + 1;
}

-- `__init__`
unfoldable pub new_reloader : Reloader
new_reloader = start_worker (record { process = none; alive = []; next = 0 })

pub record FileEvent : Type 0 where
  pub is_directory : Bool
  pub src_path : String

unfoldable pub on_any_event : FileEvent → Reloader → Reloader
on_any_event e r = if e.is_directory || not (ends_with e.src_path ".py") then r else start_worker r

unfoldable pub on_events : List FileEvent → Reloader → Reloader
on_events [] r = r
on_events (e ∷ es) r = on_events es (on_any_event e r)

-- The end of the watching: `handler.process.terminate()`.
unfoldable pub stop_watching : Reloader → Reloader
stop_watching r = record r { alive = end_process r.process r.alive }

-- The arguments of the process that is started: without `--reload`.
unfoldable pub new_args : String → String → Bool → List String
new_args executable app health_check =
    (executable ∷ "-m" ∷ "avtomatika_worker" ∷ "run" ∷ "--app" ∷ app ∷ [])
    ++ (if health_check then "--health-check" ∷ [] else [])
