-- ===== src/Tests/CommandLine.antt =====
-- The command line, an environment of settings, and the counters, at concrete inputs.
use avtomatika_worker.Base.{
  ℕ, String, ◌≡◌, refl, Bool, true, false, none, some, List, [], ◌∷◌, ◌==◌, string_eq, nat_eq,
  count_if, if◌then◌else◌,
}
use avtomatika_worker.Base.Int.{pos}
use avtomatika_worker.Task.Call.{ok, raise, value_error}
use avtomatika_worker.Config.{Environment}
use avtomatika_worker.Config.Settings.{Host, init_config}
use avtomatika_worker.Config.Readable.{is_ok, all_read, fallible_settings, init_config-all_read}
use avtomatika_worker.CommandLine.{
  Python, gives, FileEvent, new_reloader, start_worker, on_events, on_any_event, stop_watching,
  run_worker, runs_with_health_check, import_string, main,
}
use avtomatika_worker.CommandLine.Reload.{IsSingle, reload_keeps_one, IsPlainRun, checked_runs}
use avtomatika_worker.Observability.{Otel, new_observability}
use avtomatika_worker.Observability.Counts.{Finished, record_all, counts_finished}

abbrev python : Python ℕ ℕ
python = record {
  split = λ name. if name == "app:worker" then "app" ∷ "worker" ∷ [] else name ∷ [];
  import_module = λ name. gives 1;
  getattr = λ m name. some 2;
  is_worker = λ a. true;
}

runs_app : run_worker python "app:worker" true ≡ runs_with_health_check 2
unfolding run_worker import_string string_eq
runs_app = refl

app_is_checked : ¬ IsPlainRun (main python true (some ("app:worker", false)))
app_is_checked = checked_runs python true (some ("app:worker", false))

abbrev changes : List FileEvent
changes =
    record { is_directory = false; src_path = "a.py" }
    ∷ record { is_directory = false; src_path = "a.txt" }
    ∷ record { is_directory = false; src_path = "b.py" }
    ∷ []

-- Two of the three events start a new process.
restarts : (on_events changes new_reloader).process ≡ some 2
unfolding on_events on_any_event new_reloader start_worker string_eq
restarts = refl

changes_keep_one :
    IsSingle (on_events changes new_reloader)
    × ((stop_watching (on_events changes new_reloader)).alive ≡ [])
changes_keep_one = reload_keeps_one changes

abbrev host : Host ℕ
host = record {
  new_id = "1";
  hostname = "h";
  address = none;
  int = λ t. if t == "many" then raise (value_error "invalid literal") else ok (pos 4);
  float = λ t. ok 5;
  lower = λ t. t;
  short = λ t. t;
  environ = [];
}

abbrev environment : Environment
environment = record {
  getenv = λ key. if key == "CPU_CORES" then some "many" else none;
  load_orchestrators = λ text. none;
  loads = λ text. none;
}

-- One number that cannot be read.
unreadable : all_read host environment fallible_settings ≡ false
unfolding string_eq avtomatika_worker.Config.orchestrators_of
unreadable = refl

init_config-all_read_example :
    is_ok (init_config host environment) ≡ all_read host environment fallible_settings
init_config-all_read_example = init_config-all_read host environment

abbrev otel : Otel
otel = record { has_otel = true; has_tracer_provider = false; has_metric_reader = true }

abbrev finished : List (Finished ℕ)
finished = ("text", "success", 10) ∷ ("text", "failure", 20) ∷ ("text", "success", 5) ∷ []

abbrev is_success : String × String → Bool
is_success (t, s) = s == "success"

two_succeed :
    count_if is_success (record_all finished (new_observability true otel)).tasks_total ≡ 2
unfolding string_eq
two_succeed = counts_finished is_success true otel finished
