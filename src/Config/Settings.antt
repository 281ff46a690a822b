-- ===== src/Config/Settings.antt =====
-- config.py: `WorkerConfig.__init__`, the settings that it reads from the environment, and those that
-- `Worker.__init__` of worker.py then replaces.
use avtomatika_worker.Base.{
  String, ◌<>◌, Bool, ◌==◌, string_eq, Option, none, some, List, [], if◌then◌else◌,
}
use avtomatika_worker.Base.Dict.{Dict}
use avtomatika_worker.Base.Int.{ℤ}
use avtomatika_worker.Json.{Json, obj, arr, str, field, end, nil}
use avtomatika_worker.Task.Call.{Try, ok, ◌>>=◌}
use avtomatika_worker.Worker.{is_truthy}
use avtomatika_worker.Config.{
  Orchestrator, Environment, or_else, get_orchestrators_config, get_devices, load_json_from_env,
  load_extra_from_env,
}

-- What `__init__` takes from elsewhere: a new id, the host with its address if it resolves, the parsers
-- of numbers, which raise a ValueError, `lower`, and `os.environ` with its keys cut and lowered.
pub record Host (F : Type 0) : Type 0 where
  pub new_id : String
  pub hostname : String
  pub address : Option String
  pub int : String → Try ℤ
  pub float : String → Try F
  pub lower : String → String
  pub short : String → String
  pub environ : Dict String String

pub record Resources (F : Type 0) : Type 0 where
  pub cpu_cores : ℤ
  pub ram_gb : F
  pub devices : Option (List Json)

-- The settings in the order of the source, F for the floats.
pub record WorkerConfig (F : Type 0) : Type 0 where
  pub worker_id : String
  pub worker_type : String
  pub worker_port : ℤ
  pub hostname : String
  pub ip_address : String
  pub orchestrators : List Orchestrator
  pub worker_token : String
  pub tls_ca_path : Option String
  pub tls_cert_path : Option String
  pub tls_key_path : Option String
  pub cost_per_skill : Json
  pub max_concurrent_tasks : ℤ
  pub resources : Resources F
  pub installed_software : Json
  pub installed_artifacts : Json
  pub task_files_dir : String
  pub s3_endpoint_url : Option String
  pub s3_access_key : Option String
  pub s3_secret_key : Option String
  pub s3_default_bucket : String
  pub s3_region : String
  pub heartbeat_interval : F
  pub result_max_retries : ℤ
  pub result_retry_initial_delay : F
  pub registration_retry_initial_delay : F
  pub registration_retry_max_delay : F
  pub heartbeat_cooldown : F
  pub rate_limit_backoff_floor : F
  pub task_poll_timeout : F
  pub task_poll_error_delay : F
  pub poll_backoff_initial : F
  pub poll_backoff_max : F
  pub poll_backoff_factor : F
  pub idle_poll_delay : F
  pub shutdown_timeout : F
  pub enable_websockets : Bool
  pub multi_orchestrator_mode : String
  pub worker_skills_dir : String
  pub strict_event_validation : Bool
  pub worker_enable_metrics : Bool
  pub worker_blob_cache_dir : String
  pub worker_telemetry_deadband : F
  pub worker_telemetry_force_interval : F
  pub extra_capabilities : Dict String Json

module _ {F : Type 0} (h : Host F) (e : Environment) where
  -- `getenv(key, default)`
  abbrev pub text : String → String → String
  text key default = or_else default (e.getenv key)

  abbrev pub whole : String → String → Try ℤ
  whole key default = h.int (text key default)

  abbrev pub real : String → String → Try F
  real key default = h.float (text key default)

  abbrev pub flag : String → String → Bool
  flag key default = h.lower (text key default) == "true"

  unfoldable pub init_config : Try (WorkerConfig F)
  init_config = whole "WORKER_PORT" "8083" >>= (λ worker_port.
      get_orchestrators_config e >>= (λ orchestrators.
        whole "MAX_CONCURRENT_TASKS" "10" >>= (λ max_concurrent_tasks.
          whole "CPU_CORES" "4" >>= (λ cpu_cores. real "RAM_GB" "0.0" >>= (λ ram_gb.
            get_devices h.int e >>= (λ devices.
              real "HEARTBEAT_INTERVAL" "15" >>= (λ heartbeat_interval.
                whole "RESULT_MAX_RETRIES" "5" >>= (λ result_max_retries.
                  real "RESULT_RETRY_INITIAL_DELAY" "1.0" >>= (λ result_retry_initial_delay.
                    real "REGISTRATION_RETRY_INITIAL_DELAY" "1.0"
                    >>= (λ registration_retry_initial_delay.
                        real "REGISTRATION_RETRY_MAX_DELAY" "60.0"
                        >>= (λ registration_retry_max_delay.
                            real "WORKER_HEARTBEAT_COOLDOWN" "2.0" >>= (λ heartbeat_cooldown.
                              real "RATE_LIMIT_BACKOFF_FLOOR" "30.0"
                              >>= (λ rate_limit_backoff_floor.
                                  real "TASK_POLL_TIMEOUT" "30" >>= (λ task_poll_timeout.
                                    real "TASK_POLL_ERROR_DELAY" "5.0" >>= (λ task_poll_error_delay.
                                      real "POLL_BACKOFF_INITIAL" "1.0" >>= (λ poll_backoff_initial.
                                        real "POLL_BACKOFF_MAX" "60.0" >>= (λ poll_backoff_max.
                                          real "POLL_BACKOFF_FACTOR" "2.0"
                                          >>= (λ poll_backoff_factor.
                                              real "IDLE_POLL_DELAY" "0.5" >>= (λ idle_poll_delay.
                                                real "WORKER_SHUTDOWN_TIMEOUT" "30.0"
                                                >>= (λ shutdown_timeout.
                                                    real "WORKER_TELEMETRY_DEADBAND" "5.0"
                                                    >>= (λ worker_telemetry_deadband.
                                                        real "WORKER_TELEMETRY_FORCE_INTERVAL"
                                                          "60.0"
                                                        >>= (λ worker_telemetry_force_interval.
                                                            ok (record {
                                                            worker_id =
                                                            text "WORKER_ID"
                                                            ("worker-" <> h.new_id);
                                                            worker_type =
                                                            text "WORKER_TYPE" "generic-cpu-worker";
                                                            worker_port = worker_port;
                                                            hostname = h.hostname;
                                                            ip_address =
                                                            or_else "127.0.0.1" h.address;
                                                            orchestrators = orchestrators;
                                                            worker_token =
                                                            text "WORKER_INDIVIDUAL_TOKEN" (
                                                            text "WORKER_TOKEN"
                                                            "your-secret-worker-token");
                                                            tls_ca_path = e.getenv "TLS_CA_PATH";
                                                            tls_cert_path =
                                                            e.getenv "TLS_CERT_PATH";
                                                            tls_key_path = e.getenv "TLS_KEY_PATH";
                                                            cost_per_skill =
                                                            load_json_from_env e "COST_PER_SKILL"
                                                            (obj end);
                                                            max_concurrent_tasks =
                                                            max_concurrent_tasks;
                                                            resources = record {
                                                            cpu_cores = cpu_cores;
                                                            ram_gb = ram_gb;
                                                            devices = devices;
                                                            };
                                                            installed_software =
                                                            load_json_from_env e
                                                            "INSTALLED_SOFTWARE"
                                                            (obj (field "python" (str "3.11") end));
                                                            installed_artifacts =
                                                            load_json_from_env e
                                                            "INSTALLED_ARTIFACTS" (arr nil);
                                                            task_files_dir =
                                                            text "TASK_FILES_DIR" "/tmp/payloads";
                                                            s3_endpoint_url =
                                                            e.getenv "S3_ENDPOINT_URL";
                                                            s3_access_key =
                                                            e.getenv "S3_ACCESS_KEY";
                                                            s3_secret_key =
                                                            e.getenv "S3_SECRET_KEY";
                                                            s3_default_bucket =
                                                            text "S3_DEFAULT_BUCKET"
                                                            "avtomatika-payloads";
                                                            s3_region =
                                                            text "S3_REGION" "us-east-1";
                                                            heartbeat_interval = heartbeat_interval;
                                                            result_max_retries = result_max_retries;
                                                            result_retry_initial_delay =
                                                            result_retry_initial_delay;
                                                            registration_retry_initial_delay =
                                                            registration_retry_initial_delay;
                                                            registration_retry_max_delay =
                                                            registration_retry_max_delay;
                                                            heartbeat_cooldown = heartbeat_cooldown;
                                                            rate_limit_backoff_floor =
                                                            rate_limit_backoff_floor;
                                                            task_poll_timeout = task_poll_timeout;
                                                            task_poll_error_delay =
                                                            task_poll_error_delay;
                                                            poll_backoff_initial =
                                                            poll_backoff_initial;
                                                            poll_backoff_max = poll_backoff_max;
                                                            poll_backoff_factor =
                                                            poll_backoff_factor;
                                                            idle_poll_delay = idle_poll_delay;
                                                            shutdown_timeout = shutdown_timeout;
                                                            enable_websockets =
                                                            flag "WORKER_ENABLE_WEBSOCKETS" "false";
                                                            multi_orchestrator_mode =
                                                            text "MULTI_ORCHESTRATOR_MODE"
                                                            "WATERFALL";
                                                            worker_skills_dir =
                                                            text "WORKER_SKILLS_DIR" "skills";
                                                            strict_event_validation =
                                                            flag "STRICT_EVENT_VALIDATION" "true";
                                                            worker_enable_metrics =
                                                            flag "WORKER_ENABLE_METRICS" "false";
                                                            worker_blob_cache_dir =
                                                            text "WORKER_BLOB_CACHE_DIR"
                                                            "/tmp/avtomatika_cache";
                                                            worker_telemetry_deadband =
                                                            worker_telemetry_deadband;
                                                            worker_telemetry_force_interval =
                                                            worker_telemetry_force_interval;
                                                            extra_capabilities =
                                                            load_extra_from_env h.short e h.environ
                                                            [];
                                                            })))))))))))))))))))))))

-- The arguments of `Worker.__init__` that change the settings.
pub record Arguments : Type 0 where
  pub worker_type : String
  pub max_concurrent_tasks : Option ℤ
  pub skills_dir : Option String

abbrev pub or_whole : ℤ → Option ℤ → ℤ
or_whole n none = n
or_whole n (some m) = m

-- `Worker.__init__` on the settings, and the service name and type that the observability gets
-- before they change.
unfoldable pub init_worker_config :
    {F : Type 0} → Arguments → WorkerConfig F → WorkerConfig F × String
init_worker_config a c = (
  record c {
    worker_type = a.worker_type;
    max_concurrent_tasks = or_whole c.max_concurrent_tasks a.max_concurrent_tasks;
    worker_skills_dir =
        if is_truthy a.skills_dir
        then or_else c.worker_skills_dir a.skills_dir
        else c.worker_skills_dir;
  },
  c.worker_type,
)
