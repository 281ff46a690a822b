-- ===== src/Config/Readable.antt =====
-- config.py: for which environments `WorkerConfig.__init__` gives a configuration.
use avtomatika_worker.Base.{String, ◌≡◌, refl, Bool, true, false, ◌&&◌, List, [], ◌∷◌}
use avtomatika_worker.Task.Call.{Try, ok, raise, ◌>>=◌}
use avtomatika_worker.Config.{Environment, or_else, get_orchestrators_config, get_devices}
use avtomatika_worker.Config.Settings.{Host, whole, real, init_config}

-- What can fail: a variable that is read by `int` or by `float`, with its default, the orchestrators,
-- and the devices.
pub data Setting : Type 0 where
  an_int : String → String → Setting
  a_float : String → String → Setting
  the_orchestrators : Setting
  the_devices : Setting

abbrev pub fallible_settings : List Setting
fallible_settings =
    an_int "WORKER_PORT" "8083"
    ∷ the_orchestrators
    ∷ an_int "MAX_CONCURRENT_TASKS" "10"
    ∷ an_int "CPU_CORES" "4"
    ∷ a_float "RAM_GB" "0.0"
    ∷ the_devices
    ∷ a_float "HEARTBEAT_INTERVAL" "15"
    ∷ an_int "RESULT_MAX_RETRIES" "5"
    ∷ a_float "RESULT_RETRY_INITIAL_DELAY" "1.0"
    ∷ a_float "REGISTRATION_RETRY_INITIAL_DELAY" "1.0"
    ∷ a_float "REGISTRATION_RETRY_MAX_DELAY" "60.0"
    ∷ a_float "WORKER_HEARTBEAT_COOLDOWN" "2.0"
    ∷ a_float "RATE_LIMIT_BACKOFF_FLOOR" "30.0"
    ∷ a_float "TASK_POLL_TIMEOUT" "30"
    ∷ a_float "TASK_POLL_ERROR_DELAY" "5.0"
    ∷ a_float "POLL_BACKOFF_INITIAL" "1.0"
    ∷ a_float "POLL_BACKOFF_MAX" "60.0"
    ∷ a_float "POLL_BACKOFF_FACTOR" "2.0"
    ∷ a_float "IDLE_POLL_DELAY" "0.5"
    ∷ a_float "WORKER_SHUTDOWN_TIMEOUT" "30.0"
    ∷ a_float "WORKER_TELEMETRY_DEADBAND" "5.0"
    ∷ a_float "WORKER_TELEMETRY_FORCE_INTERVAL" "60.0"
    ∷ []

abbrev pub is_ok : {A : Type 0} → Try A → Bool
is_ok (ok a) = true
is_ok (raise x) = false

-- A result is there exactly if the test says so.
record Agrees {A : Type 0} (t : Try A) (b : Bool) : Type 0 where
  same : is_ok t ≡ b

next_ok :
    {A B : Type 0} (t : Try A) (f : A → Try B) (b : Bool)
    → ((a : A) → Agrees (f a) b)
    → Agrees (t >>= f) (is_ok t && b)
next_ok (ok a) f b h = h a
next_ok (raise x) f b h = record { same = refl }

module _ {F : Type 0} (h : Host F) (e : Environment) where
  abbrev pub is_read : Setting → Bool
  is_read (an_int key default) = is_ok (h.int (or_else default (e.getenv key)))
  is_read (a_float key default) = is_ok (h.float (or_else default (e.getenv key)))
  is_read the_orchestrators = is_ok (get_orchestrators_config e)
  is_read the_devices = is_ok (get_devices h.int e)

  abbrev pub all_read : List Setting → Bool
  all_read [] = true
  all_read (x ∷ xs) = is_read x && all_read xs

  agrees : Agrees (init_config h e) (all_read fallible_settings)
  unfolding init_config
  agrees = next_ok (whole h e "WORKER_PORT" "8083") _ _ (λ _.
      next_ok (get_orchestrators_config e) _ _ (λ _.
        next_ok (whole h e "MAX_CONCURRENT_TASKS" "10") _ _ (λ _.
          next_ok (whole h e "CPU_CORES" "4") _ _ (λ _. next_ok (real h e "RAM_GB" "0.0") _ _ (λ _.
            next_ok (get_devices h.int e) _ _ (λ _.
              next_ok (real h e "HEARTBEAT_INTERVAL" "15") _ _ (λ _.
                next_ok (whole h e "RESULT_MAX_RETRIES" "5") _ _ (λ _.
                  next_ok (real h e "RESULT_RETRY_INITIAL_DELAY" "1.0") _ _ (λ _.
                    next_ok (real h e "REGISTRATION_RETRY_INITIAL_DELAY" "1.0") _ _ (λ _.
                      next_ok (real h e "REGISTRATION_RETRY_MAX_DELAY" "60.0") _ _ (λ _.
                        next_ok (real h e "WORKER_HEARTBEAT_COOLDOWN" "2.0") _ _ (λ _.
                          next_ok (real h e "RATE_LIMIT_BACKOFF_FLOOR" "30.0") _ _ (λ _.
                            next_ok (real h e "TASK_POLL_TIMEOUT" "30") _ _ (λ _.
                              next_ok (real h e "TASK_POLL_ERROR_DELAY" "5.0") _ _ (λ _.
                                next_ok (real h e "POLL_BACKOFF_INITIAL" "1.0") _ _ (λ _.
                                  next_ok (real h e "POLL_BACKOFF_MAX" "60.0") _ _ (λ _.
                                    next_ok (real h e "POLL_BACKOFF_FACTOR" "2.0") _ _ (λ _.
                                      next_ok (real h e "IDLE_POLL_DELAY" "0.5") _ _ (λ _.
                                        next_ok (real h e "WORKER_SHUTDOWN_TIMEOUT" "30.0") _ _
                                          (λ _.
                                            next_ok (real h e "WORKER_TELEMETRY_DEADBAND" "5.0") _ _
                                              (λ _.
                                                next_ok
                                                  (real h e "WORKER_TELEMETRY_FORCE_INTERVAL"
                                                    "60.0")
                                                  _ _
                                                  (λ _. record { same = refl }))))))))))))))))))))))

  -- The settings are made exactly if the orchestrators and the devices are, and each of the twenty
  -- variables that is read by int or float, or its default where it is not set, can be read.
  pub init_config-all_read : is_ok (init_config h e) ≡ all_read fallible_settings
  init_config-all_read = agrees.same
