-- ===== src/Tests/Beats.antt =====
-- Heartbeats over whole numbers in place of floats: the load as percent, the memory as gigabytes.
use avtomatika_worker.Base.{
  ℕ, ◌+◌, ◌-◌, ◌/◌, ◌≤◌, ◌<◌, ◌≡◌, ◌≢◌, refl, true, false, none, some, [], ◌∷◌, arith, ltb, nat_eq,
  string_eq, ◌==◌,
}
use avtomatika_worker.Base.Dict
use avtomatika_worker.Telemetry.{Floats, DeviceUsage, ResourcesUsage, devices, find_device}
use avtomatika_worker.Telemetry.Deadband.{IsFinite, NodupDevices}
use avtomatika_worker.Heartbeat.{
  Answer, dict, missing, Beats, Settings, is_usage_due, create_heartbeat_payload, last_time,
  is_debouncing, send_single_heartbeat,
}
use avtomatika_worker.Heartbeat.Catalog.{catalog_after_answer}
use avtomatika_worker.Heartbeat.Cooldown.{is_sent, cooldown_after_answer}
use avtomatika_worker.Tests.Skills.{one_skill}

abbrev pub whole : Floats
whole = record {
  F = ℕ;
  zero = 0;
  hundred = 100;
  distance = λ a b. (a - b) + (b - a);
  div = λ a b. a / b;
  lt = ltb;
  equal = λ a b. a == b;
}

whole-IsFinite : IsFinite whole 5
unfolding nat_eq
whole-IsFinite = record {
  no_distance = λ x. ground arith;
  no_relative = λ x h. let e : (x - x) + (x - x) ≡ 0 = omega arith in rw e (grind arith);
  zero_not_positive = λ x h. ground arith;
}

abbrev pub gpu : DeviceUsage whole
gpu = record { unit_id = "0"; load_percent = 40; metrics = some (("memory_used_gb", 8) ∷ []) }

abbrev pub usage : ResourcesUsage whole
usage = record { cpu_load_percent = 10; ram_used_gb = 4; devices_usage = some (gpu ∷ []) }

abbrev pub no_gpu : ResourcesUsage whole
no_gpu = record usage { devices_usage = none }

usage-Nodup : NodupDevices whole (devices whole usage)
unfolding find_device
usage-Nodup = (refl, tt)

finds_gpu : find_device whole "0" (devices whole usage) ≢ none
unfolding find_device string_eq
finds_gpu e = cc

no_gpu_before : find_device whole "0" (devices whole no_gpu) ≡ none
unfolding find_device
no_gpu_before = refl

abbrev pub settings : Settings whole
settings = record {
  heartbeat_cooldown = 2000;
  telemetry_deadband = 5;
  telemetry_force_interval = 60000;
  contract_hash = λ skills. "h1";
}

abbrev pub fresh : Beats whole
fresh = record {
  worker = one_skill;
  last_synced_skills_hash = none;
  last_sent_usage = none;
  last_sent_usage_time = 0;
  last_heartbeat_times = (1, 90000) ∷ [];
  debouncing_flags = (1, true) ∷ [];
}

fresh_is_past : 2000 ≤ 100000 - last_time whole settings 1 fresh
unfolding Dict.lookup nat_eq
fresh_is_past = omega arith

fresh_is_within : 91000 - last_time whole settings 1 fresh < 2000
unfolding Dict.lookup nat_eq
fresh_is_within = omega arith

abbrev fine : Answer
fine = dict (record { require_full_sync = false; cancel_tasks = []; jitter = missing })

-- The second orchestrator is not told of the catalog that the first one acknowledged.
catalog_after_answer_example :
    let b = (send_single_heartbeat whole settings 1 100000 100010 usage fine fresh).0 in
    (create_heartbeat_payload whole settings 100020 usage b).0.supported_skills ≡ none
catalog_after_answer_example =
    catalog_after_answer whole settings 1 100000 100010 100020 usage usage fine fresh fresh_is_past

usage_is_due : is_usage_due whole settings 100000 usage fresh ≡ true
unfolding is_usage_due
usage_is_due = refl

cooldown_after_answer_example :
    let b = (send_single_heartbeat whole settings 1 100000 100010 usage fine fresh).0 in
    is_sent whole settings (send_single_heartbeat whole settings 1 101000 101010 usage fine b).1
    ≡ false
cooldown_after_answer_example =
    cooldown_after_answer whole settings 1 100000 100010 101000 101010 usage usage fine fine fresh
      fresh_is_past (λ e. cc) (omega arith) (omega arith)

fresh_waits : is_debouncing whole settings 1 fresh ≡ true
unfolding Dict.lookup nat_eq
fresh_waits = refl
