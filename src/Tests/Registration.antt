-- ===== src/Tests/Registration.antt =====
-- A registration of a worker with one skill.
use avtomatika_worker.Base.{◌≡◌, refl, false, none, some, [], ◌∷◌, string_eq}
use avtomatika_worker.Base.Int.{pos}
use avtomatika_worker.Json.{num, str}
use avtomatika_worker.Heartbeat.{Beats, create_heartbeat_payload}
use avtomatika_worker.Task.Call.{ok}
use avtomatika_worker.Registration.{
  Profile, ResourceSettings, WorkerRegistration, create_registration_payload, unsigned_registration,
  hardware, each, remember_hash, signed_registration,
}
use avtomatika_worker.Registration.Catalog.{Lists, registered_then_heartbeat}
use avtomatika_worker.Tests.Beats.{whole, usage, settings, fresh}

abbrev some_resources : ResourceSettings
some_resources = record {
  devices = [];
  properties = some (("ram_gb", num (pos 8)) ∷ ("rack", str "a") ∷ []);
  cpu_cores = some (num (pos 4));
  ram_gb = some (num (pos 2));
}

abbrev profile : Profile
profile = record {
  worker_id = "w1";
  worker_type = "cpu";
  worker_token = "";
  hostname = "h";
  ip_address = "127.0.0.1";
  resources = some_resources;
  installed_software = [];
  installed_artifacts = [];
  cost_per_skill = [];
  extra_capabilities = [];
  enable_websockets = false;
  s3_endpoint_url = none;
  s3_access_key = none;
  s3_default_bucket = "b";
  device_fields = "type" ∷ [];
  artifact_fields = "name" ∷ [];
  device_of = λ d. ok d;
  artifact_of = λ d. ok d;
  calculate_config_hash = λ u k b. none;
  sign_payload = λ r t. "sig";
}

abbrev payload : WorkerRegistration
payload = unsigned_registration whole settings profile 1000 none [] fresh

abbrev after_payload : Beats whole
after_payload = (create_registration_payload whole settings profile 1000 fresh).0

registered_then_heartbeat_example :
    Lists whole settings profile fresh payload
    × ((create_heartbeat_payload whole settings 95000 usage after_payload).0.supported_skills
        ≡ none)
unfolding create_registration_payload hardware each signed_registration string_eq remember_hash
registered_then_heartbeat_example =
    registered_then_heartbeat whole settings profile 1000 95000 usage fresh after_payload
      after_payload payload refl refl refl
