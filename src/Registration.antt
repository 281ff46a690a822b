-- ===== src/Registration.antt =====
-- worker.py: `_create_registration_payload`, what the worker tells an orchestrator of itself.
pub mod Properties
pub mod Catalog
use avtomatika_worker.Base.{
  ℕ, String, Bool, true, false, not, ◌&&◌, Option, none, some, List, [], ◌∷◌, ◌==◌, string_eq,
  contains, map, if◌then◌else◌,
}
use avtomatika_worker.Base.Dict
use avtomatika_worker.Base.Dict.{Dict}
use avtomatika_worker.Base.Int.{ℤ, pos}
use avtomatika_worker.Json.{Json, bool, num}
use avtomatika_worker.Worker.{SkillInfo, get_current_state}
use avtomatika_worker.Telemetry.{Floats}
use avtomatika_worker.Heartbeat.{Beats, Settings, names_or_none}
use avtomatika_worker.Task.Call.{Try, ok, raise, ◌>>=◌}
use avtomatika_worker.Task.Outcome.{SecurityContext}

-- RESOURCES: the entries that the payload reads, each of them if it is there.
pub record ResourceSettings : Type 0 where
  pub devices : List (Dict String Json)
  pub properties : Option (Dict String Json)
  pub cpu_cores : Option Json
  pub ram_gb : Option Json

-- What rxon's models are made of, which are also what they hold.
pub record Resources : Type 0 where
  pub devices : Option (List (Dict String Json))
  pub properties : Dict String Json

pub record WorkerCapabilities : Type 0 where
  pub hostname : String
  pub ip_address : String
  pub cost_per_skill : Dict String Json
  pub s3_config_hash : Option String
  pub extra : Dict String Json

pub record WorkerRegistration : Type 0 where
  pub worker_id : String
  pub worker_type : String
  pub supported_skills : List SkillInfo
  pub available_skills : Option (List String)
  pub hot_skills : Option (List String)
  pub resources : Resources
  pub installed_software : Dict String String
  pub installed_artifacts : List (Dict String Json)
  pub capabilities : WorkerCapabilities
  pub skills_hash : String
  pub timestamp : ℕ
  pub security : Option SecurityContext

-- The settings that are read, and rxon's functions: the fields of its two models, the constructors,
-- which may raise, the hash of the S3 settings, and the signature.
pub record Profile : Type 0 where
  pub worker_id : String
  pub worker_type : String
  pub worker_token : String
  pub hostname : String
  pub ip_address : String
  pub resources : ResourceSettings
  pub installed_software : Dict String String
  pub installed_artifacts : List (Dict String Json)
  pub cost_per_skill : Dict String Json
  pub extra_capabilities : Dict String Json
  pub enable_websockets : Bool
  pub s3_endpoint_url : Option String
  pub s3_access_key : Option String
  pub s3_default_bucket : String
  pub device_fields : List String
  pub artifact_fields : List String
  pub device_of : Dict String Json → Try (Dict String Json)
  pub artifact_of : Dict String Json → Try (Dict String Json)
  pub calculate_config_hash : Option String → Option String → String → Option String
  pub sign_payload : WorkerRegistration → String → String

-- `{k: v for k, v in d.items() if k in names}`
unfoldable pub only : List String → Dict String Json → Dict String Json
only names [] = []
only names ((k, v) ∷ d) =
    let rest = only names d in if contains names k then (k, v) ∷ rest else rest

-- A list comprehension over a constructor that may raise.
unfoldable pub each :
    (Dict String Json → Try (Dict String Json))
    → List (Dict String Json)
    → Try (List (Dict String Json))
each f [] = ok []
each f (d ∷ ds) = f d >>= (λ x. each f ds >>= (λ xs. ok (x ∷ xs)))

unfoldable pub hardware : Profile → List (Dict String Json) → Try (Option (List (Dict String Json)))
hardware p [] = ok none
hardware p (d ∷ ds) =
    each (λ x. p.device_of (only p.device_fields x)) (d ∷ ds) >>= (λ xs. ok (some xs))

-- `if k not in props: props[k] = RESOURCES.get(k, default)`
unfoldable pub with_default : String → Option Json → Json → Dict String Json → Dict String Json
with_default k set default props =
    if Dict.has_key k props
    then props
    else Dict.insert k (elim set [ none ↦ default | some v ↦ v ]) props

abbrev pub properties_or_empty : Option (Dict String Json) → Dict String Json
properties_or_empty none = []
properties_or_empty (some d) = d

-- `props`. Of the numbers in a property only whole ones are modelled, so that 1.0 is 1.
unfoldable pub properties_of : ResourceSettings → Dict String Json
properties_of r =
    with_default "ram_gb" r.ram_gb (num (pos 1))
      (with_default "cpu_cores" r.cpu_cores (num (pos 1)) (properties_or_empty r.properties))

-- `combined_extra`
unfoldable pub combined_extra : Profile → Dict String Json
combined_extra p = Dict.update (("websockets", bool p.enable_websockets) ∷ []) p.extra_capabilities

-- `_sign_payload_if_needed`, and the payload with what it gives.
unfoldable pub signed_registration : Profile → WorkerRegistration → WorkerRegistration
signed_registration p r =
    if not (p.worker_token == "") && not (p.worker_token == "your-secret-worker-token")
    then record r {
      security =
          some (record { signature = p.sign_payload r p.worker_token; signer_id = p.worker_id });
    }
    else r

module _ (fl : Floats) (st : Settings fl) (p : Profile) where
  -- The hash counts as synced when the payload is built.
  unfoldable pub remember_hash : Beats fl → Beats fl
  remember_hash b = record b {
    last_synced_skills_hash = some (st.contract_hash (get_current_state b.worker).supported_skills);
  }

  unfoldable pub unsigned_registration :
      ℕ → Option (List (Dict String Json)) → List (Dict String Json) → Beats fl → WorkerRegistration
  unsigned_registration now devices artifacts b =
      let s = get_current_state b.worker in
      record {
        worker_id = p.worker_id;
        worker_type = p.worker_type;
        supported_skills = s.supported_skills;
        available_skills = names_or_none s.available_skills;
        hot_skills = names_or_none s.hot_skills;
        resources = record { devices = devices; properties = properties_of p.resources };
        installed_software = p.installed_software;
        installed_artifacts = artifacts;
        capabilities = record {
          hostname = p.hostname;
          ip_address = p.ip_address;
          cost_per_skill = p.cost_per_skill;
          s3_config_hash =
              p.calculate_config_hash p.s3_endpoint_url p.s3_access_key p.s3_default_bucket;
          extra = combined_extra p;
        };
        skills_hash = st.contract_hash s.supported_skills;
        timestamp = now;
        security = none;
      }

  -- The devices are made before the hash is kept, the artifacts after it.
  unfoldable pub create_registration_payload : ℕ → Beats fl → Beats fl × Try WorkerRegistration
  create_registration_payload now b = elim (hardware p p.resources.devices) [
    | raise x ↦ (b, raise x)
    | ok devices ↦ (
      remember_hash b,
      each (λ d. p.artifact_of (only p.artifact_fields d)) p.installed_artifacts >>= (λ artifacts.
          ok (signed_registration p (unsigned_registration now devices artifacts b))),
    )
  ]
