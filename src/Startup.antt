-- ===== src/Startup.antt =====
-- worker.py: how a worker starts: `load_skills`, `_validate_skill_types`, and `main` with its
-- background tasks, up to the cleanup of Shutdown.antt.
pub mod Loading
pub mod Found
pub mod Blueprint
pub mod Kept
pub mod Order
use Prim.Native.String.{len, slice}
use avtomatika_worker.Base.{
  ℕ, ◌-◌, String, Bool, true, false, not, ◌&&◌, ◌||◌, Option, none, some, List, [], ◌∷◌, ◌++◌, map,
  ◌==◌, string_eq, contains, filter, leb, starts_with, if◌then◌else◌,
}
use avtomatika_worker.Base.Dict
use avtomatika_worker.Task.Call.{Exception, Try, ok, raise, cancelled, value_error}
use avtomatika_worker.Worker.{
  Worker, SkillInfo, Handler, Registered, registered, invalid_identifier, register_skill_handler,
  handlers, is_truthy,
}
use avtomatika_worker.Config.{Orchestrator}
use avtomatika_worker.Clients.{init_clients}
use avtomatika_worker.Shutdown.{Cleaned, Stopping, perform_shutdown_cleanup}
use avtomatika_worker.Offload.{Effect, Called, give, ◌>>◌, attempt}

-- What an attribute of an imported module is: a blueprint with its skills, or anything else.
pub data Attribute : Type 0 where
  blueprint : List (SkillInfo × ℕ) → Attribute
  plain : Attribute

-- An imported module: its attributes in the order of `dir`, and what its `setup` does to the worker.
pub record Module : Type 0 where
  pub attributes : List Attribute
  pub setup : Option (Effect Worker Unit)

-- What comes of the import of a file.
pub data Import : Type 0 where
  no_loader : Import
  imported : Module → Import
  import_fails : Exception → Import

pub record SkillFile : Type 0 where
  pub filename : String
  pub content : Import

-- Python's `endswith`
abbrev pub ends_with : String → String → Bool
ends_with s t = leb (len t) (len s) && slice s (len s - len t) (len s) == t

abbrev pub is_skill_file : String → Bool
is_skill_file filename = ends_with filename ".py" && not (starts_with filename "_")

-- `except Exception`, which logs and goes on, and lets a cancellation through.
abbrev pub logged : {W : Type 0} → W × Called → W × Called
logged (w, ok a) = (w, ok tt)
logged (w, raise cancelled) = (w, raise cancelled)
logged (w, raise x) = (w, ok tt)

-- `_register_skill_handler`, with its ValueError.
abbrev pub register : Registered → Worker → Worker × Called
register (registered u) w = (u, ok tt)
register (invalid_identifier name) w = (w, raise (value_error name))

module _ (valid : String → Bool) where
  unfoldable pub include_skill : SkillInfo → ℕ → Effect Worker Unit
  include_skill info func w = register (register_skill_handler valid info func w) w

  unfoldable pub include_blueprint : List (SkillInfo × ℕ) → Effect Worker Unit
  include_blueprint [] = give tt
  include_blueprint ((info, func) ∷ skills) =
      include_skill info func >> (λ _. include_blueprint skills)

  abbrev pub include_attribute : Attribute → Effect Worker Unit
  include_attribute (blueprint skills) = include_blueprint skills
  include_attribute plain = give tt

  unfoldable pub include_attributes : List Attribute → Effect Worker Unit
  include_attributes [] = give tt
  include_attributes (x ∷ xs) = include_attribute x >> (λ _. include_attributes xs)

  abbrev pub run_setup : Option (Effect Worker Unit) → Effect Worker Unit
  run_setup none = give tt
  run_setup (some f) = f

  unfoldable pub load_module : Module → Effect Worker Unit
  load_module m = include_attributes m.attributes >> (λ _. run_setup m.setup)

  abbrev pub load_content : Import → Effect Worker Unit
  load_content no_loader = give tt
  load_content (import_fails x) = λ w. logged (w, raise x)
  load_content (imported m) = λ w. logged (load_module m w)

  unfoldable pub load_file : SkillFile → Effect Worker Unit
  load_file file = if is_skill_file file.filename then load_content file.content else give tt

  unfoldable pub load_files : List SkillFile → Effect Worker Unit
  load_files [] = give tt
  load_files (file ∷ files) = load_file file >> (λ _. load_files files)

  -- `load_skills`, over whether the folder exists and its files as `listdir` gives them.
  unfoldable pub load_skills : Bool → List SkillFile → Effect Worker Unit
  load_skills dir_exists files = if dir_exists then load_files files else give tt

-- `_validate_skill_types`: the types that it warns of.
abbrev pub registered_types : Worker → List String
registered_types w = filter (λ t. not (t == "")) (map (λ (h : Handler). h.type) (handlers w))

unfoldable pub validate_skill_types : Worker → List String
validate_skill_types w =
    filter (λ t. not (contains (registered_types w) t)) (Dict.keys w.skill_type_limits)

-- The tasks that `main` makes.
pub data Background : Type 0 where
  communications queue_worker token_rotation polling : Background

-- The worker's fields that `main` changes, with what it warned of.
pub record Boot : Type 0 where
  pub worker : Worker
  pub warned : List String
  pub has_ssl_context : Bool
  pub has_session : Bool
  pub clients : List (Orchestrator × ℕ)
  pub tasks : List Background

-- What `main` meets: the verdict of `validate`, the skill files, the settings, and the calls of the
-- libraries. `ends_with_tasks` is whether tasks run when the shutdown event is set, and
-- `sends_when_cancelled` whether the queue's worker sends a result when the cleanup cancels it.
pub record Site : Type 0 where
  pub valid : String → Bool
  pub validated : Called
  pub dir_exists : Bool
  pub files : List SkillFile
  pub tls_ca_path : Option String
  pub tls_cert_path : Option String
  pub tls_key_path : Option String
  pub create_ssl_context : Called
  pub create_transport : String → String → ℕ
  pub worker_token : String
  pub orchestrators : List Orchestrator
  pub connect : ℕ → Called
  pub shutdown_timeout : ℕ
  pub ends_with_tasks : Bool
  pub sends_when_cancelled : Bool
  pub session_is_managed_externally : Bool

-- `gather` of the connections, which raises what one of them raises; the first of the list is taken.
unfoldable pub connect_all : (ℕ → Called) → List (Orchestrator × ℕ) → Called
connect_all connect [] = ok tt
connect_all connect ((o, client) ∷ clients) = elim (connect client) [
  | ok _ ↦ connect_all connect clients
  | raise x ↦ raise x
]

abbrev pub is_empty : List (Orchestrator × ℕ) → Bool
is_empty [] = true
is_empty (_ ∷ _) = false

module _ (site : Site) where
  abbrev pub needs_ssl : Bool
  needs_ssl =
      is_truthy site.tls_ca_path || (is_truthy site.tls_cert_path && is_truthy site.tls_key_path)

  unfoldable pub on_worker : Effect Worker Unit → Effect Boot Unit
  on_worker f b = let (w, r) = f b.worker in (record b { worker = w }, r)

  unfoldable pub warn : Effect Boot Unit
  warn b = give tt (record b { warned = validate_skill_types b.worker })

  unfoldable pub make_ssl_context : Effect Boot Unit
  make_ssl_context =
      if needs_ssl
      then attempt site.create_ssl_context >> (λ _ b. give tt (record b { has_ssl_context = true }))
      else give tt

  unfoldable pub make_clients : Effect Boot Unit
  make_clients b =
      if is_empty b.clients
      then (attempt (init_clients site.create_transport site.worker_token site.orchestrators)
            >> (λ clients b. give tt (record b { clients = clients })))
          b
      else give tt b

  -- The part under `if not self._http_session`.
  unfoldable pub make_session : Effect Boot Unit
  make_session b =
      if b.has_session
      then give tt b
      else (make_ssl_context >> (λ _ b. make_clients (record b { has_session = true }))) b

  unfoldable pub connect : Effect Boot Unit
  connect b = (b, connect_all site.connect b.clients)

  abbrev pub rotation : Bool → List Background
  rotation true = token_rotation ∷ []
  rotation false = []

  unfoldable pub start_tasks : Effect Boot Unit
  start_tasks b = give tt (record b {
    tasks = (communications ∷ queue_worker ∷ []) ++ rotation b.has_ssl_context ++ (polling ∷ []);
  })

  -- The `finally` of `main`, after the shutdown event.
  unfoldable pub clean_up : Effect Boot Cleaned
  clean_up b =
      give
        (perform_shutdown_cleanup (record {
          has_queue_worker = true;
          sends_when_cancelled = site.sends_when_cancelled;
          has_token_rotation = b.has_ssl_context;
          has_active_tasks = site.ends_with_tasks;
          shutdown_timeout = site.shutdown_timeout;
          has_open_session = b.has_session;
          session_is_managed_externally = site.session_is_managed_externally;
        }))
        b

  -- `main`, which gives what its cleanup did; where that was cut, `main` ends in the CancelledError.
  unfoldable pub main : Effect Boot Cleaned
  main =
      attempt site.validated
      >> (λ _. warn)
      >> (λ _. on_worker (load_skills site.valid site.dir_exists site.files))
      >> (λ _. make_session)
      >> (λ _. connect)
      >> (λ _. start_tasks)
      >> (λ _. clean_up)
