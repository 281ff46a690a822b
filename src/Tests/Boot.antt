-- ===== src/Tests/Boot.antt =====
-- A worker whose skills come from a folder, started with two orchestrators.
use avtomatika_worker.Base.{
  String, ◌≡◌, refl, Bool, true, false, not, some, none, List, [], ◌∷◌, string_eq, ◌==◌,
}
use avtomatika_worker.Base.Dict
use avtomatika_worker.Task.Call.{ok, other}
use avtomatika_worker.Worker.Registry.{IsRegistry}
use avtomatika_worker.Startup.{
  Module, SkillFile, Site, Boot, blueprint, plain, imported, import_fails, load_skills, main,
  is_skill_file,
}
use avtomatika_worker.Startup.Loading.{give-Adds}
use avtomatika_worker.Startup.Found.{HasAll, IsGood, load_skills_finds}
use avtomatika_worker.Startup.Order.{IsSettled, main-IsSettled, main_warns_of_all}
use avtomatika_worker.Tests.Skills.{echo, no_skills, no_skills-IsRegistry}

abbrev not_empty : String → Bool
not_empty s = not (s == "")

abbrev echo_module : Module
echo_module = record { attributes = plain ∷ blueprint ((echo, 7) ∷ []) ∷ []; setup = none }

abbrev echo_file : SkillFile
echo_file = record { filename = "echo.py"; content = imported echo_module }

abbrev broken_file : SkillFile
broken_file = record { filename = "broken.py"; content = import_fails (other "SyntaxError") }

-- What is imported, and what is not.
names : List Bool
names =
    is_skill_file "a.py" ∷ is_skill_file "_a.py" ∷ is_skill_file "a.txt" ∷ is_skill_file "py" ∷ []

names_are : names ≡ (true ∷ false ∷ false ∷ false ∷ [])
unfolding names string_eq
names_are = refl

echo-IsGood : IsGood not_empty echo_file echo_module
unfolding string_eq
echo-IsGood = record { named = refl; loads = refl; admitted = ((refl, refl), tt) }

load_skills_finds_example :
    let (u, end) =
      load_skills not_empty true (broken_file ∷ echo_file ∷ broken_file ∷ []) no_skills in
    (end ≡ ok tt) × IsRegistry u × HasAll u ((echo, 7) ∷ [])
load_skills_finds_example =
    load_skills_finds not_empty (broken_file ∷ []) (broken_file ∷ []) echo_file echo_module
      no_skills (tt, (give-Adds, (tt, tt))) echo-IsGood no_skills-IsRegistry

abbrev site : Site
site = record {
  valid = not_empty;
  validated = ok tt;
  dir_exists = true;
  files = echo_file ∷ [];
  tls_ca_path = some "/ca.pem";
  tls_cert_path = none;
  tls_key_path = none;
  create_ssl_context = ok tt;
  create_transport = λ url token. 1;
  worker_token = "t";
  orchestrators = [];
  connect = λ client. ok tt;
  shutdown_timeout = 30000;
  ends_with_tasks = false;
  sends_when_cancelled = true;
  session_is_managed_externally = false;
}

abbrev boot : Boot
boot = record {
  worker = record no_skills { skill_type_limits = ("text", 1) ∷ [] };
  warned = [];
  has_ssl_context = false;
  has_session = false;
  clients = [];
  tasks = [];
}

main-IsSettled_example : IsSettled site (main site boot)
main-IsSettled_example = main-IsSettled site boot refl

-- The file of the folder registers the type, of which the worker warns.
main_warns_of_all_example : (main site boot).0.warned ≡ Dict.keys boot.worker.skill_type_limits
main_warns_of_all_example = main_warns_of_all site boot refl refl
