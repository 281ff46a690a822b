-- ===== src/Tests/Skills.antt =====
-- The registry and the three tiers at a worker with one skill.
use avtomatika_worker.Base.{String, ◌≡◌, refl, Bool, not, none, some, [], ◌∷◌, ◌==◌, string_eq}
use avtomatika_worker.Base.Dict
use avtomatika_worker.Base.Int.{pos}
use avtomatika_worker.Worker.{
  Worker, Handler, SkillInfo, registered, register_skill_handler, get_current_state, handlers,
  is_available, idle, with_skill,
}
use avtomatika_worker.Worker.Offers.{IsOffered, IsReady, Decides}
use avtomatika_worker.Worker.Tiers.{infos_where, get_current_state_tiers}
use avtomatika_worker.Worker.Registry.{IsRegistry, register_skill_handler-IsRegistry}

abbrev pub echo : SkillInfo
echo = record {
  name = "echo";
  type = some "text";
  description = none;
  version = none;
  input_schema = none;
  output_schema = none;
  events_schema = none;
}

abbrev pub no_skills : Worker
no_skills = record {
  max_concurrent_tasks = 1;
  skill_type_limits = ("text", 1) ∷ [];
  skill_handlers = [];
  skill_dependencies = [];
  capacity_checker = none;
  current_load = pos 0;
  current_load_by_type = ("text", pos 0) ∷ [];
  hot_skills_state = "echo" ∷ [];
  active_tasks = [];
}

abbrev pub one_skill : Worker
one_skill = record no_skills {
  skill_handlers = ("echo", record { func = 7; info = echo; type = "text" }) ∷ [];
}

abbrev not_empty : String → Bool
not_empty s = not (s == "")

registers_echo : register_skill_handler not_empty echo 7 no_skills ≡ registered one_skill
unfolding register_skill_handler with_skill Dict.insert Dict.lookup string_eq
registers_echo = refl

pub no_skills-IsRegistry : IsRegistry no_skills
unfolding Dict.lookup
no_skills-IsRegistry = record {
  named = tt;
  nodup = tt;
  entries = λ name h found filled. absurd (cc);
}

pub one_skill_idle : (get_current_state one_skill).status ≡ idle
unfolding get_current_state is_available Dict.lookup string_eq
one_skill_idle = refl

get_current_state_tiers_example :
    let s = get_current_state one_skill in
    (offered : Handler → Bool) × (hot : Handler → Bool) × Decides (IsOffered one_skill) offered
    × Decides (λ h. IsOffered one_skill h × IsReady one_skill h.info.name) hot
    × (s.available_skills ≡ infos_where offered (handlers one_skill))
    × (s.hot_skills ≡ infos_where hot (handlers one_skill))
get_current_state_tiers_example = get_current_state_tiers one_skill

pub one_skill-IsRegistry : IsRegistry one_skill
one_skill-IsRegistry =
    (register_skill_handler-IsRegistry not_empty echo 7 no_skills one_skill no_skills-IsRegistry
      registers_echo).0
