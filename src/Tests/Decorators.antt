-- ===== src/Tests/Decorators.antt =====
-- Functions that become skills.
use avtomatika_worker.Base.{
  ℕ, ◌≡◌, refl, ap, Bool, true, none, some, List, [], ◌∷◌, String, string_eq, Option,
}
use avtomatika_worker.Base.Dict
use avtomatika_worker.Base.Dict.{Dict}
use avtomatika_worker.Worker.{Worker, SkillInfo, register_skill_handler, with_skill}
use avtomatika_worker.Task.Call.{Try, ok, raise, type_error, missing}
use avtomatika_worker.Skills.{
  Func, complete_info, worker_decorator, decorate_all, collect_all, SchemaField, union_type,
}
use avtomatika_worker.Startup.{load_skills}
use avtomatika_worker.Startup.Blueprint.{blueprint_file, load_skills-decorate_all}
use avtomatika_worker.Skills.Reuse.{func_of, decorator_keeps_first_name}
use avtomatika_worker.Tests.Skills.{no_skills, one_skill, one_skill-IsRegistry}

abbrev any_name : String → Bool
any_name s = true

abbrev same_text : String → String
same_text s = s

abbrev unnamed : SkillInfo
unnamed = record {
  name = "";
  type = none;
  description = none;
  version = none;
  input_schema = none;
  output_schema = none;
  events_schema = none;
}

abbrev func : ℕ → String → Func
func n name = record {
  id = n;
  name = name;
  doc = some "Says it.";
  module_version = none;
  params_schema = none;
  return_schema = none;
}

abbrev uses : List (SkillInfo × Func)
uses = (unnamed, func 1 "say") ∷ (unnamed, func 2 "sing") ∷ []

load_skills-decorate_all_example :
    (load_skills any_name true
      (blueprint_file any_name (collect_all same_text uses []) "skills.py" ∷ [])
      no_skills).0
    ≡ decorate_all any_name same_text uses no_skills
unfolding string_eq
load_skills-decorate_all_example =
    load_skills-decorate_all any_name same_text uses "skills.py" no_skills refl

abbrev said : SkillInfo
said = (worker_decorator any_name same_text (func 1 "say") unnamed one_skill).0

abbrev both : Worker
both = with_skill (complete_info same_text (func 2 "sing") said) 2 one_skill

decorator_keeps_first_name_example : func_of "say" both ≡ some 2
unfolding worker_decorator register_skill_handler complete_info string_eq
decorator_keeps_first_name_example =
    decorator_keeps_first_name any_name same_text (func 1 "say") (func 2 "sing") unnamed one_skill
      both one_skill one_skill-IsRegistry refl refl refl

abbrev limit : SchemaField
limit = record {
  name = "limit";
  default = missing;
  default_factory = missing;
  schema = none;
  hint = union_type true;
}

abbrev limit_or_raise : Option ℕ → Try ℕ
limit_or_raise none = raise (type_error "limit")
limit_or_raise (some n) = ok n

abbrev constructed : Dict String ℕ → Try ℕ
constructed kw = limit_or_raise (Dict.lookup "limit" kw)

needs_limit :
    (kw : Dict String ℕ)
    → Dict.lookup "limit" kw ≡ none
    → constructed kw ≡ raise (type_error "limit")
needs_limit kw h = ap limit_or_raise h
