-- ===== src/Startup/Blueprint.antt =====
-- worker.py: a skill file with a blueprint, against the worker's own decorator.
use avtomatika_worker.Base.{String, ℕ, ◌≡◌, refl, ap, ◌∙◌, Bool, true, none, List, [], ◌∷◌}
use avtomatika_worker.Task.Call.{ok, raise}
use avtomatika_worker.Worker.{
  Worker, SkillInfo, Registered, registered, invalid_identifier, register_skill_handler,
  register_all,
}
use avtomatika_worker.Skills.{Func, collect_all, decorate_all}
use avtomatika_worker.Skills.Blueprint.{include_blueprint-decorate}
use avtomatika_worker.Offload.{Called, give, then_do, ◌>>◌}
use avtomatika_worker.Startup.{
  Module, logged, SkillFile, blueprint, imported, is_skill_file, register, include_skill,
  include_blueprint, include_attributes, load_module, load_file, load_files, load_skills,
}
use avtomatika_worker.Startup.Loading.{logged_same}

module _ (valid : String → Bool) where
  followed :
      (skills : List (SkillInfo × ℕ)) (w : Worker) (r : Registered)
      → ((u : Worker) → (include_blueprint valid skills u).0 ≡ register_all valid skills u)
      → (then_do (λ _. include_blueprint valid skills) (register r w)).0
        ≡ elim r [ registered u ↦ register_all valid skills u | invalid_identifier name ↦ w ]
  followed skills w (registered u) h = h u
  followed skills w (invalid_identifier name) h = refl

  -- The registrations in a row, up to the first one that raises, and what they leave.
  include_blueprint-register_all :
      (skills : List (SkillInfo × ℕ)) (w : Worker)
      → (include_blueprint valid skills w).0 ≡ register_all valid skills w
  unfolding include_blueprint include_skill register_all give ◌>>◌
  include_blueprint-register_all [] w = refl
  include_blueprint-register_all ((info, func) ∷ skills) w =
      followed skills w (register_skill_handler valid info func w)
        (include_blueprint-register_all skills)

  ended : (r : Worker × Called) → (then_do (λ _. give tt) r).0 ≡ r.0
  unfolding give
  ended (w, ok a) = refl
  ended (w, raise x) = refl

  module _ (skills : List (SkillInfo × ℕ)) (filename : String) where
    abbrev only : Module
    only = record { attributes = blueprint skills ∷ []; setup = none }

    -- The file whose module has this blueprint and nothing else.
    abbrev pub blueprint_file : SkillFile
    blueprint_file = record { filename = filename; content = imported only }

    load_file-only :
        (w : Worker)
        → is_skill_file filename ≡ true
        → load_file valid blueprint_file w ≡ logged (load_module valid only w)
    unfolding load_file
    load_file-only w named = rw (named) refl

    load_files-only :
        (w : Worker)
        → (load_files valid (blueprint_file ∷ []) w).0 ≡ (load_file valid blueprint_file w).0
    unfolding load_files ◌>>◌
    load_files-only w = ended (load_file valid blueprint_file w)

    load_module-only :
        (w : Worker) → (load_module valid only w).0 ≡ (include_blueprint valid skills w).0
    unfolding load_module include_attributes ◌>>◌
    load_module-only w =
        ended (then_do (λ _. give tt) (include_blueprint valid skills w))
        ∙ ended (include_blueprint valid skills w)

  -- Functions that are collected in the blueprint of a skill file's module leave the worker, when
  -- the folder with this file is loaded, as the worker's own decorator on each of them does, also
  -- where one is refused.
  pub load_skills-decorate_all :
      (cleandoc : String → String) (uses : List (SkillInfo × Func)) (filename : String) (w : Worker)
      → is_skill_file filename ≡ true
      → (load_skills valid true (blueprint_file (collect_all cleandoc uses []) filename ∷ []) w).0
        ≡ decorate_all valid cleandoc uses w
  unfolding load_skills
  load_skills-decorate_all cleandoc uses filename w named =
      let skills = collect_all cleandoc uses [] in
      load_files-only skills filename w
      ∙ ap (λ (r : Worker × Called). r.0) (load_file-only skills filename w named)
      ∙ logged_same (load_module valid (only skills filename) w)
      ∙ load_module-only skills filename w
      ∙ include_blueprint-register_all skills w
      ∙ include_blueprint-decorate valid cleandoc uses w
