-- ===== src/Skills/Blueprint.antt =====
-- A blueprint that is included, against the worker's own decorator.
use mathlib.Core.List.{append_assoc, append-nil}
use avtomatika_worker.Base.{ℕ, String, ◌≡◌, refl, sym, ap, ◌∙◌, Bool, List, [], ◌∷◌, ◌++◌}
use avtomatika_worker.Worker.{
  Worker, SkillInfo, Registered, registered, invalid_identifier, register_skill_handler,
  register_all,
}
use avtomatika_worker.Skills.{
  Func, complete_info, worker_decorator, blueprint_decorator, decorate_all, collect_all,
}

followed :
    (a b : Worker → Worker) (w : Worker) (r : Registered)
    → ((u : Worker) → a u ≡ b u)
    → elim r [ registered u ↦ a u | invalid_identifier name ↦ w ]
      ≡ elim r [ registered u ↦ b u | invalid_identifier name ↦ w ]
followed a b w (registered u) h = h u
followed a b w (invalid_identifier name) h = refl

module _ (valid : String → Bool) (cleandoc : String → String) where
  -- What a blueprint holds of the functions.
  abbrev completed : List (SkillInfo × Func) → List (SkillInfo × ℕ)
  completed [] = []
  completed ((info, func) ∷ uses) = (complete_info cleandoc func info, func.id) ∷ completed uses

  collects :
      (uses : List (SkillInfo × Func)) (skills : List (SkillInfo × ℕ))
      → collect_all cleandoc uses skills ≡ skills ++ completed uses
  unfolding collect_all blueprint_decorator
  collects [] skills = sym (append-nil skills)
  collects ((info, func) ∷ uses) skills =
      let done : SkillInfo × ℕ = (complete_info cleandoc func info, func.id) in
      collects uses (skills ++ (done ∷ [])) ∙ append_assoc skills (done ∷ []) (completed uses)

  registers_completed :
      (uses : List (SkillInfo × Func)) (w : Worker)
      → register_all valid (completed uses) w ≡ decorate_all valid cleandoc uses w
  unfolding register_all decorate_all worker_decorator
  registers_completed [] w = refl
  registers_completed ((info, func) ∷ uses) w =
      followed (λ u. register_all valid (completed uses) u)
        (λ u. decorate_all valid cleandoc uses u) w
        (register_skill_handler valid (complete_info cleandoc func info) func.id w)
        (registers_completed uses)

  -- Functions that are collected in a blueprint which a worker then includes leave the worker as
  -- the worker's own decorator on each of them does.
  pub include_blueprint-decorate :
      (uses : List (SkillInfo × Func)) (w : Worker)
      → register_all valid (collect_all cleandoc uses []) w ≡ decorate_all valid cleandoc uses w
  include_blueprint-decorate uses w =
      ap (λ skills. register_all valid skills w) (collects uses []) ∙ registers_completed uses w
