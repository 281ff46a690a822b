-- ===== src/Skills/Reuse.antt =====
-- A decorator that is used for more than one function.
use avtomatika_worker.Base.{
  ℕ, String, ◌≡◌, ap, subst, Bool, false, Option, none, some, ◌==◌, string_eq, arith,
}
use avtomatika_worker.Base.Dict
use avtomatika_worker.Worker.{Worker, Handler, SkillInfo, registered}
use avtomatika_worker.Worker.Registry.{IsRegistry, register_skill_handler-IsRegistry}
use avtomatika_worker.Skills.{Func, complete_info, worker_decorator}

-- The function of the handler that a worker has under a name.
abbrev pub func_of : String → Worker → Option ℕ
func_of name w = elim (Dict.lookup name w.skill_handlers) [ none ↦ none | some h ↦ some h.func ]

module _ (valid : String → Bool) (cleandoc : String → String) where
  completed-name :
      (f g : Func) (info : SkillInfo)
      → info.name ≡ ""
      → (f.name == "") ≡ false
      → (complete_info cleandoc g (complete_info cleandoc f info)).name ≡ f.name
  unfolding complete_info
  completed-name f g info no_name h = ground (arith, no_name, h)

  -- Where a decorator without a name is used for a named function f and then for a function g, and
  -- the worker that has a well-formed registry takes the second one, g is the handler under the
  -- name of f.
  pub decorator_keeps_first_name :
      (f g : Func) (info : SkillInfo) (u v w : Worker)
      → IsRegistry u
      → info.name ≡ ""
      → (f.name == "") ≡ false
      → let (kept, first) = worker_decorator valid cleandoc f info w in
        (worker_decorator valid cleandoc g kept u).1 ≡ registered v → func_of f.name v ≡ some g.id
  unfolding worker_decorator
  decorator_keeps_first_name f g info u v w r no_name h e =
      let twice = complete_info cleandoc g (complete_info cleandoc f info) in
      let (_, found) = register_skill_handler-IsRegistry valid twice g.id u v r e in
      subst (λ name. func_of name v ≡ some g.id) (completed-name f g info no_name h)
        (ap (λ (o : Option Handler). elim o [ none ↦ none | some h ↦ some h.func ]) found)
