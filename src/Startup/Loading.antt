-- ===== src/Startup/Loading.antt =====
-- worker.py: which skills a worker has after `load_skills`, whatever some of the files do.
use avtomatika_worker.Base.{
  String, ℕ, ◌≡◌, refl, sym, ap, ◌∙◌, subst, Bool, true, false, List, [], ◌∷◌, arith, string_eq,
  All, if◌then◌else◌, Bool-cases, inl, inr,
}
use avtomatika_worker.Base.Dict
use avtomatika_worker.Task.Call.{ok, raise, cancelled}
use avtomatika_worker.Worker.{
  Worker, SkillInfo, Handler, Registered, registered, invalid_identifier, register_skill_handler,
  with_skill, skill_type_of,
}
use avtomatika_worker.Worker.Registry.{IsRegistry, register_skill_handler-IsRegistry}
use avtomatika_worker.Offload.{Effect, Called, give, then_do, ◌>>◌}
use avtomatika_worker.Offload.Leads.{after}
use avtomatika_worker.Startup.{
  Attribute, blueprint, plain, Module, Import, no_loader, imported, import_fails, SkillFile,
  is_skill_file, logged, register, include_skill, include_blueprint, include_attribute,
  include_attributes, run_setup, load_module, load_content, load_file, load_files,
}

-- A call that was not cancelled.
abbrev pub IsUncancelled : Called → Type 0
IsUncancelled (ok a) = Unit
IsUncancelled (raise cancelled) = ⊥
IsUncancelled (raise x) = Unit

abbrev pub has_skill : String → Worker → Bool
has_skill name w = Dict.has_key name w.skill_handlers

-- From a worker with a well-formed registry the code leaves one, takes no skill away, and is not
-- cancelled.
pub record Adds (x : Effect Worker Unit) : Type 0 where
  pub registry : (w : Worker) → IsRegistry w → IsRegistry (x w).0
  pub stays :
      (w : Worker)
      → IsRegistry w
      → (name : String) → has_skill name w ≡ true
      → has_skill name (x w).0 ≡ true
  pub uncancelled : (w : Worker) → IsUncancelled (x w).1

pub give-Adds : Adds (give tt)
unfolding give
give-Adds = record { registry = λ w r. r; stays = λ w r name h. h; uncancelled = λ w. tt }

module _ (f : Effect Worker Unit) (a : Adds f) where
  followed-IsRegistry : (r : Worker × Called) → IsRegistry r.0 → IsRegistry (then_do (λ _. f) r).0
  followed-IsRegistry (w, ok tt) h = a.registry w h
  followed-IsRegistry (w, raise x) h = h

  followed_stays :
      (r : Worker × Called) (name : String)
      → IsRegistry r.0
      → has_skill name r.0 ≡ true
      → has_skill name (then_do (λ _. f) r).0 ≡ true
  followed_stays (w, ok tt) name g h = a.stays w g name h
  followed_stays (w, raise x) name g h = h

  followed-IsUncancelled :
      (r : Worker × Called) → IsUncancelled r.1 → IsUncancelled (then_do (λ _. f) r).1
  followed-IsUncancelled (w, ok tt) h = a.uncancelled w
  followed-IsUncancelled (w, raise x) h = h

  then-Adds : (x : Effect Worker Unit) → Adds x → Adds (x >> (λ _. f))
  unfolding ◌>>◌
  then-Adds x b = record {
    registry = λ w r. followed-IsRegistry (x w) (b.registry w r);
    stays = λ w r name h. followed_stays (x w) name (b.registry w r) (b.stays w r name h);
    uncancelled = λ w. followed-IsUncancelled (x w) (b.uncancelled w);
  }

pub logged_same : (r : Worker × Called) → (logged r).0 ≡ r.0
logged_same (w, ok a) = refl
logged_same (w, raise cancelled) = refl
logged_same (w, raise x) = refl

logged_ok : (r : Worker × Called) → IsUncancelled r.1 → (logged r).1 ≡ ok tt
logged_ok (w, ok a) h = refl
logged_ok (w, raise cancelled) h = absurd h
logged_ok (w, raise x) h = refl

logged-Adds : (x : Effect Worker Unit) → Adds x → Adds (λ w. logged (x w))
logged-Adds x b = record {
  registry = λ w r. subst IsRegistry (sym (logged_same (x w))) (b.registry w r);
  stays = λ w r name h.
      subst (λ u. has_skill name u ≡ true) (sym (logged_same (x w))) (b.stays w r name h);
  uncancelled = λ w. subst IsUncancelled (sym (logged_ok (x w) (b.uncancelled w))) tt;
}

module _ (valid : String → Bool) where
  register-IsRegistry :
      (info : SkillInfo) (func : ℕ) (w : Worker) (r : Registered)
      → register_skill_handler valid info func w ≡ r
      → IsRegistry w
      → IsRegistry (register r w).0
  register-IsRegistry info func w (registered u) e h =
      (register_skill_handler-IsRegistry valid info func w u h e).0
  register-IsRegistry info func w (invalid_identifier name) e h = h

  register_stays :
      (info : SkillInfo) (func : ℕ) (w : Worker) (r : Registered) (name : String)
      → register_skill_handler valid info func w ≡ r
      → has_skill name w ≡ true
      → has_skill name (register r w).0 ≡ true
  unfolding register_skill_handler with_skill
  register_stays info func w (registered u) name e h =
      let is_u : with_skill info func w ≡ u = ground arith in
      let is_new : Handler = record { func = func; info = info; type = skill_type_of info } in
      rw (← is_u) (ground (arith, h, Dict.lookup-insert name info.name is_new w.skill_handlers))
  register_stays info func w (invalid_identifier n) name e h = h

  register-IsUncancelled : (w : Worker) (r : Registered) → IsUncancelled (register r w).1
  register-IsUncancelled w (registered u) = tt
  register-IsUncancelled w (invalid_identifier name) = tt

  pub include_skill-Adds : (info : SkillInfo) (func : ℕ) → Adds (include_skill valid info func)
  unfolding include_skill
  include_skill-Adds info func = record {
    registry = λ w h. register-IsRegistry info func w _ refl h;
    stays = λ w h name s. register_stays info func w _ name refl s;
    uncancelled = λ w. register-IsUncancelled w _;
  }

  pub include_blueprint-Adds :
      (skills : List (SkillInfo × ℕ)) → Adds (include_blueprint valid skills)
  unfolding include_blueprint
  include_blueprint-Adds [] = give-Adds
  include_blueprint-Adds ((info, func) ∷ skills) =
      then-Adds _ (include_blueprint-Adds skills) _ (include_skill-Adds info func)

  include_attribute-Adds : (x : Attribute) → Adds (include_attribute valid x)
  include_attribute-Adds (blueprint skills) = include_blueprint-Adds skills
  include_attribute-Adds plain = give-Adds

  pub include_attributes-Adds : (xs : List Attribute) → Adds (include_attributes valid xs)
  unfolding include_attributes
  include_attributes-Adds [] = give-Adds
  include_attributes-Adds (x ∷ xs) =
      then-Adds _ (include_attributes-Adds xs) _ (include_attribute-Adds x)

  -- A `setup`, if there is one, that is well behaved.
  abbrev pub SetupAdds : Import → Type 0
  SetupAdds no_loader = Unit
  SetupAdds (import_fails x) = IsUncancelled (raise x)
  SetupAdds (imported m) = Adds (run_setup valid m.setup)

  pub load_module-Adds : (m : Module) → Adds (run_setup valid m.setup) → Adds (load_module valid m)
  unfolding load_module
  load_module-Adds m h = then-Adds _ h _ (include_attributes-Adds m.attributes)

  load_content-Adds : (c : Import) → SetupAdds c → Adds (load_content valid c)
  load_content-Adds no_loader h = give-Adds
  load_content-Adds (import_fails x) h =
      logged-Adds (λ w. (w, raise x))
        (record { registry = λ w r. r; stays = λ w r name s. s; uncancelled = λ w. h })
  load_content-Adds (imported m) h = logged-Adds (load_module valid m) (load_module-Adds m h)

  load_content_ok : (c : Import) → SetupAdds c → (w : Worker) → (load_content valid c w).1 ≡ ok tt
  unfolding give
  load_content_ok no_loader h w = refl
  load_content_ok (import_fails x) h w = logged_ok (w, raise x) h
  load_content_ok (imported m) h w =
      logged_ok (load_module valid m w) ((load_module-Adds m h).uncancelled w)

  either-Adds : (b : Bool) (x y : Effect Worker Unit) → Adds x → Adds y → Adds (if b then x else y)
  either-Adds true x y g h = g
  either-Adds false x y g h = h

  pub load_file-Adds : (file : SkillFile) → SetupAdds file.content → Adds (load_file valid file)
  unfolding load_file
  load_file-Adds file h =
      either-Adds (is_skill_file file.filename) _ _ (load_content-Adds file.content h) give-Adds

  load_file_ok :
      (file : SkillFile)
      → SetupAdds file.content
      → (w : Worker) → (load_file valid file w).1 ≡ ok tt
  unfolding load_file give
  load_file_ok file h w = elim (Bool-cases (is_skill_file file.filename)) [
    | inl taken ↦ rw (taken) (load_content_ok file.content h w)
    | inr skipped ↦ rw (skipped) refl
  ]

  pub load_files-Adds :
      (files : List SkillFile)
      → All (λ (file : SkillFile). SetupAdds file.content) files
      → Adds (load_files valid files)
  unfolding load_files
  load_files-Adds [] h = give-Adds
  load_files-Adds (file ∷ files) h =
      then-Adds _ (load_files-Adds files h.1) _ (load_file-Adds file h.0)

  -- The rest of the files is loaded after a file that did what it would.
  pub load_files-next :
      (file : SkillFile) (files : List SkillFile) (w : Worker)
      → SetupAdds file.content
      → load_files valid (file ∷ files) w ≡ load_files valid files (load_file valid file w).0
  unfolding load_files
  load_files-next file files w h =
      after (load_file valid file) (λ _. load_files valid files) w (load_file valid file w).0 tt
        (ap (λ (q : Called). ((load_file valid file w).0, q)) (load_file_ok file h w))

  pub load_files_ok :
      (files : List SkillFile) (w : Worker)
      → All (λ (file : SkillFile). SetupAdds file.content) files
      → (load_files valid files w).1 ≡ ok tt
  unfolding load_files give
  load_files_ok [] w h = refl
  load_files_ok (file ∷ files) w h =
      ap (λ (q : Worker × Called). q.1) (load_files-next file files w h.0)
      ∙ load_files_ok files _ h.1
