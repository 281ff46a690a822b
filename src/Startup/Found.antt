-- ===== src/Startup/Found.antt =====
-- worker.py: the skills of a file that `load_skills` finds.
use avtomatika_worker.Base.{
  String, ℕ, ◌≡◌, refl, sym, ap, ◌∙◌, subst, Bool, true, false, not, ◌&&◌, List, [], ◌∷◌, ◌++◌,
  arith, string_eq, All, All-append,
}
use avtomatika_worker.Base.Dict
use avtomatika_worker.Task.Call.{ok}
use avtomatika_worker.Worker.{
  Worker, SkillInfo, register_skill_handler, with_skill, skill_type_of, is_truthy,
}
use avtomatika_worker.Worker.Registry.{IsRegistry}
use avtomatika_worker.Offload.{Effect, Called, give, ◌>>◌}
use avtomatika_worker.Offload.Leads.{after}
use avtomatika_worker.Startup.{
  Attribute, blueprint, plain, Module, imported, SkillFile, is_skill_file, logged, include_skill,
  include_blueprint, include_attributes, run_setup, load_module, load_file, load_files, load_skills,
}
use avtomatika_worker.Startup.Loading.{
  Adds, give-Adds, has_skill, SetupAdds, include_skill-Adds, include_blueprint-Adds,
  include_attributes-Adds, load_file-Adds, load_files-Adds, load_files-next, load_files_ok,
  logged_same,
}

-- The skills of all blueprints of a module.
abbrev pub skills_of : List Attribute → List (SkillInfo × ℕ)
skills_of [] = []
skills_of (blueprint skills ∷ xs) = skills ++ skills_of xs
skills_of (plain ∷ xs) = skills_of xs

-- Every skill of the list has a handler.
abbrev pub HasAll : Worker → List (SkillInfo × ℕ) → Type 0
HasAll w = All (λ (info, func). has_skill info.name w ≡ true)

module _ (valid : String → Bool) where
  -- The registration does not refuse the skill's identifiers.
  abbrev pub IsAdmitted : SkillInfo × ℕ → Type 0
  IsAdmitted (info, func) =
      (valid info.name ≡ true) × ((is_truthy info.type && not (valid (skill_type_of info))) ≡ false)

  include_skill-admitted :
      (info : SkillInfo) (func : ℕ) (w : Worker)
      → IsAdmitted (info, func)
      → include_skill valid info func w ≡ (with_skill info func w, ok tt)
  unfolding include_skill register_skill_handler
  include_skill-admitted info func w (named, typed) = rw (named, typed) refl

  has_new_skill :
      (info : SkillInfo) (func : ℕ) (w : Worker)
      → has_skill info.name (with_skill info func w) ≡ true
  unfolding with_skill
  has_new_skill info func w = ground (
    arith,
    Dict.lookup-insert info.name info.name
        (record { func = func; info = info; type = skill_type_of info }) w.skill_handlers,
  )

  -- What `x` finds stays under `y`.
  stay :
      (skills : List (SkillInfo × ℕ)) (y : Effect Worker Unit) (w : Worker)
      → Adds y
      → IsRegistry w
      → HasAll w skills
      → HasAll (y w).0 skills
  stay [] y w a r h = tt
  stay ((info, func) ∷ skills) y w a r (here, there) =
      (a.stays w r info.name here, stay skills y w a r there)

  All-split :
      (ss ts : List (SkillInfo × ℕ))
      → All IsAdmitted (ss ++ ts)
      → All IsAdmitted ss × All IsAdmitted ts
  All-split [] ts h = (tt, h)
  All-split (s ∷ ss) ts (here, rest) = let (hs, ht) = All-split ss ts rest in ((here, hs), ht)

  -- The call ends well, and the skills are there.
  abbrev Finds : List (SkillInfo × ℕ) → Worker × Called → Type 0
  Finds skills (w, c) = (c ≡ ok tt) × HasAll w skills

  include_blueprint-Finds :
      (skills : List (SkillInfo × ℕ)) (w : Worker)
      → All IsAdmitted skills
      → IsRegistry w
      → Finds skills (include_blueprint valid skills w)
  unfolding include_blueprint give
  include_blueprint-Finds [] w h r = (refl, tt)
  include_blueprint-Finds ((info, func) ∷ skills) w (here, there) r =
      let first = include_skill-admitted info func w here in
      let u = with_skill info func w in
      let r' : IsRegistry u =
        subst (λ (q : Worker × Called). IsRegistry q.0) first
          ((include_skill-Adds valid info func).registry w r) in
      let (ends, found) = include_blueprint-Finds skills u there r' in
      subst (Finds ((info, func) ∷ skills))
        (sym (
          after (include_skill valid info func) (λ _. include_blueprint valid skills) w u tt first))
        (
          ends,
          (
            (include_blueprint-Adds valid skills).stays u r' info.name (has_new_skill info func w),
            found,
          ),
        )

  -- One call that finds its skills, and a second one.
  both-Finds :
      (ss ts : List (SkillInfo × ℕ)) (x y : Effect Worker Unit) (w : Worker)
      → Adds x
      → Adds y
      → IsRegistry w
      → Finds ss (x w)
      → ((u : Worker) → IsRegistry u → Finds ts (y u))
      → Finds (ss ++ ts) ((x >> (λ _. y)) w)
  both-Finds ss ts x y w a b r (ends, found) next =
      let u = (x w).0 in
      let r' = a.registry w r in
      let (ends', found') = next u r' in
      subst (Finds (ss ++ ts)) (sym (after x (λ _. y) w u tt (ap (λ (q : Called). (u, q)) ends)))
        (ends', All-append _ ss ts (stay ss y u b r' found) found')

  include_attributes-Finds :
      (xs : List Attribute) (w : Worker)
      → All IsAdmitted (skills_of xs)
      → IsRegistry w
      → Finds (skills_of xs) (include_attributes valid xs w)
  unfolding include_attributes give
  include_attributes-Finds [] w h r = (refl, tt)
  include_attributes-Finds (blueprint skills ∷ xs) w h r =
      let (hs, hxs) = All-split skills (skills_of xs) h in
      both-Finds skills (skills_of xs) _ _ w (include_blueprint-Adds valid skills)
        (include_attributes-Adds valid xs) r (include_blueprint-Finds skills w hs r)
        (λ u q. include_attributes-Finds xs u hxs q)
  include_attributes-Finds (plain ∷ xs) w h r =
      both-Finds [] (skills_of xs) (give tt) _ w give-Adds (include_attributes-Adds valid xs) r
        (refl, tt) (λ u q. include_attributes-Finds xs u h q)

  module _ (file : SkillFile) (m : Module) where
    -- The file with its module, whose blueprints are admitted.
    pub record IsGood : Type 0 where
      pub named : is_skill_file file.filename ≡ true
      pub loads : file.content ≡ imported m
      pub admitted : All IsAdmitted (skills_of m.attributes)

    load_file-good : (w : Worker) → IsGood → load_file valid file w ≡ logged (load_module valid m w)
    unfolding load_file
    load_file-good w g = rw (g.named, g.loads) refl

    load_module-HasAll :
        (w : Worker)
        → IsGood
        → Adds (run_setup valid m.setup)
        → IsRegistry w
        → HasAll (load_module valid m w).0 (skills_of m.attributes)
    unfolding load_module
    load_module-HasAll w g a r =
        let x = include_attributes valid m.attributes in
        let setup = run_setup valid m.setup in
        let (ends, found) = include_attributes-Finds m.attributes w g.admitted r in
        let u = (x w).0 in
        subst (λ (q : Worker × Called). HasAll q.0 (skills_of m.attributes))
          (sym (after x (λ _. setup) w u tt (ap (λ (q : Called). (u, q)) ends)))
          (stay (skills_of m.attributes) setup u a
            ((include_attributes-Adds valid m.attributes).registry w r) found)

    load_file-HasAll :
        (w : Worker)
        → IsGood
        → SetupAdds valid file.content
        → IsRegistry w
        → HasAll (load_file valid file w).0 (skills_of m.attributes)
    load_file-HasAll w g h r =
        subst (λ u. HasAll u (skills_of m.attributes))
          (sym (
            ap (λ (q : Worker × Called). q.0) (load_file-good w g)
            ∙ logged_same (load_module valid m w)))
          (load_module-HasAll w g (subst (SetupAdds valid) g.loads h) r)

    load_files-HasAll :
        (before later : List SkillFile) (w : Worker)
        → All (λ (f : SkillFile). SetupAdds valid f.content) (before ++ (file ∷ later))
        → IsGood
        → IsRegistry w
        → HasAll (load_files valid (before ++ (file ∷ later)) w).0 (skills_of m.attributes)
    load_files-HasAll [] later w h g r =
        subst (λ (q : Worker × Called). HasAll q.0 (skills_of m.attributes))
          (sym (load_files-next valid file later w h.0))
          (stay (skills_of m.attributes) (load_files valid later) _
            (load_files-Adds valid later h.1) ((load_file-Adds valid file h.0).registry w r)
            (load_file-HasAll w g h.0 r))
    load_files-HasAll (f ∷ before) later w h g r =
        subst (λ (q : Worker × Called). HasAll q.0 (skills_of m.attributes))
          (sym (load_files-next valid f (before ++ (file ∷ later)) w h.0))
          (load_files-HasAll before later _ h.1 g ((load_file-Adds valid f h.0).registry w r))

  -- For a folder that exists, with files whose imports and setups are not cancelled and whose
  -- setups keep the registry and its skills, the loading ends without an exception, leaves a
  -- well-formed registry, and has a handler for every skill in the blueprints of a skill file
  -- whose names and types are valid, whatever the other files do.
  pub load_skills_finds :
      (before later : List SkillFile) (file : SkillFile) (m : Module) (w : Worker)
      → All (λ (f : SkillFile). SetupAdds valid f.content) (before ++ (file ∷ later))
      → IsGood file m
      → IsRegistry w
      → let (u, end) = load_skills valid true (before ++ (file ∷ later)) w in
        (end ≡ ok tt) × IsRegistry u × HasAll u (skills_of m.attributes)
  unfolding load_skills
  load_skills_finds before later file m w h g r =
      let files = before ++ (file ∷ later) in
      (
        load_files_ok valid files w h,
        (load_files-Adds valid files h).registry w r,
        load_files-HasAll file m before later w h g r,
      )
