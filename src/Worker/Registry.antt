-- ===== src/Worker/Registry.antt =====
-- The registry of skills: what its names, its handlers and the loads' entries owe each other.
use avtomatika_worker.Base.{
  ◌≡◌, refl, ◌≢◌, String, ℕ, Bool, true, some, [], ◌∷◌, arith, All, string_eq,
}
use avtomatika_worker.Base.Dict
use avtomatika_worker.Base.Dict.{Dict, NodupKeys}
use avtomatika_worker.Base.Int.{ℤ, pos}
use avtomatika_worker.Worker.{
  Worker, Handler, SkillInfo, registered, register_skill_handler, with_skill, with_load_entry,
  skill_type_of, load_of,
}

abbrev pub IsNamed : Dict String Handler → Type 0
IsNamed = All (λ (k, h). h.info.name ≡ k)

pub record IsRegistry (w : Worker) : Type 0 where
  pub named : IsNamed w.skill_handlers
  pub nodup : NodupKeys w.skill_handlers
  pub entries :
      (name : String) (h : Handler)
      → Dict.lookup name w.skill_handlers ≡ some h
      → h.type ≢ ""
      → Dict.has_key h.type w.current_load_by_type ≡ true

insert-IsNamed :
    (h : Handler) (d : Dict String Handler) → IsNamed d → IsNamed (Dict.insert h.info.name h d)
unfolding Dict.insert
insert-IsNamed h [] n = (refl, tt)
insert-IsNamed h ((k, g) ∷ d) n = ground (arith, insert-IsNamed h d n.1)

has_key-with_load_entry :
    (t j : String) (loads : Dict String ℤ)
    → Dict.has_key j loads ≡ true
    → Dict.has_key j (with_load_entry t loads) ≡ true
unfolding with_load_entry
has_key-with_load_entry t j loads h = ground (arith, Dict.lookup-insert j t (pos 0) loads)

has_key-with_load_entry_self :
    (t : String) (loads : Dict String ℤ) → t ≢ "" → Dict.has_key t (with_load_entry t loads) ≡ true
unfolding with_load_entry
has_key-with_load_entry_self t loads h = ground (arith, Dict.lookup-insert t t (pos 0) loads)

module _ (info : SkillInfo) (func : ℕ) (w : Worker) where
  with_skill-entries :
      IsRegistry w
      → (name : String) (h : Handler)
      → Dict.lookup name (with_skill info func w).skill_handlers ≡ some h
      → h.type ≢ ""
      → Dict.has_key h.type (with_skill info func w).current_load_by_type ≡ true
  unfolding with_skill
  with_skill-entries r name h found filled =
      let is_new : Handler = record { func = func; info = info; type = skill_type_of info } in
      ground (
        arith,
        Dict.lookup-insert name info.name is_new w.skill_handlers,
        r.entries name h,
        has_key-with_load_entry (skill_type_of info) h.type w.current_load_by_type,
        has_key-with_load_entry_self (skill_type_of info) w.current_load_by_type,
      )

  with_skill-IsRegistry : IsRegistry w → IsRegistry (with_skill info func w)
  unfolding with_skill
  with_skill-IsRegistry r =
      let h : Handler = record { func = func; info = info; type = skill_type_of info } in
      record {
        named = insert-IsNamed h w.skill_handlers r.named;
        nodup = Dict.insert-NodupKeys info.name h w.skill_handlers r.nodup;
        entries = with_skill-entries r;
      }

  with_skill-lookup :
      Dict.lookup info.name (with_skill info func w).skill_handlers
      ≡ some (record { func = func; info = info; type = skill_type_of info })
  unfolding with_skill
  with_skill-lookup =
      let h : Handler = record { func = func; info = info; type = skill_type_of info } in
      ground (arith, Dict.lookup-insert info.name info.name h w.skill_handlers)

-- A registration that is accepted keeps the registry well formed, and stores the handler under the
-- skill's name with the skill's type, or its name where it has no type.
pub register_skill_handler-IsRegistry :
    (valid : String → Bool) (info : SkillInfo) (func : ℕ) (w u : Worker)
    → IsRegistry w
    → register_skill_handler valid info func w ≡ registered u
    → IsRegistry u
      × (Dict.lookup info.name u.skill_handlers
          ≡ some (record { func = func; info = info; type = skill_type_of info }))
unfolding register_skill_handler
register_skill_handler-IsRegistry valid info func w u r e =
    let is_u : with_skill info func w ≡ u = ground arith in
    rw (← is_u) (with_skill-IsRegistry info func w r, with_skill-lookup info func w)

load_of-with_load_entry :
    (t j : String) (loads : Dict String ℤ) → load_of j (with_load_entry t loads) ≡ load_of j loads
unfolding with_load_entry
load_of-with_load_entry t j loads = ground (arith, Dict.lookup-insert j t (pos 0) loads)

-- A registration leaves every load as it was: a type that gets an entry had none, which counts as 0.
pub register_skill_handler-load_of :
    (valid : String → Bool) (info : SkillInfo) (func : ℕ) (w u : Worker)
    → register_skill_handler valid info func w ≡ registered u
    → (u.current_load ≡ w.current_load)
      × ((j : String) → load_of j u.current_load_by_type ≡ load_of j w.current_load_by_type)
unfolding register_skill_handler with_skill
register_skill_handler-load_of valid info func w u e =
    let is_u : with_skill info func w ≡ u = ground arith in
    rw (← is_u) (refl, λ j. load_of-with_load_entry (skill_type_of info) j w.current_load_by_type)
