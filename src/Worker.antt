-- ===== src/Worker.antt =====
-- worker.py: the state that `Worker` keeps for its skills and its load, the registration of a
-- skill, the hot set, and `_get_current_state`, which sorts the skills into three tiers.
pub mod Offers
pub mod Tiers
pub mod Registry
use avtomatika_worker.Base.{
  ℕ, String, ◌≡◌, Bool, true, false, not, ◌&&◌, ◌||◌, Option, none, some, List, [], ◌∷◌, ◌++◌, map,
  ◌==◌, string_eq, contains, is_subset, filter, if◌then◌else◌,
}
use avtomatika_worker.Base.Dict
use avtomatika_worker.Base.Dict.{Dict}
use avtomatika_worker.Base.Int.{ℤ, pos, ltb_ℤ}
use avtomatika_worker.Json.{Json}

-- rxon's `SkillInfo`, as far as the worker reads it.
pub record SkillInfo : Type 0 where
  pub name : String
  pub type : Option String
  pub description : Option String
  pub version : Option String
  pub input_schema : Option Json
  pub output_schema : Option Json
  pub events_schema : Option (Dict String Json)

-- The dict that `_skill_handlers` holds for a name. `func` names the user's callable.
pub record Handler : Type 0 where
  pub func : ℕ
  pub info : SkillInfo
  pub type : String

-- The fields of `Worker` that the skills, the load and the running tasks use.
pub record Worker : Type 0 where
  pub max_concurrent_tasks : ℕ
  pub skill_type_limits : Dict String ℕ
  pub skill_handlers : Dict String Handler
  pub skill_dependencies : Dict String (List String)
  pub capacity_checker : Option (String → Bool)
  pub current_load : ℤ
  pub current_load_by_type : Dict String ℤ
  pub hot_skills_state : List String
  pub active_tasks : Dict String ℕ

-- `dict.fromkeys(limits, 0)`
unfoldable pub zero_loads : Dict String ℕ → Dict String ℤ
zero_loads [] = []
zero_loads ((t, _) ∷ limits) = Dict.insert t (pos 0) (zero_loads limits)

-- `__init__`, for these fields.
unfoldable pub new_worker :
    ℕ → Dict String ℕ → Dict String (List String) → Option (String → Bool) → Worker
new_worker max_concurrent_tasks limits dependencies checker = record {
  max_concurrent_tasks = max_concurrent_tasks;
  skill_type_limits = limits;
  skill_handlers = [];
  skill_dependencies = dependencies;
  capacity_checker = checker;
  current_load = pos 0;
  current_load_by_type = zero_loads limits;
  hot_skills_state = [];
  active_tasks = [];
}

-- Python's truth of an optional text: `None` and "" are false.
abbrev pub is_truthy : Option String → Bool
is_truthy none = false
is_truthy (some s) = not (s == "")

-- `info.type or info.name`
abbrev pub skill_type_of : SkillInfo → String
skill_type_of info = elim info.type [ none ↦ info.name | some t ↦ if t == "" then info.name else t ]

pub data Registered : Type 0 where
  registered : Worker → Registered
  invalid_identifier : String → Registered

-- `if t not in loads: loads[t] = 0`, for a non-empty `t`.
pub with_load_entry : String → Dict String ℤ → Dict String ℤ
with_load_entry t loads =
    if not (t == "") && not (Dict.has_key t loads) then Dict.insert t (pos 0) loads else loads

-- The end of `_register_skill_handler`: the entry in the loads, and the handler.
unfoldable pub with_skill : SkillInfo → ℕ → Worker → Worker
unfolding with_load_entry
with_skill info func w = record w {
  current_load_by_type = with_load_entry (skill_type_of info) w.current_load_by_type;
  skill_handlers =
      Dict.insert info.name (record { func = func; info = info; type = skill_type_of info })
        w.skill_handlers;
}

-- `_register_skill_handler`, over rxon's identifier check. A ValueError leaves the worker as it was.
unfoldable pub register_skill_handler : (String → Bool) → SkillInfo → ℕ → Worker → Registered
register_skill_handler valid info func w =
    if not (valid info.name)
    then invalid_identifier info.name
    else if is_truthy info.type && not (valid (skill_type_of info))
    then invalid_identifier (skill_type_of info)
    else registered (with_skill info func w)

-- Registrations in a row, up to the first one that raises.
unfoldable pub register_all : (String → Bool) → List (SkillInfo × ℕ) → Worker → Worker
register_all valid [] w = w
register_all valid ((info, func) ∷ skills) w = elim (register_skill_handler valid info func w) [
  | registered u ↦ register_all valid skills u
  | invalid_identifier name ↦ w
]

-- `add_to_hot_skills` and `remove_from_hot_skills`, less the heartbeat that both schedule.
unfoldable pub add_to_hot_skills : String → Worker → Worker
add_to_hot_skills item w = record w {
  hot_skills_state =
      if contains w.hot_skills_state item
      then w.hot_skills_state
      else w.hot_skills_state ++ (item ∷ []);
}

unfoldable pub remove_from_hot_skills : String → Worker → Worker
remove_from_hot_skills item w = record w {
  hot_skills_state = filter (λ x. not (x == item)) w.hot_skills_state;
}

pub data Status : Type 0 where
  idle busy full : Status

pub record State : Type 0 where
  pub status : Status
  pub supported_skills : List SkillInfo
  pub available_skills : List SkillInfo
  pub hot_skills : List SkillInfo

-- `loads.get(t, 0)`
abbrev pub load_of : String → Dict String ℤ → ℤ
load_of t loads = elim (Dict.lookup t loads) [ none ↦ pos 0 | some n ↦ n ]

-- The limit of the skill's type leaves room for one more task.
pub has_room : Worker → String → Bool
has_room w t = if t == "" then true else elim (Dict.lookup t w.skill_type_limits) [
  | none ↦ true
  | some limit ↦ ltb_ℤ (load_of t w.current_load_by_type) (pos limit)
]

abbrev pub accepts : Option (String → Bool) → String → Bool
accepts none name = true
accepts (some check) name = check name

-- `is_available` in the loop of `_get_current_state`
unfoldable pub is_available : Worker → Handler → Bool
unfolding has_room
is_available w h = has_room w h.type && accepts w.capacity_checker h.info.name

-- `is_hot` in the loop of `_get_current_state`: a skill with dependencies is hot when it has some
-- and all of them are, and one without is hot when it is itself.
unfoldable pub is_hot : Worker → String → Bool
is_hot w name = elim (Dict.lookup name w.skill_dependencies) [
  | none ↦ contains w.hot_skills_state name
  | some [] ↦ false
  | some (d ∷ deps) ↦ is_subset (d ∷ deps) w.hot_skills_state
]

-- The loop over the handlers, which appends to the two lists.
unfoldable pub collect_skills :
    Worker → List Handler → List SkillInfo → List SkillInfo → List SkillInfo × List SkillInfo
collect_skills w [] available hot = (available, hot)
collect_skills w (h ∷ hs) available hot =
    let ok = is_available w h in
    collect_skills w hs (if ok then available ++ (h.info ∷ []) else available)
      (if ok && is_hot w h.info.name then hot ++ (h.info ∷ []) else hot)

-- `self._skill_handlers.values()`
abbrev pub handlers : Worker → List Handler
handlers w = map (λ (_, h). h) w.skill_handlers

abbrev pub is_at_capacity : Worker → Bool
is_at_capacity w = not (ltb_ℤ w.current_load (pos w.max_concurrent_tasks))

abbrev pub status_of : List SkillInfo → Status
status_of [] = busy
status_of (_ ∷ _) = idle

unfoldable pub get_current_state : Worker → State
unfolding collect_skills
get_current_state w =
    let supported = map (λ (h : Handler). h.info) (handlers w) in
    if is_at_capacity w
    then record {
      status = full;
      supported_skills = supported;
      available_skills = [];
      hot_skills = [];
    }
    else let (available, hot) = collect_skills w (handlers w) [] [] in
      record {
        status = status_of available;
        supported_skills = supported;
        available_skills = available;
        hot_skills = hot;
      }
