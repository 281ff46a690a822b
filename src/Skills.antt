-- ===== src/Skills.antt =====
-- worker.py: the decorators `Worker.skill` and `SkillBlueprint.skill`, and what they make of a
-- function; and the schema of a dataclass.
pub mod Blueprint
pub mod Reuse
pub mod Schema
use avtomatika_worker.Base.{
  ℕ, String, Bool, true, false, not, ◌&&◌, ◌||◌, Option, none, some, List, [], ◌∷◌, ◌++◌, map, ◌==◌,
  string_eq, contains, starts_with, if◌then◌else◌,
}
use avtomatika_worker.Base.Dict
use avtomatika_worker.Base.Dict.{Dict}
use avtomatika_worker.Json.{
  Json, Items, Fields, null, bool, num, str, arr, obj, nil, cons, end, field,
}
use avtomatika_worker.Worker.{
  Worker, SkillInfo, Registered, registered, invalid_identifier, register_skill_handler,
  register_all,
}
use avtomatika_worker.Task.Call.{Default, missing, empty, value, Try, ok, raise, ◌>>=◌}

-- What the decorators read of a function: its name, its docstring, the version of its module, and the
-- schemas that are inferred from its hints. `id` tells functions apart.
pub record Func : Type 0 where
  pub id : ℕ
  pub name : String
  pub doc : Option String
  pub module_version : Option String
  pub params_schema : Option Json
  pub return_schema : Option Json

-- Keyword arguments have values in V. A class of skill infos has field names, and its constructor is
-- called with arguments for them, or, in a subclass made for them, also with further ones.
pub record SkillClass (V : Type 0) : Type 0 where
  pub field_names : List String
  pub construct : Dict String V → Try SkillInfo
  pub construct_dynamic : Dict String V → Dict String V → Try SkillInfo
  pub field_values : SkillInfo → Dict String V

-- The values of keyword arguments: a text as one, the schema of one (`worker_extract_json_schema`),
-- and that of each value of a dict, where it is one.
pub record Kwargs (V : Type 0) : Type 0 where
  pub text : String → V
  pub extract_json_schema : V → V
  pub extract_each : V → V

-- The argument `info`: a class, an instance with its class, a text, or none.
pub data InfoArg (V : Type 0) : Type 0 where
  class : SkillClass V → InfoArg V
  instance_of : SkillClass V → SkillInfo → InfoArg V
  named : String → InfoArg V
  absent : InfoArg V

module _ {V : Type 0} (k : Kwargs V) where
  unfoldable pub kwargs_in : Bool → List String → Dict String V → Dict String V
  kwargs_in known names [] = []
  kwargs_in known names ((n, v) ∷ kw) =
      let rest = kwargs_in known names kw in
      let is_known = contains names n in
      if (if known then is_known else not is_known) then (n, v) ∷ rest else rest

  -- `if key in kwargs: kwargs[key] = f(kwargs[key])`
  unfoldable pub mapped : String → (V → V) → Dict String V → Dict String V
  mapped key f kw = elim (Dict.lookup key kw) [ none ↦ kw | some v ↦ Dict.insert key (f v) kw ]

  unfoldable pub with_schemas : Dict String V → Dict String V
  with_schemas kw = mapped "events_schema" k.extract_each (
      mapped "output_schema" k.extract_json_schema (mapped "input_schema" k.extract_json_schema kw))

  unfoldable pub default_name : Bool → Dict String V → Dict String V
  default_name has_name kw = if has_name then kw else Dict.insert "name" (k.text "") kw

  -- The class by whether there are further arguments.
  abbrev pub construct_with : SkillClass V → Dict String V → Dict String V → Try SkillInfo
  construct_with c base [] = c.construct (default_name (Dict.has_key "name" base) base)
  construct_with c base (e ∷ extra) =
      c.construct_dynamic
        (default_name (Dict.has_key "name" base || Dict.has_key "name" (e ∷ extra)) base)
        (e ∷ extra)

  unfoldable pub create_dynamic_skill_object : SkillClass V → Dict String V → Try SkillInfo
  create_dynamic_skill_object c init =
      construct_with c (with_schemas (kwargs_in true c.field_names init))
        (kwargs_in false c.field_names init)

  -- The class and the keyword arguments by `info`. Those of an instance replace the ones given.
  abbrev pub target : SkillClass V → InfoArg V → Dict String V → SkillClass V × Dict String V
  target own (class c) kw = (c, kw)
  target own (instance_of c info) kw = (c, Dict.update kw (c.field_values info))
  target own (named s) kw =
      let with_name = Dict.insert "name" (k.text s) kw in
      (
        own,
        if Dict.has_key "type" with_name
            then with_name
            else Dict.insert "type" (k.text s) with_name,
      )
  target own absent kw = (own, kw)

  -- `base_info`, before the function is known.
  unfoldable pub base_info_of : SkillClass V → InfoArg V → Dict String V → Try SkillInfo
  base_info_of own info kw =
      let (c, init) = target own info kw in create_dynamic_skill_object c init

-- `if inferred`: a schema is a dict, and an empty one is false.
abbrev pub non_empty : Option Json → Option Json
non_empty none = none
non_empty (some (obj end)) = none
non_empty (some v) = some v

-- `if base_info.<field> is None and value: replace(...)`
abbrev pub or_inferred {ℓ} : {A : Type ℓ} → Option A → Option A → Option A
or_inferred none v = v
or_inferred (some u) v = some u

abbrev pub cleaned : (String → String) → Option String → Option String
cleaned cleandoc none = none
cleaned cleandoc (some d) = if d == "" then none else some (cleandoc d)

-- The first part of `decorator`: what the function says in place of what is missing.
unfoldable pub complete_info : (String → String) → Func → SkillInfo → SkillInfo
complete_info cleandoc func info = record info {
  name = if info.name == "" then func.name else info.name;
  description = or_inferred info.description (cleaned cleandoc func.doc);
  version = or_inferred info.version func.module_version;
  input_schema = or_inferred info.input_schema (non_empty func.params_schema);
  output_schema = or_inferred info.output_schema (non_empty func.return_schema);
}

module _ (valid : String → Bool) (cleandoc : String → String) where
  -- The decorator that `Worker.skill` returns. It keeps `base_info`, which a call changes.
  unfoldable pub worker_decorator : Func → SkillInfo → Worker → SkillInfo × Registered
  worker_decorator func base_info w =
      let info = complete_info cleandoc func base_info in
      (info, register_skill_handler valid info func.id w)

  -- Functions with a decorator each, up to the first one that raises.
  unfoldable pub decorate_all : List (SkillInfo × Func) → Worker → Worker
  decorate_all [] w = w
  decorate_all ((base_info, func) ∷ uses) w = elim (worker_decorator func base_info w).1 [
    | registered u ↦ decorate_all uses u
    | invalid_identifier name ↦ w
  ]

module _ (cleandoc : String → String) where
  -- The decorator that `SkillBlueprint.skill` returns.
  unfoldable pub blueprint_decorator :
      Func → SkillInfo → List (SkillInfo × ℕ) → SkillInfo × List (SkillInfo × ℕ)
  blueprint_decorator func base_info skills =
      let info = complete_info cleandoc func base_info in (info, skills ++ ((info, func.id) ∷ []))

  unfoldable pub collect_all : List (SkillInfo × Func) → List (SkillInfo × ℕ) → List (SkillInfo × ℕ)
  collect_all [] skills = skills
  collect_all ((base_info, func) ∷ uses) skills =
      collect_all uses (blueprint_decorator func base_info skills).1

-- A field of a dataclass: its name, its two defaults, its schema where one is extracted, and its type,
-- a union of either kind that has NoneType among its members or not, or another one. In a module with
-- postponed annotations the type is a text, and so another one.
pub data Hint : Type 0 where
  union_type : Bool → Hint
  typing_union : Bool → Hint
  no_union : Hint

pub record SchemaField : Type 0 where
  pub name : String
  pub default : Default
  pub default_factory : Default
  pub schema : Option Json
  pub hint : Hint

abbrev pub is_optional : Hint → Bool
is_optional (union_type has_none) = has_none
is_optional (typing_union has_none) = has_none
is_optional no_union = false

-- `default is MISSING`
abbrev pub is_missing : Default → Bool
is_missing missing = true
is_missing empty = false
is_missing value = false

abbrev pub needs_value : SchemaField → Bool
needs_value f = is_missing f.default && is_missing f.default_factory && not (is_optional f.hint)

-- `field_schema if field_schema is not None else {}`
abbrev pub schema_or_empty : Option Json → Json
schema_or_empty none = obj end
schema_or_empty (some s) = s

-- The loop over the fields, for `properties` and for `required`; a private field is left out.
unfoldable pub property_schemas : List SchemaField → Fields
property_schemas [] = end
property_schemas (f ∷ fs) =
    let rest = property_schemas fs in
    if starts_with f.name "_" then rest else field f.name (schema_or_empty f.schema) rest

unfoldable pub required_names : List SchemaField → List String
required_names [] = []
required_names (f ∷ fs) =
    let rest = required_names fs in
    if not (starts_with f.name "_") && needs_value f then f.name ∷ rest else rest

abbrev pub texts : List String → Items
texts [] = nil
texts (s ∷ ss) = cons (str s) (texts ss)

-- `_pydantic_extractor`, for a dataclass.
unfoldable pub dataclass_schema : List SchemaField → Json
dataclass_schema fs = obj (
    field "type" (str "object") (
      field "properties" (obj (property_schemas fs)) (
        field "required" (arr (texts (required_names fs)))
          (field "additionalProperties" (bool false) end))))
