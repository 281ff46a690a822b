-- ===== src/Config.antt =====
-- config.py: `WorkerConfig`, what it makes of the environment, and `validate`.
pub mod Orchestrators
pub mod Valid
pub mod Settings
pub mod Readable
use Prim.Native.String.{compare}
use Prim.Native.Nat.{Ordering}
use avtomatika_worker.Base.{
  ℕ, String, Bool, true, false, not, ◌&&◌, ◌||◌, Option, none, some, List, [], ◌∷◌, ◌++◌, map, ◌==◌,
  string_eq, starts_with, if◌then◌else◌,
}
use avtomatika_worker.Base.Dict
use avtomatika_worker.Base.Dict.{Dict}
use avtomatika_worker.Base.Int.{ℤ, pos, ltb_ℤ}
use avtomatika_worker.Json.{
  Json, Items, Fields, num, str, obj, cons, nil, field, end, arr, null, bool,
}
use avtomatika_worker.Task.Call.{Try, ok, raise, value_error, type_error, ◌>>=◌}
use avtomatika_worker.Worker.{is_truthy}

-- An entry of ORCHESTRATORS: the keys that the worker reads, each if it is there. A priority or a
-- weight that is there and no whole number, and an address or a token that is there and no text, null
-- among them, are not modelled.
pub record Orchestrator : Type 0 where
  pub url : Option String
  pub priority : Option ℤ
  pub weight : Option ℤ
  pub token : Option String

-- `getenv`, and `loads` for each type that a variable's JSON is read as: nothing on a JSONDecodeError.
pub record Environment : Type 0 where
  pub getenv : String → Option String
  pub load_orchestrators : String → Option (List Orchestrator)
  pub loads : String → Option Json

abbrev pub or_else : String → Option String → String
or_else default none = default
or_else default (some s) = s

abbrev pub or_number : ℤ → Option ℤ → ℤ
or_number default none = default
or_number default (some n) = n

-- `x.get("priority", 10)`
abbrev pub priority_of : Orchestrator → ℤ
priority_of o = or_number (pos 10) o.priority

unfoldable pub with_defaults : Orchestrator → Orchestrator
with_defaults o = record o {
  priority = some (or_number (pos 10) o.priority);
  weight = some (or_number (pos 1) o.weight);
}

abbrev is_before : Ordering → Bool
is_before Ordering.lt = true
is_before Ordering.eq = false
is_before Ordering.gt = false

-- `<` of the addresses; a missing one against a text raises before this counts.
abbrev pub is_less_url : Option String → Option String → Bool
is_less_url (some s) (some t) = is_before (compare s t)
is_less_url _ _ = false

-- `<` of the sort keys, pairs of a priority and an address.
unfoldable pub is_less : Orchestrator → Orchestrator → Bool
is_less a b =
    ltb_ℤ (priority_of a) (priority_of b)
    || (not (ltb_ℤ (priority_of b) (priority_of a)) && is_less_url a.url b.url)

abbrev is_set : Option String → Bool
is_set none = false
is_set (some _) = true

abbrev is_xor : Bool → Bool → Bool
is_xor true b = not b
is_xor false b = b

-- Two entries of one priority, of which one has an address and the other has none. Some two that are
-- next to each other in the end are compared, which raises a TypeError.
abbrev clash : Orchestrator → Orchestrator → Bool
clash a b =
    not (ltb_ℤ (priority_of a) (priority_of b))
    && not (ltb_ℤ (priority_of b) (priority_of a))
    && is_xor (is_set a.url) (is_set b.url)

abbrev clashes_with : Orchestrator → List Orchestrator → Bool
clashes_with o [] = false
clashes_with o (p ∷ ps) = clash o p || clashes_with o ps

abbrev pub has_clash : List Orchestrator → Bool
has_clash [] = false
has_clash (o ∷ os) = clashes_with o os || has_clash os

-- `list.sort`, which is stable.
unfoldable pub insert : Orchestrator → List Orchestrator → List Orchestrator
insert o [] = o ∷ []
insert o (p ∷ ps) = let rest = insert o ps in if is_less p o then p ∷ rest else o ∷ p ∷ ps

unfoldable pub sorted : List Orchestrator → List Orchestrator
sorted [] = []
sorted (o ∷ os) = insert o (sorted os)

unfoldable pub sort : List Orchestrator → Try (List Orchestrator)
sort os = if has_clash os then raise (type_error "'<' not supported") else ok (sorted os)

abbrev pub fallback : Environment → List Orchestrator
fallback e =
    record {
      url = some (or_else "http://localhost:8080" (e.getenv "ORCHESTRATOR_URL"));
      priority = some (pos 1);
      weight = some (pos 1);
      token = none;
    }
    ∷ []

unfoldable pub orchestrators_of : Environment → Option String → Try (List Orchestrator)
orchestrators_of e none = ok (fallback e)
orchestrators_of e (some text) =
    if text == "" then ok (fallback e) else elim (e.load_orchestrators text) [
      | none ↦ ok (fallback e)
      | some os ↦ sort (map with_defaults os)
    ]

-- `_get_orchestrators_config`
abbrev pub get_orchestrators_config : Environment → Try (List Orchestrator)
get_orchestrators_config e = orchestrators_of e (e.getenv "ORCHESTRATORS_CONFIG")

unfoldable pub check_urls : List Orchestrator → Try {0} Unit
check_urls [] = ok tt
check_urls (o ∷ os) =
    let rest = check_urls os in
    if is_truthy o.url then rest else raise (value_error "Orchestrator configuration missing URL.")

-- `validate`, over rxon's `validate_identifier`.
unfoldable pub validate : (String → Try {0} Unit) → String → List Orchestrator → Try {0} Unit
validate validate_identifier worker_id orchestrators = validate_identifier worker_id >>= (λ _.
    elim orchestrators [
      | [] ↦ raise (value_error "No orchestrators configured.")
      | o ∷ os ↦ check_urls (o ∷ os)
    ])

-- `_load_json_from_env`: an unset, an empty and an unreadable variable give the default.
unfoldable pub load_json_from_env : Environment → String → Json → Json
load_json_from_env e key default = elim (e.getenv key) [
  | none ↦ default
  | some v ↦ if v == "" then default else elim (e.loads v) [ none ↦ default | some j ↦ j ]
]

-- `_load_extra_from_env`, over the variables and `key[len(prefix):].lower()`.
unfoldable pub extra_value : Environment → String → Json
extra_value e v =
    if starts_with v "{" || starts_with v "["
    then elim (e.loads v) [ none ↦ str v | some j ↦ j ]
    else str v

unfoldable pub load_extra_from_env :
    (String → String) → Environment → Dict String String → Dict String Json → Dict String Json
load_extra_from_env short e [] extra = extra
load_extra_from_env short e ((key, v) ∷ environ) extra = load_extra_from_env short e environ (
    if starts_with key "WORKER_EXTRA_"
    then Dict.insert (short key) (extra_value e v) extra
    else extra)

-- `int`, which raises a ValueError.
abbrev pub Parse : Type 0
Parse = String → Try ℤ

abbrev pub gpu : String → String → ℤ → Json
gpu model id vram = obj (
    field "type" (str "gpu") (
      field "model" (str model)
        (field "id" (str id) (field "properties" (obj (field "memory_gb" (num vram) end)) end))))

unfoldable pub gpu_devices : Parse → Environment → Option String → Try (List Json)
gpu_devices int e none = ok []
gpu_devices int e (some model) =
    if model == ""
    then ok []
    else int (or_else "0" (e.getenv "GPU_VRAM_GB"))
      >>= (λ vram. ok (gpu model (or_else "0" (e.getenv "GPU_ID")) vram ∷ []))

abbrev pub listed : Items → List Json
listed nil = []
listed (cons v vs) = v ∷ listed vs

-- `if isinstance(generic_devices, list)`
abbrev pub items_of : Option Json → List Json
items_of none = []
items_of (some (arr vs)) = listed vs
items_of (some _) = []

unfoldable pub generic_devices : Environment → Option String → List Json
generic_devices e none = []
generic_devices e (some text) = if text == "" then [] else items_of (e.loads text)

abbrev pub some_devices : List Json → Option (List Json)
some_devices [] = none
some_devices (d ∷ ds) = some (d ∷ ds)

-- `_get_devices`
unfoldable pub get_devices : Parse → Environment → Try (Option (List Json))
get_devices int e =
    gpu_devices int e (e.getenv "GPU_MODEL")
    >>= (λ gpus. ok (some_devices (gpus ++ generic_devices e (e.getenv "WORKER_DEVICES"))))
