-- ===== src/Task/Call.antt =====
-- worker.py: `_prepare_task_params`, the keyword arguments that the handler is called with, and the
-- chain of middlewares around it.
pub mod Arguments
use mathlib.Core.List.{reverse}
use avtomatika_worker.Base.{
  ℕ, String, Bool, true, false, not, ◌&&◌, ◌||◌, Option, none, some, List, [], ◌∷◌, map, filter,
  contains, ◌==◌, string_eq, if◌then◌else◌,
}
use avtomatika_worker.Base.Dict
use avtomatika_worker.Base.Dict.{Dict}

-- What the `try` of `_process_task` tells apart, with the text of the exception. `type_error` is caught
-- with the others by `except Exception`, but inside `_prepare_task_params` before that.
pub data Exception : Type 0 where
  param_validation : String → Exception
  value_error : String → Exception
  type_error : String → Exception
  cancelled : Exception
  other : String → Exception

pub data Try {ℓ} (A : Type ℓ) : Type ℓ where
  ok : A → Try A
  raise : Exception → Try A

infixl 5 ◌>>=◌
abbrev pub ◌>>=◌ {ℓ κ} : {A : Type ℓ} {B : Type κ} → Try A → (A → Try B) → Try B
ok a >>= f = f a
raise e >>= f = raise e

-- The default of a dataclass field as `dataclasses.fields` gives it: MISSING, the marker
-- `Parameter.empty`, which `dataclasses` never puts there itself, or a value.
pub data Default : Type 0 where
  missing : Default
  empty : Default
  value : Default

pub record DataclassField : Type 0 where
  pub name : String
  pub default : Default
  pub default_factory : Default

abbrev is_empty : Default → Bool
is_empty missing = false
is_empty empty = true
is_empty value = false

module _ (P V : Type 0) where
  -- The annotation of the parameter `params`: none or `dict`, a pydantic model with its validation
  -- (which gives the text of a ValidationError, or another exception), a dataclass with its fields and
  -- its constructor, or another one. `absent` is a handler without the parameter.
  pub data Annotation : Type 0 where
    absent : Annotation
    plain : Annotation
    pydantic : (Dict String P → Try V) → Annotation
    dataclass : List DataclassField → (Dict String P → Try V) → Annotation
    unknown : Annotation

  -- The parameters that the handler gets: as they came, or an object made of them.
  pub data Params : Type 0 where
    raw : Dict String P → Params
    made : V → Params

  -- `required_fields`
  pub required_fields : List DataclassField → List String
  required_fields fs =
      map (λ (f : DataclassField). f.name)
        (filter (λ (f : DataclassField). is_empty f.default && is_empty f.default_factory) fs)

  -- `filtered_params`
  unfoldable pub known_params : List DataclassField → Dict String P → Dict String P
  known_params fs ps = filter (λ (k, v). contains (map (λ (f : DataclassField). f.name) fs) k) ps

  pub missing_fields : List DataclassField → Dict String P → List String
  unfolding required_fields
  missing_fields fs ps = filter (λ f. not (Dict.has_key f ps)) (required_fields fs)

  -- `except (TypeError, ValueError) as e: raise ParamValidationError`
  unfoldable pub made_or_invalid : Try V → Try Params
  made_or_invalid (ok v) = ok (made v)
  made_or_invalid (raise (type_error m)) = raise (param_validation m)
  made_or_invalid (raise (value_error m)) = raise (param_validation m)
  made_or_invalid (raise e) = raise e

  pub validated : Try V → Try Params
  validated (ok v) = ok (made v)
  validated (raise e) = raise e

  -- The fields that miss are named by their list, which the code joins into the message.
  unfoldable pub prepare_task_params :
      (List String → String) → Annotation → Dict String P → Try Params
  prepare_task_params message absent ps = ok (raw ps)
  prepare_task_params message plain ps = ok (raw ps)
  prepare_task_params message unknown ps = ok (raw ps)
  prepare_task_params message (pydantic validate) ps = validated (validate ps)
  prepare_task_params message (dataclass fs construct) ps =
      let known = known_params fs ps in
      elim (missing_fields fs known) [
        | [] ↦ made_or_invalid (construct known)
        | f ∷ rest ↦ raise (param_validation (message (f ∷ rest)))
      ]

-- A parameter of the handler's signature.
pub data Kind : Type 0 where
  keyword : Kind
  var_positional : Kind
  var_keyword : Kind

pub record Parameter : Type 0 where
  pub name : String
  pub has_default : Bool
  pub kind : Kind

abbrev is_keyword : Kind → Bool
is_keyword keyword = true
is_keyword var_positional = false
is_keyword var_keyword = false

module _ (X : Type 0) where
  -- A parameter that is neither `params`, nor in the context, nor optional.
  unfoldable pub is_unmet : Dict String X → Parameter → Bool
  is_unmet context p =
      not (p.name == "params")
      && not (Dict.has_key p.name context)
      && (not p.has_default && is_keyword p.kind)

  -- The arguments with the parameter's value from the context, if it has one there.
  unfoldable pub with_argument : Dict String X → Parameter → Dict String X → Dict String X
  with_argument context p kwargs =
      if p.name == "params" then kwargs else elim (Dict.lookup p.name context) [
        | none ↦ kwargs
        | some x ↦ Dict.insert p.name x kwargs
      ]

  -- The loop over the signature.
  unfoldable pub bind_parameters :
      Dict String X → List Parameter → Dict String X → Try (Dict String X)
  bind_parameters context [] kwargs = ok kwargs
  bind_parameters context (p ∷ ps) kwargs =
      let rest = bind_parameters context ps (with_argument context p kwargs) in
      if is_unmet context p then raise (param_validation p.name) else rest

  -- `if "params" in sig.parameters: kwargs["params"] = validated_params`
  unfoldable pub start_kwargs : List Parameter → X → Dict String X
  start_kwargs ps params =
      if contains (map (λ (p : Parameter). p.name) ps) "params" then ("params", params) ∷ [] else []

  unfoldable pub handler_kwargs : Dict String X → List Parameter → X → Try (Dict String X)
  handler_kwargs context ps params = bind_parameters context ps (start_kwargs ps params)

  -- `{**context, **kwargs}`
  unfoldable pub merge : Dict String X → Dict String X → Dict String X
  merge context [] = context
  merge context ((k, x) ∷ kwargs) = merge (Dict.insert k x context) kwargs

  abbrev is_var_keyword : Kind → Bool
  is_var_keyword var_keyword = true
  is_var_keyword keyword = false
  is_var_keyword var_positional = false

  abbrev has_var_keyword : List Parameter → Bool
  has_var_keyword [] = false
  has_var_keyword (p ∷ ps) = is_var_keyword p.kind || has_var_keyword ps

  -- `f_kwargs` in `_execution_logic`: a handler with `**kwargs` gets the whole context.
  unfoldable pub call_kwargs : Dict String X → List Parameter → Dict String X → Dict String X
  call_kwargs context ps kwargs = if has_var_keyword ps then merge context kwargs else kwargs

-- The loop over `reversed(self._middlewares)`: a middleware makes a call of the one that it is given.
unfoldable pub wrap_all {ℓ} : {A : Type ℓ} → List (A → A) → A → A
wrap_all [] chain = chain
wrap_all (mw ∷ mws) chain = wrap_all mws (mw chain)

unfoldable pub handler_chain {ℓ} : {A : Type ℓ} → List (A → A) → A → A
handler_chain middlewares execute = wrap_all (reverse middlewares) execute
