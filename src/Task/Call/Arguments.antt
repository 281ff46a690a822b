-- ===== src/Task/Call/Arguments.antt =====
-- What the handler is called with, and in which order the middlewares run.
use mathlib.Core.List.{reverse, foldr, reverse-append}
use avtomatika_worker.Base.{
  String, ◌≡◌, ◌≢◌, refl, ◌∙◌, ap, Bool, true, false, not, ◌&&◌, ◌||◌, Option, none, some, List, [],
  ◌∷◌, ◌++◌, map, arith, contains, ◌==◌, string_eq, if◌then◌else◌, All, inl, inr, Option-cases,
}
use avtomatika_worker.Base.Dict
use avtomatika_worker.Base.Dict.{Dict}
use avtomatika_worker.Task.Call.{
  Try, ok, raise, empty, DataclassField, dataclass, required_fields, missing_fields, known_params,
  made_or_invalid, prepare_task_params, Parameter, bind_parameters, handler_kwargs, wrap_all,
  handler_chain, is_unmet, with_argument, start_kwargs,
}

wrap_all-append {ℓ} :
    {A : Type ℓ} (xs ys : List (A → A)) (e : A)
    → wrap_all (xs ++ ys) e ≡ wrap_all ys (wrap_all xs e)
unfolding wrap_all
wrap_all-append [] ys e = refl
wrap_all-append (x ∷ xs) ys e = wrap_all-append xs ys (x e)

-- The first middleware is the outermost: it is called first, and what it passes on to runs the rest.
pub handler_chain-foldr {ℓ} :
    {A : Type ℓ} (middlewares : List (A → A)) (execute : A)
    → handler_chain middlewares execute ≡ foldr (λ mw rest. mw rest) execute middlewares
unfolding handler_chain wrap_all
handler_chain-foldr [] execute = refl
handler_chain-foldr (mw ∷ mws) execute =
    ap (λ l. wrap_all l execute) (reverse-append (mw ∷ []) mws)
    ∙ (wrap_all-append (reverse mws) (mw ∷ []) execute ∙ ap mw (handler_chain-foldr mws execute))

abbrev pub is_ok {ℓ} : {A : Type ℓ} → Try A → Bool
is_ok (ok a) = true
is_ok (raise e) = false

abbrev pub or_else {ℓ} : {A : Type ℓ} → Option A → Option A → Option A
or_else none b = b
or_else (some a) b = some a

module _ (X : Type 0) where
  abbrev pub any_unmet : Dict String X → List Parameter → Bool
  any_unmet context [] = false
  any_unmet context (p ∷ ps) = is_unmet X context p || any_unmet context ps

  abbrev pub names_of : List Parameter → List String
  names_of = map (λ (p : Parameter). p.name)

  bind_parameters_ok :
      (context : Dict String X) (ps : List Parameter) (kwargs : Dict String X)
      → is_ok (bind_parameters X context ps kwargs) ≡ not (any_unmet context ps)
  unfolding bind_parameters
  bind_parameters_ok context [] kwargs = refl
  bind_parameters_ok context (p ∷ ps) kwargs =
      ground (arith, bind_parameters_ok context ps (with_argument X context p kwargs))

  with_argument-lookup :
      (context : Dict String X) (p : Parameter) (kwargs : Dict String X) (k : String)
      → Dict.lookup k (with_argument X context p kwargs) ≡ (
          if k == p.name && not (k == "params")
          then or_else (Dict.lookup k context) (Dict.lookup k kwargs)
          else Dict.lookup k kwargs)
  unfolding with_argument
  with_argument-lookup context p kwargs k = elim (Option-cases (Dict.lookup p.name context)) [
    | inl gone ↦ ground (arith, gone)
    | inr (x, there) ↦ ground (arith, there, Dict.lookup-insert k p.name x kwargs)
  ]

  bind_parameters-lookup :
      (context : Dict String X) (ps : List Parameter) (kwargs d : Dict String X) (k : String)
      → bind_parameters X context ps kwargs ≡ ok d
      → Dict.lookup k d ≡ (
          if contains (names_of ps) k && not (k == "params")
          then or_else (Dict.lookup k context) (Dict.lookup k kwargs)
          else Dict.lookup k kwargs)
  unfolding bind_parameters
  bind_parameters-lookup context [] kwargs d k e = ground (arith, e)
  bind_parameters-lookup context (p ∷ ps) kwargs d k e = ground (
    arith,
    e,
    with_argument-lookup context p kwargs k,
    bind_parameters-lookup context ps (with_argument X context p kwargs) d k,
  )

  -- The arguments can be bound exactly if every parameter but `params` that has no default, and is no
  -- `*args` or `**kwargs`, is in the context.
  pub handler_kwargs_ok :
      (context : Dict String X) (ps : List Parameter) (params : X)
      → is_ok (handler_kwargs X context ps params) ≡ not (any_unmet context ps)
  unfolding handler_kwargs
  handler_kwargs_ok context ps params = bind_parameters_ok context ps (start_kwargs X ps params)

  -- The handler gets the validated parameters as `params`, each other parameter's value from the
  -- context, and nothing that its signature does not name.
  pub handler_kwargs-lookup :
      (context : Dict String X) (ps : List Parameter) (params : X) (d : Dict String X) (k : String)
      → handler_kwargs X context ps params ≡ ok d
      → Dict.lookup k d ≡ (
          if contains (names_of ps) k
          then if k == "params" then some params else Dict.lookup k context
          else none)
  unfolding handler_kwargs start_kwargs
  handler_kwargs-lookup context ps params d k e = ground (
    arith,
    bind_parameters-lookup context ps (start_kwargs X ps params) d k e,
    Dict.lookup-cons k "params" params [],
    Dict.lookup-nil {V = X} k,
  )

module _ (P V : Type 0) where
  no_required :
      (fs : List DataclassField)
      → All (λ (f : DataclassField). f.default ≢ empty) fs
      → required_fields P V fs ≡ []
  unfolding required_fields
  no_required [] h = refl
  no_required (f ∷ fs) h = ground (arith, no_required fs h.1, h.0)

  -- Where dataclasses marks no field by Parameter.empty, the check for missing fields never fires,
  -- and the dataclass's constructor decides alone.
  pub dataclass_check_never_fires :
      (message : List String → String) (fs : List DataclassField)
      (construct : Dict String P → Try V) (ps : Dict String P)
      → All (λ (f : DataclassField). f.default ≢ empty) fs
      → prepare_task_params P V message (dataclass fs construct) ps
        ≡ made_or_invalid P V (construct (known_params P V fs ps))
  unfolding prepare_task_params missing_fields
  dataclass_check_never_fires message fs construct ps h = rw (no_required fs h, prepare_task_params)
