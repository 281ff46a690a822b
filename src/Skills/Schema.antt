-- ===== src/Skills/Schema.antt =====
-- The published schema of a dataclass, against the parameters that the worker then takes.
use avtomatika_worker.Base.{
  String, ◌≡◌, ◌≢◌, refl, ap, ◌∙◌, Bool, true, false, not, ◌&&◌, none, List, [], ◌∷◌, ◌++◌, map,
  All, ◌==◌, string_eq, contains, filter, starts_with, arith,
}
use avtomatika_worker.Base.Dict
use avtomatika_worker.Base.Dict.{Dict}
use avtomatika_worker.Task.Call.{
  empty, DataclassField, dataclass, Try, raise, type_error, param_validation, prepare_task_params,
  known_params, made_or_invalid,
}
use avtomatika_worker.Task.Call.Arguments.{dataclass_check_never_fires}
use avtomatika_worker.Skills.{SchemaField, is_optional, needs_value, required_names}

-- A field as `_prepare_task_params` sees it.
abbrev pub plain_fields : List SchemaField → List DataclassField
plain_fields [] = []
plain_fields (f ∷ fs) =
    record { name = f.name; default = f.default; default_factory = f.default_factory }
    ∷ plain_fields fs

-- No two fields share a name.
abbrev pub Distinct : List SchemaField → Type 0
Distinct [] = Unit
Distinct (f ∷ fs) = All (λ (g : SchemaField). (g.name == f.name) ≡ false) fs × Distinct fs

not_among :
    (n : String) (fs : List SchemaField)
    → All (λ (g : SchemaField). (g.name == n) ≡ false) fs
    → contains (required_names fs) n ≡ false
unfolding required_names
not_among n [] h = refl
not_among n (f ∷ fs) h = ground (arith, h.0, not_among n fs h.1)

head_differs :
    (g f : SchemaField) (before after : List SchemaField)
    → All (λ (x : SchemaField). (x.name == g.name) ≡ false) (before ++ (f ∷ after))
    → (f.name == g.name) ≡ false
head_differs g f [] after h = h.0
head_differs g f (x ∷ before) after h = head_differs g f before after h.1

-- Among distinct fields, the schema requires one exactly if it is public and needs a value.
pub required-needs :
    (before after : List SchemaField) (f : SchemaField)
    → Distinct (before ++ (f ∷ after))
    → contains (required_names (before ++ (f ∷ after))) f.name
      ≡ (not (starts_with f.name "_") && needs_value f)
unfolding required_names
required-needs [] after f u = ground (arith, not_among f.name after u.0)
required-needs (g ∷ before) after f u =
    ground (arith, required-needs before after f u.1, head_differs g f before after u.0)

lookup-filter :
    {P : Type 0} (p : String × P → Bool) (k : String) (d : Dict String P)
    → Dict.lookup k d ≡ none
    → Dict.lookup k (filter p d) ≡ none
lookup-filter p k [] h = h
lookup-filter p k ((j, v) ∷ d) h =
    ground
      (arith, h, lookup-filter p k d, Dict.lookup-cons k j v d, Dict.lookup-cons k j v (filter p d))

-- For a dataclass with distinct fields that has a field of an optional type whose constructor
-- raises a TypeError without it, the published schema does not require the field, and parameters
-- without it are refused, provided that no field has the marker Parameter.empty as its default.
pub optional_field_refused :
    (P V : Type 0) (message : List String → String) (before after : List SchemaField)
    (f : SchemaField) (construct : Dict String P → Try V) (m : String) (ps : Dict String P)
    → let fs = before ++ (f ∷ after) in
      Distinct fs
      → All (λ (d : DataclassField). d.default ≢ empty) (plain_fields fs)
      → is_optional f.hint ≡ true
      → ((kw : Dict String P) → Dict.lookup f.name kw ≡ none → construct kw ≡ raise (type_error m))
      → Dict.lookup f.name ps ≡ none
      → (contains (required_names fs) f.name ≡ false)
        × (prepare_task_params P V message (dataclass (plain_fields fs) construct) ps
            ≡ raise (param_validation m))
unfolding made_or_invalid known_params
optional_field_refused P V message before after f construct m ps u ordinary optional refuses
      absent_key =
    let fs = before ++ (f ∷ after) in
    (
      required-needs before after f u ∙ ground (arith, optional),
      dataclass_check_never_fires P V message (plain_fields fs) construct ps ordinary
          ∙ ap (made_or_invalid P V) (
              refuses (known_params P V (plain_fields fs) ps) (
                lookup-filter
                  (λ (k, v). contains (map (λ (d : DataclassField). d.name) (plain_fields fs)) k)
                  f.name ps absent_key)),
    )
