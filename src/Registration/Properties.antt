-- ===== src/Registration/Properties.antt =====
-- The resources and the extra capabilities of a registration.
use avtomatika_worker.Base.{
  String, ◌≡◌, refl, ap, ◌∙◌, true, false, Option, none, some, [], ◌∷◌, ◌==◌, string_eq,
  Option-cases, inl, inr, if◌then◌else◌, arith,
}
use avtomatika_worker.Base.Dict
use avtomatika_worker.Base.Dict.{Dict}
use avtomatika_worker.Base.Int.{pos}
use avtomatika_worker.Json.{Json, bool, num}
use avtomatika_worker.Registration.{
  ResourceSettings, with_default, properties_of, properties_or_empty, Profile, combined_extra,
}

-- An entry that is there, or else the setting, or else the default.
abbrev pub first_set : Option Json → Option Json → Json → Option Json
first_set (some v) set default = some v
first_set none (some v) default = some v
first_set none none default = some default

by_setting :
    (j k : String) (set : Option Json) (default : Json) (props : Dict String Json)
    → (if j == k then some (elim set [ none ↦ default | some v ↦ v ]) else Dict.lookup j props)
      ≡ (if j == k then first_set none set default else Dict.lookup j props)
by_setting j k none default props = refl
by_setting j k (some v) default props = refl

kept :
    (j k : String) (v : Json) (set : Option Json) (default : Json) (props : Dict String Json)
    → Dict.lookup k props ≡ some v
    → Dict.lookup j props ≡ (if j == k then some v else Dict.lookup j props)
kept j k v set default props h =
    ground (arith, h, λ (p : j ≡ k). ap (λ i. Dict.lookup i props) p ∙ h)

-- What `with_default` gives for what the dict holds under the key.
abbrev chosen : Option Json → String → Option Json → Json → Dict String Json → Dict String Json
chosen o k set default props =
    if elim o [ none ↦ false | some _ ↦ true ]
    then props
    else Dict.insert k (elim set [ none ↦ default | some v ↦ v ]) props

with_default-chosen :
    (o : Option Json) (k : String) (set : Option Json) (default : Json) (props : Dict String Json)
    → Dict.lookup k props ≡ o
    → with_default k set default props ≡ chosen o k set default props
unfolding with_default
with_default-chosen o k set default props h = ap (λ o. chosen o k set default props) h

lookup-with_default :
    (j k : String) (set : Option Json) (default : Json) (props : Dict String Json)
    → Dict.lookup j (with_default k set default props)
      ≡ (if j == k then first_set (Dict.lookup k props) set default else Dict.lookup j props)
lookup-with_default j k set default props = elim (Option-cases (Dict.lookup k props)) [
  | inl missing ↦
      rw (with_default-chosen none k set default props missing, missing)
        (Dict.lookup-insert j k (elim set [ none ↦ default | some v ↦ v ]) props
          ∙ by_setting j k set default props)
  | inr (v, found) ↦
      rw (with_default-chosen (some v) k set default props found, found)
        (kept j k v set default props found)
]

-- The number of cores and the memory are the property that is set, else the resource that is set,
-- else 1; every other property is as it is set.
pub properties_of-lookup :
    (r : ResourceSettings)
    → let props = properties_or_empty r.properties in
      (Dict.lookup "cpu_cores" (properties_of r)
        ≡ first_set (Dict.lookup "cpu_cores" props) r.cpu_cores (num (pos 1)))
      × (Dict.lookup "ram_gb" (properties_of r)
          ≡ first_set (Dict.lookup "ram_gb" props) r.ram_gb (num (pos 1)))
      × ((j : String)
          → j == "cpu_cores" ≡ false
          → j == "ram_gb" ≡ false
          → Dict.lookup j (properties_of r) ≡ Dict.lookup j props)
unfolding properties_of string_eq
properties_of-lookup r =
    let props = properties_or_empty r.properties in
    let cores = with_default "cpu_cores" r.cpu_cores (num (pos 1)) props in
    let one = num (pos 1) in
    (
      lookup-with_default "cpu_cores" "ram_gb" r.ram_gb one cores
          ∙ lookup-with_default "cpu_cores" "cpu_cores" r.cpu_cores one props,
      lookup-with_default "ram_gb" "ram_gb" r.ram_gb one cores
          ∙ ap (λ o. first_set o r.ram_gb one)
              (lookup-with_default "ram_gb" "cpu_cores" r.cpu_cores one props),
      λ j h k.
          lookup-with_default j "ram_gb" r.ram_gb one cores
          ∙ rw (k) (lookup-with_default j "cpu_cores" r.cpu_cores one props ∙ rw (h) refl),
    )

-- An extra capability that is set wins over the one for WebSockets.
pub combined_extra-lookup :
    (p : Profile)
    → Dict.NodupKeys p.extra_capabilities
    → (Dict.lookup "websockets" (combined_extra p)
        ≡ Dict.or_else
            (Dict.lookup "websockets" p.extra_capabilities)
            (some (bool p.enable_websockets)))
      × ((j : String)
          → j == "websockets" ≡ false
          → Dict.lookup j (combined_extra p)
            ≡ Dict.or_else (Dict.lookup j p.extra_capabilities) none)
unfolding combined_extra string_eq
combined_extra-lookup p u =
    let own = (("websockets", bool p.enable_websockets) ∷ []) in
    (
      Dict.lookup-update "websockets" own p.extra_capabilities u
          ∙ ap (Dict.or_else (Dict.lookup "websockets" p.extra_capabilities))
              (Dict.lookup-cons "websockets" "websockets" (bool p.enable_websockets) []),
      λ j h.
          Dict.lookup-update j own p.extra_capabilities u
          ∙ ap (Dict.or_else (Dict.lookup j p.extra_capabilities)) (
              Dict.lookup-cons j "websockets" (bool p.enable_websockets) []
              ∙ rw (h) (Dict.lookup-nil j)),
    )
