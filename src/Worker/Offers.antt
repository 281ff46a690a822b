-- ===== src/Worker/Offers.antt =====
-- worker.py: what the two tests of `_get_current_state` decide, told without them.
use mathlib.Core.Bool.{false≢true}
use mathlib.Core.Option.{none-ne-some, some-injective}
use avtomatika_worker.Base.{
  ℕ, String, ◌≡◌, ◌≢◌, refl, sym, ap, ◌∙◌, subst, Bool, true, false, Option, none, some, List, [],
  ◌∷◌, ◌==◌, string_eq, contains, is_subset, ◌↔◌, if◌then◌else◌, Bool-cases, inl, inr, arith,
}
use avtomatika_worker.Base.Dict
use avtomatika_worker.Base.Int.{ℤ, pos, ltb_ℤ}
use avtomatika_worker.Worker.{Worker, Handler, load_of, accepts, is_available, is_hot}

-- The skill's type, where it has one with a limit, is below this limit, and the capacity checker, where
-- there is one, takes the skill.
pub record IsOffered (w : Worker) (h : Handler) : Type 0 where
  pub below :
      (limit : ℕ)
      → h.type ≢ ""
      → Dict.lookup h.type w.skill_type_limits ≡ some limit
      → ltb_ℤ (load_of h.type w.current_load_by_type) (pos limit) ≡ true
  pub taken : (check : String → Bool) → w.capacity_checker ≡ some check → check h.info.name ≡ true

-- A skill with an entry in the dependencies has some, all of which are hot; one without is hot itself.
pub record IsReady (w : Worker) (name : String) : Type 0 where
  pub with_entry :
      (deps : List String)
      → Dict.lookup name w.skill_dependencies ≡ some deps
      → (deps ≢ []) × ((d : String) → contains deps d ≡ true → contains w.hot_skills_state d ≡ true)
  pub without_entry :
      Dict.lookup name w.skill_dependencies ≡ none → contains w.hot_skills_state name ≡ true

is_subset-all :
    (xs ys : List String)
    → is_subset xs ys ≡ true
    → (x : String) → contains xs x ≡ true
    → contains ys x ≡ true
is_subset-all [] ys h x m = absurd (false≢true m)
is_subset-all (y ∷ xs) ys h x m =
    let rest = is_subset-all xs ys (ground (arith, h)) x in
    elim (Bool-cases (x == y)) [
      | inl same ↦ ground (arith, h, same)
      | inr other ↦ rest (ground (arith, m, other))
    ]

all-is_subset :
    (xs ys : List String)
    → ((x : String) → contains xs x ≡ true → contains ys x ≡ true)
    → is_subset xs ys ≡ true
all-is_subset [] ys h = refl
all-is_subset (y ∷ xs) ys h =
    let rest = all-is_subset xs ys (λ x m. h x (ground (arith, m))) in
    let first = h y (ground arith) in ground (arith, rest, first)

-- The test decides the predicate.
abbrev pub Decides : {A : Type 0} → (A → Type 0) → (A → Bool) → Type 0
Decides {A} P p = (a : A) → (p a ≡ true) ↔ P a

-- `has_room`, over what the limits have for the type.
abbrev room : String → ℤ → Option ℕ → Bool
room t load o =
    if t == "" then true else elim o [ none ↦ true | some limit ↦ ltb_ℤ load (pos limit) ]

room-below :
    (t : String) (load : ℤ) (o : Option ℕ)
    → room t load o ≡ true
    → (limit : ℕ) → t ≢ ""
    → o ≡ some limit
    → ltb_ℤ load (pos limit) ≡ true
room-below t load none h limit typed e = absurd (none-ne-some limit e)
room-below t load (some n) h limit typed e =
    let same = some-injective n limit e in
    elim (Bool-cases (t == "")) [
      | inl empty ↦ absurd (typed (ground (arith, empty)))
      | inr named ↦ subst (λ k. ltb_ℤ load (pos k) ≡ true) same (ground (arith, h, named))
    ]

below-room :
    (t : String) (load : ℤ) (o : Option ℕ)
    → ((limit : ℕ) → t ≢ "" → o ≡ some limit → ltb_ℤ load (pos limit) ≡ true)
    → room t load o ≡ true
below-room t load o h = elim (Bool-cases (t == "")) [
  | inl empty ↦ rw (empty) refl
  | inr named ↦ rw (named) (limited (λ e. ground (arith, named, e)) o h)
]
  where
    limited :
        t ≢ ""
        → (o : Option ℕ) → ((limit : ℕ) → t ≢ "" → o ≡ some limit → ltb_ℤ load (pos limit) ≡ true)
        → elim o [ none ↦ true | some limit ↦ ltb_ℤ load (pos limit) ] ≡ true
    limited typed none h = refl
    limited typed (some limit) h = h limit typed refl

accepts-taken :
    (o : Option (String → Bool)) (name : String)
    → accepts o name ≡ true
    → (check : String → Bool) → o ≡ some check
    → check name ≡ true
accepts-taken none name h check e = absurd (none-ne-some check e)
accepts-taken (some c) name h check e =
    ap (λ (g : String → Bool). g name) (sym (some-injective c check e)) ∙ h

taken-accepts :
    (o : Option (String → Bool)) (name : String)
    → ((check : String → Bool) → o ≡ some check → check name ≡ true)
    → accepts o name ≡ true
taken-accepts none name h = refl
taken-accepts (some c) name h = h c refl

pub is_available-Decides : (w : Worker) → Decides (IsOffered w) (is_available w)
unfolding is_available
is_available-Decides w h = (
  λ e. record {
    below =
        room-below h.type (load_of h.type w.current_load_by_type)
          (Dict.lookup h.type w.skill_type_limits) (ground (arith, e));
    taken = accepts-taken w.capacity_checker h.info.name (ground (arith, e));
  },
  λ o.
      let roomy =
        below-room h.type (load_of h.type w.current_load_by_type)
          (Dict.lookup h.type w.skill_type_limits) o.below in
      let taken = taken-accepts w.capacity_checker h.info.name o.taken in
      ground (arith, roomy, taken),
)

-- `is_hot`, over what the dependencies have for the name.
abbrev ready : List String → String → Option (List String) → Bool
ready hot name none = contains hot name
ready hot name (some []) = false
ready hot name (some (d ∷ deps)) = is_subset (d ∷ deps) hot

ready-with_entry :
    (hot : List String) (name : String) (o : Option (List String))
    → ready hot name o ≡ true
    → (deps : List String) → o ≡ some deps
    → (deps ≢ []) × ((d : String) → contains deps d ≡ true → contains hot d ≡ true)
ready-with_entry hot name none h deps e = absurd (none-ne-some deps e)
ready-with_entry hot name (some []) h deps e = absurd (false≢true h)
ready-with_entry hot name (some (c ∷ cs)) h deps e =
    subst (λ ds. (ds ≢ []) × ((d : String) → contains ds d ≡ true → contains hot d ≡ true))
      (some-injective (c ∷ cs) deps e) (λ n. ground (arith, n), is_subset-all (c ∷ cs) hot h)

ready-without_entry :
    (hot : List String) (name : String) (o : Option (List String))
    → ready hot name o ≡ true
    → o ≡ none
    → contains hot name ≡ true
ready-without_entry hot name none h e = h
ready-without_entry hot name (some deps) h e = absurd (none-ne-some deps (sym e))

entries-ready :
    (hot : List String) (name : String) (o : Option (List String))
    → ((deps : List String)
        → o ≡ some deps
        → (deps ≢ []) × ((d : String) → contains deps d ≡ true → contains hot d ≡ true))
    → (o ≡ none → contains hot name ≡ true)
    → ready hot name o ≡ true
entries-ready hot name none h k = k refl
entries-ready hot name (some []) h k = absurd ((h [] refl).0 refl)
entries-ready hot name (some (d ∷ deps)) h k = all-is_subset (d ∷ deps) hot (h (d ∷ deps) refl).1

is_hot-ready :
    (w : Worker) (name : String)
    → is_hot w name ≡ ready w.hot_skills_state name (Dict.lookup name w.skill_dependencies)
unfolding is_hot
is_hot-ready w name = looked (Dict.lookup name w.skill_dependencies)
  where
    looked :
        (o : Option (List String))
        → elim o [
          | none ↦ contains w.hot_skills_state name
          | some [] ↦ false
          | some (d ∷ deps) ↦ is_subset (d ∷ deps) w.hot_skills_state
        ]
          ≡ ready w.hot_skills_state name o
    looked none = refl
    looked (some []) = refl
    looked (some (d ∷ deps)) = refl

pub is_hot-Decides : (w : Worker) → Decides (IsReady w) (is_hot w)
is_hot-Decides w name =
    let o = Dict.lookup name w.skill_dependencies in
    (
      λ e.
          let yes = sym (is_hot-ready w name) ∙ e in
          record {
            with_entry = ready-with_entry w.hot_skills_state name o yes;
            without_entry = ready-without_entry w.hot_skills_state name o yes;
          },
      λ r.
          is_hot-ready w name
          ∙ entries-ready w.hot_skills_state name o r.with_entry r.without_entry,
    )
