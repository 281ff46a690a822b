-- ===== src/Worker/Tiers.antt =====
-- The three tiers of skills that `_get_current_state` reports, and its status.
use mathlib.Core.List.{Sublist, append-nil, append_assoc, nil-sublist}
use mathlib.Core.List.Sublist
use avtomatika_worker.Base.Int.{pos, ltb_ℤ}
use avtomatika_worker.Base.{
  not, false, string_eq, ◌∙◌, ◌≡◌, refl, Bool, true, ◌&&◌, List, [], ◌∷◌, ◌++◌, map, arith, filter,
  ◌↔◌, ◌≢◌, if◌then◌else◌, Bool-cases, inl, inr,
}
use avtomatika_worker.Worker.Offers.{
  IsOffered, IsReady, Decides, is_available-Decides, is_hot-Decides,
}
use avtomatika_worker.Worker.{
  Worker, Handler, SkillInfo, idle, full, handlers, is_available, is_hot, collect_skills,
  get_current_state, is_at_capacity,
}

-- The skill infos of the handlers that pass a test, in the order of registration.
abbrev pub infos_where : (Handler → Bool) → List Handler → List SkillInfo
infos_where p hs = map (λ (h : Handler). h.info) (filter p hs)

abbrev pub is_hot_now : Worker → Handler → Bool
is_hot_now w h = is_available w h && is_hot w h.info.name

collect_skills-filter :
    (w : Worker) (hs : List Handler) (available hot : List SkillInfo)
    → collect_skills w hs available hot
      ≡ (available ++ infos_where (is_available w) hs, hot ++ infos_where (is_hot_now w) hs)
unfolding collect_skills
collect_skills-filter w [] available hot = simp append-nil
collect_skills-filter w (h ∷ hs) available hot = elim (Bool-cases (is_available w h)) [
  | inl ok ↦ elim (Bool-cases (is_hot w h.info.name)) [
    | inl warm ↦ rw (ok, warm) (simp (collect_skills-filter w hs, append_assoc))
    | inr cold ↦ rw (ok, cold) (simp (collect_skills-filter w hs, append_assoc))
  ]
  | inr no_room ↦ rw (no_room) (collect_skills-filter w hs available hot)
]

infos_where-sublist :
    (p q : Handler → Bool) (hs : List Handler)
    → Sublist (infos_where (λ h. p h && q h) hs) (infos_where p hs)
infos_where-sublist p q [] = Sublist.refl []
infos_where-sublist p q (h ∷ hs) =
    let rest = infos_where-sublist p q hs in
    elim (Bool-cases (p h)) [
      | inl ok ↦ elim (Bool-cases (q h)) [
        | inl warm ↦ rw (ok, warm) (Sublist.cons-cons h.info rest)
        | inr cold ↦ rw (ok, cold) (Sublist.cons h.info rest)
      ]
      | inr failed ↦ rw failed rest
    ]

infos_where-sublist_all :
    (p : Handler → Bool) (hs : List Handler)
    → Sublist (infos_where p hs) (map (λ (h : Handler). h.info) hs)
infos_where-sublist_all p [] = Sublist.refl []
infos_where-sublist_all p (h ∷ hs) =
    let rest = infos_where-sublist_all p hs in
    elim (Bool-cases (p h)) [
      | inl ok ↦ rw ok (Sublist.cons-cons h.info rest)
      | inr failed ↦ rw failed (Sublist.cons h.info rest)
    ]

is_hot_now-Decides :
    (w : Worker) → Decides (λ h. IsOffered w h × IsReady w h.info.name) (is_hot_now w)
is_hot_now-Decides w h =
    let (to_offered, from_offered) = is_available-Decides w h in
    let (to_ready, from_ready) = is_hot-Decides w h.info.name in
    (
      λ e. (to_offered (ground (arith, e)), to_ready (ground (arith, e))),
      λ (o, r).
          let offered = from_offered o in let warm = from_ready r in ground (arith, offered, warm),
    )

-- The two lists as the two tests leave them.
pub tiers_by_tests :
    (w : Worker)
    → ((get_current_state w).available_skills
        ≡ (if is_at_capacity w then [] else infos_where (is_available w) (handlers w)))
      × ((get_current_state w).hot_skills
          ≡ (if is_at_capacity w then [] else infos_where (is_hot_now w) (handlers w)))
unfolding get_current_state
tiers_by_tests w = elim (Bool-cases (is_at_capacity w)) [
  | inl at_limit ↦ rw at_limit (refl, refl)
  | inr below ↦ rw (below, collect_skills-filter) (refl, refl)
]

if_not : {A : Type 0} (b : Bool) (x y : A) → (if not b then x else y) ≡ (if b then y else x)
if_not true x y = refl
if_not false x y = refl

-- Below MAX_CONCURRENT_TASKS the available skills are, in the order of registration, those of the
-- registered ones whose type, if it is not empty and has a limit, has a load below the limit, and
-- which the capacity checker, if there is one, takes; the hot skills are those of them that have
-- dependencies with all of these hot, or, without an entry in the dependencies, are hot
-- themselves. At the limit there are none of either.
pub get_current_state_tiers :
    (w : Worker)
    → let has_capacity = ltb_ℤ w.current_load (pos w.max_concurrent_tasks) in
      (offered : Handler → Bool) × (hot : Handler → Bool) × Decides (IsOffered w) offered
      × Decides (λ h. IsOffered w h × IsReady w h.info.name) hot
      × ((get_current_state w).available_skills
          ≡ (if has_capacity then infos_where offered (handlers w) else []))
      × ((get_current_state w).hot_skills
          ≡ (if has_capacity then infos_where hot (handlers w) else []))
get_current_state_tiers w =
    let (available, hot) = tiers_by_tests w in
    let has_capacity = ltb_ℤ w.current_load (pos w.max_concurrent_tasks) in
    (
      is_available w,
      is_hot_now w,
      is_available-Decides w,
      is_hot_now-Decides w,
      available ∙ if_not has_capacity [] _,
      hot ∙ if_not has_capacity [] _,
    )

supported_of_state :
    (w : Worker)
    → (get_current_state w).supported_skills ≡ map (λ (h : Handler). h.info) (handlers w)
unfolding get_current_state
supported_of_state w = elim (Bool-cases (is_at_capacity w)) [
  | inl at_limit ↦ rw at_limit
  | inr below ↦ rw below
]

-- The hot skills are among the available ones, and these among the supported ones, each in order.
pub get_current_state-sublist :
    (w : Worker)
    → let s = get_current_state w in
      Sublist s.hot_skills s.available_skills × Sublist s.available_skills s.supported_skills
get_current_state-sublist w =
    let (available, hot) = tiers_by_tests w in
    rw (available, hot, supported_of_state w)
      (elim (Bool-cases (is_at_capacity w)) [
        | inl at_limit ↦ rw at_limit (Sublist.refl [], nil-sublist _)
        | inr below ↦
            rw below (infos_where-sublist (is_available w) _ _, infos_where-sublist_all _ _)
      ])

-- The worker is full exactly at its task limit, and idle exactly when some skill is available.
pub get_current_state-status :
    (w : Worker)
    → let s = get_current_state w in
      ((s.status ≡ full) ↔ (is_at_capacity w ≡ true))
      × ((s.status ≡ idle) ↔ (s.available_skills ≢ []))
unfolding get_current_state
get_current_state-status w = ground arith
