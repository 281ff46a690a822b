-- ===== src/Load/Entries.antt =====
-- What one task does to the load, in all and for each skill type, and where a KeyError could arise.
use avtomatika_worker.Base.{
  ℕ, String, ◌≡◌, refl, Bool, false, Option, none, some, arith, ◌==◌, string_eq, if◌then◌else◌,
  true, Option-cases, inl, inr, ap, ◌∙◌,
}
use avtomatika_worker.Base.Dict
use avtomatika_worker.Base.Dict.{Dict, NodupKeys}
use avtomatika_worker.Base.Int.{ℤ, pos, +ℤ_parts, -ℤ_parts, eq_of_parts}
use avtomatika_worker.Worker.{Worker, load_of}
use avtomatika_worker.Worker.Registry.{IsRegistry}
use avtomatika_worker.Load.{
  Task, done, slot_of, bump, one_more, one_less, accept_task, release_task, count_slot, store_task,
}

abbrev pub is_slot : Option String → String → Bool
is_slot none t = false
is_slot (some s) t = t == s

pub one_less-one_more : (n : ℤ) → one_less (one_more n) ≡ n
one_less-one_more n =
    eq_of_parts _ _ (omega (arith, -ℤ_parts (one_more n) (pos 1), +ℤ_parts n (pos 1)))

-- The load of every type after one type's was changed.
load_of-bump :
    (f : ℤ → ℤ) (t j : String) (loads loads' : Dict String ℤ)
    → bump f t loads ≡ some loads'
    → load_of j loads' ≡ (if j == t then f (load_of j loads) else load_of j loads)
unfolding bump
load_of-bump f t j loads loads' e =
    ground (arith, Dict.lookup-insert j t (f (load_of t loads)) loads)

-- A worker after one task was counted in or out by `f`, under the type `slot`.
pub record Counted (f : ℤ → ℤ) (slot : Option String) (w u : Worker) : Type 0 where
  pub total : u.current_load ≡ f w.current_load
  pub by_type :
      (j : String)
      → load_of j u.current_load_by_type ≡ (
          if is_slot slot j
          then f (load_of j w.current_load_by_type)
          else load_of j w.current_load_by_type)
  pub same_max : u.max_concurrent_tasks ≡ w.max_concurrent_tasks
  pub same_limits : u.skill_type_limits ≡ w.skill_type_limits
  pub same_handlers : u.skill_handlers ≡ w.skill_handlers

-- What a `count_slot` that raises no KeyError leaves.
count_slot-eq_done :
    (f : ℤ → ℤ) (slot : Option String) (w u : Worker) (next : Worker → Worker)
    → count_slot f slot w next ≡ done u
    → (loads : Dict String ℤ) × (u ≡ next (record w { current_load_by_type = loads }))
      × ((j : String)
          → load_of j loads ≡ (
              if is_slot slot j
              then f (load_of j w.current_load_by_type)
              else load_of j w.current_load_by_type))
unfolding count_slot
count_slot-eq_done f none w u next e = (w.current_load_by_type, ground arith, λ j. refl)
count_slot-eq_done f (some t) w u next e = elim (Option-cases (bump f t w.current_load_by_type)) [
  | inl missing ↦ absurd (ground arith)
  | inr (loads, found) ↦
      (loads, ground arith, λ j. load_of-bump f t j w.current_load_by_type loads found)
]

pub accept_task-Counted :
    (t : Task) (handle : ℕ) (w u : Worker)
    → accept_task t handle w ≡ done u
    → Counted one_more (slot_of w t.type) w u
unfolding accept_task
accept_task-Counted t handle w u e =
    let (loads, is_u, entries) = count_slot-eq_done one_more (slot_of w t.type) _ u _ e in
    record {
      total = ap (λ (v : Worker). v.current_load) is_u;
      by_type = λ j. ap (λ (v : Worker). load_of j v.current_load_by_type) is_u ∙ entries j;
      same_max = ap (λ (v : Worker). v.max_concurrent_tasks) is_u;
      same_limits = ap (λ (v : Worker). v.skill_type_limits) is_u;
      same_handlers = ap (λ (v : Worker). v.skill_handlers) is_u;
    }

pub release_task-Counted :
    (t : Task) (slot : Option String) (w u : Worker)
    → release_task t slot w ≡ done u
    → Counted one_less slot w u
unfolding release_task
release_task-Counted t slot w u e =
    let (loads, is_u, entries) = count_slot-eq_done one_less slot _ u _ e in
    record {
      total = ap (λ (v : Worker). v.current_load) is_u;
      by_type = λ j. ap (λ (v : Worker). load_of j v.current_load_by_type) is_u ∙ entries j;
      same_max = ap (λ (v : Worker). v.max_concurrent_tasks) is_u;
      same_limits = ap (λ (v : Worker). v.skill_type_limits) is_u;
      same_handlers = ap (λ (v : Worker). v.skill_handlers) is_u;
    }

-- The task is no longer among the active ones.
pub release_task-gone :
    (t : Task) (slot : Option String) (w u : Worker)
    → release_task t slot w ≡ done u
    → Dict.lookup t.task_id u.active_tasks ≡ none
unfolding release_task
release_task-gone t slot w u e =
    let (loads, is_u, entries) = count_slot-eq_done one_less slot _ u _ e in
    ap (λ (v : Worker). Dict.lookup t.task_id v.active_tasks) is_u
    ∙ ground (arith, Dict.lookup-erase t.task_id t.task_id w.active_tasks)

bump-total :
    (f : ℤ → ℤ) (t : String) (loads : Dict String ℤ)
    → Dict.has_key t loads ≡ true
    → (loads' : Dict String ℤ) × (bump f t loads ≡ some loads')
      × ((j : String) → Dict.has_key j loads ≡ true → Dict.has_key j loads' ≡ true)
unfolding bump
bump-total f t loads h = elim (Option-cases (Dict.lookup t loads)) [
  | inl missing ↦ absurd (ground (arith, h, missing))
  | inr (n, found) ↦ (
    Dict.insert t (f n) loads,
    ground (arith, found),
    λ j k. ground (arith, Dict.lookup-insert j t (f n) loads),
  )
]

slot_of-has_key :
    (w : Worker) (name t : String)
    → IsRegistry w
    → slot_of w name ≡ some t
    → Dict.has_key t w.current_load_by_type ≡ true
slot_of-has_key w name t r e = elim (Option-cases (Dict.lookup name w.skill_handlers)) [
  | inl missing ↦ absurd (ground (arith, e, missing))
  | inr (h, found) ↦ ground (arith, e, found, r.entries name h)
]

-- Receiving a task raises no KeyError, and keeps the registry well formed.
pub accept_task_total :
    (t : Task) (handle : ℕ) (w : Worker)
    → IsRegistry w
    → (u : Worker) × (accept_task t handle w ≡ done u) × IsRegistry u
unfolding accept_task
accept_task_total t handle w r = elim (Option-cases (slot_of w t.type)) [
  | inl free ↦ (
    store_task t.task_id handle (record w { current_load = one_more w.current_load }),
    rw free,
    record { named = r.named; nodup = r.nodup; entries = r.entries },
  )
  | inr (ty, limited) ↦
      let (loads, found, keys) =
        bump-total one_more ty w.current_load_by_type (slot_of-has_key w t.type ty r limited) in
      (
        store_task t.task_id handle
            (record w { current_load = one_more w.current_load; current_load_by_type = loads }),
        rw limited (ground (arith, found)),
        record {
          named = r.named;
          nodup = r.nodup;
          entries = λ name h e filled. keys h.type (r.entries name h e filled);
        },
      )
]

-- Giving a task's place back raises no KeyError either, while its handler is still registered.
pub release_task_total :
    (t : Task) (w : Worker)
    → IsRegistry w
    → (v : Worker) × (release_task t (slot_of w t.type) w ≡ done v)
unfolding release_task
release_task_total t w r = elim (Option-cases (slot_of w t.type)) [
  | inl free ↦ (
    record w {
      active_tasks = Dict.erase t.task_id w.active_tasks;
      current_load = one_less w.current_load;
    },
    rw free,
  )
  | inr (ty, limited) ↦
      let (loads, found, keys) =
        bump-total one_less ty w.current_load_by_type (slot_of-has_key w t.type ty r limited) in
      (
        record w {
          active_tasks = Dict.erase t.task_id w.active_tasks;
          current_load = one_less w.current_load;
          current_load_by_type = loads;
        },
        rw limited (ground (arith, found)),
      )
]
