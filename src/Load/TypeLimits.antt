-- ===== src/Load/TypeLimits.antt =====
-- `skill_type_limits`. The worker does not check a received task against them; it only offers what
-- they leave room for.
use avtomatika_worker.Base.{
  ℕ, ◌+◌, ◌≤◌, ◌<◌, String, ◌≡◌, refl, sym, ap, ◌∙◌, Bool, true, Option, none, some, List, [], ◌∷◌,
  ◌++◌, arith, count_if-middle, if◌then◌else◌, Bool-cases, Option-cases, inl, inr, contains,
  string_eq, ◌≢◌, ◌==◌, map,
}
use avtomatika_worker.Base.Dict
use avtomatika_worker.Base.Dict.{Dict, NodupKeys}
use avtomatika_worker.Base.Int
use avtomatika_worker.Base.Int.{ℤ, pos}
use avtomatika_worker.Worker.{
  Worker, Handler, SkillInfo, get_current_state, load_of, add_to_hot_skills, remove_from_hot_skills,
  is_available, is_at_capacity, handlers,
}
use avtomatika_worker.Worker.Tiers.{tiers_by_tests, infos_where}
use avtomatika_worker.Worker.Registry.{IsNamed}
use avtomatika_worker.Load.{
  Running, System, Step, begin_poll, end_poll, receive, finish, reject, heat, cool, Reach, here,
  next, one_more, slot_of, offer,
}
use avtomatika_worker.Load.Entries.{is_slot, Counted, accept_task-Counted, release_task-Counted}
use avtomatika_worker.Load.Accounting.{Accounts, slots, Step-Accounts}
use avtomatika_worker.Load.Limits.{counted_as}

abbrev names_where : (Handler → Bool) → Dict String Handler → List String
names_where p d = map (λ (i : SkillInfo). i.name) (infos_where p (map (λ (_, h). h) d))

names_where-lookup :
    (p : Handler → Bool) (d : Dict String Handler) (name : String)
    → IsNamed d
    → contains (names_where p d) name ≡ true
    → Dict.lookup name d ≢ none
names_where-lookup p [] name named c = cc
names_where-lookup p ((k, h) ∷ d) name (is_k, named) c =
    ground (arith, Dict.lookup-cons name k h d, names_where-lookup p d name named)

-- A name that is offered belongs to a handler that passes the test.
names_where-holds :
    (p : Handler → Bool) (d : Dict String Handler) (name : String) (h : Handler)
    → IsNamed d
    → NodupKeys d
    → contains (names_where p d) name ≡ true
    → Dict.lookup name d ≡ some h
    → p h ≡ true
names_where-holds p [] name h named u c found = absurd cc
names_where-holds p ((k, g) ∷ d) name h (is_k, named) (fresh, u) c found = ground (
  arith,
  Dict.lookup-cons name k g d,
  names_where-lookup p d name named,
  names_where-holds p d name h named u,
)

available_room :
    (w : Worker) (h : Handler) (t : String) (limit : ℕ)
    → is_available w h ≡ true
    → (if h.type == "" then none else some h.type) ≡ some t
    → Dict.lookup t w.skill_type_limits ≡ some limit
    → Int.ltb_ℤ (load_of t w.current_load_by_type) (pos limit) ≡ true
unfolding is_available
available_room w h t limit ok is_t found = ground arith

offered-available :
    (w : Worker) (name : String) (h : Handler)
    → IsNamed w.skill_handlers
    → NodupKeys w.skill_handlers
    → contains (offer (get_current_state w)) name ≡ true
    → Dict.lookup name w.skill_handlers ≡ some h
    → is_available w h ≡ true
offered-available w name h named u c found =
    let c' : contains
          (map (λ (i : SkillInfo). i.name)
            (if is_at_capacity w then [] else infos_where (is_available w) (handlers w)))
          name
        ≡ true =
      rw ((tiers_by_tests w).0) at c in
    elim (Bool-cases (is_at_capacity w)) [
      | inl at_limit ↦ absurd (ground (arith, c', at_limit))
      | inr below ↦
          names_where-holds (is_available w) w.skill_handlers name h named u (rw below at c') found
    ]

is_slot-eq : (slot : Option String) (t : String) → is_slot slot t ≡ true → slot ≡ some t
is_slot-eq none t h = absurd cc
is_slot-eq (some u) t h = ground arith

pub record WithinTypeLimits (s : System) : Type 0 where
  pub accounts : Accounts s
  pub named : IsNamed s.worker.skill_handlers
  pub nodup : NodupKeys s.worker.skill_handlers
  pub within :
      (t : String) (limit : ℕ)
      → Dict.lookup t s.worker.skill_type_limits ≡ some limit
      → counted_as t s ≤ limit
  pub room :
      (names : List String) (t : String) (limit : ℕ) (name : String)
      → s.polling ≡ some names
      → contains names name ≡ true
      → slot_of s.worker name ≡ some t
      → Dict.lookup t s.worker.skill_type_limits ≡ some limit
      → counted_as t s < limit

module _ (s : System) (i : WithinTypeLimits s) where
  begin_poll-room :
      (t : String) (limit : ℕ) (name : String)
      → contains (offer (get_current_state s.worker)) name ≡ true
      → slot_of s.worker name ≡ some t
      → Dict.lookup t s.worker.skill_type_limits ≡ some limit
      → counted_as t s < limit
  begin_poll-room t limit name is_offered of_type limited =
      elim (Option-cases (Dict.lookup name s.worker.skill_handlers)) [
        | inl missing ↦ absurd (ground (arith, of_type, missing))
        | inr (h, found) ↦
            let is_t : (if h.type == "" then none else some h.type) ≡ some t =
              ground (arith, of_type, found) in
            let ok = offered-available s.worker name h i.named i.nodup is_offered found in
            ground (arith, available_room s.worker h t limit ok is_t limited, i.accounts.by_type t)
      ]

  receive-within :
      (w : Worker) (r : Running) (names : List String)
      → Counted one_more r.slot s.worker w
      → s.polling ≡ some names
      → contains names r.task.type ≡ true
      → r.slot ≡ slot_of s.worker r.task.type
      → (t : String) (limit : ℕ) → Dict.lookup t s.worker.skill_type_limits ≡ some limit
      → slots t (r ∷ s.running) + slots t s.lost ≤ limit
  receive-within w r names c p is_offered is_slot_of t limit limited =
      elim (Bool-cases (is_slot r.slot t)) [
        | inl counts ↦ rw counts (
            omega (
              arith,
              i.room names t limit r.task.type p is_offered
                  (sym is_slot_of ∙ is_slot-eq r.slot t counts) limited,
            ))
        | inr other ↦ rw other (omega (arith, i.within t limit limited))
      ]

-- What a coroutine that leaves `running` takes away from a type's count.
slots-taken :
    (s : System) (before after : List Running) (r : Running) (t : String)
    → s.running ≡ before ++ (r ∷ after)
    → slots t s.running ≡ slots t (r ∷ []) + slots t (before ++ after)
slots-taken s before after r t e = omega (
  arith,
  ap (λ rs. slots t rs) e,
  count_if-middle (λ (q : Running). is_slot q.slot t) before after r,
)

Step-same :
    {honest : Bool} {s u : System}
    → Step honest s u
    → (u.worker.skill_type_limits ≡ s.worker.skill_type_limits)
      × (u.worker.skill_handlers ≡ s.worker.skill_handlers)
unfolding add_to_hot_skills remove_from_hot_skills
Step-same (begin_poll no_poll is_idle e) = rw e (refl, refl)
Step-same (end_poll names p e) = rw e (refl, refl)
Step-same {s = s} (receive names t handle w p fair accepted e) =
    let c = accept_task-Counted t handle s.worker w accepted in
    rw e (c.same_limits, c.same_handlers)
Step-same {s = s} (finish before after r w is_running released e) =
    let c = release_task-Counted r.task r.slot s.worker w released in
    rw e (c.same_limits, c.same_handlers)
Step-same (reject before after r is_running e) = rw e (refl, refl)
Step-same (heat item e) = rw e (refl, refl)
Step-same (cool item e) = rw e (refl, refl)

module _ {s u : System} where
  Step-within :
      Step true s u
      → WithinTypeLimits s
      → (t : String) (limit : ℕ) → Dict.lookup t s.worker.skill_type_limits ≡ some limit
      → counted_as t u ≤ limit
  Step-within (begin_poll no_poll is_idle e) i t limit l = rw e (i.within t limit l)
  Step-within (end_poll names p e) i t limit l = rw e (i.within t limit l)
  Step-within (receive names task handle w p fair accepted e) i t limit l = rw e (
      receive-within s i w (record { task = task; slot = slot_of s.worker task.type }) names
        (accept_task-Counted task handle s.worker w accepted) p (fair refl) refl t limit l)
  Step-within (finish before after r w is_running released e) i t limit l =
      rw e (omega (arith, i.within t limit l, slots-taken s before after r t is_running))
  Step-within (reject before after r is_running e) i t limit l =
      rw e (omega (arith, i.within t limit l, slots-taken s before after r t is_running))
  Step-within (heat item e) i t limit l = rw e (i.within t limit l)
  Step-within (cool item e) i t limit l = rw e (i.within t limit l)

  Step-room :
      Step true s u
      → WithinTypeLimits s
      → (names : List String) (t : String) (limit : ℕ) (name : String) → u.polling ≡ some names
      → contains names name ≡ true
      → slot_of s.worker name ≡ some t
      → Dict.lookup t s.worker.skill_type_limits ≡ some limit
      → counted_as t u < limit
  Step-room (begin_poll no_poll is_idle e) i names t limit name p o f l =
      let is_offer : offer (get_current_state s.worker) ≡ names = ground (arith, e, p) in
      rw e (begin_poll-room s i t limit name (rw (← is_offer) at o) f l)
  Step-room (end_poll old q e) i names t limit name p o f l = absurd (ground (arith, e, p))
  Step-room (receive old task handle w q fair accepted e) i names t limit name p o f l =
      absurd (ground (arith, e, p))
  Step-room (finish before after r w is_running released e) i names t limit name p o f l =
      let room = i.room names t limit name (sym (ap (λ (v : System). v.polling) e) ∙ p) o f l in
      rw e (omega (arith, room, slots-taken s before after r t is_running))
  Step-room (reject before after r is_running e) i names t limit name p o f l =
      let room = i.room names t limit name (sym (ap (λ (v : System). v.polling) e) ∙ p) o f l in
      rw e (omega (arith, room, slots-taken s before after r t is_running))
  Step-room (heat item e) i names t limit name p o f l =
      rw e (i.room names t limit name (sym (ap (λ (v : System). v.polling) e) ∙ p) o f l)
  Step-room (cool item e) i names t limit name p o f l =
      rw e (i.room names t limit name (sym (ap (λ (v : System). v.polling) e) ∙ p) o f l)

slot_of-same :
    (w u : Worker) (name : String)
    → u.skill_handlers ≡ w.skill_handlers
    → slot_of u name ≡ slot_of w name
slot_of-same w u name e = rw e

Step-WithinTypeLimits : {s u : System} → Step true s u → WithinTypeLimits s → WithinTypeLimits u
Step-WithinTypeLimits {s} {u} st i =
    let (limits, registry) = Step-same st in
    record {
      accounts = Step-Accounts st i.accounts;
      named = rw registry i.named;
      nodup = rw registry i.nodup;
      within = λ t limit l. Step-within st i t limit (rw limits at l);
      room = λ names t limit name p o f l.
          Step-room st i names t limit name p o
            (sym (slot_of-same s.worker u.worker name registry) ∙ f) (rw limits at l);
    }

-- With an orchestrator that sends only skills that were offered, and from a state with a
-- well-formed registry where the load is accounted for and no type is over its limit or without
-- room for a task that a poll under way offers, over every interleaving the running and lost
-- coroutines of a skill type stay within the limit of the type.
pub Reach-WithinTypeLimits :
    {s u : System} → WithinTypeLimits s → Reach true s u → WithinTypeLimits u
Reach-WithinTypeLimits i here = i
Reach-WithinTypeLimits i (next r st) = Step-WithinTypeLimits st (Reach-WithinTypeLimits i r)
