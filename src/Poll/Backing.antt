-- ===== src/Poll/Backing.antt =====
-- A poll's backoff: when the orchestrator is asked again, and whom the backoff concerns.
use avtomatika_worker.Base.{
  ℕ, ◌+◌, ◌<◌, ◌≡◌, ◌≢◌, ◌⊎◌, inl, inr, refl, String, true, false, List, [], ◌∷◌, arith, ltb, ◌==◌,
  nat_eq, if◌then◌else◌, Bool-cases, map,
}
use avtomatika_worker.Base.Dict
use avtomatika_worker.Base.Dict.{Dict}
use avtomatika_worker.Base.Int.{pos, ◌≤ℤ◌}
use avtomatika_worker.Worker.{SkillInfo, idle, get_current_state}
use avtomatika_worker.Worker.Tiers.{get_current_state-status}
use avtomatika_worker.Load.{Task, offer}
use avtomatika_worker.Backoff.{
  Delays, Parsers, Failure, RetryAfter, rate_limited, next_delay, parse_retry_after,
}
use avtomatika_worker.Backoff.Bounds.{next_delay_rate_limited}
use avtomatika_worker.Poll.{
  Poller, Reply, task, no_task, backs_off, rxon_error, skipped, get_or_zero, on_reply, may_poll,
  poll_for_tasks_with_status, is_idle,
}

get_or_zero-insert :
    (j k v : ℕ) (d : Dict ℕ ℕ)
    → get_or_zero j (Dict.insert k v d) ≡ (if j == k then v else get_or_zero j d)
get_or_zero-insert j k v d = ground (arith, Dict.lookup-insert j k v d)

get_or_zero-erase :
    (j k : ℕ) (d : Dict ℕ ℕ)
    → get_or_zero j (Dict.erase k d) ≡ (if j == k then 0 else get_or_zero j d)
get_or_zero-erase j k d = ground (arith, Dict.lookup-erase j k d)

offer-cons :
    (l : List SkillInfo)
    → l ≢ []
    → (n : String) × (ns : List String) × (map (λ (i : SkillInfo). i.name) l ≡ n ∷ ns)
offer-cons [] h = absurd (h refl)
offer-cons (i ∷ l) h = (i.name, map (λ (i : SkillInfo). i.name) l, refl)

module _ (d : Delays) (ps : Parsers) (client now later handle : ℕ) (answer : List String → Reply)
    (p : Poller) where
  -- Past the guards some skill is on offer, and the reply to it decides.
  polled :
      may_poll client now p ≡ true
      → poll_for_tasks_with_status d ps client now later handle answer p
        ≡ on_reply d ps client later handle (answer (offer (get_current_state p.worker))) p
  unfolding poll_for_tasks_with_status
  polled may =
      let is_idle_now : (get_current_state p.worker).status ≡ idle = ground (arith, may) in
      let (n, ns, e) =
        offer-cons (get_current_state p.worker).available_skills
          ((get_current_state-status p.worker).1.0 is_idle_now) in
      ground (arith, may, e)

  not_polled :
      may_poll client now p ≡ false
      → poll_for_tasks_with_status d ps client now later handle answer p ≡ (p, skipped)
  unfolding poll_for_tasks_with_status
  not_polled may_not = ground (arith, may_not)

  -- What the reply does to the two dicts, seen from any transport `c`.
  on_reply-other :
      (r : Reply) (c : ℕ)
      → c ≢ client
      → let q = (on_reply d ps client later handle r p).0 in
        (get_or_zero c q.poll_backoffs ≡ get_or_zero c p.poll_backoffs)
        × (get_or_zero c q.next_poll_time ≡ get_or_zero c p.next_poll_time)
  unfolding on_reply
  on_reply-other (task t) c ne = ground (
    arith,
    get_or_zero-erase c client p.poll_backoffs,
    get_or_zero-erase c client p.next_poll_time,
  )
  on_reply-other no_task c ne = ground (
    arith,
    get_or_zero-erase c client p.poll_backoffs,
    get_or_zero-erase c client p.next_poll_time,
  )
  on_reply-other (backs_off e) c ne =
      let delay =
        next_delay ps d.rate_limit_backoff_floor d.poll_backoff_initial d.poll_backoff_max
          (get_or_zero client p.poll_backoffs) e in
      ground (
        arith,
        get_or_zero-insert c client delay p.poll_backoffs,
        get_or_zero-insert c client (later + delay) p.next_poll_time,
      )
  on_reply-other rxon_error c ne = (refl, refl)

  -- A poll of one orchestrator leaves the backoff and the next poll time of every other one as
  -- they were, whatever it answers.
  pub poll_isolated :
      (c : ℕ)
      → c ≢ client
      → let q = (poll_for_tasks_with_status d ps client now later handle answer p).0 in
        (get_or_zero c q.poll_backoffs ≡ get_or_zero c p.poll_backoffs)
        × (get_or_zero c q.next_poll_time ≡ get_or_zero c p.next_poll_time)
  poll_isolated c ne = elim (Bool-cases (may_poll client now p)) [
    | inl may ↦ rw (polled may) (on_reply-other (answer (offer (get_current_state p.worker))) c ne)
    | inr may_not ↦ rw (not_polled may_not) (refl, refl)
  ]

  -- After a poll that was let through and met a rate limit or a network error the worker is
  -- unchanged, and the orchestrator is not asked again before the computed delay has passed; from
  -- then on it is asked as soon as some skill is available.
  pub poll_backs_off :
      (e : Failure) (t : ℕ)
      → may_poll client now p ≡ true
      → answer (offer (get_current_state p.worker)) ≡ backs_off e
      → let q = (poll_for_tasks_with_status d ps client now later handle answer p).0 in
        let delay =
          next_delay ps d.rate_limit_backoff_floor d.poll_backoff_initial d.poll_backoff_max
            (get_or_zero client p.poll_backoffs)
            e in
        (q.worker ≡ p.worker)
        × (may_poll client t q ≡ (
            if ltb t (later + delay) then false else is_idle (get_current_state p.worker).status))
  unfolding on_reply may_poll
  poll_backs_off e t may r =
      let delay =
        next_delay ps d.rate_limit_backoff_floor d.poll_backoff_initial d.poll_backoff_max
          (get_or_zero client p.poll_backoffs) e in
      rw (polled may, r)
        (refl, ground (arith, get_or_zero-insert client client (later + delay) p.next_poll_time))

  on_reply-clears :
      (r : Reply)
      → (r ≡ no_task) ⊎ ((t : Task) × (r ≡ task t))
      → let q = (on_reply d ps client later handle r p).0 in
        (get_or_zero client q.poll_backoffs ≡ 0) × (get_or_zero client q.next_poll_time ≡ 0)
  unfolding on_reply
  on_reply-clears r ok = ground (
    arith,
    ok,
    get_or_zero-erase client client p.poll_backoffs,
    get_or_zero-erase client client p.next_poll_time,
  )

  -- An answer without an error clears the orchestrator's backoff.
  pub poll_clears :
      may_poll client now p ≡ true
      → (let r = answer (offer (get_current_state p.worker)) in
          (r ≡ no_task) ⊎ ((t : Task) × (r ≡ task t)))
      → let q = (poll_for_tasks_with_status d ps client now later handle answer p).0 in
        (get_or_zero client q.poll_backoffs ≡ 0) × (get_or_zero client q.next_poll_time ≡ 0)
  poll_clears may ok =
      rw (polled may) (on_reply-clears (answer (offer (get_current_state p.worker))) ok)

  -- After a poll that was let through and met a rate limit without a positive Retry-After the
  -- orchestrator is not asked again before RATE_LIMIT_BACKOFF_FLOOR has passed, whatever
  -- POLL_BACKOFF_MAX says.
  pub poll_floor :
      (raw : RetryAfter) (t : ℕ)
      → may_poll client now p ≡ true
      → answer (offer (get_current_state p.worker)) ≡ backs_off (rate_limited raw)
      → parse_retry_after ps raw ≤ℤ pos 0
      → t < later + d.rate_limit_backoff_floor
      → may_poll client t (poll_for_tasks_with_status d ps client now later handle answer p).0
        ≡ false
  poll_floor raw t may r none_given early =
      let current = get_or_zero client p.poll_backoffs in
      ground (
        arith,
        (poll_backs_off (rate_limited raw) t may r).1,
        next_delay_rate_limited ps d.rate_limit_backoff_floor d.poll_backoff_initial
            d.poll_backoff_max current raw,
      )
