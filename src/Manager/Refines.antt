-- ===== src/Manager/Refines.antt =====
-- The life of a connection keeps to the protocol.
use avtomatika_worker.Base.{
  ℕ, ◌+◌, ◌≤◌, ◌≡◌, refl, sym, subst, Bool, true, false, List, [], ◌∷◌, if◌then◌else◌,
}
use avtomatika_worker.Base.Int.{ℤ}
use avtomatika_worker.Backoff.{Delays, Parsers}
use avtomatika_worker.Session.{
  accepted, refused, registration_delay, Then, wait, register_again, heartbeat_step,
}
use avtomatika_worker.Manager.{
  Place, registering, beating, ended, Manager, Turn, registration, refusal, after_heartbeat,
  turn_at, heartbeat, silence, new_manager, registration_turn, heartbeat_turn, manager_turn,
  manage_single_orchestrator,
}
use avtomatika_worker.Manager.Protocol.{
  Standing, unknown, known, gone, Step, registers, is_refused, beats, is_lost, leaves,
  registers_last, is_refused_last, beats_last, Steps, nothing, and_then, registrations, losses,
  Steps-Bounded,
}

-- What the orchestrator knows at a place.
abbrev pub standing : Place → Standing
standing (registering delay) = unknown
standing beating = known
standing ended = gone

after_answer : (b : Bool) → Step unknown registration (standing (if b then ended else beating))
after_answer true = registers_last
after_answer false = registers

after_refusal :
    (b : Bool) (n : ℕ) → Step unknown (refusal n) (standing (if b then ended else registering n))
after_refusal true n = is_refused_last
after_refusal false n = is_refused

after_beat : (b : Bool) (n : ℤ) → Step known (heartbeat n) (standing (if b then ended else beating))
after_beat true n = beats_last
after_beat false n = beats

module _ (d : Delays) (p : Parsers) where
  registration-Step :
      (t : Turn) (delay : ℕ) (m : Manager)
      → let (m', act) = registration_turn d p t delay m in Step unknown act (standing m'.place)
  unfolding registration_turn
  registration-Step t delay m =
      elim t.answer
        as (λ a.
          let (m', act) = registration_turn d p (record t { answer = a }) delay m in
          Step unknown act (standing m'.place)) [
            | accepted ↦ after_answer t.is_shut_down_then
            | refused e ↦ after_refusal t.interrupts (registration_delay d p delay e)
          ]

  after_heartbeat-Step :
      (t : Turn) (m : Manager) (backoff : ℕ) (next : Then)
      → let (m', act) = after_heartbeat d t m backoff next in Step known act (standing m'.place)
  after_heartbeat-Step t m backoff (wait delay) = after_beat t.interrupts delay
  after_heartbeat-Step t m backoff register_again = is_lost

  turn_at-Step :
      (t : Turn) (place : Place) (m : Manager)
      → standing m.place ≡ standing place
      → let (m', act) = turn_at d p t place m in Step (standing place) act (standing m'.place)
  unfolding turn_at heartbeat_turn
  turn_at-Step t (registering delay) m same = registration-Step t delay m
  turn_at-Step t beating m same =
      let (backoff, next) = heartbeat_step d p m.hb_backoff t.heartbeat in
      after_heartbeat-Step t m backoff next
  turn_at-Step t ended m same = subst (Step gone silence) (sym same) leaves

  turn-Step :
      (t : Turn) (m : Manager)
      → let (m', act) = manager_turn d p t m in Step (standing m.place) act (standing m'.place)
  unfolding manager_turn
  turn-Step t m =
      elim t.is_shut_down
        as (λ b.
          let (m', act) = manager_turn d p (record t { is_shut_down = b }) m in
          Step (standing m.place) act (standing m'.place)) [
            | true ↦ leaves
            | false ↦ turn_at-Step (record t { is_shut_down = false }) m.place m refl
          ]

  -- Whatever the orchestrator answers and whenever the shutdown event is set, the rounds of
  -- _manage_single_orchestrator for one connection keep to the protocol of registrations and
  -- heartbeats: an unknown worker registers, a known one sends heartbeats, after a lost session it
  -- registers again, and once the manager has ended it makes no more calls.
  pub manager-Steps :
      (ts : List Turn) (m : Manager)
      → let (end, acts) = manage_single_orchestrator d p ts m in
        Steps (standing m.place) acts (standing end.place)
  unfolding manage_single_orchestrator
  manager-Steps [] m = nothing
  manager-Steps (t ∷ ts) m = and_then (turn-Step t m) (manager-Steps ts (manager_turn d p t m).0)

  -- From the start on, the registrations that are accepted are as many as the lost sessions, or
  -- one more.
  pub one_registration_for_each_loss :
      (ts : List Turn)
      → let acts = (manage_single_orchestrator d p ts (new_manager d)).1 in
        (losses acts ≤ registrations acts) × (registrations acts ≤ losses acts + 1)
  one_registration_for_each_loss ts = Steps-Bounded (manager-Steps ts (new_manager d))
