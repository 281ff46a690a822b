-- ===== src/Manager.antt =====
-- worker.py: `_manage_single_orchestrator`, the life of one orchestrator's connection. A turn is one
-- round of one of its loops, that of `_register_client_with_retry` or that of the heartbeats.
pub mod Protocol
pub mod Refines
use avtomatika_worker.Base.{
  ℕ, String, Bool, true, false, List, [], ◌∷◌, Option, none, some, if◌then◌else◌,
}
use avtomatika_worker.Base.Int.{ℤ, pos}
use avtomatika_worker.Backoff.{Delays, Parsers}
use avtomatika_worker.Session.{
  Attempt, accepted, refused, registration_delay, HeartbeatEnd, sent, limited, session_lost,
  rxon_error, unexpected, Then, wait, register_again, heartbeat_step,
}

-- Where the task is: in the retry loop with its `delay`, in the heartbeat loop, or at its end.
pub data Place : Type 0 where
  registering : ℕ → Place
  beating : Place
  ended : Place

-- The place, and the fields of `Worker` that change: `_hb_backoffs[client]`,
-- `_last_synced_skills_hash`, and whether `_registered_event` is set.
pub record Manager : Type 0 where
  pub place : Place
  pub hb_backoff : ℕ
  pub last_synced_skills_hash : Option String
  pub registered_event : Bool

-- What happens in a turn: whether the shutdown event is set at its start, after the answer to a
-- registration, and during the wait at its end; the synced hash that the making of the registration's
-- payload leaves; the two possible answers; and the synced hash that `_send_single_heartbeat` leaves.
pub record Turn : Type 0 where
  pub is_shut_down : Bool
  pub is_shut_down_then : Bool
  pub interrupts : Bool
  pub payload_hash : Option String
  pub answer : Attempt
  pub heartbeat : HeartbeatEnd
  pub synced_hash : Option String

-- What the manager brings about at the orchestrator in a turn: a registration that it takes or refuses, a heartbeat in a
-- session that it knows or has lost, or nothing; and how long the worker waits after it.
pub data Act : Type 0 where
  registration : Act
  refusal : ℕ → Act
  heartbeat : ℤ → Act
  loss : Act
  silence : Act

abbrev pub new_manager : Delays → Manager
new_manager d = record {
  place = registering d.registration_retry_initial_delay;
  hb_backoff = 0;
  last_synced_skills_hash = none;
  registered_event = false;
}

abbrev pub at : Place → Manager → Manager
at p m = record m { place = p }

-- After an answered registration: `_registered_event.set()`, and the test of the outer loop.
abbrev pub on_registered : Turn → Manager → Manager
on_registered t m = record m {
  place = if t.is_shut_down_then then ended else beating;
  registered_event = true;
}

abbrev pub with_payload : Turn → Manager → Manager
with_payload t m = record m { last_synced_skills_hash = t.payload_hash }

-- A round of the retry loop.
unfoldable pub registration_turn : Delays → Parsers → Turn → ℕ → Manager → Manager × Act
registration_turn d p t delay m = elim t.answer [
  | accepted ↦ (on_registered t (with_payload t m), registration)
  | refused e ↦
      let next = registration_delay d p delay e in
      (at (if t.interrupts then ended else registering next) (with_payload t m), refusal next)
]

-- What follows a heartbeat; a lost session leads to a new call of the retry loop.
abbrev pub after_heartbeat : Delays → Turn → Manager → ℕ → Then → Manager × Act
after_heartbeat d t m backoff (wait delay) = (
  record {
    place = if t.interrupts then ended else beating;
    hb_backoff = backoff;
    last_synced_skills_hash = t.synced_hash;
    registered_event = m.registered_event;
  },
  heartbeat delay,
)
after_heartbeat d t m backoff register_again = (
  record {
    place = registering d.registration_retry_initial_delay;
    hb_backoff = backoff;
    last_synced_skills_hash = none;
    registered_event = m.registered_event;
  },
  loss,
)

-- A round of the heartbeat loop.
unfoldable pub heartbeat_turn : Delays → Parsers → Turn → Manager → Manager × Act
heartbeat_turn d p t m =
    let (backoff, next) = heartbeat_step d p m.hb_backoff t.heartbeat in
    after_heartbeat d t m backoff next

-- What a turn does at a place, while the shutdown event is not set.
unfoldable pub turn_at : Delays → Parsers → Turn → Place → Manager → Manager × Act
turn_at d p t (registering delay) m = registration_turn d p t delay m
turn_at d p t beating m = heartbeat_turn d p t m
turn_at d p t ended m = (m, silence)

unfoldable pub manager_turn : Delays → Parsers → Turn → Manager → Manager × Act
manager_turn d p t m =
    let goes_on = turn_at d p t m.place m in
    if t.is_shut_down then (at ended m, silence) else goes_on

-- `_manage_single_orchestrator`, over the turns that are taken: the end, and what was seen.
unfoldable pub manage_single_orchestrator :
    Delays → Parsers → List Turn → Manager → Manager × List Act
manage_single_orchestrator d p [] m = (m, [])
manage_single_orchestrator d p (t ∷ ts) m =
    let (m', act) = manager_turn d p t m in
    let (end, acts) = manage_single_orchestrator d p ts m' in (end, act ∷ acts)
