-- ===== src/Session.antt =====
-- worker.py: `_register_client_with_retry`, and the heartbeat loop of `_manage_single_orchestrator`.
pub mod Retry
pub mod Loop
use avtomatika_worker.Base.{
  ℕ, zero, suc, ◌*◌, Bool, true, false, List, [], ◌∷◌, Option, none, some, if◌then◌else◌,
}
use avtomatika_worker.Base.Int.{ℤ, pos, ◌+ℤ◌}
use avtomatika_worker.Backoff.{
  Delays, Parsers, RetryAfter, Failure, rate_limited, failed, next_delay,
}

-- What `_safe_register` does: it returns, or raises a rate limit or another exception.
pub data Attempt : Type 0 where
  accepted : Attempt
  refused : Failure → Attempt

-- How the retries end. `unfinished` is a run whose fuel is used up.
pub data Ending : Type 0 where
  registered : Ending
  shut_down : Ending
  unfinished : Ending

pub record Run : Type 0 where
  pub ending : Ending
  pub attempts : ℕ
  pub waits : List ℕ

abbrev pub at_once : Ending → Run
at_once e = record { ending = e; attempts = 0; waits = [] }

-- One more attempt and a wait before what follows.
abbrev pub after_wait : ℕ → Run → Run
after_wait t r = record { ending = r.ending; attempts = suc r.attempts; waits = t ∷ r.waits }

-- What happens around attempt `i`: whether the shutdown event is set before it, its answer, and
-- whether the event is set during the wait after it.
pub record Course : Type 0 where
  pub is_shut_down : ℕ → Bool
  pub answer : ℕ → Attempt
  pub interrupts : ℕ → Bool

abbrev pub registration_delay : Delays → Parsers → ℕ → Failure → ℕ
registration_delay d p delay e =
    next_delay p d.rate_limit_backoff_floor d.registration_retry_initial_delay
      d.registration_retry_max_delay delay e

-- The `while` loop, with fuel, from attempt `i` on.
unfoldable pub register_with_retry : Delays → Parsers → Course → ℕ → ℕ → ℕ → Run
register_with_retry d p c zero i delay = at_once unfinished
register_with_retry d p c (suc fuel) i delay =
    let first : Run = elim (c.answer i) [
      | accepted ↦ record { ending = registered; attempts = 1; waits = [] }
      | refused e ↦
          let rest = register_with_retry d p c fuel (suc i) (registration_delay d p delay e) in
          after_wait (registration_delay d p delay e)
            (if c.interrupts i then at_once shut_down else rest)
    ] in
    if c.is_shut_down i then at_once shut_down else first

-- `_register_client_with_retry`
abbrev pub register_client_with_retry : Delays → Parsers → Course → ℕ → Run
register_client_with_retry d p c fuel =
    register_with_retry d p c fuel 0 d.registration_retry_initial_delay

-- What a heartbeat in the loop does: it returns its jitter in milliseconds, or raises a rate limit, an
-- RxonError that tells of a lost session ("not found" or "unauthorized" in its message), another
-- RxonError, or another exception.
pub data HeartbeatEnd : Type 0 where
  sent : ℤ → HeartbeatEnd
  limited : RetryAfter → HeartbeatEnd
  session_lost : HeartbeatEnd
  rxon_error : HeartbeatEnd
  unexpected : HeartbeatEnd

-- What follows: a wait and the next heartbeat, or a new registration with the catalog to send again.
pub data Then : Type 0 where
  wait : ℤ → Then
  register_again : Then

abbrev pub heartbeat_delay : Delays → Parsers → ℕ → Failure → ℕ
heartbeat_delay d p backoff e =
    next_delay p d.rate_limit_backoff_floor d.heartbeat_interval d.poll_backoff_max backoff e

-- The body of the inner `while`: the new `_hb_backoffs[client]`, and what follows.
unfoldable pub heartbeat_step : Delays → Parsers → ℕ → HeartbeatEnd → ℕ × Then
heartbeat_step d p backoff (sent jitter) = (0, wait (pos d.heartbeat_interval +ℤ jitter))
heartbeat_step d p backoff (limited raw) =
    let new_backoff = heartbeat_delay d p backoff (rate_limited raw) in
    (new_backoff, wait (pos new_backoff))
heartbeat_step d p backoff session_lost = (backoff, register_again)
heartbeat_step d p backoff rxon_error =
    let new_backoff = heartbeat_delay d p backoff failed in (new_backoff, wait (pos new_backoff))
heartbeat_step d p backoff unexpected = (backoff, wait (pos d.heartbeat_interval))

-- The heartbeats of one session, over the ends of those to come: the waits between them, whether
-- the session was lost at the end, and the backoff that stays.
pub record Session : Type 0 where
  pub backoff : ℕ
  pub waits : List ℤ
  pub is_lost : Bool

-- The inner `while` over as many heartbeats as the list has.
unfoldable pub heartbeat_loop : Delays → Parsers → ℕ → List HeartbeatEnd → Session
heartbeat_loop d p backoff [] = record { backoff = backoff; waits = []; is_lost = false }
heartbeat_loop d p backoff (h ∷ hs) =
    let (new_backoff, next) = heartbeat_step d p backoff h in
    elim next [
      | register_again ↦ record { backoff = new_backoff; waits = []; is_lost = true }
      | wait t ↦
          let rest = heartbeat_loop d p new_backoff hs in record rest { waits = t ∷ rest.waits }
    ]
