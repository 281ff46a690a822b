-- ===== src/Tests/Session.antt =====
-- Registrations and heartbeats of one orchestrator.
use avtomatika_worker.Base.{
  true, Bool, ℕ, ◌*◌, ◌^◌, ◌<◌, ◌≡◌, refl, false, List, [], ◌∷◌, arith, min, ltb, nat_eq,
  if◌then◌else◌,
}
use avtomatika_worker.Base.Int.{pos, negsuc}
use avtomatika_worker.Backoff.{absent, failed, next_delay, calculate_backoff, parse_retry_after}
use avtomatika_worker.Session.{
  Course, accepted, refused, registered, HeartbeatEnd, sent, limited, session_lost,
  register_client_with_retry, register_with_retry, heartbeat_loop,
}
use avtomatika_worker.Session.Retry.{IsRetried, Ends, registers_when_accepted}
use avtomatika_worker.Session.Loop.{failures, heartbeats_back_off}
use avtomatika_worker.Tests.Requests.{parsers, delays}

-- The first two attempts fail, and the third is accepted.
abbrev third_time : Course
third_time = record {
  is_shut_down = λ i. false;
  answer = λ i. if ltb i 2 then refused failed else accepted;
  interrupts = λ i. false;
}

-- The delay starts at its initial value, so that the first wait is already twice that.
waits_twice : (register_client_with_retry delays parsers third_time 3).waits ≡ 2000 ∷ 4000 ∷ []
unfolding register_with_retry next_delay calculate_backoff parse_retry_after nat_eq
waits_twice = refl

IsRetried-twice : (j : ℕ) → j < 2 → IsRetried third_time j
IsRetried-twice j h = record {
  goes_on = refl;
  why = failed;
  is_refused = ground (arith, h);
  waits_out = refl;
}

registers_when_accepted_example :
    Ends (register_client_with_retry delays parsers third_time 3) registered 3 2
registers_when_accepted_example =
    registers_when_accepted delays parsers third_time 2 0 IsRetried-twice refl refl

abbrev lost_third : List HeartbeatEnd
lost_third = sent (negsuc 9) ∷ limited absent ∷ session_lost ∷ sent (pos 0) ∷ []

-- Three RxonErrors, with another exception between them.
abbrev mixed : List Bool
mixed = true ∷ false ∷ true ∷ true ∷ []

heartbeats_back_off_example :
    let s = heartbeat_loop delays parsers 7 (sent (pos 5) ∷ failures mixed) in
    (s.backoff ≡ min (15000 * 2 ^ 2) 60000) × (s.is_lost ≡ false)
heartbeats_back_off_example = heartbeats_back_off delays parsers (pos 5) 7 2 mixed refl
