-- ===== src/Tests/Manager.antt =====
-- A connection that is refused once, registered, lost, and registered again.
use avtomatika_worker.Base.{false, some, List, [], ◌∷◌}
use avtomatika_worker.Base.Int.{pos}
use avtomatika_worker.Backoff.{failed}
use avtomatika_worker.Session.{Attempt, accepted, refused, HeartbeatEnd, sent, session_lost}
use avtomatika_worker.Manager.{Turn, Act, new_manager, manage_single_orchestrator}
use avtomatika_worker.Manager.Protocol.{Steps, unknown}
use avtomatika_worker.Manager.Refines.{standing, manager-Steps}
use avtomatika_worker.Tests.Requests.{parsers, delays}

abbrev turn : Attempt → HeartbeatEnd → Turn
turn answer heartbeat = record {
  is_shut_down = false;
  is_shut_down_then = false;
  interrupts = false;
  payload_hash = some "h1";
  answer = answer;
  heartbeat = heartbeat;
  synced_hash = some "h1";
}

abbrev turns : List Turn
turns =
    turn (refused failed) (sent (pos 0))
    ∷ turn accepted (sent (pos 0))
    ∷ turn accepted (sent (pos 5))
    ∷ turn accepted session_lost
    ∷ turn accepted session_lost
    ∷ []

abbrev acts : List Act
acts = (manage_single_orchestrator delays parsers turns (new_manager delays)).1

manager-Steps_example :
    Steps unknown acts
      (standing (manage_single_orchestrator delays parsers turns (new_manager delays)).0.place)
manager-Steps_example = manager-Steps delays parsers turns (new_manager delays)
