-- ===== src/Results.antt =====
-- worker.py: `_result_queue_worker`, the attempts to send one result.
pub mod Attempts
use avtomatika_worker.Base.{
  ℕ, zero, suc, ◌*◌, Bool, true, false, List, [], ◌∷◌, max, if◌then◌else◌, ◌==◌, nat_eq,
}
use avtomatika_worker.Base.Int.{pos_part}
use avtomatika_worker.Backoff.{Parsers, RetryAfter, parse_retry_after}

-- What `client.send_result` does: it returns true or false, or raises.
pub data Reply : Type 0 where
  accepted : Reply
  not_accepted : Reply
  rate_limited : RetryAfter → Reply
  failed : Reply

-- How the attempts end: the orchestrator took or ignored the result, the last attempt failed, or
-- the `for` loop ran out after a rate limit.
pub data End : Type 0 where
  taken : End
  ignored : End
  gave_up : End
  ran_out : End

-- The end, the number of calls and the sleeps between them, in milliseconds.
pub record Delivery : Type 0 where
  pub end : End
  pub calls : ℕ
  pub sleeps : List ℕ

abbrev pub finally : End → Delivery
finally e = record { end = e; calls = 1; sleeps = [] }

-- One more call and one more sleep before what follows.
abbrev pub after_sleep : ℕ → Delivery → Delivery
after_sleep t d = record { end = d.end; calls = suc d.calls; sleeps = t ∷ d.sleeps }

-- `for attempt in range(retries)`, with the attempts that are left and the answers to come: answer
-- `i` is the one to attempt `i`. No attempt is left over a last answer.
unfoldable pub deliver : Parsers → ℕ → ℕ → (ℕ → Reply) → Delivery
deliver p zero delay answers = record { end = ran_out; calls = 0; sleeps = [] }
deliver p (suc left) delay answers =
    let rest = deliver p left (delay * 2) (λ i. answers (suc i)) in
    elim (answers 0) [
      | accepted ↦ finally taken
      | not_accepted ↦ finally ignored
      | rate_limited raw ↦ after_sleep (max (pos_part (parse_retry_after p raw)) delay) rest
      | failed ↦ if left == 0 then finally gave_up else after_sleep delay rest
    ]
