-- ===== src/Backoff.antt =====
-- worker.py: `_calculate_backoff`, `_parse_retry_after`, and the delay that a failed request leads
-- to. Delays and times are whole milliseconds; a parsed Retry-After may be negative.
pub mod Bounds
pub mod Growth
use avtomatika_worker.Base.{
  ℕ, ◌*◌, String, Bool, true, false, Option, none, some, min, max, ◌==◌, string_eq, nat_eq,
  if◌then◌else◌,
}
use avtomatika_worker.Base.Int.{ℤ, pos, negsuc}

-- The delays of `WorkerConfig` that the retry loops read.
pub record Delays : Type 0 where
  pub poll_backoff_initial : ℕ
  pub poll_backoff_max : ℕ
  pub rate_limit_backoff_floor : ℕ
  pub heartbeat_interval : ℕ
  pub heartbeat_cooldown : ℕ
  pub registration_retry_initial_delay : ℕ
  pub registration_retry_max_delay : ℕ
  pub result_retry_initial_delay : ℕ

-- `_calculate_backoff`, over `RATE_LIMIT_BACKOFF_FLOOR`.
unfoldable pub calculate_backoff : ℕ → ℕ → ℕ → ℕ → ℕ → Bool → ℕ
calculate_backoff floor current initial max_delay factor is_rate_limit =
    let new_val = min (max (current * factor) initial) max_delay in
    if is_rate_limit then max new_val floor else new_val

-- What the `details` of a rate limit hold under `retry_after`: nothing, a number, a text, or a value
-- that `float` refuses, with the text that `str` gives for it.
pub data RetryAfter : Type 0 where
  absent : RetryAfter
  number : ℤ → RetryAfter
  text : String → RetryAfter
  other : String → RetryAfter

-- What the parser takes from Python: `float` of a text, if it is one, and how far an HTTP date lies
-- after the present time, if the text is one.
pub record Parsers : Type 0 where
  pub float : String → Option ℤ
  pub date : String → Option ℤ

-- `max(0.0, x)`
abbrev pub clip : ℤ → ℤ
clip (pos n) = pos n
clip (negsuc n) = pos 0

pub seconds_to_date : Parsers → String → ℤ
seconds_to_date p s = elim (p.date s) [ none ↦ pos 0 | some d ↦ clip d ]

unfoldable pub parse_retry_after : Parsers → RetryAfter → ℤ
unfolding seconds_to_date
parse_retry_after p absent = pos 0
parse_retry_after p (number n) = n
parse_retry_after p (text s) =
    if s == "" then pos 0 else elim (p.float s) [ none ↦ seconds_to_date p s | some n ↦ n ]
parse_retry_after p (other s) = seconds_to_date p s

-- A failed request: a rate limit with its header, or another error of the network or of rxon.
pub data Failure : Type 0 where
  rate_limited : RetryAfter → Failure
  failed : Failure

abbrev pub is_rate_limit : Failure → Bool
is_rate_limit (rate_limited raw) = true
is_rate_limit failed = false

-- `retry_after_raw`, which is None unless the failure is a rate limit.
abbrev pub raw_of : Failure → RetryAfter
raw_of (rate_limited raw) = raw
raw_of failed = absent

-- `retry_after if retry_after > 0 else backoff`
abbrev pub positive_or : ℤ → ℕ → ℕ
positive_or (pos n) backoff = if n == 0 then backoff else n
positive_or (negsuc n) backoff = backoff

-- The delay after a failure, as polling, registration and the heartbeat loop compute it: each has
-- its own `initial` and `max_delay`, and none passes a `factor`, which is then 2.
unfoldable pub next_delay : Parsers → ℕ → ℕ → ℕ → ℕ → Failure → ℕ
next_delay p floor initial max_delay current e =
    positive_or (parse_retry_after p (raw_of e))
      (calculate_backoff floor current initial max_delay 2 (is_rate_limit e))
