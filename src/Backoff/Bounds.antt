-- ===== src/Backoff/Bounds.antt =====
-- Where the delay after a failure lies.
use avtomatika_worker.Base.{ℕ, ◌≤◌, ◌<◌, ◌≡◌, ◌⊎◌, false, max, arith}
use avtomatika_worker.Base.Int.{pos, pos_part, ◌≤ℤ◌}
use avtomatika_worker.Backoff.{
  Parsers, RetryAfter, rate_limited, failed, calculate_backoff, parse_retry_after, next_delay,
}

-- Without a rate limit the backoff lies between the first delay and the greatest.
pub calculate_backoff_bounds :
    (floor current initial max_delay factor : ℕ)
    → initial ≤ max_delay
    → (initial ≤ calculate_backoff floor current initial max_delay factor false)
      × (calculate_backoff floor current initial max_delay factor false ≤ max_delay)
unfolding calculate_backoff
calculate_backoff_bounds floor current initial max_delay factor h = omega arith

-- After a rate limit the delay is a positive Retry-After where there is one, and otherwise at least
-- the floor and at most the greater of the floor and `max_delay`.
pub next_delay_rate_limited :
    (p : Parsers) (floor initial max_delay current : ℕ) (raw : RetryAfter)
    → let d = next_delay p floor initial max_delay current (rate_limited raw) in
      let r = parse_retry_after p raw in
      ((0 < pos_part r) × (r ≡ pos d)) ⊎ ((r ≤ℤ pos 0) × (floor ≤ d) × (d ≤ max max_delay floor))
unfolding next_delay calculate_backoff
next_delay_rate_limited p floor initial max_delay current raw = ground arith

-- Any other failure is followed by the plain backoff, from `initial` up to `max_delay`.
pub next_delay_failed :
    (p : Parsers) (floor initial max_delay current : ℕ)
    → initial ≤ max_delay
    → (initial ≤ next_delay p floor initial max_delay current failed)
      × (next_delay p floor initial max_delay current failed ≤ max_delay)
unfolding next_delay calculate_backoff parse_retry_after
next_delay_failed p floor initial max_delay current h = ground arith
