-- ===== src/Backoff/Growth.antt =====
-- The delays of consecutive failures.
use avtomatika_worker.Base.{ℕ, zero, suc, ◌*◌, ◌^◌, ◌≤◌, ◌≡◌, refl, ◌∙◌, ap, min, max, arith}
use native.Mathlib.Nat.{pow-suc}
use avtomatika_worker.Backoff.{Parsers, failed, calculate_backoff, parse_retry_after, next_delay}

-- The delay after `n` consecutive failures that are no rate limits.
pub delay_after : Parsers → ℕ → ℕ → ℕ → ℕ → ℕ
delay_after p floor initial max_delay zero = 0
delay_after p floor initial max_delay (suc n) =
    next_delay p floor initial max_delay (delay_after p floor initial max_delay n) failed

pub delay_after-zero :
    (p : Parsers) (floor initial max_delay : ℕ) → delay_after p floor initial max_delay zero ≡ 0
unfolding delay_after
delay_after-zero p floor initial max_delay = refl

pub delay_after-suc :
    (p : Parsers) (floor initial max_delay n : ℕ)
    → delay_after p floor initial max_delay (suc n)
      ≡ next_delay p floor initial max_delay (delay_after p floor initial max_delay n) failed
unfolding delay_after
delay_after-suc p floor initial max_delay n = refl

double :
    (initial max_delay power : ℕ)
    → initial ≤ initial * power
    → min (max (min (initial * power) max_delay * 2) initial) max_delay
      ≡ min (initial * (power * 2)) max_delay
double initial max_delay power h = omega arith

le-mul-pow : (initial n : ℕ) → initial ≤ initial * 2 ^ n
le-mul-pow initial zero = omega arith
le-mul-pow initial (suc n) =
    omega (arith, le-mul-pow initial n, ap (λ (m : ℕ). initial * m) (pow-suc 2 n))

next_delay-failed :
    (p : Parsers) (floor initial max_delay current : ℕ)
    → next_delay p floor initial max_delay current failed
      ≡ min (max (current * 2) initial) max_delay
unfolding next_delay calculate_backoff parse_retry_after
next_delay-failed p floor initial max_delay current = ground arith

-- After `n + 1` consecutive failures the delay is `initial * 2 ^ n`, or `max_delay` if that is less.
pub delay_after_doubles :
    (p : Parsers) (floor initial max_delay n : ℕ)
    → delay_after p floor initial max_delay (suc n) ≡ min (initial * 2 ^ n) max_delay
unfolding delay_after
delay_after_doubles p floor initial max_delay zero =
    next_delay-failed p floor initial max_delay 0 ∙ omega arith
delay_after_doubles p floor initial max_delay (suc n) =
    next_delay-failed p floor initial max_delay (delay_after p floor initial max_delay (suc n))
    ∙ rw (delay_after_doubles p floor initial max_delay n, pow-suc)
        (double initial max_delay (2 ^ n) (le-mul-pow initial n))
