-- ===== src/Results/Attempts.antt =====
-- How often a result is sent, and how long the worker waits in between.
use avtomatika_worker.Base.{
  ℕ, zero, suc, ◌+◌, ◌*◌, ◌^◌, ◌≤◌, ◌<◌, ◌≡◌, ap, List, [], ◌∷◌, arith, length, Bool, if◌then◌else◌,
  nat_eq,
}
use native.Mathlib.Nat.{pow-suc}
use avtomatika_worker.Backoff.{Parsers, RetryAfter}
use avtomatika_worker.Results.{
  Reply, accepted, not_accepted, rate_limited, failed, taken, ignored, gave_up, ran_out, deliver,
}

abbrev pub total_sleep : List ℕ → ℕ
total_sleep [] = 0
total_sleep (t ∷ ts) = t + total_sleep ts

-- A result is sent at most `retries` times.
pub calls-le :
    (p : Parsers) (retries delay : ℕ) (answers : ℕ → Reply)
    → (deliver p retries delay answers).calls ≤ retries
unfolding deliver
calls-le p zero delay answers = omega arith
calls-le p (suc left) delay answers =
    ground (arith, calls-le p left (delay * 2) (λ i. answers (suc i)))

-- The answer is one after which the loop goes on, if attempts are left.
abbrev pub IsRefused : Reply → Type 0
IsRefused accepted = ⊥
IsRefused not_accepted = ⊥
IsRefused (rate_limited raw) = Unit
IsRefused failed = Unit

-- If attempt k is the first one that is answered and not refused, it is the last call, and the end
-- says whether the orchestrator took the result or ignored it.
pub deliver_first_answer :
    (p : Parsers) (k retries delay : ℕ) (answers : ℕ → Reply) (took : Bool)
    → k < retries
    → ((i : ℕ) → i < k → IsRefused (answers i))
    → answers k ≡ (if took then accepted else not_accepted)
    → let d = deliver p retries delay answers in
      (d.calls ≡ suc k) × (d.end ≡ (if took then taken else ignored))
unfolding deliver
deliver_first_answer p k zero delay answers took h refused e = absurd (omega arith)
deliver_first_answer p zero (suc left) delay answers took h refused e = ground arith
deliver_first_answer p (suc k) (suc left) delay answers took h refused e = ground (
  arith,
  refused 0 (omega arith),
  deliver_first_answer p k left (delay * 2) (λ i. answers (suc i)) took (omega arith)
      (λ i hi. refused (suc i) (omega arith)) e,
)

-- If every attempt fails, all are made, the last one gives up, and the waits between them double
-- from the first delay on.
pub deliver_all_failed :
    (p : Parsers) (left delay : ℕ) (answers : ℕ → Reply)
    → ((i : ℕ) → answers i ≡ failed)
    → let d = deliver p (suc left) delay answers in
      (d.end ≡ gave_up) × (d.calls ≡ suc left) × (total_sleep d.sleeps + delay ≡ delay * 2 ^ left)
unfolding deliver
deliver_all_failed p zero delay answers f = ground (arith, f 0)
deliver_all_failed p (suc left) delay answers f =
    let rest = deliver_all_failed p left (delay * 2) (λ i. answers (suc i)) (λ i. f (suc i)) in
    ground (arith, f 0, rest, ap (λ (m : ℕ). delay * m) (pow-suc 2 left))

-- If every attempt is rate limited, all are made, each is followed by a sleep, the last one too,
-- the sleeps add up to at least those of doubling, and the loop runs out without giving up.
pub deliver_all_limited :
    (p : Parsers) (retries delay : ℕ) (answers : ℕ → Reply)
    → ((i : ℕ) → (raw : RetryAfter) × (answers i ≡ rate_limited raw))
    → let d = deliver p retries delay answers in
      (d.end ≡ ran_out)
      × (d.calls ≡ retries)
      × (length d.sleeps ≡ retries)
      × (delay * 2 ^ retries ≤ total_sleep d.sleeps + delay)
unfolding deliver
deliver_all_limited p zero delay answers f = ground arith
deliver_all_limited p (suc left) delay answers f =
    let (raw, e) = f 0 in
    let rest = deliver_all_limited p left (delay * 2) (λ i. answers (suc i)) (λ i. f (suc i)) in
    ground (arith, e, rest, ap (λ (m : ℕ). delay * m) (pow-suc 2 left))
