-- ===== src/Session/Retry.antt =====
-- How the retries of a registration end.
use avtomatika_worker.Base.{
  ℕ, zero, suc, ◌+◌, ◌<◌, ◌≡◌, refl, ap, subst, true, false, length, arith,
}
use avtomatika_worker.Backoff.{Delays, Parsers, Failure}
use avtomatika_worker.Session.{
  accepted, refused, Ending, registered, shut_down, Run, Course, register_with_retry,
  register_client_with_retry, registration_delay,
}

-- Attempt `i` is made and refused, and the wait after it is not interrupted.
pub record IsRetried (c : Course) (i : ℕ) : Type 0 where
  pub goes_on : c.is_shut_down i ≡ false
  pub why : Failure
  pub is_refused : c.answer i ≡ refused why
  pub waits_out : c.interrupts i ≡ false

-- How many attempts and waits a run has, and how it ends.
abbrev pub Ends : Run → Ending → ℕ → ℕ → Type 0
Ends r e attempts waits = (r.ending ≡ e) × (r.attempts ≡ attempts) × (length r.waits ≡ waits)

module _ (d : Delays) (p : Parsers) (c : Course) where
  retried_once :
      (fuel i delay : ℕ) (e : Ending) (attempts waits : ℕ) (r : IsRetried c i)
      → Ends
          (register_with_retry d p c fuel (suc i) (registration_delay d p delay r.why))
          e
          attempts
          waits
      → Ends (register_with_retry d p c (suc fuel) i delay) e (suc attempts) (suc waits)
  unfolding register_with_retry
  retried_once fuel i delay e attempts waits r h =
      rw (r.goes_on, r.is_refused, r.waits_out)
        (h.0, ap (λ (n : ℕ). suc n) h.1, ap (λ (n : ℕ). suc n) h.2)

  -- After `k` retried attempts, what a run does from there on decides how the whole ends.
  retried :
      (k f fuel i n delay : ℕ) (e : Ending) (attempts waits : ℕ)
      → f ≡ k + fuel
      → n ≡ i + k
      → ((j : ℕ) → j < k → IsRetried c (i + j))
      → ((later : ℕ) → Ends (register_with_retry d p c fuel n later) e attempts waits)
      → Ends (register_with_retry d p c f i delay) e (k + attempts) (k + waits)
  retried zero f fuel i n delay e attempts waits is_f is_n refusals last =
      let same_fuel : fuel ≡ f = omega (arith, is_f) in
      let same_index : n ≡ i = omega (arith, is_n) in
      let (ends, made, waited) =
        subst (λ m. Ends (register_with_retry d p c f m delay) e attempts waits) same_index
          (subst (λ m. Ends (register_with_retry d p c m n delay) e attempts waits) same_fuel
            (last delay)) in
      (ends, omega (arith, made), omega (arith, waited))
  retried (suc k) zero fuel i n delay e attempts waits is_f is_n refusals last =
      absurd (omega (arith, is_f))
  retried (suc k) (suc f) fuel i n delay e attempts waits is_f is_n refusals last =
      let first : IsRetried c i = subst (IsRetried c) (omega arith) (refusals 0 (omega arith)) in
      let (ends, made, waited) = retried_once f i delay e (k + attempts) (k + waits) first (
        retried k f fuel (suc i) n (registration_delay d p delay first.why) e attempts waits
          (omega (arith, is_f)) (omega (arith, is_n))
          (λ j h. subst (IsRetried c) (omega arith) (refusals (suc j) (omega (arith, h)))) last) in
      (ends, omega (arith, made), omega (arith, waited))

  registers_at :
      (fuel i delay : ℕ)
      → c.is_shut_down i ≡ false
      → c.answer i ≡ accepted
      → Ends (register_with_retry d p c (suc fuel) i delay) registered 1 0
  unfolding register_with_retry
  registers_at fuel i delay goes_on is_accepted = rw (goes_on, is_accepted) (refl, refl, refl)

  stops_at :
      (fuel i delay : ℕ)
      → c.is_shut_down i ≡ true
      → Ends (register_with_retry d p c (suc fuel) i delay) shut_down 0 0
  unfolding register_with_retry
  stops_at fuel i delay stops = rw (stops) (refl, refl, refl)

  -- Where the attempts before number k are refused, nothing shuts the worker down, and attempt k
  -- is accepted, the run ends registered after it, with one wait after each refusal; any fuel
  -- above k is enough.
  pub registers_when_accepted :
      (k more : ℕ)
      → ((j : ℕ) → j < k → IsRetried c j)
      → c.is_shut_down k ≡ false
      → c.answer k ≡ accepted
      → Ends (register_client_with_retry d p c (k + suc more)) registered (k + 1) k
  registers_when_accepted k more refusals goes_on is_accepted =
      let (ends, made, waited) =
        retried k (k + suc more) (suc more) 0 k d.registration_retry_initial_delay registered 1 0
          refl (omega arith) (λ j h. subst (IsRetried c) (omega arith) (refusals j h))
          (λ later. registers_at more k later goes_on is_accepted) in
      (ends, made, omega (arith, waited))

  -- Where the worker is shut down before attempt `k`, after refusals only, no further attempt is made.
  pub stops_when_shut_down :
      (k more : ℕ)
      → ((j : ℕ) → j < k → IsRetried c j)
      → c.is_shut_down k ≡ true
      → Ends (register_client_with_retry d p c (k + suc more)) shut_down k k
  stops_when_shut_down k more refusals stops =
      let (ends, made, waited) =
        retried k (k + suc more) (suc more) 0 k d.registration_retry_initial_delay shut_down 0 0
          refl (omega arith) (λ j h. subst (IsRetried c) (omega arith) (refusals j h))
          (λ later. stops_at more k later stops) in
      (ends, omega (arith, made), omega (arith, waited))
