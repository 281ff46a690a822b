-- ===== src/Shutdown/Waits.antt =====
-- How long the shutdown waits for the transfers.
use avtomatika_worker.Base.{
  ℕ, zero, suc, ◌+◌, ◌<◌, ◌≤◌, ◌≡◌, ap, ◌∙◌, sym, ◌⊎◌, inl, inr, Bool, true, false, ◌&&◌, ltb,
  arith, Bool-cases,
}
use mathlib.Core.Bool.{false≢true}
use avtomatika_worker.Base.Int.{ℤ, pos, ltb_ℤ}
use avtomatika_worker.Shutdown.{wait_loop}

-- The time after so many sleeps more.
unfoldable pub iterate : {F : Type 0} → (F → F) → ℕ → F → F
iterate plus_delay zero t = t
iterate plus_delay (suc n) t = iterate plus_delay n (plus_delay t)

module _ {F : Type 0} (is_below : F → F → Bool) (plus_delay : F → F) (active_ops : ℕ → ℤ)
    (timeout : F) where
  -- At the test after so many sleeps, from the test `i` at the time `t`: an operation is under way
  -- and the time is below the timeout; or one of the two is not so.
  abbrev pub IsWaiting : ℕ → F → ℕ → Type 0
  IsWaiting i t n =
      (ltb_ℤ (pos 0) (active_ops (n + i)) ≡ true)
      × (is_below (iterate plus_delay n t) timeout ≡ true)

  abbrev pub IsOver : ℕ → F → ℕ → Type 0
  IsOver i t n =
      (ltb_ℤ (pos 0) (active_ops (n + i)) ≡ false)
      ⊎ (is_below (iterate plus_delay n t) timeout ≡ false)

  -- The number of sleeps at the first test that ends the loop.
  pub record Ends (i : ℕ) (t : F) (n : ℕ) : Type 0 where
    pub is_over : IsOver i t n
    pub waits : (j : ℕ) → j < n → IsWaiting i t j

  starts : (i : ℕ) → ltb_ℤ (pos 0) (active_ops i) ≡ ltb_ℤ (pos 0) (active_ops (0 + i))
  starts i = let same : i ≡ 0 + i = omega arith in ap (λ j. ltb_ℤ (pos 0) (active_ops j)) same

  no_sleep :
      (i : ℕ) (t : F) → (ltb_ℤ (pos 0) (active_ops i) && is_below t timeout) ≡ false → Ends i t 0
  unfolding iterate
  no_sleep i t stops = record {
    is_over = elim (Bool-cases (ltb_ℤ (pos 0) (active_ops i))) [
      | inl busy ↦ inr (ground (arith, busy, stops))
      | inr idle ↦ inl (sym (starts i) ∙ idle)
    ];
    waits = λ j h. absurd (omega (arith, h));
  }

  one_more :
      (i n : ℕ) (t : F)
      → (ltb_ℤ (pos 0) (active_ops i) && is_below t timeout) ≡ true
      → Ends (suc i) (plus_delay t) n
      → Ends i t (suc n)
  unfolding iterate
  one_more i n t goes_on rest = record { is_over = over; waits = waits }
    where
      later :
          (j : ℕ) → ltb_ℤ (pos 0) (active_ops (j + suc i)) ≡ ltb_ℤ (pos 0) (active_ops (suc j + i))
      later j =
          let same : j + suc i ≡ suc j + i = omega arith in
          ap (λ k. ltb_ℤ (pos 0) (active_ops k)) same

      over : IsOver i t (suc n)
      over = elim rest.is_over [ inl idle ↦ inl (sym (later n) ∙ idle) | inr late ↦ inr late ]

      waits : (j : ℕ) → j < suc n → IsWaiting i t j
      waits zero h = (sym (starts i) ∙ ground (arith, goes_on), ground (arith, goes_on))
      waits (suc j) h =
          let (busy, early) = rest.waits j (omega (arith, h)) in (sym (later j) ∙ busy, early)

  loop_ends :
      (fuel k i : ℕ) (t : F)
      → k < fuel
      → is_below (iterate plus_delay k t) timeout ≡ false
      → Ends i t (wait_loop is_below plus_delay active_ops timeout fuel i t)
  unfolding wait_loop iterate
  loop_ends zero k i t enough late = absurd (omega (arith, enough))
  loop_ends (suc fuel) zero i t enough late =
      let stops : (ltb_ℤ (pos 0) (active_ops i) && is_below t timeout) ≡ false =
        ground (arith, late) in
      rw (stops) (no_sleep i t stops)
  loop_ends (suc fuel) (suc k) i t enough late =
      elim (Bool-cases (ltb_ℤ (pos 0) (active_ops i) && is_below t timeout)) [
        | inl goes_on ↦ rw (goes_on) (
            one_more i
              (wait_loop is_below plus_delay active_ops timeout fuel (suc i) (plus_delay t)) t
              goes_on (loop_ends fuel k (suc i) (plus_delay t) (omega (arith, enough)) late))
        | inr stops ↦ rw (stops) (no_sleep i t stops)
      ]

  not_longer :
      (k n : ℕ) (t : F) → is_below (iterate plus_delay k t) timeout ≡ false → Ends 0 t n → n ≤ k
  not_longer k n t late ends = elim (Bool-cases (ltb k n)) [
    | inl more ↦
        let (busy, early) = ends.waits k (ground (arith, more)) in
        absurd (false≢true (sym late ∙ early))
    | inr few ↦ ground (arith, few)
  ]

  -- Waiting for the transfers ends at the first test at which no operation is under way or the
  -- time slept, as Python adds it up, is not below the timeout: before each sleep an operation is
  -- under way and the time is below. There are at most k sleeps where the sum of k sleeps is not
  -- below the timeout, and any fuel above k is enough.
  pub wait_loop_bounded :
      (fuel k : ℕ) (t : F)
      → k < fuel
      → is_below (iterate plus_delay k t) timeout ≡ false
      → let n = wait_loop is_below plus_delay active_ops timeout fuel 0 t in Ends 0 t n × (n ≤ k)
  wait_loop_bounded fuel k t enough late =
      let ends = loop_ends fuel k 0 t enough late in (ends, not_longer k _ t late ends)
