-- ===== src/Session/Loop.antt =====
-- The heartbeats of one session: when it ends, and how failures spread them.
use avtomatika_worker.Base.{
  ℕ, suc, ◌+◌, ◌*◌, ◌^◌, min, ◌≡◌, refl, sym, ap, ◌∙◌, Bool, true, false, ◌||◌, List, [], ◌∷◌,
  length, arith, if◌then◌else◌,
}
use avtomatika_worker.Base.Int.{ℤ}
use avtomatika_worker.Backoff.{Delays, Parsers}
use avtomatika_worker.Backoff.Growth.{
  delay_after, delay_after-zero, delay_after-suc, delay_after_doubles,
}
use avtomatika_worker.Session.{
  HeartbeatEnd, sent, limited, session_lost, rxon_error, unexpected, heartbeat_step, heartbeat_loop,
}

abbrev pub is_loss : HeartbeatEnd → Bool
is_loss session_lost = true
is_loss _ = false

abbrev pub has_loss : List HeartbeatEnd → Bool
has_loss [] = false
has_loss (h ∷ hs) = is_loss h || has_loss hs

-- How many heartbeats come before the first loss of the session.
abbrev pub before_loss : List HeartbeatEnd → ℕ
before_loss [] = 0
before_loss (h ∷ hs) = if is_loss h then 0 else suc (before_loss hs)

-- Failures in a row: an RxonError where the list has `true`, and another exception where it has `false`.
abbrev pub failures : List Bool → List HeartbeatEnd
failures [] = []
failures (true ∷ fs) = rxon_error ∷ failures fs
failures (false ∷ fs) = unexpected ∷ failures fs

-- How many of them are RxonErrors.
abbrev pub rxon_errors : List Bool → ℕ
rxon_errors [] = 0
rxon_errors (true ∷ fs) = suc (rxon_errors fs)
rxon_errors (false ∷ fs) = rxon_errors fs

failures-has_loss : (fs : List Bool) → has_loss (failures fs) ≡ false
failures-has_loss [] = refl
failures-has_loss (true ∷ fs) = failures-has_loss fs
failures-has_loss (false ∷ fs) = failures-has_loss fs

module _ (d : Delays) (p : Parsers) where
  -- The heartbeat loop is left for a new registration exactly when a heartbeat tells of a lost
  -- session, and waits once after each heartbeat before that.
  pub heartbeat_loop-is_lost :
      (backoff : ℕ) (hs : List HeartbeatEnd)
      → ((heartbeat_loop d p backoff hs).is_lost ≡ has_loss hs)
        × (length (heartbeat_loop d p backoff hs).waits ≡ before_loss hs)
  unfolding heartbeat_loop heartbeat_step
  heartbeat_loop-is_lost backoff [] = (refl, refl)
  heartbeat_loop-is_lost backoff (sent jitter ∷ hs) =
      let (a, b) = heartbeat_loop-is_lost 0 hs in (a, ap (λ (n : ℕ). suc n) b)
  heartbeat_loop-is_lost backoff (limited raw ∷ hs) =
      let (a, b) = heartbeat_loop-is_lost _ hs in (a, ap (λ (n : ℕ). suc n) b)
  heartbeat_loop-is_lost backoff (session_lost ∷ hs) = (refl, refl)
  heartbeat_loop-is_lost backoff (rxon_error ∷ hs) =
      let (a, b) = heartbeat_loop-is_lost _ hs in (a, ap (λ (n : ℕ). suc n) b)
  heartbeat_loop-is_lost backoff (unexpected ∷ hs) =
      let (a, b) = heartbeat_loop-is_lost backoff hs in (a, ap (λ (n : ℕ). suc n) b)

  abbrev pub after : ℕ → ℕ
  after = delay_after p d.rate_limit_backoff_floor d.heartbeat_interval d.poll_backoff_max

  backoff_from :
      (fs : List Bool) (m k : ℕ)
      → k ≡ rxon_errors fs + m
      → (heartbeat_loop d p (after m) (failures fs)).backoff ≡ after k
  unfolding heartbeat_loop heartbeat_step
  backoff_from [] m k h = ap after (omega (arith, h))
  backoff_from (true ∷ fs) m k h =
      ap (λ b. (heartbeat_loop d p b (failures fs)).backoff)
        (sym
          (delay_after-suc p d.rate_limit_backoff_floor d.heartbeat_interval d.poll_backoff_max m))
      ∙ backoff_from fs (suc m) k (omega (arith, h))
  backoff_from (false ∷ fs) m k h = backoff_from fs m k h

  -- From a heartbeat that was answered on, n + 1 RxonErrors in a row that are no rate limit and no
  -- loss of the session, with any number of other exceptions before, between and after them, leave
  -- a backoff of HEARTBEAT_INTERVAL * 2 ^ n, or of POLL_BACKOFF_MAX if that is less, and keep the
  -- session.
  pub heartbeats_back_off :
      (jitter : ℤ) (backoff n : ℕ) (fs : List Bool)
      → rxon_errors fs ≡ suc n
      → let s = heartbeat_loop d p backoff (sent jitter ∷ failures fs) in
        (s.backoff ≡ min (d.heartbeat_interval * 2 ^ n) d.poll_backoff_max) × (s.is_lost ≡ false)
  unfolding heartbeat_loop heartbeat_step
  heartbeats_back_off jitter backoff n fs many = (
    ap (λ b. (heartbeat_loop d p b (failures fs)).backoff)
          (sym
            (delay_after-zero p d.rate_limit_backoff_floor d.heartbeat_interval d.poll_backoff_max))
        ∙ backoff_from fs 0 (suc n) (omega (arith, many))
        ∙ delay_after_doubles p d.rate_limit_backoff_floor d.heartbeat_interval d.poll_backoff_max
            n,
    (heartbeat_loop-is_lost 0 (failures fs)).0 ∙ failures-has_loss fs,
  )
