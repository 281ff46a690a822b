-- ===== src/Manager/Protocol.antt =====
-- The order of the registrations and heartbeats of one manager, as the orchestrator knows of them.
use avtomatika_worker.Base.{ℕ, suc, ◌+◌, ◌≤◌, ◌≡◌, refl, List, [], ◌∷◌, arith}
use avtomatika_worker.Base.Int.{ℤ}
use avtomatika_worker.Manager.{Act, registration, refusal, heartbeat, loss, silence}

-- What the orchestrator knows of the worker.
pub data Standing : Type 0 where
  unknown : Standing
  known : Standing
  gone : Standing

-- What may come next: an unknown worker registers, and a known one sends heartbeats; after a lost
-- session it is unknown again, and it may leave at any time, also right after an act.
pub data Step : Standing → Act → Standing → Type 0 where
  registers : Step unknown registration known
  is_refused : {n : ℕ} → Step unknown (refusal n) unknown
  beats : {n : ℤ} → Step known (heartbeat n) known
  is_lost : Step known loss unknown
  leaves : {s : Standing} → Step s silence gone
  registers_last : Step unknown registration gone
  is_refused_last : {n : ℕ} → Step unknown (refusal n) gone
  beats_last : {n : ℤ} → Step known (heartbeat n) gone

pub data Steps : Standing → List Act → Standing → Type 0 where
  nothing : {s : Standing} → Steps s [] s
  and_then :
      {r s t : Standing} {a : Act} {acts : List Act}
      → Step r a s
      → Steps s acts t
      → Steps r (a ∷ acts) t

abbrev pub registrations : List Act → ℕ
registrations [] = 0
registrations (registration ∷ acts) = suc (registrations acts)
registrations (_ ∷ acts) = registrations acts

abbrev pub losses : List Act → ℕ
losses [] = 0
losses (loss ∷ acts) = suc (losses acts)
losses (_ ∷ acts) = losses acts

-- How many registrations come, by what the orchestrator knows.
abbrev pub Bounded : Standing → List Act → Type 0
Bounded unknown acts = (losses acts ≤ registrations acts) × (registrations acts ≤ losses acts + 1)
Bounded known acts = (losses acts ≤ registrations acts + 1) × (registrations acts ≤ losses acts)
Bounded gone acts = (losses acts ≡ 0) × (registrations acts ≡ 0)

nil-Bounded : (s : Standing) → Bounded s []
nil-Bounded unknown = (omega arith, omega arith)
nil-Bounded known = (omega arith, omega arith)
nil-Bounded gone = (refl, refl)

and_then-Bounded :
    (r s : Standing) (a : Act) (acts : List Act)
    → Step r a s
    → Bounded s acts
    → Bounded r (a ∷ acts)
and_then-Bounded _ _ _ acts registers (h, k) = (omega (arith, h), omega (arith, k))
and_then-Bounded _ _ _ acts is_refused h = h
and_then-Bounded _ _ _ acts beats h = h
and_then-Bounded _ _ _ acts is_lost (h, k) = (omega (arith, h), omega (arith, k))
and_then-Bounded unknown _ _ acts leaves (h, k) = (omega (arith, h, k), omega (arith, h, k))
and_then-Bounded known _ _ acts leaves (h, k) = (omega (arith, h, k), omega (arith, h, k))
and_then-Bounded gone _ _ acts leaves h = h
and_then-Bounded _ _ _ acts registers_last (h, k) = (omega (arith, h, k), omega (arith, h, k))
and_then-Bounded _ _ _ acts is_refused_last (h, k) = (omega (arith, h, k), omega (arith, h, k))
and_then-Bounded _ _ _ acts beats_last (h, k) = (omega (arith, h, k), omega (arith, h, k))

pub Steps-Bounded : {r s : Standing} {acts : List Act} → Steps r acts s → Bounded r acts
Steps-Bounded {r} nothing = nil-Bounded r
Steps-Bounded {r} (and_then {s = s} {a = a} {acts = acts} step steps) =
    and_then-Bounded r s a acts step (Steps-Bounded steps)
