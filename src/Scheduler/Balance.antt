-- ===== src/Scheduler/Balance.antt =====
-- What crediting every entry and charging one of them do to the weights.
use avtomatika_worker.Base.{
  ℕ, ◌+◌, ◌<◌, ◌≡◌, refl, ap, true, List, [], ◌∷◌, arith, All, ◌==◌, nat_eq, contains,
  if◌then◌else◌, Bool-cases, inl, inr, map,
}
use avtomatika_worker.Base.Int.{ℤ, pos, pos_part, neg_part, ◌+ℤ◌, ◌-ℤ◌, ◌<ℤ◌, int_laws, eq_of_parts}
use avtomatika_worker.Scheduler.{Entry, credit, charge}
use avtomatika_worker.Scheduler.Select.{ids, Distinct, current_of}

abbrev pub weight_of : ℕ → List Entry → ℕ
weight_of c [] = 0
weight_of c (e ∷ es) = if c == e.client then e.weight else weight_of c es

abbrev pub total_weight : List Entry → ℕ
total_weight [] = 0
total_weight (e ∷ es) = e.weight + total_weight es

abbrev pub total_current : List Entry → ℤ
total_current [] = pos 0
total_current (e ∷ es) = e.current_weight +ℤ total_current es

-- Every weight is above -total.
abbrev pub AllAbove : ℕ → List Entry → Type 0
AllAbove total = All (λ (e : Entry). neg_part e.current_weight < pos_part e.current_weight + total)

pub record Balanced (total : ℕ) (es : List Entry) : Type 0 where
  pub distinct : Distinct es
  pub totals : total ≡ total_weight es
  pub positive : 0 < total
  pub balance : total_current es ≡ pos 0
  pub above : AllAbove total es

-- Crediting every entry.
pub ids-credit : (es : List Entry) → ids (map credit es) ≡ ids es
ids-credit [] = refl
ids-credit (e ∷ es) = ap (λ (is : List ℕ). e.client ∷ is) (ids-credit es)

pub Distinct-credit : (es : List Entry) → Distinct es → Distinct (map credit es)
Distinct-credit [] d = tt
Distinct-credit (e ∷ es) d = (rw (ids-credit es) d.0, Distinct-credit es d.1)

pub total_weight-credit : (es : List Entry) → total_weight (map credit es) ≡ total_weight es
total_weight-credit [] = refl
total_weight-credit (e ∷ es) = omega (arith, total_weight-credit es)

pub total_current-credit :
    (es : List Entry) → total_current (map credit es) ≡ total_current es +ℤ pos (total_weight es)
total_current-credit [] = omega int_laws
total_current-credit (e ∷ es) =
    eq_of_parts _ _ (
      omega
        (int_laws, ap pos_part (total_current-credit es), ap neg_part (total_current-credit es)))

pub AllAbove-credit :
    (total : ℕ) (es : List Entry) → AllAbove total es → AllAbove total (map credit es)
AllAbove-credit total [] a = tt
AllAbove-credit total (e ∷ es) a = (omega (int_laws, a.0), AllAbove-credit total es a.1)

pub current_of-credit :
    (j : ℕ) (es : List Entry)
    → current_of j (map credit es) ≡ current_of j es +ℤ pos (weight_of j es)
current_of-credit j [] = omega int_laws
current_of-credit j (e ∷ es) = ground (arith, current_of-credit j es)

pub weight_of-credit : (j : ℕ) (es : List Entry) → weight_of j (map credit es) ≡ weight_of j es
weight_of-credit j [] = refl
weight_of-credit j (e ∷ es) = ground (arith, weight_of-credit j es)

-- Charging one of them.
pub ids-charge : (total c : ℕ) (es : List Entry) → ids (charge total c es) ≡ ids es
unfolding charge
ids-charge total c [] = refl
ids-charge total c (e ∷ es) = ground (arith, ids-charge total c es)

pub Distinct-charge : (total c : ℕ) (es : List Entry) → Distinct es → Distinct (charge total c es)
unfolding charge
Distinct-charge total c [] d = tt
Distinct-charge total c (e ∷ es) d = elim (Bool-cases (e.client == c)) [
  | inl this ↦ rw this d
  | inr other ↦ rw other (rw (ids-charge total c es) d.0, Distinct-charge total c es d.1)
]

pub total_weight-charge :
    (total c : ℕ) (es : List Entry) → total_weight (charge total c es) ≡ total_weight es
unfolding charge
total_weight-charge total c [] = refl
total_weight-charge total c (e ∷ es) = ground (arith, total_weight-charge total c es)

pub total_current-charge :
    (total c : ℕ) (es : List Entry)
    → contains (ids es) c ≡ true
    → total_current (charge total c es) +ℤ pos total ≡ total_current es
unfolding charge
total_current-charge total c [] h = absurd cc
total_current-charge total c (e ∷ es) h = elim (Bool-cases (e.client == c)) [
  | inl this ↦ rw this (omega int_laws)
  | inr other ↦
      let rest = total_current-charge total c es (ground arith) in
      rw other (eq_of_parts _ _ (omega (int_laws, ap pos_part rest, ap neg_part rest)))
]

pub AllAbove-charge :
    (total c : ℕ) (es : List Entry)
    → pos 0 <ℤ current_of c es
    → AllAbove total es
    → AllAbove total (charge total c es)
unfolding charge
AllAbove-charge total c [] h a = tt
AllAbove-charge total c (e ∷ es) h a = elim (Bool-cases (e.client == c)) [
  | inl this ↦
      let same : current_of c (e ∷ es) ≡ e.current_weight = ground arith in
      rw this (omega (int_laws, ap pos_part same, ap neg_part same), a.1)
  | inr other ↦
      let same : current_of c (e ∷ es) ≡ current_of c es = ground arith in
      rw other
        (a.0, AllAbove-charge total c es (omega (arith, ap pos_part same, ap neg_part same)) a.1)
]

pub current_of-charge :
    (total c j : ℕ) (es : List Entry)
    → contains (ids es) c ≡ true
    → current_of j (charge total c es)
      ≡ (if j == c then current_of j es -ℤ pos total else current_of j es)
unfolding charge
current_of-charge total c j [] h = absurd cc
current_of-charge total c j (e ∷ es) h = ground (arith, current_of-charge total c j es)

pub weight_of-charge :
    (total c j : ℕ) (es : List Entry) → weight_of j (charge total c es) ≡ weight_of j es
unfolding charge
weight_of-charge total c j [] = refl
weight_of-charge total c j (e ∷ es) = ground (arith, weight_of-charge total c j es)
