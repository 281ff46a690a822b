-- ===== src/Scheduler/Fairness.antt =====
-- How often each client is selected over many rounds.
use avtomatika_worker.Base.{
  ℕ, zero, suc, ◌+◌, ◌*◌, ◌≤◌, ◌<◌, ◌≡◌, refl, sym, ap, ◌∙◌, Bool, true, false, Option, none, some,
  List, [], ◌∷◌, arith, All, length, ◌==◌, nat_eq, contains, Bool-cases, inl, inr, map, count_if,
}
use avtomatika_worker.Base.Int.{pos, pos_part, neg_part, ◌+ℤ◌, int_laws, eq_of_parts}
use avtomatika_worker.Scheduler.{Entry, credit, get_next_client}
use avtomatika_worker.Scheduler.Select.{ids, Distinct, current_of}
use avtomatika_worker.Scheduler.Balance.{
  weight_of, total_weight, total_current, AllAbove, Balanced, ids-credit, current_of-credit,
  weight_of-credit, current_of-charge, weight_of-charge, ids-charge,
}
use avtomatika_worker.Scheduler.Round.{Round, get_next_client_round, get_next_client-Balanced}

-- `n` rounds: the entries that they leave, and the clients that they select.
unfoldable pub rounds : ℕ → ℕ → List Entry → List Entry × List (Option ℕ)
rounds total zero es = (es, [])
rounds total (suc n) es =
    let (es', c) = get_next_client total es in let (es'', cs) = rounds total n es' in (es'', c ∷ cs)

abbrev pub is_client : ℕ → Option ℕ → Bool
is_client j none = false
is_client j (some c) = j == c

-- How often a client was selected.
abbrev pub picks : ℕ → List (Option ℕ) → ℕ
picks j = count_if (is_client j)

-- The weight of every client after a round.
round-current_of :
    (total : ℕ) (es : List Entry) (c j : ℕ)
    → Round total es c
    → current_of j (get_next_client total es).0 +ℤ pos (total * picks j (some c ∷ []))
      ≡ current_of j es +ℤ pos (weight_of j es)
round-current_of total es c j r =
    let paid = current_of-charge total c j (map credit es) r.present in
    rw r.result (elim (Bool-cases (j == c)) [
      | inl this ↦ rw (paid, this, current_of-credit j es) (omega int_laws)
      | inr other ↦ rw (paid, other, current_of-credit j es) (omega int_laws)
    ])

round-weight_of :
    (total : ℕ) (es : List Entry) (c j : ℕ)
    → Round total es c
    → weight_of j (get_next_client total es).0 ≡ weight_of j es
round-weight_of total es c j r =
    rw r.result (weight_of-charge total c j (map credit es) ∙ weight_of-credit j es)

-- What a client holds and what it paid for its selections is what it was credited.
rounds-current_of :
    (n total : ℕ) (es : List Entry) (j : ℕ)
    → Balanced total es
    → let (es', cs) = rounds total n es in
      current_of j es' +ℤ pos (total * picks j cs) ≡ current_of j es +ℤ pos (n * weight_of j es)
unfolding rounds
rounds-current_of zero total es j b = omega int_laws
rounds-current_of (suc n) total es j b =
    let (c, r) = get_next_client_round total es b in
    let first = round-current_of total es c j r in
    let later =
      rounds-current_of n total (get_next_client total es).0 j
        (get_next_client-Balanced total es b).0 in
    let picked = ap (λ o. picks j (o ∷ [])) (ap (λ (p : List Entry × Option ℕ). p.1) r.result) in
    eq_of_parts _ _ (
      omega (
        int_laws,
        ap pos_part first,
        ap neg_part first,
        ap pos_part later,
        ap neg_part later,
        ap (λ (m : ℕ). total * m) picked,
        ap (λ (m : ℕ). n * m) (round-weight_of total es c j r),
        round-weight_of total es c j r,
      ))

rounds-Balanced :
    (n total : ℕ) (es : List Entry) → Balanced total es → Balanced total (rounds total n es).0
unfolding rounds
rounds-Balanced zero total es b = b
rounds-Balanced (suc n) total es b =
    rounds-Balanced n total (get_next_client total es).0 (get_next_client-Balanced total es b).0

rounds-ids :
    (n total : ℕ) (es : List Entry) → Balanced total es → ids (rounds total n es).0 ≡ ids es
unfolding rounds
rounds-ids zero total es b = refl
rounds-ids (suc n) total es b =
    let (c, r) = get_next_client_round total es b in
    rounds-ids n total (get_next_client total es).0 (get_next_client-Balanced total es b).0
    ∙ rw r.result (ids-charge total c (map credit es) ∙ ids-credit es)

current_of-above :
    (total : ℕ) (es : List Entry) (j : ℕ)
    → 0 < total
    → AllAbove total es
    → neg_part (current_of j es) < pos_part (current_of j es) + total
current_of-above total [] j h a = omega arith
current_of-above total (e ∷ es) j h a = ground (arith, current_of-above total es j h a.1)

-- The others cannot hold less than -total each, so a client cannot hold more than they owe.
total_current-above :
    (total : ℕ) (es : List Entry)
    → AllAbove total es
    → neg_part (total_current es) ≤ pos_part (total_current es) + length es * total
total_current-above total [] a = omega arith
total_current-above total (e ∷ es) a = omega (int_laws, a.0, total_current-above total es a.1)

current_of-below :
    (total : ℕ) (es : List Entry) (j : ℕ)
    → AllAbove total es
    → contains (ids es) j ≡ true
    → pos_part (current_of j es) + total + neg_part (total_current es)
      ≤ neg_part (current_of j es) + pos_part (total_current es) + length es * total
current_of-below total [] j a h = absurd cc
current_of-below total (e ∷ es) j a h = elim (Bool-cases (j == e.client)) [
  | inl this ↦ rw this (omega (int_laws, a.0, total_current-above total es a.1))
  | inr other ↦ rw other (omega (int_laws, a.0, current_of-below total es j a.1 (ground arith)))
]

length-ids : (es : List Entry) → length (ids es) ≡ length es
length-ids [] = refl
length-ids (e ∷ es) = ap suc (length-ids es)

-- As `__init__` leaves the entries: no weight is held yet.
abbrev pub AllZero : List Entry → Type 0
AllZero = All (λ (e : Entry). e.current_weight ≡ pos 0)

total_current-AllZero : (es : List Entry) → AllZero es → total_current es ≡ pos 0
total_current-AllZero [] z = refl
total_current-AllZero (e ∷ es) z = eq_of_parts _ _ (
    omega (
      int_laws,
      ap pos_part z.0,
      ap neg_part z.0,
      ap pos_part (total_current-AllZero es z.1),
      ap neg_part (total_current-AllZero es z.1),
    ))

AllAbove-AllZero : (total : ℕ) (es : List Entry) → 0 < total → AllZero es → AllAbove total es
AllAbove-AllZero total [] h z = tt
AllAbove-AllZero total (e ∷ es) h z =
    (omega (arith, ap pos_part z.0, ap neg_part z.0), AllAbove-AllZero total es h z.1)

current_of-AllZero : (j : ℕ) (es : List Entry) → AllZero es → current_of j es ≡ pos 0
current_of-AllZero j [] z = refl
current_of-AllZero j (e ∷ es) z = ground (arith, current_of-AllZero j es z.1)

-- The entries that the worker starts with are balanced.
pub start-Balanced :
    (total : ℕ) (es : List Entry)
    → Distinct es
    → total ≡ total_weight es
    → 0 < total
    → AllZero es
    → Balanced total es
start-Balanced total es d t p z = record {
  distinct = d;
  totals = t;
  positive = p;
  balance = total_current-AllZero es z;
  above = AllAbove-AllZero total es p z;
}

-- Among k orchestrators of distinct identities, with a positive total weight W and all current
-- weights 0, an orchestrator of weight w is, over n rounds, selected less than n * w / W + 1 times
-- and at least n * w / W - (k - 1) times.
pub rounds_fair :
    (n total : ℕ) (es : List Entry) (j : ℕ)
    → Distinct es
    → total ≡ total_weight es
    → 0 < total
    → AllZero es
    → contains (ids es) j ≡ true
    → let p = picks j (rounds total n es).1 in
      (total * p < n * weight_of j es + total)
      × (n * weight_of j es + total ≤ total * p + length es * total)
rounds_fair n total es j d t p z h =
    let b = start-Balanced total es d t p z in
    let end = (rounds total n es).0 in
    let e = rounds-Balanced n total es b in
    let same = rounds-ids n total es b in
    let account = rounds-current_of n total es j b in
    let zero_before = current_of-AllZero j es z in
    let lower = current_of-above total end j p e.above in
    let upper = current_of-below total end j e.above (rw same h) in
    let len : length end ≡ length es =
      sym (length-ids end) ∙ (ap (λ (l : List ℕ). length l) same ∙ length-ids es) in
    (
      omega (
        int_laws,
        lower,
        ap pos_part account,
        ap neg_part account,
        ap pos_part zero_before,
        ap neg_part zero_before,
      ),
      omega (
        int_laws,
        upper,
        ap pos_part e.balance,
        ap neg_part e.balance,
        ap pos_part account,
        ap neg_part account,
        ap pos_part zero_before,
        ap neg_part zero_before,
        ap (λ (m : ℕ). m * total) len,
      ),
    )
