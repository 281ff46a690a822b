-- ===== src/Scheduler/Round.antt =====
-- One round of `_get_next_client`, and what it leaves of the weights.
use avtomatika_worker.Base.{
  ℕ, ◌≡◌, refl, sym, ap, ◌∙◌, true, none, some, List, [], ◌∷◌, arith, nat_eq, contains, Bool-cases,
  inl, inr, map,
}
use avtomatika_worker.Base.Int.{
  ℤ, pos, negsuc, pos_part, neg_part, ◌≤ℤ◌, ◌<ℤ◌, ltb_ℤ, int_laws, ltb_ℤ→lt, ltb_ℤ→le, eq_of_parts,
}
use avtomatika_worker.Scheduler.{Entry, credit, charge, get_next_client}
use avtomatika_worker.Scheduler.Select.{
  ids, current_of, select, credit_and_select-eq, IsGreatest, AllBelow, All-weaken, select_cases,
}
use avtomatika_worker.Scheduler.Balance.{
  total_current, Balanced, ids-credit, Distinct-credit, total_weight-credit, total_current-credit,
  AllAbove-credit, Distinct-charge, total_weight-charge, total_current-charge, AllAbove-charge,
}

total_current-AllBelow : (es : List Entry) → AllBelow (pos 0) es → total_current es ≤ℤ pos 0
total_current-AllBelow [] a = omega arith
total_current-AllBelow (e ∷ es) a = omega (int_laws, a.0, total_current-AllBelow es a.1)

-- Where the sum is positive, so is the greatest weight.
greatest-positive :
    (h : ℤ) (c : ℕ) (es : List Entry)
    → IsGreatest h c es
    → pos 0 <ℤ total_current es
    → pos 0 <ℤ current_of c es
greatest-positive h c es g positive = elim (Bool-cases (ltb_ℤ (pos 0) (current_of c es))) [
  | inl is_positive ↦ ltb_ℤ→lt (pos 0) (current_of c es) is_positive
  | inr not_positive ↦ absurd (
      omega (
        arith,
        total_current-AllBelow es (
            All-weaken (current_of c es) (pos 0) es
              (ltb_ℤ→le (pos 0) (current_of c es) not_positive) g.greatest),
      ))
]

-- One round from balanced weights: some client of the list is selected and charged, and its weight
-- was positive.
pub record Round (total : ℕ) (es : List Entry) (c : ℕ) : Type 0 where
  pub result : get_next_client total es ≡ (charge total c (map credit es), some c)
  pub present : contains (ids (map credit es)) c ≡ true
  pub was_positive : pos 0 <ℤ current_of c (map credit es)

credited-positive :
    (total : ℕ) (es : List Entry) → Balanced total es → total_current (map credit es) ≡ pos total
credited-positive total es b =
    total_current-credit es
    ∙ eq_of_parts _ _ (omega (int_laws, b.totals, ap pos_part b.balance, ap neg_part b.balance))

get_next_client_shape :
    (total : ℕ) (e : Entry) (es : List Entry) (c : ℕ)
    → select (negsuc 0) none (map credit (e ∷ es)) ≡ some c
    → get_next_client total (e ∷ es) ≡ (charge total c (map credit (e ∷ es)), some c)
unfolding get_next_client
get_next_client_shape total e es c found = rw (credit_and_select-eq (negsuc 0) none (e ∷ es), found)

pub get_next_client_round :
    (total : ℕ) (es : List Entry) → Balanced total es → (c : ℕ) × Round total es c
get_next_client_round total [] b = absurd (omega (arith, b.totals, b.positive))
get_next_client_round total (e ∷ es) b =
    let credited = map credit (e ∷ es) in
    let sum = credited-positive total (e ∷ es) b in
    elim (select_cases (negsuc 0) none credited (Distinct-credit (e ∷ es) b.distinct)) [
      | inl (kept, below) ↦ absurd (
          omega (
            arith,
            b.positive,
            ap pos_part sum,
            ap neg_part sum,
            total_current-AllBelow credited
                (All-weaken (negsuc 0) (pos 0) credited (omega arith) below),
          ))
      | inr (c, found, g) ↦ (
        c,
        record {
          result = get_next_client_shape total e es c found;
          present = g.present;
          was_positive =
              greatest-positive (negsuc 0) c credited g
                (omega (arith, b.positive, ap pos_part sum, ap neg_part sum));
        },
      )
    ]

charge-Balanced :
    (total c : ℕ) (es : List Entry)
    → Balanced total es
    → Round total es c
    → Balanced total (charge total c (map credit es))
charge-Balanced total c es b r =
    let credited = map credit es in
    let sum = credited-positive total es b in
    let left = total_current-charge total c credited r.present in
    record {
      distinct = Distinct-charge total c credited (Distinct-credit es b.distinct);
      totals = b.totals ∙ sym (total_weight-charge total c credited ∙ total_weight-credit es);
      positive = b.positive;
      balance =
          eq_of_parts _ _ (
            omega (int_laws, ap pos_part left, ap neg_part left, ap pos_part sum, ap neg_part sum));
      above = AllAbove-charge total c credited r.was_positive (AllAbove-credit total es b.above);
    }

-- From balanced weights a round selects a client, and leaves the weights balanced.
pub get_next_client-Balanced :
    (total : ℕ) (es : List Entry)
    → Balanced total es
    → Balanced total (get_next_client total es).0
      × ((c : ℕ) × ((get_next_client total es).1 ≡ some c) × (contains (ids es) c ≡ true))
get_next_client-Balanced total es b =
    let (c, r) = get_next_client_round total es b in
    rw r.result (charge-Balanced total c es b r, (c, refl, rw (ids-credit es) at r.present))
