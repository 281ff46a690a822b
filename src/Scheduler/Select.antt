-- ===== src/Scheduler/Select.antt =====
-- The first loop of `_get_next_client`, and the weight that it selects by.
use avtomatika_worker.Base.{
  ℕ, ◌≡◌, refl, sym, subst, true, false, Option, some, List, [], ◌∷◌, arith, All, ◌==◌, nat_eq,
  contains, if◌then◌else◌, Bool-cases, inl, inr, ◌⊎◌, map,
}
use avtomatika_worker.Base.Int.{ℤ, pos, ◌≤ℤ◌, ◌<ℤ◌, ltb_ℤ, ltb_ℤ→lt, ltb_ℤ→le}
use avtomatika_worker.Scheduler.{Entry, credit, credit_and_select}

abbrev pub ids : List Entry → List ℕ
ids = map (λ (e : Entry). e.client)

-- No client stands in two entries.
abbrev pub Distinct : List Entry → Type 0
Distinct [] = Unit
Distinct (e ∷ es) = (contains (ids es) e.client ≡ false) × Distinct es

abbrev pub current_of : ℕ → List Entry → ℤ
current_of c [] = pos 0
current_of c (e ∷ es) = if c == e.client then e.current_weight else current_of c es

-- The entries after the first loop, and its choice among them.
pub select : ℤ → Option ℕ → List Entry → Option ℕ
select highest selected [] = selected
select highest selected (e ∷ es) =
    let better = ltb_ℤ highest e.current_weight in
    select (if better then e.current_weight else highest)
      (if better then some e.client else selected) es

pub credit_and_select-eq :
    (h : ℤ) (c : Option ℕ) (es : List Entry)
    → credit_and_select h c es ≡ (map credit es, select h c (map credit es))
unfolding credit_and_select select
credit_and_select-eq h c [] = refl
credit_and_select-eq h c (e ∷ es) =
    let better = ltb_ℤ h (credit e).current_weight in
    rw (
      credit_and_select-eq (if better then (credit e).current_weight else h)
        (if better then some e.client else c) es)

-- `c` is in the list, above `h`, and nothing in the list is above it.
pub record IsGreatest (h : ℤ) (c : ℕ) (es : List Entry) : Type 0 where
  pub present : contains (ids es) c ≡ true
  pub above : h <ℤ current_of c es
  pub greatest : All (λ (e : Entry). e.current_weight ≤ℤ current_of c es) es

pub All-weaken :
    (x y : ℤ) (es : List Entry)
    → x ≤ℤ y
    → All (λ (e : Entry). e.current_weight ≤ℤ x) es
    → All (λ (e : Entry). e.current_weight ≤ℤ y) es
All-weaken x y [] h a = tt
All-weaken x y (e ∷ es) h a = (omega arith, All-weaken x y es h a.1)

current_of-tail :
    (e : Entry) (es : List Entry) (c : ℕ)
    → contains (ids es) e.client ≡ false
    → contains (ids es) c ≡ true
    → current_of c (e ∷ es) ≡ current_of c es
current_of-tail e es c fresh has = ground arith

-- Nothing in the list is above `x`.
abbrev pub AllBelow : ℤ → List Entry → Type 0
AllBelow x = All (λ (o : Entry). o.current_weight ≤ℤ x)

IsGreatest-cons :
    (h k : ℤ) (c : ℕ) (e : Entry) (es : List Entry)
    → contains (ids es) e.client ≡ false
    → h ≤ℤ k
    → e.current_weight ≤ℤ k
    → IsGreatest k c es
    → IsGreatest h c (e ∷ es)
IsGreatest-cons h k c e es fresh hk ek g =
    let same = sym (current_of-tail e es c fresh g.present) in
    record {
      present = ground (arith, g.present);
      above = subst (λ x. h <ℤ x) same (omega (arith, g.above));
      greatest = subst (λ x. AllBelow x (e ∷ es)) same (omega (arith, g.above), g.greatest);
    }

IsGreatest-head :
    (h : ℤ) (e : Entry) (es : List Entry)
    → h <ℤ e.current_weight
    → AllBelow e.current_weight es
    → IsGreatest h e.client (e ∷ es)
IsGreatest-head h e es gt a =
    let same : e.current_weight ≡ current_of e.client (e ∷ es) = ground arith in
    record {
      present = ground arith;
      above = subst (λ x. h <ℤ x) same gt;
      greatest = subst (λ x. AllBelow x (e ∷ es)) same (omega arith, a);
    }

-- The loop keeps what it had if nothing is above it, and otherwise finds the greatest.
pub select_cases :
    (h : ℤ) (s : Option ℕ) (es : List Entry)
    → Distinct es
    → ((select h s es ≡ s) × All (λ (e : Entry). e.current_weight ≤ℤ h) es)
      ⊎ ((c : ℕ) × (select h s es ≡ some c) × IsGreatest h c es)
unfolding select
select_cases h s [] d = inl (refl, tt)
select_cases h s (e ∷ es) d = elim (Bool-cases (ltb_ℤ h e.current_weight)) [
  | inl better ↦ rw better (elim (select_cases e.current_weight (some e.client) es d.1) [
    | inl (kept, below) ↦
        inr (e.client, kept, IsGreatest-head h e es (ltb_ℤ→lt h e.current_weight better) below)
    | inr (c, found, g) ↦ inr (
      c,
      found,
      IsGreatest-cons h e.current_weight c e es d.0
          (omega (arith, ltb_ℤ→lt h e.current_weight better)) (omega arith) g,
    )
  ])
  | inr worse ↦ rw worse (elim (select_cases h s es d.1) [
    | inl (kept, below) ↦ inl (kept, (ltb_ℤ→le h e.current_weight worse, below))
    | inr (c, found, g) ↦ inr (
      c,
      found,
      IsGreatest-cons h h c e es d.0 (omega arith) (ltb_ℤ→le h e.current_weight worse) g,
    )
  ])
]
