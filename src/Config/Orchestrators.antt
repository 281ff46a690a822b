-- ===== src/Config/Orchestrators.antt =====
-- The list of the orchestrators: its order, and what it has of the configured one.
use avtomatika_worker.Base.{
  ◌+◌, String, ◌≡◌, refl, ap, ◌∙◌, Bool, true, false, not, ◌&&◌, ◌||◌, some, List, [], ◌∷◌, map,
  ◌==◌, string_eq, All, count_if, Bool-cases, inl, inr, arith,
}
use mathlib.Core.Bool.{cond}
use avtomatika_worker.Base.Int.{ℤ, ltb_ℤ}
use avtomatika_worker.Task.Call.{ok}
use avtomatika_worker.Config.{
  Orchestrator, Environment, priority_of, with_defaults, is_less, is_less_url, has_clash, insert,
  sorted, sort, orchestrators_of,
}

-- `o` does not come after `q` by its priority.
abbrev pub NotAfter : Orchestrator → Orchestrator → Type 0
NotAfter o q = ltb_ℤ (priority_of q) (priority_of o) ≡ false

-- No orchestrator comes before one of a smaller priority.
abbrev pub Ascending : List Orchestrator → Type 0
Ascending [] = Unit
Ascending (o ∷ os) = All (NotAfter o) os × Ascending os

NotAfter-trans : (a b c : Orchestrator) → NotAfter a b → NotAfter b c → NotAfter a c
NotAfter-trans a b c h k = ints (priority_of a) (priority_of b) (priority_of c) h k
  where
    ints : (x y z : ℤ) → ltb_ℤ y x ≡ false → ltb_ℤ z y ≡ false → ltb_ℤ z x ≡ false
    ints x y z h k = ground arith

less-NotAfter : (p o : Orchestrator) → is_less p o ≡ true → NotAfter p o
unfolding is_less
less-NotAfter p o h = ints (priority_of p) (priority_of o) (is_less_url p.url o.url) h
  where
    ints : (x y : ℤ) (b : Bool) → (ltb_ℤ x y || (not (ltb_ℤ y x) && b)) ≡ true → ltb_ℤ y x ≡ false
    ints x y b h = ground arith

not_less-NotAfter : (p o : Orchestrator) → is_less p o ≡ false → NotAfter o p
unfolding is_less
not_less-NotAfter p o h = ints (priority_of p) (priority_of o) (is_less_url p.url o.url) h
  where
    ints : (x y : ℤ) (b : Bool) → (ltb_ℤ x y || (not (ltb_ℤ y x) && b)) ≡ false → ltb_ℤ x y ≡ false
    ints x y b h = ground arith

All-trans :
    (o p : Orchestrator) (ps : List Orchestrator)
    → NotAfter o p
    → All (NotAfter p) ps
    → All (NotAfter o) ps
All-trans o p [] h k = tt
All-trans o p (q ∷ ps) h k = (NotAfter-trans o p q h k.0, All-trans o p ps h k.1)

All-insert :
    (P : Orchestrator → Type 0) (o : Orchestrator) (ps : List Orchestrator)
    → P o
    → All P ps
    → All P (insert o ps)
unfolding insert
All-insert P o [] h k = (h, tt)
All-insert P o (p ∷ ps) h k = elim (Bool-cases (is_less p o)) [
  | inl less ↦ rw (less) (k.0, All-insert P o ps h k.1)
  | inr not_less ↦ rw (not_less) (h, (k.0, k.1))
]

insert-Ascending :
    (o : Orchestrator) (ps : List Orchestrator) → Ascending ps → Ascending (insert o ps)
unfolding insert
insert-Ascending o [] h = (tt, tt)
insert-Ascending o (p ∷ ps) h = elim (Bool-cases (is_less p o)) [
  | inl less ↦
      rw (less)
        (All-insert (NotAfter p) o ps (less-NotAfter p o less) h.0, insert-Ascending o ps h.1)
  | inr not_less ↦
      let first = not_less-NotAfter p o not_less in
      rw (not_less) ((first, All-trans o p ps first h.0), (h.0, h.1))
]

pub sorted-Ascending : (os : List Orchestrator) → Ascending (sorted os)
unfolding sorted
sorted-Ascending [] = tt
sorted-Ascending (o ∷ os) = insert-Ascending o (sorted os) (sorted-Ascending os)

count-insert :
    (p : Orchestrator → Bool) (o : Orchestrator) (os : List Orchestrator)
    → count_if p (insert o os) ≡ count_if p (o ∷ os)
unfolding insert
count-insert p o [] = refl
count-insert p o (q ∷ os) = elim (Bool-cases (is_less q o)) [
  | inl less ↦ rw (less) (omega (arith, count-insert p o os))
  | inr not_less ↦ rw (not_less) refl
]

pub count-sorted :
    (p : Orchestrator → Bool) (os : List Orchestrator) → count_if p (sorted os) ≡ count_if p os
unfolding sorted
count-sorted p [] = refl
count-sorted p (o ∷ os) =
    count-insert p o (sorted os) ∙ ap (λ n. cond (p o) 1 0 + n) (count-sorted p os)

-- Where ORCHESTRATORS_CONFIG is not empty and is read as a list, and no two entries of one
-- priority have and lack an address, the orchestrators are those entries with their defaults, none
-- comes before one of a smaller priority, and each is there as often as in the list.
pub configured_orchestrators :
    (e : Environment) (text : String) (os : List Orchestrator)
    → (text == "") ≡ false
    → e.load_orchestrators text ≡ some os
    → has_clash (map with_defaults os) ≡ false
    → let r = sorted (map with_defaults os) in
      (orchestrators_of e (some text) ≡ ok r)
      × Ascending r
      × ((p : Orchestrator → Bool) → count_if p r ≡ count_if p (map with_defaults os))
unfolding orchestrators_of sort
configured_orchestrators e text os h loaded no_clash =
    let r = map with_defaults os in
    (rw (h, loaded, no_clash) refl, sorted-Ascending r, λ p. count-sorted p r)
