-- ===== src/Config/Valid.antt =====
-- What `validate` says of the list that was configured.
use avtomatika_worker.Base.{
  String, ◌≡◌, refl, ap, ◌∙◌, Bool, true, false, ◌&&◌, List, [], ◌∷◌, map, string_eq, Bool-cases,
  inl, inr, if◌then◌else◌, arith,
}
use avtomatika_worker.Task.Call.{Try, ok, raise, value_error, ◌>>=◌}
use avtomatika_worker.Worker.{is_truthy}
use avtomatika_worker.Config.{
  Orchestrator, with_defaults, is_less, insert, sorted, check_urls, validate,
}

-- Whether every entry has an address that is not empty.
abbrev pub have_urls : List Orchestrator → Bool
have_urls [] = true
have_urls (o ∷ os) = is_truthy o.url && have_urls os

abbrev pub is_none : List Orchestrator → Bool
is_none [] = true
is_none (_ ∷ _) = false

-- What a configured list deserves.
abbrev pub verdict : List Orchestrator → Try {0} Unit
verdict os =
    if is_none os
    then raise (value_error "No orchestrators configured.")
    else if have_urls os
    then ok tt
    else raise (value_error "Orchestrator configuration missing URL.")

check_urls-have_urls :
    (os : List Orchestrator)
    → check_urls os ≡ (
        if have_urls os
        then ok tt
        else raise (value_error "Orchestrator configuration missing URL."))
unfolding check_urls
check_urls-have_urls [] = refl
check_urls-have_urls (o ∷ os) = elim (Bool-cases (is_truthy o.url)) [
  | inl given ↦ rw (given) (check_urls-have_urls os)
  | inr not_given ↦ rw (not_given) refl
]

judged :
    (os : List Orchestrator)
    → elim os [
      | [] ↦ raise (value_error "No orchestrators configured.")
      | o ∷ os' ↦ check_urls (o ∷ os')
    ]
      ≡ verdict os
judged [] = refl
judged (o ∷ os) = check_urls-have_urls (o ∷ os)

have_urls-insert :
    (o : Orchestrator) (os : List Orchestrator) → have_urls (insert o os) ≡ have_urls (o ∷ os)
unfolding insert
have_urls-insert o [] = refl
have_urls-insert o (p ∷ os) = elim (Bool-cases (is_less p o)) [
  | inl less ↦ rw (less) (
      ap (λ b. is_truthy p.url && b) (have_urls-insert o os)
      ∙ swapped (is_truthy p.url) (is_truthy o.url) (have_urls os))
  | inr not_less ↦ rw (not_less) refl
]
  where
    swapped : (a b c : Bool) → (a && (b && c)) ≡ (b && (a && c))
    swapped a b c = ground arith

have_urls-sorted :
    (os : List Orchestrator) → have_urls (sorted (map with_defaults os)) ≡ have_urls os
unfolding sorted with_defaults
have_urls-sorted [] = refl
have_urls-sorted (o ∷ os) =
    have_urls-insert (with_defaults o) (sorted (map with_defaults os))
    ∙ ap (λ b. is_truthy o.url && b) (have_urls-sorted os)

is_none-insert : (o : Orchestrator) (os : List Orchestrator) → is_none (insert o os) ≡ false
unfolding insert
is_none-insert o [] = refl
is_none-insert o (p ∷ os) = elim (Bool-cases (is_less p o)) [
  | inl less ↦ rw (less) refl
  | inr not_less ↦ rw (not_less) refl
]

is_none-sorted : (os : List Orchestrator) → is_none (sorted (map with_defaults os)) ≡ is_none os
unfolding sorted
is_none-sorted [] = refl
is_none-sorted (o ∷ os) = is_none-insert (with_defaults o) (sorted (map with_defaults os))

-- For a valid worker id the validation of the sorted list fails for want of orchestrators if the
-- configured list is empty, else for want of an address if some entry of it has none or an empty
-- one, and passes otherwise.
pub validate-verdict :
    (validate_identifier : String → Try {0} Unit) (worker_id : String) (os : List Orchestrator)
    → validate validate_identifier worker_id (sorted (map with_defaults os))
      ≡ (validate_identifier worker_id >>= (λ _. verdict os))
unfolding validate
validate-verdict validate_identifier worker_id os =
    ap (λ v. validate_identifier worker_id >>= (λ _. v))
      (judged (sorted (map with_defaults os)) ∙ rw (is_none-sorted os, have_urls-sorted os) refl)
