-- ===== src/Base/Lists.antt =====
-- Lists: lengths in native numbers, counting by a test, and predicates by recursion.
use Prim.Native.Nat.{ℕ, suc, ◌+◌}
use mathlib.Core.Path.{◌≡◌, refl, ap}
use mathlib.Core.Bool.{Bool, true, cond}
use mathlib.Core.List.{List, [], ◌∷◌, ◌++◌}
use native.Mathlib.Omega.{arith}

module _ {ℓ} {A : Type ℓ} where
  abbrev pub length : List A → ℕ
  length [] = 0
  length (_ ∷ xs) = suc (length xs)

  abbrev pub All {κ} : (A → Type κ) → List A → Type κ
  All P [] = Unit
  All P (x ∷ xs) = P x × All P xs

  abbrev pub filter : (A → Bool) → List A → List A
  filter p [] = []
  filter p (x ∷ xs) = let rest = filter p xs in cond (p x) (x ∷ rest) rest

  -- How many items pass a test.
  abbrev pub count_if : (A → Bool) → List A → ℕ
  count_if p [] = 0
  count_if p (x ∷ xs) = cond (p x) 1 0 + count_if p xs

  pub filter_all : (xs : List A) → filter (λ _. true) xs ≡ xs
  filter_all [] = refl
  filter_all (x ∷ xs) = ap (λ ys. x ∷ ys) (filter_all xs)

  pub length-append : (xs ys : List A) → length (xs ++ ys) ≡ length xs + length ys
  length-append [] ys = omega arith
  length-append (x ∷ xs) ys = omega (arith, length-append xs ys)

  pub All-append {κ} : (P : A → Type κ) (xs ys : List A) → All P xs → All P ys → All P (xs ++ ys)
  All-append P [] ys hx hy = hy
  All-append P (x ∷ xs) ys hx hy = (hx.0, All-append P xs ys hx.1 hy)

  -- An item taken out of the middle.
  pub length-middle :
      (before after : List A) (x : A)
      → length (before ++ (x ∷ after)) ≡ suc (length (before ++ after))
  length-middle [] after x = refl
  length-middle (b ∷ before) after x = omega (arith, length-middle before after x)

  pub count_if-middle :
      (p : A → Bool) (before after : List A) (x : A)
      → count_if p (before ++ (x ∷ after)) ≡ cond (p x) 1 0 + count_if p (before ++ after)
  count_if-middle p [] after x = refl
  count_if-middle p (b ∷ before) after x = omega (arith, count_if-middle p before after x)
