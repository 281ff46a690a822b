-- ===== src/Tests/Scheduler.antt =====
-- Two orchestrators of weights 2 and 1.
use avtomatika_worker.Base.{◌≡◌, refl, some, List, [], ◌∷◌, arith, nat_eq}
use avtomatika_worker.Base.Int.{pos, ◌+ℤ◌, ◌-ℤ◌}
use avtomatika_worker.Scheduler.{Entry, get_next_client, credit_and_select, charge}
use avtomatika_worker.Scheduler.Select.{Distinct}
use avtomatika_worker.Scheduler.Balance.{Balanced}
use avtomatika_worker.Scheduler.Fairness.{rounds, start-Balanced}

abbrev two : List Entry
two =
    record { client = 1; weight = 2; current_weight = pos 0 }
    ∷ record { client = 2; weight = 1; current_weight = pos 0 }
    ∷ []

-- The smooth order: 1, 2, 1, and again.
smooth_order : (rounds 3 6 two).1 ≡ some 1 ∷ some 2 ∷ some 1 ∷ some 1 ∷ some 2 ∷ some 1 ∷ []
unfolding rounds get_next_client credit_and_select charge ◌+ℤ◌ ◌-ℤ◌ nat_eq
smooth_order = refl

two-Distinct : Distinct two
unfolding nat_eq
two-Distinct = (refl, (refl, tt))

two-Balanced : Balanced 3 two
two-Balanced = start-Balanced 3 two two-Distinct refl (omega arith) (refl, (refl, tt))
