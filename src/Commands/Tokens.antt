-- ===== src/Commands/Tokens.antt =====
-- The token that the worker goes on with, and when it asks for the next one.
use avtomatika_worker.Base.{
  ℕ, ◌*◌, ◌≤◌, ◌⊎◌, inl, inr, String, ◌≡◌, refl, List, [], ◌∷◌, min, max, leb, Bool-cases, arith,
}
use avtomatika_worker.Commands.{Refresh, failed, nothing, token, refresh_all, rotate_tokens}

-- The token of the last client that gives one.
abbrev pub last_token : List Refresh → String → String
last_token [] t = t
last_token (failed ∷ rs) t = last_token rs t
last_token (nothing ∷ rs) t = last_token rs t
last_token (token u n ∷ rs) t = last_token rs u

-- Every token that was given is still good after so many milliseconds, or good for less than a minute.
abbrev pub AllGood : List Refresh → ℕ → Type 0
AllGood [] delay = Unit
AllGood (failed ∷ rs) delay = AllGood rs delay
AllGood (nothing ∷ rs) delay = AllGood rs delay
AllGood (token t n ∷ rs) delay = ((delay ≤ n * 1000) ⊎ (n ≤ 59)) × AllGood rs delay

refresh_all-last_token :
    (rs : List Refresh) (t : String) (n : ℕ) → (refresh_all rs t n).0 ≡ last_token rs t
unfolding refresh_all
refresh_all-last_token [] t n = refl
refresh_all-last_token (failed ∷ rs) t n = refresh_all-last_token rs t n
refresh_all-last_token (nothing ∷ rs) t n = refresh_all-last_token rs t n
refresh_all-last_token (token u k ∷ rs) t n = refresh_all-last_token rs u (min n k)

refresh_all_least : (rs : List Refresh) (t : String) (n : ℕ) → (refresh_all rs t n).1 ≤ n
unfolding refresh_all
refresh_all_least [] t n = omega arith
refresh_all_least (failed ∷ rs) t n = refresh_all_least rs t n
refresh_all_least (nothing ∷ rs) t n = refresh_all_least rs t n
refresh_all_least (token u k ∷ rs) t n = omega (arith, refresh_all_least rs u (min n k))

within : (k m : ℕ) → m ≤ k → (max 60000 (m * 800) ≤ k * 1000) ⊎ (k ≤ 59)
within k m h = elim (Bool-cases (leb 60 k)) [
  | inl long ↦ inl (ground (arith, h, long))
  | inr short ↦ inr (ground (arith, short))
]

good :
    (rs : List Refresh) (t : String) (n : ℕ) → AllGood rs (max 60000 ((refresh_all rs t n).1 * 800))
unfolding refresh_all
good [] t n = tt
good (failed ∷ rs) t n = good rs t n
good (nothing ∷ rs) t n = good rs t n
good (token u k ∷ rs) t n = (
  within k ((refresh_all rs u (min n k)).1) (omega (arith, refresh_all_least rs u (min n k))),
  good rs u (min n k),
)

-- A round of the token rotation leaves the token of the last client that gave one, and sleeps
-- between 60 and 2880 seconds, no longer than any token that was given is good for, unless that is
-- less than a minute.
pub rotation_in_time :
    (rs : List Refresh) (worker_token : String)
    → let (new_token, delay) = rotate_tokens rs worker_token in
      (new_token ≡ last_token rs worker_token)
      × (60000 ≤ delay)
      × (delay ≤ 2880000)
      × AllGood rs delay
unfolding rotate_tokens
rotation_in_time rs worker_token = (
  refresh_all-last_token rs worker_token 3600,
  omega arith,
  omega (arith, refresh_all_least rs worker_token 3600),
  good rs worker_token 3600,
)
