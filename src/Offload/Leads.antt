-- ===== src/Offload/Leads.antt =====
-- Pre- and postconditions of actions, where these give a value.
use avtomatika_worker.Base.{◌≡◌, sym, ap, subst, string_eq}
use avtomatika_worker.Task.Call.{Try, ok, raise}
use avtomatika_worker.Offload.{Io, Action, Effect, give, then_do, ◌>>◌, outside, attempt}

-- Where the call gives a value, it holds of the value and the state.
abbrev pub Holds : {W A : Type 0} → (A → W → Type 0) → W × Try A → Type 0
Holds P (s, ok a) = P a s
Holds P (s, raise x) = Unit

always : {W A : Type 0} (r : W × Try A) → Holds (λ _ _. Unit {0}) r
always (s, ok a) = tt
always (s, raise x) = tt

-- What follows a call that gave a value.
pub after :
    {W A B : Type 0} (x : Effect W A) (f : A → Effect W B) (w v : W) (a : A)
    → x w ≡ (v, ok a)
    → (x >> f) w ≡ f a v
unfolding ◌>>◌
after x f w v a e = ap (then_do f) e

module _ {S : Type 0} where
  -- From a world with P, an action that gives a value leaves a world with Q.
  pub record Leads {A : Type 0} (P : S → Type 0) (a : Action S A) (Q : A → S → Type 0)
      : Type 0 where
    pub all : (io : Io S) → P io.world → Holds (λ x (o : Io S). Q x o.world) (a io)

  then_do-Holds :
      {A B : Type 0} (P : A → S → Type 0) (Q : B → S → Type 0) (g : A → Action S B)
      (r : Io S × Try A)
      → Holds (λ x (o : Io S). P x o.world) r
      → ((x : A) → Leads (P x) (g x) Q)
      → Holds (λ x (o : Io S). Q x o.world) (then_do g r)
  then_do-Holds P Q g (io, ok a) h l = (l a).all io h
  then_do-Holds P Q g (io, raise x) h l = tt

  pub then-Leads :
      {A B : Type 0} (P : S → Type 0) (Q : A → S → Type 0) (R : B → S → Type 0) (a : Action S A)
      (g : A → Action S B)
      → Leads P a Q
      → ((x : A) → Leads (Q x) (g x) R)
      → Leads P (a >> g) R
  unfolding ◌>>◌
  then-Leads P Q R a g h l = record { all = λ io p. then_do-Holds Q R g (a io) (h.all io p) l }

  pub any-Leads : {A : Type 0} (a : Action S A) → Leads (λ _. Unit {0}) a (λ _ _. Unit {0})
  any-Leads a = record { all = λ io _. always (a io) }

  pub give-Leads :
      {A : Type 0} (P : S → Type 0) (Q : A → S → Type 0) (a : A)
      → ((s : S) → P s → Q a s)
      → Leads P (give a) Q
  unfolding give
  give-Leads P Q a h = record { all = λ io p. h io.world p }

  held :
      {A : Type 0} (Q : A → S → Type 0) (io : Io S) (r : S × Try A)
      → Holds Q r
      → Holds (λ x (o : Io S). Q x o.world) (record io { world = r.0 }, r.1)
  held Q io (s, ok a) h = h
  held Q io (s, raise x) h = tt

  pub outside-Leads :
      {A : Type 0} (P : S → Type 0) (Q : A → S → Type 0) (g : S → S × Try A)
      → ((s : S) → P s → Holds Q (g s))
      → Leads P (outside g) Q
  unfolding outside
  outside-Leads P Q g h = record { all = λ io p. held Q io (g io.world) (h io.world p) }

  pub attempt-Leads :
      {A B : Type 0} (P : S → Type 0) (Q : B → S → Type 0) (t : Try A) (a : A) (g : A → Action S B)
      → t ≡ ok a
      → Leads P (g a) Q
      → Leads P (attempt t >> g) Q
  unfolding attempt ◌>>◌
  attempt-Leads P Q t a g e h =
      subst (λ t. Leads P (attempt t >> g) Q) (sym e) (record { all = λ io p. h.all io p })

  -- A property of the state, with what holds of a value if there is one.
  pub with_state :
      {A : Type 0} (P : S → Type 0) (Q : A → S → Type 0) (R : A → S → Type 0) (r : S × Try A)
      → P r.0
      → Holds Q r
      → ((a : A) (s : S) → P s → Q a s → R a s)
      → Holds R r
  with_state P Q R (s, ok a) p q h = h a s p q
  with_state P Q R (s, raise x) p q h = tt

  pub given :
      {A : Type 0} (Q : A → S → Type 0) (r : Io S × Try A) (io : Io S) (a : A)
      → r ≡ (io, ok a)
      → Holds (λ x (o : Io S). Q x o.world) r
      → Q a io.world
  given Q r io a e h = subst (Holds (λ x (o : Io S). Q x o.world)) e h
