-- ===== src/Startup/Kept.antt =====
-- worker.py: which fields the steps of `main` leave as they are.
use avtomatika_worker.Base.{ℕ, ◌≡◌, refl, ◌∙◌, Bool, true, false, List, if◌then◌else◌}
use avtomatika_worker.Task.Call.{Try, ok, raise}
use avtomatika_worker.Worker.{Worker}
use avtomatika_worker.Config.{Orchestrator}
use avtomatika_worker.Offload.{Effect, give, then_do, ◌>>◌, attempt}
use avtomatika_worker.Startup.{
  Boot, Site, needs_ssl, on_worker, make_ssl_context, make_clients, make_session, connect, is_empty,
}

module _ {F : Type 0} (g : Boot → F) where
  -- The call leaves a field as it is.
  abbrev pub Same : {A : Type 0} → Effect Boot A → Type 0
  Same x = (b : Boot) → g (x b).0 ≡ g b

  followed :
      {A B : Type 0} (r : Boot × Try A) (f : A → Effect Boot B)
      → ((a : A) → Same (f a))
      → g (then_do f r).0 ≡ g r.0
  followed (b, ok a) f k = k a b
  followed (b, raise x) f k = refl

  pub then-Same :
      {A B : Type 0} (x : Effect Boot A) (f : A → Effect Boot B)
      → Same x
      → ((a : A) → Same (f a))
      → Same (x >> f)
  unfolding ◌>>◌
  then-Same x f h k b = followed (x b) f k ∙ h b

  pub last-Same :
      {A B : Type 0} (x : Effect Boot A) (f : A → Effect Boot B) (b : Boot)
      → ((a : A) → Same (f a))
      → g ((x >> f) b).0 ≡ g (x b).0
  unfolding ◌>>◌
  last-Same x f b k = followed (x b) f k

  pub attempt-Same : {A : Type 0} (t : Try A) → Same (attempt t)
  unfolding attempt
  attempt-Same t b = refl

  if-Same :
      {A : Type 0} (c : Bool) (x y : Effect Boot A) → Same x → Same y → Same (if c then x else y)
  if-Same true x y h k = h
  if-Same false x y h k = k

  if_at-Same :
      {A : Type 0} (c : Bool) (x y : Boot × Try A) (v : F)
      → g x.0 ≡ v
      → g y.0 ≡ v
      → g (if c then x else y).0 ≡ v
  if_at-Same true x y v h k = h
  if_at-Same false x y v h k = k

-- A field that only one step of `main` changes.
module _ {F : Type 0} (site : Site) (g : Boot → F)
    (of_ssl : (b : Boot) (v : Bool) → g (record b { has_ssl_context = v }) ≡ g b)
    (of_session : (b : Boot) (v : Bool) → g (record b { has_session = v }) ≡ g b)
    (of_worker : (b : Boot) (w : Worker) → g (record b { worker = w }) ≡ g b)
    (of_clients : (b : Boot) (cs : List (Orchestrator × ℕ))
      → g (record b { clients = cs }) ≡ g b) where
  pub on_worker-Same : (f : Effect Worker Unit) → Same g (on_worker site f)
  unfolding on_worker
  on_worker-Same f b = of_worker b _

  make_ssl_context-Same : Same g (make_ssl_context site)
  unfolding make_ssl_context give
  make_ssl_context-Same =
      if-Same g (needs_ssl site) _ _ (then-Same g _ _ (attempt-Same g _) (λ _ b. of_ssl b true))
        (λ b. refl)

  make_clients-Same : Same g (make_clients site)
  unfolding make_clients give
  make_clients-Same b =
      if_at-Same g (is_empty b.clients) _ _ (g b)
        (then-Same g _ _ (attempt-Same g _) (λ cs b. of_clients b cs) b) refl

  pub make_session-Same : Same g (make_session site)
  unfolding make_session give
  make_session-Same b = if_at-Same g b.has_session _ _ (g b) refl (
      then-Same g _ _ make_ssl_context-Same
        (λ _ b. make_clients-Same (record b { has_session = true }) ∙ of_session b true) b)

  pub connect-Same : Same g (connect site)
  unfolding connect
  connect-Same b = refl
