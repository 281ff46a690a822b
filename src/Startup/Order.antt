-- ===== src/Startup/Order.antt =====
-- worker.py: what `main` has warned of, started and stopped when it ends, in whichever way.
use avtomatika_worker.Base.{
  arith, String, ◌≡◌, refl, ◌∙◌, Bool, true, false, not, ◌&&◌, List, [], ◌∷◌, ◌++◌, inl, inr, ◌⊎◌,
  All, filter_all,
}
use avtomatika_worker.Base.Dict
use avtomatika_worker.Base.Dict.{Dict}
use avtomatika_worker.Task.Call.{Try, ok, raise}
use avtomatika_worker.Shutdown.{
  Cleanup, Cleaned, Stopping, cancel_comm_task, cancel_queue_worker, cancel_token_rotation,
  cancel_polling, close_clients, close_session, when, perform_shutdown_cleanup,
}
use avtomatika_worker.Offload.{Effect, Called, give, then_do, ◌>>◌, attempt}
use avtomatika_worker.Startup.{
  Background, communications, queue_worker, token_rotation, polling, Boot, Site, warn, on_worker,
  make_session, connect, connect_all, start_tasks, clean_up, main, load_skills,
  validate_skill_types, rotation,
}
use avtomatika_worker.Startup.Kept.{
  Same, then-Same, last-Same, attempt-Same, on_worker-Same, make_session-Same, connect-Same,
}

-- What stops a background task.
abbrev pub stop_of : Background → Cleanup
stop_of communications = cancel_comm_task
stop_of queue_worker = cancel_queue_worker
stop_of token_rotation = cancel_token_rotation
stop_of polling = cancel_polling

abbrev pub Among : Cleanup → List Cleanup → Type 0
Among c [] = ⊥
Among c (d ∷ ds) = (c ≡ d) ⊎ Among c ds

here : (c : Cleanup) (ds : List Cleanup) → Among c (c ∷ ds)
here c ds = inl refl

there : (c d : Cleanup) (ds : List Cleanup) → Among c ds → Among c (d ∷ ds)
there c d ds h = inr h

Among-when : (b : Bool) (c : Cleanup) → b ≡ true → Among c (when b (c ∷ []))
Among-when b c h = rw (h) (inl refl)

-- All background tasks of the list are stopped, the clients are closed, and so is a session of the
-- worker's own.
abbrev pub StopsAll : Bool → List Background → List Cleanup → Type 0
StopsAll own_session ts steps =
    All (λ t. Among (stop_of t) steps) ts
    × Among close_clients steps
    × (own_session ≡ true → Among close_session steps)

-- Polling and the queue's worker are stopped; the other background tasks, the clients and the session
-- are left as they are.
abbrev pub StopsSome : List Cleanup → Type 0
StopsSome steps =
    Among cancel_polling steps
    × Among cancel_queue_worker steps
    × (¬ Among cancel_comm_task steps)
    × (¬ Among cancel_token_rotation steps)
    × (¬ Among close_clients steps)
    × (¬ Among close_session steps)

-- What the cleanup did, where it was cut or not.
abbrev pub Stops : Bool → Bool → List Background → List Cleanup → Type 0
Stops true own_session ts steps = StopsSome steps
Stops false own_session ts steps = StopsAll own_session ts steps

module _ (site : Site) where
  -- How `main` ended. Where it raised before its cleanup, no task was made. Where it came to its
  -- cleanup, all clients were connected, and the cleanup was cut if and only if the queue's worker had
  -- a result in hand.
  abbrev pub IsSettled : Boot × Try Cleaned → Type 0
  IsSettled (b, raise x) = b.tasks ≡ []
  IsSettled (b, ok c) =
      (connect_all site.connect b.clients ≡ ok tt)
      × (c.is_cut ≡ site.sends_when_cancelled)
      × Stops site.sends_when_cancelled (b.has_session && not site.session_is_managed_externally)
          b.tasks c.steps

  -- The cleanup of a worker that may have a token rotation, tasks and an open session.
  abbrev stopping : Bool → Bool → Bool → Bool → Stopping
  stopping sends ssl with_tasks open_session = record {
    has_queue_worker = true;
    sends_when_cancelled = sends;
    has_token_rotation = ssl;
    has_active_tasks = with_tasks;
    shutdown_timeout = site.shutdown_timeout;
    has_open_session = open_session;
    session_is_managed_externally = site.session_is_managed_externally;
  }

  abbrev made : Bool → List Background
  made ssl = (communications ∷ queue_worker ∷ []) ++ rotation site ssl ++ (polling ∷ [])

  stopped :
      (ssl with_tasks open_session : Bool)
      → StopsAll
          (open_session && not site.session_is_managed_externally)
          (made ssl)
          (perform_shutdown_cleanup (stopping false ssl with_tasks open_session)).steps
  unfolding perform_shutdown_cleanup
  stopped true true open_session = (
    search (here, there) depth 14,
    search (here, there) depth 14,
    λ own. search (Among-when _ _ own, there) depth 14,
  )
  stopped true false open_session = (
    search (here, there) depth 14,
    search (here, there) depth 14,
    λ own. search (Among-when _ _ own, there) depth 14,
  )
  stopped false true open_session = (
    search (here, there) depth 14,
    search (here, there) depth 14,
    λ own. search (Among-when _ _ own, there) depth 14,
  )
  stopped false false open_session = (
    search (here, there) depth 14,
    search (here, there) depth 14,
    λ own. search (Among-when _ _ own, there) depth 14,
  )

  -- A cleanup that was cut after the wait for the queue's worker.
  cut_short :
      (ssl with_tasks open_session : Bool)
      → StopsSome (perform_shutdown_cleanup (stopping true ssl with_tasks open_session)).steps
  unfolding perform_shutdown_cleanup
  cut_short ssl with_tasks open_session = (
    search (here, there) depth 14,
    search (here, there) depth 14,
    λ h. ground (arith, h),
    λ h. ground (arith, h),
    λ h. ground (arith, h),
    λ h. ground (arith, h),
  )

  cleaned :
      (sends ssl with_tasks open_session : Bool)
      → let c = perform_shutdown_cleanup (stopping sends ssl with_tasks open_session) in
        (c.is_cut ≡ sends)
        × Stops sends (open_session && not site.session_is_managed_externally) (made ssl) c.steps
  unfolding perform_shutdown_cleanup
  cleaned true ssl with_tasks open_session = (refl, cut_short ssl with_tasks open_session)
  cleaned false ssl with_tasks open_session = (refl, stopped ssl with_tasks open_session)

  connected :
      (b : Boot) (c : Called)
      → connect_all site.connect b.clients ≡ c
      → b.tasks ≡ []
      → IsSettled (then_do (λ _. clean_up site) (then_do (λ _. start_tasks site) (b, c)))
  unfolding start_tasks clean_up give
  connected b (raise x) e h = h
  connected b (ok _) e h =
      let (cut, stops) =
        cleaned site.sends_when_cancelled b.has_ssl_context site.ends_with_tasks b.has_session in
      (e, cut, stops)

  before_connect :
      (r : Boot × Called)
      → r.0.tasks ≡ []
      → IsSettled (
          then_do
            (λ _. clean_up site)
            (then_do (λ _. start_tasks site) (then_do (λ _. connect site) r)))
  unfolding connect
  before_connect (b, raise x) h = h
  before_connect (b, ok _) h = connected b _ refl h

  unfoldable prepared : Effect Boot Unit
  prepared =
      attempt site.validated
      >> (λ _. warn site)
      >> (λ _. on_worker site (load_skills site.valid site.dir_exists site.files))
      >> (λ _. make_session site)

  warn-tasks : Same (λ b. b.tasks) (warn site)
  unfolding warn give
  warn-tasks b = refl

  prepared-tasks : (b : Boot) → (prepared b).0.tasks ≡ b.tasks
  unfolding prepared
  prepared-tasks =
      let tasks_of : Boot → List Background = λ b. b.tasks in
      let load = on_worker site (load_skills site.valid site.dir_exists site.files) in
      then-Same tasks_of _ (λ _. make_session site)
        (then-Same tasks_of _ (λ _. load)
          (then-Same tasks_of _ (λ _. warn site) (attempt-Same tasks_of _) (λ _. warn-tasks))
          (λ _.
            on_worker-Same site tasks_of (λ b v. refl) (λ b v. refl) (λ b w. refl) (λ b cs. refl)
              _))
        (λ _.
          make_session-Same site tasks_of (λ b v. refl) (λ b v. refl) (λ b w. refl) (λ b cs. refl))

  -- However main ends, from a state without background tasks: where it raises before its cleanup,
  -- none was made; where it comes to its cleanup, every client was connected, and, the other calls
  -- of the cleanup being taken not to raise, a CancelledError cuts it exactly if the queue's
  -- worker has a result in hand when it is cancelled. Where it is not cut, its steps stop every
  -- background task that was made, close the clients, and close the HTTP session if it is the
  -- worker's own. Where it is cut, they stop the polling and the queue's worker, and neither the
  -- communication task nor the token rotation, and close neither the clients nor the session.
  pub main-IsSettled : (b : Boot) → b.tasks ≡ [] → IsSettled (main site b)
  unfolding main ◌>>◌ prepared
  main-IsSettled b h = before_connect (prepared b) (prepared-tasks b ∙ h)

  -- The steps after the warnings leave them.
  main-warned :
      (b : Boot)
      → (main site b).0.warned ≡ ((attempt site.validated >> (λ _. warn site)) b).0.warned
  unfolding main start_tasks clean_up give
  main-warned b =
      let g : Boot → List String = λ b. b.warned in
      let load = on_worker site (load_skills site.valid site.dir_exists site.files) in
      last-Same g _ (λ _. clean_up site) b (λ _ b. refl)
      ∙ last-Same g _ (λ _. start_tasks site) b (λ _ b. refl)
      ∙ last-Same g _ (λ _. connect site) b
          (λ _. connect-Same site g (λ b v. refl) (λ b v. refl) (λ b w. refl) (λ b cs. refl))
      ∙ last-Same g _ (λ _. make_session site) b
          (λ _. make_session-Same site g (λ b v. refl) (λ b v. refl) (λ b w. refl) (λ b cs. refl))
      ∙ last-Same g _ (λ _. load) b
          (λ _. on_worker-Same site g (λ b v. refl) (λ b v. refl) (λ b w. refl) (λ b cs. refl) _)

  warned_first :
      (b : Boot)
      → site.validated ≡ ok tt
      → ((attempt site.validated >> (λ _. warn site)) b).0.warned ≡ validate_skill_types b.worker
  unfolding ◌>>◌ attempt warn give
  warned_first b h = rw (h) refl

  -- Where the configuration is valid and the worker has no skills before the folder is loaded,
  -- main warns of every skill type with a limit, whichever types the files of the folder register.
  pub main_warns_of_all :
      (b : Boot)
      → site.validated ≡ ok tt
      → b.worker.skill_handlers ≡ []
      → (main site b).0.warned ≡ Dict.keys b.worker.skill_type_limits
  unfolding validate_skill_types
  main_warns_of_all b h none = main-warned b ∙ warned_first b h ∙ rw (none) (filter_all _)
