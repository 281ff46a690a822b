-- ===== src/Registration/Catalog.antt =====
-- What a registration does to the heartbeats that follow it.
use avtomatika_worker.Base.{
  ℕ, String, ◌≡◌, refl, sym, ap, ◌∙◌, subst, Bool, true, false, Option, none, some, List, string_eq,
  if◌then◌else◌, arith,
}
use avtomatika_worker.Worker.{Worker, SkillInfo, get_current_state}
use avtomatika_worker.Telemetry.{Floats, ResourcesUsage}
use avtomatika_worker.Heartbeat.{Beats, Settings, create_heartbeat_payload}
use avtomatika_worker.Task.Call.{Try, ok, raise, ◌>>=◌}
use avtomatika_worker.Offload.Leads.{Holds}
use avtomatika_worker.Base.{not, ◌&&◌, ◌==◌}
use avtomatika_worker.Base.Dict.{Dict}
use avtomatika_worker.Json.{Json}
use avtomatika_worker.Registration.{
  Profile, WorkerRegistration, create_registration_payload, unsigned_registration,
  signed_registration, remember_hash, hardware, each, only,
}

either : {A : Type 0} (P : A → Type 0) (c : Bool) (x y : A) → P x → P y → P (if c then x else y)
either P true x y h k = h
either P false x y h k = k

module _ (fl : Floats) (st : Settings fl) (p : Profile) where
  abbrev catalog_of : Worker → List SkillInfo
  catalog_of w = (get_current_state w).supported_skills

  -- The registration lists all skills under the hash of the contract.
  pub record Lists (b : Beats fl) (r : WorkerRegistration) : Type 0 where
    pub all_skills : r.supported_skills ≡ catalog_of b.worker
    pub contract : r.skills_hash ≡ st.contract_hash (catalog_of b.worker)

  signed-Lists :
      (b : Beats fl) (r : WorkerRegistration) → Lists b r → Lists b (signed_registration p r)
  unfolding signed_registration
  signed-Lists b r h =
      either (Lists b)
        (not (p.worker_token == "") && not (p.worker_token == "your-secret-worker-token")) _ r
        (record { all_skills = h.all_skills; contract = h.contract }) h

  -- A payload lists the skills, and leaves their hash as the one that is synced.
  abbrev Registers : Beats fl → WorkerRegistration → Beats fl → Type 0
  Registers b r b' =
      Lists b r × (b'.last_synced_skills_hash ≡ some (st.contract_hash (catalog_of b.worker)))

  with_artifacts :
      (now : ℕ) (devices : Option (List (Dict String Json)))
      (artifacts : Try (List (Dict String Json))) (b : Beats fl)
      → Holds (Registers b) (
        remember_hash fl st p b,
        artifacts
            >>= (λ a. ok (signed_registration p (unsigned_registration fl st p now devices a b))),
      )
  unfolding remember_hash unsigned_registration
  with_artifacts now devices (raise x) b = tt
  with_artifacts now devices (ok a) b = (
    signed-Lists b (unsigned_registration fl st p now devices a b)
        (record { all_skills = refl; contract = refl }),
    refl,
  )

  with_devices :
      (now : ℕ) (devices : Try (Option (List (Dict String Json))))
      (artifacts : Try (List (Dict String Json))) (b : Beats fl)
      → Holds (Registers b) (elim devices [
        | raise x ↦ (b, raise x)
        | ok d ↦ (
          remember_hash fl st p b,
          artifacts >>= (λ a. ok (signed_registration p (unsigned_registration fl st p now d a b))),
        )
      ])
  with_devices now (raise x) artifacts b = tt
  with_devices now (ok d) artifacts b = with_artifacts now d artifacts b

  registers :
      (now : ℕ) (b : Beats fl) → Holds (Registers b) (create_registration_payload fl st p now b)
  unfolding create_registration_payload
  registers now b =
      with_devices now (hardware p p.resources.devices)
        (each (λ d. p.artifact_of (only p.artifact_fields d)) p.installed_artifacts) b

  no_catalog :
      (now : ℕ) (usage : ResourcesUsage fl) (b : Beats fl)
      → b.last_synced_skills_hash ≡ some (st.contract_hash (catalog_of b.worker))
      → (create_heartbeat_payload fl st now usage b).0.supported_skills ≡ none
  unfolding create_heartbeat_payload
  no_catalog now usage b h = ground (arith, h)

  -- A registration lists all skills under the hash of the contract, and with the skills and the
  -- synced hash unchanged since its payload was built the next heartbeat carries no catalog.
  pub registered_then_heartbeat :
      (at_registration now : ℕ) (usage : ResourcesUsage fl) (b b' later : Beats fl)
      (r : WorkerRegistration)
      → create_registration_payload fl st p at_registration b ≡ (b', ok r)
      → catalog_of later.worker ≡ catalog_of b.worker
      → later.last_synced_skills_hash ≡ b'.last_synced_skills_hash
      → Lists b r × ((create_heartbeat_payload fl st now usage later).0.supported_skills ≡ none)
  registered_then_heartbeat at_registration now usage b b' later r e same_skills same_hash =
      let (lists, synced) = subst (Holds (Registers b)) e (registers at_registration b) in
      (
        lists,
        no_catalog now usage later
            (same_hash ∙ synced ∙ ap (λ c. some (st.contract_hash c)) (sym same_skills)),
      )
