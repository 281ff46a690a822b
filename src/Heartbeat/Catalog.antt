-- ===== src/Heartbeat/Catalog.antt =====
-- What the next heartbeat carries, of the skills and of the usage, after one was sent.
use avtomatika_worker.Base.{
  ℕ, ◌-◌, ◌≤◌, ◌<◌, ◌≡◌, ◌∙◌, Bool, true, false, none, some, List, arith, if◌then◌else◌, string_eq,
}
use avtomatika_worker.Worker.{Worker, SkillInfo, get_current_state}
use avtomatika_worker.Telemetry.{Floats, ResourcesUsage, devices}
use avtomatika_worker.Telemetry.Deadband.{IsFinite, NodupDevices, unchanged_is_held_back}
use avtomatika_worker.Heartbeat.{
  Answer, no_answer, not_a_dict, dict, raised, Heartbeat, Beats, Settings, is_usage_due,
  is_new_hash, remember_usage, create_heartbeat_payload, on_answer, last_time,
  send_single_heartbeat,
}

module _ (fl : Floats) (st : Settings fl) where
  abbrev catalog_of : Worker → List SkillInfo
  catalog_of w = (get_current_state w).supported_skills

  -- Whether the catalog is due again after an answer, from whether it was due before.
  abbrev pub due_after : Answer → Bool → Bool
  due_after raised due = due
  due_after no_answer due = due
  due_after not_a_dict due = false
  due_after (dict r) due = r.require_full_sync

  -- Past the cooldown the reply decides.
  pub send_past_cooldown :
      (client now later : ℕ) (usage : ResourcesUsage fl) (reply : Answer) (b : Beats fl)
      → st.heartbeat_cooldown ≤ now - last_time fl st client b
      → let (h, b') = create_heartbeat_payload fl st now usage b in
        send_single_heartbeat fl st client now later usage reply b
        ≡ on_answer fl st client later h reply b'
  unfolding send_single_heartbeat
  send_past_cooldown client now later usage reply b h = ground arith

  pub remember_usage-same :
      (now : ℕ) (usage : ResourcesUsage fl) (b : Beats fl)
      → let b' = remember_usage fl st now usage b in
        (b'.worker ≡ b.worker)
        × (b'.last_synced_skills_hash ≡ b.last_synced_skills_hash)
        × (b'.last_heartbeat_times ≡ b.last_heartbeat_times)
        × (b'.debouncing_flags ≡ b.debouncing_flags)
  unfolding remember_usage
  remember_usage-same now usage b = ground arith

  -- The hash of the catalog after a heartbeat with a hash `h` was answered.
  on_answer-hash :
      (client later : ℕ) (h : Heartbeat fl) (reply : Answer) (b : Beats fl)
      → (is_new_hash fl st h.skills_hash
            (on_answer fl st client later h reply b).0.last_synced_skills_hash
          ≡ due_after reply (is_new_hash fl st h.skills_hash b.last_synced_skills_hash))
        × ((on_answer fl st client later h reply b).0.worker ≡ b.worker)
  unfolding on_answer
  on_answer-hash client later h reply b = ground arith

  -- With the skills unchanged, the heartbeat after one that was due and sent, to whichever
  -- orchestrator, carries the catalog exactly if the last reply asked for a full sync, or, without
  -- an answer, if the last one carried it.
  pub catalog_after_answer :
      (client now later next : ℕ) (usage next_usage : ResourcesUsage fl) (reply : Answer)
      (b : Beats fl)
      → st.heartbeat_cooldown ≤ now - last_time fl st client b
      → let b' = (send_single_heartbeat fl st client now later usage reply b).0 in
        let skills = catalog_of b.worker in
        (create_heartbeat_payload fl st next next_usage b').0.supported_skills ≡ (
          if due_after reply (is_new_hash fl st (st.contract_hash skills) b.last_synced_skills_hash)
          then some skills
          else none)
  unfolding create_heartbeat_payload
  catalog_after_answer client now later next usage next_usage reply b h =
      let (hb, b') = create_heartbeat_payload fl st now usage b in
      let (hash, worker) = on_answer-hash client later hb reply b' in
      let same = remember_usage-same now usage b in
      rw (send_past_cooldown client now later usage reply b h) (ground (arith, hash, worker, same))

  on_answer-usage :
      (client later : ℕ) (h : Heartbeat fl) (reply : Answer) (b : Beats fl)
      → let b' = (on_answer fl st client later h reply b).0 in
        (b'.last_sent_usage ≡ b.last_sent_usage)
        × (b'.last_sent_usage_time ≡ b.last_sent_usage_time)
  unfolding on_answer
  on_answer-usage client later h reply b = ground arith

  remember_usage-due :
      (now : ℕ) (usage : ResourcesUsage fl) (b : Beats fl)
      → is_usage_due fl st now usage b ≡ true
      → let b' = remember_usage fl st now usage b in
        (b'.last_sent_usage ≡ some usage) × (b'.last_sent_usage_time ≡ now)
  unfolding remember_usage
  remember_usage-due now usage b due = ground (arith, due)

  is_usage_due-again :
      (next : ℕ) (usage : ResourcesUsage fl) (b : Beats fl)
      → IsFinite fl st.telemetry_deadband
      → NodupDevices fl (devices fl usage)
      → b.last_sent_usage ≡ some usage
      → next - b.last_sent_usage_time < st.telemetry_force_interval
      → is_usage_due fl st next usage b ≡ false
  unfolding is_usage_due
  is_usage_due-again next usage b ok distinct same recent =
      rw same (ground (arith, unchanged_is_held_back fl st.telemetry_deadband ok usage distinct))

  -- A usage with distinct device ids that was due in a heartbeat that was due, with a deadband
  -- that is no less than no change, is remembered as sent whatever comes back, also an exception:
  -- unchanged and within the interval it is in no later heartbeat, to the same orchestrator or
  -- another.
  pub usage_sent_once :
      (client now later next : ℕ) (usage : ResourcesUsage fl) (reply : Answer) (b : Beats fl)
      → IsFinite fl st.telemetry_deadband
      → NodupDevices fl (devices fl usage)
      → st.heartbeat_cooldown ≤ now - last_time fl st client b
      → is_usage_due fl st now usage b ≡ true
      → next - now < st.telemetry_force_interval
      → let b' = (send_single_heartbeat fl st client now later usage reply b).0 in
        (create_heartbeat_payload fl st next usage b').0.usage ≡ none
  unfolding create_heartbeat_payload
  usage_sent_once client now later next usage reply b ok distinct h due recent =
      let (hb, b') = create_heartbeat_payload fl st now usage b in
      let (kept, kept_time) = on_answer-usage client later hb reply b' in
      let (stored, stored_time) = remember_usage-due now usage b due in
      let again =
        is_usage_due-again next usage (on_answer fl st client later hb reply b').0 ok distinct
          (kept ∙ stored) (omega (arith, kept_time, stored_time)) in
      rw (send_past_cooldown client now later usage reply b h) (ground (arith, again))
