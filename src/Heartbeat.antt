-- ===== src/Heartbeat.antt =====
-- worker.py: `_create_heartbeat_payload` and `_send_single_heartbeat` with its cooldown. Times are
-- milliseconds.
pub mod Catalog
pub mod Cooldown
use avtomatika_worker.Base.{
  ℕ, ◌+◌, ◌-◌, String, Bool, true, false, not, ◌&&◌, ◌||◌, Option, none, some, List, [], ◌∷◌, map,
  ltb, leb, ◌==◌, string_eq, nat_eq, option_eq, if◌then◌else◌,
}
use avtomatika_worker.Base.Dict
use avtomatika_worker.Base.Dict.{Dict}
use avtomatika_worker.Base.Int.{ℤ, pos}
use avtomatika_worker.Worker.{Worker, SkillInfo, State, Status, get_current_state}
use avtomatika_worker.Telemetry.{Floats, ResourcesUsage, is_telemetry_changed_significantly}

-- `names or None`
abbrev pub names_or_none : List SkillInfo → Option (List String)
names_or_none [] = none
names_or_none (s ∷ ss) = some (map (λ (i : SkillInfo). i.name) (s ∷ ss))

-- What the answer holds under `next_heartbeat_jitter_ms`: nothing, None, or a value, with what
-- `int(float(value))` gives, which is nothing if it raises.
pub data Jitter : Type 0 where
  missing : Jitter
  null : Jitter
  value : Option ℤ → Jitter

pub record Response : Type 0 where
  pub require_full_sync : Bool
  pub cancel_tasks : List String
  pub jitter : Jitter

-- What `client.send_heartbeat` does: it gives None, something else that is no dict, or a dict, or it
-- raises an RxonError.
pub data Answer : Type 0 where
  no_answer : Answer
  not_a_dict : Answer
  dict : Response → Answer
  raised : Answer

abbrev pub jitter_ms : Jitter → ℤ
jitter_ms missing = pos 0
jitter_ms null = pos 0
jitter_ms (value none) = pos 0
jitter_ms (value (some n)) = n

module _ (fl : Floats) where
  pub record Heartbeat : Type 0 where
    pub status : Status
    pub usage : Option (ResourcesUsage fl)
    pub current_tasks : List String
    pub supported_skills : Option (List SkillInfo)
    pub available_skills : Option (List String)
    pub hot_skills : Option (List String)
    pub skills_hash : String

  -- The fields of `Worker` that the heartbeats use.
  pub record Beats : Type 0 where
    pub worker : Worker
    pub last_synced_skills_hash : Option String
    pub last_sent_usage : Option (ResourcesUsage fl)
    pub last_sent_usage_time : ℕ
    pub last_heartbeat_times : Dict ℕ ℕ
    pub debouncing_flags : Dict ℕ Bool

-- The configuration, and the hash of the contract, which rxon computes.
pub record Settings (fl : Floats) : Type 0 where
  pub heartbeat_cooldown : ℕ
  pub telemetry_deadband : fl.F
  pub telemetry_force_interval : ℕ
  pub contract_hash : List SkillInfo → String

module _ (fl : Floats) (st : Settings fl) where
  -- `usage` is sent if none was, if the last one is old, or if it changed.
  unfoldable pub is_usage_due : ℕ → ResourcesUsage fl → Beats fl → Bool
  is_usage_due now current b =
      elim b.last_sent_usage [ none ↦ true | some u ↦ false ]
      || leb st.telemetry_force_interval (now - b.last_sent_usage_time)
      || is_telemetry_changed_significantly fl st.telemetry_deadband b.last_sent_usage current

  -- `current_hash != self._last_synced_skills_hash`
  abbrev pub is_new_hash : String → Option String → Bool
  is_new_hash h none = true
  is_new_hash h (some last) = not (h == last)

  -- The state after `_create_heartbeat_payload`: the usage that is sent is remembered at once.
  unfoldable pub remember_usage : ℕ → ResourcesUsage fl → Beats fl → Beats fl
  remember_usage now current b =
      if is_usage_due now current b
      then record b { last_sent_usage = some current; last_sent_usage_time = now }
      else b

  unfoldable pub create_heartbeat_payload :
      ℕ → ResourcesUsage fl → Beats fl → Heartbeat fl × Beats fl
  create_heartbeat_payload now current b =
      let s = get_current_state b.worker in
      let current_hash = st.contract_hash s.supported_skills in
      (
        record {
          status = s.status;
          usage = if is_usage_due now current b then some current else none;
          current_tasks = Dict.keys b.worker.active_tasks;
          supported_skills =
              if is_new_hash current_hash b.last_synced_skills_hash
              then some s.supported_skills
              else none;
          available_skills = names_or_none s.available_skills;
          hot_skills = names_or_none s.hot_skills;
          skills_hash = current_hash;
        },
        remember_usage now current b,
      )

  -- What a call comes to: a heartbeat that was sent, with the jitter that is returned and the asyncio
  -- tasks that are cancelled, one that is put off by a delay, or nothing.
  pub data Beat : Type 0 where
    sent : Heartbeat fl → ℤ → List ℕ → Beat
    lost : Heartbeat fl → Beat
    put_off : ℕ → Beat
    dropped : Beat

  -- The handles of those tasks that are active.
  unfoldable pub cancelled_tasks : List String → Dict String ℕ → List ℕ
  cancelled_tasks [] active = []
  cancelled_tasks (t ∷ ts) active =
      let rest = cancelled_tasks ts active in
      elim (Dict.lookup t active) [ none ↦ rest | some handle ↦ handle ∷ rest ]

  -- What follows the answer, at the time `later`.
  unfoldable pub on_answer : ℕ → ℕ → Heartbeat fl → Answer → Beats fl → Beats fl × Beat
  on_answer client later h raised b = (b, lost h)
  on_answer client later h no_answer b = (
    record b { last_heartbeat_times = Dict.insert client later b.last_heartbeat_times },
    sent h (pos 0) [],
  )
  on_answer client later h not_a_dict b = (
    record b {
      last_heartbeat_times = Dict.insert client later b.last_heartbeat_times;
      last_synced_skills_hash = some h.skills_hash;
    },
    sent h (pos 0) [],
  )
  on_answer client later h (dict r) b = (
    record b {
      last_heartbeat_times = Dict.insert client later b.last_heartbeat_times;
      last_synced_skills_hash = if r.require_full_sync then none else some h.skills_hash;
    },
    sent h (jitter_ms r.jitter) (cancelled_tasks r.cancel_tasks b.worker.active_tasks),
  )

  -- `self._last_heartbeat_times.get(client, 0.0)` and `self._debouncing_flags.get(client, False)`
  abbrev pub last_time : ℕ → Beats fl → ℕ
  last_time client b = elim (Dict.lookup client b.last_heartbeat_times) [ none ↦ 0 | some t ↦ t ]

  abbrev pub is_debouncing : ℕ → Beats fl → Bool
  is_debouncing client b = elim (Dict.lookup client b.debouncing_flags) [
    | none ↦ false
    | some f ↦ f
  ]

  -- Within the cooldown: a heartbeat is put off, unless one is already.
  unfoldable pub debounce : ℕ → ℕ → Beats fl → Beats fl × Beat
  debounce client elapsed b = if is_debouncing client b then (b, dropped) else (
    record b { debouncing_flags = Dict.insert client true b.debouncing_flags },
    put_off (st.heartbeat_cooldown - elapsed),
  )

  -- `_send_single_heartbeat`, called at `now` and answered at `later`.
  unfoldable pub send_single_heartbeat :
      ℕ → ℕ → ℕ → ResourcesUsage fl → Answer → Beats fl → Beats fl × Beat
  send_single_heartbeat client now later usage answer b =
      let elapsed = now - last_time client b in
      let (h, b') = create_heartbeat_payload now usage b in
      if ltb elapsed st.heartbeat_cooldown
      then debounce client elapsed b
      else on_answer client later h answer b'

  -- The end of `_delayed_heartbeat`, which calls the above after its delay: the flag is reset.
  unfoldable pub delayed_heartbeat :
      ℕ → ℕ → ℕ → ResourcesUsage fl → Answer → Beats fl → Beats fl × Beat
  delayed_heartbeat client now later usage answer b =
      let (b', beat) = send_single_heartbeat client now later usage answer b in
      (record b' { debouncing_flags = Dict.insert client false b'.debouncing_flags }, beat)
