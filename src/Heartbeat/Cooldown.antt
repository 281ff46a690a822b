-- ===== src/Heartbeat/Cooldown.antt =====
-- The cooldown of an orchestrator's heartbeats, and where it lets more or fewer through.
use avtomatika_worker.Base.{
  ℕ, ◌+◌, ◌-◌, ◌≤◌, ◌<◌, ◌≡◌, ◌≢◌, Bool, true, false, arith, if◌then◌else◌, nat_eq,
}
use avtomatika_worker.Base.Dict
use avtomatika_worker.Telemetry.{Floats, ResourcesUsage}
use avtomatika_worker.Heartbeat.{
  Answer, raised, Heartbeat, Beats, Settings, Beat, sent, lost, put_off, dropped, remember_usage,
  create_heartbeat_payload, on_answer, last_time, is_debouncing, debounce, send_single_heartbeat,
  delayed_heartbeat,
}
use avtomatika_worker.Heartbeat.Catalog.{remember_usage-same, send_past_cooldown}

module _ (fl : Floats) (st : Settings fl) where
  -- A call that reaches the orchestrator.
  abbrev pub is_sent : Beat fl st → Bool
  is_sent (sent h j cs) = true
  is_sent (lost h) = true
  is_sent (put_off d) = false
  is_sent dropped = false

  -- Within the cooldown a call sends nothing; it puts a heartbeat off to the end of the cooldown
  -- unless one already waits, and one waits afterwards.
  pub within_cooldown :
      (client now later : ℕ) (usage : ResourcesUsage fl) (reply : Answer) (b : Beats fl)
      → now - last_time fl st client b < st.heartbeat_cooldown
      → let (b', beat) = send_single_heartbeat fl st client now later usage reply b in
        (beat ≡ (
          if is_debouncing fl st client b
          then dropped
          else put_off (st.heartbeat_cooldown - (now - last_time fl st client b))))
        × (is_debouncing fl st client b' ≡ true)
        × (b'.last_heartbeat_times ≡ b.last_heartbeat_times)
  unfolding send_single_heartbeat debounce
  within_cooldown client now later usage reply b h =
      ground (arith, Dict.lookup-insert client client true b.debouncing_flags)

  on_answer-time :
      (client later : ℕ) (h : Heartbeat fl) (reply : Answer) (b : Beats fl)
      → reply ≢ raised
      → last_time fl st client (on_answer fl st client later h reply b).0 ≡ later
  unfolding on_answer
  on_answer-time client later h reply b ok =
      ground (arith, ok, Dict.lookup-insert client client later b.last_heartbeat_times)

  -- After a heartbeat that was due and answered, no call sends one to the orchestrator before the
  -- cooldown has passed since the answer.
  pub cooldown_after_answer :
      (client now later next next_later : ℕ) (usage next_usage : ResourcesUsage fl)
      (reply next_reply : Answer) (b : Beats fl)
      → st.heartbeat_cooldown ≤ now - last_time fl st client b
      → reply ≢ raised
      → later ≤ next
      → next < later + st.heartbeat_cooldown
      → let b' = (send_single_heartbeat fl st client now later usage reply b).0 in
        is_sent (send_single_heartbeat fl st client next next_later next_usage next_reply b').1
        ≡ false
  cooldown_after_answer client now later next next_later usage next_usage reply next_reply b h ok le
        early =
      let (hb, b0) = create_heartbeat_payload fl st now usage b in
      let b' = (on_answer fl st client later hb reply b0).0 in
      let stamped = on_answer-time client later hb reply b0 ok in
      let (beat, waits, times) =
        within_cooldown client next next_later next_usage next_reply b'
          (rw stamped (omega arith)) in
      rw (send_past_cooldown fl st client now later usage reply b h) (ground (arith, beat))

  -- A call that is made while another one waits for its answer finds the cooldown over as the
  -- first call did, and sends a second heartbeat.
  pub overlapping_heartbeats :
      (client now next later : ℕ) (usage next_usage : ResourcesUsage fl) (reply : Answer)
      (b : Beats fl)
      → st.heartbeat_cooldown ≤ now - last_time fl st client b
      → now ≤ next
      → let waiting = (create_heartbeat_payload fl st now usage b).1 in
        is_sent (send_single_heartbeat fl st client next later next_usage reply waiting).1 ≡ true
  unfolding create_heartbeat_payload on_answer
  overlapping_heartbeats client now next later usage next_usage reply b h le =
      let waiting = remember_usage fl st now usage b in
      let same = (remember_usage-same fl st now usage b).2 in
      let past : st.heartbeat_cooldown ≤ next - last_time fl st client waiting =
        rw same (omega arith) in
      rw (send_past_cooldown fl st client next later next_usage reply waiting past) (ground arith)

  -- A heartbeat that was put off and wakes within a cooldown is not sent, and none is put off in
  -- its place.
  pub late_heartbeat_is_dropped :
      (client now later : ℕ) (usage : ResourcesUsage fl) (reply : Answer) (b : Beats fl)
      → is_debouncing fl st client b ≡ true
      → now - last_time fl st client b < st.heartbeat_cooldown
      → let (b', beat) = delayed_heartbeat fl st client now later usage reply b in
        (beat ≡ dropped) × (is_debouncing fl st client b' ≡ false)
  unfolding delayed_heartbeat
  late_heartbeat_is_dropped client now later usage reply b waits h =
      let (beat, flag, times) = within_cooldown client now later usage reply b h in
      let b' = (send_single_heartbeat fl st client now later usage reply b).0 in
      ground (arith, beat, Dict.lookup-insert client client false b'.debouncing_flags)
