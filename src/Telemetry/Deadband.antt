-- ===== src/Telemetry/Deadband.antt =====
-- What the deadband holds back and what it lets through.
use avtomatika_worker.Base.{
  String, ◌≡◌, ◌≢◌, refl, true, false, none, some, List, [], ◌∷◌, arith, string_eq, nat_eq,
}
use avtomatika_worker.Telemetry.{
  Floats, DeviceUsage, ResourcesUsage, devices, vram, find_device, memory_changed, device_changed,
  any_device_changed, is_telemetry_changed_significantly,
}

-- What IEEE floats do for finite values and a deadband that is not negative: no distance from a
-- value to itself exceeds the deadband, also when it is taken relative to the value.
pub record IsFinite (fl : Floats) (deadband : fl.F) : Type 0 where
  pub no_distance : (x : fl.F) → fl.lt deadband (fl.distance x x) ≡ false
  pub no_relative :
      (x : fl.F)
      → fl.lt fl.zero x ≡ true
      → fl.lt (fl.div deadband fl.hundred) (fl.div (fl.distance x x) x) ≡ false
  pub zero_not_positive : (x : fl.F) → fl.equal x fl.zero ≡ true → fl.lt fl.zero x ≡ false

module _ (fl : Floats) (deadband : fl.F) (ok : IsFinite fl deadband) where
  memory_unchanged : (x : fl.F) → memory_changed fl deadband x x ≡ false
  unfolding memory_changed
  memory_unchanged x = ground (arith, ok.no_relative x, ok.zero_not_positive x)

module _ (fl : Floats) where
  -- Each device stands once.
  abbrev pub NodupDevices : List (DeviceUsage fl) → Type 0
  NodupDevices [] = Unit
  NodupDevices (d ∷ ds) = (find_device fl d.unit_id ds ≡ none) × NodupDevices ds

  -- Every device of a list finds itself in another one.
  abbrev FindsAll : List (DeviceUsage fl) → List (DeviceUsage fl) → Type 0
  FindsAll last [] = Unit
  FindsAll last (d ∷ ds) = (find_device fl d.unit_id last ≡ some d) × FindsAll last ds

  find_device-ne :
      (d : DeviceUsage fl) (id : String) (ds : List (DeviceUsage fl))
      → find_device fl d.unit_id ds ≡ none
      → find_device fl id ds ≢ none
      → d.unit_id ≢ id
  find_device-ne d id ds fresh found e = found (rw (← e) fresh)

  FindsAll-cons :
      (d : DeviceUsage fl) (last ds : List (DeviceUsage fl))
      → find_device fl d.unit_id last ≡ none
      → FindsAll last ds
      → FindsAll (d ∷ last) ds
  unfolding find_device
  FindsAll-cons d last [] fresh f = tt
  FindsAll-cons d last (e ∷ ds) fresh f = (
    ground (arith, fresh, f.0, find_device-ne d e.unit_id last fresh),
    FindsAll-cons d last ds fresh f.1,
  )

  FindsAll-self : (ds : List (DeviceUsage fl)) → NodupDevices ds → FindsAll ds ds
  unfolding find_device
  FindsAll-self [] n = tt
  FindsAll-self (d ∷ ds) n = (ground arith, FindsAll-cons d ds ds n.0 (FindsAll-self ds n.1))

module _ (fl : Floats) (deadband : fl.F) (ok : IsFinite fl deadband) where
  any_device_unchanged :
      (last ds : List (DeviceUsage fl))
      → FindsAll fl last ds
      → any_device_changed fl deadband last ds ≡ false
  unfolding any_device_changed device_changed
  any_device_unchanged last [] f = refl
  any_device_unchanged last (d ∷ ds) f = ground (
    arith,
    f.0,
    ok.no_distance d.load_percent,
    memory_unchanged fl deadband ok (vram fl d),
    any_device_unchanged last ds f.1,
  )

  -- With a deadband that is no less than no change, a usage whose devices have distinct ids is no
  -- significant change against itself.
  pub unchanged_is_held_back :
      (u : ResourcesUsage fl)
      → NodupDevices fl (devices fl u)
      → is_telemetry_changed_significantly fl deadband (some u) u ≡ false
  unfolding is_telemetry_changed_significantly
  unchanged_is_held_back u n = ground (
    arith,
    ok.no_distance u.cpu_load_percent,
    memory_unchanged fl deadband ok u.ram_used_gb,
    any_device_unchanged (devices fl u) (devices fl u) (FindsAll-self fl (devices fl u) n),
  )

module _ (fl : Floats) (deadband : fl.F) (last current : ResourcesUsage fl) where
  -- A processor load that moved by more than the deadband is sent.
  pub cpu_change_is_sent :
      fl.lt deadband (fl.distance current.cpu_load_percent last.cpu_load_percent) ≡ true
      → is_telemetry_changed_significantly fl deadband (some last) current ≡ true
  unfolding is_telemetry_changed_significantly
  cpu_change_is_sent h = ground (arith, h)

new_device_changes :
    (fl : Floats) (deadband : fl.F) (last ds : List (DeviceUsage fl)) (id : String)
    → find_device fl id last ≡ none
    → find_device fl id ds ≢ none
    → any_device_changed fl deadband last ds ≡ true
unfolding any_device_changed device_changed find_device
new_device_changes fl deadband last [] id gone there = absurd (there refl)
new_device_changes fl deadband last (d ∷ ds) id gone there =
    ground (arith, gone, new_device_changes fl deadband last ds id gone)

-- A device that was not reported last time is sent, whatever the other metrics are.
pub new_device_is_sent :
    (fl : Floats) (deadband : fl.F) (last current : ResourcesUsage fl) (id : String)
    → find_device fl id (devices fl last) ≡ none
    → find_device fl id (devices fl current) ≢ none
    → is_telemetry_changed_significantly fl deadband (some last) current ≡ true
unfolding is_telemetry_changed_significantly
new_device_is_sent fl deadband last current id gone there =
    ground
      (arith, new_device_changes fl deadband (devices fl last) (devices fl current) id gone there)
