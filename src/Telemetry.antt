-- ===== src/Telemetry.antt =====
-- worker.py: `_is_telemetry_changed_significantly`, over the floats that it computes with.
pub mod Deadband
pub mod Usage
use avtomatika_worker.Base.{
  ℕ, String, Bool, true, false, Option, none, some, List, [], ◌∷◌, ◌==◌, string_eq, nat_eq, length,
  if◌then◌else◌, not, ◌&&◌, ◌||◌,
}
use avtomatika_worker.Base.Dict
use avtomatika_worker.Base.Dict.{Dict}

-- Python's floats, with the operations that the telemetry uses: `distance a b` is `abs(a - b)`.
pub record Floats : Type 1 where
  pub F : Type 0
  pub zero : F
  pub hundred : F
  pub distance : F → F → F
  pub div : F → F → F
  pub lt : F → F → Bool
  pub equal : F → F → Bool

module _ (fl : Floats) where
  open fl use {F}

  -- rxon's `DeviceUsage` and `ResourcesUsage`. The metrics may be missing, and so may the devices.
  pub record DeviceUsage : Type 0 where
    pub unit_id : String
    pub load_percent : F
    pub metrics : Option (Dict String F)

  pub record ResourcesUsage : Type 0 where
    pub cpu_load_percent : F
    pub ram_used_gb : F
    pub devices_usage : Option (List DeviceUsage)

  -- `x or []`
  abbrev pub devices : ResourcesUsage → List DeviceUsage
  devices u = elim u.devices_usage [ none ↦ [] | some ds ↦ ds ]

  -- `metrics.get("memory_used_gb", 0.0) if metrics else 0.0`
  pub vram : DeviceUsage → F
  vram d = elim d.metrics [
    | none ↦ fl.zero
    | some m ↦ elim (Dict.lookup "memory_used_gb" m) [ none ↦ fl.zero | some x ↦ x ]
  ]

  -- The next device of the id, if there is one.
  unfoldable pub find_device : String → List DeviceUsage → Option DeviceUsage
  find_device id [] = none
  find_device id (d ∷ ds) = if d.unit_id == id then some d else find_device id ds

  -- A change of an amount of memory: from nothing to something, or by more than the deadband,
  -- relative to the last amount.
  unfoldable pub memory_changed : F → F → F → Bool
  memory_changed deadband current last =
      if fl.equal last fl.zero && fl.lt fl.zero current
      then true
      else if fl.lt fl.zero last
      then fl.lt (fl.div deadband fl.hundred) (fl.div (fl.distance current last) last)
      else false

  -- One round of the loop over the current devices.
  unfoldable pub device_changed : F → List DeviceUsage → DeviceUsage → Bool
  unfolding vram
  device_changed deadband last_gpus c = elim (find_device c.unit_id last_gpus) [
    | none ↦ true
    | some l ↦
        fl.lt deadband (fl.distance c.load_percent l.load_percent)
        || memory_changed deadband (vram c) (vram l)
  ]

  unfoldable pub any_device_changed : F → List DeviceUsage → List DeviceUsage → Bool
  any_device_changed deadband last_gpus [] = false
  any_device_changed deadband last_gpus (c ∷ cs) =
      device_changed deadband last_gpus c || any_device_changed deadband last_gpus cs

  -- The whole test, against the usage that was last sent, if any was.
  unfoldable pub is_telemetry_changed_significantly :
      F → Option ResourcesUsage → ResourcesUsage → Bool
  is_telemetry_changed_significantly deadband none current = true
  is_telemetry_changed_significantly deadband (some last) current =
      if fl.lt deadband (fl.distance current.cpu_load_percent last.cpu_load_percent)
      then true
      else if memory_changed deadband current.ram_used_gb last.ram_used_gb
      then true
      else if not (length (devices current) == length (devices last))
      then true
      else any_device_changed deadband (devices last) (devices current)
