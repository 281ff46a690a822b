-- ===== src/Telemetry/Usage.antt =====
-- worker.py: `_get_resources_usage`, what a heartbeat says of the machine.
use avtomatika_worker.Base.{◌≡◌, refl, ap, Option, none, some, List, [], ◌∷◌, ◌++◌, map}
use avtomatika_worker.Task.Call.{Try, ok, raise}
use avtomatika_worker.Telemetry.{Floats, DeviceUsage, ResourcesUsage}

module _ (fl : Floats) where
  open fl use {F}

  -- psutil and GPUtil, each if it is imported. A reading may raise; `gib` divides by 1024 ** 3, and a
  -- GPU's reading is the DeviceUsage that is made of it.
  pub record Psutil : Type 0 where
    pub cpu_percent : Try F
    pub memory_used : Try F
    pub gib : F → F

  pub record Sensors : Type 0 where
    pub psutil : Option Psutil
    pub gputil : Option (Try (List (Try (DeviceUsage fl))))

  -- What the assignments leave where the block is left by an exception.
  abbrev pub ram_of : Psutil → F
  ram_of p = elim p.memory_used [ ok x ↦ p.gib x | raise e ↦ fl.zero ]

  unfoldable pub cpu_and_ram : Option Psutil → F × F
  cpu_and_ram none = (fl.zero, fl.zero)
  cpu_and_ram (some p) = elim p.cpu_percent [ ok x ↦ (x, ram_of p) | raise e ↦ (fl.zero, fl.zero) ]

  -- The loop over the GPUs, up to the first one that cannot be read.
  unfoldable pub readings : List (Try (DeviceUsage fl)) → List (DeviceUsage fl)
  readings [] = []
  readings (ok d ∷ gs) = d ∷ readings gs
  readings (raise e ∷ gs) = []

  abbrev pub gpu_readings : Option (Try (List (Try (DeviceUsage fl)))) → List (DeviceUsage fl)
  gpu_readings none = []
  gpu_readings (some (raise e)) = []
  gpu_readings (some (ok gs)) = readings gs

  -- `devices_usage if devices_usage else None`
  abbrev pub devices_or_none : List (DeviceUsage fl) → Option (List (DeviceUsage fl))
  devices_or_none [] = none
  devices_or_none (d ∷ ds) = some (d ∷ ds)

  -- `_get_resources_usage`, over what the user's checker gives if there is one.
  unfoldable pub get_resources_usage :
      Option (Try (Option (ResourcesUsage fl))) → Sensors → Try (Option (ResourcesUsage fl))
  get_resources_usage (some checked) s = checked
  get_resources_usage none s =
      let (cpu, ram) = cpu_and_ram s.psutil in
      ok (
        some (record {
          cpu_load_percent = cpu;
          ram_used_gb = ram;
          devices_usage = devices_or_none (gpu_readings s.gputil);
        }))

  -- What stops the loop: the end, or a GPU that cannot be read.
  abbrev pub Stops : List (Try (DeviceUsage fl)) → Type 0
  Stops [] = Unit
  Stops (ok d ∷ gs) = ⊥
  Stops (raise e ∷ gs) = Unit

  -- The devices are the longest part of the GPUs before one that cannot be read.
  pub readings-Stops :
      (gs : List (Try (DeviceUsage fl)))
      → (rest : List (Try (DeviceUsage fl))) × (gs ≡ map (λ d. ok d) (readings gs) ++ rest)
        × Stops rest
  unfolding readings
  readings-Stops [] = ([], refl, tt)
  readings-Stops (ok d ∷ gs) =
      let (rest, same, stops) = readings-Stops gs in (rest, ap (λ hs. ok d ∷ hs) same, stops)
  readings-Stops (raise e ∷ gs) = (raise e ∷ gs, refl, tt)
