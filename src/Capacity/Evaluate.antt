-- ===== src/Capacity/Evaluate.antt =====
-- src/shared/machine-capacity.ts, `evaluateCapacity`: the decision that answers "can this run now?".
--
-- A reason is a constructor with the numbers that the source puts into the text.
use dex_reach.Common.{
  ℕ, ◌+◌, Bool, true, false, not, ◌&&◌, Option, none, some, List, [], ◌∷◌, ◌++◌, leb, if◌then◌else◌,
}
use dex_reach.Capacity.{
  MemoryPressure, CpuPressure, ThermalPressure, WorkloadClass, AccessClass, CapacityProfile,
  ProcessObservation, is_interactive, is_heavy, is_substantive, substantive_slots_for_profile,
  heavy_slots_for, classify_cpu_pressure,
}

-- The fields of `HostProbe` that the decision reads.
pub record Probe : Type 0 where
  pub physical_memory_bytes : ℕ
  pub logical_cpu_count : ℕ
  pub load_average : Option ℕ
  pub memory : MemoryPressure
  pub thermal : ThermalPressure

pub record Counts : Type 0 where
  pub active_substantive : ℕ
  pub active_heavy : ℕ
  pub observed_uncoordinated_heavy : ℕ
  pub process_observation : Option ProcessObservation

pub record CapacityRequest : Type 0 where
  pub workload : WorkloadClass
  pub access : AccessClass
  pub profile : Option CapacityProfile
  pub interactive_ready : Option Bool

pub data Reason : Type 0 where
  light_exempt : Reason
  process_unknown : Reason
  slots_exhausted : ℕ → ℕ → ℕ → Reason
  profile_warming : Reason
  heavy_exhausted : ℕ → ℕ → Reason
  memory_critical memory_warning memory_unknown : Reason
  thermal_limited : Reason
  cpu_saturated cpu_busy cpu_unknown : Reason
  capacity_available : Reason

pub record MachineCapacity : Type 0 where
  pub physical_memory_bytes : ℕ
  pub logical_cpu_count : ℕ
  pub substantive_slots : ℕ
  pub heavy_slots : ℕ
  pub profile : CapacityProfile
  pub interactive_ready : Bool
  pub memory : MemoryPressure
  pub cpu : CpuPressure
  pub thermal : ThermalPressure
  pub active_coordinated : ℕ
  pub active_heavy : ℕ
  pub observed_uncoordinated_heavy : ℕ
  pub can_admit : Bool
  pub reasons : List Reason

abbrev pub when {ℓ} : {A : Type ℓ} → Bool → List A → List A
when true xs = xs
when false xs = []

abbrev pub or_default {ℓ} : {A : Type ℓ} → A → Option A → A
or_default d none = d
or_default d (some a) = a

abbrev is_unobserved : Option ProcessObservation → Bool
is_unobserved (some ProcessObservation.unknown) = true
is_unobserved _ = false

memory_reasons : MemoryPressure → Bool → List Reason
memory_reasons MemoryPressure.critical heavy = memory_critical ∷ []
memory_reasons MemoryPressure.warning heavy = when heavy (memory_warning ∷ [])
memory_reasons MemoryPressure.unknown heavy = memory_unknown ∷ []
memory_reasons MemoryPressure.healthy heavy = []

thermal_reasons : ThermalPressure → List Reason
thermal_reasons ThermalPressure.limited = thermal_limited ∷ []
thermal_reasons _ = []

cpu_reasons : CpuPressure → Bool → List Reason
cpu_reasons CpuPressure.saturated heavy = cpu_saturated ∷ []
cpu_reasons CpuPressure.busy heavy = when heavy (cpu_busy ∷ [])
cpu_reasons CpuPressure.unknown heavy = cpu_unknown ∷ []
cpu_reasons CpuPressure.healthy heavy = []

-- What a substantive request is refused for, in the order in which the source pushes it.
refusals : Probe → Counts → CapacityProfile → Bool → Bool → List Reason
refusals probe counts profile ready heavy =
    let slots =
      substantive_slots_for_profile probe.physical_memory_bytes probe.logical_cpu_count profile
        ready in
    let heavy_slots = heavy_slots_for probe.physical_memory_bytes probe.logical_cpu_count in
    let cpu = classify_cpu_pressure probe.load_average probe.logical_cpu_count in
    let used = counts.active_substantive + counts.observed_uncoordinated_heavy in
    when (is_unobserved counts.process_observation) (process_unknown ∷ [])
    ++ (when (leb slots used) (
          slots_exhausted used slots counts.observed_uncoordinated_heavy
          ∷ when (is_interactive profile && not ready) (profile_warming ∷ []))
        ++ (when (heavy && leb heavy_slots counts.active_heavy)
              (heavy_exhausted counts.active_heavy heavy_slots ∷ [])
            ++ (memory_reasons probe.memory heavy
                ++ (thermal_reasons probe.thermal ++ cpu_reasons cpu heavy))))

or_available : List Reason → List Reason
or_available [] = capacity_available ∷ []
or_available (r ∷ rs) = r ∷ rs

-- `reasons.length === 1 && reasons[0] === 'capacity available'`
is_available : List Reason → Bool
is_available (capacity_available ∷ []) = true
is_available _ = false

-- The source's defaults for an absent request and its absent fields.
default_request : Option CapacityRequest → CapacityRequest
default_request none = record {
  workload = WorkloadClass.medium;
  access = AccessClass.read;
  profile = none;
  interactive_ready = none;
}
default_request (some r) = r

unfoldable pub evaluate_capacity : Probe → Counts → Option CapacityRequest → MachineCapacity
unfolding refusals or_available is_available default_request memory_reasons thermal_reasons
    cpu_reasons
evaluate_capacity probe counts request =
    let r = default_request request in
    let profile = or_default CapacityProfile.conservative r.profile in
    let ready = or_default false r.interactive_ready in
    let reasons =
      if is_substantive r.workload r.access
      then or_available (refusals probe counts profile ready (is_heavy r.workload))
      else light_exempt ∷ [] in
    record {
      physical_memory_bytes = probe.physical_memory_bytes;
      logical_cpu_count = probe.logical_cpu_count;
      substantive_slots =
          substantive_slots_for_profile probe.physical_memory_bytes probe.logical_cpu_count profile
            ready;
      heavy_slots = heavy_slots_for probe.physical_memory_bytes probe.logical_cpu_count;
      profile = profile;
      interactive_ready = ready;
      memory = probe.memory;
      cpu = classify_cpu_pressure probe.load_average probe.logical_cpu_count;
      thermal = probe.thermal;
      active_coordinated = counts.active_substantive;
      active_heavy = counts.active_heavy;
      observed_uncoordinated_heavy = counts.observed_uncoordinated_heavy;
      can_admit = if is_substantive r.workload r.access then is_available reasons else true;
      reasons = reasons;
    }
