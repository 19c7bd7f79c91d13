-- ===== src/Capacity.antt =====
-- src/shared/machine-capacity.ts: workload and access classes, pressure readings, and the slot
-- ceilings derived from memory and CPU count.
--
-- Byte counts and CPU counts are natural numbers; a count that the source finds not finite or not
-- positive is 0. A ratio that the source computes by `/` and compares, or floors, is written over
-- whole numbers (GIB is a power of two, so the source's quotient is exact).
pub mod Slots
pub mod Health
pub mod Sustained
pub mod Evaluate
pub mod Admits
use dex_reach.Common.{
  ℕ, ◌*◌, ◌/◌, min, max, Bool, true, false, not, ◌&&◌, ◌||◌, Option, none, some, eqb, leb,
  if◌then◌else◌,
}

pub data MemoryPressure : Type 0 where
  healthy warning critical unknown : MemoryPressure

pub data CpuPressure : Type 0 where
  healthy busy saturated unknown : CpuPressure

pub data ThermalPressure : Type 0 where
  healthy limited unknown : ThermalPressure

pub data WorkloadClass : Type 0 where
  light medium heavy : WorkloadClass

pub data AccessClass : Type 0 where
  read mutate exclusive : AccessClass

pub data CapacityProfile : Type 0 where
  conservative interactive : CapacityProfile

pub data ProcessObservation : Type 0 where
  observed unknown : ProcessObservation

abbrev pub gib : ℕ
gib = 1073741824

-- One whole unit of a load average: the kernel reports loads as multiples of 1 / 65536.
abbrev pub load_unit : ℕ
load_unit = 65536

unfoldable pub memory_substantive_slots : ℕ → ℕ
memory_substantive_slots bytes =
    if eqb bytes 0
    then 1
    else if leb bytes (12 * gib)
    then 1
    else if leb bytes (24 * gib)
    then 2
    else if leb bytes (48 * gib)
    then 3
    else min 4 (bytes / (12 * gib))

unfoldable pub memory_heavy_slots : ℕ → ℕ
memory_heavy_slots bytes =
    if eqb bytes 0
    then 1
    else if leb bytes (24 * gib)
    then 1
    else if leb bytes (48 * gib)
    then 2
    else min 2 (bytes / (20 * gib))

unfoldable pub cpu_substantive_slots : ℕ → ℕ
cpu_substantive_slots cpus = if eqb cpus 0 then 1 else max 1 (cpus / 4)

unfoldable pub substantive_slots_for : ℕ → ℕ → ℕ
substantive_slots_for bytes cpus =
    max 1 (min (memory_substantive_slots bytes) (cpu_substantive_slots cpus))

abbrev pub is_interactive : CapacityProfile → Bool
is_interactive conservative = false
is_interactive interactive = true

unfoldable pub substantive_slots_for_profile : ℕ → ℕ → CapacityProfile → Bool → ℕ
substantive_slots_for_profile bytes cpus profile ready =
    let base = substantive_slots_for bytes cpus in
    if is_interactive profile && (ready && (eqb base 1 && (leb (8 * gib) bytes && leb 4 cpus)))
    then 2
    else base

unfoldable pub heavy_slots_for : ℕ → ℕ → ℕ
heavy_slots_for bytes cpus =
    max 1 (min (memory_heavy_slots bytes) (substantive_slots_for bytes cpus))

-- The load is in units of `load_unit`; `none` is a load that is null, not finite or negative.
unfoldable pub classify_cpu_pressure : Option ℕ → ℕ → CpuPressure
classify_cpu_pressure none cpus = unknown
classify_cpu_pressure (some load) cpus =
    if eqb cpus 0
    then unknown
    else if leb (cpus * load_unit) load
    then saturated
    else if leb (cpus * load_unit * 3) (load * 4)
    then busy
    else healthy

abbrev pub is_light : WorkloadClass → Bool
is_light light = true
is_light _ = false

abbrev pub is_heavy : WorkloadClass → Bool
is_heavy heavy = true
is_heavy _ = false

abbrev pub is_read : AccessClass → Bool
is_read read = true
is_read _ = false

abbrev pub is_exclusive : AccessClass → Bool
is_exclusive exclusive = true
is_exclusive _ = false

unfoldable pub is_substantive : WorkloadClass → AccessClass → Bool
is_substantive workload access = not (is_light workload) || not (is_read access)
