-- ===== src/Capacity/Health.antt =====
-- The capacity profile of src/shared/capacity-profile.ts: the profile and health files, and the gate
-- that lets the interactive profile take effect only after a sustained healthy time.
--
-- Both files are written by these operations only, so a stored time is an instant. The file lock is
-- left out.
use dex_reach.Common.{
  ℕ, ◌+◌, ◌-◌, Bool, true, false, ◌&&◌, Option, none, some, leb, eqb, if◌then◌else◌,
}
use dex_reach.Capacity.{
  MemoryPressure, CpuPressure, ThermalPressure, CapacityProfile, conservative, is_interactive,
}

abbrev pub sustained_health_ms : ℕ
sustained_health_ms = 60000

abbrev pub max_sample_gap_ms : ℕ
max_sample_gap_ms = 90000

pub record HealthRecord : Type 0 where
  pub healthy_since : Option ℕ
  pub last_observed_at : ℕ

-- The two files, absent at first.
pub record ProfileFiles : Type 0 where
  pub profile : Option CapacityProfile
  pub health : Option HealthRecord

pub record HealthSample : Type 0 where
  pub memory : MemoryPressure
  pub cpu : CpuPressure
  pub thermal : ThermalPressure
  pub observed_uncoordinated_heavy : ℕ

pub record CapacityHealth : Type 0 where
  pub profile : CapacityProfile
  pub interactive_ready : Bool
  pub healthy_for_ms : ℕ

unfoldable pub load_capacity_profile : ProfileFiles → CapacityProfile
load_capacity_profile f = elim f.profile [ none ↦ conservative | some p ↦ p ]

unfoldable pub set_capacity_profile : ℕ → CapacityProfile → ProfileFiles → ProfileFiles
set_capacity_profile now p f = record {
  profile = some p;
  health = some (record { healthy_since = none; last_observed_at = now });
}

memory_is_healthy : MemoryPressure → Bool
memory_is_healthy MemoryPressure.healthy = true
memory_is_healthy _ = false

cpu_is_healthy : CpuPressure → Bool
cpu_is_healthy CpuPressure.healthy = true
cpu_is_healthy _ = false

thermal_is_limited : ThermalPressure → Bool
thermal_is_limited ThermalPressure.limited = true
thermal_is_limited _ = false

unfoldable pub is_healthy : HealthSample → Bool
unfolding memory_is_healthy cpu_is_healthy thermal_is_limited
is_healthy s =
    memory_is_healthy s.memory
    && (cpu_is_healthy s.cpu
        && ((if thermal_is_limited s.thermal then false else true)
            && eqb s.observed_uncoordinated_heavy 0))

unfoldable pub previous_health : ProfileFiles → HealthRecord
previous_health f = elim f.health [
  | some h ↦ h
  | none ↦ record { healthy_since = none; last_observed_at = 0 }
]

-- The start of the healthy time after a healthy sample: kept while the samples are close enough.
unfoldable pub since_after : ℕ → HealthRecord → ℕ
since_after now h = elim h.healthy_since [
  | some s ↦ if leb now (h.last_observed_at + max_sample_gap_ms) then s else now
  | none ↦ now
]

unfoldable pub next_health : ℕ → HealthSample → HealthRecord → HealthRecord
next_health now s h = record {
  healthy_since = if is_healthy s then some (since_after now h) else none;
  last_observed_at = now;
}

unfoldable pub healthy_for : ℕ → HealthRecord → ℕ
healthy_for now h = elim h.healthy_since [ some s ↦ now - s | none ↦ 0 ]

-- `recordCapacityHealth`
unfoldable pub record_capacity_health :
    ℕ → HealthSample → ProfileFiles → CapacityHealth × ProfileFiles
record_capacity_health now s f =
    let profile = load_capacity_profile f in
    let next = next_health now s (previous_health f) in
    let ms = healthy_for now next in
    (
      record {
        profile = profile;
        interactive_ready = is_interactive profile && leb sustained_health_ms ms;
        healthy_for_ms = ms;
      },
      record f { health = some next },
    )
