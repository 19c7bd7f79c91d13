-- ===== src/Capacity/Slots.antt =====
-- Laws of the slot ceilings of src/shared/machine-capacity.ts.
use dex_reach.Common.{ℕ, ◌*◌, ◌≤◌, ◌≡◌, ◌⊎◌, ◌↔◌, Bool, true, arith}
use dex_reach.Capacity.{
  CapacityProfile, interactive, gib, memory_substantive_slots, memory_heavy_slots,
  cpu_substantive_slots, substantive_slots_for, substantive_slots_for_profile, heavy_slots_for,
}

-- A host of at most 12 GiB has one substantive slot by its memory and CPUs. Under a profile it has one or
-- two, and two exactly when the interactive profile is ready on a host of 8 GiB and four CPUs.
pub small_host_slots :
    (bytes cpus : ℕ) (profile : CapacityProfile) (ready : Bool)
    → bytes ≤ 12 * gib
    → (substantive_slots_for bytes cpus ≡ 1)
      × ((substantive_slots_for_profile bytes cpus profile ready ≡ 1)
          ⊎ (substantive_slots_for_profile bytes cpus profile ready ≡ 2))
      × ((substantive_slots_for_profile bytes cpus profile ready ≡ 2)
          ↔ (profile ≡ interactive) × (ready ≡ true) × (8 * gib ≤ bytes) × (4 ≤ cpus))
unfolding substantive_slots_for substantive_slots_for_profile memory_substantive_slots
    cpu_substantive_slots
small_host_slots bytes cpus profile ready h = (
  ground arith,
  ground arith,
  (λ e. (ground arith, ground arith, ground arith, ground arith), λ e. ground arith),
)

-- There are between one and four substantive slots and between one and two heavy slots, never more
-- heavy ones than substantive ones.
pub slots_bounds :
    (bytes cpus : ℕ)
    → (1 ≤ substantive_slots_for bytes cpus)
      × (substantive_slots_for bytes cpus ≤ 4)
      × (1 ≤ heavy_slots_for bytes cpus)
      × (heavy_slots_for bytes cpus ≤ 2)
      × (heavy_slots_for bytes cpus ≤ substantive_slots_for bytes cpus)
unfolding substantive_slots_for heavy_slots_for memory_substantive_slots cpu_substantive_slots
    memory_heavy_slots
slots_bounds bytes cpus = ground arith

-- More memory and more CPUs never take a substantive slot away.
pub slots_mono :
    (b b' c c' : ℕ) → b ≤ b' → c ≤ c' → substantive_slots_for b c ≤ substantive_slots_for b' c'
unfolding substantive_slots_for memory_substantive_slots cpu_substantive_slots
slots_mono b b' c c' h k = ground arith
