-- ===== src/Tests/Capacity.antt =====
-- src/shared/machine-capacity.ts, src/shared/work-bundle.ts and the labels of
-- src/shared/work-coordinator.ts on concrete inputs.

use dex_reach.Common.{inl, ◌↔◌, ℕ, ◌+◌, List, [], ◌∷◌}
use dex_reach.Common.{
  ◌*◌, ◌≤◌, ◌<◌, ◌≡◌, ◌≢◌, ◌↔◌, ◌⊎◌, refl, true, false, none, some, length, all, arith,
}
use dex_reach.Common.Outcome.{ok, err}
use dex_reach.Capacity.{
  MemoryPressure, ThermalPressure, interactive, heavy, medium, read, mutate, exclusive, gib,
  load_unit, substantive_slots_for, substantive_slots_for_profile, heavy_slots_for,
  memory_substantive_slots, cpu_substantive_slots, memory_heavy_slots, classify_cpu_pressure,
  is_substantive,
}
use dex_reach.Capacity.Slots.{small_host_slots, slots_bounds, slots_mono}
use dex_reach.Capacity.Evaluate.{Probe, Counts, CapacityRequest, evaluate_capacity}
use dex_reach.Capacity.Admits.{HasRoom, can_admit_iff, can_admit_mono, IsNoWorse}
use dex_reach.Bundle.{
  WorkBundle, normal, light, is_work_bundle, normalize_work_bundle, must_declare_write,
}
use dex_reach.Bundle.Laws.{normalize_work_bundle-accepts}
use dex_reach.Labels
use dex_reach.Capacity.Health
use dex_reach.Capacity.Health.{
  HealthSample, sustained_health_ms, load_capacity_profile, record_capacity_health,
}
use dex_reach.Capacity.Sustained.{
  ProfileEvent, chose, observed, files_after, IsHealthySince, ready-IsHealthySince,
}
use dex_reach.Capacity.{CpuPressure, CapacityProfile, is_interactive}
use dex_reach.Labels.{
  codes, trim, is_safe_label, looks_like_secret_material, sanitize_label, is_task_id, is_digest,
  label_secret,
}
use dex_reach.Labels.Laws.{sanitize_label-accepts}

small_host_slots_example :
    (substantive_slots_for (8 * gib) 8 ≡ 1)
    × ((substantive_slots_for_profile (8 * gib) 8 interactive true ≡ 1)
        ⊎ (substantive_slots_for_profile (8 * gib) 8 interactive true ≡ 2))
    × ((substantive_slots_for_profile (8 * gib) 8 interactive true ≡ 2)
        ↔ (interactive ≡ interactive) × (true ≡ true) × (8 * gib ≤ 8 * gib) × (4 ≤ 8))
small_host_slots_example = small_host_slots (8 * gib) 8 interactive true (omega arith)

ready_host : substantive_slots_for_profile (8 * gib) 8 interactive true ≡ 2
unfolding substantive_slots_for_profile substantive_slots_for memory_substantive_slots
    cpu_substantive_slots
ready_host = refl

slots_bounds_example :
    (1 ≤ substantive_slots_for (64 * gib) 16)
    × (substantive_slots_for (64 * gib) 16 ≤ 4)
    × (1 ≤ heavy_slots_for (64 * gib) 16)
    × (heavy_slots_for (64 * gib) 16 ≤ 2)
    × (heavy_slots_for (64 * gib) 16 ≤ substantive_slots_for (64 * gib) 16)
slots_bounds_example = slots_bounds (64 * gib) 16

slots_mono_example : substantive_slots_for (16 * gib) 8 ≤ substantive_slots_for (32 * gib) 12
slots_mono_example = slots_mono (16 * gib) (32 * gib) 8 12 (omega arith) (omega arith)

abbrev laptop : Probe
laptop = record {
  physical_memory_bytes = 16 * gib;
  logical_cpu_count = 8;
  load_average = some (2 * load_unit);
  memory = MemoryPressure.healthy;
  thermal = ThermalPressure.healthy;
}

abbrev one_job : Counts
one_job = record {
  active_substantive = 1;
  active_heavy = 1;
  observed_uncoordinated_heavy = 0;
  process_observation = none;
}

abbrev no_job : Counts
no_job = record one_job { active_substantive = 0; active_heavy = 0 }

abbrev build : CapacityRequest
build = record { workload = medium; access = mutate; profile = none; interactive_ready = none }

build_admitted : (evaluate_capacity laptop one_job (some build)).can_admit ≡ true
unfolding evaluate_capacity substantive_slots_for_profile substantive_slots_for
    memory_substantive_slots cpu_substantive_slots heavy_slots_for memory_heavy_slots
    classify_cpu_pressure is_substantive
build_admitted = refl

heavy_refused :
    (evaluate_capacity laptop one_job (some (record build { workload = heavy }))).can_admit ≡ false
unfolding evaluate_capacity substantive_slots_for_profile substantive_slots_for
    memory_substantive_slots cpu_substantive_slots heavy_slots_for memory_heavy_slots
    classify_cpu_pressure is_substantive
heavy_refused = refl

can_admit_iff_example :
    ((evaluate_capacity laptop one_job (some build)).can_admit ≡ true)
    ↔ ((is_substantive medium mutate ≡ false) ⊎ HasRoom laptop one_job build)
can_admit_iff_example = can_admit_iff laptop one_job build

-- A larger machine with less load and no work.
abbrev workstation : Probe
workstation = record laptop {
  physical_memory_bytes = 64 * gib;
  logical_cpu_count = 16;
  load_average = some 0;
}

workstation-IsNoWorse : IsNoWorse laptop workstation one_job no_job
workstation-IsNoWorse = record {
  memory_size = omega arith;
  cpus = omega arith;
  load = λ l e. (0, refl, omega arith);
  memory = inl refl;
  thermal = inl refl;
  substantive = omega arith;
  heavy = omega arith;
  uncoordinated = omega arith;
  table = inl refl;
}

can_admit_mono_example : (evaluate_capacity workstation no_job (some build)).can_admit ≡ true
can_admit_mono_example =
    can_admit_mono laptop workstation one_job no_job build workstation-IsNoWorse build_admitted

abbrev declared : WorkBundle
declared = record {
  cpu_units = 3;
  memory_mib = 1024;
  io = normal;
  network = light;
  repository_write = true;
  machine_exclusive = false;
}

normalize_work_bundle-accepts_example :
    (is_work_bundle declared ≡ true)
    × ((mutate ≡ read) ⊎ (declared.repository_write ≡ true))
    × ((mutate ≢ exclusive) ⊎ (declared.machine_exclusive ≡ true))
    × (normalize_work_bundle medium mutate (some declared) ≡ ok declared)
unfolding normalize_work_bundle is_work_bundle
normalize_work_bundle-accepts_example =
    normalize_work_bundle-accepts medium mutate (some declared) declared refl

silent_writer :
    normalize_work_bundle medium mutate (some (record declared { repository_write = false }))
    ≡ err must_declare_write
unfolding normalize_work_bundle is_work_bundle
silent_writer = refl

sanitize_label-accepts_example :
    (codes "phase-0a" ≡ trim (codes " phase-0a "))
    × (0 < length (codes "phase-0a"))
    × (length (codes "phase-0a") ≤ 64)
    × (all is_safe_label (codes "phase-0a") ≡ true)
    × (looks_like_secret_material (codes "phase-0a") ≡ false)
    × (sanitize_label (some (codes "phase-0a")) ≡ ok (some (codes "phase-0a")))
unfolding sanitize_label trim is_safe_label looks_like_secret_material Labels.is_space
sanitize_label-accepts_example = sanitize_label-accepts (codes " phase-0a ") (codes "phase-0a") refl

token_refused : sanitize_label (some (codes "abcdEFGH1234abcdEFGH1234")) ≡ err label_secret
unfolding sanitize_label trim is_safe_label looks_like_secret_material Labels.is_space
token_refused = refl

task_id_shape :
    (is_task_id (codes "rtsk_0123456789ab_0123456789abcdef") ≡ true)
    × (is_task_id (codes "rtsk_0123456789_0123456789abcdef") ≡ false)
unfolding is_task_id Labels.is_hex
task_id_shape = (refl, refl)

abbrev calm : HealthSample
calm = record {
  memory = MemoryPressure.healthy;
  cpu = CpuPressure.healthy;
  thermal = ThermalPressure.healthy;
  observed_uncoordinated_heavy = 0;
}

abbrev one_calm_sample : List ProfileEvent
one_calm_sample = observed 1000 calm ∷ chose 500 CapacityProfile.interactive ∷ []

ready-IsHealthySince_example :
    (is_interactive (load_capacity_profile (files_after one_calm_sample)) ≡ true)
    × ((since : ℕ) × (since + sustained_health_ms ≤ 61000)
        × IsHealthySince since 61000 (observed 61000 calm ∷ one_calm_sample))
unfolding record_capacity_health Health.load_capacity_profile Health.set_capacity_profile
    Health.next_health Health.is_healthy Health.previous_health Health.since_after
    Health.healthy_for
ready-IsHealthySince_example = ready-IsHealthySince 61000 calm one_calm_sample refl
