-- ===== src/Capacity/Admits.antt =====
-- When `evaluateCapacity` of src/shared/machine-capacity.ts admits.
use dex_reach.Common.{
  ℕ, Bool, Option, none, refl, ◌+◌, ◌<◌, ◌≤◌, ◌≡◌, ◌≢◌, ◌↔◌, ◌⊎◌, inl, inr, sym, ◌∙◌, true, false,
  some, Bool-cases, arith,
}
use dex_reach.Capacity.Slots.{slots_mono}
use dex_reach.Capacity.{
  memory_heavy_slots, MemoryPressure, CpuPressure, ThermalPressure, WorkloadClass, CapacityProfile,
  ProcessObservation, is_substantive, substantive_slots_for_profile, heavy_slots_for,
  classify_cpu_pressure,
}
use dex_reach.Capacity.Evaluate.{Probe, Counts, CapacityRequest, evaluate_capacity, or_default}

-- The host as the decision sees it: room for one more job and no pressure.
pub record HasRoom (probe : Probe) (counts : Counts) (r : CapacityRequest) : Type 0 where
  pub table_read : counts.process_observation ≢ some ProcessObservation.unknown
  pub slot_free :
      counts.active_substantive + counts.observed_uncoordinated_heavy
      < substantive_slots_for_profile probe.physical_memory_bytes probe.logical_cpu_count
          (or_default CapacityProfile.conservative r.profile)
          (or_default false r.interactive_ready)
  pub heavy_free :
      r.workload ≡ WorkloadClass.heavy
      → counts.active_heavy < heavy_slots_for probe.physical_memory_bytes probe.logical_cpu_count
  pub memory_fine :
      (probe.memory ≡ MemoryPressure.healthy)
      ⊎ (probe.memory ≡ MemoryPressure.warning) × (r.workload ≢ WorkloadClass.heavy)
  pub thermal_fine : probe.thermal ≢ ThermalPressure.limited
  pub cpu_fine :
      (classify_cpu_pressure probe.load_average probe.logical_cpu_count ≡ CpuPressure.healthy)
      ⊎ (classify_cpu_pressure probe.load_average probe.logical_cpu_count ≡ CpuPressure.busy)
        × (r.workload ≢ WorkloadClass.heavy)

light_can_admit :
    (probe : Probe) (counts : Counts) (r : CapacityRequest)
    → is_substantive r.workload r.access ≡ false
    → (evaluate_capacity probe counts (some r)).can_admit ≡ true
unfolding evaluate_capacity
light_can_admit probe counts r s = ground arith

pub room-of-can_admit :
    (probe : Probe) (counts : Counts) (r : CapacityRequest)
    → is_substantive r.workload r.access ≡ true
    → (evaluate_capacity probe counts (some r)).can_admit ≡ true
    → HasRoom probe counts r
unfolding evaluate_capacity
room-of-can_admit probe counts r s h = record {
  table_read = ground arith;
  slot_free = ground arith;
  heavy_free = ground arith;
  memory_fine = ground arith;
  thermal_fine = ground arith;
  cpu_fine = ground arith;
}

pub can_admit-of-room :
    (probe : Probe) (counts : Counts) (r : CapacityRequest)
    → is_substantive r.workload r.access ≡ true
    → HasRoom probe counts r
    → (evaluate_capacity probe counts (some r)).can_admit ≡ true
unfolding evaluate_capacity
can_admit-of-room probe counts r s h = ground arith

-- A substantive request is admitted exactly when the process table was read, a substantive slot is
-- free, a heavy slot is free if the request is heavy, memory is healthy (or at warning for a request
-- that is not heavy), the host is not thermally limited, and the CPU is healthy (or busy for a
-- request that is not heavy); a light read is always admitted.
pub can_admit_iff :
    (probe : Probe) (counts : Counts) (r : CapacityRequest)
    → ((evaluate_capacity probe counts (some r)).can_admit ≡ true)
      ↔ ((is_substantive r.workload r.access ≡ false) ⊎ HasRoom probe counts r)
can_admit_iff probe counts r = elim (Bool-cases (is_substantive r.workload r.access)) [
  | inl s ↦ (
    λ h. inr (room-of-can_admit probe counts r s h),
    λ d. elim d [ inl e ↦ cc | inr room ↦ can_admit-of-room probe counts r s room ],
  )
  | inr s ↦ (λ _. inl s, λ _. light_can_admit probe counts r s)
]

observed_unknown : some ProcessObservation.observed ≢ some ProcessObservation.unknown
observed_unknown h = ground arith

healthy_limited : ThermalPressure.healthy ≢ ThermalPressure.limited
healthy_limited h = ground arith

-- A host and its work, the second no worse off than the first: as much memory and as many CPUs, a load
-- that is known where the other's is and is no greater, each pressure the same or healthy, no more
-- jobs, and a process table that was read where the other's was.
pub record IsNoWorse (probe better : Probe) (counts fewer : Counts) : Type 0 where
  pub memory_size : probe.physical_memory_bytes ≤ better.physical_memory_bytes
  pub cpus : probe.logical_cpu_count ≤ better.logical_cpu_count
  pub load :
      (l : ℕ) → probe.load_average ≡ some l → (m : ℕ) × (better.load_average ≡ some m) × (m ≤ l)
  pub memory : (better.memory ≡ probe.memory) ⊎ (better.memory ≡ MemoryPressure.healthy)
  pub thermal : (better.thermal ≡ probe.thermal) ⊎ (better.thermal ≡ ThermalPressure.healthy)
  pub substantive : fewer.active_substantive ≤ counts.active_substantive
  pub heavy : fewer.active_heavy ≤ counts.active_heavy
  pub uncoordinated : fewer.observed_uncoordinated_heavy ≤ counts.observed_uncoordinated_heavy
  pub table :
      (fewer.process_observation ≡ counts.process_observation)
      ⊎ (fewer.process_observation ≡ some ProcessObservation.observed)

classify-healthy :
    (l m c d : ℕ)
    → m ≤ l
    → c ≤ d
    → classify_cpu_pressure (some l) c ≡ CpuPressure.healthy
    → classify_cpu_pressure (some m) d ≡ CpuPressure.healthy
unfolding classify_cpu_pressure
classify-healthy l m c d h k e = ground arith

classify-busy :
    (l m c d : ℕ)
    → m ≤ l
    → c ≤ d
    → classify_cpu_pressure (some l) c ≡ CpuPressure.busy
    → (classify_cpu_pressure (some m) d ≡ CpuPressure.healthy)
      ⊎ (classify_cpu_pressure (some m) d ≡ CpuPressure.busy)
unfolding classify_cpu_pressure
classify-busy l m c d h k e = ground arith

cpu-no_worse :
    {P : Type 0} (a b : Option ℕ) (c d : ℕ)
    → ((l : ℕ) → a ≡ some l → (m : ℕ) × (b ≡ some m) × (m ≤ l))
    → c ≤ d
    → (classify_cpu_pressure a c ≡ CpuPressure.healthy)
      ⊎ (classify_cpu_pressure a c ≡ CpuPressure.busy) × P
    → (classify_cpu_pressure b d ≡ CpuPressure.healthy)
      ⊎ (classify_cpu_pressure b d ≡ CpuPressure.busy) × P
unfolding classify_cpu_pressure
cpu-no_worse none b c d w k fine = ground arith
cpu-no_worse (some l) b c d w k (inl fine) =
    let (m, e, h) = w l refl in rw e (inl (classify-healthy l m c d h k fine))
cpu-no_worse (some l) b c d w k (inr (fine, p)) =
    let (m, e, h) = w l refl in
    rw e (elim (classify-busy l m c d h k fine) [ inl x ↦ inl x | inr x ↦ inr (x, p) ])

slots_for_profile_mono :
    (b b' c c' : ℕ) (p : CapacityProfile) (ready : Bool)
    → b ≤ b'
    → c ≤ c'
    → substantive_slots_for_profile b c p ready ≤ substantive_slots_for_profile b' c' p ready
unfolding substantive_slots_for_profile
slots_for_profile_mono b b' c c' p ready h k = let base = slots_mono b b' c c' h k in ground arith

heavy_slots_for_mono :
    (b b' c c' : ℕ) → b ≤ b' → c ≤ c' → heavy_slots_for b c ≤ heavy_slots_for b' c'
unfolding heavy_slots_for memory_heavy_slots
heavy_slots_for_mono b b' c c' h k = let base = slots_mono b b' c c' h k in ground arith

-- An admitted request is admitted too on a host that is no worse off: with no less memory and no fewer
-- CPUs, a load that is known where the other's is and no greater, each pressure the same or healthy,
-- no more jobs, and a process table that was read where the other's was.
pub can_admit_mono :
    (probe better : Probe) (counts fewer : Counts) (r : CapacityRequest)
    → IsNoWorse probe better counts fewer
    → (evaluate_capacity probe counts (some r)).can_admit ≡ true
    → (evaluate_capacity better fewer (some r)).can_admit ≡ true
can_admit_mono probe better counts fewer r w h = elim ((can_admit_iff probe counts r).0 h) [
  | inl e ↦ (can_admit_iff better fewer r).1 (inl e)
  | inr room ↦ (can_admit_iff better fewer r).1 (
      inr (record {
        table_read = λ e. elim w.table [
          | inl same ↦ room.table_read (sym same ∙ e)
          | inr read ↦ observed_unknown (sym read ∙ e)
        ];
        slot_free =
            let more =
              slots_for_profile_mono probe.physical_memory_bytes better.physical_memory_bytes
                probe.logical_cpu_count better.logical_cpu_count
                (or_default CapacityProfile.conservative r.profile)
                (or_default false r.interactive_ready) w.memory_size w.cpus in
            let a = room.slot_free in
            let b = w.substantive in let c = w.uncoordinated in omega (arith, more, a, b, c);
        heavy_free = λ e.
            let more =
              heavy_slots_for_mono probe.physical_memory_bytes better.physical_memory_bytes
                probe.logical_cpu_count better.logical_cpu_count w.memory_size w.cpus in
            let a = room.heavy_free e in let b = w.heavy in omega (arith, more, a, b);
        memory_fine = elim w.memory [
          | inl same ↦ elim room.memory_fine [
            | inl e ↦ inl (same ∙ e)
            | inr e ↦ inr (same ∙ e.0, e.1)
          ]
          | inr e ↦ inl e
        ];
        thermal_fine = λ e. elim w.thermal [
          | inl same ↦ room.thermal_fine (sym same ∙ e)
          | inr cool ↦ healthy_limited (sym cool ∙ e)
        ];
        cpu_fine =
            cpu-no_worse probe.load_average better.load_average probe.logical_cpu_count
              better.logical_cpu_count w.load w.cpus room.cpu_fine;
      }))
]
