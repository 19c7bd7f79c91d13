-- ===== src/Coordinator/Admission.antt =====
-- What `decideAdmission` of src/shared/work-coordinator.ts demands.
use dex_reach.Common.{
  ℕ, ◌+◌, ◌≤◌, ◌≡◌, ◌≢◌, ◌↔◌, refl, sym, ap, ◌∙◌, Bool, true, false, ◌&&◌, Option, none, List, [],
  ◌∷◌, ◌++◌, any, find, is_empty, sum_of, find-none, arith, inl, inr,
}
use dex_reach.Common.Outcome.{ok, Result-cases}
use dex_reach.Capacity.{AccessClass, read, exclusive, is_read, is_substantive}
use dex_reach.Capacity.Evaluate.{Probe, Counts, CapacityRequest, MachineCapacity, evaluate_capacity}
use dex_reach.Bundle.{
  WorkBundle, normalize_work_bundle, cpu_budget, memory_budget, is_high_io, is_heavy_network,
}
use dex_reach.Coordinator.{WorkLease, CoordinatorState, CapacitySnapshot}
use dex_reach.Coordinator.Decide.{
  AdmissionRequest, Decision, decision_of, Blocking, observation_blocking, accounting_blocking,
  degraded_blocking, capacity_blocking, named, is_stale_sample, accounting_differs,
  holds_repository, holds_machine, repository_blocking, exclusive_blocking, queue_blocking,
  bundle_blocking, cpu_of, memory_of, blocked_by, used_bundles, capacity_of, blocking_of,
  decide_admission,
}

pub is_empty-append {ℓ} :
    {A : Type ℓ} (xs ys : List A) → is_empty (xs ++ ys) ≡ (is_empty xs && is_empty ys)
is_empty-append [] ys = refl
is_empty-append (x ∷ xs) ys = refl

-- All that an admission rests on, each part by the state that it reads.
pub record IsClear (state : CoordinatorState) (snapshot : CapacitySnapshot) (now : ℕ)
    (r : AdmissionRequest) (asked : WorkBundle) (used : List WorkBundle) : Type 0 where
  pub fresh :
      is_substantive r.workload r.access ≡ true → is_stale_sample now snapshot.sampled_at_ms ≡ false
  pub accounted :
      is_substantive r.workload r.access ≡ true
      → accounting_differs snapshot.excluded_lease_ids state.leases ≡ false
  pub not_degraded : is_substantive r.workload r.access ≡ true → state.degraded ≡ false
  pub repository_free :
      r.access ≢ read
      → named r.repository_root ≡ true
      → any (holds_repository r.repository_root) state.leases ≡ false
  pub machine_idle : r.access ≡ exclusive → state.leases ≡ []
  pub machine_free :
      is_substantive r.workload r.access ≡ true → any holds_machine state.leases ≡ false
  pub first_in_line :
      is_substantive r.workload r.access ≡ true → blocked_by state.tickets r.ticket_id ≡ []
  pub cpu_fits : sum_of cpu_of used + asked.cpu_units ≤ cpu_budget snapshot.logical_cpu_count
  pub memory_fits :
      sum_of memory_of used + asked.memory_mib ≤ memory_budget snapshot.physical_memory_bytes
  pub io_free : is_high_io asked.io ≡ true → any (λ (b : WorkBundle). is_high_io b.io) used ≡ false
  pub network_free :
      is_heavy_network asked.network ≡ true
      → any (λ (b : WorkBundle). is_heavy_network b.network) used ≡ false
  pub has_capacity : (capacity_of state snapshot r).can_admit ≡ true

-- An absent `find` is an `any` that fails.
find-any : {A : Type 0} (p : A → Bool) (xs : List A) → find p xs ≡ none → any p xs ≡ false
find-any p xs h = find-none p xs h

any-find : {A : Type 0} (p : A → Bool) (xs : List A) → any p xs ≡ false → find p xs ≡ none
any-find p [] h = refl
any-find p (x ∷ xs) h = ground (arith, any-find p xs)

is_read-of_ne : (a : AccessClass) → a ≢ read → is_read a ≡ false
is_read-of_ne a h = ground arith

repository-clear :
    (ls : List WorkLease) (r : AdmissionRequest)
    → (is_empty (repository_blocking ls r) ≡ true) ↔ (
        r.access ≢ read
        → named r.repository_root ≡ true
        → any (holds_repository r.repository_root) ls ≡ false)
unfolding repository_blocking
repository-clear ls r = (
  λ h ne nm. ground (arith, find-any (holds_repository r.repository_root) ls),
  λ h. ground (arith, any-find (holds_repository r.repository_root) ls),
)

exclusive-clear :
    (ls : List WorkLease) (r : AdmissionRequest) (s : Bool)
    → (is_empty (exclusive_blocking ls r s) ≡ true)
      ↔ ((r.access ≡ exclusive → ls ≡ []) × (s ≡ true → any holds_machine ls ≡ false))
unfolding exclusive_blocking
exclusive-clear ls r s = (
  λ h. (ground arith, λ e. ground (arith, find-any holds_machine ls)),
  λ h. ground (arith, any-find holds_machine ls),
)

queue-clear :
    (state : CoordinatorState) (r : AdmissionRequest) (s : Bool)
    → (is_empty (queue_blocking state.tickets r s) ≡ true)
      ↔ (s ≡ true → blocked_by state.tickets r.ticket_id ≡ [])
unfolding queue_blocking
queue-clear state r s = (λ h. ground arith, λ h. ground arith)

bundle-clear :
    (asked : WorkBundle) (used : List WorkBundle) (cpus bytes : ℕ)
    → (is_empty (bundle_blocking asked used cpus bytes) ≡ true) ↔ (
        (sum_of cpu_of used + asked.cpu_units ≤ cpu_budget cpus)
        × (sum_of memory_of used + asked.memory_mib ≤ memory_budget bytes)
        × (is_high_io asked.io ≡ true → any (λ (b : WorkBundle). is_high_io b.io) used ≡ false)
        × (is_heavy_network asked.network ≡ true
            → any (λ (b : WorkBundle). is_heavy_network b.network) used ≡ false))
unfolding bundle_blocking
bundle-clear asked used cpus bytes =
    (λ h. (ground arith, ground arith, λ e. ground arith, λ e. ground arith), λ h. ground arith)

-- A refusal for want of capacity always gives a reason.
reasons-ne_nil :
    (probe : Probe) (counts : Counts) (r : Option CapacityRequest)
    → (evaluate_capacity probe counts r).reasons ≢ []
unfolding evaluate_capacity
reasons-ne_nil probe counts r h = ground arith

capacity_of-reasons :
    (state : CoordinatorState) (snapshot : CapacitySnapshot) (r : AdmissionRequest)
    → (capacity_of state snapshot r).reasons ≢ []
unfolding capacity_of
capacity_of-reasons state snapshot r = reasons-ne_nil _ _ _

observation-clear :
    (now : ℕ) (snapshot : CapacitySnapshot) (s : Bool)
    → (is_empty (observation_blocking now snapshot s) ≡ true)
      ↔ (s ≡ true → is_stale_sample now snapshot.sampled_at_ms ≡ false)
unfolding observation_blocking
observation-clear now snapshot s = (λ h e. ground arith, λ h. ground arith)

accounting-clear :
    (ls : List WorkLease) (snapshot : CapacitySnapshot) (s : Bool)
    → (is_empty (accounting_blocking ls snapshot s) ≡ true)
      ↔ (s ≡ true → accounting_differs snapshot.excluded_lease_ids ls ≡ false)
unfolding accounting_blocking
accounting-clear ls snapshot s = (λ h e. ground arith, λ h. ground arith)

degraded-clear :
    (state : CoordinatorState) (s : Bool)
    → (is_empty (degraded_blocking state s) ≡ true) ↔ (s ≡ true → state.degraded ≡ false)
unfolding degraded_blocking
degraded-clear state s = (λ h e. ground arith, λ h. ground arith)

-- A chain of eight lists is empty when each is.
parts-clear :
    {A : Type 0} (a b c d e f g h : List A)
    → (is_empty (a ++ (b ++ (c ++ (d ++ (e ++ (f ++ (g ++ h))))))) ≡ true) ↔ (
        (is_empty a ≡ true)
        × (is_empty b ≡ true)
        × (is_empty c ≡ true)
        × (is_empty d ≡ true)
        × (is_empty e ≡ true)
        × (is_empty f ≡ true)
        × (is_empty g ≡ true)
        × (is_empty h ≡ true))
parts-clear a b c d e f g h = simp is_empty-append (
  λ p. (
    ground arith,
    ground arith,
    ground arith,
    ground arith,
    ground arith,
    ground arith,
    ground arith,
    ground arith,
  ),
  λ p. ground arith,
)

capacity-clear :
    (state : CoordinatorState) (snapshot : CapacitySnapshot) (r : AdmissionRequest)
    → (is_empty (capacity_blocking (capacity_of state snapshot r)) ≡ true)
      ↔ ((capacity_of state snapshot r).can_admit ≡ true)
unfolding capacity_blocking
capacity-clear state snapshot r = (
  λ h. ground (arith, capacity_of-reasons state snapshot r),
  λ h. ground (arith, capacity_of-reasons state snapshot r),
)

-- Nothing blocks a request exactly when the state is clear for it.
pub blocking-IsClear :
    (state : CoordinatorState) (snapshot : CapacitySnapshot) (now : ℕ) (r : AdmissionRequest)
    (asked : WorkBundle) (used : List WorkBundle)
    → (is_empty (blocking_of state snapshot now r asked used) ≡ true)
      ↔ IsClear state snapshot now r asked used
unfolding blocking_of
blocking-IsClear state snapshot now r asked used =
    let s = is_substantive r.workload r.access in
    let bundles =
      bundle-clear asked used snapshot.logical_cpu_count snapshot.physical_memory_bytes in
    let parts =
      parts-clear (observation_blocking now snapshot s)
        (accounting_blocking state.leases snapshot s) (degraded_blocking state s)
        (repository_blocking state.leases r) (exclusive_blocking state.leases r s)
        (queue_blocking state.tickets r s)
        (bundle_blocking asked used snapshot.logical_cpu_count snapshot.physical_memory_bytes)
        (capacity_blocking (capacity_of state snapshot r)) in
    (
      λ h.
          let (p1, p2, p3, p4, p5, p6, p7, p8) = parts.0 h in
          let (cpu, memory, io, network) = bundles.0 p7 in
          let (idle, free) = (exclusive-clear state.leases r s).0 p5 in
          record {
            fresh = (observation-clear now snapshot s).0 p1;
            accounted = (accounting-clear state.leases snapshot s).0 p2;
            not_degraded = (degraded-clear state s).0 p3;
            repository_free = (repository-clear state.leases r).0 p4;
            machine_idle = idle;
            machine_free = free;
            first_in_line = (queue-clear state r s).0 p6;
            cpu_fits = cpu;
            memory_fits = memory;
            io_free = io;
            network_free = network;
            has_capacity = (capacity-clear state snapshot r).0 p8;
          },
      λ c. parts.1 (
        (observation-clear now snapshot s).1 c.fresh,
        (accounting-clear state.leases snapshot s).1 c.accounted,
        (degraded-clear state s).1 c.not_degraded,
        (repository-clear state.leases r).1 c.repository_free,
        (exclusive-clear state.leases r s).1 (c.machine_idle, c.machine_free),
        (queue-clear state r s).1 c.first_in_line,
        bundles.1 (c.cpu_fits, c.memory_fits, c.io_free, c.network_free),
        (capacity-clear state snapshot r).1 c.has_capacity,
      ),
    )

-- A decision comes from a requested bundle and stored bundles that are well formed.
pub decide_admission-ok :
    (state : CoordinatorState) (snapshot : CapacitySnapshot) (now : ℕ) (r : AdmissionRequest)
    {d : Decision}
    → decide_admission state snapshot now r ≡ ok d
    → (asked : WorkBundle) × (used : List WorkBundle) × (normalize_work_bundle r.workload r.access
          r.bundle
        ≡ ok asked)
      × (used_bundles state.leases ≡ ok used)
      × (d
          ≡ decision_of
              (capacity_of state snapshot r)
              (blocking_of state snapshot now r asked used))
unfolding decide_admission
decide_admission-ok state snapshot now r h =
    elim (Result-cases (normalize_work_bundle r.workload r.access r.bundle)) [
      | inr (e, n) ↦ ground arith
      | inl (asked, n) ↦ elim (Result-cases (used_bundles state.leases)) [
        | inr (e, u) ↦ ground arith
        | inl (used, u) ↦ (asked, used, n, u, ground arith)
      ]
    ]

decision_of-admit :
    (c : MachineCapacity) (bs : List Blocking) → (decision_of c bs).admit ≡ is_empty bs
unfolding decision_of
decision_of-admit c bs = refl

-- `decideAdmission` admits exactly when the requested bundle and the stored ones are well formed and
-- the state is clear: a substantive request has a fresh sample with unchanged lease accounting, an
-- undegraded state, no exclusive lease and no ticket to wait for; a writing request that names its
-- repository finds no other writer there; an exclusive request finds no lease at all; the bundle fits
-- the CPU and memory budgets, and no second high-I/O or heavy-network bundle; and the host has room.
pub decide_admission-admit_iff :
    (state : CoordinatorState) (snapshot : CapacitySnapshot) (now : ℕ) (r : AdmissionRequest)
    → ((d : Decision) × (decide_admission state snapshot now r ≡ ok d) × (d.admit ≡ true)) ↔ (
        (asked : WorkBundle) × (used : List WorkBundle) × (normalize_work_bundle r.workload r.access
            r.bundle
          ≡ ok asked)
        × (used_bundles state.leases ≡ ok used)
        × IsClear state snapshot now r asked used)
unfolding decide_admission
decide_admission-admit_iff state snapshot now r = (
  λ (d, e, a).
      let (asked, used, n, u, same) = decide_admission-ok state snapshot now r e in
      (
        asked,
        used,
        n,
        u,
        (blocking-IsClear state snapshot now r asked used).0 (
            sym (
              decision_of-admit (capacity_of state snapshot r)
                (blocking_of state snapshot now r asked used))
            ∙ ap (λ x. x.admit) (sym same)
            ∙ a),
      ),
  λ (asked, used, n, u, c). (
    decision_of (capacity_of state snapshot r) (blocking_of state snapshot now r asked used),
    rw (n, u, decide_admission),
    decision_of-admit (capacity_of state snapshot r) (blocking_of state snapshot now r asked used)
        ∙ (blocking-IsClear state snapshot now r asked used).1 c,
  ),
)
