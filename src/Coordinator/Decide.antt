-- ===== src/Coordinator/Decide.antt =====
-- src/shared/work-coordinator.ts, `decideAdmission`: the admission policy over a state and a host
-- snapshot. A reason is a constructor with the values that the source puts into the text.
use text.Mathlib.TextEquality.{eq_iff}
use native.Mathlib.Decide.{ℕ_discrete}
use dex_reach.Common.{
  ℕ, ◌+◌, String, Bool, true, false, not, ◌&&◌, ◌||◌, Option, none, some, List, [], ◌∷◌, ◌++◌, map,
  ◌==◌, text_eq, same_option, is_empty, length, find, any, select, find_index, take, sum_of, ltb,
  if◌then◌else◌, Bool-cases, inl, inr,
}
use dex_reach.Common.Outcome.{Result, ok, err}
use dex_reach.Capacity.{WorkloadClass, AccessClass, is_read, is_exclusive, is_heavy, is_substantive}
use dex_reach.Capacity.Evaluate.{Probe, Counts, MachineCapacity, Reason, evaluate_capacity, when}
use dex_reach.Bundle.{
  WorkBundle, BundleError, normalize_work_bundle, cpu_budget, memory_budget, is_high_io,
  is_heavy_network,
}
use dex_reach.Coordinator.{
  Executor, WorkLease, WorkQueueTicket, CoordinatorState, CapacitySnapshot, sort_by, text_le,
}

pub data Blocking : Type 0 where
  observation_stale : Blocking
  accounting_changed : Blocking
  state_degraded : ℕ → Blocking
  repository_held : String → AccessClass → String → Executor → Blocking
  machine_not_idle : ℕ → Blocking
  machine_held : String → Blocking
  queued_behind : ℕ → Blocking
  cpu_exhausted : ℕ → ℕ → ℕ → Blocking
  memory_exhausted : ℕ → ℕ → ℕ → Blocking
  high_io_active : Blocking
  heavy_network_active : Blocking
  capacity : Reason → Blocking

pub record AdmissionRequest : Type 0 where
  pub access : AccessClass
  pub workload : WorkloadClass
  pub bundle : Option WorkBundle
  pub repository_root : Option String
  pub ticket_id : Option String

pub record Decision : Type 0 where
  pub admit : Bool
  pub capacity : MachineCapacity
  pub reasons : List Blocking

-- A text that is present and not empty.
abbrev pub named : Option String → Bool
named none = false
named (some s) = not (s == "")

abbrev pub same_texts : List String → List String → Bool
same_texts [] [] = true
same_texts (a ∷ xs) (b ∷ ys) = a == b && same_texts xs ys
same_texts _ _ = false

abbrev pub is_stale_sample : ℕ → Option ℕ → Bool
is_stale_sample now none = false
is_stale_sample now (some at) = ltb (at + 2000) now || ltb now at

abbrev pub lease_ids : List WorkLease → List String
lease_ids ls = sort_by text_le (map (λ l. l.id) ls)

abbrev pub accounting_differs : Option (List String) → List WorkLease → Bool
accounting_differs none ls = false
accounting_differs (some ids) ls = not (same_texts ids (lease_ids ls))

-- A lease that holds the repository for writing.
unfoldable pub holds_repository : Option String → WorkLease → Bool
holds_repository root lease = same_option lease.repository_root root && not (is_read lease.access)

abbrev or_text : Option String → String
or_text none = ""
or_text (some s) = s

unfoldable pub repository_blocking : List WorkLease → AdmissionRequest → List Blocking
repository_blocking ls r =
    if not (is_read r.access) && named r.repository_root
    then (elim (find (holds_repository r.repository_root) ls) [
      | none ↦ []
      | some h ↦ repository_held (or_text r.repository_root) h.access h.id h.executor ∷ []
    ])
    else []

abbrev pub holds_machine : WorkLease → Bool
holds_machine lease = is_exclusive lease.access

unfoldable pub exclusive_blocking : List WorkLease → AdmissionRequest → Bool → List Blocking
exclusive_blocking ls r substantive =
    when (is_exclusive r.access && not (is_empty ls)) (machine_not_idle (length ls) ∷ [])
    ++ elim (find holds_machine ls) [
      | none ↦ []
      | some h ↦ when substantive (machine_held h.id ∷ [])
    ]

-- The tickets that a request must wait for: those before its own, or all of them.
unfoldable pub blocked_by : List WorkQueueTicket → Option String → List WorkQueueTicket
blocked_by tickets none = tickets
blocked_by tickets (some id) = elim (find_index (λ (t : WorkQueueTicket). t.id == id) tickets) [
  | some mine ↦ take mine tickets
  | none ↦ select (λ (t : WorkQueueTicket). not (t.id == id)) tickets
]

unfoldable pub queue_blocking : List WorkQueueTicket → AdmissionRequest → Bool → List Blocking
unfolding blocked_by
queue_blocking tickets r substantive =
    let ahead = blocked_by tickets r.ticket_id in
    when (substantive && not (is_empty ahead)) (queued_behind (length ahead) ∷ [])

-- `state.leases.map(lease => normalizeWorkBundle(...))`, which throws on the first bad bundle.
unfoldable pub used_bundles : List WorkLease → Result BundleError (List WorkBundle)
used_bundles [] = ok []
used_bundles (l ∷ ls) = elim (normalize_work_bundle l.workload l.access l.bundle) [
  | err e ↦ err e
  | ok b ↦ elim (used_bundles ls) [ err e ↦ err e | ok bs ↦ ok (b ∷ bs) ]
]

abbrev pub cpu_of : WorkBundle → ℕ
cpu_of b = b.cpu_units

abbrev pub memory_of : WorkBundle → ℕ
memory_of b = b.memory_mib

unfoldable pub bundle_blocking : WorkBundle → List WorkBundle → ℕ → ℕ → List Blocking
bundle_blocking asked used cpus bytes =
    let used_cpu = sum_of cpu_of used in
    let used_memory = sum_of memory_of used in
    when (ltb (cpu_budget cpus) (used_cpu + asked.cpu_units))
      (cpu_exhausted used_cpu (cpu_budget cpus) asked.cpu_units ∷ [])
    ++ (when (ltb (memory_budget bytes) (used_memory + asked.memory_mib))
          (memory_exhausted used_memory (memory_budget bytes) asked.memory_mib ∷ [])
        ++ (when (is_high_io asked.io && any (λ (b : WorkBundle). is_high_io b.io) used)
              (high_io_active ∷ [])
            ++ when
                (is_heavy_network asked.network
                  && any (λ (b : WorkBundle). is_heavy_network b.network) used)
                (heavy_network_active ∷ [])))

abbrev penalty : Bool → ℕ
penalty true = 1
penalty false = 0

unfoldable pub active_substantive : List WorkLease → ℕ
active_substantive ls = length (select (λ (l : WorkLease). is_substantive l.workload l.access) ls)

unfoldable pub active_heavy : List WorkLease → ℕ
active_heavy ls = length (select (λ (l : WorkLease). is_heavy l.workload) ls)

unfoldable pub probe_of : CoordinatorState → CapacitySnapshot → Probe
probe_of state snapshot = record {
  physical_memory_bytes = if state.degraded then 0 else snapshot.physical_memory_bytes;
  logical_cpu_count = if state.degraded then 0 else snapshot.logical_cpu_count;
  load_average = snapshot.load_average;
  memory = snapshot.memory;
  thermal = snapshot.thermal;
}

unfoldable pub counts_of : CoordinatorState → CapacitySnapshot → Bool → Counts
counts_of state snapshot substantive = record {
  active_substantive = active_substantive state.leases + penalty (state.degraded && substantive);
  active_heavy = active_heavy state.leases + penalty (state.degraded && substantive);
  observed_uncoordinated_heavy = snapshot.uncoordinated_heavy;
  process_observation = snapshot.process_observation;
}

unfoldable pub capacity_of :
    CoordinatorState → CapacitySnapshot → AdmissionRequest → MachineCapacity
unfolding probe_of counts_of
capacity_of state snapshot r =
    evaluate_capacity (probe_of state snapshot)
      (counts_of state snapshot (is_substantive r.workload r.access))
      (some (record {
        workload = r.workload;
        access = r.access;
        profile = snapshot.profile;
        interactive_ready = snapshot.interactive_ready;
      }))

abbrev pub capacity_reasons : MachineCapacity → List Blocking
capacity_reasons c = map capacity c.reasons

unfoldable pub observation_blocking : ℕ → CapacitySnapshot → Bool → List Blocking
observation_blocking now snapshot substantive =
    when (substantive && is_stale_sample now snapshot.sampled_at_ms) (observation_stale ∷ [])

unfoldable pub accounting_blocking : List WorkLease → CapacitySnapshot → Bool → List Blocking
accounting_blocking ls snapshot substantive =
    when (substantive && accounting_differs snapshot.excluded_lease_ids ls)
      (accounting_changed ∷ [])

unfoldable pub degraded_blocking : CoordinatorState → Bool → List Blocking
degraded_blocking state substantive =
    when (state.degraded && substantive) (state_degraded (length state.degraded_reasons) ∷ [])

unfoldable pub capacity_blocking : MachineCapacity → List Blocking
capacity_blocking c = when (not c.can_admit) (capacity_reasons c)

-- Everything that blocks the request, in the order in which the source pushes it.
unfoldable pub blocking_of :
    CoordinatorState
    → CapacitySnapshot
    → ℕ
    → AdmissionRequest
    → WorkBundle
    → List WorkBundle
    → List Blocking
blocking_of state snapshot now r asked used =
    let substantive = is_substantive r.workload r.access in
    observation_blocking now snapshot substantive
    ++ (accounting_blocking state.leases snapshot substantive
        ++ (degraded_blocking state substantive
            ++ (repository_blocking state.leases r
                ++ (exclusive_blocking state.leases r substantive
                    ++ (queue_blocking state.tickets r substantive
                        ++ (bundle_blocking asked used snapshot.logical_cpu_count
                              snapshot.physical_memory_bytes
                            ++ capacity_blocking (capacity_of state snapshot r)))))))

String-discrete : Discrete String
String-discrete a b = elim (Bool-cases (a == b)) [
  | inl e ↦ yes ((eq_iff a b).0 e)
  | inr n ↦ no (λ e. cc ((eq_iff a b).1 e))
]

Reason-discrete : Discrete Reason
Reason-discrete = hlevel ℕ_discrete

AccessClass-discrete : Discrete AccessClass
AccessClass-discrete = hlevel

Executor-discrete : Discrete Executor
Executor-discrete = hlevel

Blocking-discrete : Discrete Blocking
Blocking-discrete =
    hlevel (ℕ_discrete, String-discrete, Reason-discrete, AccessClass-discrete, Executor-discrete)

abbrev differs : Blocking → Blocking → Bool
differs a b = elim (Blocking-discrete a b) [ yes e ↦ false | no n ↦ true ]

-- `[...new Set(blocking)]`: each reason once, at its first place.
unfoldable pub distinct : List Blocking → List Blocking
unfolding Blocking-discrete String-discrete Reason-discrete AccessClass-discrete Executor-discrete
    ℕ_discrete
distinct [] = []
distinct (x ∷ xs) = x ∷ select (differs x) (distinct xs)

unfoldable pub decision_of : MachineCapacity → List Blocking → Decision
unfolding distinct
decision_of c blocking = record {
  admit = is_empty blocking;
  capacity = c;
  reasons = if is_empty blocking then capacity_reasons c else distinct blocking;
}

-- `now` is `Date.now()`. A stored bundle that contradicts its lease makes the source throw.
unfoldable pub decide_admission :
    CoordinatorState → CapacitySnapshot → ℕ → AdmissionRequest → Result BundleError Decision
unfolding decision_of
decide_admission state snapshot now r = elim (normalize_work_bundle r.workload r.access r.bundle) [
  | err e ↦ err e
  | ok asked ↦ elim (used_bundles state.leases) [
    | err e ↦ err e
    | ok used ↦
        ok
          (decision_of (capacity_of state snapshot r) (blocking_of state snapshot now r asked used))
  ]
]
