-- ===== src/Tests/Coordinator.antt =====
-- src/shared/work-coordinator.ts on concrete inputs.
use native.Mathlib.Decide.{ℕ_discrete}
use dex_reach.Common.{
  ◌≢◌, String, ◌+◌, ◌*◌, ◌≤◌, ◌≡◌, ◌↔◌, ◌⊎◌, refl, map, Bool, true, false, Option, none, some, List,
  [], ◌∷◌, ◌++◌, length, take, drop, Memᴰ, arith,
}
use dex_reach.Capacity
use dex_reach.Capacity.Evaluate
use dex_reach.Bundle
use dex_reach.Labels
use dex_reach.Coordinator as Defs
use dex_reach.Coordinator.Decide
use dex_reach.Coordinator.Store
use dex_reach.Coordinator.Operations
use dex_reach.Coordinator.Claims
use dex_reach.Coordinator.Events
use dex_reach.Common.Outcome.{Result, ok, err}
use dex_reach.Labels.{codes}
use dex_reach.Capacity.{
  MemoryPressure, ThermalPressure, medium, mutate, read, gib, load_unit, is_substantive,
}
use dex_reach.Bundle.{WorkBundle, BundleError, normalize_work_bundle, legacy_work_bundle}
use dex_reach.Coordinator.{
  Executor, claude_code, codex, instant, WorkLease, WorkQueueTicket, CoordinatorState,
  CapacitySnapshot, parsed, lease_is_reclaimable, read_coordinator_state,
}
use dex_reach.Coordinator.Decide.{
  AdmissionRequest, Decision, decide_admission, used_bundles, repository_held,
}
use dex_reach.Coordinator.Admission.{IsClear, decide_admission-admit_iff}
use dex_reach.Coordinator.Events.{
  WorkEvent, EventInput, EventKind, lease_acquired, record_work_event, read_work_events,
  last_cursor,
}
use dex_reach.Coordinator.Events.Order.{
  IsOrdered, page_size, after_cursor, record_work_event-IsOrdered, read_work_events-next,
}
use dex_reach.Coordinator.Store.{World, Host, plain_event, remove}
use dex_reach.Coordinator.Operations.{
  WorkRequest, Caller, CheckedRequest, AdmissionResult, queued, position_of, enqueue,
  admit_or_queue, acquire_work,
}
use dex_reach.Coordinator.Claims.{ReleaseOptions, released, owned_by_live_process, release_work}
use dex_reach.Coordinator.Exclusion.{IsExclusive, leases_of}
use dex_reach.Coordinator.Exclusion.History.{
  Call, acquires, beats, serve, serve_all, serve_all-IsExclusive,
}
use dex_reach.Coordinator.Release.{Entitled, release_work-Entitled, release_work-refused}
use dex_reach.Coordinator.Fairness.{admit-first_in_line}
use dex_reach.Coordinator.Fairness.Place.{queue_of, enqueue-position}

abbrev lease_a : WorkLease
lease_a = record {
  id = "lease-a";
  task_id = none;
  attempt = none;
  pid = 100;
  parent_pid = none;
  caller_proof_hash = none;
  pid_is_workload = false;
  executor = codex;
  repository_root = some "/repo";
  branch = none;
  access = mutate;
  workload = medium;
  bundle = none;
  phase = none;
  created_at = instant 1000;
  heartbeat_at = instant 1000;
}

abbrev host : Host
host = record { now = 2000; alive = λ pid. true }

abbrev caller : Caller
caller = record { pid = 200; ppid = 1; uuid = "0001" }

abbrev big_host : CapacitySnapshot
big_host = record {
  sampled_at_ms = none;
  excluded_lease_ids = none;
  physical_memory_bytes = 64 * gib;
  logical_cpu_count = 16;
  load_average = some load_unit;
  memory = MemoryPressure.healthy;
  thermal = ThermalPressure.healthy;
  uncoordinated_heavy = 0;
  process_observation = none;
  profile = none;
  interactive_ready = none;
}

abbrev empty_world : World
empty_world = record { leases = []; queue = []; history = [] }

abbrev held_world : World
held_world = record empty_world { leases = ("lease-a", parsed lease_a) ∷ [] }

abbrev request : WorkRequest
request = record {
  executor = claude_code;
  access = mutate;
  workload = medium;
  bundle = none;
  repository_root = some "/repo";
  branch = none;
  phase = none;
  task_id = none;
  attempt = none;
  ticket_id = none;
  pid = none;
  parent_pid = none;
  pid_is_workload = none;
  caller_proof_hash = none;
}

abbrev as_given : Option String → Option String
as_given root = root

abbrev digest : String → String
digest text = text

empty_world-IsExclusive : IsExclusive empty_world
unfolding Defs.parsed_entries
empty_world-IsExclusive = record { well_named = tt; apart = λ a b m. elim m [ ] }

abbrev calls : List (Host × Call)
calls =
    (host, acquires caller big_host request)
    ∷ (host, acquires caller big_host request)
    ∷ (host, beats "lease-0001")
    ∷ []

serve_all-IsExclusive_example : IsExclusive (serve_all as_given digest calls empty_world)
serve_all-IsExclusive_example =
    serve_all-IsExclusive as_given digest calls empty_world empty_world-IsExclusive

abbrev admission : AdmissionRequest
admission = record {
  access = mutate;
  workload = medium;
  bundle = none;
  repository_root = some "/repo";
  ticket_id = none;
}

abbrev idle_state : CoordinatorState
idle_state = record { leases = []; tickets = []; degraded = false; degraded_reasons = [] }

abbrev held_state : CoordinatorState
held_state = record idle_state { leases = lease_a ∷ [] }

decide_admission-admit_iff_example :
    ((d : Decision) × (decide_admission idle_state big_host 2000 admission ≡ ok d)
      × (d.admit ≡ true))
    ↔ ((asked : WorkBundle) × (used : List WorkBundle) × (normalize_work_bundle medium mutate none
          ≡ ok asked)
        × (used_bundles [] ≡ ok used)
        × IsClear idle_state big_host 2000 admission asked used)
decide_admission-admit_iff_example = decide_admission-admit_iff idle_state big_host 2000 admission

-- Names what a run computes with.
runs : Bool
unfolding decide_admission Decide.decision_of Decide.blocking_of Decide.capacity_of
    Decide.used_bundles Decide.observation_blocking Decide.accounting_blocking
    Decide.degraded_blocking Decide.repository_blocking Decide.holds_repository
    Decide.exclusive_blocking Decide.queue_blocking Decide.blocked_by Decide.bundle_blocking
    Decide.capacity_blocking Decide.active_substantive Decide.active_heavy
    Evaluate.evaluate_capacity Capacity.substantive_slots_for_profile Capacity.substantive_slots_for
    Capacity.memory_substantive_slots Capacity.cpu_substantive_slots Capacity.heavy_slots_for
    Capacity.memory_heavy_slots Capacity.classify_cpu_pressure is_substantive normalize_work_bundle
    legacy_work_bundle Bundle.is_work_bundle Bundle.cpu_budget Bundle.memory_budget ℕ_discrete
    read_coordinator_state Defs.ticket_le Defs.sort_by lease_is_reclaimable Defs.ticket_is_stale
    acquire_work admit_or_queue Operations.check_request Operations.new_lease Operations.new_ticket
    Operations.grant enqueue Operations.enqueue_new Operations.enqueue_known release_work
    Claims.release_found Claims.release_refusal Claims.proof_matches Claims.beat Store.read_state
    Store.write_lease Store.write_ticket Store.remove_lease_file Store.remove_ticket_file Store.put
    remove Store.record_event Store.prune_expired Store.prune_leases Store.prune_tickets
    record_work_event Events.valid_work_event Events.safe_event_id Events.safe_event_reason
    Events.stored_work_events Labels.sanitize_label Labels.trim Labels.is_alnum Labels.is_space
    serve serve_all read_work_events
runs = true

abbrev decision_in : Result BundleError Decision → Bool
decision_in (ok d) = d.admit
decision_in (err e) = false

idle_admits : decision_in (decide_admission idle_state big_host 2000 admission) ≡ true
unfolding runs
idle_admits = refl

held_refuses : decision_in (decide_admission held_state big_host 2000 admission) ≡ false
unfolding runs
held_refuses = refl

-- The second caller is queued behind the first, which holds the repository.
two_callers :
    (map (λ (l : WorkLease). l.id) (leases_of (serve_all as_given digest calls empty_world))
      ≡ "lease-0001" ∷ [])
    × (length (serve_all as_given digest calls empty_world).queue ≡ 1)
unfolding runs
two_callers = (refl, refl)

abbrev idle_decision : Decision
idle_decision =
    Decide.decision_of (Decide.capacity_of idle_state big_host admission)
      (Decide.blocking_of idle_state big_host 2000 admission (legacy_work_bundle medium mutate) [])

admit-first_in_line_example :
    (idle_state.tickets ≡ [])
    ⊎ ((t : WorkQueueTicket) × (ts : List WorkQueueTicket) × (idle_state.tickets ≡ t ∷ ts)
        × (admission.ticket_id ≡ some t.id))
unfolding runs
admit-first_in_line_example =
    admit-first_in_line idle_state big_host 2000 admission idle_decision refl refl refl

abbrev own_process : ReleaseOptions
own_process = record { pid = 100; force = false; caller_proof = none; require_caller_proof = false }

abbrev stranger : ReleaseOptions
stranger = record own_process { pid = 101 }

release_work-Entitled_example :
    (((release_work host digest "lease-a" own_process held_world).1 ≡ held_world)
      × ((release_work host digest "lease-a" own_process held_world).0 ≢ ok released))
    ⊎ ((l : WorkLease) × Memᴰ l (leases_of held_world)
        × (l.id ≡ "lease-a")
        × Entitled digest host.alive own_process l
        × ((release_work host digest "lease-a" own_process held_world).1.leases
            ≡ remove "lease-a" held_world.leases))
release_work-Entitled_example = release_work-Entitled host digest "lease-a" own_process held_world

release_work-refused_example :
    (release_work host digest "lease-a" stranger held_world).1 ≡ held_world
unfolding runs
release_work-refused_example =
    release_work-refused host digest "lease-a" stranger held_world owned_by_live_process refl
      (λ e. cc)

abbrev checked : CheckedRequest
checked = record {
  bundle = legacy_work_bundle medium mutate;
  phase = none;
  branch = none;
  repository_root = some "/repo";
}

abbrev first_ticket : WorkQueueTicket
first_ticket = Operations.new_ticket host caller request checked

abbrev waiting : WorkQueueTicket
waiting = record first_ticket { id = "ticket-0000"; enqueued_at = instant 5 }

abbrev waiting_world : World
waiting_world = record held_world { queue = ("ticket-0000", parsed waiting) ∷ [] }

abbrev waiting_state : CoordinatorState
waiting_state = record held_state { tickets = waiting ∷ [] }

enqueue-position_example :
    (queue_of (enqueue host caller request checked waiting_state idle_decision waiting_world).1
      ≡ queue_of waiting_world ++ (first_ticket ∷ []))
    × (2
        ≡ position_of first_ticket.id (
            queue_of
              (enqueue host caller request checked waiting_state idle_decision waiting_world).1))
    × (2 ≡ length (queue_of waiting_world) + 1)
unfolding runs
enqueue-position_example =
    enqueue-position host caller request checked waiting_state idle_decision waiting_world
      {t = first_ticket} {p = 2} {m = idle_decision.capacity} {bs = idle_decision.reasons} refl
      (refl, tt) (refl, tt) (refl, tt) refl refl

abbrev first_event : WorkEvent
first_event = record {
  cursor = 1;
  at = 2000;
  event = lease_acquired;
  id = some (codes "lease-a");
  task_id = none;
  attempt = none;
  executor = none;
  access = none;
  workload = none;
  phase = none;
  reason = none;
  forced = none;
  observed_uncoordinated_heavy = none;
  dex_services = none;
}

abbrev second_event : WorkEvent
second_event = record first_event { cursor = 2 }

record_work_event-IsOrdered_example :
    IsOrdered (first_event ∷ second_event ∷ [])
    × (length (first_event ∷ second_event ∷ []) ≤ 200)
    × (second_event.cursor ≡ last_cursor (first_event ∷ []) + 1)
    × (last_cursor (first_event ∷ second_event ∷ []) ≡ second_event.cursor)
    × ((first_event ∷ second_event ∷ [] ≡ (first_event ∷ []) ++ second_event ∷ [])
        ⊎ (length (first_event ∷ []) ≡ 200))
unfolding runs
record_work_event-IsOrdered_example =
    record_work_event-IsOrdered (plain_event lease_acquired "lease-a") 2000 (first_event ∷ [])
      (first_event ∷ second_event ∷ []) second_event (omega arith) (omega arith) refl

abbrev two_events : List WorkEvent
two_events = first_event ∷ second_event ∷ []

read_work_events-next_example :
    ((read_work_events 0 1 two_events).events ≡ take (page_size 1) (after_cursor 0 two_events))
    × ((read_work_events (last_cursor (read_work_events 0 1 two_events).events) 5 two_events).events
        ≡ take (page_size 5) (drop (page_size 1) (after_cursor 0 two_events)))
unfolding runs
read_work_events-next_example = read_work_events-next 0 1 5 two_events (omega arith) (λ e. cc)
