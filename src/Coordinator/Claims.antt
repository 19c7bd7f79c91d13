-- ===== src/Coordinator/Claims.antt =====
-- src/shared/work-coordinator.ts, the operations on claims that exist: release, heartbeat, cancel, and
-- the status report.
use dex_reach.Common.{
  ℕ, String, Bool, true, false, not, ◌&&◌, ◌||◌, Option, none, some, List, ◌==◌, nat_eq, text_eq,
  find, if◌then◌else◌,
}
use dex_reach.Common.Outcome.{ok}
use dex_reach.Labels.{Text, codes, is_digest}
use dex_reach.Capacity.{WorkloadClass, AccessClass, mutate, medium}
use dex_reach.Capacity.Evaluate.{MachineCapacity}
use dex_reach.Coordinator.{
  Executor, instant, WorkLease, WorkQueueTicket, CapacitySnapshot, Degradation,
}
use dex_reach.Coordinator.Decide.{AdmissionRequest, named, decide_admission}
use dex_reach.Coordinator.Events.{
  EventKind, EventInput, WorkEventWindow, lease_released, heartbeat, phase_progress,
  ticket_cancelled, read_work_events, history_limit,
}
use dex_reach.Coordinator.Store.{
  Host, Act, ◌>>=◌, ◌>>◌, give, lift, read_state, write_lease, write_ticket, remove_lease_file,
  remove_ticket_file, record_event, plain_event, prune_expired,
}
use dex_reach.Coordinator.Operations.{bundle_result}

pub record ReleaseOptions : Type 0 where
  pub pid : ℕ
  pub force : Bool
  pub caller_proof : Option String
  pub require_caller_proof : Bool

pub data ReleaseResult : Type 0 where
  released no_such_lease proof_required owned_by_live_process : ReleaseResult

-- Whether the proof that is shown is the one whose digest the lease holds. `sha256` is the host's.
unfoldable pub proof_matches : (String → String) → Option String → Option String → Bool
proof_matches sha256 none held = false
proof_matches sha256 (some proof) none = false
proof_matches sha256 (some proof) (some hash) = is_digest (codes proof) && sha256 proof == hash

-- The two tests that a release passes; `none` lets it through.
unfoldable pub release_refusal :
    (String → String) → (ℕ → Bool) → ReleaseOptions → WorkLease → Option ReleaseResult
release_refusal sha256 alive o lease =
    if not o.force
      && (alive lease.pid
          && ((named lease.caller_proof_hash || o.require_caller_proof)
              && not (proof_matches sha256 o.caller_proof lease.caller_proof_hash)))
    then some proof_required
    else if not o.force && (not (lease.pid == o.pid) && alive lease.pid)
    then some owned_by_live_process
    else none

pub release_event : ReleaseOptions → WorkLease → String → EventInput
release_event o lease id = record (plain_event lease_released id) {
  task_id = lease.task_id;
  attempt = lease.attempt;
  executor = some lease.executor;
  phase = lease.phase;
  forced = some o.force;
}

unfoldable pub release_found :
    Host → (String → String) → ReleaseOptions → String → Option WorkLease → Act ReleaseResult
unfolding release_event
release_found host sha256 o id none = give no_such_lease
release_found host sha256 o id (some lease) = elim (release_refusal sha256 host.alive o lease) [
  | some refusal ↦ give refusal
  | none ↦ do remove_lease_file id; record_event host (release_event o lease id); give released
]

unfoldable pub release_work : Host → (String → String) → String → ReleaseOptions → Act ReleaseResult
unfolding release_found
release_work host sha256 id o = do
  state ← read_state
  release_found host sha256 o id (find (λ (l : WorkLease). l.id == id) state.leases)

abbrev beat_kind : Option Text → EventKind
beat_kind none = heartbeat
beat_kind (some t) = phase_progress

beat_event :
    String
    → Option String
    → Option ℕ
    → Executor
    → AccessClass
    → WorkloadClass
    → Option Text
    → EventInput
beat_event id task attempt executor access workload phase =
    record (plain_event (beat_kind phase) id) {
      task_id = task;
      attempt = attempt;
      executor = some executor;
      access = some access;
      workload = some workload;
      phase = phase;
    }

unfoldable pub beat_lease : Host → WorkLease → Act Bool
unfolding beat_event
beat_lease host l = do
  write_lease (record l { heartbeat_at = instant host.now })
  record_event host (beat_event l.id l.task_id l.attempt l.executor l.access l.workload l.phase)
  give true

unfoldable pub beat_ticket : Host → WorkQueueTicket → Act Bool
unfolding beat_event
beat_ticket host t = do
  write_ticket (record t { heartbeat_at = instant host.now })
  record_event host (beat_event t.id t.task_id t.attempt t.executor t.access t.workload t.phase)
  give true

-- The lease of that identifier, or else the ticket.
unfoldable pub beat_found : Host → Option WorkLease → Option WorkQueueTicket → Act Bool
unfolding beat_lease beat_ticket
beat_found host (some l) ticket = beat_lease host l
beat_found host none (some t) = beat_ticket host t
beat_found host none none = give false

unfoldable pub beat : Host → String → Act Bool
unfolding beat_found
beat host id = do
  state ← read_state
  beat_found host (find (λ (l : WorkLease). l.id == id) state.leases)
      (find (λ (t : WorkQueueTicket). t.id == id) state.tickets)

cancel_event : WorkQueueTicket → String → EventInput
cancel_event ticket id = record (plain_event ticket_cancelled id) {
  task_id = ticket.task_id;
  attempt = ticket.attempt;
  executor = some ticket.executor;
  phase = ticket.phase;
}

unfoldable pub cancel_found : Host → String → Option WorkQueueTicket → Act Bool
unfolding cancel_event
cancel_found host id none = give false
cancel_found host id (some ticket) = do
  remove_ticket_file id
  record_event host (cancel_event ticket id)
  give true

unfoldable pub cancel_ticket : Host → String → Act Bool
unfolding cancel_found
cancel_ticket host id = do
  state ← read_state
  cancel_found host id (find (λ (t : WorkQueueTicket). t.id == id) state.tickets)

pub record WorkStatus : Type 0 where
  pub capacity : MachineCapacity
  pub leases : List WorkLease
  pub tickets : List WorkQueueTicket
  pub degraded : Bool
  pub degraded_reasons : List Degradation
  pub event_window : WorkEventWindow

abbrev pub status_request : AdmissionRequest
status_request = record {
  access = mutate;
  workload = medium;
  bundle = none;
  repository_root = none;
  ticket_id = none;
}

unfoldable pub read_window : Act WorkEventWindow
read_window w = (ok (read_work_events 0 history_limit w.history), w)

unfoldable pub work_status : Host → CapacitySnapshot → Act WorkStatus
work_status host snapshot = do
  read ← read_state
  state ← prune_expired host read
  decision ← lift (bundle_result (decide_admission state snapshot host.now status_request))
  window ← read_window
  give (record {
    capacity = decision.capacity;
    leases = state.leases;
    tickets = state.tickets;
    degraded = state.degraded;
    degraded_reasons = state.degraded_reasons;
    event_window = window;
  })
