-- ===== src/Coordinator/Operations.antt =====
-- src/shared/work-coordinator.ts, the operations: acquire, release, heartbeat, cancel and status.
use Prim.Native.String.{◌++◌ as text_append}
use dex_reach.Common.{
  ℕ, suc, String, Bool, true, false, not, ◌&&◌, Option, none, some, List, [], ◌∷◌, ◌++◌, ◌==◌,
  text_eq, find, find_index, ltb, if◌then◌else◌,
}
use dex_reach.Common.Outcome.{Result, ok, err, and_then}
use dex_reach.Labels.{Text, LabelError, codes, sanitize_label, is_digest}
use dex_reach.Capacity.{WorkloadClass, AccessClass, mutate}
use dex_reach.Capacity.Evaluate.{MachineCapacity, or_default}
use dex_reach.Bundle.{WorkBundle, BundleError, normalize_work_bundle}
use dex_reach.Coordinator.{
  Executor, instant, WorkLease, WorkQueueTicket, CoordinatorState, CapacitySnapshot,
}
use dex_reach.Coordinator.Decide.{AdmissionRequest, Decision, Blocking, decide_admission}
use dex_reach.Coordinator.Events.{
  EventInput, lease_acquired, ticket_enqueued, task_id_valid, attempt_valid,
}
use dex_reach.Coordinator.Store.{
  Host, WorkError, bad_label, bad_bundle, bad_task_id, bad_attempt, bad_proof_digest,
  repository_required, Act, ◌>>=◌, ◌>>◌, give, lift, read_state, write_lease, write_ticket,
  remove_ticket_file, record_event, plain_event, prune_expired,
}

pub record WorkRequest : Type 0 where
  pub executor : Executor
  pub access : AccessClass
  pub workload : WorkloadClass
  pub bundle : Option WorkBundle
  pub repository_root : Option String
  pub branch : Option Text
  pub phase : Option Text
  pub task_id : Option String
  pub attempt : Option ℕ
  pub ticket_id : Option String
  pub pid : Option ℕ
  pub parent_pid : Option ℕ
  pub pid_is_workload : Option Bool
  pub caller_proof_hash : Option String

-- The calling process, and the random part of a new identifier.
pub record Caller : Type 0 where
  pub pid : ℕ
  pub ppid : ℕ
  pub uuid : String

-- A request whose fields passed the checks that precede the lock.
pub record CheckedRequest : Type 0 where
  pub bundle : WorkBundle
  pub phase : Option Text
  pub branch : Option Text
  pub repository_root : Option String

abbrev label_result : Result LabelError (Option Text) → Result WorkError (Option Text)
label_result (ok t) = ok t
label_result (err e) = err (bad_label e)

abbrev pub bundle_result {ℓ} : {A : Type ℓ} → Result BundleError A → Result WorkError A
bundle_result (ok b) = ok b
bundle_result (err e) = err (bad_bundle e)

abbrev digest_valid : Option String → Bool
digest_valid none = true
digest_valid (some d) = is_digest (codes d)

abbrev is_mutate : AccessClass → Bool
is_mutate mutate = true
is_mutate _ = false

abbrev is_none {ℓ} : {A : Type ℓ} → Option A → Bool
is_none none = true
is_none (some a) = false

check_binding : WorkRequest → Result WorkError (Unit {0})
check_binding r =
    if not (task_id_valid r.task_id)
    then err bad_task_id
    else if not (attempt_valid r.attempt)
    then err bad_attempt
    else ok tt

-- The digest, and the repository that mutating work must name.
check_claims : WorkRequest → Option String → Result WorkError (Unit {0})
check_claims r root =
    if not (digest_valid r.caller_proof_hash)
    then err bad_proof_digest
    else if is_mutate r.access && is_none root
    then err repository_required
    else ok tt

-- `canonical` is `canonicalRepositoryRoot`, which asks the file system.
unfoldable pub check_request :
    (Option String → Option String) → WorkRequest → Result WorkError CheckedRequest
unfolding check_binding check_claims
check_request canonical r =
    and_then (bundle_result (normalize_work_bundle r.workload r.access r.bundle)) λ bundle.
      and_then (label_result (sanitize_label r.phase)) λ phase. and_then (check_binding r) λ _.
        and_then (label_result (sanitize_label r.branch)) λ branch.
          let root = canonical r.repository_root in
          and_then (check_claims r root) λ _.
            ok (record { bundle = bundle; phase = phase; branch = branch; repository_root = root })

abbrev positive : ℕ → Option ℕ
positive n = if ltb 0 n then some n else none

abbrev is_some {ℓ} : {A : Type ℓ} → Option A → Bool
is_some o = not (is_none o)

unfoldable pub new_lease : Host → Caller → WorkRequest → CheckedRequest → WorkLease
new_lease host caller r c = record {
  id = text_append "lease-" caller.uuid;
  task_id = r.task_id;
  attempt = r.attempt;
  pid = or_default caller.pid r.pid;
  parent_pid = positive (or_default caller.ppid r.parent_pid);
  caller_proof_hash = r.caller_proof_hash;
  pid_is_workload = or_default (is_some r.pid) r.pid_is_workload;
  executor = r.executor;
  repository_root = c.repository_root;
  branch = c.branch;
  access = r.access;
  workload = r.workload;
  bundle = some c.bundle;
  phase = c.phase;
  created_at = instant host.now;
  heartbeat_at = instant host.now;
}

unfoldable pub new_ticket : Host → Caller → WorkRequest → CheckedRequest → WorkQueueTicket
new_ticket host caller r c = record {
  id = text_append "ticket-" caller.uuid;
  task_id = r.task_id;
  attempt = r.attempt;
  pid = or_default caller.pid r.pid;
  pid_is_workload = or_default (is_some r.pid) r.pid_is_workload;
  executor = r.executor;
  repository_root = c.repository_root;
  access = r.access;
  workload = r.workload;
  bundle = some c.bundle;
  phase = c.phase;
  enqueued_at = instant host.now;
  heartbeat_at = instant host.now;
}

pub data AdmissionResult : Type 0 where
  acquired : WorkLease → MachineCapacity → AdmissionResult
  queued : WorkQueueTicket → ℕ → MachineCapacity → List Blocking → AdmissionResult

abbrev pub admission_request : WorkRequest → CheckedRequest → AdmissionRequest
admission_request r c = record {
  access = r.access;
  workload = r.workload;
  bundle = some c.bundle;
  repository_root = c.repository_root;
  ticket_id = r.ticket_id;
}

-- The fields that the events of an acquisition share.
abbrev pub request_event : EventInput → WorkRequest → EventInput
request_event e r = record e {
  task_id = r.task_id;
  attempt = r.attempt;
  executor = some r.executor;
  access = some r.access;
  workload = some r.workload;
}

abbrev pub drop_ticket : Option String → Act (Unit {0})
drop_ticket none = give tt
drop_ticket (some id) = remove_ticket_file id

abbrev pub find_ticket : Option String → List WorkQueueTicket → Option WorkQueueTicket
find_ticket none ts = none
find_ticket (some id) ts = find (λ (t : WorkQueueTicket). t.id == id) ts

-- `findIndex(...) + 1`, which is 0 where there is none.
abbrev pub position_of : String → List WorkQueueTicket → ℕ
position_of id ts = elim (find_index (λ (t : WorkQueueTicket). t.id == id) ts) [
  | none ↦ 0
  | some i ↦ suc i
]

unfoldable pub grant : Host → Caller → WorkRequest → CheckedRequest → Decision → Act AdmissionResult
grant host caller r c decision = do
  let lease = new_lease host caller r c
  write_lease lease
  drop_ticket r.ticket_id
  record_event host
      (record (request_event (plain_event lease_acquired lease.id) r) { phase = c.phase })
  give (acquired lease decision.capacity)

-- A waiter that comes back keeps its ticket, with a new heartbeat.
unfoldable pub enqueue_known :
    Host → WorkQueueTicket → CoordinatorState → Decision → Act AdmissionResult
enqueue_known host known state decision = do
  let ticket = record known { heartbeat_at = instant host.now }
  write_ticket ticket
  give (queued ticket (position_of ticket.id state.tickets) decision.capacity decision.reasons)

unfoldable pub enqueue_new :
    Host → Caller → WorkRequest → CheckedRequest → CoordinatorState → Decision → Act AdmissionResult
enqueue_new host caller r c state decision = do
  let ticket = new_ticket host caller r c
  write_ticket ticket
  record_event host (request_event (plain_event ticket_enqueued ticket.id) r)
  give (
      queued ticket (position_of ticket.id (state.tickets ++ ticket ∷ [])) decision.capacity
        decision.reasons)

unfoldable pub enqueue :
    Host → Caller → WorkRequest → CheckedRequest → CoordinatorState → Decision → Act AdmissionResult
enqueue host caller r c state decision = elim (find_ticket r.ticket_id state.tickets) [
  | some known ↦ enqueue_known host known state decision
  | none ↦ enqueue_new host caller r c state decision
]

-- What `acquireWork` does under the lock.
unfoldable pub admit_or_queue :
    Host → Caller → CapacitySnapshot → WorkRequest → CheckedRequest → Act AdmissionResult
admit_or_queue host caller snapshot r c = do
  read ← read_state
  state ← prune_expired host read
  decision ← lift (bundle_result (decide_admission state snapshot host.now (admission_request r c)))
  if decision.admit then grant host caller r c decision else enqueue host caller r c state decision

-- `acquireWork`; the snapshot is the request's, or the one measured before the lock is taken.
unfoldable pub acquire_work :
    Host
    → Caller
    → (Option String → Option String)
    → CapacitySnapshot
    → WorkRequest
    → Act AdmissionResult
acquire_work host caller canonical snapshot r = do
  c ← lift (check_request canonical r)
  admit_or_queue host caller snapshot r c
