-- ===== src/Coordinator/Store.antt =====
-- The coordinator's directories and history, and the operations on them, as src/shared/work-coordinator.ts
-- makes them: writing and removing a file, recording an event, dropping expired claims.
--
-- An operation takes the world and gives a result and the world that it leaves, also when it throws.
-- All of it runs under the coordinator lock, so operations do not interleave.
use dex_reach.Common.{
  ℕ, String, Bool, Option, none, some, List, [], ◌∷◌, ◌==◌, text_eq, if◌then◌else◌,
}
use dex_reach.Common.Outcome.{Result, ok, err}
use dex_reach.Labels.{LabelError, codes}
use dex_reach.Bundle.{BundleError}
use dex_reach.Coordinator.{
  WorkLease, WorkQueueTicket, CoordinatorState, parsed, Directory, lease_is_reclaimable,
  ticket_is_stale, read_coordinator_state,
}
use dex_reach.Coordinator.Events.{
  WorkEvent, EventInput, EventKind, lease_reclaimed, ticket_expired, record_work_event,
}

pub record World : Type 0 where
  pub leases : Directory WorkLease
  pub queue : Directory WorkQueueTicket
  pub history : List WorkEvent

-- What an operation takes from the host: the clock and the process table.
pub record Host : Type 0 where
  pub now : ℕ
  pub alive : ℕ → Bool

pub data WorkError : Type 0 where
  bad_label : LabelError → WorkError
  bad_bundle : BundleError → WorkError
  bad_task_id bad_attempt bad_proof_digest repository_required event_rejected : WorkError

abbrev pub Act : Type 0 → Type 0
Act A = World → Result WorkError A × World

abbrev pub resume :
    {A B : Type 0} → (A → Act B) → Result WorkError A × World → Result WorkError B × World
resume f (ok a, w) = f a w
resume f (err e, w) = (err e, w)

infixl 5 ◌>>=◌ ◌>>◌
abbrev pub ◌>>=◌ : {A B : Type 0} → Act A → (A → Act B) → Act B
◌>>=◌ m f w = resume f (m w)

abbrev pub ◌>>◌ : {B : Type 0} → Act (Unit {0}) → Act B → Act B
m >> k = m >>= λ _. k

abbrev pub give : {A : Type 0} → A → Act A
give a w = (ok a, w)

abbrev pub throw : {A : Type 0} → WorkError → Act A
throw e w = (err e, w)

abbrev pub lift : {A : Type 0} → Result WorkError A → Act A
lift r w = (r, w)

-- Writing a file replaces it, or adds it.
unfoldable pub put : {A : Type 0} → String → A → Directory A → Directory A
put n a [] = (n, parsed a) ∷ []
put n a ((m, e) ∷ d) = if m == n then (n, parsed a) ∷ d else (m, e) ∷ put n a d

-- `fs.rm` with `force`
unfoldable pub remove : {A : Type 0} → String → Directory A → Directory A
remove n [] = []
remove n ((m, e) ∷ d) = if m == n then remove n d else (m, e) ∷ remove n d

unfoldable pub read_state : Act CoordinatorState
read_state w = (ok (read_coordinator_state w.leases w.queue), w)

unfoldable pub write_lease : WorkLease → Act (Unit {0})
write_lease lease w = (ok tt, record w { leases = put lease.id lease w.leases })

unfoldable pub write_ticket : WorkQueueTicket → Act (Unit {0})
write_ticket ticket w = (ok tt, record w { queue = put ticket.id ticket w.queue })

unfoldable pub remove_lease_file : String → Act (Unit {0})
remove_lease_file id w = (ok tt, record w { leases = remove id w.leases })

unfoldable pub remove_ticket_file : String → Act (Unit {0})
remove_ticket_file id w = (ok tt, record w { queue = remove id w.queue })

record_outcome : World → Option (List WorkEvent × WorkEvent) → Result WorkError (Unit {0}) × World
record_outcome w none = (err event_rejected, w)
record_outcome w (some (history, e)) = (ok tt, record w { history = history })

unfoldable pub record_event : Host → EventInput → Act (Unit {0})
unfolding record_outcome
record_event host input w = record_outcome w (record_work_event input host.now w.history)

abbrev pub plain_event : EventKind → String → EventInput
plain_event kind id = record {
  event = kind;
  id = some id;
  task_id = none;
  attempt = none;
  executor = none;
  access = none;
  workload = none;
  phase = none;
  reason = none;
  forced = none;
  observed_uncoordinated_heavy = none;
  dex_services = none;
}

pub reclaim_event : WorkLease → EventInput
reclaim_event lease = record (plain_event lease_reclaimed lease.id) {
  task_id = lease.task_id;
  attempt = lease.attempt;
  executor = some lease.executor;
  reason = some (codes "heartbeat expired and process absent");
}

pub expire_event : WorkQueueTicket → EventInput
expire_event ticket = record (plain_event ticket_expired ticket.id) {
  task_id = ticket.task_id;
  attempt = ticket.attempt;
  executor = some ticket.executor;
  phase = ticket.phase;
}

unfoldable pub prune_leases : Host → List WorkLease → Act (List WorkLease)
unfolding reclaim_event
prune_leases host [] = give []
prune_leases host (l ∷ ls) =
    let rest = prune_leases host ls in
    if lease_is_reclaimable host.alive host.now l
    then (do remove_lease_file l.id; record_event host (reclaim_event l); rest)
    else (do kept ← rest; give (l ∷ kept))

unfoldable pub prune_tickets : Host → List WorkQueueTicket → Act (List WorkQueueTicket)
unfolding expire_event
prune_tickets host [] = give []
prune_tickets host (t ∷ ts) =
    let rest = prune_tickets host ts in
    if ticket_is_stale host.alive host.now t
    then (do remove_ticket_file t.id; record_event host (expire_event t); rest)
    else (do kept ← rest; give (t ∷ kept))

unfoldable pub prune_expired : Host → CoordinatorState → Act CoordinatorState
prune_expired host state = do
  leases ← prune_leases host state.leases
  tickets ← prune_tickets host state.tickets
  give (record state { leases = leases; tickets = tickets })
