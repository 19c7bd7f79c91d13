-- ===== src/Coordinator/Fairness.antt =====
-- First in, first out: which request `acquireWork` of src/shared/work-coordinator.ts admits.
pub mod Place
use mathlib.Core.Path.{subst}
use text.Mathlib.TextEquality.{eq_iff}
use text.Mathlib.TextPositions.{eq_refl}
use dex_reach.Common.{
  ℕ, String, ◌+◌, ◌≤◌, ◌≡◌, refl, sym, ap, ◌⊎◌, inl, inr, Bool, true, Option, none, some, List, [],
  ◌∷◌, ◌++◌, find, find-holds, find_index, length, ◌==◌, text_eq, Option-cases, Bool-cases, arith,
}
use dex_reach.Common.Outcome.{Result, ok, err}
use dex_reach.Capacity.Evaluate.{MachineCapacity}
use dex_reach.Capacity.{is_substantive}
use dex_reach.Coordinator.{WorkQueueTicket, CoordinatorState, CapacitySnapshot}
use dex_reach.Coordinator.Decide.{
  AdmissionRequest, Decision, Blocking, blocked_by, decide_admission,
}
use dex_reach.Coordinator.Admission.{decide_admission-admit_iff}
use dex_reach.Coordinator.Events.{ticket_enqueued}
use dex_reach.Coordinator.Store.{
  World, Host, WorkError, resume, give, write_ticket, record_event, plain_event, put,
}
use dex_reach.Coordinator.Operations.{
  WorkRequest, Caller, CheckedRequest, AdmissionResult, acquired, queued, request_event,
  position_of, find_ticket, new_ticket, enqueue, enqueue_known, enqueue_new,
}

abbrev has_id : String → WorkQueueTicket → Bool
has_id id t = t.id == id

-- No ticket is ahead only in an empty queue, or for the ticket at its head.
blocked_by-nil :
    (tickets : List WorkQueueTicket) (id : Option String)
    → blocked_by tickets id ≡ []
    → (tickets ≡ [])
      ⊎ ((t : WorkQueueTicket) × (ts : List WorkQueueTicket) × (tickets ≡ t ∷ ts)
          × (id ≡ some t.id))
unfolding blocked_by
blocked_by-nil tickets none h = inl h
blocked_by-nil [] (some id) h = inl refl
blocked_by-nil (t ∷ ts) (some id) h = elim (Bool-cases (has_id id t)) [
  | inl e ↦ inr (t, ts, refl, ap some (sym ((eq_iff t.id id).0 e)))
  | inr e ↦ elim (Option-cases (find_index (has_id id) ts)) [
    | inl n ↦ ground arith
    | inr (k, n) ↦ ground arith
  ]
]

-- A substantive request that is admitted finds the queue empty, or holds the ticket at its head: no
-- request that waits is overtaken.
pub admit-first_in_line :
    (state : CoordinatorState) (snapshot : CapacitySnapshot) (now : ℕ) (r : AdmissionRequest)
    (d : Decision)
    → is_substantive r.workload r.access ≡ true
    → decide_admission state snapshot now r ≡ ok d
    → d.admit ≡ true
    → (state.tickets ≡ [])
      ⊎ ((t : WorkQueueTicket) × (ts : List WorkQueueTicket) × (state.tickets ≡ t ∷ ts)
          × (r.ticket_id ≡ some t.id))
admit-first_in_line state snapshot now r d s e a =
    let (asked, used, _, _, clear) =
      (decide_admission-admit_iff state snapshot now r).0 (d, e, a) in
    blocked_by-nil state.tickets r.ticket_id (clear.first_in_line s)
