-- ===== src/Coordinator/Exclusion/Reach.antt =====
-- Mutual exclusion holds after every operation of src/shared/work-coordinator.ts, in any order.
use mathlib.Core.Path.{subst}
use dex_reach.Common.{
  String, ◌≡◌, refl, ap, Bool, true, false, Option, none, some, Memᴰ, text_eq, arith, inl, inr,
  if◌then◌else◌, Option-cases,
}
use dex_reach.Common.Outcome.{Result, ok, err}
use dex_reach.Bundle.{BundleError}
use dex_reach.Coordinator.{WorkLease, CoordinatorState, CapacitySnapshot, read_coordinator_state}
use dex_reach.Coordinator.Decide.{Decision, decide_admission}
use dex_reach.Coordinator.Admission.{decide_admission-admit_iff}
use dex_reach.Coordinator.Store.{
  World, Host, Act, WorkError, resume, read_state, write_lease, prune_expired,
}
use dex_reach.Coordinator.Operations.{
  WorkRequest, Caller, CheckedRequest, admission_request, bundle_result, check_request, new_lease,
  drop_ticket, grant, enqueue, enqueue_known, enqueue_new, find_ticket, admit_or_queue,
  acquire_work,
}
use dex_reach.Coordinator.Exclusion.{IsExclusive, leases_of}
use dex_reach.Coordinator.Exclusion.Shrink.{
  Shrinks, AddsNone, IsExclusive-Shrinks, bind-AddsNone, give-AddsNone, remove_ticket_file-AddsNone,
  write_ticket-AddsNone, record_event-AddsNone, prune_expired-AddsNone,
}
use dex_reach.Coordinator.Exclusion.Grant.{IsExclusive-write, clear-apart}
use dex_reach.Coordinator.Exclusion.Prune.{prune_expired-kept}

drop_ticket-AddsNone : (id : Option String) → AddsNone (drop_ticket id)
drop_ticket-AddsNone none = give-AddsNone tt
drop_ticket-AddsNone (some id) = remove_ticket_file-AddsNone id

-- What follows the write of a granted lease adds no lease.
grant-IsExclusive :
    (host : Host) (caller : Caller) (r : WorkRequest) (c : CheckedRequest) (d : Decision)
    (w : World)
    → IsExclusive (write_lease (new_lease host caller r c) w).1
    → IsExclusive (grant host caller r c d w).1
unfolding grant write_lease
grant-IsExclusive host caller r c d w h =
    IsExclusive-Shrinks
      ((bind-AddsNone _ _ (drop_ticket-AddsNone r.ticket_id)
          λ _. bind-AddsNone _ _ (record_event-AddsNone host _) λ _. give-AddsNone _).shrinks
        _)
      h

enqueue-AddsNone :
    (host : Host) (caller : Caller) (r : WorkRequest) (c : CheckedRequest) (s : CoordinatorState)
    (d : Decision)
    → AddsNone (enqueue host caller r c s d)
unfolding enqueue enqueue_known enqueue_new
enqueue-AddsNone host caller r c s d = elim (Option-cases (find_ticket r.ticket_id s.tickets)) [
  | inl e ↦
      rw (e, enqueue)
        (bind-AddsNone _ _ (write_ticket-AddsNone _)
          λ _. bind-AddsNone _ _ (record_event-AddsNone host _) λ _. give-AddsNone _)
  | inr (t, e) ↦ rw (e, enqueue) (bind-AddsNone _ _ (write_ticket-AddsNone _) λ _. give-AddsNone _)
]

-- The lease that a decision admits keeps the leases apart.
admitted-IsExclusive :
    (host : Host) (caller : Caller) (snapshot : CapacitySnapshot) (r : WorkRequest)
    (c : CheckedRequest) (state : CoordinatorState) (d : Decision) (w : World)
    → decide_admission state snapshot host.now (admission_request r c) ≡ ok d
    → d.admit ≡ true
    → ((a : WorkLease) → Memᴰ a (leases_of w) → Memᴰ a state.leases)
    → IsExclusive w
    → IsExclusive (grant host caller r c d w).1
unfolding new_lease
admitted-IsExclusive host caller snapshot r c state d w e a seen h =
    let (asked, used, _, _, clear) =
      (decide_admission-admit_iff state snapshot host.now (admission_request r c)).0 (d, e, a) in
    grant-IsExclusive host caller r c d w (
      IsExclusive-write (new_lease host caller r c) w h λ b m _.
        clear-apart state snapshot host.now (admission_request r c) asked used
          (new_lease host caller r c) b clear refl refl refl (seen b m))

-- What holds after a step and its continuation, by the outcome of the step.
resume-cases :
    {A B : Type 0} (P : World → Type 0) (f : A → Act B) (r : Result WorkError A × World)
    → ((a : A) (v : World) → r ≡ (ok a, v) → P (f a v).1)
    → ((e : WorkError) (v : World) → r ≡ (err e, v) → P v)
    → P (resume f r).1
resume-cases P f (ok a, v) h k = h a v refl
resume-cases P f (err e, v) h k = k e v refl

bundle_result-ok :
    {A : Type 0} (r : Result BundleError A) {d : A} → bundle_result r ≡ ok d → r ≡ ok d
bundle_result-ok (ok a) h = ground arith
bundle_result-ok (err e) h = cc

choose-IsExclusive :
    {A : Type 0} (b : Bool) (m n : Act A) (w : World)
    → (b ≡ true → IsExclusive (m w).1)
    → (b ≡ false → IsExclusive (n w).1)
    → IsExclusive ((if b then m else n) w).1
choose-IsExclusive true m n w h k = h refl
choose-IsExclusive false m n w h k = k refl

decided-IsExclusive :
    (host : Host) (caller : Caller) (snapshot : CapacitySnapshot) (r : WorkRequest)
    (c : CheckedRequest) (state : CoordinatorState) (d : Decision) (w : World)
    → decide_admission state snapshot host.now (admission_request r c) ≡ ok d
    → ((a : WorkLease) → Memᴰ a (leases_of w) → Memᴰ a state.leases)
    → IsExclusive w
    → IsExclusive
        ((if d.admit then grant host caller r c d else enqueue host caller r c state d) w).1
decided-IsExclusive host caller snapshot r c state d w e seen h =
    choose-IsExclusive d.admit _ _ w
      (λ a. admitted-IsExclusive host caller snapshot r c state d w e a seen h)
      (λ _. IsExclusive-Shrinks ((enqueue-AddsNone host caller r c state d).shrinks w) h)

pub admit_or_queue-IsExclusive :
    (host : Host) (caller : Caller) (snapshot : CapacitySnapshot) (r : WorkRequest)
    (c : CheckedRequest) (w : World)
    → IsExclusive w
    → IsExclusive (admit_or_queue host caller snapshot r c w).1
unfolding admit_or_queue read_state
admit_or_queue-IsExclusive host caller snapshot r c w h =
    let start = read_coordinator_state w.leases w.queue in
    resume-cases IsExclusive _ (prune_expired host start w)
      (λ state v e.
        let pruned =
          IsExclusive-Shrinks
            (subst (λ z. Shrinks w z.1) e ((prune_expired-AddsNone host start).shrinks w)) h in
        resume-cases IsExclusive _
          (bundle_result (decide_admission state snapshot host.now (admission_request r c)), v)
          (λ d u q.
            subst
              (λ z.
                IsExclusive
                  ((if d.admit then grant host caller r c d else enqueue host caller r c state d)
                    z).1)
              (ap (λ z. z.1) q)
              (decided-IsExclusive host caller snapshot r c state d v
                (bundle_result-ok (decide_admission state snapshot host.now (admission_request r c))
                  (ap (λ z. z.0) q))
                (λ a m. prune_expired-kept host w a e h.well_named m) pruned))
          (λ x u q. subst IsExclusive (ap (λ z. z.1) q) pruned))
      (λ x v e.
        IsExclusive-Shrinks
          (subst (λ z. Shrinks w z.1) e ((prune_expired-AddsNone host start).shrinks w)) h)

pub acquire_work-IsExclusive :
    (host : Host) (caller : Caller) (canonical : Option String → Option String)
    (snapshot : CapacitySnapshot) (r : WorkRequest) (w : World)
    → IsExclusive w
    → IsExclusive (acquire_work host caller canonical snapshot r w).1
unfolding acquire_work
acquire_work-IsExclusive host caller canonical snapshot r w h =
    resume-cases IsExclusive _ (check_request canonical r, w)
      (λ c v e.
        admit_or_queue-IsExclusive host caller snapshot r c v
          (subst IsExclusive (ap (λ z. z.1) e) h))
      (λ x v e. subst IsExclusive (ap (λ z. z.1) e) h)
