-- ===== src/Coordinator/Fairness/Place.antt =====
-- The place in the queue that `acquireWork` of src/shared/work-coordinator.ts reports, and the queue that it
-- stores.
use Prim.Native.String.{String}
use mathlib.Core.Path.{subst}
use text.Mathlib.TextPositions.{eq_refl}
use dex_reach.Common.{
  ℕ, ◌+◌, ◌≡◌, refl, sym, ◌∙◌, ap, inl, inr, Bool, true, false, none, List, [], ◌∷◌, ◌++◌, All,
  length, find_index, ◌==◌, text_eq, Bool-cases, Option-cases, arith,
}
use dex_reach.Common.Outcome.{Result, ok, err}
use dex_reach.Capacity.Evaluate.{MachineCapacity}
use dex_reach.Coordinator.{
  WorkQueueTicket, CoordinatorState, Directory, Entry, parsed, malformed, unreadable,
  parsed_entries, ticket_le, insert_sorted, sort_by, read_coordinator_state,
}
use dex_reach.Coordinator.Decide.{Decision, Blocking}
use dex_reach.Coordinator.Events.{EventInput, ticket_enqueued}
use dex_reach.Coordinator.Store.{
  World, Host, WorkError, resume, give, write_ticket, record_event, plain_event, put,
}
use dex_reach.Coordinator.Operations.{
  WorkRequest, Caller, CheckedRequest, queued, request_event, position_of, find_ticket, new_ticket,
  enqueue, enqueue_new,
}

-- The queue that the next reader of the world sees.
abbrev pub queue_of : World → List WorkQueueTicket
queue_of w = (read_coordinator_state w.leases w.queue).tickets

put-absent :
    {A : Type 0} (n : String) (a : A) (d : Directory A)
    → All (λ (e : String × Entry A). (e.0 == n) ≡ false) d
    → parsed_entries (put n a d) ≡ parsed_entries d ++ (a ∷ [])
unfolding put parsed_entries
put-absent n a [] h = refl
put-absent n a ((m, parsed b) ∷ d) h = rw (h.0) (ap (λ z. b ∷ z) (put-absent n a d h.1))
put-absent n a ((m, malformed) ∷ d) h = rw (h.0) (put-absent n a d h.1)
put-absent n a ((m, unreadable) ∷ d) h = rw (h.0) (put-absent n a d h.1)

module _ {A : Type 0} (le : A → A → Bool) where
  insert_sorted-snoc :
      (x n : A) (ys : List A)
      → le x n ≡ true
      → insert_sorted le x (ys ++ (n ∷ [])) ≡ insert_sorted le x ys ++ (n ∷ [])
  unfolding insert_sorted
  insert_sorted-snoc x n [] h = rw h refl
  insert_sorted-snoc x n (y ∷ ys) h = elim (Bool-cases (le x y)) [
    | inl e ↦ rw e refl
    | inr e ↦ rw e (ap (λ z. y ∷ z) (insert_sorted-snoc x n ys h))
  ]

  sort_by-snoc :
      (n : A) (xs : List A)
      → All (λ x. le x n ≡ true) xs
      → sort_by le (xs ++ (n ∷ [])) ≡ sort_by le xs ++ (n ∷ [])
  unfolding sort_by insert_sorted
  sort_by-snoc n [] h = refl
  sort_by-snoc n (x ∷ xs) h =
      ap (insert_sorted le x) (sort_by-snoc n xs h.1) ∙ insert_sorted-snoc x n (sort_by le xs) h.0

  All-insert_sorted :
      (P : A → Type 0) (x : A) (ys : List A) → All P (insert_sorted le x ys) → P x × All P ys
  unfolding insert_sorted
  All-insert_sorted P x [] h = h
  All-insert_sorted P x (y ∷ ys) h = elim (Bool-cases (le x y)) [
    | inl e ↦ rw e at h
    | inr e ↦ let k = rw e at h in let (p, q) = All-insert_sorted P x ys k.1 in (p, (k.0, q))
  ]

  All-sort_by : (P : A → Type 0) (xs : List A) → All P (sort_by le xs) → All P xs
  unfolding sort_by
  All-sort_by P [] h = h
  All-sort_by P (x ∷ xs) h =
      let (p, q) = All-insert_sorted P x (sort_by le xs) h in (p, All-sort_by P xs q)

position_of-snoc :
    (t : WorkQueueTicket) (ts : List WorkQueueTicket)
    → All (λ (x : WorkQueueTicket). (x.id == t.id) ≡ false) ts
    → position_of t.id (ts ++ (t ∷ [])) ≡ length ts + 1
position_of-snoc t [] h = rw (eq_refl t.id, position_of) refl
position_of-snoc t (x ∷ ts) h =
    let below = position_of-snoc t ts h.1 in
    let e = h.0 in
    elim (Option-cases (find_index (λ (y : WorkQueueTicket). y.id == t.id) (ts ++ (t ∷ [])))) [
      | inl f ↦ let k = rw (f, position_of) at below in ground arith
      | inr (i, f) ↦ let k = rw (f, position_of) at below in rw (position_of, e, f) (ground arith)
    ]

record_event-queue :
    (host : Host) (i : EventInput) (w : World) → (record_event host i w).1.queue ≡ w.queue
unfolding record_event
record_event-queue host i w = ground arith

resume-world :
    {A B : Type 0} (b : B) (r : Result WorkError A × World) → (resume (λ _. give b) r).1 ≡ r.1
resume-world b (ok a, w) = refl
resume-world b (err e, w) = refl

resume-value :
    {A B : Type 0} (b : B) (r : Result WorkError A × World) {x : B}
    → (resume (λ _. give b) r).0 ≡ ok x
    → x ≡ b
resume-value b (ok a, w) h = ground arith
resume-value b (err e, w) h = cc

same_answer :
    {t u : WorkQueueTicket} {p q : ℕ} {m n : MachineCapacity} {bs cs : List Blocking}
    → queued t p m bs ≡ queued u q n cs
    → (t ≡ u) × (p ≡ q)
same_answer h = (ground arith, ground arith)

module _ (host : Host) (caller : Caller) (r : WorkRequest) (c : CheckedRequest)
    (state : CoordinatorState) (d : Decision) (w : World) where
  abbrev ticket : WorkQueueTicket
  ticket = new_ticket host caller r c

  abbrev written : World
  written = record w { queue = put ticket.id ticket w.queue }

  enqueue-new :
      find_ticket r.ticket_id state.tickets ≡ none
      → enqueue host caller r c state d w
        ≡ resume
            (λ _. give (
              queued ticket
                (position_of ticket.id (state.tickets ++ (ticket ∷ [])))
                d.capacity
                d.reasons))
            (record_event host (request_event (plain_event ticket_enqueued ticket.id) r) written)
  unfolding enqueue enqueue_new write_ticket
  enqueue-new n = rw (enqueue, n) refl

  stored_queue :
      state.tickets ≡ queue_of w
      → All (λ (e : String × Entry WorkQueueTicket). (e.0 == ticket.id) ≡ false) w.queue
      → All (λ (x : WorkQueueTicket). ticket_le x ticket ≡ true) state.tickets
      → find_ticket r.ticket_id state.tickets ≡ none
      → queue_of (enqueue host caller r c state d w).1 ≡ state.tickets ++ (ticket ∷ [])
  unfolding read_coordinator_state
  stored_queue same fresh last n =
      let tickets = parsed_entries w.queue in
      let after : (enqueue host caller r c state d w).1.queue ≡ put ticket.id ticket w.queue =
        ap (λ z. z.1.queue) (enqueue-new n)
        ∙ ap (λ (v : World). v.queue)
            (resume-world _
              (record_event host (request_event (plain_event ticket_enqueued ticket.id) r) written))
        ∙ record_event-queue host _ written in
      let each =
        All-sort_by ticket_le (λ x. ticket_le x ticket ≡ true) tickets
          (subst (All (λ (x : WorkQueueTicket). ticket_le x ticket ≡ true)) same last) in
      ap (λ q. sort_by ticket_le (parsed_entries q)) after
      ∙ ap (sort_by ticket_le) (put-absent ticket.id ticket w.queue fresh)
      ∙ sort_by-snoc ticket_le ticket tickets each
      ∙ ap (λ ts. ts ++ (ticket ∷ [])) (sym same)

-- A request that has no ticket in the queue and is queued gets the last place of the stored queue: what the
-- next reader finds is the queue before with the new ticket behind it, and the number that is reported is
-- that ticket's place there, one more than the tickets that waited. The state is the one that the
-- directory reads as, the new identifier is no file's and no ticket's, and the ticket sorts after those
-- that wait (their times are earlier, or equal with smaller identifiers).
pub enqueue-position :
    (host : Host) (caller : Caller) (r : WorkRequest) (c : CheckedRequest)
    (state : CoordinatorState) (d : Decision) (w : World) {t : WorkQueueTicket} {p : ℕ}
    {m : MachineCapacity} {bs : List Blocking}
    → state.tickets ≡ queue_of w
    → All
        (λ (e : String × Entry WorkQueueTicket). (e.0 == (new_ticket host caller r c).id) ≡ false)
        w.queue
    → All (λ (x : WorkQueueTicket). (x.id == (new_ticket host caller r c).id) ≡ false) state.tickets
    → All (λ (x : WorkQueueTicket). ticket_le x (new_ticket host caller r c) ≡ true) state.tickets
    → find_ticket r.ticket_id state.tickets ≡ none
    → (enqueue host caller r c state d w).0 ≡ ok (queued t p m bs)
    → (queue_of (enqueue host caller r c state d w).1 ≡ queue_of w ++ (t ∷ []))
      × (p ≡ position_of t.id (queue_of (enqueue host caller r c state d w).1))
      × (p ≡ length (queue_of w) + 1)
enqueue-position host caller r c state d w {t} {p} {m} {bs} same fresh apart last n h =
    let new = new_ticket host caller r c in
    let answer =
      resume-value
        (queued new (position_of new.id (state.tickets ++ (new ∷ []))) d.capacity d.reasons) _
        (ap (λ z. z.0) (sym (enqueue-new host caller r c state d w n)) ∙ h) in
    let (own, place) = same_answer answer in
    let stored = stored_queue host caller r c state d w same fresh last n in
    let counted = position_of-snoc new state.tickets apart in
    let behind = stored ∙ ap (λ (z : WorkQueueTicket). state.tickets ++ (z ∷ [])) (sym own) in
    let reads =
      place
      ∙ ap (λ (z : WorkQueueTicket). position_of z.id (state.tickets ++ (new ∷ []))) (sym own)
      ∙ ap (position_of t.id) (sym stored) in
    (
      behind ∙ ap (λ ts. ts ++ (t ∷ [])) same,
      reads,
      place ∙ counted ∙ ap (λ (ts : List WorkQueueTicket). length ts + 1) same,
    )
