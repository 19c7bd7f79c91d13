-- ===== src/Coordinator/Exclusion/Shrink.antt =====
-- Operations after which no lease is read that was not read before.
use mathlib.Core.Path.{subst, subst⁻¹}
use dex_reach.Common.{
  String, ◌≡◌, refl, Bool, true, false, List, [], ◌∷◌, Memᴰ, if◌then◌else◌, arith, String,
}
use dex_reach.Common.Outcome.{Result, ok, err}
use dex_reach.Coordinator.{
  WorkLease, WorkQueueTicket, CoordinatorState, parsed_entries, lease_is_reclaimable,
  ticket_is_stale,
}
use dex_reach.Coordinator.Events.{EventInput}
use dex_reach.Coordinator.Store.{
  World, Host, WorkError, Act, ◌>>=◌, resume, give, remove_lease_file, remove_ticket_file,
  write_ticket, record_event, read_state, lift, prune_leases, prune_tickets, prune_expired,
}
use dex_reach.Coordinator.Exclusion.{IsNamed, IsExclusive, leases_of}
use dex_reach.Coordinator.Exclusion.Files.{Reads-remove, IsNamed-remove}

pub record Shrinks (v w : World) : Type 0 where
  pub names : IsNamed v.leases → IsNamed w.leases
  pub subset : (a : WorkLease) → Memᴰ a (leases_of w) → Memᴰ a (leases_of v)

pub Shrinks-refl : (w : World) → Shrinks w w
Shrinks-refl w = record { names = λ h. h; subset = λ a m. m }

pub Shrinks-trans : {u v w : World} → Shrinks u v → Shrinks v w → Shrinks u w
Shrinks-trans p q = record {
  names = λ h. q.names (p.names h);
  subset = λ a m. p.subset a (q.subset a m);
}

pub IsExclusive-Shrinks : {v w : World} → Shrinks v w → IsExclusive v → IsExclusive w
IsExclusive-Shrinks p h = record {
  well_named = p.names h.well_named;
  apart = λ a b ma mb ne. h.apart a b (p.subset a ma) (p.subset b mb) ne;
}

-- An operation that adds no lease.
pub record AddsNone {A : Type 0} (m : Act A) : Type 0 where
  pub shrinks : (w : World) → Shrinks w (m w).1

resume-Shrinks :
    {A B : Type 0} (f : A → Act B) (v : World) (r : Result WorkError A × World)
    → ((a : A) → AddsNone (f a))
    → Shrinks v r.1
    → Shrinks v (resume f r).1
resume-Shrinks f v (ok a, w) keeps p = Shrinks-trans p ((keeps a).shrinks w)
resume-Shrinks f v (err e, w) keeps p = p

pub bind-AddsNone :
    {A B : Type 0} (m : Act A) (f : A → Act B)
    → AddsNone m
    → ((a : A) → AddsNone (f a))
    → AddsNone (m >>= f)
bind-AddsNone m f p q = record { shrinks = λ w. resume-Shrinks f w (m w) q (p.shrinks w) }

pub same-Shrinks : (v w : World) → w.leases ≡ v.leases → Shrinks v w
same-Shrinks v w e = record {
  names = λ h. subst⁻¹ IsNamed e h;
  subset = λ a m. subst (λ d. Memᴰ a (parsed_entries d)) e m;
}

pub give-AddsNone : {A : Type 0} (a : A) → AddsNone (give a)
give-AddsNone a = record { shrinks = λ w. Shrinks-refl w }

pub lift-AddsNone : {A : Type 0} (r : Result WorkError A) → AddsNone (lift r)
lift-AddsNone r = record { shrinks = λ w. Shrinks-refl w }

pub read_state-AddsNone : AddsNone read_state
unfolding read_state
read_state-AddsNone = record { shrinks = λ w. Shrinks-refl w }

pub remove_lease_file-AddsNone : (id : String) → AddsNone (remove_lease_file id)
unfolding remove_lease_file
remove_lease_file-AddsNone id = record {
  shrinks = λ w. record {
    names = IsNamed-remove id w.leases;
    subset = λ a m. Reads-remove id a w.leases m;
  };
}

pub remove_ticket_file-AddsNone : (id : String) → AddsNone (remove_ticket_file id)
unfolding remove_ticket_file
remove_ticket_file-AddsNone id = record { shrinks = λ w. same-Shrinks w _ refl }

pub write_ticket-AddsNone : (t : WorkQueueTicket) → AddsNone (write_ticket t)
unfolding write_ticket
write_ticket-AddsNone t = record { shrinks = λ w. same-Shrinks w _ refl }

pub record_event-leases :
    (host : Host) (i : EventInput) (w : World) → (record_event host i w).1.leases ≡ w.leases
unfolding record_event
record_event-leases host i w = ground arith

pub record_event-AddsNone : (host : Host) (i : EventInput) → AddsNone (record_event host i)
record_event-AddsNone host i = record {
  shrinks = λ w. same-Shrinks w _ (record_event-leases host i w);
}

pub choose-AddsNone :
    {A : Type 0} (b : Bool) (m n : Act A) → AddsNone m → AddsNone n → AddsNone (if b then m else n)
choose-AddsNone true m n p q = p
choose-AddsNone false m n p q = q

pub prune_leases-AddsNone : (host : Host) (ls : List WorkLease) → AddsNone (prune_leases host ls)
unfolding prune_leases
prune_leases-AddsNone host [] = give-AddsNone []
prune_leases-AddsNone host (l ∷ ls) =
    choose-AddsNone (lease_is_reclaimable host.alive host.now l) _ _
      (bind-AddsNone _ _ (remove_lease_file-AddsNone l.id)
        λ _. bind-AddsNone _ _ (record_event-AddsNone host _) λ _. prune_leases-AddsNone host ls)
      (bind-AddsNone _ _ (prune_leases-AddsNone host ls) λ kept. give-AddsNone _)

pub prune_tickets-AddsNone :
    (host : Host) (ts : List WorkQueueTicket) → AddsNone (prune_tickets host ts)
unfolding prune_tickets
prune_tickets-AddsNone host [] = give-AddsNone []
prune_tickets-AddsNone host (t ∷ ts) =
    choose-AddsNone (ticket_is_stale host.alive host.now t) _ _
      (bind-AddsNone _ _ (remove_ticket_file-AddsNone t.id)
        λ _. bind-AddsNone _ _ (record_event-AddsNone host _) λ _. prune_tickets-AddsNone host ts)
      (bind-AddsNone _ _ (prune_tickets-AddsNone host ts) λ kept. give-AddsNone _)

pub prune_expired-AddsNone :
    (host : Host) (state : CoordinatorState) → AddsNone (prune_expired host state)
unfolding prune_expired
prune_expired-AddsNone host state =
    bind-AddsNone _ _ (prune_leases-AddsNone host state.leases) λ leases.
      bind-AddsNone _ _ (prune_tickets-AddsNone host state.tickets) λ tickets. give-AddsNone _
