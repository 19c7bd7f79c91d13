-- ===== src/Coordinator/Exclusion/Prune.antt =====
-- After the expired claims are dropped, every lease that is still read is one that the admission saw.
use mathlib.Core.Path.{subst, subst⁻¹}
use dex_reach.Common.{
  ◌≡◌, sym, ap, ◌∙◌, true, false, List, [], ◌∷◌, Memᴰ, Bool-cases, arith, inl, inr,
}
use dex_reach.Common.Outcome.{Result, ok}
use dex_reach.Coordinator.{
  WorkLease, WorkQueueTicket, CoordinatorState, parsed_entries, lease_is_reclaimable,
  read_coordinator_state,
}
use dex_reach.Coordinator.Store.{
  World, Host, Act, WorkError, ◌>>=◌, give, remove_lease_file, record_event, prune_leases,
  prune_tickets, prune_expired, remove, reclaim_event,
}
use dex_reach.Coordinator.Exclusion.{IsNamed, leases_of}
use dex_reach.Coordinator.Exclusion.Files.{mem-cons-cases, remove-ne, IsNamed-remove}
use dex_reach.Coordinator.Exclusion.Shrink.{
  Shrinks, AddsNone, record_event-leases, prune_leases-AddsNone, prune_tickets-AddsNone,
}
use dex_reach.Coordinator.Exclusion.Grant.{resume-ok}

-- The world that a successful operation leaves.
world_after :
    {A : Type 0} (m : Act A) (v : World) {a : A} {w : World}
    → AddsNone m
    → m v ≡ (ok a, w)
    → Shrinks v w
world_after m v p e = subst (λ r. Shrinks v r.1) e (p.shrinks v)

-- One expired lease is dropped: it is not read any more.
drop_step :
    (host : Host) (l : WorkLease) (ls : List WorkLease) (v : World) {kept : List WorkLease}
    {w : World}
    → lease_is_reclaimable host.alive host.now l ≡ true
    → prune_leases host (l ∷ ls) v ≡ (ok kept, w)
    → (u : World) × (prune_leases host ls u ≡ (ok kept, w)) × (u.leases ≡ remove l.id v.leases)
unfolding prune_leases remove_lease_file
drop_step host l ls v gone h =
    let next = record v { leases = remove l.id v.leases } in
    let (_, u, e, rest) =
      resume-ok (λ _. prune_leases host ls) (record_event host (reclaim_event l) next)
        (rw gone at h) in
    (u, rest, sym (ap (λ r. r.1.leases) e) ∙ record_event-leases host (reclaim_event l) next)

keep_step :
    (host : Host) (l : WorkLease) (ls : List WorkLease) (v : World) {kept : List WorkLease}
    {w : World}
    → lease_is_reclaimable host.alive host.now l ≡ false
    → prune_leases host (l ∷ ls) v ≡ (ok kept, w)
    → (rest : List WorkLease) × (prune_leases host ls v ≡ (ok rest, w)) × (kept ≡ l ∷ rest)
unfolding prune_leases
keep_step host l ls v stays h =
    let (rest, u, e, same) =
      resume-ok (λ tail. give (l ∷ tail)) (prune_leases host ls v) (rw stays at h) in
    (rest, e ∙ ground arith, ground arith)

-- A lease that is read afterwards was kept, if the pass looked at it.
prune_leases-kept :
    (host : Host) (ls : List WorkLease) (v : World) {kept : List WorkLease} {w : World}
    (a : WorkLease)
    → prune_leases host ls v ≡ (ok kept, w)
    → IsNamed v.leases
    → Memᴰ a (leases_of w)
    → Memᴰ a ls
    → Memᴰ a kept
prune_leases-kept host [] v a h g read m = elim m [ ]
prune_leases-kept host (l ∷ ls) v {w = w} a h g read m =
    elim (Bool-cases (lease_is_reclaimable host.alive host.now l)) [
      | inl gone ↦
          let (u, rest, e) = drop_step host l ls v gone h in
          let later = world_after (prune_leases host ls) u (prune_leases-AddsNone host ls) rest in
          let here = later.subset a read in
          elim (mem-cons-cases m) [
            | inl same ↦ absurd (
                remove-ne l.id a v.leases g (subst (λ d. Memᴰ a (parsed_entries d)) e here)
                  (ap (λ x. x.id) same))
            | inr r ↦
                prune_leases-kept host ls u a rest
                  (subst⁻¹ IsNamed e (IsNamed-remove l.id v.leases g)) read r
          ]
      | inr stays ↦
          let (rest, e, same) = keep_step host l ls v stays h in
          subst⁻¹ (Memᴰ a) same (elim (mem-cons-cases m) [
            | inl p ↦ Memᴰ.head p
            | inr r ↦ Memᴰ.tail (prune_leases-kept host ls v a e g read r)
          ])
    ]

-- The leases of a state that is returned.
kept_eq :
    {s t : CoordinatorState}
    → ◌≡◌ {A = Result WorkError CoordinatorState} (ok s) (ok t)
    → s.leases ≡ t.leases
kept_eq h = ground arith

-- After `pruneExpired` of the state just read, the leases that the directory holds are all in the
-- state that it returns.
pub prune_expired-kept :
    (host : Host) (v : World) {state : CoordinatorState} {w : World} (a : WorkLease)
    → prune_expired host (read_coordinator_state v.leases v.queue) v ≡ (ok state, w)
    → IsNamed v.leases
    → Memᴰ a (leases_of w)
    → Memᴰ a state.leases
unfolding prune_expired read_coordinator_state
prune_expired-kept host v {state} {w} a h g read =
    let start = read_coordinator_state v.leases v.queue in
    let finish = λ (ls : List WorkLease) (ts : List WorkQueueTicket).
      give (record start { leases = ls; tickets = ts }) in
    let second = λ (ls : List WorkLease). (prune_tickets host start.tickets >>= finish ls) in
    let (kept, u, first, rest) = resume-ok second (prune_leases host start.leases v) h in
    let (ts, x, tickets, last) =
      resume-ok (finish kept) (prune_tickets host start.tickets u) rest in
    let later =
      world_after (prune_tickets host start.tickets) u (prune_tickets-AddsNone host start.tickets)
        tickets in
    let same_world : x ≡ w = ap (λ r. r.1) last in
    let same_state : ok (record start { leases = kept; tickets = ts }) ≡ ok state =
      ap (λ r. r.0) last in
    let in_u = later.subset a (subst⁻¹ (λ z. Memᴰ a (leases_of z)) same_world read) in
    let in_v =
      (world_after (prune_leases host start.leases) v (prune_leases-AddsNone host start.leases)
          first).subset
        a in_u in
    subst (Memᴰ a) (kept_eq same_state) (prune_leases-kept host start.leases v a first g in_u in_v)
