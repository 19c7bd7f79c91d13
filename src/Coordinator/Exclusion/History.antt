-- ===== src/Coordinator/Exclusion/History.antt =====
-- The calls that the coordinator serves, in any order, keep the leases apart.

use dex_reach.Common.{
  String, ◌≡◌, refl, sym, Option, none, some, List, [], ◌∷◌, Memᴰ, ◌==◌, text_eq, inl, inr,
  Option-cases,
}
use dex_reach.Coordinator.{
  WorkLease, WorkQueueTicket, CapacitySnapshot, read_coordinator_state, instant,
}
use dex_reach.Coordinator.Decide.{decide_admission}
use dex_reach.Coordinator.Store.{World, Host, read_state, write_lease}
use dex_reach.Coordinator.Operations.{WorkRequest, Caller, bundle_result, acquire_work}
use dex_reach.Coordinator.Claims.{
  ReleaseOptions, release_work, release_found, release_refusal, beat, beat_found, beat_lease,
  beat_ticket, cancel_ticket, cancel_found, work_status, read_window, status_request,
}
use dex_reach.Coordinator.Exclusion.{IsExclusive, leases_of}
use dex_reach.Coordinator.Exclusion.Files.{mem-find}
use dex_reach.Coordinator.Exclusion.Shrink.{
  AddsNone, IsExclusive-Shrinks, bind-AddsNone, give-AddsNone, lift-AddsNone, read_state-AddsNone,
  remove_lease_file-AddsNone, remove_ticket_file-AddsNone, write_ticket-AddsNone,
  record_event-AddsNone, prune_expired-AddsNone, Shrinks-refl,
}
use dex_reach.Coordinator.Exclusion.Grant.{IsExclusive-write}
use dex_reach.Coordinator.Exclusion.Reach.{acquire_work-IsExclusive}

release_found-AddsNone :
    (host : Host) (sha256 : String → String) (o : ReleaseOptions) (id : String)
    (l : Option WorkLease)
    → AddsNone (release_found host sha256 o id l)
unfolding release_found
release_found-AddsNone host sha256 o id none = give-AddsNone _
release_found-AddsNone host sha256 o id (some l) =
    elim (Option-cases (release_refusal sha256 host.alive o l)) [
      | inl e ↦
          rw (e, release_found)
            (bind-AddsNone _ _ (remove_lease_file-AddsNone id)
              λ _. bind-AddsNone _ _ (record_event-AddsNone host _) λ _. give-AddsNone _)
      | inr (x, e) ↦ rw (e, release_found) (give-AddsNone x)
    ]

pub release_work-AddsNone :
    (host : Host) (sha256 : String → String) (id : String) (o : ReleaseOptions)
    → AddsNone (release_work host sha256 id o)
unfolding release_work
release_work-AddsNone host sha256 id o =
    bind-AddsNone _ _ read_state-AddsNone λ s. release_found-AddsNone host sha256 o id _

cancel_found-AddsNone :
    (host : Host) (id : String) (t : Option WorkQueueTicket) → AddsNone (cancel_found host id t)
unfolding cancel_found
cancel_found-AddsNone host id none = give-AddsNone _
cancel_found-AddsNone host id (some t) =
    bind-AddsNone _ _ (remove_ticket_file-AddsNone id)
      λ _. bind-AddsNone _ _ (record_event-AddsNone host _) λ _. give-AddsNone _

pub cancel_ticket-AddsNone : (host : Host) (id : String) → AddsNone (cancel_ticket host id)
unfolding cancel_ticket
cancel_ticket-AddsNone host id =
    bind-AddsNone _ _ read_state-AddsNone λ s. cancel_found-AddsNone host id _

read_window-AddsNone : AddsNone read_window
unfolding read_window
read_window-AddsNone = record { shrinks = λ w. Shrinks-refl w }

pub work_status-AddsNone :
    (host : Host) (snapshot : CapacitySnapshot) → AddsNone (work_status host snapshot)
unfolding work_status
work_status-AddsNone host snapshot = bind-AddsNone _ _ read_state-AddsNone λ read.
    bind-AddsNone _ _ (prune_expired-AddsNone host read) λ state.
      bind-AddsNone _ _
        (lift-AddsNone (bundle_result (decide_admission state snapshot host.now status_request)))
        λ d. bind-AddsNone _ _ read_window-AddsNone λ window. give-AddsNone _

-- A heartbeat rewrites one lease, which holds what it held.
beat_lease-IsExclusive :
    (host : Host) (l : WorkLease) (w : World)
    → Memᴰ l (leases_of w)
    → IsExclusive w
    → IsExclusive (beat_lease host l w).1
unfolding beat_lease write_lease
beat_lease-IsExclusive host l w m h =
    IsExclusive-Shrinks
      ((bind-AddsNone _ _ (record_event-AddsNone host _) λ _. give-AddsNone _).shrinks _)
      (unfold write_lease in
        IsExclusive-write (record l { heartbeat_at = instant host.now }) w h
          λ b mb ne. h.apart l b m mb (λ e. ne (sym e)))

beat_found-IsExclusive :
    (host : Host) (l : Option WorkLease) (t : Option WorkQueueTicket) (w : World)
    → ((x : WorkLease) → l ≡ some x → Memᴰ x (leases_of w))
    → IsExclusive w
    → IsExclusive (beat_found host l t w).1
unfolding beat_found beat_ticket
beat_found-IsExclusive host (some l) t w m h = beat_lease-IsExclusive host l w (m l refl) h
beat_found-IsExclusive host none (some t) w m h =
    IsExclusive-Shrinks
      ((bind-AddsNone _ _ (write_ticket-AddsNone _)
          λ _. bind-AddsNone _ _ (record_event-AddsNone host _) λ _. give-AddsNone _).shrinks
        w)
      h
beat_found-IsExclusive host none none w m h = h

pub beat-IsExclusive :
    (host : Host) (id : String) (w : World) → IsExclusive w → IsExclusive (beat host id w).1
unfolding beat read_state read_coordinator_state
beat-IsExclusive host id w h =
    beat_found-IsExclusive host _ _ w
      (λ x e. mem-find (λ (l : WorkLease). l.id == id) (leases_of w) e) h

-- A call with all that it takes from outside.
pub data Call : Type 0 where
  acquires : Caller → CapacitySnapshot → WorkRequest → Call
  releases : String → ReleaseOptions → Call
  beats cancels : String → Call
  reports : CapacitySnapshot → Call

-- `canonicalRepositoryRoot` and the digest of the host.
module _ (canonical : Option String → Option String) (sha256 : String → String) where
  -- The world that a call leaves, also when it throws.
  unfoldable pub serve : Host × Call → World → World
  serve (host, acquires caller snapshot r) w = (acquire_work host caller canonical snapshot r w).1
  serve (host, releases id o) w = (release_work host sha256 id o w).1
  serve (host, beats id) w = (beat host id w).1
  serve (host, cancels id) w = (cancel_ticket host id w).1
  serve (host, reports snapshot) w = (work_status host snapshot w).1

  unfoldable pub serve_all : List (Host × Call) → World → World
  serve_all [] w = w
  serve_all (c ∷ cs) w = serve_all cs (serve c w)

  serve-IsExclusive : (c : Host × Call) (w : World) → IsExclusive w → IsExclusive (serve c w)
  unfolding serve
  serve-IsExclusive (host, acquires caller snapshot r) w h =
      acquire_work-IsExclusive host caller canonical snapshot r w h
  serve-IsExclusive (host, releases id o) w h =
      IsExclusive-Shrinks ((release_work-AddsNone host sha256 id o).shrinks w) h
  serve-IsExclusive (host, beats id) w h = beat-IsExclusive host id w h
  serve-IsExclusive (host, cancels id) w h =
      IsExclusive-Shrinks ((cancel_ticket-AddsNone host id).shrinks w) h
  serve-IsExclusive (host, reports snapshot) w h =
      IsExclusive-Shrinks ((work_status-AddsNone host snapshot).shrinks w) h

  -- After any calls, in any order and on any host readings, from a directory whose files carry the names
  -- of their leases and whose leases are apart: no two leases write one named repository, and none runs
  -- substantive work beside a machine-exclusive lease.
  pub serve_all-IsExclusive :
      (cs : List (Host × Call)) (w : World) → IsExclusive w → IsExclusive (serve_all cs w)
  unfolding serve_all
  serve_all-IsExclusive [] w h = h
  serve_all-IsExclusive (c ∷ cs) w h =
      serve_all-IsExclusive cs (serve c w) (serve-IsExclusive c w h)
