-- ===== src/Coordinator/Exclusion.antt =====
-- Mutual exclusion of leases, for src/shared/work-coordinator.ts: what holds of the lease directory
-- between two operations.
pub mod Files
pub mod Shrink
pub mod Grant
pub mod Prune
pub mod Reach
pub mod History
use dex_reach.Common.{
  ℕ, String, ◌≡◌, ◌≢◌, Bool, true, false, not, ◌&&◌, ◌||◌, Option, none, some, List, [], ◌∷◌,
  same_option, text_eq, Memᴰ,
}
use dex_reach.Capacity.{is_read, is_exclusive, is_substantive}
use dex_reach.Coordinator.{
  WorkLease, Entry, parsed, malformed, unreadable, Directory, parsed_entries,
}
use dex_reach.Coordinator.Decide.{named}
use dex_reach.Coordinator.Store.{World}

-- Two writers of one named repository, or substantive work beside machine-exclusive work.
abbrev pub conflicts : WorkLease → WorkLease → Bool
conflicts a b =
    (named a.repository_root
      && (same_option b.repository_root a.repository_root
          && (not (is_read a.access) && not (is_read b.access))))
    || ((is_exclusive a.access && is_substantive b.workload b.access)
        || (is_exclusive b.access && is_substantive a.workload a.access))

-- A lease file carries the name of its lease.
abbrev pub IsNamed : Directory WorkLease → Type 0
IsNamed [] = Unit
IsNamed ((n, parsed a) ∷ d) = (a.id ≡ n) × IsNamed d
IsNamed ((n, malformed) ∷ d) = IsNamed d
IsNamed ((n, unreadable) ∷ d) = IsNamed d

abbrev pub leases_of : World → List WorkLease
leases_of w = parsed_entries w.leases

pub record IsExclusive (w : World) : Type 0 where
  pub well_named : IsNamed w.leases
  pub apart :
      (a b : WorkLease)
      → Memᴰ a (leases_of w)
      → Memᴰ b (leases_of w)
      → a.id ≢ b.id
      → conflicts a b ≡ false
