-- ===== src/Coordinator.antt =====
-- src/shared/work-coordinator.ts: the leases, the queue and the state that they are read into.
--
-- A time stamp of the source is a text that it reads by `Date.parse`: `instant ms` is one that reads
-- as `ms` milliseconds after 1970, as `toISOString` writes it, and `unparsed` is any other text.
-- A coordination file is its parsed record, or is malformed, or cannot be read.
pub mod Decide
pub mod Admission
pub mod Events
pub mod Store
pub mod Operations
pub mod Claims
pub mod Exclusion
pub mod Release
pub mod Fairness
use Prim.Native.String.{compare}
use text.Mathlib.Text.{is_le}
use dex_reach.Common.{
  ℕ, ◌+◌, String, Bool, true, false, not, ◌&&◌, ◌||◌, Option, none, some, List, [], ◌∷◌, ◌++◌, ◌==◌,
  text_eq, is_empty, ltb, leb, eqb, if◌then◌else◌,
}
use dex_reach.Labels.{Text}
use dex_reach.Bundle.{WorkBundle}
use dex_reach.Capacity.{
  WorkloadClass, AccessClass, MemoryPressure, ThermalPressure, CapacityProfile, ProcessObservation,
}

pub data Executor : Type 0 where
  claude_code chatgpt codex grok human other : Executor

pub data Stamp : Type 0 where
  instant : ℕ → Stamp
  unparsed : String → Stamp

abbrev pub lease_stale_ms : ℕ
lease_stale_ms = 150000

abbrev pub ticket_stale_ms : ℕ
ticket_stale_ms = 150000

pub record WorkLease : Type 0 where
  pub id : String
  pub task_id : Option String
  pub attempt : Option ℕ
  pub pid : ℕ
  pub parent_pid : Option ℕ
  pub caller_proof_hash : Option String
  pub pid_is_workload : Bool
  pub executor : Executor
  pub repository_root : Option String
  pub branch : Option Text
  pub access : AccessClass
  pub workload : WorkloadClass
  pub bundle : Option WorkBundle
  pub phase : Option Text
  pub created_at : Stamp
  pub heartbeat_at : Stamp

pub record WorkQueueTicket : Type 0 where
  pub id : String
  pub task_id : Option String
  pub attempt : Option ℕ
  pub pid : ℕ
  pub pid_is_workload : Bool
  pub executor : Executor
  pub repository_root : Option String
  pub access : AccessClass
  pub workload : WorkloadClass
  pub bundle : Option WorkBundle
  pub phase : Option Text
  pub enqueued_at : Stamp
  pub heartbeat_at : Stamp

pub data Degradation : Type 0 where
  lease_malformed lease_unreadable ticket_malformed ticket_unreadable : String → Degradation

pub record CoordinatorState : Type 0 where
  pub leases : List WorkLease
  pub tickets : List WorkQueueTicket
  pub degraded : Bool
  pub degraded_reasons : List Degradation

-- What a file of a directory holds, once `validLease` or `validTicket` has read it.
pub data Entry (A : Type 0) : Type 0 where
  parsed : A → Entry A
  malformed unreadable : Entry A

-- A directory: file names, without `.json`, and contents.
abbrev pub Directory : Type 0 → Type 0
Directory A = List (String × Entry A)

-- The entries that were read, and the reasons for the others.
unfoldable pub parsed_entries : {A : Type 0} → Directory A → List A
parsed_entries [] = []
parsed_entries ((n, parsed a) ∷ d) = a ∷ parsed_entries d
parsed_entries ((n, malformed) ∷ d) = parsed_entries d
parsed_entries ((n, unreadable) ∷ d) = parsed_entries d

unfoldable pub bad_entries :
    {A : Type 0} → (String → Degradation) → (String → Degradation) → Directory A → List Degradation
bad_entries bad lost [] = []
bad_entries bad lost ((n, parsed a) ∷ d) = bad_entries bad lost d
bad_entries bad lost ((n, malformed) ∷ d) = bad n ∷ bad_entries bad lost d
bad_entries bad lost ((n, unreadable) ∷ d) = lost n ∷ bad_entries bad lost d

-- `localeCompare` on identifiers, which are ASCII.
abbrev pub text_le : String → String → Bool
text_le a b = is_le (compare a b)

-- Instants in order, and texts that no date reads after them.
abbrev pub stamp_lt : Stamp → Stamp → Bool
stamp_lt (instant m) (instant n) = ltb m n
stamp_lt (instant m) (unparsed t) = true
stamp_lt (unparsed s) (instant n) = false
stamp_lt (unparsed s) (unparsed t) = not (text_le t s)

abbrev pub same_stamp : Stamp → Stamp → Bool
same_stamp (instant m) (instant n) = eqb m n
same_stamp (unparsed s) (unparsed t) = s == t
same_stamp _ _ = false

-- The order of the queue: first in, first out, ties by identifier.
unfoldable pub ticket_le : WorkQueueTicket → WorkQueueTicket → Bool
ticket_le a b =
    if same_stamp a.enqueued_at b.enqueued_at
    then text_le a.id b.id
    else stamp_lt a.enqueued_at b.enqueued_at

-- A stable sort, as `Array.prototype.sort` is.
unfoldable pub insert_sorted : {A : Type 0} → (A → A → Bool) → A → List A → List A
insert_sorted le a [] = a ∷ []
insert_sorted le a (x ∷ xs) = if le a x then a ∷ x ∷ xs else x ∷ insert_sorted le a xs

unfoldable pub sort_by : {A : Type 0} → (A → A → Bool) → List A → List A
unfolding insert_sorted
sort_by le [] = []
sort_by le (x ∷ xs) = insert_sorted le x (sort_by le xs)

unfoldable pub read_coordinator_state :
    Directory WorkLease → Directory WorkQueueTicket → CoordinatorState
unfolding parsed_entries bad_entries
read_coordinator_state leases queue =
    let reasons =
      bad_entries lease_malformed lease_unreadable leases
      ++ bad_entries ticket_malformed ticket_unreadable queue in
    record {
      leases = parsed_entries leases;
      tickets = sort_by ticket_le (parsed_entries queue);
      degraded = not (is_empty reasons);
      degraded_reasons = reasons;
    }

-- `alive` tells whether a process exists, as `processAlive` asks the system.
unfoldable pub lease_is_reclaimable : (ℕ → Bool) → ℕ → WorkLease → Bool
lease_is_reclaimable alive now lease = elim lease.heartbeat_at [
  | instant at ↦ ltb (at + lease_stale_ms) now && not (alive lease.pid)
  | unparsed text ↦ false
]

unfoldable pub ticket_is_stale : (ℕ → Bool) → ℕ → WorkQueueTicket → Bool
ticket_is_stale alive now ticket = elim ticket.heartbeat_at [
  | instant at ↦ ltb (at + ticket_stale_ms) now && not (alive ticket.pid)
  | unparsed text ↦ true
]

pub record CapacitySnapshot : Type 0 where
  pub sampled_at_ms : Option ℕ
  pub excluded_lease_ids : Option (List String)
  pub physical_memory_bytes : ℕ
  pub logical_cpu_count : ℕ
  pub load_average : Option ℕ
  pub memory : MemoryPressure
  pub thermal : ThermalPressure
  pub uncoordinated_heavy : ℕ
  pub process_observation : Option ProcessObservation
  pub profile : Option CapacityProfile
  pub interactive_ready : Option Bool
