-- ===== src/Coordinator/Events.antt =====
-- src/shared/work-coordinator.ts, the event history: validation, recording, and paged reading.
--
-- The history file is the list of its valid events. A phase that is null and one that is absent are
-- both `none`.
pub mod Order
use Prim.Native.String.{String}
use dex_reach.Common.{
  ℕ, suc, ◌+◌, ◌-◌, ◌≡◌, Bool, true, false, not, ◌&&◌, ◌||◌, Option, none, some, List, [], ◌∷◌,
  ◌++◌, length, take, drop, all, select, is_empty, leb, ltb, eqb, min, max, if◌then◌else◌,
}
use dex_reach.Common.Outcome.{Result, ok, err}
use dex_reach.Labels.{Text, codes, trim, is_alnum, is_task_id, sanitize_label, LabelError}
use dex_reach.Capacity.{WorkloadClass, AccessClass}
use dex_reach.Coordinator.{Executor, sort_by}

pub data EventKind : Type 0 where
  ticket_enqueued lease_acquired lease_released lease_reclaimed ticket_expired ticket_cancelled :
      EventKind
  heartbeat phase_progress cache_hit cache_miss classifier_result request_rejected : EventKind

pub record WorkEvent : Type 0 where
  pub cursor : ℕ
  pub at : ℕ
  pub event : EventKind
  pub id : Option Text
  pub task_id : Option String
  pub attempt : Option ℕ
  pub executor : Option Executor
  pub access : Option AccessClass
  pub workload : Option WorkloadClass
  pub phase : Option Text
  pub reason : Option Text
  pub forced : Option Bool
  pub observed_uncoordinated_heavy : Option ℕ
  pub dex_services : Option ℕ

-- What a caller records: an event without its cursor and time.
pub record EventInput : Type 0 where
  pub event : EventKind
  pub id : Option String
  pub task_id : Option String
  pub attempt : Option ℕ
  pub executor : Option Executor
  pub access : Option AccessClass
  pub workload : Option WorkloadClass
  pub phase : Option Text
  pub reason : Option Text
  pub forced : Option Bool
  pub observed_uncoordinated_heavy : Option ℕ
  pub dex_services : Option ℕ

abbrev pub history_limit : ℕ
history_limit = 200

abbrev pub event_page_limit : ℕ
event_page_limit = 100

-- `/^[A-Za-z0-9._:-]+$/`, of one character.
is_event_id_char : ℕ → Bool
is_event_id_char c = is_alnum c || (eqb c b'.' || (eqb c b'_' || (eqb c b':' || eqb c b'-')))

-- `/^[A-Za-z0-9._: -]+$/`, of one character.
is_reason_char : ℕ → Bool
unfolding is_event_id_char
is_reason_char c = is_event_id_char c || eqb c b' '

bounded : ℕ → (ℕ → Bool) → Text → Bool
bounded limit fits t = not (is_empty t) && (leb (length t) limit && all fits t)

-- `none` where the source throws.
unfoldable pub safe_event_id : Option String → Option (Option Text)
unfolding bounded is_event_id_char
safe_event_id none = some none
safe_event_id (some v) =
    let t = trim (codes v) in if bounded 128 is_event_id_char t then some (some t) else none

unfoldable pub safe_event_reason : Option Text → Option (Option Text)
unfolding bounded is_reason_char
safe_event_reason none = some none
safe_event_reason (some v) =
    let t = trim v in if bounded 96 is_reason_char t then some (some t) else none

abbrev pub task_id_valid : Option String → Bool
task_id_valid none = true
task_id_valid (some t) = is_task_id (codes t)

abbrev pub attempt_valid : Option ℕ → Bool
attempt_valid none = true
attempt_valid (some n) = leb 1 n && leb n 100

-- `validWorkEvent` on a candidate: `none` is null.
unfoldable pub valid_work_event : EventInput → ℕ → ℕ → Option WorkEvent
valid_work_event i cursor at = elim (safe_event_id i.id) [
  | none ↦ none
  | some id ↦ elim (sanitize_label i.phase) [
    | err e ↦ none
    | ok phase ↦ elim (safe_event_reason i.reason) [
      | none ↦ none
      | some reason ↦
          if leb 1 cursor && (task_id_valid i.task_id && attempt_valid i.attempt)
          then some (record {
            cursor = cursor;
            at = at;
            event = i.event;
            id = id;
            task_id = i.task_id;
            attempt = i.attempt;
            executor = i.executor;
            access = i.access;
            workload = i.workload;
            phase = phase;
            reason = reason;
            forced = i.forced;
            observed_uncoordinated_heavy = i.observed_uncoordinated_heavy;
            dex_services = i.dex_services;
          })
          else none
    ]
  ]
]

abbrev pub cursor_le : WorkEvent → WorkEvent → Bool
cursor_le a b = leb a.cursor b.cursor

-- `storedWorkEvents`
unfoldable pub stored_work_events : List WorkEvent → List WorkEvent
stored_work_events history = sort_by cursor_le history

abbrev pub last_cursor : List WorkEvent → ℕ
last_cursor [] = 0
last_cursor (e ∷ []) = e.cursor
last_cursor (e ∷ f ∷ es) = last_cursor (f ∷ es)

-- `slice(-limit)`
abbrev pub take_last {ℓ} : {A : Type ℓ} → ℕ → List A → List A
take_last n xs = drop (length xs - n) xs

-- `recordWorkEvent`: the new history and the event, or `none` where the source throws.
unfoldable pub record_work_event :
    EventInput → ℕ → List WorkEvent → Option (List WorkEvent × WorkEvent)
record_work_event i at history =
    let current = stored_work_events history in
    elim (valid_work_event i (last_cursor current + 1) at) [
      | none ↦ none
      | some e ↦ some (take_last history_limit (current ++ e ∷ []), e)
    ]

pub record WorkEventWindow : Type 0 where
  pub cursor : ℕ
  pub start_cursor : ℕ
  pub events : List WorkEvent
  pub has_more : Bool

abbrev pub first_cursor : ℕ → List WorkEvent → ℕ
first_cursor latest [] = latest
first_cursor latest (e ∷ es) = e.cursor

unfoldable pub read_work_events : ℕ → ℕ → List WorkEvent → WorkEventWindow
read_work_events after limit history =
    let stored = stored_work_events history in
    let eligible = select (λ (e : WorkEvent). ltb after e.cursor) stored in
    let events = take (max 1 (min limit event_page_limit)) eligible in
    record {
      cursor = last_cursor stored;
      start_cursor = first_cursor (last_cursor stored) stored;
      events = events;
      has_more = ltb (length events) (length eligible);
    }
