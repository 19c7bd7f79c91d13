-- ===== src/Tasks/Sweep.antt =====
-- `archive`, `sweep` and `loadActiveTasks` of src/node/task-store.ts.
use Prim.Native.String.{String}
use dex_reach.Common.{
  ℕ, ◌+◌, ◌*◌, Bool, false, not, not, ◌&&◌, Option, none, some, List, [], ◌∷◌, select, leb, text_eq,
  nat_eq, if◌then◌else◌,
}
use dex_reach.Common.Outcome.{ok, err, and_then, refuse}
use dex_reach.Labels.{codes, is_task_id}
use dex_reach.Tasks.{is_terminal, ReachTaskRecord, invalid_task_id, task_not_found, not_terminal}
use dex_reach.Tasks.Table.{Table, lookup, assign, discard, values}
use dex_reach.Tasks.Store.{TaskStoreDocument, NodeHost, Update, mutate, or_else}

-- `loadActiveTasks`
unfoldable pub load_active_tasks : TaskStoreDocument → List ReachTaskRecord
load_active_tasks d = select (λ r. not (is_terminal r.state)) (values d.records)

unfoldable pub archive_record : NodeHost → String → Update ReachTaskRecord
archive_record host id d = elim (lookup id d.records) [
  | none ↦ err task_not_found
  | some r ↦ and_then (refuse (not (is_terminal r.state)) not_terminal) λ _. ok (
    record r { archived_at = some host.now },
    record d {
      archived = assign id (record r { archived_at = some host.now }) d.archived;
      records = discard id d.records;
    },
  )
]

unfoldable pub archive : NodeHost → String → Update ReachTaskRecord
archive host id d =
    and_then (refuse (not (is_task_id (codes id))) invalid_task_id)
      λ _. mutate host (archive_record host id) d

pub record SweepOptions : Type 0 where
  pub now : Option ℕ
  pub terminal_retention_ms : Option ℕ
  pub archive_retention_ms : Option ℕ

-- An instant is old when it lies at least `retention` before `now`: the source compares the signed
-- difference.
unfoldable pub is_old : ℕ → ℕ → ℕ → Bool
is_old now retention at = leb (at + retention) now

unfoldable pub is_due : ℕ → ℕ → ReachTaskRecord → Bool
is_due now retention r = is_terminal r.state && is_old now retention r.updated_at

unfoldable pub is_expired : ℕ → ℕ → ReachTaskRecord → Bool
is_expired now retention r = elim r.archived_at [ none ↦ false | some at ↦ is_old now retention at ]

-- The first loop: the records that stay, those that join the archive, and how many moved.
unfoldable pub sweep_records :
    ℕ
    → ℕ
    → Table ReachTaskRecord
    → Table ReachTaskRecord
    → Table ReachTaskRecord × Table ReachTaskRecord × ℕ
sweep_records now retention [] archive = ([], archive, 0)
sweep_records now retention ((id, r) ∷ rest) archive =
    let moved =
      sweep_records now retention rest (assign id (record r { archived_at = some now }) archive) in
    let stayed = sweep_records now retention rest archive in
    if is_due now retention r
    then (moved.0, moved.1, moved.2 + 1)
    else ((id, r) ∷ stayed.0, stayed.1, stayed.2)

-- The second loop: what stays in the archive, and how many records were deleted.
unfoldable pub sweep_archive : ℕ → ℕ → Table ReachTaskRecord → Table ReachTaskRecord × ℕ
sweep_archive now retention [] = ([], 0)
sweep_archive now retention ((id, r) ∷ rest) =
    let (kept, n) = sweep_archive now retention rest in
    if is_expired now retention r then (kept, n + 1) else ((id, r) ∷ kept, n)

pub record SweepResult : Type 0 where
  pub archived : ℕ
  pub deleted : ℕ

abbrev pub day_ms : ℕ
day_ms = 24 * 60 * 60 * 1000

unfoldable pub sweep_document : ℕ → ℕ → ℕ → Update SweepResult
sweep_document now terminal_ms archive_ms d =
    let (active, archive, moved) = sweep_records now terminal_ms d.records d.archived in
    let (kept, gone) = sweep_archive now archive_ms archive in
    ok (record { archived = moved; deleted = gone }, record d { records = active; archived = kept })

unfoldable pub sweep : NodeHost → SweepOptions → Update SweepResult
sweep host o d =
    mutate host
      (sweep_document (or_else o.now host.now) (or_else o.terminal_retention_ms (30 * day_ms))
        (or_else o.archive_retention_ms (90 * day_ms)))
      d
