-- ===== src/Tests/Tasks.antt =====
-- src/node/task-store.ts on concrete inputs.
use Prim.Native.String.{String}
use dex_reach.Common.{
  ◌+◌, ◌≤◌, ◌≡◌, ◌⊎◌, refl, Bool, true, false, Option, none, some, List, [], ◌∷◌,
}
use dex_reach.Labels
use dex_reach.Labels.{Text, codes}
use dex_reach.Tasks as Defs
use dex_reach.Tasks.Table
use dex_reach.Tasks.Store
use dex_reach.Tasks.Create
use dex_reach.Tasks.Change
use dex_reach.Tasks.Sweep
use dex_reach.Tasks.{
  TaskState, accepted, preparing, running, completed, cancelled, ReachTaskRecord, TaskError,
  update_is_empty, max_depth,
}
use dex_reach.Tasks.Store.{TaskStoreDocument, NodeHost, locate, empty_document, truthy}
use dex_reach.Tasks.Create.{TaskCreateInput, create}
use dex_reach.Tasks.Change.{TaskUpdate, keep, update}
use dex_reach.Tasks.Lifecycle
use dex_reach.Tasks.Lifecycle.{
  Advances, Operation, create_task, transition_task, archive_task, perform,
}
use dex_reach.Tasks.Sound.{IsSound}
use dex_reach.Tasks.History.{
  perform_all, perform_all-IsSound, perform-Advances, perform-terminal, perform-survives,
  create-lineage,
}

abbrev node : NodeHost
node = record {
  now = 1000;
  fresh_id = "rtsk_0123456789a_0123456789abcdef";
  is_absolute = λ t. true;
  redact = λ t. t;
  is_quarantined = λ id. false;
  compatibility_mode = false;
}

abbrev parent_id : String
parent_id = "rtsk_0123456789a_0123456789abcdef"

abbrev child_id : String
child_id = "rtsk_0123456789b_0123456789abcdef"

abbrev input : TaskCreateInput
input = record {
  task_id = none;
  actor_id = "agent";
  node_id = "node";
  operation = "build";
  idempotency_key = "first";
  payload_sha256 = codes "0123456789abcdef0123456789abcdef0123456789abcdef0123456789abcdef";
  policy_hash = none;
  authority = none;
  trace_id = none;
  parent_task_id = none;
  root_task_id = none;
  task_depth = none;
  attempt_budget = none;
  safety_class = none;
  mutation_level = none;
  repo_context = none;
}

abbrev child_input : TaskCreateInput
child_input = record input {
  task_id = some child_id;
  idempotency_key = "second";
  parent_task_id = some parent_id;
}

abbrev history : List (NodeHost × Operation)
history =
    (node, create_task input)
    ∷ (node, create_task child_input)
    ∷ (node, transition_task parent_id preparing none none)
    ∷ (node, transition_task child_id cancelled none none)
    ∷ []

abbrev document : TaskStoreDocument
document = perform_all history empty_document

abbrev state_at : String → TaskStoreDocument → Option TaskState
state_at id d = elim (locate id d) [ none ↦ none | some r ↦ some r.state ]

-- Unfolds what a run computes.
runs : Bool
unfolding Sweep.archive Sweep.archive_record Lifecycle.perform Create.create Create.check_create
    Create.insert_new Create.check_unused Create.lineage_of Create.lineage_under Create.new_record
    Create.siblings Create.same_execution Create.same_binding Defs.validate_record Defs.is_safe_id
    Defs.is_safe_operation Defs.is_hash Defs.is_hex_any_case Defs.legal_transition Defs.is_terminal
    Labels.is_task_id Labels.is_hex Labels.is_alnum Labels.is_digit Labels.is_lower Labels.is_upper
    Store.mutate Store.locate Store.all_records Store.empty_document Table.lookup Table.assign
    Table.discard Table.values Change.transition Change.check_target Change.change_active
    Change.transition_record Change.move_state Change.share_safe_status
runs = true

both_moved :
    (state_at parent_id document ≡ some preparing) × (state_at child_id document ≡ some cancelled)
unfolding runs
both_moved = (refl, refl)

-- The record under an identity, or one that is new.
abbrev stored : String → TaskStoreDocument → ReachTaskRecord
stored id d = elim (locate id d) [
  | none ↦ Create.new_record node id input (record { root = id; depth = 0 }) empty_document
  | some r ↦ r
]

document-IsSound : IsSound document
document-IsSound = perform_all-IsSound history

abbrev start : Operation
start = transition_task parent_id running none none

abbrev put_away : Operation
put_away = archive_task child_id

perform_all-IsSound_example : IsSound document
perform_all-IsSound_example = perform_all-IsSound history

perform-Advances_example :
    Advances (stored parent_id document) (stored parent_id (perform node start document))
unfolding runs
perform-Advances_example = perform-Advances node start document parent_id document-IsSound refl refl

perform-terminal_example :
    (stored child_id document).state ≡ (stored child_id (perform node put_away document)).state
unfolding runs
perform-terminal_example =
    perform-terminal node put_away document child_id document-IsSound refl refl refl

perform-survives_example :
    (v : ReachTaskRecord) × (Table.lookup parent_id (perform node start document).records ≡ some v)
    × Advances (stored parent_id document) v
unfolding runs
perform-survives_example = perform-survives node start document parent_id document-IsSound refl refl

abbrev before_child : TaskStoreDocument
before_child = perform node (create_task input) empty_document

create-lineage_example :
    ((stored child_id (perform node (create_task child_input) before_child)).task_depth ≤ max_depth)
    × ((truthy child_input.parent_task_id ≡ none)
        ⊎ ((p : String) × (r : ReachTaskRecord) × (truthy child_input.parent_task_id ≡ some p)
            × (locate p before_child ≡ some r)
            × ((stored child_id (perform node (create_task child_input) before_child)).root_task_id
                ≡ r.root_task_id)
            × ((stored child_id (perform node (create_task child_input) before_child)).task_depth
                ≡ r.task_depth + 1)))
unfolding runs
create-lineage_example =
    create-lineage node child_input before_child
      {e = perform node (create_task child_input) before_child} refl
