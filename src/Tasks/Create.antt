-- ===== src/Tasks/Create.antt =====
-- `create` and `read` of src/node/task-store.ts. The task event that follows a creation is left out.
use Prim.Native.String.{String}
use dex_reach.Common.{
  ℕ, ◌+◌, Bool, true, false, not, not, ◌&&◌, Option, none, some, [], ◌∷◌, length, any, select, ltb,
  ◌==◌, same_option, text_eq, nat_eq, if◌then◌else◌, is_empty,
}
use dex_reach.Common.Outcome.{Result, ok, err, and_then, refuse}
use dex_reach.Labels.{Text, codes, is_task_id}
use dex_reach.Tasks.{
  accepted, max_depth, TaskAuthority, TaskRepoContext, ReachTaskRecord, TaskError, invalid_task_id,
  invalid_id, invalid_hash, invalid_depth, identity_exists, identity_conflicts,
  idempotency_key_exists, parent_not_found, root_mismatch, depth_mismatch, is_safe_id,
  is_safe_operation, is_hash, optional, validate_record,
}
use dex_reach.Tasks.Table.{assign}
use dex_reach.Tasks.Store.{
  TaskStoreDocument, NodeHost, Update, mutate, locate, all_records, or_else, truthy,
}

pub record TaskCreateInput : Type 0 where
  pub task_id : Option String
  pub actor_id : String
  pub node_id : String
  pub operation : String
  pub idempotency_key : String
  pub payload_sha256 : Text
  pub policy_hash : Option Text
  pub authority : Option TaskAuthority
  pub trace_id : Option Text
  pub parent_task_id : Option String
  pub root_task_id : Option String
  pub task_depth : Option ℕ
  pub attempt_budget : Option ℕ
  pub safety_class : Option String
  pub mutation_level : Option String
  pub repo_context : Option TaskRepoContext

-- The execution that an idempotency key stands for.
unfoldable pub same_execution : TaskCreateInput → ReachTaskRecord → Bool
same_execution i r =
    r.idempotency_key == i.idempotency_key
    && (r.actor_id == i.actor_id && (r.node_id == i.node_id && r.operation == i.operation))

-- `sameBinding`; texts are compared unit by unit.
abbrev pub same_text : Text → Text → Bool
same_text [] [] = true
same_text (a ∷ as') (b ∷ bs) = a == b && same_text as' bs
same_text _ _ = false

unfoldable pub same_binding : TaskCreateInput → ReachTaskRecord → Bool
unfolding same_execution
same_binding i r = same_execution i r && same_text r.payload_sha256 i.payload_sha256

unfoldable pub check_create : String → TaskCreateInput → Result TaskError (Unit {0})
check_create id i = and_then (refuse (not (is_task_id (codes id))) invalid_task_id) λ _.
    and_then
      (refuse (not (is_safe_id (codes i.actor_id) && is_safe_id (codes i.node_id))) invalid_id)
      λ _. and_then (refuse (not (is_safe_operation (codes i.operation))) invalid_id) λ _.
        and_then (refuse (not (is_safe_id (codes i.idempotency_key))) invalid_id) λ _.
          and_then (refuse (not (is_hash i.payload_sha256)) invalid_hash) λ _.
            refuse (not (optional (λ p. is_task_id (codes p)) (truthy i.parent_task_id)))
              invalid_task_id

-- The identity is free, and so is the idempotency key for this actor, node and operation.
unfoldable pub check_unused :
    String → TaskCreateInput → TaskStoreDocument → Result TaskError (Unit {0})
check_unused id i d = elim (locate id d) [
  | some r ↦ err (if same_binding i r then identity_exists else identity_conflicts)
  | none ↦ refuse (any (same_execution i) (all_records d)) idempotency_key_exists
]

pub record Lineage : Type 0 where
  pub root : String
  pub depth : ℕ

-- The root and the depth of a task under its parent, if it has one.
unfoldable pub lineage_under :
    String → TaskCreateInput → Option ReachTaskRecord → Result TaskError Lineage
lineage_under id i none =
    let root = or_else i.root_task_id id in
    let depth = or_else i.task_depth 0 in
    and_then (refuse (not (is_task_id (codes root))) invalid_task_id) λ _.
      and_then (refuse (ltb max_depth depth) invalid_depth)
        λ _. ok (record { root = root; depth = depth })
lineage_under id i (some p) =
    let root = or_else i.root_task_id p.root_task_id in
    let depth = or_else i.task_depth (p.task_depth + 1) in
    and_then (refuse (not (is_task_id (codes root))) invalid_task_id) λ _.
      and_then (refuse (ltb max_depth depth) invalid_depth) λ _.
        and_then (refuse (not (root == p.root_task_id)) root_mismatch) λ _.
          and_then (refuse (not (depth == p.task_depth + 1)) depth_mismatch)
            λ _. ok (record { root = root; depth = depth })

unfoldable pub lineage_of : String → TaskCreateInput → TaskStoreDocument → Result TaskError Lineage
lineage_of id i d = elim (truthy i.parent_task_id) [
  | none ↦ lineage_under id i none
  | some p ↦ elim (locate p d) [
    | none ↦ err parent_not_found
    | some r ↦ lineage_under id i (some r)
  ]
]

truthy_text : Option Text → Option Text
truthy_text none = none
truthy_text (some t) = if is_empty t then none else some t

unfoldable pub siblings : TaskCreateInput → TaskStoreDocument → ℕ
siblings i d = length (select (λ r. same_option r.parent_task_id i.parent_task_id) (all_records d))

unfoldable pub new_record :
    NodeHost → String → TaskCreateInput → Lineage → TaskStoreDocument → ReachTaskRecord
unfolding truthy_text
new_record host id i l d = record {
  task_id = id;
  root_task_id = l.root;
  parent_task_id = i.parent_task_id;
  task_depth = l.depth;
  lineage_index = siblings i d;
  actor_id = i.actor_id;
  node_id = i.node_id;
  operation = i.operation;
  safety_class = truthy i.safety_class;
  mutation_level = truthy i.mutation_level;
  state = accepted;
  attempt_number = 1;
  attempt_budget = or_else i.attempt_budget 1;
  created_at = host.now;
  updated_at = host.now;
  idempotency_key = i.idempotency_key;
  payload_sha256 = i.payload_sha256;
  policy_hash = truthy_text i.policy_hash;
  authority = i.authority;
  trace_id = truthy_text i.trace_id;
  result_ref = none;
  result_hash = none;
  failure_class = none;
  repo_context = i.repo_context;
  status = codes "Task accepted and durably persisted on node storage.";
  archived_at = none;
}

unfoldable pub insert_new : NodeHost → String → TaskCreateInput → Update ReachTaskRecord
insert_new host id i d = and_then (check_unused id i d) λ _. and_then (lineage_of id i d) λ l.
    let r = new_record host id i l d in
    and_then (validate_record host.is_absolute r)
      λ _. ok (r, record d { records = assign id r d.records })

unfoldable pub create : NodeHost → TaskCreateInput → Update ReachTaskRecord
create host i d =
    let id = or_else i.task_id host.fresh_id in
    and_then (check_create id i) λ _. mutate host (insert_new host id i) d

unfoldable pub read : String → TaskStoreDocument → Result TaskError (Option ReachTaskRecord)
read id d = and_then (refuse (not (is_task_id (codes id))) invalid_task_id) λ _. ok (locate id d)
