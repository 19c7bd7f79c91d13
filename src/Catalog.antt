-- ===== src/Catalog.antt =====
-- The operation and tool tables of src/shared/operations.ts, and what is looked up in them.
pub mod Risk
pub mod Cost
pub mod Required
use Prim.Native.String.{String}
use dex_reach.Common.{
  Bool, true, false, not, ◌&&◌, Option, none, some, List, [], ◌∷◌, map, find, select, ◌==◌, text_eq,
  if◌then◌else◌,
}
use dex_reach.Common.Outcome.{Result, ok, err}
use dex_reach.Tasks.{Capability}
use dex_reach.Tasks.Store.{truthy}

pub data OperationRiskClass : Type 0 where
  inspection typed_mutate network shell privileged destructive : OperationRiskClass

pub data CheckpointStrategy : Type 0 where
  no_checkpoint git_if_available required : CheckpointStrategy

pub record OperationDescriptor : Type 0 where
  pub operation : String
  pub capability : Capability
  pub risk : OperationRiskClass
  pub mutation : Bool
  pub supports_plan : Bool
  pub read_only_allowed : Bool
  pub workspace_safe_allowed : Bool
  pub checkpoint_strategy : CheckpointStrategy
  pub risk_inherits_from_target : Bool
  pub workspace_safe_resolved_per_tool : Bool

pub record CompatibilityToolDescriptor : Type 0 where
  pub tool : String
  pub adapter : String
  pub capability : Capability
  pub risk : OperationRiskClass
  pub mutation : Bool
  pub network : Bool
  pub path_arguments : List String
  pub remote_blocked : Bool
  pub workspace_safe_allowed : Bool
  pub supports_plan : Bool
  pub checkpoint_strategy : CheckpointStrategy

abbrev pub operation_entry :
    String
    → Capability
    → OperationRiskClass
    → Bool
    → Bool
    → Bool
    → Bool
    → CheckpointStrategy
    → Bool
    → Bool
    → OperationDescriptor
operation_entry o c r m p ro ws k inherits per_tool = record {
  operation = o;
  capability = c;
  risk = r;
  mutation = m;
  supports_plan = p;
  read_only_allowed = ro;
  workspace_safe_allowed = ws;
  checkpoint_strategy = k;
  risk_inherits_from_target = inherits;
  workspace_safe_resolved_per_tool = per_tool;
}

abbrev pub tool_entry :
    String
    → String
    → Capability
    → OperationRiskClass
    → Bool
    → Bool
    → List String
    → Bool
    → Bool
    → Bool
    → CheckpointStrategy
    → CompatibilityToolDescriptor
tool_entry t a c r m n ps blocked ws p k = record {
  tool = t;
  adapter = a;
  capability = c;
  risk = r;
  mutation = m;
  network = n;
  path_arguments = ps;
  remote_blocked = blocked;
  workspace_safe_allowed = ws;
  supports_plan = p;
  checkpoint_strategy = k;
}

unfoldable pub dex_operations : List OperationDescriptor
dex_operations =
    operation_entry "dex.fingerprint" Capability.inspect inspection false false true true
      no_checkpoint false false
    ∷ operation_entry "dex.trustReport" Capability.inspect inspection false false true true
        no_checkpoint false false
    ∷ operation_entry "dex.repoInfo" Capability.inspect inspection false false true true
        no_checkpoint false false
    ∷ operation_entry "dex.adbDevices" Capability.inspect inspection false false true true
        no_checkpoint false false
    ∷ operation_entry "dex.file.read" Capability.file_read inspection false false true true
        no_checkpoint false false
    ∷ operation_entry "dex.result.read" Capability.file_read inspection false false true true
        no_checkpoint false false
    ∷ operation_entry "dex.receipts.list" Capability.file_read inspection false false true true
        no_checkpoint false false
    ∷ operation_entry "dex.capability.request" Capability.inspect inspection false false false true
        no_checkpoint false false
    ∷ operation_entry "dex.file.write" Capability.file_write typed_mutate true true false true
        git_if_available false false
    ∷ operation_entry "dex.checkpoint" Capability.checkpoint typed_mutate true true false true
        no_checkpoint false false
    ∷ operation_entry "dex.plan" Capability.inspect typed_mutate false false false true
        git_if_available false false
    ∷ operation_entry "dex.commitPlan" Capability.inspect shell true false false false no_checkpoint
        true false
    ∷ operation_entry "dex.process.run" Capability.process_shell shell true true true false
        git_if_available false false
    ∷ operation_entry "dc.call" Capability.compat shell true true true false git_if_available false
        true
    ∷ []

unfoldable pub compatibility_tools : List CompatibilityToolDescriptor
compatibility_tools =
    tool_entry "get_config" "desktop-commander" Capability.inspect inspection false false ([]) false
      true false no_checkpoint
    ∷ tool_entry "get_file_info" "desktop-commander" Capability.file_read inspection false false
        ("path" ∷ []) false true false no_checkpoint
    ∷ tool_entry "get_usage_stats" "desktop-commander" Capability.inspect inspection false false
        ([]) false true false no_checkpoint
    ∷ tool_entry "list_directory" "desktop-commander" Capability.file_read inspection false false
        ("path" ∷ []) false true false no_checkpoint
    ∷ tool_entry "read_file" "desktop-commander" Capability.file_read inspection false true
        ("path" ∷ []) false true false no_checkpoint
    ∷ tool_entry "read_multiple_files" "desktop-commander" Capability.file_read inspection false
        false ("paths" ∷ []) false true false no_checkpoint
    ∷ tool_entry "start_search" "desktop-commander" Capability.file_read inspection false false
        ("path" ∷ []) false true false no_checkpoint
    ∷ tool_entry "get_more_search_results" "desktop-commander" Capability.file_read inspection false
        false ([]) false true false no_checkpoint
    ∷ tool_entry "list_searches" "desktop-commander" Capability.inspect inspection false false ([])
        false true false no_checkpoint
    ∷ tool_entry "stop_search" "desktop-commander" Capability.inspect inspection false false ([])
        false true false no_checkpoint
    ∷ tool_entry "create_directory" "desktop-commander" Capability.file_write typed_mutate true
        false ("path" ∷ []) false true true git_if_available
    ∷ tool_entry "move_file" "desktop-commander" Capability.file_write typed_mutate true false
        ("source" ∷ "destination" ∷ []) false true true git_if_available
    ∷ tool_entry "write_file" "desktop-commander" Capability.file_write typed_mutate true false
        ("path" ∷ []) false true true git_if_available
    ∷ tool_entry "write_pdf" "desktop-commander" Capability.file_write typed_mutate true false
        ("path" ∷ "outputPath" ∷ []) false true true git_if_available
    ∷ tool_entry "edit_block" "desktop-commander" Capability.file_write typed_mutate true false
        ("file_path" ∷ []) false true true git_if_available
    ∷ tool_entry "start_process" "desktop-commander" Capability.process_shell shell true false ([])
        false false true git_if_available
    ∷ tool_entry "interact_with_process" "desktop-commander" Capability.process_shell shell true
        false ([]) false false true git_if_available
    ∷ tool_entry "read_process_output" "desktop-commander" Capability.process_shell inspection false
        false ([]) false false false no_checkpoint
    ∷ tool_entry "list_processes" "desktop-commander" Capability.inspect inspection false false ([])
        false false false no_checkpoint
    ∷ tool_entry "list_sessions" "desktop-commander" Capability.inspect inspection false false ([])
        false false false no_checkpoint
    ∷ tool_entry "force_terminate" "desktop-commander" Capability.process_shell destructive true
        false ([]) false false false no_checkpoint
    ∷ tool_entry "kill_process" "desktop-commander" Capability.process_shell destructive true false
        ([]) false false false no_checkpoint
    ∷ tool_entry "set_config_value" "desktop-commander" Capability.compat privileged true false ([])
        true false false no_checkpoint
    ∷ tool_entry "get_recent_tool_calls" "desktop-commander" Capability.compat privileged false
        false ([]) true false false no_checkpoint
    ∷ tool_entry "give_feedback_to_desktop_commander" "desktop-commander" Capability.compat network
        false true ([]) true false false no_checkpoint
    ∷ tool_entry "get_prompts" "desktop-commander" Capability.compat privileged false false ([])
        true false false no_checkpoint
    ∷ []

pub data CatalogError : Type 0 where
  unknown_operation unknown_tool no_target resolved_per_tool no_risks unclassifiable : CatalogError

unfoldable pub describe_operation : String → Option OperationDescriptor
describe_operation o = find (λ (d : OperationDescriptor). d.operation == o) dex_operations

unfoldable pub require_operation : String → Result CatalogError OperationDescriptor
require_operation o = elim (describe_operation o) [ none ↦ err unknown_operation | some d ↦ ok d ]

unfoldable pub describe_compatibility_tool : String → Option CompatibilityToolDescriptor
describe_compatibility_tool t =
    find (λ (d : CompatibilityToolDescriptor). d.tool == t) compatibility_tools

unfoldable pub require_compatibility_tool : String → Result CatalogError CompatibilityToolDescriptor
require_compatibility_tool t = elim (describe_compatibility_tool t) [
  | none ↦ err unknown_tool
  | some d ↦ ok d
]

abbrev pub is_inspection : OperationRiskClass → Bool
is_inspection inspection = true
is_inspection _ = false

abbrev names_of : List OperationDescriptor → List String
names_of = map λ (d : OperationDescriptor). d.operation

unfoldable pub read_only_inspect_operations : List String
read_only_inspect_operations = names_of (
    select (λ (d : OperationDescriptor). d.read_only_allowed && is_inspection d.risk)
      dex_operations)

unfoldable pub read_only_delegated_operations : List String
read_only_delegated_operations = names_of (
    select (λ (d : OperationDescriptor). d.read_only_allowed && not (is_inspection d.risk))
      dex_operations)

unfoldable pub plannable_operations : List String
plannable_operations =
    names_of (select (λ (d : OperationDescriptor). d.supports_plan) dex_operations)

unfoldable pub checkpoint_strategy_for : String → CheckpointStrategy
checkpoint_strategy_for o = elim (describe_operation o) [
  | none ↦ no_checkpoint
  | some d ↦ d.checkpoint_strategy
]

unfoldable pub workspace_safe_operations : List String
workspace_safe_operations = names_of (
    select
      (λ (d : OperationDescriptor).
        d.workspace_safe_allowed
        && (not d.risk_inherits_from_target && not d.workspace_safe_resolved_per_tool))
      dex_operations)

-- `effectiveWorkspaceSafe` of an operation alone, and with the target that it was planned for.
unfoldable pub workspace_safe_alone : OperationDescriptor → Result CatalogError Bool
workspace_safe_alone d =
    if d.workspace_safe_resolved_per_tool
    then err resolved_per_tool
    else (if d.risk_inherits_from_target then err no_target else ok d.workspace_safe_allowed)

unfoldable pub effective_workspace_safe : String → Option String → Result CatalogError Bool
effective_workspace_safe o target = elim (require_operation o) [
  | err e ↦ err e
  | ok d ↦
      if d.risk_inherits_from_target && not d.workspace_safe_resolved_per_tool
      then elim (truthy target) [
        | none ↦ err no_target
        | some t ↦ elim (require_operation t) [ err e ↦ err e | ok b ↦ workspace_safe_alone b ]
      ]
      else workspace_safe_alone d
]

abbrev tool_names : List CompatibilityToolDescriptor → List String
tool_names = map λ (d : CompatibilityToolDescriptor). d.tool

unfoldable pub remote_blocked_compatibility_tools : List String
remote_blocked_compatibility_tools =
    tool_names (select (λ (d : CompatibilityToolDescriptor). d.remote_blocked) compatibility_tools)

unfoldable pub remote_compatibility_tools : List String
remote_compatibility_tools =
    tool_names
      (select (λ (d : CompatibilityToolDescriptor). not d.remote_blocked) compatibility_tools)

unfoldable pub workspace_safe_compatibility_tools : List String
workspace_safe_compatibility_tools = tool_names (
    select (λ (d : CompatibilityToolDescriptor). d.workspace_safe_allowed && not d.remote_blocked)
      compatibility_tools)

unfoldable pub compatibility_tool_workspace_safe : String → Result CatalogError Bool
compatibility_tool_workspace_safe t = elim (require_compatibility_tool t) [
  | err e ↦ err e
  | ok d ↦ ok d.workspace_safe_allowed
]
