-- ===== src/Tests/Access.antt =====
-- src/shared/access.ts on concrete inputs.
use Prim.Native.String.{String}
use dex_reach.Common.{
  ℕ, ◌+◌, ◌≤◌, ◌≡◌, ◌≢◌, refl, ◌⊎◌, sym, ◌∙◌, ap, inl, true, Option, none, some, List, [], ◌∷◌,
  Memᴰ, text_eq, arith,
}
use dex_reach.Common.Outcome.{ok, err}
use dex_reach.Labels
use dex_reach.Labels.{Text, codes}
use dex_reach.Json
use dex_reach.Json.{Json, Members, string, end, member}
use dex_reach.Clients.{
  ReachProfile, full_local, AccessMode, off, on, chatgpt, RequestActor, with_entry, no_entries,
}
use dex_reach.Coordinator.{instant}
use dex_reach.Tasks.{file_write, TaskAuthority}
use dex_reach.Budget.{empty_budget_policy}
use dex_reach.Budget.Usage.{BudgetHost, no_usage, usage}
use dex_reach.Budget
use dex_reach.Budget.Usage as Usage
use dex_reach.Tests.Budget.{limited}
use dex_reach.Catalog
use dex_reach.Catalog.Cost
use dex_reach.Catalog.Required
use dex_reach.Catalog.Required.{PathHost, required_capabilities, request_paths}
use dex_reach.Catalog.{OperationDescriptor, dex_operations}
use dex_reach.Access as Policy
use dex_reach.Access.{
  CapabilityGrant, AccessState, AccessDecision, allowed, refused, execution_disabled, kind_of,
  authorize_operation, invariant_faults,
}
use dex_reach.Access.Laws.{
  Covers, authorize_operation-off, authorize_operation-read_only, authorize_operation-Covers,
}
use dex_reach.Access.Lapse.{IsReopened, invariant_faults_lem, consume_grant-reopened}
use dex_reach.Access.Assertions as Assertions
use dex_reach.Access.Assertions.{no_assertions}
use dex_reach.Access.Store as Store
use dex_reach.Access.Store.{
  AccessStore, AccessHost, AccessError, stale_revision, AccessFile, policy, save_access_state,
  consume_grant,
}
use dex_reach.Access.Revisions.{StoreChange, updates, change_all, save_access_state-stale}
use dex_reach.Access.Reserve as Reserve
use dex_reach.Access.Reserve.{
  ReserveHost, ReserveError, OperationReservation, ReserveOptions, NodeStore, ReserveError,
  spent_before_execution, Request, reserve_operation,
}
use dex_reach.Access.Reserve.Counted.{ReserveCall, times_reserved, times_reserved_le}
use dex_reach.Access.Reserve.Reopened.{reserve_operation-reopened}
use dex_reach.Access.Reserve.Slots.{NoNewSlot, reserve_operation-err}
use dex_reach.Tasks.Store.{truthy}
use dex_reach.Access.Control.{
  authorize_task_control, check_authority, authorize_task_control-Covers,
}
use dex_reach.Access.Duration as Duration
use dex_reach.Access.Duration.{parse_duration, parse_duration-bounds}

abbrev paths : PathHost
paths = record { canonical = λ p. some (codes p); state_dir = "/state" }

abbrev write_grant : CapabilityGrant
write_grant = record {
  id = "grant";
  client = chatgpt;
  capabilities = file_write ∷ [];
  roots = "/work" ∷ [];
  until = instant 9000;
  max_uses = some 1;
  uses = 0;
  created_at = instant 0;
}

abbrev open_state : AccessState
open_state = record {
  revision = 4;
  mode = on;
  until = none;
  revert_to = none;
  clients = no_entries;
  grant_required = with_entry chatgpt (some true) no_entries;
  grants = write_grant ∷ [];
  updated_at = instant 0;
}

abbrev agent : Option RequestActor
agent = some record { kind = chatgpt; client_id = "c"; client_name = "ChatGPT" }

abbrev write_args : Members
write_args = member "path" (string "/work/a") (member "text" (string "hi") end)

write-allowed :
    authorize_operation paths open_state agent "dex.file.write" full_local 1000 write_args
    ≡ allowed full_local (some "grant")
unfolding authorize_operation Policy.mode_for_actor Policy.resolve_mode Policy.authorize_on
    Policy.active_grant Policy.is_active required_capabilities Required.tool_capabilities
    Catalog.describe_operation dex_operations Required.names_secrets_in Json.field
    Required.inspection_capabilities Required.operation_capability Required.roots_cover
    Required.extract_paths Required.is_path_key Policy.min_mode Cost.lower Cost.split_words
    Required.last_word Required.lies_under Required.path_allowed Required.under_path
    Catalog.compatibility_tools Catalog.describe_compatibility_tool
    Catalog.read_only_delegated_operations Catalog.read_only_inspect_operations Labels.is_digit
    Labels.is_lower Labels.is_upper
write-allowed = refl

agent_on : Policy.mode_for_actor open_state agent 1000 ≡ on
unfolding Policy.mode_for_actor Policy.resolve_mode
agent_on = refl

authorize_operation-Covers_example :
    (full_local ≡ full_local)
    × (g : CapabilityGrant) × Memᴰ g open_state.grants
    × (◌≡◌ {A = Option String} (some "grant") (some g.id))
    × Covers paths chatgpt
        (required_capabilities "dex.file.write" write_args)
        (request_paths write_args)
        1000
        g
authorize_operation-Covers_example =
    authorize_operation-Covers paths open_state agent "dex.file.write" full_local 1000 write_args
      agent_on refl refl write-allowed

abbrev closed_state : AccessState
closed_state = record open_state { mode = off }

closed_off : Policy.resolve_mode closed_state 1000 ≡ off
unfolding Policy.resolve_mode
closed_off = refl

authorize_operation-off_example :
    authorize_operation paths closed_state agent "dex.fingerprint" full_local 1000 end
    ≡ refused (execution_disabled "dex.fingerprint")
authorize_operation-off_example =
    authorize_operation-off paths closed_state agent "dex.fingerprint" full_local 1000 end
      (inl closed_off)

abbrev reading_state : AccessState
reading_state = record open_state { mode = AccessMode.read_only }

reading_only : Policy.mode_for_actor reading_state agent 1000 ≡ AccessMode.read_only
unfolding Policy.mode_for_actor Policy.resolve_mode
reading_only = refl

reading-allowed :
    authorize_operation paths reading_state agent "dex.fingerprint" full_local 1000 end
    ≡ allowed ReachProfile.read_only none
unfolding authorize_operation Policy.mode_for_actor Policy.resolve_mode dex_operations
    Catalog.read_only_delegated_operations Catalog.read_only_inspect_operations
reading-allowed = refl

authorize_operation-read_only_example :
    (◌≡◌ {A = ReachProfile} ReachProfile.read_only ReachProfile.read_only)
    × (◌≡◌ {A = Option String} none none)
    × (d : OperationDescriptor) × Memᴰ d dex_operations
    × (d.operation ≡ "dex.fingerprint")
    × (d.read_only_allowed ≡ true)
authorize_operation-read_only_example =
    authorize_operation-read_only paths reading_state agent "dex.fingerprint" full_local 1000 end
      reading_only reading-allowed

invariant_faults_lem_example : invariant_faults paths open_state 1000 ≡ []
invariant_faults_lem_example = invariant_faults_lem paths open_state 1000 (inl refl)

abbrev host : AccessHost
host = record {
  paths = paths;
  initial_access = none;
  hash_value = λ s. "hash";
  assertion_file = no_assertions;
}

-- `access off --for ...` of a node that was on, some time later.
abbrev reopened : AccessState
reopened = record open_state { mode = off; until = some (instant 500); revert_to = some on }

reopened-IsReopened : IsReopened reopened 1000
reopened-IsReopened = record { over = refl; back = refl; no_ceiling = refl; no_requirement = refl }

abbrev reopened_store : AccessStore
reopened_store = record { file = policy reopened; history = [] }

consume_grant-reopened_example :
    (e : AccessError) × (consume_grant host (some "grant") 1000 reopened_store ≡ err e)
consume_grant-reopened_example =
    consume_grant-reopened host reopened "grant" 1000 reopened_store refl reopened-IsReopened refl

abbrev task_authority : TaskAuthority
task_authority = record { capabilities = file_write ∷ []; paths = "/work/a" ∷ [] }

task-allowed :
    authorize_task_control paths
      (λ s. "hash")
      open_state
      agent
      "dex.file.write"
      full_local
      (some task_authority)
      none
      1000
    ≡ ok tt
unfolding authorize_task_control check_authority authorize_operation Policy.mode_for_actor
    Policy.resolve_mode Policy.authorize_on Policy.active_grant Policy.is_active
    required_capabilities Required.tool_capabilities Catalog.describe_operation dex_operations
    Required.names_secrets_in Json.field Required.inspection_capabilities
    Required.operation_capability Required.roots_cover Required.extract_paths Required.is_path_key
    Policy.min_mode Cost.lower Cost.split_words Required.last_word Required.lies_under
    Required.path_allowed Required.under_path Catalog.compatibility_tools
    Catalog.describe_compatibility_tool Catalog.read_only_delegated_operations
    Catalog.read_only_inspect_operations Labels.is_digit Labels.is_lower Labels.is_upper
task-allowed = refl

authorize_task_control-Covers_example :
    (a : TaskAuthority) × (some task_authority ≡ some a)
    × (g : CapabilityGrant) × Memᴰ g open_state.grants
    × Covers paths chatgpt a.capabilities a.paths 1000 g
authorize_task_control-Covers_example =
    authorize_task_control-Covers paths (λ s. "hash") open_state agent "dex.file.write" full_local
      (some task_authority) none 1000 refl task-allowed

half_hour : parse_duration (codes "30m") ≡ ok 1800000
unfolding parse_duration Labels.trim Labels.trim_start Labels.trim_end Labels.is_space
    Duration.read_digits Duration.read_unit Duration.unit_factor Duration.in_bounds Cost.lower
    Labels.is_digit Labels.is_upper
half_hour = refl

parse_duration-bounds_example : (1000 ≤ 1800000) × (1800000 ≤ 604800000)
parse_duration-bounds_example = parse_duration-bounds (codes "30m") half_hour

abbrev open_store : AccessStore
open_store = record { file = policy open_state; history = [] }

abbrev turn_off : List (AccessHost × ℕ × StoreChange)
turn_off = (host, 2000, updates λ s. ok (record s { mode = off })) ∷ []

turned_off :
    (change_all turn_off open_store).file
    ≡ policy (record open_state { mode = off; revision = 5; updated_at = instant 2000 })
unfolding Store.update_access_state Store.load_access_state Store.read_access_state
    Store.write_access_state Store.write_refusal Store.recorded Assertions.load_policy_assertions
    Assertions.evaluate_custom_assertions Assertions.append_policy_history Policy.policy_check
    Policy.all_grant_faults Policy.grant_faults invariant_faults authorize_operation
    Policy.mode_for_actor Policy.resolve_mode Catalog.read_only_delegated_operations
    Catalog.read_only_inspect_operations dex_operations
turned_off = refl

abbrev file_revision : AccessFile → ℕ
file_revision (policy s) = s.revision
file_revision _ = 0

off_is_new : (change_all turn_off open_store).file ≢ policy open_state
off_is_new h = let e : ◌≡◌ {A = ℕ} 5 4 = ap file_revision (sym turned_off ∙ h) in omega arith

-- The owner turns the node off; a writer that loaded the policy before cannot turn it on again.
save_access_state-stale_example :
    save_access_state host open_state 3000 (change_all turn_off open_store) ≡ err stale_revision
save_access_state-stale_example =
    save_access_state-stale host turn_off open_state open_state 3000 open_store refl refl off_is_new

abbrev node : ReserveHost
node = record {
  access = host;
  cost = record { numeric = λ s. 0; inspection_operation_cost = λ j. 1 };
  budget = record { alive = λ p. true; pid = 7; fresh_id = "slot" };
  budget_policy = empty_budget_policy "now";
  authorized_at = 1000;
  charged_at = 1001;
  used_at = 1002;
  written_at = 1003;
}

abbrev consuming : ReserveOptions
consuming = record { expected_policy_hash = none; reserve_budget = true; consume_grant = true }

abbrev write_request : Request
write_request = record {
  actor = agent;
  operation = "dex.file.write";
  profile = full_local;
  args = write_args;
}

abbrev write_call : ReserveCall
write_call = record { host = node; options = consuming; request = write_request }

abbrev node_store : NodeStore
node_store = record { access = open_store; usage = no_usage }

-- A grant of one use, and three calls.
times_reserved_le_example :
    times_reserved "grant" (write_call ∷ write_call ∷ write_call ∷ []) node_store + 0 ≤ 1
times_reserved_le_example =
    times_reserved_le "grant" (write_call ∷ write_call ∷ write_call ∷ []) node_store refl
      (refl, (refl, (refl, tt))) refl refl refl (omega arith)

-- The grant expires between the authorization and its use.
abbrev late : ReserveHost
late = record node { budget_policy = limited; used_at = 9500 }

spent_late :
    (reserve_operation late consuming write_request node_store).0 ≡ err spent_before_execution
unfolding reserve_operation Reserve.policy_moved Reserve.execute_reservation Reserve.take_budget
    Reserve.charges_budget Reserve.charge Reserve.slot_of Reserve.finish Reserve.take_grant
    Store.load_access_state Store.read_access_state Store.is_spent Cost.requested_authority_cost
    Cost.direct_cost Cost.cost_from Cost.requested_write_bytes_in Cost.requested_process_ms_in
    Cost.is_write_payload_key Cost.is_timeout_key Cost.normalize_cost_key Cost.byte_length
    Catalog.require_operation Usage.load_budget_usage Usage.reserve_budget_usage
    Usage.reserve_within Usage.refusal_of Usage.evaluate_rule Usage.exceeded Usage.slot_refusal
    Usage.active_under Usage.used_under Usage.in_window Usage.scoped Usage.would_exceed
    Usage.sum_cost Usage.add_authority_cost Usage.prune_usage Usage.widest Usage.spend
    Budget.policy_restricts Budget.budget_rule_restricts Budget.rule_restricts
    Budget.rules_for_client Budget.list_budget_rules authorize_operation Policy.mode_for_actor
    Policy.resolve_mode Policy.authorize_on Policy.active_grant Policy.is_active
    required_capabilities Required.tool_capabilities Catalog.describe_operation dex_operations
    Required.names_secrets_in Json.field Required.inspection_capabilities
    Required.operation_capability Required.roots_cover Required.extract_paths Required.is_path_key
    Policy.min_mode Cost.lower Cost.split_words Required.last_word Required.lies_under
    Required.path_allowed Required.under_path Catalog.compatibility_tools
    Catalog.describe_compatibility_tool Catalog.read_only_delegated_operations
    Catalog.read_only_inspect_operations Labels.is_digit Labels.is_lower Labels.is_upper
spent_late = refl

reserve_operation-err_example :
    NoNewSlot node_store.usage (reserve_operation late consuming write_request node_store).1.usage
reserve_operation-err_example =
    reserve_operation-err late consuming write_request node_store spent_late

abbrev reopened_node : NodeStore
reopened_node = record { access = reopened_store; usage = no_usage }

reopened-at_write : IsReopened reopened node.written_at
reopened-at_write = record { over = refl; back = refl; no_ceiling = refl; no_requirement = refl }

reserve_operation-reopened_example :
    ((reserve_operation node consuming write_request reopened_node).1.access.file
      ≡ reopened_node.access.file)
    × (((e : ReserveError) × ((reserve_operation node consuming write_request reopened_node).0
            ≡ err e))
        ⊎ ((o : OperationReservation) × ((reserve_operation node consuming write_request
                reopened_node).0
              ≡ ok o)
            × (truthy o.grant_id ≡ none)))
reserve_operation-reopened_example =
    reserve_operation-reopened node consuming write_request reopened reopened_node refl refl
      reopened-at_write
