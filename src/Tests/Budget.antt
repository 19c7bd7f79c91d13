-- ===== src/Tests/Budget.antt =====
-- src/shared/budget-policy.ts, budget-usage.ts and operations.ts on concrete inputs.
use Prim.Native.String.{String}
use mathlib.Core.Path.{subst}
use dex_reach.Common.{
  sym, inl, inr, ℕ, ◌≤◌, ◌≡◌, refl, ap, true, false, none, some, List, [], ◌∷◌, Memᴰ, All, ◌==◌,
  text_eq, arith,
}
use dex_reach.Common.Outcome.{ok}
use dex_reach.Json.{Members, string, end, member, holds}
use dex_reach.Clients.{ClientKind, chatgpt, claude, smoke, other, entry, with_entry, no_entries}
use dex_reach.Budget
use dex_reach.Budget.Usage as Usage
use dex_reach.Budget.{BudgetRule, BudgetPolicy, empty_budget_policy}
use dex_reach.Budget.Policy.{encode_policy, load_budget_policy}
use dex_reach.Budget.Policy.Codec.{AllStorable, StorableIf, load-encode_policy}
use dex_reach.Budget.Usage.{
  AuthorityCost, BudgetUsage, BudgetHost, UsageFile, no_usage, usage, load_budget_usage,
  reserve_budget_usage,
}
use dex_reach.Budget.Usage.Codec.{IsWritten, encode_usage, read_usage, read-encode_usage}
use dex_reach.Budget.Usage.Spending.{IsNamed, IsWithin}
use dex_reach.Budget.Usage.Refusal.{Applies}
use dex_reach.Budget.Usage.Recovery.{IsAffordable, reserve-recovers}
use dex_reach.Budget.Usage.Ledger.{
  BudgetEvent, reserve, release, apply_events, IsTimely, apply_events-IsWithin,
}
use dex_reach.Catalog
use dex_reach.Catalog.{
  OperationRiskClass, inspection, shell, network, typed_mutate, OperationDescriptor,
  CompatibilityToolDescriptor, describe_compatibility_tool, describe_operation,
}
use dex_reach.Tasks.{file_write}
use dex_reach.Catalog.Risk
use dex_reach.Catalog.Risk.{highest_risk, risk_rank, highest_risk_lem}
use dex_reach.Catalog.Cost.{CostHost, AuthorityCostContext, cost_from, requested_authority_cost}
use dex_reach.Catalog.Cost.Wrapped.{wrapped, requested_authority_cost-wrapped}

abbrev two_calls : BudgetRule
two_calls = record {
  id = "shared";
  window_ms = 60000;
  max_operations = some 2;
  max_mutations = none;
  max_shell_calls = none;
  max_requested_write_bytes = some 100;
  max_requested_process_ms = none;
  max_concurrent = some 1;
}

abbrev chat_rule : BudgetRule
chat_rule = record two_calls { id = "chatgpt"; max_operations = some 5 }

abbrev pub limited : BudgetPolicy
limited = record {
  revision = 3;
  shared = some two_calls;
  clients = with_entry chatgpt (some chat_rule) no_entries;
  updated_at = "2026-01-01T00:00:00.000Z";
}

abbrev host : BudgetHost
host = record { alive = λ p. true; pid = 7; fresh_id = "slot" }

abbrev write_cost : AuthorityCost
write_cost = record {
  operations = 1;
  mutations = 1;
  shell_calls = 0;
  requested_write_bytes = 40;
  requested_process_ms = 0;
}

-- Two writes, with the slot given back between them, and a third that is refused.
abbrev day : List BudgetEvent
day =
    reserve host chatgpt write_cost 1000
    ∷ release (some "slot")
    ∷ reserve host claude write_cost 2000
    ∷ release (some "slot")
    ∷ reserve host claude write_cost 3000
    ∷ []

abbrev spent : BudgetUsage
spent = record {
  samples =
      record { at = 1000; client = chatgpt; cost = write_cost }
      ∷ record { at = 2000; client = claude; cost = write_cost }
      ∷ [];
  inflight = [];
}

day-spent : load_budget_usage (apply_events limited day no_usage) ≡ ok spent
unfolding load_budget_usage Usage.Ledger.after_reserve Usage.release_budget_concurrency
    Usage.reserve_budget_usage Usage.reserve_within Usage.refusal_of Usage.evaluate_rule
    Usage.exceeded Usage.slot_refusal Usage.active_under Usage.used_under Usage.in_window
    Usage.scoped Usage.would_exceed Usage.sum_cost Usage.add_authority_cost Usage.prune_usage
    Usage.widest Usage.spend Usage.inflight_is_reclaimable Budget.policy_restricts
    Budget.budget_rule_restricts Budget.rule_restricts Budget.rules_for_client
    Budget.list_budget_rules
day-spent = refl

is_shared : (r q : BudgetRule) → some q ≡ some r → (r.id == "shared") ≡ (q.id == "shared")
is_shared r q h = let e : r ≡ q = ground arith in ap (λ (z : BudgetRule). z.id == "shared") e

own_name :
    (k : ClientKind) (r : BudgetRule)
    → entry k limited.clients ≡ some r
    → (r.id == "shared") ≡ false
own_name chatgpt r h = is_shared r chat_rule h
own_name claude r h = ground arith
own_name smoke r h = ground arith
own_name other r h = ground arith

limited-IsNamed : IsNamed limited
limited-IsNamed = record {
  shared_name = λ {r} h. is_shared r two_calls h;
  client_name = λ k {r} h. own_name k r h;
}

apply_events-IsWithin_example : IsWithin limited 5000 spent
apply_events-IsWithin_example =
    apply_events-IsWithin limited day 5000 limited-IsNamed
      (omega arith, (omega arith, (omega arith, omega arith))) day-spent

each_storable : (k : ClientKind) → StorableIf (entry k limited.clients)
each_storable chatgpt = record { positive = refl; named = refl }
each_storable claude = tt
each_storable smoke = tt
each_storable other = tt

stored : AllStorable limited
stored = record { shared = record { positive = refl; named = refl }; client = each_storable }

load-encode_policy_example : load_budget_policy "now" (holds (encode_policy limited)) ≡ limited
load-encode_policy_example = load-encode_policy limited "now" stored

abbrev one_held : BudgetUsage
one_held = record spent {
  inflight = record { id = "slot"; client = smoke; at = 5; pid = some 7 } ∷ [];
}

held-IsWritten : All IsWritten one_held.inflight
held-IsWritten = (record { named = refl; numbered = λ n h. ground arith }, tt)

read-encode_usage_example : read_usage (holds (encode_usage one_held)) ≡ usage one_held
read-encode_usage_example = read-encode_usage one_held held-IsWritten

abbrev risks : List OperationRiskClass
risks = inspection ∷ shell ∷ network ∷ []

risks-shell : highest_risk risks ≡ ok shell
unfolding highest_risk Risk.worst_from Risk.worse risk_rank
risks-shell = refl

highest_risk_lem_example :
    Memᴰ shell risks × ((x : OperationRiskClass) → Memᴰ x risks → risk_rank x ≤ risk_rank shell)
highest_risk_lem_example = highest_risk_lem risks risks-shell

abbrev any_number : String → ℕ
any_number s = 0

two_calls_room :
    (d : Usage.Dimension) {m : ℕ}
    → Usage.limit_of d two_calls ≡ some m
    → Usage.cost_of d write_cost ≤ m
two_calls_room Usage.operations l = ground arith
two_calls_room Usage.mutations l = ground arith
two_calls_room Usage.shell_calls l = ground arith
two_calls_room Usage.requested_write_bytes l = ground arith
two_calls_room Usage.requested_process_ms l = ground arith

chat_rule_room :
    (d : Usage.Dimension) {m : ℕ}
    → Usage.limit_of d chat_rule ≡ some m
    → Usage.cost_of d write_cost ≤ m
chat_rule_room Usage.operations l = ground arith
chat_rule_room Usage.mutations l = ground arith
chat_rule_room Usage.shell_calls l = ground arith
chat_rule_room Usage.requested_write_bytes l = ground arith
chat_rule_room Usage.requested_process_ms l = ground arith

its_rule : (q r : BudgetRule) → some q ≡ some r → q ≡ r
its_rule q r h = ground arith

room_for_write :
    (r : BudgetRule) (d : Usage.Dimension) {m : ℕ}
    → Applies limited chatgpt r
    → Usage.limit_of d r ≡ some m
    → Usage.cost_of d write_cost ≤ m
room_for_write r d {m} (inl e) l =
    two_calls_room d (subst (λ z. Usage.limit_of d z ≡ some m) (sym (its_rule two_calls r e)) l)
room_for_write r d {m} (inr e) l =
    chat_rule_room d (subst (λ z. Usage.limit_of d z ≡ some m) (sym (its_rule chat_rule r e)) l)

one_for_write :
    (r : BudgetRule) {m : ℕ} → Applies limited chatgpt r → r.max_concurrent ≡ some m → 1 ≤ m
one_for_write r {m} (inl e) l =
    let k =
      subst (λ (z : BudgetRule). z.max_concurrent ≡ some m) (sym (its_rule two_calls r e)) l in
    ground arith
one_for_write r {m} (inr e) l =
    let k =
      subst (λ (z : BudgetRule). z.max_concurrent ≡ some m) (sym (its_rule chat_rule r e)) l in
    ground arith

write-IsAffordable : IsAffordable limited chatgpt write_cost
write-IsAffordable = record {
  within = λ r d {m} a l. room_for_write r d a l;
  one_slot = λ r {m} a l. one_for_write r a l;
}

limited-restricts : Budget.policy_restricts limited ≡ true
unfolding Budget.policy_restricts Budget.budget_rule_restricts Budget.rule_restricts
limited-restricts = refl

-- A day later.
reserve-recovers_example :
    reserve_budget_usage host limited chatgpt write_cost 86400000 (usage spent)
    ≡ ok (
      Usage.reserved "slot" (Usage.spend host chatgpt write_cost 86400000 Usage.empty_usage),
      usage (Usage.spend host chatgpt write_cost 86400000 Usage.empty_usage),
    )
unfolding Budget.list_budget_rules
reserve-recovers_example =
    reserve-recovers host limited chatgpt write_cost 86400000 spent limited-restricts
      write-IsAffordable refl (omega arith, (omega arith, tt))

abbrev cost_host : CostHost
cost_host = record { numeric = λ s. 0; inspection_operation_cost = λ j. 1 }

abbrev file_args : Members
file_args = member "path" (string "/work/a") (member "text" (string "abc") end)

abbrev no_plan : AuthorityCostContext
no_plan = record { planned_target = none; planned_args = none }

abbrev write_tool : CompatibilityToolDescriptor
write_tool =
    Catalog.tool_entry "write_file" "desktop-commander" file_write typed_mutate true false
      ("path" ∷ []) false true true Catalog.git_if_available

abbrev file_write_operation : OperationDescriptor
file_write_operation =
    Catalog.operation_entry "dex.file.write" file_write typed_mutate true true false true
      Catalog.git_if_available false false

tool_known : describe_compatibility_tool "write_file" ≡ some write_tool
unfolding describe_compatibility_tool Catalog.compatibility_tools
tool_known = refl

operation_known : describe_operation "dex.file.write" ≡ some file_write_operation
unfolding describe_operation Catalog.dex_operations
operation_known = refl

requested_authority_cost-wrapped_example :
    (requested_authority_cost cost_host "dc.call" (wrapped "write_file" file_args) no_plan
      ≡ ok (cost_from cost_host.numeric true typed_mutate file_args))
    × (requested_authority_cost cost_host "dc.call" (wrapped "write_file" file_args) no_plan
        ≡ requested_authority_cost cost_host "dex.file.write" file_args no_plan)
    × (requested_authority_cost cost_host "dex.commitPlan" end record {
      planned_target = some "dc.call";
      planned_args = some (wrapped "write_file" file_args);
    }
        ≡ requested_authority_cost cost_host "dex.file.write" file_args no_plan)
requested_authority_cost-wrapped_example =
    requested_authority_cost-wrapped cost_host "write_file" "dex.file.write" file_args end no_plan
      tool_known operation_known refl refl refl refl refl
