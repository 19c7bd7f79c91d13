-- ===== src/Budget.antt =====
-- The rolling execution budgets of src/shared/budget-policy.ts: rules, policies, and which rules apply.
pub mod Policy
pub mod Usage
use Prim.Native.String.{String}
use dex_reach.Common.{
  ℕ, Bool, true, false, ◌||◌, Option, none, some, List, [], ◌∷◌, ◌++◌, any, eqb, if◌then◌else◌,
}
use dex_reach.Common.Outcome.{Result, ok, err}
use dex_reach.Clients.{ClientKind, PerClient, entry, no_entries, client_kinds}

pub record BudgetRule : Type 0 where
  pub id : String
  pub window_ms : ℕ
  pub max_operations : Option ℕ
  pub max_mutations : Option ℕ
  pub max_shell_calls : Option ℕ
  pub max_requested_write_bytes : Option ℕ
  pub max_requested_process_ms : Option ℕ
  pub max_concurrent : Option ℕ

pub record BudgetPolicy : Type 0 where
  pub revision : ℕ
  pub shared : Option BudgetRule
  pub clients : PerClient BudgetRule
  pub updated_at : String

abbrev pub is_some {ℓ} : {A : Type ℓ} → Option A → Bool
is_some none = false
is_some (some a) = true

unfoldable pub empty_budget_policy : String → BudgetPolicy
empty_budget_policy now = record {
  revision = 0;
  shared = none;
  clients = no_entries;
  updated_at = now;
}

unfoldable pub rule_restricts : BudgetRule → Bool
rule_restricts r =
    is_some r.max_operations
    || (is_some r.max_mutations
        || (is_some r.max_shell_calls
            || (is_some r.max_requested_write_bytes
                || (is_some r.max_requested_process_ms || is_some r.max_concurrent))))

-- `budgetRuleRestricts`, of a rule that may be absent.
unfoldable pub budget_rule_restricts : Option BudgetRule → Bool
budget_rule_restricts none = false
budget_rule_restricts (some r) = rule_restricts r

unfoldable pub policy_restricts : BudgetPolicy → Bool
policy_restricts p =
    budget_rule_restricts p.shared
    || any (λ k. budget_rule_restricts (entry k p.clients)) client_kinds

-- A rule as the list of one that `push` adds, if it restricts.
abbrev pub restricting : Option BudgetRule → List BudgetRule
restricting none = []
restricting (some r) = if rule_restricts r then r ∷ [] else []

unfoldable pub rules_for_client : BudgetPolicy → ClientKind → List BudgetRule
rules_for_client p k = restricting p.shared ++ restricting (entry k p.clients)

pub data RuleError : Type 0 where
  window_not_positive no_ceiling : RuleError

unfoldable pub make_budget_rule : BudgetRule → Result RuleError BudgetRule
make_budget_rule r =
    if eqb r.window_ms 0
    then err window_not_positive
    else (if rule_restricts r then ok r else err no_ceiling)

abbrev pub present : {A : Type 0} → Option A → List A
present none = []
present (some a) = a ∷ []

-- `listBudgetRules`
unfoldable pub list_budget_rules : BudgetPolicy → List BudgetRule
list_budget_rules p =
    present p.shared
    ++ (present p.clients.for_chatgpt
        ++ (present p.clients.for_claude
            ++ (present p.clients.for_smoke ++ present p.clients.for_other)))
