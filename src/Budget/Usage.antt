-- ===== src/Budget/Usage.antt =====
-- The usage counters of src/shared/budget-usage.ts: samples of consumed authority, concurrency slots, and
-- the reservation that adds to both. A reservation runs under the budget lock, in one step.
--
-- An instant is a number of milliseconds, and a difference of two is compared as a sum, as the source's
-- signed difference is.
pub mod Codec
pub mod Window
pub mod Refusal
pub mod Spending
pub mod Ledger
pub mod Recovery
use Prim.Native.String.{String}
use dex_reach.Common.{
  ℕ, ◌+◌, ◌*◌, Bool, true, false, not, ◌&&◌, ◌||◌, Option, none, some, List, [], ◌∷◌, ◌++◌, length,
  any, select, find, is_empty, leb, ltb, max, map, ◌==◌, text_eq, if◌then◌else◌,
}
use dex_reach.Common.Outcome.{Result, ok, err}
use dex_reach.Clients.{ClientKind, same_client}
use dex_reach.Budget.{
  BudgetRule, BudgetPolicy, policy_restricts, rules_for_client, list_budget_rules,
}

-- src/shared/operations.ts
pub record AuthorityCost : Type 0 where
  pub operations : ℕ
  pub mutations : ℕ
  pub shell_calls : ℕ
  pub requested_write_bytes : ℕ
  pub requested_process_ms : ℕ

abbrev pub zero_cost : AuthorityCost
zero_cost = record {
  operations = 0;
  mutations = 0;
  shell_calls = 0;
  requested_write_bytes = 0;
  requested_process_ms = 0;
}

-- `addAuthorityCost`
abbrev pub add_authority_cost : AuthorityCost → AuthorityCost → AuthorityCost
add_authority_cost a b = record {
  operations = a.operations + b.operations;
  mutations = a.mutations + b.mutations;
  shell_calls = a.shell_calls + b.shell_calls;
  requested_write_bytes = a.requested_write_bytes + b.requested_write_bytes;
  requested_process_ms = a.requested_process_ms + b.requested_process_ms;
}

-- A sample, its cost as one field.
pub record BudgetSample : Type 0 where
  pub at : ℕ
  pub client : ClientKind
  pub cost : AuthorityCost

pub record BudgetInflight : Type 0 where
  pub id : String
  pub client : ClientKind
  pub at : ℕ
  pub pid : Option ℕ

pub record BudgetUsage : Type 0 where
  pub samples : List BudgetSample
  pub inflight : List BudgetInflight

abbrev pub empty_usage : BudgetUsage
empty_usage = record { samples = []; inflight = [] }

abbrev pub inflight_stale_ms : ℕ
inflight_stale_ms = 15 * 60000

-- Whether a process is alive is the host's answer.
unfoldable pub inflight_is_reclaimable : (ℕ → Bool) → ℕ → BudgetInflight → Bool
inflight_is_reclaimable alive now e =
    if leb now (e.at + inflight_stale_ms)
    then false
    else elim e.pid [ none ↦ true | some pid ↦ not (alive pid) ]

-- `Math.max` of the windows, with 0 for none.
abbrev pub widest : List BudgetRule → ℕ
widest [] = 0
widest (r ∷ rs) = max r.window_ms (widest rs)

unfoldable pub prune_usage : (ℕ → Bool) → BudgetPolicy → ℕ → BudgetUsage → BudgetUsage
prune_usage alive p now u =
    let keep = widest (list_budget_rules p) in
    record {
      samples =
          if ltb 0 keep then select (λ (s : BudgetSample). ltb now (s.at + keep)) u.samples else [];
      inflight = select (λ e. not (inflight_is_reclaimable alive now e)) u.inflight;
    }

-- `sumCost`
unfoldable pub sum_cost : List BudgetSample → AuthorityCost
sum_cost [] = zero_cost
sum_cost (s ∷ ss) = add_authority_cost s.cost (sum_cost ss)

-- The rolling dimensions, in the order in which the source checks them.
pub data Dimension : Type 0 where
  operations mutations shell_calls requested_write_bytes requested_process_ms : Dimension

abbrev pub cost_of : Dimension → AuthorityCost → ℕ
cost_of operations c = c.operations
cost_of mutations c = c.mutations
cost_of shell_calls c = c.shell_calls
cost_of requested_write_bytes c = c.requested_write_bytes
cost_of requested_process_ms c = c.requested_process_ms

abbrev pub limit_of : Dimension → BudgetRule → Option ℕ
limit_of operations r = r.max_operations
limit_of mutations r = r.max_mutations
limit_of shell_calls r = r.max_shell_calls
limit_of requested_write_bytes r = r.max_requested_write_bytes
limit_of requested_process_ms r = r.max_requested_process_ms

abbrev pub dimensions : List Dimension
dimensions =
    operations ∷ mutations ∷ shell_calls ∷ requested_write_bytes ∷ requested_process_ms ∷ []

unfoldable pub would_exceed : ℕ → ℕ → Option ℕ → Bool
would_exceed used add none = false
would_exceed used add (some limit) = ltb limit (used + add)

pub data BudgetRefusal : Type 0 where
  over_window : BudgetRule → Dimension → BudgetRefusal
  no_free_slot : BudgetRule → BudgetRefusal

-- The samples that a rule measures for a client: all of them if it is shared.
unfoldable pub scoped : BudgetRule → ClientKind → List BudgetSample → List BudgetSample
scoped r client ss =
    if r.id == "shared" then ss else select (λ (s : BudgetSample). same_client s.client client) ss

unfoldable pub in_window : ℕ → ℕ → List BudgetSample → List BudgetSample
in_window window now ss = select (λ (s : BudgetSample). ltb now (s.at + window)) ss

-- What the samples under a rule have cost within its window.
unfoldable pub used_under : BudgetRule → ClientKind → ℕ → List BudgetSample → AuthorityCost
used_under r client now ss = sum_cost (in_window r.window_ms now (scoped r client ss))

unfoldable pub active_under : BudgetRule → ClientKind → List BudgetInflight → ℕ
active_under r client es =
    if r.id == "shared"
    then length es
    else length (select (λ (e : BudgetInflight). same_client e.client client) es)

unfoldable pub slot_refusal : BudgetRule → ClientKind → List BudgetInflight → Option BudgetRefusal
slot_refusal r client es = elim r.max_concurrent [
  | none ↦ none
  | some limit ↦ if leb limit (active_under r client es) then some (no_free_slot r) else none
]

-- The first dimension that the cost would exceed.
unfoldable pub exceeded :
    BudgetRule → ClientKind → ℕ → AuthorityCost → List BudgetSample → Option Dimension
exceeded r client now cost ss =
    let used = used_under r client now ss in
    find (λ d. would_exceed (cost_of d used) (cost_of d cost) (limit_of d r)) dimensions

unfoldable pub evaluate_rule :
    BudgetRule → BudgetUsage → AuthorityCost → ClientKind → ℕ → Option BudgetRefusal
evaluate_rule r u cost client now = elim (exceeded r client now cost u.samples) [
  | some d ↦ some (over_window r d)
  | none ↦ slot_refusal r client u.inflight
]

-- The first refusal of the rules.
unfoldable pub refusal_of :
    List BudgetRule → BudgetUsage → AuthorityCost → ClientKind → ℕ → Option BudgetRefusal
refusal_of [] u cost client now = none
refusal_of (r ∷ rs) u cost client now =
    let later = refusal_of rs u cost client now in
    elim (evaluate_rule r u cost client now) [ some e ↦ some e | none ↦ later ]

-- The usage file, as it is read.
pub data UsageFile : Type 0 where
  no_usage corrupt_usage : UsageFile
  usage : BudgetUsage → UsageFile

pub data UsageError : Type 0 where
  usage_corrupt : UsageError

pub record BudgetHost : Type 0 where
  pub alive : ℕ → Bool
  pub pid : ℕ
  pub fresh_id : String

pub data Reservation : Type 0 where
  unrestricted : Reservation
  reserved : String → BudgetUsage → Reservation
  refused : BudgetRefusal → BudgetUsage → Reservation

-- `loadBudgetUsage`
unfoldable pub load_budget_usage : UsageFile → Result UsageError BudgetUsage
load_budget_usage no_usage = ok empty_usage
load_budget_usage corrupt_usage = err usage_corrupt
load_budget_usage (usage u) = ok u

-- The usage after a reservation: one sample and one slot more.
unfoldable pub spend : BudgetHost → ClientKind → AuthorityCost → ℕ → BudgetUsage → BudgetUsage
spend host client cost now u = record {
  samples = u.samples ++ (record { at = now; client = client; cost = cost } ∷ []);
  inflight =
      u.inflight
      ++ (record { id = host.fresh_id; client = client; at = now; pid = some host.pid } ∷ []);
}

unfoldable pub reserve_within :
    BudgetHost
    → BudgetPolicy
    → ClientKind
    → AuthorityCost
    → ℕ
    → UsageFile
    → BudgetUsage
    → Reservation × UsageFile
reserve_within host p client cost now f u =
    elim (refusal_of (rules_for_client p client) u cost client now) [
      | some e ↦ (refused e u, f)
      | none ↦ let next = spend host client cost now u in (reserved host.fresh_id next, usage next)
    ]

-- `reserveBudgetUsage`: the answer, and the usage file afterwards.
unfoldable pub reserve_budget_usage :
    BudgetHost
    → BudgetPolicy
    → ClientKind
    → AuthorityCost
    → ℕ
    → UsageFile
    → Result UsageError (Reservation × UsageFile)
reserve_budget_usage host p client cost now f =
    if not (policy_restricts p) then ok (unrestricted, f) else elim (load_budget_usage f) [
      | err e ↦ err e
      | ok u ↦ ok (reserve_within host p client cost now f (prune_usage host.alive p now u))
    ]

-- `releaseBudgetConcurrency`
unfoldable pub release_budget_concurrency : Option String → UsageFile → UsageFile
release_budget_concurrency none f = f
release_budget_concurrency (some id) no_usage = no_usage
release_budget_concurrency (some id) corrupt_usage = corrupt_usage
release_budget_concurrency (some id) (usage u) =
    if any (λ (e : BudgetInflight). e.id == id) u.inflight
    then usage
        (record u { inflight = select (λ (e : BudgetInflight). not (e.id == id)) u.inflight })
    else usage u

unfoldable pub reset_budget_usage : UsageFile → UsageFile
reset_budget_usage f = usage empty_usage

-- `usedInWindow`, of one client or of all.
unfoldable pub used_in_window : BudgetUsage → Option ClientKind → ℕ → ℕ → AuthorityCost
used_in_window u none window now =
    sum_cost (select (λ (s : BudgetSample). ltb now (s.at + window)) u.samples)
used_in_window u (some k) window now =
    sum_cost
      (select (λ (s : BudgetSample). ltb now (s.at + window) && same_client s.client k) u.samples)
