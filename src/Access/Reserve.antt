-- ===== src/Access/Reserve.antt =====
-- `reserveOperation` of src/shared/access.ts: the final authorization of an operation, its budget and the use
-- of its grant, under the access lock and then the budget lock.
--
-- An operation that throws keeps what it has already done, so the stores come back with the error as well.
-- The source reads the clock at each stage; the readings are independent here.
pub mod Uses
pub mod Counted
pub mod Slots
pub mod Reopened
use Prim.Native.String.{String}
use dex_reach.Common.{
  ℕ, suc, Bool, true, false, not, ◌&&◌, Option, none, some, ◌==◌, text_eq, if◌then◌else◌,
}
use dex_reach.Common.Outcome.{Result, ok, err}
use dex_reach.Json.{Members}
use dex_reach.Clients.{ReachProfile, ClientKind, RequestActor}
use dex_reach.Tasks.Store.{truthy}
use dex_reach.Budget.{BudgetPolicy}
use dex_reach.Budget.Usage.{
  AuthorityCost, BudgetRefusal, BudgetHost, UsageFile, UsageError, Reservation, unrestricted,
  reserved, refused, reserve_budget_usage, release_budget_concurrency,
}
use dex_reach.Catalog.{describe_operation, CatalogError}
use dex_reach.Catalog.Cost.{CostHost, requested_authority_cost}
use dex_reach.Access.{AccessState, kind_of, AccessDecision, allowed, Refusal, authorize_operation}
use dex_reach.Access.Store.{
  AccessStore, AccessHost, AccessError, load_access_state, write_access_state, is_spent, use_grant,
}

pub record ReserveHost : Type 0 where
  pub access : AccessHost
  pub cost : CostHost
  pub budget : BudgetHost
  pub budget_policy : BudgetPolicy
  pub authorized_at : ℕ
  pub charged_at : ℕ
  pub used_at : ℕ
  pub written_at : ℕ

pub record ReserveOptions : Type 0 where
  pub expected_policy_hash : Option String
  pub reserve_budget : Bool
  pub consume_grant : Bool

pub record NodeStore : Type 0 where
  pub access : AccessStore
  pub usage : UsageFile

pub data ReserveError : Type 0 where
  policy_changed spent_before_execution : ReserveError
  access_refused : Refusal → ReserveError
  no_cost : CatalogError → ReserveError
  usage_unreadable : UsageError → ReserveError
  over_budget : BudgetRefusal → ReserveError
  policy_unwritten : AccessError → ReserveError

pub record OperationReservation : Type 0 where
  pub profile : ReachProfile
  pub grant_id : Option String
  pub policy : AccessState
  pub budget_reservation_id : Option String

pub record Request : Type 0 where
  pub actor : Option RequestActor
  pub operation : String
  pub profile : ReachProfile
  pub args : Members

-- Neither excluded by the caller nor charged to the target of a wrapper.
unfoldable pub charges_budget : ReserveOptions → String → Bool
charges_budget options o =
    options.reserve_budget
    && elim (describe_operation o) [ none ↦ true | some d ↦ not d.risk_inherits_from_target ]

-- What a reservation means: its slot, or the refusal.
unfoldable pub slot_of : Reservation → Result ReserveError (Option String)
slot_of unrestricted = ok none
slot_of (reserved id u) = ok (some id)
slot_of (refused r u) = err (over_budget r)

unfoldable pub charge :
    ReserveHost
    → ClientKind
    → AuthorityCost
    → UsageFile
    → Result ReserveError (Option String) × UsageFile
charge host client cost f =
    elim (reserve_budget_usage host.budget host.budget_policy client cost host.charged_at f) [
      | err e ↦ (err (usage_unreadable e), f)
      | ok (r, g) ↦ (slot_of r, g)
    ]

-- The budget stage.
unfoldable pub take_budget :
    ReserveHost
    → ReserveOptions
    → Request
    → UsageFile
    → Result ReserveError (Option String) × UsageFile
take_budget host options q f =
    if charges_budget options q.operation
    then elim (requested_authority_cost host.cost q.operation q.args
        record { planned_target = none; planned_args = none }) [
          | err e ↦ (err (no_cost e), f)
          | ok cost ↦ charge host (kind_of q.actor) cost f
        ]
    else (ok none, f)

-- The grant stage, of the grant that the decision names.
unfoldable pub take_grant :
    ReserveHost
    → ReserveOptions
    → Option String
    → AccessState
    → AccessStore
    → Result ReserveError AccessStore
take_grant host options grant_id s store =
    elim (if options.consume_grant then truthy grant_id else none) [
      | none ↦ ok store
      | some id ↦
          if is_spent id host.used_at s
          then err spent_before_execution
          else elim (write_access_state host.access false none
              (record s { grants = use_grant id s.grants }) (suc s.revision) host.written_at
              store) [ err e ↦ err (policy_unwritten e) | ok next ↦ ok next ]
    ]

-- The grant stage after the budget stage: if the grant fails, the slot is given back.
unfoldable pub finish :
    ReserveHost
    → ReserveOptions
    → ReachProfile
    → Option String
    → AccessState
    → AccessStore
    → Option String
    → UsageFile
    → Result ReserveError OperationReservation × NodeStore
finish host options profile grant_id s store slot g =
    elim (take_grant host options grant_id s store) [
      | err e ↦ (err e, record { access = store; usage = release_budget_concurrency slot g })
      | ok next ↦ (
        ok record {
          profile = profile;
          grant_id = grant_id;
          policy = s;
          budget_reservation_id = slot;
        },
        record { access = next; usage = g },
      )
    ]

-- The stages after the authorization.
unfoldable pub execute_reservation :
    ReserveHost
    → ReserveOptions
    → Request
    → ReachProfile
    → Option String
    → AccessState
    → NodeStore
    → Result ReserveError OperationReservation × NodeStore
execute_reservation host options q profile grant_id s store =
    let (slot, g) = take_budget host options q store.usage in
    elim slot [
      | err e ↦ (err e, record { access = store.access; usage = g })
      | ok id ↦ finish host options profile grant_id s store.access id g
    ]

-- `options.expectedPolicyHash && hashValue(state) !== options.expectedPolicyHash`
unfoldable pub policy_moved : AccessHost → Option String → AccessState → Bool
policy_moved host expected s = elim (truthy expected) [
  | none ↦ false
  | some h ↦ not (host.hash_value s == h)
]

-- `reserveOperation`
unfoldable pub reserve_operation :
    ReserveHost
    → ReserveOptions
    → Request
    → NodeStore
    → Result ReserveError OperationReservation × NodeStore
reserve_operation host options q store =
    let s = load_access_state host.access host.authorized_at store.access in
    if policy_moved host.access options.expected_policy_hash s
    then (err policy_changed, store)
    else elim (authorize_operation host.access.paths s q.actor q.operation q.profile
        host.authorized_at q.args) [
          | AccessDecision.refused r ↦ (err (access_refused r), store)
          | allowed profile grant_id ↦ execute_reservation host options q profile grant_id s store
        ]
