-- ===== src/Access.antt =====
-- The owner's access policy of src/shared/access.ts: modes, grants, and who may do what.
--
-- A stored time is an instant, or a text that does not parse: `Date.parse` compares false then.
pub mod Assertions
pub mod Store
pub mod Reserve
pub mod Laws
pub mod Lapse
pub mod Revisions
pub mod Duration
pub mod Control
use Prim.Native.String.{String}
use dex_reach.Common.{
  ℕ, suc, ◌+◌, Bool, true, false, not, ◌&&◌, ◌||◌, Option, none, some, List, [], ◌∷◌, ◌++◌, map,
  find, any, all, is_empty, leb, ltb, eqb, ◌==◌, text_eq, if◌then◌else◌,
}
use dex_reach.Json.{Members, end}
use dex_reach.Clients.{
  ReachProfile, AccessMode, off, on, ClientKind, other, PerClient, entry, with_entry, no_entries,
  same_client, RequestActor,
}
use dex_reach.Coordinator.{Stamp, instant, unparsed}
use dex_reach.Tasks.{Capability}
use dex_reach.Catalog.{read_only_inspect_operations, read_only_delegated_operations}
use dex_reach.Catalog.Required.{
  includes, required_capabilities, request_paths, roots_cover, PathHost,
}

-- src/shared/capabilities.ts
pub record CapabilityGrant : Type 0 where
  pub id : String
  pub client : ClientKind
  pub capabilities : List Capability
  pub roots : List String
  pub until : Stamp
  pub max_uses : Option ℕ
  pub uses : ℕ
  pub created_at : Stamp

pub record AccessState : Type 0 where
  pub revision : ℕ
  pub mode : AccessMode
  pub until : Option Stamp
  pub revert_to : Option AccessMode
  pub clients : PerClient AccessMode
  pub grant_required : PerClient Bool
  pub grants : List CapabilityGrant
  pub updated_at : Stamp

-- RANK
abbrev pub rank : AccessMode → ℕ
rank off = 0
rank AccessMode.read_only = 1
rank on = 2

unfoldable pub min_mode : AccessMode → AccessMode → AccessMode
min_mode a b = if leb (rank a) (rank b) then a else b

-- The state of a node without a policy file; the initial mode is the host's setting, if it is one.
unfoldable pub default_access_state : Option AccessMode → ℕ → AccessState
default_access_state initial now = record {
  revision = 0;
  mode = elim initial [ none ↦ off | some m ↦ m ];
  until = none;
  revert_to = none;
  clients = no_entries;
  grant_required = no_entries;
  grants = [];
  updated_at = instant now;
}

-- `Date.parse(stamp) <= now`
abbrev pub is_past : ℕ → Stamp → Bool
is_past now (instant t) = leb t now
is_past now (unparsed s) = false

-- `Date.parse(stamp) > now`
abbrev pub is_ahead : ℕ → Stamp → Bool
is_ahead now (instant t) = ltb now t
is_ahead now (unparsed s) = false

unfoldable pub resolve_mode : AccessState → ℕ → AccessMode
resolve_mode s now = elim s.until [
  | none ↦ s.mode
  | some t ↦ if is_past now t then elim s.revert_to [ none ↦ off | some m ↦ m ] else s.mode
]

abbrev pub kind_of : Option RequestActor → ClientKind
kind_of none = other
kind_of (some a) = a.kind

unfoldable pub mode_for_actor : AccessState → Option RequestActor → ℕ → AccessMode
mode_for_actor s actor now = elim (entry (kind_of actor) s.clients) [
  | none ↦ resolve_mode s now
  | some ceiling ↦ min_mode (resolve_mode s now) ceiling
]

pub record AccessSnapshot : Type 0 where
  pub mode : AccessMode
  pub effective_mode : AccessMode
  pub until : Option Stamp
  pub revert_to : Option AccessMode
  pub clients : PerClient AccessMode

unfoldable pub snapshot : AccessState → ℕ → AccessSnapshot
snapshot s now = record {
  mode = s.mode;
  effective_mode = resolve_mode s now;
  until = s.until;
  revert_to = s.revert_to;
  clients = s.clients;
}

abbrev pub has_uses : CapabilityGrant → Bool
has_uses g = elim g.max_uses [ none ↦ true | some m ↦ ltb g.uses m ]

abbrev pub holds_all : List Capability → CapabilityGrant → Bool
holds_all cs g = all (λ c. includes c g.capabilities) cs

-- A grant that gives a kind of client the capabilities under the paths, now.
unfoldable pub is_active :
    PathHost → ClientKind → List Capability → List String → ℕ → CapabilityGrant → Bool
is_active host kind cs paths now g =
    same_client g.client kind
    && (is_ahead now g.until && (has_uses g && (holds_all cs g && roots_cover host paths g.roots)))

unfoldable pub active_grant :
    PathHost → AccessState → Option RequestActor → String → Members → ℕ → Option CapabilityGrant
active_grant host s actor o args now =
    find (is_active host (kind_of actor) (required_capabilities o args) (request_paths args) now)
      s.grants

pub data Refusal : Type 0 where
  execution_disabled read_only_refused no_active_grant : String → Refusal

pub data AccessDecision : Type 0 where
  allowed : ReachProfile → Option String → AccessDecision
  refused : Refusal → AccessDecision

abbrev pub listed : String → List String → Bool
listed o os = any (λ p. p == o) os

abbrev pub requires_grant : AccessState → Option RequestActor → Bool
requires_grant s actor = elim (entry (kind_of actor) s.grant_required) [ none ↦ false | some b ↦ b ]

-- An operation under mode `on`.
unfoldable pub authorize_on :
    PathHost
    → AccessState
    → Option RequestActor
    → String
    → ReachProfile
    → ℕ
    → Members
    → AccessDecision
authorize_on host s actor o profile now args =
    if o == "dex.plan" || o == "dex.commitPlan"
    then allowed profile none
    else (if requires_grant s actor
        then elim (active_grant host s actor o args now) [
          | none ↦ refused (no_active_grant o)
          | some g ↦ allowed profile (some g.id)
        ]
        else allowed profile none)

unfoldable pub authorize_operation :
    PathHost
    → AccessState
    → Option RequestActor
    → String
    → ReachProfile
    → ℕ
    → Members
    → AccessDecision
authorize_operation host s actor o profile now args = elim (mode_for_actor s actor now) [
  | off ↦ refused (execution_disabled o)
  | AccessMode.read_only ↦
      if listed o read_only_inspect_operations || listed o read_only_delegated_operations
      then allowed ReachProfile.read_only none
      else refused (read_only_refused o)
  | on ↦ authorize_on host s actor o profile now args
]

-- `createGrant`; `resolve` is the absolute form of a path.
unfoldable pub create_grant :
    (String → String)
    → AccessState
    → ClientKind
    → List Capability
    → List String
    → ℕ
    → Option ℕ
    → String
    → ℕ
    → AccessState
create_grant resolve s client cs roots duration max_uses id now =
    if any (λ (g : CapabilityGrant). g.id == id) s.grants then s else record s {
      grants =
          s.grants
          ++ (record {
            id = id;
            client = client;
            capabilities = cs;
            roots = map resolve roots;
            until = instant (now + duration);
            max_uses = max_uses;
            uses = 0;
            created_at = instant now;
          }
              ∷ []);
      grant_required = with_entry client (some true) s.grant_required;
    }

pub data AccessFault : Type 0 where
  no_capabilities no_roots invalid_expiry invalid_max_uses : String → AccessFault
  off_invariant_failed read_only_invariant_failed : AccessFault

abbrev pub fault_if : Bool → AccessFault → List AccessFault
fault_if true e = e ∷ []
fault_if false e = []

abbrev pub is_parsed : Stamp → Bool
is_parsed (instant t) = true
is_parsed (unparsed s) = false

-- The faults of one grant, whose client and capabilities are of their types.
unfoldable pub grant_faults : CapabilityGrant → List AccessFault
grant_faults g =
    fault_if (is_empty g.capabilities) (no_capabilities g.id)
    ++ (fault_if (is_empty g.roots) (no_roots g.id)
        ++ (fault_if (not (is_parsed g.until)) (invalid_expiry g.id)
            ++ fault_if (elim g.max_uses [ none ↦ false | some m ↦ eqb m 0 ])
                (invalid_max_uses g.id)))

unfoldable pub all_grant_faults : List CapabilityGrant → List AccessFault
all_grant_faults [] = []
all_grant_faults (g ∷ gs) = grant_faults g ++ all_grant_faults gs

abbrev pub is_allowed : AccessDecision → Bool
is_allowed (allowed p g) = true
is_allowed (refused r) = false

-- The two checks of the policy by the decision itself.
unfoldable pub invariant_faults : PathHost → AccessState → ℕ → List AccessFault
invariant_faults host s now =
    fault_if
      (is_allowed (
        authorize_operation host (record s { mode = off }) none "dex.fingerprint"
          ReachProfile.full_local now end))
      off_invariant_failed
    ++ fault_if
        (is_allowed (
          authorize_operation host (record s { mode = AccessMode.read_only }) none "dex.file.write"
            ReachProfile.full_local now end))
        read_only_invariant_failed

unfoldable pub policy_check : PathHost → AccessState → ℕ → List AccessFault
policy_check host s now = all_grant_faults s.grants ++ invariant_faults host s now
