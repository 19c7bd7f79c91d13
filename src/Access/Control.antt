-- ===== src/Access/Control.antt =====
-- `authorizeTaskControl` of src/shared/access.ts: control of a task under the authority that it was started
-- with.
use Prim.Native.String.{String}
use dex_reach.Common.{
  ℕ, true, not, ◌&&◌, Option, none, some, any, any-some, Memᴰ, ◌≡◌, refl, inl, inr, Bool-cases,
  ◌==◌, text_eq, if◌then◌else◌,
}
use dex_reach.Common.Outcome.{Result, ok, err, err_not_ok}
use dex_reach.Json.{end}
use dex_reach.Clients.{ReachProfile, RequestActor, no_entries}
use dex_reach.Tasks.{TaskAuthority}
use dex_reach.Tasks.Store.{truthy}
use dex_reach.Catalog.Required.{PathHost}
use dex_reach.Access.Laws.{Covers, is_active-Covers}
use dex_reach.Access.Reserve.Uses.{decision-cases}
use dex_reach.Access.{
  CapabilityGrant, AccessState, kind_of, is_active, allowed, refused, Refusal, requires_grant,
  authorize_operation,
}

pub data ControlError : Type 0 where
  control_refused : Refusal → ControlError
  no_legacy_authority authority_withdrawn : ControlError

-- The original authority, or the policy of the start where a record has none.
unfoldable pub check_authority :
    PathHost
    → (AccessState → String)
    → AccessState
    → Option RequestActor
    → Option TaskAuthority
    → Option String
    → ℕ
    → Result ControlError (Unit {0})
check_authority host hash_value s actor none policy_hash now =
    if requires_grant s actor then err no_legacy_authority else elim (truthy policy_hash) [
      | none ↦ err no_legacy_authority
      | some h ↦ if hash_value s == h then ok tt else err no_legacy_authority
    ]
check_authority host hash_value s actor (some a) policy_hash now =
    if requires_grant s actor
      && not (any (is_active host (kind_of actor) a.capabilities a.paths now) s.grants)
    then err authority_withdrawn
    else ok tt

unfoldable pub authorize_task_control :
    PathHost
    → (AccessState → String)
    → AccessState
    → Option RequestActor
    → String
    → ReachProfile
    → Option TaskAuthority
    → Option String
    → ℕ
    → Result ControlError (Unit {0})
authorize_task_control host hash_value s actor o profile authority policy_hash now =
    elim (authorize_operation host (record s { grant_required = no_entries }) actor o profile now
      end) [
        | refused r ↦ err (control_refused r)
        | allowed p g ↦ check_authority host hash_value s actor authority policy_hash now
      ]

check_authority-Covers :
    (host : PathHost) (hash_value : AccessState → String) (s : AccessState)
    (actor : Option RequestActor) (authority : Option TaskAuthority) (policy_hash : Option String)
    (now : ℕ)
    → requires_grant s actor ≡ true
    → check_authority host hash_value s actor authority policy_hash now ≡ ok tt
    → (a : TaskAuthority) × (authority ≡ some a)
      × (g : CapabilityGrant) × Memᴰ g s.grants
      × Covers host (kind_of actor) a.capabilities a.paths now g
unfolding check_authority
check_authority-Covers host hash_value s actor none policy_hash now r h =
    let k = rw (check_authority, r) at h in err_not_ok k
check_authority-Covers host hash_value s actor (some a) policy_hash now r h =
    let test = is_active host (kind_of actor) a.capabilities a.paths now in
    elim (Bool-cases (any test s.grants)) [
      | inl e ↦
          let (g, m, k) = any-some test s.grants e in
          (a, refl, g, m, is_active-Covers host _ _ _ now g k)
      | inr e ↦ let k = rw (check_authority, r, e) at h in err_not_ok k
    ]

-- Where the client needs a grant, a task may be controlled only if its record has the authority that it was
-- started with, and a grant of the policy covers that authority now: of the client, not expired, not
-- used up, with all its capabilities and with its paths under the roots.
pub authorize_task_control-Covers :
    (host : PathHost) (hash_value : AccessState → String) (s : AccessState)
    (actor : Option RequestActor) (o : String) (profile : ReachProfile)
    (authority : Option TaskAuthority) (policy_hash : Option String) (now : ℕ)
    → requires_grant s actor ≡ true
    → authorize_task_control host hash_value s actor o profile authority policy_hash now ≡ ok tt
    → (a : TaskAuthority) × (authority ≡ some a)
      × (g : CapabilityGrant) × Memᴰ g s.grants
      × Covers host (kind_of actor) a.capabilities a.paths now g
unfolding authorize_task_control
authorize_task_control-Covers host hash_value s actor o profile authority policy_hash now r h =
    elim (decision-cases (
      authorize_operation host (record s { grant_required = no_entries }) actor o profile now
        end)) [
          | inl (x, d) ↦ let k = rw (authorize_task_control, d) at h in err_not_ok k
          | inr (p, id, d) ↦
              let k = rw (authorize_task_control, d) at h in
              check_authority-Covers host hash_value s actor authority policy_hash now r k
        ]
