-- ===== src/Tasks/Change.antt =====
-- `update` and `transition` of src/node/task-store.ts. The task events that follow are left out.
use Prim.Native.String.{String}
use dex_reach.Common.{
  Bool, true, false, not, not, ◌&&◌, Option, none, some, List, length, take, any, leb, text_eq,
  nat_eq, if◌then◌else◌, is_empty,
}
use dex_reach.Common.Outcome.{Result, ok, err, and_then, refuse}
use dex_reach.Labels.{Text, codes, is_task_id}
use dex_reach.Tasks.{
  TaskState, accepted, preparing, running, input_required, ambiguous, completed, failed, cancelled,
  reconciled, legal_transition, ReachTaskRecord, TaskError, invalid_task_id, invalid_id,
  invalid_hash, quarantined, update_is_empty, status_too_long, archived_is_immutable,
  task_not_found, cancellation_unproven, illegal_transition, is_safe_id, is_hash, optional,
}
use dex_reach.Tasks.Table.{lookup, assign}
use dex_reach.Tasks.Store.{NodeHost, Update, mutate}

state_text : TaskState → String
state_text accepted = "Task accepted."
state_text preparing = "Task preparing."
state_text running = "Task running."
state_text input_required = "Task input_required."
state_text ambiguous = "Task ambiguous."
state_text completed = "Task completed."
state_text failed = "Task failed."
state_text cancelled = "Task cancelled."
state_text reconciled = "Task reconciled."

-- `status || …`: an empty status counts as none.
status_or_default : Option Text → TaskState → Text
unfolding state_text
status_or_default none s = codes (state_text s)
status_or_default (some t) s = if is_empty t then codes (state_text s) else t

unfoldable pub share_safe_status : NodeHost → Text → Text
share_safe_status host t = take 240 (host.redact t)

-- The three values of an optional field of an update: left out, null, or a text.
pub data Change : Type 0 where
  keep clear : Change
  set : Text → Change

pub record TaskUpdate : Type 0 where
  pub state : Option TaskState
  pub status : Option Text
  pub result_ref : Change
  pub result_hash : Change
  pub failure_class : Change

unfoldable pub change_field :
    (Text → Bool) → TaskError → Change → Option Text → Result TaskError (Option Text)
change_field p e keep old = ok old
change_field p e clear old = ok none
change_field p e (set t) old = and_then (refuse (not (p t)) e) λ _. ok (some t)

unfoldable pub move_state :
    NodeHost → TaskState → Option Text → ReachTaskRecord → Result TaskError ReachTaskRecord
unfolding status_or_default
move_state host s t r =
    and_then (refuse (not (legal_transition r.state s)) (illegal_transition r.state s))
      λ _. ok (record r { state = s; status = share_safe_status host (status_or_default t s) })

unfoldable pub update_state :
    NodeHost → TaskUpdate → ReachTaskRecord → Result TaskError ReachTaskRecord
update_state host u r = elim u.state [
  | some s ↦ move_state host s u.status r
  | none ↦ elim u.status [
    | none ↦ ok r
    | some t ↦ ok (record r { status = share_safe_status host t })
  ]
]

unfoldable pub update_record :
    NodeHost → TaskUpdate → ReachTaskRecord → Result TaskError ReachTaskRecord
update_record host u r = and_then (update_state host u r) λ v.
    and_then (change_field is_safe_id invalid_id u.result_ref v.result_ref) λ ref.
      and_then (change_field is_hash invalid_hash u.result_hash v.result_hash) λ hash.
        and_then (change_field is_safe_id invalid_id u.failure_class v.failure_class) λ class.
          ok (record v {
            result_ref = ref;
            result_hash = hash;
            failure_class = class;
            updated_at = host.now;
          })

-- The active record under an identity, changed by a step that may throw.
unfoldable pub change_active :
    String → (ReachTaskRecord → Result TaskError ReachTaskRecord) → Update ReachTaskRecord
change_active id step d = elim (lookup id d.records) [
  | none ↦ elim (lookup id d.archived) [
    | some r ↦ err archived_is_immutable
    | none ↦ err task_not_found
  ]
  | some r ↦ and_then (step r) λ v. ok (v, record d { records = assign id v d.records })
]

unfoldable pub check_target : NodeHost → String → Result TaskError (Unit {0})
check_target host id =
    and_then (refuse (not (is_task_id (codes id))) invalid_task_id)
      λ _. refuse (host.is_quarantined id) quarantined

unfoldable pub is_kept : Change → Bool
is_kept keep = true
is_kept _ = false

unfoldable pub is_absent {ℓ} : {A : Type ℓ} → Option A → Bool
is_absent none = true
is_absent (some a) = false

-- The test before an update is made: it does not ask for a state.
unfoldable pub check_update : TaskUpdate → Result TaskError (Unit {0})
check_update u =
    and_then
      (refuse
        (is_absent u.status
          && (is_kept u.result_ref && (is_kept u.result_hash && is_kept u.failure_class)))
        update_is_empty)
      λ _. refuse (not (optional (λ t. leb (length t) 240) u.status)) status_too_long

unfoldable pub update : NodeHost → String → TaskUpdate → Update ReachTaskRecord
update host id u d =
    and_then (check_target host id)
      λ _. and_then (check_update u) λ _. mutate host (change_active id (update_record host u)) d

unfoldable pub same_state : TaskState → TaskState → Bool
same_state accepted accepted = true
same_state preparing preparing = true
same_state running running = true
same_state input_required input_required = true
same_state ambiguous ambiguous = true
same_state completed completed = true
same_state failed failed = true
same_state cancelled cancelled = true
same_state reconciled reconciled = true
same_state _ _ = false

unfoldable pub transition_record :
    NodeHost
    → TaskState
    → Option Text
    → Option (List TaskState)
    → ReachTaskRecord
    → Result TaskError ReachTaskRecord
transition_record host s t expected r =
    and_then
      (refuse (not (optional (λ ss. any (same_state r.state) ss) expected)) cancellation_unproven)
      λ _. and_then (move_state host s t r) λ v. ok (record v { updated_at = host.now })

unfoldable pub transition :
    NodeHost → String → TaskState → Option Text → Option (List TaskState) → Update ReachTaskRecord
transition host id s t expected d =
    and_then (check_target host id)
      λ _. mutate host (change_active id (transition_record host s t expected)) d
