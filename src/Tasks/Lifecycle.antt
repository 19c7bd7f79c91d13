-- ===== src/Tasks/Lifecycle.antt =====
-- What one operation of src/node/task-store.ts may do to a task that is stored: its identity never
-- changes, its state moves along the table of transitions, and it leaves the store in no other way
-- than by the sweep of an ended task.
use Prim.Native.String.{String}
use dex_reach.Common.{
  ℕ, not, ◌≡◌, refl, sym, ◌∙◌, ap, ◌⊎◌, inl, inr, any, Bool, true, false, Option, some, List,
  text_eq, Option-cases, arith,
}
use mathlib.Core.Path.{subst}
use dex_reach.Common.Outcome.{
  err_not_ok, and_then-ok, refuse-ok, ok_injective, Result, ok, err, refuse, and_then,
}
use dex_reach.Labels.{Text}
use dex_reach.Tasks.{
  TaskState, accepted, preparing, running, input_required, ambiguous, completed, failed, cancelled,
  reconciled, is_terminal, legal_transition, optional, cancellation_unproven, read_only,
  task_not_found, archived_is_immutable, ReachTaskRecord, TaskError,
}
use dex_reach.Tasks.Table.{lookup, assign}
use dex_reach.Tasks.Store.{TaskStoreDocument, NodeHost, Update, mutate}
use dex_reach.Tasks.Create.{TaskCreateInput, create}
use dex_reach.Tasks.Change.{
  TaskUpdate, update_state, update_record, move_state, change_field, transition_record,
  change_active, update, transition, same_state, share_safe_status,
}
use dex_reach.Tasks.Sweep.{SweepOptions, archive, sweep}

-- The fields of a record that no operation may touch.
pub record TaskIdentity : Type 0 where
  pub task_id : String
  pub root_task_id : String
  pub parent_task_id : Option String
  pub task_depth : ℕ
  pub lineage_index : ℕ
  pub actor_id : String
  pub node_id : String
  pub operation : String
  pub attempt_number : ℕ
  pub attempt_budget : ℕ
  pub created_at : ℕ
  pub idempotency_key : String
  pub payload_sha256 : Text

abbrev pub identity : ReachTaskRecord → TaskIdentity
identity r = record {
  task_id = r.task_id;
  root_task_id = r.root_task_id;
  parent_task_id = r.parent_task_id;
  task_depth = r.task_depth;
  lineage_index = r.lineage_index;
  actor_id = r.actor_id;
  node_id = r.node_id;
  operation = r.operation;
  attempt_number = r.attempt_number;
  attempt_budget = r.attempt_budget;
  created_at = r.created_at;
  idempotency_key = r.idempotency_key;
  payload_sha256 = r.payload_sha256;
}

pub not-false : (b : Bool) → not b ≡ false → b ≡ true
not-false b h = ground arith

-- The same task, in the same state or one step along the table.
pub record Advances (r v : ReachTaskRecord) : Type 0 where
  pub same : identity r ≡ identity v
  pub moved : (r.state ≡ v.state) ⊎ (legal_transition r.state v.state ≡ true)

-- The table has no way out of a terminal state.
pub legal_transition-terminal :
    (s t : TaskState) → legal_transition s t ≡ true → is_terminal s ≡ false
unfolding legal_transition is_terminal
legal_transition-terminal accepted t h = refl
legal_transition-terminal preparing t h = refl
legal_transition-terminal running t h = refl
legal_transition-terminal input_required t h = refl
legal_transition-terminal ambiguous t h = refl
legal_transition-terminal completed t h = ground arith
legal_transition-terminal failed t h = ground arith
legal_transition-terminal cancelled t h = ground arith
legal_transition-terminal reconciled t h = ground arith

-- The operations of the store that write.
pub data Operation : Type 0 where
  create_task : TaskCreateInput → Operation
  update_task : String → TaskUpdate → Operation
  transition_task : String → TaskState → Option Text → Option (List TaskState) → Operation
  archive_task : String → Operation
  sweep_tasks : SweepOptions → Operation

abbrev document_after :
    {A : Type 0} → TaskStoreDocument → Result TaskError (A × TaskStoreDocument) → TaskStoreDocument
document_after d (ok (a, e)) = e
document_after d (err e) = d

-- The document after an operation: the one before it if the operation throws.
unfoldable pub perform : NodeHost → Operation → TaskStoreDocument → TaskStoreDocument
perform host (create_task i) d = document_after d (create host i d)
perform host (update_task id u) d = document_after d (update host id u d)
perform host (transition_task id s t e) d = document_after d (transition host id s t e d)
perform host (archive_task id) d = document_after d (archive host id d)
perform host (sweep_tasks o) d = document_after d (sweep host o d)

-- What one step of an update or a transition does to an active record.
pub record Changes (r v : ReachTaskRecord) : Type 0 where
  pub advances : Advances r v
  pub archived : r.archived_at ≡ v.archived_at

module _ (host : NodeHost) where
  pub move_state-Changes :
      (s : TaskState) (t : Option Text) (r : ReachTaskRecord) {v : ReachTaskRecord}
      → move_state host s t r ≡ ok v
      → Changes r v
  unfolding move_state
  move_state-Changes s t r h =
      let (_, g, k) = and_then-ok (refuse _ _) _ h in
      let legal = not-false _ (refuse-ok _ _ g) in
      subst (Changes r) (ok_injective k)
        (record { advances = record { same = refl; moved = inr legal }; archived = refl })

  stays : (r : ReachTaskRecord) → Changes r r
  stays r = record { advances = record { same = refl; moved = inl refl }; archived = refl }

  update_state-Changes :
      (u : TaskUpdate) (r : ReachTaskRecord) {v : ReachTaskRecord}
      → update_state host u r ≡ ok v
      → Changes r v
  unfolding update_state
  update_state-Changes u r h = elim (Option-cases u.state) [
    | inr (s, e) ↦
        let q : update_state host u r ≡ move_state host s u.status r = rw e in
        move_state-Changes s u.status r (sym q ∙ h)
    | inl e ↦ elim (Option-cases u.status) [
      | inl f ↦
          let q : update_state host u r ≡ ok r = rw (e, f) in
          subst (Changes r) (ok_injective (sym q ∙ h)) (stays r)
      | inr (t, f) ↦
          let q : update_state host u r ≡ ok (record r { status = share_safe_status host t }) =
            rw (e, f) in
          subst (Changes r) (ok_injective (sym q ∙ h))
            (record { advances = record { same = refl; moved = inl refl }; archived = refl })
    ]
  ]

  pub update_record-Changes :
      (u : TaskUpdate) (r : ReachTaskRecord) {v : ReachTaskRecord}
      → update_record host u r ≡ ok v
      → Changes r v
  unfolding update_record
  update_record-Changes u r h =
      let (w, e, k) = and_then-ok (update_state host u r) _ h in
      let (ref, _, k) = and_then-ok (change_field _ _ _ _) _ k in
      let (hash, _, k) = and_then-ok (change_field _ _ _ _) _ k in
      let (class, _, k) = and_then-ok (change_field _ _ _ _) _ k in
      let c = update_state-Changes u r e in
      subst (Changes r) (ok_injective k) (record {
        advances = record { same = c.advances.same; moved = c.advances.moved };
        archived = c.archived;
      })

  pub transition_record-Changes :
      (s : TaskState) (t : Option Text) (o : Option (List TaskState)) (r : ReachTaskRecord)
      {v : ReachTaskRecord}
      → transition_record host s t o r ≡ ok v
      → Changes r v
  unfolding transition_record
  transition_record-Changes s t o r h =
      let stamp : ReachTaskRecord → Result TaskError ReachTaskRecord =
        λ v. ok (record v { updated_at = host.now }) in
      let (_, _, k) =
        and_then-ok
          (refuse (not (optional (λ ss. any (same_state r.state) ss) o)) cancellation_unproven)
          (λ _. and_then (move_state host s t r) stamp) h in
      let (w, e, k) = and_then-ok (move_state host s t r) stamp k in
      let c = move_state-Changes s t r e in
      subst (Changes r) (ok_injective k) (record {
        advances = record { same = c.advances.same; moved = c.advances.moved };
        archived = c.archived;
      })

-- A document that an operation returns is the one its body returns, stamped.
pub mutate-ok :
    {A : Type 0} (host : NodeHost) (f : Update A) (d : TaskStoreDocument) {a : A}
    {e : TaskStoreDocument}
    → mutate host f d ≡ ok (a, e)
    → (b : TaskStoreDocument) × (f d ≡ ok (a, b))
      × (e.records ≡ b.records)
      × (e.archived ≡ b.archived)
unfolding mutate
mutate-ok {A} host f d h =
    let stamp : A × TaskStoreDocument → Result TaskError (A × TaskStoreDocument) =
      λ r. ok (r.0, record r.1 { updated_at = host.now }) in
    let (_, _, k) =
      and_then-ok (refuse host.compatibility_mode read_only) (λ _. and_then (f d) stamp) h in
    let ((a, b), g, k) = and_then-ok (f d) stamp k in
    let same = ok_injective k in
    (
      b,
      g ∙ ap (λ p. ok (p, b)) (ap (λ p. p.0) same),
      ap (λ p. p.1.records) (sym same),
      ap (λ p. p.1.archived) (sym same),
    )

-- A successful step on an active record: which record it was, and what it became.
pub change_active-ok :
    (id : String) (step : ReachTaskRecord → Result TaskError ReachTaskRecord)
    (d : TaskStoreDocument) {v : ReachTaskRecord} {e : TaskStoreDocument}
    → change_active id step d ≡ ok (v, e)
    → (r : ReachTaskRecord) × (lookup id d.records ≡ some r)
      × (step r ≡ ok v)
      × (e.records ≡ assign id v d.records)
      × (e.archived ≡ d.archived)
unfolding change_active
change_active-ok id step d {v} {e} h = elim (Option-cases (lookup id d.records)) [
  | inl f ↦ elim (Option-cases (lookup id d.archived)) [
    | inl g ↦
        let q : change_active id step d ≡ err task_not_found = rw (f, g, change_active) in
        err_not_ok (sym q ∙ h)
    | inr (r, g) ↦
        let q : change_active id step d ≡ err archived_is_immutable = rw (f, g, change_active) in
        err_not_ok (sym q ∙ h)
  ]
  | inr (r, f) ↦
      let q : change_active id step d
          ≡ and_then (step r) (λ v. ok (v, record d { records = assign id v d.records })) =
        rw (f, change_active) in
      let (w, s, k) = and_then-ok (step r) _ (sym q ∙ h) in
      let same = ok_injective k in
      (
        r,
        f,
        s ∙ ap ok (ap (λ p. p.0) same),
        ap (λ p. p.1.records) (sym same) ∙ ap (λ z. assign id z d.records) (ap (λ p. p.0) same),
        ap (λ p. p.1.archived) (sym same),
      )
]
