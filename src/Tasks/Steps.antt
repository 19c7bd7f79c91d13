-- ===== src/Tasks/Steps.antt =====
-- What each operation of src/node/task-store.ts does to the two tables of the document.
use Prim.Native.String.{String}
use dex_reach.Common.{
  ℕ, ◌≡◌, refl, sym, ◌∙◌, ap, not, inl, inr, any, true, false, Option, none, some, List, text_eq,
  Option-cases, if◌then◌else◌, ◌*◌,
}
use dex_reach.Common.Outcome.{
  err_not_ok, Result, ok, err, refuse, and_then, Result-cases, and_then-ok, refuse-ok, ok_injective,
}
use dex_reach.Labels.{Text, codes, is_task_id}
use dex_reach.Tasks.{
  is_terminal, ReachTaskRecord, TaskError, task_not_found, not_terminal, idempotency_key_exists,
  identity_exists, identity_conflicts, validate_record, invalid_task_id,
}
use dex_reach.Tasks.{TaskState}
use dex_reach.Tasks.Change.{TaskUpdate}
use dex_reach.Tasks.Sweep.{SweepResult}
use dex_reach.Labels.{Text}
use dex_reach.Common.{if◌then◌else◌, ◌*◌}
use dex_reach.Tasks.Table.{lookup, assign, discard}
use dex_reach.Tasks.Store.{TaskStoreDocument, NodeHost, mutate, locate, all_records, or_else}
use dex_reach.Tasks.Create.{
  TaskCreateInput, Lineage, create, check_create, check_unused, lineage_of, new_record, insert_new,
  same_execution, same_binding,
}
use dex_reach.Tasks.Change.{
  update, transition, update_record, transition_record, change_active, check_target, check_update,
}
use dex_reach.Tasks.Sweep.{
  SweepOptions, archive, archive_record, sweep, sweep_records, sweep_archive, sweep_document,
  day_ms,
}
use dex_reach.Tasks.Lifecycle.{
  Changes, Operation, create_task, update_task, transition_task, archive_task, sweep_tasks, perform,
  mutate-ok, change_active-ok, update_record-Changes, transition_record-Changes, not-false,
}

pub record Creates (host : NodeHost) (d e : TaskStoreDocument) : Type 0 where
  pub id : String
  pub input : TaskCreateInput
  pub lineage : Lineage
  pub free : locate id d ≡ none
  pub unused : any (same_execution input) (all_records d) ≡ false
  pub lined : lineage_of id input d ≡ ok lineage
  pub now_active : e.records ≡ assign id (new_record host id input lineage d) d.records
  pub same_archive : e.archived ≡ d.archived

pub record ChangesOne (d e : TaskStoreDocument) : Type 0 where
  pub id : String
  pub old : ReachTaskRecord
  pub new : ReachTaskRecord
  pub stood : lookup id d.records ≡ some old
  pub changes : Changes old new
  pub now_active : e.records ≡ assign id new d.records
  pub same_archive : e.archived ≡ d.archived

pub record Archives (d e : TaskStoreDocument) : Type 0 where
  pub id : String
  pub old : ReachTaskRecord
  pub at : ℕ
  pub stood : lookup id d.records ≡ some old
  pub ended : is_terminal old.state ≡ true
  pub now_active : e.records ≡ discard id d.records
  pub now_archived : e.archived ≡ assign id (record old { archived_at = some at }) d.archived

pub record Sweeps (d e : TaskStoreDocument) : Type 0 where
  pub now : ℕ
  pub terminal_ms : ℕ
  pub archive_ms : ℕ
  pub now_active : e.records ≡ (sweep_records now terminal_ms d.records d.archived).0
  pub now_archived :
      e.archived
      ≡ (sweep_archive now archive_ms (sweep_records now terminal_ms d.records d.archived).1).0

-- The five things that an operation may do to the tables.
pub data Step (host : NodeHost) (d e : TaskStoreDocument) : Type 0 where
  idles : e ≡ d → Step host d e
  creates : Creates host d e → Step host d e
  changes : ChangesOne d e → Step host d e
  archives : Archives d e → Step host d e
  sweeps : Sweeps d e → Step host d e

-- A creation goes on only with a free identity and an unused idempotency key.
check_unused-ok :
    (id : String) (i : TaskCreateInput) (d : TaskStoreDocument) {u : Unit {0}}
    → check_unused id i d ≡ ok u
    → (locate id d ≡ none) × (any (same_execution i) (all_records d) ≡ false)
unfolding check_unused
check_unused-ok id i d h = elim (Option-cases (locate id d)) [
  | inl e ↦
      let q : check_unused id i d
          ≡ refuse (any (same_execution i) (all_records d)) idempotency_key_exists =
        rw (e, check_unused) in
      (e, refuse-ok _ _ (sym q ∙ h))
  | inr (r, e) ↦
      let q : check_unused id i d
          ≡ err (if same_binding i r then identity_exists else identity_conflicts) =
        rw (e, check_unused) in
      err_not_ok (sym q ∙ h)
]

-- An archived record ended, and moves from one table to the other.
archive_record-ok :
    (host : NodeHost) (id : String) (d : TaskStoreDocument) {v : ReachTaskRecord}
    {b : TaskStoreDocument}
    → archive_record host id d ≡ ok (v, b)
    → Archives d b
unfolding archive_record
archive_record-ok host id d h = elim (Option-cases (lookup id d.records)) [
  | inl e ↦
      let q : archive_record host id d ≡ err task_not_found = rw (e, archive_record) in
      err_not_ok (sym q ∙ h)
  | inr (r, e) ↦
      let put : Unit {0} → Result TaskError (ReachTaskRecord × TaskStoreDocument) = λ _. ok (
        record r { archived_at = some host.now },
        record d {
          archived = assign id (record r { archived_at = some host.now }) d.archived;
          records = discard id d.records;
        },
      ) in
      let q : archive_record host id d
          ≡ and_then (refuse (not (is_terminal r.state)) not_terminal) put =
        rw (e, archive_record) in
      let (_, g, k) =
        and_then-ok (refuse (not (is_terminal r.state)) not_terminal) put (sym q ∙ h) in
      let same = ok_injective k in
      record {
        id = id;
        old = r;
        at = host.now;
        stood = e;
        ended = not-false _ (refuse-ok _ _ g);
        now_active = ap (λ p. p.1.records) (sym same);
        now_archived = ap (λ p. p.1.archived) (sym same);
      }
]

module _ (host : NodeHost) (d : TaskStoreDocument) where
  insert_new-ok :
      (id : String) (i : TaskCreateInput) {r : ReachTaskRecord} {b : TaskStoreDocument}
      → insert_new host id i d ≡ ok (r, b)
      → Creates host d b
  unfolding insert_new
  insert_new-ok id i h =
      let new = λ (l : Lineage). new_record host id i l d in
      let put : (l : Lineage) → Unit {0} → Result TaskError (ReachTaskRecord × TaskStoreDocument) =
        λ l _. ok (new l, record d { records = assign id (new l) d.records }) in
      let valid : Lineage → Result TaskError (ReachTaskRecord × TaskStoreDocument) =
        λ l. and_then (validate_record host.is_absolute (new l)) (put l) in
      let (_, unused, k) =
        and_then-ok (check_unused id i d) (λ _. and_then (lineage_of id i d) valid) h in
      let (l, lined, k) = and_then-ok (lineage_of id i d) valid k in
      let (_, _, k) = and_then-ok (validate_record host.is_absolute (new l)) (put l) k in
      let same = ok_injective k in
      let free = check_unused-ok id i d unused in
      record {
        id = id;
        input = i;
        lineage = l;
        free = free.0;
        unused = free.1;
        lined = lined;
        now_active = ap (λ p. p.1.records) (sym same);
        same_archive = ap (λ p. p.1.archived) (sym same);
      }

  -- The record that a creation returns, and the lineage that it took.
  pub create-record :
      (i : TaskCreateInput) {r : ReachTaskRecord} {e : TaskStoreDocument}
      → create host i d ≡ ok (r, e)
      → (l : Lineage) × (lineage_of (or_else i.task_id host.fresh_id) i d ≡ ok l)
        × (r ≡ new_record host (or_else i.task_id host.fresh_id) i l d)
  unfolding create insert_new
  create-record i h =
      let id = or_else i.task_id host.fresh_id in
      let (_, _, k) =
        and_then-ok (check_create id i) (λ _. mutate host (insert_new host id i) d) h in
      let (b, k, active, archive) = mutate-ok host (insert_new host id i) d k in
      let put : (l : Lineage) → Unit {0} → Result TaskError (ReachTaskRecord × TaskStoreDocument) =
        λ l _. ok (
          new_record host id i l d,
          record d { records = assign id (new_record host id i l d) d.records },
        ) in
      let valid : Lineage → Result TaskError (ReachTaskRecord × TaskStoreDocument) =
        λ l. and_then (validate_record host.is_absolute (new_record host id i l d)) (put l) in
      let (_, _, k) =
        and_then-ok (check_unused id i d) (λ _. and_then (lineage_of id i d) valid) k in
      let (l, lined, k) = and_then-ok (lineage_of id i d) valid k in
      let (_, _, k) =
        and_then-ok (validate_record host.is_absolute (new_record host id i l d)) (put l) k in
      (l, lined, ap (λ p. p.0) (sym (ok_injective k)))

  create-Creates :
      (i : TaskCreateInput) {r : ReachTaskRecord} {e : TaskStoreDocument}
      → create host i d ≡ ok (r, e)
      → Creates host d e
  unfolding create
  create-Creates i h =
      let id = or_else i.task_id host.fresh_id in
      let (_, _, k) =
        and_then-ok (check_create id i) (λ _. mutate host (insert_new host id i) d) h in
      let (b, k, active, archive) = mutate-ok host (insert_new host id i) d k in
      let c = insert_new-ok id i k in
      record {
        id = c.id;
        input = c.input;
        lineage = c.lineage;
        free = c.free;
        unused = c.unused;
        lined = c.lined;
        now_active = active ∙ c.now_active;
        same_archive = archive ∙ c.same_archive;
      }

  change-ChangesOne :
      (id : String) (step : ReachTaskRecord → Result TaskError ReachTaskRecord)
      → ((r v : ReachTaskRecord) → step r ≡ ok v → Changes r v)
      → {r : ReachTaskRecord} {e : TaskStoreDocument}
      → mutate host (change_active id step) d ≡ ok (r, e)
      → ChangesOne d e
  change-ChangesOne id step small {r} h =
      let (b, k, active, archive) = mutate-ok host (change_active id step) d h in
      let (old, stood, done, assigned, kept) = change_active-ok id step d k in
      record {
        id = id;
        old = old;
        new = r;
        stood = stood;
        changes = small old r done;
        now_active = active ∙ assigned;
        same_archive = archive ∙ kept;
      }

  update-ChangesOne :
      (id : String) (u : TaskUpdate) {r : ReachTaskRecord} {e : TaskStoreDocument}
      → update host id u d ≡ ok (r, e)
      → ChangesOne d e
  unfolding update
  update-ChangesOne id u h =
      let rest : Unit {0} → Result TaskError (ReachTaskRecord × TaskStoreDocument) =
        λ _. mutate host (change_active id (update_record host u)) d in
      let (_, _, k) = and_then-ok (check_target host id) (λ _. and_then (check_update u) rest) h in
      let (_, _, k) = and_then-ok (check_update u) rest k in
      change-ChangesOne id (update_record host u) (λ r v. update_record-Changes host u r) k

  transition-ChangesOne :
      (id : String) (s : TaskState) (t : Option Text) (o : Option (List TaskState))
      {r : ReachTaskRecord} {e : TaskStoreDocument}
      → transition host id s t o d ≡ ok (r, e)
      → ChangesOne d e
  unfolding transition
  transition-ChangesOne id s t o h =
      let step = transition_record host s t o in
      let (_, _, k) =
        and_then-ok (check_target host id) (λ _. mutate host (change_active id step) d) h in
      change-ChangesOne id step (λ r v. transition_record-Changes host s t o r) k

  archive-Archives :
      (id : String) {r : ReachTaskRecord} {e : TaskStoreDocument}
      → archive host id d ≡ ok (r, e)
      → Archives d e
  unfolding archive
  archive-Archives id h =
      let (_, _, k) =
        and_then-ok (refuse (not (is_task_id (codes id))) invalid_task_id)
          (λ _. mutate host (archive_record host id) d) h in
      let (b, k, active, archive) = mutate-ok host (archive_record host id) d k in
      let a = archive_record-ok host id d k in
      record {
        id = a.id;
        old = a.old;
        at = a.at;
        stood = a.stood;
        ended = a.ended;
        now_active = active ∙ a.now_active;
        now_archived = archive ∙ a.now_archived;
      }

  sweep-Sweeps :
      (o : SweepOptions) {r : SweepResult} {e : TaskStoreDocument}
      → sweep host o d ≡ ok (r, e)
      → Sweeps d e
  unfolding sweep sweep_document
  sweep-Sweeps o h =
      let now = or_else o.now host.now in
      let t = or_else o.terminal_retention_ms (30 * day_ms) in
      let a = or_else o.archive_retention_ms (90 * day_ms) in
      let (b, k, active, archive) = mutate-ok host (sweep_document now t a) d h in
      let same = ok_injective k in
      record {
        now = now;
        terminal_ms = t;
        archive_ms = a;
        now_active = active ∙ ap (λ p. p.1.records) (sym same);
        now_archived = archive ∙ ap (λ p. p.1.archived) (sym same);
      }

  -- Every operation does one of the five things.
  pub perform-Step : (o : Operation) → Step host d (perform host o d)
  unfolding perform
  perform-Step (create_task i) = elim (Result-cases (create host i d)) [
    | inl (a, h) ↦ rw h (creates (create-Creates i h))
    | inr (x, h) ↦ rw h (idles refl)
  ]
  perform-Step (update_task id u) = elim (Result-cases (update host id u d)) [
    | inl (a, h) ↦ rw h (changes (update-ChangesOne id u h))
    | inr (x, h) ↦ rw h (idles refl)
  ]
  perform-Step (transition_task id s t e) = elim (Result-cases (transition host id s t e d)) [
    | inl (a, h) ↦ rw h (changes (transition-ChangesOne id s t e h))
    | inr (x, h) ↦ rw h (idles refl)
  ]
  perform-Step (archive_task id) = elim (Result-cases (archive host id d)) [
    | inl (a, h) ↦ rw h (archives (archive-Archives id h))
    | inr (x, h) ↦ rw h (idles refl)
  ]
  perform-Step (sweep_tasks o) = elim (Result-cases (sweep host o d)) [
    | inl (a, h) ↦ rw h (sweeps (sweep-Sweeps o h))
    | inr (x, h) ↦ rw h (idles refl)
  ]
