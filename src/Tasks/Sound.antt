-- ===== src/Tasks/Sound.antt =====
-- The consistency of the document of src/node/task-store.ts, which every operation keeps: no key stands
-- twice or in both tables, the archive holds ended tasks only, no lineage is deeper than the bound, and
-- one execution (idempotency key, actor, node, operation) has one task.
use Prim.Native.String.{String}
use mathlib.Core.Path.{subst}
use dex_reach.Common.{
  ◌≤◌, ◌≡◌, refl, sym, ◌∙◌, ap, ◌⊎◌, inl, inr, true, none, some, ◌==◌, text_eq, Bool-cases,
  Option-cases,
}
use dex_reach.Tasks.{is_terminal, ReachTaskRecord, max_depth}
use dex_reach.Tasks.Table.{
  lookup, assign, discard, same_key, lookup-assign_hit, lookup-assign_miss, lookup-discard_hit,
  lookup-discard_miss,
}
use dex_reach.Tasks.Store.{TaskStoreDocument, locate}
use dex_reach.Tasks.Lifecycle.{TaskIdentity, identity, Advances}
use dex_reach.Tasks.Keys.{
  IsKeyed, some_not_none, some_injective, stay-stood, swept-stood, IsKeyed-swept, kept-stood,
}
use dex_reach.Tasks.Steps.{ChangesOne, Archives, Sweeps}

pub record Execution : Type 0 where
  pub idempotency_key : String
  pub actor_id : String
  pub node_id : String
  pub operation : String

abbrev pub execution_of : TaskIdentity → Execution
execution_of t = record {
  idempotency_key = t.idempotency_key;
  actor_id = t.actor_id;
  node_id = t.node_id;
  operation = t.operation;
}

pub record IsSound (d : TaskStoreDocument) : Type 0 where
  pub keyed : IsKeyed d.records
  pub keyed_archive : IsKeyed d.archived
  pub apart :
      (id : String) {r : ReachTaskRecord}
      → lookup id d.records ≡ some r
      → lookup id d.archived ≡ none
  pub ended :
      (id : String) {r : ReachTaskRecord}
      → lookup id d.archived ≡ some r
      → is_terminal r.state ≡ true
  pub named :
      (id : String) {r : ReachTaskRecord}
      → locate id d ≡ some r
      → (r.task_id ≡ id) × (r.task_depth ≤ max_depth)
  pub unique :
      (i j : String) {r s : ReachTaskRecord}
      → locate i d ≡ some r
      → locate j d ≡ some s
      → execution_of (identity r) ≡ execution_of (identity s)
      → i ≡ j

pub locate-active :
    (id : String) (d : TaskStoreDocument) {r : ReachTaskRecord}
    → lookup id d.records ≡ some r
    → locate id d ≡ some r
unfolding locate
locate-active id d h = rw (h, locate)

pub locate-archived :
    (id : String) (d : TaskStoreDocument)
    → lookup id d.records ≡ none
    → locate id d ≡ lookup id d.archived
unfolding locate
locate-archived id d h = rw (h, locate)

pub locate-cases :
    (id : String) (d : TaskStoreDocument) {r : ReachTaskRecord}
    → locate id d ≡ some r
    → (lookup id d.records ≡ some r)
      ⊎ (lookup id d.records ≡ none) × (lookup id d.archived ≡ some r)
locate-cases id d h = elim (Option-cases (lookup id d.records)) [
  | inl e ↦ inr (e, sym (locate-archived id d e) ∙ h)
  | inr (x, e) ↦ inl (e ∙ sym (locate-active id d e) ∙ h)
]

-- Where a task of the later document comes from.
pub record Origin (id : String) (d : TaskStoreDocument) (v : ReachTaskRecord) : Type 0 where
  pub old : ReachTaskRecord
  pub stood : locate id d ≡ some old
  pub advances : Advances old v

abbrev pub Follows : TaskStoreDocument → TaskStoreDocument → Type 0
Follows d e = (id : String) (v : ReachTaskRecord) → locate id e ≡ some v → Origin id d v

pub itself :
    (id : String) (d : TaskStoreDocument) (v : ReachTaskRecord)
    → locate id d ≡ some v
    → Origin id d v
itself id d v h = record { old = v; stood = h; advances = record { same = refl; moved = inl refl } }

-- Names, depths and executions follow the tasks.
pub named-Follows :
    (d e : TaskStoreDocument)
    → IsSound d
    → Follows d e
    → (id : String) {r : ReachTaskRecord} → locate id e ≡ some r
    → (r.task_id ≡ id) × (r.task_depth ≤ max_depth)
named-Follows d e s f id {r} h =
    let o = f id r h in
    let (n, b) = s.named id o.stood in
    (
      sym (ap (λ t. t.task_id) o.advances.same) ∙ n,
      subst (λ z. z ≤ max_depth) (ap (λ t. t.task_depth) o.advances.same) b,
    )

pub unique-Follows :
    (d e : TaskStoreDocument)
    → IsSound d
    → Follows d e
    → (i j : String) {r s : ReachTaskRecord} → locate i e ≡ some r
    → locate j e ≡ some s
    → execution_of (identity r) ≡ execution_of (identity s)
    → i ≡ j
unique-Follows d e g f i j {r} {s} h k x =
    let o = f i r h in
    let p = f j s k in
    g.unique i j o.stood p.stood
      (ap execution_of o.advances.same ∙ x ∙ sym (ap execution_of p.advances.same))

module _ {d e : TaskStoreDocument} where
  pub change-Follows : ChangesOne d e → Follows d e
  change-Follows c id v h = elim (Bool-cases (c.id == id)) [
    | inl m ↦
        let k = same_key c.id id m in
        let at =
          ap (lookup id) c.now_active
          ∙ ap (λ z. lookup id (assign z c.new d.records)) k
          ∙ lookup-assign_hit id c.new d.records in
        let same = some_injective (sym (locate-active id e at) ∙ h) in
        record {
          old = c.old;
          stood = locate-active id d (ap (λ z. lookup z d.records) (sym k) ∙ c.stood);
          advances = subst (Advances c.old) same c.changes.advances;
        }
    | inr m ↦
        let at = ap (lookup id) c.now_active ∙ lookup-assign_miss id c.id c.new d.records m in
        elim (locate-cases id e h) [
          | inl s ↦ itself id d v (locate-active id d (sym at ∙ s))
          | inr (n, s) ↦
              itself id d v
                (locate-archived id d (sym at ∙ n) ∙ sym (ap (lookup id) c.same_archive) ∙ s)
        ]
  ]

  pub archive-Follows : Archives d e → Follows d e
  archive-Follows c id v h = elim (Bool-cases (c.id == id)) [
    | inl m ↦
        let k = same_key c.id id m in
        let stamped : ReachTaskRecord = record c.old { archived_at = some c.at } in
        let gone =
          ap (lookup id) c.now_active
          ∙ ap (λ z. lookup id (discard z d.records)) k
          ∙ lookup-discard_hit id d.records in
        let at =
          ap (lookup id) c.now_archived
          ∙ ap (λ z. lookup id (assign z stamped d.archived)) k
          ∙ lookup-assign_hit id stamped d.archived in
        let same = some_injective (sym at ∙ sym (locate-archived id e gone) ∙ h) in
        record {
          old = c.old;
          stood = locate-active id d (ap (λ z. lookup z d.records) (sym k) ∙ c.stood);
          advances = subst (Advances c.old) same (record { same = refl; moved = inl refl });
        }
    | inr m ↦
        let at = ap (lookup id) c.now_active ∙ lookup-discard_miss id c.id d.records m in
        let ar = ap (lookup id) c.now_archived ∙ lookup-assign_miss id c.id _ d.archived m in
        elim (locate-cases id e h) [
          | inl s ↦ itself id d v (locate-active id d (sym at ∙ s))
          | inr (n, s) ↦ itself id d v (locate-archived id d (sym at ∙ n) ∙ sym ar ∙ s)
        ]
  ]

  pub sweep-Follows : IsSound d → Sweeps d e → Follows d e
  sweep-Follows g c id v h = elim (locate-cases id e h) [
    | inl s ↦
        let (t, n) =
          stay-stood c.now c.terminal_ms d.records d.archived id g.keyed
            (sym (ap (lookup id) c.now_active) ∙ s) in
        itself id d v (locate-active id d t)
    | inr (n, s) ↦
        let swept = IsKeyed-swept c.now c.terminal_ms d.records d.archived g.keyed_archive in
        let t =
          kept-stood c.now c.archive_ms _ id swept (sym (ap (lookup id) c.now_archived) ∙ s) in
        elim (swept-stood c.now c.terminal_ms d.records d.archived id g.keyed t) [
          | inl a ↦ elim (Option-cases (lookup id d.records)) [
            | inl f ↦ itself id d v (locate-archived id d f ∙ a)
            | inr (x, f) ↦ some_not_none (sym a ∙ g.apart id f)
          ]
          | inr (b, f, due, z) ↦ record {
            old = b;
            stood = locate-active id d f;
            advances = subst (Advances b) z (record { same = refl; moved = inl refl });
          }
        ]
  ]
