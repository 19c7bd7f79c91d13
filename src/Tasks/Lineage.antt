-- ===== src/Tasks/Lineage.antt =====
-- What a created task of src/node/task-store.ts takes from its parent, and which executions it excludes.
use Prim.Native.String.{String}
use text.Mathlib.TextEquality.{eq_iff}
use dex_reach.Common.{
  ℕ, ◌+◌, ◌≤◌, ◌≡◌, refl, sym, ◌∙◌, ap, not, ltb, any, ◌++◌, ◌⊎◌, inl, inr, Bool, true, false, none,
  some, List, [], ◌∷◌, ◌==◌, text_eq, nat_eq, Option-cases, arith,
}
use dex_reach.Common.Outcome.{
  err_not_ok, Result, ok, err, refuse, and_then, and_then-ok, refuse-ok, ok_injective,
}
use dex_reach.Labels.{codes, is_task_id}
use dex_reach.Tasks.{
  ReachTaskRecord, TaskError, max_depth, invalid_task_id, invalid_depth, root_mismatch,
  depth_mismatch, parent_not_found,
}
use dex_reach.Tasks.Table.{values, lookup-any}
use dex_reach.Tasks.Store.{TaskStoreDocument, locate, all_records, or_else, truthy}
use dex_reach.Tasks.Create.{TaskCreateInput, Lineage, lineage_of, lineage_under, same_execution}
use dex_reach.Tasks.Lifecycle.{not-false}
use dex_reach.Tasks.Sound.{locate-cases}

leb_of_ltb : (a b : ℕ) → ltb b a ≡ false → a ≤ b
leb_of_ltb a b h = ground arith

equal_text : (a b : String) → not (a == b) ≡ false → a ≡ b
equal_text a b h = (eq_iff a b).0 (not-false _ h)

equal_nat : (a b : ℕ) → not (a == b) ≡ false → a ≡ b
equal_nat a b h = ground arith

depth_under_none :
    (id : String) (i : TaskCreateInput) {l : Lineage}
    → lineage_under id i none ≡ ok l
    → l.depth ≤ max_depth
unfolding lineage_under
depth_under_none id i h =
    let root = or_else i.root_task_id id in
    let depth = or_else i.task_depth 0 in
    let made : Unit {0} → Result TaskError Lineage =
      λ _. ok (record { root = root; depth = depth }) in
    let bounded : Unit {0} → Result TaskError Lineage =
      λ _. and_then (refuse (ltb max_depth depth) invalid_depth) made in
    let (_, _, k) =
      and_then-ok (refuse (not (is_task_id (codes root))) invalid_task_id) bounded h in
    let (_, b, k) = and_then-ok (refuse (ltb max_depth depth) invalid_depth) made k in
    let at = ap (λ z. z.depth) (ok_injective k) in
    let below = leb_of_ltb depth max_depth (refuse-ok _ _ b) in omega (arith, at, below)

pub lineage_under-child :
    (id : String) (i : TaskCreateInput) (p : ReachTaskRecord) {l : Lineage}
    → lineage_under id i (some p) ≡ ok l
    → (l.depth ≤ max_depth) × (l.root ≡ p.root_task_id) × (l.depth ≡ p.task_depth + 1)
unfolding lineage_under
lineage_under-child id i p h =
    let root = or_else i.root_task_id p.root_task_id in
    let depth = or_else i.task_depth (p.task_depth + 1) in
    let made : Unit {0} → Result TaskError Lineage =
      λ _. ok (record { root = root; depth = depth }) in
    let deep : Unit {0} → Result TaskError Lineage =
      λ _. and_then (refuse (not (depth == p.task_depth + 1)) depth_mismatch) made in
    let rooted : Unit {0} → Result TaskError Lineage =
      λ _. and_then (refuse (not (root == p.root_task_id)) root_mismatch) deep in
    let bounded : Unit {0} → Result TaskError Lineage =
      λ _. and_then (refuse (ltb max_depth depth) invalid_depth) rooted in
    let (_, _, k) =
      and_then-ok (refuse (not (is_task_id (codes root))) invalid_task_id) bounded h in
    let (_, b, k) = and_then-ok (refuse (ltb max_depth depth) invalid_depth) rooted k in
    let (_, r, k) = and_then-ok (refuse (not (root == p.root_task_id)) root_mismatch) deep k in
    let (_, d, k) = and_then-ok (refuse (not (depth == p.task_depth + 1)) depth_mismatch) made k in
    let same = ok_injective k in
    let at = ap (λ z. z.depth) same in
    let below = leb_of_ltb depth max_depth (refuse-ok _ _ b) in
    (
      omega (arith, at, below),
      sym (ap (λ z. z.root) same) ∙ equal_text _ _ (refuse-ok _ _ r),
      sym at ∙ equal_nat _ _ (refuse-ok _ _ d),
    )

pub lineage_of-root :
    (id : String) (i : TaskCreateInput) (d : TaskStoreDocument)
    → truthy i.parent_task_id ≡ none
    → lineage_of id i d ≡ lineage_under id i none
unfolding lineage_of
lineage_of-root id i d e = rw (e, lineage_of)

lineage_of-child :
    (id : String) (i : TaskCreateInput) (d : TaskStoreDocument) {p : String} {r : ReachTaskRecord}
    → truthy i.parent_task_id ≡ some p
    → locate p d ≡ some r
    → lineage_of id i d ≡ lineage_under id i (some r)
unfolding lineage_of
lineage_of-child id i d e f = rw (e, f, lineage_of)

lineage_of-orphan :
    (id : String) (i : TaskCreateInput) (d : TaskStoreDocument) {p : String}
    → truthy i.parent_task_id ≡ some p
    → locate p d ≡ none
    → lineage_of id i d ≡ err parent_not_found
unfolding lineage_of
lineage_of-orphan id i d e f = rw (e, f, lineage_of)

-- A task is created no deeper than the bound, and under a parent that is named only if that parent is
-- stored: it has the parent's root then, and stands one level below it.
pub lineage_of-ok :
    (id : String) (i : TaskCreateInput) (d : TaskStoreDocument) {l : Lineage}
    → lineage_of id i d ≡ ok l
    → (l.depth ≤ max_depth)
      × ((truthy i.parent_task_id ≡ none)
          ⊎ ((p : String) × (r : ReachTaskRecord) × (truthy i.parent_task_id ≡ some p)
              × (locate p d ≡ some r)
              × (l.root ≡ r.root_task_id)
              × (l.depth ≡ r.task_depth + 1)))
lineage_of-ok id i d h = elim (Option-cases (truthy i.parent_task_id)) [
  | inl e ↦ (depth_under_none id i (sym (lineage_of-root id i d e) ∙ h), inl e)
  | inr (p, e) ↦ elim (Option-cases (locate p d)) [
    | inl f ↦ err_not_ok (sym (lineage_of-orphan id i d e f) ∙ h)
    | inr (r, f) ↦
        let (a, b, c) = lineage_under-child id i r (sym (lineage_of-child id i d e f) ∙ h) in
        (a, inr (p, r, e, f, b, c))
  ]
]

any-append :
    {A : Type 0} (p : A → Bool) (xs ys : List A)
    → any p (xs ++ ys) ≡ false
    → (any p xs ≡ false) × (any p ys ≡ false)
any-append p [] ys h = (refl, h)
any-append p (x ∷ xs) ys h = ground (arith, any-append p xs ys)

-- An execution that no record has is not that of a task that is stored.
pub unused-locate :
    (i : TaskCreateInput) (id : String) (d : TaskStoreDocument) {r : ReachTaskRecord}
    → any (same_execution i) (all_records d) ≡ false
    → locate id d ≡ some r
    → same_execution i r ≡ false
unfolding all_records
unused-locate i id d h e =
    let (a, b) = any-append (same_execution i) (values d.records) (values d.archived) h in
    elim (locate-cases id d e) [
      | inl s ↦ lookup-any (same_execution i) id d.records a s
      | inr (n, s) ↦ lookup-any (same_execution i) id d.archived b s
    ]

-- Two tasks of one execution pass the store's test for it.
pub same_execution-holds :
    (i : TaskCreateInput) (r : ReachTaskRecord)
    → r.idempotency_key ≡ i.idempotency_key
    → r.actor_id ≡ i.actor_id
    → r.node_id ≡ i.node_id
    → r.operation ≡ i.operation
    → same_execution i r ≡ true
unfolding same_execution
same_execution-holds i r a b c d =
    let a' = (eq_iff r.idempotency_key i.idempotency_key).1 a in
    let b' = (eq_iff r.actor_id i.actor_id).1 b in
    let c' = (eq_iff r.node_id i.node_id).1 c in
    let d' = (eq_iff r.operation i.operation).1 d in rw (a', b', c', d')
