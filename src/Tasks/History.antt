-- ===== src/Tasks/History.antt =====
-- What any history of operations of src/node/task-store.ts does to the tasks of the document.
use Prim.Native.String.{String}
use mathlib.Core.Path.{subst}
use dex_reach.Common.{
  ℕ, ◌+◌, ◌≤◌, ◌≡◌, refl, sym, ◌∙◌, ap, ◌⊎◌, inl, inr, true, false, none, some, List, [], ◌∷◌, ◌==◌,
  text_eq, Bool-cases, arith,
}
use dex_reach.Tasks.{is_terminal, ReachTaskRecord, max_depth}
use dex_reach.Tasks.Table.{
  Table, lookup, assign, same_key, lookup-assign_hit, lookup-assign_miss, lookup-discard_miss,
}
use dex_reach.Tasks.Store.{TaskStoreDocument, NodeHost, locate, empty_document}
use dex_reach.Tasks.Sweep.{is_due}
use dex_reach.Tasks.Lifecycle.{Advances, Operation, perform}
use dex_reach.Tasks.Keys.{some_not_none, some_injective, stays-lookup, true_not_false}
use dex_reach.Tasks.Steps.{Creates, Step, idles, creates, changes, archives, sweeps, perform-Step}
use dex_reach.Common.Outcome.{ok}
use dex_reach.Tasks.Create.{TaskCreateInput, new_record}
use dex_reach.Tasks.Lineage.{lineage_of-ok}
use dex_reach.Tasks.Sound.{
  IsSound, locate-active, Follows, itself, change-Follows, archive-Follows, sweep-Follows,
}
use dex_reach.Tasks.Store.{truthy}
use dex_reach.Tasks.Create.{create}
use dex_reach.Tasks.Lifecycle.{legal_transition-terminal}
use dex_reach.Tasks.Steps.{create-record}
use dex_reach.Tasks.Preserve.{Step-IsSound, empty-IsSound, create-cases}

-- A history of the store: operations, each with the host as it was then.
abbrev pub perform_all : List (NodeHost × Operation) → TaskStoreDocument → TaskStoreDocument
perform_all [] d = d
perform_all ((host, o) ∷ os) d = perform_all os (perform host o d)

IsSound-after :
    (os : List (NodeHost × Operation)) (d : TaskStoreDocument)
    → IsSound d
    → IsSound (perform_all os d)
IsSound-after [] d g = g
IsSound-after ((host, o) ∷ os) d g =
    IsSound-after os (perform host o d) (Step-IsSound g (perform-Step host d o))

-- After any operations on an empty store, failed ones included, no task id stands twice or in both
-- tables, the archive holds only tasks that ended, a task stands under its own id and at most eight
-- levels deep, and no two tasks have the same idempotency key, actor, node and operation.
pub perform_all-IsSound :
    (os : List (NodeHost × Operation)) → IsSound (perform_all os empty_document)
perform_all-IsSound os = IsSound-after os empty_document empty-IsSound

-- Two tasks of one id: what a document follows, it follows as the one task stored there.
Follows-Advances :
    (d e : TaskStoreDocument)
    → Follows d e
    → (id : String) {r v : ReachTaskRecord} → locate id d ≡ some r
    → locate id e ≡ some v
    → Advances r v
Follows-Advances d e f id {r} {v} h k =
    let o = f id v k in subst (λ z. Advances z v) (some_injective (sym o.stood ∙ h)) o.advances

create-Advances :
    {host : NodeHost} {d e : TaskStoreDocument} (c : Creates host d e) (id : String)
    {r v : ReachTaskRecord}
    → locate id d ≡ some r
    → locate id e ≡ some v
    → Advances r v
create-Advances {d = d} c id {r} {v} h k = elim (create-cases c id k) [
  | inl (a, z) ↦ some_not_none (sym h ∙ sym (ap (λ t. locate t d) a) ∙ c.free)
  | inr s ↦
      subst (Advances r) (some_injective (sym h ∙ s)) (record { same = refl; moved = inl refl })
]

from_Step :
    {host : NodeHost} {d e : TaskStoreDocument}
    → Step host d e
    → IsSound d
    → (id : String) {r v : ReachTaskRecord} → locate id d ≡ some r
    → locate id e ≡ some v
    → Advances r v
from_Step {d = d} (idles z) g id h k =
    Follows-Advances d d (λ i v s. itself i d v s) id h (ap (locate id) (sym z) ∙ k)
from_Step (creates c) g id h k = create-Advances c id h k
from_Step {d = d} {e = e} (changes c) g id h k = Follows-Advances d e (change-Follows c) id h k
from_Step {d = d} {e = e} (archives c) g id h k = Follows-Advances d e (archive-Follows c) id h k
from_Step {d = d} {e = e} (sweeps c) g id h k = Follows-Advances d e (sweep-Follows g c) id h k

-- A task that is stored in a consistent document before and after an operation is the same task, with
-- every field of its identity, and its state is the same or one legal transition further.
pub perform-Advances :
    (host : NodeHost) (o : Operation) (d : TaskStoreDocument) (id : String) {r v : ReachTaskRecord}
    → IsSound d
    → locate id d ≡ some r
    → locate id (perform host o d) ≡ some v
    → Advances r v
perform-Advances host o d id g h k = from_Step (perform-Step host d o) g id h k

-- A terminal state is final: a task that ended and is still stored after an operation is in the state
-- in which it ended.
pub perform-terminal :
    (host : NodeHost) (o : Operation) (d : TaskStoreDocument) (id : String) {r v : ReachTaskRecord}
    → IsSound d
    → locate id d ≡ some r
    → locate id (perform host o d) ≡ some v
    → is_terminal r.state ≡ true
    → r.state ≡ v.state
perform-terminal host o d id {r} {v} g h k t = elim (perform-Advances host o d id g h k).moved [
  | inl e ↦ e
  | inr e ↦ true_not_false (sym t ∙ legal_transition-terminal r.state v.state e)
]

not_due : (now ms : ℕ) (r : ReachTaskRecord) → is_terminal r.state ≡ false → is_due now ms r ≡ false
unfolding is_due
not_due now ms r h = ground arith

assign-keeps :
    (id i : String) (a : ReachTaskRecord) (t : Table ReachTaskRecord) {r : ReachTaskRecord}
    → lookup i t ≡ some r
    → (v : ReachTaskRecord) × (lookup i (assign id a t) ≡ some v)
assign-keeps id i a t {r} h = elim (Bool-cases (id == i)) [
  | inl m ↦ (a, ap (λ z. lookup i (assign z a t)) (same_key id i m) ∙ lookup-assign_hit i a t)
  | inr m ↦ (r, lookup-assign_miss i id a t m ∙ h)
]

Step-survives :
    {host : NodeHost} {d e : TaskStoreDocument}
    → Step host d e
    → (id : String) {r : ReachTaskRecord} → lookup id d.records ≡ some r
    → is_terminal r.state ≡ false
    → (v : ReachTaskRecord) × (lookup id e.records ≡ some v)
Step-survives (idles z) id {r} h t = (r, ap (λ (x : TaskStoreDocument). lookup id x.records) z ∙ h)
Step-survives {d = d} (creates c) id h t =
    let (v, a) = assign-keeps c.id id _ d.records h in (v, ap (lookup id) c.now_active ∙ a)
Step-survives {d = d} (changes c) id h t =
    let (v, a) = assign-keeps c.id id c.new d.records h in (v, ap (lookup id) c.now_active ∙ a)
Step-survives {d = d} (archives c) id {r} h t = elim (Bool-cases (c.id == id)) [
  | inl m ↦
      let k = ap (λ z. lookup z d.records) (same_key c.id id m) in
      let same = some_injective (sym c.stood ∙ k ∙ h) in
      true_not_false (sym c.ended ∙ ap (λ (z : ReachTaskRecord). is_terminal z.state) same ∙ t)
  | inr m ↦ (r, ap (lookup id) c.now_active ∙ lookup-discard_miss id c.id d.records m ∙ h)
]
Step-survives {d = d} (sweeps c) id {r} h t = (
  r,
  ap (lookup id) c.now_active
      ∙ stays-lookup c.now c.terminal_ms d.records d.archived id h
          (not_due c.now c.terminal_ms r t),
)

-- No operation loses a task that has not ended: it stays in the active table, as the same task, in its
-- state or one legal transition further.
pub perform-survives :
    (host : NodeHost) (o : Operation) (d : TaskStoreDocument) (id : String) {r : ReachTaskRecord}
    → IsSound d
    → lookup id d.records ≡ some r
    → is_terminal r.state ≡ false
    → (v : ReachTaskRecord) × (lookup id (perform host o d).records ≡ some v) × Advances r v
perform-survives host o d id g h t =
    let (v, s) = Step-survives (perform-Step host d o) id h t in
    (
      v,
      s,
      perform-Advances host o d id g (locate-active id d h) (locate-active id (perform host o d) s),
    )

-- A task is created only at most eight levels deep, and with a parent only when that parent is stored:
-- it then has the root of its parent and stands one level below it.
pub create-lineage :
    (host : NodeHost) (i : TaskCreateInput) (d : TaskStoreDocument) {v : ReachTaskRecord}
    {e : TaskStoreDocument}
    → create host i d ≡ ok (v, e)
    → (v.task_depth ≤ max_depth)
      × ((truthy i.parent_task_id ≡ none)
          ⊎ ((p : String) × (r : ReachTaskRecord) × (truthy i.parent_task_id ≡ some p)
              × (locate p d ≡ some r)
              × (v.root_task_id ≡ r.root_task_id)
              × (v.task_depth ≡ r.task_depth + 1)))
unfolding new_record
create-lineage host i d {v} h =
    let (l, lined, made) = create-record host d i h in
    let (depth, parent) = lineage_of-ok _ i d lined in
    let at = ap (λ (z : ReachTaskRecord). z.task_depth) made in
    let root = ap (λ (z : ReachTaskRecord). z.root_task_id) made in
    (
      omega (arith, at, depth),
      elim parent [ inl e ↦ inl e | inr (p, r, e, f, b, c) ↦ inr (p, r, e, f, root ∙ b, at ∙ c) ],
    )
