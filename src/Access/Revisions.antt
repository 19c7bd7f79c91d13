-- ===== src/Access/Revisions.antt =====
-- The revisions of the policy file of src/shared/access.ts, and the writer that comes too late.
use Prim.Native.String.{String}
use dex_reach.Common.{
  ℕ, suc, ◌<◌, ◌≡◌, ◌≢◌, refl, sym, ◌∙◌, ap, inl, inr, Bool, true, false, Option, none, some, List,
  [], ◌∷◌, eqb, ◌==◌, text_eq, Bool-cases, Option-cases, arith, if◌then◌else◌,
}
use dex_reach.Common.Outcome.{Result, ok, err, Result-cases, and_then-ok, ok_injective, err_not_ok}
use dex_reach.Access.{AccessState}
use dex_reach.Access.Assertions.{history_entry}
use dex_reach.Access.Store.{
  AccessHost, AccessStore, AccessError, stale_revision, AccessFile, policy, read_access_state,
  next_revision, write_refusal, write_access_state, stamped, save_access_state, update_access_state,
  use_once, consume_grant, restore_policy_revision,
}
use dex_reach.Access.Lapse.{update_access_state_lem}

-- The changes of the policy file that succeed or throw as a whole.
pub data StoreChange : Type 0 where
  saves : AccessState → StoreChange
  updates : (AccessState → Result AccessError AccessState) → StoreChange
  consumes : Option String → StoreChange
  restores : ℕ → StoreChange

abbrev pub change_store :
    AccessHost → StoreChange → ℕ → AccessStore → Result AccessError AccessStore
change_store host (saves s) now store = save_access_state host s now store
change_store host (updates f) now store = update_access_state host true none f now store
change_store host (consumes id) now store = consume_grant host id now store
change_store host (restores n) now store = restore_policy_revision host n now store

abbrev store_after : AccessStore → Result AccessError AccessStore → AccessStore
store_after store (ok next) = next
store_after store (err e) = store

-- One change after the other, each by its own host and at its own time; one that throws leaves the store.
abbrev pub change_all : List (AccessHost × ℕ × StoreChange) → AccessStore → AccessStore
change_all [] store = store
change_all ((host, now, c) ∷ cs) store =
    change_all cs (store_after store (change_store host c now store))

-- The file holds the state, or one of a later revision.
pub data Progress (c : AccessState) (f : AccessFile) : Type 0 where
  same : f ≡ policy c → Progress c f
  later : (d : AccessState) → f ≡ policy d → c.revision < d.revision → Progress c f

pub write_access_state-file :
    (host : AccessHost) (keep : Bool) (from : Option ℕ) (s : AccessState) (revision now : ℕ)
    (store : AccessStore) {next : AccessStore}
    → write_access_state host keep from s revision now store ≡ ok next
    → next.file ≡ policy (stamped s revision now)
unfolding write_access_state
write_access_state-file host keep from s revision now store {next} h =
    elim (Option-cases (write_refusal host (stamped s revision now) now)) [
      | inl e ↦
          let k = rw (e, write_access_state) at h in
          ap (λ (z : AccessStore). z.file) (sym (ok_injective k))
      | inr (x, e) ↦ let k = rw (e, write_access_state) at h in err_not_ok k
    ]

pub write_access_state-accepted :
    (host : AccessHost) (keep : Bool) (from : Option ℕ) (s : AccessState) (revision now : ℕ)
    (store : AccessStore) {next : AccessStore}
    → write_access_state host keep from s revision now store ≡ ok next
    → write_refusal host (stamped s revision now) now ≡ none
unfolding write_access_state
write_access_state-accepted host keep from s revision now store {next} h =
    elim (Option-cases (write_refusal host (stamped s revision now) now)) [
      | inl e ↦ e
      | inr (x, e) ↦ let k = rw (e, write_access_state) at h in err_not_ok k
    ]

module _ (c : AccessState) (store : AccessStore) (f : store.file ≡ policy c) where
  update-Progress :
      (host : AccessHost) (keep : Bool) (from : Option ℕ)
      (mutate : AccessState → Result AccessError AccessState) (now : ℕ) {next : AccessStore}
      → update_access_state host keep from mutate now store ≡ ok next
      → Progress c next.file
  update-Progress host keep from mutate now {next} h =
      let (p, _, w) =
        and_then-ok (mutate c) _
          (sym (update_access_state_lem host keep from mutate c now store f) ∙ h) in
      later _ (write_access_state-file host keep from p (suc c.revision) now store w) (omega arith)

  save_access_state_lem :
      (host : AccessHost) (s : AccessState) (now : ℕ)
      → save_access_state host s now store ≡ (
          if eqb s.revision c.revision
          then write_access_state host true none s (suc c.revision) now store
          else err stale_revision)
  unfolding save_access_state read_access_state next_revision
  save_access_state_lem host s now = elim (Bool-cases (eqb s.revision c.revision)) [
    | inl e ↦ rw (save_access_state, f, e, next_revision) refl
    | inr e ↦ rw (save_access_state, f, e) refl
  ]

  save-Progress :
      (host : AccessHost) (s : AccessState) (now : ℕ) {next : AccessStore}
      → save_access_state host s now store ≡ ok next
      → Progress c next.file
  save-Progress host s now {next} h = elim (Bool-cases (eqb s.revision c.revision)) [
    | inl e ↦
        let q = sym (save_access_state_lem host s now) ∙ h in
        let k = rw e at q in
        later _ (write_access_state-file host true none s (suc c.revision) now store k)
          (omega arith)
    | inr e ↦
        let q = sym (save_access_state_lem host s now) ∙ h in let k = rw e at q in err_not_ok k
  ]

  change-Progress :
      (host : AccessHost) (x : StoreChange) (now : ℕ) {next : AccessStore}
      → change_store host x now store ≡ ok next
      → Progress c next.file
  unfolding consume_grant restore_policy_revision
  change-Progress host (saves s) now h = save-Progress host s now h
  change-Progress host (updates m) now h = update-Progress host true none m now h
  change-Progress host (consumes none) now h =
      same (ap (λ (z : AccessStore). z.file) (sym (ok_injective h)) ∙ f)
  change-Progress host (consumes (some id)) now h = elim (Bool-cases (id == "")) [
    | inl e ↦
        let k = rw (consume_grant, e) at h in
        same (ap (λ (z : AccessStore). z.file) (sym (ok_injective k)) ∙ f)
    | inr e ↦
        let k = rw (consume_grant, e) at h in
        update-Progress host false none (use_once id now) now k
  ]
  change-Progress host (restores n) now h = elim (Option-cases (history_entry n store.history)) [
    | inl e ↦ let k = rw (restore_policy_revision, e) at h in err_not_ok k
    | inr (entry, e) ↦
        let k = rw (restore_policy_revision, e) at h in
        update-Progress host true (some n) (λ s. ok entry.state) now k
  ]

  after-Progress :
      (host : AccessHost) (x : StoreChange) (now : ℕ)
      → Progress c (store_after store (change_store host x now store)).file
  after-Progress host x now = elim (Result-cases (change_store host x now store)) [
    | inl (next, e) ↦ rw e (change-Progress host x now e)
    | inr (y, e) ↦ rw e (same f)
  ]

-- However many changes others make.
pub change_all-Progress :
    (cs : List (AccessHost × ℕ × StoreChange)) (c : AccessState) (store : AccessStore)
    → store.file ≡ policy c
    → Progress c (change_all cs store).file
change_all-Progress [] c store f = same f
change_all-Progress ((host, now, x) ∷ cs) c store f = elim (after-Progress c store f host x now) [
  | same g ↦ change_all-Progress cs c _ g
  | later d g l ↦ elim (change_all-Progress cs d _ g) [
    | same k ↦ later d k l
    | later e k m ↦ later e k (omega arith)
  ]
]

-- A stale writer never restores an older policy: after any sequence of saves, updates, uses of grants and
-- restorations that has changed the policy file, a save of a state of the revision that the file had before
-- is refused, and so leaves the file alone.
pub save_access_state-stale :
    (host : AccessHost) (cs : List (AccessHost × ℕ × StoreChange)) (c s : AccessState) (now : ℕ)
    (store : AccessStore)
    → store.file ≡ policy c
    → s.revision ≡ c.revision
    → (change_all cs store).file ≢ policy c
    → save_access_state host s now (change_all cs store) ≡ err stale_revision
save_access_state-stale host cs c s now store f r n = elim (change_all-Progress cs c store f) [
  | same g ↦ elim (n g) [ ]
  | later d g l ↦
      let e : eqb s.revision d.revision ≡ false = ground arith in
      save_access_state_lem d (change_all cs store) g host s now ∙ rw e refl
]
