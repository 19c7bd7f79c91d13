-- ===== src/Access/Lapse.antt =====
-- The timed mode of src/shared/access.ts, and the policy check that tries it: what it accepts before and after
-- the time.
use Prim.Native.String.{String}
use dex_reach.Common.{
  ℕ, suc, ◌≡◌, ◌≢◌, refl, sym, ◌∙◌, ◌⊎◌, inl, inr, Bool, true, false, ◌||◌, Option, none, some,
  List, [], ◌∷◌, ◌++◌, is_empty, ◌==◌, text_eq, Bool-cases, Option-cases, arith,
}
use dex_reach.Common.Outcome.{Result, err, Result-cases, and_then}
use dex_reach.Json.{end}
use dex_reach.Clients.{ReachProfile, AccessMode, off, on, other, entry, RequestActor}
use dex_reach.Catalog.{read_only_inspect_operations, read_only_delegated_operations, dex_operations}
use dex_reach.Catalog.Required.{PathHost}
use dex_reach.Access.{
  AccessState, is_past, resolve_mode, kind_of, mode_for_actor, min_mode, allowed, authorize_on,
  authorize_operation, listed, is_allowed, requires_grant, off_invariant_failed, invariant_faults,
  policy_check, all_grant_faults,
}
use dex_reach.Access.Laws.{authorize_operation-off, mode-cases}
use dex_reach.Access.Assertions.{load_policy_assertions, evaluate_custom_assertions}
use dex_reach.Access.Store.{
  AccessHost, AccessStore, AccessError, policy, write_refusal, assertions_failed,
  assertions_unreadable, write_access_state, load_access_state, read_access_state, is_spent,
  use_grant, grant_spent, stamped, update_access_state, consume_grant, use_once,
}

-- The timed mode of a state is over.
abbrev pub has_lapsed : AccessState → ℕ → Bool
has_lapsed s now = elim s.until [ none ↦ false | some t ↦ is_past now t ]

-- What it reverts to.
abbrev pub reverted : AccessState → AccessMode
reverted s = elim s.revert_to [ none ↦ off | some m ↦ m ]

resolve_mode-lapsed :
    (s : AccessState) (now : ℕ) → has_lapsed s now ≡ true → resolve_mode s now ≡ reverted s
unfolding resolve_mode
resolve_mode-lapsed s now h = elim (Option-cases s.until) [
  | inl e ↦ ground arith
  | inr (t, e) ↦
      let q : has_lapsed s now ≡ is_past now t = rw e refl in
      let k : is_past now t ≡ true = sym q ∙ h in rw (e, k, resolve_mode) refl
]

resolve_mode-kept :
    (s : AccessState) (now : ℕ) → has_lapsed s now ≡ false → resolve_mode s now ≡ s.mode
unfolding resolve_mode
resolve_mode-kept s now h = elim (Option-cases s.until) [
  | inl e ↦ rw (e, resolve_mode) refl
  | inr (t, e) ↦
      let q : has_lapsed s now ≡ is_past now t = rw e refl in
      let k : is_past now t ≡ false = sym q ∙ h in rw (e, k, resolve_mode) refl
]

min_mode-on : (a b : AccessMode) → min_mode a b ≡ on → a ≡ on
unfolding min_mode
min_mode-on on b h = refl
min_mode-on off off h = ground arith
min_mode-on off AccessMode.read_only h = ground arith
min_mode-on off on h = ground arith
min_mode-on AccessMode.read_only off h = ground arith
min_mode-on AccessMode.read_only AccessMode.read_only h = ground arith
min_mode-on AccessMode.read_only on h = ground arith

mode_for_actor-on :
    (s : AccessState) (actor : Option RequestActor) (now : ℕ)
    → mode_for_actor s actor now ≡ on
    → resolve_mode s now ≡ on
unfolding mode_for_actor
mode_for_actor-on s actor now h = elim (Option-cases (entry (kind_of actor) s.clients)) [
  | inl e ↦
      let q : mode_for_actor s actor now ≡ resolve_mode s now = rw (e, mode_for_actor) refl in
      sym q ∙ h
  | inr (c, e) ↦
      let q : mode_for_actor s actor now ≡ min_mode (resolve_mode s now) c =
        rw (e, mode_for_actor) refl in
      min_mode-on _ c (sym q ∙ h)
]

write_unlisted :
    (listed "dex.file.write" read_only_inspect_operations
      || listed "dex.file.write" read_only_delegated_operations)
    ≡ false
unfolding read_only_inspect_operations read_only_delegated_operations dex_operations
write_unlisted = refl

-- Below `on`, a write is refused.
write-refused :
    (host : PathHost) (s : AccessState) (now : ℕ)
    → resolve_mode s now ≢ on
    → is_allowed (authorize_operation host s none "dex.file.write" ReachProfile.full_local now end)
      ≡ false
unfolding authorize_operation
write-refused host s now h = elim (mode-cases (mode_for_actor s none now)) [
  | inl e ↦ rw (e, authorize_operation) refl
  | inr (inl e) ↦ rw (e, authorize_operation, write_unlisted) refl
  | inr (inr e) ↦ elim (h (mode_for_actor-on s none now e)) [ ]
]

settled :
    (s : AccessState) (now : ℕ)
    → (has_lapsed s now ≡ false) ⊎ (reverted s ≡ off)
    → (resolve_mode (record s { mode = off }) now ≡ off)
      × (resolve_mode (record s { mode = AccessMode.read_only }) now ≢ on)
settled s now h = elim (Bool-cases (has_lapsed s now)) [
  | inl e ↦
      let back : reverted s ≡ off = ground arith in
      (
        resolve_mode-lapsed (record s { mode = off }) now e ∙ back,
        λ k.
            let q : off ≡ on =
              sym (resolve_mode-lapsed (record s { mode = AccessMode.read_only }) now e ∙ back)
              ∙ k in
            ground arith,
      )
  | inr e ↦ (
    resolve_mode-kept (record s { mode = off }) now e,
    λ k.
        let q : AccessMode.read_only ≡ on =
          sym (resolve_mode-kept (record s { mode = AccessMode.read_only }) now e) ∙ k in
        ground arith,
  )
]

-- The two checks of the decision itself accept every policy whose timed mode is not over, or is over and
-- leaves the node off: no grant, ceiling or requirement makes them fail.
pub invariant_faults_lem :
    (host : PathHost) (s : AccessState) (now : ℕ)
    → (has_lapsed s now ≡ false) ⊎ (reverted s ≡ off)
    → invariant_faults host s now ≡ []
unfolding invariant_faults
invariant_faults_lem host s now h =
    let closed = record s { mode = off } in
    let limited = record s { mode = AccessMode.read_only } in
    let (is_off, not_on) = settled s now h in
    rw
      (
        authorize_operation-off host closed none "dex.fingerprint" ReachProfile.full_local now end
            (inl is_off),
        write-refused host limited now not_on,
        invariant_faults,
      )
      refl

-- A timed mode that is over and reverts to `on`, where clients of the kind `other` have no ceiling and need
-- no grant.
pub record IsReopened (s : AccessState) (now : ℕ) : Type 0 where
  pub over : has_lapsed s now ≡ true
  pub back : reverted s ≡ on
  pub no_ceiling : entry other s.clients ≡ none
  pub no_requirement : entry other s.grant_required ≡ none

inspection-allowed :
    (host : PathHost) (s : AccessState) (now : ℕ)
    → IsReopened s now
    → authorize_operation host
        (record s { mode = off })
        none
        "dex.fingerprint"
        ReachProfile.full_local
        now
        end
      ≡ allowed ReachProfile.full_local none
unfolding authorize_operation mode_for_actor authorize_on
inspection-allowed host s now r =
    let closed = record s { mode = off } in
    let m : mode_for_actor closed none now ≡ on =
      rw (mode_for_actor, r.no_ceiling) (resolve_mode-lapsed closed now r.over ∙ r.back) in
    let q : requires_grant closed none ≡ false = rw (r.no_requirement) refl in
    rw (authorize_operation, m, authorize_on, q) refl

is_empty-append :
    {A : Type 0} (xs : List A) (y : A) (ys : List A) → is_empty (xs ++ (y ∷ ys)) ≡ false
is_empty-append [] y ys = refl
is_empty-append (x ∷ xs) y ys = refl

policy_check-reopened :
    (host : PathHost) (s : AccessState) (now : ℕ)
    → IsReopened s now
    → is_empty (policy_check host s now) ≡ false
unfolding policy_check invariant_faults
policy_check-reopened host s now r =
    rw (policy_check, invariant_faults, inspection-allowed host s now r)
      (is_empty-append (all_grant_faults s.grants) off_invariant_failed _)

pub write_refusal-reopened :
    (host : AccessHost) (s : AccessState) (now : ℕ)
    → IsReopened s now
    → (e : AccessError) × (write_refusal host s now ≡ some e)
unfolding write_refusal
write_refusal-reopened host s now r =
    let faulty = policy_check-reopened host.paths s now r in
    elim (Result-cases (load_policy_assertions host.assertion_file)) [
      | inl (xs, e) ↦ (
        assertions_failed (policy_check host.paths s now) (evaluate_custom_assertions s xs),
        rw (write_refusal, e, faulty) refl,
      )
      | inr (x, e) ↦ (assertions_unreadable x, rw (write_refusal, e) refl)
    ]

write_access_state-reopened :
    (host : AccessHost) (keep : Bool) (from : Option ℕ) (s : AccessState) (revision now : ℕ)
    (store : AccessStore)
    → IsReopened s now
    → (e : AccessError) × (write_access_state host keep from s revision now store ≡ err e)
unfolding write_access_state
write_access_state-reopened host keep from s revision now store r =
    let same : IsReopened (stamped s revision now) now = record {
      over = r.over;
      back = r.back;
      no_ceiling = r.no_ceiling;
      no_requirement = r.no_requirement;
    } in
    let (e, h) = write_refusal-reopened host (stamped s revision now) now same in
    (e, rw (write_access_state, h) refl)

pub update_access_state_lem :
    (host : AccessHost) (keep : Bool) (from : Option ℕ)
    (mutate : AccessState → Result AccessError AccessState) (s : AccessState) (now : ℕ)
    (store : AccessStore)
    → store.file ≡ policy s
    → update_access_state host keep from mutate now store
      ≡ and_then (mutate s) (λ p. write_access_state host keep from p (suc s.revision) now store)
unfolding update_access_state load_access_state read_access_state
update_access_state_lem host keep from mutate s now store f =
    rw (f, update_access_state, load_access_state) refl

-- Once the timed mode of the stored policy is over and reverts to `on`, and clients of the kind `other` have
-- no ceiling and need no grant, `consumeGrant` records nothing: it throws for every grant id but the
-- empty one, since the policy check tries the mode `off` for a client of that kind and sees what the
-- time makes of it.
pub consume_grant-reopened :
    (host : AccessHost) (s : AccessState) (id : String) (now : ℕ) (store : AccessStore)
    → store.file ≡ policy s
    → IsReopened s now
    → (id == "") ≡ false
    → (e : AccessError) × (consume_grant host (some id) now store ≡ err e)
unfolding consume_grant use_once
consume_grant-reopened host s id now store f r h = elim (Bool-cases (is_spent id now s)) [
  | inl e ↦ (
    grant_spent,
    rw
        (
          consume_grant,
          h,
          update_access_state_lem host false none (use_once id now) s now store f,
          use_once,
          e,
        )
        refl,
  )
  | inr e ↦
      let used : AccessState = record s { grants = use_grant id s.grants } in
      let same : IsReopened used now = record {
        over = r.over;
        back = r.back;
        no_ceiling = r.no_ceiling;
        no_requirement = r.no_requirement;
      } in
      let (x, k) =
        write_access_state-reopened host false none used (suc s.revision) now store same in
      (
        x,
        rw
            (
              consume_grant,
              h,
              update_access_state_lem host false none (use_once id now) s now store f,
              use_once,
              e,
              k,
            )
            refl,
      )
]
