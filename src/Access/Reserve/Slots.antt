-- ===== src/Access/Reserve/Slots.antt =====
-- What a reservation of src/shared/access.ts that throws leaves of the budget: no slot of its own.
use Prim.Native.String.{String}
use mathlib.Core.Path.{subst}
use dex_reach.Common.{
  ℕ, ◌≡◌, refl, sym, ◌∙◌, ap, inl, inr, false, not, Option, none, some, List, [], Memᴰ, select-Mem,
  any-Mem, append-Mem, any, select, ◌==◌, text_eq, Bool-cases, Option-cases, arith,
}
use dex_reach.Common.Outcome.{Result, ok, err, Result-cases, err_not_ok, ok_injective}
use dex_reach.Clients.{ReachProfile, ClientKind}
use dex_reach.Budget.{BudgetPolicy, policy_restricts, rules_for_client}
use dex_reach.Budget.Usage.{
  AuthorityCost, BudgetInflight, BudgetUsage, BudgetHost, UsageFile, no_usage, corrupt_usage, usage,
  load_budget_usage, prune_usage, spend, inflight_is_reclaimable, refusal_of, reserve_within,
  reserve_budget_usage, release_budget_concurrency,
}
use dex_reach.Catalog.Cost.{requested_authority_cost}
use dex_reach.Access.{AccessState, authorize_operation, kind_of}
use dex_reach.Access.Store.{AccessStore, load_access_state}
use dex_reach.Access.Reserve.{
  ReserveHost, ReserveOptions, NodeStore, ReserveError, OperationReservation, Request,
  charges_budget, slot_of, charge, take_budget, take_grant, finish, execute_reservation,
  policy_moved, reserve_operation, no_cost, usage_unreadable, over_budget,
}
use dex_reach.Access.Reserve.Uses.{decision-cases}

-- The slots that a usage file holds.
abbrev pub slots_of : UsageFile → List BudgetInflight
slots_of no_usage = []
slots_of corrupt_usage = []
slots_of (usage u) = u.inflight

-- Every slot of the one file is a slot of the other.
abbrev pub NoNewSlot : UsageFile → UsageFile → Type 0
NoNewSlot f g = (x : BudgetInflight) → Memᴰ x (slots_of g) → Memᴰ x (slots_of f)

-- What the budget stage leaves: the file as it was, or one with a slot more, the one of the fresh id.
pub data Charged (fresh : String) (f : UsageFile)
    (r : Result ReserveError (Option String) × UsageFile) : Type 0 where
  refuses : (e : ReserveError) → r.0 ≡ err e → r.1 ≡ f → Charged fresh f r
  is_free : r.0 ≡ ok none → r.1 ≡ f → Charged fresh f r
  holds :
      (v : BudgetUsage)
      → r.0 ≡ ok (some fresh)
      → r.1 ≡ usage v
      → ((x : BudgetInflight) → Memᴰ x v.inflight → (x.id == fresh) ≡ false → Memᴰ x (slots_of f))
      → Charged fresh f r

module _ (host : BudgetHost) (p : BudgetPolicy) (client : ClientKind) (cost : AuthorityCost)
    (now : ℕ) (u : BudgetUsage) where
  spent-slots :
      {x : BudgetInflight}
      → Memᴰ x (spend host client cost now (prune_usage host.alive p now u)).inflight
      → (x.id == host.fresh_id) ≡ false
      → Memᴰ x u.inflight
  unfolding spend prune_usage
  spent-slots {x} m n =
      let kept = select (λ e. not (inflight_is_reclaimable host.alive now e)) u.inflight in
      elim (append-Mem kept _ m) [
        | inl l ↦ (select-Mem _ u.inflight l).0
        | inr (Memᴰ.head e) ↦
            let same =
              (text_eq.same_iff x.id host.fresh_id).1 (ap (λ (z : BudgetInflight). z.id) e) in
            ground arith
        | inr (Memᴰ.tail l) ↦ elim l [ ]
      ]

load-slots :
    (f : UsageFile) {u : BudgetUsage} {x : BudgetInflight}
    → load_budget_usage f ≡ ok u
    → Memᴰ x u.inflight
    → Memᴰ x (slots_of f)
unfolding load_budget_usage
load-slots no_usage {u} {x} h m =
    subst (λ (z : BudgetUsage). Memᴰ x z.inflight) (sym (ok_injective h)) m
load-slots corrupt_usage h m = err_not_ok h
load-slots (usage v) {u} {x} h m =
    subst (λ (z : BudgetUsage). Memᴰ x z.inflight) (sym (ok_injective h)) m

charge-Charged :
    (host : ReserveHost) (client : ClientKind) (cost : AuthorityCost) (f : UsageFile)
    → Charged host.budget.fresh_id f (charge host client cost f)
unfolding charge reserve_budget_usage reserve_within slot_of
charge-Charged host client cost f =
    let p = host.budget_policy in
    let now = host.charged_at in
    elim (Bool-cases (policy_restricts p)) [
      | inr e ↦ rw (charge, e) (is_free refl refl)
      | inl e ↦ elim (Result-cases (load_budget_usage f)) [
        | inr (x, h) ↦ rw (charge, e, h) (refuses (usage_unreadable x) refl refl)
        | inl (u, h) ↦
            let v = prune_usage host.budget.alive p now u in
            elim (Option-cases (refusal_of (rules_for_client p client) v cost client now)) [
              | inl k ↦
                  rw (charge, e, h, reserve_within, k)
                    (holds (spend host.budget client cost now v) refl refl
                      (λ x m n. load-slots f h (spent-slots host.budget p client cost now u m n)))
              | inr (x, k) ↦
                  rw (charge, e, h, reserve_within, k) (refuses (over_budget x) refl refl)
            ]
      ]
    ]

-- The slots that are left after a release are others.
released-slots :
    (id : String) (v : BudgetUsage) {x : BudgetInflight}
    → Memᴰ x (slots_of (release_budget_concurrency (some id) (usage v)))
    → Memᴰ x v.inflight × ((x.id == id) ≡ false)
unfolding release_budget_concurrency
released-slots id v {x} m =
    elim (Bool-cases (any (λ (e : BudgetInflight). e.id == id) v.inflight)) [
      | inl e ↦
          let (l, h) = select-Mem _ v.inflight (rw (release_budget_concurrency, e) at m) in
          (l, ground arith)
      | inr e ↦ let l = rw (release_budget_concurrency, e) at m in (l, any-Mem _ v.inflight e l)
    ]

take_budget-Charged :
    (host : ReserveHost) (options : ReserveOptions) (q : Request) (f : UsageFile)
    → Charged host.budget.fresh_id f (take_budget host options q f)
unfolding take_budget
take_budget-Charged host options q f = elim (Bool-cases (charges_budget options q.operation)) [
  | inr e ↦ rw (take_budget, e) (is_free refl refl)
  | inl e ↦
      elim (Result-cases (
        requested_authority_cost host.cost q.operation q.args
          record { planned_target = none; planned_args = none })) [
            | inl (cost, h) ↦ rw (take_budget, e, h) (charge-Charged host (kind_of q.actor) cost f)
            | inr (x, h) ↦ rw (take_budget, e, h) (refuses (no_cost x) refl refl)
          ]
]

-- A reservation is made, or leaves no slot of its own.
pub data LeavesNone (f : UsageFile) (r : Result ReserveError OperationReservation × NodeStore)
    : Type 0 where
  made : (o : OperationReservation) → r.0 ≡ ok o → LeavesNone f r
  left : NoNewSlot f r.1.usage → LeavesNone f r

released-none :
    (fresh : String) (f : UsageFile) (r : Result ReserveError (Option String) × UsageFile)
    {slot : Option String} {x : BudgetInflight}
    → Charged fresh f r
    → r.0 ≡ ok slot
    → Memᴰ x (slots_of (release_budget_concurrency slot r.1))
    → Memᴰ x (slots_of f)
unfolding release_budget_concurrency
released-none fresh f r (refuses e k g) h m = err_not_ok (sym k ∙ h)
released-none fresh f r {slot} {x} (is_free k g) h m =
    subst (λ z. Memᴰ x (slots_of z)) g
      (subst (λ z. Memᴰ x (slots_of (release_budget_concurrency z r.1)))
        (sym (ok_injective (sym k ∙ h))) m)
released-none fresh f r {slot} {x} (holds v k g others) h m =
    let n =
      subst (λ z. Memᴰ x (slots_of (release_budget_concurrency z r.1)))
        (sym (ok_injective (sym k ∙ h))) m in
    let (l, d) =
      released-slots fresh v
        (subst (λ z. Memᴰ x (slots_of (release_budget_concurrency (some fresh) z))) g n) in
    others x l d

refused-none :
    (fresh : String) (f : UsageFile) (r : Result ReserveError (Option String) × UsageFile)
    {e : ReserveError}
    → Charged fresh f r
    → r.0 ≡ err e
    → NoNewSlot f r.1
refused-none fresh f r (refuses e k g) h = λ x m. subst (λ z. Memᴰ x (slots_of z)) g m
refused-none fresh f r (is_free k g) h = err_not_ok (sym h ∙ k)
refused-none fresh f r (holds v k g others) h = err_not_ok (sym h ∙ k)

finish-LeavesNone :
    (host : ReserveHost) (options : ReserveOptions) (profile : ReachProfile)
    (grant_id : Option String) (s : AccessState) (store : AccessStore) (f : UsageFile)
    (r : Result ReserveError (Option String) × UsageFile) {slot : Option String}
    → Charged host.budget.fresh_id f r
    → r.0 ≡ ok slot
    → LeavesNone f (finish host options profile grant_id s store slot r.1)
unfolding finish
finish-LeavesNone host options profile grant_id s store f r {slot} c h =
    elim (Result-cases (take_grant host options grant_id s store)) [
      | inl (next, e) ↦ rw (finish, e) (made _ refl)
      | inr (x, e) ↦ rw (finish, e) (left (λ y m. released-none host.budget.fresh_id f r c h m))
    ]

execute-LeavesNone :
    (host : ReserveHost) (options : ReserveOptions) (q : Request) (profile : ReachProfile)
    (grant_id : Option String) (s : AccessState) (store : NodeStore)
    → LeavesNone store.usage (execute_reservation host options q profile grant_id s store)
unfolding execute_reservation
execute-LeavesNone host options q profile grant_id s store =
    let r = take_budget host options q store.usage in
    let c = take_budget-Charged host options q store.usage in
    elim (Result-cases r.0) [
      | inl (slot, e) ↦
          rw (execute_reservation, e)
            (finish-LeavesNone host options profile grant_id s store.access store.usage r c e)
      | inr (x, e) ↦
          rw (execute_reservation, e) (left (refused-none host.budget.fresh_id store.usage r c e))
    ]

reserve_operation-LeavesNone :
    (host : ReserveHost) (options : ReserveOptions) (q : Request) (store : NodeStore)
    → LeavesNone store.usage (reserve_operation host options q store)
unfolding reserve_operation
reserve_operation-LeavesNone host options q store =
    let s = load_access_state host.access host.authorized_at store.access in
    let decision =
      authorize_operation host.access.paths s q.actor q.operation q.profile host.authorized_at
        q.args in
    elim (Bool-cases (policy_moved host.access options.expected_policy_hash s)) [
      | inl e ↦ rw (reserve_operation, e) (left (λ x m. m))
      | inr e ↦ elim (decision-cases decision) [
        | inl (x, d) ↦ rw (reserve_operation, e, d) (left (λ x m. m))
        | inr (profile, id, d) ↦
            rw (reserve_operation, e, d) (execute-LeavesNone host options q profile id s store)
      ]
    ]

-- A reservation that throws, at whatever stage and for whatever reason, holds no slot of the budget: every
-- slot of the usage file afterwards was one before, also when the budget had been charged already.
pub reserve_operation-err :
    (host : ReserveHost) (options : ReserveOptions) (q : Request) (store : NodeStore)
    {e : ReserveError}
    → (reserve_operation host options q store).0 ≡ err e
    → NoNewSlot store.usage (reserve_operation host options q store).1.usage
reserve_operation-err host options q store h =
    elim (reserve_operation-LeavesNone host options q store) [
      | made o k ↦ err_not_ok (sym h ∙ k)
      | left n ↦ n
    ]
