-- ===== src/Budget/Usage/Spending.antt =====
-- What the reservations of src/shared/budget-usage.ts together spend: never more than a rule allows.

use mathlib.Core.Path.{subst}
use dex_reach.Common.{
  ℕ, ◌+◌, ◌≤◌, ◌≡◌, sym, ap, inl, inr, Bool, true, false, not, none, some, List, [], ◌∷◌, ◌++◌,
  length-append, select, select-same, length-select-le, length-select-select_le, length-select_snoc,
  sum_of, ltb, ◌==◌, text_eq, Bool-cases, arith,
}
use dex_reach.Clients.{ClientKind, same_client, same_client_lem, entry}
use dex_reach.Budget.{BudgetRule, BudgetPolicy, rules_for_client, list_budget_rules}
use dex_reach.Budget.Usage.{
  AuthorityCost, BudgetSample, BudgetInflight, BudgetUsage, empty_usage, Dimension, cost_of,
  limit_of, widest, active_under, refusal_of, inflight_is_reclaimable, prune_usage, spend,
  BudgetHost,
}
use dex_reach.Budget.Usage.Window.{
  used, used_under-used, used-later, used-append, used-append_other, used-pruned, weight, counts,
}
use dex_reach.Budget.Usage.Refusal.{
  Applies, restricts-limit, restricts-slots, mem-rules_for, refusal-each, evaluate_rule-none,
  exceeded-none, slot_refusal-none, window-widest,
}

-- The shared rule is called so, and no other is: what `upsertBudgetRule` writes.
pub record IsNamed (p : BudgetPolicy) : Type 0 where
  pub shared_name : {r : BudgetRule} → p.shared ≡ some r → (r.id == "shared") ≡ true
  pub client_name :
      (k : ClientKind) {r : BudgetRule} → entry k p.clients ≡ some r → (r.id == "shared") ≡ false

-- Every rule has been kept, at the time: in each dimension the samples in its window cost no more than
-- its limit, and no more slots are held than it has.
pub record IsWithin (p : BudgetPolicy) (now : ℕ) (u : BudgetUsage) : Type 0 where
  pub spent :
      (client : ClientKind) (r : BudgetRule) (d : Dimension) {m : ℕ}
      → Applies p client r
      → limit_of d r ≡ some m
      → used d r client now u.samples ≤ m
  pub slots :
      (client : ClientKind) (r : BudgetRule) {m : ℕ}
      → Applies p client r
      → r.max_concurrent ≡ some m
      → active_under r client u.inflight ≤ m

le_trans_nat : (a b c : ℕ) → a ≤ b → b ≤ c → a ≤ c
le_trans_nat a b c h k = omega arith

-- It stays so as time passes.
pub IsWithin-later :
    (p : BudgetPolicy) (now later : ℕ) (u : BudgetUsage)
    → now ≤ later
    → IsWithin p now u
    → IsWithin p later u
IsWithin-later p now later u h w = record {
  spent = λ client r d {m} a l.
      le_trans_nat _ _ m (used-later d r client now later u.samples h) (w.spent client r d a l);
  slots = λ client r {m} a l. w.slots client r a l;
}

-- The empty usage keeps every rule.
pub empty-IsWithin : (p : BudgetPolicy) (now : ℕ) → IsWithin p now empty_usage
unfolding active_under
empty-IsWithin p now = record {
  spent = λ client r d {m} a l. omega arith;
  slots = λ client r {m} a l. ground arith;
}

pub active-select :
    (r : BudgetRule) (client : ClientKind) (keep : BudgetInflight → Bool) (es : List BudgetInflight)
    → active_under r client (select keep es) ≤ active_under r client es
unfolding active_under
active-select r client keep es = elim (Bool-cases (r.id == "shared")) [
  | inl e ↦ rw e (length-select-le keep es)
  | inr e ↦
      rw e (length-select-select_le (λ (e : BudgetInflight). same_client e.client client) keep es)
]

active-append :
    (r : BudgetRule) (client : ClientKind) (es : List BudgetInflight) (x : BudgetInflight)
    → active_under r client (es ++ (x ∷ [])) ≤ active_under r client es + 1
unfolding active_under
active-append r client es x = elim (Bool-cases (r.id == "shared")) [
  | inl e ↦ rw e (omega (arith, length-append es (x ∷ [])))
  | inr e ↦ rw e (
      let f = length-select_snoc (λ (e : BudgetInflight). same_client e.client client) es x in
      ground arith)
]

active-append_other :
    (r : BudgetRule) (client : ClientKind) (es : List BudgetInflight) (x : BudgetInflight)
    → (r.id == "shared") ≡ false
    → same_client x.client client ≡ false
    → active_under r client (es ++ (x ∷ [])) ≡ active_under r client es
unfolding active_under
active-append_other r client es x h k = rw h (
    let f = length-select_snoc (λ (e : BudgetInflight). same_client e.client client) es x in
    ground arith)

at_most : (a b : ℕ) → a ≡ b → a ≤ b
at_most a b h = omega arith

-- Pruning keeps every sample that counts under a rule, and adds no slot.
pub prune-IsWithin :
    (alive : ℕ → Bool) (p : BudgetPolicy) (now : ℕ) (u : BudgetUsage)
    → IsWithin p now u
    → IsWithin p now (prune_usage alive p now u)
unfolding prune_usage
prune-IsWithin alive p now u w = record {
  spent = λ client r d {m} a l.
      let keep = widest (list_budget_rules p) in
      let before = w.spent client r d a l in
      elim (Bool-cases (ltb 0 keep)) [
        | inl e ↦ rw e (
            le_trans_nat _ _ m
              (at_most _ _ (used-pruned d r client now keep u.samples (window-widest p client r a)))
              before)
        | inr e ↦ rw e (omega arith)
      ];
  slots = λ client r {m} a l.
      le_trans_nat _ _ m
        (active-select r client (λ e. not (inflight_is_reclaimable alive now e)) u.inflight)
        (w.slots client r a l);
}

used-shared :
    (d : Dimension) (r : BudgetRule) (j k : ClientKind) (now : ℕ) (ss : List BudgetSample)
    → (r.id == "shared") ≡ true
    → used d r j now ss ≡ used d r k now ss
used-shared d r j k now ss h =
    ap (sum_of (weight d)) (select-same (counts r j now) (counts r k now) ss λ s. ground arith)

active-shared :
    (r : BudgetRule) (j k : ClientKind) (es : List BudgetInflight)
    → (r.id == "shared") ≡ true
    → active_under r j es ≡ active_under r k es
unfolding active_under
active-shared r j k es h = rw h

module _ (host : BudgetHost) (p : BudgetPolicy) (client : ClientKind) (cost : AuthorityCost)
    (now : ℕ) (u : BudgetUsage)
    (free : refusal_of (rules_for_client p client) u cost client now ≡ none) where
  room_for :
      (r : BudgetRule) (d : Dimension) {m : ℕ}
      → Applies p client r
      → limit_of d r ≡ some m
      → used d r client now u.samples + cost_of d cost ≤ m
  room_for r d a l =
      let e =
        refusal-each (rules_for_client p client) u cost client now free
          (mem-rules_for p client r a (restricts-limit d r l)) in
      let x = exceeded-none d r u cost client now (evaluate_rule-none r u cost client now e).0 l in
      let y = used_under-used d r client now u.samples in omega (arith, x, y)

  slot_for :
      (r : BudgetRule) {m : ℕ}
      → Applies p client r
      → r.max_concurrent ≡ some m
      → active_under r client u.inflight + 1 ≤ m
  slot_for r a l =
      let e =
        refusal-each (rules_for_client p client) u cost client now free
          (mem-rules_for p client r a (restricts-slots r l)) in
      slot_refusal-none r u client (evaluate_rule-none r u cost client now e).1 l

  abbrev new_sample : BudgetSample
  new_sample = record { at = now; client = client; cost = cost }

  abbrev new_slot : BudgetInflight
  new_slot = record { id = host.fresh_id; client = client; at = now; pid = some host.pid }

  spent_own :
      (r : BudgetRule) (d : Dimension) {m : ℕ}
      → Applies p client r
      → limit_of d r ≡ some m
      → used d r client now (u.samples ++ (new_sample ∷ [])) ≤ m
  spent_own r d {m} a l =
      le_trans_nat _ _ m (used-append d r client now u.samples new_sample) (room_for r d a l)

  slots_own :
      (r : BudgetRule) {m : ℕ}
      → Applies p client r
      → r.max_concurrent ≡ some m
      → active_under r client (u.inflight ++ (new_slot ∷ [])) ≤ m
  slots_own r {m} a l =
      le_trans_nat _ _ m (active-append r client u.inflight new_slot) (slot_for r a l)

  -- A reservation that no rule of its client refuses keeps every rule of every client.
  pub spend-IsWithin : IsNamed p → IsWithin p now u → IsWithin p now (spend host client cost now u)
  unfolding spend
  spend-IsWithin n w = record {
    spent = λ k r d {m} a l. elim (Bool-cases (same_client client k)) [
      | inl e ↦
          let same = same_client_lem client k e in
          subst (λ z. used d r z now (u.samples ++ (new_sample ∷ [])) ≤ m) same
            (spent_own r d (subst (λ z. Applies p z r) (sym same) a) l)
      | inr e ↦ elim a [
        | inl h ↦
            subst (λ z. z ≤ m)
              (used-shared d r client k now (u.samples ++ (new_sample ∷ [])) (n.shared_name h))
              (spent_own r d (inl h) l)
        | inr h ↦
            subst (λ z. z ≤ m)
              (sym (used-append_other d r k now u.samples new_sample (n.client_name k h) e))
              (w.spent k r d (inr h) l)
      ]
    ];
    slots = λ k r {m} a l. elim (Bool-cases (same_client client k)) [
      | inl e ↦
          let same = same_client_lem client k e in
          subst (λ z. active_under r z (u.inflight ++ (new_slot ∷ [])) ≤ m) same
            (slots_own r (subst (λ z. Applies p z r) (sym same) a) l)
      | inr e ↦ elim a [
        | inl h ↦
            subst (λ z. z ≤ m)
              (active-shared r client k (u.inflight ++ (new_slot ∷ [])) (n.shared_name h))
              (slots_own r (inl h) l)
        | inr h ↦
            subst (λ z. z ≤ m)
              (sym (active-append_other r k u.inflight new_slot (n.client_name k h) e))
              (w.slots k r (inr h) l)
      ]
    ];
  }
