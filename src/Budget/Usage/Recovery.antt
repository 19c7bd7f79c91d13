-- ===== src/Budget/Usage/Recovery.antt =====
-- When src/shared/budget-usage.ts has capacity again.

use dex_reach.Common.{
  ℕ, ◌+◌, ◌≤◌, ◌≡◌, refl, ◌∙◌, ap, inl, inr, Bool, true, false, Option, none, some, List, [], ◌∷◌,
  ◌++◌, All, select, ltb, ◌==◌, text_eq, Bool-cases, Option-cases, arith,
}
use dex_reach.Common.Outcome.{ok}
use dex_reach.Clients.{ClientKind, entry}
use dex_reach.Budget.{
  BudgetRule, BudgetPolicy, policy_restricts, rules_for_client, restricting, rule_restricts,
  list_budget_rules,
}
use dex_reach.Budget.Usage.{
  sum_cost, AuthorityCost, zero_cost, BudgetSample, BudgetUsage, empty_usage, Dimension, operations,
  mutations, shell_calls, requested_write_bytes, requested_process_ms, cost_of, limit_of, widest,
  would_exceed, scoped, in_window, used_under, active_under, slot_refusal, exceeded, evaluate_rule,
  refusal_of, prune_usage, spend, BudgetHost, UsageFile, usage, reserved, load_budget_usage,
  reserve_within, reserve_budget_usage,
}
use dex_reach.Budget.Usage.Refusal.{Applies}

-- A cost that each rule for the client allows by itself, where the rule leaves room for one call at a time.
pub record IsAffordable (p : BudgetPolicy) (client : ClientKind) (cost : AuthorityCost)
    : Type 0 where
  pub within :
      (r : BudgetRule) (d : Dimension) {m : ℕ}
      → Applies p client r
      → limit_of d r ≡ some m
      → cost_of d cost ≤ m
  pub one_slot : (r : BudgetRule) {m : ℕ} → Applies p client r → r.max_concurrent ≡ some m → 1 ≤ m

expired-select :
    (keep now : ℕ) (ss : List BudgetSample)
    → All (λ (s : BudgetSample). s.at + keep ≤ now) ss
    → select (λ (s : BudgetSample). ltb now (s.at + keep)) ss ≡ []
expired-select keep now [] a = refl
expired-select keep now (s ∷ ss) a =
    let e : ltb now (s.at + keep) ≡ false = let h = a.0 in ground arith in
    rw e (expired-select keep now ss a.1)

prune-empty :
    (alive : ℕ → Bool) (p : BudgetPolicy) (now : ℕ) (u : BudgetUsage)
    → u.inflight ≡ []
    → All (λ (s : BudgetSample). s.at + widest (list_budget_rules p) ≤ now) u.samples
    → prune_usage alive p now u ≡ empty_usage
unfolding prune_usage
prune-empty alive p now u i a =
    let keep = widest (list_budget_rules p) in
    elim (Bool-cases (ltb 0 keep)) [
      | inl e ↦ rw (prune_usage, e, expired-select keep now u.samples a, i) refl
      | inr e ↦ rw (prune_usage, e, i) refl
    ]

fits : (c : ℕ) (o : Option ℕ) → ((m : ℕ) → o ≡ some m → c ≤ m) → would_exceed 0 c o ≡ false
unfolding would_exceed
fits c none h = refl
fits c (some m) h = let k = h m refl in ground arith

nothing_used :
    (r : BudgetRule) (client : ClientKind) (now : ℕ) → used_under r client now [] ≡ zero_cost
unfolding used_under in_window scoped sum_cost
nothing_used r client now = elim (Bool-cases (r.id == "shared")) [
  | inl e ↦ rw (used_under, scoped, e) refl
  | inr e ↦ rw (used_under, scoped, e) refl
]

module _ (p : BudgetPolicy) (client : ClientKind) (cost : AuthorityCost) (now : ℕ)
    (w : IsAffordable p client cost) where
  exceeded-room : (r : BudgetRule) → Applies p client r → exceeded r client now cost [] ≡ none
  unfolding exceeded
  exceeded-room r a =
      let fit : (d : Dimension) → would_exceed 0 (cost_of d cost) (limit_of d r) ≡ false =
        λ d. fits (cost_of d cost) (limit_of d r) (λ m l. w.within r d a l) in
      rw
        (
          exceeded,
          nothing_used r client now,
          fit operations,
          fit mutations,
          fit shell_calls,
          fit requested_write_bytes,
          fit requested_process_ms,
        )
        refl

  slot_free : (r : BudgetRule) → Applies p client r → slot_refusal r client [] ≡ none
  unfolding slot_refusal active_under
  slot_free r a = elim (Option-cases r.max_concurrent) [
    | inl e ↦ rw (slot_refusal, e) refl
    | inr (m, e) ↦ elim (Bool-cases (r.id == "shared")) [
      | inl s ↦ let k = w.one_slot r a e in rw (slot_refusal, e, active_under, s) (ground arith)
      | inr s ↦ let k = w.one_slot r a e in rw (slot_refusal, e, active_under, s) (ground arith)
    ]
  ]

  rule_allows :
      (r : BudgetRule) → Applies p client r → evaluate_rule r empty_usage cost client now ≡ none
  unfolding evaluate_rule
  rule_allows r a = rw (evaluate_rule, exceeded-room r a, slot_free r a) refl

  refusal-cons :
      (r : BudgetRule) (rs : List BudgetRule)
      → Applies p client r
      → refusal_of rs empty_usage cost client now ≡ none
      → refusal_of (r ∷ rs) empty_usage cost client now ≡ none
  unfolding refusal_of
  refusal-cons r rs a h = rw (refusal_of, rule_allows r a) h

  refusal-restricting :
      (o : Option BudgetRule) (rs : List BudgetRule)
      → ((r : BudgetRule) → o ≡ some r → Applies p client r)
      → refusal_of rs empty_usage cost client now ≡ none
      → refusal_of (restricting o ++ rs) empty_usage cost client now ≡ none
  refusal-restricting none rs a h = h
  refusal-restricting (some r) rs a h = elim (Bool-cases (rule_restricts r)) [
    | inl e ↦ rw e (refusal-cons r rs (a r refl) h)
    | inr e ↦ rw e h
  ]

  refusal-alone :
      (o : Option BudgetRule)
      → ((r : BudgetRule) → o ≡ some r → Applies p client r)
      → refusal_of (restricting o) empty_usage cost client now ≡ none
  unfolding refusal_of
  refusal-alone none a = refl
  refusal-alone (some r) a = elim (Bool-cases (rule_restricts r)) [
    | inl e ↦ rw e (refusal-cons r [] (a r refl) refl)
    | inr e ↦ rw e refl
  ]

  no_refusal : refusal_of (rules_for_client p client) empty_usage cost client now ≡ none
  unfolding rules_for_client
  no_refusal =
      refusal-restricting p.shared (restricting (entry client p.clients)) (λ r e. inl e)
        (refusal-alone (entry client p.clients) (λ r e. inr e))

granted :
    (host : BudgetHost) (p : BudgetPolicy) (client : ClientKind) (cost : AuthorityCost) (now : ℕ)
    (f : UsageFile)
    → IsAffordable p client cost
    → reserve_within host p client cost now f empty_usage ≡ (
      reserved host.fresh_id (spend host client cost now empty_usage),
      usage (spend host client cost now empty_usage),
    )
unfolding reserve_within
granted host p client cost now f w = rw (reserve_within, no_refusal p client cost now w) refl

-- A budget recovers: once every cost that it has counted is older than its widest window, and no slot is
-- held, any request that the rules for its client allow by itself is granted, however much was spent
-- before. It is the only cost that is counted then, and holds the only slot.
pub reserve-recovers :
    (host : BudgetHost) (p : BudgetPolicy) (client : ClientKind) (cost : AuthorityCost) (now : ℕ)
    (u : BudgetUsage)
    → policy_restricts p ≡ true
    → IsAffordable p client cost
    → u.inflight ≡ []
    → All (λ (s : BudgetSample). s.at + widest (list_budget_rules p) ≤ now) u.samples
    → reserve_budget_usage host p client cost now (usage u)
      ≡ ok (
        reserved host.fresh_id (spend host client cost now empty_usage),
        usage (spend host client cost now empty_usage),
      )
unfolding reserve_budget_usage load_budget_usage
reserve-recovers host p client cost now u r w i a =
    let within = reserve_within host p client cost now (usage u) in
    let first : reserve_budget_usage host p client cost now (usage u)
        ≡ ok (within (prune_usage host.alive p now u)) =
      rw (reserve_budget_usage, r) refl in
    first
    ∙ ap (λ v. ok (within v)) (prune-empty host.alive p now u i a)
    ∙ ap ok (granted host p client cost now (usage u) w)
