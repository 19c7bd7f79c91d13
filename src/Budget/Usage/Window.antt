-- ===== src/Budget/Usage/Window.antt =====
-- What the samples of src/shared/budget-usage.ts amount to under a rule, and how it changes with time, with
-- a sample more, and with pruning.
use dex_reach.Common.{
  ℕ, ◌+◌, ◌≤◌, ◌≡◌, refl, ◌∙◌, ap, inl, inr, Bool, false, ◌&&◌, ◌||◌, List, [], ◌∷◌, ◌++◌, select,
  sum_of, sum_of-append, select-append, sum_of-select_le, select-select, select-same, ltb, ◌==◌,
  text_eq, Bool-cases, arith,
}
use dex_reach.Clients.{ClientKind, same_client}
use dex_reach.Budget.{BudgetRule}
use dex_reach.Budget.Usage.{
  BudgetSample, Dimension, operations, mutations, shell_calls, requested_write_bytes,
  requested_process_ms, cost_of, sum_cost, scoped, in_window, used_under,
}

abbrev pub weight : Dimension → BudgetSample → ℕ
weight d s = cost_of d s.cost

pub cost_of-sum :
    (d : Dimension) (ss : List BudgetSample) → cost_of d (sum_cost ss) ≡ sum_of (weight d) ss
unfolding sum_cost
cost_of-sum operations [] = refl
cost_of-sum operations (s ∷ ss) = omega (arith, cost_of-sum operations ss)
cost_of-sum mutations [] = refl
cost_of-sum mutations (s ∷ ss) = omega (arith, cost_of-sum mutations ss)
cost_of-sum shell_calls [] = refl
cost_of-sum shell_calls (s ∷ ss) = omega (arith, cost_of-sum shell_calls ss)
cost_of-sum requested_write_bytes [] = refl
cost_of-sum requested_write_bytes (s ∷ ss) = omega (arith, cost_of-sum requested_write_bytes ss)
cost_of-sum requested_process_ms [] = refl
cost_of-sum requested_process_ms (s ∷ ss) = omega (arith, cost_of-sum requested_process_ms ss)

abbrev pub is_recent : ℕ → ℕ → BudgetSample → Bool
is_recent window now s = ltb now (s.at + window)

abbrev pub is_of : ClientKind → BudgetSample → Bool
is_of client s = same_client s.client client

-- The test that puts a sample under a rule.
abbrev pub counts : BudgetRule → ClientKind → ℕ → BudgetSample → Bool
counts r client now s = (r.id == "shared" || is_of client s) && is_recent r.window_ms now s

abbrev pub used : Dimension → BudgetRule → ClientKind → ℕ → List BudgetSample → ℕ
used d r client now ss = sum_of (weight d) (select (counts r client now) ss)

selected_under :
    (r : BudgetRule) (client : ClientKind) (now : ℕ) (ss : List BudgetSample)
    → in_window r.window_ms now (scoped r client ss) ≡ select (counts r client now) ss
unfolding in_window scoped
selected_under r client now ss = elim (Bool-cases (r.id == "shared")) [
  | inl e ↦
      rw e (select-same (is_recent r.window_ms now) (counts r client now) ss λ s. ground arith)
  | inr e ↦ rw e (
      select-select (is_recent r.window_ms now) (is_of client) ss
      ∙ select-same _ (counts r client now) ss λ s. ground arith)
]

pub used_under-used :
    (d : Dimension) (r : BudgetRule) (client : ClientKind) (now : ℕ) (ss : List BudgetSample)
    → cost_of d (used_under r client now ss) ≡ used d r client now ss
unfolding used_under
used_under-used d r client now ss =
    cost_of-sum d (in_window r.window_ms now (scoped r client ss))
    ∙ ap (sum_of (weight d)) (selected_under r client now ss)

-- Time only takes samples out of a window.
pub used-later :
    (d : Dimension) (r : BudgetRule) (client : ClientKind) (now later : ℕ) (ss : List BudgetSample)
    → now ≤ later
    → used d r client later ss ≤ used d r client now ss
used-later d r client now later ss h =
    sum_of-select_le (weight d) (counts r client later) (counts r client now) ss λ s e. ground arith

-- One sample more adds at most its cost, and nothing under the rule of another client.
pub used-append :
    (d : Dimension) (r : BudgetRule) (client : ClientKind) (now : ℕ) (ss : List BudgetSample)
    (s : BudgetSample)
    → used d r client now (ss ++ (s ∷ [])) ≤ used d r client now ss + weight d s
used-append d r client now ss s =
    let e = ap (sum_of (weight d)) (select-append (counts r client now) ss (s ∷ [])) in
    let f =
      sum_of-append (weight d) (select (counts r client now) ss)
        (select (counts r client now) (s ∷ [])) in
    let g : sum_of (weight d) (select (counts r client now) (s ∷ [])) ≤ weight d s = ground arith in
    omega (arith, e, f, g)

pub used-append_other :
    (d : Dimension) (r : BudgetRule) (client : ClientKind) (now : ℕ) (ss : List BudgetSample)
    (s : BudgetSample)
    → (r.id == "shared") ≡ false
    → same_client s.client client ≡ false
    → used d r client now (ss ++ (s ∷ [])) ≡ used d r client now ss
used-append_other d r client now ss s h k =
    let e = ap (sum_of (weight d)) (select-append (counts r client now) ss (s ∷ [])) in
    let f =
      sum_of-append (weight d) (select (counts r client now) ss)
        (select (counts r client now) (s ∷ [])) in
    let g : sum_of (weight d) (select (counts r client now) (s ∷ [])) ≡ 0 = ground arith in
    omega (arith, e, f, g)

-- Samples that are dropped because they lie outside a wider window do not count under the rule.
pub used-pruned :
    (d : Dimension) (r : BudgetRule) (client : ClientKind) (now keep : ℕ) (ss : List BudgetSample)
    → r.window_ms ≤ keep
    → used d r client now (select (is_recent keep now) ss) ≡ used d r client now ss
used-pruned d r client now keep ss h = ap (sum_of (weight d)) (
    select-select (counts r client now) (is_recent keep now) ss
    ∙ select-same _ _ ss λ s. ground arith)
