-- ===== src/Budget/Usage/Refusal.antt =====
-- What it means that no rule of src/shared/budget-usage.ts refuses a reservation.
use mathlib.Core.Path.{subst}
use dex_reach.Common.{
  ℕ, ◌+◌, ◌≤◌, ◌≡◌, refl, sym, ◌∙◌, ap, ◌⊎◌, inl, inr, true, Option, none, some, List, [], ◌∷◌,
  ◌++◌, Memᴰ, text_eq, arith,
}
use dex_reach.Clients.{ClientKind, chatgpt, claude, smoke, other, entry}
use dex_reach.Budget.{
  BudgetRule, BudgetPolicy, rule_restricts, restricting, rules_for_client, present,
  list_budget_rules,
}
use dex_reach.Budget.Usage.{
  AuthorityCost, BudgetUsage, Dimension, operations, mutations, shell_calls, requested_write_bytes,
  requested_process_ms, cost_of, limit_of, would_exceed, exceeded, used_under, active_under,
  slot_refusal, evaluate_rule, refusal_of, widest,
}

-- The rules that an owner has set for a kind of client.
abbrev pub Applies : BudgetPolicy → ClientKind → BudgetRule → Type 0
Applies p client r = (p.shared ≡ some r) ⊎ (entry client p.clients ≡ some r)

pub restricts-limit :
    (d : Dimension) (r : BudgetRule) {m : ℕ} → limit_of d r ≡ some m → rule_restricts r ≡ true
unfolding rule_restricts
restricts-limit operations r h = ground arith
restricts-limit mutations r h = ground arith
restricts-limit shell_calls r h = ground arith
restricts-limit requested_write_bytes r h = ground arith
restricts-limit requested_process_ms r h = ground arith

pub restricts-slots : (r : BudgetRule) {m : ℕ} → r.max_concurrent ≡ some m → rule_restricts r ≡ true
unfolding rule_restricts
restricts-slots r h = ground arith

mem-append-left : {A : Type 0} {a : A} (xs ys : List A) → Memᴰ a xs → Memᴰ a (xs ++ ys)
mem-append-left [] ys m = elim m [ ]
mem-append-left (x ∷ xs) ys (Memᴰ.head e) = Memᴰ.head e
mem-append-left (x ∷ xs) ys (Memᴰ.tail m) = Memᴰ.tail (mem-append-left xs ys m)

mem-append-right : {A : Type 0} {a : A} (xs ys : List A) → Memᴰ a ys → Memᴰ a (xs ++ ys)
mem-append-right [] ys m = m
mem-append-right (x ∷ xs) ys m = Memᴰ.tail (mem-append-right xs ys m)

mem-restricting :
    (o : Option BudgetRule) (r : BudgetRule)
    → o ≡ some r
    → rule_restricts r ≡ true
    → Memᴰ r (restricting o)
mem-restricting o r h e = subst (λ z. Memᴰ r (restricting z)) (sym h) (rw e (Memᴰ.head refl))

pub mem-rules_for :
    (p : BudgetPolicy) (client : ClientKind) (r : BudgetRule)
    → Applies p client r
    → rule_restricts r ≡ true
    → Memᴰ r (rules_for_client p client)
unfolding rules_for_client
mem-rules_for p client r (inl h) e =
    mem-append-left (restricting p.shared) _ (mem-restricting p.shared r h e)
mem-rules_for p client r (inr h) e =
    mem-append-right (restricting p.shared) _ (mem-restricting (entry client p.clients) r h e)

none_of_some : {A B : Type 0} {a : A} → ◌≡◌ {A = Option A} (some a) none → B
none_of_some h = ground arith

refusal-head :
    (r : BudgetRule) (rs : List BudgetRule) (u : BudgetUsage) (cost : AuthorityCost)
    (client : ClientKind) (now : ℕ)
    → refusal_of (r ∷ rs) u cost client now ≡ none
    → (evaluate_rule r u cost client now ≡ none) × (refusal_of rs u cost client now ≡ none)
unfolding refusal_of
refusal-head r rs u cost client now h = ground arith

pub refusal-each :
    (rs : List BudgetRule) (u : BudgetUsage) (cost : AuthorityCost) (client : ClientKind) (now : ℕ)
    {r : BudgetRule}
    → refusal_of rs u cost client now ≡ none
    → Memᴰ r rs
    → evaluate_rule r u cost client now ≡ none
refusal-each [] u cost client now h m = elim m [ ]
refusal-each (q ∷ rs) u cost client now h (Memᴰ.head e) =
    ap (λ z. evaluate_rule z u cost client now) e ∙ (refusal-head q rs u cost client now h).0
refusal-each (q ∷ rs) u cost client now h (Memᴰ.tail m) =
    refusal-each rs u cost client now (refusal-head q rs u cost client now h).1 m

-- A rule that does not refuse has room in each dimension, and a free slot.
pub evaluate_rule-none :
    (r : BudgetRule) (u : BudgetUsage) (cost : AuthorityCost) (client : ClientKind) (now : ℕ)
    → evaluate_rule r u cost client now ≡ none
    → (exceeded r client now cost u.samples ≡ none) × (slot_refusal r client u.inflight ≡ none)
unfolding evaluate_rule
evaluate_rule-none r u cost client now h = ground arith

pub exceeded-none :
    (d : Dimension) (r : BudgetRule) (u : BudgetUsage) (cost : AuthorityCost) (client : ClientKind)
    (now : ℕ) {m : ℕ}
    → exceeded r client now cost u.samples ≡ none
    → limit_of d r ≡ some m
    → cost_of d (used_under r client now u.samples) + cost_of d cost ≤ m
unfolding exceeded would_exceed
exceeded-none operations r u cost client now h e = ground arith
exceeded-none mutations r u cost client now h e = ground arith
exceeded-none shell_calls r u cost client now h e = ground arith
exceeded-none requested_write_bytes r u cost client now h e = ground arith
exceeded-none requested_process_ms r u cost client now h e = ground arith

pub slot_refusal-none :
    (r : BudgetRule) (u : BudgetUsage) (client : ClientKind) {m : ℕ}
    → slot_refusal r client u.inflight ≡ none
    → r.max_concurrent ≡ some m
    → active_under r client u.inflight + 1 ≤ m
unfolding slot_refusal
slot_refusal-none r u client h e = ground arith

widest-mem : (rs : List BudgetRule) {r : BudgetRule} → Memᴰ r rs → r.window_ms ≤ widest rs
widest-mem [] m = elim m [ ]
widest-mem (q ∷ rs) (Memᴰ.head e) = let f = ap (λ (z : BudgetRule). z.window_ms) e in ground arith
widest-mem (q ∷ rs) (Memᴰ.tail m) = let f = widest-mem rs m in ground arith

mem-present : {A : Type 0} (o : Option A) {a : A} → o ≡ some a → Memᴰ a (present o)
mem-present o {a} h = subst (λ z. Memᴰ a (present z)) (sym h) (Memᴰ.head refl)

mem-listed :
    (p : BudgetPolicy) (client : ClientKind) (r : BudgetRule)
    → Applies p client r
    → Memᴰ r (list_budget_rules p)
unfolding list_budget_rules
mem-listed p client r (inl h) = mem-append-left (present p.shared) _ (mem-present p.shared h)
mem-listed p chatgpt r (inr h) =
    mem-append-right (present p.shared) _
      (mem-append-left (present p.clients.for_chatgpt) _ (mem-present _ h))
mem-listed p claude r (inr h) = mem-append-right (present p.shared) _ (
    mem-append-right (present p.clients.for_chatgpt) _
      (mem-append-left (present p.clients.for_claude) _ (mem-present _ h)))
mem-listed p smoke r (inr h) = mem-append-right (present p.shared) _ (
    mem-append-right (present p.clients.for_chatgpt) _ (
      mem-append-right (present p.clients.for_claude) _
        (mem-append-left (present p.clients.for_smoke) _ (mem-present _ h))))
mem-listed p other r (inr h) = mem-append-right (present p.shared) _ (
    mem-append-right (present p.clients.for_chatgpt) _ (
      mem-append-right (present p.clients.for_claude) _
        (mem-append-right (present p.clients.for_smoke) _ (mem-present _ h))))

-- No rule's window is wider than the time for which samples are kept.
pub window-widest :
    (p : BudgetPolicy) (client : ClientKind) (r : BudgetRule)
    → Applies p client r
    → r.window_ms ≤ widest (list_budget_rules p)
window-widest p client r h = widest-mem (list_budget_rules p) (mem-listed p client r h)
