-- ===== src/Budget/Usage/Ledger.antt =====
-- Histories of reservations and releases of src/shared/budget-usage.ts under one policy.
use Prim.Native.String.{String}
use mathlib.Core.Path.{subst}
use dex_reach.Common.{
  ℕ, ◌≤◌, ◌≡◌, refl, sym, ◌∙◌, ap, inl, inr, true, false, not, Option, none, some, List, [], ◌∷◌,
  select, any, ◌==◌, text_eq, Bool-cases, Option-cases, arith,
}
use dex_reach.Common.Outcome.{Result, ok, err, Result-cases, ok_injective}
use dex_reach.Clients.{ClientKind}
use dex_reach.Budget.{BudgetPolicy, policy_restricts, rules_for_client}
use dex_reach.Budget.Usage.{
  AuthorityCost, BudgetInflight, BudgetUsage, refusal_of, prune_usage, spend, BudgetHost, UsageFile,
  no_usage, corrupt_usage, usage, UsageError, Reservation, reserve_within, load_budget_usage,
  reserve_budget_usage, release_budget_concurrency,
}
use dex_reach.Budget.Usage.Spending.{
  IsNamed, IsWithin, IsWithin-later, empty-IsWithin, prune-IsWithin, spend-IsWithin, active-select,
}

-- What a reservation leaves: the file as it was, or the pruned usage with the cost added.
pub data Reserves (host : BudgetHost) (p : BudgetPolicy) (client : ClientKind)
    (cost : AuthorityCost) (now : ℕ) (f g : UsageFile) : Type 0 where
  leaves : g ≡ f → Reserves host p client cost now f g
  spends :
      (u : BudgetUsage)
      → load_budget_usage f ≡ ok u
      → refusal_of (rules_for_client p client) (prune_usage host.alive p now u) cost client now
        ≡ none
      → g ≡ usage (spend host client cost now (prune_usage host.alive p now u))
      → Reserves host p client cost now f g

abbrev file_after : UsageFile → Result UsageError (Reservation × UsageFile) → UsageFile
file_after f (ok (r, g)) = g
file_after f (err e) = f

-- The file after a reservation, which may throw.
unfoldable pub after_reserve :
    BudgetHost → BudgetPolicy → ClientKind → AuthorityCost → ℕ → UsageFile → UsageFile
after_reserve host p client cost now f =
    file_after f (reserve_budget_usage host p client cost now f)

pub reserve-Reserves :
    (host : BudgetHost) (p : BudgetPolicy) (client : ClientKind) (cost : AuthorityCost) (now : ℕ)
    (f : UsageFile)
    → Reserves host p client cost now f (after_reserve host p client cost now f)
unfolding after_reserve reserve_budget_usage reserve_within
reserve-Reserves host p client cost now f = elim (Bool-cases (policy_restricts p)) [
  | inr e ↦ rw e (leaves refl)
  | inl e ↦ elim (Result-cases (load_budget_usage f)) [
    | inr (x, h) ↦ rw (e, h) (leaves refl)
    | inl (u, h) ↦
        elim (Option-cases (
          refusal_of (rules_for_client p client) (prune_usage host.alive p now u) cost client
            now)) [
              | inl k ↦ rw (e, h, k, reserve_within) (spends u h k refl)
              | inr (x, k) ↦ rw (e, h, k, reserve_within) (leaves refl)
            ]
  ]
]

-- A request to the budget, at a time: a reservation, or the release of a slot.
pub data BudgetEvent : Type 0 where
  reserve : BudgetHost → ClientKind → AuthorityCost → ℕ → BudgetEvent
  release : Option String → BudgetEvent

abbrev pub apply_event : BudgetPolicy → BudgetEvent → UsageFile → UsageFile
apply_event p (reserve host client cost now) f = after_reserve host p client cost now f
apply_event p (release id) f = release_budget_concurrency id f

abbrev pub apply_events : BudgetPolicy → List BudgetEvent → UsageFile → UsageFile
apply_events p [] f = f
apply_events p (e ∷ es) f = apply_events p es (apply_event p e f)

-- The events lie in time order between the two times.
abbrev pub IsTimely : ℕ → List BudgetEvent → ℕ → Type 0
IsTimely start [] stop = start ≤ stop
IsTimely start (reserve host client cost now ∷ es) stop = (start ≤ now) × IsTimely now es stop
IsTimely start (release id ∷ es) stop = IsTimely start es stop

-- Whatever usage the file gives, it keeps every rule.
abbrev pub FileWithin : BudgetPolicy → ℕ → UsageFile → Type 0
FileWithin p now f = (u : BudgetUsage) → load_budget_usage f ≡ ok u → IsWithin p now u

reserve-FileWithin :
    (host : BudgetHost) (p : BudgetPolicy) (client : ClientKind) (cost : AuthorityCost)
    (before now : ℕ) (f g : UsageFile)
    → IsNamed p
    → before ≤ now
    → Reserves host p client cost now f g
    → FileWithin p before f
    → FileWithin p now g
unfolding load_budget_usage
reserve-FileWithin host p client cost before now f g n h (leaves e) w u k =
    IsWithin-later p before now u h (w u (ap load_budget_usage (sym e) ∙ k))
reserve-FileWithin host p client cost before now f g n h (spends u l free e) w v k =
    subst (IsWithin p now) (ok_injective (ap load_budget_usage (sym e) ∙ k)) (
      spend-IsWithin host p client cost now (prune_usage host.alive p now u) free n
        (prune-IsWithin host.alive p now u (IsWithin-later p before now u h (w u l))))

le_trans_nat : (a b c : ℕ) → a ≤ b → b ≤ c → a ≤ c
le_trans_nat a b c h k = omega arith

released :
    (v : BudgetUsage) (id : String)
    → any (λ (e : BudgetInflight). e.id == id) v.inflight ≡ true
    → release_budget_concurrency (some id) (usage v)
      ≡ usage (record v { inflight = select (λ (e : BudgetInflight). not (e.id == id)) v.inflight })
unfolding release_budget_concurrency
released v id h = rw h

not_released :
    (v : BudgetUsage) (id : String)
    → any (λ (e : BudgetInflight). e.id == id) v.inflight ≡ false
    → release_budget_concurrency (some id) (usage v) ≡ usage v
unfolding release_budget_concurrency
not_released v id h = rw h

start : (p : BudgetPolicy) → FileWithin p 0 no_usage
unfolding load_budget_usage
start p v k = subst (IsWithin p 0) (ok_injective k) (empty-IsWithin p 0)

-- A release keeps the samples, and adds no slot.
release-FileWithin :
    (id : Option String) (p : BudgetPolicy) (now : ℕ) (f : UsageFile)
    → FileWithin p now f
    → FileWithin p now (release_budget_concurrency id f)
unfolding release_budget_concurrency load_budget_usage
release-FileWithin none p now f w u k = w u k
release-FileWithin (some id) p now no_usage w u k = w u k
release-FileWithin (some id) p now corrupt_usage w u k = w u k
release-FileWithin (some id) p now (usage v) w u k =
    let before = w v refl in
    let kept : BudgetUsage = record v {
      inflight = select (λ (e : BudgetInflight). not (e.id == id)) v.inflight;
    } in
    let smaller : IsWithin p now kept = record {
      spent = λ client r d {m} a l. before.spent client r d a l;
      slots = λ client r {m} a l.
          le_trans_nat _ _ m (active-select r client (λ e. not (e.id == id)) v.inflight)
            (before.slots client r a l);
    } in
    elim (Bool-cases (any (λ (e : BudgetInflight). e.id == id) v.inflight)) [
      | inl e ↦
          subst (IsWithin p now) (ok_injective (sym (ap load_budget_usage (released v id e)) ∙ k))
            smaller
      | inr e ↦
          subst (IsWithin p now)
            (ok_injective (sym (ap load_budget_usage (not_released v id e)) ∙ k)) before
    ]

events-FileWithin :
    (p : BudgetPolicy) (es : List BudgetEvent) (start stop : ℕ) (f : UsageFile)
    → IsNamed p
    → IsTimely start es stop
    → FileWithin p start f
    → FileWithin p stop (apply_events p es f)
events-FileWithin p [] start stop f n t w = λ u k. IsWithin-later p start stop u t (w u k)
events-FileWithin p (reserve host client cost now ∷ es) start stop f n t w =
    events-FileWithin p es now stop (after_reserve host p client cost now f) n t.1 (
      reserve-FileWithin host p client cost start now f _ n t.0
        (reserve-Reserves host p client cost now f) w)
events-FileWithin p (release id ∷ es) start stop f n t w =
    events-FileWithin p es start stop (release_budget_concurrency id f) n t
      (release-FileWithin id p start f w)

-- No sequence of reservations and releases in time order, by any clients and starting without usage,
-- ever takes more than the policy allows: at every later time and for every rule that applies to a
-- client, the cost within the rule's window is at most its limit in each dimension, and the slots held
-- are at most its limit. The policy is one whose shared rule alone is named so.
pub apply_events-IsWithin :
    (p : BudgetPolicy) (es : List BudgetEvent) (stop : ℕ) {u : BudgetUsage}
    → IsNamed p
    → IsTimely 0 es stop
    → load_budget_usage (apply_events p es no_usage) ≡ ok u
    → IsWithin p stop u
apply_events-IsWithin p es stop {u} n t h =
    events-FileWithin p es 0 stop no_usage n t (λ v k. start p v k) u h
