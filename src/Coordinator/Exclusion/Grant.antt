-- ===== src/Coordinator/Exclusion/Grant.antt =====
-- A lease that is written: when it keeps the leases apart, and that an admission gives what it takes.
use mathlib.Core.Path.{subst, subst⁻¹}
use text.Mathlib.TextEquality.{eq_iff}
use dex_reach.Common.{
  ℕ, String, ◌≡◌, ◌≢◌, refl, sym, ap, ◌∙◌, Bool, true, false, not, ◌&&◌, ◌||◌, Option, none, some,
  List, [], ◌∷◌, Memᴰ, text_eq, same_option, any, Bool-cases, arith, inl, inr,
}
use dex_reach.Common.Outcome.{Result, ok, err}
use dex_reach.Capacity.{AccessClass, read, exclusive, is_read, is_exclusive, is_substantive}
use dex_reach.Bundle.{WorkBundle}
use dex_reach.Coordinator.{WorkLease, CoordinatorState, CapacitySnapshot}
use dex_reach.Coordinator.Decide.{AdmissionRequest, named, holds_repository, holds_machine}
use dex_reach.Coordinator.Admission.{IsClear}
use dex_reach.Coordinator.Store.{World, WorkError, Act, resume, write_lease}
use dex_reach.Coordinator.Exclusion.{IsExclusive, leases_of, conflicts}
use dex_reach.Coordinator.Exclusion.Files.{mem-cons-cases, Reads-put, IsNamed-put}

same_root : (o p : Option String) → (named o && same_option p o) ≡ (named p && same_option o p)
same_root none none = refl
same_root none (some t) = ground arith
same_root (some s) none = ground arith
same_root (some s) (some t) = ground (arith, eq_iff s t, eq_iff t s, eq_iff s "", eq_iff t "")

pub conflicts_comm : (a b : WorkLease) → conflicts a b ≡ conflicts b a
conflicts_comm a b = ground (arith, same_root a.repository_root b.repository_root)

pub IsExclusive-write :
    (x : WorkLease) (w : World)
    → IsExclusive w
    → ((b : WorkLease) → Memᴰ b (leases_of w) → b.id ≢ x.id → conflicts x b ≡ false)
    → IsExclusive (write_lease x w).1
unfolding write_lease
IsExclusive-write x w h apart = record {
  well_named = IsNamed-put x w.leases h.well_named;
  apart = λ a b ma mb ne. elim (Reads-put x.id x a w.leases ma) [
    | inl p ↦ elim (Reads-put x.id x b w.leases mb) [
      | inl q ↦ absurd (ne (ap (λ l. l.id) (p ∙ sym q)))
      | inr q ↦
          subst⁻¹ (λ l. conflicts l b ≡ false) p (apart b q (λ e. ne (ap (λ l. l.id) p ∙ sym e)))
    ]
    | inr p ↦ elim (Reads-put x.id x b w.leases mb) [
      | inl q ↦
          subst⁻¹ (λ l. conflicts a l ≡ false) q
            (conflicts_comm a x ∙ apart a p (λ e. ne (e ∙ sym (ap (λ l. l.id) q))))
      | inr q ↦ h.apart a b p q ne
    ]
  ];
}

pub any-mem :
    {A : Type 0} (p : A → Bool) (xs : List A) {x : A} → any p xs ≡ false → Memᴰ x xs → p x ≡ false
any-mem p [] h m = elim m [ ]
any-mem p (y ∷ xs) {x} h m = elim (mem-cons-cases m) [
  | inl e ↦ rw e (ground arith)
  | inr r ↦ any-mem p xs (ground arith) r
]

repository_apart :
    (a : AccessClass) (n s t : Bool)
    → (a ≢ read → n ≡ true → (s && t) ≡ false)
    → (n && (s && (not (is_read a) && t))) ≡ false
repository_apart a n s t h = elim (Bool-cases (is_read a)) [
  | inl e ↦ ground arith
  | inr e ↦ elim (Bool-cases n) [
    | inl m ↦ let free = h (λ q. ground arith) m in ground arith
    | inr m ↦ ground arith
  ]
]

machine_apart :
    (a : AccessClass) (s t u : Bool)
    → (a ≡ exclusive → t ≡ false)
    → (s ≡ true → u ≡ false)
    → ((is_exclusive a && t) || (u && s)) ≡ false
machine_apart a s t u h k = ground arith

not_in_nil : {A : Type 0} {x : A} → Memᴰ x [] → ⊥
not_in_nil m = elim m [ ]

-- A clear state holds no lease that conflicts with the one that the request asks for.
pub clear-apart :
    (state : CoordinatorState) (snapshot : CapacitySnapshot) (now : ℕ) (r : AdmissionRequest)
    (asked : WorkBundle) (used : List WorkBundle) (x b : WorkLease)
    → IsClear state snapshot now r asked used
    → x.repository_root ≡ r.repository_root
    → x.access ≡ r.access
    → x.workload ≡ r.workload
    → Memᴰ b state.leases
    → conflicts x b ≡ false
unfolding holds_repository
clear-apart state snapshot now r asked used x b c er ea ew m =
    let repository =
      repository_apart r.access (named r.repository_root)
        (same_option b.repository_root r.repository_root) (not (is_read b.access))
        (λ ne n.
          any-mem (holds_repository r.repository_root) state.leases (c.repository_free ne n) m) in
    let machine =
      machine_apart r.access (is_substantive r.workload r.access)
        (is_substantive b.workload b.access) (is_exclusive b.access)
        (λ e. absurd (not_in_nil (subst (λ ls. Memᴰ b ls) (c.machine_idle e) m)))
        (λ e. any-mem holds_machine state.leases (c.machine_free e) m) in
    rw (er, ea, ew, repository) machine

module _ {A B : Type 0} where
  -- An operation that succeeds succeeded at its first step.
  pub resume-ok :
      (f : A → Act B) (r : Result WorkError A × World) {b : B} {w : World}
      → resume f r ≡ (ok b, w)
      → (a : A) × (v : World) × (r ≡ (ok a, v)) × (f a v ≡ (ok b, w))
  resume-ok f (ok a, v) h = (a, v, refl, h)
  resume-ok f (err e, v) h = cc
