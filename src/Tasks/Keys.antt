-- ===== src/Tasks/Keys.antt =====
-- Tables in which no key stands twice, as in every object of src/node/task-store.ts, and what the sweep
-- leaves under a key.
use Prim.Native.String.{String}
use mathlib.Core.Path.{subst}
use dex_reach.Common.{
  ℕ, ◌≡◌, refl, sym, ◌∙◌, ap, ◌⊎◌, inl, inr, true, false, Option, none, some, [], ◌∷◌, ◌==◌,
  text_eq, Bool-cases, Option-cases, arith,
}
use dex_reach.Tasks.{ReachTaskRecord}
use dex_reach.Tasks.Table.{
  Table, lookup, assign, discard, same_key, key_self, lookup-assign_hit, lookup-assign_miss,
  lookup-discard_miss, lookup-cons-hit, lookup-cons-miss,
}
use dex_reach.Tasks.Sweep.{is_due, is_expired, sweep_records, sweep_archive}

pub true_not_false : {B : Type 0} → true ≡ false → B
true_not_false h = ground arith

key_sym : (i j : String) → (i == j) ≡ false → (j == i) ≡ false
key_sym i j h = elim (Bool-cases (j == i)) [
  | inr e ↦ e
  | inl e ↦ true_not_false (sym (ap (λ z. z == j) (sym (same_key j i e)) ∙ key_self j) ∙ h)
]

module _ {A : Type 0} where
  pub data IsKeyed : Table A → Type 0 where
    keyed_nil : IsKeyed []
    keyed_cons :
        (k : String) (a : A) (t : Table A) → lookup k t ≡ none → IsKeyed t → IsKeyed ((k, a) ∷ t)

  pub some_not_none : {B : Type 0} {a : A} → ◌≡◌ {A = Option A} (some a) none → B
  some_not_none h = ground arith

  pub some_injective : {a b : A} → ◌≡◌ {A = Option A} (some a) (some b) → a ≡ b
  some_injective h = ground arith

  pub IsKeyed-head : {k : String} {a : A} {t : Table A} → IsKeyed ((k, a) ∷ t) → lookup k t ≡ none
  IsKeyed-head (keyed_cons k a t e g) = e

  pub IsKeyed-tail : {k : String} {a : A} {t : Table A} → IsKeyed ((k, a) ∷ t) → IsKeyed t
  IsKeyed-tail (keyed_cons k a t e g) = g

  differ :
      (i j : String) (t : Table A) {x : A}
      → lookup i t ≡ none
      → lookup j t ≡ some x
      → (i == j) ≡ false
  differ i j t h k = elim (Bool-cases (i == j)) [
    | inr e ↦ e
    | inl e ↦ some_not_none (sym k ∙ sym (ap (λ z. lookup z t) (same_key i j e)) ∙ h)
  ]

  -- A key that is read stands at the head or in the rest, where the head's key does not.
  pub lookup-cons-cases :
      (i k : String) (a : A) (t : Table A) {x : A}
      → lookup i ((k, a) ∷ t) ≡ some x
      → ((k == i) ≡ true) × (a ≡ x) ⊎ ((k == i) ≡ false) × (lookup i t ≡ some x)
  unfolding lookup
  lookup-cons-cases i k a t h = elim (Bool-cases (k == i)) [
    | inl e ↦ inl (e, ground (arith, lookup-cons-hit i k a t))
    | inr e ↦ inr (e, sym (lookup-cons-miss i k a t e) ∙ h)
  ]

  pub IsKeyed-assign : (id : String) (a : A) (t : Table A) → IsKeyed t → IsKeyed (assign id a t)
  unfolding assign lookup
  IsKeyed-assign id a [] g = keyed_cons id a [] refl keyed_nil
  IsKeyed-assign id a ((k, b) ∷ t) g = elim (Bool-cases (k == id)) [
    | inl e ↦ rw e (keyed_cons k a t (IsKeyed-head g) (IsKeyed-tail g))
    | inr e ↦
        let e' : (id == k) ≡ false = key_sym k id e in
        rw e (
          keyed_cons k b (assign id a t) (lookup-assign_miss k id a t e' ∙ IsKeyed-head g)
            (IsKeyed-assign id a t (IsKeyed-tail g)))
  ]

  pub IsKeyed-discard : (id : String) (t : Table A) → IsKeyed t → IsKeyed (discard id t)
  unfolding discard
  IsKeyed-discard id [] g = keyed_nil
  IsKeyed-discard id ((k, b) ∷ t) g = elim (Bool-cases (k == id)) [
    | inl e ↦ rw e (IsKeyed-discard id t (IsKeyed-tail g))
    | inr e ↦
        let e' : (id == k) ≡ false = key_sym k id e in
        rw e (
          keyed_cons k b (discard id t) (lookup-discard_miss k id t e' ∙ IsKeyed-head g)
            (IsKeyed-discard id t (IsKeyed-tail g)))
  ]

abbrev into_archive : ℕ → String → ReachTaskRecord → Table ReachTaskRecord → Table ReachTaskRecord
into_archive now k r archive = assign k (record r { archived_at = some now }) archive

sweep_records-due :
    (now ms : ℕ) (k : String) (a : ReachTaskRecord) (t archive : Table ReachTaskRecord)
    → is_due now ms a ≡ true
    → ((sweep_records now ms ((k, a) ∷ t) archive).0
        ≡ (sweep_records now ms t (into_archive now k a archive)).0)
      × ((sweep_records now ms ((k, a) ∷ t) archive).1
          ≡ (sweep_records now ms t (into_archive now k a archive)).1)
unfolding sweep_records
sweep_records-due now ms k a t archive e = (rw e, rw e)

sweep_records-stays :
    (now ms : ℕ) (k : String) (a : ReachTaskRecord) (t archive : Table ReachTaskRecord)
    → is_due now ms a ≡ false
    → ((sweep_records now ms ((k, a) ∷ t) archive).0 ≡ (k, a) ∷ (sweep_records now ms t archive).0)
      × ((sweep_records now ms ((k, a) ∷ t) archive).1 ≡ (sweep_records now ms t archive).1)
unfolding sweep_records
sweep_records-stays now ms k a t archive e = (rw e, rw e)

-- What stays active after the sweep stood there and was not due.
pub stay-stood :
    (now ms : ℕ) (t archive : Table ReachTaskRecord) (i : String) {r : ReachTaskRecord}
    → IsKeyed t
    → lookup i (sweep_records now ms t archive).0 ≡ some r
    → (lookup i t ≡ some r) × (is_due now ms r ≡ false)
unfolding sweep_records lookup
stay-stood now ms [] archive i g h = some_not_none (sym h)
stay-stood now ms ((k, a) ∷ t) archive i g h = elim (Bool-cases (is_due now ms a)) [
  | inl e ↦
      let q = sweep_records-due now ms k a t archive e in
      let (s, n) =
        stay-stood now ms t (into_archive now k a archive) i (IsKeyed-tail g)
          (sym (ap (lookup i) q.0) ∙ h) in
      (lookup-cons-miss i k a t (differ k i t (IsKeyed-head g) s) ∙ s, n)
  | inr e ↦
      let q = sweep_records-stays now ms k a t archive e in
      elim (lookup-cons-cases i k a (sweep_records now ms t archive).0
        (sym (ap (lookup i) q.0) ∙ h)) [
          | inl (m, s) ↦ (lookup-cons-hit i k a t m ∙ ap some s, sym (ap (is_due now ms) s) ∙ e)
          | inr (m, s) ↦
              let (s, n) = stay-stood now ms t archive i (IsKeyed-tail g) s in
              (lookup-cons-miss i k a t m ∙ s, n)
        ]
]

-- A record that is not due stays.
pub stays-lookup :
    (now ms : ℕ) (t archive : Table ReachTaskRecord) (i : String) {r : ReachTaskRecord}
    → lookup i t ≡ some r
    → is_due now ms r ≡ false
    → lookup i (sweep_records now ms t archive).0 ≡ some r
unfolding sweep_records lookup
stays-lookup now ms [] archive i h n = some_not_none (sym h)
stays-lookup now ms ((k, a) ∷ t) archive i h n = elim (Bool-cases (is_due now ms a)) [
  | inl e ↦
      let q = sweep_records-due now ms k a t archive e in
      elim (lookup-cons-cases i k a t h) [
        | inl (m, s) ↦ true_not_false (sym e ∙ ap (is_due now ms) s ∙ n)
        | inr (m, s) ↦
            ap (lookup i) q.0 ∙ stays-lookup now ms t (into_archive now k a archive) i s n
      ]
  | inr e ↦
      let q = sweep_records-stays now ms k a t archive e in
      elim (lookup-cons-cases i k a t h) [
        | inl (m, s) ↦ ap (lookup i) q.0 ∙ lookup-cons-hit i k a _ m ∙ ap some s
        | inr (m, s) ↦
            ap (lookup i) q.0 ∙ lookup-cons-miss i k a _ m ∙ stays-lookup now ms t archive i s n
      ]
]

pub IsKeyed-stay :
    (now ms : ℕ) (t archive : Table ReachTaskRecord)
    → IsKeyed t
    → IsKeyed (sweep_records now ms t archive).0
unfolding sweep_records
IsKeyed-stay now ms [] archive g = keyed_nil
IsKeyed-stay now ms ((k, a) ∷ t) archive g = elim (Bool-cases (is_due now ms a)) [
  | inl e ↦
      let q = sweep_records-due now ms k a t archive e in
      subst IsKeyed (sym q.0)
        (IsKeyed-stay now ms t (into_archive now k a archive) (IsKeyed-tail g))
  | inr e ↦
      let q = sweep_records-stays now ms k a t archive e in
      let rest = (sweep_records now ms t archive).0 in
      let fresh : lookup k rest ≡ none = elim (Option-cases (lookup k rest)) [
        | inl f ↦ f
        | inr (x, f) ↦
            some_not_none
              (sym (stay-stood now ms t archive k (IsKeyed-tail g) f).0 ∙ IsKeyed-head g)
      ] in
      subst IsKeyed (sym q.0)
        (keyed_cons k a rest fresh (IsKeyed-stay now ms t archive (IsKeyed-tail g)))
]

-- The archive after the first loop: what it held, or a record that was due, now stamped.
pub swept-stood :
    (now ms : ℕ) (t archive : Table ReachTaskRecord) (i : String) {r : ReachTaskRecord}
    → IsKeyed t
    → lookup i (sweep_records now ms t archive).1 ≡ some r
    → (lookup i archive ≡ some r)
      ⊎ ((a : ReachTaskRecord) × (lookup i t ≡ some a)
          × (is_due now ms a ≡ true)
          × (record a { archived_at = some now } ≡ r))
unfolding sweep_records lookup
swept-stood now ms [] archive i g h = inl h
swept-stood now ms ((k, a) ∷ t) archive i g h = elim (Bool-cases (is_due now ms a)) [
  | inl e ↦
      let q = sweep_records-due now ms k a t archive e in
      let stamped : ReachTaskRecord = record a { archived_at = some now } in
      elim (swept-stood now ms t (into_archive now k a archive) i (IsKeyed-tail g)
        (sym (ap (lookup i) q.1) ∙ h)) [
          | inl s ↦ elim (Bool-cases (k == i)) [
            | inl m ↦
                let s' =
                  sym (lookup-assign_hit k stamped archive)
                  ∙ ap (λ z. lookup z (into_archive now k a archive)) (same_key k i m)
                  ∙ s in
                inr (a, lookup-cons-hit i k a t m, e, some_injective s')
            | inr m ↦ inl (sym (lookup-assign_miss i k stamped archive m) ∙ s)
          ]
          | inr (b, s, d, z) ↦
              inr (b, lookup-cons-miss i k a t (differ k i t (IsKeyed-head g) s) ∙ s, d, z)
        ]
  | inr e ↦
      let q = sweep_records-stays now ms k a t archive e in
      elim (swept-stood now ms t archive i (IsKeyed-tail g) (sym (ap (lookup i) q.1) ∙ h)) [
        | inl s ↦ inl s
        | inr (b, s, d, z) ↦
            inr (b, lookup-cons-miss i k a t (differ k i t (IsKeyed-head g) s) ∙ s, d, z)
      ]
]

pub IsKeyed-swept :
    (now ms : ℕ) (t archive : Table ReachTaskRecord)
    → IsKeyed archive
    → IsKeyed (sweep_records now ms t archive).1
unfolding sweep_records
IsKeyed-swept now ms [] archive g = g
IsKeyed-swept now ms ((k, a) ∷ t) archive g = elim (Bool-cases (is_due now ms a)) [
  | inl e ↦
      subst IsKeyed (sym (sweep_records-due now ms k a t archive e).1)
        (IsKeyed-swept now ms t (into_archive now k a archive) (IsKeyed-assign k _ archive g))
  | inr e ↦
      subst IsKeyed (sym (sweep_records-stays now ms k a t archive e).1)
        (IsKeyed-swept now ms t archive g)
]

sweep_archive-expired :
    (now ms : ℕ) (k : String) (a : ReachTaskRecord) (t : Table ReachTaskRecord)
    → is_expired now ms a ≡ true
    → (sweep_archive now ms ((k, a) ∷ t)).0 ≡ (sweep_archive now ms t).0
unfolding sweep_archive
sweep_archive-expired now ms k a t e = rw e

sweep_archive-kept :
    (now ms : ℕ) (k : String) (a : ReachTaskRecord) (t : Table ReachTaskRecord)
    → is_expired now ms a ≡ false
    → (sweep_archive now ms ((k, a) ∷ t)).0 ≡ (k, a) ∷ (sweep_archive now ms t).0
unfolding sweep_archive
sweep_archive-kept now ms k a t e = rw e

-- What stays in the archive was there.
pub kept-stood :
    (now ms : ℕ) (t : Table ReachTaskRecord) (i : String) {r : ReachTaskRecord}
    → IsKeyed t
    → lookup i (sweep_archive now ms t).0 ≡ some r
    → lookup i t ≡ some r
unfolding sweep_archive lookup
kept-stood now ms [] i g h = h
kept-stood now ms ((k, a) ∷ t) i g h = elim (Bool-cases (is_expired now ms a)) [
  | inl e ↦
      let s =
        kept-stood now ms t i (IsKeyed-tail g)
          (sym (ap (lookup i) (sweep_archive-expired now ms k a t e)) ∙ h) in
      lookup-cons-miss i k a t (differ k i t (IsKeyed-head g) s) ∙ s
  | inr e ↦
      elim (lookup-cons-cases i k a (sweep_archive now ms t).0
        (sym (ap (lookup i) (sweep_archive-kept now ms k a t e)) ∙ h)) [
          | inl (m, s) ↦ lookup-cons-hit i k a t m ∙ ap some s
          | inr (m, s) ↦ lookup-cons-miss i k a t m ∙ kept-stood now ms t i (IsKeyed-tail g) s
        ]
]

pub IsKeyed-kept :
    (now ms : ℕ) (t : Table ReachTaskRecord) → IsKeyed t → IsKeyed (sweep_archive now ms t).0
unfolding sweep_archive
IsKeyed-kept now ms [] g = keyed_nil
IsKeyed-kept now ms ((k, a) ∷ t) g = elim (Bool-cases (is_expired now ms a)) [
  | inl e ↦
      subst IsKeyed (sym (sweep_archive-expired now ms k a t e))
        (IsKeyed-kept now ms t (IsKeyed-tail g))
  | inr e ↦
      let rest = (sweep_archive now ms t).0 in
      let fresh : lookup k rest ≡ none = elim (Option-cases (lookup k rest)) [
        | inl f ↦ f
        | inr (x, f) ↦
            some_not_none (sym (kept-stood now ms t k (IsKeyed-tail g) f) ∙ IsKeyed-head g)
      ] in
      subst IsKeyed (sym (sweep_archive-kept now ms k a t e))
        (keyed_cons k a rest fresh (IsKeyed-kept now ms t (IsKeyed-tail g)))
]
