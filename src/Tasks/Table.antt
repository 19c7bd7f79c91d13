-- ===== src/Tasks/Table.antt =====
-- The objects keyed by task id of src/node/task-store.ts (`Record<string, ReachTaskRecord>`), as
-- association lists in insertion order, with the laws of reading, assigning and deleting a key.
use text.Mathlib.TextEquality.{eq_iff}
use dex_reach.Common.{
  String, ◌≡◌, refl, ap, ◌∙◌, Bool, true, false, Option, none, some, List, [], ◌∷◌, ◌==◌, text_eq,
  Bool-cases, arith, inl, inr, if◌then◌else◌, any,
}

abbrev pub Table : Type 0 → Type 0
Table A = List (String × A)

module _ {A : Type 0} where
  -- `table[id]`
  unfoldable pub lookup : String → Table A → Option A
  lookup id [] = none
  lookup id ((k, a) ∷ t) = if k == id then some a else lookup id t

  -- `table[id] = a`
  unfoldable pub assign : String → A → Table A → Table A
  assign id a [] = (id, a) ∷ []
  assign id a ((k, b) ∷ t) = if k == id then (k, a) ∷ t else (k, b) ∷ assign id a t

  -- `delete table[id]`
  unfoldable pub discard : String → Table A → Table A
  discard id [] = []
  discard id ((k, a) ∷ t) = if k == id then discard id t else (k, a) ∷ discard id t

  -- `Object.values(table)`
  unfoldable pub values : Table A → List A
  values [] = []
  values ((k, a) ∷ t) = a ∷ values t

pub same_key : (a b : String) → (a == b) ≡ true → a ≡ b
same_key a b h = (eq_iff a b).0 h

pub key_self : (a : String) → (a == a) ≡ true
key_self a = (eq_iff a a).1 refl

module _ {A : Type 0} where
  -- Two keys that are the same read the same.
  pub lookup-same_key : (i j : String) (t : Table A) → (i == j) ≡ true → lookup i t ≡ lookup j t
  lookup-same_key i j t h = ap (λ k. lookup k t) (same_key i j h)

  pub lookup-cons-hit :
      (i k : String) (a : A) (t : Table A) → (k == i) ≡ true → lookup i ((k, a) ∷ t) ≡ some a
  unfolding lookup
  lookup-cons-hit i k a t h = rw h

  pub lookup-cons-miss :
      (i k : String) (a : A) (t : Table A) → (k == i) ≡ false → lookup i ((k, a) ∷ t) ≡ lookup i t
  unfolding lookup
  lookup-cons-miss i k a t h = rw h

  -- An assignment is read back under its key.
  pub lookup-assign_hit : (i : String) (a : A) (t : Table A) → lookup i (assign i a t) ≡ some a
  unfolding lookup assign
  lookup-assign_hit i a [] = rw (key_self i)
  lookup-assign_hit i a ((k, b) ∷ t) = elim (Bool-cases (k == i)) [
    | inl e ↦ rw (e, e)
    | inr e ↦ rw (e, e) (lookup-assign_hit i a t)
  ]

  -- An assignment leaves the other keys as they were.
  pub lookup-assign_miss :
      (i id : String) (a : A) (t : Table A)
      → (id == i) ≡ false
      → lookup i (assign id a t) ≡ lookup i t
  unfolding lookup assign
  lookup-assign_miss i id a [] h = rw h
  lookup-assign_miss i id a ((k, b) ∷ t) h = elim (Bool-cases (k == id)) [
    | inl e ↦ let m = ap (λ z. z == i) (same_key k id e) ∙ h in rw (e, m)
    | inr e ↦ elim (Bool-cases (k == i)) [
      | inl f ↦ rw (e, f)
      | inr f ↦ rw (e, f) (lookup-assign_miss i id a t h)
    ]
  ]

  pub lookup-discard_hit : (i : String) (t : Table A) → lookup i (discard i t) ≡ none
  unfolding lookup discard
  lookup-discard_hit i [] = refl
  lookup-discard_hit i ((k, b) ∷ t) = elim (Bool-cases (k == i)) [
    | inl e ↦ rw e (lookup-discard_hit i t)
    | inr e ↦ rw (e, e) (lookup-discard_hit i t)
  ]

  -- A deletion leaves the other keys as they were.
  pub lookup-discard_miss :
      (i id : String) (t : Table A) → (id == i) ≡ false → lookup i (discard id t) ≡ lookup i t
  unfolding lookup discard
  lookup-discard_miss i id [] h = refl
  lookup-discard_miss i id ((k, b) ∷ t) h = elim (Bool-cases (k == id)) [
    | inl e ↦
        let m = ap (λ z. z == i) (same_key k id e) ∙ h in rw (e, m) (lookup-discard_miss i id t h)
    | inr e ↦ elim (Bool-cases (k == i)) [
      | inl f ↦ rw (e, f)
      | inr f ↦ rw (e, f) (lookup-discard_miss i id t h)
    ]
  ]

  -- What `find` over the values of a table misses is under no key of it.
  pub lookup-any :
      (p : A → Bool) (i : String) (t : Table A) {a : A}
      → any p (values t) ≡ false
      → lookup i t ≡ some a
      → p a ≡ false
  unfolding lookup values
  lookup-any p i [] h e = ground arith
  lookup-any p i ((k, b) ∷ t) {a} h e = ground (arith, lookup-any p i t {a = a})
