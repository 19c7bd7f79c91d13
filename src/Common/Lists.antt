-- ===== src/Common/Lists.antt =====
-- Lists as the program uses arrays: `length`, `find`, `some`, `every`, `filter`, `findIndex`, sums.
use Prim.Native.Nat.{ℕ, zero, suc, ◌+◌, ◌-◌, ◌≤◌}
use mathlib.Core.Path.{◌≡◌, refl}
use mathlib.Core.Logic.{◌⊎◌, inl, inr}
use mathlib.Core.Bool.{Bool, true, false, ◌&&◌, ◌||◌}
use mathlib.Core.List.{List, [], ◌∷◌, ◌++◌, Memᴰ}
use mathlib.Core.Option.{Option, none, some}
use native.Mathlib.Omega.{arith}
use dex_reach.Common.Tests.{if◌then◌else◌, Bool-cases}

module _ {ℓ} {A : Type ℓ} where
  abbrev pub length : List A → ℕ
  length [] = 0
  length (x ∷ xs) = suc (length xs)

  abbrev pub take : ℕ → List A → List A
  take zero xs = []
  take (suc n) [] = []
  take (suc n) (x ∷ xs) = x ∷ take n xs

  abbrev pub drop : ℕ → List A → List A
  drop zero xs = xs
  drop (suc n) [] = []
  drop (suc n) (x ∷ xs) = drop n xs

  abbrev pub is_empty : List A → Bool
  is_empty [] = true
  is_empty (x ∷ xs) = false

  -- `Array.prototype.find`
  abbrev pub find : (A → Bool) → List A → Option A
  find p [] = none
  find p (x ∷ xs) = if p x then some x else find p xs

  -- `some`
  abbrev pub any : (A → Bool) → List A → Bool
  any p [] = false
  any p (x ∷ xs) = p x || any p xs

  -- `every`
  abbrev pub all : (A → Bool) → List A → Bool
  all p [] = true
  all p (x ∷ xs) = p x && all p xs

  -- `filter`, by a test
  abbrev pub select : (A → Bool) → List A → List A
  select p [] = []
  select p (x ∷ xs) = if p x then x ∷ select p xs else select p xs

  -- `findIndex`, with `none` for -1
  abbrev pub find_index : (A → Bool) → List A → Option ℕ
  find_index p [] = none
  find_index p (x ∷ xs) =
      if p x then some 0 else (elim (find_index p xs) [ none ↦ none | some i ↦ some (suc i) ])

  -- a sum over `reduce`
  abbrev pub sum_of : (A → ℕ) → List A → ℕ
  sum_of f [] = 0
  sum_of f (x ∷ xs) = f x + sum_of f xs

  -- A property of every element, which the tactics read and build as a tuple.
  abbrev pub All {κ} : (A → Type κ) → List A → Type κ
  All P [] = Unit
  All P (x ∷ xs) = P x × All P xs

module _ {ℓ} {A : Type ℓ} where
  pub length-append : (xs ys : List A) → length (xs ++ ys) ≡ length xs + length ys
  length-append [] ys = omega arith
  length-append (x ∷ xs) ys = omega (arith, length-append xs ys)

  pub length-drop : (n : ℕ) (xs : List A) → length (drop n xs) ≡ length xs - n
  length-drop zero xs = omega arith
  length-drop (suc n) [] = omega arith
  length-drop (suc n) (x ∷ xs) = omega (arith, length-drop n xs)

  pub length-select-le : (p : A → Bool) (xs : List A) → length (select p xs) ≤ length xs
  length-select-le p [] = omega arith
  length-select-le p (x ∷ xs) = ground (arith, length-select-le p xs)

  pub sum_of-append : (f : A → ℕ) (xs ys : List A) → sum_of f (xs ++ ys) ≡ sum_of f xs + sum_of f ys
  sum_of-append f [] ys = omega arith
  sum_of-append f (x ∷ xs) ys = omega (arith, sum_of-append f xs ys)

  -- What `find` returns satisfies the test.
  pub find-holds : (p : A → Bool) (xs : List A) {x : A} → find p xs ≡ some x → p x ≡ true
  find-holds p [] h = ground arith
  find-holds p (y ∷ xs) {x} h = ground (arith, find-holds p xs {x = x})

  -- It is one of the elements.
  pub find-Mem : (p : A → Bool) (xs : List A) {x : A} → find p xs ≡ some x → Memᴰ x xs
  find-Mem p [] h = ground arith
  find-Mem p (y ∷ ys) {x} h = elim (Bool-cases (p y)) [
    | inl e ↦ Memᴰ.head (ground arith)
    | inr e ↦ Memᴰ.tail (find-Mem p ys (ground arith))
  ]

  pub all-Mem : (p : A → Bool) (xs : List A) {x : A} → all p xs ≡ true → Memᴰ x xs → p x ≡ true
  all-Mem p [] h m = elim m [ ]
  all-Mem p (y ∷ ys) {x} h (Memᴰ.head e) = rw e (ground arith)
  all-Mem p (y ∷ ys) {x} h (Memᴰ.tail m) = all-Mem p ys (ground arith) m

  selected-Mem :
      (p : A → Bool) (y : A) (ys : List A) {x : A}
      → (Memᴰ x (select p ys) → Memᴰ x ys × (p x ≡ true))
      → p y ≡ true
      → Memᴰ x (y ∷ select p ys)
      → Memᴰ x (y ∷ ys) × (p x ≡ true)
  selected-Mem p y ys {x} each h (Memᴰ.head e) = (Memᴰ.head e, rw e h)
  selected-Mem p y ys {x} each h (Memᴰ.tail m) = let (l, k) = each m in (Memᴰ.tail l, k)

  pub select-Mem :
      (p : A → Bool) (xs : List A) {x : A} → Memᴰ x (select p xs) → Memᴰ x xs × (p x ≡ true)
  select-Mem p [] m = elim m [ ]
  select-Mem p (y ∷ ys) {x} m = elim (Bool-cases (p y)) [
    | inr e ↦ let n = rw e at m in let (l, h) = select-Mem p ys n in (Memᴰ.tail l, h)
    | inl e ↦ selected-Mem p y ys (λ l. select-Mem p ys l) e (rw e at m)
  ]

  pub any-Mem : (p : A → Bool) (xs : List A) {x : A} → any p xs ≡ false → Memᴰ x xs → p x ≡ false
  any-Mem p [] h m = elim m [ ]
  any-Mem p (y ∷ ys) {x} h (Memᴰ.head e) = rw e (ground arith)
  any-Mem p (y ∷ ys) {x} h (Memᴰ.tail m) = any-Mem p ys (ground arith) m

  pub any-some : (p : A → Bool) (xs : List A) → any p xs ≡ true → (x : A) × Memᴰ x xs × (p x ≡ true)
  any-some p [] h = ground arith
  any-some p (y ∷ ys) h = elim (Bool-cases (p y)) [
    | inl e ↦ (y, Memᴰ.head refl, e)
    | inr e ↦ let (x, m, k) = any-some p ys (rw e at h) in (x, Memᴰ.tail m, k)
  ]

  pub append-Mem : (xs ys : List A) {x : A} → Memᴰ x (xs ++ ys) → Memᴰ x xs ⊎ Memᴰ x ys
  append-Mem [] ys m = inr m
  append-Mem (y ∷ xs) ys (Memᴰ.head e) = inl (Memᴰ.head e)
  append-Mem (y ∷ xs) ys (Memᴰ.tail m) = elim (append-Mem xs ys m) [
    | inl l ↦ inl (Memᴰ.tail l)
    | inr r ↦ inr r
  ]

  pub find-none : (p : A → Bool) (xs : List A) → find p xs ≡ none → any p xs ≡ false
  find-none p [] h = refl
  find-none p (y ∷ xs) h = ground (arith, find-none p xs)

  pub select-append :
      (p : A → Bool) (xs ys : List A) → select p (xs ++ ys) ≡ select p xs ++ select p ys
  select-append p [] ys = refl
  select-append p (x ∷ xs) ys = ground (arith, select-append p xs ys)

  -- A stricter test selects a smaller sum.
  pub sum_of-select_le :
      (f : A → ℕ) (p q : A → Bool) (xs : List A)
      → ((x : A) → p x ≡ true → q x ≡ true)
      → sum_of f (select p xs) ≤ sum_of f (select q xs)
  sum_of-select_le f p q [] h = omega arith
  sum_of-select_le f p q (x ∷ xs) h = ground (arith, h x, sum_of-select_le f p q xs h)

  pub select-select :
      (p q : A → Bool) (xs : List A) → select p (select q xs) ≡ select (λ x. q x && p x) xs
  select-select p q [] = refl
  select-select p q (x ∷ xs) = ground (arith, select-select p q xs)

  pub select-same :
      (p q : A → Bool) (xs : List A) → ((x : A) → p x ≡ q x) → select p xs ≡ select q xs
  select-same p q [] h = refl
  select-same p q (x ∷ xs) h = ground (arith, h x, select-same p q xs h)

  pub length-select_le :
      (p q : A → Bool) (xs : List A)
      → ((x : A) → p x ≡ true → q x ≡ true)
      → length (select p xs) ≤ length (select q xs)
  length-select_le p q [] h = omega arith
  length-select_le p q (x ∷ xs) h = ground (arith, h x, length-select_le p q xs h)

  pub length-select-select_le :
      (p q : A → Bool) (xs : List A) → length (select p (select q xs)) ≤ length (select p xs)
  length-select-select_le p q [] = omega arith
  length-select-select_le p q (x ∷ xs) = ground (arith, length-select-select_le p q xs)

  pub length-select_snoc :
      (p : A → Bool) (xs : List A) (x : A)
      → length (select p (xs ++ (x ∷ []))) ≡ length (select p xs) + (if p x then 1 else 0)
  length-select_snoc p [] x = ground arith
  length-select_snoc p (y ∷ xs) x = ground (arith, length-select_snoc p xs x)
