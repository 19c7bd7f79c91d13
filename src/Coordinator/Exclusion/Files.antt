-- ===== src/Coordinator/Exclusion/Files.antt =====
-- What writing and removing a lease file does to the leases that are read back.
use text.Mathlib.TextEquality.{eq_iff}
use mathlib.Core.Path.{subst, subst⁻¹}
use dex_reach.Common.{
  String, ◌≡◌, ◌≢◌, refl, sym, ap, ◌⊎◌, inl, inr, Bool, true, false, some, List, [], ◌∷◌, ◌==◌,
  text_eq, Memᴰ, Bool-cases, arith, find,
}
use dex_reach.Coordinator.{
  WorkLease, Entry, parsed, malformed, unreadable, Directory, parsed_entries,
}
use dex_reach.Coordinator.Store.{put, remove}
use dex_reach.Coordinator.Exclusion.{IsNamed}

pub mem-cons-cases {ℓ} :
    {A : Type ℓ} {x y : A} {xs : List A} → Memᴰ x (y ∷ xs) → (x ≡ y) ⊎ Memᴰ x xs
mem-cons-cases (Memᴰ.head e) = inl e
mem-cons-cases (Memᴰ.tail m) = inr m

pub mem-find : {A : Type 0} (p : A → Bool) (xs : List A) {x : A} → find p xs ≡ some x → Memᴰ x xs
mem-find p [] h = ground arith
mem-find p (y ∷ xs) {x} h = elim (Bool-cases (p y)) [
  | inl e ↦ Memᴰ.head (ground arith)
  | inr e ↦ Memᴰ.tail (mem-find p xs (ground arith))
]

module _ {A : Type 0} (n : String) (x : A) where
  put-hit :
      (k : String) (e : Entry A) (d : Directory A)
      → (k == n) ≡ true
      → put n x ((k, e) ∷ d) ≡ (n, parsed x) ∷ d
  unfolding put
  put-hit k e d h = rw h

  put-miss :
      (k : String) (e : Entry A) (d : Directory A)
      → (k == n) ≡ false
      → put n x ((k, e) ∷ d) ≡ (k, e) ∷ put n x d
  unfolding put
  put-miss k e d h = rw h

module _ {A : Type 0} (n : String) where
  remove-hit :
      (k : String) (e : Entry A) (d : Directory A)
      → (k == n) ≡ true
      → remove n ((k, e) ∷ d) ≡ remove n d
  unfolding remove
  remove-hit k e d h = rw h

  remove-miss :
      (k : String) (e : Entry A) (d : Directory A)
      → (k == n) ≡ false
      → remove n ((k, e) ∷ d) ≡ (k, e) ∷ remove n d
  unfolding remove
  remove-miss k e d h = rw h

abbrev Reads : {A : Type 0} → A → Directory A → Type 0
Reads a d = Memᴰ a (parsed_entries d)

-- What is read from a directory with one more entry.
Reads-cases :
    {A : Type 0} {a : A} (k : String) (e : Entry A) (d : Directory A)
    → Reads a ((k, e) ∷ d)
    → (e ≡ parsed a) ⊎ Reads a d
unfolding parsed_entries
Reads-cases k (parsed c) d m = elim (mem-cons-cases m) [
  | inl e ↦ inl (ap parsed (sym e))
  | inr r ↦ inr r
]
Reads-cases k malformed d m = inr m
Reads-cases k unreadable d m = inr m

Reads-head :
    {A : Type 0} {a : A} (k : String) (e : Entry A) (d : Directory A)
    → e ≡ parsed a
    → Reads a ((k, e) ∷ d)
unfolding parsed_entries
Reads-head {a} k e d p = subst⁻¹ (λ z. Reads a ((k, z) ∷ d)) p (Memᴰ.head refl)

Reads-tail :
    {A : Type 0} {a : A} (k : String) (e : Entry A) (d : Directory A)
    → Reads a d
    → Reads a ((k, e) ∷ d)
unfolding parsed_entries
Reads-tail k (parsed c) d m = Memᴰ.tail m
Reads-tail k malformed d m = m
Reads-tail k unreadable d m = m

-- A record that is read after a write is the one written or one read before.
pub Reads-put :
    {A : Type 0} (n : String) (x a : A) (d : Directory A)
    → Reads a (put n x d)
    → (a ≡ x) ⊎ Reads a d
unfolding put
Reads-put n x a [] m = elim (Reads-cases n (parsed x) [] m) [
  | inl e ↦ inl (ground arith)
  | inr r ↦ inr r
]
Reads-put n x a ((k, e) ∷ d) m = elim (Bool-cases (k == n)) [
  | inl h ↦ elim (Reads-cases n (parsed x) d (subst (Reads a) (put-hit n x k e d h) m)) [
    | inl p ↦ inl (ground arith)
    | inr r ↦ inr (Reads-tail k e d r)
  ]
  | inr h ↦ elim (Reads-cases k e (put n x d) (subst (Reads a) (put-miss n x k e d h) m)) [
    | inl p ↦ inr (Reads-head k e d p)
    | inr r ↦ elim (Reads-put n x a d r) [ inl q ↦ inl q | inr q ↦ inr (Reads-tail k e d q) ]
  ]
]

-- A record that is read after a removal was read before.
pub Reads-remove :
    {A : Type 0} (n : String) (a : A) (d : Directory A) → Reads a (remove n d) → Reads a d
unfolding remove
Reads-remove n a [] m = m
Reads-remove n a ((k, e) ∷ d) m = elim (Bool-cases (k == n)) [
  | inl h ↦ Reads-tail k e d (Reads-remove n a d (subst (Reads a) (remove-hit n k e d h) m))
  | inr h ↦ elim (Reads-cases k e (remove n d) (subst (Reads a) (remove-miss n k e d h) m)) [
    | inl p ↦ Reads-head k e d p
    | inr r ↦ Reads-tail k e d (Reads-remove n a d r)
  ]
]

module _ (n : String) where
  named-cons :
      (a : WorkLease) (e : Entry WorkLease) (d : Directory WorkLease)
      → IsNamed ((n, e) ∷ d)
      → e ≡ parsed a
      → a.id ≡ n
  named-cons a e d h p = (subst (λ z. IsNamed ((n, z) ∷ d)) p h).0

  IsNamed-tail : (e : Entry WorkLease) (d : Directory WorkLease) → IsNamed ((n, e) ∷ d) → IsNamed d
  IsNamed-tail (parsed c) d h = h.1
  IsNamed-tail malformed d h = h
  IsNamed-tail unreadable d h = h

  IsNamed-swap :
      (e : Entry WorkLease) (d f : Directory WorkLease)
      → IsNamed ((n, e) ∷ d)
      → IsNamed f
      → IsNamed ((n, e) ∷ f)
  IsNamed-swap (parsed c) d f h g = (h.0, g)
  IsNamed-swap malformed d f h g = g
  IsNamed-swap unreadable d f h g = g

-- In a well named directory a removal takes the lease of that identifier away.
pub remove-ne :
    (n : String) (a : WorkLease) (d : Directory WorkLease)
    → IsNamed d
    → Reads a (remove n d)
    → a.id ≢ n
unfolding remove parsed_entries
remove-ne n a [] g m = elim m [ ]
remove-ne n a ((k, e) ∷ d) g m = elim (Bool-cases (k == n)) [
  | inl h ↦ remove-ne n a d (IsNamed-tail k e d g) (subst (Reads a) (remove-hit n k e d h) m)
  | inr h ↦ elim (Reads-cases k e (remove n d) (subst (Reads a) (remove-miss n k e d h) m)) [
    | inl p ↦ λ q. ground (arith, named-cons k a e d g p, eq_iff k n)
    | inr r ↦ remove-ne n a d (IsNamed-tail k e d g) r
  ]
]

pub IsNamed-put : (x : WorkLease) (d : Directory WorkLease) → IsNamed d → IsNamed (put x.id x d)
unfolding put
IsNamed-put x [] g = (refl, tt)
IsNamed-put x ((k, e) ∷ d) g = elim (Bool-cases (k == x.id)) [
  | inl h ↦ subst⁻¹ IsNamed (put-hit x.id x k e d h) (refl, IsNamed-tail k e d g)
  | inr h ↦
      subst⁻¹ IsNamed (put-miss x.id x k e d h)
        (IsNamed-swap k e d _ g (IsNamed-put x d (IsNamed-tail k e d g)))
]

pub IsNamed-remove : (n : String) (d : Directory WorkLease) → IsNamed d → IsNamed (remove n d)
unfolding remove
IsNamed-remove n [] g = g
IsNamed-remove n ((k, e) ∷ d) g = elim (Bool-cases (k == n)) [
  | inl h ↦ subst⁻¹ IsNamed (remove-hit n k e d h) (IsNamed-remove n d (IsNamed-tail k e d g))
  | inr h ↦
      subst⁻¹ IsNamed (remove-miss n k e d h)
        (IsNamed-swap k e d _ g (IsNamed-remove n d (IsNamed-tail k e d g)))
]
