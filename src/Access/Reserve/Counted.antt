-- ===== src/Access/Reserve/Counted.antt =====
-- Sequences of reservations of src/shared/access.ts: how often a grant is used.
use Prim.Native.String.{String}
use mathlib.Core.Path.{subst}
use dex_reach.Common.{
  ℕ, suc, ◌+◌, ◌≤◌, ◌<◌, ◌≡◌, refl, sym, ◌∙◌, ap, inl, inr, Bool, true, false, Option, none, some,
  List, [], ◌∷◌, All, ltb_lt, ◌==◌, text_eq, Bool-cases, Option-cases, arith, if◌then◌else◌,
}
use dex_reach.Common.Outcome.{Result, ok, err}
use dex_reach.Tasks.Store.{truthy}
use dex_reach.Access.{AccessState, CapabilityGrant, has_uses}
use dex_reach.Access.Store.{policy, is_spent, use_grant, used_once, find_grant}
use dex_reach.Access.Reserve.{
  ReserveHost, ReserveOptions, NodeStore, ReserveError, OperationReservation, Request,
  reserve_operation,
}
use dex_reach.Access.Reserve.Uses.{unused, used, failed, done, reserve_operation-Reserved}

-- One call of `reserveOperation`.
pub record ReserveCall : Type 0 where
  pub host : ReserveHost
  pub options : ReserveOptions
  pub request : Request

-- The reservation is one by the grant.
abbrev pub names_grant : String → Result ReserveError OperationReservation → Bool
names_grant id (err e) = false
names_grant id (ok o) = elim o.grant_id [ none ↦ false | some j ↦ j == id ]

-- How many of the calls, one after the other, are reserved by the grant.
abbrev pub times_reserved : String → List ReserveCall → NodeStore → ℕ
times_reserved id [] store = 0
times_reserved id (c ∷ cs) store =
    let (r, next) = reserve_operation c.host c.options c.request store in
    let rest = times_reserved id cs next in if names_grant id r then suc rest else rest

some_injective : {A : Type 0} {a b : A} → ◌≡◌ {A = Option A} (some a) (some b) → a ≡ b
some_injective h = ground arith

-- A grant is not named by two ids.
other_grant {ℓ} :
    {A : Type ℓ} (id j : String) (x : CapabilityGrant)
    → (j == id) ≡ false
    → (x.id == id) ≡ true
    → (x.id == j) ≡ true
    → A
other_grant id j x n e k =
    let same : j ≡ id = sym ((text_eq.same_iff x.id j).0 k) ∙ (text_eq.same_iff x.id id).0 e in
    let b = (text_eq.same_iff j id).1 same in ground arith

find-use_other :
    (id j : String) (gs : List CapabilityGrant) {g : CapabilityGrant}
    → (j == id) ≡ false
    → find_grant id gs ≡ some g
    → find_grant id (use_grant j gs) ≡ some g
unfolding use_grant
find-use_other id j [] n h = ground arith
find-use_other id j (x ∷ xs) {g} n h = elim (Bool-cases (x.id == j)) [
  | inl k ↦ elim (Bool-cases (x.id == id)) [
    | inl e ↦ other_grant id j x n e k
    | inr e ↦ let l = rw e at h in rw (k, e) (find-use_other id j xs n l)
  ]
  | inr k ↦ elim (Bool-cases (x.id == id)) [
    | inl e ↦ let l = rw e at h in rw (k, e) l
    | inr e ↦ let l = rw e at h in rw (k, e) (find-use_other id j xs n l)
  ]
]

find-use_same :
    (id : String) (gs : List CapabilityGrant) {g : CapabilityGrant}
    → find_grant id gs ≡ some g
    → find_grant id (use_grant id gs) ≡ some (used_once g)
unfolding use_grant
find-use_same id [] h = ground arith
find-use_same id (x ∷ xs) {g} h = elim (Bool-cases (x.id == id)) [
  | inl e ↦ let l = rw e at h in rw (e, e) (ap some (ap used_once (some_injective l)))
  | inr e ↦ let l = rw e at h in rw (e, e) (find-use_same id xs {g = g} l)
]

unspent-has_uses :
    (id : String) (at : ℕ) (s : AccessState) {g : CapabilityGrant}
    → find_grant id s.grants ≡ some g
    → is_spent id at s ≡ false
    → has_uses g ≡ true
unfolding is_spent
unspent-has_uses id at s {g} f h = let k = rw (is_spent, f) at h in ground arith

has_uses-left : (g : CapabilityGrant) {m : ℕ} → g.max_uses ≡ some m → has_uses g ≡ true → g.uses < m
has_uses-left g {m} l h = let k = rw l at h in ltb_lt g.uses m k

truthy-some : (o : Option String) {j : String} → truthy o ≡ some j → o ≡ some j
truthy-some none h = ground arith
truthy-some (some String.[]) h = ground arith
truthy-some (some (String.◌∷◌ c s)) h = h

truthy-none : (j : String) → truthy (some j) ≡ none → j ≡ ""
truthy-none String.[] h = refl
truthy-none (String.◌∷◌ c s) h = ground arith

empty_unnamed : (id j : String) → (id == "") ≡ false → j ≡ "" → (j == id) ≡ false
empty_unnamed id j n h = elim (Bool-cases (j == id)) [
  | inr e ↦ e
  | inl e ↦
      let b = (text_eq.same_iff id "").1 (sym ((text_eq.same_iff j id).0 e) ∙ h) in ground arith
]

-- Only the call that its grant stage uses counts for a grant whose id is not empty.
names_grant-unused :
    (id : String) (o : OperationReservation)
    → (id == "") ≡ false
    → truthy o.grant_id ≡ none
    → names_grant id (ok o) ≡ false
names_grant-unused id o n h = elim (Option-cases o.grant_id) [
  | inl e ↦ rw e refl
  | inr (j, e) ↦ rw e (empty_unnamed id j n (truthy-none j (rw e at h)))
]

names_grant-used :
    (id j : String) (o : OperationReservation)
    → o.grant_id ≡ some j
    → names_grant id (ok o) ≡ (j == id)
names_grant-used id j o h = rw h refl

-- A grant is never used more often than it allows: of any sequence of reservations that consume grants, by
-- whatever actors, with whatever outcomes and clock readings, at most the uses that are left are
-- reserved by the grant. The policy file holds a state with the grant, and its id is not empty.
pub times_reserved_le :
    (id : String) (cs : List ReserveCall) (store : NodeStore) {s : AccessState}
    {g : CapabilityGrant} {m : ℕ}
    → (id == "") ≡ false
    → All (λ (c : ReserveCall). c.options.consume_grant ≡ true) cs
    → store.access.file ≡ policy s
    → find_grant id s.grants ≡ some g
    → g.max_uses ≡ some m
    → g.uses ≤ m
    → times_reserved id cs store + g.uses ≤ m
times_reserved_le id [] store n a f k l u = omega arith
times_reserved_le id (c ∷ cs) store {s} {g} {m} n a f k l u =
    let r = reserve_operation c.host c.options c.request store in
    elim (reserve_operation-Reserved c.host c.options c.request s store a.0 f) [
      | failed x e w ↦ rw e (times_reserved_le id cs r.1 n a.1 (w ∙ f) k l u)
      | done o e stage ↦ elim stage [
        | unused t w ↦
            rw (e, names_grant-unused id o n t) (times_reserved_le id cs r.1 n a.1 (w ∙ f) k l u)
        | used j t w ↦ elim (Bool-cases (j == id)) [
          | inl b ↦
              let same = (text_eq.same_iff j id).0 b in
              let unspent = subst (λ z. is_spent z c.host.used_at s ≡ false) same w.left in
              let room = has_uses-left g l (unspent-has_uses id c.host.used_at s k unspent) in
              let found : find_grant id w.next.grants ≡ some (used_once g) =
                ap (find_grant id) (w.grants_of ∙ ap (λ z. use_grant z s.grants) same)
                ∙ find-use_same id s.grants k in
              let rest = times_reserved_le id cs r.1 n a.1 w.file_of found l room in
              rw (e, names_grant-used id j o (truthy-some o.grant_id t), b) (omega (arith, rest))
          | inr b ↦
              let found : find_grant id w.next.grants ≡ some g =
                ap (find_grant id) w.grants_of ∙ find-use_other id j s.grants b k in
              rw (e, names_grant-used id j o (truthy-some o.grant_id t), b)
                (times_reserved_le id cs r.1 n a.1 w.file_of found l u)
        ]
      ]
    ]
