-- ===== src/Access/Laws.antt =====
-- What the decisions of src/shared/access.ts allow, and which policies its own checks accept.
use Prim.Native.String.{String}
use dex_reach.Common.{
  ℕ, ◌<◌, ◌≡◌, refl, sym, ◌∙◌, ◌⊎◌, inl, inr, Bool, true, false, ◌&&◌, ◌||◌, Option, none, some,
  List, [], ◌∷◌, map, select, find-Mem, all-Mem, find-holds, ltb_lt, ltb, ◌==◌, text_eq, Bool-cases,
  Option-cases, arith, Memᴰ,
}
use dex_reach.Json.{Members}
use dex_reach.Clients.{
  ReachProfile, AccessMode, off, on, ClientKind, entry, same_client_lem, RequestActor,
}
use dex_reach.Coordinator.{Stamp, instant, unparsed}
use dex_reach.Tasks.{
  Capability, inspect, file_read, file_write, checkpoint, process_shell, compat, secret_use,
}
use dex_reach.Catalog.{
  OperationDescriptor, read_only_inspect_operations, read_only_delegated_operations, dex_operations,
}
use dex_reach.Catalog.Required.{
  includes, required_capabilities, request_paths, roots_cover, path_allowed, PathHost,
}
use dex_reach.Catalog.Risk.{same_capability}
use dex_reach.Access.{
  CapabilityGrant, AccessState, min_mode, is_ahead, resolve_mode, kind_of, mode_for_actor, has_uses,
  is_active, active_grant, allowed, refused, Refusal, execution_disabled, read_only_refused,
  no_active_grant, listed, requires_grant, authorize_on, authorize_operation,
}

pub mode-cases : (m : AccessMode) → (m ≡ off) ⊎ ((m ≡ AccessMode.read_only) ⊎ (m ≡ on))
mode-cases off = inl refl
mode-cases AccessMode.read_only = inr (inl refl)
mode-cases on = inr (inr refl)

same_capability_lem : (c d : Capability) → same_capability c d ≡ true → d ≡ c
same_capability_lem inspect d h = ground arith
same_capability_lem file_read d h = ground arith
same_capability_lem file_write d h = ground arith
same_capability_lem checkpoint d h = ground arith
same_capability_lem process_shell d h = ground arith
same_capability_lem compat d h = ground arith
same_capability_lem secret_use d h = ground arith

includes-Mem : (c : Capability) (cs : List Capability) → includes c cs ≡ true → Memᴰ c cs
includes-Mem c [] h = ground arith
includes-Mem c (d ∷ ds) h = elim (Bool-cases (same_capability d c)) [
  | inl e ↦ Memᴰ.head (same_capability_lem d c e)
  | inr e ↦ Memᴰ.tail (includes-Mem c ds (ground arith))
]

-- What a grant gives at the time: it belongs to the kind of client, has not expired or been used up, has
-- every one of the capabilities, and each path lies under its roots.
pub record Covers (host : PathHost) (kind : ClientKind) (cs : List Capability) (paths : List String)
    (now : ℕ) (g : CapabilityGrant) : Type 0 where
  pub own : g.client ≡ kind
  pub alive : (t : ℕ) × (g.until ≡ instant t) × (now < t)
  pub unspent : {m : ℕ} → g.max_uses ≡ some m → g.uses < m
  pub capable : {c : Capability} → Memᴰ c cs → Memᴰ c g.capabilities
  pub rooted : {p : String} → Memᴰ p paths → path_allowed host g.roots p ≡ true

ahead-instant :
    (now : ℕ) (s : Stamp) → is_ahead now s ≡ true → (t : ℕ) × (s ≡ instant t) × (now < t)
ahead-instant now (instant t) h = (t, refl, ltb_lt now t h)
ahead-instant now (unparsed s) h = ground arith

pub is_active-Covers :
    (host : PathHost) (kind : ClientKind) (cs : List Capability) (paths : List String) (now : ℕ)
    (g : CapabilityGrant)
    → is_active host kind cs paths now g ≡ true
    → Covers host kind cs paths now g
unfolding is_active roots_cover
is_active-Covers host kind cs paths now g h = record {
  own = same_client_lem g.client kind (ground arith);
  alive = ahead-instant now g.until (ground arith);
  unspent = λ {m} l.
      let a : has_uses g ≡ true = ground arith in
      let b : ltb g.uses m ≡ true = let q : has_uses g ≡ ltb g.uses m = rw l refl in sym q ∙ a in
      ltb_lt g.uses m b;
  capable = λ {c} m.
      includes-Mem c g.capabilities (all-Mem (λ d. includes d g.capabilities) cs (ground arith) m);
  rooted = λ {p} m. all-Mem (path_allowed host g.roots) paths (ground arith) m;
}

allowed-profile :
    {p q : ReachProfile} {i j : Option String} → allowed p i ≡ allowed q j → (q ≡ p) × (j ≡ i)
allowed-profile h = (ground arith, ground arith)

refused-allowed {ℓ} :
    {A : Type ℓ} {r : Refusal} {p : ReachProfile} {i : Option String} → refused r ≡ allowed p i → A
refused-allowed h = ground arith

min_mode-off : (m : AccessMode) → (min_mode off m ≡ off) × (min_mode m off ≡ off)
unfolding min_mode
min_mode-off off = (refl, refl)
min_mode-off AccessMode.read_only = (refl, refl)
min_mode-off on = (refl, refl)

pub mode_for_actor-off :
    (s : AccessState) (actor : Option RequestActor) (now : ℕ)
    → (resolve_mode s now ≡ off) ⊎ (entry (kind_of actor) s.clients ≡ some off)
    → mode_for_actor s actor now ≡ off
unfolding mode_for_actor
mode_for_actor-off s actor now (inl h) = elim (Option-cases (entry (kind_of actor) s.clients)) [
  | inl e ↦ rw (e, h, mode_for_actor) refl
  | inr (c, e) ↦ rw (e, h, mode_for_actor) (min_mode-off c).0
]
mode_for_actor-off s actor now (inr h) =
    rw (h, mode_for_actor) (min_mode-off (resolve_mode s now)).1

listed-select :
    (o : String) (p : OperationDescriptor → Bool) (ds : List OperationDescriptor)
    → listed o (map (λ (d : OperationDescriptor). d.operation) (select p ds)) ≡ true
    → (d : OperationDescriptor) × Memᴰ d ds × (d.operation ≡ o) × (p d ≡ true)
listed-select o p [] h = ground arith
listed-select o p (d ∷ ds) h = elim (Bool-cases (p d && (d.operation == o))) [
  | inl e ↦ (d, Memᴰ.head refl, (text_eq.same_iff d.operation o).0 (ground arith), ground arith)
  | inr e ↦
      let (x, m, named, kept) = listed-select o p ds (ground arith) in (x, Memᴰ.tail m, named, kept)
]

listed-catalog :
    (o : String)
    → (listed o read_only_inspect_operations || listed o read_only_delegated_operations) ≡ true
    → (d : OperationDescriptor) × Memᴰ d dex_operations
      × (d.operation ≡ o)
      × (d.read_only_allowed ≡ true)
unfolding read_only_inspect_operations read_only_delegated_operations
listed-catalog o h = elim (Bool-cases (listed o read_only_inspect_operations)) [
  | inl e ↦
      let (d, m, named, kept) = listed-select o _ dex_operations e in (d, m, named, ground arith)
  | inr e ↦
      let other : listed o read_only_delegated_operations ≡ true = ground arith in
      let (d, m, named, kept) = listed-select o _ dex_operations other in
      (d, m, named, ground arith)
]

module _ (host : PathHost) (s : AccessState) (actor : Option RequestActor) (o : String)
    (profile : ReachProfile) (now : ℕ) (args : Members) where
  -- Where the node is off now, or the owner's ceiling for the kind of client is off, every operation is
  -- refused, whatever grants there are.
  pub authorize_operation-off :
      (resolve_mode s now ≡ off) ⊎ (entry (kind_of actor) s.clients ≡ some off)
      → authorize_operation host s actor o profile now args ≡ refused (execution_disabled o)
  unfolding authorize_operation
  authorize_operation-off h = rw (mode_for_actor-off s actor now h, authorize_operation) refl

  -- In effective mode `read-only` an operation is allowed only if the catalog has it and marks it as
  -- allowed there, and then with the profile `read-only`, whatever was asked for, and without a grant.
  pub authorize_operation-read_only :
      {p : ReachProfile} {id : Option String}
      → mode_for_actor s actor now ≡ AccessMode.read_only
      → authorize_operation host s actor o profile now args ≡ allowed p id
      → (p ≡ ReachProfile.read_only)
        × (id ≡ none)
        × (d : OperationDescriptor) × Memᴰ d dex_operations
        × (d.operation ≡ o)
        × (d.read_only_allowed ≡ true)
  unfolding authorize_operation
  authorize_operation-read_only m h =
      let test = listed o read_only_inspect_operations || listed o read_only_delegated_operations in
      elim (Bool-cases test) [
        | inl e ↦
            let q : authorize_operation host s actor o profile now args
                ≡ allowed ReachProfile.read_only none =
              rw (m, authorize_operation, e) refl in
            let (same, unnamed) = allowed-profile (sym q ∙ h) in
            let (d, l, named, kept) = listed-catalog o e in (same, unnamed, d, l, named, kept)
        | inr e ↦
            let q : authorize_operation host s actor o profile now args
                ≡ refused (read_only_refused o) =
              rw (m, authorize_operation, e) refl in
            refused-allowed (sym q ∙ h)
      ]

  module _ (n : (o == "dex.plan" || o == "dex.commitPlan") ≡ false)
      (r : requires_grant s actor ≡ true) where
    authorize_on-no_grant :
        active_grant host s actor o args now ≡ none
        → authorize_on host s actor o profile now args ≡ refused (no_active_grant o)
    unfolding authorize_on
    authorize_on-no_grant e = rw (n, r, e, authorize_on) refl

    authorize_on-grant :
        {g : CapabilityGrant}
        → active_grant host s actor o args now ≡ some g
        → authorize_on host s actor o profile now args ≡ allowed profile (some g.id)
    unfolding authorize_on
    authorize_on-grant e = rw (n, r, e, authorize_on) refl

  authorize_operation-on :
      mode_for_actor s actor now ≡ on
      → authorize_operation host s actor o profile now args
        ≡ authorize_on host s actor o profile now args
  unfolding authorize_operation
  authorize_operation-on m = rw (m, authorize_operation) refl

  -- In effective mode `on`, an operation other than a plan or its commit, for a client that needs a grant,
  -- is allowed only by a grant of the policy that covers it: the client's own, not expired, not used up,
  -- with every capability that the operation and the tool it names require, and with every path of the
  -- arguments under its roots. The profile is the one that was asked for.
  pub authorize_operation-Covers :
      {p : ReachProfile} {id : Option String}
      → mode_for_actor s actor now ≡ on
      → (o == "dex.plan" || o == "dex.commitPlan") ≡ false
      → requires_grant s actor ≡ true
      → authorize_operation host s actor o profile now args ≡ allowed p id
      → (p ≡ profile)
        × (g : CapabilityGrant) × Memᴰ g s.grants
        × (id ≡ some g.id)
        × Covers host (kind_of actor) (required_capabilities o args) (request_paths args) now g
  unfolding active_grant
  authorize_operation-Covers m n r h =
      let k = sym (authorize_operation-on m) ∙ h in
      elim (Option-cases (active_grant host s actor o args now)) [
        | inl e ↦ refused-allowed (sym (authorize_on-no_grant n r e) ∙ k)
        | inr (g, e) ↦
            let (same, named) = allowed-profile (sym (authorize_on-grant n r e) ∙ k) in
            (
              same,
              g,
              find-Mem _ s.grants e,
              named,
              is_active-Covers host _ _ _ now g (find-holds _ s.grants e),
            )
      ]
