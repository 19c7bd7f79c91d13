-- ===== src/Catalog/Risk.antt =====
-- Risk classes of src/shared/operations.ts: their order, the highest of several, and the risk of a request.
use Prim.Native.String.{String}
use mathlib.Core.Path.{subst}
use dex_reach.Common.{
  ℕ, ◌≤◌, ◌≡◌, refl, ap, Bool, true, false, not, ◌&&◌, ◌||◌, Option, none, some, List, [], ◌∷◌, map,
  select, ltb, Memᴰ, inl, inr, Bool-cases, arith, ◌==◌, text_eq, if◌then◌else◌,
}
use dex_reach.Common.Outcome.{Result, ok, err, ok_injective}
use dex_reach.Tasks.{
  Capability, inspect, file_read, file_write, checkpoint, process_shell, compat, secret_use,
}
use dex_reach.Tasks.Store.{truthy}
use dex_reach.Json.{string, Members, field}
use dex_reach.Catalog.{
  OperationRiskClass, inspection, typed_mutate, network, shell, privileged, destructive,
  OperationDescriptor, dex_operations, is_inspection, CatalogError, no_target, no_risks,
  unclassifiable, require_operation, require_compatibility_tool,
}

-- The place in OPERATION_RISK_ORDER.
unfoldable pub risk_rank : OperationRiskClass → ℕ
risk_rank inspection = 0
risk_rank typed_mutate = 1
risk_rank network = 2
risk_rank shell = 3
risk_rank privileged = 4
risk_rank destructive = 5

unfoldable pub worse : OperationRiskClass → OperationRiskClass → OperationRiskClass
worse current next = if ltb (risk_rank current) (risk_rank next) then next else current

unfoldable pub worst_from : OperationRiskClass → List OperationRiskClass → OperationRiskClass
worst_from current [] = current
worst_from current (r ∷ rs) = worst_from (worse current r) rs

-- `highestRisk`: `reduce` of a list that is not empty.
unfoldable pub highest_risk : List OperationRiskClass → Result CatalogError OperationRiskClass
highest_risk [] = err no_risks
highest_risk (r ∷ rs) = ok (worst_from r rs)

unfoldable pub effective_risk : String → Option String → Result CatalogError OperationRiskClass
effective_risk o target = elim (require_operation o) [
  | err e ↦ err e
  | ok d ↦
      if d.risk_inherits_from_target
      then elim (truthy target) [
        | none ↦ err no_target
        | some t ↦ elim (require_operation t) [ err e ↦ err e | ok b ↦ ok b.risk ]
      ]
      else ok d.risk
]

abbrev pub same_capability : Capability → Capability → Bool
same_capability inspect inspect = true
same_capability file_read file_read = true
same_capability file_write file_write = true
same_capability checkpoint checkpoint = true
same_capability process_shell process_shell = true
same_capability compat compat = true
same_capability secret_use secret_use = true
same_capability _ _ = false

abbrev raises_floor : Capability → OperationDescriptor → Bool
raises_floor c d =
    same_capability d.capability c
    && (not d.risk_inherits_from_target
        && (not (same_capability c inspect) || is_inspection d.risk))

unfoldable pub risk_floor_for_capability : Capability → Result CatalogError OperationRiskClass
risk_floor_for_capability c =
    elim (map (λ (d : OperationDescriptor). d.risk) (select (raises_floor c) dex_operations)) [
      | [] ↦ err unclassifiable
      | r ∷ rs ↦ ok (worst_from r rs)
    ]

unfoldable pub risk_floors : List Capability → Result CatalogError (List OperationRiskClass)
risk_floors [] = ok []
risk_floors (c ∷ cs) =
    let rest = risk_floors cs in
    elim (risk_floor_for_capability c) [
      | err e ↦ err e
      | ok r ↦ elim rest [ err e ↦ err e | ok rs ↦ ok (r ∷ rs) ]
    ]

abbrev pub text_field : String → Members → Option String
text_field k args = elim (field k args) [ some (string s) ↦ some s | _ ↦ none ]

-- The target that the arguments of a commit name.
unfoldable pub named_target : String → Members → Option String
named_target o args = elim (text_field "plannedTarget" args) [
  | some t ↦ some t
  | none ↦ elim (text_field "operation" args) [
    | some t ↦ if t == o then none else some t
    | none ↦ none
  ]
]

unfoldable pub operation_risk :
    String → OperationDescriptor → Members → Result CatalogError OperationRiskClass
operation_risk o d args =
    if d.risk_inherits_from_target
    then elim (named_target o args) [
      | none ↦ ok d.risk
      | some String.[] ↦ ok d.risk
      | some (String.◌∷◌ c s) ↦ effective_risk o (some (String.◌∷◌ c s))
    ]
    else (if d.workspace_safe_resolved_per_tool
        then elim (text_field "tool" args) [
          | none ↦ ok d.risk
          | some String.[] ↦ ok d.risk
          | some (String.◌∷◌ c s) ↦ elim (require_compatibility_tool (String.◌∷◌ c s)) [
            | err e ↦ err e
            | ok b ↦ ok b.risk
          ]
        ]
        else ok d.risk)

-- `classifyRequestedRisk`; an absent operation and an empty name are one.
unfoldable pub classify_requested_risk :
    List Capability → Option String → Members → Result CatalogError OperationRiskClass
classify_requested_risk cs (some o) args = elim (require_operation o) [
  | err e ↦ err e
  | ok d ↦ operation_risk o d args
]
classify_requested_risk cs none args = elim (risk_floors cs) [
  | err e ↦ err e
  | ok rs ↦ highest_risk rs
]

worse-le :
    (a b : OperationRiskClass)
    → (risk_rank a ≤ risk_rank (worse a b)) × (risk_rank b ≤ risk_rank (worse a b))
unfolding worse
worse-le a b = ground arith

worst_from-le :
    (a : OperationRiskClass) (rs : List OperationRiskClass)
    → risk_rank a ≤ risk_rank (worst_from a rs)
unfolding worst_from
worst_from-le a [] = omega arith
worst_from-le a (r ∷ rs) = omega (arith, worst_from-le (worse a r) rs, (worse-le a r).0)

worst_from-all :
    (a : OperationRiskClass) (rs : List OperationRiskClass) {x : OperationRiskClass}
    → Memᴰ x rs
    → risk_rank x ≤ risk_rank (worst_from a rs)
unfolding worst_from
worst_from-all a [] m = elim m [ ]
worst_from-all a (r ∷ rs) (Memᴰ.head e) =
    omega (arith, ap risk_rank e, worst_from-le (worse a r) rs, (worse-le a r).1)
worst_from-all a (r ∷ rs) (Memᴰ.tail m) = worst_from-all (worse a r) rs m

worst_from-mem :
    (a : OperationRiskClass) (rs : List OperationRiskClass) → Memᴰ (worst_from a rs) (a ∷ rs)
unfolding worst_from worse
worst_from-mem a [] = Memᴰ.head refl
worst_from-mem a (r ∷ rs) = elim (Bool-cases (ltb (risk_rank a) (risk_rank r))) [
  | inl e ↦ rw e (Memᴰ.tail (worst_from-mem r rs))
  | inr e ↦ rw e (skip (worst_from-mem a rs))
]
  where
    skip :
        {x y z : OperationRiskClass} {l : List OperationRiskClass}
        → Memᴰ x (y ∷ l)
        → Memᴰ x (y ∷ z ∷ l)
    skip (Memᴰ.head e) = Memᴰ.head e
    skip (Memᴰ.tail m) = Memᴰ.tail (Memᴰ.tail m)

none_above :
    (r : OperationRiskClass) (rs : List OperationRiskClass) {x : OperationRiskClass}
    → Memᴰ x (r ∷ rs)
    → risk_rank x ≤ risk_rank (worst_from r rs)
none_above r rs (Memᴰ.head e) = omega (arith, ap risk_rank e, worst_from-le r rs)
none_above r rs (Memᴰ.tail m) = worst_from-all r rs m

-- The highest risk of a list is one of the list, and none of the list is above it.
pub highest_risk_lem :
    (rs : List OperationRiskClass) {h : OperationRiskClass}
    → highest_risk rs ≡ ok h
    → Memᴰ h rs × ((x : OperationRiskClass) → Memᴰ x rs → risk_rank x ≤ risk_rank h)
unfolding highest_risk
highest_risk_lem [] h = ground arith
highest_risk_lem (r ∷ rs) h =
    subst
      (λ h.
        Memᴰ h (r ∷ rs) × ((x : OperationRiskClass) → Memᴰ x (r ∷ rs) → risk_rank x ≤ risk_rank h))
      (ok_injective h) (worst_from-mem r rs, λ x m. none_above r rs m)
