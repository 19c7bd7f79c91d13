-- ===== src/Catalog/Cost/Wrapped.antt =====
-- Calls of adapter tools: src/shared/operations.ts charges what is routed through `dc.call`, and what is
-- committed from a plan of it, as it is charged directly.
use Prim.Native.String.{String}
use dex_reach.Common.{◌≡◌, refl, sym, ◌∙◌, ap, Bool, false, some, ◌==◌, text_eq, arith}
use dex_reach.Common.Outcome.{ok}
use dex_reach.Json.{string, object, Members, end, member, field}
use dex_reach.Labels.{is_lower, is_upper, is_digit}
use dex_reach.Catalog.{
  OperationDescriptor, CompatibilityToolDescriptor, OperationRiskClass, dex_operations,
  compatibility_tools, describe_operation, describe_compatibility_tool, require_operation,
  require_compatibility_tool,
}
use dex_reach.Catalog.Cost.{
  Numeric, requested_write_bytes_in, requested_process_ms_in, is_write_payload_key, is_timeout_key,
  normalize_cost_key, split_words, lower, cost_from, CostHost, direct_cost, cost_alone,
  AuthorityCostContext, requested_authority_cost,
}

-- The arguments of a `dc.call` of a tool with arguments of its own.
abbrev pub wrapped : String → Members → Members
wrapped tool args = member "tool" (string tool) (member "arguments" (object args) end)

wrapped-bytes :
    (tool : String) (args : Members)
    → requested_write_bytes_in "" (object (wrapped tool args))
      ≡ requested_write_bytes_in "" (object args)
unfolding requested_write_bytes_in is_write_payload_key normalize_cost_key split_words lower
    is_lower is_upper is_digit
wrapped-bytes tool args = ground arith

wrapped-ms :
    (f : Numeric) (tool : String) (args : Members)
    → requested_process_ms_in f "" (object (wrapped tool args))
      ≡ requested_process_ms_in f "" (object args)
unfolding requested_process_ms_in is_timeout_key normalize_cost_key split_words lower is_lower
    is_upper is_digit
wrapped-ms f tool args = ground arith

cost_from-wrapped :
    (f : Numeric) (m : Bool) (r : OperationRiskClass) (tool : String) (args : Members)
    → cost_from f m r (wrapped tool args) ≡ cost_from f m r args
unfolding cost_from
cost_from-wrapped f m r tool args =
    rw (cost_from, wrapped-bytes tool args, wrapped-ms f tool args) refl

unnamed_tool :
    {A : Type 0} {t : CompatibilityToolDescriptor} → describe_compatibility_tool "" ≡ some t → A
unfolding describe_compatibility_tool compatibility_tools
unnamed_tool h = ground arith

require-described :
    (tool : String) {t : CompatibilityToolDescriptor}
    → describe_compatibility_tool tool ≡ some t
    → require_compatibility_tool tool ≡ ok t
unfolding require_compatibility_tool
require-described tool h = rw (h, require_compatibility_tool) refl

call_charges :
    (host : CostHost) (tool : String) (args : Members) (context : AuthorityCostContext)
    {t : CompatibilityToolDescriptor}
    → describe_compatibility_tool tool ≡ some t
    → requested_authority_cost host "dc.call" (wrapped tool args) context
      ≡ ok (cost_from host.numeric t.mutation t.risk args)
unfolding requested_authority_cost direct_cost require_operation describe_operation dex_operations
    field
call_charges host String.[] args context h = unnamed_tool h
call_charges host (String.◌∷◌ c s) args context {t} h =
    rw (require-described (String.◌∷◌ c s) h)
      (ap ok (cost_from-wrapped host.numeric t.mutation t.risk (String.◌∷◌ c s) args))

commit_charges :
    (host : CostHost) (tool : String) (args given : Members) {t : CompatibilityToolDescriptor}
    → describe_compatibility_tool tool ≡ some t
    → requested_authority_cost host "dex.commitPlan" given
        record { planned_target = some "dc.call"; planned_args = some (wrapped tool args) }
      ≡ ok (cost_from host.numeric t.mutation t.risk args)
unfolding requested_authority_cost cost_alone direct_cost require_operation describe_operation
    dex_operations field
commit_charges host String.[] args given h = unnamed_tool h
commit_charges host (String.◌∷◌ c s) args given {t} h =
    rw (require-described (String.◌∷◌ c s) h)
      (ap ok (cost_from-wrapped host.numeric t.mutation t.risk (String.◌∷◌ c s) args))

module _ (host : CostHost) (o : String) (args : Members) (context : AuthorityCostContext)
    {d : OperationDescriptor} (known : describe_operation o ≡ some d)
    (own : d.risk_inherits_from_target ≡ false) (whole : d.workspace_safe_resolved_per_tool ≡ false)
    (plain : (o == "dex.repoInfo") ≡ false) where
  direct_charges :
      requested_authority_cost host o args context
      ≡ ok (cost_from host.numeric d.mutation d.risk args)
  unfolding requested_authority_cost require_operation direct_cost
  direct_charges =
      rw (requested_authority_cost, require_operation, known, own, direct_cost, plain, whole) refl

-- A call of a known adapter tool is charged by the tool's mutation and risk and by its own arguments: routed
-- through `dc.call`, or committed from a plan of such a call, it costs what any operation of the same
-- mutation and risk costs with those arguments directly, whose cost is its own (not that of a planned
-- target, of a tool or of an inspection).
pub requested_authority_cost-wrapped :
    (host : CostHost) (tool o : String) (args given : Members) (context : AuthorityCostContext)
    {t : CompatibilityToolDescriptor} {d : OperationDescriptor}
    → describe_compatibility_tool tool ≡ some t
    → describe_operation o ≡ some d
    → d.risk_inherits_from_target ≡ false
    → d.workspace_safe_resolved_per_tool ≡ false
    → (o == "dex.repoInfo") ≡ false
    → d.mutation ≡ t.mutation
    → d.risk ≡ t.risk
    → (requested_authority_cost host "dc.call" (wrapped tool args) context
        ≡ ok (cost_from host.numeric t.mutation t.risk args))
      × (requested_authority_cost host "dc.call" (wrapped tool args) context
          ≡ requested_authority_cost host o args context)
      × (requested_authority_cost host "dex.commitPlan" given
            record { planned_target = some "dc.call"; planned_args = some (wrapped tool args) }
          ≡ requested_authority_cost host o args context)
requested_authority_cost-wrapped host tool o args given context {t} {d} h k own whole plain m r =
    let direct =
      direct_charges host o args context k own whole plain
      ∙ ap (λ b. ok (cost_from host.numeric b d.risk args)) m
      ∙ ap (λ c. ok (cost_from host.numeric t.mutation c args)) r in
    (
      call_charges host tool args context h,
      call_charges host tool args context h ∙ sym direct,
      commit_charges host tool args given h ∙ sym direct,
    )
