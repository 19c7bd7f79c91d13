-- ===== src/Catalog/Cost.antt =====
-- The authority that a request asks for, in src/shared/operations.ts: what execution budgets are charged.
--
-- `Number` of a text, floored, and 0 where it is not finite or not positive, is a parameter, and so is the
-- cost of a repository inspection, which its own request states.
pub mod Wrapped
use Prim.Native.Char.{code}
use Prim.Native.String.{String}
use dex_reach.Common.{
  ℕ, ◌+◌, ◌≡◌, Bool, true, false, ◌&&◌, ◌||◌, Option, none, some, List, [], ◌∷◌, ltb, max, ◌==◌,
  text_eq, arith, if◌then◌else◌,
}
use dex_reach.Common.Outcome.{Result, ok, err}
use dex_reach.Labels.{Text, codes, is_lower, is_upper, is_digit}
use dex_reach.Json.{
  Json, null, boolean, number, string, array, object, Items, last, item, Members, end, member,
  field,
}
use dex_reach.Budget.Usage.{AuthorityCost}
use dex_reach.Tasks.Create.{same_text}
use dex_reach.Tasks.Store.{truthy}
use dex_reach.Catalog.{
  OperationRiskClass, shell, OperationDescriptor, CatalogError, require_operation,
  require_compatibility_tool,
}
use dex_reach.Catalog.Risk.{text_field}

unfoldable pub lower : ℕ → ℕ
lower c = if is_upper c then c + 32 else c

-- `key.replace(/([a-z0-9])([A-Z])/g, '$1_$2')`
unfoldable pub split_words : Text → Text
split_words [] = []
split_words (c ∷ []) = c ∷ []
split_words (c ∷ d ∷ cs) =
    let rest = split_words (d ∷ cs) in
    if (is_lower c || is_digit c) && is_upper d then c ∷ b'_' ∷ rest else c ∷ rest

abbrev pub lower_all : Text → Text
lower_all [] = []
lower_all (c ∷ cs) = lower c ∷ lower_all cs

unfoldable pub normalize_cost_key : String → Text
normalize_cost_key k = lower_all (split_words (codes k))

abbrev one_of : Text → List String → Bool
one_of t [] = false
one_of t (s ∷ ss) = same_text t (codes s) || one_of t ss

-- WRITE_PAYLOAD_KEY
unfoldable pub is_write_payload_key : String → Bool
is_write_payload_key k =
    one_of (normalize_cost_key k)
      ("text" ∷ "content" ∷ "contents" ∷ "data" ∷ "body" ∷ "new_string" ∷ [])

-- TIMEOUT_KEY
unfoldable pub is_timeout_key : String → Bool
is_timeout_key k = one_of (normalize_cost_key k) ("timeout_ms" ∷ "timeout" ∷ [])

-- `Buffer.byteLength(value, 'utf8')`
unfoldable pub byte_length : String → ℕ
byte_length String.[] = 0
byte_length (String.◌∷◌ c s) =
    (if ltb (code c) 128
      then 1
      else (if ltb (code c) 2048 then 2 else (if ltb (code c) 65536 then 3 else 4)))
    + byte_length s

-- The bytes of the payloads in a value. The members of an object have different keys, as those of every
-- parsed object have: two members of one key would both count.
unfoldable mutual
  pub requested_write_bytes_in : String → Json → ℕ
  requested_write_bytes_in k null = 0
  requested_write_bytes_in k (boolean b) = 0
  requested_write_bytes_in k (number n) = 0
  requested_write_bytes_in k (string s) = if is_write_payload_key k then byte_length s else 0
  requested_write_bytes_in k (array is) = write_bytes_in_items k is
  requested_write_bytes_in k (object ms) = write_bytes_in_members ms

  pub write_bytes_in_items : String → Items → ℕ
  write_bytes_in_items k last = 0
  write_bytes_in_items k (item v is) = requested_write_bytes_in k v + write_bytes_in_items k is

  pub write_bytes_in_members : Members → ℕ
  write_bytes_in_members end = 0
  write_bytes_in_members (member k v ms) = requested_write_bytes_in k v + write_bytes_in_members ms

-- `Number(value)` of a text.
abbrev pub Numeric : Type 0
Numeric = String → ℕ

unfoldable mutual
  pub requested_process_ms_in : Numeric → String → Json → ℕ
  requested_process_ms_in f k null = 0
  requested_process_ms_in f k (boolean b) = 0
  requested_process_ms_in f k (number n) = if is_timeout_key k then n else 0
  requested_process_ms_in f k (string s) = if is_timeout_key k then f s else 0
  requested_process_ms_in f k (array is) = process_ms_in_items f k is
  requested_process_ms_in f k (object ms) = process_ms_in_members f ms

  pub process_ms_in_items : Numeric → String → Items → ℕ
  process_ms_in_items f k last = 0
  process_ms_in_items f k (item v is) =
      max (requested_process_ms_in f k v) (process_ms_in_items f k is)

  pub process_ms_in_members : Numeric → Members → ℕ
  process_ms_in_members f end = 0
  process_ms_in_members f (member k v ms) =
      max (requested_process_ms_in f k v) (process_ms_in_members f ms)

abbrev pub is_shell : OperationRiskClass → Bool
is_shell shell = true
is_shell _ = false

unfoldable pub cost_from : Numeric → Bool → OperationRiskClass → Members → AuthorityCost
cost_from f mutation risk args = record {
  operations = 1;
  mutations = if mutation then 1 else 0;
  shell_calls = if is_shell risk then 1 else 0;
  requested_write_bytes = if mutation then requested_write_bytes_in "" (object args) else 0;
  requested_process_ms = if is_shell risk then requested_process_ms_in f "" (object args) else 0;
}

-- What the cost takes from elsewhere: numbers in texts, and the operations of a repository inspection.
pub record CostHost : Type 0 where
  pub numeric : Numeric
  pub inspection_operation_cost : Json → ℕ

-- The cost of an operation that names its own target, or has none.
unfoldable pub direct_cost :
    CostHost → String → OperationDescriptor → Members → Result CatalogError AuthorityCost
direct_cost host o d args =
    let cost = cost_from host.numeric d.mutation d.risk args in
    let plain : Result CatalogError AuthorityCost =
      if o == "dex.repoInfo"
      then elim (field "inspection" args) [
        | none ↦ ok cost
        | some v ↦ ok (record cost { operations = host.inspection_operation_cost v })
      ]
      else ok cost in
    if d.workspace_safe_resolved_per_tool
    then elim (text_field "tool" args) [
      | none ↦ plain
      | some String.[] ↦ plain
      | some (String.◌∷◌ c s) ↦ elim (require_compatibility_tool (String.◌∷◌ c s)) [
        | err e ↦ err e
        | ok t ↦ ok (cost_from host.numeric t.mutation t.risk args)
      ]
    ]
    else plain

unfoldable pub cost_alone : CostHost → String → Members → Result CatalogError AuthorityCost
cost_alone host o args = elim (require_operation o) [
  | err e ↦ err e
  | ok d ↦
      if d.risk_inherits_from_target
      then ok (cost_from host.numeric d.mutation d.risk args)
      else direct_cost host o d args
]

-- The planned operation of a commit, with its arguments if they are given.
pub record AuthorityCostContext : Type 0 where
  pub planned_target : Option String
  pub planned_args : Option Members

abbrev pub args_or : Option Members → Members → Members
args_or none args = args
args_or (some a) args = a

-- `requestedAuthorityCost`
unfoldable pub requested_authority_cost :
    CostHost → String → Members → AuthorityCostContext → Result CatalogError AuthorityCost
requested_authority_cost host o args context = elim (require_operation o) [
  | err e ↦ err e
  | ok d ↦
      if d.risk_inherits_from_target
      then elim (truthy context.planned_target) [
        | none ↦ ok (cost_from host.numeric d.mutation d.risk args)
        | some t ↦ cost_alone host t (args_or context.planned_args args)
      ]
      else direct_cost host o d args
]
