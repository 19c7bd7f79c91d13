-- ===== src/Budget/Policy.antt =====
-- The budget policy file of src/shared/budget-policy.ts: reading it, and the changes that its owner makes.
-- The file lock around a change is left out.
pub mod Codec
use Prim.Native.String.{String}
use dex_reach.Common.{
  ℕ, ◌+◌, Bool, true, false, not, ◌&&◌, ◌||◌, Option, none, some, ◌==◌, text_eq, eqb, if◌then◌else◌,
}
use dex_reach.Common.Outcome.{Result, ok, err}
use dex_reach.Json.{
  Json, null, boolean, number, string, array, object, Members, end, member, field, members_of,
  JsonFile, missing, unreadable, holds,
}
use dex_reach.Clients.{
  ClientKind, chatgpt, claude, smoke, other, PerClient, entry, with_entry, client_name_of,
}
use dex_reach.Budget.{BudgetRule, BudgetPolicy, empty_budget_policy, policy_restricts}

-- `nonNegativeIntOrNull`: `none` where the source gives undefined.
unfoldable pub non_negative_int_or_null : Option Json → Option (Option ℕ)
non_negative_int_or_null none = some none
non_negative_int_or_null (some null) = some none
non_negative_int_or_null (some (number n)) = some (some n)
non_negative_int_or_null (some _) = none

-- `windowMs`, with 0 for anything but a positive integer.
unfoldable pub window_of : Option Json → ℕ
window_of (some (number n)) = n
window_of _ = 0

-- `typeof raw.id === 'string' && raw.id ? raw.id : fallbackId`
unfoldable pub id_or : String → Option Json → String
id_or fallback (some (string String.[])) = fallback
id_or fallback (some (string (String.◌∷◌ c s))) = String.◌∷◌ c s
id_or fallback _ = fallback

abbrev pub bind {ℓ κ} : {A : Type ℓ} {B : Type κ} → Option A → (A → Option B) → Option B
bind none f = none
bind (some a) f = f a

unfoldable pub decode_members : Members → String → Option BudgetRule
unfolding window_of
decode_members ms fallback =
    if eqb (window_of (field "windowMs" ms)) 0
    then none
    else (bind (non_negative_int_or_null (field "maxOperations" ms)) λ operations.
        bind (non_negative_int_or_null (field "maxMutations" ms)) λ mutations.
          bind (non_negative_int_or_null (field "maxShellCalls" ms)) λ shell_calls.
            bind (non_negative_int_or_null (field "maxRequestedWriteBytes" ms)) λ write_bytes.
              bind (non_negative_int_or_null (field "maxRequestedProcessMs" ms)) λ process_ms.
                bind (non_negative_int_or_null (field "maxConcurrent" ms)) λ concurrent.
                  some (record {
                    id = id_or fallback (field "id" ms);
                    window_ms = window_of (field "windowMs" ms);
                    max_operations = operations;
                    max_mutations = mutations;
                    max_shell_calls = shell_calls;
                    max_requested_write_bytes = write_bytes;
                    max_requested_process_ms = process_ms;
                    max_concurrent = concurrent;
                  }))

unfoldable pub decode_rule : Json → String → Option BudgetRule
decode_rule v fallback = bind (members_of v) λ ms. decode_members ms fallback

-- The rule of one kind of client: absent, decoded, or corrupt.
unfoldable pub decode_client : ClientKind → Option Members → Option (Option BudgetRule)
decode_client k none = some none
decode_client k (some ms) = elim (field (client_name_of k) ms) [
  | none ↦ some none
  | some v ↦ bind (decode_rule v (client_name_of k)) λ r. some (some r)
]

-- `Number(version) === 1`, of a number, a boolean or the text "1".
unfoldable pub is_version_one : Option Json → Bool
is_version_one (some (number n)) = eqb n 1
is_version_one (some (boolean b)) = b
is_version_one (some (string s)) = s == "1"
is_version_one _ = false

unfoldable pub decode_shared : Option Json → Option (Option BudgetRule)
decode_shared none = some none
decode_shared (some null) = some none
decode_shared (some v) = bind (decode_rule v "shared") λ r. some (some r)

unfoldable pub revision_of : Option Json → ℕ
revision_of (some (number n)) = n
revision_of _ = 0

-- `new Date(0).toISOString()`
abbrev pub epoch : String
epoch = "1970-01-01T00:00:00.000Z"

unfoldable pub text_or_epoch : Option Json → String
text_or_epoch (some (string s)) = s
text_or_epoch _ = epoch

-- `raw.clients`, where it is an object.
unfoldable pub clients_of : Option Json → Option Members
clients_of none = none
clients_of (some v) = members_of v

unfoldable pub decode_policy_members : Members → Option BudgetPolicy
decode_policy_members ms =
    if is_version_one (field "version" ms)
    then (let cs = clients_of (field "clients" ms) in
        bind (decode_client chatgpt cs) λ for_chatgpt. bind (decode_client claude cs) λ for_claude.
          bind (decode_client smoke cs) λ for_smoke. bind (decode_client other cs) λ for_other.
            bind (decode_shared (field "shared" ms)) λ shared. some (record {
              revision = revision_of (field "revision" ms);
              shared = shared;
              clients = record {
                for_chatgpt = for_chatgpt;
                for_claude = for_claude;
                for_smoke = for_smoke;
                for_other = for_other;
              };
              updated_at = text_or_epoch (field "updatedAt" ms);
            }))
    else none

unfoldable pub decode_policy : Json → Option BudgetPolicy
decode_policy v = bind (members_of v) decode_policy_members

pub data PolicyFault : Type 0 where
  corrupt_policy unreadable_policy : PolicyFault

pub record BudgetPolicyInspection : Type 0 where
  pub exists_file : Bool
  pub valid : Bool
  pub unrestricted : Bool
  pub policy : BudgetPolicy
  pub fault : Option PolicyFault

-- `readPolicyUnlocked`, at the given time.
unfoldable pub inspect_budget_policy : String → JsonFile → BudgetPolicyInspection
inspect_budget_policy now missing = record {
  exists_file = false;
  valid = true;
  unrestricted = true;
  policy = empty_budget_policy now;
  fault = none;
}
inspect_budget_policy now unreadable = record {
  exists_file = true;
  valid = false;
  unrestricted = true;
  policy = empty_budget_policy now;
  fault = some unreadable_policy;
}
inspect_budget_policy now (holds v) = elim (decode_policy v) [
  | none ↦ record {
    exists_file = true;
    valid = false;
    unrestricted = true;
    policy = empty_budget_policy now;
    fault = some corrupt_policy;
  }
  | some p ↦ record {
    exists_file = true;
    valid = true;
    unrestricted = not (policy_restricts p);
    policy = p;
    fault = none;
  }
]

unfoldable pub load_budget_policy : String → JsonFile → BudgetPolicy
load_budget_policy now f = (inspect_budget_policy now f).policy

unfoldable pub number_or_null : Option ℕ → Json
number_or_null none = null
number_or_null (some n) = number n

-- What `JSON.stringify` writes of a rule, and of a policy.
unfoldable pub encode_rule : BudgetRule → Json
unfolding number_or_null
encode_rule r = object (
    member "id" (string r.id) (
      member "windowMs" (number r.window_ms) (
        member "maxOperations" (number_or_null r.max_operations) (
          member "maxMutations" (number_or_null r.max_mutations) (
            member "maxShellCalls" (number_or_null r.max_shell_calls) (
              member "maxRequestedWriteBytes" (number_or_null r.max_requested_write_bytes) (
                member "maxRequestedProcessMs" (number_or_null r.max_requested_process_ms)
                  (member "maxConcurrent" (number_or_null r.max_concurrent) end))))))))

unfoldable pub encode_client : ClientKind → Option BudgetRule → Members → Members
encode_client k none ms = ms
encode_client k (some r) ms = member (client_name_of k) (encode_rule r) ms

unfoldable pub encode_shared : Option BudgetRule → Json
encode_shared none = null
encode_shared (some r) = encode_rule r

unfoldable pub encode_policy : BudgetPolicy → Json
encode_policy p = object (
    member "version" (number 1) (
      member "revision" (number p.revision) (
        member "shared" (encode_shared p.shared) (
          member "clients"
            (object (
              encode_client chatgpt p.clients.for_chatgpt (
                encode_client claude p.clients.for_claude (
                  encode_client smoke p.clients.for_smoke
                    (encode_client other p.clients.for_other end)))))
            (member "updatedAt" (string p.updated_at) end)))))

-- `updateBudgetPolicy` with `writePolicyUnlocked`: the policy that is written, and the file.
unfoldable pub update_budget_policy :
    {E : Type 0}
    → String
    → (BudgetPolicy → Result E BudgetPolicy)
    → JsonFile
    → Result E (BudgetPolicy × JsonFile)
update_budget_policy now change f =
    let current = load_budget_policy now f in
    elim (change current) [
      | err e ↦ err e
      | ok p ↦
          let next = record p { revision = current.revision + 1; updated_at = now } in
          ok (next, holds (encode_policy next))
    ]

pub data BudgetScope : Type 0 where
  shared_scope : BudgetScope
  client_scope : ClientKind → BudgetScope

pub data NoBudget : Type 0 where
  no_budget : String → NoBudget

unfoldable pub upsert_rule : BudgetScope → BudgetRule → BudgetPolicy → Result NoBudget BudgetPolicy
upsert_rule shared_scope r p = ok (record p { shared = some (record r { id = "shared" }) })
upsert_rule (client_scope k) r p =
    ok (record p { clients = with_entry k (some (record r { id = client_name_of k })) p.clients })

unfoldable pub upsert_budget_rule :
    String → BudgetScope → BudgetRule → JsonFile → Result NoBudget (BudgetPolicy × JsonFile)
upsert_budget_rule now scope r = update_budget_policy now (upsert_rule scope r)

-- Whether an identifier names the rule of a kind of client, by the kind or by the rule's own identifier.
unfoldable pub names_client : String → ClientKind → BudgetPolicy → Bool
names_client id k p =
    client_name_of k == id || elim (entry k p.clients) [ none ↦ false | some r ↦ r.id == id ]

unfoldable pub names_shared : String → BudgetPolicy → Bool
names_shared id p = id == "shared" || elim p.shared [ none ↦ false | some r ↦ r.id == id ]

unfoldable pub clear_rule : String → BudgetPolicy → Result NoBudget BudgetPolicy
unfolding names_client names_shared
clear_rule id p =
    let without : ClientKind → Result NoBudget BudgetPolicy =
      λ k. ok (record p { clients = with_entry k none p.clients }) in
    if names_shared id p
    then ok (record p { shared = none })
    else (if names_client id chatgpt p
        then without chatgpt
        else (if names_client id claude p
            then without claude
            else (if names_client id smoke p
                then without smoke
                else (if names_client id other p then without other else err (no_budget id)))))

unfoldable pub clear_budget_rule :
    String → String → JsonFile → Result NoBudget (BudgetPolicy × JsonFile)
clear_budget_rule now id = update_budget_policy now (clear_rule id)
