-- ===== src/Budget/Usage/Codec.antt =====
-- Reading and writing the usage file of src/shared/budget-usage.ts.
use Prim.Native.String.{String}
use dex_reach.Common.{
  ℕ, ◌≡◌, refl, false, Option, none, some, List, [], ◌∷◌, eqb, ◌==◌, text_eq, if◌then◌else◌, All,
}
use dex_reach.Json.{
  Json, number, string, array, object, Items, last, item, Members, end, member, field, members_of,
  JsonFile, missing, unreadable, holds,
}
use dex_reach.Clients.{ClientKind, chatgpt, claude, smoke, other, client_name_of}
use dex_reach.Budget.Policy.{bind, is_version_one}
use dex_reach.Budget.Policy.Codec.{is_blank}
use dex_reach.Budget.Usage.{
  BudgetSample, BudgetInflight, BudgetUsage, UsageFile, no_usage, corrupt_usage, usage,
}

unfoldable pub number_field : Option Json → Option ℕ
number_field (some (number n)) = some n
number_field _ = none

-- A client kind by its name. `String(value)` is a kind's name for a text, and for an array whose only
-- element is one, which no writer of the file makes and which is no kind here.
unfoldable pub client_field : Option Json → Option ClientKind
unfolding client_name_of
client_field (some (string s)) =
    if s == "chatgpt"
    then some chatgpt
    else (if s == "claude"
        then some claude
        else (if s == "smoke" then some smoke else (if s == "other" then some other else none)))
client_field _ = none

unfoldable pub decode_sample : Json → Option BudgetSample
unfolding number_field client_field
decode_sample v = bind (members_of v) λ ms. bind (number_field (field "at" ms)) λ at.
    bind (client_field (field "client" ms)) λ client.
      bind (number_field (field "operations" ms)) λ operations.
        bind (number_field (field "mutations" ms)) λ mutations.
          bind (number_field (field "shellCalls" ms)) λ shell_calls.
            bind (number_field (field "requestedWriteBytes" ms)) λ write_bytes.
              bind (number_field (field "requestedProcessMs" ms)) λ process_ms. some (record {
                at = at;
                client = client;
                cost = record {
                  operations = operations;
                  mutations = mutations;
                  shell_calls = shell_calls;
                  requested_write_bytes = write_bytes;
                  requested_process_ms = process_ms;
                };
              })

-- `item.id`, a text that is not empty.
unfoldable pub id_field : Option Json → Option String
id_field (some (string s)) = if is_blank s then none else some s
id_field _ = none

-- `item.pid`, absent or a positive integer.
unfoldable pub pid_field : Option Json → Option (Option ℕ)
pid_field none = some none
pid_field (some (number n)) = if eqb n 0 then none else some (some n)
pid_field (some _) = none

unfoldable pub decode_inflight : Json → Option BudgetInflight
unfolding number_field client_field id_field pid_field
decode_inflight v = bind (members_of v) λ ms. bind (id_field (field "id" ms)) λ id.
    bind (number_field (field "at" ms)) λ at. bind (client_field (field "client" ms)) λ client.
      bind (pid_field (field "pid" ms))
        λ pid. some (record { id = id; client = client; at = at; pid = pid })

-- Every entry of an array, or none if one is corrupt.
unfoldable pub decode_items : {A : Type 0} → (Json → Option A) → Items → Option (List A)
decode_items f last = some []
decode_items f (item v is) = bind (f v) λ a. bind (decode_items f is) λ as'. some (a ∷ as')

unfoldable pub decode_array : {A : Type 0} → (Json → Option A) → Option Json → Option (List A)
decode_array f (some (array is)) = decode_items f is
decode_array f _ = none

unfoldable pub decode_usage_members : Members → Option BudgetUsage
decode_usage_members ms =
    if is_version_one (field "version" ms)
    then (bind (decode_array decode_sample (field "samples" ms)) λ samples.
        bind (decode_array decode_inflight (field "inflight" ms))
          λ inflight. some (record { samples = samples; inflight = inflight }))
    else none

unfoldable pub decode_usage : Json → Option BudgetUsage
decode_usage v = bind (members_of v) decode_usage_members

-- `readUsageUnlocked`
unfoldable pub read_usage : JsonFile → UsageFile
read_usage missing = no_usage
read_usage unreadable = corrupt_usage
read_usage (holds v) = elim (decode_usage v) [ none ↦ corrupt_usage | some u ↦ usage u ]

unfoldable pub encode_sample : BudgetSample → Json
encode_sample s = object (
    member "at" (number s.at) (
      member "client" (string (client_name_of s.client)) (
        member "operations" (number s.cost.operations) (
          member "mutations" (number s.cost.mutations) (
            member "shellCalls" (number s.cost.shell_calls) (
              member "requestedWriteBytes" (number s.cost.requested_write_bytes)
                (member "requestedProcessMs" (number s.cost.requested_process_ms) end)))))))

unfoldable pub pid_member : Option ℕ → Members
pid_member none = end
pid_member (some n) = member "pid" (number n) end

unfoldable pub encode_inflight : BudgetInflight → Json
encode_inflight e = object (
    member "id" (string e.id) (
      member "client" (string (client_name_of e.client))
        (member "at" (number e.at) (pid_member e.pid))))

unfoldable pub encode_items : {A : Type 0} → (A → Json) → List A → Items
encode_items f [] = last
encode_items f (a ∷ as') = item (f a) (encode_items f as')

-- `writeUsageUnlocked`
unfoldable pub encode_usage : BudgetUsage → Json
encode_usage u = object (
    member "version" (number 1) (
      member "samples" (array (encode_items encode_sample u.samples))
        (member "inflight" (array (encode_items encode_inflight u.inflight)) end)))

client_field-name : (k : ClientKind) → client_field (some (string (client_name_of k))) ≡ some k
unfolding client_field client_name_of
client_field-name chatgpt = refl
client_field-name claude = refl
client_field-name smoke = refl
client_field-name other = refl

decode_sample-encode : (s : BudgetSample) → decode_sample (encode_sample s) ≡ some s
unfolding decode_sample encode_sample members_of field number_field
decode_sample-encode s = rw (client_field-name s.client)

-- A slot that a reservation may have written: it has an identifier, and a process number if any.
pub record IsWritten (e : BudgetInflight) : Type 0 where
  pub named : is_blank e.id ≡ false
  pub numbered : (n : ℕ) → e.pid ≡ some n → eqb n 0 ≡ false

id_field-string : (s : String) → is_blank s ≡ false → id_field (some (string s)) ≡ some s
unfolding id_field
id_field-string s h = rw h

decode_items-encode :
    {A : Type 0} (f : Json → Option A) (g : A → Json) (xs : List A)
    → All (λ x. f (g x) ≡ some x) xs
    → decode_items f (encode_items g xs) ≡ some xs
unfolding decode_items encode_items
decode_items-encode f g [] h = refl
decode_items-encode f g (x ∷ xs) (h, k) = rw (h, decode_items-encode f g xs k)

abbrev slot : String → ClientKind → ℕ → Option ℕ → BudgetInflight
slot id client at pid = record { id = id; client = client; at = at; pid = pid }

decode_slot :
    (id : String) (client : ClientKind) (at : ℕ) (pid : Option ℕ)
    → is_blank id ≡ false
    → ((n : ℕ) → pid ≡ some n → eqb n 0 ≡ false)
    → decode_inflight (encode_inflight (slot id client at pid)) ≡ some (slot id client at pid)
unfolding decode_inflight encode_inflight members_of field number_field pid_member pid_field
decode_slot id client at none h k = rw (id_field-string id h, client_field-name client)
decode_slot id client at (some n) h k =
    rw (id_field-string id h, client_field-name client, k n refl)

decode_inflight-encode :
    (e : BudgetInflight) → IsWritten e → decode_inflight (encode_inflight e) ≡ some e
decode_inflight-encode e w = decode_slot e.id e.client e.at e.pid w.named w.numbered

every_sample : (ss : List BudgetSample) → All (λ s. decode_sample (encode_sample s) ≡ some s) ss
every_sample [] = tt
every_sample (s ∷ ss) = (decode_sample-encode s, every_sample ss)

every_slot :
    (es : List BudgetInflight)
    → All IsWritten es
    → All (λ e. decode_inflight (encode_inflight e) ≡ some e) es
every_slot [] h = tt
every_slot (e ∷ es) (h, k) = (decode_inflight-encode e h, every_slot es k)

decode_usage-encode :
    (u : BudgetUsage) → All IsWritten u.inflight → decode_usage (encode_usage u) ≡ some u
unfolding decode_usage encode_usage decode_usage_members members_of field is_version_one
    decode_array
decode_usage-encode u w = rw (
  decode_items-encode decode_sample encode_sample u.samples (every_sample u.samples),
  decode_items-encode decode_inflight encode_inflight u.inflight (every_slot u.inflight w),
)

-- Reading a usage file after writing it gives the usage back, when each slot has an identifier and no
-- process number is 0.
pub read-encode_usage :
    (u : BudgetUsage) → All IsWritten u.inflight → read_usage (holds (encode_usage u)) ≡ usage u
unfolding read_usage
read-encode_usage u w = rw (decode_usage-encode u w, read_usage)
