-- ===== src/Budget/Policy/Codec.antt =====
-- A budget policy that src/shared/budget-policy.ts writes is the policy that it reads.
use Prim.Native.String.{String}
use dex_reach.Common.{
  ℕ, ◌≡◌, refl, ◌∙◌, ap, Bool, true, false, Option, none, some, eqb, ◌==◌, text_eq, arith,
}
use dex_reach.Json.{Json, string, Members, end, field, members_of, holds}
use dex_reach.Clients.{ClientKind, chatgpt, claude, smoke, other, PerClient, entry, client_name_of}
use dex_reach.Budget.{BudgetRule, BudgetPolicy}
use dex_reach.Budget.Policy.{
  non_negative_int_or_null, number_or_null, window_of, id_or, bind, decode_members, decode_rule,
  decode_client, is_version_one, decode_shared, revision_of, text_or_epoch, clients_of,
  decode_policy_members, decode_policy, load_budget_policy, inspect_budget_policy, encode_rule,
  encode_client, encode_shared, encode_policy,
}

abbrev pub is_blank : String → Bool
is_blank String.[] = true
is_blank (String.◌∷◌ c s) = false

-- A rule that `makeBudgetRule` may have made: its window is positive, and it has a name.
pub record IsStorable (r : BudgetRule) : Type 0 where
  pub positive : eqb r.window_ms 0 ≡ false
  pub named : is_blank r.id ≡ false

abbrev pub StorableIf : Option BudgetRule → Type 0
StorableIf none = Unit
StorableIf (some r) = IsStorable r

-- Each rule of the policy may be stored.
pub record AllStorable (p : BudgetPolicy) : Type 0 where
  pub shared : StorableIf p.shared
  pub client : (k : ClientKind) → StorableIf (entry k p.clients)

int-number_or_null : (o : Option ℕ) → non_negative_int_or_null (some (number_or_null o)) ≡ some o
unfolding non_negative_int_or_null number_or_null
int-number_or_null none = refl
int-number_or_null (some n) = refl

id_or-string : (fallback s : String) → is_blank s ≡ false → id_or fallback (some (string s)) ≡ s
unfolding id_or
id_or-string fallback String.[] h = ground arith
id_or-string fallback (String.◌∷◌ c s) h = refl

pub decode_rule-encode :
    (r : BudgetRule) (fallback : String)
    → IsStorable r
    → decode_rule (encode_rule r) fallback ≡ some r
unfolding decode_rule encode_rule members_of decode_members field window_of
decode_rule-encode r fallback w = rw (
  w.positive,
  int-number_or_null r.max_operations,
  int-number_or_null r.max_mutations,
  int-number_or_null r.max_shell_calls,
  int-number_or_null r.max_requested_write_bytes,
  int-number_or_null r.max_requested_process_ms,
  int-number_or_null r.max_concurrent,
  id_or-string fallback r.id w.named,
)

abbrev encoded : Option BudgetRule → Option Json
encoded none = none
encoded (some r) = some (encode_rule r)

field-encode_same :
    (k : ClientKind) (o : Option BudgetRule) (ms : Members)
    → field (client_name_of k) ms ≡ none
    → field (client_name_of k) (encode_client k o ms) ≡ encoded o
unfolding encode_client field client_name_of
field-encode_same k none ms h = h
field-encode_same chatgpt (some r) ms h = rw h
field-encode_same claude (some r) ms h = rw h
field-encode_same smoke (some r) ms h = rw h
field-encode_same other (some r) ms h = rw h

field-encode_other :
    (name : String) (j : ClientKind) (o : Option BudgetRule) (ms : Members)
    → (client_name_of j == name) ≡ false
    → field name (encode_client j o ms) ≡ field name ms
unfolding encode_client field
field-encode_other name j none ms h = refl
field-encode_other name j (some r) ms h = ground arith

-- The members of `clients` that are written.
abbrev client_members : PerClient BudgetRule → Members
client_members cs = encode_client chatgpt cs.for_chatgpt (
    encode_client claude cs.for_claude
      (encode_client smoke cs.for_smoke (encode_client other cs.for_other end)))

field-client_members :
    (k : ClientKind) (cs : PerClient BudgetRule)
    → field (client_name_of k) (client_members cs) ≡ encoded (entry k cs)
unfolding field client_name_of
field-client_members chatgpt cs = field-encode_same chatgpt cs.for_chatgpt _ (
    field-encode_other "chatgpt" claude cs.for_claude _ refl
    ∙ field-encode_other "chatgpt" smoke cs.for_smoke _ refl
    ∙ field-encode_other "chatgpt" other cs.for_other end refl)
field-client_members claude cs =
    field-encode_other "claude" chatgpt cs.for_chatgpt _ refl
    ∙ field-encode_same claude cs.for_claude _ (
        field-encode_other "claude" smoke cs.for_smoke _ refl
        ∙ field-encode_other "claude" other cs.for_other end refl)
field-client_members smoke cs =
    field-encode_other "smoke" chatgpt cs.for_chatgpt _ refl
    ∙ field-encode_other "smoke" claude cs.for_claude _ refl
    ∙ field-encode_same smoke cs.for_smoke _
        (field-encode_other "smoke" other cs.for_other end refl)
field-client_members other cs =
    field-encode_other "other" chatgpt cs.for_chatgpt _ refl
    ∙ field-encode_other "other" claude cs.for_claude _ refl
    ∙ field-encode_other "other" smoke cs.for_smoke _ refl
    ∙ field-encode_same other cs.for_other end refl

decode_client-encoded :
    (k : ClientKind) (o : Option BudgetRule) (ms : Members)
    → StorableIf o
    → field (client_name_of k) ms ≡ encoded o
    → decode_client k (some ms) ≡ some o
unfolding decode_client
decode_client-encoded k none ms w h = rw (h, decode_client)
decode_client-encoded k (some r) ms w h =
    rw (h, decode_client, decode_rule-encode r (client_name_of k) w)

shared_rule : (r : BudgetRule) → IsStorable r → decode_shared (some (encode_rule r)) ≡ some (some r)
unfolding decode_shared encode_rule
shared_rule r w =
    let wrap : Option BudgetRule → Option (Option BudgetRule) = λ o. bind o λ x. some (some x) in
    let q : decode_shared (some (encode_rule r)) ≡ wrap (decode_rule (encode_rule r) "shared") =
      refl in
    q ∙ ap wrap (decode_rule-encode r "shared" w)

decode_shared-encode :
    (o : Option BudgetRule) → StorableIf o → decode_shared (some (encode_shared o)) ≡ some o
unfolding decode_shared encode_shared
decode_shared-encode none w = refl
decode_shared-encode (some r) w = shared_rule r w

decode_policy-encode : (p : BudgetPolicy) → AllStorable p → decode_policy (encode_policy p) ≡ some p
unfolding decode_policy encode_policy decode_policy_members members_of field is_version_one
    clients_of revision_of text_or_epoch
decode_policy-encode p w =
    let one = λ (k : ClientKind).
      decode_client-encoded k (entry k p.clients) (client_members p.clients) (w.client k)
        (field-client_members k p.clients) in
    rw (one chatgpt, one claude, one smoke, one other, decode_shared-encode p.shared w.shared)

read_policy :
    (now : String) (v : Json) {p : BudgetPolicy}
    → decode_policy v ≡ some p
    → load_budget_policy now (holds v) ≡ p
unfolding load_budget_policy inspect_budget_policy
read_policy now v e = rw (e, load_budget_policy, inspect_budget_policy)

-- Reading a policy after writing it gives the policy back, when each of its rules has a positive window
-- and a name.
pub load-encode_policy :
    (p : BudgetPolicy) (now : String)
    → AllStorable p
    → load_budget_policy now (holds (encode_policy p)) ≡ p
load-encode_policy p now w = read_policy now (encode_policy p) (decode_policy-encode p w)
