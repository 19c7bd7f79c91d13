-- ===== src/Clients.antt =====
-- The clients, modes and profiles of src/shared/protocol.ts, which access policies and budgets name, and
-- tables with at most one entry for each kind of client.
use Prim.Native.String.{String}
use dex_reach.Common.{
  ◌≡◌, refl, Bool, true, false, Option, none, List, [], ◌∷◌, if◌then◌else◌, arith,
}

pub data ReachProfile : Type 0 where
  read_only workspace_safe development repository_maintenance android_adb : ReachProfile
  remote_server full_local : ReachProfile

pub data AccessMode : Type 0 where
  off read_only on : AccessMode

pub data ClientKind : Type 0 where
  chatgpt claude smoke other : ClientKind

pub record RequestActor : Type 0 where
  pub kind : ClientKind
  pub client_id : String
  pub client_name : String

abbrev pub same_client : ClientKind → ClientKind → Bool
same_client chatgpt chatgpt = true
same_client claude claude = true
same_client smoke smoke = true
same_client other other = true
same_client _ _ = false

unfoldable pub client_name_of : ClientKind → String
client_name_of chatgpt = "chatgpt"
client_name_of claude = "claude"
client_name_of smoke = "smoke"
client_name_of other = "other"

-- `Partial<Record<ClientKind, A>>`
pub record PerClient {ℓ} (A : Type ℓ) : Type ℓ where
  pub for_chatgpt : Option A
  pub for_claude : Option A
  pub for_smoke : Option A
  pub for_other : Option A

module _ {ℓ} {A : Type ℓ} where
  -- `table[kind]`
  abbrev pub entry : ClientKind → PerClient A → Option A
  entry chatgpt t = t.for_chatgpt
  entry claude t = t.for_claude
  entry smoke t = t.for_smoke
  entry other t = t.for_other

  -- `{ ...table, [kind]: value }`, or without the key
  abbrev pub with_entry : ClientKind → Option A → PerClient A → PerClient A
  with_entry chatgpt a t = record t { for_chatgpt = a }
  with_entry claude a t = record t { for_claude = a }
  with_entry smoke a t = record t { for_smoke = a }
  with_entry other a t = record t { for_other = a }

  abbrev pub no_entries : PerClient A
  no_entries = record { for_chatgpt = none; for_claude = none; for_smoke = none; for_other = none }

  -- An entry is read back under its kind, and the others stay.
  pub entry-with_entry :
      (j k : ClientKind) (a : Option A) (t : PerClient A)
      → entry j (with_entry k a t) ≡ (if same_client k j then a else entry j t)
  entry-with_entry chatgpt chatgpt a t = refl
  entry-with_entry chatgpt claude a t = refl
  entry-with_entry chatgpt smoke a t = refl
  entry-with_entry chatgpt other a t = refl
  entry-with_entry claude chatgpt a t = refl
  entry-with_entry claude claude a t = refl
  entry-with_entry claude smoke a t = refl
  entry-with_entry claude other a t = refl
  entry-with_entry smoke chatgpt a t = refl
  entry-with_entry smoke claude a t = refl
  entry-with_entry smoke smoke a t = refl
  entry-with_entry smoke other a t = refl
  entry-with_entry other chatgpt a t = refl
  entry-with_entry other claude a t = refl
  entry-with_entry other smoke a t = refl
  entry-with_entry other other a t = refl

-- `CLIENT_KINDS`
abbrev pub client_kinds : List ClientKind
client_kinds = chatgpt ∷ claude ∷ smoke ∷ other ∷ []

pub same_client_lem : (j k : ClientKind) → same_client j k ≡ true → j ≡ k
same_client_lem chatgpt chatgpt h = refl
same_client_lem claude claude h = refl
same_client_lem smoke smoke h = refl
same_client_lem other other h = refl
same_client_lem chatgpt claude h = ground arith
same_client_lem chatgpt smoke h = ground arith
same_client_lem chatgpt other h = ground arith
same_client_lem claude chatgpt h = ground arith
same_client_lem claude smoke h = ground arith
same_client_lem claude other h = ground arith
same_client_lem smoke chatgpt h = ground arith
same_client_lem smoke claude h = ground arith
same_client_lem smoke other h = ground arith
same_client_lem other chatgpt h = ground arith
same_client_lem other claude h = ground arith
same_client_lem other smoke h = ground arith

pub same_client_refl : (k : ClientKind) → same_client k k ≡ true
same_client_refl chatgpt = refl
same_client_refl claude = refl
same_client_refl smoke = refl
same_client_refl other = refl
