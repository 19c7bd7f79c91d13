-- ===== src/Access/Assertions.antt =====
-- The owner's own assertions on a policy, and its history: src/shared/policy-assertions.ts.
--
-- The assertion file reads as a list, or is corrupt; a note is stored trimmed. A history line is kept as
-- the entry that it parses to. The digest of a state is the answer of the library that computes it.
use Prim.Native.String.{String}
use dex_reach.Common.{
  ℕ, ◌-◌, Bool, true, false, not, ◌&&◌, Option, none, some, List, [], ◌∷◌, ◌++◌, length, drop, find,
  any, all, select, is_empty, ltb, eqb, ◌==◌, text_eq, if◌then◌else◌,
}
use dex_reach.Common.Outcome.{Result, ok, err}
use dex_reach.Labels.{Text, codes}
use dex_reach.Clients.{AccessMode, off, on, ClientKind, entry, same_client}
use dex_reach.Tasks.{Capability, file_write, process_shell}
use dex_reach.Catalog.Risk.{same_capability}
use dex_reach.Catalog.Required.{includes, lies_under}
use dex_reach.Access.{CapabilityGrant, AccessState, rank}

pub record PolicyAssertion : Type 0 where
  pub id : String
  pub client : ClientKind
  pub forbid_capabilities : List Capability
  pub write_roots : List String
  pub note : Text
  pub created_at : ℕ

pub data AssertionFile : Type 0 where
  no_assertions corrupt_assertions : AssertionFile
  assertions : List PolicyAssertion → AssertionFile

pub data AssertionError : Type 0 where
  assertions_corrupt note_required nothing_asserted unknown_assertion : AssertionError

pub data AssertionFault : Type 0 where
  must_not_hold : String → Capability → AssertionFault
  unrestricted_shell write_roots_escape unrestricted_write : String → AssertionFault

unfoldable pub load_policy_assertions : AssertionFile → Result AssertionError (List PolicyAssertion)
load_policy_assertions no_assertions = ok []
load_policy_assertions corrupt_assertions = err assertions_corrupt
load_policy_assertions (assertions xs) = ok xs

-- The mode of the assertion's client, without the expiry.
unfoldable pub asserted_mode : AccessState → ClientKind → AccessMode
asserted_mode s client = elim (entry client s.clients) [
  | none ↦ s.mode
  | some ceiling ↦ if ltb (rank ceiling) (rank s.mode) then ceiling else s.mode
]

abbrev pub is_on : AccessMode → Bool
is_on off = false
is_on AccessMode.read_only = false
is_on on = true

-- A client that is on and needs no grant.
unfoldable pub is_unrestricted : AccessState → ClientKind → Bool
is_unrestricted s client =
    is_on (asserted_mode s client)
    && not (elim (entry client s.grant_required) [ none ↦ false | some b ↦ b ])

abbrev pub fault_when : Bool → AssertionFault → List AssertionFault
fault_when true e = e ∷ []
fault_when false e = []

unfoldable pub forbidden_faults :
    AccessState → String → ClientKind → List CapabilityGrant → List Capability → List AssertionFault
forbidden_faults s id client gs [] = []
forbidden_faults s id client gs (c ∷ cs) =
    fault_when (any (λ (g : CapabilityGrant). includes c g.capabilities) gs) (must_not_hold id c)
    ++ (fault_when (same_capability c process_shell && is_unrestricted s client)
          (unrestricted_shell id)
        ++ forbidden_faults s id client gs cs)

-- `root === base || root.startsWith(base + path.sep)`, for every root and some base
unfoldable pub roots_within : List String → List String → Bool
roots_within bases roots =
    all (λ root. any (λ base. lies_under (codes root) (codes base)) bases) roots

unfoldable pub root_faults : String → List String → List CapabilityGrant → List AssertionFault
root_faults id bases [] = []
root_faults id bases (g ∷ gs) =
    fault_when (includes file_write g.capabilities && not (roots_within bases g.roots))
      (write_roots_escape id)
    ++ root_faults id bases gs

unfoldable pub assertion_faults : AccessState → PolicyAssertion → List AssertionFault
assertion_faults s a =
    let gs = select (λ (g : CapabilityGrant). same_client g.client a.client) s.grants in
    forbidden_faults s a.id a.client gs a.forbid_capabilities
    ++ (if is_empty a.write_roots
        then []
        else root_faults a.id a.write_roots gs
          ++ fault_when (is_unrestricted s a.client) (unrestricted_write a.id))

unfoldable pub evaluate_custom_assertions : AccessState → List PolicyAssertion → List AssertionFault
evaluate_custom_assertions s [] = []
evaluate_custom_assertions s (a ∷ xs) = assertion_faults s a ++ evaluate_custom_assertions s xs

-- `addPolicyAssertion`, of an assertion with a fresh id, a trimmed note and resolved roots.
unfoldable pub add_policy_assertion :
    PolicyAssertion → AssertionFile → Result AssertionError AssertionFile
add_policy_assertion a f =
    if is_empty a.note
    then err note_required
    else (if is_empty a.forbid_capabilities && is_empty a.write_roots
        then err nothing_asserted
        else elim (load_policy_assertions f) [
          | err e ↦ err e
          | ok xs ↦ ok (assertions (xs ++ (a ∷ [])))
        ])

unfoldable pub clear_policy_assertion : String → AssertionFile → Result AssertionError AssertionFile
clear_policy_assertion id f = elim (load_policy_assertions f) [
  | err e ↦ err e
  | ok xs ↦
      if any (λ (a : PolicyAssertion). a.id == id) xs
      then ok (assertions (select (λ (a : PolicyAssertion). not (a.id == id)) xs))
      else err unknown_assertion
]

pub record PolicyHistoryEntry : Type 0 where
  pub revision : ℕ
  pub at : ℕ
  pub hash : String
  pub restored_from : Option ℕ
  pub state : AccessState

unfoldable pub append_policy_history :
    (AccessState → String)
    → AccessState
    → Option ℕ
    → ℕ
    → List PolicyHistoryEntry
    → List PolicyHistoryEntry
append_policy_history hash_value s restored_from now es =
    es
    ++ (record {
      revision = s.revision;
      at = now;
      hash = hash_value s;
      restored_from = restored_from;
      state = s;
    }
        ∷ [])

-- `entries.slice(-Math.max(1, limit))`
unfoldable pub list_policy_history : ℕ → List PolicyHistoryEntry → List PolicyHistoryEntry
list_policy_history limit es = drop (length es - (if eqb limit 0 then 1 else limit)) es

-- `historyEntry`
unfoldable pub history_entry : ℕ → List PolicyHistoryEntry → Option PolicyHistoryEntry
history_entry revision es =
    find (λ (e : PolicyHistoryEntry). eqb e.revision revision) (list_policy_history 10000 es)
