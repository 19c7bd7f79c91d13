-- ===== src/Access/Store.antt =====
-- The policy file of src/shared/access.ts: who may replace it, and the use of a grant.
--
-- The file reads as a state, is missing, or is corrupt. The file lock is one call at a time.
use Prim.Native.String.{String}
use dex_reach.Common.{
  ℕ, suc, Bool, true, false, not, ◌&&◌, ◌||◌, Option, none, some, List, [], ◌∷◌, find, is_empty,
  eqb, ◌==◌, text_eq, if◌then◌else◌,
}
use dex_reach.Common.Outcome.{Result, ok, err, and_then}
use dex_reach.Clients.{AccessMode, off}
use dex_reach.Coordinator.{instant}
use dex_reach.Catalog.Required.{PathHost}
use dex_reach.Access.{
  CapabilityGrant, AccessState, default_access_state, is_past, has_uses, AccessFault, policy_check,
}
use dex_reach.Access.Assertions.{
  AssertionFault, AssertionFile, load_policy_assertions, AssertionError, evaluate_custom_assertions,
  PolicyHistoryEntry, append_policy_history, history_entry,
}

pub data AccessFile : Type 0 where
  no_policy corrupt_policy : AccessFile
  policy : AccessState → AccessFile

-- The policy and its history.
pub record AccessStore : Type 0 where
  pub file : AccessFile
  pub history : List PolicyHistoryEntry

pub record AccessHost : Type 0 where
  pub paths : PathHost
  pub initial_access : Option AccessMode
  pub hash_value : AccessState → String
  pub assertion_file : AssertionFile

pub data AccessError : Type 0 where
  policy_corrupt stale_revision grant_spent no_revision : AccessError
  assertions_unreadable : AssertionError → AccessError
  assertions_failed : List AccessFault → List AssertionFault → AccessError

pub record AccessRead : Type 0 where
  pub state : AccessState
  pub exists : Bool
  pub valid : Bool

-- `readAccessStateUnlocked`: a corrupt file reads as a state that is off.
unfoldable pub read_access_state : Option AccessMode → ℕ → AccessFile → AccessRead
read_access_state initial now no_policy = record {
  state = default_access_state initial now;
  exists = false;
  valid = true;
}
read_access_state initial now corrupt_policy = record {
  state = record (default_access_state initial now) { mode = off };
  exists = true;
  valid = false;
}
read_access_state initial now (policy s) = record { state = s; exists = true; valid = true }

unfoldable pub load_access_state : AccessHost → ℕ → AccessStore → AccessState
load_access_state host now store = (read_access_state host.initial_access now store.file).state

-- The state that is written: a revision and the time.
abbrev pub stamped : AccessState → ℕ → ℕ → AccessState
stamped s revision now = record s { revision = revision; updated_at = instant now }

-- What keeps a state from being written.
unfoldable pub write_refusal : AccessHost → AccessState → ℕ → Option AccessError
write_refusal host next now = elim (load_policy_assertions host.assertion_file) [
  | err e ↦ some (assertions_unreadable e)
  | ok xs ↦
      if is_empty (policy_check host.paths next now)
        && is_empty (evaluate_custom_assertions next xs)
      then none
      else some (
          assertions_failed (policy_check host.paths next now) (evaluate_custom_assertions next xs))
]

-- The history gets the state, unless the write is one that leaves it alone.
unfoldable pub recorded :
    AccessHost
    → Bool
    → Option ℕ
    → AccessState
    → ℕ
    → List PolicyHistoryEntry
    → List PolicyHistoryEntry
recorded host true restored_from next now es =
    append_policy_history host.hash_value next restored_from now es
recorded host false restored_from next now es = es

-- `writeAccessStateUnlocked`
unfoldable pub write_access_state :
    AccessHost
    → Bool
    → Option ℕ
    → AccessState
    → ℕ
    → ℕ
    → AccessStore
    → Result AccessError AccessStore
write_access_state host record_history restored_from s revision now store =
    elim (write_refusal host (stamped s revision now) now) [
      | some e ↦ err e
      | none ↦ ok record {
        file = policy (stamped s revision now);
        history =
            recorded host record_history restored_from (stamped s revision now) now store.history;
      }
    ]

-- The revision of the next state, after the file that was read.
unfoldable pub next_revision : AccessRead → AccessState → ℕ
next_revision current s = if current.exists then suc current.state.revision else suc s.revision

-- `saveAccessState`
unfoldable pub save_access_state :
    AccessHost → AccessState → ℕ → AccessStore → Result AccessError AccessStore
save_access_state host s now store =
    let current = read_access_state host.initial_access now store.file in
    if current.exists && not current.valid
    then err policy_corrupt
    else (if current.exists && not (eqb s.revision current.state.revision)
        then err stale_revision
        else write_access_state host true none s (next_revision current s) now store)

-- `updateAccessState`; the change may throw.
unfoldable pub update_access_state :
    AccessHost
    → Bool
    → Option ℕ
    → (AccessState → Result AccessError AccessState)
    → ℕ
    → AccessStore
    → Result AccessError AccessStore
update_access_state host record_history restored_from mutate now store =
    let current = load_access_state host now store in
    and_then (mutate current) (λ proposed.
      write_access_state host record_history restored_from proposed (suc current.revision) now
        store)

abbrev pub used_once : CapabilityGrant → CapabilityGrant
used_once g = record g { uses = suc g.uses }

unfoldable pub use_grant : String → List CapabilityGrant → List CapabilityGrant
use_grant id [] = []
use_grant id (g ∷ gs) = (if g.id == id then used_once g else g) ∷ use_grant id gs

abbrev pub find_grant : String → List CapabilityGrant → Option CapabilityGrant
find_grant id gs = find (λ (g : CapabilityGrant). g.id == id) gs

-- The grant with the id, unless it is missing, expired or exhausted.
unfoldable pub is_spent : String → ℕ → AccessState → Bool
is_spent id now s = elim (find_grant id s.grants) [
  | none ↦ true
  | some g ↦ is_past now g.until || not (has_uses g)
]

unfoldable pub use_once : String → ℕ → AccessState → Result AccessError AccessState
use_once id now s =
    if is_spent id now s then err grant_spent else ok (record s { grants = use_grant id s.grants })

-- `consumeGrant`; the empty id is none.
unfoldable pub consume_grant :
    AccessHost → Option String → ℕ → AccessStore → Result AccessError AccessStore
consume_grant host none now store = ok store
consume_grant host (some id) now store =
    if id == "" then ok store else update_access_state host false none (use_once id now) now store

-- `restorePolicyRevision`
unfoldable pub restore_policy_revision :
    AccessHost → ℕ → ℕ → AccessStore → Result AccessError AccessStore
restore_policy_revision host revision now store = elim (history_entry revision store.history) [
  | none ↦ err no_revision
  | some e ↦ update_access_state host true (some revision) (λ s. ok e.state) now store
]

-- `inspectAccessPolicyFile`
pub data PolicyInspection : Type 0 where
  closed_missing closed_corrupt sound : PolicyInspection
  unreadable_assertions : AssertionError → PolicyInspection
  faulty : List AccessFault → List AssertionFault → PolicyInspection

unfoldable pub inspect_access_policy_file : AccessHost → ℕ → AccessFile → PolicyInspection
inspect_access_policy_file host now no_policy = closed_missing
inspect_access_policy_file host now corrupt_policy = closed_corrupt
inspect_access_policy_file host now (policy s) = elim (write_refusal host s now) [
  | none ↦ sound
  | some (assertions_unreadable e) ↦ unreadable_assertions e
  | some (assertions_failed es fs) ↦ faulty es fs
  | some _ ↦ sound
]
