-- ===== src/Tasks.antt =====
-- The durable task records of src/node/task-store.ts: their fields, the patterns of their texts, the
-- table of legal transitions and the conditions on a record.
--
-- A timestamp is an instant in milliseconds: the store writes them all itself, as `toISOString`.
-- `isAbsolute` and the redaction of status texts are parameters.
pub mod Table
pub mod Store
pub mod Create
pub mod Change
pub mod Sweep
pub mod Lifecycle
pub mod Keys
pub mod Steps
pub mod Sound
pub mod History
pub mod Preserve
pub mod Lineage
-- pub mod Identity
use dex_reach.Common.{
  ℕ, String, ◌≡◌, Bool, true, false, not, ◌&&◌, ◌||◌, Option, none, some, List, [], ◌∷◌, length,
  all, any, take, is_empty, leb, ltb, eqb, ◌==◌, text_eq, if◌then◌else◌,
}
use dex_reach.Common.Outcome.{Result, ok, err, and_then, refuse}
use dex_reach.Labels.{Text, codes, in_range, is_alnum, is_hex, is_upper, is_task_id}

pub data TaskState : Type 0 where
  accepted preparing running input_required ambiguous completed failed cancelled reconciled :
      TaskState

unfoldable pub is_terminal : TaskState → Bool
is_terminal completed = true
is_terminal failed = true
is_terminal cancelled = true
is_terminal reconciled = true
is_terminal _ = false

-- The table `allowed[from].includes(to)`.
unfoldable pub legal_transition : TaskState → TaskState → Bool
legal_transition accepted preparing = true
legal_transition accepted cancelled = true
legal_transition preparing running = true
legal_transition preparing cancelled = true
legal_transition preparing failed = true
legal_transition running input_required = true
legal_transition running ambiguous = true
legal_transition running completed = true
legal_transition running failed = true
legal_transition running cancelled = true
legal_transition input_required running = true
legal_transition input_required cancelled = true
legal_transition ambiguous reconciled = true
legal_transition ambiguous cancelled = true
legal_transition _ _ = false

abbrev pub max_depth : ℕ
max_depth = 8

pub data Capability : Type 0 where
  inspect file_read file_write checkpoint process_shell compat secret_use : Capability

pub record TaskAuthority : Type 0 where
  pub capabilities : List Capability
  pub paths : List String

pub record TaskRepoContext : Type 0 where
  pub canonical_repo : Text
  pub repo_path : Text
  pub worktree_branch : Text
  pub base_sha : Text
  pub lease_id : Text

pub record ReachTaskRecord : Type 0 where
  pub task_id : String
  pub root_task_id : String
  pub parent_task_id : Option String
  pub task_depth : ℕ
  pub lineage_index : ℕ
  pub actor_id : String
  pub node_id : String
  pub operation : String
  pub safety_class : Option String
  pub mutation_level : Option String
  pub state : TaskState
  pub attempt_number : ℕ
  pub attempt_budget : ℕ
  pub created_at : ℕ
  pub updated_at : ℕ
  pub idempotency_key : String
  pub payload_sha256 : Text
  pub policy_hash : Option Text
  pub authority : Option TaskAuthority
  pub trace_id : Option Text
  pub result_ref : Option Text
  pub result_hash : Option Text
  pub failure_class : Option Text
  pub repo_context : Option TaskRepoContext
  pub status : Text
  pub archived_at : Option ℕ

pub data TaskError : Type 0 where
  invalid_task_id invalid_id invalid_hash invalid_repo_context invalid_depth : TaskError
  invalid_attempt_budget invalid_trace_id unsafe_status invalid_authority : TaskError
  read_only quarantined update_is_empty status_too_long archived_is_immutable : TaskError
  task_not_found identity_exists identity_conflicts idempotency_key_exists : TaskError
  parent_not_found root_mismatch depth_mismatch cancellation_unproven not_terminal : TaskError
  illegal_transition : TaskState → TaskState → TaskError

-- `/^[A-Za-z0-9][…]{0,127}$/` with the characters after the first given by a test.
abbrev pub is_identifier : (ℕ → Bool) → Text → Bool
is_identifier p [] = false
is_identifier p (c ∷ cs) = is_alnum c && (all p cs && leb (length cs) 127)

-- `SAFE_ID`
unfoldable pub is_safe_id : Text → Bool
is_safe_id t =
    is_identifier (λ c. is_alnum c || (eqb c b'.' || (eqb c b'_' || (eqb c b':' || eqb c b'-')))) t

-- `SAFE_OPERATION`
unfoldable pub is_safe_operation : Text → Bool
is_safe_operation t =
    is_identifier (λ c. is_alnum c || (eqb c b'.' || (eqb c b'_' || eqb c b'-'))) t

-- `[0-9a-f]` under the `i` flag.
unfoldable pub is_hex_any_case : ℕ → Bool
is_hex_any_case c = is_hex c || in_range b'A' b'F' c

-- `HASH_PATTERN`
unfoldable pub is_hash : Text → Bool
unfolding is_hex_any_case
is_hash t = eqb (length t) 64 && all is_hex_any_case t

abbrev pub optional {ℓ} : {A : Type ℓ} → (A → Bool) → Option A → Bool
optional p none = true
optional p (some a) = p a

-- `includes('..')`
unfoldable pub has_dots : Text → Bool
has_dots [] = false
has_dots (c ∷ []) = false
has_dots (c ∷ d ∷ cs) = eqb c b'.' && eqb d b'.' || has_dots (d ∷ cs)

-- `assertRepoContext`
unfoldable pub is_repo_context : (Text → Bool) → TaskRepoContext → Bool
unfolding is_safe_id has_dots is_hex_any_case
is_repo_context is_absolute c =
    is_absolute c.repo_path
    && (not (is_empty c.repo_path)
        && (not (is_empty c.canonical_repo)
            && (leb (length c.canonical_repo) 160
                && (not (is_empty c.worktree_branch)
                    && (leb (length c.worktree_branch) 200
                        && (not (has_dots c.worktree_branch)
                            && (leb 7 (length c.base_sha)
                                && (leb (length c.base_sha) 128
                                    && (all is_hex_any_case c.base_sha
                                        && is_safe_id c.lease_id)))))))))

unfoldable pub is_authority : TaskAuthority → Bool
is_authority a =
    not (is_empty a.capabilities)
    && (leb (length a.paths) 128 && all (λ p. leb (length (codes p)) 4096) a.paths)

-- `validateRecord`, of a record whose fields have their types.
unfoldable pub validate_record : (Text → Bool) → ReachTaskRecord → Result TaskError (Unit {0})
validate_record is_absolute r =
    and_then
      (refuse (not (is_task_id (codes r.task_id) && is_task_id (codes r.root_task_id)))
        invalid_task_id)
      λ _.
        and_then
          (refuse
            (not (optional (λ p. is_empty (codes p) || is_task_id (codes p)) r.parent_task_id))
            invalid_task_id)
          λ _. and_then (refuse (ltb max_depth r.task_depth) invalid_depth) λ _.
            and_then
              (refuse (not (is_safe_id (codes r.actor_id) && is_safe_id (codes r.node_id)))
                invalid_id)
              λ _. and_then (refuse (not (is_safe_operation (codes r.operation))) invalid_id) λ _.
                and_then
                  (refuse
                    (not (eqb r.attempt_number 1)
                      || (ltb r.attempt_budget 1 || ltb 100 r.attempt_budget))
                    invalid_attempt_budget)
                  λ _.
                    and_then (refuse (not (is_safe_id (codes r.idempotency_key))) invalid_id) λ _.
                      and_then
                        (refuse
                          (not (
                            is_hash r.payload_sha256
                            && (optional is_hash r.policy_hash && optional is_hash r.result_hash)))
                          invalid_hash)
                        λ _.
                          and_then
                            (refuse
                              (not (
                                optional is_safe_id r.result_ref
                                && optional is_safe_id r.failure_class))
                              invalid_id)
                            λ _.
                              and_then
                                (refuse
                                  (not (
                                    optional (λ t. eqb (length t) 32 && all is_hex_any_case t)
                                      r.trace_id))
                                  invalid_trace_id)
                                λ _.
                                  and_then (refuse (ltb 240 (length r.status)) unsafe_status) λ _.
                                    and_then
                                      (refuse (not (optional is_authority r.authority))
                                        invalid_authority)
                                      λ _.
                                        refuse
                                          (not
                                            (optional (is_repo_context is_absolute) r.repo_context))
                                          invalid_repo_context
