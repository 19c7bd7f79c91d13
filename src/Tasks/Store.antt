-- ===== src/Tasks/Store.antt =====
-- The document of src/node/task-store.ts, and what the operations of `NodeTaskStore` share: an
-- operation gives its answer and the document that is written, or the error with which it throws:
-- nothing is written then. The file lock around it is left out.
use Prim.Native.String.{String}
use dex_reach.Common.{ℕ, Bool, Option, none, some, List, [], ◌++◌, text_eq, nat_eq}
use dex_reach.Common.Outcome.{Result, ok, and_then, refuse}
use dex_reach.Labels.{Text}
use dex_reach.Tasks.{ReachTaskRecord, TaskError, read_only}
use dex_reach.Tasks.Table.{Table, lookup, values}

-- The document, less its index, which is a function of the two tables.
pub record TaskStoreDocument : Type 0 where
  pub records : Table ReachTaskRecord
  pub archived : Table ReachTaskRecord
  pub updated_at : ℕ

unfoldable pub empty_document : TaskStoreDocument
empty_document = record { records = []; archived = []; updated_at = 0 }

-- What the store takes from its host: the clock, a generated identity, the path test, the redaction of
-- texts, the quarantine log, and its own read-only mode.
pub record NodeHost : Type 0 where
  pub now : ℕ
  pub fresh_id : String
  pub is_absolute : Text → Bool
  pub redact : Text → Text
  pub is_quarantined : String → Bool
  pub compatibility_mode : Bool

abbrev pub Update : Type 0 → Type 0
Update A = TaskStoreDocument → Result TaskError (A × TaskStoreDocument)

-- `mutate`
unfoldable pub mutate : {A : Type 0} → NodeHost → Update A → Update A
mutate host f d =
    and_then (refuse host.compatibility_mode read_only)
      λ _. and_then (f d) λ r. ok (r.0, record r.1 { updated_at = host.now })

-- `document.records[id] ?? document.archived[id]`
unfoldable pub locate : String → TaskStoreDocument → Option ReachTaskRecord
locate id d = elim (lookup id d.records) [ some r ↦ some r | none ↦ lookup id d.archived ]

-- `Object.values({ ...records, ...archived })`, of tables that share no key.
unfoldable pub all_records : TaskStoreDocument → List ReachTaskRecord
all_records d = values d.records ++ values d.archived

abbrev pub or_else {ℓ} : {A : Type ℓ} → Option A → A → A
or_else (some a) b = a
or_else none b = b

-- An optional text as a condition: the empty one counts as absent.
abbrev pub truthy : Option String → Option String
truthy none = none
truthy (some String.[]) = none
truthy (some (String.◌∷◌ c s)) = some (String.◌∷◌ c s)
