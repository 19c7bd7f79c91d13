-- ===== src/Lib.antt =====
-- DEX//REACH: the machine capacity model, the work coordinator, the task store, the execution budgets and
-- the access policy.
--
-- A DEX//REACH node runs pieces of work for several agents on one machine and on shared repositories.
-- These parts of it are modelled here, each with what it promises.
--
-- Machine capacity (Capacity, Labels, Bundle). `evaluateCapacity` in src/shared/machine-capacity.ts
-- turns a probe of the host and counts of running work into slots, pressures and a list of refusals.
-- Capacity holds the tables, Capacity/Evaluate that function, Capacity/Slots and Capacity/Admits their
-- laws. Capacity/Health is src/shared/capacity-profile.ts, which lets the interactive profile take
-- effect after a sustained healthy time, and Capacity/Sustained its law. Labels
-- is the text checking of src/shared/work-coordinator.ts (`sanitizeLabel` and the patterns of
-- identifiers), Bundle is src/shared/work-bundle.ts.
--
-- Work coordinator (Coordinator). src/shared/work-coordinator.ts keeps one file for each lease and each
-- queue ticket in two directories, and a bounded event history. Coordinator holds the records and
-- `readCoordinatorState`; Coordinator/Decide is `decideAdmission`, one definition for each group of
-- reasons; Coordinator/Events is `recordWorkEvent` and `readWorkEvents`; Coordinator/Store is the state
-- (World: two directories and the history), the parameters (Host) and the monad in which the operations
-- run; Coordinator/Operations is `acquireWork`, Coordinator/Claims is `releaseWork`, `heartbeat`,
-- `cancelTicket` and `workStatus`. Admission, Fairness, Release, Events/Order and Exclusion hold proofs:
-- Fairness/Place about the place of a new ticket, Exclusion/Files and Exclusion/Shrink about the
-- directories, Exclusion/Grant and Exclusion/Prune about steps, Exclusion/Reach about each operation,
-- Exclusion/History about sequences of requests.
--
-- Task store (Tasks). src/node/task-store.ts keeps one document of active and archived task records.
-- Tasks holds the records, the transition table and the conditions on a record (`validateRecord`);
-- Tasks/Table is the object keyed by task id, Tasks/Store the document and `mutate`, Tasks/Create
-- `create` and `read`, Tasks/Change `update` and `transition`, Tasks/Sweep `archive`, `sweep` and
-- `loadActiveTasks`. Tasks/Lifecycle joins the operations in one data type and says what they do to a
-- record, Tasks/Steps to the two tables; Tasks/Keys, Tasks/Sound, Tasks/Lineage and Tasks/Preserve
-- carry the consistency of the document through each step, and Tasks/History states it for histories.
--
-- Operation catalog (Catalog). src/shared/operations.ts lists the operations and the tools of the
-- compatibility adapter. Catalog holds both tables and the lookups, Catalog/Risk the classes of risk,
-- Catalog/Cost what a request asks for (`requestedAuthorityCost`), Catalog/Cost/Wrapped its law for calls
-- through the adapter, Catalog/Required the capabilities and
-- the paths of a request (src/shared/capabilities.ts, with `pathAllowed` and `extractPaths` of
-- src/shared/security.ts and `requestNamesSecrets` of src/shared/secrets.ts).
--
-- Budgets (Budget). Budget holds the rules and policies of src/shared/budget-policy.ts, Budget/Policy the
-- file and the owner's changes, Budget/Usage the counters and the reservation of
-- src/shared/budget-usage.ts; a Codec below each is what its file is read from and written to.
-- Budget/Usage/Window, Refusal and Spending are lemmas on windows, refusals and one reservation, and
-- Budget/Usage/Ledger is about sequences of reservations and releases, and Budget/Usage/Recovery about
-- what is granted after a time.
--
-- Access policy (Access). src/shared/access.ts decides who may run what. Access holds the state, the grants,
-- `authorizeOperation` and `policyCheck`; Access/Assertions is src/shared/policy-assertions.ts;
-- Access/Store the policy file (`saveAccessState`, `updateAccessState`, `consumeGrant`,
-- `restorePolicyRevision`), Access/Reserve is `reserveOperation`, which joins the decision, the budget and
-- the use of a grant, Access/Control `authorizeTaskControl`, Access/Duration `parseDuration` and
-- `classifyClient`. Access/Laws, Access/Lapse and Access/Revisions are about decisions, timed modes and
-- writers; Access/Reserve/Uses, Counted, Slots and Reopened about reservations. Clients holds the kinds of client,
-- modes and profiles of src/shared/protocol.ts, Json parsed JSON.
--
-- Common holds what the parts share: Boolean tests and lists over native numbers (Common/Tests,
-- Common/Lists) and the result type of code that throws (Common/Outcome). Tests runs the definitions on
-- small inputs.
--
-- Conventions and bounds. Byte and processor counts are natural numbers, and a value that is not finite
-- is 0, which the code treats as not observed. A load average is counted in units of 1/65536, and the
-- shares 0.75 and 0.6 are 3/4 and 3/5, which agrees with the code below 2^50 bytes. A stored time is an
-- instant in milliseconds or a text that does not parse; the second sorts after the first. A reason or
-- an error is a constructor where the code has a text. An absent field and a null one are one value. A
-- directory is a list of names with entries in the order of `readdir`; a new file goes to its end. No
-- definition runs on fuel: all recursion is on lists.
--
-- Parameters. The clock, generated identifiers, the SHA-256 of a path, the canonical root of a
-- repository, whether a process is alive, and the observed capacity are arguments or fields of Host. The
-- canonical form of a path is a field of PathHost, the digest of a policy of AccessHost, and the number
-- that a text stands for of CostHost, with the cost of an inspection (src/shared/repo-inspection.ts).
--
-- Not modelled. An operation of the coordinator or of the store holds a file lock, so it is one step
-- here; waiting for the lock and failing to take it are left out. The parsing of a stored JSON file is
-- the entry's constructor (parsed, malformed, unreadable), and the task document is taken as parsed: its
-- index, which is computed from the two tables, its text, and `list`, which reads by the index, are left
-- out, with the task events that follow a write. A policy of access and its assertions are taken as
-- decoded: a file of them is a state, missing or corrupt. A budget file is a JSON tree without negative
-- numbers and fractions, its version is 1 as a number, as `true` or as the text "1", and a client's kind
-- in it is a text. The arguments of a request are a JSON tree without two members of one key. The budget lock
-- is one call at a time. The gateway, the command line, the adapters and the logs of evidence are not
-- part of the development. The redaction of texts, the test of an absolute path and the quarantine log
-- are fields of NodeHost.
pub mod Common
pub mod Capacity
pub mod Labels
pub mod Bundle
pub mod Coordinator
pub mod Tasks
pub mod Clients
pub mod Json
pub mod Budget
pub mod Catalog
pub mod Access
mod Tests
