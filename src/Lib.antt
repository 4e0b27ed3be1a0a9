-- ===== src/Lib.antt =====
-- CodeSpace is a gateway that lets a remote agent work in the workspaces of one machine: it applies
-- patches, runs commands under a sandbox, holds both for a user's confirmation, and keeps a ledger of
-- what it did. The parts that decide (crates/domain: the types and errors, crates/policy: what a
-- workspace's profile allows, crates/store: locks, ledger, approvals, works, process records) stand
-- behind the server (crates/server), which sends executions to a runner (crates/runner) that owns the
-- processes.
--
-- This library models the core of the store, the policy, and the state that a runner keeps:
--
--   Prelude, Map     shared notation, lists, Boolean equality, and `HashMap` as an association list.
--                    A primary key's row in a database table is a value of such a map.
--   Domain           crates/domain/src/error.rs, patch.rs and approval.rs: error bodies, patch results
--                    and their events, the states of an approval and their names.
--   Occupancy        crates/store/src/resource.rs, and the guards of crates/store/src/lib.rs that give
--                    a lease back when they are dropped. `ResourceSerializer` is a record; each method
--                    takes it and returns its next value. One call holds the store's mutex from its
--                    beginning to its end, so an interleaving of users is a list of calls.
--   Approvals        crates/store/src/approvals.rs. `Row` keeps the columns of the table, the state and
--                    the tool as the texts that the source compares. A method that gives the connection
--                    up and takes it again (`claim_resume`, `finish_resume`,
--                    `settle_interrupted_resume`) has what other calls do meanwhile as an argument, or
--                    is two calls of a sequence.
--   Operations       crates/store/src/lib.rs: `begin`, `abandon`, `finish`, `get`, `status_lookup`.
--   Records          crates/store/src/processes.rs: the records of executions, what changes one, and
--                    `record_dispatch` with the approval that it resumes in one transaction.
--   Coordination     crates/store/src/coord.rs, crates/domain/src/work.rs and intent.rs: works and the
--                    intents that a user leaves for them, as two tables. Queries has what the methods
--                    read, Intents and Works the methods that write.
--   Policy           crates/policy/src/lib.rs, permission.rs and environment.rs: the registry of
--                    workspaces, what a profile permits, and the resolution of paths.
--   Control          crates/runner/src/wire.rs: which connection controls an independent runner. State
--                    has `take_control`, cut at its wait, `admit`, `reconciled` and `release`; Events
--                    is what happens to the control, one step under its lock at a time.
--   Wire             crates/runner/src/wire.rs: the envelopes and their frames in a stream of bytes, the
--                    answers of a connection that are kept for replay, and which requests the loops
--                    of `serve` and `connection` answer otherwise.
--   Runner           crates/runner/src/process.rs: the ring of a process's output, how its end is
--                    recorded, the slots of a runner and its memory; and the status that
--                    crates/server/src/mcp.rs makes of it, or crates/server/src/records.rs of the
--                    record of a process that the runner does not hold.
-- Within a component, Types (or Ledger) has the data, Methods, Serializer, Settle, Changes and Table
-- the operations; the other modules are named for what they prove. Approvals and Records share the
-- approvals table; Operations and Occupancy stand alone.
--
-- Numbers: ids are natural numbers with the source's wrap-around written out (`% 2 ^ 64` for waiters,
-- `% 2 ^ 32` for shared holders and for the counts of intents, `% 2 ^ 64` for the cursors of output
-- and the epochs of controllers).
-- Times and new ids are arguments of the methods that mint them. The loop of `claim_resume` runs on
-- fuel, and two rounds are shown to be enough for any calls in between. The loop of `wake` is a
-- recursion on the queue.
--
-- Parameters, for code that is not in the repository: the one-shot channels of tokio (`Oneshot`), and
-- the calls of serde_json (`Serde`, one for each table; the configuration of the registry), and what
-- resolve_path calls of std::path and the file system (`Paths`). What serde_json reads of a payload is
-- an argument of `parse_request`; errors of a stream other than its end do not occur. Their laws stand
-- where they are used. SQLite is not a parameter: a statement is written as what it does to the rows, a
-- unique index and a primary key as the test that refuses an INSERT; other database errors do not occur
-- in the model, nor do poisoned mutexes.
--
-- Not modelled: opening and migrating the database, SHA-256 fingerprints, `force_approval_state` (used
-- by tests only), `records_to_reconcile`; of the runner, the dispatch of requests, the forwarding of
-- events, the notes and the inventory of an accepted claim, the launch and admission of processes, and
-- what calls the operating system; the crates other than domain, store, policy and runner, but for that
-- status: they are handlers over these or adapters of other libraries. The async wrappers of `Store` are
-- their synchronous parts: `complete_acquire` and the drops of the guards.
pub mod Prelude
pub mod Map
pub mod Domain
pub mod Occupancy
pub mod Approvals
pub mod Operations
pub mod Records
pub mod Coordination
pub mod Policy
pub mod Runner
pub mod Control
pub mod Wire
