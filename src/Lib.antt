-- ===== src/Lib.antt =====
-- relay-flow: a durable runner of ticket workflows. A workflow definition is submitted, validated and
-- stored; a run of it walks the graph of nodes, and at each node an agent sends a report that names
-- the next step; a projection in SQLite keeps what the operator sees of every run.
--
-- Which file models what:
--   Prelude: shared types, Boolean tests, the error result and lemmas on lists and checks.
--   Config: raw configuration values and `rejectNullValues` of internal/workflow/workflow.go.
--   Workflow: internal/workflow/workflow.go. The records of a definition and the queries
--     `StartTarget` and `Routes`. Name is `namePattern`; Nudge the templates (`nudgeVarPattern`,
--     `RenderNudge`), and Nudge/Renders says what they render to without a pattern; Health
--     `IsRoutable` and the `Mark` methods; Reach the walk of `validateReachability`; Validate the
--     checks of `Validate` in their order; Report `ValidateReport` of internal/workflow/report.go.
--     Workflow/Accepted combines them: what the interpreter relies on once a definition is accepted.
--   Run: the values of internal/run/run.go; States the tests `terminalState` and `activeState` of
--     internal/run/manager.go.
--   Identity: internal/identity/identity.go, over code points.
--   Repo: tickets, task systems (as the interface their callers see), bindings and repos of
--     internal/task/task.go and internal/repo/repo.go; Bind is `bindWorkflows`, in its strict and its
--     isolated form. Service are `Register` and `Remove` of internal/repo/service.go over the machine
--     configuration; Accepts is about what `Register` has checked, Distinct about what both keep.
--   Router: `ResolveWorkflow` of internal/router/router.go, in the order of its loops.
--   Manager: `RunManager` of internal/run/manager.go. Ensure is `EnsureRun`, which records the calls
--     of adapters and executor on the way to its result; Restart is `RestartByTicket` (what it
--     decides, and then what it does) and `CancelByTicket`.
--   Projection: internal/execution/projection/projection.go. Table is what the SQL statements do to
--     a table (`update_where` for UPDATE, `affected` for the rows affected, `upsert` and
--     `insert_new` for the two ON CONFLICT clauses); Runs, Steps and Runtimes are the tables with
--     one function for each operation; Db the operations over several tables, and all writes as the
--     constructors of one type. Fences, Timeline, Sessions, Retention and Latest hold the
--     theorems; Unique is about the identities of the rows.
--   Interpreter: `runGraph` of internal/execution/goworkflows/interpreter.go, as a function of the
--     signals that arrive, with the log of the activities that it schedules. Rounds holds its
--     invariants, Duplicates what a signal that arrives again does. Interpreter/Retry is
--     `retryLoop`, on a list of how its attempts go.
--   Store: internal/workflow/store.go. Disk is the file system as the store sees it: every access
--     takes a fate from a schedule and works, fails, fails after the rename, or is the last of the
--     process. Files are the operations; Recovery and Crashes are about `recoverTransactions`,
--     Replace about `Put` and `Remove`, Compensation about `restorePair`, Startup about a recovery
--     that works. Load is `LoadAllRecords`: Hex is about sums, Trust about what becomes routable.
--   Registry: the `Registry` of internal/workflow/store.go. Laws are its methods one by one; Refines
--     takes any sequence of them to a function from names to workflows.
--   Service: internal/workflow/service.go, over Store, Registry and the strict form of Repo/Bind, as
--     cmd/relay-flow/serve.go wires them. Accepts are the checks before a change, Bindings is about
--     the rebind, Outcomes and Changes about one change with its way back, WayBack about the registry
--     entry that returns, Submits and Removes about the two operations, Restart about a start-up
--     after a submission.
--   Engine: internal/execution/goworkflows/engine.go. Instances are `instance`, `lookupInstance` and
--     `workflowOf`; Ensure is `EnsureRun`, Reports `SubmitReport` (Answers is about what an answer
--     says, Exact about when it is given), Cancel `CancelRun` with its reconciliation
--     (`reconcileCancellation` and what it calls, `FinalizeNodeRuntimes` of activities.go included),
--     Details `GetRunDetail`. Under Cancel, Rows are about the rows of runs, History about the events
--     of a finished execution, Terminals, Cleared, GivenUp and Cleanup about the cleanup; Outcomes are
--     what a call can come to, and Reconcile and Decides about the whole. The workflow library with
--     its tables and the adapters are the record `Outside`, over a state of its own; the projection is
--     the one of Projection.
--   Detail: internal/run/detail.go, the details of a run as they are shown, and the pending steps that
--     `AddPendingNodes` adds. Rows are about one such step, Counts about the nodes that are left,
--     Pending about `appendPending`, Extends about the whole. Derive is `DeriveInspectionFields`, with
--     `getDetail` and `listSteps` of the projection; Progress and Order are about them.
--   Tests: concrete inputs.
--
-- A duration is kept as the 64 bits of its int64, a negative one included; it is tested for 0, and
-- where it is negative it counts as 0 in a sum. A sum of durations keeps the wrap-around of an int64;
-- sequences and the counts of steps stay far below that. The number of an attempt is a uint64 that
-- the projection stores and orders as an int64: it is kept as its 64 bits, ordered with the sign, and
-- read as 1 where it is not positive.
--
-- A Go map is the list of its entries, and code that ranges over one goes through them in list
-- order. Errors carry the names that their texts quote, not the texts. Times are numbers. Text that
-- a pattern reads is the list of its code points.
--
-- Bounds and fuel: the walk of `validateReachability` runs on one unit of fuel more than there are
-- edges, and each entry of the queue comes from an edge or is `start`. `appendPending` runs on one unit
-- more than there are nodes, and adds a new node at each step. The digits of a number are
-- written on one unit of fuel more than the number. An exhausted schedule of fates works from there
-- on.
--
-- Not modelled: YAML and JSON decoding, SHA-256 (the text of a hash is a parameter), SQLite's own
-- failures and its arithmetic on times (a parameter), locks, several workflows in one store,
-- `BackfillClaimOwner`, the texts of the interpreter's activities, a cancellation between two of
-- them, calls of the engine that run at the same time, its start-up and shutdown (with the retries
-- of `reconcileCancelingRuns`), a call before its start, and the parts of the program outside these
-- packages: the executor over Temporal, the server, the command line and the adapters of task systems,
-- runners and harnesses.
pub mod Prelude
pub mod Config
pub mod Workflow
pub mod Run
pub mod Identity
pub mod Repo
pub mod Router
pub mod Manager
pub mod Projection
pub mod Interpreter
pub mod Registry
pub mod Store
pub mod Service
pub mod Engine
pub mod Detail
pub mod Tests
