-- ===== src/Lib.antt =====
-- A model of the core of qwen-harness, a coding agent's harness in TypeScript: the permission engine
-- that decides whether an action of the agent may run, the batching of tool calls, the budget of a
-- turn and the machine of its states, the hooks that may restrict a turn, the retries of requests to a
-- model provider, the graph of durable tasks, background work, and the editor of the terminal's input.
--
-- The parts. The engine (packages/policy) gets an action (a file tool, a shell command, a network
-- request, a call of an MCP tool, ...) and a context: the permission profile, the workspace, the
-- rules of the user, the project and the session, the grants a person gave, a hook's answer and the
-- managed policy. It answers allow, ask, deny or passthrough with the stage that decided and a
-- trace. Delegation to subagents and teammates gives each of them an authority that `intersect`
-- computes from the parent's, the request and the managed policy. Each of these is a pure function
-- of its inputs in the source, and is one here; the lists of grants are the only state.
--
-- A turn alternates requests to the model and tool calls. A failed request is retried when the
-- retry decision says so (packages/provider-core). The tool calls of one output are partitioned into
-- batches (packages/tools-core). The budget (packages/runtime) is asked before each model call and
-- tool call and after each round, and its first verdict that stops ends the turn. Durable tasks
-- (packages/tasks) have a status and wait on one another; an edge of the graph is checked against a
-- cycle before it is stored, and every operation appends events to a log, whose projection is the
-- graph. The states of a turn (packages/runtime) follow a table of legal
-- transitions. Hooks (packages/hooks) run at the events of a turn: a registry answers which of them
-- run for an invocation and in what order, and the engine folds what they answer into one result,
-- which starts from the decision of the policy. The editor (packages/tui-kit) keeps the lines a
-- person types, the two stacks of snapshots behind undo and redo, and the history of submissions.
-- Background work (packages/background) runs under one manager, which holds a few slots for foreground
-- tasks, a queue for them, watchdogs on tasks that wait for input, and a queue of notifications.
--
-- Files.
--   Prelude and its children: names of the libraries, Boolean tests on numbers, array methods,
--     strings. A string is the list of its UTF-16 code units (Text); `str` writes a literal of
--     ASCII characters.
--   Protocol: packages/protocol/src/domain.ts, the enumerations the engine uses.
--   Policy/Action, Action/Canonical: packages/policy/src/action.ts. A union of interfaces is a data
--     type with one constructor for each `kind`; check_canonical_action lists the failures.
--   Policy/Paths and children: packages/policy/src/paths.ts. A compiled glob is the list of the
--     parts that globToRegExp writes (Paths/Glob), `test` is the match of that expression from `^`
--     to `$`; the frozen tables are lists (Paths/Rules), containment is in Paths/Within.
--   Policy/Matcher: packages/policy/src/matcher.ts, matches_action.
--   Policy/Effect: the outcomes and `RESTRICTIVENESS`.
--   Policy/Rules, Rules/Merge: packages/policy/src/rules.ts, merge_rules.
--   Policy/Managed: packages/policy/src/managed.ts, intersect_managed.
--   Policy/Grants, Grants/Lookup, Grants/Authorising: packages/policy/src/grants.ts, find_grant, consume_grant,
--     revoke_grant and the validation of rule grants. A store of grants is a list.
--   Policy/Authority, Authority/Delegation, Authority/Chains: packages/policy/src/authority.ts.
--   Policy/Engine and children: packages/policy/src/engine.ts. A local `let` of evaluate that the
--     stages assign is threaded through (Verdict), each stage answers the steps it pushes on the
--     trace, and Policy.Engine.evaluate composes them in the source's order. Stages/Profile has
--     stages 1 and 2, Stages/Loosening 3 and 4, Stages/Ceiling the hooks and the managed ceiling.
--   Policy/Examples, Policy/Engine/Samples, Policy/Engine/Examples, Policy/Engine/Scenarios: runs at
--     concrete inputs.
--   Tools/Contract, Tools/Scheduler and children: packages/tools-core/src/contract.ts and
--     scheduler.ts. plan_step is the body of the loop of planBatches: the batches that it pushes and
--     the `current` that it leaves.
--   Protocol/Errors: packages/protocol/src/errors.ts, the fields that a retry reads.
--   Provider/Retry and children: packages/provider-core/src/retry.ts.
--   Runtime/Budget and children: packages/runtime/src/budget.ts. BudgetTracker is a record, and a
--     method answers its verdict and the new tracker.
--   Tools/Examples, Provider/Examples, Runtime/Examples: runs at concrete inputs.
--   Tasks/StateMachine, Tasks/Dependencies and children, Tasks/Examples:
--     packages/tasks/src/state-machine.ts and dependencies.ts.
--   Runtime/TurnMachine, TurnMachine/Paths: packages/runtime/src/turn-machine.ts and the table of
--     packages/protocol/src/domain.ts. A call answers the machine that it leaves or the error it throws.
--   Hooks/Outcome: packages/hooks/src/events.ts, outcome.ts and result.ts. Hooks/Registration,
--     Hooks/Registry and children: registry.ts. Hooks/Invoke (one handler), Hooks/Fold and children
--     (#runInner: apply_outcome is the switch, fold_step the body of the loop) and Hooks/Reentry (run
--     and its guard): engine.ts. Hooks/Examples: runs at concrete inputs.
--   TuiKit/Unicode, Unicode/Clusters: packages/tui-kit/src/unicode.ts, the grapheme clusters.
--   TuiKit/Editor/State, Buffer, Edits, Motions, History, Vim: packages/tui-kit/src/editor.ts. The
--     fields that a snapshot holds (lines, cursor, anchor) stand in one field of the state, the
--     buffer. Stacks, Validity and children, Undoing, Browsing and FlatText hold the proofs, and
--     TuiKit/Examples runs at concrete inputs.
--   Tasks/TaskStore: packages/storage/src/task-store.ts, the log of task events and its projection.
--   Tasks/TaskGraph, TaskGraph/Operations: packages/tasks/src/task-graph.ts; TaskGraph/Calls has what
--     every operation keeps; Replay, Claims and Acyclicity have the proofs.
--   Background, Background/Notifications, Background/Table, Background/State, Background/Manager,
--     Background/Watch and Manager/Calls: packages/background/src/category.ts, notifications.ts,
--     runner.ts and manager.ts. A change of a task's record replaces it in the table. Manager/Quiet,
--     Keeping and Steps have what every call keeps; Slots, Waiting, Admission, Completions, Settling, Output and
--     Watchdogs (with Watchdogs/Rounds) have the proofs, and Notifications/Delivery and Starvation those on the notifications.
--
-- Parameters and bounds. The sha256 of the canonical JSON of an action, Unicode normalisation
-- and lower case are the parameter Platform: Node's code is not code of the repository. Times are numbers of
-- milliseconds, natural numbers here. Regular expressions over a compiled glob run on the length
-- of the pattern and the text, with no fuel. A number is printed with one digit more of fuel
-- than its value, which covers every digit.
-- The random float of a retry is a fraction below one. The clock of a turn is an argument of the
-- method that reads it. Budget/Limits and Budget/Loops run any sequence of calls of the tracker's
-- methods up to the first verdict that stops.
-- The loop of `reachable` runs on fuel, one round for the start, one for every edge and one that
-- finds the stack empty: a round pops a task, and pushes the blocked tasks of one that is new, so that
-- each edge is pushed at most once (Tasks/Dependencies/Search has the lemma). Ids of tasks are natural
-- numbers.
-- The editor's texts are lists of code points, as the source's `for (const ch of text)` walks them; the
-- Unicode properties and the lower case of the platform are the parameter Unicode. A hook's handler
-- stands with what running it answers (a child process, a request or a model's run), and the race
-- with its deadline with the one that settles first; the trim and the parsing of its output are the
-- parameter Wire, and the sanitizer of packages/protocol is a parameter of the fold. The runs of the
-- hook engine are asynchronous: Hooks/Reentry has a step relation in which they start and end in any
-- order. Priorities of hooks are integers.
-- A table of the task store is a function or a list, in the order in which it is read; a transaction
-- answers the store that it commits or the error that it throws. The clock of the task store is a
-- function of the number of events before.
-- The manager of background work draws its ids from a parameter, and its theorems suppose that they differ;
-- a callback of a runner comes after the call that launched its task has returned. Draining a queue of
-- notifications runs on its size, which each delivery makes one less.
--
-- Not modelled: the cache of compiled globs (it returns what compiling again would), JSON
-- schemas (zod) and their error texts, file and process I/O, the other tables
-- of the storage, transports and the terminal. Of the packages not named above, those that do I/O around
-- libraries are left out for that; the turn engine, the scheduler, the reduction of the context, the
-- merge of the configuration, memory, the network broker, agents, skills and the applications are logic
-- that stands outside this development.

pub mod Background
pub mod Hooks
pub mod Policy
pub mod Prelude
pub mod Protocol
pub mod Provider
pub mod Runtime
pub mod Tasks
pub mod Tools
pub mod TuiKit
