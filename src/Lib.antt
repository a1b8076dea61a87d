-- ===== src/Lib.antt =====
-- Verification of lark-bridge-agent-sdk: a bridge between Lark chats and the coding agents Claude
-- and Codex. A message, a comment or a card action enters by the intake, which names its scope,
-- drops what the bridge sent itself, and gathers the events of a scope into batches. The access
-- rules decide who may use the bot, and the permissions how much the agent may do. The executor
-- runs at most one agent process for a scope and at most as many as its pool allows, and what the
-- process reports is folded into the state that a card shows. A card's buttons carry signed tokens
-- that are accepted once. The presenter sends the state as cards, and continues a card on another
-- when it grows too large. The run flow joins
-- these parts: it resolves the directory, evaluates the policy, looks up the session to resume,
-- and submits the run.
--
-- The parts and their files:
--
--   Base          helpers: tests on numbers and texts, lists, Go's result pairs (Results), maps with
--                 text keys (Map, whose order stands for the open order of `range`), JSON (Json), and
--                 texts by runes (Text).
--   Permissions   internal/domain/permissions. Permissions.antt has the types, the access order,
--                 `AssertAccessPair` and `ClampAccess`; Convert the conversions to the agents' modes;
--                 Normalise `NormalizePermissions` and its helpers; Bounds and Legacy the proofs.
--   Profile       internal/domain/profile/types.go and internal/domain/capability/capability.go.
--   Access        internal/domain/access/access.go, with its proofs in Laws.
--   Execution     internal/app/runexecutor. Pool is process_pool.go: a function for each critical
--                 section, the goroutines around them as the step relation of Threads, the proofs in
--                 Accounting and Wakeups. Runs is active_runs.go. Submit is `Executor.Submit` of
--                 run_executor.go, stage by stage, with the proofs in Outcome and Processes.
--                 Lifecycle is the clean-up of an execution and its `Stop`. Fanout is fanout.go: the
--                 pump and the subscribers as moves, the proofs in Invariant, Pumped and Delivery.
--   CardState     internal/app/cardrender/types.go and state.go: Blocks has what an event does to
--                 the list of blocks, Reduce the rest of the reducer; Streaming, Transcript, Terminal
--                 and Tools hold the proofs.
--   Agents        internal/ports/agent, internal/compat and internal/adapters/agent: Actions and
--                 Output (agentoutput/messages.go), Codex (codex/jsonl.go), Claude
--                 (claudecli/stream_json.go), each with its Translate, and Process (`stream` of both
--                 adapters, in Streams). Output/Quiet and Closing, Codex/Tells, Process/Reads,
--                 EndsOnce and OnCard hold the proofs.
--   Presenter     internal/app/impresenter: Content (what presenter.go shows of a state), Delta,
--                 Prefix, Split and Rollover (card_rollover.go). IsShown in Shown relates a card
--                 to a later state, Segment and Cards say what a card takes of a state, Weight
--                 what is left; Mirror reads what the channel shows from the calls that it took;
--                 Search, Grows, WholeRun, RollsEnd and the children of Split hold the other
--                 proofs. Actions is user_action.go, with its proofs in Laws. Markdown is
--                 markdown_rollover.go, and its Text `RenderText` of
--                 internal/app/cardrender/render.go; Visible has the states that the messages were
--                 made of, Keeps, Whole, Finish and Final hold the proofs. Present is `Present` of
--                 presenter.go up to the end of its loop, Conclude what follows; Steps, Over,
--                 Idle, Fires, Hangs, Whole and Delivered hold the proofs, and Pipeline joins the
--                 agents, the fan-out and the presenter.
--   Intake        internal/app/intake: Types (types.go), Scope (scope.go), SelfLoop (self.go and
--                 normalize.go) and Queue (queue.go), whose calls in any order are in
--                 Queue/Trace, and whose workers are the moves of Queue/Workers, with the proofs in
--                 Orders, Placed, Served and Answered.
--   CardAuth      internal/app/cardauth: Keys (the keys of auth.go, their order in Keys/Order),
--                 Nonces (store.go), Verify (`Sign` and `Verify` of auth.go, with the proofs in
--                 Authentic, Replay and RoundTrip) and Pending (pending.go, proofs in Answers
--                 and Offered).
--   Session       internal/app/session: Store (store.go) and Catalog (catalog.go), each with Laws,
--                 and the catalog with Gc, whose proofs are in Counting and Bounds.
--   RunPolicy     internal/domain/runpolicy: the types, Canonical (jcs.go), Fingerprint
--                 (fingerprint.go), Evaluate (run_policy.go) and its Laws.
--   Workspace     internal/app/workspace/workspace.go.
--   RunFlow       internal/app/runflow/run_flow.go: what a run resumes from and records (proofs in
--                 Resume), and Start, which joins the workspace, the policy, the sessions and the
--                 submission (proofs in Start/Checked and Start/Progress).
--
-- Each Tests module runs its component on concrete inputs, some of them shared in Samples.
--
-- How the code is read. A struct is a record and a method returns the new value. A string type with
-- named constants is a data type with one more constructor for any other string. Errors are values;
-- an error's message is a constructor. A pointer is an `Option`, and a time is `none` for Go's zero
-- time. Counters are natural numbers: the code only counts goroutines, tokens and pauses in them. A
-- method that locks a mutex is one step, or one step for each time that it takes the lock; between
-- two of them other goroutines may run, which is a step relation for the pool, a list of calls for
-- the queue, moves for its workers and for the fan-out, and a function `others` for a submission.
-- The two functions of the registry that a `sync.Once` guards are called once for each value that
-- they come with; the once flags of an execution are fields of its record. Loops over a list are
-- recursion on it. Three loops take fuel: the binary search of a cut, whose fuel is the length of
-- the text, as the interval shrinks in each round; and the loops that roll a card over and that
-- split a final card, which have no bound in the code. Their fuel is an argument, they say when it
-- is used up, and the results on their end say how much is enough; the loop of `Present` then
-- hangs. `Acquire`, which may wait for ever, is given by its rounds.
--
-- Not modelled: the log lines, the contents of prompts and cards, the agents' processes and the
-- Lark SDK, whose answers are arguments; SHA-256, HMAC, base64, JSON texts and the path functions
-- of the standard library, which are arguments; files that mirror a state in memory; and the other
-- packages of the repository.
pub mod Agents
pub mod Base
pub mod Permissions
pub mod Presenter
pub mod Profile
pub mod Access
pub mod Execution
pub mod CardState
pub mod Intake
pub mod CardAuth
pub mod Session
pub mod RunPolicy
pub mod Workspace
pub mod RunFlow
pub mod Samples
