-- ===== src/Lib.antt =====
-- prATC (cmd/pratc, internal/...): pull request triage and merge planning for large repositories.
-- The development models the action engine, which decides what may be done to a pull request and
-- does it, the selector expressions by which a user names pull requests, and the order in which
-- dependent pull requests can be merged. A budget for the requests to GitHub decides how many pull
-- requests a round of the sync fetches, and the planner selects the pull requests to merge.
--
-- The parts and how they interact. The classifier assigns a reviewed pull request to a lane with
-- proposed actions, and the policy gate says which of them may run. The output is an ActionPlan of
-- work items and intents. The work queue stores both; workers claim items under leases, attach
-- proof, and move items along a state machine. The executor carries out an intent against GitHub,
-- behind a policy gate, preflight checks and a ledger of idempotency keys; a circuit breaker bounds
-- the live mutations in flight. The formula engine enumerates candidate selections of pull requests
-- by index.
--
-- Files.
-- - Base and its children: shared helpers. `Prog` (Base/Effect) is a Go method that mutates its receiver
--   and returns `(T, error)`: a failure keeps the state that was reached, as an early return does.
-- - Model: the structs and string enumerations of internal/types/models.go. An enumeration has the
--   constructor `unset` for the empty string; scores (float64) are stored and compared only, and are
--   scaled integers here. A time in a string field is a `Stamp`: empty, an instant, or unreadable text.
-- - Queue: internal/workqueue/queue.go. Store has the tables and the SQL statements, each of which may
--   fail at any time (`fails`); Leasing has Claim (`claim`), Release, Heartbeat, Transition, ExpireLeases
--   and GetClaimable; Intake has Upsert, EnqueueActionPlan, UpsertIntent and GetIntentsForWorkItem;
--   Evidence has AttachProof, GetProof and GetProofsForItem. System runs any sequence of these calls, in
--   the order in which the mutex lets them in. The other modules under Queue prove properties.
-- - Actions: internal/actions. Signals and Classifier are classifier.go (`classify_lane` is ClassifyLane,
--   in three parts by its rules), Policy is policy.go (`apply_policy` is ApplyPolicy, with one function
--   for each of its loops). Scores and confidences count hundredths; an entry of a reason trail that the
--   source formats with a value is a constructor with that value. Gate, Lanes and Pending prove
--   properties.
-- - Executor: internal/executor. Mutator is the interface GitHubMutator and Ledger the interface
--   Ledger, both parameters, with MemoryLedger (ledger.go) as an implementation; Policy has the
--   helpers of executor.go, Preflight the checks of preflight.go and verification.go, Perform has
--   failIntent and the switch of ExecuteIntent, one function for each case, and Execute
--   ExecuteIntent (`execute_intent`). Breaker is circuit_breaker.go. The state of a call (Session)
--   also remembers the mutating calls that were made, which the source does not; what is let through to
--   GitHub is stated of GitHub itself (Facts, Worlds), not of this record. Quiet, Writes,
--   Safety, Gated, Once, InFlight and Limits prove properties.
-- - Worker: internal/executor/worker.go. Process has NewWorker, `fail` and ProcessOnce (`process_once`, in
--   parts), over the state of the queue, the breaker and the session of the executor. Exits, Steady and
--   Rounds have lemmas on its exits; Load, Dry and Verified prove properties.
-- - Formula: internal/formula/modes.go. Modes has Count (`count`), permutationIndices and
--   replacementIndices, Combinations has combinationIndices, Generate has GenerateByIndex
--   (`generate_by_index`); Digits, Positions, Choices and Binomials prove properties.
-- - Selector: the selector expressions of internal/planning. Syntax, Expand and Print are selector_types.go
--   (`expand` is Expand, `node_string` is nodeString), Lexer and Parser selector_parser.go, Eval and Warnings
--   selector_eval.go and ParseAndValidate. A set of IDs is a list without repetition, a text a list of
--   character codes; the lexer reads its UTF-8 bytes. Sizes, Fuel, Words, Readers, Spelling, Edges and RoundTrip
--   prove properties.
-- - Graph: internal/graph/graph.go. Order has TopologicalOrder (`topological_order`): the heap is an
--   ascending list and the map of in-degrees a function. Build has Build (`build`), Conflicts conflictFiles,
--   and Noise FilterNoiseFiles (internal/types/noise_files.go). Degrees, Relax, Visit, Topological, Cycle,
--   Stacks and StackOrder prove properties.
-- - Budget: Manager is internal/telemetry/ratelimit/budget.go, with the clock as an argument; Chunks has the
--   sizes and estimates of chunk.go and estimator.go there and of internal/sync/chunk_sizing.go; Bounds
--   proves properties.
-- - Planner: Pool is internal/filter, Plan the selection of internal/planner/planner.go (`plan` is Plan up to
--   the order of the selection) with validator.go. The search of the formula engine, the clusters and the
--   scores are arguments; a score is a number that orders as the float64 does. Members has
--   lemmas on the numbers in these lists; Ordering is orderSelection (`order_selection`), with its property;
--   Partition and Answers prove properties.
-- - Scenarios: runs at concrete inputs.
--
-- Assumptions. sort.Slice may leave equal keys in any order; the model takes one of them. The clocks
-- of the queue and of the executor do not move within one call. A statement of SQLite takes effect
-- as a whole or not at all; a SELECT without a full order returns ties in the order of the table;
-- JSON encoding and decoding give back the same struct, and encoding does not fail. A mutating call
-- is one call of the interface GitHubMutator; what it does with its dry-run argument is its own
-- affair. Go's integers are unbounded here where they count. All loops are structural, but for the
-- parser of selectors, whose fuel is three times the length of the text and three more, and for the
-- main loop of TopologicalOrder, whose fuel is one more than there are nodes; Selector.Fuel and
-- Graph.Topological show that it is enough.
--
-- Not modelled: the goroutines of the worker's Run (each calls ProcessOnce), the clusters, scores
-- and warnings of a plan, the tiers of the formula engine, the incremental graph, opening the
-- database and its schema, HTTP servers, the terminal and web dashboards, report rendering, the
-- GitHub client, the sync jobs and the review heuristics.
mod Base
pub mod Model
pub mod Queue
pub mod Actions
pub mod Budget
pub mod Executor
pub mod Formula
pub mod Graph
pub mod Planner
pub mod Selector
pub mod Worker
mod Scenarios
