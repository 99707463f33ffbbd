-- ===== src/Lib.antt =====
-- Verification library of the sozai packages.
--
-- The repository is a set of TypeScript packages under packages/. This library is about the parts
-- that carry its own durable logic:
--
-- * Hlc (packages/hlc/src/index.ts): the hybrid logical clock. `Hlc` is the class's private state;
--   `new`, `now`, `receive`, `compare_stamps` and `apply_counter` are its methods, and `run` plays
--   a sequence of their calls. The readings of `Date.now()` and what `beforeMint` decides are
--   arguments. Hlc/Advance and Hlc/Order are about its stamps and their order.
--   Hlc/Serial is `serialize`, `parse` and `try_parse`, Hlc/Digits about numerals of a fixed width,
--   Hlc/RoundTrip and Hlc/Sorting about the texts of stamps.
-- * Retry (packages/async/src/retry.ts): `assert_retry_policy`, `get_retry_delay` and `retry`,
--   whose loop reads from a `Round` what the attempt, the clock and the signal answer in each turn,
--   and logs the calls of `onRetry`. The fuel of the loop is the policy's `max_attempts`; running
--   out of fuel is a value of its own. Retry/Delay, Retry/Loop and Retry/Settles hold the proofs.
-- * FlowGraph (packages/flow-graph/src): the durable state of a run. FlowGraph/Types is types.ts,
--   FlowGraph/Frames frames.ts, FlowGraph/Time time.ts, FlowGraph/Commits run.ts and `popFrame` of
--   unwind.ts, FlowGraph/RetryCommits retry-commits.ts, FlowGraph/Unwind the rest of unwind.ts,
--   FlowGraph/Failure retry-handling.ts and run-utils.ts, FlowGraph/Checks and
--   FlowGraph/Definitions state.ts, FlowGraph/Resume resume.ts. A `Runner` is the state, the
--   definitions and the node kinds that a FlowRunner holds, with the events that it has fired. A
--   commit that throws is an `err`. FlowGraph/Execution is run-execution.ts, FlowGraph/Turns and
--   FlowGraph/Drive run-drive.ts: a turn of the drive loop, with what the clock, the signal, the
--   timers and the node's kind answer as an argument, the states that it yields and how it ends.
--   FlowGraph/Entry is the part of runtime.ts that opens a run, and FlowGraph/Opening about its
--   first turn. FlowGraph/Stack, Shape and Replace are about the checks of a stack whose active
--   frame changes; Inversion, Preserve, Unwinding, Walk, FailedFrame, Failing and NodeFailure about
--   the commits that end a failure; Staging, Applied, Called, Popped and Results about those that
--   apply a node's result, Accepted about what the execution lets through; Begun, Kept and Prepared
--   about the commits of the loop, and Handling, Driving, Attempting, Starting and Turning about
--   its turn; Invocations about the ids of invocations.
-- * Plugins (packages/http-server/src/graph.ts): `sort_plugins` orders a server's plugins by their
--   dependencies. The fuel of its loop is the number of plugins, each round of which places one.
--   Plugins/Sorted and Plugins/Complete hold the proofs.
-- * Liveness (packages/lock/src/liveness.ts, with the records of record.ts and file.ts): `is_stale`
--   decides whether a waiter may take a lock away. A `Host` is what the operating system answers.
-- * Concurrent (packages/async/src/concurrent.ts): `firstInOrder`, which asks items concurrently
--   and answers as if it had asked them in order. A `Search` is the variables of its promise;
--   `begin`, `settle` and `decide` are what its closures do, and `Reach` holds of what they lead to
--   in any order of the calls' settling. The loop of `pump` has as fuel the room that the limit
--   leaves. Concurrent/Slots, Order, Rounds and Runs hold the invariant, Decided and Answers what
--   follows. Concurrent/Mapping is `mapConcurrent` of the same file, as a `Mapping` and what
--   `Reaches` it; Concurrent/Mapped and Concurrent/Settled hold the proofs. Concurrent/Prefetch is
--   the generator `prefetchOrdered`: a `Prefetch` is its variables and the `Place` where it stands,
--   a `Move` what happens to it, the consumer's requests among them. The fuel of the loop of `start`
--   is the number of indices left. Concurrent/Windows, Turned and Moved hold the invariant,
--   Concurrent/Drawn what consumers see.
-- * JsonLines (packages/stream/src/json-lines.ts): the framer of `fromJSONLines`, whose variables are
--   a `Frame` and the buffered input, and `toJSONLines`. Strings are code units, and `chars` cuts
--   them into the code points that the loop over a line reads. The events are what the stream
--   enqueues and what `onInvalidJSON` is given. The fuel of the loop over lines is the input's
--   length and one, for each round takes a separator away. JsonLines/Chunks is about the way in
--   which the text is cut, Invariants and Sizes about what holds between chunks and about the
--   limit on the buffer, Balanced and RoundTrip about the decoding of encoded values.
-- * Checker (packages/flow-graph/src/checker.ts): what `analyzeGraph` makes of the graph of an
--   authored definition. `visit`, `contains_end` and `cycle` are its searches, whose fuel is the
--   number of nodes that have targets, and one. Checker/Walks holds the lemmas on walks and sets,
--   Search, Ends and Cycles are about the three searches, and Analysis about their issues.
--   Checker/Dominators is `computeDominators`, whose fuel is the size of all its first sets, and one;
--   Checker/Shrinking, Settling and Dominance hold the proofs. Checker/Reads is `checkReads`, and
--   Checker/ResultPaths the paths of schemas (packages/flow-graph/src/result-paths.ts), where the
--   fuel of `resolve_ref` is the number of definitions that can be referred to, and one;
--   Checker/Producers and References hold the proofs.
-- * Values (packages/flow-graph/src/value.ts and filter.ts): `read_path`, `resolve_value` and
--   `write_state`, and in Values/Filters the filters on what paths read. Values/Writes is about what
--   a write changes, Values/Equality and Values/Comparisons about the operators of a filter.
--
-- FlowGraph uses the delays and policies of Retry, as flow-graph uses those of async. Common holds
-- what they share: strings as lists of UTF-16 code units, records as association lists,
-- JSON values, decimal numerals, `Result` and sequences of guards.
--
-- Numbers are natural numbers: the tests of the source for NaN, fractions and negative numbers hold
-- by the types, and times before the epoch are left out. JavaScript's numbers are inexact above
-- 2^53, which is above every bound that the source puts on a delay; times are taken below it.
-- `Date` is the record `Dates` (Common/Dates) of the functions that the code calls, with the
-- documented fact that a printed time reads back. What the JSON schema of a stored state
-- (packages/flow-graph/src/schemas.ts) asks holds by the types of its fields, but for the bounds of
-- retry policies and the pattern of timestamps, which FlowGraph/Checks checks with the rest.
-- Results of nodes have the fields of their types alone. Issues are named for their messages and
-- their paths are left out; so are spans, logs and the wiring of promises and streams. The checks
-- of single nodes, the collection of their reads, the other checks of authored definitions and the
-- packages that call the platform are not modelled.
pub mod Common
pub mod Hlc
pub mod Retry
pub mod FlowGraph
pub mod Plugins
pub mod Liveness
pub mod Concurrent
pub mod JsonLines
pub mod Checker
pub mod Values
