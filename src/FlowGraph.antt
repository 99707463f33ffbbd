-- ===== src/FlowGraph.antt =====
-- packages/flow-graph: the durable state of a run, what each commit does to it, and the checks on
-- a state that was persisted.
pub mod Types
pub mod Time
pub mod Frames
pub mod Commits
pub mod RetryCommits
pub mod Unwind
pub mod Failure
pub mod Checks
pub mod Stack
pub mod Shape
pub mod Replace
pub mod Inversion
pub mod Preserve
pub mod Unwinding
pub mod Walk
pub mod FailedFrame
pub mod Execution
pub mod Turns
pub mod Drive
pub mod Staging
pub mod Applied
pub mod Called
pub mod Popped
pub mod Results
pub mod Accepted
pub mod Begun
pub mod Kept
pub mod Prepared
pub mod Handling
pub mod Driving
pub mod Attempting
pub mod Starting
pub mod Turning
pub mod Entry
pub mod Opening
pub mod Failing
pub mod NodeFailure
pub mod Resume
pub mod Definitions
pub mod Invocations
mod Sample
mod Tests
mod TurnTests
