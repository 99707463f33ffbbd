-- ===== src/FlowGraph/Types.antt =====
-- packages/flow-graph/src/types.ts: flow definitions and the state of a run.
use sozai.Common.{ℕ, Bool, Option, List}
use sozai.Common.Text.{Text}
use sozai.Common.Fields.{Fields}
use sozai.Common.Json.{Json}
use sozai.Retry.{RetryPolicy}

-- A retry policy with suspension and recovery limits.
pub record FlowRetryPolicy : Type 0 where
  pub base : RetryPolicy
  pub open base use *
  pub suspend_after_ms : Option ℕ
  pub max_interruptions : Option ℕ

-- A node of a definition: its kind, and the properties that the run reads. `body_is_flow`: the
-- `body` of a loop is an object; `body_id`: its `body` where that is a node's id.
pub record FlowNode : Type 0 where
  pub kind : Text
  pub next : Option Text
  pub on_error : Option Text
  pub body_is_flow : Bool
  pub body_id : Option Text
  pub max_iterations : ℕ
  pub retry : Option FlowRetryPolicy

pub record FlowDefinition : Type 0 where
  pub id : Text
  pub version : ℕ
  pub start : Text
  pub nodes : Fields FlowNode

pub record ErrorMetadata : Type 0 where
  pub type : Text
  pub code : Option Text
  pub status : Option ℕ
  pub retry_after_ms : Option ℕ

pub data Reason : Type 0 where
  attempts total_timeout non_retryable interrupted : Reason

-- Retry progress of an active node.
pub record NodeAttempts : Type 0 where
  pub invocation_id : Text
  pub policy : FlowRetryPolicy
  pub count : ℕ
  pub interruptions : ℕ
  pub deadline : Option Text
  pub retry_at : Option Text
  pub last_failure : Option ErrorMetadata

pub data ContinuationKind : Type 0 where
  call loop_body : ContinuationKind

pub record Continuation : Type 0 where
  pub kind : ContinuationKind
  pub caller_node : Text
  pub return_to : Text
  pub on_error : Option Text

pub record FlowPin : Type 0 where
  pub id : Text
  pub version : ℕ
  pub digest : Text

pub record Frame : Type 0 where
  pub flow : FlowPin
  pub node : Text
  pub input : Json
  pub state : Fields Json
  pub results : Fields Json
  pub loops : Fields ℕ
  pub attempts : Fields NodeAttempts
  pub continuation : Option Continuation

pub data PendingReason : Type 0 where
  suspend retry : PendingReason

pub record Pending : Type 0 where
  pub node : Text
  pub reason : PendingReason
  pub prompt : Option Json
  pub schema : Option Json
  pub value : Option Json
  pub deadline : Option Text
  pub resume_at : Option Text

pub record RunError : Type 0 where
  pub code : Text
  pub name : Text
  pub node : Option Text
  pub reason : Option Reason
  pub attempts : Option ℕ
  pub last_failure : Option ErrorMetadata
  pub flow : Option Text

pub data Status : Type 0 where
  running suspended ended error aborted : Status

pub record InFlight : Type 0 where
  pub node : Text
  pub attempt : ℕ
  pub invocation_id : Text

-- The root frame is the first of `frames`, the active frame the last.
pub record RunState : Type 0 where
  pub run_id : Text
  pub revision : ℕ
  pub status : Status
  pub frames : List Frame
  pub steps : ℕ
  pub invocation : ℕ
  pub in_flight : Option InFlight
  pub origin : Option Text
  pub pending : Option Pending
  pub outcome : Option Text
  pub output : Option (Fields Json)
  pub error : Option RunError

-- The events that a run fires, with the node that they name and the state committed before.
pub data Event : Type 0 where
  node_enter node_exit suspend_event : Text → RunState → Event
  retry_event : Text → ℕ → RunState → Event
  end_event : RunState → Event
