-- ===== src/FlowGraph/Failure.antt =====
-- packages/flow-graph/src/retry-handling.ts and the helpers of run-utils.ts: from the error that a
-- node's execution threw to the commit that records it. `now k` is the clock's k-th reading.
use sozai.Common.{
  ℕ, ◌+◌, min, max, Bool, true, false, Option, none, some, List, [], ◌∷◌, ltb, leb, if◌then◌else◌,
  ◌&&◌, ◌||◌,
}
use sozai.Common.Text.{includes, Text, txt, same}
use sozai.Common.Fields.{own, put, remove}
use sozai.Common.Result.{Result, ok, err, ◌>>=◌}
use sozai.Retry as AsyncRetry
use sozai.Retry.{get_retry_delay, max_delay_ms}
use sozai.FlowGraph.Types.{
  FlowNode, ErrorMetadata, Reason, attempts, total_timeout, non_retryable, NodeAttempts, Frame,
  Status, RunState,
}
use sozai.FlowGraph.Time.{Dates}
use sozai.FlowGraph.Frames.{FlowError, bad_policy, top_index, top, set_top, draw_invocation}
use sozai.FlowGraph.Commits.{
  NodeError, flow_failure, attempt_timeout, deadline_timeout, thrown, RawMetadata, NodeKind, Runner,
  commit, settle, unschedule,
}
use sozai.FlowGraph.RetryCommits.{
  RetryDecision, retry_timing, call_error, route_to_on_error, schedule_retry,
}
use sozai.FlowGraph.Unwind.{attempt_count, unwind_failure}

-- `defaultMeta(error).type`
abbrev pub error_name : NodeError → Text
error_name (flow_failure code) = txt "FlowNodeFailure"
error_name attempt_timeout = txt "TimeoutInterruption"
error_name deadline_timeout = txt "TimeoutInterruption"
error_name (thrown name) = name

abbrev no_metadata : RawMetadata
no_metadata = record { type = none; code = none; status = none; retry_after_ms = none }

abbrev described : NodeError → Option (NodeError → Option RawMetadata) → RawMetadata
described e none = no_metadata
described e (some describe) = elim (describe e) [ none ↦ no_metadata | some raw ↦ raw ]

abbrev or_text : Option Text → Text → Text
or_text none t = t
or_text (some s) t = s

abbrev clamped : Option ℕ → Option ℕ
clamped none = none
clamped (some ms) = some (min max_delay_ms (max 0 ms))

unfoldable pub sanitize : NodeError → NodeKind → ErrorMetadata
sanitize e kind =
    let raw = described e kind.describe_error in
    record {
      type = or_text raw.type (error_name e);
      code = raw.code;
      status = raw.status;
      retry_after_ms = clamped raw.retry_after_ms;
    }

abbrev pub is_stop : AsyncRetry.RetryDecision → Bool
is_stop AsyncRetry.stop = true
is_stop _ = false

unfoldable pub retry_failure_reason : Bool → AsyncRetry.RetryDecision → NodeAttempts → Option Reason
retry_failure_reason expired decision attempt =
    if expired
    then some total_timeout
    else if is_stop decision
    then some non_retryable
    else if leb attempt.policy.max_attempts attempt.count
    then some attempts
    else none

abbrev is_deadline_timeout : NodeError → Bool
is_deadline_timeout deadline_timeout = true
is_deadline_timeout _ = false

-- An absent callback, and one that throws, decide against a retry.
abbrev asked :
    NodeError → Option (NodeError → Option AsyncRetry.RetryDecision) → AsyncRetry.RetryDecision
asked e none = AsyncRetry.stop
asked e (some retryable) = elim (retryable e) [ none ↦ AsyncRetry.stop | some decision ↦ decision ]

unfoldable pub retry_decision : NodeError → NodeKind → AsyncRetry.RetryDecision
retry_decision attempt_timeout kind = AsyncRetry.again
retry_decision e kind = asked e kind.retryable

abbrev pub decided_after : AsyncRetry.RetryDecision → Option ℕ → Option ℕ
decided_after (AsyncRetry.after ms) meta_ms = some ms
decided_after _ meta_ms = meta_ms

abbrev if_expired : Bool → Option Reason
if_expired true = some total_timeout
if_expired false = none

-- The frame of the node at which a run fails.
unfoldable pub fail_frame : Text → Text → Frame → Frame
fail_frame code node_id frame =
    let f = unschedule node_id frame in
    if same code (txt "loop_exhausted") then record f { loops = remove f.loops node_id } else f

abbrev pub error_class : Text → Text
error_class code =
    if same code (txt "node_failed") then txt "FlowNodeFailure" else txt "FlowRunError"

-- `next` of `failRun` before its commit.
unfoldable pub failed_state :
    (code node_id : Text) (reason : Option Reason) (count : Option ℕ) (meta : Option ErrorMetadata)
    → Frame
    → RunState
    → RunState
unfolding fail_frame set_top
failed_state code node_id reason count meta frame state =
    record (set_top (fail_frame code node_id) (settle Status.error state)) {
      error = some (record {
        code = code;
        name = error_class code;
        node = some node_id;
        reason = reason;
        attempts = count;
        last_failure = meta;
        flow = some frame.flow.id;
      });
    }

unfoldable pub fail_here :
    (code node_id : Text) (reason : Option Reason) (count : Option ℕ) (meta : Option ErrorMetadata)
    → Runner
    → Result FlowError Runner
unfolding failed_state commit top
fail_here code node_id reason count meta r = top r.state >>= λ frame.
    ok (commit (failed_state code node_id reason count meta frame r.state) r)

module _ (dates : Dates) (random : ℕ → ℕ) where
  unfoldable pub classify_retry :
      NodeError → NodeKind → NodeAttempts → ErrorMetadata → (ℕ → ℕ) → Result FlowError RetryDecision
  unfolding retry_failure_reason retry_decision retry_timing
  classify_retry e kind attempt meta now =
      let decision = retry_decision e kind in
      let expired =
        is_deadline_timeout e || (retry_timing dates attempt.deadline (now 0) 0).expired in
      elim (retry_failure_reason expired decision attempt) [
        | some reason ↦ ok (record {
          delay_ms = 0;
          retry_at = (retry_timing dates attempt.deadline (now 1) 0).retry_at;
          terminal_reason = some reason;
        })
        | none ↦
            elim (get_retry_delay attempt.policy.base attempt.count
              (decided_after decision meta.retry_after_ms) random) [
                | err issue ↦ err (bad_policy issue)
                | ok delay_ms ↦
                    let timing = retry_timing dates attempt.deadline (now 1) delay_ms in
                    ok (record {
                      delay_ms = delay_ms;
                      retry_at = timing.retry_at;
                      terminal_reason = if_expired timing.expired;
                    })
              ]
      ]

  unfoldable pub fail_run :
      (code node_id : Text) (reason : Option Reason) (count : Option ℕ)
      (meta : Option ErrorMetadata) (now : ℕ)
      → Runner
      → Result FlowError Runner
  unfolding fail_here
  fail_run code node_id reason count meta now r =
      if ltb 0 (top_index r.state)
      then (unwind_failure dates now random r code reason meta >>= λ handled. elim handled [
        | some r' ↦ ok r'
        | none ↦ fail_here code node_id reason count meta r
      ])
      else fail_here code node_id reason count meta r

  unfoldable pub fail_node :
      (node_id : Text) (node : FlowNode) (kind : NodeKind) (reason : Reason) (meta : ErrorMetadata)
      (callee_retry : Bool) (now : ℕ)
      → Runner
      → Result FlowError Runner
  fail_node node_id node kind reason meta callee_retry now r = top r.state >>= λ frame.
      let count = attempt_count (own frame.attempts node_id) in
      elim node.on_error [
        | some target ↦
            route_to_on_error node_id (some reason) meta count target
              (if callee_retry && same kind.kind (txt "call")
                then some (call_error (txt "node_failed") (some reason) count)
                else none)
              none r
        | none ↦ fail_run (txt "node_failed") node_id (some reason) (some count) (some meta) now r
      ]

  unfoldable pub fail_reference :
      (code node_id : Text) (node : FlowNode) (meta : ErrorMetadata) (attempt : Option NodeAttempts)
      (now : ℕ)
      → Runner
      → Result FlowError Runner
  fail_reference code node_id node given attempt now r =
      let meta : ErrorMetadata = record given { code = some (or_text given.code code) } in
      let count = attempt_count attempt in
      elim node.on_error [
        | some target ↦ route_to_on_error node_id (some non_retryable) meta count target none none r
        | none ↦ fail_run code node_id (some non_retryable) (some count) (some meta) now r
      ]

abbrev pub reference_failure_codes : List Text
reference_failure_codes =
    txt "missing_flow" ∷ txt "invalid_flow" ∷ txt "max_depth" ∷ txt "invalid_input" ∷ []

abbrev pub fatal_codes : List Text
fatal_codes =
    txt "invalid_value" ∷ txt "invalid_target" ∷ txt "invalid_suspend" ∷ txt "loop_exhausted" ∷ []

unfoldable pub is_reference_node : FlowNode → Bool
is_reference_node node =
    same node.kind (txt "call")
    || same node.kind (txt "goto")
    || (same node.kind (txt "loop") && node.body_is_flow)

-- The code of a FlowNodeFailure that is one of `codes`.
abbrev pub failure_in : List Text → NodeError → Option Text
failure_in codes (flow_failure code) = if includes codes code then some code else none
failure_in codes _ = none

-- `entered`: the step and the invocation of a node that does not retry are counted.
unfoldable pub enter : Bool → Bool → Runner → Runner
unfolding draw_invocation
enter retries resumed r =
    if retries || resumed
    then r
    else record r { state = record (draw_invocation r.state) { steps = r.state.steps + 1 } }

-- The attempts of `node_id` after a failure that is final, with nothing in flight.
unfoldable pub record_failure : Text → ErrorMetadata → NodeAttempts → RunState → RunState
unfolding set_top
record_failure node_id meta attempt state =
    set_top
      (λ f. record f {
        attempts = put f.attempts node_id (record attempt { last_failure = some meta });
      })
      (record state { in_flight = none })

module _ (dates : Dates) (random : ℕ → ℕ) (now : ℕ → ℕ) (node_id : Text) (node : FlowNode)
    (kind : NodeKind) (e : NodeError) where
  -- A node with attempts failed: a retry is scheduled, or the node fails.
  unfoldable pub retry_or_fail : ErrorMetadata → NodeAttempts → Runner → Result FlowError Runner
  unfolding record_failure classify_retry
  retry_or_fail meta attempt r = classify_retry dates random e kind attempt meta now >>= λ decision.
      elim decision.terminal_reason [
        | none ↦ schedule_retry dates node_id attempt meta decision none r
        | some reason ↦
            fail_node dates random node_id node kind reason meta false (now 2)
              (record r { state = record_failure node_id meta attempt r.state })
      ]

  unfoldable pub handle_node_error : Bool → Runner → Result FlowError Runner
  unfolding enter retry_or_fail
  handle_node_error resumed before =
      let r = enter kind.retries resumed before in
      let meta = sanitize e kind in
      elim (failure_in fatal_codes e) [
        | some code ↦ fail_run dates random code node_id none none (some meta) (now 0) r
        | none ↦ top r.state >>= λ frame.
            let attempt = own frame.attempts node_id in
            elim (if is_reference_node node then failure_in reference_failure_codes e else none) [
              | some code ↦ fail_reference dates random code node_id node meta attempt (now 0) r
              | none ↦ elim attempt [
                | none ↦ fail_node dates random node_id node kind non_retryable meta false (now 0) r
                | some held ↦ retry_or_fail meta held r
              ]
            ]
      ]
