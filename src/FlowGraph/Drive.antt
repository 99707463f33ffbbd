-- ===== src/FlowGraph/Drive.antt =====
-- packages/flow-graph/src/run-drive.ts: one turn of the loop that drives a run. What the clock, the
-- signal and the node's execution answer during the turn is an argument. Spans are left out.
use sozai.Common.{
  ℕ, ◌+◌, Bool, true, false, Option, none, some, [], ltb, leb, is_some, if◌then◌else◌, ◌&&◌, ◌||◌,
}
use sozai.Common.Lists.{get_elem?}
use sozai.Common.Text.{Text, txt, truthy}
use sozai.Common.Fields.{own}
use sozai.Common.Json.{Json}
use sozai.Common.Result.{Result, ok, err, ◌>>=◌, required}
use sozai.Retry.{or_default}
use sozai.FlowGraph.Types.{
  FlowNode, ErrorMetadata, Reason, attempts, total_timeout, interrupted, NodeAttempts, node_enter,
  suspend_event,
}
use sozai.FlowGraph.Time.{Dates}
use sozai.FlowGraph.Frames.{
  FlowError, no_active_frame, missing_field, bad_timestamp, bad_policy, top_index, top,
}
use sozai.FlowGraph.Commits.{NodeError, thrown, NodeKind, Runner, commit, fire, abort, apply_result}
use sozai.FlowGraph.RetryCommits.{exceeds}
use sozai.FlowGraph.Unwind.{or_generic}
use sozai.FlowGraph.Failure.{fail_run, fail_node, handle_node_error}
use sozai.FlowGraph.Execution.{Compilation, Thrown, validators_error, node_error, Executed, run_one}
use sozai.FlowGraph.Turns.{
  Options, Turn, Turned, yield_once, yield_saved, remaining, yielded_first, is_waiting, is_overdue,
  or_timeout, policy_of, deadline_from, prepared_state, interrupted_state, begun_state,
  resuspended_state, goes_on, leaves, raised,
}

-- An error of the state, as the handler of node errors gets it: by its name.
abbrev pub thrown_by : FlowError → NodeError
thrown_by no_active_frame = thrown (txt "FlowStateError")
thrown_by missing_field = thrown (txt "FlowStateError")
thrown_by bad_timestamp = thrown (txt "RangeError")
thrown_by (bad_policy issue) = thrown (txt "RangeError")

module _ (dates : Dates) (compile : Json → Compilation) (options : Options) (node_id : Text)
    (node : FlowNode) (kind : NodeKind) (turn : Turn) where
  -- `abort` on a signal that the failed execution finds aborted.
  abbrev pub yield_abort : Bool → Runner → Result FlowError Turned
  yield_abort recovering r = abort r >>= λ r'. ok (yield_once recovering leaves r')

  -- What a failed execution comes to.
  unfoldable pub thrown_turn : Bool → Bool → Thrown → Runner → Result FlowError Turned
  thrown_turn recovering resumed e r =
      if turn.aborted_failed then yield_abort recovering r else elim e [
        | validators_error ↦
            ok (record { yielded = []; runner = r; recovering = recovering; exit = raised })
        | node_error failure ↦
            handle_node_error dates turn.random (λ k. turn.clock (4 + k)) node_id node kind failure
              resumed r
            >>= λ r'. ok (yield_saved recovering r')
      ]

  -- The commit of what the execution came to; what it throws is caught like what the execution
  -- throws.
  unfoldable pub concluded : Bool → Bool → Runner → Result Thrown Executed → Result FlowError Turned
  unfolding thrown_turn
  concluded recovering resumed r (ok x) =
      elim (apply_result node_id resumed x.prepared x.staged x.result r) [
        | err e ↦ thrown_turn recovering resumed (node_error (thrown_by e)) r
        | ok r' ↦ ok (yield_saved recovering r')
      ]
  concluded recovering resumed r (err e) = thrown_turn recovering resumed e r

  unfoldable pub execute : Bool → Bool → Runner → Result FlowError Turned
  unfolding concluded
  execute recovering resumed r = concluded recovering resumed r (
      run_one dates compile node_id node kind options.max_depth turn.prepare
        (resumed && turn.resuming) r.state turn.answer)

  -- `runner.nodeFail`, yielded.
  unfoldable pub give_up :
      Bool
      → Reason
      → ErrorMetadata
      → (callee_retry : Bool) (now : ℕ) → Runner
      → Result FlowError Turned
  give_up recovering reason meta callee_retry now r =
      fail_node dates turn.random node_id node kind reason meta callee_retry now r >>= λ r'.
      ok (yield_saved recovering r')

  -- A node that retries, with the attempts `a` of its frame.
  unfoldable pub attempt_node : Bool → NodeAttempts → Runner → Result FlowError Turned
  unfolding execute give_up interrupted_state begun_state commit
  attempt_node recovering a r =
      if is_overdue dates a.deadline (turn.clock 2)
      then give_up recovering total_timeout (or_timeout a.last_failure) (is_some a.retry_at)
          (turn.clock 3) r
      else if recovering && is_some r.state.in_flight
      then (if leb (or_default a.policy.max_interruptions 3) a.interruptions
          then give_up recovering interrupted (or_generic a.last_failure) false (turn.clock 3) r
          else (let r' = commit (interrupted_state node_id a r.state) r in
              execute false false r' >>= λ t. ok (yielded_first r'.state t)))
      else if leb a.policy.max_attempts a.count
      then give_up recovering attempts (or_generic a.last_failure) false (turn.clock 3) r
      else (let r' = commit (begun_state node_id a r.state) r in
          execute false false r' >>= λ t. ok (yielded_first r'.state t))

  -- The turn once no retry is waited for; `a`: the node's attempts.
  unfoldable pub start_node : Bool → Option NodeAttempts → Runner → Result FlowError Turned
  unfolding attempt_node prepared_state
  start_node recovering none r =
      if leb (or_default options.max_steps 1000) r.state.steps
      then (fail_run dates turn.random (txt "max_steps") node_id none none none (turn.clock 3) r
          >>= λ r'. ok (yield_once recovering leaves r'))
      else if kind.retries
      then (deadline_from dates (turn.clock 2) (policy_of options node kind).total_timeout_ms
          >>= λ deadline. ok (
              let r' =
                commit (prepared_state node_id (policy_of options node kind) deadline r.state) r in
              yield_once recovering goes_on (fire (node_enter node_id r'.state) r')))
      else execute recovering false (fire (node_enter node_id r.state) r)
  start_node recovering (some a) r =
      if kind.retries
      then attempt_node recovering a r
      else execute recovering false (fire (node_enter node_id r.state) r)

  -- A node with a retry scheduled at `retry_at`.
  unfoldable pub wait_retry : Bool → NodeAttempts → Text → Runner → Result FlowError Turned
  unfolding start_node resuspended_state
  wait_retry recovering a retry_at r =
      let left = remaining (dates.get_time retry_at) (turn.clock 0) in
      if is_overdue dates a.deadline (turn.clock 1)
      then give_up recovering total_timeout (or_timeout a.last_failure) true (turn.clock 3) r
      else if recovering && exceeds left a.policy.suspend_after_ms
      then (let r' = commit (resuspended_state node_id retry_at r.state) r in
          ok (yield_once recovering leaves (fire (suspend_event node_id r'.state) r')))
      else if (ltb 0 left && turn.aborted_asleep) || turn.aborted_awake
      then yield_abort false r
      else start_node false (some a) r

module _ (dates : Dates) (compile : Json → Compilation) (options : Options) (turn : Turn) where
  abbrev pub wait_or_start :
      Text → FlowNode → NodeKind → Bool → Option NodeAttempts → Runner → Result FlowError Turned
  wait_or_start node_id node kind recovering none r =
      start_node dates compile options node_id node kind turn recovering none r
  wait_or_start node_id node kind recovering (some a) r = elim a.retry_at [
    | none ↦ start_node dates compile options node_id node kind turn recovering (some a) r
    | some t ↦
        if truthy (some t)
        then wait_retry dates compile options node_id node kind turn recovering a t r
        else start_node dates compile options node_id node kind turn recovering (some a) r
  ]

  -- A turn of the loop, at a run that is running or suspended.
  unfoldable pub drive_turn : Bool → Runner → Result FlowError Turned
  unfolding wait_retry start_node execute
  drive_turn recovering r =
      if turn.aborted_before
      then (abort r >>= λ r'. ok (yield_once recovering leaves r'))
      else (top r.state >>= λ frame.
          required missing_field (get_elem? r.definitions (top_index r.state)) >>= λ definition.
          required missing_field (own definition.nodes frame.node) >>= λ node.
          required missing_field (own r.kinds node.kind) >>= λ kind.
          if is_waiting r.state
          then execute dates compile options frame.node node kind turn recovering true r
          else wait_or_start frame.node node kind recovering (own frame.attempts frame.node) r)
