-- ===== src/FlowGraph/Unwind.antt =====
-- packages/flow-graph/src/unwind.ts, `unwindFailure`: the walk down the frames to the first caller
-- that handles a failure.
use sozai.Common.{
  ℕ, zero, suc, ◌+◌, Bool, true, false, Option, none, some, List, [], ◌∷◌, ltb, if◌then◌else◌, ◌&&◌,
  not,
}
use sozai.Common.Lists.{take, get_elem?}
use sozai.Common.Text.{Text, txt, same, truthy, includes}
use sozai.Common.Fields.{own}
use sozai.Common.Result.{Result, ok, err, ◌>>=◌, required}
use sozai.Retry.{get_retry_delay}
use sozai.FlowGraph.Types.{
  ErrorMetadata, Reason, total_timeout, non_retryable, NodeAttempts, ContinuationKind, call,
  loop_body, Continuation,
}
use sozai.FlowGraph.Time.{Dates}
use sozai.FlowGraph.Frames.{FlowError, missing_field, bad_policy, top_index}
use sozai.FlowGraph.Commits.{Runner}
use sozai.FlowGraph.RetryCommits.{
  RetryDecision, UnwoundState, retry_timing, call_error, route_to_on_error, schedule_retry,
}

abbrev pub walk_codes : List Text
walk_codes =
    txt "node_failed"
    ∷ txt "loop_exhausted"
    ∷ txt "missing_flow"
    ∷ txt "invalid_flow"
    ∷ txt "max_depth"
    ∷ txt "invalid_input"
    ∷ []

abbrev pub is_non_retryable : Option Reason → Bool
is_non_retryable (some non_retryable) = true
is_non_retryable _ = false

abbrev pub is_call : ContinuationKind → Bool
is_call call = true
is_call loop_body = false

abbrev pub or_generic : Option ErrorMetadata → ErrorMetadata
or_generic none = record { type = txt "Error"; code = none; status = none; retry_after_ms = none }
or_generic (some meta) = meta

abbrev pub meta_after : Option ErrorMetadata → Option ℕ
meta_after none = none
meta_after (some meta) = meta.retry_after_ms

abbrev pub attempt_count : Option NodeAttempts → ℕ
attempt_count none = 1
attempt_count (some attempt) = attempt.count

-- What a caller does about a failure: retry its call, or go on with this reason.
pub data CallerStep : Type 0 where
  retry_call : NodeAttempts → RetryDecision → CallerStep
  pass : Option Reason → CallerStep

-- `unwindTo`
unfoldable pub unwind_to : Runner → ℕ → UnwoundState
unwind_to r index = record {
  state = record r.state {
    frames = take (index + 1) r.state.frames;
    in_flight = none;
    pending = none;
  };
  definitions = take (index + 1) r.definitions;
}

module _ (dates : Dates) (now : ℕ) (random : ℕ → ℕ) where
  -- A call that may be retried, with the attempts of its node.
  unfoldable pub retry_step :
      NodeAttempts → Option Reason → Option ErrorMetadata → Result FlowError CallerStep
  retry_step attempt reason meta =
      if (retry_timing dates attempt.deadline now 0).expired
      then ok (pass (some total_timeout))
      else if ltb attempt.count attempt.policy.max_attempts
      then elim (get_retry_delay attempt.policy.base attempt.count (meta_after meta) random) [
        | err issue ↦ err (bad_policy issue)
        | ok delay_ms ↦
            let timing = retry_timing dates attempt.deadline now delay_ms in
            if timing.expired
            then ok (pass (some total_timeout))
            else ok (
                retry_call attempt (record {
                  delay_ms = delay_ms;
                  retry_at = timing.retry_at;
                  terminal_reason = none;
                }))
      ]
      else ok (pass reason)

  unfoldable pub caller_step :
      Continuation
      → Option NodeAttempts
      → Bool
      → Option Reason
      → Option ErrorMetadata
      → Result FlowError CallerStep
  unfolding retry_step
  caller_step c none retryable reason meta = ok (pass reason)
  caller_step c (some attempt) retryable reason meta =
      if is_call c.kind && retryable then retry_step attempt reason meta else ok (pass reason)

  module _ (r : Runner) (code : Text) (reason : Option Reason) (meta : Option ErrorMetadata) where
    -- What the caller at `index` does, once its step is known; `ok none`: it does not handle.
    unfoldable pub handle_at :
        ℕ → Continuation → Option NodeAttempts → CallerStep → Result FlowError (Option Runner)
    unfolding unwind_to
    handle_at index c attempt (retry_call held decision) =
        schedule_retry dates c.caller_node held (or_generic meta) decision
          (some (unwind_to r index)) r
        >>= λ r'. ok (some r')
    handle_at index c attempt (pass caller_reason) = elim c.on_error [
      | none ↦ ok none
      | some target ↦
          if truthy c.on_error
          then (route_to_on_error c.caller_node caller_reason (or_generic meta)
                (attempt_count attempt) target
                (some (call_error code caller_reason (attempt_count attempt)))
                (some (unwind_to r index)) r
              >>= λ r'. ok (some r'))
          else ok none
    ]

    -- The body of the loop at `index`.
    unfoldable pub visit : ℕ → Bool → Result FlowError (Option Runner)
    unfolding handle_at caller_step
    visit index retryable =
        required missing_field (get_elem? r.state.frames (index + 1)) >>= λ callee.
        required missing_field callee.continuation >>= λ c.
        required missing_field (get_elem? r.state.frames index) >>= λ caller.
        let attempt = own caller.attempts c.caller_node in
        caller_step c attempt retryable reason meta >>= λ step. handle_at index c attempt step

    -- The loop over the frames below `n`, downwards.
    unfoldable pub walk : ℕ → Bool → Result FlowError (Option Runner)
    walk zero retryable = ok none
    walk (suc index) retryable =
        let rest = walk index retryable in
        elim (visit index retryable) [
          | err e ↦ err e
          | ok (some r') ↦ ok (some r')
          | ok none ↦ rest
        ]

    unfoldable pub unwind_failure : Result FlowError (Option Runner)
    unwind_failure =
        if includes walk_codes code
        then (required missing_field (own r.kinds (txt "call")) >>= λ kind.
            walk (top_index r.state)
              (same code (txt "node_failed") && not (is_non_retryable reason)))
        else ok none
