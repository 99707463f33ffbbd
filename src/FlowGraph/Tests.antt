-- ===== src/FlowGraph/Tests.antt =====
-- A run that fails at concrete inputs, and instances of the theorems on it.
use sozai.FlowGraph.Time.{fits_shape}
use sozai.FlowGraph.Unwind.{handle_at, caller_step, retry_step}
use sozai.FlowGraph.RetryCommits.{retry_timing}
use sozai.FlowGraph.Time.{fits_shape}
use sozai.Common.Decimal.{is_positive_numeral, number}
use sozai.FlowGraph.Checks.{
  assert_attempts, assert_frame_attempts, assert_stack, assert_status, invocation_number,
}
use sozai.Common.{◌≡◌, refl, Bool, true, false, Option, none, some, []}
use sozai.Common.Text.{includes, txt, same}
use sozai.Common.Fields.{own, put, remove}
use sozai.Common.Json.{Json}
use sozai.Common.Result.{Result, ok}
use sozai.Retry.{get_retry_delay, backoff_delay, assert_retry_policy}
use sozai.FlowGraph.Types.{attempts, non_retryable}
use sozai.FlowGraph.Time.{to_timestamp, is_canonical_timestamp}
use sozai.FlowGraph.Frames.{FlowError, top_index}
use sozai.FlowGraph.Commits.{Runner, abort}
use sozai.FlowGraph.RetryCommits.{RetryDecision, route_to_on_error, schedule_retry}
use sozai.FlowGraph.Unwind.{unwind_failure, walk, visit}
use sozai.FlowGraph.Failure.{fail_run}
use sozai.FlowGraph.Checks.{assert_run_state_shape, assert_frames, assert_top}
use sozai.FlowGraph.Definitions.{
  assert_run_state_definitions, assert_fits, assert_node, assert_loops, assert_link, is_parked,
  is_expected,
}
use sozai.FlowGraph.Resume.{ResumeEvent, validate_resume_event, validate_resume_event-retry_pending}
use sozai.FlowGraph.RetryCommits.{retry_pending}
use sozai.FlowGraph.Types.{Pending, PendingReason}
use sozai.Common.{◌≤◌, ◌↔◌}
use sozai.FlowGraph.Failure.{fail_node, fail_reference}
use sozai.FlowGraph.Shape.{IsShaped}
use sozai.FlowGraph.Preserve.{IsCut}
use sozai.FlowGraph.Sample.{
  iso, one_date, compiles, progress, caller, state, call_node, log_node, call_kind, runner, alone,
  failed, result, answer,
}

state-IsShaped : IsShaped one_date compiles 4 state
unfolding assert_run_state_shape assert_frames assert_top same assert_stack own
    assert_frame_attempts assert_attempts assert_retry_policy invocation_number is_positive_numeral
    number includes assert_status
state-IsShaped = refl

alone-IsShaped : IsShaped one_date compiles 4 alone.state
unfolding assert_run_state_shape assert_frames assert_top same assert_stack own
    assert_frame_attempts assert_attempts assert_retry_policy invocation_number is_positive_numeral
    number includes assert_status
alone-IsShaped = refl

uncut : IsCut alone.state alone.state caller [] []
uncut = record {
  frames = refl;
  cut = refl;
  run = refl;
  invocation = refl;
  outcome = refl;
  output = refl;
  error = refl;
}

-- The caller's retry is scheduled 100 ms after the failure at 5 ms, and suspends the run.
abbrev decision : RetryDecision
decision = record { delay_ms = 100; retry_at = 105; terminal_reason = none }

abbrev routed : Result FlowError Runner
routed = route_to_on_error (txt "a") (some attempts) failed 1 (txt "e") none none alone

routed_ok : routed ≡ ok (result routed)
unfolding route_to_on_error
routed_ok = refl

abbrev rescheduled : Result FlowError Runner
rescheduled = schedule_retry one_date (txt "a") progress failed decision none alone

rescheduled_ok : rescheduled ≡ ok (result rescheduled)
unfolding schedule_retry to_timestamp own same is_canonical_timestamp fits_shape
rescheduled_ok = refl

abbrev unwound : Result FlowError (Option Runner)
unwound =
    unwind_failure one_date 5 (λ d. d) runner (txt "node_failed") (some attempts) (some failed)

unwound_ok : unwound ≡ ok (some (answer unwound))
unfolding unwind_failure same own includes walk visit handle_at caller_step retry_step retry_timing
    get_retry_delay backoff_delay assert_retry_policy schedule_retry to_timestamp
    is_canonical_timestamp fits_shape top_index
unwound_ok = refl

-- A failure that no caller retries is routed by the caller.
abbrev refused : Result FlowError Runner
refused =
    fail_run one_date (λ d. d) (txt "node_failed") (txt "b") (some non_retryable) (some 1)
      (some failed) 5 runner

refused_ok : refused ≡ ok (result refused)
unfolding fail_run unwind_failure same own includes walk visit handle_at caller_step retry_step
    retry_timing get_retry_delay backoff_delay assert_retry_policy schedule_retry to_timestamp
    is_canonical_timestamp fits_shape route_to_on_error put remove top_index
refused_ok = refl

aborted_ok : abort runner ≡ ok (result (abort runner))
unfolding abort
aborted_ok = refl

state_fits : assert_run_state_definitions runner.kinds runner.definitions state ≡ none
unfolding assert_run_state_definitions assert_fits assert_node assert_loops assert_link is_parked
    is_expected own same
state_fits = refl

iso_printed : to_timestamp one_date 105 ≡ some iso
unfolding to_timestamp is_canonical_timestamp fits_shape same
iso_printed = refl

abbrev asked : Pending
asked = record {
  node = txt "b";
  reason = PendingReason.suspend;
  prompt = none;
  schema = none;
  value = none;
  deadline = some iso;
  resume_at = none;
}

abbrev any_value : Json → Json → Bool
any_value schema v = true

validate_resume_event-retry_pending_example :
    (validate_resume_event one_date any_value 106 (retry_pending (txt "a") iso) ResumeEvent.retry
      ≡ none)
    ↔ ((ResumeEvent.retry ≡ ResumeEvent.retry) × (105 ≤ 106))
validate_resume_event-retry_pending_example =
    validate_resume_event-retry_pending one_date any_value 106 (txt "a") iso 105 ResumeEvent.retry
      iso_printed

-- The callee's node, which has no `onError`, fails for good.
abbrev failed_node : Result FlowError Runner
failed_node =
    fail_node one_date (λ d. d) (txt "b") log_node call_kind non_retryable failed false 5 runner

failed_node_ok : failed_node ≡ ok (result failed_node)
unfolding fail_node fail_run top_index unwind_failure includes same own walk visit route_to_on_error
failed_node_ok = refl

-- A reference that the caller's node makes is not found, and is routed to its `onError`.
abbrev missing_flow : Result FlowError Runner
missing_flow =
    fail_reference one_date (λ d. d) (txt "missing_flow") (txt "a") call_node failed (some progress)
      5 alone

missing_flow_ok : missing_flow ≡ ok (result missing_flow)
unfolding fail_reference route_to_on_error
missing_flow_ok = refl

alone_fits : assert_run_state_definitions alone.kinds alone.definitions alone.state ≡ none
unfolding assert_run_state_definitions assert_fits own same assert_node assert_loops
alone_fits = refl
