-- ===== src/FlowGraph/Checks.antt =====
-- packages/flow-graph/src/state.ts: the checks on a persisted state. Its JSON schema
-- (packages/flow-graph/src/schemas.ts) holds by the types, but for the pattern of timestamps and the
-- bounds of policies, which are checked here with the rest: the schema refuses an empty timestamp,
-- which the checks after it pass over. An issue is named for its message; its path is left out.
use sozai.Common.{
  ℕ, Bool, true, false, Option, none, some, List, [], ◌∷◌, ◌++◌, ltb, leb, ◌==◌, is_some,
  if◌then◌else◌, ◌&&◌, ◌||◌, not,
}
use sozai.Common.Lists.{length}
use sozai.Common.Text.{includes, Text, same, truthy}
use sozai.Common.Fields.{Fields, own}
use sozai.Common.Decimal.{is_positive_numeral, number}
use sozai.Common.Json.{Json}
use sozai.Common.Result.{first_issue, ◌<|>◌}
use sozai.Retry.{max_delay_ms, above, assert_retry_policy, or_default}
use sozai.FlowGraph.Types.{
  FlowRetryPolicy, NodeAttempts, Frame, Pending, PendingReason, Status, running, suspended, ended,
  error, aborted, InFlight, RunState,
}
use sozai.FlowGraph.Time.{Dates, is_canonical_timestamp}
use sozai.FlowGraph.Frames.{last?}

pub data Issue : Type 0 where
  policy_invalid suspend_after_total count_bounds interruptions_bounds initial_progress : Issue
  deadline_format retry_at_format retry_conflicts : Issue
  terminal_pending terminal_in_flight terminal_retry running_pending running_outcome : Issue
  running_output running_error running_retry_in_flight suspended_not_pending : Issue
  suspended_in_flight suspended_outcome suspended_output suspended_error pending_retry : Issue
  pending_input error_status result_status : Issue
  depth root_continuation continuation_missing attempts_owner parked_retry : Issue
  invocation_range invocation_shared no_frame in_flight_mismatch pending_mismatch : Issue
  schema_compile : Issue

abbrev pub above_option : Option ℕ → Option ℕ → Bool
above_option (some a) (some b) = leb b a
above_option _ _ = false

-- The check of a policy, and the bounds that only the schema puts on one.
unfoldable pub is_bad_policy : FlowRetryPolicy → Bool
is_bad_policy policy =
    is_some (assert_retry_policy policy.base)
    || above policy.suspend_after_ms max_delay_ms
    || above policy.max_interruptions 100

module _ (dates : Dates) where
  -- The schema's pattern and the check of the format together.
  abbrev pub bad_time : Option Text → Bool
  bad_time none = false
  bad_time (some t) = not (is_canonical_timestamp dates t)

  -- `in_flight`: the frame is the active one and the state has an attempt in flight.
  unfoldable pub assert_attempts : NodeAttempts → Bool → Option Issue
  unfolding is_bad_policy
  assert_attempts a in_flight = first_issue (
      (is_bad_policy a.policy, policy_invalid)
      ∷ (above_option a.policy.suspend_after_ms a.policy.base.total_timeout_ms, suspend_after_total)
      ∷ (ltb a.policy.base.max_attempts a.count, count_bounds)
      ∷ (ltb (or_default a.policy.max_interruptions 3) a.interruptions, interruptions_bounds)
      ∷ (
        a.count == 0
            && (not (a.interruptions == 0)
                || is_some a.last_failure
                || truthy a.retry_at
                || in_flight),
        initial_progress,
      )
      ∷ (bad_time a.deadline, deadline_format)
      ∷ (bad_time a.retry_at, retry_at_format)
      ∷ (truthy a.retry_at && (ltb a.count 1 || in_flight), retry_conflicts)
      ∷ [])

abbrev pub is_terminal : Status → Bool
is_terminal ended = true
is_terminal error = true
is_terminal aborted = true
is_terminal _ = false

abbrev pub is_running : Status → Bool
is_running running = true
is_running _ = false

abbrev pub is_suspended : Status → Bool
is_suspended suspended = true
is_suspended _ = false

abbrev pub is_error : Status → Bool
is_error error = true
is_error _ = false

abbrev pub is_ended : Status → Bool
is_ended ended = true
is_ended _ = false

abbrev pub is_retry : PendingReason → Bool
is_retry PendingReason.retry = true
is_retry PendingReason.suspend = false

-- `attempts?.retryAt`
abbrev pub scheduled : Option NodeAttempts → Option Text
scheduled none = none
scheduled (some a) = a.retry_at

-- `a === b` on optional texts.
abbrev pub same_option : Option Text → Option Text → Bool
same_option none none = true
same_option (some a) (some b) = same a b
same_option _ _ = false

abbrev pub pending_retry_bad : Option Text → Option Pending → Bool
pending_retry_bad retry_at none = false
pending_retry_bad retry_at (some p) =
    is_retry p.reason
    && (not (truthy retry_at)
        || not (same_option retry_at p.resume_at)
        || is_some p.deadline
        || is_some p.schema
        || is_some p.value
        || is_some p.prompt)

abbrev pub pending_input_bad : Option Text → Option Pending → Bool
pending_input_bad retry_at none = false
pending_input_bad retry_at (some p) =
    not (is_retry p.reason) && (truthy retry_at || truthy p.resume_at)

unfoldable pub assert_status : RunState → Option NodeAttempts → Option Issue
assert_status s attempts =
    let retry_at = scheduled attempts in
    let pending = is_some s.pending in
    let flying = is_some s.in_flight in
    let failed = is_some s.error in
    first_issue (
      (is_terminal s.status && pending, terminal_pending)
      ∷ (is_terminal s.status && flying, terminal_in_flight)
      ∷ (is_terminal s.status && truthy retry_at, terminal_retry)
      ∷ (is_running s.status && pending, running_pending)
      ∷ (is_running s.status && is_some s.outcome, running_outcome)
      ∷ (is_running s.status && is_some s.output, running_output)
      ∷ (is_running s.status && failed, running_error)
      ∷ (is_running s.status && (truthy retry_at && flying), running_retry_in_flight)
      ∷ (is_suspended s.status && not pending, suspended_not_pending)
      ∷ (is_suspended s.status && flying, suspended_in_flight)
      ∷ (is_suspended s.status && is_some s.outcome, suspended_outcome)
      ∷ (is_suspended s.status && is_some s.output, suspended_output)
      ∷ (is_suspended s.status && failed, suspended_error)
      ∷ (pending_retry_bad retry_at s.pending, pending_retry)
      ∷ (pending_input_bad retry_at s.pending, pending_input)
      ∷ ((is_error s.status && not failed) || (not (is_error s.status) && failed), error_status)
      ∷ (not (is_ended s.status) && (is_some s.outcome || is_some s.output), result_status)
      ∷ [])

-- `text.startsWith(prefix)`, with what follows.
unfoldable pub after_prefix : Text → Text → Option Text
after_prefix [] t = some t
after_prefix (p ∷ ps) [] = none
after_prefix (p ∷ ps) (c ∷ t) = if p == c then after_prefix ps t else none

abbrev numeral : Option Text → Option ℕ
numeral none = none
numeral (some rest) = if is_positive_numeral rest then some (number rest) else none

unfoldable pub invocation_number : Text → Text → Option ℕ
unfolding after_prefix
invocation_number run_id invocation_id = numeral (after_prefix (run_id ++ 58 ∷ []) invocation_id)

abbrev pub out_of_range : ℕ → Option ℕ → Bool
out_of_range latest none = true
out_of_range latest (some n) = ltb latest n

abbrev pub foreign_attempts : Fields NodeAttempts → Text → Bool
foreign_attempts [] node = false
foreign_attempts ((key, a) ∷ []) node = not (same key node)
foreign_attempts (_ ∷ _ ∷ _) node = true

-- `seen` with the frame's invocation.
abbrev pub see : Option NodeAttempts → List Text → List Text
see none seen = seen
see (some a) seen = a.invocation_id ∷ seen

abbrev pub is_empty : List Frame → Bool
is_empty [] = true
is_empty (_ ∷ _) = false

module _ (dates : Dates) (s : RunState) where
  -- The frame's checks on its attempts; `last`: it is the active frame.
  unfoldable pub assert_frame_attempts : Bool → List Text → NodeAttempts → Option Issue
  assert_frame_attempts last seen a =
      first_issue ((not last && is_some a.retry_at, parked_retry) ∷ [])
      <|> assert_attempts dates a (last && is_some s.in_flight)
      <|> first_issue (
          (out_of_range s.invocation (invocation_number s.run_id a.invocation_id), invocation_range)
          ∷ (includes seen a.invocation_id, invocation_shared)
          ∷ [])

  -- The checks of one frame, in the loop of `assertStack`.
  unfoldable pub assert_frame : Bool → Bool → List Text → Frame → Option Issue
  assert_frame root last seen frame =
      first_issue (
        (root && is_some frame.continuation, root_continuation)
        ∷ (not root && not (is_some frame.continuation), continuation_missing)
        ∷ (foreign_attempts frame.attempts frame.node, attempts_owner)
        ∷ [])
      <|> elim (own frame.attempts frame.node) [
        | none ↦ none
        | some a ↦ assert_frame_attempts last seen a
      ]

  unfoldable pub assert_frames : Bool → List Text → List Frame → Option Issue
  assert_frames root seen [] = none
  assert_frames root seen (frame ∷ rest) =
      assert_frame root (is_empty rest) seen frame
      <|> assert_frames false (see (own frame.attempts frame.node) seen) rest

  unfoldable pub assert_stack : ℕ → Option Issue
  unfolding assert_frames assert_frame
  assert_stack max_depth =
      first_issue ((ltb max_depth (length s.frames), depth) ∷ []) <|> assert_frames true [] s.frames

abbrev pub flight_bad : Text → Option NodeAttempts → Option InFlight → Bool
flight_bad node attempts none = false
flight_bad node none (some f) = true
flight_bad node (some a) (some f) =
    not (same f.node node)
    || not (f.attempt == a.count)
    || ltb f.attempt 1
    || not (same f.invocation_id a.invocation_id)

abbrev pub pending_bad : Dates → Text → Option Pending → Bool
pending_bad dates node none = false
pending_bad dates node (some p) =
    not (same p.node node) || bad_time dates p.deadline || bad_time dates p.resume_at

abbrev pub schema_bad : (Json → Bool) → Option Pending → Bool
schema_bad compiles none = false
schema_bad compiles (some p) = elim p.schema [ none ↦ false | some schema ↦ not (compiles schema) ]

-- `compiles`: the validator factory accepts the schema of a pending input. The checks that follow
-- those of the stack, at its active frame.
unfoldable pub assert_top : Dates → (Json → Bool) → RunState → Frame → Option Issue
assert_top dates compiles s frame =
    first_issue (
      (flight_bad frame.node (own frame.attempts frame.node) s.in_flight, in_flight_mismatch)
      ∷ (pending_bad dates frame.node s.pending, pending_mismatch)
      ∷ (schema_bad compiles s.pending, schema_compile)
      ∷ [])
    <|> assert_status s (own frame.attempts frame.node)

unfoldable pub assert_run_state_shape : Dates → (Json → Bool) → ℕ → RunState → Option Issue
assert_run_state_shape dates compiles max_depth s =
    assert_stack dates s max_depth <|> elim (last? s.frames) [
      | none ↦ some no_frame
      | some frame ↦ assert_top dates compiles s frame
    ]
