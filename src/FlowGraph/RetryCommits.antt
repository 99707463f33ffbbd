-- ===== src/FlowGraph/RetryCommits.antt =====
-- packages/flow-graph/src/retry-commits.ts: the commits that end a failure, a route to `onError`
-- or a retry that is scheduled.
use sozai.Common.{
  ℕ, ◌+◌, Bool, false, Option, none, some, List, [], ◌∷◌, ◌++◌, if◌then◌else◌, leb, ltb,
}
use sozai.Common.Text.{Text, txt, truthy}
use sozai.Common.Fields.{Fields, own, put, remove}
use sozai.Common.Json.{Json, object, str, num}
use sozai.Common.Result.{Result, ok, err, ◌>>=◌, required}
use sozai.FlowGraph.Types.{
  FlowDefinition, ErrorMetadata, Reason, attempts, total_timeout, non_retryable, interrupted,
  NodeAttempts, Frame, running, suspended, Pending, PendingReason, RunState, node_exit, retry_event,
  suspend_event,
}
use sozai.FlowGraph.Time.{Dates, to_timestamp}
use sozai.FlowGraph.Frames.{FlowError, missing_field, bad_timestamp, top, set_top}
use sozai.FlowGraph.Commits.{Runner, commit, fire, replace_definitions, settle}

-- When the next attempt runs, or the reason that none does.
pub record RetryDecision : Type 0 where
  pub delay_ms : ℕ
  pub retry_at : ℕ
  pub terminal_reason : Option Reason

-- The working state of an unwind and the definitions of its frames.
pub record UnwoundState : Type 0 where
  pub state : RunState
  pub definitions : List FlowDefinition

pub record RetryTiming : Type 0 where
  pub retry_at : ℕ
  pub expired : Bool

-- `time >= new Date(deadline).getTime()`, false at a deadline that is no date.
abbrev pub at_or_after : Option ℕ → ℕ → Bool
at_or_after none time = false
at_or_after (some limit) time = leb limit time

abbrev pub is_due : Dates → Option Text → ℕ → Bool
is_due dates none time = false
is_due dates (some deadline) time = at_or_after (dates.get_time deadline) time

unfoldable pub retry_timing : Dates → Option Text → ℕ → ℕ → RetryTiming
retry_timing dates deadline now delay_ms = record {
  retry_at = now + delay_ms;
  expired = is_due dates deadline (now + delay_ms);
}

abbrev pub reason_text : Reason → Text
reason_text attempts = txt "attempts"
reason_text total_timeout = txt "total_timeout"
reason_text non_retryable = txt "non_retryable"
reason_text interrupted = txt "interrupted"

-- `...(x ? { name: x } : {})` and the like.
abbrev pub spread {ℓ} : {A : Type ℓ} → Text → (A → Json) → Option A → List (Text × Json)
spread name f none = []
spread name f (some a) = (name, f a) ∷ []

unfoldable pub call_error : Text → Option Reason → ℕ → Fields Json
call_error code reason count =
    (txt "type", str (txt "FlowCallError"))
    ∷ (txt "code", str code)
    ∷ (spread (txt "reason") (λ r. str (reason_text r)) reason ++ (txt "attempts", num count) ∷ [])

abbrev pub if_truthy : Option Text → Option Text
if_truthy t = if truthy t then t else none

-- The handled error that is recorded, where the caller gives none.
unfoldable pub node_error : Reason → ErrorMetadata → ℕ → Fields Json
node_error reason meta count =
    (txt "type", str meta.type)
    ∷ (spread (txt "code") str (if_truthy meta.code)
        ++ (spread (txt "status") num meta.status
            ++ (txt "reason", str (reason_text reason)) ∷ (txt "attempts", num count) ∷ []))

-- `unwound?.state ?? clone(runner.state)`, and the definitions that match.
abbrev pub working : Option UnwoundState → Runner → UnwoundState
working none r = record { state = r.state; definitions = r.definitions }
working (some unwound) r = unwound

abbrev pub handled_error :
    Option (Fields Json) → Option Reason → ErrorMetadata → ℕ → Result FlowError (Fields Json)
handled_error (some fields) reason meta count = ok fields
handled_error none none meta count = err missing_field
handled_error none (some reason) meta count = ok (node_error reason meta count)

-- The failed node's frame once its failure is handled.
unfoldable pub route_frame : Text → Fields Json → Text → Frame → Frame
route_frame node_id fields target frame = record frame {
  results = put frame.results node_id (object ((txt "error", object fields) ∷ []));
  node = target;
  attempts = remove frame.attempts node_id;
}

unfoldable pub route_to_on_error :
    (node_id : Text) (reason : Option Reason) (meta : ErrorMetadata) (count : ℕ) (target : Text)
    (handled : Option (Fields Json)) (unwound : Option UnwoundState)
    → Runner
    → Result FlowError Runner
unfolding route_frame commit set_top top
route_to_on_error node_id reason meta count target handled unwound r =
    top (working unwound r).state >>= λ frame. handled_error handled reason meta count >>= λ fields.
    ok (
      let w = working unwound r in
      let r' =
        commit (settle running (set_top (route_frame node_id fields target) w.state))
          (replace_definitions w.definitions r) in
      fire (node_exit node_id r'.state) r')

-- The node's attempts once a retry is scheduled.
unfoldable pub schedule_frame : Text → ErrorMetadata → Text → NodeAttempts → Frame → Frame
schedule_frame node_id meta retry_at old frame = record frame {
  attempts =
      put frame.attempts node_id
        (record old { last_failure = some meta; retry_at = some retry_at });
}

-- `delayMs > suspendAfterMs`, where that is set.
abbrev pub exceeds : ℕ → Option ℕ → Bool
exceeds delay_ms none = false
exceeds delay_ms (some limit) = ltb limit delay_ms

abbrev pub retry_pending : Text → Text → Pending
retry_pending node_id retry_at = record {
  node = node_id;
  reason = PendingReason.retry;
  prompt = none;
  schema = none;
  value = none;
  deadline = none;
  resume_at = some retry_at;
}

-- `next` of `scheduleRetry` before its commit.
unfoldable pub scheduled_state :
    Text → ErrorMetadata → Text → Bool → NodeAttempts → RunState → RunState
unfolding schedule_frame set_top
scheduled_state node_id meta retry_at suspends old state =
    let s = set_top (schedule_frame node_id meta retry_at old) state in
    if suspends
    then record (settle suspended s) { pending = some (retry_pending node_id retry_at) }
    else settle running s

unfoldable pub schedule_retry :
    Dates
    → (node_id : Text) (attempt : NodeAttempts) (meta : ErrorMetadata) (decision : RetryDecision)
      (unwound : Option UnwoundState)
    → Runner
    → Result FlowError Runner
unfolding scheduled_state commit top
schedule_retry dates node_id attempt meta decision unwound r =
    top (working unwound r).state >>= λ frame.
    required missing_field (own frame.attempts node_id) >>= λ old.
    required bad_timestamp (to_timestamp dates decision.retry_at) >>= λ retry_at. ok (
      let w = working unwound r in
      let suspends = exceeds decision.delay_ms attempt.policy.suspend_after_ms in
      let r' =
        commit (scheduled_state node_id meta retry_at suspends old w.state)
          (replace_definitions w.definitions r) in
      let r'' = fire (retry_event node_id decision.delay_ms r'.state) r' in
      if suspends then fire (suspend_event node_id r'.state) r'' else r'')
