-- ===== src/FlowGraph/Turns.antt =====
-- packages/flow-graph/src/run-drive.ts: what a turn of the loop reads and comes to, and the states
-- that it commits. What the clock and the environment answer is an argument.
use sozai.Common.{
  ◌-◌, ℕ, ◌+◌, Bool, true, false, Option, none, some, List, [], ◌∷◌, if◌then◌else◌, ◌&&◌,
}
use sozai.Common.Text.{Text, txt, truthy}
use sozai.Common.Fields.{Fields, own, put}
use sozai.Common.Result.{Result, ok, ◌>>=◌, required}
use sozai.FlowGraph.Types.{
  FlowRetryPolicy, FlowNode, ErrorMetadata, NodeAttempts, Status, running, suspended, ended, error,
  aborted, PendingReason, RunState,
}
use sozai.FlowGraph.Time.{Dates, to_timestamp}
use sozai.FlowGraph.Frames.{FlowError, bad_timestamp, set_top, invocation_id, draw_invocation}
use sozai.FlowGraph.Commits.{NodeError, NodeKind, Runner, PreparedFlow}
use sozai.FlowGraph.RetryCommits.{is_due, retry_pending}
use sozai.FlowGraph.Execution.{Answer}

-- The options of the graph that the loop reads.
pub record Options : Type 0 where
  pub max_steps : Option ℕ
  pub max_depth : ℕ
  pub retry_defaults : Fields FlowRetryPolicy

-- What the environment answers in one turn; `clock k` is the clock's reading at the k-th place that
-- reads it.
pub record Turn : Type 0 where
  pub aborted_before : Bool
  pub aborted_asleep : Bool
  pub aborted_awake : Bool
  pub aborted_failed : Bool
  pub clock : ℕ → ℕ
  pub random : ℕ → ℕ
  pub resuming : Bool
  pub answer : Answer
  pub prepare : Result NodeError PreparedFlow

-- How a turn ends: the loop goes on, or leaves; `raised`: a FlowGraphValidatorsError leaves it.
pub data Exit : Type 0 where
  goes_on leaves raised : Exit

-- The states that the turn yielded, the runner after it, and `recovering`.
pub record Turned : Type 0 where
  pub yielded : List RunState
  pub runner : Runner
  pub recovering : Bool
  pub exit : Exit

-- `final(status)`
abbrev pub is_final : Status → Bool
is_final running = false
is_final suspended = true
is_final ended = true
is_final error = true
is_final aborted = true

abbrev pub yield_once : Bool → Exit → Runner → Turned
yield_once recovering exit r = record {
  yielded = r.state ∷ [];
  runner = r;
  recovering = recovering;
  exit = exit;
}

-- `yield saved; if (final(saved.status)) break`
abbrev pub yield_saved : Bool → Runner → Turned
yield_saved recovering r =
    yield_once recovering (if is_final r.state.status then leaves else goes_on) r

-- A state that was yielded before the rest of its turn.
abbrev pub yielded_first : RunState → Turned → Turned
yielded_first s t = record t { yielded = s ∷ t.yielded }

abbrev pub is_waiting : RunState → Bool
is_waiting s = elim s.status [
  | suspended ↦ elim s.pending [
    | none ↦ false
    | some p ↦ elim p.reason [ PendingReason.suspend ↦ true | PendingReason.retry ↦ false ]
  ]
  | running ↦ false
  | ended ↦ false
  | error ↦ false
  | aborted ↦ false
]

-- `remaining`: the milliseconds to the time of the retry, none at or after it.
abbrev pub remaining : Option ℕ → ℕ → ℕ
remaining none now = 0
remaining (some time) now = time - now

-- `attempts.deadline && now >= new Date(attempts.deadline).getTime()`
abbrev pub is_overdue : Dates → Option Text → ℕ → Bool
is_overdue dates deadline now = truthy deadline && is_due dates deadline now

abbrev pub or_timeout : Option ErrorMetadata → ErrorMetadata
or_timeout none = record {
  type = txt "TimeoutInterruption";
  code = none;
  status = none;
  retry_after_ms = none;
}
or_timeout (some meta) = meta

abbrev pub or_single : Option FlowRetryPolicy → FlowRetryPolicy
or_single (some policy) = policy
or_single none = record {
  base = record {
    max_attempts = 1;
    attempt_timeout_ms = none;
    total_timeout_ms = none;
    backoff = none;
  };
  suspend_after_ms = none;
  max_interruptions = none;
}

abbrev pub first_policy : Option FlowRetryPolicy → Option FlowRetryPolicy → Option FlowRetryPolicy
first_policy (some policy) other = some policy
first_policy none other = other

abbrev pub policy_of : Options → FlowNode → NodeKind → FlowRetryPolicy
policy_of options node kind =
    or_single (first_policy node.retry (own options.retry_defaults kind.kind))

-- `toTimestamp(now + totalTimeoutMs)`, where the policy sets a total timeout.
abbrev pub deadline_from : Dates → ℕ → Option ℕ → Result FlowError (Option Text)
deadline_from dates now none = ok none
deadline_from dates now (some ms) =
    required bad_timestamp (to_timestamp dates (now + ms)) >>= λ t. ok (some t)

abbrev pub first_attempt : Text → FlowRetryPolicy → Option Text → NodeAttempts
first_attempt id policy deadline = record {
  invocation_id = id;
  policy = policy;
  count = 0;
  interruptions = 0;
  deadline = deadline;
  retry_at = none;
  last_failure = none;
}

-- `next` once the first attempt of a node is prepared.
unfoldable pub prepared_state : Text → FlowRetryPolicy → Option Text → RunState → RunState
unfolding set_top draw_invocation invocation_id
prepared_state node_id policy deadline s =
    record (set_top
      (λ f. record f {
        attempts =
            put f.attempts node_id
              (first_attempt (invocation_id s.run_id (s.invocation + 1)) policy deadline);
      })
      (draw_invocation s)) { steps = s.steps + 1 }

-- `next` once another interruption is counted.
unfoldable pub interrupted_state : Text → NodeAttempts → RunState → RunState
unfolding set_top
interrupted_state node_id a s =
    set_top
      (λ f. record f {
        attempts = put f.attempts node_id (record a { interruptions = a.interruptions + 1 });
      })
      s

-- The attempts once another attempt begins.
abbrev pub begun : NodeAttempts → NodeAttempts
begun a = record a { count = a.count + 1; interruptions = 0; retry_at = none }

unfoldable pub begun_state : Text → NodeAttempts → RunState → RunState
unfolding set_top
begun_state node_id a s =
    record (set_top (λ f. record f { attempts = put f.attempts node_id (begun a) }) s) {
      status = running;
      pending = none;
      in_flight =
          some (record { node = node_id; attempt = a.count + 1; invocation_id = a.invocation_id });
    }

-- `next` once a recovered run is suspended for a retry that is far off.
unfoldable pub resuspended_state : Text → Text → RunState → RunState
resuspended_state node_id retry_at s = record s {
  status = suspended;
  pending = some (retry_pending node_id retry_at);
}
