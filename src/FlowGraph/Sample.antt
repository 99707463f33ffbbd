-- ===== src/FlowGraph/Sample.antt =====
-- A run of two flows, its definitions and a clock that knows one instant, for the tests.

use mathlib.Core.Path.{subst}
use sozai.Common.{
  ap, sym, ◌∙◌, ℕ, ◌≡◌, refl, Bool, true, false, Option, none, some, [], ◌∷◌, ◌==◌, if◌then◌else◌,
  arith,
}
use sozai.Common.Text.{Text, txt, same}
use sozai.Common.Json.{Json}
use sozai.Common.Result.{Result, ok, err}
use sozai.FlowGraph.Types.{
  FlowRetryPolicy, ErrorMetadata, FlowNode, FlowDefinition, NodeAttempts, Frame, FlowPin, call,
  running, RunState,
}
use sozai.FlowGraph.Time.{Dates}
use sozai.FlowGraph.Frames.{FlowError}
use sozai.FlowGraph.Commits.{Runner, NodeKind}

abbrev pub iso : Text
iso = txt "1970-01-01T00:00:00.105Z"

abbrev pub print : ℕ → Option Text
print ms = if ms == 105 then some iso else none

abbrev pub read : Text → Option ℕ
read t = if same t iso then some 105 else none

pub read-iso : read iso ≡ some 105
unfolding same
read-iso = refl

pub read-print : (ms : ℕ) (t : Text) → print ms ≡ some t → read t ≡ some ms
read-print ms t h = go (ms == 105) refl
  where
    go : (b : Bool) → (ms == 105) ≡ b → read t ≡ some ms
    go false e = ground arith
    go true e =
        let at : ms ≡ 105 = ground arith in
        let whole : iso ≡ t = ground arith in
        subst (λ u. read u ≡ some ms) whole (read-iso ∙ ap some (sym at))

-- A `Date` that knows one instant.
abbrev pub one_date : Dates
one_date = record { to_iso = print; get_time = read; get_time-to_iso = read-print }

abbrev pub compiles : Json → Bool
compiles schema = true

abbrev pub policy : FlowRetryPolicy
policy = record {
  base = record {
    max_attempts = 3;
    attempt_timeout_ms = none;
    total_timeout_ms = none;
    backoff = some (record { initial_ms = 100; multiplier = none; max_ms = none; jitter = false });
  };
  suspend_after_ms = some 50;
  max_interruptions = none;
}

abbrev pub progress : NodeAttempts
progress = record {
  invocation_id = txt "r:1";
  policy = policy;
  count = 1;
  interruptions = 0;
  deadline = none;
  retry_at = none;
  last_failure = none;
}

abbrev pub pin : Text → FlowPin
pin id = record { id = id; version = 1; digest = txt "d" }

-- The caller, which waits at its node "a", and the frame that it called, at its node "b".
abbrev pub caller : Frame
caller = record {
  flow = pin (txt "outer");
  node = txt "a";
  input = Json.null;
  state = [];
  results = [];
  loops = [];
  attempts = (txt "a", progress) ∷ [];
  continuation = none;
}

abbrev pub callee : Frame
callee = record {
  flow = pin (txt "inner");
  node = txt "b";
  input = Json.null;
  state = [];
  results = [];
  loops = [];
  attempts = [];
  continuation = some (record {
    kind = call;
    caller_node = txt "a";
    return_to = txt "c";
    on_error = some (txt "e");
  });
}

abbrev pub state : RunState
state = record {
  run_id = txt "r";
  revision = 4;
  status = running;
  frames = caller ∷ callee ∷ [];
  steps = 2;
  invocation = 1;
  in_flight = none;
  origin = none;
  pending = none;
  outcome = none;
  output = none;
  error = none;
}

abbrev pub call_node : FlowNode
call_node = record {
  kind = txt "call";
  next = some (txt "c");
  on_error = some (txt "e");
  body_is_flow = false;
  body_id = none;
  max_iterations = 0;
  retry = some policy;
}

abbrev pub log_node : FlowNode
log_node = record {
  kind = txt "log";
  next = none;
  on_error = none;
  body_is_flow = false;
  body_id = none;
  max_iterations = 0;
  retry = none;
}

abbrev pub outer : FlowDefinition
outer = record {
  id = txt "outer";
  version = 1;
  start = txt "a";
  nodes = (txt "a", call_node) ∷ (txt "c", log_node) ∷ (txt "e", log_node) ∷ [];
}

abbrev pub inner : FlowDefinition
inner = record { id = txt "inner"; version = 1; start = txt "b"; nodes = (txt "b", log_node) ∷ [] }

abbrev pub call_kind : NodeKind
call_kind = record {
  kind = txt "call";
  retries = true;
  describe_error = none;
  retryable = none;
  targets = λ node. [];
  can_resume = true;
  terminal = true;
  result_schema = none;
}

abbrev pub runner : Runner
runner = record {
  state = state;
  definitions = outer ∷ inner ∷ [];
  kinds =
      (txt "call", call_kind)
      ∷ (txt "log", record call_kind { kind = txt "log"; retries = false })
      ∷ [];
  fired = [];
}

-- Only the caller is left: the run it is in goes on with its call's node.
abbrev pub alone : Runner
alone = record runner { state = record state { frames = caller ∷ [] }; definitions = outer ∷ [] }

abbrev pub failed : ErrorMetadata
failed = record { type = txt "Error"; code = none; status = none; retry_after_ms = none }

abbrev pub result : Result FlowError Runner → Runner
result (ok r) = r
result (err e) = runner

abbrev pub answer : Result FlowError (Option Runner) → Runner
answer (ok (some r)) = r
answer _ = runner
