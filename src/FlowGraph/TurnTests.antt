-- ===== src/FlowGraph/TurnTests.antt =====
-- A turn of a run at concrete inputs, and instances of the theorems on it.
use sozai.FlowGraph.Checks.{is_bad_policy}
use sozai.FlowGraph.RetryCommits.{route_to_on_error}
use sozai.FlowGraph.Failure.{fail_reference, is_reference_node}
use sozai.FlowGraph.Definitions.{assert_fits, assert_loops, assert_node}
use sozai.Common.Decimal.{is_positive_numeral, number}
use sozai.FlowGraph.Checks.{
  assert_attempts, assert_frame_attempts, assert_stack, assert_status, assert_top,
  invocation_number,
}
use sozai.FlowGraph.Commits.{apply_result}
use sozai.FlowGraph.Execution.{run_one}
use sozai.Common.Text.{includes, same}
use sozai.FlowGraph.Frames.{top}
use mathlib.Core.Path.{subst}
use sozai.Common.{
  Bool, Option, ◌<◌, ◌≡◌, refl, sym, ◌∙◌, inl, inr, true, false, map, none, some, List, [], ◌∷◌,
  arith, some_injective, map,
}
use sozai.Common.Lists.{get_elem?}
use sozai.Common.Text.{txt}
use sozai.Common.Fields.{own}
use sozai.Common.Json.{Json}
use sozai.Common.Result.{Result, ok, err}
use sozai.FlowGraph.Types.{FlowNode, FlowDefinition, NodeAttempts, RunState, Status, running, ended}
use sozai.FlowGraph.Frames.{FlowError, top_index}
use sozai.FlowGraph.Commits.{Runner, thrown, flow_failure, finish, Staged}
use sozai.FlowGraph.Checks.{assert_run_state_shape}
use sozai.FlowGraph.Definitions.{assert_run_state_definitions}
use sozai.FlowGraph.Execution.{Compilation, compiled, answered}
use sozai.FlowGraph.Execution.{Executed, run_one}
use sozai.FlowGraph.Results.{apply_result-IsShaped}
use sozai.FlowGraph.Definitions.{definitions-IsLinked}
use sozai.FlowGraph.Failure.{handle_node_error}
use sozai.FlowGraph.Handling.{IsCounted, handle_node_error-IsShaped}
use sozai.FlowGraph.Prepared.{IsUsable}
use sozai.FlowGraph.Types.{FlowPin}
use sozai.FlowGraph.Entry.{open_run, recovers}
use sozai.FlowGraph.Opening.{open_run-IsSound}
use sozai.FlowGraph.Commits.{apply_result}
use sozai.FlowGraph.Shape.{IsShaped}
use sozai.FlowGraph.Sample.{outer, call_kind, result}
use sozai.FlowGraph.Turns.{raised, Options, Turn, Turned, policy_of}
use sozai.FlowGraph.Drive.{drive_turn}
use sozai.FlowGraph.Driving.{IsSound}
use sozai.Retry.{assert_retry_policy}
use sozai.FlowGraph.Starting.{IsPolicy}
use sozai.FlowGraph.Turning.{drive_turn-IsSound, HasPolicy, IsAttempted}
use sozai.FlowGraph.Sample.{one_date, compiles, progress, caller, call_node, policy, alone, runner}

abbrev compile : Json → Compilation
compile schema = compiled

abbrev options : Options
options = record { max_steps = none; max_depth = 4; retry_defaults = [] }

abbrev staged : Staged
staged = record { state = []; results = []; loops = [] }

-- The node's execution ends the flow.
abbrev turn : Turn
turn = record {
  aborted_before = false;
  aborted_asleep = false;
  aborted_awake = false;
  aborted_failed = false;
  clock = λ k. 5;
  random = λ k. 0;
  resuming = false;
  answer = answered (finish (some (txt "done")) none) none staged;
  prepare = err (thrown (txt "Error"));
}

abbrev turned : Result FlowError Turned → Turned
turned (ok t) = t
turned (err e) = record { yielded = []; runner = runner; recovering = false; exit = raised }

abbrev statuses : Turned → List Status
statuses t = map (λ (s : RunState). s.status) t.yielded

abbrev first_turn : Turned
first_turn = turned (drive_turn one_date compile options turn false alone)

first_turn_ok : drive_turn one_date compile options turn false alone ≡ ok first_turn
unfolding drive_turn top top_index own same run_one apply_result
first_turn_ok = refl

-- The attempt is recorded before it runs, and then the run ends.
first_turn-statuses : statuses first_turn ≡ running ∷ ended ∷ []
unfolding drive_turn top top_index own same run_one apply_result
first_turn-statuses = refl

alone-IsShaped : assert_run_state_shape one_date compiles 4 alone.state ≡ none
unfolding assert_run_state_shape assert_stack same own assert_frame_attempts assert_attempts
    assert_retry_policy invocation_number is_positive_numeral number includes assert_top
    assert_status
alone-IsShaped = refl

alone_fits : assert_run_state_definitions alone.kinds alone.definitions alone.state ≡ none
unfolding assert_run_state_definitions assert_fits own same assert_node assert_loops
alone_fits = refl

own-progress : own caller.attempts caller.node ≡ some progress
unfolding own same
own-progress = refl

caller-IsAttempted : IsAttempted alone caller
caller-IsAttempted a o = λ _.
    subst (λ (x : NodeAttempts). 0 < x.count) (some_injective (sym own-progress ∙ o)) (omega arith)

caller_node :
    (definition : FlowDefinition) (node : FlowNode)
    → get_elem? alone.definitions (top_index alone.state) ≡ some definition
    → own definition.nodes caller.node ≡ some node
    → call_node ≡ node
unfolding top_index own same
caller_node definition node d n =
    some_injective (
      subst (λ (x : FlowDefinition). own x.nodes caller.node ≡ some node) (sym (some_injective d))
        n)

caller_policy : HasPolicy options alone caller
unfolding assert_retry_policy is_bad_policy
caller_policy definition node kind d n k =
    subst (λ (x : FlowNode). IsPolicy (policy_of options x kind)) (caller_node definition node d n)
      (refl, refl)

drive_turn_example : IsSound one_date compile options first_turn
drive_turn_example =
    drive_turn-IsSound one_date compile options turn alone caller false first_turn alone-IsShaped
      (inl refl) alone_fits refl caller-IsAttempted caller_policy tt first_turn_ok

-- The executor lets the end of the flow through, and the runner applies it.
abbrev executed : Executed
executed = record { result = finish (some (txt "done")) none; staged = staged; prepared = none }

executed_ok :
    run_one one_date compile
      (txt "a")
      call_node
      call_kind
      4
      turn.prepare
      false
      alone.state
      turn.answer
    ≡ ok executed
unfolding run_one
executed_ok = refl

abbrev applied : Result FlowError Runner
applied = apply_result (txt "a") false none staged executed.result alone

applied_ok : applied ≡ ok (result applied)
unfolding apply_result top_index own same
applied_ok = refl

apply_result_example : IsShaped one_date compiles 4 (result applied).state
apply_result_example =
    apply_result-IsShaped one_date compiles 4 alone (result applied) alone-IsShaped (inl refl)
      (definitions-IsLinked alone.kinds alone.definitions alone.state alone_fits) caller false none
      staged executed.result refl (inr (progress, own-progress, refl)) tt applied_ok

-- The call's flow is missing, and the failure is routed to the call's onError.
abbrev handled : Result FlowError Runner
handled =
    handle_node_error one_date (λ d. d) (λ k. 5) (txt "a") call_node call_kind
      (flow_failure (txt "missing_flow")) false alone

handled_ok : handled ≡ ok (result handled)
unfolding handle_node_error includes same top is_reference_node fail_reference route_to_on_error
handled_ok = refl

caller-IsCounted : IsCounted caller
caller-IsCounted a o =
    subst (λ (x : NodeAttempts). 0 < x.count) (some_injective (sym own-progress ∙ o)) (omega arith)

handle_node_error_example : IsShaped one_date compiles 4 (result handled).state
handle_node_error_example =
    handle_node_error-IsShaped one_date compiles 4 (λ d. d) (λ k. 5) call_node call_kind
      (flow_failure (txt "missing_flow")) caller alone (result handled) alone-IsShaped (inl refl)
      (definitions-IsLinked alone.kinds alone.definitions alone.state alone_fits) refl false
      caller-IsCounted handled_ok

-- The caller before its first step.
abbrev unstarted : RunState
unstarted = record alone.state { frames = record caller { attempts = [] } ∷ []; invocation = 0 }

unstarted-IsShaped : assert_run_state_shape one_date compiles 4 unstarted ≡ none
unfolding assert_run_state_shape assert_stack own assert_top assert_status
unstarted-IsShaped = refl

usable : IsUsable one_date policy none
unfolding assert_retry_policy is_bad_policy
usable = record { valid = refl; within = refl; dated = refl }

unattempted : own {V = NodeAttempts} [] caller.node ≡ none
unfolding own
unattempted = refl

-- The run is stored, and recovered.
abbrev accepts : Json → Json → Bool
accepts schema v = true

abbrev resolve : FlowPin → Option FlowDefinition
resolve pin = some outer

abbrev accepts_input : FlowDefinition → Json → Bool
accepts_input definition input = true

abbrev preflight : FlowDefinition → Bool
preflight definition = true

abbrev recovered : Runner
recovered = record alone { fired = [] }

recovered_ok :
    open_run one_date compile accepts options alone.kinds resolve accepts_input preflight 5
      (recovers alone.state)
    ≡ ok recovered
unfolding open_run assert_run_state_shape assert_stack same own assert_frame_attempts
    assert_attempts assert_retry_policy invocation_number is_positive_numeral number includes
    assert_top assert_status assert_run_state_definitions assert_fits assert_node assert_loops
recovered_ok = refl

recovered-turn_ok : drive_turn one_date compile options turn true recovered ≡ ok first_turn
unfolding drive_turn top top_index own same run_one apply_result
recovered-turn_ok = refl

open_run_example : IsSound one_date compile options first_turn
open_run_example =
    open_run-IsSound one_date compile accepts options alone.kinds resolve accepts_input preflight 5
      turn (recovers alone.state) recovered caller first_turn tt recovered_ok refl
      caller-IsAttempted caller_policy tt recovered-turn_ok
