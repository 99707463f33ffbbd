-- ===== src/FlowGraph/Execution.antt =====
-- packages/flow-graph/src/run-execution.ts: the checks of a node's execution on what its kind
-- answers. That values are JSON holds by the types; spans and the signal's reasons are left out.
use sozai.Common.{
  ℕ, ◌+◌, Bool, true, false, Option, none, some, ltb, if◌then◌else◌, ◌&&◌, ◌||◌, not,
}
use sozai.Common.Lists.{length}
use sozai.Common.Text.{Text, txt, same, includes, truthy}
use sozai.Common.Fields.{put}
use sozai.Common.Json.{Json}
use sozai.Common.Result.{Result, ok, err, ◌>>=◌}
use sozai.FlowGraph.Types.{FlowNode, RunState}
use sozai.FlowGraph.Time.{Dates, is_canonical_timestamp}
use sozai.FlowGraph.Commits.{
  NodeError, flow_failure, NodeKind, PreparedFlow, NodeResult, push, replace, go_to, finish,
  suspend, Staged,
}

-- What the validator factory does with a schema: it may lack validators altogether.
pub data Compilation : Type 0 where
  compiled uncompilable unavailable : Compilation

abbrev pub compiles_by : (Json → Compilation) → Json → Bool
compiles_by compile schema = elim (compile schema) [
  | compiled ↦ true
  | uncompilable ↦ false
  | unavailable ↦ false
]

-- What an execution throws: a FlowGraphValidatorsError, which interrupts the run, or a failure of
-- the node.
pub data Thrown : Type 0 where
  validators_error : Thrown
  node_error : NodeError → Thrown

-- What comes of asking the kind's `execute` or `resume`, raced against its timers: a signal or a
-- timer cuts it short, before the kind is asked or later; it throws; it answers nothing; or it
-- answers a result, with the `result` that a `next` carries.
pub data Answer : Type 0 where
  cut_short : NodeError → Answer
  rejected : NodeError → Answer
  nothing : Answer
  answered : NodeResult → Option Json → Staged → Answer

pub record Executed : Type 0 where
  pub result : NodeResult
  pub staged : Staged
  pub prepared : Option PreparedFlow

abbrev pub fail_with : {A : Type 0} → Text → Result Thrown A
fail_with code = err (node_error (flow_failure code))

abbrev pub is_pushing : Text → Bool
is_pushing kind = same kind (txt "call") || same kind (txt "loop")

module _ (max_depth : ℕ) (kind : NodeKind) (prepare : Result NodeError PreparedFlow) where
  abbrev pub take_prepared : Result NodeError PreparedFlow → Result Thrown (Option PreparedFlow)
  take_prepared (ok flow) = ok (some flow)
  take_prepared (err e) = err (node_error e)

  -- The flow that a built-in kind's push or replace prepares, within the depth of the stack.
  unfoldable pub prepare_for : RunState → NodeResult → Result Thrown (Option PreparedFlow)
  prepare_for s (push input c) =
      if is_pushing kind.kind
      then if ltb max_depth (length s.frames + 1)
        then fail_with (txt "max_depth")
        else take_prepared prepare
      else ok none
  prepare_for s (replace input) =
      if same kind.kind (txt "goto") then take_prepared prepare else ok none
  prepare_for s _ = ok none

abbrev pub require_prepared : Executed → Result Thrown Executed
require_prepared x = elim x.prepared [ none ↦ fail_with (txt "invalid_value") | some flow ↦ ok x ]

abbrev pub check_schema : (Json → Compilation) → Option Json → Executed → Result Thrown Executed
check_schema compile none x = ok x
check_schema compile (some schema) x = elim (compile schema) [
  | compiled ↦ ok x
  | uncompilable ↦ fail_with (txt "invalid_suspend")
  | unavailable ↦ err validators_error
]

-- An empty deadline is passed over.
abbrev pub bad_deadline : Dates → Option Text → Bool
bad_deadline dates none = false
bad_deadline dates (some t) = truthy (some t) && not (is_canonical_timestamp dates t)

abbrev pub with_result : Text → Option Json → Executed → Executed
with_result node_id none x = x
with_result node_id (some v) x = record x {
  staged = record x.staged { results = put x.staged.results node_id v };
}

module _ (dates : Dates) (compile : Json → Compilation) (node_id : Text) (node : FlowNode)
    (kind : NodeKind) where
  -- The checks of the result, with the flow that it prepared.
  unfoldable pub check_result : Option Json → Executed → NodeResult → Result Thrown Executed
  check_result carried x (push input c) = require_prepared x
  check_result carried x (replace input) = require_prepared x
  check_result carried x (suspend prompt schema value deadline) =
      if not kind.can_resume || bad_deadline dates deadline
      then fail_with (txt "invalid_suspend")
      else check_schema compile schema x
  check_result carried x (go_to target) =
      if includes (kind.targets node) target
      then ok (with_result node_id carried x)
      else fail_with (txt "invalid_target")
  check_result carried x (finish outcome output) =
      if kind.terminal then ok x else fail_with (txt "invalid_value")

  -- `resuming`: an input event resumes the node.
  unfoldable pub run_one :
      (max_depth : ℕ) (prepare : Result NodeError PreparedFlow) (resuming : Bool)
      → RunState
      → Answer
      → Result Thrown Executed
  unfolding prepare_for check_result
  run_one max_depth prepare resuming s (cut_short e) = err (node_error e)
  run_one max_depth prepare resuming s (rejected e) =
      if resuming && not kind.can_resume
      then fail_with (txt "invalid_suspend")
      else err (node_error e)
  run_one max_depth prepare resuming s nothing =
      if resuming && not kind.can_resume
      then fail_with (txt "invalid_suspend")
      else fail_with (txt "invalid_value")
  run_one max_depth prepare resuming s (answered result carried staged) =
      if resuming && not kind.can_resume
      then fail_with (txt "invalid_suspend")
      else (prepare_for max_depth kind prepare s result >>= λ prepared.
          check_result carried (record { result = result; staged = staged; prepared = prepared })
            result)
