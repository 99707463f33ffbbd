-- ===== src/FlowGraph/Commits.antt =====
-- packages/flow-graph/src/run.ts: the runner's state, and the commits that follow a node's result.
-- Spans and logs are left out; `fired` holds the events, oldest first.
use sozai.Common.{ℕ, ◌+◌, Bool, Option, none, some, List, [], ◌∷◌, ◌++◌, ◌||◌, if◌then◌else◌, ltb}
use sozai.Common.Lists.{take, get_elem?}
use sozai.Common.Text.{Text, txt}
use sozai.Common.Fields.{Fields, own, put, remove}
use sozai.Common.Json.{Json, object, str}
use sozai.Common.Result.{Result, ok, ◌>>=◌, required}
use sozai.Retry.{RetryDecision}
use sozai.FlowGraph.Types.{
  FlowNode, FlowDefinition, FlowPin, Continuation, Frame, Status, running, suspended, ended,
  aborted, PendingReason, RunState, Event, node_exit, suspend_event, end_event,
}
use sozai.FlowGraph.Frames.{
  FlowError, missing_field, last?, top_index, top, set_top, draw_invocation,
}

-- What a node's execution throws: a FlowNodeFailure with its code, a TimeoutInterruption of the
-- attempt or of the deadline, or another error, with its name.
pub data NodeError : Type 0 where
  flow_failure : Text → NodeError
  attempt_timeout deadline_timeout : NodeError
  thrown : Text → NodeError

-- The properties of a `describeError` answer that have the right type.
pub record RawMetadata : Type 0 where
  pub type : Option Text
  pub code : Option Text
  pub status : Option ℕ
  pub retry_after_ms : Option ℕ

-- What the runner asks of a node kind. `none`: the callback is absent; a call that throws answers
-- `none`. `targets`: the ids of its targets; `can_resume`: it has a `resume`.
-- A schema is a JSON value.
pub record NodeKind : Type 0 where
  pub kind : Text
  pub retries : Bool
  pub describe_error : Option (NodeError → Option RawMetadata)
  pub retryable : Option (NodeError → Option RetryDecision)
  pub targets : FlowNode → List Text
  pub can_resume : Bool
  pub terminal : Bool
  pub result_schema : Option (FlowNode → Json)

pub record Runner : Type 0 where
  pub state : RunState
  pub definitions : List FlowDefinition
  pub kinds : Fields NodeKind
  pub fired : List Event

unfoldable pub commit : RunState → Runner → Runner
commit next r = record r { state = record next { revision = r.state.revision + 1 } }

abbrev pub fire : Event → Runner → Runner
fire event r = record r { fired = r.fired ++ event ∷ [] }

abbrev pub replace_definitions : List FlowDefinition → Runner → Runner
replace_definitions definitions r = record r { definitions = definitions }

-- `delete next.inFlight; delete next.pending; next.status = status`
abbrev pub settle : Status → RunState → RunState
settle status next = record next { in_flight = none; pending = none; status = status }

-- `if (attempts) delete attempts.retryAt`, for the attempts of `node_id` in a frame.
abbrev pub unschedule : Text → Frame → Frame
unschedule node_id frame = elim (own frame.attempts node_id) [
  | none ↦ frame
  | some attempts ↦ record frame {
    attempts = put frame.attempts node_id (record attempts { retry_at = none });
  }
]

unfoldable pub abort : Runner → Result FlowError Runner
unfolding top set_top commit
abort r = top r.state >>= λ frame.
    ok (commit (set_top (unschedule frame.node) (settle aborted r.state)) r)

-- `{ output, outcome? }`
abbrev pub call_result : Fields Json → Option Text → Json
call_result output none = object ((txt "output", object output) ∷ [])
call_result output (some outcome) =
    object ((txt "output", object output) ∷ (txt "outcome", str outcome) ∷ [])

-- The caller's frame once its callee has returned.
unfoldable pub resume_caller : Continuation → Fields Json → Option Text → Frame → Frame
resume_caller c output outcome caller = record caller {
  results = put caller.results c.caller_node (call_result output outcome);
  attempts = remove caller.attempts c.caller_node;
  node = c.return_to;
}

-- unwind.ts
unfoldable pub pop_frame : RunState → Fields Json → Option Text → Runner → Result FlowError Runner
unfolding top set_top commit resume_caller
pop_frame next output outcome r = required missing_field (last? next.frames) >>= λ callee.
    required missing_field callee.continuation >>= λ c.
    top (record next { frames = take (top_index next) next.frames }) >>= λ caller. ok (
      let popped : RunState =
        set_top (resume_caller c output outcome)
          (settle running (record next { frames = take (top_index next) next.frames })) in
      let r' = commit popped (replace_definitions (take (top_index next) r.definitions) r) in
      fire (node_exit c.caller_node r'.state) r')

-- A flow snapshot that `references.prepare` made.
pub record PreparedFlow : Type 0 where
  pub pin : FlowPin
  pub definition : FlowDefinition

-- What `suspend` and `end` carry, and the result of a node. A result has the fields of its type alone,
-- so that what `suspend` carries does not replace the node or the reason of the pending work.
pub data NodeResult : Type 0 where
  push : Json → Continuation → NodeResult
  replace : Json → NodeResult
  go_to : Text → NodeResult
  finish : Option Text → Option (Fields Json) → NodeResult
  suspend : (prompt schema value : Option Json) → (deadline : Option Text) → NodeResult

-- The scope that the node's execution staged.
pub record Staged : Type 0 where
  pub state : Fields Json
  pub results : Fields Json
  pub loops : Fields ℕ

abbrev pub fresh_frame : PreparedFlow → Json → Option Continuation → Frame
fresh_frame prepared input continuation = record {
  flow = prepared.pin;
  node = prepared.definition.start;
  input = input;
  state = [];
  results = [];
  loops = [];
  attempts = [];
  continuation = continuation;
}

unfoldable pub push_frame : RunState → Json → Continuation → PreparedFlow → Runner → Runner
unfolding commit
push_frame next input continuation prepared r =
    commit
      (record next { frames = next.frames ++ fresh_frame prepared input (some continuation) ∷ [] })
      (replace_definitions (r.definitions ++ prepared.definition ∷ []) r)

unfoldable pub replace_frame :
    RunState → Text → Json → PreparedFlow → Runner → Result FlowError Runner
unfolding commit top set_top
replace_frame next node_id input prepared r = top next >>= λ frame. ok (
    let r' =
      commit (set_top (λ old. fresh_frame prepared input old.continuation) next)
        (replace_definitions (take (top_index next) r.definitions ++ prepared.definition ∷ []) r) in
    fire (node_exit node_id r'.state) r')

-- The frame with what the node's execution staged.
abbrev pub adopt : Staged → Frame → Frame
adopt staged frame = record frame {
  state = staged.state;
  results = staged.results;
  loops = staged.loops;
}

abbrev pub leave : Text → Frame → Frame
leave node_id frame = record frame { attempts = remove frame.attempts node_id }

-- `next` of `applyResult` before its result is applied.
unfoldable pub staged_state : Bool → Bool → Staged → RunState → RunState
unfolding draw_invocation set_top
staged_state retries resumed staged state = set_top (adopt staged) (
    settle running (
      if retries || resumed
      then state
      else record (draw_invocation state) { steps = state.steps + 1 }))

-- `kinds.get(activeDefinition.nodes[nodeID]?.kind ?? '')`
abbrev pub node_kind : Runner → Text → Option NodeKind
node_kind r node_id = elim (get_elem? r.definitions (top_index r.state)) [
  | none ↦ none
  | some definition ↦ elim (own definition.nodes node_id) [
    | none ↦ own r.kinds (txt "")
    | some node ↦ own r.kinds node.kind
  ]
]

-- A text option kept where the new one is absent.
abbrev pub or_else {ℓ} : {A : Type ℓ} → Option A → Option A → Option A
or_else none old = old
or_else (some new) old = some new

module _ (node_id : Text) (prepared : Option PreparedFlow) where
  -- What `applyResult` does with its result, from the staged state `s`.
  unfoldable pub apply_to : NodeResult → RunState → Runner → Result FlowError Runner
  unfolding set_top commit push_frame replace_frame pop_frame
  apply_to (push input continuation) s r =
      required missing_field prepared >>= λ flow. ok (push_frame s input continuation flow r)
  apply_to (replace input) s r =
      required missing_field prepared >>= λ flow. replace_frame s node_id input flow r
  apply_to (go_to target) s r = ok (
      let r' = commit (set_top (λ f. record (leave node_id f) { node = target }) s) r in
      fire (node_exit node_id r'.state) r')
  apply_to (finish outcome output) s r =
      if ltb 0 (top_index s)
      then pop_frame (set_top (leave node_id) s) (elim output [ none ↦ [] | some fields ↦ fields ])
          outcome r
      else ok (
          let r' =
            commit
              (record (set_top (leave node_id) s) {
                status = ended;
                outcome = or_else outcome s.outcome;
                output = or_else output s.output;
              })
              r in
          fire (end_event r'.state) r')
  apply_to (suspend prompt schema value deadline) s r = ok (
      let r' =
        commit
          (record s {
            status = suspended;
            pending = some (record {
              node = node_id;
              reason = PendingReason.suspend;
              prompt = prompt;
              schema = schema;
              value = value;
              deadline = deadline;
              resume_at = none;
            });
          })
          r in
      fire (suspend_event node_id r'.state) r')

unfoldable pub apply_result :
    Text → Bool → Option PreparedFlow → Staged → NodeResult → Runner → Result FlowError Runner
unfolding apply_to staged_state top
apply_result node_id resumed prepared staged result r = top r.state >>= λ frame.
    required missing_field (node_kind r node_id) >>= λ kind.
    apply_to node_id prepared result (staged_state kind.retries resumed staged r.state) r
