-- ===== src/FlowGraph/Definitions.antt =====
-- packages/flow-graph/src/state.ts, `assertRunStateDefinitions`: the checks of a state against the
-- definitions of its frames. An issue is named for its message; its path is left out.
use mathlib.Core.Path.{subst}
use sozai.Common.{
  ℕ, ◌≡◌, Bool, true, false, Option, none, some, List, [], ◌∷◌, ltb, ◌==◌, is_some, if◌then◌else◌,
  ◌&&◌, ◌||◌, not, arith, ◌++◌, ◌-◌, ap, some_injective,
}
use sozai.Common.Lists.{length, length-append, get_elem?}
use sozai.Common.Text.{Text, txt, same, same_iff}
use sozai.Common.Fields.{Fields, own}
use sozai.Common.Result.{first_issue, ◌<|>◌}
use sozai.FlowGraph.Types.{
  FlowDefinition, FlowNode, ContinuationKind, call, loop_body, Continuation, Frame, RunState,
  NodeAttempts,
}
use sozai.FlowGraph.Frames.{top_index}
use sozai.FlowGraph.Commits.{NodeKind}
use sozai.FlowGraph.Checks.{same_option}
use sozai.FlowGraph.Stack.{alt_none}
use sozai.FlowGraph.Unwinding.{IsLinked, IsCallerOf}

pub data MisfitIssue : Type 0 where
  definition_count no_definition node_missing retries_unsupported loop_count : MisfitIssue
  caller_mismatch continuation_mismatch : MisfitIssue

abbrev pub retries_of : Option NodeKind → Bool
retries_of none = false
retries_of (some kind) = kind.retries

abbrev pub loop_bad : Option FlowNode → ℕ → Bool
loop_bad none count = true
loop_bad (some node) count = not (same node.kind (txt "loop")) || ltb node.max_iterations count

-- The loop over `Object.entries(frame.loops)`.
unfoldable pub assert_loops : FlowDefinition → Fields ℕ → Option MisfitIssue
assert_loops definition [] = none
assert_loops definition ((node_id, count) ∷ loops) =
    let rest = assert_loops definition loops in
    if loop_bad (own definition.nodes node_id) count then some loop_count else rest

-- `parked`: the node pushed the continuation of the frame above.
abbrev pub kind_parks : ContinuationKind → FlowNode → Bool
kind_parks call node = same node.kind (txt "call")
kind_parks loop_body node = same node.kind (txt "loop") && node.body_is_flow

unfoldable pub is_parked : Text → FlowNode → Continuation → Bool
is_parked at node c = same c.caller_node at && kind_parks c.kind node

-- The continuation is the one that `node` pushes.
unfoldable pub is_expected : Text → FlowNode → Continuation → Bool
is_expected at node c = elim c.kind [
  | call ↦ same_option (some c.return_to) node.next && same_option c.on_error node.on_error
  | loop_body ↦ same c.return_to at && not (is_some c.on_error)
]

unfoldable pub assert_link : Text → FlowNode → Option Continuation → Option MisfitIssue
assert_link at node none = some caller_mismatch
assert_link at node (some c) = first_issue (
    (not (is_parked at node c), caller_mismatch)
    ∷ (not (is_expected at node c), continuation_mismatch)
    ∷ [])

-- The checks of the frame's node; `above`: the frame above it.
unfoldable pub assert_node :
    Fields NodeKind → FlowDefinition → FlowNode → Frame → List Frame → Option MisfitIssue
assert_node kinds definition node frame above =
    first_issue (
      (
        is_some (own frame.attempts frame.node) && not (retries_of (own kinds node.kind)),
        retries_unsupported,
      )
      ∷ [])
    <|> assert_loops definition frame.loops
    <|> elim above [ [] ↦ none | next ∷ _ ↦ assert_link frame.node node next.continuation ]

unfoldable pub assert_fits : Fields NodeKind → List FlowDefinition → List Frame → Option MisfitIssue
assert_fits kinds definitions [] = none
assert_fits kinds [] (frame ∷ above) = some no_definition
assert_fits kinds (definition ∷ definitions) (frame ∷ above) =
    elim (own definition.nodes frame.node) [
      | none ↦ some node_missing
      | some node ↦ assert_node kinds definition node frame above
    ]
    <|> assert_fits kinds definitions above

unfoldable pub assert_run_state_definitions :
    Fields NodeKind → List FlowDefinition → RunState → Option MisfitIssue
assert_run_state_definitions kinds definitions s =
    first_issue ((not (length definitions == length s.frames), definition_count) ∷ [])
    <|> assert_fits kinds definitions s.frames

linked_caller :
    (frame : Frame) (node : FlowNode) (o : Option Continuation)
    → assert_link frame.node node o ≡ none
    → IsCallerOf frame o
unfolding assert_link is_parked
linked_caller frame node none h = cc
linked_caller frame node (some c) h = ground (arith, same_iff c.caller_node frame.node)

linked_node :
    (kinds : Fields NodeKind) (definition : FlowDefinition) (frame next : Frame)
    (above : List Frame) (found : Option FlowNode)
    → elim found [
      | none ↦ some node_missing
      | some node ↦ assert_node kinds definition node frame (next ∷ above)
    ]
      ≡ none
    → IsCallerOf frame next.continuation
unfolding assert_node
linked_node kinds definition frame next above none h = cc
linked_node kinds definition frame next above (some node) h =
    linked_caller frame node next.continuation (alt_none _ _ h).1

fits-IsLinked :
    (kinds : Fields NodeKind) (definitions : List FlowDefinition) (frames : List Frame)
    → assert_fits kinds definitions frames ≡ none
    → IsLinked frames
unfolding assert_fits
fits-IsLinked kinds definitions [] h = tt
fits-IsLinked kinds definitions (f ∷ []) h = tt
fits-IsLinked kinds [] (f ∷ g ∷ above) h = cc
fits-IsLinked kinds (d ∷ definitions) (f ∷ g ∷ above) h =
    let (first, rest) = alt_none _ _ h in
    (
      linked_node kinds d f g above (own d.nodes f.node) first,
      fits-IsLinked kinds definitions (g ∷ above) rest,
    )

-- In a state that fits its definitions, each parked frame waits at the node that the continuation
-- of the frame above it names.
pub definitions-IsLinked :
    (kinds : Fields NodeKind) (definitions : List FlowDefinition) (s : RunState)
    → assert_run_state_definitions kinds definitions s ≡ none
    → IsLinked s.frames
unfolding assert_run_state_definitions
definitions-IsLinked kinds definitions s h =
    fits-IsLinked kinds definitions s.frames (alt_none _ _ h).1

-- Only the node of a kind that retries has progress at the active frame.
fits_retries :
    (kinds : Fields NodeKind) (definitions : List FlowDefinition) (below : List Frame) (f : Frame)
    (definition : FlowDefinition) (node : FlowNode) (kind : NodeKind) (a : NodeAttempts)
    → assert_fits kinds definitions (below ++ f ∷ []) ≡ none
    → get_elem? definitions (length below) ≡ some definition
    → own definition.nodes f.node ≡ some node
    → own kinds node.kind ≡ some kind
    → own f.attempts f.node ≡ some a
    → kind.retries ≡ true
unfolding assert_fits assert_node
fits_retries kinds [] below f definition node kind a h d n k o = ground arith
fits_retries kinds (x ∷ definitions) [] f definition node kind a h d n k o = go (some_injective d)
  where
    go : x ≡ definition → kind.retries ≡ true
    go e = ground arith
fits_retries kinds (x ∷ definitions) (g ∷ below) f definition node kind a h d n k o =
    fits_retries kinds definitions below f definition node kind a (alt_none _ _ h).1 d n k o

pub definitions_retry :
    (kinds : Fields NodeKind) (definitions : List FlowDefinition) (s : RunState)
    (below : List Frame) (f : Frame) (definition : FlowDefinition) (node : FlowNode)
    (kind : NodeKind) (a : NodeAttempts)
    → assert_run_state_definitions kinds definitions s ≡ none
    → s.frames ≡ below ++ f ∷ []
    → get_elem? definitions (top_index s) ≡ some definition
    → own definition.nodes f.node ≡ some node
    → own kinds node.kind ≡ some kind
    → own f.attempts f.node ≡ some a
    → kind.retries ≡ true
unfolding assert_run_state_definitions top_index
definitions_retry kinds definitions s below f definition node kind a h frames d n k o =
    let index : length s.frames - 1 ≡ length below =
      omega (arith, ap length frames, length-append below (f ∷ [])) in
    fits_retries kinds definitions below f definition node kind a
      (subst (λ l. assert_fits kinds definitions l ≡ none) frames (alt_none _ _ h).1)
      (subst (λ i. get_elem? definitions i ≡ some definition) index d) n k o
