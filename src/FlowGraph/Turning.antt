-- ===== src/FlowGraph/Turning.antt =====
-- Every turn of the loop that drives a run (packages/flow-graph/src/run-drive.ts) yields states that
-- pass the checks of a stored state.
use mathlib.Core.Path.{subst}
use sozai.Common.{
  ◌<◌, ◌≡◌, refl, ap, sym, ◌∙◌, inl, inr, Bool, true, Option, none, some, List, [], ◌∷◌, ◌++◌,
  if◌then◌else◌, is_some, some_injective,
}
use sozai.Common.Lists.{get_elem?}
use sozai.Common.Fields.{own}
use sozai.Common.Json.{Json}
use sozai.Common.Result.{ok, ◌>>=◌, >>=-eq-ok, ok-injective, required}
use sozai.FlowGraph.Types.{FlowNode, FlowDefinition, NodeAttempts, Frame}
use sozai.FlowGraph.Time.{Dates}
use sozai.FlowGraph.Frames.{missing_field, last?, last?-eq-some, top, top_index}
use sozai.FlowGraph.Commits.{Runner, NodeKind, abort}
use sozai.FlowGraph.Checks.{assert_top}
use sozai.FlowGraph.Definitions.{
  assert_run_state_definitions, definitions-IsLinked, definitions_retry,
}
use sozai.FlowGraph.Unwinding.{required-ok}
use sozai.FlowGraph.Shape.{IsActive, shaped_top}
use sozai.FlowGraph.Failing.{abort-IsShaped}
use sozai.FlowGraph.Results.{IsReady}
use sozai.FlowGraph.Execution.{Compilation, compiles_by}
use sozai.FlowGraph.Accepted.{IsDated}
use sozai.FlowGraph.Begun.{own_good}
use sozai.FlowGraph.Turns.{Options, Turn, Turned, leaves, yield_once, is_waiting, policy_of}
use sozai.FlowGraph.Drive.{execute, wait_or_start, drive_turn}
use sozai.FlowGraph.Driving.{Passes, IsSound, IsDriven, execute-IsSound, by_test}
use sozai.FlowGraph.Attempting.{IsStamped, attempts-IsStamped}
use sozai.FlowGraph.Starting.{IsPolicy, unattempted_runs, waiting_ready, started}

-- What the stored state holds of its active frame beyond its checks: a node that waits for input has
-- been attempted.
abbrev pub IsAttempted : Runner → Frame → Type 0
IsAttempted r f =
    (a : NodeAttempts) → own f.attempts f.node ≡ some a → is_waiting r.state ≡ true → 0 < a.count

-- The policy of the active node, wherever it is from, passes the checks of a policy.
abbrev pub HasPolicy : Options → Runner → Frame → Type 0
HasPolicy options r f =
    (definition : FlowDefinition) (node : FlowNode) (kind : NodeKind)
    → get_elem? r.definitions (top_index r.state) ≡ some definition
    → own definition.nodes f.node ≡ some node
    → own r.kinds node.kind ≡ some kind
    → IsPolicy (policy_of options node kind)

module _ (dates : Dates) (compile : Json → Compilation) (options : Options) (turn : Turn)
    (r : Runner) (f : Frame) where
  -- A turn of the loop, whatever the clock and the signal answer, yields only states that pass the
  -- checks of a stored state, and leaves the runner in one, where the run is active, its state
  -- passes the checks and fits the definitions, a node that waits for input has been attempted, the
  -- node's policy passes its checks, and the execution does not suspend the node with the empty
  -- text as a deadline.
  pub drive_turn-IsSound :
      (recovering : Bool) (t : Turned)
      → Passes dates compile options r.state
      → IsActive r.state.status
      → assert_run_state_definitions r.kinds r.definitions r.state ≡ none
      → last? r.state.frames ≡ some f
      → IsAttempted r f
      → HasPolicy options r f
      → IsDated turn.answer
      → drive_turn dates compile options turn recovering r ≡ ok t
      → IsSound dates compile options t
  unfolding drive_turn top
  drive_turn-IsSound recovering t good act fits found attempted policy dated h =
      by_test turn.aborted_before _ _ _ (λ _. aborts)
        (λ _ h.
          let (g, e1, h1) = >>=-eq-ok (top r.state) _ h in
          let same_top : g ≡ f = some_injective (sym (required-ok _ _ g e1) ∙ found) in
          let (definition, e2, h2) =
            >>=-eq-ok (required missing_field (get_elem? r.definitions (top_index r.state))) _ h1 in
          let (node, e3, h3) =
            >>=-eq-ok (required missing_field (own definition.nodes g.node)) _ h2 in
          let (kind, e4, h4) = >>=-eq-ok (required missing_field (own r.kinds node.kind)) _ h3 in
          at_node definition node kind (required-ok _ _ definition e2)
            (ap (λ (x : Frame). own definition.nodes x.node) (sym same_top)
              ∙ required-ok _ _ node e3)
            (required-ok _ _ kind e4)
            (subst
              (λ (x : Frame).
                (if is_waiting r.state
                  then execute dates compile options x.node node kind turn recovering true r
                  else wait_or_start dates compile options turn x.node node kind recovering
                      (own x.attempts x.node) r)
                ≡ ok t)
              same_top h4))
        h
    where
      lower : List Frame
      lower = (last?-eq-some r.state.frames f found).0

      frames : r.state.frames ≡ lower ++ f ∷ []
      frames = (last?-eq-some r.state.frames f found).1

      driven : IsDriven dates compile options f r
      driven = record {
        good = good;
        act = act;
        linked = definitions-IsLinked r.kinds r.definitions r.state fits;
        found = found;
      }

      at_top : assert_top dates (compiles_by compile) r.state f ≡ none
      at_top = shaped_top dates (compiles_by compile) options.max_depth r.state f lower frames good

      stamped : (a : NodeAttempts) → own f.attempts f.node ≡ some a → IsStamped a
      stamped a o =
          attempts-IsStamped dates a (is_some r.state.in_flight)
            (own_good dates (compiles_by compile) options.max_depth r.state f lower frames good a o)

      aborts :
          (abort r >>= λ r'. ok (yield_once recovering leaves r')) ≡ ok t
          → IsSound dates compile options t
      aborts h =
          let (r', e, h2) = >>=-eq-ok (abort r) _ h in
          let good = abort-IsShaped dates (compiles_by compile) options.max_depth r r' good act e in
          subst (IsSound dates compile options) (ok-injective h2) ((good, tt), good)

      ready :
          (b : is_waiting r.state ≡ true) (o : Option NodeAttempts)
          → own f.attempts f.node ≡ o
          → IsReady f
      ready w none e = inl e
      ready w (some a) e =
          inr (a, e, waiting_ready dates (compiles_by compile) r.state f a at_top w e (stamped a e))

      at_node :
          (definition : FlowDefinition) (node : FlowNode) (kind : NodeKind)
          → get_elem? r.definitions (top_index r.state) ≡ some definition
          → own definition.nodes f.node ≡ some node
          → own r.kinds node.kind ≡ some kind
          → (if is_waiting r.state
              then execute dates compile options f.node node kind turn recovering true r
              else wait_or_start dates compile options turn f.node node kind recovering
                  (own f.attempts f.node)
                  r)
            ≡ ok t
          → IsSound dates compile options t
      at_node definition node kind e2 e3 e4 =
          by_test (is_waiting r.state) _ _ _
            (λ w.
              execute-IsSound dates compile options f node kind turn dated recovering true r t
                driven (ready w (own f.attempts f.node) refl) (λ a o. attempted a o w))
            (λ w.
              started dates compile options node kind turn dated f r t driven lower frames
                recovering (own f.attempts f.node) refl
                (unattempted_runs dates (compiles_by compile) r.state f at_top act w) stamped
                (λ a o.
                  definitions_retry r.kinds r.definitions r.state lower f definition node kind a
                    fits frames e2 e3 e4 o)
                (policy definition node kind e2 e3 e4))
