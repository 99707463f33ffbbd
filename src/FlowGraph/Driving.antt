-- ===== src/FlowGraph/Driving.antt =====
-- A turn of the loop of packages/flow-graph/src/run-drive.ts yields states that pass their checks.
use mathlib.Core.Path.{subst}
use sozai.Common.{◌+◌, ◌≡◌, refl, Bool, true, false, some, List, [], ◌∷◌, if◌then◌else◌, ◌&&◌}
use sozai.Common.Json.{Json}
use sozai.Common.Result.{Result, ok, err, ◌>>=◌, >>=-eq-ok, ok-injective}
use sozai.FlowGraph.Types.{FlowNode, Frame, RunState}
use sozai.FlowGraph.Time.{Dates}
use sozai.FlowGraph.Frames.{FlowError, last?}
use sozai.FlowGraph.Commits.{Runner, NodeKind, abort, apply_result}
use sozai.FlowGraph.Failure.{handle_node_error}
use sozai.FlowGraph.Unwinding.{IsLinked}
use sozai.FlowGraph.Shape.{IsActive, IsShaped}
use sozai.FlowGraph.Failing.{abort-IsShaped}
use sozai.FlowGraph.Results.{IsReady, IsChecked, apply_result-IsShaped}
use sozai.FlowGraph.Execution.{
  Compilation, compiles_by, Thrown, validators_error, node_error, Executed, run_one,
}
use sozai.FlowGraph.Accepted.{IsDated, run_one-IsFit}
use sozai.FlowGraph.Handling.{IsCounted, handle_node_error-IsShaped}
use sozai.FlowGraph.Turns.{Options, Turn, raised, Turned, yield_saved}
use sozai.FlowGraph.Drive.{thrown_by, yield_abort, thrown_turn, concluded, execute}

-- What holds of both sides of a test holds of its result.
pub by_test :
    {A G : Type 0} (b : Bool) (x y z : A)
    → (b ≡ true → x ≡ z → G)
    → (b ≡ false → y ≡ z → G)
    → (if b then x else y) ≡ z
    → G
by_test true x y z f g h = f refl h
by_test false x y z f g h = g refl h

module _ (dates : Dates) (compile : Json → Compilation) (options : Options) where
  -- The state passes the checks of a stored state.
  abbrev pub Passes : RunState → Type 0
  Passes = IsShaped dates (compiles_by compile) options.max_depth

  abbrev pub AllPass : List RunState → Type 0
  AllPass [] = Unit
  AllPass (s ∷ states) = Passes s × AllPass states

  -- Every state that the turn yielded, and the one that the runner holds after it.
  abbrev pub IsSound : Turned → Type 0
  IsSound t = AllPass t.yielded × Passes t.runner.state

  -- A runner in an active state that passes, whose stack is linked and ends in `f`.
  pub record IsDriven (f : Frame) (r : Runner) : Type 0 where
    pub good : Passes r.state
    pub act : IsActive r.state.status
    pub linked : IsLinked r.state.frames
    pub found : last? r.state.frames ≡ some f

  module _ (f : Frame) (node : FlowNode) (kind : NodeKind) (turn : Turn)
      (dated : IsDated turn.answer) where
    pub abort-IsSound :
        (recovering : Bool) (r : Runner) (t : Turned)
        → IsDriven f r
        → yield_abort dates compile options f.node node kind turn recovering r ≡ ok t
        → IsSound t
    abort-IsSound recovering r t d h =
        let (r', e, h2) = >>=-eq-ok (abort r) _ h in
        let good =
          abort-IsShaped dates (compiles_by compile) options.max_depth r r' d.good d.act e in
        subst IsSound (ok-injective h2) ((good, tt), good)

    thrown-IsSound :
        (recovering resumed : Bool) (r : Runner) (t : Turned)
        → IsDriven f r
        → IsCounted f
        → (e : Thrown)
        → thrown_turn dates compile options f.node node kind turn recovering resumed e r ≡ ok t
        → IsSound t
    unfolding thrown_turn
    thrown-IsSound recovering resumed r t d counted e h = go turn.aborted_failed e h
      where
        go :
            (b : Bool) (e : Thrown)
            → (if b
                then yield_abort dates compile options f.node node kind turn recovering r
                else elim e [
                  | validators_error ↦
                      ok (record {
                        yielded = [];
                        runner = r;
                        recovering = recovering;
                        exit = raised;
                      })
                  | node_error failure ↦
                      handle_node_error dates turn.random
                        (λ k. turn.clock (4 + k))
                        f.node
                        node
                        kind
                        failure
                        resumed
                        r
                      >>= λ r'. ok (yield_saved recovering r')
                ])
              ≡ ok t
            → IsSound t
        go true e h = abort-IsSound recovering r t d h
        go false validators_error h = subst IsSound (ok-injective h) (tt, d.good)
        go false (node_error failure) h =
            let (r', e2, h2) =
              >>=-eq-ok
                (handle_node_error dates turn.random (λ k. turn.clock (4 + k)) f.node node kind
                  failure resumed r)
                _ h in
            let good =
              handle_node_error-IsShaped dates (compiles_by compile) options.max_depth turn.random
                (λ k. turn.clock (4 + k)) node kind failure f r r' d.good d.act d.linked d.found
                resumed counted e2 in
            subst IsSound (ok-injective h2) ((good, tt), good)

    concluded-IsSound :
        (recovering resumed : Bool) (r : Runner) (t : Turned)
        → IsDriven f r
        → IsReady f
        → IsCounted f
        → (o : Result Thrown Executed)
        → run_one dates compile f.node node kind options.max_depth turn.prepare
            (resumed && turn.resuming)
            r.state
            turn.answer
          ≡ o
        → concluded dates compile options f.node node kind turn recovering resumed r o ≡ ok t
        → IsSound t
    unfolding concluded
    concluded-IsSound recovering resumed r t d ready counted (ok x) e h =
        by_apply (apply_result f.node resumed x.prepared x.staged x.result r) refl h
      where
        checked : IsChecked dates (compiles_by compile) options.max_depth r.state x.result
        checked =
            (run_one-IsFit dates compile f.node node kind options.max_depth turn.prepare r.state
              (resumed && turn.resuming) turn.answer x dated e).0

        by_apply :
            (a : Result FlowError Runner)
            → apply_result f.node resumed x.prepared x.staged x.result r ≡ a
            → elim a as (λ _. Result FlowError Turned) [
              | err e ↦
                  thrown_turn dates compile options f.node node kind turn recovering resumed
                    (node_error (thrown_by e))
                    r
              | ok r' ↦ ok (yield_saved recovering r')
            ]
              ≡ ok t
            → IsSound t
        by_apply (err e2) q k =
            thrown-IsSound recovering resumed r t d counted (node_error (thrown_by e2)) k
        by_apply (ok r') q k =
            let good =
              apply_result-IsShaped dates (compiles_by compile) options.max_depth r r' d.good d.act
                d.linked f resumed x.prepared x.staged x.result d.found ready checked q in
            subst IsSound (ok-injective k) ((good, tt), good)
    concluded-IsSound recovering resumed r t d ready counted (err e) q h =
        thrown-IsSound recovering resumed r t d counted e h

    pub execute-IsSound :
        (recovering resumed : Bool) (r : Runner) (t : Turned)
        → IsDriven f r
        → IsReady f
        → IsCounted f
        → execute dates compile options f.node node kind turn recovering resumed r ≡ ok t
        → IsSound t
    unfolding execute
    execute-IsSound recovering resumed r t d ready counted h =
        concluded-IsSound recovering resumed r t d ready counted _ refl h
