-- ===== src/FlowGraph/NodeFailure.antt =====
-- A node that fails for good, and a reference that does, leave a state that passes its checks.
use sozai.Common.{ℕ, ◌≡◌, refl, Option, none, some, [], arith, Bool, if◌then◌else◌, ◌&&◌}
use sozai.Common.Text.{Text, txt, same}
use sozai.Common.Fields.{Fields, own}
use sozai.Common.Json.{Json}
use sozai.Common.Result.{ok}
use sozai.FlowGraph.Types.{FlowNode, ErrorMetadata, Reason, NodeAttempts, Frame}
use sozai.FlowGraph.Time.{Dates}
use sozai.FlowGraph.Frames.{last?, last?-eq-some, top}
use sozai.FlowGraph.Commits.{Runner, NodeKind}
use sozai.FlowGraph.RetryCommits.{call_error, route_to_on_error}
use sozai.FlowGraph.Unwind.{attempt_count}
use sozai.FlowGraph.Failure.{fail_run, fail_node, fail_reference}
use sozai.FlowGraph.Definitions.{assert_run_state_definitions, definitions-IsLinked}
use sozai.FlowGraph.Unwinding.{IsLinked}
use sozai.FlowGraph.Shape.{IsActive, IsShaped}
use sozai.FlowGraph.Preserve.{IsCut, route-IsShaped}
use sozai.FlowGraph.Failing.{fail_run_linked-IsShaped}

module _ (dates : Dates) (compiles : Json → Bool) (max_depth : ℕ) (random : ℕ → ℕ) (now : ℕ)
    (r r' : Runner) (good : IsShaped dates compiles max_depth r.state)
    (act : IsActive r.state.status) (linked : IsLinked r.state.frames) (f : Frame)
    (found : last? r.state.frames ≡ some f) where
  routed-IsShaped :
      (reason : Option Reason) (meta : ErrorMetadata) (count : ℕ) (target : Text)
      (handled : Option (Fields Json))
      → route_to_on_error f.node reason meta count target handled none r ≡ ok r'
      → IsShaped dates compiles max_depth r'.state
  routed-IsShaped reason meta count target handled h =
      let (below, e) = last?-eq-some r.state.frames f found in
      let whole : IsCut r.state r.state f below [] = record {
        frames = e;
        cut = e;
        run = refl;
        invocation = refl;
        outcome = refl;
        output = refl;
        error = refl;
      } in
      route-IsShaped dates compiles max_depth r r' none f below [] good act whole f.node refl meta
        reason count target handled h

  pub ended-IsShaped :
      (code : Text) (reason : Option Reason) (count : Option ℕ) (meta : Option ErrorMetadata)
      → fail_run dates random code f.node reason count meta now r ≡ ok r'
      → IsShaped dates compiles max_depth r'.state
  ended-IsShaped code reason count meta h =
      fail_run_linked-IsShaped dates compiles max_depth r r' good act f now random code reason count
        meta linked found h

  module _ (node : FlowNode) where
    pub fail_node_linked-IsShaped :
        (kind : NodeKind) (reason : Reason) (meta : ErrorMetadata) (callee_retry : Bool)
        → fail_node dates random f.node node kind reason meta callee_retry now r ≡ ok r'
        → IsShaped dates compiles max_depth r'.state
    unfolding fail_node top
    fail_node_linked-IsShaped kind reason meta callee_retry h = go node.on_error refl
      where
        go : (o : Option Text) → node.on_error ≡ o → IsShaped dates compiles max_depth r'.state
        go none e =
            ended-IsShaped (txt "node_failed") (some reason)
              (some (attempt_count (own f.attempts f.node))) (some meta) (ground arith)
        go (some target) e =
            routed-IsShaped (some reason) meta (attempt_count (own f.attempts f.node)) target
              (if callee_retry && same kind.kind (txt "call")
                then some (
                    call_error (txt "node_failed") (some reason)
                      (attempt_count (own f.attempts f.node)))
                else none)
              (ground arith)

    pub fail_reference_linked-IsShaped :
        (code : Text) (given : ErrorMetadata) (attempt : Option NodeAttempts)
        → fail_reference dates random code f.node node given attempt now r ≡ ok r'
        → IsShaped dates compiles max_depth r'.state
    unfolding fail_reference
    fail_reference_linked-IsShaped code given attempt h = go node.on_error refl
      where
        go : (o : Option Text) → node.on_error ≡ o → IsShaped dates compiles max_depth r'.state
        go none e = ended-IsShaped code _ _ _ (rw (e, fail_reference) at h)
        go (some target) e = routed-IsShaped _ _ _ target _ (rw (e, fail_reference) at h)

module _ (dates : Dates) (compiles : Json → Bool) (max_depth : ℕ) (random : ℕ → ℕ) (now : ℕ)
    (r r' : Runner) (good : IsShaped dates compiles max_depth r.state)
    (act : IsActive r.state.status)
    (fits : assert_run_state_definitions r.kinds r.definitions r.state ≡ none) (f : Frame)
    (found : last? r.state.frames ≡ some f) where
  module _ (node : FlowNode) where
    -- A node that fails for good, which routes to its onError or fails the run, leaves a state that
    -- passes its checks, where the run is active at that node, its state passes them and it fits
    -- the runner's definitions.
    pub fail_node-IsShaped :
        (kind : NodeKind) (reason : Reason) (meta : ErrorMetadata) (callee_retry : Bool)
        → fail_node dates random f.node node kind reason meta callee_retry now r ≡ ok r'
        → IsShaped dates compiles max_depth r'.state
    fail_node-IsShaped =
        fail_node_linked-IsShaped dates compiles max_depth random now r r' good act
          (definitions-IsLinked r.kinds r.definitions r.state fits) f found node

    -- A failed reference to a flow, which routes to the node's onError or fails the run, leaves a
    -- state that passes its checks, where the run is active at that node, its state passes them and
    -- it fits the runner's definitions.
    pub fail_reference-IsShaped :
        (code : Text) (given : ErrorMetadata) (attempt : Option NodeAttempts)
        → fail_reference dates random code f.node node given attempt now r ≡ ok r'
        → IsShaped dates compiles max_depth r'.state
    fail_reference-IsShaped =
        fail_reference_linked-IsShaped dates compiles max_depth random now r r' good act
          (definitions-IsLinked r.kinds r.definitions r.state fits) f found node
