-- ===== src/FlowGraph/Handling.antt =====
-- Handling the error of a node's execution (retry-handling.ts, run-utils.ts and run-drive.ts of
-- packages/flow-graph/src) leaves a state that passes its checks.
use mathlib.Core.Path.{subst}
use sozai.Common.{
  ℕ, ◌+◌, ◌<◌, ◌≡◌, refl, ap, sym, ◌∙◌, Bool, true, false, Option, none, some, List, [], ◌∷◌, ◌++◌,
  arith, if◌then◌else◌, ◌||◌, some_injective,
}
use sozai.Common.Text.{Text}
use sozai.Common.Fields.{own, put}
use sozai.Common.Json.{Json}
use sozai.Common.Result.{ok, ◌>>=◌, >>=-eq-ok}
use sozai.FlowGraph.Types.{
  FlowNode, ErrorMetadata, Reason, non_retryable, NodeAttempts, Frame, RunState,
}
use sozai.FlowGraph.Time.{Dates}
use sozai.FlowGraph.Frames.{
  last?, last?-eq-some, last?-concat, map_last, map_last-concat, top, set_top, draw_invocation,
}
use sozai.FlowGraph.Commits.{NodeError, NodeKind, Runner}
use sozai.FlowGraph.RetryCommits.{schedule_retry, RetryDecision}
use sozai.FlowGraph.Checks.{assert_top, assert_status}
use sozai.FlowGraph.Failure.{
  sanitize, fail_run, fail_node, fail_reference, failure_in, fatal_codes, is_reference_node,
  reference_failure_codes, enter, record_failure, classify_retry, retry_or_fail, handle_node_error,
}
use sozai.FlowGraph.Unwinding.{IsLinked, required-ok}
use sozai.FlowGraph.Shape.{IsActive, IsShaped, shaped_top}
use sozai.FlowGraph.Replace.{replaced, shaped_attempts}
use sozai.FlowGraph.Preserve.{schedule-IsShaped}
use sozai.FlowGraph.NodeFailure.{
  ended-IsShaped, fail_node_linked-IsShaped, fail_reference_linked-IsShaped,
}
use sozai.FlowGraph.Begun.{same_frame, own_good, record_failure-IsShaped}

-- The links of a stack do not depend on what its last frame holds.
pub relinked :
    (lower : List Frame) (f f' : Frame)
    → f'.continuation ≡ f.continuation
    → IsLinked (lower ++ f ∷ [])
    → IsLinked (lower ++ f' ∷ [])
relinked [] f f' c l = tt
relinked (g ∷ []) f f' c l = (rw c l.0, tt)
relinked (g ∷ h ∷ lower) f f' c l = (l.0, relinked (h ∷ lower) f f' c l.1)

-- The progress of the frame's node counts at least one attempt.
abbrev pub IsCounted : Frame → Type 0
IsCounted f = (a : NodeAttempts) → own f.attempts f.node ≡ some a → 0 < a.count

module _ (dates : Dates) (compiles : Json → Bool) (max_depth : ℕ) where
  pub enter-IsShaped :
      (retries resumed : Bool) (r : Runner) (f : Frame) (lower : List Frame)
      → r.state.frames ≡ lower ++ f ∷ []
      → IsShaped dates compiles max_depth r.state
      → IsShaped dates compiles max_depth (enter retries resumed r).state
  unfolding enter draw_invocation assert_status
  enter-IsShaped retries resumed r f lower frames good = go (retries || resumed)
    where
      entered : RunState
      entered = record (draw_invocation r.state) { steps = r.state.steps + 1 }

      go :
          (b : Bool)
          → IsShaped dates compiles max_depth (if b then r else record r { state = entered }).state
      go true = good
      go false =
          replaced dates compiles max_depth r.state entered f f lower [] frames frames good refl
            (omega arith)
            (λ root last seen h.
              same_frame dates r.state entered refl (omega arith) f root last seen
                (own_good dates compiles max_depth r.state f lower frames good)
                (shaped_attempts dates compiles max_depth r.state f lower [] frames good) h)
            (unfold assert_top in shaped_top dates compiles max_depth r.state f lower frames good)

  enter-frames :
      (retries resumed : Bool) (r : Runner)
      → (enter retries resumed r).state.frames ≡ r.state.frames
  unfolding enter draw_invocation
  enter-frames true resumed r = refl
  enter-frames false true r = refl
  enter-frames false false r = refl

  enter-status :
      (retries resumed : Bool) (r : Runner)
      → (enter retries resumed r).state.status ≡ r.state.status
  unfolding enter draw_invocation
  enter-status true resumed r = refl
  enter-status false true r = refl
  enter-status false false r = refl

  module _ (random : ℕ → ℕ) (now : ℕ → ℕ) (node : FlowNode) (kind : NodeKind) (e : NodeError)
      (f : Frame) (r r' : Runner) (good : IsShaped dates compiles max_depth r.state)
      (act : IsActive r.state.status) (linked : IsLinked r.state.frames)
      (found : last? r.state.frames ≡ some f) where
    retry_or_fail-IsShaped :
        (meta : ErrorMetadata) (a : NodeAttempts)
        → own f.attempts f.node ≡ some a
        → 0 < a.count
        → retry_or_fail dates random now f.node node kind e meta a r ≡ ok r'
        → IsShaped dates compiles max_depth r'.state
    unfolding retry_or_fail record_failure set_top
    retry_or_fail-IsShaped meta a o pos h =
        let (decision, _, h2) = >>=-eq-ok (classify_retry dates random e kind a meta now) _ h in
        go decision decision.terminal_reason h2
      where
        lower : List Frame
        lower = (last?-eq-some r.state.frames f found).0

        frames : r.state.frames ≡ lower ++ f ∷ []
        frames = (last?-eq-some r.state.frames f found).1

        go :
            (decision : RetryDecision) (reason : Option Reason)
            → elim reason [
              | none ↦ schedule_retry dates f.node a meta decision none r
              | some reason ↦
                  fail_node dates random f.node node kind reason meta false
                    (now 2)
                    (record r { state = record_failure f.node meta a r.state })
            ]
              ≡ ok r'
            → IsShaped dates compiles max_depth r'.state
        go decision none h =
            schedule-IsShaped dates compiles max_depth r r' none f lower [] good act
              (record {
                frames = frames;
                cut = frames;
                run = refl;
                invocation = refl;
                outcome = refl;
                output = refl;
                error = refl;
              })
              f.node refl meta a a decision o pos h
        go decision (some reason) h =
            fail_node_linked-IsShaped dates compiles max_depth random (now 2) failed r'
              (record_failure-IsShaped dates compiles max_depth r.state f lower frames good a o meta
                pos)
              active
              (subst IsLinked (sym frames')
                (relinked lower f f' refl (subst IsLinked frames linked)))
              f' (ap last? frames' ∙ last?-concat lower f') node kind reason meta false h
          where
            failed : Runner
            failed = record r { state = record_failure f.node meta a r.state }

            f' : Frame
            f' = record f {
              attempts = put f.attempts f.node (record a { last_failure = some meta });
            }

            frames' : failed.state.frames ≡ lower ++ f' ∷ []
            frames' =
                ap
                  (map_last (λ g. record g {
                    attempts = put g.attempts f.node (record a { last_failure = some meta });
                  }))
                  frames
                ∙ map_last-concat
                    (λ g. record g {
                      attempts = put g.attempts f.node (record a { last_failure = some meta });
                    })
                    lower f

            active : IsActive failed.state.status
            active = act

  module _ (random : ℕ → ℕ) (now : ℕ → ℕ) (node : FlowNode) (kind : NodeKind) (e : NodeError)
      (f : Frame) (before r' : Runner) (good : IsShaped dates compiles max_depth before.state)
      (act : IsActive before.state.status) (linked : IsLinked before.state.frames)
      (found : last? before.state.frames ≡ some f) where
    -- Handling the error of the active node's execution, whether it ends the run, routes to
    -- onError, is unwound or schedules a retry, leaves a state that passes its checks, where the
    -- run is active, its state passes them, its stack is linked and the node's progress counts an
    -- attempt.
    pub handle_node_error-IsShaped :
        (resumed : Bool)
        → IsCounted f
        → handle_node_error dates random now f.node node kind e resumed before ≡ ok r'
        → IsShaped dates compiles max_depth r'.state
    unfolding handle_node_error top
    handle_node_error-IsShaped resumed counted h = fatal (failure_in fatal_codes e) h
      where
        r : Runner
        r = enter kind.retries resumed before

        good' : IsShaped dates compiles max_depth r.state
        good' =
            let (lower, frames) = last?-eq-some before.state.frames f found in
            enter-IsShaped kind.retries resumed before f lower frames good

        act' : IsActive r.state.status
        act' = subst IsActive (sym (enter-status kind.retries resumed before)) act

        linked' : IsLinked r.state.frames
        linked' = subst IsLinked (sym (enter-frames kind.retries resumed before)) linked

        found' : last? r.state.frames ≡ some f
        found' = ap last? (enter-frames kind.retries resumed before) ∙ found

        meta : ErrorMetadata
        meta = sanitize e kind

        -- What is done with the attempts of the active frame.
        Handled : Option Text → Option NodeAttempts → Type 0
        Handled reference attempt =
            elim reference [
              | some code ↦ fail_reference dates random code f.node node meta attempt (now 0) r
              | none ↦ elim attempt [
                | none ↦ fail_node dates random f.node node kind non_retryable meta false (now 0) r
                | some held ↦ retry_or_fail dates random now f.node node kind e meta held r
              ]
            ]
            ≡ ok r'

        tried :
            (reference : Option Text) (attempt : Option NodeAttempts)
            → own f.attempts f.node ≡ attempt
            → Handled reference attempt
            → IsShaped dates compiles max_depth r'.state
        tried (some code) attempt o h =
            fail_reference_linked-IsShaped dates compiles max_depth random (now 0) r r' good' act'
              linked' f found' node code meta attempt h
        tried none none o h =
            fail_node_linked-IsShaped dates compiles max_depth random (now 0) r r' good' act'
              linked' f found' node kind non_retryable meta false h
        tried none (some a) o h =
            retry_or_fail-IsShaped random now node kind e f r r' good' act' linked' found' meta a o
              (counted a o) h

        fatal :
            (code : Option Text)
            → elim code [
              | some code ↦ fail_run dates random code f.node none none (some meta) (now 0) r
              | none ↦ top r.state >>= λ frame.
                  let attempt = own frame.attempts f.node in
                  elim (if is_reference_node node
                    then failure_in reference_failure_codes e
                    else none) [
                      | some code ↦
                          fail_reference dates random code f.node node meta attempt (now 0) r
                      | none ↦ elim attempt [
                        | none ↦
                            fail_node dates random f.node node kind non_retryable meta false
                              (now 0)
                              r
                        | some held ↦ retry_or_fail dates random now f.node node kind e meta held r
                      ]
                    ]
            ]
              ≡ ok r'
            → IsShaped dates compiles max_depth r'.state
        fatal (some code) h =
            ended-IsShaped dates compiles max_depth random (now 0) r r' good' act' linked' f found'
              code none none (some meta) h
        fatal none h =
            let (g, at_top, h2) = >>=-eq-ok (top r.state) _ h in
            let same_top : g ≡ f = some_injective (sym (required-ok _ _ g at_top) ∙ found') in
            tried (if is_reference_node node then failure_in reference_failure_codes e else none)
              (own f.attempts f.node) refl
              (subst
                (λ (x : Frame).
                  Handled
                    (if is_reference_node node then failure_in reference_failure_codes e else none)
                    (own x.attempts f.node))
                same_top h2)
