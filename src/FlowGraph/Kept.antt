-- ===== src/FlowGraph/Kept.antt =====
-- States with the same stack pass their checks together: a commit counts a revision, a step or an
-- invocation, or suspends the run, and leaves the frames alone.
use mathlib.Core.Path.{subst}
use sozai.Common.{
  ℕ, ◌≤◌, ◌≡◌, refl, sym, ◌∙◌, Bool, true, Option, none, some, List, [], ◌∷◌, ◌++◌, arith, is_some,
}
use sozai.Common.Text.{Text, truthy}
use sozai.Common.Fields.{own}
use sozai.Common.Json.{Json}
use sozai.FlowGraph.Types.{NodeAttempts, Frame, RunState}
use sozai.FlowGraph.Time.{Dates}
use sozai.FlowGraph.Frames.{last?, last?-eq-some}
use sozai.FlowGraph.Commits.{Runner, commit}
use sozai.FlowGraph.Checks.{assert_run_state_shape, assert_top, assert_status, assert_attempts}
use sozai.FlowGraph.Shape.{IsActive, IsShaped, shaped_top, suspended_top}
use sozai.FlowGraph.Replace.{replaced, shaped_attempts, shaped_blank}
use sozai.FlowGraph.Begun.{same_frame, own_good}
use sozai.FlowGraph.Turns.{resuspended_state}

module _ (dates : Dates) (compiles : Json → Bool) (max_depth : ℕ) where
  pub shaped_some :
      (s : RunState) → IsShaped dates compiles max_depth s → (f : Frame) × (last? s.frames ≡ some f)
  unfolding assert_run_state_shape
  shaped_some s h = go (last? s.frames) refl
    where
      go : (o : Option Frame) → last? s.frames ≡ o → (f : Frame) × (last? s.frames ≡ some f)
      go none e = ground arith
      go (some f) e = (f, e)

  module _ (s : RunState) (f : Frame) (below : List Frame) (frames : s.frames ≡ below ++ f ∷ [])
      (good : IsShaped dates compiles max_depth s) where
    pub same_stack :
        (s' : RunState)
        → s'.frames ≡ s.frames
        → s'.run_id ≡ s.run_id
        → s.invocation ≤ s'.invocation
        → s'.in_flight ≡ s.in_flight
        → assert_top dates compiles s' f ≡ none
        → IsShaped dates compiles max_depth s'
    same_stack s' e run grown flight t =
        replaced dates compiles max_depth s s' f f below [] frames (e ∙ frames) good run grown
          (λ root last seen h.
            same_frame dates s s' run grown f root last seen
              (λ a o.
                subst (λ x. assert_attempts dates a (is_some x) ≡ none) (sym flight)
                  (own_good dates compiles max_depth s f below frames good a o))
              (shaped_attempts dates compiles max_depth s f below [] frames good) h)
          t

    pub resuspended_state-IsShaped :
        (a : NodeAttempts) (t : Text)
        → IsActive s.status
        → own f.attempts f.node ≡ some a
        → a.retry_at ≡ some t
        → truthy (some t) ≡ true
        → IsShaped dates compiles max_depth (resuspended_state f.node t s)
    unfolding resuspended_state assert_attempts
    resuspended_state-IsShaped a t act o at stamped =
        let (no_outcome, no_output, no_error) = shaped_blank dates compiles max_depth s good act in
        let fine = own_good dates compiles max_depth s f below frames good a o in
        same_stack (resuspended_state f.node t s) refl refl (omega arith) refl (
          suspended_top dates compiles (resuspended_state f.node t s) f (ground arith) no_outcome
            no_output no_error t a refl refl o at stamped (ground arith))

  pub commit-IsShaped :
      (s : RunState) (r : Runner)
      → IsShaped dates compiles max_depth s
      → IsShaped dates compiles max_depth (commit s r).state
  unfolding commit assert_top assert_status
  commit-IsShaped s r good =
      let (f, found) = shaped_some s good in
      let (below, frames) = last?-eq-some s.frames f found in
      same_stack s f below frames good (commit s r).state refl refl (omega arith) refl
        (shaped_top dates compiles max_depth s f below frames good)
