-- ===== src/FlowGraph/Failing.antt =====
-- A failed node leaves a state that passes its checks, whatever becomes of the failure.
use mathlib.Core.Path.{subst}
use sozai.Common.{
  ℕ, ◌≤◌, ◌≡◌, refl, ap, sym, ◌∙◌, ◌⊎◌, inl, inr, Bool, true, false, Option, none, some, List, [],
  ◌∷◌, ◌++◌, arith, is_some, ltb, ◌&&◌,
}
use sozai.Common.Text.{Text, same, same_refl}
use sozai.Common.Fields.{own}
use sozai.Common.Json.{Json}
use sozai.Common.Result.{ok, >>=-eq-ok, ok-injective}
use sozai.FlowGraph.Types.{ErrorMetadata, Reason, NodeAttempts, Frame, aborted, RunState}
use sozai.FlowGraph.Time.{Dates}
use sozai.FlowGraph.Frames.{
  last?, last?-eq-some, map_last, map_last-concat, top, set_top, top_index,
}
use sozai.FlowGraph.Commits.{Runner, commit, unschedule, abort, settle}
use sozai.FlowGraph.Failure.{fail_frame, failed_state, fail_here, fail_run}
use sozai.FlowGraph.Unwind.{unwind_failure}
use sozai.FlowGraph.Checks.{assert_frame, assert_frames, assert_top}
use sozai.FlowGraph.Stack.{cleared_frame, progressed_frame, frame_of_stack, frame_progress}
use sozai.FlowGraph.Shape.{IsActive, IsShaped, shaped_stack}
use sozai.FlowGraph.Replace.{shaped_blank, replaced, Fits, shaped_attempts}
use sozai.FlowGraph.Inversion.{committed}
use sozai.FlowGraph.Definitions.{assert_run_state_definitions, definitions-IsLinked}
use sozai.FlowGraph.Unwinding.{IsLinked}
use sozai.FlowGraph.Walk.{unwind_failure-IsShaped}
use sozai.FlowGraph.FailedFrame.{
  unscheduled_good, failed_top, aborted_top, fail_frame_cases, fail_frame_rest,
}

module _ (dates : Dates) (compiles : Json → Bool) (max_depth : ℕ) (r : Runner) (f : Frame)
    (below : List Frame) (frames : r.state.frames ≡ below ++ f ∷ [])
    (good : IsShaped dates compiles max_depth r.state) (act : IsActive r.state.status)
    (code : Text) where
  passes_somewhere :
      (r' : Bool) × (seen : List Text) × (assert_frame dates r.state r' true seen f ≡ none)
  passes_somewhere = frame_of_stack dates r.state f [] below true [] (
      subst (λ l. assert_frames dates r.state true [] l ≡ none) frames
        (shaped_stack dates compiles max_depth r.state good))

  cases :
      ((f.attempts ≡ []) × ((fail_frame code f.node f).attempts ≡ []))
      ⊎ ((a : NodeAttempts) × (own f.attempts f.node ≡ some a)
          × ((fail_frame code f.node f).attempts ≡ (f.node, record a { retry_at = none }) ∷ []))
  cases =
      fail_frame_cases code f
        (shaped_attempts dates compiles max_depth r.state f below [] frames good)

  module _ (s' : RunState) (run : s'.run_id ≡ r.state.run_id)
      (grown : r.state.invocation ≤ s'.invocation) (idle : s'.in_flight ≡ none) where
    fail-Fits : Fits dates compiles max_depth r.state s' f (fail_frame code f.node f)
    fail-Fits root last seen h = elim cases [
      | inl (e, e') ↦
          cleared_frame dates r.state s' run grown f (fail_frame code f.node f) root last seen e'
            (ap is_some (fail_frame_rest code f.node f).1) h
      | inr (a, o, e') ↦
          progressed_frame dates r.state s' run grown f (fail_frame code f.node f) a
            (record a { retry_at = none }) root last seen idle o
            (e'
              ∙ ap (λ n. (n, record a { retry_at = none }) ∷ [])
                  (sym (fail_frame_rest code f.node f).0))
            refl (ap is_some (fail_frame_rest code f.node f).1)
            (unscheduled_good dates a (last && is_some r.state.in_flight)
              (frame_progress dates r.state root last seen f a h o))
            h
    ]

    fail_own :
        (own (fail_frame code f.node f).attempts (fail_frame code f.node f).node ≡ none)
        ⊎ ((a : NodeAttempts) × (own
                (fail_frame code f.node f).attempts
                (fail_frame code f.node f).node
              ≡ some a)
            × (a.retry_at ≡ none))
    fail_own = elim cases [
      | inl (_, e') ↦ inl (rw e' (unfold own in refl))
      | inr (a, _, e') ↦ inr (
        record a { retry_at = none },
        rw (e', (fail_frame_rest code f.node f).0) (unfold own in ground (arith, same_refl f.node)),
        refl,
      )
    ]

    fail_passes :
        s'.frames ≡ below ++ fail_frame code f.node f ∷ []
        → assert_top dates compiles s' (fail_frame code f.node f) ≡ none
        → IsShaped dates compiles max_depth s'
    fail_passes frames' t =
        replaced dates compiles max_depth r.state s' f (fail_frame code f.node f) below [] frames
          frames' good run grown fail-Fits t

  -- Failing the run at its active node leaves a state that passes.
  pub fail_here-IsShaped :
      (reason : Option Reason) (count : Option ℕ) (meta : Option ErrorMetadata) (r' : Runner)
      → fail_here code f.node reason count meta r ≡ ok r'
      → IsShaped dates compiles max_depth r'.state
  unfolding fail_here failed_state commit set_top
  fail_here-IsShaped reason count meta r' h =
      let (frame, _, h2) = >>=-eq-ok (top r.state) _ h in
      let e : r'.state ≡ committed (failed_state code f.node reason count meta frame r.state) r =
        ap (λ (q : Runner). q.state) (sym (ok-injective h2)) in
      let (no_outcome, no_output, _) = shaped_blank dates compiles max_depth r.state good act in
      let idle = ap (λ (x : RunState). x.in_flight) e in
      let run = ap (λ (x : RunState). x.run_id) e in
      let grown : r.state.invocation ≤ r'.state.invocation =
        omega (arith, ap (λ (x : RunState). x.invocation) e) in
      fail_passes r'.state run grown idle
        (ap (λ (x : RunState). x.frames) e
          ∙ (ap (map_last (fail_frame code f.node)) frames
              ∙ map_last-concat (fail_frame code f.node) below f))
        (failed_top dates compiles r'.state (fail_frame code f.node f)
          (ap (λ (x : RunState). x.status) e) idle (ap (λ (x : RunState). x.pending) e)
          (ap (λ (x : RunState). x.outcome) e ∙ no_outcome)
          (ap (λ (x : RunState). x.output) e ∙ no_output) (ap (λ (x : RunState). is_some x.error) e)
          (fail_own r'.state run grown idle))

  -- Aborting the run leaves a state that passes.
  abort_at-IsShaped :
      (r' : Runner)
      → fail_frame code f.node f ≡ unschedule f.node f
      → r'.state ≡ committed (set_top (unschedule f.node) (settle aborted r.state)) r
      → IsShaped dates compiles max_depth r'.state
  unfolding set_top
  abort_at-IsShaped r' plain e =
      let (no_outcome, no_output, no_error) =
        shaped_blank dates compiles max_depth r.state good act in
      let idle = ap (λ (x : RunState). x.in_flight) e in
      let run = ap (λ (x : RunState). x.run_id) e in
      let grown : r.state.invocation ≤ r'.state.invocation =
        omega (arith, ap (λ (x : RunState). x.invocation) e) in
      fail_passes r'.state run grown idle
        (ap (λ (x : RunState). x.frames) e
          ∙ (ap (map_last (unschedule f.node)) frames
              ∙ map_last-concat (unschedule f.node) below f
              ∙ ap (λ g. below ++ g ∷ []) (sym plain)))
        (aborted_top dates compiles r'.state (fail_frame code f.node f)
          (ap (λ (x : RunState). x.status) e) idle (ap (λ (x : RunState). x.pending) e)
          (ap (λ (x : RunState). x.outcome) e ∙ no_outcome)
          (ap (λ (x : RunState). x.output) e ∙ no_output)
          (ap (λ (x : RunState). x.error) e ∙ no_error) (fail_own r'.state run grown idle))

plain_frame : (node : Text) (f : Frame) → fail_frame [] node f ≡ unschedule node f
unfolding fail_frame same
plain_frame node f = refl

module _ (dates : Dates) (compiles : Json → Bool) (max_depth : ℕ) (r r' : Runner)
    (good : IsShaped dates compiles max_depth r.state) (act : IsActive r.state.status) where
  -- Aborting an active run whose state passes its checks leaves a state that passes them.
  pub abort-IsShaped : abort r ≡ ok r' → IsShaped dates compiles max_depth r'.state
  unfolding abort commit top
  abort-IsShaped h =
      let (f, found, h2) = >>=-eq-ok (top r.state) _ h in
      let (below, frames) = last?-eq-some r.state.frames f (ground arith) in
      abort_at-IsShaped dates compiles max_depth r f below frames good act [] r'
        (plain_frame f.node f) (ap (λ (q : Runner). q.state) (sym (ok-injective h2)))

  -- Failing a run whose parked frames wait for their callees.
  pub fail_run_linked-IsShaped :
      (f : Frame) (now : ℕ) (random : ℕ → ℕ) (code : Text) (reason : Option Reason)
      (count : Option ℕ) (meta : Option ErrorMetadata)
      → IsLinked r.state.frames
      → last? r.state.frames ≡ some f
      → fail_run dates random code f.node reason count meta now r ≡ ok r'
      → IsShaped dates compiles max_depth r'.state
  unfolding fail_run
  fail_run_linked-IsShaped f now random code reason count meta linked found h =
      let (below, frames) = last?-eq-some r.state.frames f found in
      let here : fail_here code f.node reason count meta r ≡ ok r'
          → IsShaped dates compiles max_depth r'.state =
        fail_here-IsShaped dates compiles max_depth r f below frames good act code reason count meta
          r' in
      go (ltb 0 (top_index r.state)) refl here
    where
      handled :
          (fail_here code f.node reason count meta r ≡ ok r'
            → IsShaped dates compiles max_depth r'.state)
          → (o : Option Runner) → unwind_failure dates now random r code reason meta ≡ ok o
          → elim o [ some q ↦ ok q | none ↦ fail_here code f.node reason count meta r ] ≡ ok r'
          → IsShaped dates compiles max_depth r'.state
      handled here none e k = here k
      handled here (some q) e k =
          unwind_failure-IsShaped dates compiles max_depth now random r r' code reason meta good act
            linked (e ∙ ap (λ x. ok (some x)) (ok-injective k))

      go :
          (b : Bool)
          → ltb 0 (top_index r.state) ≡ b
          → (fail_here code f.node reason count meta r ≡ ok r'
              → IsShaped dates compiles max_depth r'.state)
          → IsShaped dates compiles max_depth r'.state
      go false e here = here (ground arith)
      go true e here =
          let (o, u, k) =
            >>=-eq-ok (unwind_failure dates now random r code reason meta) _
              (rw (e, fail_run) at h) in
          handled here o u k

  -- Failing a run at its active node, which lets callers handle the failure, leaves a state that
  -- passes the checks of assertRunStateShape, where the run is active, its state passes them and it
  -- fits the runner's definitions.
  pub fail_run-IsShaped :
      (f : Frame) (now : ℕ) (random : ℕ → ℕ) (code : Text) (reason : Option Reason)
      (count : Option ℕ) (meta : Option ErrorMetadata)
      → assert_run_state_definitions r.kinds r.definitions r.state ≡ none
      → last? r.state.frames ≡ some f
      → fail_run dates random code f.node reason count meta now r ≡ ok r'
      → IsShaped dates compiles max_depth r'.state
  fail_run-IsShaped f now random code reason count meta fits =
      fail_run_linked-IsShaped f now random code reason count meta
        (definitions-IsLinked r.kinds r.definitions r.state fits)
