-- ===== src/FlowGraph/Opening.antt =====
-- A run that `start`, `resume` or `recover` opens (packages/flow-graph/src/runtime.ts) is in a state that
-- the loop may drive.
use mathlib.Core.Path.{subst}
use sozai.Common.{ℕ, ◌≡◌, refl, sym, ◌∙◌, inl, inr, Bool, false, Option, none, some, not, arith}
use sozai.Common.Json.{Json}
use sozai.Common.Fields.{Fields}
use sozai.Common.Result.{ok, >>=-eq-ok, ok-injective}
use sozai.FlowGraph.Types.{
  FlowPin, FlowDefinition, Frame, Status, running, suspended, ended, error, aborted, Pending,
  RunState,
}
use sozai.FlowGraph.Time.{Dates}
use sozai.FlowGraph.Frames.{last?}
use sozai.FlowGraph.Commits.{NodeKind, Runner}
use sozai.FlowGraph.Checks.{is_running, is_suspended}
use sozai.FlowGraph.Definitions.{assert_run_state_definitions}
use sozai.FlowGraph.Shape.{IsActive}
use sozai.FlowGraph.Execution.{Compilation, compiles_by}
use sozai.FlowGraph.Turns.{Options, Turn, Turned}
use sozai.Common.{◌<◌, ◌∷◌, []}
use sozai.Common.Text.{Text}
use sozai.Common.Fields.{own}
use sozai.FlowGraph.Types.{FlowNode}
use sozai.FlowGraph.Commits.{PreparedFlow, fresh_frame}
use sozai.FlowGraph.Checks.{assert_frames, assert_frame}
use sozai.FlowGraph.Definitions.{assert_fits, assert_node, assert_loops}
use sozai.FlowGraph.Shape.{shaped, running_top}
use sozai.FlowGraph.Entry.{starts, start_state}
use sozai.FlowGraph.Drive.{drive_turn}
use sozai.FlowGraph.Driving.{Passes, IsSound, by_test}
use sozai.FlowGraph.Accepted.{IsDated}
use sozai.FlowGraph.Turning.{IsAttempted, HasPolicy, drive_turn-IsSound}
use sozai.FlowGraph.Entry.{
  EntryError, bad_shape, bad_event, misfit, Entry, resumes, recovers, is_recovering, unless,
  validate_shape, validate_event, resolve_all, resolve_frames, open_run,
}

unless-ok :
    {A : Type 0} (wrap : A → EntryError) (o : Option A) (s s' : RunState)
    → unless wrap o s ≡ ok s'
    → (o ≡ none) × (s ≡ s')
unless-ok wrap none s s' h = (refl, ok-injective h)
unless-ok wrap (some x) s s' h = cc

is_suspended-IsActive : (st : Status) → not (is_suspended st) ≡ false → IsActive st
is_suspended-IsActive suspended h = inr refl
is_suspended-IsActive running h = cc
is_suspended-IsActive ended h = cc
is_suspended-IsActive error h = cc
is_suspended-IsActive aborted h = cc

is_running-IsActive : (st : Status) → not (is_running st) ≡ false → IsActive st
is_running-IsActive running h = inl refl
is_running-IsActive suspended h = cc
is_running-IsActive ended h = cc
is_running-IsActive error h = cc
is_running-IsActive aborted h = cc

module _ (dates : Dates) (compile : Json → Compilation) (accepts : Json → Json → Bool)
    (options : Options) (kinds : Fields NodeKind) (resolve : FlowPin → Option FlowDefinition)
    (accepts_input : FlowDefinition → Json → Bool) (preflight : FlowDefinition → Bool)
    (now : ℕ) where
  shape-Passes :
      (s s' : RunState)
      → validate_shape dates compile accepts options kinds resolve accepts_input preflight now s
        ≡ ok s'
      → (s ≡ s') × Passes dates compile options s
  unfolding validate_shape
  shape-Passes s s' h = let (e, same) = unless-ok bad_shape _ s s' h in (same, e)

  event_keeps :
      (event : _) (o : Option Pending) (s s' : RunState)
      → validate_event dates compile accepts options kinds resolve accepts_input preflight now event
          o s
        ≡ ok s'
      → s ≡ s'
  event_keeps event none s s' h = cc
  event_keeps event (some pending) s s' h = (unless-ok bad_event _ s s' h).1

  resolve_frames-fits :
      (s : RunState) (r : Runner)
      → resolve_frames dates compile accepts options kinds resolve accepts_input preflight now s
        ≡ ok r
      → (r.state ≡ s) × (assert_run_state_definitions r.kinds r.definitions r.state ≡ none)
  unfolding resolve_frames
  resolve_frames-fits s r h =
      let (definitions, _, h1) =
        >>=-eq-ok
          (resolve_all dates compile accepts options kinds resolve accepts_input preflight now
            s.frames)
          _ h in
      let (s1, e, h2) =
        >>=-eq-ok (unless misfit (assert_run_state_definitions kinds definitions s) s) _ h1 in
      let (fits, same) = unless-ok misfit _ s s1 e in
      subst
        (λ (x : Runner).
          (x.state ≡ s) × (assert_run_state_definitions x.kinds x.definitions x.state ≡ none))
        (ok-injective h2)
        (sym same, subst (λ x. assert_run_state_definitions kinds definitions x ≡ none) same fits)

  -- What an opened run holds.
  record IsOpened (r : Runner) : Type 0 where
    good : Passes dates compile options r.state
    act : IsActive r.state.status
    fits : assert_run_state_definitions r.kinds r.definitions r.state ≡ none

  -- What a start takes for granted: the flow has its first node, and the stack room for it.
  abbrev pub IsStartable : Entry → Type 0
  IsStartable (starts flow run_id input) =
      ((node : FlowNode) × (own flow.definition.nodes flow.definition.start ≡ some node))
      × (0 < options.max_depth)
  IsStartable (resumes event s) = Unit
  IsStartable (recovers s) = Unit

  stored-IsOpened :
      (s s1 : RunState) (r : Runner)
      → (s ≡ s1) × Passes dates compile options s
      → IsActive s1.status
      → resolve_frames dates compile accepts options kinds resolve accepts_input preflight now s1
        ≡ ok r
      → IsOpened r
  stored-IsOpened s s1 r (same, good) act h =
      let (state, fits) = resolve_frames-fits s1 r h in
      record {
        good = subst (Passes dates compile options) (same ∙ sym state) good;
        act = subst (λ (x : RunState). IsActive x.status) (sym state) act;
        fits = fits;
      }

  start-Passes :
      (flow : PreparedFlow) (run_id : Text) (input : Json)
      → 0 < options.max_depth
      → Passes dates compile options (start_state flow run_id input)
  unfolding assert_frames assert_frame own
  start-Passes flow run_id input room =
      shaped dates (compiles_by compile) options.max_depth (start_state flow run_id input)
        (fresh_frame flow input none) [] refl (omega arith) refl
        (running_top dates (compiles_by compile) (start_state flow run_id input)
          (fresh_frame flow input none) refl refl refl refl refl refl)

  start_fits :
      (flow : PreparedFlow) (run_id : Text) (input : Json) (node : FlowNode)
      → own flow.definition.nodes flow.definition.start ≡ some node
      → assert_run_state_definitions kinds (flow.definition ∷ []) (start_state flow run_id input)
        ≡ none
  unfolding assert_run_state_definitions assert_fits assert_node assert_loops own
  start_fits flow run_id input node e = ground arith

  opened :
      (entry : Entry) (r : Runner)
      → IsStartable entry
      → open_run dates compile accepts options kinds resolve accepts_input preflight now entry
        ≡ ok r
      → IsOpened r
  unfolding open_run
  opened (starts flow run_id input) r ((node, e), room) h =
      by_test (accepts_input flow.definition input) _ _ _
        (λ _.
          by_test (preflight flow.definition) _ _ _
            (λ _ q. subst IsOpened (ok-injective q) (record {
              good = start-Passes flow run_id input room;
              act = inl refl;
              fits = start_fits flow run_id input node e;
            }))
            (λ _ q. ground arith))
        (λ _ q. ground arith) h
  opened (resumes event s) r _ h =
      let (s1, e, h1) =
        >>=-eq-ok
          (validate_shape dates compile accepts options kinds resolve accepts_input preflight now s)
          _ h in
      by_test (not (is_suspended s1.status)) _ _ _ (λ _ q. ground arith)
        (λ a q.
          let (s2, e2, h2) =
            >>=-eq-ok
              (validate_event dates compile accepts options kinds resolve accepts_input preflight
                now event s1.pending s1)
              _ q in
          let same = event_keeps event s1.pending s1 s2 e2 in
          let (before, good) = shape-Passes s s1 e in
          stored-IsOpened s s2 r (before ∙ same, good)
            (subst (λ (x : RunState). IsActive x.status) same (is_suspended-IsActive s1.status a))
            h2)
        h1
  opened (recovers s) r _ h =
      let (s1, e, h1) =
        >>=-eq-ok
          (validate_shape dates compile accepts options kinds resolve accepts_input preflight now s)
          _ h in
      by_test (not (is_running s1.status)) _ _ _ (λ _ q. ground arith)
        (λ a q. stored-IsOpened s s1 r (shape-Passes s s1 e) (is_running-IsActive s1.status a) q) h1

  -- The first turn of a run that `start`, `resume` or `recover` opens, whatever its event, the
  -- clock and the signal answer, yields only states that pass the checks of a stored state, and
  -- leaves the runner in one, where a started flow has its first node and the stack room for it, a
  -- node that waits for input has been attempted, the node's policy passes its checks, and the
  -- execution does not suspend the node with the empty text as a deadline.
  pub open_run-IsSound :
      (turn : Turn) (entry : Entry) (r : Runner) (f : Frame) (t : Turned)
      → IsStartable entry
      → open_run dates compile accepts options kinds resolve accepts_input preflight now entry
        ≡ ok r
      → last? r.state.frames ≡ some f
      → IsAttempted r f
      → HasPolicy options r f
      → IsDated turn.answer
      → drive_turn dates compile options turn (is_recovering entry) r ≡ ok t
      → IsSound dates compile options t
  open_run-IsSound turn entry r f t startable h found attempted policy dated driven =
      let o = opened entry r startable h in
      drive_turn-IsSound dates compile options turn r f (is_recovering entry) t o.good o.act o.fits
        found attempted policy dated driven
