-- ===== src/FlowGraph/Preserve.antt =====
-- The commits that end a failure keep a state that passes its checks.
use mathlib.Core.Path.{subst}
use sozai.Common.{
  ℕ, ◌<◌, ◌≡◌, refl, ap, sym, ◌∙◌, ◌⊎◌, inl, inr, Bool, true, false, Option, none, some, List, [],
  ◌∷◌, ◌++◌, arith,
}
use sozai.Common.Text.{Text, same_refl}
use sozai.Common.Fields.{Fields, own, put}
use sozai.Common.Json.{Json}
use sozai.Common.Result.{ok-injective, ok}
use sozai.FlowGraph.Types.{ErrorMetadata, Reason, NodeAttempts, Frame, RunState}
use sozai.FlowGraph.Time.{canonical_truthy, to_timestamp_lem, Dates, is_canonical_timestamp}
use sozai.FlowGraph.Frames.{last?, last?-concat, map_last, map_last-concat, top, set_top}
use sozai.FlowGraph.Commits.{Runner}
use sozai.Common.{some_injective}
use sozai.FlowGraph.RetryCommits.{
  RetryDecision, schedule_retry, exceeds, UnwoundState, working, route_frame, route_to_on_error,
  schedule_frame, scheduled_state,
}
use sozai.FlowGraph.Checks.{assert_attempts, assert_frame, assert_frames, is_empty}
use sozai.FlowGraph.Stack.{cleared_frame, progressed_frame, frame_of_stack, frame_progress}
use sozai.FlowGraph.Shape.{IsActive, IsShaped, shaped_stack}
use sozai.FlowGraph.Replace.{
  Continues, replaced_suspended, replaced_running, shaped_attempts, remove_own,
}
use sozai.FlowGraph.Inversion.{committed, schedule_state, route_state}

-- `w` is `s` cut above the frame `f`, as an unwind or a plain copy makes it.
pub record IsCut (s w : RunState) (f : Frame) (below rest : List Frame) : Type 0 where
  pub frames : s.frames ≡ below ++ f ∷ rest
  pub cut : w.frames ≡ below ++ f ∷ []
  pub run : w.run_id ≡ s.run_id
  pub invocation : w.invocation ≡ s.invocation
  pub outcome : w.outcome ≡ s.outcome
  pub output : w.output ≡ s.output
  pub error : w.error ≡ s.error

progress_good :
    (dates : Dates) (a : NodeAttempts) (flying : Bool) (t : Text) (meta : ErrorMetadata)
    → assert_attempts dates a flying ≡ none
    → 0 < a.count
    → is_canonical_timestamp dates t ≡ true
    → assert_attempts dates (record a { last_failure = some meta; retry_at = some t }) false ≡ none
unfolding assert_attempts
progress_good dates a flying t meta h pos c = ground arith

-- Attempts that are the node's own stay so.
pub put-own :
    (m : Fields NodeAttempts) (node : Text) (new : NodeAttempts)
    → (m ≡ []) ⊎ ((a : NodeAttempts) × (m ≡ (node, a) ∷ []))
    → put m node new ≡ (node, new) ∷ []
unfolding put
put-own m node new (inl e) = rw e refl
put-own m node new (inr (a, e)) = rw e (ground (arith, same_refl node))

-- What a scheduled retry leaves as it was, whether or not it suspends the run.
record IsScheduled (s q : RunState) (node_id : Text) (meta : ErrorMetadata) (t : Text)
    (old : NodeAttempts) : Type 0 where
  run : q.run_id ≡ s.run_id
  invocation : q.invocation ≡ s.invocation
  idle : q.in_flight ≡ none
  outcome : q.outcome ≡ s.outcome
  output : q.output ≡ s.output
  error : q.error ≡ s.error
  frames : q.frames ≡ map_last (schedule_frame node_id meta t old) s.frames

scheduled_state-IsScheduled :
    (node_id : Text) (meta : ErrorMetadata) (t : Text) (suspends : Bool) (old : NodeAttempts)
    (s : RunState)
    → IsScheduled s (scheduled_state node_id meta t suspends old s) node_id meta t old
unfolding scheduled_state
scheduled_state-IsScheduled node_id meta t true old s = record {
  run = refl;
  invocation = refl;
  idle = refl;
  outcome = refl;
  output = refl;
  error = refl;
  frames = refl;
}
scheduled_state-IsScheduled node_id meta t false old s = record {
  run = refl;
  invocation = refl;
  idle = refl;
  outcome = refl;
  output = refl;
  error = refl;
  frames = refl;
}

module _ (dates : Dates) (compiles : Json → Bool) (max_depth : ℕ) (r r' : Runner)
    (u : Option UnwoundState) (f : Frame) (below rest : List Frame)
    (good : IsShaped dates compiles max_depth r.state) (act : IsActive r.state.status)
    (w : IsCut r.state (working u r).state f below rest) (node_id : Text)
    (same_node : f.node ≡ node_id) (meta : ErrorMetadata) where
  -- Routing the failure of a frame's node to onError, from the state of an active run that passes
  -- its checks or from that state cut above the frame, leaves a state that passes them.
  pub route-IsShaped :
      (reason : Option Reason) (count : ℕ) (target : Text) (handled : Option (Fields Json))
      → route_to_on_error node_id reason meta count target handled u r ≡ ok r'
      → IsShaped dates compiles max_depth r'.state
  unfolding set_top route_frame
  route-IsShaped reason count target handled h =
      let (fields, e, _) = route_state node_id reason meta count target handled u r r' h in
      let f' : Frame = route_frame node_id fields target f in
      let c : Continues r.state r'.state = record {
        run = ap (λ (q : RunState). q.run_id) e ∙ w.run;
        grown = omega (arith, ap (λ (q : RunState). q.invocation) e, w.invocation);
        idle = ap (λ (q : RunState). q.in_flight) e;
        outcome = ap (λ (q : RunState). q.outcome) e ∙ w.outcome;
        output = ap (λ (q : RunState). q.output) e ∙ w.output;
        error = ap (λ (q : RunState). q.error) e ∙ w.error;
      } in
      replaced_running dates compiles max_depth r.state r'.state f f' below rest w.frames
        (ap (λ (q : RunState). q.frames) e
          ∙ (ap (map_last (route_frame node_id fields target)) w.cut
              ∙ map_last-concat (route_frame node_id fields target) below f))
        good act c
        (λ root last seen.
          cleared_frame dates r.state r'.state c.run c.grown f f' root last seen
            (rw (← same_node) (
              remove_own f.attempts f.node
                (shaped_attempts dates compiles max_depth r.state f below rest w.frames good)))
            refl)
        (ap (λ (q : RunState). q.status) e) (ap (λ (q : RunState). q.pending) e)

  cut_top : top (working u r).state ≡ ok f
  unfolding top
  cut_top = ground (arith, ap last? w.cut, last?-concat below f)

  -- The old progress of the frame's node passes its checks.
  old_progress :
      (old : NodeAttempts)
      → own f.attempts f.node ≡ some old
      → (flying : Bool) × (assert_attempts dates old flying ≡ none)
  old_progress old o =
      let (root, seen, passes) = frame_of_stack dates r.state f rest below true [] (
        subst (λ l. assert_frames dates r.state true [] l ≡ none) w.frames
          (shaped_stack dates compiles max_depth r.state good)) in
      (_, frame_progress dates r.state root (is_empty rest) seen f old passes o)

  module _ (t : Text) (old : NodeAttempts) (suspends : Bool) (o : own f.attempts f.node ≡ some old)
      (pos : 0 < old.count) (c : is_canonical_timestamp dates t ≡ true)
      (e : r'.state
        ≡ committed (scheduled_state node_id meta t suspends old (working u r).state) r) where
    q : RunState
    q = scheduled_state node_id meta t suspends old (working u r).state

    marked : IsScheduled (working u r).state q node_id meta t old
    unfolding q
    marked = scheduled_state-IsScheduled node_id meta t suspends old (working u r).state

    scheduled-Continues : Continues r.state r'.state
    unfolding q
    scheduled-Continues = record {
      run = ap (λ (x : RunState). x.run_id) e ∙ (marked.run ∙ w.run);
      grown = omega (arith, ap (λ (x : RunState). x.invocation) e, marked.invocation, w.invocation);
      idle = ap (λ (x : RunState). x.in_flight) e ∙ marked.idle;
      outcome = ap (λ (x : RunState). x.outcome) e ∙ (marked.outcome ∙ w.outcome);
      output = ap (λ (x : RunState). x.output) e ∙ (marked.output ∙ w.output);
      error = ap (λ (x : RunState). x.error) e ∙ (marked.error ∙ w.error);
    }

    scheduled_frames : r'.state.frames ≡ below ++ schedule_frame node_id meta t old f ∷ []
    unfolding q
    scheduled_frames =
        ap (λ (x : RunState). x.frames) e
        ∙ (marked.frames
            ∙ (ap (map_last (schedule_frame node_id meta t old)) w.cut
                ∙ map_last-concat (schedule_frame node_id meta t old) below f))

    scheduled_attempts :
        (schedule_frame node_id meta t old f).attempts
        ≡ (f.node, record old { last_failure = some meta; retry_at = some t }) ∷ []
    unfolding schedule_frame
    scheduled_attempts = rw (← same_node) (
        put-own f.attempts f.node _
          (shaped_attempts dates compiles max_depth r.state f below rest w.frames good))

    scheduled_fits :
        (root last : Bool) (seen : List Text)
        → assert_frame dates r.state root last seen f ≡ none
        → assert_frame dates r'.state root true seen (schedule_frame node_id meta t old f) ≡ none
    unfolding schedule_frame
    scheduled_fits root last seen h =
        progressed_frame dates r.state r'.state scheduled-Continues.run scheduled-Continues.grown f
          (schedule_frame node_id meta t old f) old
          (record old { last_failure = some meta; retry_at = some t }) root last seen
          scheduled-Continues.idle o scheduled_attempts refl refl
          (progress_good dates old (old_progress old o).0 t meta (old_progress old o).1 pos c) h

    own_scheduled :
        own
          (schedule_frame node_id meta t old f).attempts
          (schedule_frame node_id meta t old f).node
        ≡ some (record old { last_failure = some meta; retry_at = some t })
    unfolding schedule_frame own
    own_scheduled = rw scheduled_attempts (ground (arith, same_refl f.node))

    scheduled-IsShaped : IsShaped dates compiles max_depth r'.state
    unfolding scheduled_state schedule_frame
    scheduled-IsShaped = go suspends refl
      where
        go : (b : Bool) → suspends ≡ b → IsShaped dates compiles max_depth r'.state
        go true b =
            replaced_suspended dates compiles max_depth r.state r'.state f
              (schedule_frame node_id meta t old f) below rest w.frames scheduled_frames good act
              scheduled-Continues scheduled_fits t
              (record old { last_failure = some meta; retry_at = some t })
              (ap (λ (x : RunState). x.status) e ∙ rw b refl)
              (ap (λ (x : RunState). x.pending) e ∙ rw (b, same_node) refl) own_scheduled refl
              (canonical_truthy dates t c) c
        go false b =
            replaced_running dates compiles max_depth r.state r'.state f
              (schedule_frame node_id meta t old f) below rest w.frames scheduled_frames good act
              scheduled-Continues scheduled_fits (ap (λ (x : RunState). x.status) e ∙ rw b refl)
              (ap (λ (x : RunState). x.pending) e ∙ rw b refl)

  -- Scheduling a retry of a frame's node, which has been attempted, from the state of an active run
  -- that passes its checks or from that state cut above the frame, leaves a state that passes them,
  -- suspended or not.
  pub schedule-IsShaped :
      (attempt old : NodeAttempts) (decision : RetryDecision)
      → own f.attempts f.node ≡ some old
      → 0 < old.count
      → schedule_retry dates node_id attempt meta decision u r ≡ ok r'
      → IsShaped dates compiles max_depth r'.state
  schedule-IsShaped attempt old decision o pos h =
      let (frame, old', t, tp, own_old, stamp, e, _) =
        schedule_state dates node_id attempt meta decision u r r' h in
      let same_frame : frame ≡ f = sym (ok-injective (sym cut_top ∙ tp)) in
      let same_old : old' ≡ old = some_injective (
        sym own_old
        ∙ (ap (λ (g : Frame). own g.attempts node_id) same_frame
            ∙ (ap (own f.attempts) (sym same_node) ∙ o))) in
      scheduled-IsShaped t old (exceeds decision.delay_ms attempt.policy.suspend_after_ms) o pos
        (to_timestamp_lem dates decision.retry_at t stamp).0 (rw (← same_old) e)
