-- ===== src/FlowGraph/Begun.antt =====
-- The commits of packages/flow-graph/src/run-drive.ts that count an attempt, an interruption or a
-- step keep a state that passes its checks.
use mathlib.Core.Path.{subst}
use sozai.Common.{
  ℕ, ◌+◌, ◌≤◌, ◌<◌, ◌≡◌, refl, ap, ◌∙◌, ◌⊎◌, inl, inr, Bool, true, none, some, List, [], ◌∷◌, ◌++◌,
  arith, is_some,
}
use sozai.Common.Text.{Text, same_refl}
use sozai.Common.Fields.{own, put}
use sozai.Common.Json.{Json}
use sozai.FlowGraph.Types.{ErrorMetadata, NodeAttempts, Frame, RunState}
use sozai.Retry.{or_default}
use sozai.FlowGraph.Time.{Dates}
use sozai.FlowGraph.Frames.{set_top, map_last, map_last-concat}
use sozai.FlowGraph.Checks.{
  assert_attempts, assert_frame_attempts, assert_frame, assert_frames, assert_top, assert_status,
  invocation_number,
}
use sozai.FlowGraph.Stack.{cleared_frame, range_grows, frame_progress, frame_of_stack}
use sozai.FlowGraph.Shape.{IsActive, IsShaped, shaped_top, shaped_stack}
use sozai.FlowGraph.Replace.{shaped_blank, replaced, shaped_attempts}
use sozai.FlowGraph.Preserve.{put-own}
use sozai.FlowGraph.Failure.{record_failure}
use sozai.FlowGraph.Turns.{interrupted_state, begun, begun_state}

module _ (dates : Dates) (s s' : RunState) (run : s'.run_id ≡ s.run_id)
    (grown : s.invocation ≤ s'.invocation) where
  advanced_attempts :
      (last : Bool) (seen : List Text) (a a' : NodeAttempts)
      → a'.invocation_id ≡ a.invocation_id
      → assert_attempts dates a' (is_some s'.in_flight) ≡ none
      → assert_frame_attempts dates s last seen a ≡ none
      → assert_frame_attempts dates s' true seen a' ≡ none
  unfolding assert_frame_attempts
  advanced_attempts last seen a a' i good h =
      rw (run, i)
        (ground
          (arith, range_grows dates s s' run grown (invocation_number s.run_id a.invocation_id)))

  -- A frame with new progress of the same invocation passes where the old one passed.
  pub advanced_frame :
      (f f' : Frame) (a a' : NodeAttempts) (root last : Bool) (seen : List Text)
      → own f.attempts f.node ≡ some a
      → f'.attempts ≡ (f'.node, a') ∷ []
      → a'.invocation_id ≡ a.invocation_id
      → is_some f'.continuation ≡ is_some f.continuation
      → assert_attempts dates a' (is_some s'.in_flight) ≡ none
      → assert_frame dates s root last seen f ≡ none
      → assert_frame dates s' root true seen f' ≡ none
  unfolding assert_frame own
  advanced_frame f f' a a' root last seen o e i c good h =
      ground (arith, same_refl f'.node, advanced_attempts last seen a a' i good)

  -- A frame passes again where what is in flight stays the same.
  pub same_frame :
      (f : Frame) (root last : Bool) (seen : List Text)
      → ((a : NodeAttempts)
          → own f.attempts f.node ≡ some a
          → assert_attempts dates a (is_some s'.in_flight) ≡ none)
      → (f.attempts ≡ []) ⊎ ((a : NodeAttempts) × (f.attempts ≡ (f.node, a) ∷ []))
      → assert_frame dates s root last seen f ≡ none
      → assert_frame dates s' root true seen f ≡ none
  unfolding own
  same_frame f root last seen fine (inl e) h =
      cleared_frame dates s s' run grown f f root last seen e refl h
  same_frame f root last seen fine (inr (a, e)) h =
      let o : own f.attempts f.node ≡ some a = rw e (ground (arith, same_refl f.node)) in
      advanced_frame f f a a root last seen o e refl refl (fine a o) h

module _ (dates : Dates) (compiles : Json → Bool) (max_depth : ℕ) (s : RunState) (f : Frame)
    (below : List Frame) (frames : s.frames ≡ below ++ f ∷ [])
    (good : IsShaped dates compiles max_depth s) where
  pub own_good :
      (a : NodeAttempts)
      → own f.attempts f.node ≡ some a
      → assert_attempts dates a (is_some s.in_flight) ≡ none
  own_good a o =
      let (root, seen, passes) = frame_of_stack dates s f [] below true [] (
        subst (λ l. assert_frames dates s true [] l ≡ none) frames
          (shaped_stack dates compiles max_depth s good)) in
      frame_progress dates s root true seen f a passes o

  top_good : assert_top dates compiles s f ≡ none
  top_good = shaped_top dates compiles max_depth s f below frames good

  module _ (a : NodeAttempts) (o : own f.attempts f.node ≡ some a) where
    -- The state with new progress `a'` at the active node.
    progressed_to :
        (s' : RunState) (a' : NodeAttempts)
        → s'.frames ≡ map_last (λ g. record g { attempts = put g.attempts f.node a' }) s.frames
        → s'.run_id ≡ s.run_id
        → s.invocation ≤ s'.invocation
        → a'.invocation_id ≡ a.invocation_id
        → assert_attempts dates a' (is_some s'.in_flight) ≡ none
        → (own (put f.attempts f.node a') f.node ≡ some a'
            → assert_top dates compiles s' (record f { attempts = put f.attempts f.node a' })
              ≡ none)
        → IsShaped dates compiles max_depth s'
    progressed_to s' a' e run grown i fine t =
        let held : put f.attempts f.node a' ≡ (f.node, a') ∷ [] =
          put-own f.attempts f.node a'
            (shaped_attempts dates compiles max_depth s f below [] frames good) in
        replaced dates compiles max_depth s s' f (record f { attempts = put f.attempts f.node a' })
          below [] frames
          (e
            ∙ (ap (map_last (λ g. record g { attempts = put g.attempts f.node a' })) frames
                ∙ map_last-concat (λ g. record g { attempts = put g.attempts f.node a' }) below f))
          good run grown
          (λ root last seen h.
            advanced_frame dates s s' run grown f (record f { attempts = put f.attempts f.node a' })
              a a' root last seen o held i refl fine h)
          (t (rw held (unfold own in ground (arith, same_refl f.node))))

    pub interrupted_state-IsShaped :
        is_some s.in_flight ≡ true
        → a.interruptions < or_default a.policy.max_interruptions 3
        → IsShaped dates compiles max_depth (interrupted_state f.node a s)
    unfolding interrupted_state set_top assert_attempts assert_top assert_status
    interrupted_state-IsShaped flying few =
        progressed_to (interrupted_state f.node a s)
          (record a { interruptions = a.interruptions + 1 }) refl refl (omega arith) refl
          (ground (arith, own_good a o)) (λ q. ground (arith, top_good))

    pub begun_state-IsShaped :
        IsActive s.status
        → a.count < a.policy.base.max_attempts
        → IsShaped dates compiles max_depth (begun_state f.node a s)
    unfolding begun_state set_top assert_attempts assert_top assert_status
    begun_state-IsShaped act few =
        let (no_outcome, no_output, no_error) = shaped_blank dates compiles max_depth s good act in
        progressed_to (begun_state f.node a s) (begun a) refl refl (omega arith) refl
          (ground (arith, own_good a o))
          (λ q. ground (arith, same_refl f.node, same_refl a.invocation_id))

    pub record_failure-IsShaped :
        (meta : ErrorMetadata)
        → 0 < a.count
        → IsShaped dates compiles max_depth (record_failure f.node meta a s)
    unfolding record_failure set_top assert_attempts assert_top assert_status
    record_failure-IsShaped meta pos =
        progressed_to (record_failure f.node meta a s) (record a { last_failure = some meta }) refl
          refl (omega arith) refl (ground (arith, own_good a o)) (λ q. ground (arith, top_good))
