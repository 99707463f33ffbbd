-- ===== src/FlowGraph/Applied.antt =====
-- The commits that follow a node's result keep a state that passes its checks.
use sozai.Common.{
  ℕ, ◌≤◌, ◌≡◌, refl, ap, ◌∙◌, ◌⊎◌, Bool, false, Option, none, some, List, [], ◌∷◌, ◌++◌, arith,
  is_some,
}
use sozai.Common.Text.{Text}
use sozai.Common.Fields.{own, remove}
use sozai.Common.Json.{Json}
use sozai.FlowGraph.Types.{NodeAttempts, Frame, running, suspended, ended, PendingReason, RunState}
use sozai.FlowGraph.Time.{Dates}
use sozai.FlowGraph.Frames.{map_last, map_last-concat}
use sozai.FlowGraph.Commits.{Runner, Staged, adopt, leave}
use sozai.FlowGraph.Checks.{bad_time, schema_bad}
use sozai.FlowGraph.Stack.{cleared_frame}
use sozai.FlowGraph.Shape.{IsActive, IsShaped}
use sozai.FlowGraph.Replace.{
  shaped_blank, replaced, replaced_running, Continues, shaped_attempts, remove_own,
}
use sozai.FlowGraph.Staging.{kept_frame, IsStaged, ended_top, input_top}

module _ (dates : Dates) (compiles : Json → Bool) (max_depth : ℕ) (r : Runner) (f : Frame)
    (below : List Frame) (frames : r.state.frames ≡ below ++ f ∷ [])
    (good : IsShaped dates compiles max_depth r.state) (act : IsActive r.state.status)
    (staged : Staged) (s1 : RunState) (st : IsStaged staged r.state s1) where
  blank : (r.state.outcome ≡ none) × (r.state.output ≡ none) × (r.state.error ≡ none)
  blank = shaped_blank dates compiles max_depth r.state good act

  pub staged_frames : s1.frames ≡ below ++ adopt staged f ∷ []
  staged_frames =
      st.frames ∙ (ap (map_last (adopt staged)) frames ∙ map_last-concat (adopt staged) below f)

  own_attempts : (f.attempts ≡ []) ⊎ ((a : NodeAttempts) × (f.attempts ≡ (f.node, a) ∷ []))
  own_attempts = shaped_attempts dates compiles max_depth r.state f below [] frames good

  left : remove f.attempts f.node ≡ []
  left = remove_own f.attempts f.node own_attempts

  pub staged-Continues :
      (s' : RunState)
      → s'.run_id ≡ s1.run_id
      → s'.invocation ≡ s1.invocation
      → s'.in_flight ≡ s1.in_flight
      → s'.outcome ≡ s1.outcome
      → s'.output ≡ s1.output
      → s'.error ≡ s1.error
      → Continues r.state s'
  staged-Continues s' a b c d e g = record {
    run = a ∙ st.run;
    grown = omega (arith, b, st.grown);
    idle = c ∙ st.idle;
    outcome = d ∙ st.outcome;
    output = e ∙ st.output;
    error = g ∙ st.error;
  }

  -- The frame of the node that is left, at its new node.
  pub moved-IsShaped :
      (s' : RunState) (target : Text)
      → Continues r.state s'
      → s'.frames ≡ map_last (λ g. record (leave f.node g) { node = target }) s1.frames
      → s'.status ≡ running
      → s'.pending ≡ none
      → IsShaped dates compiles max_depth s'
  moved-IsShaped s' target c e run p =
      replaced_running dates compiles max_depth r.state s' f
        (record (leave f.node (adopt staged f)) { node = target }) below [] frames
        (e
          ∙ (ap (map_last (λ g. record (leave f.node g) { node = target })) staged_frames
              ∙ map_last-concat (λ g. record (leave f.node g) { node = target }) below
                  (adopt staged f)))
        good act c
        (λ root last seen h.
          cleared_frame dates r.state s' c.run c.grown f
            (record (leave f.node (adopt staged f)) { node = target }) root last seen left refl h)
        run p

  -- The root frame's run has ended at its node.
  pub finished-IsShaped :
      (s' : RunState)
      → s'.run_id ≡ s1.run_id
      → s'.invocation ≡ s1.invocation
      → s'.in_flight ≡ s1.in_flight
      → s'.error ≡ s1.error
      → s'.frames ≡ map_last (leave f.node) s1.frames
      → s'.status ≡ ended
      → s'.pending ≡ none
      → IsShaped dates compiles max_depth s'
  finished-IsShaped s' a b c d e fin p =
      let (_, _, no_error) = blank in
      let run = a ∙ st.run in
      let grown : r.state.invocation ≤ s'.invocation = omega (arith, b, st.grown) in
      replaced dates compiles max_depth r.state s' f (leave f.node (adopt staged f)) below [] frames
        (e
          ∙ (ap (map_last (leave f.node)) staged_frames
              ∙ map_last-concat (leave f.node) below (adopt staged f)))
        good run grown
        (λ root last seen h.
          cleared_frame dates r.state s' run grown f (leave f.node (adopt staged f)) root last seen
            left refl h)
        (ended_top dates compiles s' (leave f.node (adopt staged f)) fin (c ∙ st.idle) p
          (d ∙ (st.error ∙ no_error)) left)

  -- The frame is replaced by a fresh one.
  pub replaced-IsShaped :
      (s' : RunState) (fresh : Frame)
      → Continues r.state s'
      → s'.frames ≡ map_last (λ old. fresh) s1.frames
      → fresh.attempts ≡ []
      → is_some fresh.continuation ≡ is_some f.continuation
      → s'.status ≡ running
      → s'.pending ≡ none
      → IsShaped dates compiles max_depth s'
  replaced-IsShaped s' fresh c e none_yet link run p =
      replaced_running dates compiles max_depth r.state s' f fresh below [] frames
        (e
          ∙ (ap (map_last (λ old. fresh)) staged_frames
              ∙ map_last-concat (λ old. fresh) below (adopt staged f)))
        good act c
        (λ root last seen h.
          cleared_frame dates r.state s' c.run c.grown f fresh root last seen none_yet link h)
        run p

  -- The node suspends the run for an input.
  pub asked-IsShaped :
      (s' : RunState) (prompt schema value : Option Json) (deadline : Option Text)
      → Continues r.state s'
      → s'.frames ≡ s1.frames
      → s'.status ≡ suspended
      → s'.pending
        ≡ some (record {
          node = f.node;
          reason = PendingReason.suspend;
          prompt = prompt;
          schema = schema;
          value = value;
          deadline = deadline;
          resume_at = none;
        })
      → bad_time dates deadline ≡ false
      → schema_bad compiles s'.pending ≡ false
      → ((own f.attempts f.node ≡ none)
          ⊎ ((a : NodeAttempts) × (own f.attempts f.node ≡ some a) × (a.retry_at ≡ none)))
      → IsShaped dates compiles max_depth s'
  asked-IsShaped s' prompt schema value deadline c e sus p d k ready =
      let (no_outcome, no_output, no_error) = blank in
      replaced dates compiles max_depth r.state s' f (adopt staged f) below [] frames
        (e ∙ staged_frames) good c.run c.grown
        (kept_frame dates r.state s' c.run c.grown c.idle f (adopt staged f) refl refl refl)
        (input_top dates compiles s' (adopt staged f) prompt schema value deadline sus c.idle p
          (c.outcome ∙ no_outcome) (c.output ∙ no_output) (c.error ∙ no_error) d k ready)
