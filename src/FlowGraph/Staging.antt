-- ===== src/FlowGraph/Staging.antt =====
-- The state that a node's execution staged, and the active frames of the states that end or suspend a run.
use sozai.Common.{
  ◌≤◌, ◌≡◌, refl, ap, sym, ◌∙◌, ◌⊎◌, inl, inr, Bool, true, false, Option, none, some, List, [], ◌∷◌,
  arith, is_some, ◌||◌,
}
use sozai.Common.Text.{Text, same_refl}
use sozai.Common.Fields.{own}
use sozai.Common.Json.{Json}
use sozai.FlowGraph.Types.{NodeAttempts, Frame, running, suspended, ended, PendingReason, RunState}
use sozai.FlowGraph.Time.{Dates}
use sozai.FlowGraph.Frames.{map_last, set_top}
use sozai.FlowGraph.Commits.{Staged, adopt, staged_state}
use sozai.FlowGraph.Checks.{
  assert_attempts, assert_frame, assert_top, assert_status, bad_time, schema_bad,
}
use sozai.FlowGraph.Stack.{cleared_frame, progressed_frame, frame_progress, frame_attempts}

-- A frame that keeps its node and attempts passes once nothing is in flight.
pub kept_frame :
    (dates : Dates) (s s' : RunState)
    → s'.run_id ≡ s.run_id
    → s.invocation ≤ s'.invocation
    → s'.in_flight ≡ none
    → (f f' : Frame) → f'.node ≡ f.node
    → f'.attempts ≡ f.attempts
    → f'.continuation ≡ f.continuation
    → (root last : Bool) (seen : List Text) → assert_frame dates s root last seen f ≡ none
    → assert_frame dates s' root true seen f' ≡ none
kept_frame dates s s' run grown idle f f' n e c root last seen h =
    go (frame_attempts dates s root last seen f h)
  where
    same_link : is_some f'.continuation ≡ is_some f.continuation
    same_link = ap is_some c

    go :
        (f.attempts ≡ []) ⊎ ((a : NodeAttempts) × (f.attempts ≡ (f.node, a) ∷ []))
        → assert_frame dates s' root true seen f' ≡ none
    go (inl none_left) =
        cleared_frame dates s s' run grown f f' root last seen (e ∙ none_left) same_link h
    go (inr (a, held)) =
        let o : own f.attempts f.node ≡ some a =
          rw held (unfold own in ground (arith, same_refl f.node)) in
        progressed_frame dates s s' run grown f f' a a root last seen idle o
          (e ∙ held ∙ ap (λ k. (k, a) ∷ []) (sym n)) refl same_link
          (unfold assert_attempts in ground (arith, frame_progress dates s root last seen f a h o))
          h

-- What the state that an execution staged keeps of the state before.
pub record IsStaged (staged : Staged) (s s1 : RunState) : Type 0 where
  pub run : s1.run_id ≡ s.run_id
  pub grown : s.invocation ≤ s1.invocation
  pub idle : s1.in_flight ≡ none
  pub free : s1.pending ≡ none
  pub status : s1.status ≡ running
  pub outcome : s1.outcome ≡ s.outcome
  pub output : s1.output ≡ s.output
  pub error : s1.error ≡ s.error
  pub frames : s1.frames ≡ map_last (adopt staged) s.frames

pub staged_state-IsStaged :
    (retries resumed : Bool) (staged : Staged) (s : RunState)
    → IsStaged staged s (staged_state retries resumed staged s)
unfolding staged_state set_top
staged_state-IsStaged retries resumed staged s = go (retries || resumed) refl
  where
    go :
        (b : Bool)
        → (retries || resumed) ≡ b
        → IsStaged staged s (staged_state retries resumed staged s)
    go true e = record {
      run = ground arith;
      grown = ground arith;
      idle = refl;
      free = refl;
      status = refl;
      outcome = ground arith;
      output = ground arith;
      error = ground arith;
      frames = ground arith;
    }
    go false e = record {
      run = ground arith;
      grown = ground arith;
      idle = refl;
      free = refl;
      status = refl;
      outcome = ground arith;
      output = ground arith;
      error = ground arith;
      frames = ground arith;
    }

-- An ended state without attempts at its node passes.
pub ended_top :
    (dates : Dates) (compiles : Json → Bool) (s : RunState) (f : Frame)
    → s.status ≡ ended
    → s.in_flight ≡ none
    → s.pending ≡ none
    → s.error ≡ none
    → f.attempts ≡ []
    → assert_top dates compiles s f ≡ none
unfolding assert_top assert_status own
ended_top dates compiles s f st fl p e a = ground arith

-- A state suspended for an input that its node asks for passes, where no retry is scheduled.
pub input_top :
    (dates : Dates) (compiles : Json → Bool) (s : RunState) (f : Frame)
    (prompt schema value : Option Json) (deadline : Option Text)
    → s.status ≡ suspended
    → s.in_flight ≡ none
    → s.pending
      ≡ some (record {
        node = f.node;
        reason = PendingReason.suspend;
        prompt = prompt;
        schema = schema;
        value = value;
        deadline = deadline;
        resume_at = none;
      })
    → s.outcome ≡ none
    → s.output ≡ none
    → s.error ≡ none
    → bad_time dates deadline ≡ false
    → schema_bad compiles s.pending ≡ false
    → (own f.attempts f.node ≡ none)
      ⊎ ((a : NodeAttempts) × (own f.attempts f.node ≡ some a) × (a.retry_at ≡ none))
    → assert_top dates compiles s f ≡ none
unfolding assert_top assert_status
input_top dates compiles s f prompt schema value deadline st fl p o u e d k (inl q) =
    ground (arith, same_refl f.node)
input_top dates compiles s f prompt schema value deadline st fl p o u e d k (inr (a, q, z)) =
    ground (arith, same_refl f.node)
