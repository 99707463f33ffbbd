-- ===== src/FlowGraph/Shape.antt =====
-- What it takes for a state to pass the checks of `assertRunStateShape`, and what passing shows.
use sozai.Common.{
  ℕ, ◌≤◌, ◌≡◌, ap, ◌⊎◌, inl, inr, Bool, true, Option, none, some, List, [], ◌∷◌, ◌++◌, arith, ltb,
}
use sozai.Common.Lists.{length}
use sozai.Common.Text.{Text, same_refl, truthy}
use sozai.Common.Fields.{own}
use sozai.Common.Json.{Json}
use sozai.Common.Result.{first_issue}
use sozai.FlowGraph.Types.{NodeAttempts, Frame, Status, running, suspended, RunState}
use sozai.FlowGraph.Time.{Dates, is_canonical_timestamp}
use sozai.FlowGraph.Frames.{last?, last?-concat}
use sozai.FlowGraph.RetryCommits.{retry_pending}
use sozai.FlowGraph.Checks.{
  depth, assert_frames, assert_stack, assert_status, assert_run_state_shape, assert_top,
}
use sozai.FlowGraph.Stack.{alt_none}

-- The runner goes on from a state only while it runs or is suspended.
abbrev pub IsActive : Status → Type 0
IsActive s = (s ≡ running) ⊎ (s ≡ suspended)

module _ (dates : Dates) (compiles : Json → Bool) (max_depth : ℕ) where
  -- The state passes the checks.
  abbrev pub IsShaped : RunState → Type 0
  IsShaped s = assert_run_state_shape dates compiles max_depth s ≡ none

  pub shaped_stack : (s : RunState) → IsShaped s → assert_frames dates s true [] s.frames ≡ none
  unfolding assert_run_state_shape assert_stack
  shaped_stack s h = (alt_none _ _ (alt_none _ _ h).0).1

  pub shaped_depth : (s : RunState) → IsShaped s → length s.frames ≤ max_depth
  unfolding assert_run_state_shape assert_stack
  shaped_depth s h =
      let first =
        (alt_none (first_issue ((ltb max_depth (length s.frames), depth) ∷ [])) _
          (alt_none _ _ h).0).0 in
      ground arith

  pub shaped_top :
      (s : RunState) (f : Frame) (below : List Frame)
      → s.frames ≡ below ++ f ∷ []
      → IsShaped s
      → assert_top dates compiles s f ≡ none
  unfolding assert_run_state_shape
  shaped_top s f below e h = ground (arith, ap last? e, last?-concat below f)

  pub shaped :
      (s : RunState) (f : Frame) (below : List Frame)
      → s.frames ≡ below ++ f ∷ []
      → length s.frames ≤ max_depth
      → assert_frames dates s true [] s.frames ≡ none
      → assert_top dates compiles s f ≡ none
      → IsShaped s
  unfolding assert_run_state_shape assert_stack
  shaped s f below e small stack top_ok = ground (arith, ap last? e, last?-concat below f)

status_blank :
    (s : RunState) (a : Option NodeAttempts)
    → assert_status s a ≡ none
    → IsActive s.status
    → (s.outcome ≡ none) × (s.output ≡ none) × (s.error ≡ none)
unfolding assert_status
status_blank s a h (inl r) = ground arith
status_blank s a h (inr r) = ground arith

-- An active state that passes carries no result and no error.
pub active_blank :
    (dates : Dates) (compiles : Json → Bool) (s : RunState) (f : Frame)
    → assert_top dates compiles s f ≡ none
    → IsActive s.status
    → (s.outcome ≡ none) × (s.output ≡ none) × (s.error ≡ none)
unfolding assert_top
active_blank dates compiles s f h act =
    status_blank s (own f.attempts f.node) (alt_none _ _ h).1 act

module _ (dates : Dates) (compiles : Json → Bool) (s : RunState) (f : Frame)
    (idle : s.in_flight ≡ none) (no_outcome : s.outcome ≡ none) (no_output : s.output ≡ none)
    (no_error : s.error ≡ none) where
  -- A running state with nothing in flight, pending or recorded passes.
  pub running_top : s.status ≡ running → s.pending ≡ none → assert_top dates compiles s f ≡ none
  unfolding assert_top assert_status
  running_top r p = ground arith

  -- A state suspended for the retry that its active node has scheduled passes.
  pub suspended_top :
      (t : Text) (a : NodeAttempts)
      → s.status ≡ suspended
      → s.pending ≡ some (retry_pending f.node t)
      → own f.attempts f.node ≡ some a
      → a.retry_at ≡ some t
      → truthy (some t) ≡ true
      → is_canonical_timestamp dates t ≡ true
      → assert_top dates compiles s f ≡ none
  unfolding assert_top assert_status
  suspended_top t a r p o q tr c = ground (arith, same_refl f.node, same_refl t)
