-- ===== src/FlowGraph/Replace.antt =====
-- States that a commit makes from a shaped one by replacing its upper frames: they are shaped.
use sozai.Common.{
  ℕ, ◌≤◌, ◌≡◌, refl, ap, sym, ◌∙◌, ◌⊎◌, inl, inr, Bool, true, Option, none, some, List, [], ◌∷◌,
  ◌++◌, arith,
}
use mathlib.Core.Path.{subst}
use sozai.Common.Lists.{length, length-append}
use sozai.Common.Text.{Text, truthy, same_refl}
use sozai.Common.Fields.{Fields, own, remove}
use sozai.Common.Json.{Json}
use sozai.FlowGraph.Types.{NodeAttempts, Frame, running, suspended, RunState}
use sozai.FlowGraph.Time.{Dates, is_canonical_timestamp}
use sozai.FlowGraph.Frames.{last?}
use sozai.FlowGraph.RetryCommits.{retry_pending}
use sozai.FlowGraph.Checks.{
  assert_frame, assert_frames, assert_top, assert_run_state_shape, is_empty,
}
use sozai.FlowGraph.Stack.{replace_above, frame_attempts, frame_of_stack}
use sozai.FlowGraph.Shape.{
  IsActive, IsShaped, shaped_stack, shaped_depth, shaped, active_blank, running_top, suspended_top,
}

-- What a commit of a run that goes on keeps of the state before.
pub record Continues (s s' : RunState) : Type 0 where
  pub run : s'.run_id ≡ s.run_id
  pub grown : s.invocation ≤ s'.invocation
  pub idle : s'.in_flight ≡ none
  pub outcome : s'.outcome ≡ s.outcome
  pub output : s'.output ≡ s.output
  pub error : s'.error ≡ s.error

module _ (dates : Dates) (compiles : Json → Bool) (max_depth : ℕ) where
  pub shaped_blank :
      (s : RunState)
      → IsShaped dates compiles max_depth s
      → IsActive s.status
      → (s.outcome ≡ none) × (s.output ≡ none) × (s.error ≡ none)
  unfolding assert_run_state_shape
  shaped_blank s h act = go (last? s.frames) refl
    where
      go :
          (o : Option Frame)
          → last? s.frames ≡ o
          → (s.outcome ≡ none) × (s.output ≡ none) × (s.error ≡ none)
      go none e = ground arith
      go (some f) e = active_blank dates compiles s f (ground arith) act

  -- The frame `f'` passes as the active one of `s'` wherever `f` passed in `s`.
  abbrev pub Fits : RunState → RunState → Frame → Frame → Type 0
  Fits s s' f f' =
      (root last : Bool) (seen : List Text)
      → assert_frame dates s root last seen f ≡ none
      → assert_frame dates s' root true seen f' ≡ none

  -- A state whose frames from `f` on are replaced by `f'` passes if its active frame does.
  pub replaced :
      (s s' : RunState) (f f' : Frame) (below rest : List Frame)
      → s.frames ≡ below ++ f ∷ rest
      → s'.frames ≡ below ++ f' ∷ []
      → IsShaped dates compiles max_depth s
      → s'.run_id ≡ s.run_id
      → s.invocation ≤ s'.invocation
      → Fits s s' f f'
      → assert_top dates compiles s' f' ≡ none
      → IsShaped dates compiles max_depth s'
  replaced s s' f f' below rest frames frames' good run grown fits t =
      shaped dates compiles max_depth s' f' below frames'
        (rw frames' (
          omega (
            arith,
            shaped_depth dates compiles max_depth s good,
            ap length frames,
            length-append below (f ∷ rest),
            length-append below (f' ∷ []),
          )))
        (subst (λ l. assert_frames dates s' true [] l ≡ none) (sym frames')
          (replace_above dates s s' run grown f f' rest below fits true [] (
            subst (λ l. assert_frames dates s true [] l ≡ none) frames
              (shaped_stack dates compiles max_depth s good))))
        t

  module _ (s s' : RunState) (f f' : Frame) (below rest : List Frame)
      (frames : s.frames ≡ below ++ f ∷ rest) (frames' : s'.frames ≡ below ++ f' ∷ [])
      (good : IsShaped dates compiles max_depth s) (act : IsActive s.status) (c : Continues s s')
      (fits : Fits s s' f f') where
    pub replaced_running :
        s'.status ≡ running → s'.pending ≡ none → IsShaped dates compiles max_depth s'
    replaced_running r p =
        let (o, u, e) = shaped_blank s good act in
        replaced s s' f f' below rest frames frames' good c.run c.grown fits
          (running_top dates compiles s' f' c.idle (c.outcome ∙ o) (c.output ∙ u) (c.error ∙ e) r p)

    pub replaced_suspended :
        (t : Text) (a : NodeAttempts)
        → s'.status ≡ suspended
        → s'.pending ≡ some (retry_pending f'.node t)
        → own f'.attempts f'.node ≡ some a
        → a.retry_at ≡ some t
        → truthy (some t) ≡ true
        → is_canonical_timestamp dates t ≡ true
        → IsShaped dates compiles max_depth s'
    replaced_suspended t a r p o q tr k =
        let (b, u, e) = shaped_blank s good act in
        replaced s s' f f' below rest frames frames' good c.run c.grown fits (
          suspended_top dates compiles s' f' c.idle (c.outcome ∙ b) (c.output ∙ u) (c.error ∙ e) t a
            r p o q tr k)

  -- What passing shows of the attempts of any frame of the stack.
  pub shaped_attempts :
      (s : RunState) (f : Frame) (below rest : List Frame)
      → s.frames ≡ below ++ f ∷ rest
      → IsShaped dates compiles max_depth s
      → (f.attempts ≡ []) ⊎ ((a : NodeAttempts) × (f.attempts ≡ (f.node, a) ∷ []))
  shaped_attempts s f below rest e h =
      let (root, seen, ok) = frame_of_stack dates s f rest below true [] (
        subst (λ l. assert_frames dates s true [] l ≡ none) e
          (shaped_stack dates compiles max_depth s h)) in
      frame_attempts dates s root (is_empty rest) seen f ok

-- Deleting the active node's attempts leaves none.
pub remove_own :
    (m : Fields NodeAttempts) (node : Text)
    → (m ≡ []) ⊎ ((a : NodeAttempts) × (m ≡ (node, a) ∷ []))
    → remove m node ≡ []
unfolding remove
remove_own m node (inl e) = rw e refl
remove_own m node (inr (a, e)) = rw e (ground (arith, same_refl node))
