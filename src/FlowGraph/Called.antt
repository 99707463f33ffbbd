-- ===== src/FlowGraph/Called.antt =====
-- The commits of a call and of its return keep a state that passes its checks.
use mathlib.Core.List.{append_assoc}
use mathlib.Core.Path.{subst}
use sozai.Common.{
  ℕ, ◌≤◌, ◌<◌, ◌≡◌, refl, ap, sym, ◌∙◌, ◌⊎◌, inl, inr, Bool, true, false, Option, none, some, List,
  [], ◌∷◌, ◌++◌, arith, is_some,
}
use sozai.Common.Lists.{length, length-append}
use sozai.Common.Text.{Text}
use sozai.Common.Fields.{Fields, own}
use sozai.Common.Json.{Json}
use sozai.FlowGraph.Types.{NodeAttempts, Continuation, Frame, running, RunState}
use sozai.FlowGraph.Time.{Dates}
use sozai.FlowGraph.Commits.{resume_caller}
use sozai.FlowGraph.Checks.{
  assert_attempts, assert_frame, assert_frame_attempts, assert_frames, invocation_number,
}
use sozai.FlowGraph.Stack.{cleared_frame, replace_tail, range_grows, alt-none}
use sozai.FlowGraph.Shape.{IsActive, IsShaped, shaped, shaped_stack, running_top}
use sozai.FlowGraph.Replace.{shaped_blank, replaced_running, Continues, shaped_attempts, remove_own}
use sozai.FlowGraph.Unwinding.{IsLinked, IsCallerOf}

parked_progress :
    (dates : Dates) (s s' : RunState) (last : Bool) (seen : List Text) (a : NodeAttempts)
    → s'.run_id ≡ s.run_id
    → s.invocation ≤ s'.invocation
    → a.retry_at ≡ none
    → assert_frame_attempts dates s last seen a ≡ none
    → assert_frame_attempts dates s' false seen a ≡ none
unfolding assert_frame_attempts assert_attempts
parked_progress dates s s' last seen a run grown ready h =
    rw run (
      ground (arith, range_grows dates s s' run grown (invocation_number s.run_id a.invocation_id)))

-- A frame that becomes a parked one passes, where no retry is scheduled at its node.
parks :
    (dates : Dates) (s s' : RunState)
    → s'.run_id ≡ s.run_id
    → s.invocation ≤ s'.invocation
    → (f f' : Frame) → f'.node ≡ f.node
    → f'.attempts ≡ f.attempts
    → f'.continuation ≡ f.continuation
    → ((own f.attempts f.node ≡ none)
        ⊎ ((a : NodeAttempts) × (own f.attempts f.node ≡ some a) × (a.retry_at ≡ none)))
    → (root last : Bool) (seen : List Text) → assert_frame dates s root last seen f ≡ none
    → assert_frame dates s' root false seen f' ≡ none
unfolding assert_frame
parks dates s s' run grown f f' n e c (inl o) root last seen h = rw (n, e, c) (ground arith)
parks dates s s' run grown f f' n e c (inr (a, o, ready)) root last seen h =
    rw (n, e, c) (ground (arith, parked_progress dates s s' last seen a run grown ready))

fresh_passes :
    (dates : Dates) (s : RunState) (seen : List Text) (f : Frame)
    → f.attempts ≡ []
    → is_some f.continuation ≡ true
    → assert_frame dates s false true seen f ≡ none
unfolding assert_frame own
fresh_passes dates s seen f e c = ground arith

module _ (dates : Dates) (compiles : Json → Bool) (max_depth : ℕ) (s s' : RunState) (f : Frame)
    (below : List Frame) (frames : s.frames ≡ below ++ f ∷ [])
    (good : IsShaped dates compiles max_depth s) (act : IsActive s.status)
    (c : Continues s s') where
  -- The frame `f'` parks below a fresh frame.
  pub called-IsShaped :
      (f' fresh : Frame)
      → f'.node ≡ f.node
      → f'.attempts ≡ f.attempts
      → f'.continuation ≡ f.continuation
      → fresh.attempts ≡ []
      → is_some fresh.continuation ≡ true
      → s'.frames ≡ (below ++ f' ∷ []) ++ fresh ∷ []
      → length s.frames < max_depth
      → ((own f.attempts f.node ≡ none)
          ⊎ ((a : NodeAttempts) × (own f.attempts f.node ≡ some a) × (a.retry_at ≡ none)))
      → s'.status ≡ running
      → s'.pending ≡ none
      → IsShaped dates compiles max_depth s'
  unfolding assert_frames
  called-IsShaped f' fresh n e k none_yet link frames' deep ready run p =
      let (o, u, q) = shaped_blank dates compiles max_depth s good act in
      let flat : s'.frames ≡ below ++ f' ∷ fresh ∷ [] =
        frames' ∙ append_assoc below (f' ∷ []) (fresh ∷ []) in
      shaped dates compiles max_depth s' fresh (below ++ f' ∷ []) frames'
        (rw flat (
          omega (
            arith,
            deep,
            ap length frames,
            length-append below (f ∷ []),
            length-append below (f' ∷ fresh ∷ []),
          )))
        (subst (λ l. assert_frames dates s' true [] l ≡ none) (sym flat)
          (replace_tail dates s s' c.run c.grown f [] (f' ∷ fresh ∷ []) below refl
            (λ root last seen h.
              alt-none _ _ (parks dates s s' c.run c.grown f f' n e k ready root last seen h)
                (alt-none _ none (fresh_passes dates s' _ fresh none_yet link) refl))
            true []
            (subst (λ l. assert_frames dates s true [] l ≡ none) frames
              (shaped_stack dates compiles max_depth s good))))
        (running_top dates compiles s' fresh c.idle (c.outcome ∙ o) (c.output ∙ u) (c.error ∙ q) run
          p)

linked_pair :
    (below : List Frame) (g f : Frame) (rest : List Frame)
    → IsLinked (below ++ g ∷ f ∷ rest)
    → IsCallerOf g f.continuation
linked_pair [] g f rest h = h.0
linked_pair (x ∷ []) g f rest h = linked_pair [] g f rest h.1
linked_pair (x ∷ y ∷ below) g f rest h = linked_pair (y ∷ below) g f rest h.1

-- The caller `g` goes on where its callee `f` has returned.
module _ (dates : Dates) (compiles : Json → Bool) (max_depth : ℕ) (s s' : RunState) (f g : Frame)
    (below : List Frame) (frames : s.frames ≡ below ++ g ∷ f ∷ [])
    (good : IsShaped dates compiles max_depth s) (act : IsActive s.status) (c : Continues s s')
    (link : Continuation) (called : f.continuation ≡ some link) (linked : IsLinked s.frames) where
  pub returned-IsShaped :
      (output : Fields Json) (outcome : Option Text)
      → s'.frames ≡ below ++ resume_caller link output outcome g ∷ []
      → s'.status ≡ running
      → s'.pending ≡ none
      → IsShaped dates compiles max_depth s'
  unfolding resume_caller
  returned-IsShaped output outcome frames' run p =
      let waits : g.node ≡ link.caller_node =
        subst (IsCallerOf g) called (linked_pair below g f [] (subst IsLinked frames linked)) in
      replaced_running dates compiles max_depth s s' g (resume_caller link output outcome g) below
        (f ∷ []) frames frames' good act c
        (λ root last seen h.
          cleared_frame dates s s' c.run c.grown g (resume_caller link output outcome g) root last
            seen
            (rw (← waits) (
              remove_own g.attempts g.node
                (shaped_attempts dates compiles max_depth s g below (f ∷ []) frames good)))
            refl h)
        run p
