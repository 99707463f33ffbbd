-- ===== src/FlowGraph/Prepared.antt =====
-- The step of packages/flow-graph/src/run-drive.ts that draws a node's first invocation keeps a
-- state that passes its checks: the invocation is no other frame's.
use mathlib.Core.Path.{subst}
use sozai.Common.{
  ℕ, ◌+◌, ◌≤◌, ◌<◌, ◌≡◌, refl, ap, sym, ◌∙◌, inl, inr, Bool, true, false, Option, none, some, List,
  [], ◌∷◌, ◌++◌, arith, is_some, Bool-cases,
}
use sozai.Common.Lists.{length, length-append}
use sozai.Common.Text.{Text, same, includes, same_refl, same_iff}
use sozai.Common.Fields.{own, put}
use sozai.Common.Json.{Json}
use sozai.FlowGraph.Types.{FlowRetryPolicy, NodeAttempts, Frame, running, RunState}
use sozai.FlowGraph.Time.{Dates}
use sozai.FlowGraph.Frames.{
  next_invocation_id, invocation_id, draw_invocation, set_top, map_last, map_last-concat,
}
use sozai.FlowGraph.Checks.{
  is_bad_policy, assert_attempts, assert_frame_attempts, assert_frame, assert_frames, assert_top,
  assert_status, invocation_number, out_of_range, see, is_empty, above_option, bad_time,
}
use sozai.FlowGraph.Stack.{alt_none, alt-none, is_empty-append, parked_frame}
use sozai.FlowGraph.Shape.{IsShaped, shaped, shaped_top, shaped_stack, shaped_depth}
use sozai.FlowGraph.Replace.{shaped_attempts}
use sozai.FlowGraph.Invocations.{invocation_number-next}
use sozai.FlowGraph.Preserve.{put-own}
use sozai.FlowGraph.Turns.{first_attempt, prepared_state}

-- All of the ids are invocations of the run `s` so far.
abbrev IsDrawn : RunState → List Text → Type 0
IsDrawn s [] = Unit
IsDrawn s (id ∷ ids) =
    (out_of_range s.invocation (invocation_number s.run_id id) ≡ false) × IsDrawn s ids

-- A later invocation is none of them.
later-includes :
    (s : RunState) (seen : List Text) (id : Text) (n : ℕ)
    → IsDrawn s seen
    → invocation_number s.run_id id ≡ some n
    → s.invocation < n
    → includes seen id ≡ false
unfolding includes
later-includes s [] id n d e k = refl
later-includes s (x ∷ seen) id n d e k = elim (Bool-cases (same x id)) [
  | inl q ↦ apart (
      subst (λ t. out_of_range s.invocation (invocation_number s.run_id t) ≡ false)
        ((same_iff x id).0 q) d.0)
  | inr q ↦ ground (arith, later-includes s seen id n d.1 e k)
]
  where
    apart :
        out_of_range s.invocation (invocation_number s.run_id id) ≡ false
        → includes (x ∷ seen) id ≡ false
    apart h = ground arith

module _ (dates : Dates) (s s' : RunState) (run : s'.run_id ≡ s.run_id)
    (grown : s.invocation ≤ s'.invocation) where
  seen-IsDrawn :
      (root last : Bool) (seen : List Text) (g : Frame)
      → assert_frame dates s root last seen g ≡ none
      → IsDrawn s seen
      → IsDrawn s (see (own g.attempts g.node) seen)
  unfolding assert_frame assert_frame_attempts
  seen-IsDrawn root last seen g h d = go (own g.attempts g.node) refl
    where
      go : (o : Option NodeAttempts) → own g.attempts g.node ≡ o → IsDrawn s (see o seen)
      go none e = d
      go (some a) e = (ground arith, d)

  replace_fresh :
      (f f' : Frame) (below : List Frame)
      → ((root last : Bool) (seen : List Text)
          → IsDrawn s seen
          → assert_frame dates s root last seen f ≡ none
          → assert_frame dates s' root true seen f' ≡ none)
      → (root : Bool) (seen : List Text) → IsDrawn s seen
      → assert_frames dates s root seen (below ++ f ∷ []) ≡ none
      → assert_frames dates s' root seen (below ++ f' ∷ []) ≡ none
  unfolding assert_frames
  replace_fresh f f' [] keep_fresh root seen d h =
      alt-none _ none (keep_fresh root true seen d (alt_none _ _ h).0) refl
  replace_fresh f f' (g ∷ below) keep_fresh root seen d h =
      let (here, above) =
        alt_none (assert_frame dates s root (is_empty (below ++ f ∷ [])) seen g) _ h in
      alt-none _ _
        (rw (is_empty-append below f' [])
          (parked_frame dates s s' run grown root seen g (rw (is_empty-append below f []) at here)))
        (replace_fresh f f' below keep_fresh false (see (own g.attempts g.node) seen)
          (seen-IsDrawn root (is_empty (below ++ f ∷ [])) seen g here d) above)

-- The policy of a node, and the deadline that its attempts get, are usable.
pub record IsUsable (dates : Dates) (policy : FlowRetryPolicy) (deadline : Option Text)
    : Type 0 where
  pub valid : is_bad_policy policy ≡ false
  pub within : above_option policy.suspend_after_ms policy.base.total_timeout_ms ≡ false
  pub dated : bad_time dates deadline ≡ false

first_pass :
    (dates : Dates) (s' : RunState) (a : NodeAttempts) (seen : List Text)
    → assert_attempts dates a (is_some s'.in_flight) ≡ none
    → invocation_number s'.run_id a.invocation_id ≡ some s'.invocation
    → includes seen a.invocation_id ≡ false
    → assert_frame_attempts dates s' true seen a ≡ none
unfolding assert_frame_attempts
first_pass dates s' a seen fine number new = rw number (ground arith)

-- The first attempts of a node pass in its frame.
first_passes :
    (dates : Dates) (s s' : RunState) (f f' : Frame) (a : NodeAttempts) (root last : Bool)
    (seen : List Text)
    → f'.attempts ≡ (f'.node, a) ∷ []
    → f'.continuation ≡ f.continuation
    → assert_attempts dates a (is_some s'.in_flight) ≡ none
    → invocation_number s'.run_id a.invocation_id ≡ some s'.invocation
    → includes seen a.invocation_id ≡ false
    → assert_frame dates s root last seen f ≡ none
    → assert_frame dates s' root true seen f' ≡ none
unfolding assert_frame own
first_passes dates s s' f f' a root last seen held c fine number new h =
    rw (c, held) (ground (arith, same_refl f'.node, first_pass dates s' a seen fine number new))

first_top :
    (dates : Dates) (compiles : Json → Bool) (s s' : RunState) (f f' : Frame) (a : NodeAttempts)
    → own f'.attempts f'.node ≡ some a
    → a.retry_at ≡ none
    → f'.node ≡ f.node
    → own f.attempts f.node ≡ none
    → s'.in_flight ≡ s.in_flight
    → s'.pending ≡ s.pending
    → s'.status ≡ s.status
    → s'.outcome ≡ s.outcome
    → s'.output ≡ s.output
    → s'.error ≡ s.error
    → assert_top dates compiles s f ≡ none
    → assert_top dates compiles s' f' ≡ none
unfolding assert_top assert_status
first_top dates compiles s s' f f' a o ready n fresh fl p st oc ou er h =
    rw (n, fl, p, st, oc, ou, er) (ground arith)

-- Nothing is in flight at a frame without attempts.
idle_fresh :
    (dates : Dates) (compiles : Json → Bool) (s : RunState) (f : Frame)
    → own f.attempts f.node ≡ none
    → assert_top dates compiles s f ≡ none
    → s.in_flight ≡ none
unfolding assert_top
idle_fresh dates compiles s f fresh h = ground arith

module _ (dates : Dates) (compiles : Json → Bool) (max_depth : ℕ) (s : RunState) (f : Frame)
    (below : List Frame) (frames : s.frames ≡ below ++ f ∷ [])
    (good : IsShaped dates compiles max_depth s) (policy : FlowRetryPolicy) (deadline : Option Text)
    (usable : IsUsable dates policy deadline) (fresh : own f.attempts f.node ≡ none) where
  -- Counting the first step of a node that has no attempts yet, in a running run whose state passes
  -- its checks, leaves a state that passes them, the invocation that it draws being no other
  -- frame's, where the policy and the deadline are usable.
  pub prepared_state-IsShaped :
      s.status ≡ running
      → IsShaped dates compiles max_depth (prepared_state f.node policy deadline s)
  unfolding prepared_state set_top draw_invocation next_invocation_id
  prepared_state-IsShaped act =
      shaped dates compiles max_depth s' f' below frames'
        (rw frames' (
          omega (
            arith,
            shaped_depth dates compiles max_depth s good,
            ap length frames,
            length-append below (f ∷ []),
            length-append below (f' ∷ []),
          )))
        (subst (λ l. assert_frames dates s' true [] l ≡ none) (sym frames')
          (replace_fresh dates s s' refl (omega arith) f f' below keep_fresh true [] tt (
            subst (λ l. assert_frames dates s true [] l ≡ none) frames
              (shaped_stack dates compiles max_depth s good))))
        (first_top dates compiles s s' f f' a own_new refl refl fresh refl refl refl refl refl refl
          t)
    where
      s' : RunState
      s' = prepared_state f.node policy deadline s

      id : Text
      id = invocation_id s.run_id (s.invocation + 1)

      a : NodeAttempts
      a = first_attempt id policy deadline

      f' : Frame
      f' = record f { attempts = put f.attempts f.node a }

      held : put f.attempts f.node a ≡ (f.node, a) ∷ []
      held =
          put-own f.attempts f.node a
            (shaped_attempts dates compiles max_depth s f below [] frames good)

      frames' : s'.frames ≡ below ++ f' ∷ []
      frames' =
          ap (map_last (λ g. record g { attempts = put g.attempts f.node a })) frames
          ∙ map_last-concat (λ g. record g { attempts = put g.attempts f.node a }) below f

      t : assert_top dates compiles s f ≡ none
      t = shaped_top dates compiles max_depth s f below frames good

      own_new : own f'.attempts f'.node ≡ some a
      own_new = rw held (unfold own in ground (arith, same_refl f.node))

      fine_first : assert_attempts dates a (is_some s'.in_flight) ≡ none
      fine_first =
          unfold assert_attempts in
          ground (
            arith,
            idle_fresh dates compiles s f fresh t,
            usable.valid,
            usable.within,
            usable.dated,
          )

      keep_fresh :
          (root last : Bool) (seen : List Text)
          → IsDrawn s seen
          → assert_frame dates s root last seen f ≡ none
          → assert_frame dates s' root true seen f' ≡ none
      keep_fresh root last seen d h =
          first_passes dates s s' f f' a root last seen held refl fine_first
            (invocation_number-next s).0
            (later-includes s seen id (s.invocation + 1) d (invocation_number-next s).0
              (omega arith))
            h
