-- ===== src/FlowGraph/FailedFrame.antt =====
-- What becomes of a node's frame when the run fails or is aborted at it, and the checks of a state
-- that ends there.
use sozai.Common.{◌≡◌, ◌⊎◌, inl, inr, Bool, true, false, none, some, [], ◌∷◌, arith, is_some}
use sozai.Common.Text.{Text, same_refl}
use sozai.Common.Fields.{own, put}
use sozai.Common.Json.{Json}
use sozai.FlowGraph.Types.{NodeAttempts, Frame, error, aborted, RunState}
use sozai.FlowGraph.Time.{Dates}
use sozai.FlowGraph.Failure.{fail_frame}
use sozai.FlowGraph.Checks.{assert_attempts, assert_top, assert_status}

-- Progress without a scheduled retry passes where the old progress passed.
pub unscheduled_good :
    (dates : Dates) (a : NodeAttempts) (flying : Bool)
    → assert_attempts dates a flying ≡ none
    → assert_attempts dates (record a { retry_at = none }) false ≡ none
unfolding assert_attempts
unscheduled_good dates a flying h = ground arith

-- A failed state with nothing in flight, pending or scheduled passes.
pub failed_top :
    (dates : Dates) (compiles : Json → Bool) (s : RunState) (f : Frame)
    → s.status ≡ error
    → s.in_flight ≡ none
    → s.pending ≡ none
    → s.outcome ≡ none
    → s.output ≡ none
    → is_some s.error ≡ true
    → (own f.attempts f.node ≡ none)
      ⊎ ((a : NodeAttempts) × (own f.attempts f.node ≡ some a) × (a.retry_at ≡ none))
    → assert_top dates compiles s f ≡ none
unfolding assert_top assert_status
failed_top dates compiles s f st fl p o u e (inl q) = ground arith
failed_top dates compiles s f st fl p o u e (inr (a, q, z)) = ground arith

-- So does an aborted one.
pub aborted_top :
    (dates : Dates) (compiles : Json → Bool) (s : RunState) (f : Frame)
    → s.status ≡ aborted
    → s.in_flight ≡ none
    → s.pending ≡ none
    → s.outcome ≡ none
    → s.output ≡ none
    → s.error ≡ none
    → (own f.attempts f.node ≡ none)
      ⊎ ((a : NodeAttempts) × (own f.attempts f.node ≡ some a) × (a.retry_at ≡ none))
    → assert_top dates compiles s f ≡ none
unfolding assert_top assert_status
aborted_top dates compiles s f st fl p o u e (inl q) = ground arith
aborted_top dates compiles s f st fl p o u e (inr (a, q, z)) = ground arith

-- What `failRun` does to the frame of its node.
pub fail_frame_cases :
    (code : Text) (f : Frame)
    → (f.attempts ≡ []) ⊎ ((a : NodeAttempts) × (f.attempts ≡ (f.node, a) ∷ []))
    → ((f.attempts ≡ []) × ((fail_frame code f.node f).attempts ≡ []))
      ⊎ ((a : NodeAttempts) × (own f.attempts f.node ≡ some a)
          × ((fail_frame code f.node f).attempts ≡ (f.node, record a { retry_at = none }) ∷ []))
unfolding fail_frame own put
fail_frame_cases code f (inl e) = inl (e, ground arith)
fail_frame_cases code f (inr (a, e)) =
    inr (a, ground (arith, same_refl f.node), ground (arith, same_refl f.node))

pub fail_frame_rest :
    (code node_id : Text) (f : Frame)
    → ((fail_frame code node_id f).node ≡ f.node)
      × ((fail_frame code node_id f).continuation ≡ f.continuation)
unfolding fail_frame
fail_frame_rest code node_id f = ground arith
