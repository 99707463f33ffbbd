-- ===== src/FlowGraph/Results.antt =====
-- What a node's result is applied to keeps passing its checks.
use mathlib.Core.List.{append_assoc}
use sozai.Common.{
  ℕ, ◌<◌, ◌≡◌, refl, ap, sym, ◌∙◌, ◌⊎◌, Bool, true, false, Option, none, some, List, [], ◌∷◌, ◌++◌,
  arith, ltb,
}
use sozai.Common.Lists.{length}
use sozai.Common.Text.{Text}
use sozai.Common.Fields.{Fields, own}
use sozai.Common.Json.{Json}
use sozai.Common.Result.{ok, >>=-eq-ok, required, ok-injective}
use sozai.FlowGraph.Types.{NodeAttempts, Continuation, Frame, PendingReason, RunState}
use sozai.FlowGraph.Time.{Dates}
use sozai.FlowGraph.Frames.{
  missing_field, last?, last?-eq-some, map_last, map_last-concat, top, set_top, top_index,
}
use sozai.FlowGraph.Commits.{
  Runner, NodeResult, push, replace, go_to, finish, suspend, Staged, PreparedFlow, adopt, leave,
  fresh_frame, staged_state, pop_frame, push_frame, replace_frame, apply_to, apply_result,
  node_kind,
}
use sozai.FlowGraph.Checks.{bad_time, schema_bad}
use sozai.FlowGraph.Shape.{IsActive, IsShaped}
use sozai.FlowGraph.Replace.{Continues}
use sozai.FlowGraph.Inversion.{committed}
use sozai.FlowGraph.Unwinding.{IsLinked}
use sozai.FlowGraph.Staging.{IsStaged, staged_state-IsStaged}
use sozai.FlowGraph.Applied.{
  staged_frames, staged-Continues, moved-IsShaped, finished-IsShaped, replaced-IsShaped,
  asked-IsShaped,
}
use sozai.FlowGraph.Called.{called-IsShaped, returned-IsShaped}
use sozai.FlowGraph.Popped.{popped_state}

-- What the execution of a node checks before its result is applied.
abbrev pub IsChecked : Dates → (Json → Bool) → ℕ → RunState → NodeResult → Type 0
IsChecked dates compiles max_depth s (push input c) = length s.frames < max_depth
IsChecked dates compiles max_depth s (suspend prompt none value deadline) =
    bad_time dates deadline ≡ false
IsChecked dates compiles max_depth s (suspend prompt (some schema) value deadline) =
    (bad_time dates deadline ≡ false) × (compiles schema ≡ true)
IsChecked dates compiles max_depth s _ = Unit

-- No retry is scheduled at the frame's node.
abbrev pub IsReady : Frame → Type 0
IsReady f =
    (own f.attempts f.node ≡ none)
    ⊎ ((a : NodeAttempts) × (own f.attempts f.node ≡ some a) × (a.retry_at ≡ none))

module _ (dates : Dates) (compiles : Json → Bool) (max_depth : ℕ) (r r' : Runner) (f : Frame)
    (below : List Frame) (frames : r.state.frames ≡ below ++ f ∷ [])
    (good : IsShaped dates compiles max_depth r.state) (act : IsActive r.state.status)
    (linked : IsLinked r.state.frames) (ready : IsReady f) (staged : Staged) (s1 : RunState)
    (st : IsStaged staged r.state s1) (prepared : Option PreparedFlow) where
  goes_on-Continues :
      (s' : RunState)
      → s'.run_id ≡ s1.run_id
      → s'.invocation ≡ s1.invocation
      → s'.in_flight ≡ s1.in_flight
      → s'.outcome ≡ s1.outcome
      → s'.output ≡ s1.output
      → s'.error ≡ s1.error
      → Continues r.state s'
  goes_on-Continues =
      staged-Continues dates compiles max_depth r f below frames good act staged s1 st

  base : s1.frames ≡ below ++ adopt staged f ∷ []
  base = staged_frames dates compiles max_depth r f below frames good act staged s1 st

  pushed-IsShaped :
      (input : Json) (c : Continuation)
      → length r.state.frames < max_depth
      → apply_to f.node prepared (push input c) s1 r ≡ ok r'
      → IsShaped dates compiles max_depth r'.state
  unfolding apply_to push_frame
  pushed-IsShaped input c deep h =
      let (flow, _, h2) = >>=-eq-ok (required missing_field prepared) _ h in
      let e = ap (λ (q : Runner). q.state) (sym (ok-injective h2)) in
      let fresh : Frame = fresh_frame flow input (some c) in
      called-IsShaped dates compiles max_depth r.state r'.state f below frames good act
        (goes_on-Continues r'.state (ap (λ (x : RunState). x.run_id) e)
          (ap (λ (x : RunState). x.invocation) e) (ap (λ (x : RunState). x.in_flight) e)
          (ap (λ (x : RunState). x.outcome) e) (ap (λ (x : RunState). x.output) e)
          (ap (λ (x : RunState). x.error) e))
        (adopt staged f) fresh refl refl refl refl refl
        (ap (λ (x : RunState). x.frames) e ∙ ap (λ l. l ++ fresh ∷ []) base) deep ready
        (ap (λ (x : RunState). x.status) e ∙ st.status)
        (ap (λ (x : RunState). x.pending) e ∙ st.free)

  popped-IsShaped :
      (outcome : Option Text) (output : Fields Json)
      → pop_frame (set_top (leave f.node) s1) output outcome r ≡ ok r'
      → IsShaped dates compiles max_depth r'.state
  unfolding set_top
  popped-IsShaped outcome output h =
      let (link, g, deeper, called, shape, e) =
        popped_state (set_top (leave f.node) s1) output outcome r r' (leave f.node (adopt staged f))
          below
          (ap (map_last (leave f.node)) base
            ∙ map_last-concat (leave f.node) below (adopt staged f))
          h in
      returned-IsShaped dates compiles max_depth r.state r'.state f g deeper
        (frames ∙ ap (λ l. l ++ f ∷ []) shape ∙ append_assoc deeper (g ∷ []) (f ∷ [])) good act
        (goes_on-Continues r'.state (ap (λ (x : RunState). x.run_id) e)
          (ap (λ (x : RunState). x.invocation) e)
          (ap (λ (x : RunState). x.in_flight) e ∙ sym st.idle) (ap (λ (x : RunState). x.outcome) e)
          (ap (λ (x : RunState). x.output) e) (ap (λ (x : RunState). x.error) e))
        link called linked output outcome (ap (λ (x : RunState). x.frames) e)
        (ap (λ (x : RunState). x.status) e) (ap (λ (x : RunState). x.pending) e)

  pub applied-IsShaped :
      (result : NodeResult)
      → IsChecked dates compiles max_depth r.state result
      → apply_to f.node prepared result s1 r ≡ ok r'
      → IsShaped dates compiles max_depth r'.state
  unfolding apply_to replace_frame set_top
  applied-IsShaped (push input c) deep h = pushed-IsShaped input c deep h
  applied-IsShaped (replace input) _ h =
      let (flow, _, h2) = >>=-eq-ok (required missing_field prepared) _ h in
      let (top_frame, t, h3) = >>=-eq-ok (top s1) _ h2 in
      let e = ap (λ (q : Runner). q.state) (sym (ok-injective h3)) in fresh_top flow e
    where
      fresh_top :
          (flow : PreparedFlow)
          → r'.state
            ≡ committed
                (record s1 {
                  frames = map_last (λ old. fresh_frame flow input old.continuation) s1.frames;
                })
                r
          → IsShaped dates compiles max_depth r'.state
      fresh_top flow e =
          replaced-IsShaped dates compiles max_depth r f below frames good act staged s1 st r'.state
            (fresh_frame flow input f.continuation)
            (goes_on-Continues r'.state (ap (λ (x : RunState). x.run_id) e)
              (ap (λ (x : RunState). x.invocation) e) (ap (λ (x : RunState). x.in_flight) e)
              (ap (λ (x : RunState). x.outcome) e) (ap (λ (x : RunState). x.output) e)
              (ap (λ (x : RunState). x.error) e))
            (ap (λ (x : RunState). x.frames) e
              ∙ (ap (map_last (λ old. fresh_frame flow input old.continuation)) base
                  ∙ map_last-concat (λ old. fresh_frame flow input old.continuation) below
                      (adopt staged f)
                  ∙ sym (
                      ap (map_last (λ old. fresh_frame flow input f.continuation)) base
                      ∙ map_last-concat (λ old. fresh_frame flow input f.continuation) below
                          (adopt staged f))))
            refl refl (ap (λ (x : RunState). x.status) e ∙ st.status)
            (ap (λ (x : RunState). x.pending) e ∙ st.free)
  applied-IsShaped (go_to target) _ h =
      let e = ap (λ (q : Runner). q.state) (sym (ok-injective h)) in
      moved-IsShaped dates compiles max_depth r f below frames good act staged s1 st r'.state target
        (goes_on-Continues r'.state (ap (λ (x : RunState). x.run_id) e)
          (ap (λ (x : RunState). x.invocation) e) (ap (λ (x : RunState). x.in_flight) e)
          (ap (λ (x : RunState). x.outcome) e) (ap (λ (x : RunState). x.output) e)
          (ap (λ (x : RunState). x.error) e))
        (ap (λ (x : RunState). x.frames) e) (ap (λ (x : RunState). x.status) e ∙ st.status)
        (ap (λ (x : RunState). x.pending) e ∙ st.free)
  applied-IsShaped (finish outcome output) _ h = go (ltb 0 (top_index s1)) refl
    where
      go : (b : Bool) → ltb 0 (top_index s1) ≡ b → IsShaped dates compiles max_depth r'.state
      go true e = popped-IsShaped outcome _ (rw (e, apply_to) at h)
      go false root =
          let e = ap (λ (q : Runner). q.state) (sym (ok-injective (rw (root, apply_to) at h))) in
          finished-IsShaped dates compiles max_depth r f below frames good act staged s1 st r'.state
            (ap (λ (x : RunState). x.run_id) e) (ap (λ (x : RunState). x.invocation) e)
            (ap (λ (x : RunState). x.in_flight) e) (ap (λ (x : RunState). x.error) e)
            (ap (λ (x : RunState). x.frames) e) (ap (λ (x : RunState). x.status) e)
            (ap (λ (x : RunState). x.pending) e ∙ st.free)
  applied-IsShaped (suspend prompt schema value deadline) checked h =
      let e = ap (λ (q : Runner). q.state) (sym (ok-injective h)) in
      let (dated, fine) = compiled schema checked in
      asked-IsShaped dates compiles max_depth r f below frames good act staged s1 st r'.state prompt
        schema value deadline
        (goes_on-Continues r'.state (ap (λ (x : RunState). x.run_id) e)
          (ap (λ (x : RunState). x.invocation) e) (ap (λ (x : RunState). x.in_flight) e)
          (ap (λ (x : RunState). x.outcome) e) (ap (λ (x : RunState). x.output) e)
          (ap (λ (x : RunState). x.error) e))
        (ap (λ (x : RunState). x.frames) e) (ap (λ (x : RunState). x.status) e)
        (ap (λ (x : RunState). x.pending) e) dated
        (ap (λ (x : RunState). schema_bad compiles x.pending) e ∙ fine) ready
    where
      compiled :
          (o : Option Json)
          → IsChecked dates compiles max_depth r.state (suspend prompt o value deadline)
          → (bad_time dates deadline ≡ false)
            × (schema_bad compiles (
                  some (record {
                    node = f.node;
                    reason = PendingReason.suspend;
                    prompt = prompt;
                    schema = o;
                    value = value;
                    deadline = deadline;
                    resume_at = none;
                  }))
                ≡ false)
      compiled none c = (c, refl)
      compiled (some k) c = (c.0, ground (arith, c.1))

module _ (dates : Dates) (compiles : Json → Bool) (max_depth : ℕ) (r r' : Runner)
    (good : IsShaped dates compiles max_depth r.state) (act : IsActive r.state.status)
    (linked : IsLinked r.state.frames) where
  -- Applying a node's result, whether it calls a flow, replaces its own, goes on, ends the flow or
  -- waits for input, leaves a state that passes its checks, where the run is active, its state
  -- passes them, its stack is linked, no retry is scheduled at the node, a called flow stays within
  -- the depth, and a deadline is canonical and a schema compiles where the result suspends the node
  -- with them.
  pub apply_result-IsShaped :
      (f : Frame) (resumed : Bool) (prepared : Option PreparedFlow) (staged : Staged)
      (result : NodeResult)
      → last? r.state.frames ≡ some f
      → IsReady f
      → IsChecked dates compiles max_depth r.state result
      → apply_result f.node resumed prepared staged result r ≡ ok r'
      → IsShaped dates compiles max_depth r'.state
  unfolding apply_result
  apply_result-IsShaped f resumed prepared staged result found ready checked h =
      let (below, frames) = last?-eq-some r.state.frames f found in
      let (g, _, h2) = >>=-eq-ok (top r.state) _ h in
      let (kind, _, h3) = >>=-eq-ok (required missing_field (node_kind r f.node)) _ h2 in
      applied-IsShaped dates compiles max_depth r r' f below frames good act linked ready staged
        (staged_state kind.retries resumed staged r.state)
        (staged_state-IsStaged kind.retries resumed staged r.state) prepared result checked h3
