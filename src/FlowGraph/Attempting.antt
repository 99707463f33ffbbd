-- ===== src/FlowGraph/Attempting.antt =====
-- An attempt at a node that retries (packages/flow-graph/src/run-drive.ts) yields states that pass
-- their checks.
use mathlib.Core.Path.{subst}
use sozai.Common.{
  ℕ, ◌+◌, ◌<◌, ◌≡◌, refl, ap, sym, ◌∙◌, ◌⊎◌, inl, inr, Bool, true, false, Option, none, some, List,
  [], ◌∷◌, ◌++◌, arith, is_some, leb, ◌&&◌, some_injective,
}
use sozai.Common.Text.{Text, truthy, same_refl}
use sozai.Common.Fields.{own, put, own-put}
use sozai.Common.Json.{Json}
use sozai.Common.Result.{ok, ◌>>=◌, >>=-eq-ok, ok-injective}
use sozai.Retry.{or_default}
use sozai.FlowGraph.Types.{FlowNode, ErrorMetadata, Reason, NodeAttempts, Frame, RunState}
use sozai.FlowGraph.Time.{Dates, canonical_truthy}
use sozai.FlowGraph.Frames.{last?, last?-eq-some, last?-concat, map_last, map_last-concat, set_top}
use sozai.FlowGraph.Commits.{Runner, NodeKind, commit}
use sozai.FlowGraph.Checks.{bad_time, assert_attempts}
use sozai.FlowGraph.Failure.{fail_node}
use sozai.FlowGraph.Unwinding.{IsLinked}
use sozai.FlowGraph.Shape.{IsActive}
use sozai.FlowGraph.NodeFailure.{fail_node_linked-IsShaped}
use sozai.FlowGraph.Execution.{Compilation, compiles_by}
use sozai.FlowGraph.Accepted.{IsDated}
use sozai.FlowGraph.Begun.{own_good, interrupted_state-IsShaped, begun_state-IsShaped}
use sozai.FlowGraph.Kept.{commit-IsShaped}
use sozai.FlowGraph.Handling.{relinked}
use sozai.FlowGraph.Turns.{
  Options, Turn, Turned, yielded_first, is_overdue, begun, interrupted_state, begun_state,
}
use sozai.FlowGraph.Drive.{execute, give_up, attempt_node}
use sozai.FlowGraph.Driving.{Passes, IsSound, IsDriven, execute-IsSound, by_test}

-- The time of a scheduled retry, if there is one, is not the empty text.
abbrev pub IsStamped : NodeAttempts → Type 0
IsStamped a = (a.retry_at ≡ none) ⊎ (truthy a.retry_at ≡ true)

-- Progress that passes its checks has no empty time.
pub attempts-IsStamped :
    (dates : Dates) (a : NodeAttempts) (in_flight : Bool)
    → assert_attempts dates a in_flight ≡ none
    → IsStamped a
unfolding assert_attempts
attempts-IsStamped dates a in_flight h = go a.retry_at refl
  where
    dated : bad_time dates a.retry_at ≡ false
    dated = ground arith

    go : (at : Option Text) → a.retry_at ≡ at → IsStamped a
    go none q = inl q
    go (some t) q = inr (
        rw q (
          canonical_truthy dates t (ground (arith, subst (λ x. bad_time dates x ≡ false) q dated))))

-- The frame with new progress at its node.
abbrev pub progressed : Frame → NodeAttempts → Frame
progressed f a = record f { attempts = put f.attempts f.node a }

pub own-progressed : (f : Frame) (a : NodeAttempts) → own (progressed f a).attempts f.node ≡ some a
own-progressed f a = ground (arith, own-put f.attempts f.node f.node a, same_refl f.node)

module _ (dates : Dates) (compile : Json → Compilation) (options : Options) (node : FlowNode)
    (kind : NodeKind) (turn : Turn) (answer_dated : IsDated turn.answer) (f : Frame)
    (recovering : Bool) (r : Runner) (t : Turned) (d : IsDriven dates compile options f r) where
  -- A runner whose state commits new progress at the active node is driven from there.
  progressed-IsDriven :
      (s : RunState) (a : NodeAttempts)
      → s.frames ≡ map_last (λ g. record g { attempts = put g.attempts f.node a }) r.state.frames
      → IsActive s.status
      → Passes dates compile options s
      → IsDriven dates compile options (progressed f a) (commit s r)
  unfolding commit
  progressed-IsDriven s a e act good =
      let (below, frames) = last?-eq-some r.state.frames f d.found in
      let frames' : s.frames ≡ below ++ progressed f a ∷ [] =
        e
        ∙ ap (map_last (λ g. record g { attempts = put g.attempts f.node a })) frames
        ∙ map_last-concat (λ g. record g { attempts = put g.attempts f.node a }) below f in
      record {
        good =
            unfold commit in commit-IsShaped dates (compiles_by compile) options.max_depth s r good;
        act = act;
        linked =
            subst IsLinked (sym frames')
              (relinked below f (progressed f a) refl (subst IsLinked frames d.linked));
        found = ap last? frames' ∙ last?-concat below (progressed f a);
      }

  pub give_up-IsSound :
      (reason : Reason) (meta : ErrorMetadata) (callee_retry : Bool) (now : ℕ)
      → give_up dates compile options f.node node kind turn recovering reason meta callee_retry now
          r
        ≡ ok t
      → IsSound dates compile options t
  unfolding give_up
  give_up-IsSound reason meta callee_retry now h =
      let (r', e, h2) =
        >>=-eq-ok (fail_node dates turn.random f.node node kind reason meta callee_retry now r) _
          h in
      let good =
        fail_node_linked-IsShaped dates (compiles_by compile) options.max_depth turn.random now r r'
          d.good d.act d.linked f d.found node kind reason meta callee_retry e in
      subst (IsSound dates compile options) (ok-injective h2) ((good, tt), good)

  -- The turn executes the node from the state `s`, which it yields first.
  committed-IsSound :
      (s : RunState) (a : NodeAttempts)
      → s.frames ≡ map_last (λ g. record g { attempts = put g.attempts f.node a }) r.state.frames
      → IsActive s.status
      → Passes dates compile options s
      → a.retry_at ≡ none
      → 0 < a.count
      → (execute dates compile options f.node node kind turn false false (commit s r) >>= λ t'.
          ok (yielded_first (commit s r).state t'))
        ≡ ok t
      → IsSound dates compile options t
  committed-IsSound s a e act good ready pos h =
      let driven = progressed-IsDriven s a e act good in
      let (t', e2, h2) =
        >>=-eq-ok (execute dates compile options f.node node kind turn false false (commit s r)) _
          h in
      let sound =
        execute-IsSound dates compile options (progressed f a) node kind turn answer_dated false
          false (commit s r) t' driven (inr (a, own-progressed f a, ready))
          (λ b o.
            subst (λ (x : NodeAttempts). 0 < x.count)
              (some_injective (sym (own-progressed f a) ∙ o)) pos)
          e2 in
      subst (IsSound dates compile options) (ok-injective h2) ((driven.good, sound.0), sound.1)

  -- Progress with an attempt in flight counts that attempt and has no retry scheduled.
  in_flight_progress :
      (a : NodeAttempts)
      → assert_attempts dates a true ≡ none
      → IsStamped a
      → (a.retry_at ≡ none) × (0 < a.count)
  unfolding assert_attempts
  in_flight_progress a fine (inl e) = (e, ground arith)
  in_flight_progress a fine (inr e) = ground arith

  module _ (a : NodeAttempts) (o : own f.attempts f.node ≡ some a) (stamped : IsStamped a)
      (below : List Frame) (frames : r.state.frames ≡ below ++ f ∷ []) where
    retried :
        is_some r.state.in_flight ≡ true
        → leb (or_default a.policy.max_interruptions 3) a.interruptions ≡ false
        → (execute dates compile options f.node node kind turn false false
              (commit (interrupted_state f.node a r.state) r)
            >>= λ t'. ok (yielded_first (commit (interrupted_state f.node a r.state) r).state t'))
          ≡ ok t
        → IsSound dates compile options t
    unfolding interrupted_state set_top
    retried flying few h =
        let fine =
          own_good dates (compiles_by compile) options.max_depth r.state f below frames d.good a
            o in
        let (ready, pos) =
          in_flight_progress a (subst (λ b. assert_attempts dates a b ≡ none) flying fine)
            stamped in
        committed-IsSound (interrupted_state f.node a r.state)
          (record a { interruptions = a.interruptions + 1 }) refl d.act
          (interrupted_state-IsShaped dates (compiles_by compile) options.max_depth r.state f below
            frames d.good a o flying (ground arith))
          ready pos h

    first_or_next :
        leb a.policy.base.max_attempts a.count ≡ false
        → (execute dates compile options f.node node kind turn false false
              (commit (begun_state f.node a r.state) r)
            >>= λ t'. ok (yielded_first (commit (begun_state f.node a r.state) r).state t'))
          ≡ ok t
        → IsSound dates compile options t
    unfolding begun_state set_top
    first_or_next few h =
        committed-IsSound (begun_state f.node a r.state) (begun a) refl (inl refl)
          (begun_state-IsShaped dates (compiles_by compile) options.max_depth r.state f below frames
            d.good a o d.act (ground arith))
          refl (omega arith) h

    pub attempt_node-IsSound :
        attempt_node dates compile options f.node node kind turn recovering a r ≡ ok t
        → IsSound dates compile options t
    unfolding attempt_node
    attempt_node-IsSound =
        by_test (is_overdue dates a.deadline (turn.clock 2)) _ _ _ (λ _. give_up-IsSound _ _ _ _)
          (λ _.
            by_test (recovering && is_some r.state.in_flight) _ _ _
              (λ e.
                by_test (leb (or_default a.policy.max_interruptions 3) a.interruptions) _ _ _
                  (λ _. give_up-IsSound _ _ _ _) (retried (ground arith)))
              (λ _.
                by_test (leb a.policy.base.max_attempts a.count) _ _ _
                  (λ _. give_up-IsSound _ _ _ _) first_or_next))
