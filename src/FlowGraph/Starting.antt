-- ===== src/FlowGraph/Starting.antt =====
-- A turn of the loop of packages/flow-graph/src/run-drive.ts that starts or waits for a node yields
-- states that pass their checks.
use mathlib.Core.Path.{subst}
use sozai.Common.{
  ℕ, ◌+◌, ◌<◌, ◌≡◌, refl, inl, inr, Bool, true, false, Option, none, some, List, [], ◌∷◌, ◌++◌,
  arith, ltb, leb, if◌then◌else◌, ◌&&◌, ◌||◌,
}
use sozai.Common.Text.{Text, txt, truthy}
use sozai.Common.Fields.{own}
use sozai.Common.Json.{Json}
use sozai.Common.Result.{ok, >>=-eq-ok, ok-injective, required}
use sozai.Retry.{or_default}
use sozai.FlowGraph.Types.{
  FlowNode, FlowRetryPolicy, NodeAttempts, Frame, RunState, running, node_enter,
}
use sozai.FlowGraph.Time.{Dates, to_timestamp, to_timestamp_lem}
use sozai.FlowGraph.Frames.{bad_timestamp}
use sozai.FlowGraph.Commits.{Runner, NodeKind, fire}
use sozai.FlowGraph.RetryCommits.{exceeds}
use sozai.FlowGraph.Checks.{is_bad_policy, above_option, assert_top, assert_status}
use sozai.FlowGraph.Failure.{fail_run}
use sozai.FlowGraph.Unwinding.{required-ok}
use sozai.FlowGraph.Shape.{IsActive}
use sozai.FlowGraph.NodeFailure.{ended-IsShaped}
use sozai.FlowGraph.Execution.{Compilation, compiles_by}
use sozai.FlowGraph.Accepted.{IsDated}
use sozai.FlowGraph.Prepared.{IsUsable, prepared_state-IsShaped}
use sozai.FlowGraph.Kept.{commit-IsShaped, resuspended_state-IsShaped}
use sozai.FlowGraph.Turns.{
  remaining, Options, Turn, Turned, is_waiting, is_overdue, policy_of, deadline_from,
  prepared_state, resuspended_state,
}
use sozai.FlowGraph.Drive.{start_node, wait_retry, wait_or_start}
use sozai.FlowGraph.Driving.{IsSound, IsDriven, abort-IsSound, execute-IsSound, by_test}
use sozai.FlowGraph.Attempting.{IsStamped, give_up-IsSound, attempt_node-IsSound}

-- The policy passes the checks of a stored one.
abbrev pub IsPolicy : FlowRetryPolicy → Type 0
IsPolicy policy =
    (is_bad_policy policy ≡ false)
    × (above_option policy.suspend_after_ms policy.base.total_timeout_ms ≡ false)

deadline-IsUsable :
    (dates : Dates) (now : ℕ) (policy : FlowRetryPolicy) (ms : Option ℕ) (deadline : Option Text)
    → IsPolicy policy
    → deadline_from dates now ms ≡ ok deadline
    → IsUsable dates policy deadline
deadline-IsUsable dates now policy none deadline p h =
    subst (IsUsable dates policy) (ok-injective h)
      (record { valid = p.0; within = p.1; dated = refl })
deadline-IsUsable dates now policy (some ms) deadline p h =
    let (t, e, h2) = >>=-eq-ok (required bad_timestamp (to_timestamp dates (now + ms))) _ h in
    let canonical =
      (to_timestamp_lem dates (now + ms) t
        (required-ok bad_timestamp (to_timestamp dates (now + ms)) t e)).0 in
    subst (IsUsable dates policy) (ok-injective h2)
      (record { valid = p.0; within = p.1; dated = ground arith })

unattempted :
    (f : Frame) (a : NodeAttempts)
    → own f.attempts f.node ≡ none
    → own f.attempts f.node ≡ some a
    → 0 < a.count
unattempted f a e o = ground arith

-- An active run that waits for no input runs where its node has no attempts.
pub unattempted_runs :
    (dates : Dates) (compiles : Json → Bool) (s : RunState) (f : Frame)
    → assert_top dates compiles s f ≡ none
    → IsActive s.status
    → is_waiting s ≡ false
    → own f.attempts f.node ≡ none
    → s.status ≡ running
unfolding assert_top assert_status
unattempted_runs dates compiles s f h (inl e) w o = e
unattempted_runs dates compiles s f h (inr e) w o = ground arith

-- No retry is scheduled at a node that waits for input.
pub waiting_ready :
    (dates : Dates) (compiles : Json → Bool) (s : RunState) (f : Frame) (a : NodeAttempts)
    → assert_top dates compiles s f ≡ none
    → is_waiting s ≡ true
    → own f.attempts f.node ≡ some a
    → IsStamped a
    → a.retry_at ≡ none
unfolding assert_top assert_status
waiting_ready dates compiles s f a h w o (inl e) = e
waiting_ready dates compiles s f a h w o (inr e) = ground arith

module _ (dates : Dates) (compile : Json → Compilation) (options : Options) (node : FlowNode)
    (kind : NodeKind) (turn : Turn) (answer_dated : IsDated turn.answer) (f : Frame) (r : Runner)
    (t : Turned) (d : IsDriven dates compile options f r) (below : List Frame)
    (frames : r.state.frames ≡ below ++ f ∷ []) where
  -- A node that has no attempts runs: it is not suspended for a retry.
  module _ (recovering : Bool) where
    first_turn :
        (run : r.state.status ≡ running)
        → own f.attempts f.node ≡ none
        → IsPolicy (policy_of options node kind)
        → start_node dates compile options f.node node kind turn recovering none r ≡ ok t
        → IsSound dates compile options t
    unfolding start_node
    first_turn run fresh policy =
        by_test (leb (or_default options.max_steps 1000) r.state.steps) _ _ _
          (λ _ h.
            let (r', e, h2) =
              >>=-eq-ok
                (fail_run dates turn.random (txt "max_steps") f.node none none none (turn.clock 3)
                  r)
                _ h in
            let good =
              ended-IsShaped dates (compiles_by compile) options.max_depth turn.random
                (turn.clock 3) r r' d.good d.act d.linked f d.found (txt "max_steps") none none none
                e in
            subst (IsSound dates compile options) (ok-injective h2) ((good, tt), good))
          (λ _.
            by_test kind.retries _ _ _
              (λ _ h.
                let (deadline, e, h2) =
                  >>=-eq-ok
                    (deadline_from dates (turn.clock 2)
                      (policy_of options node kind).base.total_timeout_ms)
                    _ h in
                let good =
                  commit-IsShaped dates (compiles_by compile) options.max_depth
                    (prepared_state f.node (policy_of options node kind) deadline r.state) r
                    (prepared_state-IsShaped dates (compiles_by compile) options.max_depth r.state f
                      below frames d.good (policy_of options node kind) deadline
                      (deadline-IsUsable dates (turn.clock 2) (policy_of options node kind)
                        (policy_of options node kind).base.total_timeout_ms deadline policy e)
                      fresh run) in
                subst (IsSound dates compile options) (ok-injective h2) ((good, tt), good))
              (λ _.
                execute-IsSound dates compile options f node kind turn answer_dated recovering false
                  (fire (node_enter f.node r.state) r) t
                  (record { good = d.good; act = d.act; linked = d.linked; found = d.found })
                  (inl fresh) (λ a o. unattempted f a fresh o)))

    next_turn :
        (a : NodeAttempts)
        → own f.attempts f.node ≡ some a
        → IsStamped a
        → kind.retries ≡ true
        → start_node dates compile options f.node node kind turn recovering (some a) r ≡ ok t
        → IsSound dates compile options t
    unfolding start_node
    next_turn a o stamped retries =
        by_test kind.retries _ _ _
          (λ _.
            attempt_node-IsSound dates compile options node kind turn answer_dated f recovering r t
              d a o stamped below frames)
          (λ e. ground arith)

  waited :
      (recovering : Bool) (a : NodeAttempts) (at : Text)
      → own f.attempts f.node ≡ some a
      → a.retry_at ≡ some at
      → truthy (some at) ≡ true
      → kind.retries ≡ true
      → wait_retry dates compile options f.node node kind turn recovering a at r ≡ ok t
      → IsSound dates compile options t
  unfolding wait_retry
  waited recovering a at o e stamped retries =
      by_test (is_overdue dates a.deadline (turn.clock 1)) _ _ _
        (λ _.
          give_up-IsSound dates compile options node kind turn answer_dated f recovering r t d _ _ _
            _)
        (λ _.
          by_test
            (recovering
              && exceeds (remaining (dates.get_time at) (turn.clock 0)) a.policy.suspend_after_ms)
            _ _ _
            (λ _ h.
              let good =
                commit-IsShaped dates (compiles_by compile) options.max_depth
                  (resuspended_state f.node at r.state) r
                  (resuspended_state-IsShaped dates (compiles_by compile) options.max_depth r.state
                    f below frames d.good a at d.act o e stamped) in
              subst (IsSound dates compile options) (ok-injective h) ((good, tt), good))
            (λ _.
              by_test
                ((ltb 0 (remaining (dates.get_time at) (turn.clock 0)) && turn.aborted_asleep)
                  || turn.aborted_awake)
                _ _ _
                (λ _. abort-IsSound dates compile options f node kind turn answer_dated false r t d)
                (λ _. next_turn false a o (inr (ground arith)) retries)))

  pub started :
      (recovering : Bool) (o : Option NodeAttempts)
      → own f.attempts f.node ≡ o
      → (o ≡ none → r.state.status ≡ running)
      → ((a : NodeAttempts) → o ≡ some a → IsStamped a)
      → ((a : NodeAttempts) → o ≡ some a → kind.retries ≡ true)
      → IsPolicy (policy_of options node kind)
      → wait_or_start dates compile options turn f.node node kind recovering o r ≡ ok t
      → IsSound dates compile options t
  started recovering none e run stamped retries policy h =
      first_turn recovering (run refl) e policy h
  started recovering (some a) e run stamped retries policy h = go a.retry_at refl h
    where
      go :
          (at : Option Text)
          → a.retry_at ≡ at
          → elim at [
            | none ↦ start_node dates compile options f.node node kind turn recovering (some a) r
            | some t ↦
                if truthy (some t)
                then wait_retry dates compile options f.node node kind turn recovering a t r
                else start_node dates compile options f.node node kind turn recovering (some a) r
          ]
            ≡ ok t
          → IsSound dates compile options t
      go none q h = next_turn recovering a e (stamped a refl) (retries a refl) h
      go (some at) q h =
          by_test (truthy (some at)) _ _ _ (λ tr. waited recovering a at e q tr (retries a refl))
            (λ _. next_turn recovering a e (stamped a refl) (retries a refl)) h
