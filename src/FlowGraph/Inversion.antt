-- ===== src/FlowGraph/Inversion.antt =====
-- The state that each commit leaves, read off from its success.
use sozai.Common.{
  ℕ, ◌+◌, ◌≡◌, refl, ap, sym, ◌∙◌, if◌then◌else◌, Bool, true, false, Option, none, some, arith,
}
use sozai.Common.Text.{Text}
use sozai.Common.Fields.{Fields, own}
use sozai.Common.Json.{Json}
use sozai.Common.Result.{ok, >>=-eq-ok, required, ok-injective}
use sozai.FlowGraph.Types.{ErrorMetadata, Reason, NodeAttempts, Frame, running, RunState, Event}
use sozai.FlowGraph.Time.{Dates, to_timestamp}
use sozai.FlowGraph.Frames.{top, set_top, bad_timestamp, missing_field}
use sozai.FlowGraph.Commits.{Runner, fire, settle}
use sozai.FlowGraph.RetryCommits.{
  RetryDecision, UnwoundState, working, handled_error, route_frame, route_to_on_error, exceeds,
  scheduled_state, schedule_retry,
}

-- `next` as it is committed over `r`.
abbrev pub committed : RunState → Runner → RunState
committed next r = record next { revision = r.state.revision + 1 }

required-eq-ok : {E A : Type 0} (e : E) (o : Option A) (a : A) → required e o ≡ ok a → o ≡ some a
required-eq-ok e none a h = cc
required-eq-ok e (some b) a h = ground arith

pub route_state :
    (node_id : Text) (reason : Option Reason) (meta : ErrorMetadata) (count : ℕ) (target : Text)
    (handled : Option (Fields Json)) (u : Option UnwoundState) (r r' : Runner)
    → route_to_on_error node_id reason meta count target handled u r ≡ ok r'
    → (fields : Fields Json) × (r'.state
        ≡ committed
            (settle running (set_top (route_frame node_id fields target) (working u r).state))
            r)
      × (r'.definitions ≡ (working u r).definitions)
unfolding route_to_on_error
route_state node_id reason meta count target handled u r r' h =
    let (frame, _, h2) = >>=-eq-ok (top (working u r).state) _ h in
    let (fields, _, h3) = >>=-eq-ok (handled_error handled reason meta count) _ h2 in
    let same_runner = sym (ok-injective h3) in
    (
      fields,
      ap (λ (q : Runner). q.state) same_runner,
      ap (λ (q : Runner). q.definitions) same_runner,
    )

-- Firing an event changes neither the state nor the definitions.
fired_parts :
    (b : Bool) (event : Event) (r : Runner)
    → ((if b then fire event r else r).state ≡ r.state)
      × ((if b then fire event r else r).definitions ≡ r.definitions)
fired_parts true event r = (refl, refl)
fired_parts false event r = (refl, refl)

pub schedule_state :
    (dates : Dates) (node_id : Text) (attempt : NodeAttempts) (meta : ErrorMetadata)
    (decision : RetryDecision) (u : Option UnwoundState) (r r' : Runner)
    → schedule_retry dates node_id attempt meta decision u r ≡ ok r'
    → (frame : Frame) × (old : NodeAttempts) × (t : Text) × (top (working u r).state ≡ ok frame)
      × (own frame.attempts node_id ≡ some old)
      × (to_timestamp dates decision.retry_at ≡ some t)
      × (r'.state
          ≡ committed
              (scheduled_state node_id meta t
                (exceeds decision.delay_ms attempt.policy.suspend_after_ms)
                old
                (working u r).state)
              r)
      × (r'.definitions ≡ (working u r).definitions)
unfolding schedule_retry
schedule_state dates node_id attempt meta decision u r r' h =
    let (frame, e1, h2) = >>=-eq-ok (top (working u r).state) _ h in
    let (old, e2, h3) = >>=-eq-ok (required missing_field (own frame.attempts node_id)) _ h2 in
    let (t, e3, h4) =
      >>=-eq-ok (required bad_timestamp (to_timestamp dates decision.retry_at)) _ h3 in
    let same_runner = sym (ok-injective h4) in
    let (states, defs) =
      fired_parts (exceeds decision.delay_ms attempt.policy.suspend_after_ms) _ _ in
    (
      frame,
      old,
      t,
      e1,
      required-eq-ok _ _ old e2,
      required-eq-ok _ _ t e3,
      ap (λ (q : Runner). q.state) same_runner ∙ states,
      ap (λ (q : Runner). q.definitions) same_runner ∙ defs,
    )
