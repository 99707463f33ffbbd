-- ===== src/FlowGraph/Resume.antt =====
-- packages/flow-graph/src/resume.ts: the event that resumes a suspended run. `now` is the reading of
-- the clock, and `accepts` the validator of a schema. An issue is named for its message.
use sozai.Common.{
  ℕ, ◌≤◌, ◌≡◌, ◌↔◌, Bool, true, false, Option, none, some, ltb, if◌then◌else◌, ◌||◌, not, arith,
}
use sozai.Common.Text.{Text, txt, same, truthy}
use sozai.Common.Json.{Json}
use sozai.FlowGraph.Types.{Pending, PendingReason}
use sozai.FlowGraph.Time.{Dates, canonical_truthy, to_timestamp, to_timestamp_lem}
use sozai.FlowGraph.RetryCommits.{retry_pending}

-- `value none`: the event's value is not JSON; `other`: an event of an unknown type.
pub data ResumeEvent : Type 0 where
  value : Option Json → ResumeEvent
  decline : Option Text → ResumeEvent
  timeout retry other : ResumeEvent

pub data ResumeIssue : Type 0 where
  event_type resume_at_missing retry_early input_early decline_reason not_json schema_failed :
      ResumeIssue

abbrev pub type_fits : PendingReason → ResumeEvent → Bool
type_fits PendingReason.retry ResumeEvent.retry = true
type_fits PendingReason.retry _ = false
type_fits PendingReason.suspend ResumeEvent.retry = false
type_fits PendingReason.suspend ResumeEvent.other = false
type_fits PendingReason.suspend _ = true

-- `now() < new Date(time).getTime()`, false at a text that is no date.
abbrev pub is_early : Option ℕ → ℕ → Bool
is_early none now = false
is_early (some time) now = ltb now time

abbrev pub reason_known : Option Text → Bool
reason_known none = true
reason_known (some reason) = same reason (txt "decline") || same reason (txt "cancel")

module _ (dates : Dates) (accepts : Json → Json → Bool) (now : ℕ) where
  abbrev pub check_value : Option Json → Option Json → Option ResumeIssue
  check_value schema none = some not_json
  check_value none (some v) = none
  check_value (some schema) (some v) = if accepts schema v then none else some schema_failed

  -- The checks that follow that of the event's type.
  abbrev pub check_event : Pending → ResumeEvent → Option ResumeIssue
  check_event pending ResumeEvent.retry = elim pending.resume_at [
    | none ↦ some resume_at_missing
    | some t ↦ if is_early (dates.get_time t) now then some retry_early else none
  ]
  check_event pending ResumeEvent.timeout = elim pending.deadline [
    | none ↦ some input_early
    | some t ↦
        if not (truthy (some t)) || is_early (dates.get_time t) now then some input_early else none
  ]
  check_event pending (ResumeEvent.decline reason) =
      if reason_known reason then none else some decline_reason
  check_event pending (ResumeEvent.value v) = check_value pending.schema v
  check_event pending ResumeEvent.other = none

  unfoldable pub validate_resume_event : Pending → ResumeEvent → Option ResumeIssue
  validate_resume_event pending event =
      if type_fits pending.reason event then check_event pending event else some event_type

  -- A run that was suspended for a retry at a time is resumed by the retry event alone, and exactly
  -- from that time on.
  pub validate_resume_event-retry_pending :
      (node retry_at : Text) (ms : ℕ) (event : ResumeEvent)
      → to_timestamp dates ms ≡ some retry_at
      → (validate_resume_event (retry_pending node retry_at) event ≡ none)
        ↔ ((event ≡ ResumeEvent.retry) × (ms ≤ now))
  unfolding validate_resume_event
  validate_resume_event-retry_pending node retry_at ms ResumeEvent.retry h =
      ground (arith, (to_timestamp_lem dates ms retry_at h).1)
  validate_resume_event-retry_pending node retry_at ms (ResumeEvent.value v) h = ground arith
  validate_resume_event-retry_pending node retry_at ms (ResumeEvent.decline r) h = ground arith
  validate_resume_event-retry_pending node retry_at ms ResumeEvent.timeout h = ground arith
  validate_resume_event-retry_pending node retry_at ms ResumeEvent.other h = ground arith

  -- An input with a deadline that the code printed times out exactly from that time on.
  validate_resume_event_timeout :
      (pending : Pending) (deadline : Text) (ms : ℕ)
      → pending.reason ≡ PendingReason.suspend
      → pending.deadline ≡ some deadline
      → to_timestamp dates ms ≡ some deadline
      → (validate_resume_event pending ResumeEvent.timeout ≡ none) ↔ (ms ≤ now)
  unfolding validate_resume_event
  validate_resume_event_timeout pending deadline ms r d h =
      let (canonical, time) = to_timestamp_lem dates ms deadline h in
      ground (arith, time, canonical_truthy dates deadline canonical)
