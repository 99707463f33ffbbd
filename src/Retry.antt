-- ===== src/Retry.antt =====
-- packages/async/src/retry.ts: retry policies, the delay before an attempt, the timer of one
-- attempt and the retry loop. Times, delays and multipliers are natural numbers, so the tests for
-- finite, integral and non-negative values hold by the types. `random` stands for the product of
-- a delay and `random()`.
pub mod Delay
pub mod Loop
pub mod Settles
mod Tests
use sozai.Common.{
  ℕ, zero, suc, ◌+◌, ◌-◌, ◌*◌, ◌^◌, min, max, Bool, true, false, Option, none, some, List, [], ◌∷◌,
  ltb, leb, ◌==◌, ◌&&◌, ◌||◌, if◌then◌else◌,
}
use sozai.Common.Result.{Result, ok, err, first_issue, ◌<|>◌, ◌>>=◌}

pub record Backoff : Type 0 where
  pub initial_ms : ℕ
  pub multiplier : Option ℕ
  pub max_ms : Option ℕ
  pub jitter : Bool

pub record RetryPolicy : Type 0 where
  pub max_attempts : ℕ
  pub attempt_timeout_ms : Option ℕ
  pub total_timeout_ms : Option ℕ
  pub backoff : Option Backoff

pub data RetryDecision : Type 0 where
  stop again : RetryDecision
  after : ℕ → RetryDecision

abbrev pub max_delay_ms : ℕ
max_delay_ms = 2_147_483_647

-- The field that a RangeError names.
pub data RangeIssue : Type 0 where
  max_attempts attempt_timeout_ms total_timeout_ms initial_ms max_ms multiplier attempt : RangeIssue

abbrev pub above : Option ℕ → ℕ → Bool
above none n = false
above (some m) n = ltb n m

abbrev pub below : Option ℕ → ℕ → Bool
below none n = false
below (some m) n = ltb m n

unfoldable pub assert_backoff : Option Backoff → Option RangeIssue
assert_backoff none = none
assert_backoff (some b) = first_issue (
    (ltb max_delay_ms b.initial_ms, initial_ms)
    ∷ (above b.max_ms max_delay_ms, max_ms)
    ∷ (below b.multiplier 1, multiplier)
    ∷ [])

unfoldable pub assert_retry_policy : RetryPolicy → Option RangeIssue
unfolding assert_backoff
assert_retry_policy p =
    first_issue (
      (ltb p.max_attempts 1 || ltb 100 p.max_attempts, max_attempts)
      ∷ (above p.attempt_timeout_ms max_delay_ms, attempt_timeout_ms)
      ∷ (above p.total_timeout_ms max_delay_ms, total_timeout_ms)
      ∷ [])
    <|> assert_backoff p.backoff

abbrev pub or_default : Option ℕ → ℕ → ℕ
or_default none d = d
or_default (some n) d = n

unfoldable pub clamp_delay : ℕ → ℕ
clamp_delay value = min max_delay_ms (max 0 value)

-- The delay that the backoff asks for, before `afterMs`.
unfoldable pub backoff_delay : (ℕ → ℕ) → ℕ → Option Backoff → ℕ
unfolding clamp_delay
backoff_delay random n none = 0
backoff_delay random n (some b) =
    let grown : ℕ =
      if b.initial_ms == 0 then 0 else b.initial_ms * or_default b.multiplier 2 ^ (n - 1) in
    let delay = clamp_delay (min (or_default b.max_ms max_delay_ms) grown) in
    if b.jitter then clamp_delay (random delay) else delay

unfoldable pub get_retry_delay : RetryPolicy → ℕ → Option ℕ → (ℕ → ℕ) → Result RangeIssue ℕ
unfolding clamp_delay
get_retry_delay p n after_ms random = elim (assert_retry_policy p) [
  | some issue ↦ err issue
  | none ↦ if ltb n 1 then err attempt else elim after_ms [
    | none ↦ ok (clamp_delay (backoff_delay random n p.backoff))
    | some ms ↦ ok (clamp_delay (max (backoff_delay random n p.backoff) (clamp_delay ms)))
  ]
]

pub data Interruption : Type 0 where
  deadline attempt : Interruption

-- The timer that `raceAttempt` arms, as the interruption and its delay: of the deadline where
-- that comes first, else of the attempt. `now` is the clock's second reading.
unfoldable pub race_timer : Option ℕ → Option ℕ → ℕ → Option (Interruption × ℕ)
race_timer none none now = none
race_timer none (some timeout) now = some (Interruption.attempt, timeout)
race_timer (some limit) none now = some (Interruption.deadline, limit - now)
race_timer (some limit) (some timeout) now =
    if leb limit (now + timeout)
    then some (Interruption.deadline, limit - now)
    else some (Interruption.attempt, timeout)

-- What comes of a raced attempt: it returns, the deadline's timer rejects it, it rejects with another
-- error, the attempt's own timeout among them, or it never settles, which it may where no timer is
-- armed.
pub data Raced (V E : Type 0) : Type 0 where
  returned : V → Raced V E
  past_deadline unsettled : Raced V E
  rejected : E → Raced V E

-- What the environment answers in one round of the loop, in the order in which it is asked.
pub record Round (V E : Type 0) : Type 0 where
  pub aborted_before : Bool
  pub now_before : ℕ
  pub raced : Raced V E
  pub aborted_after : Bool
  pub random : ℕ → ℕ
  pub now_delay : ℕ
  pub aborted_retry : Bool
  pub aborted_sleep : Bool

pub data ExhaustedReason : Type 0 where
  attempts total_timeout : ExhaustedReason

-- How `retry` settles; `unanswered`: it waits for ever.
pub data Settled (V E : Type 0) : Type 0 where
  resolved : V → Settled V E
  aborted unanswered : Settled V E
  exhausted : ℕ → ExhaustedReason → Settled V E
  failed : E → Settled V E
  out_of_range : RangeIssue → Settled V E

-- `deadline !== undefined && deadline <= now`
abbrev pub reached : Option ℕ → ℕ → Bool
reached none now = false
reached (some limit) now = leb limit now

-- One round: the run settles, with the delay that `onRetry` was told, if any, or goes on after it.
pub data RoundEnd (V E : Type 0) : Type 0 where
  settled : Option ℕ → Settled V E → RoundEnd V E
  retried : ℕ → RoundEnd V E

module _ {V E : Type 0} (retryable : E → RetryDecision) (policy : RetryPolicy)
    (limit : Option ℕ) where
  -- What follows a decision to retry: the settled run, or the delay before the next attempt.
  unfoldable pub next_delay : ℕ → Round V E → Option ℕ → Result (Settled V E) ℕ
  next_delay n round after_ms =
      if leb policy.max_attempts n
      then err (exhausted n attempts)
      else elim (get_retry_delay policy n after_ms round.random) [
        | err issue ↦ err (out_of_range issue)
        | ok delay ↦
            if reached limit (round.now_delay + delay)
            then err (exhausted n total_timeout)
            else ok delay
      ]

  unfoldable pub after_failure : ℕ → Round V E → E → Result (Settled V E) ℕ
  unfolding next_delay
  after_failure n round e = elim (retryable e) [
    | stop ↦ err (failed e)
    | again ↦ next_delay n round none
    | after ms ↦ next_delay n round (some ms)
  ]

  -- The body of the loop at attempt `n`.
  unfoldable pub round_end : ℕ → Round V E → RoundEnd V E
  unfolding after_failure
  round_end n round =
      if round.aborted_before
      then settled none aborted
      else if reached limit round.now_before
      then settled none (exhausted (n - 1) total_timeout)
      else elim round.raced [
        | returned v ↦ settled none (resolved v)
        | unsettled ↦ settled none unanswered
        | past_deadline ↦
            settled none (if round.aborted_after then aborted else exhausted n total_timeout)
        | rejected e ↦
            if round.aborted_after then settled none aborted else elim (after_failure n round e) [
              | err s ↦ settled none s
              | ok delay ↦
                  if round.aborted_retry || round.aborted_sleep
                  then settled (some delay) aborted
                  else retried delay
            ]
      ]

  module _ (rounds : ℕ → Round V E) where
    abbrev log_delay :
        ℕ → ℕ → Option (List (ℕ × ℕ) × Settled V E) → Option (List (ℕ × ℕ) × Settled V E)
    log_delay n delay none = none
    log_delay n delay (some (log, s)) = some ((n, delay) ∷ log, s)

    -- The loop from attempt `n`, with the calls of `onRetry`; `none`: the fuel ran out.
    unfoldable pub loop : ℕ → ℕ → Option (List (ℕ × ℕ) × Settled V E)
    loop zero n = none
    loop (suc fuel) n =
        let rest = loop fuel (n + 1) in
        elim (round_end n (rounds n)) [
          | settled none s ↦ some ([], s)
          | settled (some delay) s ↦ some ((n, delay) ∷ [], s)
          | retried delay ↦ log_delay n delay rest
        ]

-- `start + policy.totalTimeoutMs`
abbrev pub deadline_of : RetryPolicy → ℕ → Option ℕ
deadline_of policy start = elim policy.total_timeout_ms [
  | none ↦ none
  | some ms ↦ some (start + ms)
]

-- `retry`: the policy is checked, and `start` is the clock's first reading.
unfoldable pub retry :
    {V E : Type 0}
    → (E → RetryDecision)
    → RetryPolicy
    → (ℕ → Round V E)
    → ℕ
    → Option (List (ℕ × ℕ) × Settled V E)
retry retryable policy rounds start = elim (assert_retry_policy policy) [
  | some issue ↦ some ([], out_of_range issue)
  | none ↦ loop retryable policy (deadline_of policy start) rounds policy.max_attempts 1
]
