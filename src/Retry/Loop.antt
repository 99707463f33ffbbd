-- ===== src/Retry/Loop.antt =====
-- The retry loop: it settles within the policy's attempts, and each of its answers has a cause.
use sozai.Common.{
  ℕ, ◌+◌, ◌≤◌, ◌<◌, ◌≡◌, ◌≢◌, refl, ap, ◌⊎◌, inr, true, false, Option, none, some, arith,
}
use sozai.Common.Result.{Result, ok, err}
use sozai.Retry.{
  RetryDecision, stop, again, after, RetryPolicy, max_delay_ms, get_retry_delay, Raced, returned,
  past_deadline, unsettled, rejected, Round, attempts, total_timeout, Settled, resolved, aborted,
  unanswered, exhausted, failed, out_of_range, RoundEnd, settled, retried, reached, next_delay,
  after_failure, round_end, RangeIssue,
}
use sozai.Retry.Delay.{IsUsable, assert_retry_policy_iff}

get_retry_delay-le :
    (p : RetryPolicy) (n : ℕ) (after_ms : Option ℕ) (random : ℕ → ℕ) (d : ℕ)
    → get_retry_delay p n after_ms random ≡ ok d
    → d ≤ max_delay_ms
unfolding get_retry_delay
get_retry_delay-le p n after_ms random d h = ground arith

get_retry_delay-ne-err :
    (p : RetryPolicy) (n : ℕ) (after_ms : Option ℕ) (random : ℕ → ℕ) (i : RangeIssue)
    → IsUsable p
    → 0 < n
    → get_retry_delay p n after_ms random ≢ err i
unfolding get_retry_delay
get_retry_delay-ne-err p n after_ms random i u h e = ground (arith, (assert_retry_policy_iff p).1 u)

abbrev value_of : Result RangeIssue ℕ → ℕ
value_of (ok d) = d
value_of (err i) = 0

-- The delay that a decision to retry asks for.
abbrev pub asked_ms : RetryDecision → Option ℕ
asked_ms stop = none
asked_ms again = none
asked_ms (after ms) = some ms

module _ {V E : Type 0} (retryable : E → RetryDecision) (policy : RetryPolicy) (limit : Option ℕ)
    (rounds : ℕ → Round V E) where
  -- Why a retry follows attempt `n` after `delay`: the attempt failed with an error that may be
  -- retried, attempts are left, and the delay is the policy's, fits a timer and ends before the
  -- deadline.
  pub record IsRetry (n delay : ℕ) : Type 0 where
    pub error : E
    pub raced : (rounds n).raced ≡ rejected error
    pub wanted : retryable error ≢ stop
    pub left : n < policy.max_attempts
    pub due : get_retry_delay policy n (asked_ms (retryable error)) (rounds n).random ≡ ok delay
    pub fits : delay ≤ max_delay_ms
    pub in_time : reached limit ((rounds n).now_delay + delay) ≡ false

  -- The attempt failed with an error that may be retried, and the delay that the policy computes
  -- for it does not end before the deadline.
  abbrev pub IsLate : ℕ → Type 0
  IsLate k =
      (e : E) × ((rounds k).raced ≡ rejected e)
      × (retryable e ≢ stop)
      × ((d : ℕ) × (get_retry_delay policy k (asked_ms (retryable e)) (rounds k).random ≡ ok d)
          × (reached limit ((rounds k).now_delay + d) ≡ true))

  -- Why the run settles in round `k`, or does not.
  abbrev pub Cause : ℕ → Settled V E → Type 0
  Cause k (resolved v) = (rounds k).raced ≡ returned v
  Cause k aborted =
      ((rounds k).aborted_before ≡ true)
      ⊎ ((rounds k).aborted_after ≡ true)
      ⊎ ((rounds k).aborted_retry ≡ true)
      ⊎ ((rounds k).aborted_sleep ≡ true)
  Cause k (exhausted n attempts) =
      (n ≡ k)
      × (policy.max_attempts ≤ k)
      × ((e : E) × ((rounds k).raced ≡ rejected e) × (retryable e ≢ stop))
  Cause k (exhausted n total_timeout) =
      ((n + 1 ≡ k) × (reached limit (rounds k).now_before ≡ true))
      ⊎ ((n ≡ k) × ((rounds k).raced ≡ past_deadline))
      ⊎ ((n ≡ k) × (k < policy.max_attempts) × IsLate k)
  Cause k unanswered = (rounds k).raced ≡ unsettled
  Cause k (failed e) = ((rounds k).raced ≡ rejected e) × (retryable e ≡ stop)
  Cause k (out_of_range i) = ⊥

  module _ (u : IsUsable policy) (n : ℕ) (pos : 0 < n) where
    next_delay-Cause :
        (after_ms : Option ℕ) (e : E) (s : Settled V E)
        → (rounds n).raced ≡ rejected e
        → retryable e ≢ stop
        → asked_ms (retryable e) ≡ after_ms
        → next_delay retryable policy limit n (rounds n) after_ms ≡ err s
        → Cause n s
    unfolding next_delay
    next_delay-Cause after_ms e (exhausted m attempts) r w a h =
        (ground arith, ground arith, (e, r, w))
    next_delay-Cause after_ms e (exhausted m total_timeout) r w a h = inr (
        inr (
          ground arith,
          ground arith,
          (
            e,
            r,
            w,
            (
              value_of (get_retry_delay policy n after_ms (rounds n).random),
              rw a (ground arith),
              ground arith,
            ),
          ),
        ))
    next_delay-Cause after_ms e (out_of_range i) r w a h =
        ground (arith, get_retry_delay-ne-err policy n after_ms (rounds n).random i u pos)
    next_delay-Cause after_ms e s r w a h = ground arith

    after_failure-Cause :
        (e : E) (s : Settled V E)
        → (rounds n).raced ≡ rejected e
        → after_failure retryable policy limit n (rounds n) e ≡ err s
        → Cause n s
    unfolding after_failure
    after_failure-Cause e s r h = go (retryable e) refl
      where
        go : (d : RetryDecision) → retryable e ≡ d → Cause n s
        go stop q = ground arith
        go again q = next_delay-Cause none e s r (ground arith) (ap asked_ms q) (ground arith)
        go (after ms) q =
            next_delay-Cause (some ms) e s r (ground arith) (ap asked_ms q) (ground arith)

    pub round_end-Cause :
        (o : Option ℕ) (s : Settled V E)
        → round_end retryable policy limit n (rounds n) ≡ settled o s
        → Cause n s
    unfolding round_end
    round_end-Cause o s h = go (rounds n).raced refl
      where
        go : (x : Raced V E) → (rounds n).raced ≡ x → Cause n s
        go (returned v) q = ground arith
        go past_deadline q = ground arith
        go unsettled q = ground arith
        go (rejected e) q = ground (arith, after_failure-Cause e s q)

    next_delay-IsRetry :
        (after_ms : Option ℕ) (e : E) (d : ℕ)
        → (rounds n).raced ≡ rejected e
        → retryable e ≢ stop
        → asked_ms (retryable e) ≡ after_ms
        → next_delay retryable policy limit n (rounds n) after_ms ≡ ok d
        → IsRetry n d
    unfolding next_delay
    next_delay-IsRetry after_ms e d r w a h = record {
      error = e;
      raced = r;
      wanted = w;
      left = ground arith;
      due = rw a (ground arith);
      fits = ground (arith, get_retry_delay-le policy n after_ms (rounds n).random d);
      in_time = ground arith;
    }

    after_failure-IsRetry :
        (e : E) (d : ℕ)
        → (rounds n).raced ≡ rejected e
        → after_failure retryable policy limit n (rounds n) e ≡ ok d
        → IsRetry n d
    unfolding after_failure
    after_failure-IsRetry e d r h = go (retryable e) refl
      where
        go : (x : RetryDecision) → retryable e ≡ x → IsRetry n d
        go stop q = ground arith
        go again q = next_delay-IsRetry none e d r (ground arith) (ap asked_ms q) (ground arith)
        go (after ms) q =
            next_delay-IsRetry (some ms) e d r (ground arith) (ap asked_ms q) (ground arith)

    -- The delay that a round hands to `onRetry`.
    abbrev pub told : RoundEnd V E → Option ℕ
    told (settled o s) = o
    told (retried d) = some d

    pub round_end-IsRetry :
        (d : ℕ) → told (round_end retryable policy limit n (rounds n)) ≡ some d → IsRetry n d
    unfolding round_end
    round_end-IsRetry d h = go (rounds n).raced refl
      where
        go : (x : Raced V E) → (rounds n).raced ≡ x → IsRetry n d
        go (returned v) q = ground arith
        go past_deadline q = ground arith
        go unsettled q = ground arith
        go (rejected e) q = after_failure-IsRetry e d q (ground arith)
