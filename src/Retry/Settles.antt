-- ===== src/Retry/Settles.antt =====
-- `retry` always settles, within the policy's attempts, and its log and its answer are explained.
use sozai.Common.{ℕ, suc, ◌+◌, ◌≤◌, ◌≡◌, ◌⊎◌, Option, List, [], ◌∷◌}
use sozai.Common.Lists.{length}
use sozai.Retry.{RetryDecision, RetryPolicy, Round, Settled, aborted}
use sozai.Retry.Loop.{IsRetry, Cause}

module _ {V E : Type 0} (retryable : E → RetryDecision) (policy : RetryPolicy) (limit : Option ℕ)
    (rounds : ℕ → Round V E) where
  -- The calls of `onRetry` from attempt `n` on: consecutive attempts, each with its reasons.
  abbrev pub IsLog : ℕ → List (ℕ × ℕ) → Type 0
  IsLog n [] = Unit
  IsLog n ((m, d) ∷ log) = (m ≡ n) × IsRetry retryable policy limit rounds n d × IsLog (n + 1) log

  -- How a loop from attempt `n` ends: within the attempts of the policy, for a cause in its last
  -- round. That round follows the log, unless the run is aborted after its delay was logged.
  pub record Ends (n : ℕ) (log : List (ℕ × ℕ)) (s : Settled V E) : Type 0 where
    pub logged : IsLog n log
    pub within : n + length log ≤ policy.max_attempts
    pub last : ℕ
    pub follows : (last ≡ n + length log) ⊎ ((s ≡ aborted) × (suc last ≡ n + length log))
    pub cause : Cause retryable policy limit rounds last s
