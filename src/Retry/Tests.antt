-- ===== src/Retry/Tests.antt =====
-- Runs of the retry loop at concrete inputs, and instances of its theorems.
use sozai.Common.{ℕ, ◌+◌, ◌≤◌, ◌≡◌, refl, false, none, some, [], ◌∷◌, if◌then◌else◌, ltb, min}
use sozai.Common.Result.{ok}
use sozai.Retry.{
  again, Backoff, RetryPolicy, Round, returned, rejected, resolved, get_retry_delay, retry,
  max_delay_ms, loop, round_end, backoff_delay, assert_retry_policy,
}
use sozai.Retry.Delay.{get_retry_delay_bounds}

abbrev backoff : Backoff
backoff = record { initial_ms = 100; multiplier = none; max_ms = some 300; jitter = false }

abbrev policy : RetryPolicy
policy = record {
  max_attempts = 4;
  attempt_timeout_ms = none;
  total_timeout_ms = some 1000;
  backoff = some backoff;
}

-- Attempts 1 and 2 fail, and attempt 3 returns 7; each round takes 10 ms.
abbrev rounds : ℕ → Round ℕ ℕ
rounds n = record {
  aborted_before = false;
  now_before = n + 10;
  raced = if ltb n 3 then rejected 0 else returned 7;
  aborted_after = false;
  random = λ d. d;
  now_delay = n + 10;
  aborted_retry = false;
  aborted_sleep = false;
}

retry_test : retry (λ e. again) policy rounds 0 ≡ some ((1, 100) ∷ (2, 200) ∷ [], resolved 7)
unfolding retry loop round_end get_retry_delay backoff_delay assert_retry_policy
retry_test = refl

delay_test : get_retry_delay policy 3 (some 5) (λ d. d) ≡ ok 300
unfolding get_retry_delay backoff_delay assert_retry_policy
delay_test = refl

get_retry_delay_bounds_example : (300 ≤ max_delay_ms) × (min 5 max_delay_ms ≤ 300)
get_retry_delay_bounds_example = get_retry_delay_bounds policy 3 (some 5) (λ d. d) delay_test
