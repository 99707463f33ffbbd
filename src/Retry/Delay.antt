-- ===== src/Retry/Delay.antt =====
-- The delay before a retry: when it is computed, its bounds, and its growth with the attempts.
use sozai.Common.{ℕ, zero, suc, ◌*◌, ◌^◌, min, ◌≤◌, ◌<◌, ◌≡◌, ◌↔◌, false, Option, none, some, arith}
use native.Mathlib.Nat.{pow-suc, mul_assoc}
use sozai.Common.Result.{ok}
use sozai.Retry.{
  Backoff, RetryPolicy, max_delay_ms, assert_retry_policy, or_default, backoff_delay,
  get_retry_delay,
}

-- A policy that timers can use, written without the code's tests.
abbrev pub FitsTimer : Option ℕ → Type 0
FitsTimer none = Unit
FitsTimer (some n) = n ≤ max_delay_ms

abbrev pub IsUsableBackoff : Option Backoff → Type 0
IsUsableBackoff none = Unit
IsUsableBackoff (some b) =
    (b.initial_ms ≤ max_delay_ms) × FitsTimer b.max_ms × (0 < or_default b.multiplier 1)

abbrev pub IsUsable : RetryPolicy → Type 0
IsUsable p =
    (0 < p.max_attempts)
    × (p.max_attempts ≤ 100)
    × FitsTimer p.attempt_timeout_ms
    × FitsTimer p.total_timeout_ms
    × IsUsableBackoff p.backoff

-- A policy is accepted exactly if it allows 1 to 100 attempts, every time fits a timer and the
-- multiplier is not zero.
pub assert_retry_policy_iff : (p : RetryPolicy) → (assert_retry_policy p ≡ none) ↔ IsUsable p
unfolding assert_retry_policy
assert_retry_policy_iff p = ground arith

-- The delay is always one that a timer accepts, and never shorter than what the failure asked for,
-- if it asked for any, up to that limit.
pub get_retry_delay_bounds :
    (p : RetryPolicy) (n : ℕ) (after_ms : Option ℕ) (random : ℕ → ℕ) {d : ℕ}
    → get_retry_delay p n after_ms random ≡ ok d
    → (d ≤ max_delay_ms) × (min (or_default after_ms 0) max_delay_ms ≤ d)
unfolding get_retry_delay
get_retry_delay_bounds p n none random h = ground arith
get_retry_delay_bounds p n (some ms) random h = ground arith

le-mul : (x m : ℕ) → 0 < m → x ≤ x * m
le-mul x zero h = absurd (omega arith)
le-mul x (suc m) h = grind arith

grow : (a m n : ℕ) → 0 < m → a * m ^ n ≤ a * m ^ suc n
grow a m n h = rw (pow-suc, ← mul_assoc) (le-mul (a * m ^ n) m h)

backoff_delay_grows :
    (random : ℕ → ℕ) (n : ℕ) (b : Backoff)
    → b.jitter ≡ false
    → 0 < or_default b.multiplier 2
    → backoff_delay random (suc n) (some b) ≤ backoff_delay random (suc (suc n)) (some b)
unfolding backoff_delay
backoff_delay_grows random n b plain positive =
    ground (arith, grow b.initial_ms (or_default b.multiplier 2) n positive)

-- Without jitter the delay never shrinks from one attempt to the next, at the same request of the
-- failure.
pub get_retry_delay_grows :
    (p : RetryPolicy) (b : Backoff) (n : ℕ) (after_ms : Option ℕ) (random : ℕ → ℕ) {d e : ℕ}
    → p.backoff ≡ some b
    → b.jitter ≡ false
    → get_retry_delay p n after_ms random ≡ ok d
    → get_retry_delay p (suc n) after_ms random ≡ ok e
    → d ≤ e
unfolding get_retry_delay
get_retry_delay_grows p b zero after_ms random hb plain h k = ground arith
get_retry_delay_grows p b (suc n) after_ms random hb plain h k =
    ground (arith, assert_retry_policy_iff p, backoff_delay_grows random n b plain)
