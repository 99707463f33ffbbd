-- ===== src/Common/Dates.antt =====
-- The functions of `Date` that the code calls.
use sozai.Common.{ℕ, ◌≡◌, Option, some}
use sozai.Common.Text.{Text}

-- `new Date(ms).toISOString()`, `none` where it throws a RangeError, and `new Date(s).getTime()`,
-- `none` where it is not a number. A printed time reads back.
pub record Dates : Type 0 where
  pub to_iso : ℕ → Option Text
  pub get_time : Text → Option ℕ
  pub get_time-to_iso : (ms : ℕ) (t : Text) → to_iso ms ≡ some t → get_time t ≡ some ms
