-- ===== src/Concurrent/Tests.antt =====
-- Searches at concrete inputs, and instances of the theorems on them.
use sozai.Concurrent.{errors_of}
use sozai.Common.{ℕ, ◌≤◌, ◌<◌, ◌≡◌, refl, ◌⊎◌, none, some, [], ◌∷◌, map, arith}
use sozai.Common.Lists.{length}
use sozai.Concurrent.{
  hit, error, resolved, all_failed, cancelled, Search, begin, settle, settles, Reach, begins,
  then_step,
}
use sozai.Concurrent.Slots.{sequential}
use sozai.Concurrent.Decided.{Reach-sequential, Reach-within, Reach-busy}
use sozai.Concurrent.Answers.{Reach-failed}

-- Three items, two at a time: the second hits before the first fails.
abbrev started : Search ℕ ℕ
started = begin 2 3 none

abbrev ahead : Search ℕ ℕ
ahead = settle 2 1 (hit 7) started

abbrev found : Search ℕ ℕ
found = settle 2 0 (error 5) ahead

started-Reach : Reach 2 3 started
started-Reach = begins none

ahead-Reach : Reach 2 3 ahead
unfolding begin
ahead-Reach = then_step started ahead started-Reach (settles started 1 (hit 7) refl refl)

found-Reach : Reach 2 3 found
unfolding settle begin
found-Reach = then_step ahead found ahead-Reach (settles ahead 0 (error 5) refl refl)

-- A hit does not win before the items ahead of it have come to nothing.
ahead_waits : ahead.outcome ≡ none
unfolding settle begin
ahead_waits = refl

found_hit : found.outcome ≡ some (resolved (some 7))
unfolding settle begin
found_hit = refl

found_settled : found.settled ≡ some (resolved (some 7))
unfolding settle begin
found_settled = refl

-- The third item is never asked.
found_next : found.next ≡ 2
unfolding settle begin
found_next = refl

Reach-sequential_example :
    ((reason : ℕ) × (found.outcome ≡ some (cancelled reason)))
    ⊎ (found.outcome ≡ sequential found.slots)
Reach-sequential_example = Reach-sequential 2 3 found found-Reach

Reach-within_example : (ahead.inflight ≡ length ahead.controllers) × (ahead.inflight ≤ 2)
Reach-within_example = Reach-within 2 3 ahead ahead-Reach

unsettled : ahead.settled ≡ none
unfolding settle begin
unsettled = refl

Reach-busy_example : 0 < ahead.inflight
Reach-busy_example = Reach-busy 2 3 ahead (omega arith) ahead-Reach unsettled

-- Two items that both fail, the second first.
abbrev both : Search ℕ ℕ
both = begin 2 2 none

abbrev one_left : Search ℕ ℕ
one_left = settle 2 1 (error 5) both

abbrev failed : Search ℕ ℕ
failed = settle 2 0 (error 4) one_left

failed-Reach : Reach 2 2 failed
unfolding begin settle
failed-Reach =
    then_step one_left failed
      (then_step both one_left (begins none) (settles both 1 (error 5) refl refl))
      (settles one_left 0 (error 4) refl refl)

failed_all : failed.outcome ≡ some (all_failed (4 ∷ 5 ∷ []))
unfolding settle begin errors_of
failed_all = refl

Reach-failed_example : (failed.slots ≡ map error (4 ∷ 5 ∷ [])) × (0 < length {A = ℕ} (4 ∷ 5 ∷ []))
Reach-failed_example = Reach-failed 2 2 failed (4 ∷ 5 ∷ []) failed-Reach failed_all
