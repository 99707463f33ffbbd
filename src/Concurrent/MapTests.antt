-- ===== src/Concurrent/MapTests.antt =====
-- A map over two items at concrete answers, and an instance of the theorem on it.
use sozai.Common.{ℕ, ◌≡◌, refl, none, some, [], ◌∷◌, arith, ◌+◌}
use sozai.Common.Result.{Result, ok}
use sozai.Concurrent.Mapping.{
  Mapping, map_concurrent, call_settled, conclude, Reaches, begins, then_step, settles, concludes,
}
use sozai.Concurrent.Mapped.{IsMapped}
use sozai.Concurrent.Settled.{Reaches-IsMapped}

abbrev answer : ℕ → Result ℕ ℕ
answer i = ok (i + 10)

abbrev started : Mapping ℕ ℕ
started = map_concurrent 2 2 none

-- The second call answers first.
abbrev second_first : Mapping ℕ ℕ
second_first = call_settled 1 (answer 1) started

abbrev both : Mapping ℕ ℕ
both = call_settled 0 (answer 0) second_first

both_idle : both.awaited ≡ []
unfolding call_settled map_concurrent
both_idle = refl

both_open : both.settled ≡ none
unfolding call_settled map_concurrent
both_open = refl

mapped-Reaches : Reaches answer 2 2 (conclude both)
unfolding map_concurrent call_settled
mapped-Reaches =
    then_step both (conclude both)
      (then_step second_first both
        (then_step started second_first (begins none) (settles started 1 refl))
        (settles second_first 0 refl))
      (concludes both both_idle both_open)

mapped_in_order : (conclude both).settled ≡ some (ok (some 10 ∷ some 11 ∷ []))
unfolding call_settled map_concurrent
mapped_in_order = refl

Reaches-IsMapped_example : IsMapped answer 2 (conclude both).signal (conclude both).settled
Reaches-IsMapped_example = Reaches-IsMapped answer 2 2 (conclude both) (omega arith) mapped-Reaches
