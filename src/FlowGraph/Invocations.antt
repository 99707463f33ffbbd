-- ===== src/FlowGraph/Invocations.antt =====
-- The numbers of invocations in their ids.
use sozai.Common.{◌+◌, ◌≡◌, refl, some, [], ◌∷◌, ◌++◌, arith}
use sozai.Common.Text.{Text}
use sozai.Common.Decimal.{decimal, number-decimal, decimal-numeral}
use sozai.FlowGraph.Types.{RunState}
use sozai.FlowGraph.Frames.{next_invocation_id}
use sozai.FlowGraph.Checks.{after_prefix, invocation_number}

after_prefix-append : (p t : Text) → after_prefix (p ++ 58 ∷ []) (p ++ 58 ∷ t) ≡ some t
unfolding after_prefix
after_prefix-append [] t = refl
after_prefix-append (c ∷ p) t = ground (arith, after_prefix-append p t)

-- The id that `nextInvocationID` draws reads back, under the run's own id, as the number that the
-- counter then holds, so that it is in the range that the checks of the new state accept.
pub invocation_number-next :
    (s : RunState)
    → (invocation_number s.run_id (next_invocation_id s).0 ≡ some (s.invocation + 1))
      × ((next_invocation_id s).1.invocation ≡ s.invocation + 1)
unfolding invocation_number next_invocation_id
invocation_number-next s = (
  rw (after_prefix-append s.run_id (decimal (s.invocation + 1))) (
      ground (
        arith,
        number-decimal (s.invocation + 1),
        decimal-numeral (s.invocation + 1) (omega arith),
      )),
  refl,
)
