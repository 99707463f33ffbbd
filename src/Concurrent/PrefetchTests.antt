-- ===== src/Concurrent/PrefetchTests.antt =====
-- Three fetches with a window of two, of which the second settles first and the last one fails, and
-- instances of the theorems on them.
use sozai.Common.{
  ℕ, zero, suc, ◌≡◌, ◌≤◌, ◌+◌, refl, ◌⊎◌, true, min, none, some, List, [], ◌∷◌, ◌++◌, arith,
}
use sozai.Common.Lists.{length}
use sozai.Common.Result.{Result, ok, err}
use sozai.Concurrent.{has}
use sozai.Concurrent.Prefetch.{
  threw, Prefetch, prefetch_ordered, loop_turn, woken, arrives, end_at, Move, settles, resumes,
  asks_next, ends, Draws, opens, then_move,
}
use sozai.Concurrent.Drawn.{
  draw, IsDrawn, Draws-IsDrawn, Draws-IsFilled, Draws-settled, IsResting, Draws-going,
}

abbrev fates : ℕ → Result ℕ ℕ
fates zero = ok 10
fates (suc zero) = ok 11
fates (suc (suc i)) = err 9

-- `abort` without a reason gives 0.
abbrev opened : Prefetch ℕ ℕ
opened = prefetch_ordered 2 3 0 fates none

abbrev second_came : Prefetch ℕ ℕ
second_came = arrives 2 3 0 fates 1 opened

abbrev first_came : Prefetch ℕ ℕ
first_came = arrives 2 3 0 fates 0 second_came

abbrev first_given : Prefetch ℕ ℕ
first_given = woken 2 3 0 fates 0 (ok 10) first_came

abbrev second_asked : Prefetch ℕ ℕ
second_asked = loop_turn 2 3 0 fates 1 first_given

abbrev second_given : Prefetch ℕ ℕ
second_given = woken 2 3 0 fates 1 (ok 11) second_asked

abbrev third_asked : Prefetch ℕ ℕ
third_asked = loop_turn 2 3 0 fates 2 second_given

abbrev third_came : Prefetch ℕ ℕ
third_came = arrives 2 3 0 fates 2 third_asked

abbrev thrown : Prefetch ℕ ℕ
thrown = woken 2 3 0 fates 2 (err 9) third_came

abbrev over : Prefetch ℕ ℕ
over = end_at 2 3 0 fates (threw 9) thrown

first_given-Draws : Draws 2 3 0 fates none first_given
unfolding prefetch_ordered
first_given-Draws =
    then_move first_came first_given
      (then_move second_came first_came
        (then_move opened second_came opens (settles opened 1 (omega arith) refl))
        (settles second_came 0 (omega arith) refl))
      (resumes first_came 0 (ok 10) refl)

second_given-Draws : Draws 2 3 0 fates none second_given
unfolding woken loop_turn prefetch_ordered
second_given-Draws =
    then_move second_asked second_given
      (then_move first_given second_asked first_given-Draws (asks_next first_given 0 refl))
      (resumes second_asked 1 (ok 11) refl)

thrown-Draws : Draws 2 3 0 fates none thrown
unfolding woken loop_turn prefetch_ordered
thrown-Draws =
    then_move third_came thrown
      (then_move third_asked third_came
        (then_move second_given third_asked second_given-Draws (asks_next second_given 1 refl))
        (settles third_asked 2 (omega arith) refl))
      (resumes third_came 2 (err 9) refl)

last_came : (i : ℕ) → has (2 ∷ []) i ≡ true → has (2 ∷ 0 ∷ 1 ∷ []) i ≡ true
last_came i h = ground arith

over-Draws : Draws 2 3 0 fates none over
unfolding woken loop_turn prefetch_ordered
over-Draws = then_move thrown over thrown-Draws (ends thrown (threw 9) refl last_came)

over-Draws_yielded : over.yielded ≡ 10 ∷ 11 ∷ []
unfolding woken loop_turn prefetch_ordered
over-Draws_yielded = refl

Draws-IsDrawn_example :
    ((rest : List ℕ) × ((draw fates 0 3).0 ≡ over.yielded ++ rest))
    × IsDrawn 2 3 0 fates none over.place over.yielded
Draws-IsDrawn_example = Draws-IsDrawn 2 3 0 fates none over (omega arith) over-Draws

Draws-IsFilled_example :
    (first_given.fetches.started ≡ min 3 (length first_given.yielded + 2))
    ⊎ ((reason : ℕ) × (first_given.signal ≡ some reason)
        × (first_given.fetches.started ≤ min 3 (length first_given.yielded + 2)))
Draws-IsFilled_example = Draws-IsFilled 2 3 0 fates none first_given (omega arith) first_given-Draws

Draws-settled_example : has over.arrived 2 ≡ true
unfolding woken loop_turn prefetch_ordered
Draws-settled_example =
    Draws-settled 2 3 0 fates none over (threw 9) 2 (omega arith) over-Draws refl (omega arith)

Draws-going_example :
    IsResting 2 3 0 fates none thrown.place ⊎ ((s : Prefetch ℕ ℕ) × Move 2 3 0 fates none thrown s)
Draws-going_example = Draws-going 2 3 0 fates none thrown (omega arith) thrown-Draws
