-- ===== src/FlowGraph/Frames.antt =====
-- packages/flow-graph/src/frames.ts: the frame stack. The active frame is the last of the list.
use sozai.Common.{ℕ, ◌+◌, ◌-◌, ◌≡◌, refl, ap, Option, none, some, List, [], ◌∷◌, ◌++◌}
use sozai.Common.Lists.{length}
use sozai.Common.Text.{Text}
use sozai.Common.Decimal.{decimal}
use sozai.Common.Result.{Result, ok, err}
use sozai.Retry.{RangeIssue}
use sozai.FlowGraph.Types.{Frame, RunState}

-- What the run's code throws: a FlowStateError for a frame or a field that is missing, the
-- RangeError of `toTimestamp` or of `getRetryDelay`.
pub data FlowError : Type 0 where
  no_active_frame missing_field bad_timestamp : FlowError
  bad_policy : RangeIssue → FlowError

module _ {ℓ} {A : Type ℓ} where
  -- `xs[xs.length - 1]`
  abbrev pub last? : List A → Option A
  last? [] = none
  last? (x ∷ []) = some x
  last? (x ∷ y ∷ rest) = last? (y ∷ rest)

  -- The last element replaced, as by a write to its properties.
  abbrev pub map_last : (A → A) → List A → List A
  map_last f [] = []
  map_last f (x ∷ []) = f x ∷ []
  map_last f (x ∷ y ∷ rest) = x ∷ map_last f (y ∷ rest)

  pub last?-concat : (xs : List A) (x : A) → last? (xs ++ x ∷ []) ≡ some x
  last?-concat [] x = refl
  last?-concat (y ∷ []) x = refl
  last?-concat (y ∷ z ∷ rest) x = last?-concat (z ∷ rest) x

  pub map_last-concat :
      (f : A → A) (xs : List A) (x : A) → map_last f (xs ++ x ∷ []) ≡ xs ++ f x ∷ []
  map_last-concat f [] x = refl
  map_last-concat f (y ∷ []) x = refl
  map_last-concat f (y ∷ z ∷ rest) x = ap (λ l. y ∷ l) (map_last-concat f (z ∷ rest) x)

  -- A list that has a last element is the others and that one.
  pub last?-eq-some :
      (xs : List A) (x : A) → last? xs ≡ some x → (below : List A) × (xs ≡ below ++ x ∷ [])
  last?-eq-some [] x h = cc
  last?-eq-some (y ∷ []) x h = ([], cc)
  last?-eq-some (y ∷ z ∷ rest) x h =
      let (below, e) = last?-eq-some (z ∷ rest) x h in (y ∷ below, ap (λ l. y ∷ l) e)

unfoldable pub top_index : RunState → ℕ
top_index state = length state.frames - 1

unfoldable pub top : RunState → Result FlowError Frame
top state = elim (last? state.frames) [ none ↦ err no_active_frame | some frame ↦ ok frame ]

-- The state after writes to its active frame.
unfoldable pub set_top : (Frame → Frame) → RunState → RunState
set_top f state = record state { frames = map_last f state.frames }

-- `${runID}:${n}`
unfoldable pub invocation_id : Text → ℕ → Text
invocation_id run_id n = run_id ++ 58 ∷ decimal n

-- `nextInvocationID`: the state with its counter incremented; the new ID is its latest.
unfoldable pub draw_invocation : RunState → RunState
draw_invocation state = record state { invocation = state.invocation + 1 }

unfoldable pub next_invocation_id : RunState → Text × RunState
unfolding draw_invocation invocation_id
next_invocation_id state =
    (invocation_id state.run_id (state.invocation + 1), draw_invocation state)

abbrev pub default_max_depth : ℕ
default_max_depth = 16
