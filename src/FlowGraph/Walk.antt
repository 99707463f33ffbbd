-- ===== src/FlowGraph/Walk.antt =====
-- The walk of an unwind: the topmost caller that handles the failure takes it.
use sozai.Common.{
  ℕ, zero, suc, ◌+◌, ◌≡◌, refl, Bool, true, false, not, ◌&&◌, Option, none, some, arith,
}
use sozai.Common.Text.{includes, Text, txt, same}
use sozai.Common.Fields.{own}
use sozai.Common.Json.{Json}
use sozai.Common.Result.{Result, ok, err, >>=-eq-ok, required}
use sozai.FlowGraph.Types.{ErrorMetadata, Reason}
use sozai.FlowGraph.Time.{Dates}
use sozai.FlowGraph.Frames.{FlowError, missing_field, top_index}
use sozai.FlowGraph.Commits.{Runner}
use sozai.FlowGraph.Unwind.{visit, walk, walk_codes, unwind_failure, is_non_retryable}
use sozai.FlowGraph.Shape.{IsActive, IsShaped}
use sozai.FlowGraph.Unwinding.{IsLinked, visit-IsShaped}

-- A failure that a caller may retry: a node that failed for a reason that does not rule it out.
abbrev pub is_retryable : Text → Option Reason → Bool
is_retryable code reason = same code (txt "node_failed") && not (is_non_retryable reason)

module _ (dates : Dates) (now : ℕ) (random : ℕ → ℕ) (r : Runner) (code : Text)
    (reason : Option Reason) (meta : Option ErrorMetadata) (retryable : Bool) where
  -- The `k` callers above the one at `i` do not handle the failure.
  abbrev pub Passed : ℕ → ℕ → Type 0
  Passed i zero = Unit
  Passed i (suc k) =
      (visit dates now random r code reason meta (i + suc k) retryable ≡ ok none) × Passed i k

  -- The caller that takes the failure: it is below the top, and all above it pass.
  pub record TakenAt (n : ℕ) (r' : Runner) : Type 0 where
    pub index : ℕ
    pub above : ℕ
    pub below_top : n ≡ index + suc above
    pub takes : visit dates now random r code reason meta index retryable ≡ ok (some r')
    pub passed : Passed index above

  taken_next :
      (n : ℕ) (r' : Runner)
      → visit dates now random r code reason meta n retryable ≡ ok none
      → TakenAt n r'
      → TakenAt (suc n) r'
  taken_next n r' p t = record {
    index = t.index;
    above = suc t.above;
    below_top = omega (arith, t.below_top);
    takes = t.takes;
    passed = (rw (← t.below_top) p, t.passed);
  }

  pub walk_taken :
      (n : ℕ) (r' : Runner)
      → walk dates now random r code reason meta n retryable ≡ ok (some r')
      → TakenAt n r'
  unfolding walk
  walk_taken zero r' h = cc
  walk_taken (suc n) r' h =
      go (visit dates now random r code reason meta n retryable) refl (walk_taken n r')
    where
      go :
          (v : Result FlowError (Option Runner))
          → visit dates now random r code reason meta n retryable ≡ v
          → (walk dates now random r code reason meta n retryable ≡ ok (some r') → TakenAt n r')
          → TakenAt (suc n) r'
      go (err e) p ih = ground arith
      go (ok (some q)) p ih = record {
        index = n;
        above = 0;
        below_top = omega arith;
        takes = ground arith;
        passed = tt;
      }
      go (ok none) p ih = taken_next n r' p (ih (ground arith))

-- A failure that an unwind handles has one of the codes that callers may handle, and is taken by
-- the topmost of the callers that handles it: every caller above that one declines.
unwind_failure_topmost :
    (dates : Dates) (now : ℕ) (random : ℕ → ℕ) (r r' : Runner) (code : Text)
    (reason : Option Reason) (meta : Option ErrorMetadata)
    → unwind_failure dates now random r code reason meta ≡ ok (some r')
    → (includes walk_codes code ≡ true)
      × TakenAt dates now random r code reason meta
          (is_retryable code reason)
          (top_index r.state)
          r'
unfolding unwind_failure
unwind_failure_topmost dates now random r r' code reason meta h = go (includes walk_codes code) refl
  where
    go :
        (b : Bool)
        → includes walk_codes code ≡ b
        → (includes walk_codes code ≡ true)
          × TakenAt dates now random r code reason meta
              (is_retryable code reason)
              (top_index r.state)
              r'
    go false e = ground arith
    go true e =
        let (kind, _, walked) =
          >>=-eq-ok (required missing_field (own r.kinds (txt "call"))) _
            (rw (e, unwind_failure) at h) in
        (e, walk_taken dates now random r code reason meta (is_retryable code reason) _ r' walked)

-- An unwind that handles a failure leaves a state that passes its checks, where the run is active,
-- its state passes them and each parked frame waits at the node that the continuation above it
-- names.
pub unwind_failure-IsShaped :
    (dates : Dates) (compiles : Json → Bool) (max_depth now : ℕ) (random : ℕ → ℕ) (r r' : Runner)
    (code : Text) (reason : Option Reason) (meta : Option ErrorMetadata)
    → IsShaped dates compiles max_depth r.state
    → IsActive r.state.status
    → IsLinked r.state.frames
    → unwind_failure dates now random r code reason meta ≡ ok (some r')
    → IsShaped dates compiles max_depth r'.state
unwind_failure-IsShaped dates compiles max_depth now random r r' code reason meta good act linked
      h =
    let taken = (unwind_failure_topmost dates now random r r' code reason meta h).1 in
    visit-IsShaped dates compiles max_depth now random r code reason meta good act taken.index
      (is_retryable code reason) r' linked taken.takes
