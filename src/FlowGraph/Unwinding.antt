-- ===== src/FlowGraph/Unwinding.antt =====
-- What an unwind does to the run: which caller takes the failure, and that its state passes.
use sozai.Common.{
  ℕ, zero, suc, ◌+◌, ◌<◌, ◌≡◌, refl, ap, ◌∙◌, Bool, Option, none, some, List, [], ◌∷◌, ◌++◌, arith,
}
use sozai.Common.{some_injective}
use native.Mathlib.Numerals.{add-one}
use mathlib.Core.Path.{subst}
use sozai.Common.Lists.{take, drop, get_elem?}
use sozai.Common.Text.{Text}
use sozai.Common.Fields.{own}
use sozai.Common.Json.{Json}
use sozai.Common.Result.{ok, ◌>>=◌, >>=-eq-ok, required, ok-injective}
use sozai.Retry.{get_retry_delay}
use sozai.FlowGraph.Types.{ErrorMetadata, Reason, NodeAttempts, Continuation, Frame}
use sozai.FlowGraph.Time.{Dates}
use sozai.FlowGraph.Frames.{missing_field}
use sozai.FlowGraph.Commits.{Runner}
use sozai.FlowGraph.RetryCommits.{RetryDecision, call_error, route_to_on_error, schedule_retry}
use sozai.FlowGraph.Unwind.{
  CallerStep, retry_call, pass, retry_step, caller_step, unwind_to, handle_at, visit, or_generic,
  attempt_count,
}
use sozai.FlowGraph.Shape.{IsActive, IsShaped}
use sozai.FlowGraph.Preserve.{IsCut, route-IsShaped, schedule-IsShaped}

module _ {ℓ} {A : Type ℓ} where
  -- A list around its element at an index.
  split_at :
      (xs : List A) (i : ℕ) (x : A)
      → get_elem? xs i ≡ some x
      → (xs ≡ take i xs ++ x ∷ drop (suc i) xs) × (take (suc i) xs ≡ take i xs ++ x ∷ [])
  split_at [] i x h = cc
  split_at (y ∷ xs) zero x h = (ground arith, ground arith)
  split_at (y ∷ xs) (suc i) x h =
      let (whole, part) = split_at xs i x h in (ap (λ l. y ∷ l) whole, ap (λ l. y ∷ l) part)

-- A parked frame waits at the node that its callee's continuation names.
abbrev pub IsCallerOf : Frame → Option Continuation → Type 0
IsCallerOf f none = Unit
IsCallerOf f (some c) = f.node ≡ c.caller_node

abbrev pub IsLinked : List Frame → Type 0
IsLinked [] = Unit
IsLinked (f ∷ []) = Unit
IsLinked (f ∷ g ∷ rest) = IsCallerOf f g.continuation × IsLinked (g ∷ rest)

linked_at :
    (fs : List Frame) (i : ℕ) (f g : Frame)
    → IsLinked fs
    → get_elem? fs i ≡ some f
    → get_elem? fs (suc i) ≡ some g
    → IsCallerOf f g.continuation
linked_at [] i f g l h k = cc
linked_at (x ∷ []) zero f g l h k = cc
linked_at (x ∷ []) (suc i) f g l h k = cc
linked_at (x ∷ y ∷ fs) zero f g l h k = rw (← some_injective k, ← some_injective h) l.0
linked_at (x ∷ y ∷ fs) (suc i) f g l h k = linked_at (y ∷ fs) i f g l.1 h k

retry_step_count :
    (dates : Dates) (now : ℕ) (random : ℕ → ℕ) (a held : NodeAttempts) (reason : Option Reason)
    (meta : Option ErrorMetadata) (decision : RetryDecision)
    → retry_step dates now random a reason meta ≡ ok (retry_call held decision)
    → (held ≡ a) × (0 < a.count)
unfolding retry_step get_retry_delay
retry_step_count dates now random a held reason meta decision h = (ground arith, ground arith)

caller_step_count :
    (dates : Dates) (now : ℕ) (random : ℕ → ℕ) (c : Continuation) (o : Option NodeAttempts)
    (retryable : Bool) (reason : Option Reason) (meta : Option ErrorMetadata) (held : NodeAttempts)
    (decision : RetryDecision)
    → caller_step dates now random c o retryable reason meta ≡ ok (retry_call held decision)
    → (o ≡ some held) × (0 < held.count)
unfolding caller_step
caller_step_count dates now random c none retryable reason meta held decision h = cc
caller_step_count dates now random c (some a) retryable reason meta held decision h =
    ground (arith, retry_step_count dates now random a held reason meta decision)

pub required-ok {ℓ} :
    {E A : Type ℓ} (e : E) (o : Option A) (a : A) → required e o ≡ ok a → o ≡ some a
required-ok e none a h = cc
required-ok e (some b) a h = ap some (ok-injective h)

module _ (dates : Dates) (compiles : Json → Bool) (max_depth : ℕ) (now : ℕ) (random : ℕ → ℕ)
    (r : Runner) (code : Text) (reason : Option Reason) (meta : Option ErrorMetadata)
    (good : IsShaped dates compiles max_depth r.state) (act : IsActive r.state.status) where
  unwind-IsCut :
      (i : ℕ) (f : Frame)
      → get_elem? r.state.frames i ≡ some f
      → IsCut r.state (unwind_to r i).state f (take i r.state.frames) (drop (suc i) r.state.frames)
  unfolding unwind_to
  unwind-IsCut i f h = record {
    frames = (split_at r.state.frames i f h).0;
    cut = rw add-one (split_at r.state.frames i f h).1;
    run = refl;
    invocation = refl;
    outcome = refl;
    output = refl;
    error = refl;
  }

  reroute-IsShaped :
      (i : ℕ) (f : Frame) (c : Continuation) (why : Option Reason) (target : Text) (r' : Runner)
      → get_elem? r.state.frames i ≡ some f
      → f.node ≡ c.caller_node
      → (route_to_on_error c.caller_node why
            (or_generic meta)
            (attempt_count (own f.attempts c.caller_node))
            target
            (some (call_error code why (attempt_count (own f.attempts c.caller_node))))
            (some (unwind_to r i))
            r
          >>= λ q. ok (some q))
        ≡ ok (some r')
      → IsShaped dates compiles max_depth r'.state
  reroute-IsShaped i f c why target r' at_i named h =
      let count = attempt_count (own f.attempts c.caller_node) in
      let (r'', e, same_r) =
        >>=-eq-ok
          (route_to_on_error c.caller_node why (or_generic meta) count target
            (some (call_error code why count)) (some (unwind_to r i)) r)
          _ h in
      subst (λ (q : Runner). IsShaped dates compiles max_depth q.state)
        (some_injective (ok-injective same_r))
        (route-IsShaped dates compiles max_depth r r'' (some (unwind_to r i)) f
          (take i r.state.frames) (drop (suc i) r.state.frames) good act (unwind-IsCut i f at_i)
          c.caller_node named (or_generic meta) why count target (some (call_error code why count))
          e)

  handle-IsShaped :
      (i : ℕ) (f : Frame) (c : Continuation) (step : CallerStep) (r' : Runner)
      → get_elem? r.state.frames i ≡ some f
      → f.node ≡ c.caller_node
      → ((held : NodeAttempts) (d : RetryDecision)
          → step ≡ retry_call held d
          → (own f.attempts c.caller_node ≡ some held) × (0 < held.count))
      → handle_at dates now random r code reason meta i c (own f.attempts c.caller_node) step
        ≡ ok (some r')
      → IsShaped dates compiles max_depth r'.state
  unfolding handle_at
  handle-IsShaped i f c (retry_call held d) r' at_i named counts h =
      let (r'', e, same_r) =
        >>=-eq-ok
          (schedule_retry dates c.caller_node held (or_generic meta) d (some (unwind_to r i)) r) _
          h in
      subst (λ (q : Runner). IsShaped dates compiles max_depth q.state)
        (some_injective (ok-injective same_r))
        (schedule-IsShaped dates compiles max_depth r r'' (some (unwind_to r i)) f
          (take i r.state.frames) (drop (suc i) r.state.frames) good act (unwind-IsCut i f at_i)
          c.caller_node named (or_generic meta) held held d
          (ap (own f.attempts) named ∙ (counts held d refl).0) (counts held d refl).1 e)
  handle-IsShaped i f c (pass why) r' at_i named counts h = go c.on_error refl
    where
      go : (o : Option Text) → c.on_error ≡ o → IsShaped dates compiles max_depth r'.state
      go none e = ground arith
      go (some target) e = reroute-IsShaped i f c why target r' at_i named (ground arith)

  -- A visit that handles the failure leaves a state that passes.
  pub visit-IsShaped :
      (i : ℕ) (retryable : Bool) (r' : Runner)
      → IsLinked r.state.frames
      → visit dates now random r code reason meta i retryable ≡ ok (some r')
      → IsShaped dates compiles max_depth r'.state
  unfolding visit
  visit-IsShaped i retryable r' linked h =
      let (callee, e1, h1) =
        >>=-eq-ok (required missing_field (get_elem? r.state.frames (i + 1))) _ h in
      let (c, e2, h2) = >>=-eq-ok (required missing_field callee.continuation) _ h1 in
      let (f, e3, h3) = >>=-eq-ok (required missing_field (get_elem? r.state.frames i)) _ h2 in
      let (step, e4, h4) =
        >>=-eq-ok
          (caller_step dates now random c (own f.attempts c.caller_node) retryable reason meta) _
          h3 in
      handle-IsShaped i f c step r' (required-ok _ _ f e3)
        (subst (IsCallerOf f) (required-ok _ _ c e2) (
          linked_at r.state.frames i f callee linked (required-ok _ _ f e3)
            (rw (← add-one) (required-ok _ _ callee e1))))
        (λ held d same.
          caller_step_count dates now random c (own f.attempts c.caller_node) retryable reason meta
            held d (e4 ∙ ap ok same))
        h4
