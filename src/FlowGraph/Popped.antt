-- ===== src/FlowGraph/Popped.antt =====
-- The state that a return to the caller commits.
use mathlib.Core.Path.{subst}
use sozai.Common.{ℕ, ◌-◌, ◌≡◌, refl, ap, sym, ◌∙◌, Option, some, List, [], ◌∷◌, ◌++◌, arith}
use sozai.Common.Lists.{length, length-append, take}
use sozai.Common.Text.{Text}
use sozai.Common.Fields.{Fields}
use sozai.Common.Json.{Json}
use sozai.Common.Result.{ok, >>=-eq-ok, required, ok-injective}
use sozai.FlowGraph.Types.{Continuation, Frame, running, RunState}
use sozai.FlowGraph.Frames.{
  missing_field, last?, last?-concat, last?-eq-some, map_last, map_last-concat, top, set_top,
  top_index,
}
use sozai.FlowGraph.Commits.{Runner, resume_caller, pop_frame, settle}
use sozai.FlowGraph.Inversion.{committed}
use sozai.FlowGraph.Unwinding.{required-ok}

take-length {ℓ} : {A : Type ℓ} (xs ys : List A) → take (length xs) (xs ++ ys) ≡ xs
take-length [] ys = refl
take-length (x ∷ xs) ys = ap (λ l. x ∷ l) (take-length xs ys)

take_below {ℓ} :
    {A : Type ℓ} (xs : List A) (x : A) (n : ℕ) → n ≡ length xs → take n (xs ++ x ∷ []) ≡ xs
take_below xs x n e = rw e (take-length xs (x ∷ []))

-- A return, read off from its success.
pub popped_state :
    (next : RunState) (output : Fields Json) (outcome : Option Text) (r r' : Runner) (f : Frame)
    (below : List Frame)
    → next.frames ≡ below ++ f ∷ []
    → pop_frame next output outcome r ≡ ok r'
    → (link : Continuation) × (g : Frame) × (deeper : List Frame) × (f.continuation ≡ some link)
      × (below ≡ deeper ++ g ∷ [])
      × (r'.state
          ≡ committed
              (settle running
                (record next { frames = deeper ++ resume_caller link output outcome g ∷ [] }))
              r)
unfolding pop_frame top_index top set_top
popped_state next output outcome r r' f below frames h =
    let (callee, e1, h1) = >>=-eq-ok (required missing_field (last? next.frames)) _ h in
    let (link, e2, h2) = >>=-eq-ok (required missing_field callee.continuation) _ h1 in
    let index : length next.frames - 1 ≡ length below =
      omega (arith, ap length frames, length-append below (f ∷ [])) in
    let taken : take (length next.frames - 1) next.frames ≡ below =
      subst (λ l. take (length next.frames - 1) l ≡ below) (sym frames)
        (take_below below f (length next.frames - 1) index) in
    let (g, e3, h3) =
      >>=-eq-ok (top (record next { frames = take (length next.frames - 1) next.frames })) _ h2 in
    let found : last? below ≡ some g = subst (λ l. last? l ≡ some g) taken (ground (arith, top)) in
    let (deeper, shape) = last?-eq-some below g found in
    let same_callee : callee ≡ f = ground (
      arith,
      required-ok missing_field (last? next.frames) callee e1,
      ap last? frames,
      last?-concat below f,
    ) in
    (
      link,
      g,
      deeper,
      ap (λ (x : Frame). x.continuation) (sym same_callee) ∙ required-ok _ _ link e2,
      shape,
      ap (λ (q : Runner). q.state) (sym (ok-injective h3))
          ∙ ap
              (λ (l : List Frame).
                committed
                  (settle running
                    (record next { frames = map_last (resume_caller link output outcome) l }))
                  r)
              (taken ∙ shape)
          ∙ ap (λ (l : List Frame). committed (settle running (record next { frames = l })) r)
              (map_last-concat (resume_caller link output outcome) deeper g),
    )
