-- ===== src/FlowGraph/Stack.antt =====
-- How the checks on a frame stack carry over when its upper frames are replaced by one.
use sozai.Common.{
  ℕ, ◌&&◌, ◌≤◌, ◌≡◌, refl, ap, ◌⊎◌, inl, inr, Bool, true, false, Option, none, some, List, [], ◌∷◌,
  ◌++◌, arith, is_some,
}
use sozai.Common.Text.{Text, same_iff, same_refl}
use sozai.Common.Fields.{Fields, own}
use sozai.Common.Result.{◌<|>◌}
use sozai.FlowGraph.Types.{NodeAttempts, Frame, RunState}
use sozai.FlowGraph.Time.{Dates}
use sozai.FlowGraph.Checks.{
  assert_attempts, invocation_number, out_of_range, foreign_attempts, assert_frame_attempts,
  assert_frame, see, is_empty, assert_frames,
}

pub alt_none {ℓ} : {E : Type ℓ} (a b : Option E) → (a <|> b) ≡ none → (a ≡ none) × (b ≡ none)
alt_none none b h = (refl, h)
alt_none (some e) b h = cc

pub alt-none {ℓ} : {E : Type ℓ} (a b : Option E) → a ≡ none → b ≡ none → (a <|> b) ≡ none
alt-none none b h k = k
alt-none (some e) b h k = cc

-- Attempts that belong to the active node alone are none, or that node's.
pub owned_attempts :
    (m : Fields NodeAttempts) (node : Text)
    → foreign_attempts m node ≡ false
    → (m ≡ []) ⊎ ((a : NodeAttempts) × (m ≡ (node, a) ∷ []))
owned_attempts [] node h = inl refl
owned_attempts ((key, a) ∷ []) node h =
    inr (a, ap (λ k. (k, a) ∷ []) ((same_iff key node).0 (ground arith)))
owned_attempts (x ∷ y ∷ m) node h = cc

pub is_empty-append :
    (below : List Frame) (f : Frame) (rest : List Frame) → is_empty (below ++ f ∷ rest) ≡ false
is_empty-append [] f rest = refl
is_empty-append (g ∷ below) f rest = refl

module _ (dates : Dates) (s s' : RunState) (run : s'.run_id ≡ s.run_id)
    (grown : s.invocation ≤ s'.invocation) where
  pub range_grows :
      (n : Option ℕ) → out_of_range s.invocation n ≡ false → out_of_range s'.invocation n ≡ false
  range_grows none h = h
  range_grows (some n) h = ground arith

  parked_attempts :
      (seen : List Text) (a : NodeAttempts)
      → assert_frame_attempts dates s false seen a ≡ none
      → assert_frame_attempts dates s' false seen a ≡ none
  unfolding assert_frame_attempts
  parked_attempts seen a h =
      rw run (ground (arith, range_grows (invocation_number s.run_id a.invocation_id)))

  -- A parked frame's checks do not depend on what the commit changes.
  pub parked_frame :
      (root : Bool) (seen : List Text) (f : Frame)
      → assert_frame dates s root false seen f ≡ none
      → assert_frame dates s' root false seen f ≡ none
  unfolding assert_frame
  parked_frame root seen f h = go (own f.attempts f.node) refl
    where
      go :
          (o : Option NodeAttempts)
          → own f.attempts f.node ≡ o
          → assert_frame dates s' root false seen f ≡ none
      go none e = ground arith
      go (some a) e = ground (arith, parked_attempts seen a)

  -- The checks of a stack whose frames from `f` on are replaced by `f'`, given that `f'` passes as
  -- the active frame wherever `f` passed.
  pub replace_above :
      (f f' : Frame) (rest below : List Frame)
      → ((root last : Bool) (seen : List Text)
          → assert_frame dates s root last seen f ≡ none
          → assert_frame dates s' root true seen f' ≡ none)
      → (root : Bool) (seen : List Text)
      → assert_frames dates s root seen (below ++ f ∷ rest) ≡ none
      → assert_frames dates s' root seen (below ++ f' ∷ []) ≡ none
  unfolding assert_frames
  replace_above f f' rest [] keep root seen h =
      alt-none _ none (keep root (is_empty rest) seen (alt_none _ _ h).0) refl
  replace_above f f' rest (g ∷ below) keep root seen h =
      let (here, above) =
        alt_none (assert_frame dates s root (is_empty (below ++ f ∷ rest)) seen g) _ h in
      alt-none _ _
        (rw (is_empty-append below f' [])
          (parked_frame root seen g (rw (is_empty-append below f rest) at here)))
        (replace_above f f' rest below keep false (see (own g.attempts g.node) seen) above)

  -- The same where several frames take the place.
  pub replace_tail :
      (f : Frame) (rest above below : List Frame)
      → is_empty above ≡ false
      → ((root last : Bool) (seen : List Text)
          → assert_frame dates s root last seen f ≡ none
          → assert_frames dates s' root seen above ≡ none)
      → (root : Bool) (seen : List Text)
      → assert_frames dates s root seen (below ++ f ∷ rest) ≡ none
      → assert_frames dates s' root seen (below ++ above) ≡ none
  unfolding assert_frames
  replace_tail f rest above [] full keep root seen h =
      keep root (is_empty rest) seen (alt_none _ _ h).0
  replace_tail f rest above (g ∷ below) full keep root seen h =
      let (here, tail) =
        alt_none (assert_frame dates s root (is_empty (below ++ f ∷ rest)) seen g) _ h in
      alt-none _ _
        (rw (still_full below)
          (parked_frame root seen g (rw (is_empty-append below f rest) at here)))
        (replace_tail f rest above below full keep false (see (own g.attempts g.node) seen) tail)
    where
      still_full : (gs : List Frame) → is_empty (gs ++ above) ≡ false
      still_full [] = full
      still_full (x ∷ gs) = refl

-- What the checks of a stack say of the frame `f` in it.
pub frame_of_stack :
    (dates : Dates) (s : RunState) (f : Frame) (rest below : List Frame) (root : Bool)
    (seen : List Text)
    → assert_frames dates s root seen (below ++ f ∷ rest) ≡ none
    → (r : Bool) × (seen' : List Text) × (assert_frame dates s r (is_empty rest) seen' f ≡ none)
unfolding assert_frames
frame_of_stack dates s f rest [] root seen h = (root, seen, (alt_none _ _ h).0)
frame_of_stack dates s f rest (g ∷ below) root seen h =
    frame_of_stack dates s f rest below false (see (own g.attempts g.node) seen) (alt_none _ _ h).1

-- A frame that passes owns its attempts.
pub frame_attempts :
    (dates : Dates) (s : RunState) (root last : Bool) (seen : List Text) (f : Frame)
    → assert_frame dates s root last seen f ≡ none
    → (f.attempts ≡ []) ⊎ ((a : NodeAttempts) × (f.attempts ≡ (f.node, a) ∷ []))
unfolding assert_frame
frame_attempts dates s root last seen f h = owned_attempts f.attempts f.node (ground arith)

module _ (dates : Dates) (s s' : RunState) (run : s'.run_id ≡ s.run_id)
    (grown : s.invocation ≤ s'.invocation) where
  -- A frame without attempts passes where one with the same link to its caller passed.
  pub cleared_frame :
      (f f' : Frame) (root last : Bool) (seen : List Text)
      → f'.attempts ≡ []
      → is_some f'.continuation ≡ is_some f.continuation
      → assert_frame dates s root last seen f ≡ none
      → assert_frame dates s' root true seen f' ≡ none
  unfolding assert_frame own
  cleared_frame f f' root last seen e c h = ground arith

  progressed_attempts :
      (last : Bool) (seen : List Text) (a a' : NodeAttempts)
      → s'.in_flight ≡ none
      → a'.invocation_id ≡ a.invocation_id
      → assert_attempts dates a' false ≡ none
      → assert_frame_attempts dates s last seen a ≡ none
      → assert_frame_attempts dates s' true seen a' ≡ none
  unfolding assert_frame_attempts
  progressed_attempts last seen a a' idle i good h =
      rw (run, i, idle)
        (ground
          (arith, range_grows dates s s' run grown (invocation_number s.run_id a.invocation_id)))

  -- A frame that holds new progress of the same invocation passes where the old one passed, once
  -- nothing is in flight.
  pub progressed_frame :
      (f f' : Frame) (a a' : NodeAttempts) (root last : Bool) (seen : List Text)
      → s'.in_flight ≡ none
      → own f.attempts f.node ≡ some a
      → f'.attempts ≡ (f'.node, a') ∷ []
      → a'.invocation_id ≡ a.invocation_id
      → is_some f'.continuation ≡ is_some f.continuation
      → assert_attempts dates a' false ≡ none
      → assert_frame dates s root last seen f ≡ none
      → assert_frame dates s' root true seen f' ≡ none
  unfolding assert_frame own
  progressed_frame f f' a a' root last seen idle o e i c good h =
      ground (arith, same_refl f'.node, progressed_attempts last seen a a' idle i good)

-- A frame that passes has passing attempts.
pub frame_progress :
    (dates : Dates) (s : RunState) (root last : Bool) (seen : List Text) (f : Frame)
    (a : NodeAttempts)
    → assert_frame dates s root last seen f ≡ none
    → own f.attempts f.node ≡ some a
    → assert_attempts dates a (last && is_some s.in_flight) ≡ none
unfolding assert_frame assert_frame_attempts
frame_progress dates s root last seen f a h o = ground arith
