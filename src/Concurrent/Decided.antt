-- ===== src/Concurrent/Decided.antt =====
-- What a search (packages/async/src/concurrent.ts, `firstInOrder`) promises, whatever the order in which
-- its calls settle: its decision, its bound on the calls in flight and its progress.
use mathlib.Core.Path.{subst}
use sozai.Common.{
  ℕ, ◌≤◌, ◌<◌, ◌≡◌, refl, ap, sym, ◌∙◌, ◌⊎◌, inl, inr, Bool, true, false, Option, none, some, List,
  [], ◌∷◌, ◌++◌, ◌==◌, if◌then◌else◌, arith, Bool-cases, is_some,
}
use sozai.Common.Lists.{length, get_elem?}
use sozai.Concurrent.{
  Slot, pending, hit, Outcome, cancelled, Search, has, maybe_finish, finish_with, first_settled,
  decide, decided, decide_from, settle, write_from, landed, pump, advance, fresh, begin, Step,
  settles, aborts, Reach, begins, then_step,
}
use sozai.Concurrent.Slots.{AllLost, outcome_of, sequential, waits_at, lost_at, get_below}
use sozai.Concurrent.Runs.{IsPumped, IsRun, runs, stops, Reach-IsRun}

get_at_length :
    {A : Type 0} (xs : List A) (x : A) (ys : List A) → get_elem? (xs ++ x ∷ ys) (length xs) ≡ some x
get_at_length [] x ys = refl
get_at_length (y ∷ xs) x ys = get_at_length xs x ys

some_has : (js : List ℕ) (i : ℕ) → has js i ≡ true → 0 < length js
some_has [] i h = cc
some_has (j ∷ js) i h = omega arith

module _ {V E : Type 0} where
  -- However the calls of `firstInOrder` interleave, and unless the outer signal has aborted it, the
  -- search is decided exactly when asking the items one after the other would be, by what is known
  -- of them, and with the same answer: the first hit that no pending call is ahead of, and after
  -- the last item an AggregateError if all of them failed or else nothing.
  pub Reach-sequential :
      (limit n : ℕ) (s : Search V E)
      → Reach limit n s
      → ((reason : E) × (s.outcome ≡ some (cancelled reason))) ⊎ (s.outcome ≡ sequential s.slots)
  Reach-sequential limit n s h = go (Reach-IsRun limit n s h)
    where
      go :
          IsRun limit n s
          → ((reason : E) × (s.outcome ≡ some (cancelled reason)))
            ⊎ (s.outcome ≡ sequential s.slots)
      go (runs p) = inr (p.undecided ∙ sym (ap (outcome_of s.slots) p.waiting))
      go (stops o e (inl (reason, q)) within counted) = inl (reason, e ∙ ap some q)
      go (stops o e (inr q) within counted) = inr (e ∙ sym q)

  -- A search counts its calls in flight exactly, and has at most as many of them as its limit.
  pub Reach-within :
      (limit n : ℕ) (s : Search V E)
      → Reach limit n s
      → (s.inflight ≡ length s.controllers) × (s.inflight ≤ limit)
  Reach-within limit n s h = go (Reach-IsRun limit n s h)
    where
      go : IsRun limit n s → (s.inflight ≡ length s.controllers) × (s.inflight ≤ limit)
      go (runs p) = (p.opens.counted, p.within)
      go (stops o e agrees within counted) = (counted, within)

  below_hit :
      (slots lost rest : List (Slot V E)) (b : ℕ) (v : V)
      → slots ≡ lost ++ pending ∷ rest
      → AllLost lost
      → get_elem? slots b ≡ some (hit v)
      → length lost < b
  below_hit slots lost rest b v e l h =
      let found : get_elem? (lost ++ pending ∷ rest) b ≡ some (hit v) =
        ap (λ xs. get_elem? xs b) (sym e) ∙ h in
      let reached = lost_at lost (pending ∷ rest) b (hit v) l found refl in
      elim (Bool-cases (length lost == b)) [
        | inl q ↦ clash (
            subst (λ i. get_elem? (lost ++ pending ∷ rest) i ≡ some (hit v)) (sym (same_length q))
              found)
        | inr q ↦ ground (arith, reached)
      ]
    where
      same_length : (length lost == b) ≡ true → length lost ≡ b
      same_length q = ground arith

      clash : get_elem? (lost ++ pending ∷ rest) (length lost) ≡ some (hit v) → length lost < b
      clash q = ground (arith, get_at_length lost pending rest)

  -- The first slot that is not lost is that of a call in flight, once the search has started what it
  -- may.
  pumped_busy : (limit n : ℕ) (s : Search V E) → 0 < limit → IsPumped limit n s → 0 < s.inflight
  pumped_busy limit n s pos p =
      let o = p.opens in
      let (lost, rest', e, l) = waits_at [] s.slots tt p.waiting in
      let at : get_elem? s.slots (length lost) ≡ some pending =
        ap (λ xs. get_elem? xs (length lost)) e ∙ get_at_length lost pending rest' in
      elim p.full [
        | inl q ↦ omega (arith, q)
        | inr q ↦
            let before_bound : length lost < s.bound = elim o.bounded [
              | inl b ↦ omega (arith, b, o.size, get_below s.slots (length lost) pending at)
              | inr (v, b) ↦ below_hit s.slots lost rest' s.bound v e l b
            ] in
            omega (
              arith,
              o.counted,
              some_has s.controllers (length lost) (o.started (length lost) (omega (arith, q)) at),
            )
      ]

  -- A search that is decided settles its promise once nothing is in flight.
  abbrev Ends : Search V E → Type 0
  Ends s = (o : Outcome V E) → s.outcome ≡ some o → s.inflight ≡ 0 → is_some s.settled ≡ true

  finish_with-Ends :
      (x : Option (Outcome V E)) (s : Search V E) → s.outcome ≡ x → Ends (finish_with x s)
  finish_with-Ends none s e = λ o q z. ground arith
  finish_with-Ends (some p) s e = go (s.inflight == 0) refl
    where
      go :
          (b : Bool)
          → (s.inflight == 0) ≡ b
          → Ends (if b then record s { settled = first_settled s.settled p } else s)
      go true d o q z = some_settled s.settled
        where
          some_settled : (x : Option (Outcome V E)) → is_some (first_settled x p) ≡ true
          some_settled none = refl
          some_settled (some y) = refl
      go false d o q z = ground arith

  finish-Ends : (s : Search V E) → Ends (maybe_finish s)
  unfolding maybe_finish
  finish-Ends s = finish_with-Ends s.outcome s refl

  decide-Ends :
      (x : Option (Outcome V E)) (o : Outcome V E) (s : Search V E)
      → Ends s
      → Ends (decide_from x o s)
  decide-Ends none o s h = finish-Ends (decided o s)
  decide-Ends (some p) o s h = h

  Step-Ends : (limit : ℕ) (s s' : Search V E) → Ends s → Step limit s s' → Ends s'
  unfolding settle decide
  Step-Ends limit s s' h (settles s1 index slot live full) =
      finish-Ends (write_from s1.outcome limit index slot (landed index s1))
  Step-Ends limit s s' h (aborts s1 reason) = decide-Ends s1.outcome (cancelled reason) s1 h

  Reach-Ends : (limit n : ℕ) (s : Search V E) → Reach limit n s → Ends s
  unfolding begin decide
  Reach-Ends limit n s (begins none) = finish-Ends (pump limit (advance (fresh n)))
  Reach-Ends limit n s (begins (some reason)) = finish-Ends (decide (cancelled reason) (fresh n))
  Reach-Ends limit n s (then_step s0 s1 h step) =
      Step-Ends limit s0 s1 (Reach-Ends limit n s0 h) step

  -- At a positive limit, a search whose promise has not settled has a call in flight: it never
  -- waits for nothing.
  pub Reach-busy :
      (limit n : ℕ) (s : Search V E)
      → 0 < limit
      → Reach limit n s
      → s.settled ≡ none
      → 0 < s.inflight
  Reach-busy limit n s pos h unsettled = go (Reach-IsRun limit n s h)
    where
      go : IsRun limit n s → 0 < s.inflight
      go (runs p) = pumped_busy limit n s pos p
      go (stops o e agrees within counted) = elim (Bool-cases (s.inflight == 0)) [
        | inl z ↦ ground (arith, Reach-Ends limit n s h o e (ground arith))
        | inr z ↦ ground arith
      ]
