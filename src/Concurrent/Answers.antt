-- ===== src/Concurrent/Answers.antt =====
-- The answers of a search (packages/async/src/concurrent.ts, `firstInOrder`), read off from its slots.
use sozai.Common.{
  ℕ, ◌≤◌, ◌<◌, ◌≡◌, refl, ap, sym, ◌∙◌, inl, inr, Bool, true, false, none, some, List, [], ◌∷◌,
  ◌++◌, ltb, ◌==◌, if◌then◌else◌, ◌&&◌, arith, some_injective, map,
}
use sozai.Common.Lists.{length}
use sozai.Concurrent.{
  Slot, pending, miss, hit, error, resolved, all_failed, Search, Scan, waits, runs_out, wins,
  errors_of, exhausted, Reach,
}
use sozai.Concurrent.Slots.{AllLost, verdict, outcome_of}
use sozai.Concurrent.Decided.{Reach-sequential}

module _ {V E : Type 0} where
  errors_below : (slots : List (Slot V E)) → length (errors_of slots) ≤ length slots
  unfolding errors_of
  errors_below [] = omega arith
  errors_below (pending ∷ slots) = omega (arith, errors_below slots)
  errors_below (miss ∷ slots) = omega (arith, errors_below slots)
  errors_below (hit v ∷ slots) = omega (arith, errors_below slots)
  errors_below (error e ∷ slots) = omega (arith, errors_below slots)

  -- Slots with as many errors as slots are the errors.
  errors_all :
      (slots : List (Slot V E))
      → length (errors_of slots) ≡ length slots
      → slots ≡ map error (errors_of slots)
  unfolding errors_of
  errors_all [] h = refl
  errors_all (pending ∷ slots) h = ground (arith, errors_below slots)
  errors_all (miss ∷ slots) h = ground (arith, errors_below slots)
  errors_all (hit v ∷ slots) h = ground (arith, errors_below slots)
  errors_all (error e ∷ slots) h = ap (λ l. error e ∷ l) (errors_all slots (omega arith))

  exhausted_failed :
      (slots : List (Slot V E)) (es : List E)
      → exhausted slots ≡ all_failed es
      → (slots ≡ map error es) × (0 < length es)
  exhausted_failed slots es h =
      let many : (0 < length slots) × (length (errors_of slots) ≡ length slots) = ground arith in
      let same : errors_of slots ≡ es = ground arith in
      (errors_all slots many.1 ∙ ap (map error) same, omega (arith, many, ap length same))

  sequential_failed :
      (slots : List (Slot V E)) (x : Scan V) (es : List E)
      → outcome_of slots x ≡ some (all_failed es)
      → (slots ≡ map error es) × (0 < length es)
  sequential_failed slots waits es h = cc
  sequential_failed slots (wins v) es h = ground arith
  sequential_failed slots runs_out es h = exhausted_failed slots es (some_injective h)

  sequential_hit :
      (slots : List (Slot V E)) (v : V)
      → verdict slots ≡ wins v
      → (before after : List (Slot V E)) × (slots ≡ before ++ hit v ∷ after) × AllLost before
  sequential_hit [] v h = ground arith
  sequential_hit (pending ∷ slots) v h = ground arith
  sequential_hit (hit w ∷ slots) v h = ([], slots, ground arith, tt)
  sequential_hit (miss ∷ slots) v h =
      let (before, after, e, l) = sequential_hit slots v h in
      (miss ∷ before, after, ap (λ k. miss ∷ k) e, (refl, l))
  sequential_hit (error x ∷ slots) v h =
      let (before, after, e, l) = sequential_hit slots v h in
      (error x ∷ before, after, ap (λ k. error x ∷ k) e, (refl, l))

  sequential_resolved :
      (slots : List (Slot V E)) (x : Scan V) (v : V)
      → outcome_of slots x ≡ some (resolved (some v))
      → x ≡ wins v
  sequential_resolved slots waits v h = cc
  sequential_resolved slots (wins w) v h = ground arith
  sequential_resolved slots runs_out v h =
      go (ltb 0 (length slots) && (length (errors_of slots) == length slots)) (some_injective h)
    where
      go :
          (b : Bool)
          → (if b then all_failed (errors_of slots) else resolved none) ≡ resolved (some v)
          → runs_out ≡ wins v
      go true h = ground arith
      go false h = ground arith

  -- A search rejects with an AggregateError only when every item's call has failed and there is at
  -- least one, and its errors are theirs in the order of the list.
  pub Reach-failed :
      (limit n : ℕ) (s : Search V E) (es : List E)
      → Reach limit n s
      → s.outcome ≡ some (all_failed es)
      → (s.slots ≡ map error es) × (0 < length es)
  Reach-failed limit n s es h o = elim (Reach-sequential limit n s h) [
    | inl (reason, e) ↦ ground arith
    | inr e ↦ sequential_failed s.slots (verdict s.slots) es (sym e ∙ o)
  ]

  -- A search that resolves with a value resolves with that of an item all of whose predecessors
  -- have settled without one.
  pub Reach-hit :
      (limit n : ℕ) (s : Search V E) (v : V)
      → Reach limit n s
      → s.outcome ≡ some (resolved (some v))
      → (before after : List (Slot V E)) × (s.slots ≡ before ++ hit v ∷ after) × AllLost before
  Reach-hit limit n s v h o = elim (Reach-sequential limit n s h) [
    | inl (reason, e) ↦ ground arith
    | inr e ↦ sequential_hit s.slots v (sequential_resolved s.slots (verdict s.slots) v (sym e ∙ o))
  ]
