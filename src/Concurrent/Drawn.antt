-- ===== src/Concurrent/Drawn.antt =====
-- What the consumers of `prefetchOrdered` (packages/async/src/concurrent.ts) see, however its fetches
-- interleave.
use mathlib.Core.Path.{subst}
use sozai.Common.{
  ℕ, zero, suc, ◌+◌, ◌-◌, ◌≤◌, ◌<◌, ◌≡◌, refl, ap, ◌∙◌, ◌⊎◌, inl, inr, ◌==◌, true, false, min,
  Option, none, some, List, [], ◌∷◌, ◌++◌, arith, Bool-cases,
}
use sozai.Common.Lists.{length, get_elem?}
use sozai.Common.Result.{Result, ok, err}
use sozai.Concurrent.{has}
use sozai.Concurrent.Prefetch.{
  Ending, finished, returned, threw, Place, fetching, suspended, closing, closed, Prefetch, Move,
  settles, resumes, ends, Draws,
}
use sozai.Concurrent.Turned.{IsAt, IsPrefetching}
use sozai.Concurrent.Moved.{Draws-IsPrefetching}

module _ {V E : Type 0} (fates : ℕ → Result E V) where
  abbrev pub and_then : Result E V → List V × Ending E → List V × Ending E
  and_then (ok v) (vs, ending) = (v ∷ vs, ending)
  and_then (err e) rest = ([], threw e)

  -- One fetch after another, `k` of them from index `i` on: what is yielded, and the end.
  abbrev pub draw : ℕ → ℕ → List V × Ending E
  draw i zero = ([], finished)
  draw i (suc k) = and_then (fates i) (draw (i + 1) k)

  abbrev after_values : List V → List V × Ending E → List V × Ending E
  after_values [] rest = rest
  after_values (v ∷ vs) rest = and_then (ok v) (after_values vs rest)

  draw-append :
      (i k : ℕ) (vs : List V)
      → ((j : ℕ) (v : V) → get_elem? vs j ≡ some v → fates (i + j) ≡ ok v)
      → draw i (length vs + k) ≡ after_values vs (draw (i + length vs) k)
  draw-append i k [] drawn =
      let none_left : 0 + k ≡ k = omega arith in
      let from_here : i ≡ i + 0 = omega arith in
      ap (draw i) none_left ∙ ap (λ j. draw j k) from_here
  draw-append i k (v ∷ vs) drawn =
      let here : fates i ≡ ok v = subst (λ j. fates j ≡ ok v) (omega arith) (drawn 0 v refl) in
      let rest =
        draw-append (i + 1) k vs
          (λ j w g. subst (λ l. fates l ≡ ok w) (omega arith) (drawn (suc j) w g)) in
      let there : draw (i + 1 + length vs) k ≡ draw (i + suc (length vs)) k =
        ap (λ j. draw j k) (omega arith) in
      let more : suc (length vs) + k ≡ suc (length vs + k) = omega arith in
      ap (draw i) more
      ∙ ap (λ r. and_then r (draw (i + 1) (length vs + k))) here
      ∙ ap (and_then (ok v)) (rest ∙ ap (after_values vs) there)

  after_values-nothing :
      (vs : List V) (ending : Ending E) → after_values vs ([], ending) ≡ (vs, ending)
  after_values-nothing [] ending = refl
  after_values-nothing (v ∷ vs) ending = rw (after_values-nothing vs ending) refl

  after_values-rest :
      (vs : List V) (rest : List V × Ending E) → (after_values vs rest).0 ≡ vs ++ rest.0
  after_values-rest [] rest = refl
  after_values-rest (v ∷ vs) rest = ap (v ∷◌) (after_values-rest vs rest)

module _ {V E : Type 0} (window count : ℕ) (halt : E) (fates : ℕ → Result E V)
    (outer : Option E) where
  -- How the generator ended, and what it yielded before.
  abbrev pub IsDrawn : Place V E → List V → Type 0
  IsDrawn (closed finished) yielded = draw fates 0 count ≡ (yielded, finished)
  IsDrawn (closed returned) yielded = Unit
  IsDrawn (closed (threw e)) yielded = (draw fates 0 count ≡ (yielded, threw e)) ⊎ (outer ≡ some e)
  IsDrawn _ yielded = Unit

  drawn_so_far :
      (s : Prefetch V E)
      → IsPrefetching window count halt fates outer s
      → draw fates 0 count
        ≡ after_values fates s.yielded (draw fates (length s.yielded) (count - length s.yielded))
  drawn_so_far s p =
      let n = length s.yielded in
      let whole : count ≡ n + (count - n) = omega (arith, p.ahead, p.windowed.fits) in
      let from_here : 0 + n ≡ n = omega arith in
      ap (draw fates 0) whole
      ∙ draw-append fates 0 (count - n) s.yielded
          (λ j v g. subst (λ l. fates l ≡ ok v) (omega arith) (p.drawn j v g))
      ∙ ap (λ i. after_values fates s.yielded (draw fates i (count - n))) from_here

  -- However the fetches of `prefetchOrdered` interleave, at a positive window, the values yielded
  -- so far are the first of those that fetching one index after another gives. A generator that
  -- finishes has yielded all of them; one that throws has yielded what precedes the first failed
  -- fetch and throws its error, or throws the reason of the outer signal.
  pub Draws-IsDrawn :
      (s : Prefetch V E)
      → 0 < window
      → Draws window count halt fates outer s
      → ((rest : List V) × ((draw fates 0 count).0 ≡ s.yielded ++ rest)) × IsDrawn s.place s.yielded
  Draws-IsDrawn s positive l =
      ((_, ap (λ r. r.0) so_far ∙ after_values-rest fates s.yielded _), ended s.place p.at)
    where
      p : IsPrefetching window count halt fates outer s
      p = Draws-IsPrefetching window count halt fates outer s positive l

      left : ℕ
      left = count - length s.yielded

      so_far :
          draw fates 0 count ≡ after_values fates s.yielded (draw fates (length s.yielded) left)
      so_far = drawn_so_far s p

      stops :
          (k : ℕ) (ending : Ending E)
          → left ≡ k
          → draw fates (length s.yielded) k ≡ ([], ending)
          → draw fates 0 count ≡ (s.yielded, ending)
      stops k ending q d =
          so_far
          ∙ ap (λ m. after_values fates s.yielded (draw fates (length s.yielded) m)) q
          ∙ ap (after_values fates s.yielded) d
          ∙ after_values-nothing fates s.yielded ending

      ended :
          (place : Place V E)
          → IsAt window count halt fates outer place s.fetches s.arrived s.signal (length s.yielded)
          → IsDrawn place s.yielded
      ended (fetching i verdict) a = tt
      ended (suspended i) a = tt
      ended (closing ending) a = tt
      ended (closed finished) (e, a) = stops 0 finished (omega (arith, e)) refl
      ended (closed returned) a = tt
      ended (closed (threw e)) ((b, inl f), a) =
          inl (stops (suc (left - 1)) (threw e) (omega (arith, b)) (rw f refl))
      ended (closed (threw e)) ((b, inr o), a) = inr o

  -- At a positive window, a generator has always started as many fetches as the values yielded and
  -- the window allow and there are indices, or its signal is aborted and it has started no more
  -- than that.
  pub Draws-IsFilled :
      (s : Prefetch V E)
      → 0 < window
      → Draws window count halt fates outer s
      → (s.fetches.started ≡ min count (length s.yielded + window))
        ⊎ ((reason : E) × (s.signal ≡ some reason)
            × (s.fetches.started ≤ min count (length s.yielded + window)))
  Draws-IsFilled s positive l = go s.signal refl
    where
      p : IsPrefetching window count halt fates outer s
      p = Draws-IsPrefetching window count halt fates outer s positive l

      limited : s.fetches.started ≤ min count (length s.yielded + window)
      limited = omega (arith, p.windowed.fits, p.windowed.near)

      go :
          (signal : Option E)
          → s.signal ≡ signal
          → (s.fetches.started ≡ min count (length s.yielded + window))
            ⊎ ((reason : E) × (s.signal ≡ some reason)
                × (s.fetches.started ≤ min count (length s.yielded + window)))
      go none q =
          inl (elim (p.full q) [ inl h ↦ omega (arith, limited) | inr h ↦ omega (arith, limited) ])
      go (some reason) q = inr (reason, q, limited)

  -- At a positive window, once a generator has ended, each fetch that it started has settled.
  pub Draws-settled :
      (s : Prefetch V E) (ending : Ending E) (i : ℕ)
      → 0 < window
      → Draws window count halt fates outer s
      → s.place ≡ closed ending
      → i < s.fetches.started
      → has s.arrived i ≡ true
  Draws-settled s ending i positive l q b =
      let p = Draws-IsPrefetching window count halt fates outer s positive l in
      let (_, all) =
        subst
          (λ x.
            IsAt window count halt fates outer x s.fetches s.arrived s.signal (length s.yielded))
          q p.at in
      all i b

  -- The generator has ended, or waits for its consumer.
  abbrev pub IsResting : Place V E → Type 0
  IsResting (fetching i verdict) = ⊥
  IsResting (suspended i) = Unit
  IsResting (closing ending) = ⊥
  IsResting (closed ending) = Unit

  -- A fetch that has not settled, if there is one.
  waits_for :
      (js arrived : List ℕ)
      → ((i : ℕ) × (has js i ≡ true) × (has arrived i ≡ false))
        ⊎ ((i : ℕ) → has js i ≡ true → has arrived i ≡ true)
  waits_for [] arrived = inr (λ i h. cc)
  waits_for (j ∷ js) arrived = elim (Bool-cases (has arrived j)) [
    | inl a ↦ elim (waits_for js arrived) [
      | inl (i, h, n) ↦ inl (i, ground arith, n)
      | inr all ↦ inr (λ i h. elim (Bool-cases (j == i)) [
        | inl e ↦ ground arith
        | inr e ↦ all i (ground arith)
      ])
    ]
    | inr a ↦ inl (j, ground arith, a)
  ]

  -- At a positive window, a generator has ended or waits for its consumer, or something can happen
  -- to it without an abort of the outer signal: a fetch in flight settles, or it goes on by itself.
  pub Draws-going :
      (s : Prefetch V E)
      → 0 < window
      → Draws window count halt fates outer s
      → IsResting s.place ⊎ ((s' : Prefetch V E) × Move window count halt fates none s s')
  Draws-going s positive l = go s.place refl p.at
    where
      p : IsPrefetching window count halt fates outer s
      p = Draws-IsPrefetching window count halt fates outer s positive l

      go :
          (place : Place V E)
          → s.place ≡ place
          → IsAt window count halt fates outer place s.fetches s.arrived s.signal (length s.yielded)
          → IsResting place ⊎ ((s' : Prefetch V E) × Move window count halt fates none s s')
      go (fetching i none) q (_, b, _, n) = inr (_, settles s i b n)
      go (fetching i (some fate)) q a = inr (_, resumes s i fate q)
      go (suspended i) q a = inl tt
      go (closing ending) q a = elim (waits_for s.fetches.outstanding s.arrived) [
        | inl (i, h, n) ↦ inr (_, settles s i (p.windowed.running i h) n)
        | inr all ↦ inr (_, ends s ending q all)
      ]
      go (closed ending) q a = inl tt
