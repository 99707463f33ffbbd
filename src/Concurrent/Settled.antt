-- ===== src/Concurrent/Settled.antt =====
-- The promise of `mapConcurrent` (packages/async/src/concurrent.ts) settles as a sequential map says.
use mathlib.Core.Path.{subst}
use sozai.Common.{
  ℕ, zero, suc, ◌<◌, ◌≡◌, refl, ap, sym, ◌∙◌, ◌⊎◌, inl, inr, min, true, Option, none, some, [],
  arith,
}
use sozai.Common.Lists.{length}
use sozai.Common.Result.{Result, ok, err}
use sozai.Concurrent.{has}
use sozai.Concurrent.Mapping.{
  Mapping, or_first, holes, work, work_all, unmapped, map_concurrent, signalled, conclusion,
  conclude, Progress, settles, aborts, concludes, Reaches, begins, then_step,
}
use sozai.Concurrent.Mapped.{
  collect_placed, IsPlaced, IsMapped, IsMapping, work-IsMapping, settled-IsMapping,
}

length-holes : (R : Type 0) (n : ℕ) → length (holes R n) ≡ n
length-holes R zero = refl
length-holes R (suc n) = ap (λ k. suc k) (length-holes R n)

module _ {R E : Type 0} (answer : ℕ → Result E R) where
  signalled-IsMapping :
      (n : ℕ) (reason : E) (m : Mapping R E)
      → IsMapping answer n m
      → m.signal ≡ none
      → m.settled ≡ none
      → IsMapping answer n (signalled reason m)
  signalled-IsMapping n reason m o fresh open_still = record {
    count = o.count;
    size = o.size;
    next_fits = o.next_fits;
    started = o.started;
    placed = λ i u. some_first m.failure u;
    busy = λ u. some_first m.failure u;
    failed = λ y q. first m.failure refl y q;
    mapped = subst (λ x. IsMapped answer n (some reason) x) (sym open_still) tt;
  }
    where
      some_first : {G : Type 0} (f : Option E) → or_first f reason ≡ none → G
      some_first none u = cc
      some_first (some y) u = cc

      earlier :
          (y : E)
          → ((i : ℕ) × (i < n) × (answer i ≡ err y)) ⊎ (m.signal ≡ some y)
          → ((i : ℕ) × (i < n) × (answer i ≡ err y)) ⊎ (some reason ≡ some y)
      earlier y (inl x) = inl x
      earlier y (inr q) = ground arith

      first :
          (f : Option E)
          → m.failure ≡ f
          → (y : E) → or_first f reason ≡ some y
          → ((i : ℕ) × (i < n) × (answer i ≡ err y)) ⊎ (some reason ≡ some y)
      first none u y q = inr q
      first (some z) u y q = earlier y (o.failed y (u ∙ q))

  conclude-IsMapping :
      (n : ℕ) (m : Mapping R E)
      → IsMapping answer n m
      → m.awaited ≡ []
      → IsMapping answer n (conclude m)
  conclude-IsMapping n m o idle = record {
    count = o.count;
    size = o.size;
    next_fits = o.next_fits;
    started = o.started;
    placed = o.placed;
    busy = o.busy;
    failed = o.failed;
    mapped = go m.failure refl;
  }
    where
      there :
          (i : ℕ)
          → (has m.awaited i ≡ true) ⊎ IsPlaced answer m.results i
          → IsPlaced answer m.results i
      there i (inl k) = ground arith
      there i (inr p) = p

      all : m.failure ≡ none → m.next ≡ n
      all u = elim (o.busy u) [ inl e ↦ e | inr b ↦ ground arith ]

      go :
          (f : Option E)
          → m.failure ≡ f
          → IsMapped answer n m.signal (some (conclusion f m.results))
      go none u = collect_placed answer 0 n m.results o.size (λ j b.
          let (v, a, g) = there j (o.placed j u (omega (arith, all u))) in
          (v, subst (λ l. answer l ≡ ok v) (omega arith) a, g))
      go (some e) u = o.failed e u

  started-IsMapping :
      (n k : ℕ) (m : Mapping R E) → IsMapping answer n m → IsMapping answer n (work_all k m)
  unfolding work_all
  started-IsMapping n zero m o = o
  started-IsMapping n (suc k) m o =
      started-IsMapping n k (work m)
        (work-IsMapping answer n m o.count o.size o.next_fits o.started o.placed o.failed o.mapped)

  begin-IsMapping :
      (limit n : ℕ) (reason : Option E)
      → 0 < limit
      → IsMapping answer n (map_concurrent limit n reason)
  unfolding map_concurrent work_all
  begin-IsMapping limit n reason pos = go (min limit n) refl
    where
      go : (k : ℕ) → min limit n ≡ k → IsMapping answer n (work_all k (unmapped n reason))
      go zero e = record {
        count = refl;
        size = length-holes R n;
        next_fits = omega arith;
        started = λ i h. ground arith;
        placed = λ i u h. ground arith;
        busy = λ u. inl (omega (arith, e, pos));
        failed = λ y q. inr q;
        mapped = tt;
      }
      go (suc k) e = started-IsMapping n k (work (unmapped n reason)) (
          work-IsMapping answer n (unmapped n reason) refl (length-holes R n) (omega arith)
            (λ i h. ground arith) (λ i u h. ground arith) (λ y q. inr q) tt)

  Progress-IsMapping :
      (n : ℕ) (m m' : Mapping R E)
      → IsMapping answer n m
      → Progress answer m m'
      → IsMapping answer n m'
  Progress-IsMapping n m m' o (settles m1 index live) =
      settled-IsMapping answer n index (answer index) m1 refl o live
  Progress-IsMapping n m m' o (aborts m1 reason fresh open_still) =
      signalled-IsMapping n reason m1 o fresh open_still
  Progress-IsMapping n m m' o (concludes m1 idle open_still) = conclude-IsMapping n m1 o idle

  Reaches-IsMapping :
      (limit n : ℕ) (m : Mapping R E) → 0 < limit → Reaches answer limit n m → IsMapping answer n m
  Reaches-IsMapping limit n m pos (begins reason) = begin-IsMapping limit n reason pos
  Reaches-IsMapping limit n m pos (then_step m0 m1 h step) =
      Progress-IsMapping n m0 m1 (Reaches-IsMapping limit n m0 pos h) step

  -- However the calls of `mapConcurrent` interleave, at a positive limit, its promise resolves only
  -- with the results of a sequential map of the same answers, in the order of the items, and
  -- rejects only with the error of an item's call or the reason of the outer signal.
  pub Reaches-IsMapped :
      (limit n : ℕ) (m : Mapping R E)
      → 0 < limit
      → Reaches answer limit n m
      → IsMapped answer n m.signal m.settled
  Reaches-IsMapped limit n m pos h = (Reaches-IsMapping limit n m pos h).mapped
