-- ===== src/Concurrent/Moved.antt =====
-- Whatever happens to it, a generator of `prefetchOrdered` (packages/async/src/concurrent.ts) keeps
-- its invariant.
use mathlib.Core.Path.{subst}
use sozai.Common.{
  ℕ, ◌<◌, ◌≡◌, refl, sym, ◌∙◌, inl, inr, Bool, true, false, Option, none, some, ◌∷◌, ◌==◌,
  if◌then◌else◌, arith,
}
use sozai.Common.Lists.{length}
use sozai.Common.Result.{Result, ok, err}
use sozai.Concurrent.{has}
use sozai.Concurrent.Prefetch.{
  Ending, returned, Place, fetching, suspended, closing, closed, Prefetch, loop_turn, unrequested,
  prefetch_ordered, decide_race, arrives, lost_race, interrupted, end_at, Move, settles, aborts,
  resumes, asks_next, asks_return, ends, Draws, opens, opens_aborted, then_move,
}
use sozai.Concurrent.Windows.{arrived-IsWindowed}
use sozai.Concurrent.Turned.{
  IsHonest, IsRaced, IsAt, IsPrefetching, close-IsPrefetching, loop_turn-IsPrefetching,
  woken-IsPrefetching,
}

module _ {V E : Type 0} (window count : ℕ) (halt : E) (fates : ℕ → Result E V)
    (outer : Option E) where
  arrives-IsPrefetching :
      (index : ℕ) (s : Prefetch V E)
      → IsPrefetching window count halt fates outer s
      → IsPrefetching window count halt fates outer (arrives window count halt fates index s)
  arrives-IsPrefetching index s p = record {
    windowed =
        arrived-IsWindowed window count s.arrived index (length s.yielded) s.fetches p.windowed;
    ahead = p.ahead;
    full = p.full;
    drawn = p.drawn;
    at = still s.place p.at;
  }
    where
      later : (i : ℕ) → has s.arrived i ≡ true → has (index ∷ s.arrived) i ≡ true
      later i h = ground arith

      fate :
          (i : ℕ) (r : Result E V)
          → fates i ≡ r
          → index ≡ i
          → IsRaced window count halt fates outer (index ∷ s.arrived) i (some r)
      fate i (ok v) q e = (q, ground arith)
      fate i (err x) q e = inl q

      still :
          (place : Place V E)
          → IsAt window count halt fates outer place s.fetches s.arrived s.signal (length s.yielded)
          → IsAt window count halt fates outer
              (decide_race window count halt fates index place)
              s.fetches
              (index ∷ s.arrived)
              s.signal
              (length s.yielded)
      still (fetching i none) (e, b, h, r) = go (index == i) refl
        where
          go :
              (b : Bool)
              → (index == i) ≡ b
              → IsAt window count halt fates outer
                  (if b then fetching i (some (fates i)) else fetching i none)
                  s.fetches
                  (index ∷ s.arrived)
                  s.signal
                  (length s.yielded)
          go true q = (e, b, h, fate i (fates i) refl (ground arith))
          go false q = (e, b, h, ground arith)
      still (fetching i (some (ok v))) (e, b, h, (q, a)) = (e, b, h, (q, later i a))
      still (fetching i (some (err x))) a = a
      still (suspended i) a = a
      still (closing ending) a = a
      still (closed ending) (e, a) = (e, λ i h. later i (a i h))

  interrupted-IsPrefetching :
      (reason : E) (s : Prefetch V E)
      → outer ≡ some reason
      → IsPrefetching window count halt fates outer s
      → IsPrefetching window count halt fates outer (interrupted window count halt fates reason s)
  interrupted-IsPrefetching reason s o p = record {
    windowed = p.windowed;
    ahead = p.ahead;
    full = λ q. cc;
    drawn = p.drawn;
    at = still s.place p.at;
  }
    where
      honest : IsHonest window count halt fates outer (some reason)
      honest e q = o ∙ q

      still :
          (place : Place V E)
          → IsAt window count halt fates outer place s.fetches s.arrived s.signal (length s.yielded)
          → IsAt window count halt fates outer
              (lost_race window count halt fates reason place)
              s.fetches
              s.arrived
              (some reason)
              (length s.yielded)
      still (fetching i none) (e, b, h, r) = (e, b, honest, inr o)
      still (fetching i (some v)) (e, b, h, r) = (e, b, honest, r)
      still (suspended i) (e, h) = (e, honest)
      still (closing ending) a = a
      still (closed ending) a = a

  end_at-IsPrefetching :
      (ending : Ending E) (s : Prefetch V E)
      → s.place ≡ closing ending
      → ((i : ℕ) → has s.fetches.outstanding i ≡ true → has s.arrived i ≡ true)
      → IsPrefetching window count halt fates outer s
      → IsPrefetching window count halt fates outer (end_at window count halt fates ending s)
  end_at-IsPrefetching ending s q all p = record {
    windowed = p.windowed;
    ahead = p.ahead;
    full = p.full;
    drawn = p.drawn;
    at = (
      subst
          (λ x.
            IsAt window count halt fates outer x s.fetches s.arrived s.signal (length s.yielded))
          q p.at,
      λ i h. elim (p.windowed.kept i h) [ inl k ↦ all i k | inr k ↦ k ],
    );
  }

  opened-IsPrefetching :
      (reason : Option E)
      → 0 < window
      → IsHonest window count halt fates outer reason
      → IsPrefetching window count halt fates outer
          (prefetch_ordered window count halt fates reason)
  unfolding prefetch_ordered
  opened-IsPrefetching reason positive h =
      loop_turn-IsPrefetching window count halt fates outer
        (unrequested window count halt fates reason) positive h
        (record {
          fits = omega arith;
          near = omega arith;
          kept = λ i b. absurd (omega arith);
          running = λ i b. cc;
        })
        (omega arith) (λ i v g. cc)

  moved-IsPrefetching :
      (s s' : Prefetch V E)
      → 0 < window
      → Move window count halt fates outer s s'
      → IsPrefetching window count halt fates outer s
      → IsPrefetching window count halt fates outer s'
  moved-IsPrefetching s _ positive (settles _ index b n) p = arrives-IsPrefetching index s p
  moved-IsPrefetching s _ positive (aborts _ reason o n) p = interrupted-IsPrefetching reason s o p
  moved-IsPrefetching s _ positive (resumes _ index fate q) p =
      woken-IsPrefetching window count halt fates outer index fate s p q
  moved-IsPrefetching s _ positive (asks_next _ index q) p =
      let (here, honest) =
        subst
          (λ x.
            IsAt window count halt fates outer x s.fetches s.arrived s.signal (length s.yielded))
          q p.at in
      subst
        (λ n. IsPrefetching window count halt fates outer (loop_turn window count halt fates n s))
        (sym here)
        (loop_turn-IsPrefetching window count halt fates outer s positive honest p.windowed p.ahead
          p.drawn)
  moved-IsPrefetching s _ positive (asks_return _ index q) p =
      close-IsPrefetching window count halt fates outer returned s p.windowed p.ahead p.drawn tt
  moved-IsPrefetching s _ positive (ends _ ending q all) p = end_at-IsPrefetching ending s q all p

  pub Draws-IsPrefetching :
      (s : Prefetch V E)
      → 0 < window
      → Draws window count halt fates outer s
      → IsPrefetching window count halt fates outer s
  Draws-IsPrefetching _ positive opens = opened-IsPrefetching none positive (λ e q. cc)
  Draws-IsPrefetching _ positive (opens_aborted reason o) =
      opened-IsPrefetching (some reason) positive (λ e q. o ∙ q)
  Draws-IsPrefetching s' positive (then_move s _ l m) =
      moved-IsPrefetching s s' positive m (Draws-IsPrefetching s positive l)
