-- ===== src/Concurrent/Windows.antt =====
-- What `start` of `prefetchOrdered` (packages/async/src/concurrent.ts) does to the fetches: it fills
-- the window, and each fetch that started is outstanding or has settled.
use sozai.Common.{
  ℕ, zero, suc, ◌+◌, ◌-◌, ◌≤◌, ◌<◌, ◌≡◌, ◌≢◌, refl, ◌⊎◌, inl, inr, Bool, true, false, List, ◌∷◌,
  ltb, ◌==◌, if◌then◌else◌, ◌&&◌, not, arith, Bool-cases,
}
use sozai.Concurrent.{delete, has}
use sozai.Concurrent.Slots.{has-delete, has-delete_other}
use sozai.Concurrent.Prefetch.{Fetches, fetch_next, fill_rounds, fill}

module _ (window count : ℕ) where
  -- The fetches of a generator that has yielded so many values.
  pub record IsWindowed (arrived : List ℕ) (yielded : ℕ) (f : Fetches) : Type 0 where
    pub fits : f.started ≤ count
    pub near : f.started ≤ yielded + window
    pub kept : (i : ℕ) → i < f.started → (has f.outstanding i ≡ true) ⊎ (has arrived i ≡ true)
    pub running : (i : ℕ) → has f.outstanding i ≡ true → i < f.started

  abbrev pub IsFull : ℕ → Fetches → Type 0
  IsFull yielded f = (count ≤ f.started) ⊎ (yielded + window ≤ f.started)

  next-IsWindowed :
      (arrived : List ℕ) (yielded : ℕ) (f : Fetches)
      → f.started < count
      → f.started < yielded + window
      → IsWindowed arrived yielded f
      → IsWindowed arrived yielded (fetch_next f)
  next-IsWindowed arrived yielded f c n w = record {
    fits = omega arith;
    near = omega arith;
    running = λ i h. elim (Bool-cases (f.started == i)) [
      | inl e ↦ ground arith
      | inr e ↦ omega (arith, w.running i (ground arith))
    ];
    kept = λ i h. elim (Bool-cases (f.started == i)) [
      | inl e ↦ inl (ground arith)
      | inr e ↦ still i (f.started == i) (w.kept i (ground arith))
    ];
  }
    where
      still :
          (i : ℕ) (b : Bool)
          → (has f.outstanding i ≡ true) ⊎ (has arrived i ≡ true)
          → ((if b then true else has f.outstanding i) ≡ true) ⊎ (has arrived i ≡ true)
      still i true x = inl refl
      still i false x = x

  rounds-IsWindowed :
      (k : ℕ) (arrived : List ℕ) (aborted : Bool) (yielded : ℕ) (f : Fetches)
      → IsWindowed arrived yielded f
      → IsWindowed arrived yielded (fill_rounds k window count aborted yielded f)
  unfolding fill_rounds
  rounds-IsWindowed zero arrived aborted yielded f w = w
  rounds-IsWindowed (suc k) arrived aborted yielded f w =
      elim (Bool-cases (ltb f.started count && ltb f.started (yielded + window) && not aborted)) [
        | inl q ↦ rw q (
            rounds-IsWindowed k arrived aborted yielded (fetch_next f)
              (next-IsWindowed arrived yielded f (ground arith) (ground arith) w))
        | inr q ↦ rw q w
      ]

  rounds-IsFull :
      (k yielded : ℕ) (f : Fetches)
      → count ≤ f.started + k
      → IsFull yielded (fill_rounds k window count false yielded f)
  unfolding fill_rounds
  rounds-IsFull zero yielded f h = inl (omega arith)
  rounds-IsFull (suc k) yielded f h =
      elim (Bool-cases (ltb f.started count && ltb f.started (yielded + window) && not false)) [
        | inl q ↦ rw q (rounds-IsFull k yielded (fetch_next f) (omega arith))
        | inr q ↦ rw q (ground arith)
      ]

  rounds_grow :
      (k : ℕ) (aborted : Bool) (yielded : ℕ) (f : Fetches)
      → f.started ≤ (fill_rounds k window count aborted yielded f).started
  unfolding fill_rounds
  rounds_grow zero aborted yielded f = omega arith
  rounds_grow (suc k) aborted yielded f =
      ground (arith, rounds_grow k aborted yielded (fetch_next f))

  pub fill-IsWindowed :
      (arrived : List ℕ) (aborted : Bool) (yielded : ℕ) (f : Fetches)
      → IsWindowed arrived yielded f
      → IsWindowed arrived yielded (fill window count aborted yielded f)
  fill-IsWindowed arrived aborted yielded f w =
      rounds-IsWindowed (count - f.started) arrived aborted yielded f w

  pub fill-IsFull : (yielded : ℕ) (f : Fetches) → IsFull yielded (fill window count false yielded f)
  fill-IsFull yielded f = rounds-IsFull (count - f.started) yielded f (omega arith)

  pub fill_grows :
      (aborted : Bool) (yielded : ℕ) (f : Fetches)
      → f.started ≤ (fill window count aborted yielded f).started
  fill_grows aborted yielded f = rounds_grow (count - f.started) aborted yielded f

  -- The next value is taken.
  pub taken-IsWindowed :
      (arrived : List ℕ) (yielded : ℕ) (f : Fetches)
      → has arrived yielded ≡ true
      → IsWindowed arrived yielded f
      → IsWindowed arrived (yielded + 1) (record f { outstanding = delete f.outstanding yielded })
  taken-IsWindowed arrived yielded f a w = record {
    fits = w.fits;
    near = omega (arith, w.near);
    running = λ i h. w.running i (has-delete f.outstanding yielded i h);
    kept = λ i h. elim (Bool-cases (yielded == i)) [
      | inl e ↦ inr (ground arith)
      | inr e ↦ other i (ground arith) (w.kept i h)
    ];
  }
    where
      other :
          (i : ℕ)
          → yielded ≢ i
          → (has f.outstanding i ≡ true) ⊎ (has arrived i ≡ true)
          → (has (delete f.outstanding yielded) i ≡ true) ⊎ (has arrived i ≡ true)
      other i d (inl k) = inl (has-delete_other f.outstanding yielded i d k)
      other i d (inr k) = inr k

  -- A fetch settles.
  pub arrived-IsWindowed :
      (arrived : List ℕ) (index yielded : ℕ) (f : Fetches)
      → IsWindowed arrived yielded f
      → IsWindowed (index ∷ arrived) yielded f
  arrived-IsWindowed arrived index yielded f w = record {
    fits = w.fits;
    near = w.near;
    running = w.running;
    kept = λ i h. later i (w.kept i h);
  }
    where
      later :
          (i : ℕ)
          → (has f.outstanding i ≡ true) ⊎ (has arrived i ≡ true)
          → (has f.outstanding i ≡ true) ⊎ (has (index ∷ arrived) i ≡ true)
      later i (inl k) = inl k
      later i (inr k) = inr (ground arith)
