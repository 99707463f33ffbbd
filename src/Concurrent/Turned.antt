-- ===== src/Concurrent/Turned.antt =====
-- What a generator of `prefetchOrdered` (packages/async/src/concurrent.ts) keeps, and that the turns
-- of its loop keep it.
use mathlib.Core.Path.{subst}
use sozai.Common.{
  ℕ, zero, suc, ◌+◌, ◌≤◌, ◌<◌, ◌≡◌, refl, ap, sym, ◌∙◌, ◌⊎◌, inl, inr, Bool, true, false, Option,
  none, some, List, [], ◌∷◌, ◌++◌, ltb, is_some, if◌then◌else◌, arith, some_injective, Bool-cases,
}
use sozai.Common.Lists.{length, get_elem?, length-append}
use sozai.Common.Result.{Result, ok, err}
use sozai.Concurrent.{delete, has}
use sozai.Concurrent.Mapping.{or_first}
use sozai.Concurrent.Prefetch.{
  Ending, finished, returned, threw, Place, fetching, suspended, closing, closed, Fetches, Prefetch,
  fill, close, race, await, guarded, loop_turn, woken, decide_race,
}
use sozai.Concurrent.Windows.{
  IsWindowed, IsFull, fill-IsWindowed, fill-IsFull, fill_grows, taken-IsWindowed,
}

get-snoc :
    {A : Type 0} (xs : List A) (x : A) (i : ℕ) (y : A)
    → get_elem? (xs ++ (x ∷ [])) i ≡ some y
    → (get_elem? xs i ≡ some y) ⊎ ((i ≡ length xs) × (x ≡ y))
get-snoc [] x zero y h = inr (refl, some_injective h)
get-snoc [] x (suc i) y h = cc
get-snoc (z ∷ xs) x zero y h = inl h
get-snoc (z ∷ xs) x (suc i) y h = elim (get-snoc xs x i y h) [
  | inl k ↦ inl k
  | inr (e, k) ↦ inr (omega (arith, e), k)
]

module _ {V E : Type 0} (window count : ℕ) (halt : E) (fates : ℕ → Result E V)
    (outer : Option E) where
  -- How the generator may end.
  abbrev pub IsEnd : Ending E → ℕ → Type 0
  IsEnd finished n = n ≡ count
  IsEnd returned n = Unit
  IsEnd (threw e) n = (n < count) × ((fates n ≡ err e) ⊎ (outer ≡ some e))

  -- The signal is aborted by the outer one only.
  abbrev pub IsHonest : Option E → Type 0
  IsHonest signal = (e : E) → signal ≡ some e → outer ≡ some e

  -- The verdict of the race.
  abbrev pub IsRaced : List ℕ → ℕ → Option (Result E V) → Type 0
  IsRaced arrived i none = has arrived i ≡ false
  IsRaced arrived i (some (ok v)) = (fates i ≡ ok v) × (has arrived i ≡ true)
  IsRaced arrived i (some (err e)) = (fates i ≡ err e) ⊎ (outer ≡ some e)

  abbrev pub IsAt : Place V E → Fetches → List ℕ → Option E → ℕ → Type 0
  IsAt (fetching i verdict) f arrived signal n =
      (i ≡ n) × (i < f.started) × IsHonest signal × IsRaced arrived i verdict
  IsAt (suspended i) f arrived signal n = (i + 1 ≡ n) × IsHonest signal
  IsAt (closing ending) f arrived signal n = IsEnd ending n
  IsAt (closed ending) f arrived signal n =
      IsEnd ending n × ((i : ℕ) → i < f.started → has arrived i ≡ true)

  pub record IsPrefetching (s : Prefetch V E) : Type 0 where
    pub windowed : IsWindowed window count s.arrived (length s.yielded) s.fetches
    pub ahead : length s.yielded ≤ s.fetches.started
    pub full : s.signal ≡ none → IsFull window count (length s.yielded) s.fetches
    pub drawn : (i : ℕ) (v : V) → get_elem? s.yielded i ≡ some v → fates i ≡ ok v
    pub at : IsAt s.place s.fetches s.arrived s.signal (length s.yielded)

  pub close-IsPrefetching :
      (ending : Ending E) (s : Prefetch V E)
      → IsWindowed window count s.arrived (length s.yielded) s.fetches
      → length s.yielded ≤ s.fetches.started
      → ((i : ℕ) (v : V) → get_elem? s.yielded i ≡ some v → fates i ≡ ok v)
      → IsEnd ending (length s.yielded)
      → IsPrefetching (close window count halt fates ending s)
  close-IsPrefetching ending s w a d e = record {
    windowed = w;
    ahead = a;
    full = λ q. never s.signal q;
    drawn = d;
    at = e;
  }
    where
      never : {G : Type 0} (signal : Option E) → or_first signal halt ≡ none → G
      never none q = cc
      never (some x) q = cc

  race-IsRaced :
      (arrived : List ℕ) (index : ℕ)
      → IsRaced arrived index (race window count halt fates arrived index)
  race-IsRaced arrived index = go (has arrived index) refl
    where
      fate :
          (r : Result E V)
          → fates index ≡ r
          → has arrived index ≡ true
          → IsRaced arrived index (some r)
      fate (ok v) q h = (q, h)
      fate (err e) q h = inl q

      go :
          (b : Bool)
          → has arrived index ≡ b
          → IsRaced arrived index (if b then some (fates index) else none)
      go true h = fate (fates index) refl h
      go false h = h

  await-IsPrefetching :
      (s : Prefetch V E)
      → 0 < window
      → length s.yielded < count
      → s.signal ≡ none
      → IsWindowed window count s.arrived (length s.yielded) s.fetches
      → length s.yielded ≤ s.fetches.started
      → ((i : ℕ) (v : V) → get_elem? s.yielded i ≡ some v → fates i ≡ ok v)
      → IsPrefetching (await window count halt fates (length s.yielded) s)
  unfolding await
  await-IsPrefetching s positive below q w a d =
      let n = length s.yielded in
      let full = fill-IsFull window count n s.fetches in
      record {
        windowed = fill-IsWindowed window count s.arrived false n s.fetches w;
        ahead = omega (arith, a, fill_grows window count false n s.fetches);
        full = λ u. full;
        drawn = d;
        at = (
          refl,
          is_started (fill window count false n s.fetches) full,
          (λ e u. cc),
          race-IsRaced s.arrived n,
        );
      }
    where
      is_started :
          (f : Fetches) → IsFull window count (length s.yielded) f → length s.yielded < f.started
      is_started f (inl h) = omega arith
      is_started f (inr h) = omega arith

  pub loop_turn-IsPrefetching :
      (s : Prefetch V E)
      → 0 < window
      → IsHonest s.signal
      → IsWindowed window count s.arrived (length s.yielded) s.fetches
      → length s.yielded ≤ s.fetches.started
      → ((i : ℕ) (v : V) → get_elem? s.yielded i ≡ some v → fates i ≡ ok v)
      → IsPrefetching (loop_turn window count halt fates (length s.yielded) s)
  unfolding loop_turn
  loop_turn-IsPrefetching s positive honest w a d =
      elim (Bool-cases (ltb (length s.yielded) count)) [
        | inl q ↦ rw q (go s.signal refl (ground arith))
        | inr q ↦ rw q (close-IsPrefetching finished s w a d (ground (arith, w.fits)))
      ]
    where
      go :
          (signal : Option E)
          → s.signal ≡ signal
          → length s.yielded < count
          → IsPrefetching (guarded window count halt fates signal (length s.yielded) s)
      go (some reason) q h = close-IsPrefetching (threw reason) s w a d (h, inr (honest reason q))
      go none q h = await-IsPrefetching s positive h q w a d

  pub woken-IsPrefetching :
      (index : ℕ) (fate : Result E V) (s : Prefetch V E)
      → IsPrefetching s
      → s.place ≡ fetching index (some fate)
      → IsPrefetching (woken window count halt fates index fate s)
  unfolding woken
  woken-IsPrefetching index (err e) s p q =
      let (here, started, honest, decide_race) =
        subst (λ x. IsAt x s.fetches s.arrived s.signal (length s.yielded)) q p.at in
      close-IsPrefetching (threw e) s p.windowed p.ahead p.drawn (
        omega (arith, p.windowed.fits),
        subst (λ n. (fates n ≡ err e) ⊎ (outer ≡ some e)) here decide_race,
      )
  woken-IsPrefetching index (ok v) s p q =
      let (here, started, honest, (fate, arrived)) =
        subst (λ x. IsAt x s.fetches s.arrived s.signal (length s.yielded)) q p.at in
      let f : Fetches = record s.fetches { outstanding = delete s.fetches.outstanding index } in
      let w : IsWindowed window count s.arrived (index + 1) f =
        taken-IsWindowed window count s.arrived index s.fetches arrived
          (subst (λ n. IsWindowed window count s.arrived n s.fetches) (sym here) p.windowed) in
      let longer : index + 1 ≡ length (s.yielded ++ (v ∷ [])) =
        ap (λ n. n + 1) here ∙ sym (length-append s.yielded (v ∷ [])) in
      record {
        windowed =
            subst
              (λ n.
                IsWindowed window count s.arrived n
                  (fill window count (is_some s.signal) (index + 1) f))
              longer (fill-IsWindowed window count s.arrived (is_some s.signal) (index + 1) f w);
        ahead =
            omega
              (arith, longer, started, fill_grows window count (is_some s.signal) (index + 1) f);
        full = λ u.
            subst (λ n. IsFull window count n (fill window count (is_some s.signal) (index + 1) f))
              longer (rw u (fill-IsFull window count (index + 1) f));
        drawn = λ i x g. elim (get-snoc s.yielded v i x g) [
          | inl k ↦ p.drawn i x k
          | inr (k, e) ↦ ap fates (k ∙ sym here) ∙ fate ∙ ap ok e
        ];
        at = (longer, honest);
      }
