-- ===== src/Concurrent/Mapped.antt =====
-- However its calls interleave, `mapConcurrent` (packages/async/src/concurrent.ts) resolves with what a
-- sequential map gives, in the order of the items.
use mathlib.Core.Path.{subst}
use sozai.Common.{
  ℕ, zero, suc, ◌+◌, ◌≤◌, ◌<◌, ◌≡◌, ◌≢◌, refl, ap, sym, ◌∙◌, ◌⊎◌, inl, inr, Bool, true, false,
  Option, none, some, List, [], ◌∷◌, ltb, ◌==◌, is_some, if◌then◌else◌, ◌&&◌, not, arith,
  some_injective, Bool-cases,
}
use sozai.Common.Lists.{length, get_elem?}
use sozai.Common.Result.{Result, ok, err, ◌>>=◌}
use sozai.Concurrent.{set_at, delete, has}
use sozai.Concurrent.Slots.{
  length-set_at, set_at_there, set_at_elsewhere, has-delete, has-delete_other,
}
use sozai.Concurrent.Mapping.{Mapping, or_first, take_next, work, call_settled}

in_range : {A : Type 0} (xs : List A) (i : ℕ) → i < length xs → (x : A) × (get_elem? xs i ≡ some x)
in_range [] i h = ground arith
in_range (x ∷ xs) zero h = (x, refl)
in_range (x ∷ xs) (suc i) h = in_range xs i (omega arith)

module _ {R E : Type 0} (answer : ℕ → Result E R) where
  -- The sequential map over `k` items from index `i` on.
  abbrev pub collect : ℕ → ℕ → Result E (List (Option R))
  collect i zero = ok []
  collect i (suc k) = answer i >>= λ v. collect (i + 1) k >>= λ rest. ok (some v ∷ rest)

  -- The call on the item has answered, and its result is in its place.
  abbrev pub IsPlaced : List (Option R) → ℕ → Type 0
  IsPlaced results i = (v : R) × (answer i ≡ ok v) × (get_elem? results i ≡ some (some v))

  pub collect_placed :
      (i k : ℕ) (rs : List (Option R))
      → length rs ≡ k
      → ((j : ℕ) → j < k → (v : R) × (answer (i + j) ≡ ok v) × (get_elem? rs j ≡ some (some v)))
      → collect i k ≡ ok rs
  collect_placed i zero [] size placed = refl
  collect_placed i zero (r ∷ rs) size placed = ground arith
  collect_placed i (suc k) [] size placed = ground arith
  collect_placed i (suc k) (r ∷ rs) size placed =
      let (v, a, g) = placed 0 (omega arith) in
      let here : answer i ≡ ok v = subst (λ j. answer j ≡ ok v) (omega arith) a in
      let rest : collect (i + 1) k ≡ ok rs = collect_placed (i + 1) k rs (omega arith) (λ j b.
        let (w, a, g) = placed (suc j) (omega arith) in
        (w, subst (λ l. answer l ≡ ok w) (omega arith) a, g)) in
      rw (here, rest) (ap (λ x. ok (x ∷ rs)) (sym (some_injective g)))

  -- What the promise may settle with.
  abbrev pub IsMapped : ℕ → Option E → Option (Result E (List (Option R))) → Type 0
  IsMapped n signal none = Unit
  IsMapped n signal (some (ok rs)) = collect 0 n ≡ ok rs
  IsMapped n signal (some (err e)) = ((i : ℕ) × (i < n) × (answer i ≡ err e)) ⊎ (signal ≡ some e)

  pub record IsMapping (n : ℕ) (m : Mapping R E) : Type 0 where
    pub count : m.count ≡ n
    pub size : length m.results ≡ n
    pub next_fits : m.next ≤ n
    pub started : (i : ℕ) → has m.awaited i ≡ true → i < m.next
    pub placed :
        (i : ℕ) → m.failure ≡ none → i < m.next → (has m.awaited i ≡ true) ⊎ IsPlaced m.results i
    pub busy : m.failure ≡ none → (m.next ≡ n) ⊎ (0 < length m.awaited)
    pub failed :
        (e : E)
        → m.failure ≡ some e
        → ((i : ℕ) × (i < n) × (answer i ≡ err e)) ⊎ (m.signal ≡ some e)
    pub mapped : IsMapped n m.signal m.settled

  -- The invariant but for `busy`.
  pub work-IsMapping :
      (n : ℕ) (m : Mapping R E)
      → m.count ≡ n
      → length m.results ≡ n
      → m.next ≤ n
      → ((i : ℕ) → has m.awaited i ≡ true → i < m.next)
      → ((i : ℕ) → m.failure ≡ none → i < m.next → (has m.awaited i ≡ true) ⊎ IsPlaced m.results i)
      → ((e : E)
          → m.failure ≡ some e
          → ((i : ℕ) × (i < n) × (answer i ≡ err e)) ⊎ (m.signal ≡ some e))
      → IsMapped n m.signal m.settled
      → IsMapping n (work m)
  unfolding work
  work-IsMapping n m c z f s p e d = go (not (is_some m.failure) && ltb m.next m.count) refl
    where
      still :
          {i : ℕ} (b : Bool)
          → (has m.awaited i ≡ true) ⊎ IsPlaced m.results i
          → ((if b then true else has m.awaited i) ≡ true) ⊎ IsPlaced m.results i
      still true x = inl refl
      still false x = x

      go :
          (b : Bool)
          → (not (is_some m.failure) && ltb m.next m.count) ≡ b
          → IsMapping n (if b then take_next m else m)
      go true q = record {
        count = c;
        size = z;
        next_fits = ground arith;
        started = λ i h. elim (Bool-cases (m.next == i)) [
          | inl k ↦ ground arith
          | inr k ↦ omega (arith, s i (ground arith))
        ];
        placed = λ i u h. elim (Bool-cases (m.next == i)) [
          | inl k ↦ inl (ground arith)
          | inr k ↦ still (m.next == i) (p i u (ground arith))
        ];
        busy = λ u. inr (omega arith);
        failed = e;
        mapped = d;
      }
      go false q = record {
        count = c;
        size = z;
        next_fits = f;
        started = s;
        placed = p;
        busy = λ u. inl (ground arith);
        failed = e;
        mapped = d;
      }

  pub settled-IsMapping :
      (n index : ℕ) (a : Result E R) (m : Mapping R E)
      → answer index ≡ a
      → IsMapping n m
      → has m.awaited index ≡ true
      → IsMapping n (call_settled index a m)
  unfolding call_settled
  settled-IsMapping n index (ok v) m e o h =
      let m1 : Mapping R E = record m {
        results = set_at m.results index (some v);
        awaited = delete m.awaited index;
      } in
      let (old, was) =
        in_range m.results index (omega (arith, o.started index h, o.next_fits, o.size)) in
      work-IsMapping n m1 o.count (length-set_at m.results index (some v) ∙ o.size) o.next_fits
        (λ i k. o.started i (has-delete m.awaited index i k))
        (λ i u b. elim (Bool-cases (index == i)) [
          | inl q ↦ inr (
              subst (IsPlaced (set_at m.results index (some v))) (ground arith)
                (v, e, set_at_there m.results index old (some v) was))
          | inr q ↦ other v i (ground arith) (o.placed i u b)
        ])
        o.failed o.mapped
    where
      other :
          (v : R) (i : ℕ)
          → index ≢ i
          → (has m.awaited i ≡ true) ⊎ IsPlaced m.results i
          → (has (delete m.awaited index) i ≡ true) ⊎ IsPlaced (set_at m.results index (some v)) i
      other v i d (inl k) = inl (has-delete_other m.awaited index i d k)
      other v i d (inr (w, a, g)) = inr (w, a, set_at_elsewhere m.results index i (some v) d ∙ g)
  settled-IsMapping n index (err x) m e o h = record {
    count = o.count;
    size = o.size;
    next_fits = o.next_fits;
    started = λ i k. o.started i (has-delete m.awaited index i k);
    placed = λ i u. some_first m.failure u;
    busy = λ u. some_first m.failure u;
    failed = λ y q. first m.failure refl y q;
    mapped = o.mapped;
  }
    where
      some_first : {G : Type 0} (f : Option E) → or_first f x ≡ none → G
      some_first none u = cc
      some_first (some y) u = cc

      first :
          (f : Option E)
          → m.failure ≡ f
          → (y : E) → or_first f x ≡ some y
          → ((i : ℕ) × (i < n) × (answer i ≡ err y)) ⊎ (m.signal ≡ some y)
      first none u y q =
          inl (index, omega (arith, o.started index h, o.next_fits), e ∙ ap err (some_injective q))
      first (some z) u y q = o.failed y (u ∙ q)
