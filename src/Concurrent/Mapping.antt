-- ===== src/Concurrent/Mapping.antt =====
-- packages/async/src/concurrent.ts, `mapConcurrent`: a map over a list of items with a bound on the
-- calls in flight. `answer i` is what the call on the item at index `i` answers, whenever it does; a
-- call does not abort the outer signal while it starts.
use sozai.Common.{
  ℕ, zero, suc, ◌+◌, ◌≡◌, min, true, Option, none, some, List, [], ◌∷◌, ltb, is_some, if◌then◌else◌,
  ◌&&◌, not,
}
use sozai.Common.Result.{Result, ok, err}
use sozai.Concurrent.{set_at, delete, has}

-- The variables of `mapConcurrent` over `count` items. `awaited`: the index that each worker awaits;
-- a worker that has returned awaits none. `signal`: the reason of the outer signal, once it is
-- aborted. `settled`: how the promise has settled.
pub record Mapping (R E : Type 0) : Type 0 where
  pub count : ℕ
  pub results : List (Option R)
  pub failure : Option E
  pub next : ℕ
  pub awaited : List ℕ
  pub signal : Option E
  pub settled : Option (Result E (List (Option R)))

abbrev pub or_first {ℓ} : {A : Type ℓ} → Option A → A → Option A
or_first none x = some x
or_first (some first) x = some first

abbrev pub holes : (R : Type 0) → ℕ → List (Option R)
holes R zero = []
holes R (suc n) = none ∷ holes R n

module _ {R E : Type 0} where
  -- The first failure is kept.
  abbrev pub fail : E → Mapping R E → Mapping R E
  fail e m = record m { failure = or_first m.failure e }

  abbrev pub take_next : Mapping R E → Mapping R E
  take_next m = record m { next = m.next + 1; awaited = m.next ∷ m.awaited }

  -- A turn of a worker's loop: it starts a call, or returns.
  unfoldable pub work : Mapping R E → Mapping R E
  work m = if not (is_some m.failure) && ltb m.next m.count then take_next m else m

  unfoldable pub work_all : ℕ → Mapping R E → Mapping R E
  unfolding work
  work_all zero m = m
  work_all (suc k) m = work_all k (work m)

  -- The call that a worker awaits settles.
  unfoldable pub call_settled : ℕ → Result E R → Mapping R E → Mapping R E
  unfolding work set_at delete
  call_settled index (ok v) m =
      work
        (record m { results = set_at m.results index (some v); awaited = delete m.awaited index })
  call_settled index (err e) m = fail e (record m { awaited = delete m.awaited index })

  abbrev pub unmapped : ℕ → Option E → Mapping R E
  unmapped n reason = record {
    count = n;
    results = holes R n;
    failure = reason;
    next = 0;
    awaited = [];
    signal = reason;
    settled = none;
  }

  -- The start; `reason`: the outer signal's, where it is aborted already.
  unfoldable pub map_concurrent : ℕ → ℕ → Option E → Mapping R E
  unfolding work_all
  map_concurrent limit n reason = work_all (min limit n) (unmapped n reason)

  abbrev pub signalled : E → Mapping R E → Mapping R E
  signalled reason m = fail reason (record m { signal = some reason })

  abbrev pub conclusion : Option E → List (Option R) → Result E (List (Option R))
  conclusion none results = ok results
  conclusion (some e) results = err e

  -- `Promise.all` of the workers has resolved.
  abbrev pub conclude : Mapping R E → Mapping R E
  conclude m = record m { settled = some (conclusion m.failure m.results) }

  pub data Progress (answer : ℕ → Result E R) : Mapping R E → Mapping R E → Type 0 where
    settles :
        (m : Mapping R E) (index : ℕ)
        → has m.awaited index ≡ true
        → Progress answer m (call_settled index (answer index) m)
    aborts :
        (m : Mapping R E) (reason : E)
        → m.signal ≡ none
        → m.settled ≡ none
        → Progress answer m (signalled reason m)
    concludes :
        (m : Mapping R E) → m.awaited ≡ [] → m.settled ≡ none → Progress answer m (conclude m)

  pub data Reaches (answer : ℕ → Result E R) (limit n : ℕ) : Mapping R E → Type 0 where
    begins : (reason : Option E) → Reaches answer limit n (map_concurrent limit n reason)
    then_step :
        (m m' : Mapping R E)
        → Reaches answer limit n m
        → Progress answer m m'
        → Reaches answer limit n m'
