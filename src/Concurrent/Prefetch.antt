-- ===== src/Concurrent/Prefetch.antt =====
-- packages/async/src/concurrent.ts, `prefetchOrdered`: a generator that yields what fetches give, in
-- the order of their indices, and starts some ahead. `fates i` is what the fetch at index `i`
-- settles with, whenever it does; a fetch does not abort the outer signal while it starts, and the
-- consumer asks for the next value or returns, but does not throw into the generator.
use sozai.Common.{
  ℕ, zero, suc, ◌+◌, ◌-◌, ◌<◌, ◌≡◌, Bool, true, false, Option, none, some, List, [], ◌∷◌, ◌++◌, ltb,
  ◌==◌, is_some, if◌then◌else◌, ◌&&◌, not,
}
use sozai.Common.Result.{Result, ok, err}
use sozai.Concurrent.{delete, has}
use sozai.Concurrent.Mapping.{or_first}

-- How the generator ends: past the last index, by the consumer's `return`, or by a throw.
pub data Ending (E : Type 0) : Type 0 where
  finished returned : Ending E
  threw : E → Ending E

-- Where the generator stands: it awaits the fetch at an index, and the race with the abort may be
-- decided already; it is suspended after it yielded what an index gave; or it awaits the outstanding
-- fetches.
pub data Place (V E : Type 0) : Type 0 where
  fetching : ℕ → Option (Result E V) → Place V E
  suspended : ℕ → Place V E
  closing closed : Ending E → Place V E

-- `outstanding`: the keys of the map `pending`.
pub record Fetches : Type 0 where
  pub started : ℕ
  pub outstanding : List ℕ

-- `arrived`: the fetches that have settled; `signal`: the reason of the controller's signal, once it
-- is aborted; `yielded`: all that the generator has yielded.
pub record Prefetch (V E : Type 0) : Type 0 where
  pub fetches : Fetches
  pub arrived : List ℕ
  pub signal : Option E
  pub yielded : List V
  pub place : Place V E

abbrev pub fetch_next : Fetches → Fetches
fetch_next f = record { started = f.started + 1; outstanding = f.started ∷ f.outstanding }

-- The loop of `start`, which runs at most once for each index that is left.
unfoldable pub fill_rounds : ℕ → ℕ → ℕ → Bool → ℕ → Fetches → Fetches
fill_rounds zero window count aborted yielded f = f
fill_rounds (suc k) window count aborted yielded f =
    let more = fill_rounds k window count aborted yielded (fetch_next f) in
    if ltb f.started count && ltb f.started (yielded + window) && not aborted then more else f

abbrev pub fill : ℕ → ℕ → Bool → ℕ → Fetches → Fetches
fill window count aborted yielded f = fill_rounds (count - f.started) window count aborted yielded f

-- `halt`: what `abort` without a reason gives the signal.
module _ {V E : Type 0} (window count : ℕ) (halt : E) (fates : ℕ → Result E V) where
  -- The `finally` block, up to the wait.
  abbrev pub close : Ending E → Prefetch V E → Prefetch V E
  close ending s = record s { signal = or_first s.signal halt; place = closing ending }

  -- The race between the fetch and the abort, as it stands when it begins.
  abbrev pub race : List ℕ → ℕ → Option (Result E V)
  race arrived index = if has arrived index then some (fates index) else none

  unfoldable pub await : ℕ → Prefetch V E → Prefetch V E
  unfolding fill_rounds
  await index s = record s {
    fetches = fill window count false index s.fetches;
    place = fetching index (race s.arrived index);
  }

  abbrev pub guarded : Option E → ℕ → Prefetch V E → Prefetch V E
  guarded (some reason) index s = close (threw reason) s
  guarded none index s = await index s

  -- The head of the loop over the indices, up to the wait.
  unfoldable pub loop_turn : ℕ → Prefetch V E → Prefetch V E
  unfolding await
  loop_turn index s = if ltb index count then guarded s.signal index s else close finished s

  abbrev pub unrequested : Option E → Prefetch V E
  unrequested reason = record {
    fetches = record { started = 0; outstanding = [] };
    arrived = [];
    signal = reason;
    yielded = [];
    place = suspended 0;
  }

  -- The first `next`; `reason`: the outer signal's, where it is aborted already.
  unfoldable pub prefetch_ordered : Option E → Prefetch V E
  unfolding loop_turn
  prefetch_ordered reason = loop_turn 0 (unrequested reason)

  -- The wait for the fetch at an index is over.
  unfoldable pub woken : ℕ → Result E V → Prefetch V E → Prefetch V E
  unfolding fill_rounds delete
  woken index (err e) s = close (threw e) s
  woken index (ok v) s = record s {
    fetches =
        fill window count (is_some s.signal) (index + 1)
          (record s.fetches { outstanding = delete s.fetches.outstanding index });
    yielded = s.yielded ++ (v ∷ []);
    place = suspended index;
  }

  -- The first to settle wins the race.
  abbrev pub decide_race : ℕ → Place V E → Place V E
  decide_race index (fetching i none) =
      if index == i then fetching i (some (fates i)) else fetching i none
  decide_race index place = place

  abbrev pub arrives : ℕ → Prefetch V E → Prefetch V E
  arrives index s = record s { arrived = index ∷ s.arrived; place = decide_race index s.place }

  abbrev pub lost_race : E → Place V E → Place V E
  lost_race reason (fetching i none) = fetching i (some (err reason))
  lost_race reason place = place

  -- The outer signal aborts while the generator listens.
  abbrev pub interrupted : E → Prefetch V E → Prefetch V E
  interrupted reason s = record s { signal = some reason; place = lost_race reason s.place }

  abbrev pub end_at : Ending E → Prefetch V E → Prefetch V E
  end_at ending s = record s { place = closed ending }

  -- What happens to a generator. `outer`: the reason that the outer signal aborts with, if it does.
  pub data Move (outer : Option E) : Prefetch V E → Prefetch V E → Type 0 where
    settles :
        (s : Prefetch V E) (index : ℕ)
        → index < s.fetches.started
        → has s.arrived index ≡ false
        → Move outer s (arrives index s)
    aborts :
        (s : Prefetch V E) (reason : E)
        → outer ≡ some reason
        → s.signal ≡ none
        → Move outer s (interrupted reason s)
    resumes :
        (s : Prefetch V E) (index : ℕ) (fate : Result E V)
        → s.place ≡ fetching index (some fate)
        → Move outer s (woken index fate s)
    asks_next :
        (s : Prefetch V E) (index : ℕ)
        → s.place ≡ suspended index
        → Move outer s (loop_turn (index + 1) s)
    asks_return :
        (s : Prefetch V E) (index : ℕ) → s.place ≡ suspended index → Move outer s (close returned s)
    ends :
        (s : Prefetch V E) (ending : Ending E)
        → s.place ≡ closing ending
        → ((i : ℕ) → has s.fetches.outstanding i ≡ true → has s.arrived i ≡ true)
        → Move outer s (end_at ending s)

  -- The generators that `count` fetches can lead to, at a positive window.
  pub data Draws (outer : Option E) : Prefetch V E → Type 0 where
    opens : Draws outer (prefetch_ordered none)
    opens_aborted :
        (reason : E) → outer ≡ some reason → Draws outer (prefetch_ordered (some reason))
    then_move : (s s' : Prefetch V E) → Draws outer s → Move outer s s' → Draws outer s'
