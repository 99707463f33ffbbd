-- ===== src/Concurrent.antt =====
-- packages/async/src/concurrent.ts, `firstInOrder`: hedged failover over a list of items. The calls
-- settle in any order, and the outer signal may abort; a call does not abort it while it starts.
pub mod Slots
pub mod Order
pub mod Rounds
pub mod Runs
pub mod Decided
pub mod Answers
pub mod Mapping
pub mod Mapped
pub mod Settled
pub mod Prefetch
pub mod Windows
pub mod Turned
pub mod Moved
pub mod Drawn
mod PrefetchTests
mod MapTests
mod Tests
use sozai.Common.{
  ℕ, zero, suc, ◌+◌, ◌-◌, Bool, true, false, Option, none, some, List, [], ◌∷◌, ◌++◌, ltb, ◌==◌,
  is_some, ◌≡◌, if◌then◌else◌, ◌&&◌, not,
}
use sozai.Common.Lists.{length, drop}

-- What is known of an item's call.
pub data Slot (V E : Type 0) : Type 0 where
  pending miss : Slot V E
  hit : V → Slot V E
  error : E → Slot V E

-- `cancelled`: the reason of the outer signal; `all_failed`: an AggregateError of the errors.
pub data Outcome (V E : Type 0) : Type 0 where
  resolved : Option V → Outcome V E
  all_failed : List E → Outcome V E
  cancelled : E → Outcome V E

-- The variables of the promise's executor. `controllers`: the indices whose calls are in flight;
-- `aborted`: those whose signals were aborted; `settled`: how the promise has settled.
pub record Search (V E : Type 0) : Type 0 where
  pub slots : List (Slot V E)
  pub controllers : List ℕ
  pub outcome : Option (Outcome V E)
  pub winner : Option ℕ
  pub head : ℕ
  pub next : ℕ
  pub inflight : ℕ
  pub bound : ℕ
  pub aborted : List ℕ
  pub settled : Option (Outcome V E)

-- `slots[index] = slot`
unfoldable pub set_at {ℓ} : {A : Type ℓ} → List A → ℕ → A → List A
set_at [] i y = []
set_at (x ∷ xs) zero y = y ∷ xs
set_at (x ∷ xs) (suc i) y = x ∷ set_at xs i y

-- `controllers.delete(index)`
unfoldable pub delete : List ℕ → ℕ → List ℕ
delete [] i = []
delete (j ∷ js) i = if j == i then js else j ∷ delete js i

-- `controllers.has(index)`
abbrev pub has : List ℕ → ℕ → Bool
has [] i = false
has (j ∷ js) i = if j == i then true else has js i

unfoldable pub keep : (ℕ → Bool) → List ℕ → List ℕ
keep test [] = []
keep test (j ∷ js) = if test j then j ∷ keep test js else keep test js

abbrev pub is_winner : Option ℕ → ℕ → Bool
is_winner none i = false
is_winner (some w) i = w == i

-- How a scan of the slots from the head ends: at a pending slot, at a hit, or past the last slot.
pub data Scan (V : Type 0) : Type 0 where
  waits runs_out : Scan V
  wins : V → Scan V

module _ {V E : Type 0} where
  -- The loop of `advance`, over the slots from the head on.
  unfoldable pub scan : List (Slot V E) → ℕ → ℕ × Scan V
  scan [] head = (head, runs_out)
  scan (pending ∷ slots) head = (head, waits)
  scan (hit v ∷ slots) head = (head, wins v)
  scan (miss ∷ slots) head = scan slots (head + 1)
  scan (error e ∷ slots) head = scan slots (head + 1)

  unfoldable pub errors_of : List (Slot V E) → List E
  errors_of [] = []
  errors_of (error e ∷ slots) = e ∷ errors_of slots
  errors_of (pending ∷ slots) = errors_of slots
  errors_of (miss ∷ slots) = errors_of slots
  errors_of (hit v ∷ slots) = errors_of slots

  abbrev pub first_settled : Option (Outcome V E) → Outcome V E → Option (Outcome V E)
  first_settled none o = some o
  first_settled (some old) o = some old

  abbrev pub finish_with : Option (Outcome V E) → Search V E → Search V E
  finish_with none s = s
  finish_with (some o) s =
      if s.inflight == 0 then record s { settled = first_settled s.settled o } else s

  unfoldable pub maybe_finish : Search V E → Search V E
  maybe_finish s = finish_with s.outcome s

  abbrev pub decided : Outcome V E → Search V E → Search V E
  decided result s = record s {
    outcome = some result;
    aborted = s.aborted ++ keep (λ i. not (is_winner s.winner i)) s.controllers;
  }

  -- The first decision is kept.
  abbrev pub decide_from : Option (Outcome V E) → Outcome V E → Search V E → Search V E
  decide_from (some o) result s = s
  decide_from none result s = maybe_finish (decided result s)

  unfoldable pub decide : Outcome V E → Search V E → Search V E
  unfolding maybe_finish keep
  decide result s = decide_from s.outcome result s

  abbrev pub exhausted : List (Slot V E) → Outcome V E
  exhausted slots =
      if ltb 0 (length slots) && (length (errors_of slots) == length slots)
      then all_failed (errors_of slots)
      else resolved none

  abbrev pub advance_to : ℕ × Scan V → Search V E → Search V E
  advance_to (head, waits) s = record s { head = head }
  advance_to (head, wins v) s =
      decide (resolved (some v)) (record s { head = head; winner = some head })
  advance_to (head, runs_out) s = decide (exhausted s.slots) (record s { head = head })

  abbrev pub advance_from : Option (Outcome V E) → Search V E → Search V E
  advance_from (some o) s = s
  advance_from none s = advance_to (scan (drop s.head s.slots) s.head) s

  unfoldable pub advance : Search V E → Search V E
  unfolding scan decide
  advance s = advance_from s.outcome s

  -- A call starts.
  abbrev pub start : Search V E → Search V E
  start s = record s {
    next = s.next + 1;
    controllers = s.next ∷ s.controllers;
    inflight = s.inflight + 1;
  }

  -- The loop of `pump`, which starts at most as many calls as the limit leaves room for.
  unfoldable pub pump_rounds : ℕ → ℕ → Search V E → Search V E
  pump_rounds limit zero s = s
  pump_rounds limit (suc k) s =
      let more = pump_rounds limit k (start s) in
      if not (is_some s.outcome) && ltb s.inflight limit && ltb s.next s.bound then more else s

  abbrev pub pump : ℕ → Search V E → Search V E
  pump limit s = pump_rounds limit (limit - s.inflight) s

  -- A hit below the bound lowers it and aborts the calls of later items.
  unfoldable pub lower_bound : ℕ → Slot V E → Search V E → Search V E
  unfolding keep
  lower_bound index (hit v) s =
      if ltb index s.bound
      then record s { bound = index; aborted = s.aborted ++ keep (λ i. ltb index i) s.controllers }
      else s
  lower_bound index _ s = s

  -- `slots[index] = slot`, and what follows while nothing is decided.
  unfoldable pub write_slot : ℕ → ℕ → Slot V E → Search V E → Search V E
  unfolding set_at lower_bound advance pump_rounds
  write_slot limit index slot s =
      pump limit (advance (lower_bound index slot (record s { slots = set_at s.slots index slot })))

  abbrev pub write_from : Option (Outcome V E) → ℕ → ℕ → Slot V E → Search V E → Search V E
  write_from (some o) limit index slot s = s
  write_from none limit index slot s = write_slot limit index slot s

  -- The call is no longer in flight.
  abbrev pub landed : ℕ → Search V E → Search V E
  landed index s = record s { inflight = s.inflight - 1; controllers = delete s.controllers index }

  unfoldable pub settle : ℕ → ℕ → Slot V E → Search V E → Search V E
  unfolding delete write_slot maybe_finish
  settle limit index slot s = maybe_finish (write_from s.outcome limit index slot (landed index s))

  abbrev pub all_pending : ℕ → List (Slot V E)
  all_pending zero = []
  all_pending (suc n) = pending ∷ all_pending n

  abbrev pub fresh : ℕ → Search V E
  fresh n = record {
    slots = all_pending n;
    controllers = [];
    outcome = none;
    winner = none;
    head = 0;
    next = 0;
    inflight = 0;
    bound = n;
    aborted = [];
    settled = none;
  }

  -- The start over `n` items; `reason`: the outer signal's, where it is aborted already.
  unfoldable pub begin : ℕ → ℕ → Option E → Search V E
  unfolding advance pump_rounds maybe_finish decide
  begin limit n none = maybe_finish (pump limit (advance (fresh n)))
  begin limit n (some reason) = maybe_finish (decide (cancelled reason) (fresh n))

  abbrev pub is_pending : Slot V E → Bool
  is_pending pending = true
  is_pending _ = false

  -- What happens to a search: a call in flight settles, or the outer signal aborts.
  pub data Step (limit : ℕ) : Search V E → Search V E → Type 0 where
    settles :
        (s : Search V E) (index : ℕ) (slot : Slot V E)
        → has s.controllers index ≡ true
        → is_pending slot ≡ false
        → Step limit s (settle limit index slot s)
    aborts : (s : Search V E) (reason : E) → Step limit s (decide (cancelled reason) s)

  -- The searches that `n` items can lead to, at a positive limit.
  pub data Reach (limit n : ℕ) : Search V E → Type 0 where
    begins : (reason : Option E) → Reach limit n (begin limit n reason)
    then_step : (s s' : Search V E) → Reach limit n s → Step limit s s' → Reach limit n s'
