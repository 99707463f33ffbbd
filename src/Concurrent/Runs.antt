-- ===== src/Concurrent/Runs.antt =====
-- However its calls interleave, a search (packages/async/src/concurrent.ts, `firstInOrder`) decides as
-- asking the items one after the other would.
use mathlib.Core.Path.{subst}
use sozai.Common.{
  ℕ, zero, suc, ◌+◌, ◌-◌, ◌≤◌, ◌<◌, ◌≡◌, refl, ap, sym, ◌∙◌, ◌⊎◌, inl, inr, Bool, true, false,
  Option, none, some, [], ◌++◌, ltb, if◌then◌else◌, ◌&&◌, arith, is_some, not,
}
use sozai.Common.Lists.{length, get_elem?}
use sozai.Concurrent.{
  keep, Slot, pending, miss, hit, error, Outcome, cancelled, Search, waits, has, set_at, is_pending,
  lower_bound, start, advance, pump_rounds, pump, maybe_finish, finish_with, decide, decided,
  decide_from, settle, write_slot, write_from, landed, fresh, all_pending, begin, Step, settles,
  aborts, Reach, begins, then_step,
}
use sozai.Concurrent.Slots.{verdict, sequential, length-delete, set_at_there}
use sozai.Concurrent.Order.{IsOpen, written, begins_next}
use sozai.Concurrent.Rounds.{
  Keeps, Advanced, open_still, closed, lowered, maybe_finish-Keeps, advance-Advanced,
}

all_pending-size : (V E : Type 0) (n : ℕ) → length (all_pending {V = V} {E = E} n) ≡ n
all_pending-size V E zero = refl
all_pending-size V E (suc n) = ap (λ k. suc k) (all_pending-size V E n)

all_pending_at :
    (V E : Type 0) (n i : ℕ) → i < n → get_elem? (all_pending {V = V} {E = E} n) i ≡ some pending
all_pending_at V E zero i h = ground arith
all_pending_at V E (suc n) zero h = refl
all_pending_at V E (suc n) (suc i) h = all_pending_at V E n i (omega arith)

fresh-IsOpen : (V E : Type 0) (n : ℕ) → IsOpen {V = V} {E = E} n (fresh n)
fresh-IsOpen V E n = record {
  size = all_pending-size V E n;
  bound_fits = omega arith;
  bounded = inl refl;
  running = λ i h. cc;
  started = λ i h. ground arith;
  unstarted = λ i h b. all_pending_at V E n i b;
  distinct = tt;
  counted = refl;
  before = [];
  rest = all_pending n;
  split = refl;
  at_head = refl;
  lost = tt;
}

module _ {V E : Type 0} where
  -- An open search that has started as many calls as it may.
  pub record IsPumped (limit n : ℕ) (s : Search V E) : Type 0 where
    pub undecided : s.outcome ≡ none
    pub waiting : verdict s.slots ≡ waits
    pub opens : IsOpen n s
    pub full : (limit ≤ s.inflight) ⊎ (s.bound ≤ s.next)
    pub within : s.inflight ≤ limit

  pump-IsPumped :
      (limit n k : ℕ) (s : Search V E)
      → s.outcome ≡ none
      → verdict s.slots ≡ waits
      → IsOpen n s
      → s.inflight ≤ limit
      → limit ≤ s.inflight + k
      → IsPumped limit n (pump_rounds limit k s)
  unfolding pump_rounds
  pump-IsPumped limit n zero s u w o within room = record {
    undecided = u;
    waiting = w;
    opens = o;
    full = inl (omega arith);
    within = within;
  }
  pump-IsPumped limit n (suc k) s u w o within room =
      go
        (λ few below.
          pump-IsPumped limit n k (start s) u w (begins_next n s o below) (omega arith)
            (omega arith))
        (not (is_some s.outcome) && ltb s.inflight limit && ltb s.next s.bound) refl
    where
      go :
          (s.inflight < limit → s.next < s.bound → IsPumped limit n (pump_rounds limit k (start s)))
          → (b : Bool) → (not (is_some s.outcome) && ltb s.inflight limit && ltb s.next s.bound) ≡ b
          → IsPumped limit n (if b then pump_rounds limit k (start s) else s)
      go more true e = more (ground arith) (ground arith)
      go more false e = record {
        undecided = u;
        waiting = w;
        opens = o;
        full = ground arith;
        within = within;
      }

  pump_closed :
      (limit k : ℕ) (s : Search V E) (o : Outcome V E)
      → s.outcome ≡ some o
      → pump_rounds limit k s ≡ s
  unfolding pump_rounds
  pump_closed limit zero s o h = refl
  pump_closed limit (suc k) s o h = ground arith

  -- Nothing is decided, and the calls that may run do; or the decision is the slots' own, or the
  -- outer signal's.
  pub data IsRun (limit n : ℕ) (s : Search V E) : Type 0 where
    runs : IsPumped limit n s → IsRun limit n s
    stops :
        (o : Outcome V E)
        → s.outcome ≡ some o
        → ((reason : E) × (o ≡ cancelled reason)) ⊎ (sequential s.slots ≡ some o)
        → s.inflight ≤ limit
        → s.inflight ≡ length s.controllers
        → IsRun limit n s

  pumped :
      (limit n : ℕ) (s : Search V E)
      → Advanced n s
      → s.inflight ≤ limit
      → s.inflight ≡ length s.controllers
      → IsRun limit n (pump limit s)
  pumped limit n s (open_still u w o) within counted =
      runs (pump-IsPumped limit n (limit - s.inflight) s u w o within (omega arith))
  pumped limit n s (closed d) within counted =
      subst (IsRun limit n) (sym (pump_closed limit (limit - s.inflight) s d.result d.closes))
        (stops d.result d.closes (inr d.agrees) within counted)

  finished-IsRun : (limit n : ℕ) (s : Search V E) → IsRun limit n s → IsRun limit n (maybe_finish s)
  unfolding maybe_finish
  finished-IsRun limit n s (runs p) =
      subst (λ x. IsRun limit n (finish_with x s)) (sym p.undecided) (runs p)
  finished-IsRun limit n s (stops o e agrees within counted) =
      let (k, same) = maybe_finish-Keeps s in
      stops o (same ∙ e) (elim agrees [ inl c ↦ inl c | inr q ↦ inr (ap sequential k.slots ∙ q) ])
        (omega (arith, k.inflight, within)) (k.inflight ∙ counted ∙ ap length (sym k.controllers))

  lowered-Keeps :
      (index : ℕ) (slot : Slot V E) (s : Search V E)
      → Keeps s (lower_bound index slot s) × ((lower_bound index slot s).outcome ≡ s.outcome)
  unfolding lower_bound
  lowered-Keeps index pending s =
      (record { slots = refl; controllers = refl; inflight = refl }, refl)
  lowered-Keeps index miss s = (record { slots = refl; controllers = refl; inflight = refl }, refl)
  lowered-Keeps index (error e) s =
      (record { slots = refl; controllers = refl; inflight = refl }, refl)
  lowered-Keeps index (hit v) s = go (ltb index s.bound)
    where
      low : Search V E
      low = record s { bound = index; aborted = s.aborted ++ keep (λ i. ltb index i) s.controllers }

      go :
          (b : Bool) → Keeps s (if b then low else s) × ((if b then low else s).outcome ≡ s.outcome)
      go true = (record { slots = refl; controllers = refl; inflight = refl }, refl)
      go false = (record { slots = refl; controllers = refl; inflight = refl }, refl)

  written-IsRun :
      (limit n index : ℕ) (slot : Slot V E) (s : Search V E)
      → IsPumped limit n s
      → has s.controllers index ≡ true
      → is_pending slot ≡ false
      → IsRun limit n (write_slot limit index slot (landed index s))
  unfolding write_slot
  written-IsRun limit n index slot s p h q =
      let o = p.opens in
      let w : Search V E = record (landed index s) { slots = set_at s.slots index slot } in
      let low = lower_bound index slot w in
      let (k, same) = lowered-Keeps index slot w in
      let opened =
        lowered n index slot w (written n index slot s o h q)
          (set_at_there s.slots index pending slot (o.running index h).1) in
      let (adv, k2) = advance-Advanced n low (same ∙ p.undecided) opened in
      let count = length-delete s.controllers index h in
      pumped limit n (advance low) adv (omega (arith, k2.inflight, k.inflight, p.within))
        (k2.inflight ∙ opened.counted ∙ ap length (sym k2.controllers))

  settle-IsRun :
      (limit n index : ℕ) (slot : Slot V E) (s : Search V E)
      → IsRun limit n s
      → has s.controllers index ≡ true
      → is_pending slot ≡ false
      → IsRun limit n (settle limit index slot s)
  unfolding settle
  settle-IsRun limit n index slot s (runs p) h q =
      finished-IsRun limit n (write_from s.outcome limit index slot (landed index s)) (
        subst (λ x. IsRun limit n (write_from x limit index slot (landed index s)))
          (sym p.undecided) (written-IsRun limit n index slot s p h q))
  settle-IsRun limit n index slot s (stops o e agrees within counted) h q =
      finished-IsRun limit n (write_from s.outcome limit index slot (landed index s)) (
        subst (λ x. IsRun limit n (write_from x limit index slot (landed index s))) (sym e)
          (stops o e agrees (omega (arith, within))
            (omega (arith, counted, length-delete s.controllers index h))))

  abort-IsRun :
      (limit n : ℕ) (reason : E) (s : Search V E)
      → IsRun limit n s
      → IsRun limit n (decide (cancelled reason) s)
  unfolding decide
  abort-IsRun limit n reason s (runs p) =
      subst (λ x. IsRun limit n (decide_from x (cancelled reason) s)) (sym p.undecided)
        (finished-IsRun limit n (decided (cancelled reason) s)
          (stops (cancelled reason) refl (inl (reason, refl)) p.within p.opens.counted))
  abort-IsRun limit n reason s (stops o e agrees within counted) =
      subst (λ x. IsRun limit n (decide_from x (cancelled reason) s)) (sym e)
        (stops o e agrees within counted)

  begin-IsRun :
      (limit n : ℕ) (reason : Option E) → IsRun limit n (begin {V = V} {E = E} limit n reason)
  unfolding begin decide
  begin-IsRun limit n none =
      let (adv, k) = advance-Advanced n (fresh n) refl (fresh-IsOpen V E n) in
      finished-IsRun limit n (pump limit (advance (fresh n))) (
        pumped limit n (advance (fresh n)) adv (omega (arith, k.inflight))
          (k.inflight ∙ ap length (sym k.controllers)))
  begin-IsRun limit n (some reason) = finished-IsRun limit n (decide (cancelled reason) (fresh n)) (
      finished-IsRun limit n (decided (cancelled reason) (fresh n))
        (stops (cancelled reason) refl (inl (reason, refl)) (omega arith) refl))

  Step-IsRun :
      (limit n : ℕ) (s s' : Search V E) → IsRun limit n s → Step limit s s' → IsRun limit n s'
  Step-IsRun limit n s s' r (settles s1 index slot live full) =
      settle-IsRun limit n index slot s1 r live full
  Step-IsRun limit n s s' r (aborts s1 reason) = abort-IsRun limit n reason s1 r

  pub Reach-IsRun : (limit n : ℕ) (s : Search V E) → Reach limit n s → IsRun limit n s
  Reach-IsRun limit n s (begins reason) = begin-IsRun limit n reason
  Reach-IsRun limit n s (then_step s0 s1 h step) =
      Step-IsRun limit n s0 s1 (Reach-IsRun limit n s0 h) step
