-- ===== src/Concurrent/Rounds.antt =====
-- The loops of a search, `advance` and `pump`, from an open search on.
use mathlib.Core.List.{append_assoc}
use mathlib.Core.Path.{subst}
use sozai.Common.{
  ℕ, ◌+◌, ◌≡◌, refl, ap, sym, ◌∙◌, inr, Bool, true, false, Option, none, some, ◌++◌, ltb, ◌==◌,
  if◌then◌else◌, arith,
}
use sozai.Common.Lists.{length, length-append, drop, get_elem?}
use sozai.Concurrent.{
  keep, first_settled, finish_with, decided, decide_from, advance_from, Slot, pending, miss, hit,
  error, Outcome, resolved, Search, Scan, waits, runs_out, wins, scan, exhausted, lower_bound,
  advance, advance_to, maybe_finish, decide,
}
use sozai.Concurrent.Slots.{
  drop-append, verdict, outcome_of, sequential, verdict-append, scan_lem, AllLost-append, get_below,
}
use sozai.Concurrent.Order.{IsOpen}

module _ {V E : Type 0} where
  -- A search that is decided as its slots, asked one after the other, decide.
  pub record IsDecided (s : Search V E) : Type 0 where
    pub result : Outcome V E
    pub closes : s.outcome ≡ some result
    pub agrees : sequential s.slots ≡ some result

  pub lowered :
      (n index : ℕ) (slot : Slot V E) (s : Search V E)
      → IsOpen n s
      → get_elem? s.slots index ≡ some slot
      → IsOpen n (lower_bound index slot s)
  unfolding lower_bound
  lowered n index pending s o h = o
  lowered n index miss s o h = o
  lowered n index (error e) s o h = o
  lowered n index (hit v) s o h = go (ltb index s.bound)
    where
      go :
          (b : Bool)
          → IsOpen n (
              if b
              then record s {
                bound = index;
                aborted = s.aborted ++ keep (λ i. ltb index i) s.controllers;
              }
              else s)
      go true = record {
        size = o.size;
        bound_fits = omega (arith, get_below s.slots index (hit v) h, o.size);
        bounded = inr (v, h);
        running = o.running;
        started = o.started;
        unstarted = o.unstarted;
        distinct = o.distinct;
        counted = o.counted;
        before = o.before;
        rest = o.rest;
        split = o.split;
        at_head = o.at_head;
        lost = o.lost;
      }
      go false = o

  -- The scan of an open search ends as the verdict on all of its slots, with the lost ones behind.
  scanned :
      (n : ℕ) (s : Search V E)
      → IsOpen n s
      → (h : ℕ) × (scan (drop s.head s.slots) s.head ≡ (h, verdict s.slots))
        × IsOpen n (record s { head = h })
  scanned n s o =
      let (lost, rest', e, l, found) = scan_lem o.rest s.head in
      let dropped : drop s.head s.slots ≡ o.rest =
        rw (o.at_head, o.split) (drop-append o.before o.rest) in
      (
        s.head + length lost,
        ap (λ l. scan l s.head) dropped
            ∙ found
            ∙ ap (λ (x : Scan V). (s.head + length lost, x))
                (sym (ap verdict o.split ∙ verdict-append o.before o.rest o.lost)),
        record {
          size = o.size;
          bound_fits = o.bound_fits;
          bounded = o.bounded;
          running = o.running;
          started = o.started;
          unstarted = o.unstarted;
          distinct = o.distinct;
          counted = o.counted;
          before = o.before ++ lost;
          rest = rest';
          split = o.split ∙ ap (λ l. o.before ++ l) e ∙ sym (append_assoc o.before lost rest');
          at_head = omega (arith, o.at_head, length-append o.before lost);
          lost = AllLost-append o.before lost o.lost l;
        },
      )

  -- After `advance` an open search is decided by its slots, or waits for its head and is open still.
  pub data Advanced (n : ℕ) (s : Search V E) : Type 0 where
    open_still : s.outcome ≡ none → verdict s.slots ≡ waits → IsOpen n s → Advanced n s
    closed : IsDecided s → Advanced n s

  -- What finishing and deciding keep.
  pub record Keeps (s s' : Search V E) : Type 0 where
    pub slots : s'.slots ≡ s.slots
    pub controllers : s'.controllers ≡ s.controllers
    pub inflight : s'.inflight ≡ s.inflight

  finish_with-Keeps :
      (o : Option (Outcome V E)) (s : Search V E)
      → Keeps s (finish_with o s) × ((finish_with o s).outcome ≡ s.outcome)
  finish_with-Keeps none s = (record { slots = refl; controllers = refl; inflight = refl }, refl)
  finish_with-Keeps (some o) s = idle (s.inflight == 0)
    where
      idle :
          (b : Bool)
          → Keeps s (if b then record s { settled = first_settled s.settled o } else s)
            × ((if b then record s { settled = first_settled s.settled o } else s).outcome
                ≡ s.outcome)
      idle true = (record { slots = refl; controllers = refl; inflight = refl }, refl)
      idle false = (record { slots = refl; controllers = refl; inflight = refl }, refl)

  pub maybe_finish-Keeps :
      (s : Search V E) → Keeps s (maybe_finish s) × ((maybe_finish s).outcome ≡ s.outcome)
  unfolding maybe_finish
  maybe_finish-Keeps s = finish_with-Keeps s.outcome s

  pub decide-Keeps :
      (o : Outcome V E) (s : Search V E)
      → s.outcome ≡ none
      → Keeps s (decide o s) × ((decide o s).outcome ≡ some o)
  unfolding decide
  decide-Keeps o s h =
      let (k, e) = maybe_finish-Keeps (decided o s) in
      subst (λ x. Keeps s (decide_from x o s) × ((decide_from x o s).outcome ≡ some o)) (sym h)
        (record { slots = k.slots; controllers = k.controllers; inflight = k.inflight }, e)

  advance_to-Advanced :
      (n head : ℕ) (x : Scan V) (s : Search V E)
      → s.outcome ≡ none
      → verdict s.slots ≡ x
      → IsOpen n (record s { head = head })
      → Advanced n (advance_to (head, x) s) × Keeps s (advance_to (head, x) s)
  advance_to-Advanced n head waits s none_yet e o =
      (open_still none_yet e o, record { slots = refl; controllers = refl; inflight = refl })
  advance_to-Advanced n head (wins v) s none_yet e o =
      let (k, d) =
        decide-Keeps (resolved (some v)) (record s { head = head; winner = some head }) none_yet in
      (
        closed (record {
          result = resolved (some v);
          closes = d;
          agrees = ap sequential k.slots ∙ ap (outcome_of s.slots) e;
        }),
        record { slots = k.slots; controllers = k.controllers; inflight = k.inflight },
      )
  advance_to-Advanced n head runs_out s none_yet e o =
      let (k, d) = decide-Keeps (exhausted s.slots) (record s { head = head }) none_yet in
      (
        closed (record {
          result = exhausted s.slots;
          closes = d;
          agrees = ap sequential k.slots ∙ ap (outcome_of s.slots) e;
        }),
        record { slots = k.slots; controllers = k.controllers; inflight = k.inflight },
      )

  pub advance-Advanced :
      (n : ℕ) (s : Search V E)
      → s.outcome ≡ none
      → IsOpen n s
      → Advanced n (advance s) × Keeps s (advance s)
  unfolding advance
  advance-Advanced n s none_yet o =
      let (h, found, o') = scanned n s o in
      subst (λ x. Advanced n (advance_from x s) × Keeps s (advance_from x s)) (sym none_yet)
        (subst (λ x. Advanced n (advance_to x s) × Keeps s (advance_to x s)) (sym found)
          (advance_to-Advanced n h (verdict s.slots) s none_yet refl o'))
