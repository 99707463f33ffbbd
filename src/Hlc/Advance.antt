-- ===== src/Hlc/Advance.antt =====
-- The stamps of one clock grow strictly, and every counter fits its eight serialized digits.
use sozai.Common.{
  ℕ, ◌<◌, ◌≤◌, ◌≡◌, ◌⊎◌, Bool, true, false, Option, none, some, List, [], ◌∷◌, arith,
}
use sozai.Common.Lists.{All}
use sozai.Common.Text.{Text}
use sozai.Hlc.{
  Timestamp, Hlc, new, max_ceiling, apply_counter, stamp, tick, now, merge, receive, Use, mint,
  hear, run,
}

-- `b` is strictly later than `a`: by wall time, then by counter.
abbrev pub IsBefore : Timestamp → Timestamp → Type 0
IsBefore a b = (a.wall_time < b.wall_time) ⊎ ((a.wall_time ≡ b.wall_time) × (a.counter < b.counter))

IsBefore-trans : (a b c : Timestamp) → IsBefore a b → IsBefore b c → IsBefore a c
IsBefore-trans a b c h k = ground arith

-- What holds of a clock between two calls.
pub record IsBounded (h : Hlc) : Type 0 where
  pub ceiling_fits : h.counter_ceiling ≤ max_ceiling
  pub counter_fits : h.last_counter < max_ceiling

-- A new clock keeps the ceiling within eight digits, whatever ceiling is asked for.
pub new-IsBounded : (id : Text) (ceiling : Option ℕ) → IsBounded (new id ceiling)
unfolding new
new-IsBounded id none = omega arith
new-IsBounded id (some c) = omega arith

apply_counter-IsBounded : (n : ℕ) {h : Hlc} → IsBounded h → IsBounded (apply_counter n h)
unfolding apply_counter
apply_counter-IsBounded n b = ground arith

tick-IsBounded : (p : ℕ) {h : Hlc} → IsBounded h → IsBounded (tick p h)
unfolding tick
tick-IsBounded p b = ground arith

merge-IsBounded : (p : ℕ) (r : Timestamp) {h : Hlc} → IsBounded h → IsBounded (merge p r h)
unfolding merge
merge-IsBounded p r b = ground arith

-- A stamp of `now` is strictly later than the last one, and than nothing else changes it.
tick-IsBefore : (p : ℕ) (h : Hlc) → IsBefore (stamp h) (stamp (tick p h))
unfolding tick stamp
tick-IsBefore p h = ground arith

-- The stamp that `receive` returns is strictly later than the clock's last stamp and than the
-- remote stamp, whatever the physical clock reads.
pub receive-IsBefore :
    (p : ℕ) (r : Timestamp) (h : Hlc)
    → IsBefore (stamp h) (receive p r h).0 × IsBefore r (receive p r h).0
unfolding receive
receive-IsBefore p r h = ground arith

-- A vetoed `now` returns no stamp and leaves the clock as it was; any other returns the stamp of
-- the clock that it leaves, strictly later than the last one and not before the physical time.
pub now_lem :
    (vetoed : Bool) (p : ℕ) (h : Hlc)
    → ((vetoed ≡ true) × (now vetoed p h ≡ (none, h)))
      ⊎ ((vetoed ≡ false)
          × (now vetoed p h ≡ (some (stamp (now vetoed p h).1), (now vetoed p h).1))
          × IsBefore (stamp h) (stamp (now vetoed p h).1)
          × (p ≤ (now vetoed p h).1.last_wall_time))
unfolding now
now_lem true p h = ground arith
now_lem false p h = ground arith

-- Every later stamp of `run` follows `t`.
abbrev pub Increasing : Timestamp → List Timestamp → Type 0
Increasing t [] = Unit
Increasing t (s ∷ rest) = IsBefore t s × Increasing s rest

run-Increasing_from : (h : Hlc) (uses : List Use) → Increasing (stamp h) (run h uses)
unfolding run
run-Increasing_from h [] = tt
run-Increasing_from h (mint true p ∷ rest) = run-Increasing_from h rest
run-Increasing_from h (mint false p ∷ rest) =
    (tick-IsBefore p h, run-Increasing_from (tick p h) rest)
run-Increasing_from h (hear p r ∷ rest) =
    ((receive-IsBefore p r h).0, run-Increasing_from (merge p r h) rest)

-- Through any mints (vetoed or not), peer stamps and readings of the physical clock, going
-- backwards included, each stamp that a clock returns is strictly later than the one before it, the
-- first than the clock's state.
pub run-Increasing : (h : Hlc) (uses : List Use) → Increasing (stamp h) (run h uses)
run-Increasing h uses = run-Increasing_from h uses

run-fits_from :
    (h : Hlc) (uses : List Use) → IsBounded h → All (λ s. s.counter < max_ceiling) (run h uses)
unfolding run
run-fits_from h [] b = tt
run-fits_from h (mint true p ∷ rest) b = run-fits_from h rest b
run-fits_from h (mint false p ∷ rest) b =
    let b' = tick-IsBounded p b in (b'.counter_fits, run-fits_from (tick p h) rest b')
run-fits_from h (hear p r ∷ rest) b =
    let b' = merge-IsBounded p r b in (b'.counter_fits, run-fits_from (merge p r h) rest b')

-- Every stamp that a new clock ever returns has a counter of at most eight decimal digits, whatever
-- counters the peers send and whatever ceiling was asked for.
pub run_counter_fits :
    (id : Text) (ceiling : Option ℕ) (uses : List Use)
    → All (λ s. s.counter < max_ceiling) (run (new id ceiling) uses)
run_counter_fits id ceiling uses = run-fits_from (new id ceiling) uses (new-IsBounded id ceiling)
