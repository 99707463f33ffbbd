-- ===== src/Hlc.antt =====
-- packages/hlc/src/index.ts: the hybrid logical clock. Wall times are natural numbers of
-- milliseconds; the readings of `Date.now()` and the verdict of `beforeMint` are arguments.
pub mod Advance
pub mod Order
pub mod Serial
pub mod Digits
pub mod RoundTrip
pub mod Sorting
mod Tests
mod SerialTests
use Prim.Native.Nat.{Ordering, compare}
use sozai.Common.{
  ℕ, ◌+◌, min, max, Option, none, some, Bool, true, false, List, [], ◌∷◌, ltb, leb, ◌==◌,
  if◌then◌else◌, ◌&&◌,
}
use sozai.Common.Text.{Text, text_ltb}

pub record Timestamp : Type 0 where
  pub wall_time : ℕ
  pub counter : ℕ
  pub node_id : Text

pub record Hlc : Type 0 where
  pub node_id : Text
  pub last_wall_time : ℕ
  pub last_counter : ℕ
  pub counter_ceiling : ℕ

abbrev pub max_ceiling : ℕ
max_ceiling = 100_000_000

unfoldable pub new : Text → Option ℕ → Hlc
new id ceiling = record {
  node_id = id;
  last_wall_time = 0;
  last_counter = 0;
  counter_ceiling = min (elim ceiling [ none ↦ max_ceiling | some c ↦ c ]) max_ceiling;
}

unfoldable pub apply_counter : ℕ → Hlc → Hlc
apply_counter candidate h =
    if leb h.counter_ceiling candidate
    then record h { last_wall_time = h.last_wall_time + 1; last_counter = 0 }
    else record h { last_counter = candidate }

unfoldable pub stamp : Hlc → Timestamp
stamp h = record { wall_time = h.last_wall_time; counter = h.last_counter; node_id = h.node_id }

-- `Date.now()` read `physical`, and the remote stamp is not involved.
unfoldable pub tick : ℕ → Hlc → Hlc
unfolding apply_counter
tick physical h =
    if ltb h.last_wall_time physical
    then record h { last_wall_time = physical; last_counter = 0 }
    else apply_counter (h.last_counter + 1) h

-- `now()`: none when `beforeMint` threw.
unfoldable pub now : Bool → ℕ → Hlc → Option Timestamp × Hlc
unfolding tick stamp
now vetoed physical h =
    if vetoed then (none, h) else (some (stamp (tick physical h)), tick physical h)

-- `receive(remote)`: the state that it leaves.
unfoldable pub merge : ℕ → Timestamp → Hlc → Hlc
unfolding apply_counter
merge physical remote h =
    if ltb h.last_wall_time physical && ltb remote.wall_time physical
    then record h { last_wall_time = physical; last_counter = 0 }
    else if ltb h.last_wall_time remote.wall_time
    then apply_counter (remote.counter + 1) (record h { last_wall_time = remote.wall_time })
    else if ltb remote.wall_time h.last_wall_time
    then apply_counter (h.last_counter + 1) h
    else apply_counter (max h.last_counter remote.counter + 1) h

unfoldable pub receive : ℕ → Timestamp → Hlc → Timestamp × Hlc
unfolding merge stamp
receive physical remote h = (stamp (merge physical remote h), merge physical remote h)

-- The sign of the number that `compare` returns.
unfoldable pub compare_stamps : Timestamp → Timestamp → Ordering
compare_stamps a b =
    if a.wall_time == b.wall_time
    then (if a.counter == b.counter
        then (if text_ltb a.node_id b.node_id
            then Ordering.lt
            else if text_ltb b.node_id a.node_id
            then Ordering.gt
            else Ordering.eq)
        else compare a.counter b.counter)
    else compare a.wall_time b.wall_time

-- One use of a clock: an own stamp, with the verdict of `beforeMint`, or a peer's stamp.
pub data Use : Type 0 where
  mint : (vetoed : Bool) (physical : ℕ) → Use
  hear : (physical : ℕ) (remote : Timestamp) → Use

-- A clock's life: the stamps that it returned, oldest first.
unfoldable pub run : Hlc → List Use → List Timestamp
unfolding now receive
run h [] = []
run h (mint true physical ∷ rest) = run h rest
run h (mint false physical ∷ rest) = stamp (tick physical h) ∷ run (tick physical h) rest
run h (hear physical remote ∷ rest) =
    (receive physical remote h).0 ∷ run (receive physical remote h).1 rest
