-- ===== src/Hlc/Serial.antt =====
-- packages/hlc/src/index.ts: how a stamp is written as a text, and read from one. The functions of
-- `Date` are those of `Dates`, and `parse_int` is `Number.parseInt(s, 10)`, `none` for NaN.
use sozai.Common.{ℕ, zero, suc, ◌-◌, Option, none, some, [], ◌∷◌, ◌++◌, ◌==◌, if◌then◌else◌}
use sozai.Common.Lists.{length, take, drop}
use sozai.Common.Text.{Text}
use sozai.Common.Decimal.{decimal}
use sozai.Common.Dates.{Dates}
use sozai.Hlc.{Timestamp}

unfoldable pub repeat : ℕ → ℕ → Text
repeat zero c = []
repeat (suc n) c = c ∷ repeat n c

-- `s.padStart(width, c)`
unfoldable pub pad_start : ℕ → ℕ → Text → Text
unfolding repeat
pad_start width c s = repeat (width - length s) c ++ s

abbrev pub counter_pad : ℕ
counter_pad = 8

-- The text after the wall time: `:${counter}:${nodeID}`. Counters are below 10^21, from which
-- `toString` prints an exponent.
unfoldable pub count_and_node : Timestamp → Text
unfolding pad_start
count_and_node ts = 58 ∷ (pad_start counter_pad 48 (decimal ts.counter) ++ (58 ∷ ts.node_id))

abbrev pub print_after : Option Text → Timestamp → Option Text
print_after none ts = none
print_after (some iso) ts = some (iso ++ count_and_node ts)

-- `none`: a RangeError, of `toISOString`.
unfoldable pub serialize : Dates → Timestamp → Option Text
unfolding count_and_node
serialize dates ts = print_after (dates.to_iso ts.wall_time) ts

abbrev pub next_index : Option ℕ → Option ℕ
next_index none = none
next_index (some i) = some (suc i)

-- `s.indexOf(c)`, `none` for -1.
unfoldable pub index_of : ℕ → Text → Option ℕ
index_of c [] = none
index_of c (d ∷ s) = if d == c then some 0 else next_index (index_of c s)

-- `s.slice(0, i + 1)` and `s.slice(i + 2)` at the first `Z`; without one, `i` is -1.
abbrev pub wall_part : Option ℕ → Text → Text
wall_part none s = []
wall_part (some i) s = take (suc i) s

abbrev pub rest_part : Option ℕ → Text → Text
rest_part none s = drop 1 s
rest_part (some i) s = drop (suc (suc i)) s

-- `rest.slice(0, i)` and `rest.slice(i + 1)` at the first colon; without one, `i` is -1.
abbrev pub counter_part : Option ℕ → Text → Text
counter_part none s = take (length s - 1) s
counter_part (some i) s = take i s

abbrev pub node_part : Option ℕ → Text → Text
node_part none s = s
node_part (some i) s = drop (suc i) s

-- A stamp whose numbers may be NaN.
pub record Parsed : Type 0 where
  pub wall_time : Option ℕ
  pub counter : Option ℕ
  pub node_id : Text

module _ (dates : Dates) (parse_int : Text → Option ℕ) where
  abbrev pub parse_rest : Option ℕ → Text → Parsed
  parse_rest wall rest = record {
    wall_time = wall;
    counter = parse_int (counter_part (index_of 58 rest) rest);
    node_id = node_part (index_of 58 rest) rest;
  }

  unfoldable pub parse : Text → Parsed
  unfolding index_of
  parse s = parse_rest (dates.get_time (wall_part (index_of 90 s) s)) (rest_part (index_of 90 s) s)

  abbrev pub accept : Option ℕ → Option ℕ → Text → Option Timestamp
  accept (some wall) (some counter) (c ∷ node) =
      some (record { wall_time = wall; counter = counter; node_id = c ∷ node })
  accept _ _ _ = none

  -- `none`: null.
  unfoldable pub try_parse : Text → Option Timestamp
  unfolding parse
  try_parse s = accept (parse s).wall_time (parse s).counter (parse s).node_id
