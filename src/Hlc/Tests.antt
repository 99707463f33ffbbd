-- ===== src/Hlc/Tests.antt =====
-- Runs of the clock at concrete inputs, and instances of its theorems.
use sozai.Common.{ℕ, ◌≡◌, refl, true, false, some, List, [], ◌∷◌}
use sozai.Common.Text.{txt}
use sozai.Hlc.{Timestamp, Hlc, Use, mint, hear, new, stamp, run}
use sozai.Hlc.Advance.{Increasing, run-Increasing}

abbrev at_time : ℕ → ℕ → Timestamp
at_time w c = record { wall_time = w; counter = c; node_id = txt "a" }

abbrev clock : Hlc
clock = record { node_id = txt "a"; last_wall_time = 5; last_counter = 1; counter_ceiling = 3 }

abbrev uses : List Use
uses = mint false 9 ∷ mint false 7 ∷ mint true 99 ∷ hear 4 (at_time 9 1) ∷ []

run_test : run (new (txt "a") (some 2)) uses ≡ at_time 9 0 ∷ at_time 9 1 ∷ at_time 10 0 ∷ []
unfolding run new
run_test = refl

run_example : Increasing (stamp clock) (run clock uses)
run_example = run-Increasing clock uses
