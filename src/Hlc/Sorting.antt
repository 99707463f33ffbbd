-- ===== src/Hlc/Sorting.antt =====
-- The texts that `HLC.serialize` writes (packages/hlc/src/index.ts) sort by their code units as the
-- stamps do by `HLC.compare`.
use Prim.Native.Nat.{Ordering}
use sozai.Common.{
  ℕ, ◌<◌, ◌≡◌, refl, sym, ap, ◌∙◌, Bool, true, false, Option, none, some, List, [], ◌∷◌, ◌++◌, ◌==◌,
  ltb, if◌then◌else◌, arith, some_injective,
}
use sozai.Common.Lists.{length, All}
use sozai.Common.Text.{Text, text_ltb}
use sozai.Common.Decimal.{decimal}
use sozai.Common.Dates.{Dates}
use sozai.Hlc.{Timestamp, Use, run, new, max_ceiling, stamp, compare_stamps}
use sozai.Hlc.Advance.{Increasing, run-Increasing, run_counter_fits}
use sozai.Hlc.Order.{compare_stamps-IsBefore}
use sozai.Hlc.Serial.{pad_start, count_and_node, print_after, serialize}
use sozai.Hlc.Digits.{digits, text_ltb-digits, pad_start-decimal}

-- Texts of one length come before what follows them.
text_ltb-append :
    (p q s t : Text)
    → length p ≡ length q
    → text_ltb (p ++ s) (q ++ t)
      ≡ (if text_ltb p q then true else if text_ltb q p then false else text_ltb s t)
unfolding text_ltb
text_ltb-append [] [] s t h = refl
text_ltb-append [] (d ∷ q) s t h = absurd (omega (arith, h))
text_ltb-append (c ∷ p) [] s t h = absurd (omega (arith, h))
text_ltb-append (c ∷ p) (d ∷ q) s t h = ground (arith, text_ltb-append p q s t (omega (arith, h)))

text_ltb-count_and_node :
    (a b : Timestamp)
    → a.counter < max_ceiling
    → b.counter < max_ceiling
    → text_ltb (count_and_node a) (count_and_node b) ≡ (
        if ltb a.counter b.counter
        then true
        else if a.counter == b.counter
        then text_ltb a.node_id b.node_id
        else false)
unfolding count_and_node text_ltb
text_ltb-count_and_node a b h k =
    ap
      (λ u.
        text_ltb (u ++ (58 ∷ a.node_id)) (pad_start 8 48 (decimal b.counter) ++ (58 ∷ b.node_id)))
      (pad_start-decimal 7 a.counter h)
    ∙ ap (λ u. text_ltb (digits 8 a.counter ++ (58 ∷ a.node_id)) (u ++ (58 ∷ b.node_id)))
        (pad_start-decimal 7 b.counter k)
    ∙ text_ltb-digits 8 a.counter b.counter (58 ∷ a.node_id) (58 ∷ b.node_id) h k

abbrev pub is_less : Ordering → Bool
is_less Ordering.lt = true
is_less _ = false

is_less-compare_stamps :
    (a b : Timestamp)
    → is_less (compare_stamps a b) ≡ (
        if ltb a.wall_time b.wall_time
        then true
        else if ltb b.wall_time a.wall_time
        then false
        else if ltb a.counter b.counter
        then true
        else if a.counter == b.counter
        then text_ltb a.node_id b.node_id
        else false)
unfolding compare_stamps
is_less-compare_stamps a b = ground arith

-- The first millisecond of the year 10000.
abbrev pub last_time : ℕ
last_time = 253_402_300_800_000

module _ (dates : Dates)
    (sorts : (t u : ℕ) (p q : Text)
      → t < last_time
      → u < last_time
      → dates.to_iso t ≡ some p
      → dates.to_iso u ≡ some q
      → (length p ≡ length q) × (text_ltb p q ≡ ltb t u)) where
  -- Serialized stamps compare by their code units as `compare` compares the stamps, where their
  -- counters have at most eight digits, and `toISOString` sorts the times of years of four digits
  -- and the wall times are such.
  pub text_ltb-serialize :
      (a b : Timestamp) (s t : Text)
      → a.wall_time < last_time
      → b.wall_time < last_time
      → a.counter < max_ceiling
      → b.counter < max_ceiling
      → serialize dates a ≡ some s
      → serialize dates b ≡ some t
      → text_ltb s t ≡ is_less (compare_stamps a b)
  unfolding serialize
  text_ltb-serialize a b s t ha hb ca cb sa sb =
      printed (dates.to_iso a.wall_time) (dates.to_iso b.wall_time) refl refl sa sb
    where
      printed :
          (o r : Option Text)
          → dates.to_iso a.wall_time ≡ o
          → dates.to_iso b.wall_time ≡ r
          → print_after o a ≡ some s
          → print_after r b ≡ some t
          → text_ltb s t ≡ is_less (compare_stamps a b)
      printed none r e f h k = cc
      printed (some p) none e f h k = cc
      printed (some p) (some q) e f h k =
          let (sizes, forth) = sorts a.wall_time b.wall_time p q ha hb e f in
          let (_, back) = sorts b.wall_time a.wall_time q p hb ha f e in
          ap (λ u. text_ltb u t) (sym (some_injective h))
          ∙ ap (text_ltb (p ++ count_and_node a)) (sym (some_injective k))
          ∙ text_ltb-append p q (count_and_node a) (count_and_node b) sizes
          ∙ ap
              (λ x.
                if x
                then true
                else if text_ltb q p
                then false
                else text_ltb (count_and_node a) (count_and_node b))
              forth
          ∙ ap
              (λ x.
                if ltb a.wall_time b.wall_time
                then true
                else if x
                then false
                else text_ltb (count_and_node a) (count_and_node b))
              back
          ∙ ap
              (λ x.
                if ltb a.wall_time b.wall_time
                then true
                else if ltb b.wall_time a.wall_time
                then false
                else x)
              (text_ltb-count_and_node a b ca cb)
          ∙ sym (is_less-compare_stamps a b)

  -- The texts of stamps.
  abbrev pub Prints : List Timestamp → List Text → Type 0
  Prints [] [] = Unit
  Prints (ts ∷ stamps) (s ∷ texts) = (serialize dates ts ≡ some s) × Prints stamps texts
  Prints _ _ = ⊥

  -- Each text comes before the next.
  abbrev pub Rises : List Text → Type 0
  Rises [] = Unit
  Rises (s ∷ []) = Unit
  Rises (s ∷ t ∷ texts) = (text_ltb s t ≡ true) × Rises (t ∷ texts)

  printed-Rises :
      (t : Timestamp) (stamps : List Timestamp) (texts : List Text)
      → Increasing t stamps
      → All (λ s. s.counter < max_ceiling) stamps
      → All (λ s. s.wall_time < last_time) stamps
      → Prints stamps texts
      → Rises texts
  printed-Rises t [] [] inc counters walls print = tt
  printed-Rises t [] (s ∷ texts) inc counters walls print = absurd print
  printed-Rises t (a ∷ stamps) [] inc counters walls print = absurd print
  printed-Rises t (a ∷ []) (s ∷ []) inc counters walls print = tt
  printed-Rises t (a ∷ []) (s ∷ u ∷ texts) inc counters walls (p, print) = absurd print
  printed-Rises t (a ∷ b ∷ stamps) (s ∷ []) inc counters walls (p, print) = absurd print
  printed-Rises t (a ∷ b ∷ stamps) (s ∷ u ∷ texts) (_, (before, inc)) (ca, (cb, counters))
        (wa, (wb, walls)) (pa, (pb, print)) =
      (
        text_ltb-serialize a b s u wa wb ca cb pa pb
            ∙ ap is_less (compare_stamps-IsBefore a b before),
        printed-Rises a (b ∷ stamps) (u ∷ texts) (before, inc) (cb, counters) (wb, walls)
            (pb, print),
      )

  -- Through any mints, peer stamps and readings of the physical clock, the serialized stamps of a
  -- new clock sort by their code units in the order in which it returned them, whatever ceiling was
  -- asked for, where `toISOString` sorts the times of years of four digits and the wall times are
  -- such.
  pub run-Rises :
      (id : Text) (ceiling : Option ℕ) (uses : List Use) (texts : List Text)
      → All (λ s. s.wall_time < last_time) (run (new id ceiling) uses)
      → Prints (run (new id ceiling) uses) texts
      → Rises texts
  run-Rises id ceiling uses texts walls print =
      printed-Rises (stamp (new id ceiling)) (run (new id ceiling) uses) texts
        (run-Increasing (new id ceiling) uses) (run_counter_fits id ceiling uses) walls print
