-- ===== src/Hlc/RoundTrip.antt =====
-- A stamp that `HLC.serialize` writes (packages/hlc/src/index.ts) is the one that `HLC.tryParse` reads.
use sozai.Common.{
  ℕ, suc, ◌<◌, ◌≡◌, ◌≢◌, refl, sym, ap, ◌∙◌, Bool, true, false, Option, none, some, [], ◌∷◌, ◌++◌,
  ◌==◌, if◌then◌else◌, arith, some_injective,
}
use mathlib.Core.List.{append_assoc}
use sozai.Common.Lists.{length, take, drop}
use sozai.Common.Text.{Text}
use sozai.Common.Decimal.{decimal, all_digits, number, number-decimal}
use sozai.Common.Dates.{Dates}
use sozai.Hlc.{Timestamp}
use sozai.Hlc.Serial.{
  Parsed, pad_start, counter_pad, count_and_node, print_after, serialize, index_of, next_index,
  wall_part, rest_part, counter_part, node_part, parse_rest, parse, accept, try_parse,
}
use sozai.Hlc.Digits.{all_digits-pad_start, number-pad_start, length-pad_start, all_digits-decimal}

-- The first place of a character that a text before it does not have.
index_of-append :
    (c : ℕ) (s t : Text) → index_of c s ≡ none → index_of c (s ++ (c ∷ t)) ≡ some (length s)
unfolding index_of
index_of-append c [] t h = ground arith
index_of-append c (d ∷ s) t h = pick (d == c) (index_of c s) h (index_of-append c s t)
  where
    pick :
        (b : Bool) (o : Option ℕ)
        → (if b then some 0 else next_index o) ≡ none
        → (o ≡ none → index_of c (s ++ (c ∷ t)) ≡ some (length s))
        → (if b then some 0 else next_index (index_of c (s ++ (c ∷ t)))) ≡ some (suc (length s))
    pick true o q k = cc
    pick false none q k = ap next_index (k refl)
    pick false (some i) q k = cc

pub take-append : (s t : Text) → take (length s) (s ++ t) ≡ s
take-append [] t = refl
take-append (c ∷ s) t = ap (λ r. c ∷ r) (take-append s t)

drop-append : (s t : Text) → drop (length s) (s ++ t) ≡ t
drop-append [] t = refl
drop-append (c ∷ s) t = drop-append s t

take_more : (s : Text) (c : ℕ) (t : Text) → take (suc (length s)) (s ++ (c ∷ t)) ≡ s ++ (c ∷ [])
take_more [] c t = refl
take_more (d ∷ s) c t = ap (λ r. d ∷ r) (take_more s c t)

drop_more : (s : Text) (c d : ℕ) (t : Text) → drop (suc (suc (length s))) (s ++ (c ∷ d ∷ t)) ≡ t
drop_more [] c d t = refl
drop_more (e ∷ s) c d t = drop_more s c d t

drop_one : (s : Text) (c : ℕ) (t : Text) → drop (suc (length s)) (s ++ (c ∷ t)) ≡ t
drop_one [] c t = refl
drop_one (e ∷ s) c t = drop_one s c t

index_of-digits : (s : Text) → all_digits s ≡ true → index_of 58 s ≡ none
unfolding index_of all_digits
index_of-digits [] h = refl
index_of-digits (c ∷ s) h = ground (arith, h, index_of-digits s)

-- 2^53: smaller natural numbers are exact in JavaScript, and so `Number.parseInt` reads the digits of
-- one as that number.
abbrev pub exact_integers : ℕ
exact_integers = 9_007_199_254_740_992

module _ (dates : Dates) (parse_int : Text → Option ℕ)
    (reads : (s : Text)
      → all_digits s ≡ true
      → s ≢ []
      → number s < exact_integers
      → parse_int s ≡ some (number s)) where
  abbrev parsed : Option ℕ → Option ℕ → Text → Parsed
  parsed wall counter node_id = record { wall_time = wall; counter = counter; node_id = node_id }

  -- The counter and the node of what follows a wall time.
  parse_rest-count_and_node :
      (wall : Option ℕ) (ts : Timestamp)
      → ts.counter < exact_integers
      → parse_rest dates parse_int wall
          (pad_start counter_pad 48 (decimal ts.counter) ++ (58 ∷ ts.node_id))
        ≡ parsed wall (some ts.counter) ts.node_id
  parse_rest-count_and_node wall ts exact =
      let numeral = pad_start counter_pad 48 (decimal ts.counter) in
      let text = numeral ++ (58 ∷ ts.node_id) in
      let all =
        all_digits-pad_start counter_pad (decimal ts.counter) (all_digits-decimal ts.counter) in
      let some_digits : numeral ≢ [] = λ e.
        absurd (omega (arith, length-pad_start counter_pad 48 (decimal ts.counter), ap length e)) in
      ap (λ o. parsed wall (parse_int (counter_part o text)) (node_part o text))
        (index_of-append 58 numeral ts.node_id (index_of-digits numeral all))
      ∙ ap (λ c. parsed wall (parse_int c) (node_part (some (length numeral)) text))
          (take-append numeral (58 ∷ ts.node_id))
      ∙ ap (λ c. parsed wall c (node_part (some (length numeral)) text))
          (reads numeral all some_digits (
            omega (
              arith,
              exact,
              number-pad_start counter_pad (decimal ts.counter) ∙ number-decimal ts.counter,
            )))
      ∙ ap (λ n. parsed wall (some n) (node_part (some (length numeral)) text))
          (number-pad_start counter_pad (decimal ts.counter) ∙ number-decimal ts.counter)
      ∙ ap (parsed wall (some ts.counter)) (drop_one numeral 58 ts.node_id)

  accept-named :
      (ts : Timestamp)
      → ts.node_id ≢ []
      → accept dates parse_int (some ts.wall_time) (some ts.counter) ts.node_id ≡ some ts
  accept-named ts named = by_node ts.node_id named refl
    where
      by_node :
          (node : Text)
          → node ≢ []
          → ts.node_id ≡ node
          → accept dates parse_int (some ts.wall_time) (some ts.counter) node ≡ some ts
      by_node [] h e = absurd (h refl)
      by_node (c ∷ node) h e = cc

  -- A stamp that `serialize` prints is one that `tryParse` accepts, as that stamp, where its
  -- counter is below 2^53, it has a node id, its wall time is printed with one `Z`, at the end, and
  -- `parseInt` reads the digits of a number below 2^53 as that number.
  pub try_parse-serialize :
      (ts : Timestamp) (stem s : Text)
      → dates.to_iso ts.wall_time ≡ some (stem ++ (90 ∷ []))
      → index_of 90 stem ≡ none
      → ts.node_id ≢ []
      → ts.counter < exact_integers
      → serialize dates ts ≡ some s
      → try_parse dates parse_int s ≡ some ts
  unfolding serialize try_parse parse count_and_node
  try_parse-serialize ts stem s iso only named exact h =
      let rest = pad_start counter_pad 48 (decimal ts.counter) ++ (58 ∷ ts.node_id) in
      let text = stem ++ (90 ∷ 58 ∷ rest) in
      let whole : s ≡ text =
        sym (some_injective (sym (ap (λ o. print_after o ts) iso) ∙ h))
        ∙ append_assoc stem (90 ∷ []) (58 ∷ rest) in
      let read : parse dates parse_int text
          ≡ parsed (some ts.wall_time) (some ts.counter) ts.node_id =
        ap (λ o. parse_rest dates parse_int (dates.get_time (wall_part o text)) (rest_part o text))
          (index_of-append 90 stem (58 ∷ rest) only)
        ∙ ap
            (λ w.
              parse_rest dates parse_int (dates.get_time w) (rest_part (some (length stem)) text))
            (take_more stem 90 (58 ∷ rest))
        ∙ ap (parse_rest dates parse_int (dates.get_time (stem ++ (90 ∷ []))))
            (drop_more stem 90 58 rest)
        ∙ ap (λ w. parse_rest dates parse_int w rest)
            (dates.get_time-to_iso ts.wall_time (stem ++ (90 ∷ [])) iso)
        ∙ parse_rest-count_and_node (some ts.wall_time) ts exact in
      ap (try_parse dates parse_int) whole
      ∙ ap (λ p. accept dates parse_int p.wall_time p.counter p.node_id) read
      ∙ accept-named ts named
