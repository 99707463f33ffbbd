-- ===== src/JsonLines/RoundTrip.antt =====
-- `fromJSONLines` on the chunks of `toJSONLines` (packages/stream/src/json-lines.ts).
use mathlib.Core.List.{append_assoc, append-nil}
use sozai.Common.{
  ℕ, ◌+◌, ◌≡◌, refl, ap, ◌∙◌, Bool, true, false, Option, none, some, List, [], ◌∷◌, ◌++◌, map,
  arith, ◌&&◌,
}
use sozai.Common.Lists.{length}
use sozai.Common.Text.{Text}
use sozai.JsonLines.{
  FramingLimits, enqueued, going, Outcome, ◌>>=◌, return, take_line, separator, reset, all_lines,
  flush, after_feed, feed_line, closed, feed, unit, surrogates, feed_end, end_line, emit, emitted,
  check, message_size, buffer_size, chars, join, is_leading, is_trailing, lines_step, next_line,
  from_json_lines, to_json_lines,
}
use sozai.JsonLines.Chunks.{IsLine, next_line-cut, concat, from_json_lines-concat, all_lines-next}
use sozai.JsonLines.Invariants.{IsWithin}
use sozai.JsonLines.Balanced.{IsBalanced, feed-IsBalanced, seen, outside}

-- The characters of a text, put together, are the text.
pub join-chars : (text : Text) → join (chars text) ≡ text
unfolding chars join
join-chars [] = refl
join-chars (u ∷ []) = refl
join-chars (u ∷ v ∷ text) =
    by_test (is_leading u && is_trailing v) (join-chars text) (join-chars (v ∷ text))
  where
    by_test :
        (b : Bool)
        → join (chars text) ≡ text
        → join (chars (v ∷ text)) ≡ v ∷ text
        → join (elim b [ true ↦ surrogates u v ∷ chars text | false ↦ unit u ∷ chars (v ∷ text) ])
          ≡ u ∷ v ∷ text
    by_test true h k = ap (λ t. u ∷ v ∷ t) h
    by_test false h k = ap (λ t. u ∷ t) k

-- One line of balanced text that is not blank, within the limit on messages.
pub record IsMessage (limits : FramingLimits) (text : Text) : Type 0 where
  pub one_line : IsLine text
  pub balanced : IsBalanced (chars text)
  pub visible : seen false (chars text) ≡ true
  pub fits : IsWithin limits.max_message_size (length (chars text))

check_fits :
    {V : Type 0} (limit : Option ℕ) (size : ℕ)
    → IsWithin limit size
    → ◌≡◌ {A = Outcome V Unit} (check limit size message_size) (return tt)
check_fits none size h = refl
check_fits (some most) size h = ground arith

module _ {V : Type 0} (decode : Text → Option V) (limits : FramingLimits)
    (unbounded : limits.max_buffer_size ≡ none) where
  take_line-IsMessage :
      (text rest : Text)
      → IsMessage limits text
      → take_line decode limits text rest reset
        ≡ (emitted decode limits text (decode text) ∷ [], going reset)
  unfolding take_line feed_line end_line emit
  take_line-IsMessage text rest m =
      let cs = chars text in
      let f = outside cs 0 true in
      ap (λ x. feed_end decode limits x >>= after_feed decode limits rest)
        (feed-IsBalanced [] 0 false m.balanced)
      ∙ ap (λ c. after_feed decode limits rest (true, outside cs 0 c)) m.visible
      ∙ ap (λ o. check o (length rest + length cs) buffer_size >>= λ _. end_line decode limits f)
          unbounded
      ∙ ap (λ n. n >>= λ _. emit decode limits f)
          (check_fits limits.max_message_size (length cs) m.fits)
      ∙ ap (λ t. (emitted decode limits t (decode t) ∷ [], going reset)) (join-chars text)

  module _ (encode : V → Text) (decodes : (v : V) → decode (encode v) ≡ some v)
      (encodes : (v : V) → IsMessage limits (encode v)) where
    all_lines-to_json_lines :
        (values : List V)
        → all_lines decode limits (concat (to_json_lines encode values)) reset
          ≡ (map enqueued values, going ([], reset))
    unfolding to_json_lines next_line
    all_lines-to_json_lines [] = all_lines-next decode limits [] reset
    all_lines-to_json_lines (v ∷ rest) =
        let line = encode v in
        let lines = concat (to_json_lines encode rest) in
        ap (λ t. all_lines decode limits t reset) (append_assoc line (separator ∷ []) lines)
        ∙ all_lines-next decode limits (line ++ (separator ∷ lines)) reset
        ∙ ap
            (λ o.
              lines_step decode limits (all_lines decode limits) o (line ++ (separator ∷ lines))
                reset)
            (next_line-cut line lines (encodes v).one_line)
        ∙ ap (λ m. m >>= all_lines decode limits lines) (take_line-IsMessage line lines (encodes v))
        ∙ ap
            (λ o. (
              emitted decode limits line o ∷ (all_lines decode limits lines reset).0,
              (all_lines decode limits lines reset).1,
            ))
            (decodes v)
        ∙ ap (λ m. (enqueued v ∷ m.0, m.1)) (all_lines-to_json_lines rest)

    -- Values that are encoded as lines are decoded from them, in their order, however the lines are
    -- cut into chunks. Each value's text is one line of balanced text that is not blank, within the
    -- limit on messages, and decodes to the value; no bound is set on the buffer.
    pub from_json_lines-to_json_lines :
        (values : List V) (chunks : List Text)
        → concat chunks ≡ concat (to_json_lines encode values)
        → from_json_lines decode limits chunks [] ≡ (map enqueued values, going closed)
    unfolding flush feed_line feed chars
    from_json_lines-to_json_lines values chunks e =
        from_json_lines-concat decode limits unbounded chunks []
        ∙ ap (λ t. all_lines decode limits t reset >>= flush decode limits []) e
        ∙ ap (λ m. m >>= flush decode limits []) (all_lines-to_json_lines values)
        ∙ ap (λ es. (es, going closed)) (append-nil (map enqueued values))
