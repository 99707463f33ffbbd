-- ===== src/JsonLines/Sizes.antt =====
-- The limits of `fromJSONLines` (packages/stream/src/json-lines.ts) on the buffer and on messages.
use sozai.Common.{
  ℕ, suc, ◌+◌, ◌≤◌, ◌≡◌, refl, ap, ◌∙◌, Bool, true, false, Option, some, List, [], ◌∷◌, ◌++◌, arith,
  ◌==◌, not, ◌&&◌, if◌then◌else◌,
}
use mathlib.Core.Path.{subst}
use sozai.Common.Lists.{length, length-append}
use sozai.Common.Text.{Text}
use sozai.JsonLines.{
  FramingLimits, Frame, ◌>>=◌, return, take_line, transform_chunk, separator, reset, all_lines,
  after_feed, feed_line, feed, process_char, process_in_string, process_outside, Char, unit,
  surrogates, feed_end, end_line, emit, invalidate, check, message_size, buffer_size, push, chars,
  check_output_size, is_leading, is_trailing, is_backslash, is_quote, is_opening, is_closing,
}
use sozai.JsonLines.Invariants.{Ends, Ends-mono, >>=-Ends, IsWithin, check-Ends, lines_loop-Ends}

-- Whichever way a test goes, `g` gives `z`.
if_maps :
    {A B : Type 0} (g : A → B) (b : Bool) {x y : A} {z : B}
    → g x ≡ z
    → g y ≡ z
    → g (if b then x else y) ≡ z
if_maps g true p q = p
if_maps g false p q = q

pub process_char-output :
    (char : Char) (f : Frame) → (process_char char f).1.output ≡ f.output ++ (char ∷ [])
unfolding process_char process_in_string process_outside
process_char-output char f =
    if_maps (λ (x : Bool × Frame). x.1.output) f.is_in_string
      (if_maps (λ (g : Frame). g.output) (is_backslash char) refl refl)
      (if_maps (λ (x : Bool × Frame). x.1.output) (is_quote char) refl
        (if_maps (λ (x : Bool × Frame). x.1.output) (is_opening char) refl
          (if_maps (λ (x : Bool × Frame). x.1.output) (is_closing char) refl refl)))

process_char-length :
    (char : Char) (f : Frame) → length (process_char char f).1.output ≡ length f.output + 1
process_char-length char f =
    ap length (process_char-output char f) ∙ length-append f.output (char ∷ [])

feed-length :
    (corrupt : Bool) (f : Frame) (cs : List Char)
    → length (feed corrupt f cs).1.output ≡ length f.output + length cs
unfolding feed
feed-length corrupt f [] = omega arith
feed-length true f (char ∷ rest) =
    omega (arith, feed-length true (push char f) rest, length-append f.output (char ∷ []))
feed-length false f (char ∷ rest) = omega (
  arith,
  process_char-length char f,
  feed-length (not (process_char char f).0) (process_char char f).1 rest,
)

-- A text has at most as many characters as code units.
chars-length : (text : Text) → length (chars text) ≤ length text
unfolding chars
chars-length [] = omega arith
chars-length (u ∷ []) = omega arith
chars-length (u ∷ v ∷ text) =
    by_test (is_leading u && is_trailing v) (chars-length text) (chars-length (v ∷ text))
  where
    by_test :
        (b : Bool)
        → length (chars text) ≤ length text
        → length (chars (v ∷ text)) ≤ length (v ∷ text)
        → length (elim b [ true ↦ surrogates u v ∷ chars text | false ↦ unit u ∷ chars (v ∷ text) ])
          ≤ length (u ∷ v ∷ text)
    by_test true h k = omega (arith, h)
    by_test false h k = omega (arith, k)

module _ {V : Type 0} (decode : Text → Option V) (limits : FramingLimits) where
  -- What stays in memory between two lines.
  abbrev pub live : Text → Frame → ℕ
  live input f = length input + length f.output

  end_line-live :
      (f : Frame) → Ends (λ g. length g.output ≤ length f.output) (end_line decode limits f).1
  unfolding end_line emit invalidate
  end_line-live f = by_tests f.is_in_string (f.nesting_depth == 0) f.has_content
    where
      by_tests :
          (quoted top content : Bool)
          → Ends
              (λ g. length g.output ≤ length f.output)
              (if quoted
                then invalidate decode limits f
                else if top && content
                then (check_output_size decode limits f >>= λ _. emit decode limits f)
                else return (if top then reset else f)).1
      by_tests true top content = omega arith
      by_tests false true true =
          >>=-Ends (λ g. length g.output ≤ length f.output) (check_output_size decode limits f)
            (λ _. emit decode limits f)
            (check-Ends V limits.max_message_size (length f.output) message_size)
            (λ _ _. omega arith)
      by_tests false true false = omega arith
      by_tests false false content = omega arith

  take_line-live :
      (most : ℕ) (line rest : Text) (f : Frame)
      → live (line ++ (separator ∷ rest)) f ≤ most
      → Ends (λ g. live rest g ≤ most) (take_line decode limits line rest f).1
  unfolding take_line feed_line invalidate
  take_line-live most line rest f h = fed (feed false f (chars line)) (
      omega (
        arith,
        feed-length false f (chars line),
        chars-length line,
        length-append line (separator ∷ rest),
        h,
      ))
    where
      after :
          (b : Bool) (g : Frame)
          → live rest g ≤ most
          → Ends (λ k. live rest k ≤ most) (after_feed decode limits rest (b, g)).1
      after false g fits = fits
      after true g fits =
          >>=-Ends (λ k. live rest k ≤ most)
            (check limits.max_buffer_size (live rest g) buffer_size) (λ _. end_line decode limits g)
            (check-Ends V limits.max_buffer_size (live rest g) buffer_size)
            (λ _ _.
              Ends-mono (λ k. live rest k ≤ most) (end_line decode limits g).1 (end_line-live g)
                (λ k le. omega (arith, le, fits)))

      fed :
          (x : Bool × Frame)
          → live rest x.1 ≤ most
          → Ends
              (λ k. live rest k ≤ most)
              (feed_end decode limits x >>= after_feed decode limits rest).1
      fed (true, g) k = omega (arith, k)
      fed (false, g) k = after true g k

  -- Under a bound on the buffer, what a chunk leaves in memory between two chunks, the buffer's
  -- code units and the frame's characters, is within it; or the chunk errors.
  pub transform_chunk_fits :
      (most : ℕ)
      → limits.max_buffer_size ≡ some most
      → (chunk : Text) (s : Text × Frame)
      → Ends (λ (rest, g). live rest g ≤ most) (transform_chunk decode limits chunk s).1
  unfolding transform_chunk
  transform_chunk_fits most bound chunk (input, f) =
      >>=-Ends (λ (rest, g). live rest g ≤ most)
        (check limits.max_buffer_size (live (input ++ chunk) f) buffer_size)
        (λ _. all_lines decode limits (input ++ chunk) f)
        (check-Ends V limits.max_buffer_size (live (input ++ chunk) f) buffer_size)
        (λ _ h.
          Ends-mono (λ (rest, g). live rest g ≤ most) (all_lines decode limits (input ++ chunk) f).1
            (lines_loop-Ends decode limits (λ (rest, g). live rest g ≤ most) (take_line-live most)
              (suc (length (input ++ chunk))) (input ++ chunk) f (omega arith)
              (subst (λ o. IsWithin o (live (input ++ chunk) f)) bound h))
            (λ s (fits, line). fits))
