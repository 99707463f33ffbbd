-- ===== src/JsonLines/Invariants.antt =====
-- What holds of the framer of packages/stream/src/json-lines.ts between two chunks.
use mathlib.Core.Path.{subst}
use sozai.Common.{
  ℕ, zero, suc, ◌+◌, ◌≤◌, ◌<◌, ◌≡◌, refl, sym, Bool, true, false, Option, none, some, List, [], ◌∷◌,
  ◌++◌, arith, ◌==◌, ==_iff, not, ◌&&◌, ltb, if◌then◌else◌,
}
use sozai.Common.Lists.{length}
use sozai.Common.Text.{Text}
use sozai.JsonLines.{
  FramingLimits, Frame, Ended, going, thrown, out_of_fuel, Outcome, ◌>>=◌, return, next_line,
  take_line, lines_loop, transform_chunk, separator, reset, lines_step, all_lines, after_feed,
  feed_line, feed, process_char, process_in_string, process_outside, Char, check_output_size,
  feed_end, end_line, emit, invalidate, check, message_size, buffer_size, JsonLinesError, push,
  chars,
}
use sozai.JsonLines.Chunks.{Cuts, next_line-Cuts, IsLine, cut-length}

-- Code that goes on with a value that satisfies `R`, or throws.
abbrev pub Ends : {A : Type 0} → (A → Type 0) → Ended A → Type 0
Ends R (going a) = R a
Ends R (thrown e) = Unit
Ends R out_of_fuel = ⊥

pub >>=-Ends :
    {V A B : Type 0} {R : A → Type 0} (S : B → Type 0) (m : Outcome V A) (next : A → Outcome V B)
    → Ends R m.1
    → ((a : A) → R a → Ends S (next a).1)
    → Ends S (m >>= next).1
>>=-Ends S (es, going a) next r h = h a r
>>=-Ends S (es, thrown e) next r h = tt
>>=-Ends S (es, out_of_fuel) next r h = r

pub Ends-mono :
    {A : Type 0} {R : A → Type 0} (S : A → Type 0) (m : Ended A)
    → Ends R m
    → ((a : A) → R a → S a)
    → Ends S m
Ends-mono S (going a) r h = h a r
Ends-mono S (thrown e) r h = tt
Ends-mono S out_of_fuel r h = r

-- A size within a limit that may be missing.
abbrev pub IsWithin : Option ℕ → ℕ → Type 0
IsWithin none size = Unit
IsWithin (some most) size = size ≤ most

pub check-Ends :
    (V : Type 0) (limit : Option ℕ) (size : ℕ) (error : ℕ → ℕ → JsonLinesError)
    → Ends (λ _. IsWithin limit size) (check {V = V} limit size error).1
check-Ends V none size error = tt
check-Ends V (some most) size error = by_test (ltb most size) refl
  where
    by_test :
        (b : Bool)
        → (ltb most size) ≡ b
        → Ends
            (λ _. size ≤ most)
            (if b then ([], thrown (error size most)) else return {V = V} tt).1
    by_test true e = tt
    by_test false e = ground arith

-- A frame outside a string, empty unless a bracket is open.
pub record IsBetween (f : Frame) : Type 0 where
  pub outside : f.is_in_string ≡ false
  pub unescaped : f.is_escaping_char ≡ false
  pub empty : f.nesting_depth ≡ 0 → f ≡ reset

-- A character is escaped only inside a string.
abbrev IsEscaped : Frame → Type 0
IsEscaped f = f.is_in_string ≡ false → f.is_escaping_char ≡ false

process_char-IsEscaped : (char : Char) (f : Frame) → IsEscaped f → IsEscaped (process_char char f).1
unfolding process_char process_in_string process_outside
process_char-IsEscaped char f h = ground arith

feed-IsEscaped :
    (corrupt : Bool) (f : Frame) (cs : List Char)
    → IsEscaped f
    → (feed corrupt f cs).0 ≡ false
    → IsEscaped (feed corrupt f cs).1
unfolding feed
feed-IsEscaped corrupt f [] h e = h
feed-IsEscaped true f (char ∷ rest) h e = feed-IsEscaped true (push char f) rest h e
feed-IsEscaped false f (char ∷ rest) h e =
    feed-IsEscaped (not (process_char char f).0) (process_char char f).1 rest
      (process_char-IsEscaped char f h) e

pub reset-IsBetween : IsBetween reset
reset-IsBetween = record { outside = refl; unescaped = refl; empty = λ _. refl }

module _ {V : Type 0} (decode : Text → Option V) (limits : FramingLimits) where
  end_line-IsBetween : (f : Frame) → IsEscaped f → Ends IsBetween (end_line decode limits f).1
  unfolding end_line emit invalidate
  end_line-IsBetween f h =
      by_tests f.is_in_string refl (f.nesting_depth == 0) ((==_iff f.nesting_depth 0).1)
        f.has_content
    where
      by_tests :
          (quoted : Bool)
          → f.is_in_string ≡ quoted
          → (top : Bool) → (f.nesting_depth ≡ 0 → top ≡ true)
          → (content : Bool)
          → Ends IsBetween
              (if quoted
                then invalidate decode limits f
                else if top && content
                then (check_output_size decode limits f >>= λ _. emit decode limits f)
                else return (if top then reset else f)).1
      by_tests true e top t content = reset-IsBetween
      by_tests false e true t true =
          >>=-Ends IsBetween (check_output_size decode limits f) (λ _. emit decode limits f)
            (check-Ends V limits.max_message_size (length f.output) message_size)
            (λ _ _. reset-IsBetween)
      by_tests false e true t false = reset-IsBetween
      by_tests false e false t content = record {
        outside = e;
        unescaped = h e;
        empty = λ d. cc (t d);
      }

  after_feed-IsBetween :
      (input : Text) (x : Bool × Frame)
      → (x.0 ≡ true → IsEscaped x.1)
      → (x.0 ≡ false → IsBetween x.1)
      → Ends IsBetween (after_feed decode limits input x).1
  after_feed-IsBetween input (false, f) h k = k refl
  after_feed-IsBetween input (true, f) h k =
      >>=-Ends IsBetween (check limits.max_buffer_size (length input + length f.output) buffer_size)
        (λ _. end_line decode limits f)
        (check-Ends V limits.max_buffer_size (length input + length f.output) buffer_size)
        (λ _ _. end_line-IsBetween f (h refl))

  take_line-IsBetween :
      (line input : Text) (f : Frame)
      → IsBetween f
      → Ends IsBetween (take_line decode limits line input f).1
  unfolding take_line feed_line invalidate
  take_line-IsBetween line input f b =
      fed (feed false f (chars line)) (feed-IsEscaped false f (chars line) (λ _. b.unescaped))
    where
      fed :
          (x : Bool × Frame)
          → (x.0 ≡ false → IsEscaped x.1)
          → Ends IsBetween (feed_end decode limits x >>= after_feed decode limits input).1
      fed (true, g) h = reset-IsBetween
      fed (false, g) h = after_feed-IsBetween input (true, g) (λ _. h refl) (λ e. cc)

  -- What every line keeps holds after the loop, which leaves no line and never runs out of fuel.
  pub lines_loop-Ends :
      (R : Text × Frame → Type 0)
      → ((line rest : Text) (f : Frame)
          → R (line ++ (separator ∷ rest), f)
          → Ends (λ g. R (rest, g)) (take_line decode limits line rest f).1)
      → (n : ℕ) (input : Text) (f : Frame) → length input < n
      → R (input, f)
      → Ends (λ s. R s × IsLine s.0) (lines_loop decode limits n input f).1
  unfolding lines_loop
  lines_loop-Ends R keeps zero input f h r = absurd (omega arith)
  lines_loop-Ends R keeps (suc n) input f h r =
      with_cut (next_line input) (next_line-Cuts input) (λ rest g. lines_loop-Ends R keeps n rest g)
    where
      with_cut :
          (o : Option (Text × Text))
          → Cuts input o
          → ((rest : Text) (g : Frame)
              → length rest < n
              → R (rest, g)
              → Ends (λ s. R s × IsLine s.0) (lines_loop decode limits n rest g).1)
          → Ends
              (λ s. R s × IsLine s.0)
              (lines_step decode limits (lines_loop decode limits n) o input f).1
      with_cut none c later = (r, c)
      with_cut (some (line, rest)) (e, c) later =
          let shorter : length rest < n =
            omega (arith, h, subst (λ t. length rest < length t) (sym e) (cut-length line rest)) in
          >>=-Ends (λ s. R s × IsLine s.0) (take_line decode limits line rest f)
            (lines_loop decode limits n rest) (keeps line rest f (subst (λ t. R (t, f)) e r))
            (λ g k. later rest g shorter k)

  -- Each chunk leaves the framer outside a string, its frame empty unless a bracket is open, and no
  -- whole line in its buffer; or it errors. The loop never runs out of fuel.
  pub transform_chunk-IsBetween :
      (chunk input : Text) (f : Frame)
      → IsBetween f
      → Ends
          (λ (rest, g). IsBetween g × IsLine rest)
          (transform_chunk decode limits chunk (input, f)).1
  unfolding transform_chunk
  transform_chunk-IsBetween chunk input f b =
      >>=-Ends (λ (rest, g). IsBetween g × IsLine rest)
        (check limits.max_buffer_size (length (input ++ chunk) + length f.output) buffer_size)
        (λ _. all_lines decode limits (input ++ chunk) f)
        (check-Ends V limits.max_buffer_size (length (input ++ chunk) + length f.output)
          buffer_size)
        (λ _ _.
          lines_loop-Ends (λ s. IsBetween s.1) take_line-IsBetween (suc (length (input ++ chunk)))
            (input ++ chunk) f (omega arith) b)
