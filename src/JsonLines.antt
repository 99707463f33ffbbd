-- ===== src/JsonLines.antt =====
-- packages/stream/src/json-lines.ts: the framer of `fromJSONLines` and the lines of `toJSONLines`.
-- A chunk is the text that the TextDecoder gives for it. `decode` is `JSON.parse` or the caller's,
-- with `none` where it throws, and `onInvalidJSON` only records the text that it is given.
pub mod Chunks
pub mod Invariants
pub mod Sizes
pub mod Balanced
pub mod RoundTrip
mod Tests
use sozai.Common.{
  ℕ, zero, suc, ◌+◌, ◌-◌, Bool, true, false, not, ◌&&◌, ◌||◌, Option, none, some, List, [], ◌∷◌,
  ◌++◌, ltb, leb, ◌==◌, if◌then◌else◌,
}
use sozai.Common.Lists.{length}
use sozai.Common.Text.{Text}

-- The strings that `for (const char of text)` yields: a code unit, or a pair of surrogates.
pub data Char : Type 0 where
  unit : ℕ → Char
  surrogates : ℕ → ℕ → Char

abbrev pub is_leading : ℕ → Bool
is_leading u = leb 55_296 u && ltb u 56_320

abbrev pub is_trailing : ℕ → Bool
is_trailing u = leb 56_320 u && ltb u 57_344

unfoldable pub chars : Text → List Char
chars [] = []
chars (u ∷ []) = unit u ∷ []
chars (u ∷ v ∷ text) = elim (is_leading u && is_trailing v) [
  | true ↦ surrogates u v ∷ chars text
  | false ↦ unit u ∷ chars (v ∷ text)
]

-- `output.join('')`
unfoldable pub join : List Char → Text
join [] = []
join (unit u ∷ rest) = u ∷ join rest
join (surrogates u v ∷ rest) = u ∷ v ∷ join rest

-- `char === c`, for an ASCII `c`.
abbrev pub is : Char → ℕ → Bool
is (unit u) c = u == c
is (surrogates u v) c = false

-- `char.charCodeAt(0)`
abbrev pub char_code : Char → ℕ
char_code (unit u) = u
char_code (surrogates u v) = u

abbrev pub separator : ℕ
separator = 10

-- Characters that the framer tells apart.
abbrev pub is_quote : Char → Bool
is_quote char = is char 34

abbrev pub is_backslash : Char → Bool
is_backslash char = is char 92

abbrev pub is_opening : Char → Bool
is_opening char = is char 123 || is char 91

abbrev pub is_closing : Char → Bool
is_closing char = is char 125 || is char 93

pub record FramingLimits : Type 0 where
  pub max_buffer_size : Option ℕ
  pub max_message_size : Option ℕ

-- The sizes that the two messages of a JSONLinesError name.
pub data JsonLinesError : Type 0 where
  message_size buffer_size : ℕ → ℕ → JsonLinesError

-- The framer's variables but `input`.
pub record Frame : Type 0 where
  pub output : List Char
  pub nesting_depth : ℕ
  pub is_in_string : Bool
  pub is_escaping_char : Bool
  pub has_content : Bool

-- What `resetFramer` leaves.
abbrev pub reset : Frame
reset = record {
  output = [];
  nesting_depth = 0;
  is_in_string = false;
  is_escaping_char = false;
  has_content = false;
}

-- `output.push(char)`
abbrev pub push : Char → Frame → Frame
push char f = record f { output = f.output ++ (char ∷ []) }

unfoldable pub process_in_string : Char → Frame → Frame
process_in_string char f =
    if is_backslash char
    then push char (record f { is_escaping_char = not f.is_escaping_char })
    else push char (record f {
      is_in_string = not (is_quote char && not f.is_escaping_char);
      is_escaping_char = false;
    })

unfoldable pub process_outside : Char → Frame → Bool × Frame
process_outside char f =
    if is_quote char
    then (true, push char (record f { is_in_string = true; has_content = true }))
    else if is_opening char
    then (true, push char (record f { nesting_depth = f.nesting_depth + 1; has_content = true }))
    else if is_closing char
    then (not (f.nesting_depth == 0), push char (record f { nesting_depth = f.nesting_depth - 1 }))
    else (true, push char (record f { has_content = f.has_content || ltb 32 (char_code char) }))

-- With `false`, the character closes a bracket that is not open.
unfoldable pub process_char : Char → Frame → Bool × Frame
unfolding process_in_string process_outside
process_char char f =
    if f.is_in_string then (true, process_in_string char f) else process_outside char f

-- The loop of `feedLine`, with `corrupt` and the frame.
unfoldable pub feed : Bool → Frame → List Char → Bool × Frame
unfolding process_char
feed corrupt f [] = (corrupt, f)
feed true f (char ∷ rest) = feed true (push char f) rest
feed false f (char ∷ rest) = let step = process_char char f in feed (not step.0) step.1 rest

-- What the stream's reader and `onInvalidJSON` are given.
pub data Event (V : Type 0) : Type 0 where
  enqueued : V → Event V
  invalid : Text → Event V

-- How code that may throw ends; `out_of_fuel` is of the model's loops alone.
pub data Ended (A : Type 0) : Type 0 where
  going : A → Ended A
  thrown : JsonLinesError → Ended A
  out_of_fuel : Ended A

abbrev pub Outcome : Type 0 → Type 0 → Type 0
Outcome V A = List (Event V) × Ended A

-- What follows, with the events before it kept.
infixl 5 ◌>>=◌
abbrev pub ◌>>=◌ : {V A B : Type 0} → Outcome V A → (A → Outcome V B) → Outcome V B
(events, going value) >>= next = (events ++ (next value).0, (next value).1)
(events, thrown e) >>= next = (events, thrown e)
(events, out_of_fuel) >>= next = (events, out_of_fuel)

abbrev pub return : {V A : Type 0} → A → Outcome V A
return value = ([], going value)

abbrev pub check : {V : Type 0} → Option ℕ → ℕ → (ℕ → ℕ → JsonLinesError) → Outcome V Unit
check none size error = return tt
check (some most) size error = if ltb most size then ([], thrown (error size most)) else return tt

-- `input.indexOf(SEPARATOR)` and the two slices at it: at the first code unit, or at `found`.
abbrev pub cut_at : Bool → ℕ → Text → Option (Text × Text) → Option (Text × Text)
cut_at true u text found = some ([], text)
cut_at false u text none = none
cut_at false u text (some (line, rest)) = some (u ∷ line, rest)

unfoldable pub next_line : Text → Option (Text × Text)
next_line [] = none
next_line (u ∷ text) = cut_at (u == separator) u text (next_line text)

-- The end of a stream that errors or not.
pub data Finish : Type 0 where
  closed : Finish

module _ {V : Type 0} (decode : Text → Option V) (limits : FramingLimits) where
  abbrev pub emitted : Text → Option V → Event V
  emitted value none = invalid value
  emitted value (some v) = enqueued v

  unfoldable pub emit : Frame → Outcome V Frame
  unfolding join
  emit f = (emitted (join f.output) (decode (join f.output)) ∷ [], going reset)

  unfoldable pub invalidate : Frame → Outcome V Frame
  unfolding join
  invalidate f = (invalid (join f.output) ∷ [], going reset)

  abbrev pub feed_end : Bool × Frame → Outcome V (Bool × Frame)
  feed_end (true, f) = invalidate f >>= λ g. return (false, g)
  feed_end (false, f) = return (true, f)

  unfoldable pub feed_line : Text → Frame → Outcome V (Bool × Frame)
  unfolding feed chars invalidate
  feed_line line f = feed_end (feed false f (chars line))

  abbrev pub check_output_size : Frame → Outcome V Unit
  check_output_size f = check limits.max_message_size (length f.output) message_size

  abbrev pub check_buffer_size : Text → Frame → Outcome V Unit
  check_buffer_size input f =
      check limits.max_buffer_size (length input + length f.output) buffer_size

  -- What the loop does with a frame after its line.
  unfoldable pub end_line : Frame → Outcome V Frame
  unfolding emit invalidate
  end_line f =
      if f.is_in_string
      then invalidate f
      else if (f.nesting_depth == 0) && f.has_content
      then (check_output_size f >>= λ _. emit f)
      else return (if f.nesting_depth == 0 then reset else f)

  abbrev pub after_feed : Text → Bool × Frame → Outcome V Frame
  after_feed input (false, f) = return f
  after_feed input (true, f) = check_buffer_size input f >>= λ _. end_line f

  -- The body of the loop, where `input` is what follows the line.
  unfoldable pub take_line : Text → Text → Frame → Outcome V Frame
  unfolding feed_line end_line
  take_line line input f = feed_line line f >>= after_feed input

  abbrev pub lines_step :
      (Text → Frame → Outcome V (Text × Frame))
      → Option (Text × Text)
      → Text
      → Frame
      → Outcome V (Text × Frame)
  lines_step loop none input f = return (input, f)
  lines_step loop (some (line, rest)) input f = take_line line rest f >>= loop rest

  -- The `while` loop.
  unfoldable pub lines_loop : ℕ → Text → Frame → Outcome V (Text × Frame)
  unfolding next_line take_line
  lines_loop zero input f = ([], out_of_fuel)
  lines_loop (suc fuel) input f = lines_step (lines_loop fuel) (next_line input) input f

  -- The loop with as many rounds as the input has code units, and one.
  abbrev pub all_lines : Text → Frame → Outcome V (Text × Frame)
  all_lines input f = lines_loop (suc (length input)) input f

  -- The transform callback, at the state of the input and the frame.
  unfoldable pub transform_chunk : Text → Text × Frame → Outcome V (Text × Frame)
  unfolding lines_loop
  transform_chunk chunk (input, f) =
      check_buffer_size (input ++ chunk) f >>= λ _. all_lines (input ++ chunk) f

  abbrev pub flush_end : Bool × Frame → Outcome V Finish
  flush_end (false, f) = return closed
  flush_end (true, f) =
      if f.is_in_string || ltb 0 f.nesting_depth
      then (invalidate f >>= λ _. return closed)
      else if f.has_content
      then ((check_output_size f >>= λ _. emit f) >>= λ _. return closed)
      else return closed

  -- The flush callback; `remains` is what the TextDecoder still holds.
  unfoldable pub flush : Text → Text × Frame → Outcome V Finish
  unfolding feed_line emit invalidate
  flush remains (input, f) = feed_line (input ++ remains) f >>= flush_end

  -- The chunks that a stream writes, one after the other, until one errors.
  unfoldable pub transform_chunks : List Text → Text × Frame → Outcome V (Text × Frame)
  unfolding transform_chunk
  transform_chunks [] s = return s
  transform_chunks (chunk ∷ rest) s = transform_chunk chunk s >>= transform_chunks rest

  -- All that a stream of these chunks gives.
  unfoldable pub from_json_lines : List Text → Text → Outcome V Finish
  unfolding transform_chunks flush
  from_json_lines chunks remains = transform_chunks chunks ([], reset) >>= flush remains

-- The chunks of `toJSONLines` for values that `encode` does not throw at.
unfoldable pub to_json_lines : {V : Type 0} → (V → Text) → List V → List Text
to_json_lines encode [] = []
to_json_lines encode (v ∷ rest) = (encode v ++ (separator ∷ [])) ∷ to_json_lines encode rest
