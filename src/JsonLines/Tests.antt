-- ===== src/JsonLines/Tests.antt =====
-- The framer of packages/stream/src/json-lines.ts at concrete streams.
use sozai.Common.{
  ◌≤◌, ◌≡◌, refl, Bool, true, false, Option, none, some, [], ◌∷◌, ◌++◌, if◌then◌else◌,
}
use sozai.Common.Text.{Text, txt, same}
use sozai.JsonLines.{
  FramingLimits, enqueued, invalid, going, thrown, message_size, buffer_size, closed, reset,
  transform_chunk, from_json_lines, to_json_lines, unit, chars,
}
use sozai.JsonLines.Chunks.{from_json_lines-any_chunks, IsLine}
use sozai.JsonLines.Invariants.{Ends, IsBetween, transform_chunk-IsBetween, reset-IsBetween}
use sozai.JsonLines.Sizes.{live, transform_chunk_fits}
use sozai.JsonLines.Balanced.{done, other, quoted, nested, ends, brackets, escaped}
use sozai.JsonLines.RoundTrip.{IsMessage, from_json_lines-to_json_lines}

abbrev decode : Text → Option Text
decode text = if same text (txt "[x") then none else some text

abbrev no_limits : FramingLimits
no_limits = record { max_buffer_size = none; max_message_size = none }

abbrev tight : FramingLimits
tight = record { max_buffer_size = some 12; max_message_size = some 3 }

abbrev nl : Text
nl = 10 ∷ []

-- `"x"` with a character of two code units for `x`.
abbrev astral : Text
astral = 34 ∷ 55_357 ∷ 56_832 ∷ 34 ∷ []

two_lines :
    from_json_lines decode no_limits ((txt "[1" ++ nl) ∷ (txt "]" ++ nl ++ nl ++ txt "2") ∷ []) []
    ≡ (enqueued (txt "[1]") ∷ enqueued (txt "2") ∷ [], going closed)
unfolding from_json_lines same
two_lines = refl

unbalanced :
    from_json_lines decode no_limits ((txt "[1]]2" ++ nl ++ txt "3" ++ nl) ∷ []) []
    ≡ (invalid (txt "[1]]2") ∷ enqueued (txt "3") ∷ [], going closed)
unfolding from_json_lines same
unbalanced = refl

open_string :
    from_json_lines decode no_limits ((34 ∷ nl ++ txt "4" ++ nl) ∷ []) []
    ≡ (invalid (34 ∷ []) ∷ enqueued (txt "4") ∷ [], going closed)
unfolding from_json_lines same
open_string = refl

too_long :
    from_json_lines decode tight ((txt "1" ++ nl) ∷ (txt "1234" ++ nl) ∷ txt "5" ∷ []) []
    ≡ (enqueued (txt "1") ∷ [], thrown (message_size 4 3))
unfolding from_json_lines same
too_long = refl

too_much :
    from_json_lines decode tight (txt "123456" ∷ txt "1234567" ∷ []) []
    ≡ ([], thrown (buffer_size 13 12))
unfolding from_json_lines
too_much = refl

-- A message of four code units is within a limit of three characters.
astral_sizes :
    from_json_lines decode tight ((astral ++ nl) ∷ []) [] ≡ (enqueued astral ∷ [], going closed)
unfolding from_json_lines same
astral_sizes = refl

from_json_lines-any_chunks_example :
    from_json_lines decode no_limits ((txt "[1" ++ nl) ∷ (txt "]" ++ nl) ∷ []) (txt "7")
    ≡ from_json_lines decode no_limits ((txt "[1" ++ nl ++ txt "]" ++ nl) ∷ []) (txt "7")
from_json_lines-any_chunks_example =
    from_json_lines-any_chunks decode no_limits refl ((txt "[1" ++ nl) ∷ (txt "]" ++ nl) ∷ [])
      ((txt "[1" ++ nl ++ txt "]" ++ nl) ∷ []) (txt "7") refl

transform_chunk-IsBetween_example :
    Ends
      (λ (rest, g). IsBetween g × IsLine rest)
      (transform_chunk decode tight (txt "[1" ++ nl ++ txt "]") (txt "", reset)).1
transform_chunk-IsBetween_example =
    transform_chunk-IsBetween decode tight (txt "[1" ++ nl ++ txt "]") (txt "") reset
      reset-IsBetween

transform_chunk_fits_example :
    Ends
      (λ (rest, g). live decode tight rest g ≤ 12)
      (transform_chunk decode tight (txt "[1" ++ nl ++ txt "]") (txt "", reset)).1
transform_chunk_fits_example =
    transform_chunk_fits decode tight 12 refl (txt "[1" ++ nl ++ txt "]") (txt "", reset)

-- `[0]` and `"\\"`, for the two values.
abbrev encode_bool : Bool → Text
encode_bool true = txt "[0]"
encode_bool false = 34 ∷ 92 ∷ 92 ∷ 34 ∷ []

abbrev decode_bool : Text → Option Bool
decode_bool text =
    if same text (encode_bool true)
    then some true
    else if same text (encode_bool false)
    then some false
    else none

decode_bool-encode_bool : (b : Bool) → decode_bool (encode_bool b) ≡ some b
unfolding same
decode_bool-encode_bool true = refl
decode_bool-encode_bool false = refl

encode_bool-IsMessage : (b : Bool) → IsMessage no_limits (encode_bool b)
unfolding chars
encode_bool-IsMessage true = record {
  one_line = (refl, (refl, (refl, tt)));
  balanced =
      nested (unit 91) (unit 93) (unit 48 ∷ []) [] brackets (other (unit 48) [] refl refl refl done)
        done;
  visible = refl;
  fits = tt;
}
encode_bool-IsMessage false = record {
  one_line = (refl, (refl, (refl, (refl, tt))));
  balanced = quoted (unit 92 ∷ unit 92 ∷ []) [] (escaped (unit 92) [] ends) done;
  visible = refl;
  fits = tt;
}

from_json_lines-to_json_lines_example :
    from_json_lines decode_bool no_limits
      ((txt "[0]" ++ nl ++ (34 ∷ 92 ∷ [])) ∷ ((92 ∷ 34 ∷ []) ++ nl) ∷ [])
      []
    ≡ (enqueued true ∷ enqueued false ∷ [], going closed)
unfolding to_json_lines
from_json_lines-to_json_lines_example =
    from_json_lines-to_json_lines decode_bool no_limits refl encode_bool decode_bool-encode_bool
      encode_bool-IsMessage (true ∷ false ∷ [])
      ((txt "[0]" ++ nl ++ (34 ∷ 92 ∷ [])) ∷ ((92 ∷ 34 ∷ []) ++ nl) ∷ []) refl
