-- ===== src/JsonLines/Balanced.antt =====
-- Texts that the framer of packages/stream/src/json-lines.ts takes for a message: JSON has only these.
use mathlib.Core.List.{append_assoc, append-nil}
use sozai.Common.{
  ℕ, ◌+◌, ◌≡◌, refl, sym, ap, ◌∙◌, Bool, true, false, List, [], ◌∷◌, ◌++◌, arith, not, ◌||◌, ltb,
}
use sozai.JsonLines.{
  Frame, feed, process_char, process_in_string, process_outside, Char, unit, is_quote, is_opening,
  is_closing, is_backslash, char_code,
}

abbrev pub quote : Char
quote = unit 34

abbrev pub backslash : Char
backslash = unit 92

-- An opening bracket and the one that closes it.
pub data IsPair : Char → Char → Type 0 where
  braces : IsPair (unit 123) (unit 125)
  brackets : IsPair (unit 91) (unit 93)

-- What stands between two quotes.
pub data IsQuoted : List Char → Type 0 where
  ends : IsQuoted []
  plain :
      (char : Char) (rest : List Char)
      → is_quote char ≡ false
      → is_backslash char ≡ false
      → IsQuoted rest
      → IsQuoted (char ∷ rest)
  escaped : (char : Char) (rest : List Char) → IsQuoted rest → IsQuoted (backslash ∷ char ∷ rest)

-- A text in which quotes and brackets match.
pub data IsBalanced : List Char → Type 0 where
  done : IsBalanced []
  other :
      (char : Char) (rest : List Char)
      → is_quote char ≡ false
      → is_opening char ≡ false
      → is_closing char ≡ false
      → IsBalanced rest
      → IsBalanced (char ∷ rest)
  quoted :
      (body rest : List Char)
      → IsQuoted body
      → IsBalanced rest
      → IsBalanced (quote ∷ (body ++ (quote ∷ rest)))
  nested :
      (opening closing : Char) (inner rest : List Char)
      → IsPair opening closing
      → IsBalanced inner
      → IsBalanced rest
      → IsBalanced (opening ∷ (inner ++ (closing ∷ rest)))

-- Whether there is content, after these characters.
abbrev pub seen : Bool → List Char → Bool
seen content [] = content
seen content (char ∷ rest) = seen (content || ltb 32 (char_code char)) rest

seen-true : (cs : List Char) → seen true cs ≡ true
seen-true [] = refl
seen-true (char ∷ rest) = seen-true rest

-- Outside and inside a string.
abbrev pub outside : List Char → ℕ → Bool → Frame
outside output depth content = record {
  output = output;
  nesting_depth = depth;
  is_in_string = false;
  is_escaping_char = false;
  has_content = content;
}

abbrev inside : List Char → ℕ → Bool → Frame
inside output depth escaping = record {
  output = output;
  nesting_depth = depth;
  is_in_string = true;
  is_escaping_char = escaping;
  has_content = true;
}

feed-append :
    (corrupt : Bool) (f : Frame) (cs ds : List Char)
    → feed corrupt f (cs ++ ds) ≡ feed (feed corrupt f cs).0 (feed corrupt f cs).1 ds
unfolding feed
feed-append corrupt f [] ds = refl
feed-append true f (char ∷ rest) ds = feed-append true _ rest ds
feed-append false f (char ∷ rest) ds =
    feed-append (not (process_char char f).0) (process_char char f).1 rest ds

-- Where a frame is after some characters, with what follows them.
feed-through :
    (f g : Frame) (cs ds : List Char)
    → feed false f cs ≡ (false, g)
    → feed false f (cs ++ ds) ≡ feed false g ds
feed-through f g cs ds e = feed-append false f cs ds ∙ ap (λ x. feed x.0 x.1 ds) e

process_char-inside :
    (char : Char) (output : List Char) (depth : ℕ)
    → is_quote char ≡ false
    → is_backslash char ≡ false
    → process_char char (inside output depth false)
      ≡ (true, inside (output ++ (char ∷ [])) depth false)
unfolding process_char process_in_string
process_char-inside char output depth q b = ground arith

process_char-escaped :
    (char : Char) (output : List Char) (depth : ℕ)
    → process_char char (inside output depth true)
      ≡ (true, inside (output ++ (char ∷ [])) depth false)
unfolding process_char process_in_string
process_char-escaped char output depth = ground arith

process_char-other :
    (char : Char) (output : List Char) (depth : ℕ) (content : Bool)
    → is_quote char ≡ false
    → is_opening char ≡ false
    → is_closing char ≡ false
    → process_char char (outside output depth content)
      ≡ (true, outside (output ++ (char ∷ [])) depth (content || ltb 32 (char_code char)))
unfolding process_char process_outside
process_char-other char output depth content q o c = ground arith

feed-IsQuoted :
    (output : List Char) (depth : ℕ) {cs : List Char}
    → IsQuoted cs
    → feed false (inside output depth false) cs ≡ (false, inside (output ++ cs) depth false)
unfolding feed
feed-IsQuoted output depth ends = ap (λ o. (false, inside o depth false)) (sym (append-nil output))
feed-IsQuoted output depth (plain char rest q b h) =
    ap (λ x. feed (not x.0) x.1 rest) (process_char-inside char output depth q b)
    ∙ feed-IsQuoted (output ++ (char ∷ [])) depth h
    ∙ ap (λ o. (false, inside o depth false)) (append_assoc output (char ∷ []) rest)
feed-IsQuoted output depth (escaped char rest h) =
    let started = output ++ (backslash ∷ []) in
    ap (λ x. feed (not x.0) x.1 rest) (process_char-escaped char started depth)
    ∙ feed-IsQuoted (started ++ (char ∷ [])) depth h
    ∙ ap (λ o. (false, inside o depth false))
        (append_assoc started (char ∷ []) rest ∙ append_assoc output (backslash ∷ []) (char ∷ rest))

process_char-opening :
    {opening closing : Char}
    → IsPair opening closing
    → (output : List Char) (depth : ℕ) (content : Bool)
    → process_char opening (outside output depth content)
      ≡ (true, outside (output ++ (opening ∷ [])) (depth + 1) true)
unfolding process_char process_outside
process_char-opening braces output depth content = refl
process_char-opening brackets output depth content = refl

process_char-closing :
    {opening closing : Char}
    → IsPair opening closing
    → (output : List Char) (depth : ℕ) (content : Bool)
    → process_char closing (outside output (depth + 1) content)
      ≡ (true, outside (output ++ (closing ∷ [])) depth content)
unfolding process_char process_outside
process_char-closing braces output depth content = ground arith
process_char-closing brackets output depth content = ground arith

between_append :
    (output : List Char) (a : Char) (body : List Char) (b : Char) (rest : List Char)
    → (((output ++ (a ∷ [])) ++ body) ++ (b ∷ [])) ++ rest ≡ output ++ (a ∷ (body ++ (b ∷ rest)))
between_append output a body b rest =
    append_assoc ((output ++ (a ∷ [])) ++ body) (b ∷ []) rest
    ∙ append_assoc (output ++ (a ∷ [])) body (b ∷ rest)
    ∙ append_assoc output (a ∷ []) (body ++ (b ∷ rest))

-- A visible character first.
seen-visible :
    (content : Bool) (cs : List Char) {b : Bool} → b ≡ true → seen (content || b) cs ≡ true
seen-visible true cs e = seen-true cs
seen-visible false cs e = ap (λ c. seen c cs) e ∙ seen-true cs

at_end :
    {output output' : List Char} {content content' : Bool} (depth : ℕ)
    → output ≡ output'
    → content ≡ true
    → content' ≡ true
    → ◌≡◌ {A = Bool × Frame}
        (false, outside output depth content)
        (false, outside output' depth content')
at_end depth o p q = cc

visible_pair : {opening closing : Char} → IsPair opening closing → ltb 32 (char_code opening) ≡ true
visible_pair braces = refl
visible_pair brackets = refl

pub feed-IsBalanced :
    (output : List Char) (depth : ℕ) (content : Bool) {cs : List Char}
    → IsBalanced cs
    → feed false (outside output depth content) cs
      ≡ (false, outside (output ++ cs) depth (seen content cs))
unfolding feed
feed-IsBalanced output depth content done =
    ap (λ o. (false, outside o depth content)) (sym (append-nil output))
feed-IsBalanced output depth content (other char rest q o c h) =
    ap (λ x. feed (not x.0) x.1 rest) (process_char-other char output depth content q o c)
    ∙ feed-IsBalanced (output ++ (char ∷ [])) depth (content || ltb 32 (char_code char)) h
    ∙ ap (λ o. (false, outside o depth (seen content (char ∷ rest))))
        (append_assoc output (char ∷ []) rest)
feed-IsBalanced output depth content (quoted body rest b h) =
    let started = output ++ (quote ∷ []) in
    feed-through (inside started depth false) (inside (started ++ body) depth false) body
      (quote ∷ rest) (feed-IsQuoted started depth b)
    ∙ feed-IsBalanced ((started ++ body) ++ (quote ∷ [])) depth true h
    ∙ at_end depth (between_append output quote body quote rest) (seen-true rest)
        (seen-visible content (body ++ (quote ∷ rest)) refl)
feed-IsBalanced output depth content (nested opening closing inner rest p i h) =
    let started = output ++ (opening ∷ []) in
    let within = seen true inner in
    ap (λ x. feed (not x.0) x.1 (inner ++ (closing ∷ rest)))
      (process_char-opening p output depth content)
    ∙ feed-through (outside started (depth + 1) true)
        (outside (started ++ inner) (depth + 1) within) inner (closing ∷ rest)
        (feed-IsBalanced started (depth + 1) true i)
    ∙ ap (λ x. feed (not x.0) x.1 rest) (process_char-closing p (started ++ inner) depth within)
    ∙ feed-IsBalanced ((started ++ inner) ++ (closing ∷ [])) depth within h
    ∙ at_end depth (between_append output opening inner closing rest)
        (ap (λ c. seen c rest) (seen-true inner) ∙ seen-true rest)
        (seen-visible content (inner ++ (closing ∷ rest)) (visible_pair p))
