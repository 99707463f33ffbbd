-- ===== src/JsonLines/Chunks.antt =====
-- The loop of the transform callback, over text that arrives in any chunks.
use mathlib.Core.Path.{subst}
use mathlib.Core.List.{append_assoc, append-nil}
use sozai.Common.{
  ℕ, zero, suc, ◌+◌, ◌<◌, ◌≡◌, refl, sym, ap, ◌∙◌, Bool, true, false, Option, none, some, List, [],
  ◌∷◌, ◌++◌, arith, ◌==◌, ==_iff,
}
use sozai.Common.Lists.{length, length-append}
use sozai.Common.Text.{Text}
use sozai.JsonLines.{
  FramingLimits, Frame, going, thrown, out_of_fuel, Outcome, ◌>>=◌, return, next_line, take_line,
  lines_loop, transform_chunk, transform_chunks, from_json_lines, separator, reset, end_line, check,
  buffer_size, cut_at, lines_step, all_lines, flush, after_feed, feed_line,
}

>>=-assoc :
    {V A B C : Type 0} (m : Outcome V A) (g : A → Outcome V B) (k : B → Outcome V C)
    → ((m >>= g) >>= k) ≡ (m >>= λ a. g a >>= k)
>>=-assoc (es, thrown e) g k = refl
>>=-assoc (es, out_of_fuel) g k = refl
>>=-assoc {V = V} {B = B} {C = C} (es, going a) g k = with_next (g a)
  where
    with_next : (n : Outcome V B) → ((es ++ n.0, n.1) >>= k) ≡ (es ++ (n >>= k).0, (n >>= k).1)
    with_next (fs, thrown e) = refl
    with_next (fs, out_of_fuel) = refl
    with_next (fs, going b) = ap (λ l. (l, (k b).1)) (append_assoc es fs (k b).0)

>>=-return : {V A : Type 0} (m : Outcome V A) → (m >>= return) ≡ m
>>=-return (es, thrown e) = refl
>>=-return (es, out_of_fuel) = refl
>>=-return (es, going a) = ap (λ l. (l, going a)) (append-nil es)

-- A text without the separator.
abbrev pub IsLine : Text → Type 0
IsLine [] = Unit
IsLine (u ∷ text) = ((u == separator) ≡ false) × IsLine text

pub next_line-cut :
    (line rest : Text) → IsLine line → next_line (line ++ (separator ∷ rest)) ≡ some (line, rest)
unfolding next_line
next_line-cut [] rest h = refl
next_line-cut (u ∷ line) rest (p, h) =
    ap (λ b. cut_at b u (line ++ (separator ∷ rest)) (next_line (line ++ (separator ∷ rest)))) p
    ∙ ap (cut_at false u (line ++ (separator ∷ rest))) (next_line-cut line rest h)

-- How `next_line` cuts a text, by its answer.
abbrev pub Cuts : Text → Option (Text × Text) → Type 0
Cuts text none = IsLine text
Cuts text (some (line, rest)) = (text ≡ line ++ (separator ∷ rest)) × IsLine line

pub next_line-Cuts : (text : Text) → Cuts text (next_line text)
unfolding next_line
next_line-Cuts [] = tt
next_line-Cuts (u ∷ text) =
    at (u == separator) ((==_iff u separator).0) refl (next_line text) (next_line-Cuts text)
  where
    at :
        (b : Bool)
        → (b ≡ true → u ≡ separator)
        → (u == separator) ≡ b
        → (found : Option (Text × Text)) → Cuts text found
        → Cuts (u ∷ text) (cut_at b u text found)
    at true e p found h = (ap (λ v. v ∷ text) (e refl), tt)
    at false e p none h = (p, h)
    at false e p (some (line, rest)) (h, k) = (ap (λ t. u ∷ t) h, (p, k))

pub >>=-cong :
    {V A B : Type 0} (m : Outcome V A) {g k : A → Outcome V B}
    → ((a : A) → g a ≡ k a)
    → (m >>= g) ≡ (m >>= k)
>>=-cong (es, thrown e) h = refl
>>=-cong (es, out_of_fuel) h = refl
>>=-cong (es, going a) h = ap (λ n. (es ++ n.0, n.1)) (h a)

-- The chunks of a stream, put together.
abbrev pub concat : List Text → Text
concat [] = []
concat (chunk ∷ rest) = chunk ++ concat rest

-- What follows a line is shorter than the text.
pub cut-length : (line rest : Text) → length rest < length (line ++ (separator ∷ rest))
cut-length line rest = omega (arith, length-append line (separator ∷ rest))

module _ {V : Type 0} (decode : Text → Option V) (limits : FramingLimits) where
  -- Fuel beyond the input's length changes nothing.
  pub lines_loop_enough :
      (n m : ℕ) (input : Text) (f : Frame)
      → length input < n
      → length input < m
      → lines_loop decode limits n input f ≡ lines_loop decode limits m input f
  unfolding lines_loop
  lines_loop_enough zero m input f h k = absurd (omega arith)
  lines_loop_enough (suc n) zero input f h k = absurd (omega arith)
  lines_loop_enough (suc n) (suc m) input f h k =
      with_cut (next_line input) (next_line-Cuts input) (lines_loop_enough n m)
    where
      with_cut :
          (o : Option (Text × Text))
          → Cuts input o
          → ((rest : Text) (g : Frame)
              → length rest < n
              → length rest < m
              → lines_loop decode limits n rest g ≡ lines_loop decode limits m rest g)
          → lines_step decode limits (lines_loop decode limits n) o input f
            ≡ lines_step decode limits (lines_loop decode limits m) o input f
      with_cut none c enough = refl
      with_cut (some (line, rest)) (e, c) enough =
          let shorter : length rest < length input =
            subst (λ t. length rest < length t) (sym e) (cut-length line rest) in
          >>=-cong (take_line decode limits line rest f)
            (λ g. enough rest g (omega (arith, shorter)) (omega (arith, shorter)))

  pub all_lines-next :
      (input : Text) (f : Frame)
      → all_lines decode limits input f
        ≡ lines_step decode limits (all_lines decode limits) (next_line input) input f
  unfolding lines_loop
  all_lines-next input f = with_cut (next_line input) (next_line-Cuts input)
    where
      with_cut :
          (o : Option (Text × Text))
          → Cuts input o
          → lines_step decode limits (lines_loop decode limits (length input)) o input f
            ≡ lines_step decode limits (all_lines decode limits) o input f
      with_cut none c = refl
      with_cut (some (line, rest)) (e, c) =
          let shorter : length rest < length input =
            subst (λ t. length rest < length t) (sym e) (cut-length line rest) in
          >>=-cong (take_line decode limits line rest f)
            (λ g. lines_loop_enough (length input) (suc (length rest)) rest g shorter (omega arith))

  module _ (unbounded : limits.max_buffer_size ≡ none) where
    -- Without a bound on the buffer, a line is taken whatever follows it.
    take_line-any :
        (line rest other : Text) (f : Frame)
        → take_line decode limits line rest f ≡ take_line decode limits line other f
    unfolding take_line
    take_line-any line rest other f = >>=-cong (feed_line decode limits line f) fed
      where
        fed :
            (x : Bool × Frame) → after_feed decode limits rest x ≡ after_feed decode limits other x
        fed (false, g) = refl
        fed (true, g) =
            let at : Option ℕ → Text → Outcome V Frame = λ o text.
              check o (length text + length g.output) buffer_size >>= λ _.
              end_line decode limits g in
            subst (λ o. at o rest ≡ at o other) (sym unbounded) refl

    abbrev resumed : Text → Text × Frame → Outcome V (Text × Frame)
    resumed b (t, g) = all_lines decode limits (t ++ b) g

    -- The lines of a text that arrives in two parts are those of the parts: the second is read
    -- after what the first leaves.
    all_lines-append_fuel :
        (n : ℕ) (a b : Text) (f : Frame)
        → length a < n
        → all_lines decode limits (a ++ b) f ≡ (all_lines decode limits a f >>= resumed b)
    all_lines-append_fuel zero a b f h = absurd (omega arith)
    all_lines-append_fuel (suc n) a b f h =
        with_cut (next_line a) (next_line-Cuts a) refl (λ t g. all_lines-append_fuel n t b g)
      where
        with_cut :
            (o : Option (Text × Text))
            → Cuts a o
            → next_line a ≡ o
            → ((t : Text) (g : Frame)
                → length t < n
                → all_lines decode limits (t ++ b) g ≡ (all_lines decode limits t g >>= resumed b))
            → all_lines decode limits (a ++ b) f ≡ (all_lines decode limits a f >>= resumed b)
        with_cut none c q split =
            let whole : all_lines decode limits a f ≡ return (a, f) =
              all_lines-next a f
              ∙ ap (λ o. lines_step decode limits (all_lines decode limits) o a f) q in
            subst (λ m. all_lines decode limits (a ++ b) f ≡ (m >>= resumed b)) (sym whole) refl
        with_cut (some (line, rest)) (e, c) q split =
            let step : (t : Text) → Option (Text × Text) → Outcome V (Text × Frame) =
              λ t o. lines_step decode limits (all_lines decode limits) o t f in
            let shorter : length rest < n =
              omega
                (arith, h, subst (λ t. length rest < length t) (sym e) (cut-length line rest)) in
            let cut : next_line (a ++ b) ≡ some (line, rest ++ b) =
              ap next_line (ap (λ t. t ++ b) e ∙ append_assoc line (separator ∷ rest) b)
              ∙ next_line-cut line (rest ++ b) c in
            let body = take_line decode limits line rest f in
            all_lines-next (a ++ b) f
            ∙ ap (step (a ++ b)) cut
            ∙ ap (λ m. m >>= all_lines decode limits (rest ++ b))
                (take_line-any line (rest ++ b) rest f)
            ∙ >>=-cong body (λ g. split rest g shorter)
            ∙ sym (>>=-assoc body (all_lines decode limits rest) (resumed b))
            ∙ ap (λ m. m >>= resumed b) (sym (all_lines-next a f ∙ ap (step a) q))

    transform_chunk-all_lines :
        (chunk : Text) (s : Text × Frame) → transform_chunk decode limits chunk s ≡ resumed chunk s
    unfolding transform_chunk
    transform_chunk-all_lines chunk (input, f) =
        subst
          (λ o.
            (check o (length (input ++ chunk) + length f.output) buffer_size >>= λ _.
            resumed chunk (input, f))
            ≡ resumed chunk (input, f))
          (sym unbounded) refl

    chunks-concat :
        (chunks : List Text) (t : Text) (g : Frame)
        → (all_lines decode limits t g >>= transform_chunks decode limits chunks)
          ≡ all_lines decode limits (t ++ concat chunks) g
    unfolding transform_chunks
    chunks-concat [] t g =
        >>=-return (all_lines decode limits t g)
        ∙ ap (λ u. all_lines decode limits u g) (sym (append-nil t))
    chunks-concat (chunk ∷ rest) t g =
        >>=-cong (all_lines decode limits t g) (λ (u, k).
          ap (λ m. m >>= transform_chunks decode limits rest)
            (transform_chunk-all_lines chunk (u, k))
          ∙ chunks-concat rest (u ++ chunk) k
          ∙ ap (λ v. all_lines decode limits v k) (append_assoc u chunk (concat rest)))
        ∙ sym (all_lines-append_fuel (length t + 1) t (chunk ++ concat rest) g (omega arith))

    pub from_json_lines-concat :
        (chunks : List Text) (remains : Text)
        → from_json_lines decode limits chunks remains
          ≡ (all_lines decode limits (concat chunks) reset >>= flush decode limits remains)
    unfolding from_json_lines
    from_json_lines-concat chunks remains =
        ap (λ m. m >>= flush decode limits remains) (chunks-concat chunks [] reset)

    -- However a text is cut into chunks, and where no bound is set on the buffer, the stream gives
    -- the same events in the same order, and ends in the same way.
    pub from_json_lines-any_chunks :
        (chunks other : List Text) (remains : Text)
        → concat chunks ≡ concat other
        → from_json_lines decode limits chunks remains ≡ from_json_lines decode limits other remains
    from_json_lines-any_chunks chunks other remains e =
        from_json_lines-concat chunks remains
        ∙ ap (λ t. all_lines decode limits t reset >>= flush decode limits remains) e
        ∙ sym (from_json_lines-concat other remains)
