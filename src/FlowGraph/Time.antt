-- ===== src/FlowGraph/Time.antt =====
-- packages/flow-graph/src/time.ts, over the runtime's `Date`. Times are natural numbers of
-- milliseconds since the epoch; earlier ones are left out.
use sozai.Common.{
  ℕ, ◌≡◌, Bool, true, false, Option, none, some, refl, [], ◌∷◌, ◌&&◌, ◌==◌, leb, if◌then◌else◌,
  arith,
}
use sozai.Common.Text.{truthy, Text, same, txt}
pub use sozai.Common.Dates.{Dates}

-- `\d{4}-\d{2}-\d{2}T\d{2}:\d{2}:\d{2}\.\d{3}Z`, with `0` for a digit.
abbrev shape : Text
shape = txt "0000-00-00T00:00:00.000Z"

unfoldable pub fits_shape : Text → Text → Bool
fits_shape [] [] = true
fits_shape (p ∷ ps) (c ∷ cs) =
    (if p == 48 then leb 48 c && leb c 57 else p == c) && fits_shape ps cs
fits_shape _ _ = false

abbrev pub is_text : Option Text → Text → Bool
is_text none t = false
is_text (some s) t = same s t

module _ (dates : Dates) where
  abbrev reprinted : Option ℕ → Option Text
  reprinted none = none
  reprinted (some ms) = dates.to_iso ms

  unfoldable pub is_canonical_timestamp : Text → Bool
  is_canonical_timestamp value =
      fits_shape shape value && is_text (reprinted (dates.get_time value)) value

  -- `none`: a RangeError.
  unfoldable pub to_timestamp : ℕ → Option Text
  to_timestamp ms = elim (dates.to_iso ms) [
    | none ↦ none
    | some t ↦ if is_canonical_timestamp t then some t else none
  ]

  -- A timestamp that the code writes is one that its checks accept, and reads back as its time.
  pub to_timestamp_lem :
      (ms : ℕ) (t : Text)
      → to_timestamp ms ≡ some t
      → (is_canonical_timestamp t ≡ true) × (dates.get_time t ≡ some ms)
  unfolding to_timestamp
  to_timestamp_lem ms t h = (ground arith, ground (arith, dates.get_time-to_iso ms t))

-- A canonical timestamp is not the empty text.
pub canonical_truthy :
    (dates : Dates) (t : Text) → is_canonical_timestamp dates t ≡ true → truthy (some t) ≡ true
unfolding is_canonical_timestamp fits_shape
canonical_truthy dates [] h = cc
canonical_truthy dates (c ∷ t) h = refl
