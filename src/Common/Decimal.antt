-- ===== src/Common/Decimal.antt =====
-- Decimal numerals as JavaScript writes and reads them: `${n}`, `/^[1-9]\d*$/` and `Number(s)`.
use sozai.Common.{
  ℕ, zero, suc, ◌+◌, ◌-◌, ◌*◌, ◌/◌, ◌%◌, ◌<◌, ◌≡◌, refl, ◌∙◌, Bool, true, false, [], ◌∷◌, ◌++◌,
  arith, ltb, leb, ◌&&◌, if◌then◌else◌, Bool-cases, inl, inr,
}
use sozai.Common.Text.{Text}

-- The digits of `n`, most significant first; `suc n` rounds are enough.
unfoldable pub decimal_from : ℕ → ℕ → Text
decimal_from zero n = []
decimal_from (suc f) n =
    let more = decimal_from f (n / 10) ++ (48 + n % 10) ∷ [] in
    if ltb n 10 then (48 + n) ∷ [] else more

-- `${n}`
unfoldable pub decimal : ℕ → Text
unfolding decimal_from
decimal n = decimal_from (suc n) n

abbrev pub is_digit : ℕ → Bool
is_digit c = leb 48 c && leb c 57

unfoldable pub all_digits : Text → Bool
all_digits [] = true
all_digits (c ∷ s) = is_digit c && all_digits s

-- `/^[1-9]\d*$/.test(s)`
unfoldable pub is_positive_numeral : Text → Bool
unfolding all_digits
is_positive_numeral [] = false
is_positive_numeral (c ∷ s) = leb 49 c && leb c 57 && all_digits s

unfoldable pub number_from : ℕ → Text → ℕ
number_from n [] = n
number_from n (c ∷ s) = number_from (n * 10 + (c - 48)) s

-- `Number(s)` at a text of digits.
unfoldable pub number : Text → ℕ
unfolding number_from
number s = number_from 0 s

pub number_from-concat :
    (n : ℕ) (s : Text) (c : ℕ) → number_from n (s ++ c ∷ []) ≡ number_from n s * 10 + (c - 48)
unfolding number_from
number_from-concat n [] c = refl
number_from-concat n (d ∷ s) c = number_from-concat (n * 10 + (d - 48)) s c

number-decimal_from : (f n : ℕ) → n < f → number_from 0 (decimal_from f n) ≡ n
unfolding decimal_from
number-decimal_from zero n h = absurd (omega arith)
number-decimal_from (suc f) n h = elim (Bool-cases (ltb n 10)) [
  | inl small ↦ rw small (unfold number_from in omega arith)
  | inr large ↦ rw large (
      number_from-concat 0 (decimal_from f (n / 10)) (48 + n % 10)
      ∙ rw (number-decimal_from f (n / 10) (ground arith)) (omega arith))
]

-- Reading a printed number gives it back.
pub number-decimal : (n : ℕ) → number (decimal n) ≡ n
unfolding number decimal
number-decimal n = number-decimal_from (suc n) n (omega arith)

pub all_digits-concat :
    (s : Text) (c : ℕ) → all_digits s ≡ true → is_digit c ≡ true → all_digits (s ++ c ∷ []) ≡ true
unfolding all_digits
all_digits-concat [] c h k = ground arith
all_digits-concat (d ∷ s) c h k = ground (arith, all_digits-concat s c)

numeral-concat :
    (s : Text) (c : ℕ)
    → is_positive_numeral s ≡ true
    → is_digit c ≡ true
    → is_positive_numeral (s ++ c ∷ []) ≡ true
unfolding is_positive_numeral
numeral-concat [] c h k = cc
numeral-concat (d ∷ s) c h k = ground (arith, all_digits-concat s c)

decimal_from-numeral : (f n : ℕ) → n < f → 0 < n → is_positive_numeral (decimal_from f n) ≡ true
unfolding decimal_from
decimal_from-numeral zero n h p = absurd (omega arith)
decimal_from-numeral (suc f) n h p = elim (Bool-cases (ltb n 10)) [
  | inl small ↦ rw small (unfold is_positive_numeral in ground arith)
  | inr large ↦ rw large (
      numeral-concat (decimal_from f (n / 10)) (48 + n % 10)
        (decimal_from-numeral f (n / 10) (ground arith) (ground arith)) (ground arith))
]

-- A printed positive number has no leading zero.
pub decimal-numeral : (n : ℕ) → 0 < n → is_positive_numeral (decimal n) ≡ true
unfolding decimal
decimal-numeral n p = decimal_from-numeral (suc n) n (omega arith) p
