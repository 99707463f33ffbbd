-- ===== src/Hlc/Digits.antt =====
-- Decimal numerals of a fixed width: they read back, and sort as their numbers do.
use sozai.Common.{
  ℕ, zero, suc, ◌+◌, ◌-◌, ◌*◌, ◌/◌, ◌%◌, ◌^◌, ◌<◌, ◌≤◌, ◌≡◌, refl, sym, ap, ◌∙◌, true, false, [],
  ◌∷◌, ◌++◌, ◌==◌, ltb, if◌then◌else◌, arith, Bool-cases, inl, inr,
}
use mathlib.Core.List.{append_assoc}
use sozai.Common.Lists.{length, length-append}
use sozai.Common.Text.{Text, text_ltb}
use sozai.Common.Decimal.{
  decimal, decimal_from, all_digits, all_digits-concat, number, number_from, number_from-concat,
}
use sozai.Hlc.Serial.{repeat, pad_start}

-- The last `width` digits of a number.
unfoldable pub digits : ℕ → ℕ → Text
digits zero n = []
digits (suc width) n = digits width (n / 10) ++ ((48 + n % 10) ∷ [])

tenth : (width n : ℕ) → n < 10 ^ suc width → n / 10 < 10 ^ width
tenth width n h = omega (arith, h)

-- With what follows them, numerals of one width sort by their numbers first.
pub text_ltb-digits :
    (width a b : ℕ) (s t : Text)
    → a < 10 ^ width
    → b < 10 ^ width
    → text_ltb (digits width a ++ s) (digits width b ++ t)
      ≡ (if ltb a b then true else if a == b then text_ltb s t else false)
unfolding digits text_ltb
text_ltb-digits zero a b s t h k = ground arith
text_ltb-digits (suc w) a b s t h k =
    ap (λ u. text_ltb u (digits (suc w) b ++ t))
      (append_assoc (digits w (a / 10)) ((48 + a % 10) ∷ []) s)
    ∙ ap (text_ltb (digits w (a / 10) ++ ((48 + a % 10) ∷ s)))
        (append_assoc (digits w (b / 10)) ((48 + b % 10) ∷ []) t)
    ∙ text_ltb-digits w (a / 10) (b / 10) ((48 + a % 10) ∷ s) ((48 + b % 10) ∷ t) (tenth w a h)
        (tenth w b k)
    ∙ ground arith

repeat_snoc : (n c : ℕ) → repeat (suc n) c ≡ repeat n c ++ (c ∷ [])
unfolding repeat
repeat_snoc zero c = refl
repeat_snoc (suc n) c = ap (λ s. c ∷ s) (repeat_snoc n c)

digits-zero : (width : ℕ) → digits width 0 ≡ repeat width 48
unfolding digits repeat
digits-zero zero = refl
digits-zero (suc w) = ap (λ s. s ++ (48 ∷ [])) (digits-zero w) ∙ sym (repeat_snoc w 48)

pad_start-concat :
    (width c : ℕ) (s : Text) (d : ℕ)
    → pad_start (suc width) c (s ++ (d ∷ [])) ≡ pad_start width c s ++ (d ∷ [])
unfolding pad_start
pad_start-concat width c s d =
    let fewer : suc width - length (s ++ (d ∷ [])) ≡ width - length s =
      omega (arith, length-append s (d ∷ [])) in
    ap (λ n. repeat n c ++ (s ++ (d ∷ []))) fewer
    ∙ sym (append_assoc (repeat (width - length s) c) s (d ∷ []))

one_digit :
    (w m : ℕ)
    → m < 10
    → pad_start (suc w) 48 ((48 + m) ∷ []) ≡ digits w (m / 10) ++ ((48 + m % 10) ∷ [])
unfolding pad_start
one_digit w m h =
    ap (λ k. repeat k 48 ++ ((48 + m) ∷ [])) (omega arith)
    ∙ ap (λ u. u ++ ((48 + m) ∷ [])) (sym (digits-zero w))
    ∙ ap (λ k. digits w k ++ ((48 + m) ∷ [])) (omega (arith, h))
    ∙ ap (λ k. digits w (m / 10) ++ ((48 + k) ∷ [])) (omega (arith, h))

-- A printed number that is padded to a width that holds it.
pad_start-decimal_from :
    (f width n : ℕ)
    → n < f
    → n < 10 ^ suc width
    → pad_start (suc width) 48 (decimal_from f n) ≡ digits (suc width) n
unfolding decimal_from digits
pad_start-decimal_from zero width n h k = absurd (omega arith)
pad_start-decimal_from (suc f) width n h k = elim (Bool-cases (ltb n 10)) [
  | inl small ↦ rw small (one_digit width n (ground arith))
  | inr large ↦ rw large (
      pad_start-concat width 48 (decimal_from f (n / 10)) (48 + n % 10)
      ∙ ap (λ s. s ++ ((48 + n % 10) ∷ []))
          (more width (ground arith) k
            (λ w q. pad_start-decimal_from f w (n / 10) (ground arith) q)))
]
  where
    more :
        (w : ℕ)
        → 10 ≤ n
        → n < 10 ^ suc w
        → ((v : ℕ)
            → n / 10 < 10 ^ suc v
            → pad_start (suc v) 48 (decimal_from f (n / 10)) ≡ digits (suc v) (n / 10))
        → pad_start w 48 (decimal_from f (n / 10)) ≡ digits w (n / 10)
    more zero q p each = absurd (omega (arith, q, p))
    more (suc v) q p each = each v (tenth (suc v) n p)

pub pad_start-decimal :
    (width n : ℕ) → n < 10 ^ suc width → pad_start (suc width) 48 (decimal n) ≡ digits (suc width) n
unfolding decimal
pad_start-decimal width n h = pad_start-decimal_from (suc n) width n (omega arith) h

pub length-digits : (width n : ℕ) → length (digits width n) ≡ width
unfolding digits
length-digits zero n = refl
length-digits (suc w) n =
    omega (arith, length-append (digits w (n / 10)) ((48 + n % 10) ∷ []), length-digits w (n / 10))

-- Zeros before a numeral change neither its digits nor its number.
pub all_digits-pad_start :
    (width : ℕ) (s : Text) → all_digits s ≡ true → all_digits (pad_start width 48 s) ≡ true
unfolding pad_start repeat all_digits
all_digits-pad_start width s h = zeros (width - length s)
  where
    zeros : (n : ℕ) → all_digits (repeat n 48 ++ s) ≡ true
    zeros zero = h
    zeros (suc n) = zeros n

pub number-pad_start : (width : ℕ) (s : Text) → number (pad_start width 48 s) ≡ number s
unfolding pad_start number number_from repeat
number-pad_start width s = zeros (width - length s)
  where
    zeros : (n : ℕ) → number_from 0 (repeat n 48 ++ s) ≡ number_from 0 s
    zeros zero = refl
    zeros (suc n) = zeros n

all_digits-decimal_from : (f n : ℕ) → n < f → all_digits (decimal_from f n) ≡ true
unfolding decimal_from all_digits
all_digits-decimal_from zero n h = absurd (omega arith)
all_digits-decimal_from (suc f) n h = elim (Bool-cases (ltb n 10)) [
  | inl small ↦ rw small (ground arith)
  | inr large ↦ rw large (
      all_digits-concat (decimal_from f (n / 10)) (48 + n % 10)
        (all_digits-decimal_from f (n / 10) (ground arith)) (ground arith))
]

pub all_digits-decimal : (n : ℕ) → all_digits (decimal n) ≡ true
unfolding decimal
all_digits-decimal n = all_digits-decimal_from (suc n) n (omega arith)

length-repeat : (n c : ℕ) → length (repeat n c) ≡ n
unfolding repeat
length-repeat zero c = refl
length-repeat (suc n) c = omega (arith, length-repeat n c)

pub length-pad_start : (width c : ℕ) (s : Text) → width ≤ length (pad_start width c s)
unfolding pad_start
length-pad_start width c s =
    omega (arith, length-append (repeat (width - length s) c) s, length-repeat (width - length s) c)

-- The number of a numeral of a fixed width.
pub number-digits : (width n : ℕ) → n < 10 ^ width → number (digits width n) ≡ n
unfolding digits number number_from
number-digits zero n h = omega (arith, h)
number-digits (suc w) n h =
    number_from-concat 0 (digits w (n / 10)) (48 + n % 10)
    ∙ ap (λ m. m * 10 + (48 + n % 10 - 48)) (number-digits w (n / 10) (tenth w n h))
    ∙ omega arith
