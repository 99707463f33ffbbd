-- ===== src/Hlc/SerialTests.antt =====
-- Stamps of packages/hlc/src/index.ts as texts, with times that are printed as their fifteen digits
-- and a `Z`.
use sozai.Common.Decimal.{decimal}
use mathlib.Core.Path.{subst}
use sozai.Common.{
  ℕ, ◌^◌, ◌<◌, ◌≡◌, refl, sym, ap, ◌∙◌, Bool, true, false, Option, none, some, List, [], ◌∷◌, ◌++◌,
  ltb, ◌==◌, if◌then◌else◌, arith, some_injective,
}
use sozai.Common.Lists.{length, take, length-append, All}
use sozai.Common.Text.{Text, txt, text_ltb}
use sozai.Common.Decimal.{number}
use sozai.Common.Dates.{Dates}
use sozai.Hlc.{Timestamp, Use, mint, hear, run, new, compare_stamps}
use sozai.Hlc.Serial.{serialize, try_parse, index_of}
use sozai.Hlc.Digits.{digits, number-digits, length-digits, text_ltb-digits}
use sozai.Hlc.RoundTrip.{try_parse-serialize, take-append}
use sozai.Hlc.Sorting.{last_time, is_less, text_ltb-serialize, Prints, Rises, run-Rises}

abbrev print : Bool → ℕ → Option Text
print true t = some (digits 15 t ++ txt "Z")
print false t = none

abbrev to_iso : ℕ → Option Text
to_iso t = print (ltb t (10 ^ 15)) t

abbrev get_time : Text → Option ℕ
get_time s = some (number (take 15 s))

take-digits : (n : ℕ) → take 15 (digits 15 n ++ txt "Z") ≡ digits 15 n
take-digits n =
    subst (λ k. take k (digits 15 n ++ txt "Z") ≡ digits 15 n) (length-digits 15 n)
      (take-append (digits 15 n) (txt "Z"))

get_time-to_iso : (t : ℕ) (s : Text) → to_iso t ≡ some s → get_time s ≡ some t
get_time-to_iso t s h = by_test (ltb t (10 ^ 15)) (λ e. ground arith) h
  where
    by_test : (b : Bool) → (b ≡ true → t < 10 ^ 15) → print b t ≡ some s → get_time s ≡ some t
    by_test true fits e =
        ap get_time (sym (some_injective e))
        ∙ ap (λ u. some (number u)) (take-digits t)
        ∙ ap some (number-digits 15 t (fits refl))
    by_test false fits e = cc

abbrev fifteen : Dates
fifteen = record { to_iso = to_iso; get_time = get_time; get_time-to_iso = get_time-to_iso }

print-some :
    (b : Bool) (t : ℕ) (s : Text) → print b t ≡ some s → (b ≡ true) × (s ≡ digits 15 t ++ txt "Z")
print-some true t s h = (refl, sym (some_injective h))
print-some false t s h = cc

fifteen_sorts :
    (t u : ℕ) (p q : Text)
    → t < last_time
    → u < last_time
    → to_iso t ≡ some p
    → to_iso u ≡ some q
    → (length p ≡ length q) × (text_ltb p q ≡ ltb t u)
unfolding text_ltb
fifteen_sorts t u p q ht hu ep eq =
    let (_, sp) = print-some (ltb t (10 ^ 15)) t p ep in
    let (_, sq) = print-some (ltb u (10 ^ 15)) u q eq in
    (
      omega (
        arith,
        ap length sp,
        ap length sq,
        length-append (digits 15 t) (txt "Z"),
        length-append (digits 15 u) (txt "Z"),
        length-digits 15 t,
        length-digits 15 u,
      ),
      ap (λ v. text_ltb v q) sp
          ∙ ap (text_ltb (digits 15 t ++ txt "Z")) sq
          ∙ text_ltb-digits 15 t u (txt "Z") (txt "Z") (omega (arith, ht)) (omega (arith, hu))
          ∙ plain (ltb t u) (t == u),
    )
  where
    plain : (a b : Bool) → (if a then true else if b then false else false) ≡ a
    plain a b = ground arith

abbrev read_number : Text → Option ℕ
read_number s = some (number s)

abbrev at : ℕ → ℕ → Timestamp
at w c = record { wall_time = w; counter = c; node_id = txt "did:key:z" }

serialized : serialize fifteen (at 42 7) ≡ some (txt "000000000000042Z:00000007:did:key:z")
unfolding serialize digits decimal
serialized = refl

wide : serialize fifteen (at 42 123_456_789) ≡ some (txt "000000000000042Z:123456789:did:key:z")
unfolding serialize digits decimal
wide = refl

unnamed : try_parse fifteen read_number (txt "000000000000042Z:00000007:") ≡ none
unfolding try_parse
unnamed = refl

try_parse-serialize_example :
    try_parse fifteen read_number (txt "000000000000042Z:00000007:did:key:z") ≡ some (at 42 7)
unfolding digits index_of
try_parse-serialize_example =
    try_parse-serialize fifteen read_number (λ s _ _ _. refl) (at 42 7) (txt "000000000000042")
      (txt "000000000000042Z:00000007:did:key:z") refl refl (λ e. cc) (omega arith) serialized

text_ltb-serialize_example :
    text_ltb (txt "000000000000042Z:00000007:did:key:z") (txt "000000000000042Z:00000010:did:key:z")
    ≡ is_less (compare_stamps (at 42 7) (at 42 10))
unfolding serialize digits decimal
text_ltb-serialize_example =
    text_ltb-serialize fifteen fifteen_sorts (at 42 7) (at 42 10)
      (txt "000000000000042Z:00000007:did:key:z") (txt "000000000000042Z:00000010:did:key:z")
      (omega arith) (omega arith) (omega arith) (omega arith) serialized refl

abbrev uses : List Use
uses = mint false 9 ∷ mint false 7 ∷ hear 4 (at 9 1) ∷ []

abbrev texts : List Text
texts =
    txt "000000000000009Z:00000000:a"
    ∷ txt "000000000000009Z:00000001:a"
    ∷ txt "000000000000010Z:00000000:a"
    ∷ []

uses_early : All (λ s. s.wall_time < last_time) (run (new (txt "a") (some 2)) uses)
unfolding run new
uses_early = (omega arith, (omega arith, (omega arith, tt)))

uses-Prints : Prints fifteen fifteen_sorts (run (new (txt "a") (some 2)) uses) texts
unfolding run serialize new digits decimal
uses-Prints = (refl, (refl, (refl, tt)))

run-Rises_example : Rises fifteen fifteen_sorts texts
run-Rises_example =
    run-Rises fifteen fifteen_sorts (txt "a") (some 2) uses texts uses_early uses-Prints
