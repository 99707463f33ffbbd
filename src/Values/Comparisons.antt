-- ===== src/Values/Comparisons.antt =====
-- How the operators of a value filter (packages/flow-graph/src/filter.ts) relate.
use sozai.Common.{◌≡◌, refl, ap, ◌∙◌, false, not, ◌&&◌, ◌||◌, [], ◌∷◌, arith}
use sozai.Common.Text.{Text, same, text_ltb}
use sozai.Common.Json.{Json, null, bool, num, str, arr, obj}
use sozai.Values.Filters.{
  less_than, less_than_or_equal_to, greater_than, greater_than_or_equal_to, Operand, number, text,
  order, compare_texts, equal,
}

text_ltb-not : (a b : Text) → not (text_ltb b a) ≡ (text_ltb a b || same a b)
unfolding text_ltb same
text_ltb-not [] [] = refl
text_ltb-not [] (b ∷ bs) = refl
text_ltb-not (a ∷ as') [] = refl
text_ltb-not (a ∷ as') (b ∷ bs) = ground (arith, text_ltb-not as' bs)

text_ltb-apart : (a b : Text) → (text_ltb a b && text_ltb b a) ≡ false
unfolding text_ltb
text_ltb-apart [] [] = refl
text_ltb-apart [] (b ∷ bs) = refl
text_ltb-apart (a ∷ as') [] = refl
text_ltb-apart (a ∷ as') (b ∷ bs) = ground (arith, text_ltb-apart as' bs)

same-flip : (a b : Text) → same a b ≡ same b a
unfolding same
same-flip [] [] = refl
same-flip [] (b ∷ bs) = refl
same-flip (a ∷ as') [] = refl
same-flip (a ∷ as') (b ∷ bs) = ground (arith, same-flip as' bs)

abbrev pub json_of : Operand → Json
json_of (number n) = num n
json_of (text t) = str t

-- At every subject and operand, of one type or not: `lessThanOrEqualTo` is `lessThan` or `equalTo`,
-- `greaterThanOrEqualTo` is `greaterThan` or `equalTo`, and `lessThan` and `greaterThan` never hold
-- both.
pub order-equal :
    (subject : Json) (operand : Operand)
    → (order subject operand less_than_or_equal_to
        ≡ (order subject operand less_than || equal subject (json_of operand)))
      × (order subject operand greater_than_or_equal_to
          ≡ (order subject operand greater_than || equal subject (json_of operand)))
      × ((order subject operand less_than && order subject operand greater_than) ≡ false)
unfolding order compare_texts equal
order-equal null (number n) = (refl, refl, refl)
order-equal null (text t) = (refl, refl, refl)
order-equal (bool b) (number n) = (refl, refl, refl)
order-equal (bool b) (text t) = (refl, refl, refl)
order-equal (num m) (number n) = (ground arith, ground arith, ground arith)
order-equal (num m) (text t) = (refl, refl, refl)
order-equal (str s) (number n) = (refl, refl, refl)
order-equal (str s) (text t) = (
  text_ltb-not s t,
  text_ltb-not t s ∙ ap (λ b. text_ltb t s || b) (same-flip t s),
  text_ltb-apart s t,
)
order-equal (arr items) (number n) = (refl, refl, refl)
order-equal (arr items) (text t) = (refl, refl, refl)
order-equal (obj m) (number n) = (refl, refl, refl)
order-equal (obj m) (text t) = (refl, refl, refl)
