-- ===== src/Common/Sets.antt =====
-- Lists of texts as sets: what they include, and when inclusion goes both ways.
use mathlib.Core.Path.{subst}
use sozai.Common.{
  ◌≤◌, ◌<◌, ◌≡◌, true, false, List, [], ◌∷◌, ◌⊎◌, inl, inr, arith, if◌then◌else◌, Bool-cases,
}
use sozai.Common.Text.{Text, same, same_iff, same_refl, includes}
use sozai.Common.Lists.{length}

abbrev pub Within : List Text → List Text → Type 0
Within r s = (y : Text) → includes r y ≡ true → includes s y ≡ true

pub includes_first : (x : Text) (r : List Text) → includes (x ∷ r) x ≡ true
unfolding includes
includes_first x r = ground (arith, same_refl x)

pub includes_later : (x : Text) (r : List Text) → Within r (x ∷ r)
unfolding includes
includes_later x r y h = elim (Bool-cases (same x y)) [
  | inl e ↦ ground (arith, e)
  | inr e ↦ ground (arith, e, h)
]

pub includes-cases :
    (x : Text) (r : List Text) (y : Text)
    → includes (x ∷ r) y ≡ true
    → (x ≡ y) ⊎ (includes r y ≡ true)
unfolding includes
includes-cases x r y h = elim (Bool-cases (same x y)) [
  | inl e ↦ inl ((same_iff x y).0 e)
  | inr e ↦ inr (ground (arith, e, h))
]

abbrev pub IsDistinct : List Text → Type 0
IsDistinct [] = Unit
IsDistinct (x ∷ xs) = (includes xs x ≡ false) × IsDistinct xs

drop_text : Text → List Text → List Text
unfolding same
drop_text x [] = []
drop_text x (y ∷ ys) = let rest = drop_text x ys in if same x y then rest else y ∷ rest

includes-drop_text :
    (x : Text) (ys : List Text) (y : Text)
    → same x y ≡ false
    → includes ys y ≡ true
    → includes (drop_text x ys) y ≡ true
unfolding includes drop_text
includes-drop_text x [] y e h = h
includes-drop_text x (z ∷ ys) y e h =
    ground (arith, includes-drop_text x ys y, same_iff x z, same_iff z y, same_iff x y)

length-drop_text : (x : Text) (ys : List Text) → length (drop_text x ys) ≤ length ys
unfolding drop_text
length-drop_text x [] = omega arith
length-drop_text x (y ∷ ys) = ground (arith, length-drop_text x ys)

length-drop_less :
    (x : Text) (ys : List Text) → includes ys x ≡ true → length (drop_text x ys) < length ys
unfolding drop_text includes
length-drop_less x [] h = cc
length-drop_less x (y ∷ ys) h =
    ground (arith, length-drop_text x ys, length-drop_less x ys, same_iff x y, same_iff y x)

Within-drop_text :
    (x : Text) (xs ys : List Text)
    → includes xs x ≡ false
    → Within (x ∷ xs) ys
    → Within xs (drop_text x ys)
Within-drop_text x xs ys out w z k = elim (Bool-cases (same x z)) [
  | inl q ↦ cc (subst (λ v. includes xs v ≡ false) ((same_iff x z).0 q) out)
  | inr q ↦ includes-drop_text x ys z q (w z (includes_later x xs z k))
]

-- A set that includes another and is no longer than it is included in it.
pub Within-flip :
    (xs ys : List Text) → IsDistinct xs → Within xs ys → length ys ≤ length xs → Within ys xs
unfolding includes
Within-flip [] [] d w h y i = i
Within-flip [] (z ∷ ys) d w h y i = absurd (omega (arith, h))
Within-flip (x ∷ xs) ys (out, d) w h y i = elim (Bool-cases (same x y)) [
  | inl e ↦ ground (arith, e)
  | inr e ↦
      let fewer = length-drop_less x ys (w x (includes_first x xs)) in
      includes_later x xs y (
        Within-flip xs (drop_text x ys) d (Within-drop_text x xs ys out w) (omega (arith, h, fewer))
          y (includes-drop_text x ys y e i))
]

-- A set that is included in another is no longer than it.
pub Within-length : (xs ys : List Text) → IsDistinct xs → Within xs ys → length xs ≤ length ys
Within-length [] ys d w = omega arith
Within-length (x ∷ xs) ys (out, d) w = omega (
  arith,
  Within-length xs (drop_text x ys) d (Within-drop_text x xs ys out w),
  length-drop_less x ys (w x (includes_first x xs)),
)
