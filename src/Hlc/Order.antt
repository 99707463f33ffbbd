-- ===== src/Hlc/Order.antt =====
-- `HLC.compare` is a strict total order on stamps that refines the order of the clocks.
use Prim.Native.Nat.{Ordering}
use sozai.Common.{◌≡◌, refl, ◌↔◌, true, false, [], ◌∷◌, arith}
use sozai.Common.Text.{Text, text_ltb}
use sozai.Hlc.{Timestamp, compare_stamps}
use sozai.Hlc.Advance.{IsBefore}

text_ltb_irrefl : (a : Text) → text_ltb a a ≡ false
unfolding text_ltb
text_ltb_irrefl [] = refl
text_ltb_irrefl (x ∷ a) = ground (arith, text_ltb_irrefl a)

text_ltb_asymm : (a b : Text) → text_ltb a b ≡ true → text_ltb b a ≡ false
unfolding text_ltb
text_ltb_asymm [] [] h = refl
text_ltb_asymm [] (y ∷ b) h = refl
text_ltb_asymm (x ∷ a) [] h = ground arith
text_ltb_asymm (x ∷ a) (y ∷ b) h = ground (arith, text_ltb_asymm a b)

text_ltb_trans : (a b c : Text) → text_ltb a b ≡ true → text_ltb b c ≡ true → text_ltb a c ≡ true
unfolding text_ltb
text_ltb_trans a b [] h k = cc
text_ltb_trans a [] (z ∷ c) h k = ground arith
text_ltb_trans [] (y ∷ b) (z ∷ c) h k = refl
text_ltb_trans (x ∷ a) (y ∷ b) (z ∷ c) h k = ground (arith, text_ltb_trans a b c)

text_ltb_connex : (a b : Text) → text_ltb a b ≡ false → text_ltb b a ≡ false → a ≡ b
unfolding text_ltb
text_ltb_connex [] [] h k = refl
text_ltb_connex [] (y ∷ b) h k = cc
text_ltb_connex (x ∷ a) [] h k = cc
text_ltb_connex (x ∷ a) (y ∷ b) h k = ground (arith, text_ltb_connex a b)

abbrev pub flip : Ordering → Ordering
flip Ordering.lt = Ordering.gt
flip Ordering.eq = Ordering.eq
flip Ordering.gt = Ordering.lt

-- Swapping the arguments of `compare` flips the sign of its answer, and the answer is zero exactly
-- for equal stamps.
pub compare_stamps-flip :
    (a b : Timestamp)
    → (compare_stamps b a ≡ flip (compare_stamps a b))
      × ((compare_stamps a b ≡ Ordering.eq) ↔ (a ≡ b))
unfolding compare_stamps
compare_stamps-flip a b = (
  ground (arith, text_ltb_asymm a.node_id b.node_id, text_ltb_asymm b.node_id a.node_id),
  ground (
    arith,
    text_ltb_connex a.node_id b.node_id,
    text_ltb_irrefl a.node_id,
    text_ltb_irrefl b.node_id,
  ),
)

-- `compare` is transitive.
pub compare_stamps_trans :
    (a b c : Timestamp)
    → compare_stamps a b ≡ Ordering.lt
    → compare_stamps b c ≡ Ordering.lt
    → compare_stamps a c ≡ Ordering.lt
unfolding compare_stamps
compare_stamps_trans a b c h k = ground (arith, text_ltb_trans a.node_id b.node_id c.node_id)

-- A stamp that is later by its wall time and counter compares as greater, whatever the node ids.
pub compare_stamps-IsBefore : (a b : Timestamp) → IsBefore a b → compare_stamps a b ≡ Ordering.lt
unfolding compare_stamps
compare_stamps-IsBefore a b h = ground arith
