-- ===== src/Values/Equality.antt =====
-- What the equality of JSON values in filter.ts (packages/flow-graph/src) says of what paths read.
use mathlib.Core.Path.{subst}
use sozai.Common.{
  ℕ, ◌+◌, ◌≤◌, ◌≡◌, refl, sym, ◌∙◌, Bool, true, false, ◌&&◌, is_some, Option, none, some, List, [],
  ◌∷◌, inl, inr, arith, ◌==◌, ==_iff, if◌then◌else◌, Bool-cases,
}
use sozai.Common.Text.{Text, txt, same, same_iff, includes}
use sozai.Common.Lists.{length}
use sozai.Common.Sets.{Within, Within-flip, IsDistinct}
use sozai.Common.Decimal.{decimal}
use sozai.Common.Json.{Json, null, bool, num, str, arr, obj, Items, nil, cons, Members, end, member}
use sozai.Values.{Segments, own_member, own_item, item_from, count, own_value, follow}
use sozai.Values.Filters.{equal, all_equal, all_own, is_held, member_count}

abbrev pub keys : Members → List Text
keys end = []
keys (member k v rest) = k ∷ keys rest

-- Every object in the value has each key once.
unfoldable mutual
  pub AllDistinct : Json → Type 0
  AllDistinct (arr items) = EachDistinct items
  AllDistinct (obj members) = IsDistinct (keys members) × MembersDistinct members
  AllDistinct _ = Unit

  pub EachDistinct : Items → Type 0
  EachDistinct nil = Unit
  EachDistinct (cons v rest) = AllDistinct v × EachDistinct rest

  pub MembersDistinct : Members → Type 0
  MembersDistinct end = Unit
  MembersDistinct (member k v rest) = AllDistinct v × MembersDistinct rest

-- Both are missing, or both are there, equal and with distinct keys.
abbrev Agrees : Option Json → Option Json → Type 0
Agrees none none = Unit
Agrees none (some w) = ⊥
Agrees (some v) none = ⊥
Agrees (some v) (some w) = (equal v w ≡ true) × AllDistinct v × AllDistinct w

and_true : (a b : Bool) → (a && b) ≡ true → (a ≡ true) × (b ≡ true)
and_true true b h = (refl, h)
and_true false b h = cc

item_from-Agrees :
    (i : ℕ) (xs ys : Items) (k : Text)
    → count xs ≡ count ys
    → all_equal xs ys ≡ true
    → EachDistinct xs
    → EachDistinct ys
    → Agrees (item_from i xs k) (item_from i ys k)
unfolding item_from count equal EachDistinct
item_from-Agrees i nil nil k c h d e = tt
item_from-Agrees i nil (cons y ys) k c h d e = absurd (omega (arith, c))
item_from-Agrees i (cons x xs) nil k c h d e = absurd (omega (arith, c))
item_from-Agrees i (cons x xs) (cons y ys) k c h (dx, d) (dy, e) =
    let (first, rest) = and_true (equal x y) (all_equal xs ys) h in
    pick (same (decimal i) k) (first, dx, dy)
      (item_from-Agrees (i + 1) xs ys k (omega (arith, c)) rest d e)
  where
    pick :
        (b : Bool)
        → Agrees (some x) (some y)
        → Agrees (item_from (i + 1) xs k) (item_from (i + 1) ys k)
        → Agrees
            (if b then some x else item_from (i + 1) xs k)
            (if b then some y else item_from (i + 1) ys k)
    pick true p q = p
    pick false p q = q

abbrev HeldDistinct : Option Json → Type 0
HeldDistinct none = Unit
HeldDistinct (some v) = AllDistinct v

own_member-HeldDistinct :
    (ms : Members) (k : Text) → MembersDistinct ms → HeldDistinct (own_member ms k)
unfolding own_member MembersDistinct
own_member-HeldDistinct end k d = tt
own_member-HeldDistinct (member j v rest) k (dv, d) =
    pick (same j k) (own_member-HeldDistinct rest k d)
  where
    pick :
        (b : Bool)
        → HeldDistinct (own_member rest k)
        → HeldDistinct (if b then some v else own_member rest k)
    pick true q = dv
    pick false q = q

includes-keys : (ms : Members) (k : Text) → includes (keys ms) k ≡ is_some (own_member ms k)
unfolding includes own_member
includes-keys end k = refl
includes-keys (member j v rest) k = pick (same j k) (includes-keys rest k)
  where
    pick :
        (b : Bool)
        → includes (keys rest) k ≡ is_some (own_member rest k)
        → (if b then true else includes (keys rest) k)
          ≡ is_some (if b then some v else own_member rest k)
    pick true q = refl
    pick false q = q

length-keys : (ms : Members) → length (keys ms) ≡ member_count ms
unfolding member_count
length-keys end = refl
length-keys (member k v rest) = omega (arith, length-keys rest)

missing : (o : Option Json) → is_some o ≡ false → o ≡ none
missing none h = refl
missing (some v) h = cc

is_held-Agrees :
    (v : Json) (o : Option Json)
    → is_held (equal v) o ≡ true
    → AllDistinct v
    → HeldDistinct o
    → Agrees (some v) o
is_held-Agrees v none h d e = cc
is_held-Agrees v (some w) h d e = (h, d, e)

-- Each member of the first object is one of the second.
all_own-Agrees :
    (ms ns : Members) (k : Text)
    → all_own ms ns ≡ true
    → MembersDistinct ms
    → MembersDistinct ns
    → includes (keys ms) k ≡ true
    → Agrees (own_member ms k) (own_member ns k)
unfolding equal own_member includes MembersDistinct
all_own-Agrees end ns k h d e i = cc
all_own-Agrees (member j v rest) ns k h (dv, d) e i =
    let (first, later) = and_true (is_held (equal v) (own_member ns j)) (all_own rest ns) h in
    pick (same j k) ((same_iff j k).0) i
      (is_held-Agrees v (own_member ns j) first dv (own_member-HeldDistinct ns j e))
      (all_own-Agrees rest ns k later d e)
  where
    pick :
        (b : Bool)
        → (b ≡ true → j ≡ k)
        → (if b then true else includes (keys rest) k) ≡ true
        → Agrees (some v) (own_member ns j)
        → (includes (keys rest) k ≡ true → Agrees (own_member rest k) (own_member ns k))
        → Agrees (if b then some v else own_member rest k) (own_member ns k)
    pick true q m p r = subst (λ x. Agrees (some v) (own_member ns x)) (q refl) p
    pick false q m p r = r m

all_own-Within :
    (ms ns : Members)
    → all_own ms ns ≡ true
    → MembersDistinct ms
    → MembersDistinct ns
    → Within (keys ms) (keys ns)
all_own-Within ms ns h d e k i =
    includes-keys ns k
    ∙ there (own_member ms k) (own_member ns k) (sym (includes-keys ms k) ∙ i)
        (all_own-Agrees ms ns k h d e i)
  where
    there : (o p : Option Json) → is_some o ≡ true → Agrees o p → is_some p ≡ true
    there none p h a = cc
    there (some v) none h a = absurd a
    there (some v) (some w) h a = refl

own_member-Agrees :
    (ms ns : Members) (k : Text)
    → equal (obj ms) (obj ns) ≡ true
    → AllDistinct (obj ms)
    → AllDistinct (obj ns)
    → Agrees (own_member ms k) (own_member ns k)
unfolding equal AllDistinct
own_member-Agrees ms ns k h (dk, d) (ek, e) =
    let (counted, h') = and_true (member_count ms == member_count ns) (all_own ms ns) h in
    let sizes : length (keys ns) ≤ length (keys ms) = omega (
      arith,
      length-keys ms,
      length-keys ns,
      (==_iff (member_count ms) (member_count ns)).0 counted,
    ) in
    let back = Within-flip (keys ms) (keys ns) dk (all_own-Within ms ns h' d e) sizes in
    elim (Bool-cases (includes (keys ms) k)) [
      | inl i ↦ all_own-Agrees ms ns k h' d e i
      | inr i ↦
          let gone : includes (keys ns) k ≡ false = elim (Bool-cases (includes (keys ns) k)) [
            | inl j ↦ cc (back k j)
            | inr j ↦ j
          ] in
          subst (λ o. Agrees o (own_member ns k))
            (sym (missing (own_member ms k) (sym (includes-keys ms k) ∙ i)))
            (subst (λ o. Agrees none o)
              (sym (missing (own_member ns k) (sym (includes-keys ns k) ∙ gone))) tt)
    ]

own_item-Agrees :
    (xs ys : Items) (k : Text)
    → equal (arr xs) (arr ys) ≡ true
    → EachDistinct xs
    → EachDistinct ys
    → Agrees (own_item xs k) (own_item ys k)
unfolding equal own_item AllDistinct
own_item-Agrees xs ys k h d e =
    let (counted, h') = and_true (count xs == count ys) (all_equal xs ys) h in
    pick (same k (txt "length")) (counted, tt, tt)
      (item_from-Agrees 0 xs ys k ((==_iff (count xs) (count ys)).0 counted) h' d e)
  where
    pick :
        (b : Bool)
        → Agrees (some (num (count xs))) (some (num (count ys)))
        → Agrees (item_from 0 xs k) (item_from 0 ys k)
        → Agrees
            (if b then some (num (count xs)) else item_from 0 xs k)
            (if b then some (num (count ys)) else item_from 0 ys k)
    pick true p q = p
    pick false p q = q

own_value-Agrees :
    (a b : Json) (k : Text)
    → equal a b ≡ true
    → AllDistinct a
    → AllDistinct b
    → Agrees (own_value a k) (own_value b k)
unfolding equal own_value AllDistinct
own_value-Agrees null null k h d e = tt
own_value-Agrees null (bool y) k h d e = tt
own_value-Agrees null (num y) k h d e = tt
own_value-Agrees null (str y) k h d e = tt
own_value-Agrees null (arr y) k h d e = cc
own_value-Agrees null (obj y) k h d e = cc
own_value-Agrees (bool x) null k h d e = tt
own_value-Agrees (bool x) (bool y) k h d e = tt
own_value-Agrees (bool x) (num y) k h d e = tt
own_value-Agrees (bool x) (str y) k h d e = tt
own_value-Agrees (bool x) (arr y) k h d e = cc
own_value-Agrees (bool x) (obj y) k h d e = cc
own_value-Agrees (num x) null k h d e = tt
own_value-Agrees (num x) (bool y) k h d e = tt
own_value-Agrees (num x) (num y) k h d e = tt
own_value-Agrees (num x) (str y) k h d e = tt
own_value-Agrees (num x) (arr y) k h d e = cc
own_value-Agrees (num x) (obj y) k h d e = cc
own_value-Agrees (str x) null k h d e = tt
own_value-Agrees (str x) (bool y) k h d e = tt
own_value-Agrees (str x) (num y) k h d e = tt
own_value-Agrees (str x) (str y) k h d e = tt
own_value-Agrees (str x) (arr y) k h d e = cc
own_value-Agrees (str x) (obj y) k h d e = cc
own_value-Agrees (arr x) null k h d e = cc
own_value-Agrees (arr x) (bool y) k h d e = cc
own_value-Agrees (arr x) (num y) k h d e = cc
own_value-Agrees (arr x) (str y) k h d e = cc
own_value-Agrees (arr x) (arr y) k h d e = own_item-Agrees x y k h d e
own_value-Agrees (arr x) (obj y) k h d e = cc
own_value-Agrees (obj x) null k h d e = cc
own_value-Agrees (obj x) (bool y) k h d e = cc
own_value-Agrees (obj x) (num y) k h d e = cc
own_value-Agrees (obj x) (str y) k h d e = cc
own_value-Agrees (obj x) (arr y) k h d e = cc
own_value-Agrees (obj x) (obj y) k h d e = own_member-Agrees x y k h d e

follow-Agrees :
    (a b : Option Json) (path : Segments)
    → Agrees a b
    → equal (follow a path) (follow b path) ≡ true
unfolding follow equal
follow-Agrees none none path g = refl
follow-Agrees none (some w) path g = absurd g
follow-Agrees (some v) none path g = absurd g
follow-Agrees (some v) (some w) [] (h, d, e) = h
follow-Agrees (some v) (some w) (part ∷ rest) (h, d, e) =
    follow-Agrees (own_value v part) (own_value w part) rest (own_value-Agrees v w part h d e)

-- Values that the filters take for equal, whatever the order of their keys, read as equal values at
-- every path, where each object has each of its keys once.
pub equal-follow :
    (a b : Json)
    → equal a b ≡ true
    → AllDistinct a
    → AllDistinct b
    → (path : Segments) → equal (follow (some a) path) (follow (some b) path) ≡ true
equal-follow a b h d e path = follow-Agrees (some a) (some b) path (h, d, e)
