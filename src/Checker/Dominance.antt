-- ===== src/Checker/Dominance.antt =====
-- What `computeDominators` of checker.ts (packages/flow-graph/src) says of walks from the start.
use mathlib.Core.Path.{subst}
use sozai.Common.{
  ◌≡◌, refl, sym, ap, ◌∙◌, Bool, true, false, Option, none, some, List, [], ◌∷◌, ◌++◌, ◌⊎◌, inl,
  inr, arith, if◌then◌else◌, is_some,
}
use sozai.Common.Text.{Text, same, same_iff, includes}
use sozai.Common.Sets.{IsDistinct, includes_first, includes_later, includes-cases}
use sozai.Common.Fields.{Fields, own}
use sozai.Checker.{targets_of, targets_from}
use sozai.Checker.Walks.{here, on}
use sozai.Checker.Ends.{Leads}
use sozai.Checker.Dominators.{
  pushed, incoming, has_from, has_dominator, every_has, next_set, shared, compute_dominators,
}
use sozai.Checker.Shrinking.{IsShrinking, shared_iff}
use sozai.Checker.Settling.{IsFixed, compute_dominators-IsFixed}

pub includes_left : (r s : List Text) (y : Text) → includes r y ≡ true → includes (r ++ s) y ≡ true
unfolding includes
includes_left [] s y h = cc
includes_left (x ∷ r) s y h = ground (arith, h, includes_left r s y)

pub includes_right : (r s : List Text) (y : Text) → includes s y ≡ true → includes (r ++ s) y ≡ true
includes_right [] s y h = h
includes_right (x ∷ r) s y h = includes_later x (r ++ s) y (includes_right r s y h)

pushed-includes :
    (source : Text) (targets : List Text) (id : Text)
    → includes targets id ≡ true
    → includes (pushed source targets id) source ≡ true
unfolding pushed includes
pushed-includes source [] id h = cc
pushed-includes source (t ∷ rest) id h = pick (same t id) h (pushed-includes source rest id)
  where
    pick :
        (b : Bool)
        → (if b then true else includes rest id) ≡ true
        → (includes rest id ≡ true → includes (pushed source rest id) source ≡ true)
        → includes (if b then source ∷ pushed source rest id else pushed source rest id) source
          ≡ true
    pick true p q = includes_first source (pushed source rest id)
    pick false p q = q p

-- The node of an edge is a predecessor of its target.
incoming-includes :
    (edges : Fields (List Text)) (y id : Text)
    → includes (targets_of edges y) id ≡ true
    → includes (incoming edges id) y ≡ true
unfolding incoming own includes
incoming-includes [] y id h = cc
incoming-includes ((source, targets) ∷ rest) y id h =
    pick (same source y) ((same_iff source y).0) h (incoming-includes rest y id)
  where
    pick :
        (b : Bool)
        → (b ≡ true → source ≡ y)
        → includes (targets_from (if b then some targets else own rest y)) id ≡ true
        → (includes (targets_of rest y) id ≡ true → includes (incoming rest id) y ≡ true)
        → includes (pushed source targets id ++ incoming rest id) y ≡ true
    pick true e p q = includes_left (pushed source targets id) (incoming rest id) y (
        subst (λ v. includes (pushed source targets id) v ≡ true) (e refl)
          (pushed-includes source targets id p))
    pick false e p q = includes_right (pushed source targets id) (incoming rest id) y (q p)

every_has-one :
    (d : Fields (List Text)) (before : List Text) (c y : Text)
    → every_has d before c ≡ true
    → includes before y ≡ true
    → has_dominator d y c ≡ true
unfolding every_has includes
every_has-one d [] c y h i = cc
every_has-one d (p ∷ rest) c y h i = elim (includes-cases p rest y i) [
  | inl e ↦ subst (λ v. has_dominator d v c ≡ true) e (ground (arith, h))
  | inr k ↦ every_has-one d rest c y (ground (arith, h)) k
]

-- The walk passes `c`.
unfoldable pub Passes :
    (edges : Fields (List Text)) (start c z : Text) → Leads edges start z → Type 0
Passes edges start c z (here e) = c ≡ start
Passes edges start c z (on y _ w i e) = (c ≡ z) ⊎ Passes edges start c y w

module _ (start : Text) (ids : List Text) (distinct : IsDistinct ids)
    (edges : Fields (List Text)) where
  held :
      (o : Option (List Text)) (c : Text)
      → has_from o c ≡ true
      → (s : List Text) × (o ≡ some s) × (includes s c ≡ true)
  held none c h = cc
  held (some s) c h = (s, refl, h)

  IsFixed-Passes :
      (d : Fields (List Text))
      → IsShrinking start ids distinct edges d
      → ((id : Text) → includes ids id ≡ true → IsFixed start ids distinct edges d id)
      → (c z : Text) (w : Leads edges start z) → has_dominator d z c ≡ true
      → Passes edges start c z w
  unfolding Passes has_dominator next_set includes
  IsFixed-Passes d inv fixed c z (here e) h =
      let (s, q, i) = held (own d start) c h in
      elim (includes-cases start [] c (subst (λ l. includes l c ≡ true) (inv.at_start s q) i)) [
        | inl k ↦ sym k
        | inr k ↦ cc
      ]
  IsFixed-Passes d inv fixed c z (on y _ w i e) h =
      by_start (same z start) ((same_iff z start).0) refl (held (own d z) c h)
        (IsFixed-Passes d inv fixed c y w)
    where
      by_start :
          (b : Bool)
          → (b ≡ true → z ≡ start)
          → same z start ≡ b
          → (s : List Text) × (own d z ≡ some s) × (includes s c ≡ true)
          → (has_dominator d y c ≡ true → Passes edges start c y w)
          → (c ≡ z) ⊎ Passes edges start c y w
      by_start true at_start q (s, k, j) below =
          elim (includes-cases start [] c (
            subst (λ l. includes l c ≡ true)
              (inv.at_start s (subst (λ v. own d v ≡ some s) (at_start refl) k)) j)) [
                | inl m ↦ inl (sym m ∙ sym (at_start refl))
                | inr m ↦ cc
              ]
      by_start false at_start q (s, k, j) below =
          let inside : includes ids z ≡ true = sym (inv.has_id z) ∙ ap is_some k in
          let before = incoming edges z in
          elim (includes-cases z (shared d before z ids) c (fixed z inside s k q c j)) [
            | inl m ↦ inl (sym m)
            | inr m ↦ inr (
                below (
                  every_has-one d before c y (ground (arith, m, shared_iff d before z ids c))
                    (incoming-includes edges y z i)))
          ]

  -- The sets of dominators are computed for any graph, in the rounds that the fuel allows; every
  -- walk from the start to a node passes each of the node's dominators.
  pub compute_dominators-Passes :
      (d : Fields (List Text)) × (compute_dominators start ids edges ≡ some d)
      × ((id c : Text)
          → has_dominator d id c ≡ true
          → (w : Leads edges start id) → Passes edges start c id w)
  compute_dominators-Passes =
      let (d, e, inv, fixed) = compute_dominators-IsFixed start ids distinct edges in
      (d, e, λ id c h w. IsFixed-Passes d inv fixed c id w h)
