-- ===== src/Checker/Walks.antt =====
-- Walks along the edges of a graph, and sets of nodes, for the checks of checker.ts.
use sozai.Common.{
  ℕ, ◌+◌, ◌≤◌, ◌<◌, ◌≡◌, refl, Bool, true, false, List, [], ◌∷◌, ◌⊎◌, inl, inr, if◌then◌else◌,
  arith, Bool-cases,
}
use sozai.Common.Text.{Text, same, same_iff, includes}
use sozai.Common.Fields.{Fields, own}
use sozai.Common.Lists.{length}
use sozai.Common.Sets.{Within, includes_first, includes_later}
use sozai.Checker.{targets_of}

-- A node that a walk from `x` leads to, along edges to nodes that it may enter.
pub data Walk (enters : Text → Bool) (next : Text → List Text) (x : Text) : Text → Type 0 where
  here : enters x ≡ true → Walk enters next x x
  on :
      (y z : Text)
      → Walk enters next x y
      → includes (next y) z ≡ true
      → enters z ≡ true
      → Walk enters next x z

module _ (enters : Text → Bool) (next : Text → List Text) where
  -- The nodes of `r` that are not in `old` have all their targets in `s`.
  abbrev pub Closes : List Text → List Text → List Text → Type 0
  Closes old r s =
      (y : Text)
      → includes r y ≡ true
      → (includes old y ≡ true)
        ⊎ ((z : Text) → includes (next y) z ≡ true → enters z ≡ true → includes s z ≡ true)

  pub Walk-Closes :
      (r : List Text) {x z : Text}
      → Closes [] r r
      → (enters x ≡ true → includes r x ≡ true)
      → Walk enters next x z
      → includes r z ≡ true
  unfolding includes
  Walk-Closes r c h (here e) = h e
  Walk-Closes r c h (on y z w i e) = elim (c y (Walk-Closes r c h w)) [
    | inl k ↦ cc
    | inr k ↦ k z i e
  ]

-- The ids that have targets and are not in `r`.
abbrev pub left : Fields (List Text) → List Text → ℕ
left [] r = 0
left ((id, targets) ∷ rest) r = (if includes r id then 0 else 1) + left rest r

pub left-Within :
    (edges : Fields (List Text)) (r s : List Text) → Within r s → left edges s ≤ left edges r
left-Within [] r s h = omega arith
left-Within ((id, targets) ∷ rest) r s h = elim (Bool-cases (includes r id)) [
  | inl e ↦ ground (arith, e, h id e, left-Within rest r s h)
  | inr e ↦ ground (arith, e, left-Within rest r s h)
]

-- An id that has targets is counted until it is added.
pub left_less :
    (edges : Fields (List Text)) (r : List Text) (id : Text)
    → includes r id ≡ false
    → (targets_of edges id ≡ []) ⊎ (left edges (id ∷ r) < left edges r)
unfolding own
left_less [] r id h = inl refl
left_less ((k, targets) ∷ rest) r id h = elim (Bool-cases (same k id)) [
  | inl e ↦ inr (
      rw ((same_iff k id).0 e) (
        rw (includes_first id r)
          (rw h (omega (arith, left-Within rest r (id ∷ r) (includes_later id r))))))
  | inr e ↦ elim (left_less rest r id h) [
    | inl none_left ↦ inl (rw e none_left)
    | inr less ↦ inr (elim (Bool-cases (includes r k)) [
      | inl i ↦ rw i (rw (includes_later id r k i) (omega (arith, less)))
      | inr i ↦ rw i (ground (arith, less))
    ])
  ]
]

pub left_all : (edges : Fields (List Text)) (r : List Text) → left edges r ≤ length edges
left_all [] r = omega arith
left_all ((id, targets) ∷ rest) r = ground (arith, left_all rest r)
