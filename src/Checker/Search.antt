-- ===== src/Checker/Search.antt =====
-- The searches of checker.ts (packages/flow-graph/src): the nodes that can be reached, and whether an
-- end node can.
use mathlib.Core.Path.{subst}
use sozai.Common.{
  ℕ, zero, suc, ◌<◌, ◌≡◌, refl, sym, Bool, true, false, not, ◌||◌, List, [], ◌∷◌, ◌⊎◌, inl, inr,
  ◌↔◌, if◌then◌else◌, arith,
}
use sozai.Common.Text.{Text, includes}
use sozai.Common.Fields.{Fields}
use sozai.FlowGraph.Types.{FlowDefinition}
use sozai.FlowGraph.Commits.{NodeKind}
use sozai.Checker.{targets_of, visit_all, is_node, visit, enough, reachable_nodes}
use sozai.Checker.Walks.{
  Walk, here, on, Closes, Walk-Closes, left, left-Within, left_less, left_all,
}
use sozai.Common.Sets.{Within, includes_first, includes_later, includes-cases}

module _ (enters : Text → Bool) (next : Text → List Text) where
  pub Walk-first :
      (x y : Text) {z : Text}
      → enters x ≡ true
      → includes (next x) y ≡ true
      → Walk enters next y z
      → Walk enters next x z
  Walk-first x y e i (here k) = on x y (here e) i k
  Walk-first x y e i (on u z w j k) = on u z (Walk-first x y e i w) j k

  -- A search of the nodes `ts` that has visited `new`, from the nodes `old` on.
  pub record Done (old : List Text) (ts : List Text) (new : List Text) : Type 0 where
    pub grows : Within old new
    pub has : (t : Text) → includes ts t ≡ true → enters t ≡ true → includes new t ≡ true
    pub closes : Closes enters next old new new

  pub Done-nothing : (r : List Text) → Done r [] r
  unfolding includes
  Done-nothing r = record { grows = λ y h. h; has = λ t h e. cc; closes = λ y h. inl h }

  pub Done-more :
      (r s u : List Text) (t : Text) (ts : List Text)
      → Done r (t ∷ []) s
      → Done s ts u
      → Done r (t ∷ ts) u
  Done-more r s u t ts d e = record {
    grows = λ y h. e.grows y (d.grows y h);
    has = λ x h k. elim (includes-cases t ts x h) [
      | inl q ↦
          e.grows x (d.has x (subst (λ v. includes (t ∷ []) v ≡ true) q (includes_first t [])) k)
      | inr i ↦ e.has x i k
    ];
    closes = λ y h. elim (e.closes y h) [
      | inr c ↦ inr c
      | inl i ↦ elim (d.closes y i) [ inl k ↦ inl k | inr c ↦ inr (λ z j k. e.grows z (c z j k)) ]
    ];
  }

  pub Done-skip :
      (r : List Text) (t : Text) → (enters t ≡ true → includes r t ≡ true) → Done r (t ∷ []) r
  unfolding includes
  Done-skip r t h = record {
    grows = λ y k. k;
    has = λ x i e. elim (includes-cases t [] x i) [
      | inl q ↦ subst (λ v. includes r v ≡ true) q (h (subst (λ v. enters v ≡ true) (sym q) e))
      | inr j ↦ cc
    ];
    closes = λ y k. inl k;
  }

  pub Done-enter : (r s : List Text) (t : Text) → Done (t ∷ r) (next t) s → Done r (t ∷ []) s
  unfolding includes
  Done-enter r s t d = record {
    grows = λ y h. d.grows y (includes_later t r y h);
    has = λ x i e. elim (includes-cases t [] x i) [
      | inl q ↦ subst (λ v. includes s v ≡ true) q (d.grows t (includes_first t r))
      | inr j ↦ cc
    ];
    closes = λ y h. elim (d.closes y h) [
      | inr c ↦ inr c
      | inl i ↦ elim (includes-cases t r y i) [
        | inr j ↦ inl j
        | inl q ↦ inr (λ z j k. d.has z (subst (λ v. includes (next v) z ≡ true) (sym q) j) k)
      ]
    ];
  }

module _ (definition : FlowDefinition) (kinds : Fields NodeKind) (edges : Fields (List Text)) where
  -- A walk over nodes of the definition.
  abbrev pub Reaches : Text → Text → Type 0
  Reaches = Walk (is_node definition kinds edges) (targets_of edges)

  abbrev Visited : List Text → List Text → List Text → Type 0
  Visited = Done (is_node definition kinds edges) (targets_of edges)

  visit_all-Done :
      (go : List Text → Text → List Text) (n : ℕ)
      → ((r : List Text) (t : Text) → left edges r < n → Visited r (t ∷ []) (go r t))
      → (r ts : List Text) → left edges r < n
      → Visited r ts (visit_all go r ts)
  unfolding visit_all
  visit_all-Done go n each r [] h =
      Done-nothing (is_node definition kinds edges) (targets_of edges) r
  visit_all-Done go n each r (t ∷ ts) h =
      let first = each r t h in
      Done-more (is_node definition kinds edges) (targets_of edges) r (go r t)
        (visit_all go (go r t) ts) t ts first
        (visit_all-Done go n each (go r t) ts
          (omega (arith, h, left-Within edges r (go r t) first.grows)))

  visit-Done :
      (n : ℕ) (r : List Text) (t : Text)
      → left edges r < n
      → Visited r (t ∷ []) (visit definition kinds edges n r t)
  unfolding visit visit_all
  visit-Done zero r t h = absurd (omega arith)
  visit-Done (suc n) r t h = by_test (includes r t) refl (is_node definition kinds edges t) refl (
      visit_all-Done (visit definition kinds edges n) n (visit-Done n) (t ∷ r) (targets_of edges t))
    where
      entered : List Text
      entered = visit_all (visit definition kinds edges n) (t ∷ r) (targets_of edges t)

      by_test :
          (seen : Bool)
          → includes r t ≡ seen
          → (node : Bool) → is_node definition kinds edges t ≡ node
          → (left edges (t ∷ r) < n → Visited (t ∷ r) (targets_of edges t) entered)
          → Visited r (t ∷ []) (if seen || not node then r else entered)
      by_test true e node q go =
          Done-skip (is_node definition kinds edges) (targets_of edges) r t (λ _. e)
      by_test false e false q go =
          Done-skip (is_node definition kinds edges) (targets_of edges) r t (λ k. cc)
      by_test false e true q go =
          Done-enter (is_node definition kinds edges) (targets_of edges) r entered t
            (elim (left_less edges r t e) [
              | inl empty ↦
                  subst
                    (λ ts.
                      Visited (t ∷ r) ts (visit_all (visit definition kinds edges n) (t ∷ r) ts))
                    (sym empty)
                    (Done-nothing (is_node definition kinds edges) (targets_of edges) (t ∷ r))
              | inr less ↦ go (omega (arith, h, less))
            ])

  -- Every node that a visit adds can be reached from where it starts.
  visit_all-Walk :
      (go : List Text → Text → List Text)
      → ((r : List Text) (t y : Text)
          → includes (go r t) y ≡ true
          → (includes r y ≡ true) ⊎ Reaches t y)
      → (r ts : List Text) (y : Text) → includes (visit_all go r ts) y ≡ true
      → (includes r y ≡ true) ⊎ ((t : Text) × (includes ts t ≡ true) × Reaches t y)
  unfolding visit_all
  visit_all-Walk go each r [] y h = inl h
  visit_all-Walk go each r (t ∷ ts) y h = elim (visit_all-Walk go each (go r t) ts y h) [
    | inr (u, i, w) ↦ inr (u, includes_later t ts u i, w)
    | inl i ↦ elim (each r t y i) [ inl k ↦ inl k | inr w ↦ inr (t, includes_first t ts, w) ]
  ]

  visit-Walk :
      (n : ℕ) (r : List Text) (t y : Text)
      → includes (visit definition kinds edges n r t) y ≡ true
      → (includes r y ≡ true) ⊎ Reaches t y
  unfolding visit
  visit-Walk zero r t y h = inl h
  visit-Walk (suc n) r t y h =
      by_test (includes r t) (is_node definition kinds edges t) refl
        (visit_all-Walk (visit definition kinds edges n) (visit-Walk n) (t ∷ r) (targets_of edges t)
          y)
        h
    where
      entered : List Text
      entered = visit_all (visit definition kinds edges n) (t ∷ r) (targets_of edges t)

      by_test :
          (seen node : Bool)
          → is_node definition kinds edges t ≡ node
          → (includes entered y ≡ true
              → (includes (t ∷ r) y ≡ true)
                ⊎ ((u : Text) × (includes (targets_of edges t) u ≡ true) × Reaches u y))
          → includes (if seen || not node then r else entered) y ≡ true
          → (includes r y ≡ true) ⊎ Reaches t y
      by_test true node q go k = inl k
      by_test false false q go k = inl k
      by_test false true q go k = elim (go k) [
        | inr (u, i, w) ↦
            inr (Walk-first (is_node definition kinds edges) (targets_of edges) t u q i w)
        | inl i ↦ elim (includes-cases t r y i) [
          | inl e ↦ inr (subst (λ v. Reaches t v) e (here q))
          | inr j ↦ inl j
        ]
      ]

  -- The reachable nodes are those that a walk over the definition's nodes leads to from the start.
  pub reachable_nodes_iff :
      (id : Text)
      → (includes (reachable_nodes definition kinds edges) id ≡ true) ↔ Reaches definition.start id
  unfolding reachable_nodes includes
  reachable_nodes_iff id =
      let n = enough definition kinds edges edges in
      let d = visit-Done n [] definition.start (omega (arith, left_all edges [])) in
      (
        λ h. elim (visit-Walk n [] definition.start id h) [ inl k ↦ cc | inr w ↦ w ],
        Walk-Closes (is_node definition kinds edges) (targets_of edges)
            (visit definition kinds edges n [] definition.start) d.closes
            (d.has definition.start (includes_first definition.start [])),
      )
