-- ===== src/Checker/Ends.antt =====
-- Whether an end node can be reached from a node, in checker.ts (packages/flow-graph/src).
use mathlib.Core.Path.{subst}
use sozai.Common.{
  ℕ, zero, suc, ◌<◌, ◌≡◌, refl, sym, Bool, true, false, List, [], ◌∷◌, ◌⊎◌, inl, inr, ◌↔◌,
  if◌then◌else◌, arith, Bool-cases,
}
use sozai.Common.Text.{Text, includes}
use sozai.Common.Fields.{Fields}
use sozai.FlowGraph.Types.{FlowDefinition}
use sozai.FlowGraph.Commits.{NodeKind}
use sozai.Checker.{targets_of, some_target, is_end_node, contains_end, enough, reaches_end}
use sozai.Checker.Walks.{Walk, here, Walk-Closes, left, left-Within, left_less, left_all}
use sozai.Common.Sets.{includes_first, includes_later, includes-cases}
use sozai.Checker.Search.{Done, Done-nothing, Done-more, Done-skip, Done-enter, Walk-first}

abbrev any_node : Text → Bool
any_node id = true

-- Every target is followed, whether it names a node or not.
abbrev pub Leads : Fields (List Text) → Text → Text → Type 0
Leads edges = Walk any_node (targets_of edges)

module _ (definition : FlowDefinition) (kinds : Fields NodeKind) (edges : Fields (List Text)) where
  abbrev Visited : List Text → List Text → List Text → Type 0
  Visited = Done any_node (targets_of edges)

  -- A search that finds no end node has visited none.
  abbrev NoEnd : List Text → List Text → Type 0
  NoEnd r s =
      (y : Text)
      → includes s y ≡ true
      → (includes r y ≡ true) ⊎ (is_end_node definition kinds edges y ≡ false)

  abbrev FindsNone : List Text → List Text → Bool × List Text → Type 0
  FindsNone r ts x = x.0 ≡ false → Visited r ts x.1 × NoEnd r x.1

  some_target-FindsNone :
      (go : List Text → Text → Bool × List Text) (n : ℕ)
      → ((r : List Text) (t : Text) → left edges r < n → FindsNone r (t ∷ []) (go r t))
      → (r ts : List Text) → left edges r < n
      → FindsNone r ts (some_target go r ts)
  unfolding some_target
  some_target-FindsNone go n each r [] h =
      λ e. (Done-nothing any_node (targets_of edges) r, λ y i. inl i)
  some_target-FindsNone go n each r (t ∷ ts) h =
      by_test (go r t) (each r t h) (λ s. some_target-FindsNone go n each s ts)
    where
      by_test :
          (x : Bool × List Text)
          → FindsNone r (t ∷ []) x
          → ((s : List Text) → left edges s < n → FindsNone s ts (some_target go s ts))
          → FindsNone r (t ∷ ts) (if x.0 then x else some_target go x.1 ts)
      by_test (true, s) first rest e = cc
      by_test (false, s) first rest e =
          let (d, none_first) = first refl in
          let (d', none_rest) = rest s (omega (arith, h, left-Within edges r s d.grows)) e in
          (
            Done-more any_node (targets_of edges) r s (some_target go s ts).1 t ts d d',
            λ y i. elim (none_rest y i) [ inr k ↦ inr k | inl j ↦ none_first y j ],
          )

  contains_end-FindsNone :
      (n : ℕ) (r : List Text) (t : Text)
      → left edges r < n
      → FindsNone r (t ∷ []) (contains_end definition kinds edges n r t)
  unfolding contains_end some_target
  contains_end-FindsNone zero r t h = absurd (omega arith)
  contains_end-FindsNone (suc n) r t h =
      by_test (includes r t) refl (is_end_node definition kinds edges t) refl (
        some_target-FindsNone (contains_end definition kinds edges n) n (contains_end-FindsNone n)
          (t ∷ r) (targets_of edges t))
    where
      inner : Bool × List Text
      inner = some_target (contains_end definition kinds edges n) (t ∷ r) (targets_of edges t)

      by_test :
          (seen : Bool)
          → includes r t ≡ seen
          → (ends : Bool) → is_end_node definition kinds edges t ≡ ends
          → (left edges (t ∷ r) < n → FindsNone (t ∷ r) (targets_of edges t) inner)
          → FindsNone r
              (t ∷ [])
              (if seen then (false, r) else if ends then (true, t ∷ r) else inner)
      by_test true i ends q go e =
          (Done-skip any_node (targets_of edges) r t (λ _. i), λ y k. inl k)
      by_test false i true q go e = cc
      by_test false i false q go e =
          let (d, none_inner) = after (left_less edges r t i) go e in
          (
            Done-enter any_node (targets_of edges) r inner.1 t d,
            λ y k. elim (none_inner y k) [
              | inr f ↦ inr f
              | inl j ↦ elim (includes-cases t r y j) [
                | inl same_id ↦
                    inr (subst (λ v. is_end_node definition kinds edges v ≡ false) same_id q)
                | inr old ↦ inl old
              ]
            ],
          )
        where
          after :
              (targets_of edges t ≡ []) ⊎ (left edges (t ∷ r) < left edges r)
              → (left edges (t ∷ r) < n → FindsNone (t ∷ r) (targets_of edges t) inner)
              → FindsNone (t ∷ r) (targets_of edges t) inner
          after (inr less) go = go (omega (arith, h, less))
          after (inl empty) go =
              subst
                (λ ts.
                  FindsNone (t ∷ r) ts
                    (some_target (contains_end definition kinds edges n) (t ∷ r) ts))
                (sym empty) (λ _. (Done-nothing any_node (targets_of edges) (t ∷ r), λ y i. inl i))

  -- An end node that a walk leads to.
  abbrev pub ReachesEnd : Text → Type 0
  ReachesEnd id = (z : Text) × Leads edges id z × (is_end_node definition kinds edges z ≡ true)

  some_target-ReachesEnd :
      (go : List Text → Text → Bool × List Text)
      → ((r : List Text) (t : Text) → (go r t).0 ≡ true → ReachesEnd t)
      → (r ts : List Text) → (some_target go r ts).0 ≡ true
      → (t : Text) × (includes ts t ≡ true) × ReachesEnd t
  unfolding some_target
  some_target-ReachesEnd go each r [] h = cc
  some_target-ReachesEnd go each r (t ∷ ts) h =
      by_test (go r t) (each r t) (λ s. some_target-ReachesEnd go each s ts) h
    where
      by_test :
          (x : Bool × List Text)
          → (x.0 ≡ true → ReachesEnd t)
          → ((s : List Text)
              → (some_target go s ts).0 ≡ true
              → (u : Text) × (includes ts u ≡ true) × ReachesEnd u)
          → (if x.0 then x else some_target go x.1 ts).0 ≡ true
          → (u : Text) × (includes (t ∷ ts) u ≡ true) × ReachesEnd u
      by_test (true, s) first rest e = (t, includes_first t ts, first refl)
      by_test (false, s) first rest e = let (u, i, w) = rest s e in (u, includes_later t ts u i, w)

  contains_end-ReachesEnd :
      (n : ℕ) (r : List Text) (t : Text)
      → (contains_end definition kinds edges n r t).0 ≡ true
      → ReachesEnd t
  unfolding contains_end
  contains_end-ReachesEnd zero r t h = cc
  contains_end-ReachesEnd (suc n) r t h =
      by_test (includes r t) (is_end_node definition kinds edges t) refl
        (some_target-ReachesEnd (contains_end definition kinds edges n) (contains_end-ReachesEnd n)
          (t ∷ r) (targets_of edges t))
        h
    where
      inner : Bool × List Text
      inner = some_target (contains_end definition kinds edges n) (t ∷ r) (targets_of edges t)

      by_test :
          (seen ends : Bool)
          → is_end_node definition kinds edges t ≡ ends
          → (inner.0 ≡ true → (u : Text) × (includes (targets_of edges t) u ≡ true) × ReachesEnd u)
          → (if seen then (false, r) else if ends then (true, t ∷ r) else inner).0 ≡ true
          → ReachesEnd t
      by_test true ends q go k = cc
      by_test false true q go k = (t, here refl, q)
      by_test false false q go k =
          let (u, i, (z, w, e)) = go k in
          (z, Walk-first any_node (targets_of edges) t u refl i w, e)

  -- The search of one node finds an end node exactly if a walk over the edges leads to one.
  pub reaches_end_iff : (id : Text) → (reaches_end definition kinds edges id ≡ true) ↔ ReachesEnd id
  unfolding reaches_end includes
  reaches_end_iff id =
      let n = enough definition kinds edges edges in
      (
        contains_end-ReachesEnd n [] id,
        λ (z, w, e). elim (Bool-cases (contains_end definition kinds edges n [] id).0) [
          | inl found ↦ found
          | inr none_found ↦
              let (d, no_end) =
                contains_end-FindsNone n [] id (omega (arith, left_all edges [])) none_found in
              let visited =
                Walk-Closes any_node (targets_of edges)
                  (contains_end definition kinds edges n [] id).1 d.closes
                  (d.has id (includes_first id [])) w in
              elim (no_end z visited) [ inl k ↦ cc | inr f ↦ cc ]
        ],
      )
