-- ===== src/Checker/Cycles.antt =====
-- The search for a cycle in checker.ts (packages/flow-graph/src).
use mathlib.Core.Path.{subst}
use sozai.Common.{
  ℕ, zero, suc, ◌<◌, ◌≡◌, refl, sym, Bool, true, false, List, [], ◌∷◌, ◌⊎◌, inl, inr, if◌then◌else◌,
  arith,
}
use sozai.Common.Text.{Text, includes}
use sozai.Common.Fields.{Fields}
use sozai.FlowGraph.Types.{FlowDefinition}
use sozai.FlowGraph.Commits.{NodeKind}
use sozai.Checker.{
  targets_of, Cycle, cyclic, acyclic, out_of_fuel, then_cycle, some_cycle, cycle, enough,
  find_cycle, stripped,
}
use sozai.Checker.Walks.{here, on, left, left_less, left_all}
use sozai.Common.Sets.{Within, includes_first, includes_later, includes-cases}
use sozai.Checker.Ends.{Leads}

module _ (next : Fields (List Text)) where
  -- A walk with at least one edge.
  abbrev pub LeadsOn : Text → Text → Type 0
  LeadsOn x z = (y : Text) × (includes (targets_of next x) y ≡ true) × Leads next y z

  -- Each node's targets are after it.
  abbrev IsSorted : List Text → Type 0
  IsSorted [] = Unit
  IsSorted (d ∷ rest) =
      ((y : Text) → includes (targets_of next d) y ≡ true → includes rest y ≡ true) × IsSorted rest

  -- Walks from a sorted list stay in it.
  IsSorted-Leads :
      (r : List Text) {x z : Text}
      → IsSorted r
      → includes r x ≡ true
      → Leads next x z
      → includes r z ≡ true
  unfolding includes
  IsSorted-Leads r s i (here e) = i
  IsSorted-Leads r s i (on y z w j e) = after r s y (IsSorted-Leads r s i w) j
    where
      after :
          (l : List Text)
          → IsSorted l
          → (u : Text) → includes l u ≡ true
          → includes (targets_of next u) z ≡ true
          → includes l z ≡ true
      after [] t u k m = cc
      after (d ∷ l) (first, t) u k m = elim (includes-cases d l u k) [
        | inl e ↦
            includes_later d l z
              (first z (subst (λ v. includes (targets_of next v) z ≡ true) (sym e) m))
        | inr q ↦ includes_later d l z (after l t u q m)
      ]

  IsSorted-LeadsOn : (r : List Text) (x : Text) → IsSorted r → includes r x ≡ true → ¬ (LeadsOn x x)
  unfolding includes
  IsSorted-LeadsOn [] x s i w = cc
  IsSorted-LeadsOn (d ∷ r) x (first, s) i (y, j, w) = elim (includes-cases d r x i) [
    | inr k ↦ IsSorted-LeadsOn r x s k (y, j, w)
    | inl e ↦
        let later : includes r x ≡ true =
          IsSorted-Leads r s
            (first y (subst (λ v. includes (targets_of next v) y ≡ true) (sym e) j)) w in
        IsSorted-LeadsOn r x s later (y, j, w)
  ]

  -- What a search of the nodes `ts` finds, which starts with the nodes `done`.
  abbrev Judged : List Text → List Text → Cycle → Type 0
  Judged done ts cyclic = (x : Text) × LeadsOn x x
  Judged done ts (acyclic d) =
      IsSorted d × Within done d × ((t : Text) → includes ts t ≡ true → includes d t ≡ true)
  Judged done ts out_of_fuel = ⊥

  some_cycle-Judged :
      (go : List Text → Text → Cycle) (done ts : List Text)
      → ((d : List Text) (t : Text)
          → IsSorted d
          → includes ts t ≡ true
          → Judged d (t ∷ []) (go d t))
      → IsSorted done
      → Judged done ts (some_cycle go done ts)
  unfolding some_cycle includes
  some_cycle-Judged go done [] each s = (s, λ y h. h, λ t h. cc)
  some_cycle-Judged go done (t ∷ ts) each s =
      by_first (go done t) (each done t s (includes_first t ts))
        (λ d o. some_cycle-Judged go d ts (λ e u p i. each e u p (includes_later t ts u i)) o)
    where
      by_first :
          (c : Cycle)
          → Judged done (t ∷ []) c
          → ((d : List Text) → IsSorted d → Judged d ts (some_cycle go d ts))
          → Judged done (t ∷ ts) (then_cycle c (λ d. some_cycle go d ts))
      by_first cyclic j rest = j
      by_first out_of_fuel j rest = j
      by_first (acyclic d) (o, grows, has) rest = by_rest (some_cycle go d ts) (rest d o)
        where
          by_rest : (c : Cycle) → Judged d ts c → Judged done (t ∷ ts) c
          by_rest cyclic j = j
          by_rest out_of_fuel j = j
          by_rest (acyclic e) (p, grows', has') = (
            p,
            λ y h. grows' y (grows y h),
            λ u i. elim (includes-cases t ts u i) [
              | inr k ↦ has' u k
              | inl q ↦ grows' u (subst (λ v. includes d v ≡ true) q (has t (includes_first t [])))
            ],
          )

  module _ (definition : FlowDefinition) (kinds : Fields NodeKind)
      (edges : Fields (List Text)) where
    cycle-Judged :
        (n : ℕ) (stack done : List Text) (id : Text)
        → left next stack < n
        → IsSorted done
        → ((s : Text) → includes stack s ≡ true → LeadsOn s id)
        → Judged done (id ∷ []) (cycle definition kinds edges next n stack done id)
    unfolding cycle some_cycle includes
    cycle-Judged zero stack done id h s below = absurd (omega arith)
    cycle-Judged (suc n) stack done id h s below =
        by_test (includes stack id) refl (includes done id) refl (λ less.
          some_cycle-Judged (cycle definition kinds edges next n (id ∷ stack)) done
            (targets_of next id) (λ d t p i. cycle-Judged n (id ∷ stack) d t less p (extend t i)) s)
      where
        inner : Cycle
        inner =
            some_cycle (cycle definition kinds edges next n (id ∷ stack)) done (targets_of next id)

        extend :
            (t : Text)
            → includes (targets_of next id) t ≡ true
            → (u : Text) → includes (id ∷ stack) u ≡ true
            → LeadsOn u t
        extend t i u k = elim (includes-cases id stack u k) [
          | inl e ↦ (t, subst (λ v. includes (targets_of next v) t ≡ true) e i, here refl)
          | inr j ↦ let (y, m, w) = below u j in (y, m, on id t w i refl)
        ]

        finish :
            (c : Cycle)
            → Judged done (targets_of next id) c
            → Judged done (id ∷ []) (then_cycle c (λ d. acyclic (id ∷ d)))
        finish cyclic j = j
        finish out_of_fuel j = j
        finish (acyclic d) (o, grows, has) = (
          (has, o),
          λ y k. includes_later id d y (grows y k),
          λ t i. elim (includes-cases id [] t i) [
            | inl e ↦ subst (λ v. includes (id ∷ d) v ≡ true) e (includes_first id d)
            | inr k ↦ cc
          ],
        )

        searched :
            (left next (id ∷ stack) < n → Judged done (targets_of next id) inner)
            → (targets_of next id ≡ []) ⊎ (left next (id ∷ stack) < left next stack)
            → Judged done (targets_of next id) inner
        searched go (inr less) = go (omega (arith, h, less))
        searched go (inl empty) =
            subst
              (λ ts.
                Judged done ts
                  (some_cycle (cycle definition kinds edges next n (id ∷ stack)) done ts))
              (sym empty) (s, λ y k. k, λ t k. cc)

        by_test :
            (open' : Bool)
            → includes stack id ≡ open'
            → (finished : Bool) → includes done id ≡ finished
            → (left next (id ∷ stack) < n → Judged done (targets_of next id) inner)
            → Judged done (id ∷ []) (
                if open'
                then cyclic
                else if finished
                then acyclic done
                else then_cycle inner (λ d. acyclic (id ∷ d)))
        by_test true e finished f go = (id, below id e)
        by_test false e true f go = (
          s,
          λ y k. k,
          λ t i. elim (includes-cases id [] t i) [
            | inl q ↦ subst (λ v. includes done v ≡ true) q f
            | inr k ↦ cc
          ],
        )
        by_test false e false f go = finish inner (searched go (left_less next stack id e))

module _ (definition : FlowDefinition) (kinds : Fields NodeKind) (edges : Fields (List Text)) where
  -- A walk from a node back to it that takes no edge to a loop's body.
  abbrev pub IsLoop : Text → Type 0
  IsLoop id = LeadsOn (stripped definition.nodes edges) id id

  abbrev pub Verdict : List Text → Cycle → Type 0
  Verdict ids cyclic = (id : Text) × IsLoop id
  Verdict ids (acyclic done) = (id : Text) → includes ids id ≡ true → ¬ (IsLoop id)
  Verdict ids out_of_fuel = ⊥

  -- A cycle that is found is a walk from a node back to it that takes no edge to a loop's body;
  -- when none is found, no such walk leads from any of the searched nodes to itself. The search
  -- ends.
  pub find_cycle-Verdict : (ids : List Text) → Verdict ids (find_cycle definition kinds edges ids)
  unfolding find_cycle includes
  find_cycle-Verdict ids =
      let next = stripped definition.nodes edges in
      judge (find_cycle definition kinds edges ids) (
        some_cycle-Judged next
          (cycle definition kinds edges next (enough definition kinds edges next) []) [] ids
          (λ d t s i.
            cycle-Judged next definition kinds edges (enough definition kinds edges next) [] d t
              (omega (arith, left_all next [])) s (λ u k. cc))
          tt)
    where
      judge : (c : Cycle) → Judged (stripped definition.nodes edges) [] ids c → Verdict ids c
      judge cyclic j = j
      judge out_of_fuel j = j
      judge (acyclic done) (s, grows, has) =
          λ id i. IsSorted-LeadsOn (stripped definition.nodes edges) done id s (has id i)
