-- ===== src/Checker/Analysis.antt =====
-- What follows when `analyzeGraph` of checker.ts (packages/flow-graph/src) reports nothing.
use sozai.Common.{◌≡◌, refl, Bool, true, false, not, List, [], ◌∷◌, ◌++◌, inl, inr}
use mathlib.Core.Path.{subst}
use sozai.Common.Text.{Text, includes}
use sozai.Common.Fields.{Fields}
use sozai.FlowGraph.Types.{FlowDefinition}
use sozai.FlowGraph.Commits.{NodeKind}
use sozai.Checker.{
  Cycle, cyclic, acyclic, out_of_fuel, GraphIssue, unreachable, no_end, report, node_issues,
  cycle_issues, analyze_graph, ids_of, reachable_nodes, reaches_end, find_cycle,
}
use sozai.Common.Sets.{includes-cases}
use sozai.Checker.Search.{Reaches, reachable_nodes_iff}
use sozai.Checker.Ends.{ReachesEnd, reaches_end_iff}
use sozai.Checker.Cycles.{IsLoop, Verdict, find_cycle-Verdict}

pub ++-empty : {A : Type 0} (xs ys : List A) → xs ++ ys ≡ [] → (xs ≡ []) × (ys ≡ [])
++-empty [] ys h = (refl, h)
++-empty (x ∷ xs) ys h = cc

module _ (definition : FlowDefinition) (kinds : Fields NodeKind) (edges : Fields (List Text)) where
  report-empty :
      (test : Bool) (issue : GraphIssue)
      → report definition kinds edges (not test) issue ≡ []
      → test ≡ true
  report-empty true issue h = refl
  report-empty false issue h = cc

  node_issues-empty :
      (ids : List Text)
      → node_issues definition kinds edges ids ≡ []
      → (id : Text) → includes ids id ≡ true
      → Reaches definition kinds edges definition.start id × ReachesEnd definition kinds edges id
  unfolding node_issues includes
  node_issues-empty [] h id i = cc
  node_issues-empty (first ∷ rest) h id i =
      let reached =
        report definition kinds edges
          (not (includes (reachable_nodes definition kinds edges) first)) (unreachable first) in
      let ended =
        report definition kinds edges (not (reaches_end definition kinds edges first))
          (no_end first) in
      let (none_reached, more) = ++-empty reached _ h in
      let (none_ended, others) = ++-empty ended _ more in
      elim (includes-cases first rest id i) [
        | inr k ↦ node_issues-empty rest others id k
        | inl e ↦
            subst
              (λ v.
                Reaches definition kinds edges definition.start v
                × ReachesEnd definition kinds edges v)
              e
              (
                (reachable_nodes_iff definition kinds edges first).0 (
                    report-empty (includes (reachable_nodes definition kinds edges) first)
                      (unreachable first) none_reached),
                (reaches_end_iff definition kinds edges first).0 (
                    report-empty (reaches_end definition kinds edges first) (no_end first)
                      none_ended),
              )
      ]

  cycle_issues-empty :
      (ids : List Text) (c : Cycle)
      → Verdict definition kinds edges ids c
      → cycle_issues definition kinds edges c ≡ []
      → (id : Text) → includes ids id ≡ true
      → ¬ (IsLoop definition kinds edges id)
  cycle_issues-empty ids cyclic v h id i = cc
  cycle_issues-empty ids out_of_fuel v h id i = absurd v
  cycle_issues-empty ids (acyclic done) v h id i = v id i

  -- In a definition whose graph raises no issue, a walk over its nodes leads from the start to each
  -- of them, a walk leads from each to an end node, and every walk from one back to it takes an
  -- edge to a loop's body.
  pub analyze_graph-empty :
      analyze_graph definition kinds edges ≡ []
      → (id : Text) → includes (ids_of definition kinds edges definition.nodes) id ≡ true
      → Reaches definition kinds edges definition.start id
        × ReachesEnd definition kinds edges id
        × (¬ (IsLoop definition kinds edges id))
  unfolding analyze_graph
  analyze_graph-empty h id i =
      let ids = ids_of definition kinds edges definition.nodes in
      let (nodes_empty, cycles_empty) = ++-empty (node_issues definition kinds edges ids) _ h in
      let (reached, ended) = node_issues-empty ids nodes_empty id i in
      (
        reached,
        ended,
        cycle_issues-empty ids (find_cycle definition kinds edges ids)
            (find_cycle-Verdict definition kinds edges ids) cycles_empty id i,
      )
