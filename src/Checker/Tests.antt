-- ===== src/Checker/Tests.antt =====
-- The checks of a definition's graph in checker.ts (packages/flow-graph/src), at concrete graphs.
use sozai.Common.Text.{same}
use sozai.Common.{◌≡◌, refl, true, false, Option, none, some, List, [], ◌∷◌}
use sozai.Common.Text.{Text, txt, includes}
use sozai.Common.Fields.{Fields}
use sozai.FlowGraph.Types.{FlowNode, FlowDefinition}
use sozai.Checker.{ids_of, unreachable, no_end, unbounded_cycle, analyze_graph, find_cycle}
use sozai.Common.Sets.{IsDistinct}
use sozai.Checker.Dominators.{has_dominator, compute_dominators}
use sozai.Checker.Dominance.{Passes, compute_dominators-Passes}
use sozai.Checker.Search.{Reaches}
use sozai.Checker.Ends.{Leads, ReachesEnd}
use sozai.Checker.Cycles.{IsLoop, Verdict, find_cycle-Verdict}
use sozai.Checker.Analysis.{analyze_graph-empty}

abbrev node : Text → Option Text → FlowNode
node kind body_id = record {
  kind = kind;
  next = none;
  on_error = none;
  body_is_flow = false;
  body_id = body_id;
  max_iterations = 3;
  retry = none;
}

-- A loop `a` with the body `b`, and the node `c` that ends it.
abbrev looping : FlowDefinition
looping = record {
  id = txt "flow";
  version = 1;
  start = txt "a";
  nodes =
      (txt "a", node (txt "loop") (some (txt "b")))
      ∷ (txt "b", node (txt "log") none)
      ∷ (txt "c", node (txt "goto") none)
      ∷ [];
}

abbrev looping_edges : Fields (List Text)
looping_edges = (txt "a", txt "b" ∷ txt "c" ∷ []) ∷ (txt "b", txt "a" ∷ []) ∷ (txt "c", []) ∷ []

-- The body leads to itself, and `c` from nowhere.
abbrev broken_edges : Fields (List Text)
broken_edges = (txt "a", txt "b" ∷ []) ∷ (txt "b", txt "b" ∷ []) ∷ (txt "c", []) ∷ []

looping_issues : analyze_graph looping [] looping_edges ≡ []
unfolding analyze_graph
looping_issues = refl

broken_issues :
    analyze_graph looping [] broken_edges
    ≡ (no_end (txt "a") ∷ no_end (txt "b") ∷ unreachable (txt "c") ∷ unbounded_cycle ∷ [])
unfolding analyze_graph
broken_issues = refl

find_cycle_example :
    Verdict looping [] broken_edges
      (txt "a" ∷ txt "b" ∷ [])
      (find_cycle looping [] broken_edges (txt "a" ∷ txt "b" ∷ []))
find_cycle_example = find_cycle-Verdict looping [] broken_edges (txt "a" ∷ txt "b" ∷ [])

analyze_graph_example :
    Reaches looping [] looping_edges (txt "a") (txt "b")
    × ReachesEnd looping [] looping_edges (txt "b")
    × (¬ (IsLoop looping [] looping_edges (txt "b")))
unfolding analyze_graph
analyze_graph_example = analyze_graph-empty looping [] looping_edges refl (txt "b") refl

looping-ids : IsDistinct (ids_of looping [] looping_edges looping.nodes)
unfolding includes same
looping-ids = (refl, (refl, (refl, tt)))

looping_dominators :
    compute_dominators (txt "a") (txt "a" ∷ txt "b" ∷ txt "c" ∷ []) looping_edges
    ≡ some (
        (txt "a", txt "a" ∷ [])
        ∷ (txt "b", txt "b" ∷ txt "a" ∷ [])
        ∷ (txt "c", txt "c" ∷ txt "a" ∷ [])
        ∷ [])
unfolding compute_dominators
looping_dominators = refl

compute_dominators_example :
    (d : Fields (List Text)) × (compute_dominators
        (txt "a")
        (ids_of looping [] looping_edges looping.nodes)
        looping_edges
      ≡ some d)
    × ((id c : Text)
        → has_dominator d id c ≡ true
        → (w : Leads looping_edges (txt "a") id) → Passes looping_edges (txt "a") c id w)
compute_dominators_example =
    compute_dominators-Passes (txt "a") (ids_of looping [] looping_edges looping.nodes) looping-ids
      looping_edges
