-- ===== src/Checker.antt =====
-- packages/flow-graph/src/checker.ts: what the checker of authored definitions makes of their graph.
-- `edges` are the targets of the nodes, by the nodes' ids.
pub mod Walks
pub mod Search
pub mod Ends
pub mod Cycles
pub mod Analysis
pub mod Dominators
pub mod Shrinking
pub mod Settling
pub mod Dominance
pub mod ResultPaths
pub mod References
pub mod Reads
pub mod Producers
mod ReadTests
mod Tests
use sozai.Common.{
  ℕ, zero, suc, ◌+◌, Bool, true, false, not, ◌&&◌, ◌||◌, Option, none, some, List, [], ◌∷◌, ◌++◌,
  map, is_some, if◌then◌else◌,
}
use sozai.Common.Lists.{length}
use sozai.Common.Text.{Text, txt, same, includes}
use sozai.Common.Fields.{Fields, own}
use sozai.FlowGraph.Types.{FlowNode, FlowDefinition}
use sozai.FlowGraph.Commits.{NodeKind}

-- `edges.get(id) ?? []`
abbrev pub targets_from : Option (List Text) → List Text
targets_from none = []
targets_from (some targets) = targets

abbrev pub targets_of : Fields (List Text) → Text → List Text
targets_of edges id = targets_from (own edges id)

-- The loop over the targets of a node that has been added to the reachable ones.
unfoldable pub visit_all : (List Text → Text → List Text) → List Text → List Text → List Text
visit_all visit reachable [] = reachable
visit_all visit reachable (next ∷ rest) = visit_all visit (visit reachable next) rest

-- `some` over the targets: whether one is found, with the visited nodes.
unfoldable pub some_target :
    (List Text → Text → Bool × List Text) → List Text → List Text → Bool × List Text
some_target contains visited [] = (false, visited)
some_target contains visited (next ∷ rest) =
    let found = contains visited next in
    if found.0 then found else some_target contains found.1 rest

-- How `cycle` ends, with the nodes that are done; `out_of_fuel` is of the model alone.
pub data Cycle : Type 0 where
  cyclic : Cycle
  acyclic : List Text → Cycle
  out_of_fuel : Cycle

abbrev pub then_cycle : Cycle → (List Text → Cycle) → Cycle
then_cycle cyclic next = cyclic
then_cycle out_of_fuel next = out_of_fuel
then_cycle (acyclic done) next = next done

unfoldable pub some_cycle : (List Text → Text → Cycle) → List Text → List Text → Cycle
some_cycle cycle done [] = acyclic done
some_cycle cycle done (next ∷ rest) =
    then_cycle (cycle done next) (λ done'. some_cycle cycle done' rest)

-- `filter` of the targets that are not the loop's body.
unfoldable pub without_body : Option Text → List Text → List Text
without_body none targets = targets
without_body (some body) [] = []
without_body (some body) (target ∷ rest) =
    let kept = without_body (some body) rest in if same body target then kept else target ∷ kept

-- The body edge of a loop node.
abbrev pub loop_body : Option FlowNode → Option Text
loop_body none = none
loop_body (some node) = if same node.kind (txt "loop") then node.body_id else none

unfoldable pub stripped : Fields FlowNode → Fields (List Text) → Fields (List Text)
unfolding without_body own
stripped nodes [] = []
stripped nodes ((id, next) ∷ rest) =
    (id, without_body (loop_body (own nodes id)) next) ∷ stripped nodes rest

pub data GraphIssue : Type 0 where
  unreachable no_end : Text → GraphIssue
  unbounded_cycle : GraphIssue

module _ (definition : FlowDefinition) (kinds : Fields NodeKind) (edges : Fields (List Text)) where
  abbrev pub ends_at : Option NodeKind → Bool
  ends_at none = false
  ends_at (some kind) = kind.terminal

  abbrev pub is_end : Option FlowNode → Bool
  is_end none = false
  is_end (some node) = same node.kind (txt "goto") || ends_at (own kinds node.kind)

  unfoldable pub is_end_node : Text → Bool
  unfolding own same
  is_end_node id = is_end (own definition.nodes id)

  abbrev pub is_node : Text → Bool
  is_node id = is_some (own definition.nodes id)

  -- `visit`, with the nodes that are reachable so far.
  unfoldable pub visit : ℕ → List Text → Text → List Text
  unfolding visit_all includes own
  visit zero reachable id = reachable
  visit (suc fuel) reachable id =
      let entered = visit_all (visit fuel) (id ∷ reachable) (targets_of edges id) in
      if includes reachable id || not (is_node id) then reachable else entered

  unfoldable pub contains_end : ℕ → List Text → Text → Bool × List Text
  unfolding some_target includes own is_end_node
  contains_end zero visited start = (false, visited)
  contains_end (suc fuel) visited start =
      let inner = some_target (contains_end fuel) (start ∷ visited) (targets_of edges start) in
      if includes visited start
      then (false, visited)
      else if is_end_node start
      then (true, start ∷ visited)
      else inner

  -- `cycle`, over the targets `next`.
  unfoldable pub cycle : Fields (List Text) → ℕ → List Text → List Text → Text → Cycle
  unfolding some_cycle includes own
  cycle next zero stack done id = out_of_fuel
  cycle next (suc fuel) stack done id =
      let inner = some_cycle (cycle next fuel (id ∷ stack)) done (targets_of next id) in
      if includes stack id
      then cyclic
      else if includes done id
      then acyclic done
      else then_cycle inner (λ d. acyclic (id ∷ d))

  -- One round more than there are nodes with targets.
  abbrev pub enough : Fields (List Text) → ℕ
  enough next = suc (length next)

  unfoldable pub reachable_nodes : List Text
  unfolding visit
  reachable_nodes = visit (enough edges) [] definition.start

  unfoldable pub reaches_end : Text → Bool
  unfolding contains_end
  reaches_end id = (contains_end (enough edges) [] id).0

  unfoldable pub find_cycle : List Text → Cycle
  unfolding cycle stripped some_cycle
  find_cycle ids =
      let next = stripped definition.nodes edges in some_cycle (cycle next (enough next) []) [] ids

  abbrev pub report : Bool → GraphIssue → List GraphIssue
  report test issue = if test then issue ∷ [] else []

  unfoldable pub node_issues : List Text → List GraphIssue
  unfolding reachable_nodes reaches_end includes
  node_issues [] = []
  node_issues (id ∷ rest) =
      report (not (includes reachable_nodes id)) (unreachable id)
      ++ (report (not (reaches_end id)) (no_end id) ++ node_issues rest)

  abbrev pub cycle_issues : Cycle → List GraphIssue
  cycle_issues cyclic = unbounded_cycle ∷ []
  cycle_issues (acyclic done) = []
  cycle_issues out_of_fuel = []

  abbrev pub ids_of : Fields FlowNode → List Text
  ids_of [] = []
  ids_of ((id, node) ∷ rest) = id ∷ ids_of rest

  -- `analyzeGraph`, up to the reads of results.
  unfoldable pub analyze_graph : List GraphIssue
  unfolding node_issues find_cycle
  analyze_graph =
      node_issues (ids_of definition.nodes) ++ cycle_issues (find_cycle (ids_of definition.nodes))
